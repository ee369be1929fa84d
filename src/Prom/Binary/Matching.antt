-- ===== src/Prom/Binary/Matching.antt =====
-- What the comparison of two vectors keeps (src/prometheus.rs).
use skaldberg.Base.{
  ◌≡◌, refl, ap, ◌∙◌, Bool, true, false, inl, inr, Option, Option-cases, none, some, List, [], ◌∷◌,
  if◌then◌else◌, keep_if, arith,
}
use skaldberg.Order.{◌=?◌, list_ord, nat_ord, pair_ord}
use skaldberg.BTreeMap.{BTreeMap, get, insert}
use skaldberg.BTreeMap.Laws.{get-insert}
use skaldberg.Float.{Float}
use skaldberg.Prom.Types.{Labels, InstantPoint, BinOp}
use skaldberg.Prom.Ops.{is_comparison, comparison_passes}
use skaldberg.Prom.Query.{or_else}
use skaldberg.Prom.Binary.{filter_map, index_points, match_point, apply_vector_vector_instant}

module _ {F : Type 0} ⦃f : Float F⦄ where
  -- The last point with these labels
  abbrev pub last_with : Labels → List (InstantPoint F) → Option (InstantPoint F)
  last_with k [] = none
  last_with k (r ∷ rhs) = or_else (last_with k rhs) (if k =? r.labels then some r else none)

  get-index_points :
      (k : Labels) (rhs : List (InstantPoint F)) (index : BTreeMap Labels (InstantPoint F))
      → get k (index_points rhs index) ≡ or_else (last_with k rhs) (get k index)
  unfolding index_points
  get-index_points k [] index = refl
  get-index_points k (r ∷ rhs) index =
      ground
        (arith, get-index_points k rhs (insert r.labels r index), get-insert k r.labels r index)

  -- The right side has a point with the same labels, and the comparison with it holds.
  abbrev pub passes : BinOp → List (InstantPoint F) → InstantPoint F → Bool
  passes op rhs l = elim (last_with l.labels rhs) [
    | none ↦ false
    | some r ↦ comparison_passes l.value r.value op
  ]

  abbrev pub matched : BinOp → List (InstantPoint F) → InstantPoint F → Option (InstantPoint F)
  matched op rhs l = elim (last_with l.labels rhs) [
    | none ↦ none
    | some r ↦ if comparison_passes l.value r.value op then some l else none
  ]

  filter_map-matched :
      (op : BinOp) (rhs lhs : List (InstantPoint F))
      → filter_map (matched op rhs) lhs ≡ keep_if (passes op rhs) lhs
  filter_map-matched op rhs [] = refl
  filter_map-matched op rhs (l ∷ lhs) = ground (arith, filter_map-matched op rhs lhs)

  filter_map-ext :
      (g h : InstantPoint F → Option (InstantPoint F)) (xs : List (InstantPoint F))
      → ((x : InstantPoint F) → g x ≡ h x)
      → filter_map g xs ≡ filter_map h xs
  filter_map-ext g h [] e = refl
  filter_map-ext g h (x ∷ xs) e = ground (arith, e x, filter_map-ext g h xs e)

  found :
      (op : BinOp) (rhs : List (InstantPoint F)) (l : InstantPoint F)
      → is_comparison op ≡ true
      → (elim (get l.labels (index_points rhs [])) as (λ x. Option (InstantPoint F)) [
        | none ↦ none
        | some r ↦ match_point op false l r
      ])
        ≡ matched op rhs l
  unfolding match_point get
  found op rhs l h =
      let index = get-index_points l.labels rhs [] in
      elim (Option-cases (last_with l.labels rhs)) [
        | inl n ↦
            let g : get l.labels (index_points rhs []) ≡ none =
              cc (index, ap (λ x. or_else x none) n) in
            rw (g, n, matched)
        | inr (r, n) ↦
            let g : get l.labels (index_points rhs []) ≡ some r =
              cc (index, ap (λ x. or_else x none) n) in
            rw (g, n, matched) (rw (h))
      ]

  -- A comparison of two vectors without `bool` keeps, unchanged and in their order, exactly those
  -- points of the left side for which the right side has a point with the same labels (the last one,
  -- if there are several) and the comparison of the two values holds.
  pub apply_vector_vector_instant-filters :
      (op : BinOp) (lhs rhs : List (InstantPoint F))
      → is_comparison op ≡ true
      → apply_vector_vector_instant lhs rhs op false ≡ keep_if (passes op rhs) lhs
  unfolding apply_vector_vector_instant
  apply_vector_vector_instant-filters op lhs rhs h =
      filter_map-ext _ (matched op rhs) lhs (λ l. found op rhs l h) ∙ filter_map-matched op rhs lhs
