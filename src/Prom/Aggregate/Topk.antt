-- ===== src/Prom/Aggregate/Topk.antt =====
-- What `topk` and `bottomk` of src/prometheus.rs return.
use skaldberg.Base.{
  ℕ, zero, suc, ◌+◌, ◌≡◌, refl, sym, ap, ◌∙◌, Bool, true, false, Bool-cases, inl, inr, Option, List,
  [], ◌∷◌, ◌++◌, ◌==◌, All, take, drop, map, length, keep_if, arith, ltb, subst, if◌then◌else◌,
}
use skaldberg.Order.{◌=?◌, list_ord, nat_ord, pair_ord}
use skaldberg.BTreeMap.{BTreeMap, get, get_or}
use skaldberg.BTreeMap.Laws.{HasDistinctKeys}
use skaldberg.Float.{Float}
use skaldberg.Prom.Types.{Labels, InstantPoint, LabelModifier}
use skaldberg.Prom.Ops.{after}
use skaldberg.Prom.Aggregate.{group_by, sort_by, retained_labels, topk_groups, topk_instant_points}
use skaldberg.Prom.Aggregate.Groups.{
  values_at, get_or-group_by, group_by-IsSorted, IsSorted-HasDistinctKeys, group_by-All,
}
use skaldberg.Prom.Aggregate.Sorted.{Orders, Descends, sort_by-Descends, length-keep_if-sort_by}

module _ {A : Type 0} where
  take-drop : (n : ℕ) (xs : List A) → take n xs ++ drop n xs ≡ xs
  take-drop zero xs = refl
  take-drop (suc n) [] = refl
  take-drop (suc n) (x ∷ xs) = ap (◌∷◌ x) (take-drop n xs)

  length-take_min :
      (n : ℕ) (xs : List A) → length (take n xs) ≡ (if ltb n (length xs) then n else length xs)
  length-take_min zero [] = refl
  length-take_min zero (x ∷ xs) = ground arith
  length-take_min (suc n) [] = ground arith
  length-take_min (suc n) (x ∷ xs) = ground (arith, length-take_min n xs)

  length-keep_if-append :
      (p : A → Bool) (xs ys : List A)
      → length (keep_if p (xs ++ ys)) ≡ length (keep_if p xs) + length (keep_if p ys)
  length-keep_if-append p [] ys = omega arith
  length-keep_if-append p (x ∷ xs) ys = ground (arith, length-keep_if-append p xs ys)

  length-all : (xs : List A) → length (keep_if (λ x. true) xs) ≡ length xs
  length-all [] = refl
  length-all (x ∷ xs) = omega (arith, length-all xs)

-- `<` on the floats that are numbers, as IEEE 754 has it
abbrev pub OrdersNumbers : {F : Type 0} → Float F → Type 0
OrdersNumbers {F} f =
    ((a b : F) → f.is_nan a ≡ false → f.is_nan b ≡ false → f.flt a b ≡ true → f.flt b a ≡ false)
    × ((a b c : F)
        → f.is_nan a ≡ false
        → f.is_nan b ≡ false
        → f.is_nan c ≡ false
        → f.flt a b ≡ false
        → f.flt b c ≡ false
        → f.flt a c ≡ false)

module _ {F : Type 0} ⦃f : Float F⦄ where
  abbrev pub IsNumber : InstantPoint F → Type 0
  IsNumber p = f.is_nan p.value ≡ false

  abbrev pub behind : Bool → InstantPoint F → InstantPoint F → Bool
  behind top a b = if top then f.flt a.value b.value else f.flt b.value a.value

  -- `winners` are points of the group, `n` of them or all, in order and none behind one left out.
  abbrev pub IsTop : ℕ → Bool → List (InstantPoint F) → List (InstantPoint F) → Type 0
  IsTop n top members winners =
      (others : List (InstantPoint F)) × ((p : InstantPoint F → Bool)
        → length (keep_if p members) ≡ length (keep_if p winners) + length (keep_if p others))
      × (length winners ≡ (if ltb n (length members) then n else length members))
      × Descends (behind top) (winners ++ others)

  -- Group after group
  abbrev pub AreTop :
      ℕ → Bool → BTreeMap Labels (List (InstantPoint F)) → List (InstantPoint F) → Type 0
  AreTop n top [] out = out ≡ []
  AreTop n top ((k, members) ∷ groups) out =
      (winners : List (InstantPoint F)) × (rest : List (InstantPoint F)) × (out ≡ winners ++ rest)
      × IsTop n top members winners
      × AreTop n top groups rest

  -- The input points that a group is made of
  abbrev pub members_of :
      Option LabelModifier → Labels → List (InstantPoint F) → List (InstantPoint F)
  members_of modifier k inner = keep_if (λ p. k =? retained_labels p.labels modifier) inner

  behind-Orders : (top : Bool) → OrdersNumbers f → Orders (behind top) IsNumber
  behind-Orders true o = (
    λ a b na nb. o.0 a.value b.value na nb,
    λ a b c na nb nc. o.1 a.value b.value c.value na nb nc,
  )
  behind-Orders false o = (
    λ a b na nb. o.0 b.value a.value nb na,
    λ a b c na nb nc h k. o.1 c.value b.value a.value nc nb na k h,
  )

  sorted-IsTop :
      (n : ℕ) (top : Bool) (members : List (InstantPoint F))
      → OrdersNumbers f
      → All IsNumber members
      → IsTop n top members (take n (sort_by (behind top) members))
  sorted-IsTop n top members o a =
      let sorted = sort_by (behind top) members in
      let whole = take-drop n sorted in
      let same : length sorted ≡ length members =
        sym (length-all sorted)
        ∙ length-keep_if-sort_by (behind top) (λ x. true) members
        ∙ length-all members in
      (
        drop n sorted,
        λ p.
            sym (length-keep_if-sort_by (behind top) p members)
            ∙ ap (λ l. length (keep_if p l)) (sym whole)
            ∙ length-keep_if-append p (take n sorted) (drop n sorted),
        length-take_min n sorted ∙ ap (λ m. if ltb n m then n else m) same,
        rw whole (sort_by-Descends (behind top) IsNumber members (behind-Orders top o) a),
      )

  values_at-members_of :
      (modifier : Option LabelModifier) (k : Labels) (inner : List (InstantPoint F))
      → values_at k (map (λ p. (retained_labels p.labels modifier, p)) inner)
        ≡ members_of modifier k inner
  values_at-members_of modifier k [] = refl
  values_at-members_of modifier k (p ∷ inner) =
      ground (arith, values_at-members_of modifier k inner)

  members_of-All :
      (modifier : Option LabelModifier) (k : Labels) (inner : List (InstantPoint F))
      → All IsNumber inner
      → All IsNumber (members_of modifier k inner)
  members_of-All modifier k [] a = tt
  members_of-All modifier k (p ∷ inner) a =
      elim (Bool-cases (k =? retained_labels p.labels modifier)) [
        | inl e ↦ rw (e, keep_if) (a.0, members_of-All modifier k inner a.1)
        | inr e ↦ rw (e, keep_if) (members_of-All modifier k inner a.1)
      ]

  topk_groups-AreTop :
      (n : ℕ) (top : Bool) (modifier : Option LabelModifier) (inner : List (InstantPoint F))
      (groups : BTreeMap Labels (List (InstantPoint F)))
      → OrdersNumbers f
      → All IsNumber inner
      → All
          (λ (k, vs). vs ≡ values_at k (map (λ p. (retained_labels p.labels modifier, p)) inner))
          groups
      → AreTop n top groups (topk_groups n top groups)
  unfolding topk_groups after
  topk_groups-AreTop n top modifier inner [] o a g = refl
  topk_groups-AreTop n top modifier inner ((k, members) ∷ groups) o a g =
      let here : members ≡ members_of modifier k inner =
        g.0 ∙ values_at-members_of modifier k inner in
      (
        take n (sort_by (behind top) members),
        topk_groups n top groups,
        refl,
        sorted-IsTop n top members o (rw here (members_of-All modifier k inner a)),
        topk_groups-AreTop n top modifier inner groups o a g.1,
      )

  topk_groups_none :
      (top : Bool) (groups : BTreeMap Labels (List (InstantPoint F)))
      → topk_groups 0 top groups ≡ []
  unfolding topk_groups
  topk_groups_none top [] = refl
  topk_groups_none top ((k, members) ∷ groups) = topk_groups_none top groups

  -- What `topk` (with `top`) and `bottomk` return, when no value is NaN and `<` orders the floats
  -- that are numbers: the input falls into groups, one for each key, of all points whose retained
  -- labels are the key; the result has for each group in turn `n` of its points, or all if there are
  -- fewer, unchanged and in descending (for `bottomk` ascending) order of value, and no point left
  -- out has a larger (smaller) value than one returned.
  pub topk_instant_points-AreTop :
      (inner : List (InstantPoint F)) (n : ℕ) (top : Bool) (modifier : Option LabelModifier)
      → OrdersNumbers f
      → All IsNumber inner
      → (groups : BTreeMap Labels (List (InstantPoint F))) × HasDistinctKeys groups
        × ((k : Labels) → get_or [] k groups ≡ members_of modifier k inner)
        × AreTop n top groups (topk_instant_points inner n top modifier)
  unfolding topk_instant_points get
  topk_instant_points-AreTop inner n top modifier o a =
      let items : List (Labels × InstantPoint F) =
        map (λ p. (retained_labels p.labels modifier, p)) inner in
      let groups = group_by items [] in
      let best = topk_groups-AreTop n top modifier inner groups o a (group_by-All items) in
      (
        groups,
        IsSorted-HasDistinctKeys groups (group_by-IsSorted items [] tt),
        λ k. get_or-group_by k items [] ∙ values_at-members_of modifier k inner,
        elim (Bool-cases (n == 0)) [
          | inl e ↦
              let none_taken : n ≡ 0 = ground arith in
              rw (e, topk_instant_points)
                (subst (AreTop n top groups)
                  (ap (λ m. topk_groups m top groups) none_taken ∙ topk_groups_none top groups)
                  best)
          | inr e ↦ rw (e, topk_instant_points) best
        ],
      )
