-- ===== src/Prom/Engine/GroupedKept.antt =====
-- The labels of the groups of an answer over a range (src/prometheus.rs).
use skaldberg.Base.{
  ◌+◌, ◌≡◌, refl, Bool, false, Bool-cases, inl, inr, Option, List, [], ◌∷◌, ◌++◌, All, ok, ◌>>=◌,
  >>=-eq-ok, ok-inj, length, Result, is_empty,
}
use skaldberg.Base.Int.{ℤ}
use skaldberg.Order.{list_ord, nat_ord, pair_ord}
use skaldberg.BTreeMap.{get, get_or}
use skaldberg.BTreeMap.Sums.{AllKeys, AllKeys-insert}
use skaldberg.Text.{Text}
use skaldberg.Float.{Float}
use skaldberg.Prom.Types.{Labels, RangePoints, LabelModifier}
use skaldberg.Prom.Aggregate.{is_listed}
use skaldberg.Prom.Aggregate.Kept.{keeps_label, AreKept}
use skaldberg.Prom.Engine.{
  PromError, Cell, Entries, Column, labels_to_btree, column, as_map, as_float64,
}
use skaldberg.Prom.Engine.Aggregate.{
  keeps_value, label_arrays, heads, tails, group_labels, retain_not,
}
use skaldberg.Prom.Engine.Grouped.{
  Groups, group_series, grouped_rows, grouped_batches, regroup_row, regrouped_rows,
  regrouped_batches, push_point,
}
use skaldberg.Prom.Engine.RangeAggregate.{decode_by, decode_without}
use skaldberg.Prom.Engine.Retained.{group_labels-get}

module _ {F : Type 0} (modifier : Option LabelModifier) where
  -- No name, no label that the aggregation drops, and at least one point
  abbrev pub IsRetainedSeries : RangePoints F → Type 0
  IsRetainedSeries s =
      (s.metric_name ≡ []) × AreKept modifier s.labels × (is_empty s.points ≡ false)

  push_point-AllKeys :
      (labels : Labels) (t : ℤ) (v : F) (by_group : Groups F)
      → AreKept modifier labels
      → AllKeys (AreKept modifier) by_group
      → AllKeys (AreKept modifier) (push_point labels t v by_group)
  push_point-AllKeys labels t v by_group k a =
      AllKeys-insert (AreKept modifier) labels (get_or [] labels by_group ++ ((t, v) ∷ [])) by_group
        k a

  pub group_series-All :
      (by_group : Groups F)
      → AllKeys (AreKept modifier) by_group
      → All IsRetainedSeries (group_series by_group)
  unfolding group_series
  group_series-All [] a = tt
  group_series-All ((labels, []) ∷ by_group) a = group_series-All by_group a.1
  group_series-All ((labels, p ∷ points) ∷ by_group) a =
      ((refl, a.0, refl), group_series-All by_group a.1)

module _ {F : Type 0} ⦃f : Float F⦄ (only_finite : Bool)
    (as_time : Column F → Result PromError (List (Cell ℤ))) (modifier : Option LabelModifier) where
  module _ (group_keys : List Text)
      (h : (k : Text) → keeps_label modifier k ≡ false → is_listed k group_keys ≡ false) where
    grouped_rows-AllKeys :
        (times : List (Cell ℤ)) (arrays : List (List (Cell Text))) (values : List (Cell F))
        (by_group : Groups F)
        → AllKeys (AreKept modifier) by_group
        → AllKeys
            (AreKept modifier)
            (grouped_rows only_finite as_time group_keys times arrays values by_group)
    unfolding grouped_rows get
    grouped_rows-AllKeys [] arrays values by_group a = a
    grouped_rows-AllKeys (t ∷ times) arrays [] by_group a = a
    grouped_rows-AllKeys (t ∷ times) arrays (v ∷ values) by_group a =
        elim (Bool-cases (keeps_value only_finite v)) [
          | inl e ↦
              rw (e, grouped_rows)
                (grouped_rows-AllKeys times (tails arrays) values _ (
                  push_point-AllKeys modifier (group_labels group_keys (heads arrays) []) t.value
                    v.value by_group
                    (λ k n. group_labels-get k group_keys (heads arrays) [] (h k n) refl) a))
          | inr e ↦
              rw (e, grouped_rows) (grouped_rows-AllKeys times (tails arrays) values by_group a)
        ]

    grouped_batches-AllKeys :
        (batches : List (List (Column F))) (by_group out : Groups F)
        → AllKeys (AreKept modifier) by_group
        → grouped_batches only_finite as_time group_keys batches by_group ≡ ok out
        → AllKeys (AreKept modifier) out
    unfolding grouped_batches
    grouped_batches-AllKeys [] by_group out a e = rw (← ok-inj e) a
    grouped_batches-AllKeys (batch ∷ batches) by_group out a e =
        let (times, e₀, h₀) = >>=-eq-ok (column 0 batch >>= as_time) _ out e in
        let (values, e₁, h₁) =
          >>=-eq-ok (column (1 + length group_keys) batch >>= as_float64) _ out h₀ in
        let (arrays, e₂, h₂) = >>=-eq-ok (label_arrays (length group_keys) 1 batch) _ out h₁ in
        grouped_batches-AllKeys batches _ out (grouped_rows-AllKeys times arrays values by_group a)
          h₂

    pub decode_by-All :
        (batches : List (List (Column F))) (out : List (RangePoints F))
        → decode_by only_finite as_time group_keys batches ≡ ok out
        → All (IsRetainedSeries modifier) out
    unfolding decode_by
    decode_by-All batches out e =
        let (by_group, e₁, h₁) =
          >>=-eq-ok (grouped_batches only_finite as_time group_keys batches []) _ out e in
        let same : group_series by_group ≡ out = ok-inj h₁ in
        rw (← same)
          (group_series-All modifier by_group (grouped_batches-AllKeys batches [] by_group tt e₁))

  module _ (change : Labels → Labels) (c : (ls : Labels) → AreKept modifier (change ls)) where
    regroup_row-AllKeys :
        (l : Cell Entries) (t : Cell ℤ) (v : Cell F) (by_group out : Groups F)
        → AllKeys (AreKept modifier) by_group
        → regroup_row only_finite as_time change l t v by_group ≡ ok out
        → AllKeys (AreKept modifier) out
    unfolding regroup_row
    regroup_row-AllKeys l t v by_group out a e = elim (Bool-cases (keeps_value only_finite v)) [
      | inr k ↦ rw (← ok-inj (rw (k, regroup_row) at e)) a
      | inl k ↦
          let (ls, e₁, h₁) = >>=-eq-ok (labels_to_btree l) _ out (rw (k, regroup_row) at e) in
          rw (← ok-inj h₁)
            (push_point-AllKeys modifier (change ls) t.value v.value by_group (c ls) a)
    ]

    regrouped_rows-AllKeys :
        (labels : List (Cell Entries)) (times : List (Cell ℤ)) (values : List (Cell F))
        (by_group out : Groups F)
        → AllKeys (AreKept modifier) by_group
        → regrouped_rows only_finite as_time change labels times values by_group ≡ ok out
        → AllKeys (AreKept modifier) out
    unfolding regrouped_rows
    regrouped_rows-AllKeys [] times values by_group out a e = rw (← ok-inj e) a
    regrouped_rows-AllKeys (l ∷ labels) [] values by_group out a e = rw (← ok-inj e) a
    regrouped_rows-AllKeys (l ∷ labels) (t ∷ times) [] by_group out a e = rw (← ok-inj e) a
    regrouped_rows-AllKeys (l ∷ labels) (t ∷ times) (v ∷ values) by_group out a e =
        let (mid, e₁, h₁) =
          >>=-eq-ok (regroup_row only_finite as_time change l t v by_group) _ out e in
        regrouped_rows-AllKeys labels times values mid out
          (regroup_row-AllKeys l t v by_group mid a e₁) h₁

    pub regrouped_batches-AllKeys :
        (batches : List (List (Column F))) (by_group out : Groups F)
        → AllKeys (AreKept modifier) by_group
        → regrouped_batches only_finite as_time change batches by_group ≡ ok out
        → AllKeys (AreKept modifier) out
    unfolding regrouped_batches
    regrouped_batches-AllKeys [] by_group out a e = rw (← ok-inj e) a
    regrouped_batches-AllKeys (batch ∷ batches) by_group out a e =
        let (labels, e₀, h₀) = >>=-eq-ok (column 0 batch >>= as_map) _ out e in
        let (times, e₁, h₁) = >>=-eq-ok (column 1 batch >>= as_time) _ out h₀ in
        let (values, e₂, h₂) = >>=-eq-ok (column 2 batch >>= as_float64) _ out h₁ in
        let (mid, e₃, h₃) =
          >>=-eq-ok (regrouped_rows only_finite as_time change labels times values by_group) _ out
            h₂ in
        regrouped_batches-AllKeys batches mid out
          (regrouped_rows-AllKeys labels times values by_group mid a e₃) h₃

  pub decode_without-All :
      (excluded : List Text)
      → ((ls : Labels) → AreKept modifier (retain_not excluded ls))
      → (batches : List (List (Column F))) (out : List (RangePoints F))
      → decode_without only_finite as_time excluded batches ≡ ok out
      → All (IsRetainedSeries modifier) out
  unfolding decode_without
  decode_without-All excluded c batches out e =
      let (by_group, e₁, h₁) =
        >>=-eq-ok (regrouped_batches only_finite as_time (retain_not excluded) batches []) _ out
          e in
      let same : group_series by_group ≡ out = ok-inj h₁ in
      rw (← same) (
        group_series-All modifier by_group
          (regrouped_batches-AllKeys (retain_not excluded) c batches [] by_group tt e₁))
