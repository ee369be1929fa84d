-- ===== src/Prom/Engine/Retained.antt =====
-- The labels of the aggregates that run as SQL in src/prometheus.rs.
use skaldberg.Base.{
  ◌≡◌, refl, Bool, true, false, Bool-cases, inl, inr, Option, none, some, List, [], ◌∷◌, ◌++◌, All,
  All-append, ok, ◌>>=◌, >>=-eq-ok, ok-inj, arith, if◌then◌else◌, length,
}
use skaldberg.Base.Int.{ℤ}
use skaldberg.Order.{list_ord, nat_ord}
use skaldberg.BTreeMap.{get, insert}
use skaldberg.BTreeMap.Laws.{get-insert}
use skaldberg.Text.{Text}
use skaldberg.Float.{Float}
use skaldberg.Prom.Types.{Labels, VectorSelector, InstantPoint, RangeFnOp, AggOp, LabelModifier}
use skaldberg.Prom.Select.{modifier_excluded_keys, aggregate_group_keys}
use skaldberg.Prom.Aggregate.{is_listed}
use skaldberg.Prom.Aggregate.Kept.{keeps_label, AreKept, retained_labels-AreKept}
use skaldberg.Prom.Engine.{
  Cell, Entries, Column, Database, labels_to_btree, column, as_map, as_float64, run,
}
use skaldberg.Prom.Engine.Aggregate.{
  keeps_value, label_arrays, heads, tails, group_labels, group_rows, group_batches, relabel_rows,
  relabel_batches, retain_not, aggregate_point, instant_aggregate_via_sql,
  instant_aggregate_without_via_sql, instant_aggregate_over_rangefn_via_sql,
  instant_aggregate_over_rangefn_without_via_sql,
}

pub group_labels-get :
    (k : Text) (keys : List Text) (cells : List (Cell Text)) (labels : Labels)
    → is_listed k keys ≡ false
    → get k labels ≡ none
    → get k (group_labels keys cells labels) ≡ none
unfolding group_labels
group_labels-get k [] cells labels h e = e
group_labels-get k (key ∷ keys) [] labels h e = e
group_labels-get k (key ∷ keys) (c ∷ cells) labels h e =
    group_labels-get k keys cells (if c.is_null then labels else insert key c.value labels)
      (ground arith) (ground (arith, get-insert k key c.value labels))

module _ {F : Type 0} ⦃f : Float F⦄ (time_us : ℤ) (only_finite : Bool)
    (modifier : Option LabelModifier) where
  -- No name, no label that the aggregation drops, the time of the query, and a finite value where
  -- only those pass
  abbrev pub IsRetained : InstantPoint F → Type 0
  IsRetained p =
      (p.metric_name ≡ [])
      × (p.ts_us ≡ time_us)
      × AreKept modifier p.labels
      × (only_finite ≡ true → f.is_finite p.value ≡ true)

  finite :
      (v : Cell F)
      → keeps_value only_finite v ≡ true
      → only_finite ≡ true
      → f.is_finite v.value ≡ true
  finite v h e = ground arith

  group_rows-All :
      (group_keys : List Text) (arrays : List (List (Cell Text))) (values : List (Cell F))
      → ((k : Text) → keeps_label modifier k ≡ false → is_listed k group_keys ≡ false)
      → All IsRetained (group_rows time_us only_finite group_keys arrays values)
  unfolding group_rows get
  group_rows-All group_keys arrays [] h = tt
  group_rows-All group_keys arrays (v ∷ values) h =
      let rest = group_rows-All group_keys (tails arrays) values h in
      elim (Bool-cases (keeps_value only_finite v)) [
        | inl e ↦
            rw (e, group_rows)
              (
                (
                  refl,
                  refl,
                  (λ k n. group_labels-get k group_keys (heads arrays) [] (h k n) refl),
                  finite v e,
                ),
                rest,
              )
        | inr e ↦ rw (e, group_rows) rest
      ]

  group_batches-All :
      (group_keys : List Text) (batches : List (List (Column F))) (out : List (InstantPoint F))
      → ((k : Text) → keeps_label modifier k ≡ false → is_listed k group_keys ≡ false)
      → group_batches time_us only_finite group_keys batches ≡ ok out
      → All IsRetained out
  unfolding group_batches
  group_batches-All group_keys [] out h e = rw (← ok-inj e) tt
  group_batches-All group_keys (batch ∷ batches) out h e =
      let (values, e₁, h₁) = >>=-eq-ok (column (length group_keys) batch >>= as_float64) _ out e in
      let (arrays, e₂, h₂) = >>=-eq-ok (label_arrays (length group_keys) 0 batch) _ out h₁ in
      let (more, e₃, h₃) =
        >>=-eq-ok (group_batches time_us only_finite group_keys batches) _ out h₂ in
      let first = group_rows time_us only_finite group_keys arrays values in
      let same : first ++ more ≡ out = ok-inj h₃ in
      rw (← same) (
        All-append IsRetained first more (group_rows-All group_keys arrays values h)
          (group_batches-All group_keys batches more h e₃))

  relabel_rows-All :
      (change : Labels → Labels)
      → ((ls : Labels) → AreKept modifier (change ls))
      → (labels : List (Cell Entries)) (values : List (Cell F)) (out : List (InstantPoint F))
      → relabel_rows time_us only_finite change labels values ≡ ok out
      → All IsRetained out
  unfolding relabel_rows
  relabel_rows-All change c [] values out h = rw (← ok-inj h) tt
  relabel_rows-All change c (l ∷ labels) [] out h = rw (← ok-inj h) tt
  relabel_rows-All change c (l ∷ labels) (v ∷ values) out h =
      elim (Bool-cases (keeps_value only_finite v)) [
        | inr e ↦ relabel_rows-All change c labels values out (rw (e, relabel_rows) at h)
        | inl e ↦
            let (ls, e₁, h₁) = >>=-eq-ok (labels_to_btree l) _ out (rw (e, relabel_rows) at h) in
            let (rest, e₂, h₂) =
              >>=-eq-ok (relabel_rows time_us only_finite change labels values) _ out h₁ in
            let p = aggregate_point time_us only_finite (change ls) v.value in
            let same : p ∷ rest ≡ out = ok-inj h₂ in
            rw (← same)
              ((refl, refl, c ls, finite v e), relabel_rows-All change c labels values rest e₂)
      ]

  pub relabel_batches-All :
      (change : Labels → Labels)
      → ((ls : Labels) → AreKept modifier (change ls))
      → (batches : List (List (Column F))) (out : List (InstantPoint F))
      → relabel_batches time_us only_finite change batches ≡ ok out
      → All IsRetained out
  unfolding relabel_batches
  relabel_batches-All change c [] out h = rw (← ok-inj h) tt
  relabel_batches-All change c (batch ∷ batches) out h =
      let (labels, e₁, h₁) = >>=-eq-ok (column 0 batch >>= as_map) _ out h in
      let (values, e₂, h₂) = >>=-eq-ok (column 1 batch >>= as_float64) _ out h₁ in
      let (first, e₃, h₃) =
        >>=-eq-ok (relabel_rows time_us only_finite change labels values) _ out h₂ in
      let (more, e₄, h₄) =
        >>=-eq-ok (relabel_batches time_us only_finite change batches) _ out h₃ in
      let same : first ++ more ≡ out = ok-inj h₄ in
      rw (← same) (
        All-append IsRetained first more (relabel_rows-All change c labels values first e₃)
          (relabel_batches-All change c batches more e₄))

-- What an aggregation without some labels leaves.
pub retain_not-AreKept :
    (excluded : List Text) (ls : Labels)
    → AreKept (some (LabelModifier.exclude excluded)) (retain_not excluded ls)
retain_not-AreKept excluded ls = retained_labels-AreKept (some (LabelModifier.exclude excluded)) ls

module _ {P F : Type 0} ⦃f : Float F⦄ (db : Database P F) where
  -- Every point that an aggregate of a selector returns has no metric name, stands at the time of
  -- the query, and has only labels that the aggregation keeps: those listed in `by (...)`, none that
  -- is listed in `without (...)`, and none at all if there is no modifier.
  pub instant_aggregate_via_sql-All :
      (sel : VectorSelector) (op : AggOp) (modifier : Option LabelModifier) (time_us : ℤ)
      (out : List (InstantPoint F))
      → instant_aggregate_via_sql db sel op modifier time_us ≡ ok out
      → All (IsRetained time_us false modifier) out
  unfolding instant_aggregate_via_sql instant_aggregate_without_via_sql modifier_excluded_keys
      aggregate_group_keys
  instant_aggregate_via_sql-All sel op none time_us out h =
      let (batches, e, h₁) = >>=-eq-ok (run db _) _ out h in
      group_batches-All time_us false none [] batches out (λ k n. refl) h₁
  instant_aggregate_via_sql-All sel op (some (LabelModifier.include ls)) time_us out h =
      let (batches, e, h₁) = >>=-eq-ok (run db _) _ out h in
      group_batches-All time_us false (some (LabelModifier.include ls)) ls batches out (λ k n. n) h₁
  instant_aggregate_via_sql-All sel op (some (LabelModifier.exclude ls)) time_us out h =
      let (batches, e, h₁) = >>=-eq-ok (run db _) _ out h in
      relabel_batches-All time_us false (some (LabelModifier.exclude ls)) (retain_not ls)
        (retain_not-AreKept ls) batches out h₁

  -- Every point that an aggregate of a range function returns has no metric name, stands at the time
  -- of the query, has a finite value, and has only labels that the aggregation keeps: those listed in
  -- `by (...)`, none that is listed in `without (...)`, and none at all if there is no modifier.
  pub instant_aggregate_over_rangefn_via_sql-All :
      (sel : VectorSelector) (range_us : ℤ) (fn_op : RangeFnOp) (op : AggOp)
      (modifier : Option LabelModifier) (time_us : ℤ) (out : List (InstantPoint F))
      → instant_aggregate_over_rangefn_via_sql db sel range_us fn_op op modifier time_us ≡ ok out
      → All (IsRetained time_us true modifier) out
  unfolding instant_aggregate_over_rangefn_via_sql instant_aggregate_over_rangefn_without_via_sql
      modifier_excluded_keys aggregate_group_keys
  instant_aggregate_over_rangefn_via_sql-All sel range_us fn_op op none time_us out h =
      let (batches, e, h₁) = >>=-eq-ok (run db _) _ out h in
      group_batches-All time_us true none [] batches out (λ k n. refl) h₁
  instant_aggregate_over_rangefn_via_sql-All sel range_us fn_op op (some (LabelModifier.include ls))
        time_us out h =
      let (batches, e, h₁) = >>=-eq-ok (run db _) _ out h in
      group_batches-All time_us true (some (LabelModifier.include ls)) ls batches out (λ k n. n) h₁
  instant_aggregate_over_rangefn_via_sql-All sel range_us fn_op op (some (LabelModifier.exclude ls))
        time_us out h =
      let (batches, e, h₁) = >>=-eq-ok (run db _) _ out h in
      relabel_batches-All time_us true (some (LabelModifier.exclude ls)) (retain_not ls)
        (retain_not-AreKept ls) batches out h₁
