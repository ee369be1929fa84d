-- ===== src/Prom/Engine/Safe.antt =====
-- What range functions let through (src/prometheus.rs).
use skaldberg.Base.{
  ◌≡◌, refl, Bool, true, Bool-cases, inl, inr, List, [], ◌∷◌, ◌++◌, All, All-append, ok, ◌>>=◌,
  >>=-eq-ok, arith, ok-inj,
}
use skaldberg.Base.Int.{ℤ}
use skaldberg.Text.{Text}
use skaldberg.Float.{Float}
use skaldberg.Prom.Types.{Labels, Matcher, VectorSelector, InstantPoint, RangeFnOp}
use skaldberg.Prom.Select.{label_filters_for_selector}
use skaldberg.Prom.Engine.{
  Cell, Entries, Column, Database, labels_to_btree, passes, run, column, as_utf8, as_map,
  as_float64,
}
use skaldberg.Prom.Engine.Decode.{keeps, instant_rows, instant_batch, instant_batches}
use skaldberg.Prom.Engine.RangeFn.{instant_range_fn_via_sql}

-- A property that each row which is kept gives its point holds of all points of the answer.
module _ {F : Type 0} (keep : Labels → Cell F → Bool) (time_us : ℤ) (Good : InstantPoint F → Type 0)
    (good : (m : Text) (ls : Labels) (v : Cell F)
      → keep ls v ≡ true
      → Good (record { metric_name = m; labels = ls; ts_us = time_us; value = v.value })) where
  instant_rows-All :
      (metrics : List (Cell Text)) (labels : List (Cell Entries)) (values : List (Cell F))
      (out : List (InstantPoint F))
      → instant_rows keep time_us metrics labels values ≡ ok out
      → All Good out
  unfolding instant_rows
  instant_rows-All [] labels values out h = rw (← ok-inj h) tt
  instant_rows-All (m ∷ metrics) [] values out h = rw (← ok-inj h) tt
  instant_rows-All (m ∷ metrics) (l ∷ labels) [] out h = rw (← ok-inj h) tt
  instant_rows-All (m ∷ metrics) (l ∷ labels) (v ∷ values) out h =
      let (ls, e, h₁) = >>=-eq-ok (labels_to_btree l) _ out h in
      let (rest, e₂, h₂) = >>=-eq-ok (instant_rows keep time_us metrics labels values) _ out h₁ in
      let ih = instant_rows-All metrics labels values rest e₂ in
      elim (Bool-cases (keep ls v)) [
        | inl k ↦ rw (← ok-inj (rw k at h₂)) (good m.value ls v k, ih)
        | inr k ↦ rw (← ok-inj (rw k at h₂)) ih
      ]

  instant_batch-All :
      (batch : List (Column F)) (out : List (InstantPoint F))
      → instant_batch keep time_us batch ≡ ok out
      → All Good out
  unfolding instant_batch
  instant_batch-All batch out h =
      let (metrics, e₁, h₁) = >>=-eq-ok (column 0 batch >>= as_utf8) _ out h in
      let (labels, e₂, h₂) = >>=-eq-ok (column 1 batch >>= as_map) _ out h₁ in
      let (values, e₃, h₃) = >>=-eq-ok (column 2 batch >>= as_float64) _ out h₂ in
      instant_rows-All metrics labels values out h₃

  pub instant_batches-All :
      (batches : List (List (Column F))) (out : List (InstantPoint F))
      → instant_batches keep time_us batches ≡ ok out
      → All Good out
  unfolding instant_batches
  instant_batches-All [] out h = rw (← ok-inj h) tt
  instant_batches-All (batch ∷ batches) out h =
      let (first, e₁, h₁) = >>=-eq-ok (instant_batch keep time_us batch) _ out h in
      let (more, e₂, h₂) = >>=-eq-ok (instant_batches keep time_us batches) _ out h₁ in
      let same : first ++ more ≡ out = ok-inj h₂ in
      rw (← same) (
        All-append Good first more (instant_batch-All batch first e₁)
          (instant_batches-All batches more e₂))

module _ {F : Type 0} ⦃f : Float F⦄ (label_filters : List Matcher) (time_us : ℤ) where
  -- The point passes the filters, is finite and stands at the time of the query.
  abbrev pub IsLetThrough : InstantPoint F → Type 0
  IsLetThrough p =
      (passes label_filters p.labels ≡ true) × (f.is_finite p.value ≡ true) × (p.ts_us ≡ time_us)

  pub keeps-IsLetThrough :
      (m : Text) (ls : Labels) (v : Cell F)
      → keeps label_filters ls v ≡ true
      → IsLetThrough (record { metric_name = m; labels = ls; ts_us = time_us; value = v.value })
  keeps-IsLetThrough m ls v h = (ground arith, ground arith, refl)

-- Every point that a range function at an instant returns passes all regular-expression filters of
-- the selector, is a finite number and stands at the instant.
pub instant_range_fn_via_sql-All :
    {P F : Type 0} ⦃f : Float F⦄ (db : Database P F) (sel : VectorSelector) (range_us : ℤ)
    (op : RangeFnOp) (time_us : ℤ) (out : List (InstantPoint F))
    → instant_range_fn_via_sql db sel range_us op time_us ≡ ok out
    → All (IsLetThrough (label_filters_for_selector sel) time_us) out
unfolding instant_range_fn_via_sql
instant_range_fn_via_sql-All db sel range_us op time_us out h =
    let (batches, e, h₁) = >>=-eq-ok (run db _) _ out h in
    let label_filters = label_filters_for_selector sel in
    instant_batches-All (keeps label_filters) time_us (IsLetThrough label_filters time_us)
      (keeps-IsLetThrough label_filters time_us) batches out h₁
