-- ===== src/Prom/Histogram.antt =====
-- `histogram_quantile` over evaluated points (src/prometheus.rs).
use skaldberg.Base.{
  false, ◌||◌, Option, none, some, List, [], ◌∷◌, ◌++◌, if◌then◌else◌, is_empty, length, ltb,
}
use skaldberg.Base.Int.{ℤ}
use skaldberg.Order.{list_ord, nat_ord, pair_ord, int_ord}
use skaldberg.BTreeMap.{BTreeMap, get, remove, entry_or}
use skaldberg.Text.{Text, lit}
use skaldberg.Float.{Float}
use skaldberg.Prom.Types.{Labels, InstantPoint, RangePoints}
use skaldberg.Prom.Query.{eq_ignore_ascii_case}
use skaldberg.Prom.Ops.{after}
use skaldberg.Prom.Aggregate.{sort_by}

module _ {F : Type 0} ⦃f : Float F⦄ where
  unfoldable pub parse_le : Text → Option F
  parse_le s =
      if eq_ignore_ascii_case s (lit "+inf") || eq_ignore_ascii_case s (lit "inf")
      then some f.infinity
      else if eq_ignore_ascii_case s (lit "-inf")
      then some f.neg_infinity
      else f.parse s

  abbrev pub last_bucket : List (F × F) → Option (F × F)
  last_bucket [] = none
  last_bucket (b ∷ []) = some b
  last_bucket (b ∷ c ∷ buckets) = last_bucket (c ∷ buckets)

  -- The first boundary with a count, and the last that is finite
  unfoldable pub first_counted : List (F × F) → Option F
  first_counted [] = none
  first_counted ((le, count) ∷ buckets) =
      let rest = first_counted buckets in if f.flt f.zero count then some le else rest

  unfoldable pub last_finite : List (F × F) → Option F
  last_finite [] = none
  last_finite ((le, count) ∷ buckets) = elim (last_finite buckets) [
    | some x ↦ some x
    | none ↦ if f.is_finite le then some le else none
  ]

  unfoldable pub interpolate : F → F → F → List (F × F) → Option F
  interpolate target lower_le lower_count [] = none
  interpolate target lower_le lower_count ((le, count) ∷ buckets) =
      let rest = interpolate target le count buckets in
      let bucket_count = f.sub count lower_count in
      let frac = f.div (f.sub target lower_count) bucket_count in
      if f.fle target count
      then (if f.is_infinite le
          then some lower_le
          else (if f.fle bucket_count f.zero
              then some le
              else some (f.add lower_le (f.mul frac (f.sub le lower_le)))))
      else rest

  unfoldable pub quantile_from_buckets : List (F × F) → F → Option F
  quantile_from_buckets buckets q =
      if ltb (length buckets) 2 then none else elim (last_bucket buckets) [
        | none ↦ none
        | some (le, total) ↦
            if f.fle total f.zero || f.is_nan q
            then none
            else (if f.fle q f.zero
                then first_counted buckets
                else (if f.fle f.one q
                    then last_finite buckets
                    else interpolate (f.mul q total) f.zero f.zero buckets))
      ]

  -- The boundary of a bucket, and its labels without it
  abbrev pub bucket_of : Labels → Option (F × Labels)
  bucket_of labels = elim (get (lit "le") labels) [
    | none ↦ none
    | some s ↦ elim (parse_le s) [ none ↦ none | some le ↦ some (le, remove (lit "le") labels) ]
  ]

  abbrev pub by_boundary : List (F × F) → List (F × F)
  by_boundary buckets = sort_by (λ (a, m) (b, n). after false a b) buckets

  unfoldable pub bucket_groups :
      List (InstantPoint F) → BTreeMap Labels (List (F × F)) → BTreeMap Labels (List (F × F))
  bucket_groups [] groups = groups
  bucket_groups (p ∷ inner) groups = elim (bucket_of p.labels) [
    | none ↦ bucket_groups inner groups
    | some (le, labels) ↦
        bucket_groups inner (entry_or [] labels (λ buckets. buckets ++ ((le, p.value) ∷ [])) groups)
  ]

  unfoldable pub quantiles : F → ℤ → BTreeMap Labels (List (F × F)) → List (InstantPoint F)
  quantiles quantile time_us [] = []
  quantiles quantile time_us ((labels, buckets) ∷ groups) =
      elim (quantile_from_buckets (by_boundary buckets) quantile) [
        | none ↦ quantiles quantile time_us groups
        | some v ↦
            record { metric_name = []; labels = labels; ts_us = time_us; value = v }
            ∷ quantiles quantile time_us groups
      ]

  unfoldable pub histogram_quantile_instant : List (InstantPoint F) → F → ℤ → List (InstantPoint F)
  histogram_quantile_instant inner quantile time_us =
      quantiles quantile time_us (bucket_groups inner [])

  unfoldable pub add_steps :
      F → List (ℤ × F) → BTreeMap ℤ (List (F × F)) → BTreeMap ℤ (List (F × F))
  add_steps le [] steps = steps
  add_steps le ((ts, v) ∷ points) steps =
      add_steps le points (entry_or [] ts (λ buckets. buckets ++ ((le, v) ∷ [])) steps)

  unfoldable pub step_groups :
      List (RangePoints F)
      → BTreeMap Labels (BTreeMap ℤ (List (F × F)))
      → BTreeMap Labels (BTreeMap ℤ (List (F × F)))
  step_groups [] groups = groups
  step_groups (series ∷ inner) groups = elim (bucket_of series.labels) [
    | none ↦ step_groups inner groups
    | some (le, labels) ↦ step_groups inner (entry_or [] labels (add_steps le series.points) groups)
  ]

  unfoldable pub step_quantiles : F → BTreeMap ℤ (List (F × F)) → List (ℤ × F)
  step_quantiles quantile [] = []
  step_quantiles quantile ((ts, buckets) ∷ steps) =
      elim (quantile_from_buckets (by_boundary buckets) quantile) [
        | none ↦ step_quantiles quantile steps
        | some v ↦ (ts, v) ∷ step_quantiles quantile steps
      ]

  unfoldable pub quantile_series :
      F → BTreeMap Labels (BTreeMap ℤ (List (F × F))) → List (RangePoints F)
  quantile_series quantile [] = []
  quantile_series quantile ((labels, steps) ∷ groups) =
      let points = step_quantiles quantile steps in
      let rest = quantile_series quantile groups in
      if is_empty points
      then rest
      else record { metric_name = []; labels = labels; points = points } ∷ rest

  unfoldable pub histogram_quantile_range : List (RangePoints F) → F → List (RangePoints F)
  histogram_quantile_range inner quantile = quantile_series quantile (step_groups inner [])
