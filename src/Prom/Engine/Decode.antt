-- ===== src/Prom/Engine/Decode.antt =====
-- The loops of src/prometheus.rs over the batches of an answer that has the name and the labels of
-- each series: at an instant one point for each row, over a range the points of a row's series. The
-- queries differ in the rows that they pass over and in the type of the time column.
use skaldberg.Base.{
  Bool, false, not, ◌&&◌, List, [], ◌∷◌, ◌++◌, map, if◌then◌else◌, Result, ok, ◌>>=◌,
}
use skaldberg.Base.Int.{ℤ}
use skaldberg.Order.{list_ord, nat_ord}
use skaldberg.BTreeMap.{BTreeMap, entry_or}
use skaldberg.Text.{Text}
use skaldberg.Float.{Float}
use skaldberg.Prom.Types.{Labels, Matcher, InstantPoint, RangePoints}
use skaldberg.Prom.Aggregate.{series_key}
use skaldberg.Prom.Engine.{
  PromError, Cell, Entries, Column, labels_to_btree, column, as_utf8, as_map, as_float64, passes,
}

module _ {F : Type 0} ⦃f : Float F⦄ (label_filters : List Matcher) where
  -- A row that fails a filter, is null or is not finite is passed over.
  abbrev pub keeps : Labels → Cell F → Bool
  keeps labels v =
      if passes label_filters labels
      then (if v.is_null then false else f.is_finite v.value)
      else false

module _ {F : Type 0} (label_filters : List Matcher) where
  -- Only a row that fails a filter is passed over.
  abbrev pub keeps_passing : Labels → Cell F → Bool
  keeps_passing labels v = passes label_filters labels

  -- A row that fails a filter or is null is passed over.
  abbrev pub keeps_not_null : Labels → Cell F → Bool
  keeps_not_null labels v = passes label_filters labels && not v.is_null

module _ {F : Type 0} (keep : Labels → Cell F → Bool) where
  unfoldable pub instant_rows :
      ℤ
      → List (Cell Text)
      → List (Cell Entries)
      → List (Cell F)
      → Result PromError (List (InstantPoint F))
  unfolding labels_to_btree
  instant_rows time_us (m ∷ metrics) (l ∷ labels) (v ∷ values) = labels_to_btree l >>= λ ls.
      instant_rows time_us metrics labels values >>= λ out.
      if keep ls v
      then ok
          (record { metric_name = m.value; labels = ls; ts_us = time_us; value = v.value } ∷ out)
      else ok out
  instant_rows time_us _ _ _ = ok []

  unfoldable pub instant_batch : ℤ → List (Column F) → Result PromError (List (InstantPoint F))
  unfolding instant_rows column as_utf8 as_map as_float64
  instant_batch time_us batch = (column 0 batch >>= as_utf8) >>= λ metrics.
      (column 1 batch >>= as_map) >>= λ labels.
      (column 2 batch >>= as_float64) >>= λ values. instant_rows time_us metrics labels values

  unfoldable pub instant_batches :
      ℤ → List (List (Column F)) → Result PromError (List (InstantPoint F))
  unfolding instant_batch
  instant_batches time_us [] = ok []
  instant_batches time_us (batch ∷ batches) = instant_batch time_us batch >>= λ out.
      instant_batches time_us batches >>= λ more. ok (out ++ more)

  -- `by_series`, by the key of the series
  unfoldable pub range_rows :
      List (Cell Text)
      → List (Cell Entries)
      → List (Cell ℤ)
      → List (Cell F)
      → BTreeMap Text (RangePoints F)
      → Result PromError (BTreeMap Text (RangePoints F))
  unfolding labels_to_btree series_key
  range_rows (m ∷ metrics) (l ∷ labels) (t ∷ times) (v ∷ values) by_series =
      labels_to_btree l >>= λ ls. range_rows metrics labels times values (
        if keep ls v
        then entry_or (record { metric_name = m.value; labels = ls; points = [] })
            (series_key m.value ls)
            (λ (entry : RangePoints F). record entry {
              points = entry.points ++ ((t.value, v.value) ∷ []);
            })
            by_series
        else by_series)
  range_rows _ _ _ _ by_series = ok by_series

  unfoldable pub range_batches :
      (Column F → Result PromError (List (Cell ℤ)))
      → List (List (Column F))
      → BTreeMap Text (RangePoints F)
      → Result PromError (BTreeMap Text (RangePoints F))
  unfolding range_rows column as_utf8 as_map as_float64
  range_batches as_time [] by_series = ok by_series
  range_batches as_time (batch ∷ batches) by_series = (column 0 batch >>= as_utf8) >>= λ metrics.
      (column 1 batch >>= as_map) >>= λ labels. (column 2 batch >>= as_time) >>= λ times.
      (column 3 batch >>= as_float64) >>= λ values.
      range_rows metrics labels times values by_series >>= λ by_series'.
      range_batches as_time batches by_series'

  -- All batches, and the map's values
  unfoldable pub decode_series :
      (Column F → Result PromError (List (Cell ℤ)))
      → List (List (Column F))
      → Result PromError (List (RangePoints F))
  unfolding range_batches
  decode_series as_time batches =
      range_batches as_time batches [] >>= λ by_series. ok (map (λ (key, series). series) by_series)
