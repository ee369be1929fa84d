-- ===== src/Prom/Json.antt =====
-- The answers of src/prometheus.rs. A metric object is a map from names to texts.
use skaldberg.Base.{List, [], map, is_empty, if◌then◌else◌}
use skaldberg.Base.Int.{ℤ}
use skaldberg.Order.{list_ord, nat_ord}
use skaldberg.BTreeMap.{BTreeMap, insert, from_iter}
use skaldberg.Text.{Text, lit}
use skaldberg.Float.{Float}
use skaldberg.Prom.Types.{Labels, InstantPoint, RangePoints}

unfoldable pub series_metric_obj : Text → Labels → BTreeMap Text Text
series_metric_obj metric_name labels = from_iter labels (insert (lit "__name__") metric_name [])

unfoldable pub metric_obj_no_name : Labels → BTreeMap Text Text
metric_obj_no_name labels = from_iter labels []

abbrev pub metric_of : Text → Labels → BTreeMap Text Text
metric_of metric_name labels =
    if is_empty metric_name then metric_obj_no_name labels else series_metric_obj metric_name labels

module _ {F : Type 0} ⦃f : Float F⦄ where
  -- `[(ts as f64) / 1_000_000.0, v.to_string()]`
  abbrev pub json_point : ℤ → F → F × Text
  json_point ts v = (f.div (f.of_i64 ts) (f.of_count 1000000), f.show v)

  unfoldable pub instant_points_to_json :
      List (InstantPoint F) → List (BTreeMap Text Text × (F × Text))
  instant_points_to_json points =
      map (λ p. (metric_of p.metric_name p.labels, json_point p.ts_us p.value)) points

  unfoldable pub range_points_to_json :
      List (RangePoints F) → List (BTreeMap Text Text × List (F × Text))
  range_points_to_json series =
      map (λ s. (metric_of s.metric_name s.labels, map (λ (ts, v). json_point ts v) s.points))
        series
