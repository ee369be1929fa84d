-- ===== src/Prom/Aggregate/TopkRange.antt =====
-- `topk_range_points` of src/prometheus.rs: the largest or smallest values at each time.
use skaldberg.Base.{
  ℕ, Bool, Option, none, some, List, [], ◌∷◌, ◌++◌, ◌==◌, if◌then◌else◌, map, take,
}
use skaldberg.Base.Int.{ℤ}
use skaldberg.Order.{list_ord, nat_ord, pair_ord, int_ord}
use skaldberg.BTreeMap.{BTreeMap, get, entry_or, from_iter, keys}
use skaldberg.Text.{Text}
use skaldberg.Float.{Float}
use skaldberg.Prom.Types.{Labels, RangePoints, LabelModifier}
use skaldberg.Prom.Ops.{after}
use skaldberg.Prom.Aggregate.{retained_labels, group_by, sort_by, series_key, all_points}

module _ {F : Type 0} where
  -- The members of a group that have a value at a time, each with that value
  unfoldable pub values_at_time : ℤ → List (RangePoints F) → List (RangePoints F × F)
  unfolding get
  values_at_time ts [] = []
  values_at_time ts (m ∷ members) =
      let at_ts = values_at_time ts members in
      elim (get ts (from_iter m.points [])) [ none ↦ at_ts | some v ↦ (m, v) ∷ at_ts ]

  -- The points of those that are taken, back under their series
  unfoldable pub push_points :
      ℤ → List (RangePoints F × F) → BTreeMap Text (RangePoints F) → BTreeMap Text (RangePoints F)
  unfolding series_key
  push_points ts [] out_map = out_map
  push_points ts ((m, v) ∷ taken) out_map = push_points ts taken (
      entry_or (record { metric_name = m.metric_name; labels = m.labels; points = [] })
        (series_key m.metric_name m.labels)
        (λ (entry : RangePoints F). record entry { points = entry.points ++ ((ts, v) ∷ []) })
        out_map)

module _ {F : Type 0} ⦃f : Float F⦄ (n : ℕ) (top : Bool) where
  -- All times at which a member of the group has a point, in order
  abbrev pub all_ts : List (RangePoints F) → List ℤ
  all_ts members = keys (from_iter (all_points members) [])

  -- The `n` largest or smallest at one time
  unfoldable pub winners : List (RangePoints F) → ℤ → List (RangePoints F × F)
  unfolding values_at_time
  winners members ts = take n (sort_by (λ a b. after top a.1 b.1) (values_at_time ts members))

  unfoldable pub topk_times :
      List (RangePoints F) → List ℤ → BTreeMap Text (RangePoints F) → BTreeMap Text (RangePoints F)
  unfolding winners push_points
  topk_times members [] out_map = out_map
  topk_times members (ts ∷ times) out_map =
      topk_times members times (push_points ts (winners members ts) out_map)

  unfoldable pub topk_range_groups :
      BTreeMap Labels (List (RangePoints F))
      → BTreeMap Text (RangePoints F)
      → BTreeMap Text (RangePoints F)
  unfolding topk_times
  topk_range_groups [] out_map = out_map
  topk_range_groups ((labels, members) ∷ groups) out_map =
      topk_range_groups groups (topk_times members (all_ts members) out_map)

module _ {F : Type 0} ⦃f : Float F⦄ where
  unfoldable pub topk_range_points :
      List (RangePoints F) → ℕ → Bool → Option LabelModifier → List (RangePoints F)
  unfolding topk_range_groups group_by retained_labels
  topk_range_points inner n top modifier =
      if n == 0
      then []
      else (let groups = group_by (map (λ p. (retained_labels p.labels modifier, p)) inner) [] in
          map (λ (key, series). series) (topk_range_groups n top groups []))
