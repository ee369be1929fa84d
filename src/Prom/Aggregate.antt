-- ===== src/Prom/Aggregate.antt =====
-- Aggregation and topk over evaluated points (src/prometheus.rs). `sort_by` is stable; its order for
-- a value that is not a number is that of an equal one.
pub mod Groups
pub mod Instant
pub mod Sorted
pub mod Topk
pub mod TopkRange
pub mod Kept
use skaldberg.Base.{
  ℕ, zero, suc, Bool, true, false, not, ◌||◌, Option, none, some, List, [], ◌∷◌, ◌++◌, ◌==◌,
  if◌then◌else◌, keep_if, map, take, is_empty,
}
use skaldberg.Base.Int.{ℤ}
use skaldberg.Order.{◌=?◌, Ord, list_ord, nat_ord, pair_ord, int_ord}
use skaldberg.BTreeMap.{BTreeMap, insert, get, entry_or, from_iter, keys}
use skaldberg.Text.{Text, lit}
use skaldberg.Float.{Float}
use skaldberg.Prom.Types.{Labels, InstantPoint, RangePoints, LabelModifier, AggOp, SeriesRow}
use skaldberg.Prom.Ops.{apply_agg, after}
use skaldberg.Prom.Select.{join}

-- `BTreeSet::contains` of the keys of a modifier
abbrev pub is_listed : Text → List Text → Bool
is_listed k [] = false
is_listed k (l ∷ ls) = k =? l || is_listed k ls

unfoldable pub retained_labels : Labels → Option LabelModifier → Labels
retained_labels labels none = []
retained_labels labels (some (LabelModifier.include ls)) = keep_if (λ (k, v). is_listed k ls) labels
retained_labels labels (some (LabelModifier.exclude ls)) =
    keep_if (λ (k, v). not (is_listed k ls)) labels

-- `groups.entry(key).or_default().push(value)` for each of a sequence
unfoldable pub group_by {ℓ κ} :
    {K : Type ℓ} {V : Type κ} ⦃o : Ord K⦄ → List (K × V) → BTreeMap K (List V) → BTreeMap K (List V)
group_by [] groups = groups
group_by ((k, v) ∷ items) groups =
    group_by items (entry_or [] k (λ values. values ++ (v ∷ [])) groups)

insert_by {ℓ} : {A : Type ℓ} → (A → A → Bool) → A → List A → List A
insert_by is_after x [] = x ∷ []
insert_by is_after x (y ∷ ys) =
    let rest = insert_by is_after x ys in if is_after x y then y ∷ rest else x ∷ y ∷ ys

unfoldable pub sort_by {ℓ} : {A : Type ℓ} → (A → A → Bool) → List A → List A
unfolding insert_by
sort_by is_after [] = []
sort_by is_after (x ∷ xs) = insert_by is_after x (sort_by is_after xs)

-- `format!("{metric_name}{{{}}}", ..)` of the `k=v` of the labels
unfoldable pub series_key : Text → Labels → Text
series_key metric_name labels =
    metric_name
    ++ (lit "{" ++ (join (lit ",") (map (λ (k, v). k ++ (lit "=" ++ v)) labels) ++ lit "}"))

module _ {F : Type 0} where
  -- `group_rows_by_series`
  unfoldable pub add_row :
      SeriesRow F
      → BTreeMap Text (Text × Labels × List (ℤ × F))
      → BTreeMap Text (Text × Labels × List (ℤ × F))
  add_row r by_series =
      entry_or (r.metric_name, r.labels, []) (series_key r.metric_name r.labels)
        (λ (name, labels, points). (name, labels, points ++ ((r.ts_us, r.value) ∷ []))) by_series

  unfoldable pub group_rows_by_series :
      List (SeriesRow F)
      → BTreeMap Text (Text × Labels × List (ℤ × F))
      → BTreeMap Text (Text × Labels × List (ℤ × F))
  group_rows_by_series [] by_series = by_series
  group_rows_by_series (r ∷ rows) by_series = group_rows_by_series rows (add_row r by_series)

module _ {F : Type 0} ⦃f : Float F⦄ where
  unfoldable pub aggregate_instant_points :
      List (InstantPoint F) → AggOp → Option LabelModifier → ℤ → List (InstantPoint F)
  aggregate_instant_points inner op modifier time_us =
      map
        (λ (labels, values). record {
          metric_name = [];
          labels = labels;
          ts_us = time_us;
          value = apply_agg op values;
        })
        (group_by (map (λ p. (retained_labels p.labels modifier, p.value)) inner) [])

  -- The points of a group, by their timestamps
  abbrev pub all_points : List (RangePoints F) → List (ℤ × F)
  all_points [] = []
  all_points (m ∷ members) = m.points ++ all_points members

  unfoldable pub aggregate_group : AggOp → Labels → List (RangePoints F) → List (RangePoints F)
  aggregate_group op group_labels members =
      let series_points =
        map (λ (ts, values). (ts, apply_agg op values)) (group_by (all_points members) []) in
      if is_empty series_points
      then []
      else record { metric_name = []; labels = group_labels; points = series_points } ∷ []

  unfoldable pub aggregate_groups :
      AggOp → BTreeMap Labels (List (RangePoints F)) → List (RangePoints F)
  aggregate_groups op [] = []
  aggregate_groups op ((labels, members) ∷ groups) =
      aggregate_group op labels members ++ aggregate_groups op groups

  unfoldable pub aggregate_range_points :
      List (RangePoints F) → AggOp → Option LabelModifier → List (RangePoints F)
  aggregate_range_points inner op modifier =
      aggregate_groups op (group_by (map (λ p. (retained_labels p.labels modifier, p)) inner) [])

  unfoldable pub topk_groups :
      ℕ → Bool → BTreeMap Labels (List (InstantPoint F)) → List (InstantPoint F)
  topk_groups n top [] = []
  topk_groups n top ((labels, members) ∷ groups) =
      take n (sort_by (λ a b. after top a.value b.value) members) ++ topk_groups n top groups

  unfoldable pub topk_instant_points :
      List (InstantPoint F) → ℕ → Bool → Option LabelModifier → List (InstantPoint F)
  topk_instant_points inner n top modifier =
      if n == 0
      then []
      else topk_groups n top (group_by (map (λ p. (retained_labels p.labels modifier, p)) inner) [])
