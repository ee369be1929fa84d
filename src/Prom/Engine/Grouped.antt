-- ===== src/Prom/Engine/Grouped.antt =====
-- The loops of src/prometheus.rs over the batches of an answer that has one row for each group and
-- time: the points of each group, by its labels.
use skaldberg.Base.{
  ◌+◌, Bool, not, List, [], ◌∷◌, ◌++◌, if◌then◌else◌, Result, ok, ◌>>=◌, length, keep_if, map,
  is_empty,
}
use skaldberg.Base.Int.{ℤ}
use skaldberg.Order.{list_ord, nat_ord, pair_ord}
use skaldberg.BTreeMap.{BTreeMap, entry_or}
use skaldberg.Text.{Text}
use skaldberg.Float.{Float}
use skaldberg.Prom.Types.{Labels, RangePoints}
use skaldberg.Prom.Engine.{
  PromError, Cell, Entries, Column, labels_to_btree, column, as_map, as_float64,
}
use skaldberg.Prom.Engine.Aggregate.{keeps_value, label_arrays, heads, tails, group_labels}

abbrev pub Groups : Type 0 → Type 0
Groups F = BTreeMap Labels (List (ℤ × F))

module _ {F : Type 0} where
  -- `by_group.entry(labels).or_default().push((t, v))`
  abbrev pub push_point : Labels → ℤ → F → Groups F → Groups F
  push_point labels t v by_group =
      entry_or [] labels (λ (points : List (ℤ × F)). points ++ ((t, v) ∷ [])) by_group

  -- The series of the groups that have points
  unfoldable pub group_series : Groups F → List (RangePoints F)
  group_series by_group =
      map (λ (labels, points). record { metric_name = []; labels = labels; points = points })
        (keep_if (λ (labels, points). not (is_empty points)) by_group)

module _ {F : Type 0} ⦃f : Float F⦄ (only_finite : Bool)
    (as_time : Column F → Result PromError (List (Cell ℤ))) where
  unfoldable pub grouped_rows :
      List Text → List (Cell ℤ) → List (List (Cell Text)) → List (Cell F) → Groups F → Groups F
  unfolding group_labels
  grouped_rows group_keys (t ∷ times) arrays (v ∷ values) by_group =
      grouped_rows group_keys times (tails arrays) values (
        if keeps_value only_finite v
        then push_point (group_labels group_keys (heads arrays) []) t.value v.value by_group
        else by_group)
  grouped_rows group_keys _ arrays _ by_group = by_group

  -- The time, the labels in columns of their own, the value
  unfoldable pub grouped_batches :
      List Text → List (List (Column F)) → Groups F → Result PromError (Groups F)
  unfolding grouped_rows label_arrays column as_float64
  grouped_batches group_keys [] by_group = ok by_group
  grouped_batches group_keys (batch ∷ batches) by_group = (column 0 batch >>= as_time) >>= λ times.
      (column (1 + length group_keys) batch >>= as_float64) >>= λ values.
      label_arrays (length group_keys) 1 batch >>= λ arrays.
      grouped_batches group_keys batches (grouped_rows group_keys times arrays values by_group)

  unfoldable pub regroup_row :
      (change : Labels → Labels)
      → Cell Entries
      → Cell ℤ
      → Cell F
      → Groups F
      → Result PromError (Groups F)
  unfolding labels_to_btree
  regroup_row change l t v by_group =
      if keeps_value only_finite v
      then (labels_to_btree l >>= λ ls. ok (push_point (change ls) t.value v.value by_group))
      else ok by_group

  unfoldable pub regrouped_rows :
      (change : Labels → Labels)
      → List (Cell Entries)
      → List (Cell ℤ)
      → List (Cell F)
      → Groups F
      → Result PromError (Groups F)
  unfolding regroup_row
  regrouped_rows change (l ∷ labels) (t ∷ times) (v ∷ values) by_group =
      regroup_row change l t v by_group >>= λ by_group'.
      regrouped_rows change labels times values by_group'
  regrouped_rows change _ _ _ by_group = ok by_group

  -- All labels of a row in one column, of which `change` keeps some, the time, the value
  unfoldable pub regrouped_batches :
      (change : Labels → Labels) → List (List (Column F)) → Groups F → Result PromError (Groups F)
  unfolding regrouped_rows column as_map as_float64
  regrouped_batches change [] by_group = ok by_group
  regrouped_batches change (batch ∷ batches) by_group = (column 0 batch >>= as_map) >>= λ labels.
      (column 1 batch >>= as_time) >>= λ times. (column 2 batch >>= as_float64) >>= λ values.
      regrouped_rows change labels times values by_group >>= λ by_group'.
      regrouped_batches change batches by_group'
