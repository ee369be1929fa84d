-- ===== src/Prom/Engine/Aggregate.antt =====
-- The aggregates at an instant that run as SQL in src/prometheus.rs, of a selector and of a range
-- function: `by (...)` groups in SQL by the labels themselves, `without (...)` by a key made of all
-- other labels.
use skaldberg.Base.{
  ℕ, zero, suc, ◌+◌, Bool, true, false, Option, none, some, List, [], ◌∷◌, ◌++◌, if◌then◌else◌,
  Result, ok, ◌>>=◌, length,
}
use skaldberg.Base.Int.{ℤ, ◌-ℤ◌, wrap_i64}
use skaldberg.Order.{list_ord, nat_ord}
use skaldberg.BTreeMap.{insert}
use skaldberg.Text.{Text, lit}
use skaldberg.Float.{Float}
use skaldberg.Prom.Types.{Labels, VectorSelector, InstantPoint, RangeFnOp, AggOp, LabelModifier}
use skaldberg.Prom.Select.{modifier_excluded_keys, aggregate_group_keys, agg_call_sql}
use skaldberg.Prom.Aggregate.{retained_labels}
use skaldberg.Prom.Engine.{
  PromError, Cell, Entries, Column, Database, labels_to_btree, column, as_utf8, as_map, as_float64,
  conditions, run, lookback_us,
}
use skaldberg.Prom.Engine.Sql.{per_series_rangefn_ctes}
use skaldberg.Prom.Engine.GroupSql.{
  label_exprs, select_label_part, group_by_clause, excluded_filter, aggregate_sql,
  aggregate_without_sql, aggregate_over_rangefn_sql, aggregate_over_rangefn_without_sql,
}

module _ {F : Type 0} ⦃f : Float F⦄ where
  -- A null is passed over; the aggregates of range functions also pass over what is not finite.
  abbrev pub keeps_value : (only_finite : Bool) → Cell F → Bool
  keeps_value only_finite v =
      if v.is_null then false else if only_finite then f.is_finite v.value else true

  -- The columns from `li` on, `n` of them, as text
  unfoldable pub label_arrays :
      (n li : ℕ) → List (Column F) → Result PromError (List (List (Cell Text)))
  unfolding column as_utf8
  label_arrays zero li batch = ok []
  label_arrays (suc n) li batch = (column li batch >>= as_utf8) >>= λ arr.
      label_arrays n (li + 1) batch >>= λ more. ok (arr ∷ more)

-- The row at the head of each column, and the rest of each
abbrev pub heads : List (List (Cell Text)) → List (Cell Text)
heads [] = []
heads ([] ∷ arrays) = heads arrays
heads ((c ∷ cs) ∷ arrays) = c ∷ heads arrays

abbrev pub tails : List (List (Cell Text)) → List (List (Cell Text))
tails [] = []
tails ([] ∷ arrays) = [] ∷ tails arrays
tails ((c ∷ cs) ∷ arrays) = cs ∷ tails arrays

unfoldable pub group_labels : List Text → List (Cell Text) → Labels → Labels
unfolding insert
group_labels [] cells labels = labels
group_labels (key ∷ keys) [] labels = labels
group_labels (key ∷ keys) (c ∷ cells) labels =
    group_labels keys cells (if c.is_null then labels else insert key c.value labels)

module _ {F : Type 0} ⦃f : Float F⦄ (time_us : ℤ) (only_finite : Bool) where
  abbrev pub aggregate_point : Labels → F → InstantPoint F
  aggregate_point labels v = record {
    metric_name = [];
    labels = labels;
    ts_us = time_us;
    value = v;
  }

  unfoldable pub group_rows :
      List Text → List (List (Cell Text)) → List (Cell F) → List (InstantPoint F)
  unfolding group_labels
  group_rows group_keys arrays [] = []
  group_rows group_keys arrays (v ∷ values) =
      let out = group_rows group_keys (tails arrays) values in
      if keeps_value only_finite v
      then aggregate_point (group_labels group_keys (heads arrays) []) v.value ∷ out
      else out

  unfoldable pub group_batches :
      List Text → List (List (Column F)) → Result PromError (List (InstantPoint F))
  unfolding group_rows label_arrays column as_float64
  group_batches group_keys [] = ok []
  group_batches group_keys (batch ∷ batches) =
      (column (length group_keys) batch >>= as_float64) >>= λ values.
      label_arrays (length group_keys) 0 batch >>= λ arrays.
      group_batches group_keys batches >>= λ more. ok (group_rows group_keys arrays values ++ more)

  -- `change` is what is done to the labels of a row.
  unfoldable pub relabel_rows :
      (change : Labels → Labels)
      → List (Cell Entries)
      → List (Cell F)
      → Result PromError (List (InstantPoint F))
  unfolding labels_to_btree
  relabel_rows change (l ∷ labels) (v ∷ values) =
      let rest = relabel_rows change labels values in
      if keeps_value only_finite v
      then (labels_to_btree l >>= λ ls.
          rest >>= λ out. ok (aggregate_point (change ls) v.value ∷ out))
      else rest
  relabel_rows change _ _ = ok []

  unfoldable pub relabel_batches :
      (change : Labels → Labels) → List (List (Column F)) → Result PromError (List (InstantPoint F))
  unfolding relabel_rows column as_map as_float64
  relabel_batches change [] = ok []
  relabel_batches change (batch ∷ batches) = (column 0 batch >>= as_map) >>= λ labels.
      (column 1 batch >>= as_float64) >>= λ values. relabel_rows change labels values >>= λ out.
      relabel_batches change batches >>= λ more. ok (out ++ more)

-- `retain` of the labels that are not excluded
abbrev pub retain_not : List Text → Labels → Labels
retain_not excluded ls = retained_labels ls (some (LabelModifier.exclude excluded))

module _ {P F : Type 0} ⦃f : Float F⦄ (db : Database P F) where
  unfoldable pub instant_aggregate_without_via_sql :
      VectorSelector → AggOp → List Text → ℤ → Result PromError (List (InstantPoint F))
  unfolding aggregate_without_sql excluded_filter conditions run relabel_batches
  instant_aggregate_without_via_sql sel op excluded time_us =
      let from_us = wrap_i64 (time_us -ℤ lookback_us) in
      let where_clause = lit " WHERE " ++ conditions db sel from_us time_us in
      run db (
        aggregate_without_sql where_clause (excluded_filter excluded)
          (agg_call_sql op (lit "latest.value")))
      >>= relabel_batches time_us false (retain_not excluded)

  unfoldable pub instant_aggregate_via_sql :
      VectorSelector → AggOp → Option LabelModifier → ℤ → Result PromError (List (InstantPoint F))
  unfolding instant_aggregate_without_via_sql aggregate_sql label_exprs select_label_part
      group_by_clause conditions run group_batches
  instant_aggregate_via_sql sel op modifier time_us = elim (modifier_excluded_keys modifier) [
    | some excluded ↦ instant_aggregate_without_via_sql sel op excluded time_us
    | none ↦
        let from_us = wrap_i64 (time_us -ℤ lookback_us) in
        let group_keys = aggregate_group_keys modifier in
        let window_where = lit " WHERE " ++ conditions db sel from_us time_us in
        let exprs = label_exprs group_keys in
        run db (
          aggregate_sql window_where (select_label_part exprs) (agg_call_sql op (lit "ws.value"))
            (group_by_clause exprs))
        >>= group_batches time_us false group_keys
  ]

  unfoldable pub instant_aggregate_over_rangefn_without_via_sql :
      VectorSelector
      → ℤ
      → RangeFnOp
      → AggOp
      → List Text
      → ℤ
      → Result PromError (List (InstantPoint F))
  unfolding aggregate_over_rangefn_without_sql per_series_rangefn_ctes excluded_filter conditions
      run relabel_batches
  instant_aggregate_over_rangefn_without_via_sql sel range_us fn_op agg_op excluded time_us =
      let from_us = wrap_i64 (time_us -ℤ range_us) in
      let where_clause = lit "WHERE " ++ conditions db sel from_us time_us in
      let rate_ctes = per_series_rangefn_ctes fn_op where_clause in
      run db (
        aggregate_over_rangefn_without_sql rate_ctes (excluded_filter excluded)
          (agg_call_sql agg_op (lit "ps.rate_v")))
      >>= relabel_batches time_us true (retain_not excluded)

  unfoldable pub instant_aggregate_over_rangefn_via_sql :
      VectorSelector
      → ℤ
      → RangeFnOp
      → AggOp
      → Option LabelModifier
      → ℤ
      → Result PromError (List (InstantPoint F))
  unfolding instant_aggregate_over_rangefn_without_via_sql aggregate_over_rangefn_sql
      per_series_rangefn_ctes label_exprs select_label_part group_by_clause conditions run
      group_batches
  instant_aggregate_over_rangefn_via_sql sel range_us fn_op agg_op modifier time_us =
      elim (modifier_excluded_keys modifier) [
        | some excluded ↦
            instant_aggregate_over_rangefn_without_via_sql sel range_us fn_op agg_op excluded
              time_us
        | none ↦
            let from_us = wrap_i64 (time_us -ℤ range_us) in
            let where_clause = lit "WHERE " ++ conditions db sel from_us time_us in
            let ctes = per_series_rangefn_ctes fn_op where_clause in
            let group_keys = aggregate_group_keys modifier in
            let exprs = label_exprs group_keys in
            run db (
              aggregate_over_rangefn_sql ctes (select_label_part exprs)
                (agg_call_sql agg_op (lit "ps.rate_v")) (group_by_clause exprs))
            >>= group_batches time_us true group_keys
      ]
