-- ===== src/Prom/Engine/RangeAggregate.antt =====
-- The aggregates over a range that run as SQL in src/prometheus.rs.
use skaldberg.Base.{Bool, true, false, Option, none, some, List, [], ◌∷◌, ◌++◌, Result, ok, ◌>>=◌}
use skaldberg.Base.Int.{ℤ}
use skaldberg.Text.{Text, lit}
use skaldberg.Float.{Float}
use skaldberg.Prom.Types.{VectorSelector, RangePoints, RangeFnOp, AggOp, LabelModifier}
use skaldberg.Prom.Select.{modifier_excluded_keys, aggregate_group_keys, agg_call_sql, join}
use skaldberg.Prom.Engine.{
  PromError, Cell, Column, Database, conditions, run, as_int64, as_timestamp_us,
}
use skaldberg.Prom.Engine.Sql.{per_series_rangefn_range_ctes}
use skaldberg.Prom.Engine.RangeFn.{over_evals}
use skaldberg.Prom.Engine.GroupSql.{label_exprs, select_label_part, excluded_filter}
use skaldberg.Prom.Engine.RangeSql.{
  range_aggregate_sql, range_aggregate_without_sql, range_aggregate_over_rangefn_sql,
  range_aggregate_over_rangefn_without_sql,
}
use skaldberg.Prom.Engine.Aggregate.{retain_not}
use skaldberg.Prom.Engine.Grouped.{group_series, grouped_batches, regrouped_batches}

-- `group_by_clause` and `order_by_clause`, the time before and after the labels
unfoldable pub group_by_time : (time : Text) (exprs : List Text) → Text
group_by_time time exprs = lit " GROUP BY " ++ join (lit ", ") (time ∷ exprs)

unfoldable pub order_by_time : (time : Text) (exprs : List Text) → Text
order_by_time time exprs = lit " ORDER BY " ++ join (lit ", ") (exprs ++ (time ∷ []))

module _ {F : Type 0} ⦃f : Float F⦄ (only_finite : Bool)
    (as_time : Column F → Result PromError (List (Cell ℤ))) where
  unfoldable pub decode_by :
      List Text → List (List (Column F)) → Result PromError (List (RangePoints F))
  unfolding grouped_batches group_series
  decode_by group_keys batches =
      grouped_batches only_finite as_time group_keys batches [] >>= λ by_group.
      ok (group_series by_group)

  unfoldable pub decode_without :
      List Text → List (List (Column F)) → Result PromError (List (RangePoints F))
  unfolding regrouped_batches group_series
  decode_without excluded batches =
      regrouped_batches only_finite as_time (retain_not excluded) batches [] >>= λ by_group.
      ok (group_series by_group)

module _ {P F : Type 0} ⦃f : Float F⦄ (db : Database P F) where
  unfoldable pub range_aggregate_without_via_sql :
      VectorSelector → AggOp → List Text → ℤ → ℤ → Result PromError (List (RangePoints F))
  unfolding range_aggregate_without_sql excluded_filter conditions run decode_without
      as_timestamp_us
  range_aggregate_without_via_sql sel op excluded start_us end_us =
      let where_clause = lit " WHERE " ++ conditions db sel start_us end_us in
      run db (
        range_aggregate_without_sql where_clause (excluded_filter excluded)
          (agg_call_sql op (lit "samples_in_window.value")))
      >>= decode_without false as_timestamp_us excluded

  unfoldable pub range_aggregate_via_sql :
      VectorSelector
      → AggOp
      → Option LabelModifier
      → ℤ
      → ℤ
      → Result PromError (List (RangePoints F))
  unfolding range_aggregate_without_via_sql range_aggregate_sql label_exprs select_label_part
      group_by_time order_by_time conditions run decode_by as_timestamp_us
  range_aggregate_via_sql sel op modifier start_us end_us = elim (modifier_excluded_keys modifier) [
    | some excluded ↦ range_aggregate_without_via_sql sel op excluded start_us end_us
    | none ↦
        let group_keys = aggregate_group_keys modifier in
        let where_clause = lit " WHERE " ++ conditions db sel start_us end_us in
        let exprs = label_exprs group_keys in
        run db (
          range_aggregate_sql (select_label_part exprs) (agg_call_sql op (lit "sa.value"))
            where_clause (group_by_time (lit "sa.timestamp") exprs)
            (order_by_time (lit "sa.timestamp") exprs))
        >>= decode_by false as_timestamp_us group_keys
  ]

  -- The statement with `without (...)`, and its answer
  unfoldable pub query_without :
      ℤ
      → RangeFnOp
      → AggOp
      → List Text
      → (values sample_where : Text) → Result PromError (List (RangePoints F))
  unfolding range_aggregate_over_rangefn_without_sql per_series_rangefn_range_ctes excluded_filter
      run decode_without as_int64
  query_without range_us fn_op agg_op excluded values sample_where =
      let rate_ctes = per_series_rangefn_range_ctes fn_op range_us values sample_where in
      run db (
        range_aggregate_over_rangefn_without_sql rate_ctes (excluded_filter excluded)
          (agg_call_sql agg_op (lit "ps.rate_v")))
      >>= decode_without true as_int64 excluded

  unfoldable pub range_aggregate_over_rangefn_without_via_sql :
      VectorSelector
      → ℤ
      → RangeFnOp
      → AggOp
      → List Text
      → ℤ
      → ℤ
      → ℤ
      → Result PromError (List (RangePoints F))
  unfolding over_evals query_without
  range_aggregate_over_rangefn_without_via_sql sel range_us fn_op agg_op excluded start_us end_us
        step_us =
      over_evals db sel range_us start_us end_us step_us
        (query_without range_us fn_op agg_op excluded)

  -- The statement with the labels to group by, and its answer
  unfoldable pub query_by :
      ℤ
      → RangeFnOp
      → AggOp
      → List Text
      → (values sample_where : Text) → Result PromError (List (RangePoints F))
  unfolding range_aggregate_over_rangefn_sql per_series_rangefn_range_ctes label_exprs
      select_label_part group_by_time order_by_time run decode_by as_int64
  query_by range_us fn_op agg_op group_keys values sample_where =
      let ctes = per_series_rangefn_range_ctes fn_op range_us values sample_where in
      let exprs = label_exprs group_keys in
      run db (
        range_aggregate_over_rangefn_sql ctes (select_label_part exprs)
          (agg_call_sql agg_op (lit "ps.rate_v")) (group_by_time (lit "ps.eval_us") exprs)
          (order_by_time (lit "ps.eval_us") exprs))
      >>= decode_by true as_int64 group_keys

  unfoldable pub range_aggregate_over_rangefn_via_sql :
      VectorSelector
      → ℤ
      → RangeFnOp
      → AggOp
      → Option LabelModifier
      → ℤ
      → ℤ
      → ℤ
      → Result PromError (List (RangePoints F))
  unfolding range_aggregate_over_rangefn_without_via_sql over_evals query_by
  range_aggregate_over_rangefn_via_sql sel range_us fn_op agg_op modifier start_us end_us step_us =
      elim (modifier_excluded_keys modifier) [
        | some excluded ↦
            range_aggregate_over_rangefn_without_via_sql sel range_us fn_op agg_op excluded start_us
              end_us step_us
        | none ↦
            over_evals db sel range_us start_us end_us step_us
              (query_by range_us fn_op agg_op (aggregate_group_keys modifier))
      ]
