-- ===== src/Prom/Engine/Topk.antt =====
-- `topk` and `bottomk` as they run as SQL in src/prometheus.rs.
use skaldberg.Base.{
  ℕ, Bool, Option, none, some, List, [], ◌∷◌, ◌++◌, ◌==◌, if◌then◌else◌, Result, ok, ◌>>=◌,
  is_empty,
}
use skaldberg.Base.Int.{ℤ, ◌-ℤ◌, wrap_i64}
use skaldberg.Text.{Text, lit, show_ℕ}
use skaldberg.Float.{Float}
use skaldberg.Prom.Types.{VectorSelector, InstantPoint, RangePoints, RangeFnOp, LabelModifier}
use skaldberg.Prom.Select.{
  label_filters_for_selector, modifier_excluded_keys, aggregate_group_keys, join,
}
use skaldberg.Prom.Engine.{
  PromError, Database, conditions, run, lookback_us, as_int64, as_timestamp_us,
}
use skaldberg.Prom.Engine.Sql.{per_series_rangefn_ctes, per_series_rangefn_range_ctes}
use skaldberg.Prom.Engine.Decode.{keeps, keeps_passing, instant_batches, decode_series}
use skaldberg.Prom.Engine.RangeFn.{over_evals}
use skaldberg.Prom.Engine.GroupSql.{label_exprs, excluded_filter}
use skaldberg.Prom.Engine.TopkSql.{
  topk_sql, topk_without_sql, topk_over_rangefn_sql, topk_over_rangefn_without_sql, range_topk_sql,
  range_topk_without_sql, range_topk_over_rangefn_sql, range_topk_over_rangefn_without_sql,
}

unfoldable pub order_dir : Bool → Text
order_dir top = if top then lit "DESC" else lit "ASC"

-- `partition_clause`: nothing when there are no columns
unfoldable pub partition_clause : List Text → Text
partition_clause columns =
    if is_empty columns then [] else (lit "PARTITION BY " ++ (join (lit ", ") columns ++ lit " "))

module _ {P F : Type 0} ⦃f : Float F⦄ (db : Database P F) where
  unfoldable pub instant_topk_without_via_sql :
      VectorSelector → ℕ → Bool → List Text → ℤ → Result PromError (List (InstantPoint F))
  unfolding topk_without_sql excluded_filter order_dir conditions run instant_batches
  instant_topk_without_via_sql sel n top excluded time_us =
      let from_us = wrap_i64 (time_us -ℤ lookback_us) in
      let where_clause = lit " WHERE " ++ conditions db sel from_us time_us in
      run db (topk_without_sql where_clause (excluded_filter excluded) (order_dir top) (show_ℕ n))
      >>= instant_batches (keeps_passing (label_filters_for_selector sel)) time_us

  unfoldable pub instant_topk_via_sql :
      VectorSelector
      → ℕ
      → Bool
      → Option LabelModifier
      → ℤ
      → Result PromError (List (InstantPoint F))
  unfolding instant_topk_without_via_sql topk_sql label_exprs partition_clause order_dir conditions
      run instant_batches
  instant_topk_via_sql sel n top modifier time_us =
      if n == 0 then ok [] else elim (modifier_excluded_keys modifier) [
        | some excluded ↦ instant_topk_without_via_sql sel n top excluded time_us
        | none ↦
            let from_us = wrap_i64 (time_us -ℤ lookback_us) in
            let window_where = lit " WHERE " ++ conditions db sel from_us time_us in
            let exprs = label_exprs (aggregate_group_keys modifier) in
            run db (topk_sql window_where (partition_clause exprs) (order_dir top) (show_ℕ n))
            >>= instant_batches (keeps_passing (label_filters_for_selector sel)) time_us
      ]

  unfoldable pub instant_topk_over_rangefn_without_via_sql :
      VectorSelector
      → ℤ
      → RangeFnOp
      → ℕ
      → Bool
      → List Text
      → ℤ
      → Result PromError (List (InstantPoint F))
  unfolding topk_over_rangefn_without_sql per_series_rangefn_ctes excluded_filter order_dir
      conditions run instant_batches
  instant_topk_over_rangefn_without_via_sql sel range_us fn_op n top excluded time_us =
      let from_us = wrap_i64 (time_us -ℤ range_us) in
      let where_clause = lit "WHERE " ++ conditions db sel from_us time_us in
      let rate_ctes = per_series_rangefn_ctes fn_op where_clause in
      run db (
        topk_over_rangefn_without_sql rate_ctes (excluded_filter excluded) (order_dir top)
          (show_ℕ n))
      >>= instant_batches (keeps (label_filters_for_selector sel)) time_us

  unfoldable pub instant_topk_over_rangefn_via_sql :
      VectorSelector
      → ℤ
      → RangeFnOp
      → ℕ
      → Bool
      → Option LabelModifier
      → ℤ
      → Result PromError (List (InstantPoint F))
  unfolding instant_topk_over_rangefn_without_via_sql topk_over_rangefn_sql per_series_rangefn_ctes
      label_exprs partition_clause order_dir conditions run instant_batches
  instant_topk_over_rangefn_via_sql sel range_us fn_op n top modifier time_us =
      if n == 0 then ok [] else elim (modifier_excluded_keys modifier) [
        | some excluded ↦
            instant_topk_over_rangefn_without_via_sql sel range_us fn_op n top excluded time_us
        | none ↦
            let from_us = wrap_i64 (time_us -ℤ range_us) in
            let where_clause = lit "WHERE " ++ conditions db sel from_us time_us in
            let rate_ctes = per_series_rangefn_ctes fn_op where_clause in
            let exprs = label_exprs (aggregate_group_keys modifier) in
            run db
              (topk_over_rangefn_sql rate_ctes (partition_clause exprs) (order_dir top) (show_ℕ n))
            >>= instant_batches (keeps (label_filters_for_selector sel)) time_us
      ]

module _ {P F : Type 0} ⦃f : Float F⦄ (db : Database P F) where
  unfoldable pub range_topk_without_via_sql :
      VectorSelector → ℕ → Bool → List Text → ℤ → ℤ → Result PromError (List (RangePoints F))
  unfolding range_topk_without_sql excluded_filter order_dir conditions run decode_series
      as_timestamp_us
  range_topk_without_via_sql sel n top excluded start_us end_us =
      let where_clause = lit " WHERE " ++ conditions db sel start_us end_us in
      run db
        (range_topk_without_sql where_clause (excluded_filter excluded) (order_dir top) (show_ℕ n))
      >>= decode_series (keeps_passing (label_filters_for_selector sel)) as_timestamp_us

  unfoldable pub range_topk_via_sql :
      VectorSelector
      → ℕ
      → Bool
      → Option LabelModifier
      → ℤ
      → ℤ
      → Result PromError (List (RangePoints F))
  unfolding range_topk_without_via_sql range_topk_sql label_exprs partition_clause order_dir
      conditions run decode_series as_timestamp_us
  range_topk_via_sql sel n top modifier start_us end_us =
      if n == 0 then ok [] else elim (modifier_excluded_keys modifier) [
        | some excluded ↦ range_topk_without_via_sql sel n top excluded start_us end_us
        | none ↦
            let where_clause = lit " WHERE " ++ conditions db sel start_us end_us in
            let exprs = label_exprs (aggregate_group_keys modifier) in
            run db (
              range_topk_sql where_clause (partition_clause (lit "sa.timestamp" ∷ exprs))
                (order_dir top) (show_ℕ n))
            >>= decode_series (keeps_passing (label_filters_for_selector sel)) as_timestamp_us
      ]

  unfoldable pub range_topk_over_rangefn_without_via_sql :
      VectorSelector
      → ℤ
      → RangeFnOp
      → ℕ
      → Bool
      → List Text
      → ℤ
      → ℤ
      → ℤ
      → Result PromError (List (RangePoints F))
  unfolding over_evals range_topk_over_rangefn_without_sql per_series_rangefn_range_ctes
      excluded_filter order_dir run decode_series as_int64
  range_topk_over_rangefn_without_via_sql sel range_us fn_op n top excluded start_us end_us
        step_us =
      over_evals db sel range_us start_us end_us step_us (λ values sample_where.
        let rate_ctes = per_series_rangefn_range_ctes fn_op range_us values sample_where in
        run db (
          range_topk_over_rangefn_without_sql rate_ctes (excluded_filter excluded) (order_dir top)
            (show_ℕ n))
        >>= decode_series (keeps (label_filters_for_selector sel)) as_int64)

  unfoldable pub range_topk_over_rangefn_via_sql :
      VectorSelector
      → ℤ
      → RangeFnOp
      → ℕ
      → Bool
      → Option LabelModifier
      → ℤ
      → ℤ
      → ℤ
      → Result PromError (List (RangePoints F))
  unfolding range_topk_over_rangefn_without_via_sql over_evals range_topk_over_rangefn_sql
      per_series_rangefn_range_ctes label_exprs partition_clause order_dir run decode_series
      as_int64
  range_topk_over_rangefn_via_sql sel range_us fn_op n top modifier start_us end_us step_us =
      if n == 0 then ok [] else elim (modifier_excluded_keys modifier) [
        | some excluded ↦
            range_topk_over_rangefn_without_via_sql sel range_us fn_op n top excluded start_us
              end_us step_us
        | none ↦ over_evals db sel range_us start_us end_us step_us (λ values sample_where.
            let rate_ctes = per_series_rangefn_range_ctes fn_op range_us values sample_where in
            let exprs = label_exprs (aggregate_group_keys modifier) in
            run db (
              range_topk_over_rangefn_sql rate_ctes (partition_clause (lit "ps.eval_us" ∷ exprs))
                (order_dir top) (show_ℕ n))
            >>= decode_series (keeps (label_filters_for_selector sel)) as_int64)
      ]
