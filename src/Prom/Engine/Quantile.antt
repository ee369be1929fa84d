-- ===== src/Prom/Engine/Quantile.antt =====
-- `histogram_quantile` over a range function as it runs as SQL in src/prometheus.rs.
use skaldberg.Base.{true, List, [], ◌++◌, Result, ok, ◌>>=◌}
use skaldberg.Base.Int.{ℤ, ◌-ℤ◌, wrap_i64}
use skaldberg.Order.{list_ord, nat_ord}
use skaldberg.BTreeMap.{remove}
use skaldberg.Text.{lit}
use skaldberg.Float.{Float}
use skaldberg.Prom.Types.{Labels, VectorSelector, InstantPoint, RangePoints, RangeFnOp}
use skaldberg.Prom.Engine.{PromError, Database, conditions, run, as_int64}
use skaldberg.Prom.Engine.Sql.{per_series_rangefn_ctes, per_series_rangefn_range_ctes}
use skaldberg.Prom.Engine.RangeFn.{over_evals}
use skaldberg.Prom.Engine.RangeSql.{histogram_quantile_sql, range_histogram_quantile_sql}
use skaldberg.Prom.Engine.Aggregate.{relabel_batches}
use skaldberg.Prom.Engine.Grouped.{group_series, regrouped_batches}

-- The labels of a bucket without its bound
abbrev pub without_le : Labels → Labels
without_le labels = remove (lit "le") labels

module _ {P F : Type 0} ⦃f : Float F⦄ (db : Database P F) where
  unfoldable pub instant_histogram_quantile_via_sql :
      VectorSelector → ℤ → RangeFnOp → F → ℤ → Result PromError (List (InstantPoint F))
  unfolding conditions run per_series_rangefn_ctes histogram_quantile_sql relabel_batches
  instant_histogram_quantile_via_sql sel range_us fn_op quantile time_us =
      let from_us = wrap_i64 (time_us -ℤ range_us) in
      let where_clause = lit "WHERE " ++ conditions db sel from_us time_us in
      let rate_ctes = per_series_rangefn_ctes fn_op where_clause in
      run db (histogram_quantile_sql rate_ctes (f.show quantile))
      >>= relabel_batches time_us true without_le

  unfoldable pub range_histogram_quantile_via_sql :
      VectorSelector → ℤ → RangeFnOp → F → ℤ → ℤ → ℤ → Result PromError (List (RangePoints F))
  unfolding over_evals run per_series_rangefn_range_ctes range_histogram_quantile_sql
      regrouped_batches group_series as_int64
  range_histogram_quantile_via_sql sel range_us fn_op quantile start_us end_us step_us =
      over_evals db sel range_us start_us end_us step_us (λ values sample_where.
        let rate_ctes = per_series_rangefn_range_ctes fn_op range_us values sample_where in
        run db (range_histogram_quantile_sql rate_ctes (f.show quantile)) >>= λ batches.
        regrouped_batches true as_int64 without_le batches [] >>= λ by_group.
        ok (group_series by_group))
