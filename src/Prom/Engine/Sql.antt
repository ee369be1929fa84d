-- ===== src/Prom/Engine/Sql.antt =====
-- The SQL of the range functions (`per_series_rangefn_ctes`, `per_series_rangefn_range_ctes` and the
-- two builders of src/prometheus.rs). A `\` at the end of a line of the source takes the next line's
-- indentation with it.
use skaldberg.Base.{◌++◌}
use skaldberg.Base.Int.{ℤ}
use skaldberg.Text.{Text, lit, show_ℤ}
use skaldberg.Prom.Types.{RangeFnOp}

abbrev rate_value : Text
rate_value = lit "total_delta * 1000000.0 / (last_ts_us - first_ts_us)"

abbrev increase_value : Text
increase_value = lit "total_delta"

base_cte_sql : Text → Text
base_cte_sql where_clause =
    lit
      "base AS ( SELECT sa.series_id, CAST(sa.timestamp AS BIGINT) AS ts_us, sa.value + 0.0 AS value FROM iceberg.skaldberg.samples sa JOIN iceberg.skaldberg.series s ON sa.series_id = s.series_id "
    ++ (where_clause ++ lit " )")

adjusted_sql : Text → Text → Text
adjusted_sql base_cte value_expr =
    lit "WITH "
    ++ (base_cte
        ++ (lit
              ", adjusted AS ( SELECT series_id, ts_us, value, LAG(value) OVER w AS prev_v FROM base WINDOW w AS (PARTITION BY series_id ORDER BY ts_us) ), agg AS ( SELECT series_id, SUM(CASE WHEN prev_v IS NULL THEN CAST(0.0 AS DOUBLE) WHEN value >= prev_v THEN value - prev_v ELSE value END) AS total_delta, MAX(ts_us) AS last_ts_us, MIN(ts_us) AS first_ts_us, COUNT(*) AS n FROM adjusted GROUP BY series_id ), per_series AS ( SELECT series_id, ("
            ++ (value_expr
                ++ lit ") AS rate_v FROM agg WHERE n >= 2 AND last_ts_us > first_ts_us )")))

unfoldable pub per_series_rangefn_ctes : RangeFnOp → Text → Text
unfolding base_cte_sql adjusted_sql
per_series_rangefn_ctes RangeFnOp.rate where_clause =
    adjusted_sql (base_cte_sql where_clause) rate_value
per_series_rangefn_ctes RangeFnOp.increase where_clause =
    adjusted_sql (base_cte_sql where_clause) increase_value
per_series_rangefn_ctes RangeFnOp.irate where_clause =
    let base_cte = base_cte_sql where_clause in
    lit "WITH "
    ++ (base_cte
        ++ lit
            ", ranked AS ( SELECT series_id, ts_us, value, LAG(value) OVER w AS prev_v, LAG(ts_us) OVER w AS prev_ts_us, ROW_NUMBER() OVER (PARTITION BY series_id ORDER BY ts_us DESC) AS rn_desc, COUNT(*) OVER (PARTITION BY series_id) AS total_n FROM base WINDOW w AS (PARTITION BY series_id ORDER BY ts_us) ), per_series AS ( SELECT series_id, ((CASE WHEN value >= prev_v THEN value - prev_v ELSE value END) * 1000000.0 / (ts_us - prev_ts_us)) AS rate_v FROM ranked WHERE rn_desc = 1 AND total_n >= 2 AND ts_us > prev_ts_us )")
per_series_rangefn_ctes RangeFnOp.delta where_clause =
    let base_cte = base_cte_sql where_clause in
    lit "WITH "
    ++ (base_cte
        ++ lit
            ", ranked AS ( SELECT series_id, value, ROW_NUMBER() OVER (PARTITION BY series_id ORDER BY ts_us ASC) AS rn_asc, ROW_NUMBER() OVER (PARTITION BY series_id ORDER BY ts_us DESC) AS rn_desc, COUNT(*) OVER (PARTITION BY series_id) AS total_n FROM base ), endpoints AS ( SELECT series_id, value AS first_v, total_n FROM ranked WHERE rn_asc = 1 ), last_v AS ( SELECT series_id, value AS last_val FROM ranked WHERE rn_desc = 1 ), per_series AS ( SELECT e.series_id, (l.last_val - e.first_v) AS rate_v FROM endpoints e JOIN last_v l ON e.series_id = l.series_id WHERE e.total_n >= 2 )")

unfoldable pub build_range_fn_sql : RangeFnOp → Text → Text
unfolding per_series_rangefn_ctes
build_range_fn_sql op where_clause =
    let ctes = per_series_rangefn_ctes op where_clause in
    ctes
    ++ lit
        " SELECT s.metric_name, s.labels, ps.rate_v AS v FROM per_series ps JOIN iceberg.skaldberg.series s ON ps.series_id = s.series_id"

range_base_sql : Text → Text → Text → Text
range_base_sql range_us values_clause sample_where =
    lit
      "base AS ( SELECT et.eval_us, sa.series_id, CAST(sa.timestamp AS BIGINT) AS ts_us, sa.value + 0.0 AS value FROM (VALUES "
    ++ (values_clause
        ++ (lit
              ") AS et(eval_us) JOIN iceberg.skaldberg.samples sa ON CAST(sa.timestamp AS BIGINT) > et.eval_us - "
            ++ (range_us
                ++ (lit
                      " AND CAST(sa.timestamp AS BIGINT) <= et.eval_us JOIN iceberg.skaldberg.series s ON sa.series_id = s.series_id WHERE "
                    ++ (sample_where ++ lit " )")))))

range_adjusted_sql : Text → Text → Text
range_adjusted_sql base_cte value_expr =
    lit "WITH "
    ++ (base_cte
        ++ (lit
              ", adjusted AS ( SELECT eval_us, series_id, ts_us, value, LAG(value) OVER w AS prev_v FROM base WINDOW w AS (PARTITION BY eval_us, series_id ORDER BY ts_us) ), agg AS ( SELECT eval_us, series_id, SUM(CASE WHEN prev_v IS NULL THEN CAST(0.0 AS DOUBLE) WHEN value >= prev_v THEN value - prev_v ELSE value END) AS total_delta, MAX(ts_us) AS last_ts_us, MIN(ts_us) AS first_ts_us, COUNT(*) AS n FROM adjusted GROUP BY eval_us, series_id ), per_series AS ( SELECT eval_us, series_id, ("
            ++ (value_expr
                ++ lit ") AS rate_v FROM agg WHERE n >= 2 AND last_ts_us > first_ts_us )")))

unfoldable pub per_series_rangefn_range_ctes : RangeFnOp → ℤ → Text → Text → Text
unfolding range_base_sql range_adjusted_sql
per_series_rangefn_range_ctes RangeFnOp.rate range_us values_clause sample_where =
    range_adjusted_sql (range_base_sql (show_ℤ range_us) values_clause sample_where) rate_value
per_series_rangefn_range_ctes RangeFnOp.increase range_us values_clause sample_where =
    range_adjusted_sql (range_base_sql (show_ℤ range_us) values_clause sample_where) increase_value
per_series_rangefn_range_ctes RangeFnOp.irate range_us values_clause sample_where =
    let base_cte = range_base_sql (show_ℤ range_us) values_clause sample_where in
    lit "WITH "
    ++ (base_cte
        ++ lit
            ", ranked AS ( SELECT eval_us, series_id, ts_us, value, LAG(value) OVER w AS prev_v, LAG(ts_us) OVER w AS prev_ts_us, ROW_NUMBER() OVER (PARTITION BY eval_us, series_id ORDER BY ts_us DESC) AS rn_desc, COUNT(*) OVER (PARTITION BY eval_us, series_id) AS total_n FROM base WINDOW w AS (PARTITION BY eval_us, series_id ORDER BY ts_us) ), per_series AS ( SELECT eval_us, series_id, ((CASE WHEN value >= prev_v THEN value - prev_v ELSE value END) * 1000000.0 / (ts_us - prev_ts_us)) AS rate_v FROM ranked WHERE rn_desc = 1 AND total_n >= 2 AND ts_us > prev_ts_us )")
per_series_rangefn_range_ctes RangeFnOp.delta range_us values_clause sample_where =
    let base_cte = range_base_sql (show_ℤ range_us) values_clause sample_where in
    lit "WITH "
    ++ (base_cte
        ++ lit
            ", ranked AS ( SELECT eval_us, series_id, value, ROW_NUMBER() OVER (PARTITION BY eval_us, series_id ORDER BY ts_us ASC) AS rn_asc, ROW_NUMBER() OVER (PARTITION BY eval_us, series_id ORDER BY ts_us DESC) AS rn_desc, COUNT(*) OVER (PARTITION BY eval_us, series_id) AS total_n FROM base ), endpoints AS ( SELECT eval_us, series_id, value AS first_v, total_n FROM ranked WHERE rn_asc = 1 ), last_v AS ( SELECT eval_us, series_id, value AS last_val FROM ranked WHERE rn_desc = 1 ), per_series AS ( SELECT e.eval_us, e.series_id, (l.last_val - e.first_v) AS rate_v FROM endpoints e JOIN last_v l ON e.eval_us = l.eval_us AND e.series_id = l.series_id WHERE e.total_n >= 2 )")

unfoldable pub build_range_range_fn_sql : RangeFnOp → ℤ → Text → Text → Text
unfolding per_series_rangefn_range_ctes
build_range_range_fn_sql op range_us values_clause sample_where =
    let ctes = per_series_rangefn_range_ctes op range_us values_clause sample_where in
    ctes
    ++ lit
        " SELECT s.metric_name, s.labels, ps.eval_us, ps.rate_v AS v FROM per_series ps JOIN iceberg.skaldberg.series s ON ps.series_id = s.series_id ORDER BY s.metric_name, ps.eval_us"
