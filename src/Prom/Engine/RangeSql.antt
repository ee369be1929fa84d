-- ===== src/Prom/Engine/RangeSql.antt =====
-- The SQL of the aggregates and quantiles over a range, and of quantiles at an instant, of
-- src/prometheus.rs. Each argument fills the place of its name in the statement.
use skaldberg.Base.{◌++◌}
use skaldberg.Text.{Text, lit}

unfoldable pub range_aggregate_sql : Text → Text → Text → Text → Text → Text
range_aggregate_sql labels_part agg_call where_clause group_by order_by =
    lit "SELECT sa.timestamp, "
    ++ (labels_part
        ++ (agg_call
            ++ (lit
                  " AS agg_v FROM iceberg.skaldberg.samples sa JOIN iceberg.skaldberg.series s ON sa.series_id = s.series_id "
                ++ (where_clause ++ (group_by ++ order_by)))))

unfoldable pub range_aggregate_without_sql : Text → Text → Text → Text
range_aggregate_without_sql where_clause filter agg_call =
    lit
      "WITH samples_in_window AS ( SELECT sa.series_id, sa.timestamp, sa.value FROM iceberg.skaldberg.samples sa JOIN iceberg.skaldberg.series s ON sa.series_id = s.series_id "
    ++ (where_clause
        ++ (lit
              " ), distinct_sids AS ( SELECT DISTINCT series_id FROM samples_in_window ), gk_pairs AS ( SELECT u.series_id, u.k AS k, element_at(u.labels, u.k)[1] AS v FROM ( SELECT d.series_id, s.labels, unnest(map_keys(s.labels)) AS k FROM distinct_sids d JOIN iceberg.skaldberg.series s ON d.series_id = s.series_id ) u WHERE "
            ++ (filter
                ++ (lit
                      " ), gk AS ( SELECT series_id, COALESCE(string_agg(k || '=' || v, ',' ORDER BY k), '') AS group_key FROM gk_pairs GROUP BY series_id ), grouped AS ( SELECT samples_in_window.timestamp, gk.group_key, "
                    ++ (agg_call
                        ++ lit
                            " AS agg_v, MIN(samples_in_window.series_id) AS rep_sid FROM samples_in_window JOIN gk ON samples_in_window.series_id = gk.series_id GROUP BY samples_in_window.timestamp, gk.group_key ) SELECT s.labels, grouped.timestamp, grouped.agg_v FROM grouped JOIN iceberg.skaldberg.series s ON grouped.rep_sid = s.series_id ORDER BY grouped.timestamp")))))

unfoldable pub range_aggregate_over_rangefn_sql : Text → Text → Text → Text → Text → Text
range_aggregate_over_rangefn_sql ctes labels_part agg_call group_by order_by =
    ctes
    ++ (lit " SELECT ps.eval_us, "
        ++ (labels_part
            ++ (agg_call
                ++ (lit
                      " AS agg_v FROM per_series ps JOIN iceberg.skaldberg.series s ON ps.series_id = s.series_id"
                    ++ (group_by ++ order_by)))))

unfoldable pub range_aggregate_over_rangefn_without_sql : Text → Text → Text → Text
range_aggregate_over_rangefn_without_sql rate_ctes filter agg_call =
    rate_ctes
    ++ (lit
          ", distinct_sids AS ( SELECT DISTINCT series_id FROM per_series ), gk_pairs AS ( SELECT u.series_id, u.k AS k, element_at(u.labels, u.k)[1] AS v FROM ( SELECT d.series_id, s.labels, unnest(map_keys(s.labels)) AS k FROM distinct_sids d JOIN iceberg.skaldberg.series s ON d.series_id = s.series_id ) u WHERE "
        ++ (filter
            ++ (lit
                  " ), gk AS ( SELECT series_id, COALESCE(string_agg(k || '=' || v, ',' ORDER BY k), '') AS group_key FROM gk_pairs GROUP BY series_id ), grouped AS ( SELECT ps.eval_us, gk.group_key, "
                ++ (agg_call
                    ++ lit
                        " AS agg_v, MIN(ps.series_id) AS rep_sid FROM per_series ps JOIN gk ON ps.series_id = gk.series_id GROUP BY ps.eval_us, gk.group_key ) SELECT s.labels, grouped.eval_us, grouped.agg_v FROM grouped JOIN iceberg.skaldberg.series s ON grouped.rep_sid = s.series_id ORDER BY grouped.eval_us"))))

unfoldable pub histogram_quantile_sql : Text → Text → Text
histogram_quantile_sql rate_ctes q =
    rate_ctes
    ++ (lit
          ", buckets AS ( SELECT ps.series_id, s.labels, ps.rate_v AS cum, TRY_CAST( CASE WHEN lower(element_at(s.labels, 'le')[1]) IN ('+inf', 'inf') THEN 'Infinity' WHEN lower(element_at(s.labels, 'le')[1]) = '-inf' THEN '-Infinity' ELSE element_at(s.labels, 'le')[1] END AS DOUBLE ) AS le FROM per_series ps JOIN iceberg.skaldberg.series s ON ps.series_id = s.series_id WHERE element_at(s.labels, 'le') IS NOT NULL ), filtered_buckets AS ( SELECT * FROM buckets WHERE le IS NOT NULL ), gk_pairs AS ( SELECT u.series_id, u.k AS k, element_at(u.labels, u.k)[1] AS v FROM ( SELECT series_id, labels, unnest(map_keys(labels)) AS k FROM filtered_buckets ) u WHERE u.k != 'le' ), gk AS ( SELECT series_id, string_agg(k || '=' || v, ',' ORDER BY k) AS group_key FROM gk_pairs GROUP BY series_id ), annotated AS ( SELECT b.series_id, b.cum, b.le, COALESCE(gk.group_key, '') AS group_key FROM filtered_buckets b LEFT JOIN gk ON b.series_id = gk.series_id ), ranked AS ( SELECT series_id, group_key, le, cum, LAG(le) OVER w AS prev_le, LAG(cum) OVER w AS prev_cum, MAX(cum) OVER (PARTITION BY group_key) AS total, ROW_NUMBER() OVER w AS rn FROM annotated WINDOW w AS (PARTITION BY group_key ORDER BY le) ), rep AS ( SELECT group_key, MIN(series_id) AS rep_series_id FROM ranked GROUP BY group_key ), crossing AS ( SELECT group_key, MIN(rn) AS first_rn FROM ranked WHERE total > 0 AND cum >= "
        ++ (q
            ++ (lit
                  " * total GROUP BY group_key ) SELECT s.labels, CASE WHEN r.le = CAST('Infinity' AS DOUBLE) THEN COALESCE(r.prev_le, 0.0) WHEN r.cum - COALESCE(r.prev_cum, 0.0) <= 0 THEN r.le ELSE COALESCE(r.prev_le, 0.0) + (("
                ++ (q
                    ++ lit
                        " * r.total - COALESCE(r.prev_cum, 0.0)) / (r.cum - COALESCE(r.prev_cum, 0.0))) * (r.le - COALESCE(r.prev_le, 0.0)) END AS qv FROM crossing c JOIN ranked r ON c.group_key = r.group_key AND c.first_rn = r.rn JOIN rep ON c.group_key = rep.group_key JOIN iceberg.skaldberg.series s ON rep.rep_series_id = s.series_id"))))

unfoldable pub range_histogram_quantile_sql : Text → Text → Text
range_histogram_quantile_sql rate_ctes q =
    rate_ctes
    ++ (lit
          ", buckets AS ( SELECT ps.eval_us, ps.series_id, s.labels, ps.rate_v AS cum, TRY_CAST( CASE WHEN lower(element_at(s.labels, 'le')[1]) IN ('+inf', 'inf') THEN 'Infinity' WHEN lower(element_at(s.labels, 'le')[1]) = '-inf' THEN '-Infinity' ELSE element_at(s.labels, 'le')[1] END AS DOUBLE ) AS le FROM per_series ps JOIN iceberg.skaldberg.series s ON ps.series_id = s.series_id WHERE element_at(s.labels, 'le') IS NOT NULL ), filtered_buckets AS ( SELECT * FROM buckets WHERE le IS NOT NULL ), gk_pairs AS ( SELECT u.eval_us, u.series_id, u.k AS k, element_at(u.labels, u.k)[1] AS v FROM ( SELECT eval_us, series_id, labels, unnest(map_keys(labels)) AS k FROM filtered_buckets ) u WHERE u.k != 'le' ), gk AS ( SELECT eval_us, series_id, string_agg(k || '=' || v, ',' ORDER BY k) AS group_key FROM gk_pairs GROUP BY eval_us, series_id ), annotated AS ( SELECT b.eval_us, b.series_id, b.cum, b.le, COALESCE(gk.group_key, '') AS group_key FROM filtered_buckets b LEFT JOIN gk ON b.eval_us = gk.eval_us AND b.series_id = gk.series_id ), ranked AS ( SELECT eval_us, series_id, group_key, le, cum, LAG(le) OVER w AS prev_le, LAG(cum) OVER w AS prev_cum, MAX(cum) OVER (PARTITION BY eval_us, group_key) AS total, ROW_NUMBER() OVER w AS rn FROM annotated WINDOW w AS (PARTITION BY eval_us, group_key ORDER BY le) ), rep AS ( SELECT group_key, MIN(series_id) AS rep_series_id FROM ranked GROUP BY group_key ), crossing AS ( SELECT eval_us, group_key, MIN(rn) AS first_rn FROM ranked WHERE total > 0 AND cum >= "
        ++ (q
            ++ (lit
                  " * total GROUP BY eval_us, group_key ) SELECT s.labels, r.eval_us, CASE WHEN r.le = CAST('Infinity' AS DOUBLE) THEN COALESCE(r.prev_le, 0.0) WHEN r.cum - COALESCE(r.prev_cum, 0.0) <= 0 THEN r.le ELSE COALESCE(r.prev_le, 0.0) + (("
                ++ (q
                    ++ lit
                        " * r.total - COALESCE(r.prev_cum, 0.0)) / (r.cum - COALESCE(r.prev_cum, 0.0))) * (r.le - COALESCE(r.prev_le, 0.0)) END AS qv FROM crossing c JOIN ranked r ON c.eval_us = r.eval_us AND c.group_key = r.group_key AND c.first_rn = r.rn JOIN rep ON c.group_key = rep.group_key JOIN iceberg.skaldberg.series s ON rep.rep_series_id = s.series_id ORDER BY r.eval_us"))))
