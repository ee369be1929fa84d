-- ===== src/Prom/Engine/TopkSql.antt =====
-- The SQL of `topk` and `bottomk` of src/prometheus.rs. Each argument fills the place of its name
-- in the statement.
use skaldberg.Base.{◌++◌}
use skaldberg.Text.{Text, lit}

unfoldable pub topk_sql : Text → Text → Text → Text → Text
topk_sql window_where partition_by order_dir n =
    lit
      "WITH latest AS ( SELECT sa.series_id, sa.value, ROW_NUMBER() OVER (PARTITION BY sa.series_id ORDER BY sa.timestamp DESC) AS rn FROM iceberg.skaldberg.samples sa JOIN iceberg.skaldberg.series s ON sa.series_id = s.series_id "
    ++ (window_where
        ++ (lit " ), ranked AS ( SELECT l.series_id, l.value, ROW_NUMBER() OVER ("
            ++ (partition_by
                ++ (lit "ORDER BY l.value "
                    ++ (order_dir
                        ++ (lit
                              ") AS rnk FROM latest l JOIN iceberg.skaldberg.series s ON l.series_id = s.series_id WHERE l.rn = 1 ) SELECT s.metric_name, s.labels, rk.value FROM ranked rk JOIN iceberg.skaldberg.series s ON rk.series_id = s.series_id WHERE rk.rnk <= "
                            ++ n))))))

unfoldable pub topk_without_sql : Text → Text → Text → Text → Text
topk_without_sql where_clause filter order_dir n =
    lit
      "WITH ws AS ( SELECT sa.series_id, sa.value, ROW_NUMBER() OVER (PARTITION BY sa.series_id ORDER BY sa.timestamp DESC) AS rn FROM iceberg.skaldberg.samples sa JOIN iceberg.skaldberg.series s ON sa.series_id = s.series_id "
    ++ (where_clause
        ++ (lit
              " ), latest AS ( SELECT series_id, value FROM ws WHERE rn = 1 ), gk_pairs AS ( SELECT u.series_id, u.k AS k, element_at(u.labels, u.k)[1] AS v FROM ( SELECT lt.series_id, s.labels, unnest(map_keys(s.labels)) AS k FROM latest lt JOIN iceberg.skaldberg.series s ON lt.series_id = s.series_id ) u WHERE "
            ++ (filter
                ++ (lit
                      " ), gk AS ( SELECT series_id, COALESCE(string_agg(k || '=' || v, ',' ORDER BY k), '') AS group_key FROM gk_pairs GROUP BY series_id ), ranked AS ( SELECT l.series_id, l.value, ROW_NUMBER() OVER (PARTITION BY gk.group_key ORDER BY l.value "
                    ++ (order_dir
                        ++ (lit
                              ") AS rnk FROM latest l JOIN gk ON l.series_id = gk.series_id ) SELECT s.metric_name, s.labels, rk.value FROM ranked rk JOIN iceberg.skaldberg.series s ON rk.series_id = s.series_id WHERE rk.rnk <= "
                            ++ n))))))

unfoldable pub topk_over_rangefn_sql : Text → Text → Text → Text → Text
topk_over_rangefn_sql rate_ctes partition_by order_dir n =
    rate_ctes
    ++ (lit ", ranked AS ( SELECT ps.series_id, ps.rate_v, ROW_NUMBER() OVER ("
        ++ (partition_by
            ++ (lit "ORDER BY ps.rate_v "
                ++ (order_dir
                    ++ (lit
                          ") AS rnk FROM per_series ps JOIN iceberg.skaldberg.series s ON ps.series_id = s.series_id ) SELECT s.metric_name, s.labels, rk.rate_v AS value FROM ranked rk JOIN iceberg.skaldberg.series s ON rk.series_id = s.series_id WHERE rk.rnk <= "
                        ++ n)))))

unfoldable pub topk_over_rangefn_without_sql : Text → Text → Text → Text → Text
topk_over_rangefn_without_sql rate_ctes filter order_dir n =
    rate_ctes
    ++ (lit
          ", gk_pairs AS ( SELECT u.series_id, u.k AS k, element_at(u.labels, u.k)[1] AS v FROM ( SELECT pps.series_id, s.labels, unnest(map_keys(s.labels)) AS k FROM per_series pps JOIN iceberg.skaldberg.series s ON pps.series_id = s.series_id ) u WHERE "
        ++ (filter
            ++ (lit
                  " ), gk AS ( SELECT series_id, COALESCE(string_agg(k || '=' || v, ',' ORDER BY k), '') AS group_key FROM gk_pairs GROUP BY series_id ), ranked AS ( SELECT ps.series_id, ps.rate_v, ROW_NUMBER() OVER (PARTITION BY gk.group_key ORDER BY ps.rate_v "
                ++ (order_dir
                    ++ (lit
                          ") AS rnk FROM per_series ps JOIN gk ON ps.series_id = gk.series_id ) SELECT s.metric_name, s.labels, rk.rate_v AS value FROM ranked rk JOIN iceberg.skaldberg.series s ON rk.series_id = s.series_id WHERE rk.rnk <= "
                        ++ n)))))

unfoldable pub range_topk_sql : Text → Text → Text → Text → Text
range_topk_sql where_clause partition_by order_dir n =
    lit "WITH ranked AS ( SELECT sa.series_id, sa.timestamp, sa.value, ROW_NUMBER() OVER ("
    ++ (partition_by
        ++ (lit "ORDER BY sa.value "
            ++ (order_dir
                ++ (lit
                      ") AS rnk FROM iceberg.skaldberg.samples sa JOIN iceberg.skaldberg.series s ON sa.series_id = s.series_id "
                    ++ (where_clause
                        ++ (lit
                              " ) SELECT s.metric_name, s.labels, rk.timestamp, rk.value FROM ranked rk JOIN iceberg.skaldberg.series s ON rk.series_id = s.series_id WHERE rk.rnk <= "
                            ++ (n ++ lit " ORDER BY s.metric_name, rk.timestamp")))))))

unfoldable pub range_topk_without_sql : Text → Text → Text → Text → Text
range_topk_without_sql where_clause filter order_dir n =
    lit
      "WITH samples_in_window AS ( SELECT sa.series_id, sa.timestamp, sa.value FROM iceberg.skaldberg.samples sa JOIN iceberg.skaldberg.series s ON sa.series_id = s.series_id "
    ++ (where_clause
        ++ (lit
              " ), distinct_sids AS ( SELECT DISTINCT series_id FROM samples_in_window ), gk_pairs AS ( SELECT u.series_id, u.k AS k, element_at(u.labels, u.k)[1] AS v FROM ( SELECT d.series_id, s.labels, unnest(map_keys(s.labels)) AS k FROM distinct_sids d JOIN iceberg.skaldberg.series s ON d.series_id = s.series_id ) u WHERE "
            ++ (filter
                ++ (lit
                      " ), gk AS ( SELECT series_id, COALESCE(string_agg(k || '=' || v, ',' ORDER BY k), '') AS group_key FROM gk_pairs GROUP BY series_id ), ranked AS ( SELECT sw.series_id, sw.timestamp, sw.value, ROW_NUMBER() OVER (PARTITION BY sw.timestamp, gk.group_key ORDER BY sw.value "
                    ++ (order_dir
                        ++ (lit
                              ") AS rnk FROM samples_in_window sw JOIN gk ON sw.series_id = gk.series_id ) SELECT s.metric_name, s.labels, rk.timestamp, rk.value FROM ranked rk JOIN iceberg.skaldberg.series s ON rk.series_id = s.series_id WHERE rk.rnk <= "
                            ++ (n ++ lit " ORDER BY s.metric_name, rk.timestamp")))))))

unfoldable pub range_topk_over_rangefn_sql : Text → Text → Text → Text → Text
range_topk_over_rangefn_sql rate_ctes partition_by order_dir n =
    rate_ctes
    ++ (lit ", ranked AS ( SELECT ps.series_id, ps.eval_us, ps.rate_v, ROW_NUMBER() OVER ("
        ++ (partition_by
            ++ (lit "ORDER BY ps.rate_v "
                ++ (order_dir
                    ++ (lit
                          ") AS rnk FROM per_series ps JOIN iceberg.skaldberg.series s ON ps.series_id = s.series_id ) SELECT s.metric_name, s.labels, rk.eval_us, rk.rate_v AS value FROM ranked rk JOIN iceberg.skaldberg.series s ON rk.series_id = s.series_id WHERE rk.rnk <= "
                        ++ (n ++ lit " ORDER BY s.metric_name, rk.eval_us"))))))

unfoldable pub range_topk_over_rangefn_without_sql : Text → Text → Text → Text → Text
range_topk_over_rangefn_without_sql rate_ctes filter order_dir n =
    rate_ctes
    ++ (lit
          ", distinct_sids AS ( SELECT DISTINCT series_id FROM per_series ), gk_pairs AS ( SELECT u.series_id, u.k AS k, element_at(u.labels, u.k)[1] AS v FROM ( SELECT d.series_id, s.labels, unnest(map_keys(s.labels)) AS k FROM distinct_sids d JOIN iceberg.skaldberg.series s ON d.series_id = s.series_id ) u WHERE "
        ++ (filter
            ++ (lit
                  " ), gk AS ( SELECT series_id, COALESCE(string_agg(k || '=' || v, ',' ORDER BY k), '') AS group_key FROM gk_pairs GROUP BY series_id ), ranked AS ( SELECT ps.series_id, ps.eval_us, ps.rate_v, ROW_NUMBER() OVER (PARTITION BY ps.eval_us, gk.group_key ORDER BY ps.rate_v "
                ++ (order_dir
                    ++ (lit
                          ") AS rnk FROM per_series ps JOIN gk ON ps.series_id = gk.series_id ) SELECT s.metric_name, s.labels, rk.eval_us, rk.rate_v AS value FROM ranked rk JOIN iceberg.skaldberg.series s ON rk.series_id = s.series_id WHERE rk.rnk <= "
                        ++ (n ++ lit " ORDER BY s.metric_name, rk.eval_us"))))))
