-- ===== src/Prom/Engine/BinarySql.antt =====
-- The SQL of the binary operators of src/prometheus.rs. Each argument fills the place of its name in
-- the statement.
use skaldberg.Base.{◌++◌}
use skaldberg.Text.{Text, lit}

unfoldable pub scalar_vector_sql : Text → Text → Text → Text → Text
scalar_vector_sql window_where metric_sel value_sel extra_where =
    lit
      "WITH latest AS ( SELECT sa.series_id, sa.value, ROW_NUMBER() OVER (PARTITION BY sa.series_id ORDER BY sa.timestamp DESC) AS rn FROM iceberg.skaldberg.samples sa JOIN iceberg.skaldberg.series s ON sa.series_id = s.series_id "
    ++ (window_where
        ++ (lit " ) SELECT "
            ++ (metric_sel
                ++ (lit " AS metric_name, s.labels, ("
                    ++ (value_sel
                        ++ (lit
                              ") AS value FROM latest l JOIN iceberg.skaldberg.series s ON l.series_id = s.series_id WHERE l.rn = 1"
                            ++ extra_where))))))

unfoldable pub side_ctes_sql : Text → Text → Text
side_ctes_sql side where_clause =
    side
    ++ (lit
          "_base AS ( SELECT sa.series_id, sa.value + 0.0 AS value, ROW_NUMBER() OVER (PARTITION BY sa.series_id ORDER BY sa.timestamp DESC) AS rn FROM iceberg.skaldberg.samples sa JOIN iceberg.skaldberg.series s ON sa.series_id = s.series_id "
        ++ (where_clause
            ++ (lit " ), "
                ++ (side
                    ++ (lit "_latest AS ( SELECT series_id, value FROM "
                        ++ (side
                            ++ (lit "_base WHERE rn = 1 ), "
                                ++ (side
                                    ++ (lit
                                          "_gk_pairs AS ( SELECT u.series_id, u.k AS k, element_at(u.labels, u.k)[1] AS v FROM ( SELECT lt.series_id, s.labels, unnest(map_keys(s.labels)) AS k FROM "
                                        ++ (side
                                            ++ (lit
                                                  "_latest lt JOIN iceberg.skaldberg.series s ON lt.series_id = s.series_id ) u ), "
                                                ++ (side
                                                    ++ (lit
                                                          "_gk AS ( SELECT series_id, COALESCE(string_agg(k || '=' || v, ',' ORDER BY k), '') AS group_key FROM "
                                                        ++ (side
                                                            ++ lit
                                                            "_gk_pairs GROUP BY series_id )"))))))))))))))

unfoldable pub vector_vector_sql : Text → Text → Text → Text → Text → Text
vector_vector_sql lhs_ctes rhs_ctes metric_sel value_sel extra_where =
    lit "WITH "
    ++ (lhs_ctes
        ++ (lit ", "
            ++ (rhs_ctes
                ++ (lit
                      ", joined AS ( SELECT lh.series_id AS lhs_sid, lh.value AS lhs_v, rh.value AS rhs_v FROM lhs_latest lh JOIN lhs_gk lgk ON lh.series_id = lgk.series_id JOIN rhs_gk rgk ON lgk.group_key = rgk.group_key JOIN rhs_latest rh ON rgk.series_id = rh.series_id ) SELECT "
                    ++ (metric_sel
                        ++ (lit " AS m_name, s.labels, ("
                            ++ (value_sel
                                ++ (lit
                                      ") AS value FROM joined j JOIN iceberg.skaldberg.series s ON j.lhs_sid = s.series_id WHERE TRUE"
                                    ++ extra_where))))))))

unfoldable pub side_range_ctes_sql : Text → Text → Text
side_range_ctes_sql side where_clause =
    side
    ++ (lit
          "_samples AS ( SELECT sa.series_id, sa.timestamp AS ts, sa.value + 0.0 AS value FROM iceberg.skaldberg.samples sa JOIN iceberg.skaldberg.series s ON sa.series_id = s.series_id "
        ++ (where_clause
            ++ (lit " ), "
                ++ (side
                    ++ (lit "_distinct AS ( SELECT DISTINCT series_id FROM "
                        ++ (side
                            ++ (lit "_samples ), "
                                ++ (side
                                    ++ (lit
                                          "_gk_pairs AS ( SELECT u.series_id, u.k AS k, element_at(u.labels, u.k)[1] AS v FROM ( SELECT d.series_id, s.labels, unnest(map_keys(s.labels)) AS k FROM "
                                        ++ (side
                                            ++ (lit
                                                  "_distinct d JOIN iceberg.skaldberg.series s ON d.series_id = s.series_id ) u ), "
                                                ++ (side
                                                    ++ (lit
                                                          "_gk AS ( SELECT series_id, COALESCE(string_agg(k || '=' || v, ',' ORDER BY k), '') AS group_key FROM "
                                                        ++ (side
                                                            ++ lit
                                                            "_gk_pairs GROUP BY series_id )"))))))))))))))

unfoldable pub vector_vector_range_sql : Text → Text → Text → Text → Text → Text
vector_vector_range_sql lhs_ctes rhs_ctes metric_sel value_sel extra_where =
    lit "WITH "
    ++ (lhs_ctes
        ++ (lit ", "
            ++ (rhs_ctes
                ++ (lit
                      ", joined AS ( SELECT l.series_id AS lhs_sid, l.ts AS ts, l.value AS lhs_v, r.value AS rhs_v FROM lhs_samples l JOIN lhs_gk lgk ON l.series_id = lgk.series_id JOIN rhs_gk rgk ON lgk.group_key = rgk.group_key JOIN rhs_samples r ON rgk.series_id = r.series_id AND r.ts = l.ts ) SELECT "
                    ++ (metric_sel
                        ++ (lit " AS m_name, s.labels, j.ts, ("
                            ++ (value_sel
                                ++ (lit
                                      ") AS value FROM joined j JOIN iceberg.skaldberg.series s ON j.lhs_sid = s.series_id WHERE TRUE"
                                    ++ (extra_where ++ lit " ORDER BY s.metric_name, j.ts")))))))))

unfoldable pub scalar_vector_range_sql : Text → Text → Text → Text → Text
scalar_vector_range_sql where_clause metric_sel value_sel extra_where =
    lit "SELECT "
    ++ (metric_sel
        ++ (lit " AS m_name, s.labels, sa.timestamp, ("
            ++ (value_sel
                ++ (lit
                      ") AS value FROM iceberg.skaldberg.samples sa JOIN iceberg.skaldberg.series s ON sa.series_id = s.series_id "
                    ++ (where_clause
                        ++ (extra_where ++ lit " ORDER BY s.metric_name, sa.timestamp"))))))
