-- ===== src/Prom/Engine/GroupSql.antt =====
-- The SQL of the aggregates at an instant of src/prometheus.rs.
use skaldberg.Base.{ℕ, ◌+◌, List, [], ◌∷◌, ◌++◌, map, if◌then◌else◌, is_empty}
use skaldberg.Text.{Text, lit, show_ℕ}
use skaldberg.Prom.Select.{sql_escape, join, quoted_keys_list}

-- `label_exprs`, the select list with its aliases, and the `GROUP BY`
unfoldable pub label_exprs : List Text → List Text
unfolding sql_escape
label_exprs group_keys =
    map (λ k. lit "element_at(s.labels, '" ++ (sql_escape k ++ lit "')[1]")) group_keys

unfoldable pub label_parts : ℕ → List Text → List Text
label_parts i [] = []
label_parts i (e ∷ exprs) = (e ++ (lit " AS lbl_" ++ show_ℕ i)) ∷ label_parts (i + 1) exprs

unfoldable pub select_label_part : List Text → Text
unfolding label_parts
select_label_part exprs =
    if is_empty exprs then [] else (join (lit ", ") (label_parts 0 exprs) ++ lit ", ")

unfoldable pub group_by_clause : List Text → Text
group_by_clause exprs = if is_empty exprs then [] else (lit " GROUP BY " ++ join (lit ", ") exprs)

unfoldable pub excluded_filter : List Text → Text
excluded_filter excluded =
    if is_empty excluded
    then lit "TRUE"
    else (lit "u.k NOT IN (" ++ (quoted_keys_list excluded ++ lit ")"))

unfoldable pub aggregate_sql : Text → Text → Text → Text → Text
aggregate_sql window_where labels_part agg_call group_by =
    lit
      "WITH ws AS ( SELECT sa.series_id, sa.value, sa.timestamp, ROW_NUMBER() OVER (PARTITION BY sa.series_id ORDER BY sa.timestamp DESC) AS rn FROM iceberg.skaldberg.samples sa JOIN iceberg.skaldberg.series s ON sa.series_id = s.series_id "
    ++ (window_where
        ++ (lit " ) SELECT "
            ++ (labels_part
                ++ (agg_call
                    ++ (lit
                          " AS agg_v FROM ws JOIN iceberg.skaldberg.series s ON ws.series_id = s.series_id WHERE ws.rn = 1"
                        ++ group_by)))))

unfoldable pub aggregate_without_sql : Text → Text → Text → Text
aggregate_without_sql where_clause filter agg_call =
    lit
      "WITH ws AS ( SELECT sa.series_id, sa.value, ROW_NUMBER() OVER (PARTITION BY sa.series_id ORDER BY sa.timestamp DESC) AS rn FROM iceberg.skaldberg.samples sa JOIN iceberg.skaldberg.series s ON sa.series_id = s.series_id "
    ++ (where_clause
        ++ (lit
              " ), latest AS ( SELECT series_id, value FROM ws WHERE rn = 1 ), gk_pairs AS ( SELECT u.series_id, u.k AS k, element_at(u.labels, u.k)[1] AS v FROM ( SELECT lt.series_id, s.labels, unnest(map_keys(s.labels)) AS k FROM latest lt JOIN iceberg.skaldberg.series s ON lt.series_id = s.series_id ) u WHERE "
            ++ (filter
                ++ (lit
                      " ), gk AS ( SELECT series_id, COALESCE(string_agg(k || '=' || v, ',' ORDER BY k), '') AS group_key FROM gk_pairs GROUP BY series_id ), grouped AS ( SELECT gk.group_key, "
                    ++ (agg_call
                        ++ lit
                            " AS agg_v, MIN(latest.series_id) AS rep_sid FROM latest JOIN gk ON latest.series_id = gk.series_id GROUP BY gk.group_key ) SELECT s.labels, grouped.agg_v FROM grouped JOIN iceberg.skaldberg.series s ON grouped.rep_sid = s.series_id")))))

unfoldable pub aggregate_over_rangefn_sql : Text → Text → Text → Text → Text
aggregate_over_rangefn_sql ctes labels_part agg_call group_by =
    ctes
    ++ (lit " SELECT "
        ++ (labels_part
            ++ (agg_call
                ++ (lit
                      " AS agg_v FROM per_series ps JOIN iceberg.skaldberg.series s ON ps.series_id = s.series_id"
                    ++ group_by))))

unfoldable pub aggregate_over_rangefn_without_sql : Text → Text → Text → Text
aggregate_over_rangefn_without_sql rate_ctes filter agg_call =
    rate_ctes
    ++ (lit
          ", gk_pairs AS ( SELECT u.series_id, u.k AS k, element_at(u.labels, u.k)[1] AS v FROM ( SELECT pps.series_id, s.labels, unnest(map_keys(s.labels)) AS k FROM per_series pps JOIN iceberg.skaldberg.series s ON pps.series_id = s.series_id ) u WHERE "
        ++ (filter
            ++ (lit
                  " ), gk AS ( SELECT series_id, COALESCE(string_agg(k || '=' || v, ',' ORDER BY k), '') AS group_key FROM gk_pairs GROUP BY series_id ), grouped AS ( SELECT gk.group_key, "
                ++ (agg_call
                    ++ lit
                        " AS agg_v, MIN(ps.series_id) AS rep_sid FROM per_series ps JOIN gk ON ps.series_id = gk.series_id GROUP BY gk.group_key ) SELECT s.labels, grouped.agg_v FROM grouped JOIN iceberg.skaldberg.series s ON grouped.rep_sid = s.series_id"))))
