-- ===== src/Prom/EngineTests.antt =====
-- The theorems about the queries of src/prometheus.rs that run SQL, at concrete inputs.
use skaldberg.Base.{ℕ, ◌≡◌, refl, false, some, [], ◌∷◌, ◌++◌, All, map, ok, arith}
use skaldberg.Base.Int.{pos}
use skaldberg.Order.{list_ord, nat_ord}
use skaldberg.BTreeMap.{BTreeMap, get}
use skaldberg.BTreeMap.Laws.{IsSorted}
use skaldberg.Text.{Text, lit}
use skaldberg.Prom.Types.{MatchOp, VectorSelector, SeriesRow, RangeFnOp}
use skaldberg.Prom.Select.{join, label_filters_for_selector}
use skaldberg.Prom.Engine.{
  Cell, Entries, Column, Database, point_of, run_selector_query, instant_selector, selector_sql,
}
use skaldberg.Prom.Engine.RangeFn.{eval_times, max_range_evals, instant_range_fn_via_sql}
use skaldberg.Prom.Engine.Evals.{Evaluates, eval_times_lem}
use skaldberg.Prom.Engine.Safe.{IsLetThrough, instant_range_fn_via_sql-All}
use skaldberg.Prom.Engine.Outside.{outside, bare_selector, selector_sql-outside}
use skaldberg.Prom.Engine.Latest.{Kept, instant_selector-Kept}
use skaldberg.Ingest.Fixtures.{Num, fin, num_float}

eval_times_lem_example :
    Evaluates max_range_evals
      (pos 10)
      (pos 40)
      15
      (eval_times max_range_evals (pos 10) (pos 40) (pos 15))
eval_times_lem_example =
    eval_times_lem (pos 10) (pos 40) 15 (omega arith, omega arith) (omega arith, omega arith)
      (omega arith)

abbrev cell : {A : Type 0} → A → Cell A
cell a = record { is_null = false; value = a }

-- One series `up` without labels, with two samples
abbrev db : Database Unit Num
db = record {
  sql = λ s. some tt;
  collect = λ p. some (
      (Column.utf8 (cell (lit "up") ∷ cell (lit "up") ∷ [])
        ∷ Column.map_of (cell (Entries.pairs []) ∷ cell (Entries.pairs []) ∷ [])
        ∷ Column.timestamp_us (cell (pos 5) ∷ cell (pos 8) ∷ [])
        ∷ Column.float64 (cell (fin 1) ∷ cell (fin 2) ∷ [])
        ∷ [])
      ∷ []);
  us_to_ts_lit = λ us. [];
}

abbrev rates : Database Unit Num
rates = record {
  sql = λ s. some tt;
  collect = λ p. some (
      (Column.utf8 (cell (lit "up") ∷ [])
        ∷ Column.map_of (cell (Entries.pairs []) ∷ [])
        ∷ Column.float64 (cell (fin 1) ∷ [])
        ∷ [])
      ∷ []);
  us_to_ts_lit = λ us. [];
}

abbrev up : VectorSelector
up = record {
  name = some (lit "up");
  matchers = record { name = lit "job"; op = MatchOp.equal; value = lit "a' OR 1=1 --" } ∷ [];
}

abbrev row : ℕ → ℕ → SeriesRow Num
row t n = record { metric_name = lit "up"; labels = []; ts_us = pos t; value = fin n }

instant_selector-Kept_example :
    (kept : BTreeMap Text (SeriesRow Num)) × (instant_selector db up (pos 9)
      ≡ ok (map (λ (k, r). point_of r) kept))
    × IsSorted kept
    × ((k : Text) → Kept k (row 5 1 ∷ row 8 2 ∷ []) (get k kept))
unfolding run_selector_query label_filters_for_selector
instant_selector-Kept_example = instant_selector-Kept db up (pos 9) (row 5 1 ∷ row 8 2 ∷ []) refl

instant_range_fn_via_sql-All_example :
    All
      (IsLetThrough (label_filters_for_selector up) (pos 9))
      (record { metric_name = lit "up"; labels = []; ts_us = pos 9; value = fin 1 } ∷ [])
unfolding instant_range_fn_via_sql label_filters_for_selector
instant_range_fn_via_sql-All_example =
    instant_range_fn_via_sql-All rates up (pos 300) RangeFnOp.rate (pos 9)
      (record { metric_name = lit "up"; labels = []; ts_us = pos 9; value = fin 1 } ∷ []) refl

selector_sql-outside_example : outside false (selector_sql db up (pos 5) (pos 9)) ≡ (
  lit
        "SELECT s.metric_name, s.labels, sa.timestamp, sa.value\n         FROM iceberg.skaldberg.samples sa\n         JOIN iceberg.skaldberg.series s ON sa.series_id = s.series_id\n          WHERE "
      ++ (join
            (lit " AND ")
            (bare_selector up ++ (lit "sa.timestamp BETWEEN TIMESTAMP  AND TIMESTAMP " ∷ []))
          ++ lit "\n         ORDER BY s.metric_name, sa.timestamp"),
  false,
)
unfolding outside
selector_sql-outside_example = selector_sql-outside db (pos 5) (pos 9) up refl refl
