-- ===== src/Prom/EvalTests.antt =====
-- The theorems about the evaluation of whole expressions, the requests and the catalog of
-- src/prometheus.rs, at concrete inputs.
use skaldberg.Base.{
  if◌then◌else◌, true, false, ◌≡◌, refl, some, none, List, [], ◌∷◌, All, ok, ◌↔◌, ◌>>=◌,
}
use skaldberg.Base.Int.{pos}
use skaldberg.Order.{◌=?◌, list_ord, nat_ord}
use skaldberg.BTreeMap.{BTreeMap, get, insert}
use skaldberg.BTreeMap.Laws.{HasDistinctKeys}
use skaldberg.Text.{Text, lit}
use skaldberg.Float.{Float}
use skaldberg.Prom.Types.{
  VectorSelector, InstantPoint, RangePoints, AggOp, LabelModifier, Expr, Param, Labels,
}
use skaldberg.Prom.Query.{
  Tokens, detect_query_kind, recognize, detect_aggregate, detect_topk, parse_agg_op,
}
use skaldberg.Prom.Ops.{apply_agg}
use skaldberg.Prom.Aggregate.{aggregate_instant_points, group_by, retained_labels}
use skaldberg.Prom.Engine.Aggregate.{instant_aggregate_via_sql}
use skaldberg.Prom.Engine.RangeAggregate.{range_aggregate_via_sql}
use skaldberg.Prom.Select.{modifier_excluded_keys, aggregate_group_keys}
use skaldberg.Prom.Json.{series_metric_obj, metric_obj_no_name}
use skaldberg.Prom.Engine.{Cell, Entries, Column, Database}
use skaldberg.Prom.Engine.Retained.{IsRetained}
use skaldberg.Prom.Engine.GroupedKept.{IsRetainedSeries}
use skaldberg.Prom.Eval.Instant.{evaluate_instant}
use skaldberg.Prom.Eval.Range.{evaluate_range}
use skaldberg.Prom.Eval.Size.{size}
use skaldberg.Prom.Eval.Total.{Settles, evaluate_total}
use skaldberg.Prom.Eval.Labels.{evaluate_instant-IsRetained, evaluate_range-IsRetained}
use skaldberg.Prom.Api.{
  Parsers, QueryRangeParams, Success, success_matrix, parse_duration_us, range_query_inner,
}
use skaldberg.Prom.Api.Durations.{IsDuration, parse_duration_us_iff}
use skaldberg.Prom.Catalog.{CatalogParsers, series, parse_series_matches}
use skaldberg.Prom.Catalog.Once.{Row, rows_of_all, key_of, objects, series-firsts}
use skaldberg.Prom.Catalog.Firsts.{firsts, keyed}
use skaldberg.Ingest.Fixtures.{Num, fin, num_float}

abbrev tokens : Tokens
tokens = record {
  t_topk = 1;
  t_bottomk = 2;
  t_sum = 3;
  t_avg = 4;
  t_min = 5;
  t_max = 6;
  t_count = 7;
  t_add = 8;
  t_sub = 9;
  t_mul = 10;
  t_div = 11;
  t_mod = 12;
  t_pow = 13;
  t_eqlc = 14;
  t_neq = 15;
  t_lss = 16;
  t_lte = 17;
  t_gtr = 18;
  t_gte = 19;
}

abbrev cell : {A : Type 0} → A → Cell A
cell a = record { is_null = false; value = a }

abbrev up : VectorSelector
up = record { name = some (lit "up"); matchers = [] }

-- `sum(up) by (env, job)`
abbrev by_two : LabelModifier
by_two = LabelModifier.include (lit "env" ∷ lit "job" ∷ [])

abbrev sum_expr : Expr Num
sum_expr = Expr.aggregate 3 Param.absent (some by_two) (Expr.paren (Expr.vector_selector up))

-- `sum(sum(up)) without (job)`, of which the outer sum is over points
abbrev nested_expr : Expr Num
nested_expr = Expr.aggregate 3 Param.absent (some (LabelModifier.exclude (lit "job" ∷ []))) sum_expr

-- One group, which has one of the two labels
abbrev sums : Database Unit Num
sums = record {
  sql = λ s. some tt;
  collect = λ p. some (
      (Column.utf8 (cell (lit "dev") ∷ [])
        ∷ Column.utf8 (record { is_null = true; value = [] } ∷ [])
        ∷ Column.float64 (cell (fin 7) ∷ [])
        ∷ [])
      ∷ []);
  us_to_ts_lit = λ us. [];
}

abbrev range_sums : Database Unit Num
range_sums = record {
  sql = λ s. some tt;
  collect = λ p. some (
      (Column.timestamp_us (cell (pos 5) ∷ cell (pos 8) ∷ [])
        ∷ Column.utf8 (cell (lit "dev") ∷ cell (lit "dev") ∷ [])
        ∷ Column.utf8
            (record { is_null = true; value = [] } ∷ record { is_null = true; value = [] } ∷ [])
        ∷ Column.float64 (cell (fin 7) ∷ cell (fin 9) ∷ [])
        ∷ [])
      ∷ []);
  us_to_ts_lit = λ us. [];
}

abbrev dev : Labels
dev = (lit "env", lit "dev") ∷ []

abbrev sum_points : List (InstantPoint Num)
sum_points = record { metric_name = []; labels = dev; ts_us = pos 9; value = fin 1 } ∷ []

abbrev sum_series : List (RangePoints Num)
sum_series =
    record { metric_name = []; labels = dev; points = (pos 5, fin 7) ∷ (pos 8, fin 9) ∷ [] } ∷ []

evaluate_total_example :
    Settles 4 (λ fuel. evaluate_instant sums tokens fuel nested_expr (pos 9))
    × Settles 4 (λ fuel. evaluate_range sums tokens fuel nested_expr (pos 5) (pos 9) (pos 1))
unfolding size
evaluate_total_example = evaluate_total sums tokens nested_expr (pos 9) (pos 5) (pos 9) (pos 1)

evaluate_instant-IsRetained_example :
    All (IsRetained (pos 9) false (some (LabelModifier.exclude (lit "job" ∷ [])))) sum_points
unfolding evaluate_instant detect_query_kind modifier_excluded_keys aggregate_group_keys recognize
    detect_aggregate detect_topk parse_agg_op instant_aggregate_via_sql aggregate_instant_points
    group_by retained_labels apply_agg get
evaluate_instant-IsRetained_example =
    evaluate_instant-IsRetained sums tokens 9 nested_expr (pos 9) AggOp.sum
      (some (LabelModifier.exclude (lit "job" ∷ []))) sum_expr sum_points refl refl

evaluate_range-IsRetained_example : All (IsRetainedSeries (some by_two)) sum_series
unfolding evaluate_range detect_query_kind modifier_excluded_keys aggregate_group_keys recognize
    detect_aggregate detect_topk parse_agg_op range_aggregate_via_sql get
evaluate_range-IsRetained_example =
    evaluate_range-IsRetained range_sums tokens 9 sum_expr (pos 5) (pos 9) (pos 1) AggOp.sum
      (some by_two) (Expr.paren (Expr.vector_selector up)) sum_series refl refl

abbrev parsers : Parsers Num
parsers = record { parse = λ s. some sum_expr; parse_from_rfc3339 = λ s. none }

abbrev request : QueryRangeParams
request = record { query = lit "sum(up) by (env)"; start = lit "5"; end = lit "90"; step = lit "5" }

abbrev answer : Success (BTreeMap Text Text × List (Num × Text))
answer = success_matrix ((dev, (fin 0, []) ∷ (fin 0, []) ∷ []) ∷ [])

-- The request is answered.
range_query_inner_runs : range_query_inner parsers tokens range_sums request ≡ some (ok answer)
unfolding range_query_inner modifier_excluded_keys aggregate_group_keys recognize detect_aggregate
    detect_topk parse_agg_op range_aggregate_via_sql get metric_obj_no_name
range_query_inner_runs = refl

abbrev rows : Database Unit Num
rows = record {
  sql = λ s. some tt;
  collect = λ p. some (
      (Column.utf8 (cell (lit "up") ∷ cell (lit "up") ∷ [])
        ∷ Column.map_of (cell (Entries.pairs []) ∷ cell (Entries.pairs []) ∷ [])
        ∷ [])
      ∷ []);
  us_to_ts_lit = λ us. [];
}

abbrev requests : CatalogParsers Num
requests = record {
  parse = λ s. some sum_expr;
  form_urlencoded = λ s. (lit "match[]", lit "up") ∷ (lit "match[]", lit "up") ∷ [];
}

series-firsts_example :
    (series requests rows (some (lit "q")) ≡ (
      rows_of_all requests rows (parse_series_matches requests rows (lit "q")) >>= λ found.
      ok (objects (firsts key_of found))))
    × ((found : List Row) → HasDistinctKeys (keyed key_of (firsts key_of found)))
series-firsts_example = series-firsts requests rows (some (lit "q"))

-- Two expressions find two rows each, all of one series.
series_runs : series requests rows (some (lit "q")) ≡ ok (series_metric_obj (lit "up") [] ∷ [])
unfolding series get insert
series_runs = refl

-- A parser that reads one number
abbrev five : Float Num
five = record num_float { parse = λ s. if s =? lit "5" then some (fin 5) else none }

parse_duration_us_iff_example :
    (parse_duration_us Num ⦃f = five⦄ (lit " 5m ") ≡ ok (pos 300_000_000))
    ↔ IsDuration Num ⦃f = five⦄ (lit " 5m ") (pos 300_000_000)
parse_duration_us_iff_example = parse_duration_us_iff Num ⦃f = five⦄ (lit " 5m ") (pos 300_000_000)

-- Five minutes are read.
parse_duration_us_reads : parse_duration_us Num ⦃f = five⦄ (lit " 5m ") ≡ ok (pos 300_000_000)
unfolding parse_duration_us
parse_duration_us_reads = refl
