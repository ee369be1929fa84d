-- ===== src/Prom/Engine.antt =====
-- Selector queries and range functions of src/prometheus.rs as they run: the SQL text, the columns of
-- the answer, and the points that are made of them. DataFusion, chrono's form of a time and arrow's
-- columns are parameters. The messages of errors are left out.
pub mod Sql
pub mod Decode
pub mod RangeFn
pub mod GroupSql
pub mod RangeSql
pub mod TopkSql
pub mod BinarySql
pub mod Grouped
pub mod RangeAggregate
pub mod Quantile
pub mod Topk
pub mod Binary
pub mod Aggregate
pub mod Retained
pub mod GroupedKept
pub mod RetainedRange
pub mod Evals
pub mod Safe
pub mod Latest
pub mod Outside
use skaldberg.Base.{
  ℕ, zero, suc, ◌+◌, Bool, true, false, not, Option, none, some, List, [], ◌∷◌, ◌++◌, all, map,
  if◌then◌else◌, Result, ok, err, ◌>>=◌, is_empty,
}
use skaldberg.Base.Int.{ℤ, pos, ◌-ℤ◌, wrap_i64, compare_ℤ, ltb_ℤ}
use skaldberg.Order.{Ord, list_ord, nat_ord}
use skaldberg.BTreeMap.{BTreeMap, get, insert}
use skaldberg.Text.{Text, lit}
use skaldberg.Prom.Types.{Labels, Matcher, VectorSelector, InstantPoint, RangePoints, SeriesRow}
use skaldberg.Prom.Select.{selector_predicates, label_filters_for_selector, match_label, join}
use skaldberg.Prom.Aggregate.{series_key, group_rows_by_series}

-- The status and type of an error; a column index out of range panics.
pub data PromError : Type 0 where
  bad_data : PromError
  internal : PromError
  panicked : PromError

-- A slot of an arrow array: whether it is null, and the value that is stored.
pub record Cell (A : Type 0) : Type 0 where
  pub is_null : Bool
  pub value : A

-- The entries of one row's map: keys and values in step, or arrays of other types.
pub data Entries : Type 0 where
  keys_not_utf8 : Entries
  values_not_utf8 : Entries
  pairs : List (Cell Text × Cell Text) → Entries

-- The columns that the code downcasts to, and one for all others. All columns of a batch have the
-- batch's number of rows.
pub data Column (F : Type 0) : Type 0 where
  utf8 : List (Cell Text) → Column F
  map_of : List (Cell Entries) → Column F
  float64 : List (Cell F) → Column F
  int64 : List (Cell ℤ) → Column F
  timestamp_us : List (Cell ℤ) → Column F
  other : Column F

-- `ctx.sql`, `df.collect`, and a time as `%Y-%m-%d %H:%M:%S%.6f`
pub record Database (P F : Type 0) : Type 0 where
  pub sql : Text → Option P
  pub collect : P → Option (List (List (Column F)))
  pub us_to_ts_lit : ℤ → Text

abbrev pub lookback_us : ℤ
lookback_us = pos 300_000_000

abbrev pub cat : Text
cat = lit "iceberg"

unfoldable pub btree_entries : List (Cell Text × Cell Text) → Labels → Labels
btree_entries [] out = out
btree_entries ((k, v) ∷ entries) out =
    btree_entries entries
      (if k.is_null then out else if v.is_null then out else insert k.value v.value out)

unfoldable pub labels_to_btree : Cell Entries → Result PromError Labels
unfolding btree_entries
labels_to_btree labels = if labels.is_null then ok [] else elim labels.value [
  | keys_not_utf8 ↦ err internal
  | values_not_utf8 ↦ err internal
  | pairs entries ↦ ok (btree_entries entries [])
]

module _ {F : Type 0} where
  -- `batch.column(i)`
  unfoldable pub column : ℕ → List (Column F) → Result PromError (Column F)
  column n [] = err panicked
  column zero (c ∷ columns) = ok c
  column (suc n) (c ∷ columns) = column n columns

  -- `downcast_ref`, an error if the column has another type
  unfoldable pub as_utf8 : Column F → Result PromError (List (Cell Text))
  as_utf8 (Column.utf8 cells) = ok cells
  as_utf8 c = err internal

  unfoldable pub as_map : Column F → Result PromError (List (Cell Entries))
  as_map (Column.map_of cells) = ok cells
  as_map c = err internal

  unfoldable pub as_float64 : Column F → Result PromError (List (Cell F))
  as_float64 (Column.float64 cells) = ok cells
  as_float64 c = err internal

  unfoldable pub as_int64 : Column F → Result PromError (List (Cell ℤ))
  as_int64 (Column.int64 cells) = ok cells
  as_int64 c = err internal

  unfoldable pub as_timestamp_us : Column F → Result PromError (List (Cell ℤ))
  as_timestamp_us (Column.timestamp_us cells) = ok cells
  as_timestamp_us c = err internal

module _ {P F : Type 0} (db : Database P F) where
  -- The condition on the sample's time, and all conditions in a row
  unfoldable pub time_between : ℤ → ℤ → Text
  time_between from_us to_us =
      lit "sa.timestamp BETWEEN TIMESTAMP '"
      ++ (db.us_to_ts_lit from_us
          ++ (lit "' AND TIMESTAMP '" ++ (db.us_to_ts_lit to_us ++ lit "'")))

  unfoldable pub conditions : VectorSelector → ℤ → ℤ → Text
  unfolding time_between
  conditions sel from_us to_us =
      join (lit " AND ") (selector_predicates sel ++ (time_between from_us to_us ∷ []))

  unfoldable pub selector_sql : VectorSelector → ℤ → ℤ → Text
  unfolding conditions
  selector_sql sel from_us to_us =
      lit
        "SELECT s.metric_name, s.labels, sa.timestamp, sa.value\n         FROM iceberg.skaldberg.samples sa\n         JOIN iceberg.skaldberg.series s ON sa.series_id = s.series_id\n         "
      ++ ((lit " WHERE " ++ conditions sel from_us to_us)
          ++ lit "\n         ORDER BY s.metric_name, sa.timestamp")

  -- The statement is run.
  unfoldable pub run : Text → Result PromError (List (List (Column F)))
  run sql = elim (db.sql sql) [
    | none ↦ err internal
    | some df ↦ elim (db.collect df) [ none ↦ err internal | some batches ↦ ok batches ]
  ]

abbrev pub passes : List Matcher → Labels → Bool
passes label_filters labels = all (match_label labels) label_filters

module _ {F : Type 0} (label_filters : List Matcher) where
  -- The inner loop of `run_selector_query`
  unfoldable pub selector_rows :
      List (Cell Text)
      → List (Cell Entries)
      → List (Cell ℤ)
      → List (Cell F)
      → Result PromError (List (SeriesRow F))
  unfolding labels_to_btree
  selector_rows (m ∷ metrics) (l ∷ labels) (t ∷ times) (v ∷ values) = labels_to_btree l >>= λ ls.
      selector_rows metrics labels times values >>= λ rows.
      if passes label_filters ls
      then ok
          (record { metric_name = m.value; labels = ls; ts_us = t.value; value = v.value } ∷ rows)
      else ok rows
  selector_rows _ _ _ _ = ok []

  unfoldable pub selector_batch : List (Column F) → Result PromError (List (SeriesRow F))
  unfolding selector_rows column as_utf8 as_map as_timestamp_us as_float64
  selector_batch batch = (column 0 batch >>= as_utf8) >>= λ metrics.
      (column 1 batch >>= as_map) >>= λ labels. (column 2 batch >>= as_timestamp_us) >>= λ times.
      (column 3 batch >>= as_float64) >>= λ values. selector_rows metrics labels times values

  unfoldable pub selector_batches : List (List (Column F)) → Result PromError (List (SeriesRow F))
  unfolding selector_batch
  selector_batches [] = ok []
  selector_batches (batch ∷ batches) =
      selector_batch batch >>= λ rows. selector_batches batches >>= λ more. ok (rows ++ more)

module _ {F : Type 0} where
  -- The loop of `instant_selector`: the latest row of each series, the first of those of one time
  abbrev pub point_of : SeriesRow F → InstantPoint F
  point_of r = record {
    metric_name = r.metric_name;
    labels = r.labels;
    ts_us = r.ts_us;
    value = r.value;
  }

  unfoldable pub keep_row : SeriesRow F → BTreeMap Text (SeriesRow F) → BTreeMap Text (SeriesRow F)
  unfolding series_key insert
  keep_row r latest =
      let key = series_key r.metric_name r.labels in
      elim (get key latest) [
        | none ↦ insert key r latest
        | some prev ↦ if ltb_ℤ prev.ts_us r.ts_us then insert key r latest else latest
      ]

  unfoldable pub keep_latest :
      List (SeriesRow F) → BTreeMap Text (SeriesRow F) → BTreeMap Text (SeriesRow F)
  unfolding keep_row
  keep_latest [] latest = latest
  keep_latest (r ∷ rows) latest = keep_latest rows (keep_row r latest)

module _ {P F : Type 0} (db : Database P F) where
  unfoldable pub run_selector_query : VectorSelector → ℤ → ℤ → Result PromError (List (SeriesRow F))
  unfolding selector_sql run selector_batches
  run_selector_query sel from_us to_us =
      run db (selector_sql db sel from_us to_us)
      >>= selector_batches (label_filters_for_selector sel)

  unfoldable pub instant_selector : VectorSelector → ℤ → Result PromError (List (InstantPoint F))
  unfolding run_selector_query keep_latest
  instant_selector sel time_us =
      run_selector_query sel (wrap_i64 (time_us -ℤ lookback_us)) time_us >>= λ rows.
      ok (map (λ (key, r). point_of r) (keep_latest rows []))

  unfoldable pub range_selector : VectorSelector → ℤ → ℤ → Result PromError (List (RangePoints F))
  unfolding run_selector_query group_rows_by_series
  range_selector sel start_us end_us = run_selector_query sel start_us end_us >>= λ rows. ok (
      map
        (λ (key, (metric_name, labels, points)). record {
          metric_name = metric_name;
          labels = labels;
          points = points;
        })
        (group_rows_by_series rows []))
