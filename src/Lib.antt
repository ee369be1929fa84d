-- ===== src/Lib.antt =====
-- Skaldberg: a time-series store with an ingest path (JSON and Prometheus Remote-Write) in front of
-- Iceberg tables, and a query path over SQL.
--
-- A request is decoded (src/ingest/remote_write.rs), each sample is validated
-- (src/ingest/validate.rs), and the accepted batch is appended to a write-ahead log
-- (src/ingest/wal.rs) before it goes into an in-memory buffer (src/ingest/buffer.rs). The service
-- (src/ingest/service.rs) joins log and buffer, hands snapshots of the buffer to the tables and
-- truncates the log; at a start, src/state.rs replays the log into the buffer.
--
-- Files:
--   Base, Order, Sort, BTreeMap, HashSet, Text, Float: what the code takes from Rust's standard library.
--     A machine integer is a natural number or an integer with its wrap-around written out.
--   Ingest/Types: the records of src/ingest/types.rs.
--   Ingest/Validate: `validate`, `derive_series_id`; the hash xxh3 is a parameter.
--   Ingest/Buffer: `insert_batch`, `take`, `with_known_series`; the calendar of chrono is a parameter.
--   Ingest/Wal: `WalWriter` and `WalIter` over a directory that maps a file's number to its bytes;
--     the checksum of crc32fast is a parameter, and the outcome of an append's system calls is an
--     argument.
--   Ingest/RemoteWrite: `decode_write_request`, `flatten_write_request`; the decoders of snap and
--     prost are a parameter.
--   Ingest/Service: `append_validated`, `check_backpressure`, `flush_once`, `replay_wal`; the JSON
--     form of serde_json is a parameter, and whether a flush to the tables succeeds is an argument.
--     A flush is two steps, for the locks are free while the tables are written. System puts the
--     steps of handlers and flusher side by side, in any order, with appends that succeed; Conserve
--     and Retain are about all states that they reach, Progress about those behind a snapshot, and
--     Recover and Restart about the log after a restart.
--   Ingest/Flush: `flush`, `build_samples_batch` and `build_series_batch` of src/ingest/flush.rs; the
--     tables of iceberg, the batches of arrow and the day count of chrono are parameters. Columns and
--     Rows are about the batches, Writes and Atomic about the tables.
--   Ingest/Handlers: `run_ingest` and `run_remote_write` of src/handlers.rs.
--   Http: Auth (`require_bearer_token` of src/auth.rs), Sql (`run_sql` of src/handlers.rs, with
--     DataFusion as a parameter), Convert (the times of src/convert.rs).
--   Prom: the in-memory part of src/prometheus.rs: Types (points, operators, the part of the syntax
--     tree of promql-parser that the code matches on), Ops, Query (`detect_query_kind`), Select
--     (matchers, SQL escaping), Aggregate, Binary, Histogram, Json. A float is an interface.
--   Prom/Engine: the part of src/prometheus.rs that asks DataFusion, which is a parameter with arrow's
--     columns: `run_selector_query`, `instant_selector`, `range_selector`; RangeFn has the range
--     functions, Aggregate and RangeAggregate the aggregates at an instant and over a range, Quantile
--     `histogram_quantile`, Topk `topk` and `bottomk`, Binary the binary operators. Decode and Grouped
--     are the loops over the answers that these share; Sql, GroupSql, RangeSql, TopkSql and BinarySql
--     are the texts that they build. Evals, Safe, Latest, Outside, Retained, GroupedKept and
--     RetainedRange hold the theorems.
--   Prom/Eval: `evaluate_instant` and `evaluate_range`, of one shape over a record of the functions
--     that they call; Size and Total are about their end, Labels about aggregations.
--   Prom/Api: `instant_query_inner`, `range_query_inner`, `parse_timestamp`, `parse_duration_us`; the
--     parsers of promql-parser and of chrono are parameters. Prom/Catalog: `labels`, `label_values`
--     and `series`.
--   Tables: src/iceberg_table.rs, over the catalog of iceberg as a parameter; Ensure is about the
--     creation of the tables.
--   Ingest/Fixtures, and Tests, RunTests, FlushTests, EngineTests, EvalTests: concrete data, and the theorems
--     applied to it.
--
-- Fuel: the scan of a file takes a header of sixteen bytes in each round, so its length is enough
-- rounds; the replay takes at least a header in each round, so the unread bytes and one more are
-- enough.
--
-- The evaluation of an expression has fuel for its depth: each step goes to proper parts, so the number
-- of the expression's nodes is enough, and the requests take that number.
--
-- The loop over evaluation times has no fuel: it may go on for as many times as the code allows.
--
-- Not modelled: the storage of the tables (src/aws_s3_storage.rs), an adapter between two crates, the
-- HTTP routes, the command line, and the JSON form of the cells of an array (src/convert.rs), which is
-- a call of arrow's and serde's conversions for each type.
pub mod Base
pub mod Order
pub mod Sort
pub mod BTreeMap
pub mod HashSet
pub mod Text
pub mod Float
pub mod Ingest
pub mod Http
pub mod Prom
pub mod Tables
