-- ===== src/Ingest/FlushTests.antt =====
-- The theorems about src/ingest/flush.rs at concrete inputs, with tables in memory.
use skaldberg.Base.{◌≡◌, refl, sym, true, false, some, List, [], ◌∷◌, ◌++◌, length, some-inj}
use skaldberg.Base.Int.{ℤ, pos}
use skaldberg.Order.{int_ord, pair_ord}
use skaldberg.Sort.{Ascends}
use skaldberg.BTreeMap.{BTreeMap, get_or}
use skaldberg.Text.{lit}
use skaldberg.Ingest.Buffer.{Snapshot}
use skaldberg.Ingest.Buffer.Invariant.{points_in}
use skaldberg.Ingest.Flush.{Arrow, Table, build_samples_batch, flush}
use skaldberg.Ingest.Flush.Columns.{row_key, series_ids, timestamps, values}
use skaldberg.Ingest.Flush.Rows.{values_of, values_at, build_samples_batch-rows}
use skaldberg.Ingest.Flush.Writes.{IsTable}
use skaldberg.Ingest.Flush.Atomic.{Flushed, flush-Flushed}
use skaldberg.Ingest.Fixtures.{Num, fin, int_chrono}

-- A batch keeps its values; that of the series is a number.
abbrev arrow : Arrow Num (List Num) (ℤ × List Num)
arrow = record {
  samples_batch = λ ids times vs. some vs;
  series_batch = λ ids metrics labels. some (pos (length ids), []);
}

-- Rows that queries see, and rows staged, of both tables
record Tables : Type 0 where
  samples : List (ℤ × List Num)
  series : List (ℤ × List Num)
  staged : List (ℤ × List Num)

abbrev samples_table : Table Tables (ℤ × List Num) (ℤ × List Num)
samples_table = record {
  load_table = λ s. (true, record s { staged = [] });
  write = λ b s. (true, record s { staged = s.staged ++ (b ∷ []) });
  close = λ s. (some s.staged, s);
  commit = λ files s. (true, record s { samples = s.samples ++ files });
}

-- The series cannot be committed.
abbrev series_table : Table Tables (ℤ × List Num) (ℤ × List Num)
series_table = record {
  load_table = λ s. (true, record s { staged = [] });
  write = λ b s. (true, record s { staged = s.staged ++ (b ∷ []) });
  close = λ s. (some s.staged, s);
  commit = λ files s. (false, s);
}

samples-IsTable : IsTable samples_table (λ (s : Tables). s.samples) (λ (s : Tables). s.series)
samples-IsTable = record {
  staged = λ s. s.staged;
  contents = λ files. files;
  load_keeps = λ s. (refl, refl);
  load_staged = λ s e. refl;
  write_keeps = λ b s. (refl, refl);
  write_staged = λ b s e. refl;
  close_keeps = λ s. (refl, refl);
  close_contents = λ s files e. sym (some-inj e);
  commit_keeps = λ files s. refl;
  commit_ok = λ files s e. refl;
  commit_err = λ files s e. cc;
}

series-IsTable : IsTable series_table (λ (s : Tables). s.series) (λ (s : Tables). s.samples)
series-IsTable = record {
  staged = λ s. s.staged;
  contents = λ files. files;
  load_keeps = λ s. (refl, refl);
  load_staged = λ s e. refl;
  write_keeps = λ b s. (refl, refl);
  write_staged = λ b s e. refl;
  close_keeps = λ s. (refl, refl);
  close_contents = λ s files e. sym (some-inj e);
  commit_keeps = λ files s. refl;
  commit_ok = λ files s e. cc;
  commit_err = λ files s e. refl;
}

-- Two series on one day; the points of the first came out of order.
abbrev by_series : BTreeMap ℤ (List (ℤ × Num))
by_series =
    (pos 1, (pos 20, fin 2) ∷ (pos 10, fin 1) ∷ (pos 20, fin 3) ∷ [])
    ∷ (pos 4, (pos 5, fin 9) ∷ [])
    ∷ []

abbrev snapshot : Snapshot ℤ Num
snapshot = record {
  by_day = (pos 0, by_series) ∷ [];
  new_series = (pos 1, record { series_id = pos 1; metric = lit "up"; labels = [] }) ∷ [];
  bytes_estimate = 128;
  sample_count = 4;
  max_record_seq = 7;
}

build_samples_batch-rows_example :
    (rows : List (ℤ × (ℤ × Num))) × (build_samples_batch arrow by_series
      ≡ arrow.samples_batch (series_ids rows) (timestamps rows) (values rows))
    × Ascends row_key rows
    × (length rows ≡ points_in by_series)
    × ((sid ts : ℤ) → values_of sid ts rows ≡ values_at ts (get_or [] sid by_series))
build_samples_batch-rows_example = build_samples_batch-rows arrow by_series ((refl, tt), (tt, tt))

flush-Flushed_example :
    Flushed
      (λ a b. pos 0)
      arrow
      samples_table
      series_table
      (λ (s : Tables). s.samples)
      (λ (s : Tables). s.series)
      snapshot
      (record { samples = []; series = []; staged = [] })
      (flush
        (λ a b. pos 0)
        arrow
        samples_table
        series_table
        snapshot
        (record { samples = []; series = []; staged = [] }))
flush-Flushed_example =
    flush-Flushed (λ a b. pos 0) arrow samples_table series_table (λ (s : Tables). s.samples)
      (λ (s : Tables). s.series) snapshot (record { samples = []; series = []; staged = [] })
      samples-IsTable series-IsTable
