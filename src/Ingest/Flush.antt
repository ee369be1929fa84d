-- ===== src/Ingest/Flush.antt =====
-- src/ingest/flush.rs: a snapshot of the buffer goes to the two tables. The tables, their writers
-- and commits (the crate iceberg), record batches (the crate arrow) and the count of days between two
-- dates (chrono) are parameters. Log lines and the messages of errors are left out.
pub mod Columns
pub mod Rows
pub mod Writes
pub mod Atomic
use skaldberg.Base.{
  ℕ, ◌+◌, ◌-◌, ◌%◌, ◌^◌, Bool, true, false, Option, none, some, List, [], ◌∷◌, ◌++◌, length, Result,
  ok, err, is_empty, if◌then◌else◌,
}
use skaldberg.Base.Int.{ℤ, pos_part, neg_part, sub_ℕ}
use skaldberg.Order.{Ord, int_ord}
use skaldberg.Sort.{sort_by_key}
use skaldberg.BTreeMap.{BTreeMap}
use skaldberg.Text.{Text}
use skaldberg.Ingest.Buffer.{Chrono, Snapshot, ByDay, NewSeriesEntry}

-- `samples_files`, `samples_rows`, `series_rows`, `max_record_seq`
pub record FlushResult : Type 0 where
  pub samples_files : ℕ
  pub samples_rows : ℕ
  pub series_rows : ℕ
  pub max_record_seq : ℕ

pub data FlushError : Type 0 where
  flush_samples_failed : FlushError
  flush_series_failed : FlushError

-- arrow: a batch from columns, the labels of a row as its pairs of key and value, in the schemas of
-- `samples_arrow_schema` and `series_arrow_schema`.
pub record Arrow (F B R : Type 0) : Type 0 where
  pub samples_batch : List ℤ → List ℤ → List F → Option B
  pub series_batch : List ℤ → List Text → List (List (Text × Text)) → Option R

-- iceberg, on the state `S` of the catalog and the files: a table is loaded and a writer made for
-- it, batches `B` are written to files, the files are closed and committed. A Boolean is success.
pub record Table (S B File : Type 0) : Type 0 where
  pub load_table : S → Bool × S
  pub write : B → S → Bool × S
  pub close : S → Option (List File) × S
  pub commit : List File → S → Bool × S

module _ {D : Type 0} ⦃c : Chrono D⦄ (num_days : D → D → ℤ) where
  -- `as i32` wraps.
  unfoldable pub epoch_days : D → ℤ
  epoch_days day =
      let n = num_days day c.epoch in
      sub_ℕ ((pos_part n + 2 ^ 31 + 2 ^ 32 - neg_part n % 2 ^ 32) % 2 ^ 32) (2 ^ 31)

module _ {F : Type 0} where
  -- The inner and the outer loop: the three columns
  unfoldable pub push_points :
      ℤ → List (ℤ × F) → (List ℤ × List ℤ × List F) → List ℤ × List ℤ × List F
  push_points sid [] columns = columns
  push_points sid ((ts, v) ∷ points) (series_ids, timestamps, values) =
      push_points sid points (series_ids ++ (sid ∷ []), timestamps ++ (ts ∷ []), values ++ (v ∷ []))

  unfoldable pub push_series :
      BTreeMap ℤ (List (ℤ × F)) → (List ℤ × List ℤ × List F) → List ℤ × List ℤ × List F
  unfolding sort_by_key push_points
  push_series [] columns = columns
  push_series ((sid, points) ∷ by_series) columns =
      push_series by_series (push_points sid (sort_by_key (λ (ts, v). ts) points) columns)

unfoldable pub push_entries :
    BTreeMap ℤ NewSeriesEntry
    → (List ℤ × List Text × List (List (Text × Text)))
    → List ℤ × List Text × List (List (Text × Text))
push_entries [] columns = columns
push_entries ((sid, entry) ∷ rows) (series_ids, metrics, labels) =
    push_entries rows
      (series_ids ++ (sid ∷ []), metrics ++ (entry.metric ∷ []), labels ++ (entry.labels ∷ []))

module _ {F B R : Type 0} (arrow : Arrow F B R) where
  unfoldable pub build_samples_batch : BTreeMap ℤ (List (ℤ × F)) → Option B
  unfolding push_series
  build_samples_batch by_series =
      let (series_ids, timestamps, values) = push_series by_series ([], [], []) in
      arrow.samples_batch series_ids timestamps values

  unfoldable pub build_series_batch : BTreeMap ℤ NewSeriesEntry → Option R
  unfolding push_entries
  build_series_batch new_series =
      let (series_ids, metrics, labels) = push_entries new_series ([], [], []) in
      arrow.series_batch series_ids metrics labels

module _ {S B File : Type 0} (table : Table S B File) where
  -- The end of both writes: the files are closed and committed.
  unfoldable pub close_and_commit : S → Option (List File) × S
  close_and_commit s =
      let closed = table.close s in
      elim closed.0 [
        | none ↦ (none, closed.1)
        | some data_files ↦
            let committed = table.commit data_files closed.1 in
            (if committed.0 then some data_files else none, committed.1)
      ]

module _ {D F B R S File : Type 0} ⦃c : Chrono D⦄ (num_days : D → D → ℤ) (arrow : Arrow F B R)
    (samples : Table S (ℤ × B) File) (series : Table S R File) where
  unfoldable pub write_days : ByDay D F → S → Bool × S
  unfolding build_samples_batch epoch_days
  write_days [] s = (true, s)
  write_days ((day, by_series) ∷ by_day) s = elim (build_samples_batch arrow by_series) [
    | none ↦ (false, s)
    | some batch ↦
        let written = samples.write (epoch_days num_days day, batch) s in
        elim written.0 [ true ↦ write_days by_day written.1 | false ↦ (false, written.1) ]
  ]

  unfoldable pub flush_samples : ByDay D F → S → Option (List File) × S
  unfolding write_days close_and_commit
  flush_samples by_day s =
      let loaded = samples.load_table s in
      elim loaded.0 [
        | false ↦ (none, loaded.1)
        | true ↦
            let written = write_days by_day loaded.1 in
            elim written.0 [ false ↦ (none, written.1) | true ↦ close_and_commit samples written.1 ]
      ]

  unfoldable pub flush_series : BTreeMap ℤ NewSeriesEntry → S → Option (List File) × S
  unfolding build_series_batch close_and_commit
  flush_series new_series s =
      let loaded = series.load_table s in
      elim loaded.0 [
        | false ↦ (none, loaded.1)
        | true ↦ elim (build_series_batch arrow new_series) [
          | none ↦ (none, loaded.1)
          | some batch ↦
              let written = series.write batch loaded.1 in
              elim written.0 [
                | false ↦ (none, written.1)
                | true ↦ close_and_commit series written.1
              ]
        ]
      ]

  unfoldable pub flush : Snapshot D F → S → Result FlushError FlushResult × S
  unfolding flush_samples flush_series
  flush snap s =
      let first = (if is_empty snap.by_day then (some [], s) else flush_samples snap.by_day s) in
      elim first.0 [
        | none ↦ (err flush_samples_failed, first.1)
        | some data_files ↦
            let second =
              (if is_empty snap.new_series
                then (some [], first.1)
                else flush_series snap.new_series first.1) in
            elim second.0 [
              | none ↦ (err flush_series_failed, second.1)
              | some series_files ↦ (
                ok (record {
                  samples_files = length data_files;
                  samples_rows = snap.sample_count;
                  series_rows = length snap.new_series;
                  max_record_seq = snap.max_record_seq;
                }),
                second.1,
              )
            ]
      ]
