-- ===== src/Ingest/Service/Recover.antt =====
-- What a restart rebuilds: src/ingest/service.rs and `replay_wal` of src/state.rs.
use skaldberg.Base.{
  ℕ, ◌+◌, ◌%◌, ◌^◌, ◌<◌, ◌≡◌, refl, ap, sym, ◌∙◌, some, List, [], ◌∷◌, ◌++◌, length, Option-cases,
  inl, inr, ok,
}
use skaldberg.Order.{Ord}
use skaldberg.Ingest.Types.{ValidatedSample}
use skaldberg.Ingest.Buffer.{Buffer, Chrono, insert_batch}
use skaldberg.Ingest.Wal.{Bytes, WalRecord, well}
use skaldberg.Ingest.Wal.Frames.{IsCrc32}
use skaldberg.Ingest.Wal.Replay.{Log, log_records}
use skaldberg.Ingest.Wal.ReplayAll.{read_all-encode}
use skaldberg.Ingest.Wal.Log.{AllFit-append, log_records-append}
use skaldberg.Ingest.Wal.Append.{Holds, append-Holds, record_of}
use skaldberg.Ingest.Service.{
  Json, IngestState, buffer_batch, append_validated, replay_records, replay_wal,
}

module _ {D F : Type 0} ⦃o : Ord D⦄ ⦃c : Chrono D⦄ (crc32 : Bytes → ℕ) (json : Json F) where
  abbrev pub rebuild : List WalRecord → Buffer D F → Buffer D F
  rebuild recs b = (replay_records crc32 json recs b 0).0

  -- The count of the records does not bear on the buffer.
  replay_records_count :
      (recs : List WalRecord) (b : Buffer D F) (n : ℕ)
      → (replay_records crc32 json recs b n).0 ≡ rebuild recs b
  unfolding replay_records
  replay_records_count [] b n = refl
  replay_records_count (rec ∷ recs) b n = elim (Option-cases (json.from_slice rec.payload)) [
    | inl e ↦ rw (e, replay_records, rebuild) (replay_records_count recs b n)
    | inr (samples, e) ↦
        rw (e, replay_records, rebuild)
          (replay_records_count recs (insert_batch rec.record_seq samples b) ((n + 1) % 2 ^ 64)
            ∙ sym (replay_records_count recs (insert_batch rec.record_seq samples b) 1))
  ]

  rebuild-append :
      (recs more : List WalRecord) (b : Buffer D F)
      → rebuild (recs ++ more) b ≡ rebuild more (rebuild recs b)
  unfolding replay_records
  rebuild-append [] more b = refl
  rebuild-append (rec ∷ recs) more b = elim (Option-cases (json.from_slice rec.payload)) [
    | inl e ↦ rw (e, replay_records, rebuild) (rebuild-append recs more b)
    | inr (samples, e) ↦
        let b' = insert_batch rec.record_seq samples b in
        rw (e, replay_records, rebuild)
          (rw (replay_records_count (recs ++ more) b' 1, replay_records_count recs b' 1)
            (rebuild-append recs more b'))
  ]

  rebuild-one :
      (rec : WalRecord) (samples : List (ValidatedSample F)) (b : Buffer D F)
      → json.from_slice rec.payload ≡ some samples
      → rebuild (rec ∷ []) b ≡ insert_batch rec.record_seq samples b
  unfolding replay_records
  rebuild-one rec samples b e = rw (e, replay_records, rebuild)

  -- What is in memory is what a replay of the log from the buffer `start` rebuilds.
  pub record IsDurable (start : Buffer D F) (st : IngestState D F) : Type 0 where
    pub closed : Log
    pub recs : List WalRecord
    pub holds : Holds crc32 st.wal closed recs
    pub rebuilt : rebuild (log_records closed ++ recs) start ≡ st.buffer

  -- For a state whose log holds the frames of records and whose buffer is what their replay from the
  -- buffer `start` rebuilds: `replay_wal` over its directory, with the buffer `start`, ends and gives
  -- the buffer of the state.
  pub replay_wal-IsDurable :
      (start : Buffer D F) (st : IngestState D F)
      → IsCrc32 crc32
      → IsDurable start st
      → (n : ℕ) × (replay_wal crc32 json st.wal.dir start ≡ some (st.buffer, n))
  unfolding replay_wal
  replay_wal-IsDurable start st hc d =
      let log = d.closed ++ ((st.wal.file, d.recs) ∷ []) in
      let read =
        read_all-encode crc32 log hc
          (AllFit-append d.closed st.wal.file d.recs d.holds.fits d.holds.last_fits) in
      let n = (replay_records crc32 json (log_records log) start 0).1 in
      let whole : rebuild (log_records log) start ≡ st.buffer =
        rw (log_records-append d.closed st.wal.file d.recs) d.rebuilt in
      (n, rw d.holds.dir (rw (read, replay_wal) (ap (λ b. some (b, n)) whole)))

  -- For a state whose log holds the frames of records and whose buffer is what their replay from the
  -- buffer `start` rebuilds, with room left for one more sequence and file number: appending a batch
  -- whose JSON form is below 4 GiB and reads back as the batch, when the system calls succeed,
  -- returns the log's next sequence number and inserts the batch into the buffer under it, and a
  -- replay of the new log from `start` rebuilds the new buffer.
  pub append_validated-IsDurable :
      (start : Buffer D F) (st : IngestState D F) (samples : List (ValidatedSample F))
      (payload : Bytes)
      → IsDurable start st
      → json.to_vec samples ≡ some payload
      → json.from_slice payload ≡ some samples
      → length payload < 2 ^ 32
      → st.wal.next_record_seq + 1 < 2 ^ 64
      → st.wal.file_seq + 1 < 2 ^ 64
      → ((append_validated crc32 json samples well st).0 ≡ ok st.wal.next_record_seq)
        × ((append_validated crc32 json samples well st).1.buffer
            ≡ insert_batch st.wal.next_record_seq samples st.buffer)
        × IsDurable start (append_validated crc32 json samples well st).1
  unfolding append_validated buffer_batch
  append_validated-IsDurable start st samples payload d to from hl hn hf =
      let (returned, advanced, closed', recs', holds', all) =
        append-Holds crc32 st.wal d.closed d.recs payload d.holds hn hf hl in
      let old = log_records d.closed ++ d.recs in
      let rec = record_of crc32 st.wal payload in
      let rebuilt' =
        ap (λ l. rebuild l start) all
        ∙ rebuild-append old (rec ∷ []) start
        ∙ rebuild-one rec samples (rebuild old start) from
        ∙ ap (insert_batch st.wal.next_record_seq samples) d.rebuilt in
      rw (to, append_validated)
        (rw (returned, append_validated)
          (
            refl,
            refl,
            record { closed = closed'; recs = recs'; holds = holds'; rebuilt = rebuilt' },
          ))
