-- ===== src/Ingest/Service.antt =====
-- src/ingest/service.rs, and `replay_wal` of src/state.rs: the log and the buffer together. The
-- JSON form of a batch (the crate serde_json) and the outcome of a flush to the tables are
-- parameters.
pub mod Recover
pub mod System
pub mod Conserve
pub mod Retain
pub mod Progress
pub mod Restart
use skaldberg.Base.{
  ℕ, ◌+◌, ◌*◌, ◌%◌, ◌^◌, Bool, true, false, Option, none, some, List, [], ◌∷◌, leb, ltb,
  if◌then◌else◌, Result, ok, err,
}
use skaldberg.Order.{Ord}
use skaldberg.Base.Int.{ℤ}
use skaldberg.Ingest.Types.{ValidatedSample}
use skaldberg.Ingest.Buffer.{
  Buffer, Chrono, Snapshot, with_known_series, insert_batch, has_no_samples, take_snapshot,
}
use skaldberg.Ingest.Wal.{
  Bytes, Dir, WalWriter, WalRecord, WalError, Outcome, append, truncate_through, open_with_rotation,
  default_rotation_bytes, read_all,
}

abbrev pub flush_size_bytes : ℕ
flush_size_bytes = 64 * 1024 * 1024

abbrev pub backpressure_bytes : ℕ
backpressure_bytes = 256 * 1024 * 1024

-- serde_json: `to_vec` and `from_slice` of a batch
pub record Json (F : Type 0) : Type 0 where
  pub to_vec : List (ValidatedSample F) → Option Bytes
  pub from_slice : Bytes → Option (List (ValidatedSample F))

-- `notified` is the permit that `notify_one` stores.
pub record IngestState (D F : Type 0) : Type 0 where
  pub wal : WalWriter
  pub buffer : Buffer D F
  pub notified : Bool

pub data IngestError : Type 0 where
  serializing : IngestError
  wal_append : WalError → IngestError
  flush : IngestError

module _ {D F : Type 0} where
  unfoldable pub open_state : Dir → List ℤ → IngestState D F
  open_state dir known_series = record {
    wal = open_with_rotation dir default_rotation_bytes;
    buffer = with_known_series known_series;
    notified = false;
  }

  -- The error carries the size of the buffer.
  unfoldable pub check_backpressure : IngestState D F → Result ℕ (Unit {0})
  check_backpressure st =
      let n = st.buffer.bytes_estimate in if leb backpressure_bytes n then err n else ok tt

  -- `do_flush` is called on a snapshot; the argument is whether it succeeds. The flusher and the
  -- handlers take the locks in turn, so a whole flush is a `begin_flush` and an `end_flush` with
  -- other operations in between.
  unfoldable pub begin_flush : IngestState D F → Option (Snapshot D F) × IngestState D F
  begin_flush st =
      if has_no_samples st.buffer
      then (none, st)
      else (let (snap, buffer) = take_snapshot st.buffer in
          (some snap, record st { buffer = buffer }))

  unfoldable pub end_flush :
      Snapshot D F → Bool → IngestState D F → Result IngestError Bool × IngestState D F
  end_flush snap flushed st =
      if flushed
      then (let max_seq = snap.max_record_seq in
          (
            ok true,
            if ltb 0 max_seq then record st { wal = truncate_through max_seq st.wal } else st,
          ))
      else (err flush, st)

  unfoldable pub flush_once : Bool → IngestState D F → Result IngestError Bool × IngestState D F
  flush_once flushed st =
      let begun = begin_flush st in
      elim begun.0 [ none ↦ (ok false, st) | some snap ↦ end_flush snap flushed begun.1 ]

module _ {D F : Type 0} ⦃o : Ord D⦄ ⦃c : Chrono D⦄ (crc32 : Bytes → ℕ) (json : Json F) where
  -- Behind the append to the log
  unfoldable pub buffer_batch : ℕ → List (ValidatedSample F) → IngestState D F → IngestState D F
  buffer_batch record_seq samples st =
      let buffer = insert_batch record_seq samples st.buffer in
      record st {
        buffer = buffer;
        notified = if leb flush_size_bytes buffer.bytes_estimate then true else st.notified;
      }

  unfoldable pub append_validated :
      List (ValidatedSample F) → Outcome → IngestState D F → Result IngestError ℕ × IngestState D F
  append_validated samples outcome st = elim (json.to_vec samples) [
    | none ↦ (err serializing, st)
    | some payload ↦
        let (res, w) = append crc32 payload outcome st.wal in
        let st' : IngestState D F = record st { wal = w } in
        elim res [
          | err e ↦ (err (wal_append e), st')
          | ok record_seq ↦ (ok record_seq, buffer_batch record_seq samples st')
        ]
  ]

  -- The loop of `replay_wal`: the buffer and the count of records that were parsed.
  unfoldable pub replay_records : List WalRecord → Buffer D F → ℕ → Buffer D F × ℕ
  replay_records [] b n = (b, n)
  replay_records (rec ∷ recs) b n = elim (json.from_slice rec.payload) [
    | none ↦ replay_records recs b n
    | some samples ↦ replay_records recs (insert_batch rec.record_seq samples b) ((n + 1) % 2 ^ 64)
  ]

  unfoldable pub replay_wal : Dir → Buffer D F → Option (Buffer D F × ℕ)
  replay_wal dir b = elim (read_all crc32 dir) [
    | none ↦ none
    | some (recs, e) ↦ some (replay_records recs b 0)
  ]
