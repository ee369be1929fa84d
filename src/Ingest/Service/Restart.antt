-- ===== src/Ingest/Service/Restart.antt =====
-- Batches into a new log, and a restart: src/ingest/service.rs and `replay_wal` of src/state.rs.
use skaldberg.Base.{
  ℕ, ◌+◌, ◌^◌, ◌<◌, ◌≤◌, ◌≡◌, refl, ap, ◌∙◌, some, List, [], ◌∷◌, length, All, arith, inl, inr,
  Result-cases,
}
use skaldberg.Order.{Ord}
use skaldberg.Ingest.Types.{ValidatedSample}
use skaldberg.Ingest.Buffer.{Buffer, Chrono, insert_batch}
use skaldberg.Ingest.Wal.{Bytes, WalWriter, append, finish_append, rotate, well}
use skaldberg.Ingest.Wal.Frames.{IsCrc32}
use skaldberg.Ingest.Wal.Append.{Holds, append-Holds}
use skaldberg.Ingest.Service.{
  Json, IngestState, append_validated, buffer_batch, replay_records, replay_wal,
}
use skaldberg.Ingest.Service.Recover.{IsDurable, append_validated-IsDurable, replay_wal-IsDurable}

module _ {D F : Type 0} ⦃o : Ord D⦄ ⦃c : Chrono D⦄ where
  -- Each batch under the next number
  abbrev pub insert_batches : ℕ → List (List (ValidatedSample F)) → Buffer D F → Buffer D F
  insert_batches seq [] b = b
  insert_batches seq (samples ∷ batches) b =
      insert_batches (seq + 1) batches (insert_batch seq samples b)

-- The JSON form of a batch is below 4 GiB and reads back as the batch.
abbrev pub IsWritable : {F : Type 0} → Json F → List (ValidatedSample F) → Type 0
IsWritable json samples =
    (payload : Bytes) × (json.to_vec samples ≡ some payload)
    × (json.from_slice payload ≡ some samples)
    × (length payload < 2 ^ 32)

append-file_seq :
    (crc32 : Bytes → ℕ) (payload : Bytes) (w : WalWriter)
    → w.file_seq + 1 < 2 ^ 64
    → (append crc32 payload well w).1.file_seq ≤ w.file_seq + 1
unfolding append finish_append rotate
append-file_seq crc32 payload w h = ground arith

module _ {D F : Type 0} ⦃o : Ord D⦄ ⦃c : Chrono D⦄ (crc32 : Bytes → ℕ) (json : Json F) where
  -- One batch after the other, when the system calls succeed
  abbrev pub append_all : List (List (ValidatedSample F)) → IngestState D F → IngestState D F
  append_all [] st = st
  append_all (samples ∷ batches) st =
      append_all batches (append_validated crc32 json samples well st).1

  append_validated-wal :
      (samples : List (ValidatedSample F)) (payload : Bytes) (st : IngestState D F)
      → json.to_vec samples ≡ some payload
      → (append_validated crc32 json samples well st).1.wal ≡ (append crc32 payload well st.wal).1
  unfolding append_validated buffer_batch
  append_validated-wal samples payload st h =
      elim (Result-cases (append crc32 payload well st.wal).0) [
        | inl (seq, e) ↦ rw (h, append_validated) (rw (e, append_validated) refl)
        | inr (x, e) ↦ rw (h, append_validated) (rw (e, append_validated) refl)
      ]

  append_all-IsDurable :
      (start : Buffer D F) (batches : List (List (ValidatedSample F))) (st : IngestState D F)
      → IsDurable crc32 json start st
      → All (IsWritable json) batches
      → st.wal.next_record_seq + length batches < 2 ^ 64
      → st.wal.file_seq + length batches < 2 ^ 64
      → IsDurable crc32 json start (append_all batches st)
        × ((append_all batches st).buffer ≡ insert_batches st.wal.next_record_seq batches st.buffer)
  append_all-IsDurable start [] st d a hn hf = (d, refl)
  append_all-IsDurable start (samples ∷ batches) st d ((payload, to, from, hl), a) hn hf =
      let st' = (append_validated crc32 json samples well st).1 in
      let (returned, inserted, d') =
        append_validated-IsDurable crc32 json start st samples payload d to from hl (omega arith)
          (omega arith) in
      let appended =
        append-Holds crc32 st.wal d.closed d.recs payload d.holds (omega arith) (omega arith) hl in
      let wal = append_validated-wal samples payload st to in
      let next : st'.wal.next_record_seq ≡ st.wal.next_record_seq + 1 =
        ap (λ (w : WalWriter). w.next_record_seq) wal ∙ appended.1 in
      let file : st'.wal.file_seq ≡ (append crc32 payload well st.wal).1.file_seq =
        ap (λ (w : WalWriter). w.file_seq) wal in
      let (d'', all) =
        append_all-IsDurable start batches st' d' a (omega (arith, next))
          (omega (arith, file, append-file_seq crc32 payload st.wal (omega arith))) in
      (
        d'',
        all
            ∙ ap (λ n. insert_batches n batches st'.buffer) next
            ∙ ap (insert_batches (st.wal.next_record_seq + 1) batches) inserted,
      )

  -- From a state whose log is empty, with room left for the sequence and file numbers: when any
  -- batches are appended, each of a JSON form below 4 GiB that reads back as the batch, and the
  -- system calls succeed, then the buffer holds the batches, inserted in order under consecutive
  -- numbers from the log's next one on; and `replay_wal` over the directory that is left, from the
  -- buffer of the beginning, ends and gives the same buffer.
  pub replay_wal-append_all :
      (batches : List (List (ValidatedSample F))) (st : IngestState D F)
      → IsCrc32 crc32
      → Holds crc32 st.wal [] []
      → All (IsWritable json) batches
      → st.wal.next_record_seq + length batches < 2 ^ 64
      → st.wal.file_seq + length batches < 2 ^ 64
      → ((append_all batches st).buffer ≡ insert_batches st.wal.next_record_seq batches st.buffer)
        × (n : ℕ) × (replay_wal crc32 json (append_all batches st).wal.dir st.buffer
            ≡ some (insert_batches st.wal.next_record_seq batches st.buffer, n))
  unfolding replay_records
  replay_wal-append_all batches st hc h a hn hf =
      let empty : IsDurable crc32 json st.buffer st = record {
        closed = [];
        recs = [];
        holds = h;
        rebuilt = refl;
      } in
      let (d, all) = append_all-IsDurable st.buffer batches st empty a hn hf in
      let (n, back) = replay_wal-IsDurable crc32 json st.buffer (append_all batches st) hc d in
      (all, n, back ∙ ap (λ b. some (b, n)) all)
