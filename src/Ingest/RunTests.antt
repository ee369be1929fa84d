-- ===== src/Ingest/RunTests.antt =====
-- The theorems about runs of src/ingest/service.rs, about broken logs and about the write to the
-- tables at concrete inputs.
use skaldberg.Base.{ℕ, ◌+◌, ◌≡◌, ◌%◌, refl, true, false, some, [], ◌∷◌, ◌++◌, arith, ok, take}
use skaldberg.Base.Int.{ℤ, pos}
use skaldberg.Order.{int_ord}
use skaldberg.Ingest.Buffer.{
  Snapshot, take_snapshot, with_known_series, insert_one, insert_batch, has_no_samples,
}
use skaldberg.Ingest.Wal.{
  Bytes, append, finish_append, read_all, frame, to_le_bytes, truncated, crc_mismatch,
}
use skaldberg.Ingest.Wal.Replay.{encode, encode_records, log_records}
use skaldberg.Ingest.Wal.Damage.{damaged}
use skaldberg.Ingest.Wal.ReplayBroken.{read_all-torn, read_all-corrupt}
use skaldberg.Ingest.Service.{backpressure_bytes, check_backpressure, begin_flush, buffer_batch}
use skaldberg.Ingest.Service.System.{
  System, persist, put, begin, finish, Reach, start, later, start_of, persisted, inserted, began,
  ended,
}
use skaldberg.Ingest.Service.Conserve.{Reach-Conserves, Conserves}
use skaldberg.Ingest.Service.Retain.{Reach-Retains, Retains, flushed_through}
use skaldberg.Ingest.Service.Progress.{Steps, here, after, began-check_backpressure}
use skaldberg.Ingest.Fixtures.{
  Num, num_float, int_chrono, sample, crc, first, second, closed, json, fresh, fresh-Holds,
}

-- A batch goes to the log and then to the buffer, and a flush takes it.
abbrev logged : System ℤ Num
logged = persisted crc json 1 (sample ∷ []) (1 ∷ []) (start_of fresh)

abbrev buffered : System ℤ Num
buffered = inserted crc json 1 (sample ∷ []) [] logged

abbrev taken_snapshot : Snapshot ℤ Num
taken_snapshot = (take_snapshot buffered.st.buffer).0

abbrev flushing_it : System ℤ Num
flushing_it = began crc json taken_snapshot buffered

run : Reach crc json fresh (ended crc json taken_snapshot true flushing_it)
unfolding append begin_flush has_no_samples buffer_batch insert_batch insert_one with_known_series
    finish_append frame
run =
    later {s = flushing_it}
      (later {s = buffered}
        (later {s = logged}
          (later start (
            persist {s = start_of fresh} 1 (sample ∷ []) (1 ∷ []) refl (omega arith) (omega arith)
              (omega arith) refl))
          (put {s = logged} 1 (sample ∷ []) [] [] refl))
        (begin {s = buffered} taken_snapshot refl refl))
      (finish {s = flushing_it} taken_snapshot true refl)

Reach-Conserves_example :
    Conserves crc json (pos 1) (pos 5) fresh (ended crc json taken_snapshot true flushing_it)
Reach-Conserves_example =
    Reach-Conserves crc json (pos 1) (pos 5) fresh (ended crc json taken_snapshot true flushing_it)
      run

Reach-Retains_example :
    Retains crc
      (flushed_through (ended crc json taken_snapshot true flushing_it).taken)
      ([] ++ (ended crc json taken_snapshot true flushing_it).appended)
      (ended crc json taken_snapshot true flushing_it).st.wal
Reach-Retains_example =
    Reach-Retains crc json fresh [] [] (ended crc json taken_snapshot true flushing_it)
      (λ bytes. omega arith) fresh-Holds run

-- The buffer is at its cap when the flush takes it.
abbrev full : System ℤ Num
full = record buffered {
  st = record buffered.st {
    buffer = record buffered.st.buffer {
      bytes_estimate = backpressure_bytes;
      sample_count = 8_388_608;
    };
  };
}

abbrev full_snapshot : Snapshot ℤ Num
full_snapshot = (take_snapshot full.st.buffer).0

-- While the tables are written, another batch comes in, and the write fails.
abbrev refilled : System ℤ Num
refilled =
    inserted crc json 2 (sample ∷ []) []
      (persisted crc json 2 (sample ∷ []) (1 ∷ []) (began crc json full_snapshot full))

refill :
    Steps crc json (began crc json full_snapshot full) (ended crc json full_snapshot false refilled)
unfolding append begin_flush has_no_samples buffer_batch insert_batch insert_one with_known_series
    finish_append frame
refill =
    after {t = refilled}
      (after {t = persisted crc json 2 (sample ∷ []) (1 ∷ []) (began crc json full_snapshot full)}
        (after here (
          persist {s = began crc json full_snapshot full} 2 (sample ∷ []) (1 ∷ []) refl
            (omega arith) (omega arith) (omega arith) refl))
        (put {s = persisted crc json 2 (sample ∷ []) (1 ∷ []) (began crc json full_snapshot full)} 2
          (sample ∷ []) [] [] refl))
      (finish {s = refilled} full_snapshot false refl)

began-check_backpressure_example :
    check_backpressure (ended crc json full_snapshot false refilled).st ≡ ok tt
unfolding begin_flush has_no_samples
began-check_backpressure_example =
    began-check_backpressure crc json full full_snapshot
      (ended crc json full_snapshot false refilled) refl refill (omega arith)

-- The header and one byte: a payload cut off in the middle
read_all-torn_example :
    read_all crc (
      encode crc closed
      ++ ((
        1,
        encode_records crc (second ∷ []) ++ take 17 (frame crc first.record_seq first.payload),
      )
          ∷ []))
    ≡ some (log_records closed ++ (second ∷ []), some (truncated 1 2))
read_all-torn_example =
    read_all-torn crc closed 1 (second ∷ []) first 17 (λ bytes. omega arith)
      (((omega arith, omega arith), tt), tt) ((omega arith, omega arith), tt)
      (omega arith, omega arith) (omega arith)

-- A checksum that reads the payload
abbrev total_of : Bytes → ℕ
total_of [] = 0
total_of (b ∷ bytes) = b + total_of bytes

abbrev sum_crc : Bytes → ℕ
sum_crc bytes = total_of bytes % 256

read_all-corrupt_example :
    read_all sum_crc (
      encode sum_crc closed
      ++ ((
        1,
        encode_records sum_crc (second ∷ []) ++ (damaged sum_crc first (10 ∷ 21 ∷ []) ++ (1 ∷ [])),
      )
          ∷ (2, [])
          ∷ []))
    ≡ some (log_records closed ++ (second ∷ []), some (crc_mismatch 1))
unfolding to_le_bytes
read_all-corrupt_example =
    read_all-corrupt sum_crc closed 1 (second ∷ []) first (10 ∷ 21 ∷ []) (1 ∷ []) ((2, []) ∷ [])
      (λ bytes. omega arith) (((omega arith, omega arith), tt), tt) ((omega arith, omega arith), tt)
      (omega arith, omega arith) refl refl
