-- ===== src/Ingest/Wal/Scan.antt =====
-- `scan_max_record_seq` of src/ingest/wal.rs on the frames of records.
use skaldberg.Base.{
  ℕ, zero, suc, ◌+◌, ◌%◌, ◌^◌, ◌≤◌, ◌<◌, ◌≡◌, refl, List, [], ◌∷◌, arith, All, All-append,
  All-of_append, All-map, ltb, if◌then◌else◌, length, length-append,
}
use skaldberg.Ingest.Wal.{
  Bytes, Dir, WalRecord, frame, read_header, read_exact, scan_loop, scan_max_record_seq, scan_dir,
}
use skaldberg.Ingest.Wal.Reading.{read_exact-append}
use skaldberg.Ingest.Wal.Frames.{Fits, IsCrc32, read_header-frame}
use skaldberg.Ingest.Wal.Replay.{Log, log_records, AllFit, encode_records, encode}
use skaldberg.Ingest.Wal.ReplayAll.{length-frame}

-- The largest sequence number of the records, and of `m`.
unfoldable pub max_from : ℕ → List WalRecord → ℕ
max_from m [] = m
max_from m (r ∷ recs) = max_from (if ltb m r.record_seq then r.record_seq else m) recs

pub max_from-le : (m : ℕ) (recs : List WalRecord) → m ≤ max_from m recs
unfolding max_from
max_from-le m [] = omega arith
max_from-le m (r ∷ recs) =
    let more = max_from-le (if ltb m r.record_seq then r.record_seq else m) recs in
    ground (arith, more)

pub max_from-All :
    (m n : ℕ) (recs : List WalRecord) → max_from m recs ≤ n → All (λ r. r.record_seq ≤ n) recs
unfolding max_from
max_from-All m n [] h = tt
max_from-All m n (r ∷ recs) h =
    let m' = if ltb m r.record_seq then r.record_seq else m in
    let bound : r.record_seq ≤ m' = ground arith in
    let more = max_from-le m' recs in (omega arith, max_from-All m' n recs h)

scan_loop-nil : (fuel m : ℕ) → scan_loop fuel m [] ≡ m
unfolding scan_loop read_header read_exact
scan_loop-nil zero m = refl
scan_loop-nil (suc fuel) m = refl

pub max_from-bound :
    (m n : ℕ) (recs : List WalRecord)
    → m ≤ n
    → All (λ r. r.record_seq ≤ n) recs
    → max_from m recs ≤ n
unfolding max_from
max_from-bound m n [] hm h = hm
max_from-bound m n (r ∷ recs) hm h =
    max_from-bound (if ltb m r.record_seq then r.record_seq else m) n recs (ground (arith, h.0)) h.1

module _ (crc32 : Bytes → ℕ) where
  scan_loop-encode_records :
      (fuel m : ℕ) (recs : List WalRecord)
      → IsCrc32 crc32
      → All Fits recs
      → length (encode_records crc32 recs) ≤ fuel
      → scan_loop fuel m (encode_records crc32 recs) ≡ max_from m recs
  unfolding scan_loop max_from
  scan_loop-encode_records zero m [] hc h hf = scan_loop-nil zero m
  scan_loop-encode_records (suc fuel) m [] hc h hf = scan_loop-nil (suc fuel) m
  scan_loop-encode_records zero m (r ∷ recs) hc h hf = absurd (
      omega (
        arith,
        length-append (frame crc32 r.record_seq r.payload) (encode_records crc32 recs),
        length-frame crc32 r.record_seq r.payload,
      ))
  scan_loop-encode_records (suc fuel) m (r ∷ recs) hc h hf =
      let enough : length (encode_records crc32 recs) ≤ fuel = omega (
        arith,
        length-append (frame crc32 r.record_seq r.payload) (encode_records crc32 recs),
        length-frame crc32 r.record_seq r.payload,
      ) in
      rw (read_header-frame crc32 r (encode_records crc32 recs) hc h.0, scan_loop)
        (rw
          (
            read_exact-append (length r.payload) r.payload (encode_records crc32 recs) refl,
            scan_loop,
          )
          (scan_loop-encode_records fuel (if ltb m r.record_seq then r.record_seq else m) recs hc
            h.1 enough))

  pub scan_max_record_seq-encode_records :
      (recs : List WalRecord)
      → IsCrc32 crc32
      → All Fits recs
      → scan_max_record_seq (encode_records crc32 recs) ≡ max_from 0 recs
  unfolding scan_max_record_seq
  scan_max_record_seq-encode_records recs hc h =
      scan_loop-encode_records (length (encode_records crc32 recs)) 0 recs hc h (omega arith)

  -- Every stored sequence number is below the one that a writer opens with.
  pub scan_dir-le : (next : ℕ) (dir : Dir) → next ≤ scan_dir next dir
  unfolding scan_dir
  scan_dir-le next [] = omega arith
  scan_dir-le next ((s, bytes) ∷ dir) =
      let m = (scan_max_record_seq bytes + 1) % 2 ^ 64 in
      let more = scan_dir-le (if ltb next m then m else next) dir in ground (arith, more)

  -- `scan_dir` is above every sequence number of a log.
  pub scan_dir-encode :
      (next bound : ℕ) (log : Log)
      → IsCrc32 crc32
      → AllFit log
      → bound + 1 < 2 ^ 64
      → All (λ r. r.record_seq ≤ bound) (log_records log)
      → All (λ r. r.record_seq < scan_dir next (encode crc32 log)) (log_records log)
  unfolding scan_dir
  scan_dir-encode next bound [] hc h hb hs = tt
  scan_dir-encode next bound ((s, recs) ∷ log) hc h hb hs =
      let (hr, hl) = All-of_append (λ r. r.record_seq ≤ bound) recs (log_records log) hs in
      let scanned = scan_max_record_seq-encode_records recs hc h.0 in
      let at_most = max_from-bound 0 bound recs (omega arith) hr in
      let m = (scan_max_record_seq (encode_records crc32 recs) + 1) % 2 ^ 64 in
      let m_eq : m ≡ max_from 0 recs + 1 = omega (arith, scanned) in
      let next' = if ltb next m then m else next in
      let above : max_from 0 recs < next' = ground arith in
      let more = scan_dir-le next' (encode crc32 log) in
      All-append (λ r. r.record_seq < scan_dir next' (encode crc32 log)) recs (log_records log)
        (All-map (λ r. r.record_seq ≤ max_from 0 recs) _ recs (λ r hr'. omega arith)
          (max_from-All 0 (max_from 0 recs) recs (omega arith)))
        (scan_dir-encode next' bound log hc h.1 hb hl)
