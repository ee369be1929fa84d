-- ===== src/Ingest/Wal/ReplayAll.antt =====
-- The whole replay of a well-formed log of src/ingest/wal.rs.
use skaldberg.Base.{
  ℕ, suc, ◌+◌, ◌-◌, ◌%◌, ◌^◌, subst, ◌≤◌, ◌≡◌, some, none, List, [], ◌∷◌, ◌++◌, arith, length,
  length-append,
}
use skaldberg.Ingest.Wal.{
  Bytes, frame, to_le_bytes, WalRecord, WalIter, open_iter, next, collect, bytes_in, unread,
  read_all,
}
use skaldberg.Ingest.Wal.Reading.{length-to_le_bytes}
use skaldberg.Ingest.Wal.Frames.{IsCrc32}
use skaldberg.Ingest.Wal.Replay.{
  Log, log_records, AllFit, rounds, encode_records, encode, files_of, log_rounds, log_rounds-suc,
  read_record-nil, collect-log,
}
use skaldberg.Ingest.Wal.Fuel.{collect_mono}

module _ (crc32 : Bytes → ℕ) where
  pub length-frame :
      (s : ℕ) (payload : Bytes) → length (frame crc32 s payload) ≡ 16 + length payload
  unfolding frame
  length-frame s payload =
      let n : ℕ = length payload % 2 ^ 32 in
      let c : ℕ = crc32 (to_le_bytes 8 s ++ payload) in
      omega (
        arith,
        length-append (to_le_bytes 4 n) (to_le_bytes 4 c ++ (to_le_bytes 8 s ++ payload)),
        length-append (to_le_bytes 4 c) (to_le_bytes 8 s ++ payload),
        length-append (to_le_bytes 8 s) payload,
        length-to_le_bytes 4 n,
        length-to_le_bytes 4 c,
        length-to_le_bytes 8 s,
      )

  rounds-le :
      (recs : List WalRecord) (k : ℕ) → rounds recs k ≤ length (encode_records crc32 recs) + k
  rounds-le [] k = omega arith
  rounds-le (r ∷ recs) k = omega (
    arith,
    rounds-le recs k,
    length-append (frame crc32 r.record_seq r.payload) (encode_records crc32 recs),
    length-frame r.record_seq r.payload,
  )

  log_rounds-le :
      (log : Log) → log_rounds crc32 log ≤ suc (bytes_in (files_of crc32 (encode crc32 log)))
  log_rounds-le [] = omega arith
  log_rounds-le ((s, recs) ∷ log) =
      omega (arith, log_rounds-le log, rounds-le recs (log_rounds crc32 log))

  pub collect_start :
      (fuel : ℕ) (files : List Bytes)
      → collect crc32 (suc fuel) (record { current = none; files = files })
        ≡ collect crc32 (suc fuel) (record { current = some []; files = files })
  unfolding collect next
  collect_start fuel files = rw (read_record-nil crc32)

  -- For a `crc32` that returns 32 bits: if the files of the log hold the frames of records with
  -- 64-bit sequence numbers and payloads below 4 GiB, the replay ends, meets no error, and yields
  -- just these records, file after file, in the order in which they were written.
  pub read_all-encode :
      (log : Log)
      → IsCrc32 crc32
      → AllFit log
      → read_all crc32 (encode crc32 log) ≡ some (log_records log, none)
  unfolding read_all open_iter
  read_all-encode log hc h =
      let files = files_of crc32 (encode crc32 log) in
      let (k, e) = log_rounds-suc crc32 log in
      let fuel = suc (unread (open_iter (encode crc32 log))) in
      let n : ℕ = fuel - log_rounds crc32 log in
      let start = collect_start k files in
      let enough : n + log_rounds crc32 log ≡ fuel = omega (arith, log_rounds-le log) in
      let it : WalIter = open_iter (encode crc32 log) in
      let all : collect crc32 (log_rounds crc32 log) it ≡ some (log_records log, none) =
        cc (start, e, collect-log crc32 log hc h) in
      subst (λ f. collect crc32 f it ≡ some (log_records log, none)) enough
        (collect_mono crc32 n (log_rounds crc32 log) it (log_records log, none) all)
