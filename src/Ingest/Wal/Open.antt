-- ===== src/Ingest/Wal/Open.antt =====
-- `open_with_rotation` of src/ingest/wal.rs on a directory that a writer left.
use skaldberg.Base.{ℕ, suc, ◌+◌, ◌^◌, ◌≤◌, ◌<◌, ◌≡◌, refl, List, [], ◌∷◌, ◌++◌, arith, All}
use skaldberg.BTreeMap.{get_or}
use skaldberg.Ingest.Wal.{Bytes, WalRecord, open_with_rotation, last_key, scan_dir}
use skaldberg.Ingest.Wal.Frames.{Fits, IsCrc32}
use skaldberg.Ingest.Wal.Replay.{Log, log_records, AllFit, encode_records, encode}
use skaldberg.Ingest.Wal.Log.{
  AllBelow, Ascends, AllFit-append, log_records-append, encode-append, get-last, insert-last,
}
use skaldberg.Ingest.Wal.Append.{Holds}
use skaldberg.Ingest.Wal.Scan.{scan_dir-encode}

Ascends-All :
    (lo hi : ℕ) (recs : List WalRecord)
    → Ascends lo recs (suc hi)
    → All (λ r. r.record_seq ≤ hi) recs × (lo ≤ suc hi)
Ascends-All lo hi [] a = (tt, a)
Ascends-All lo hi (r ∷ recs) a =
    let (more, bound) = Ascends-All (r.record_seq + 1) hi recs a.1 in
    ((omega arith, more), omega (arith, a.0))

Ascends-below :
    (lo next hi : ℕ) (recs : List WalRecord)
    → Ascends lo recs hi
    → lo ≤ next
    → All (λ r. r.record_seq < next) recs
    → Ascends lo recs next
Ascends-below lo next hi [] a h b = h
Ascends-below lo next hi (r ∷ recs) a h b =
    (a.0, Ascends-below (r.record_seq + 1) next hi recs a.1 (omega (arith, b.0)) b.1)

module _ (crc32 : Bytes → ℕ) where
  last_key-append :
      (d s : ℕ) (log : Log) (recs : List WalRecord)
      → last_key d (encode crc32 (log ++ ((s, recs) ∷ []))) ≡ s
  unfolding last_key
  last_key-append d s [] recs = refl
  last_key-append d s ((j, xs) ∷ log) recs = last_key-append j s log recs

  -- For a directory of frames whose sequence numbers ascend and leave room below 2^64: opening it
  -- gives a writer that holds the same records and appends to the last file, and whose next
  -- sequence number is above all of them.
  pub open_with_rotation-Holds :
      (rotation_bytes hi s : ℕ) (closed : Log) (recs : List WalRecord)
      → IsCrc32 crc32
      → AllFit closed
      → All Fits recs
      → AllBelow s closed
      → Ascends 0 (log_records closed ++ recs) (suc hi)
      → hi + 1 < 2 ^ 64
      → Holds crc32
          (open_with_rotation (encode crc32 (closed ++ ((s, recs) ∷ []))) rotation_bytes)
          closed
          recs
  unfolding open_with_rotation
  open_with_rotation-Holds rotation_bytes hi s closed recs hc hf hl hb ha hh =
      let log = closed ++ ((s, recs) ∷ []) in
      let here = last_key-append 0 s closed recs in
      let joined = log_records-append closed s recs in
      let bounded : All (λ r. r.record_seq ≤ hi) (log_records log) =
        rw joined ((Ascends-All 0 hi (log_records closed ++ recs) ha).0) in
      let above : All (λ r. r.record_seq < scan_dir 1 (encode crc32 log)) (log_records log) =
        scan_dir-encode crc32 1 hi log hc (AllFit-append closed s recs hf hl) hh bounded in
      let ascending : Ascends 0 (log_records log) (suc hi) = rw joined ha in
      record {
        dir =
            rw (here, encode-append crc32 closed s recs)
              (rw (get-last crc32 closed s (encode_records crc32 recs) hb, get_or)
                (insert-last crc32 closed s (encode_records crc32 recs) (encode_records crc32 recs)
                  hb));
        file = refl;
        below = rw here hb;
        fits = hf;
        last_fits = hl;
        ascends = rw (← joined) (
            Ascends-below 0 (scan_dir 1 (encode crc32 log)) (suc hi) (log_records log) ascending
              (omega arith) above);
      }
