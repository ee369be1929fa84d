-- ===== src/Ingest/Wal/ReplayBroken.antt =====
-- The replay of a log that does not end well (src/ingest/wal.rs).
use skaldberg.Base.{
  ℕ, suc, ◌+◌, ◌<◌, ◌≤◌, ◌≡◌, refl, ap, sym, ◌∙◌, some, none, Option, List, [], ◌∷◌, ◌++◌, arith,
  length, false, take, ltb, ◌==◌, if◌then◌else◌, All, Bool-cases, inl, inr, length-take_le,
}
use mathlib.Core.List.{append_assoc, append-nil}
use skaldberg.Ingest.Wal.{
  Bytes, Dir, frame, read_record, failed, end_of_file, WalRecord, header_bytes, open_iter, unread,
  WalReadError, truncated, crc_mismatch, collect, next, next_file, read_all, to_le_bytes,
}
use skaldberg.Ingest.Wal.Frames.{IsCrc32, Fits}
use skaldberg.Ingest.Wal.Replay.{
  Log, log_records, AllFit, encode_records, encode, files_of, rounds, rounds-suc, prepend,
  prepend-nil, collect-encode_records, collect_next_file,
}
use skaldberg.Ingest.Wal.ReplayAll.{collect_start}
use skaldberg.Ingest.Wal.Fuel.{read_all_total, collect_mono}
use skaldberg.Ingest.Wal.Damage.{read_record-short, read_record-torn, read_record-corrupt, damaged}

module _ (crc32 : Bytes → ℕ) where
  -- Whatever fuel the replay ends with, it ends with the same.
  read_all-of_collect :
      (fuel : ℕ) (dir : Dir) (c : List WalRecord × Option WalReadError)
      → collect crc32 fuel (open_iter dir) ≡ some c
      → read_all crc32 dir ≡ some c
  unfolding read_all
  read_all-of_collect fuel dir c h =
      let (d, e) = read_all_total crc32 dir in
      let enough : ℕ = suc (unread (open_iter dir)) in
      let both : ℕ = fuel + enough in
      let more = collect_mono crc32 fuel enough (open_iter dir) d e in
      let more' = collect_mono crc32 enough fuel (open_iter dir) c h in
      let swap : enough + fuel ≡ fuel + enough = omega arith in
      e ∙ sym more ∙ ap (λ k. collect crc32 k (open_iter dir)) (sym swap) ∙ more'

  prepend_assoc :
      (xs ys : List WalRecord) (x : Option (List WalRecord × Option WalReadError))
      → prepend (xs ++ ys) x ≡ prepend xs (prepend ys x)
  prepend_assoc xs ys none = refl
  prepend_assoc xs ys (some (zs, e)) = ap (λ l. some (l, e)) (append_assoc xs ys zs)

  -- The rounds of a log, and then `k`
  abbrev rounds_then : Log → ℕ → ℕ
  rounds_then [] k = k
  rounds_then ((s, recs) ∷ log) k = rounds recs (rounds_then log k)

  rounds_then-suc : (log : Log) (k : ℕ) → (n : ℕ) × (rounds_then log (suc k) ≡ suc n)
  rounds_then-suc [] k = (k, refl)
  rounds_then-suc ((s, recs) ∷ log) k =
      let (m, e) = rounds_then-suc log k in rw e (rounds-suc crc32 recs m)

  -- The replay of well-formed files, before it comes to the file `last`
  collect-before :
      (log : Log) (k : ℕ) (last : Bytes) (more : List Bytes)
      → IsCrc32 crc32
      → AllFit log
      → collect crc32
          (rounds_then log (suc k))
          (record { current = some []; files = files_of crc32 (encode crc32 log) ++ (last ∷ more) })
        ≡ prepend
            (log_records log)
            (collect crc32 (suc k) (record { current = some last; files = more }))
  collect-before [] k last more hc h = collect_next_file crc32 k last more ∙ prepend-nil crc32 _
  collect-before ((s, recs) ∷ log) k last more hc h =
      let (n, e) = rounds_then-suc ((s, recs) ∷ log) k in
      let files = files_of crc32 (encode crc32 log) ++ (last ∷ more) in
      let here = collect-encode_records crc32 (rounds_then log (suc k)) recs [] files hc h.0 in
      cc (
        e,
        collect_next_file crc32 n (encode_records crc32 recs) files,
        append-nil (encode_records crc32 recs),
        here,
        ap (prepend recs) (collect-before log k last more hc h.1),
        prepend_assoc recs (log_records log)
            (collect crc32 (suc k) (record { current = some last; files = more })),
      )

  files_of-append :
      (log : Log) (s : ℕ) (last : Bytes) (more : Dir)
      → files_of crc32 (encode crc32 log ++ ((s, last) ∷ more))
        ≡ files_of crc32 (encode crc32 log) ++ (last ∷ files_of crc32 more)
  files_of-append [] s last more = refl
  files_of-append ((j, recs) ∷ log) s last more =
      ap (◌∷◌ (encode_records crc32 recs)) (files_of-append log s last more)

  -- A directory whose files are well formed up to the bytes `tail`, where the replay stops.
  read_all-tail :
      (log : Log) (s : ℕ) (recs : List WalRecord) (tail : Bytes) (more : Dir)
      (x : Option WalReadError)
      → IsCrc32 crc32
      → AllFit log
      → All Fits recs
      → collect crc32 1 (record { current = some tail; files = files_of crc32 more }) ≡ some ([], x)
      → read_all crc32 (encode crc32 log ++ ((s, encode_records crc32 recs ++ tail) ∷ more))
        ≡ some (log_records log ++ recs, x)
  unfolding open_iter
  read_all-tail log s recs tail more x hc h hr stop =
      let last = encode_records crc32 recs ++ tail in
      let dir = encode crc32 log ++ ((s, last) ∷ more) in
      let (k, e) = rounds-suc crc32 recs 0 in
      let (n, e') = rounds_then-suc log k in
      read_all-of_collect (suc n) dir (log_records log ++ recs, x)
        (cc (
          e,
          e',
          files_of-append log s last more,
          collect_start crc32 n (files_of crc32 (encode crc32 log) ++ (last ∷ files_of crc32 more)),
          collect-before log k last (files_of crc32 more) hc h,
          collect-encode_records crc32 1 recs tail (files_of crc32 more) hc hr,
          ap (prepend recs) stop,
          ap (λ l. prepend (log_records log) (some (l, x))) (append-nil recs),
        ))

  stop_failed :
      (tail rest : Bytes) (e : WalReadError) (files : List Bytes)
      → read_record crc32 tail ≡ failed e rest
      → collect crc32 1 (record { current = some tail; files = files }) ≡ some ([], some e)
  unfolding collect next
  stop_failed tail rest e files h = rw (h, next)

  stop_end :
      (tail : Bytes)
      → read_record crc32 tail ≡ end_of_file
      → collect crc32 1 (record { current = some tail; files = [] }) ≡ some ([], none)
  unfolding collect next next_file
  stop_end tail h = rw (h, next)

  -- A crash while the last frame is written leaves its first `n` bytes. For a log of frames that ends
  -- so, the replay gives every record before the torn one; it reports the torn frame as truncated, or
  -- nothing if not even its header is whole.
  pub read_all-torn :
      (log : Log) (s : ℕ) (recs : List WalRecord) (r : WalRecord) (n : ℕ)
      → IsCrc32 crc32
      → AllFit log
      → All Fits recs
      → Fits r
      → n < header_bytes + length r.payload
      → read_all crc32 (
          encode crc32 log
          ++ ((s, encode_records crc32 recs ++ take n (frame crc32 r.record_seq r.payload)) ∷ []))
        ≡ some (
          log_records log ++ recs,
          if ltb n header_bytes then none else some (truncated r.record_seq (length r.payload)),
        )
  read_all-torn log s recs r n hc h hr hf hn =
      let tail = take n (frame crc32 r.record_seq r.payload) in
      elim (Bool-cases (ltb n header_bytes)) [
        | inl e ↦
            let short : length tail < header_bytes =
              ground (arith, length-take_le n (frame crc32 r.record_seq r.payload)) in
            rw e (
              read_all-tail log s recs tail [] none hc h hr
                (stop_end tail (read_record-short crc32 tail short)))
        | inr e ↦
            let whole : header_bytes ≤ n = ground arith in
            rw e (
              read_all-tail log s recs tail [] _ hc h hr
                (stop_failed tail [] _ [] (read_record-torn crc32 r n hc hf whole hn)))
      ]

  -- For a log of frames in which the payload of one record was changed on disk to another of the same
  -- length, with another checksum: the replay gives every record before it and stops there with a
  -- mismatch that names its sequence number, whatever follows.
  pub read_all-corrupt :
      (log : Log) (s : ℕ) (recs : List WalRecord) (r : WalRecord) (payload rest : Bytes)
      (more : Dir)
      → IsCrc32 crc32
      → AllFit log
      → All Fits recs
      → Fits r
      → length payload ≡ length r.payload
      → (crc32 (to_le_bytes 8 r.record_seq ++ payload)
          == crc32 (to_le_bytes 8 r.record_seq ++ r.payload))
        ≡ false
      → read_all crc32 (
          encode crc32 log
          ++ ((s, encode_records crc32 recs ++ (damaged crc32 r payload ++ rest)) ∷ more))
        ≡ some (log_records log ++ recs, some (crc_mismatch r.record_seq))
  read_all-corrupt log s recs r payload rest more hc h hr hf same differ =
      read_all-tail log s recs (damaged crc32 r payload ++ rest) more _ hc h hr (
        stop_failed (damaged crc32 r payload ++ rest) rest _ (files_of crc32 more)
          (read_record-corrupt crc32 r payload rest hc hf same differ))
