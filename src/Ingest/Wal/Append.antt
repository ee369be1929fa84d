-- ===== src/Ingest/Wal/Append.antt =====
-- `append` and `rotate` of src/ingest/wal.rs on a log that is well formed.
use skaldberg.Base.{
  ℕ, suc, ◌+◌, ◌-◌, ◌%◌, ◌^◌, ◌<◌, ◌≡◌, refl, sym, ◌∙◌, true, false, List, [], ◌∷◌, ◌++◌, arith,
  All, All-append, ok, Result, Bool-cases, inl, inr, leb, ltb, length,
}
use mathlib.Core.List.{append_assoc, append-nil}
use skaldberg.Order.{nat_ord}
use skaldberg.BTreeMap.{get_or}
use skaldberg.Ingest.Wal.{
  Bytes, WalRecord, WalWriter, WalError, frame, write, rotate, finish_append, append, well,
}
use skaldberg.Ingest.Wal.Frames.{Fits}
use skaldberg.Ingest.Wal.Replay.{Log, log_records, AllFit, encode_records, encode}
use skaldberg.Ingest.Wal.Log.{
  AllBelow, AllBelow-mono, AllBelow-append, AllFit-append, log_records-append, Ascends,
  Ascends-append, encode-append, encode_records-append, get-last, insert-last, get-above,
  insert-above,
}

module _ (crc32 : Bytes → ℕ) where
  -- The directory of a writer holds the frames of the closed files and, in the last file, which the
  -- handle is open on, those of `recs`; the sequence numbers ascend up to the writer's next one.
  pub record Holds (w : WalWriter) (closed : Log) (recs : List WalRecord) : Type 0 where
    pub dir : w.dir ≡ encode crc32 (closed ++ ((w.file, recs) ∷ []))
    pub file : w.file_seq ≡ w.file
    pub below : AllBelow w.file closed
    pub fits : AllFit closed
    pub last_fits : All Fits recs
    pub ascends : Ascends 0 (log_records closed ++ recs) w.next_record_seq

  abbrev pub record_of : WalWriter → Bytes → WalRecord
  record_of w payload = record { record_seq = w.next_record_seq; payload = payload }

  pub write-Holds :
      (w : WalWriter) (closed : Log) (recs : List WalRecord) (r : WalRecord)
      → Holds w closed recs
      → write w.file (frame crc32 r.record_seq r.payload) w.dir
        ≡ encode crc32 (closed ++ ((w.file, recs ++ (r ∷ [])) ∷ []))
  unfolding write
  write-Holds w closed recs r h =
      let old = encode_records crc32 recs in
      rw (h.dir, encode-append crc32 closed w.file recs)
        (rw (get-last crc32 closed w.file old h.below, write)
          (rw (
            insert-last crc32 closed w.file old (old ++ frame crc32 r.record_seq r.payload) h.below,
            encode-append crc32 closed w.file (recs ++ (r ∷ [])),
            encode_records-append crc32 recs r,
          )))

  -- The writer after a frame is written, before any rotation.
  abbrev pub advanced : WalWriter → Bytes → WalWriter
  advanced w payload =
      let bytes = frame crc32 w.next_record_seq payload in
      record w {
        dir = write w.file bytes w.dir;
        file_bytes = (w.file_bytes + length bytes) % 2 ^ 64;
        next_record_seq = (w.next_record_seq + 1) % 2 ^ 64;
      }

  pub advanced-Holds :
      (w : WalWriter) (closed : Log) (recs : List WalRecord) (payload : Bytes)
      → Holds w closed recs
      → w.next_record_seq + 1 < 2 ^ 64
      → length payload < 2 ^ 32
      → Holds (advanced w payload) closed (recs ++ (record_of w payload ∷ []))
  advanced-Holds w closed recs payload h hn hl = record {
    dir = write-Holds w closed recs (record_of w payload) h;
    file = h.file;
    below = h.below;
    fits = h.fits;
    last_fits = All-append Fits recs (record_of w payload ∷ []) h.last_fits ((omega arith, hl), tt);
    ascends =
        let next : (w.next_record_seq + 1) % 2 ^ 64 ≡ w.next_record_seq + 1 = omega arith in
        rw (next, ← append_assoc (log_records closed) recs (record_of w payload ∷ []))
          (Ascends-append 0 w.next_record_seq (log_records closed ++ recs) (record_of w payload)
            h.ascends refl);
  }

  pub rotate-Holds :
      (w : WalWriter) (closed : Log) (recs : List WalRecord)
      → Holds w closed recs
      → w.file_seq + 1 < 2 ^ 64
      → ((rotate true w).0 ≡ ok tt) × Holds (rotate true w).1 (closed ++ ((w.file, recs) ∷ [])) []
  unfolding rotate
  rotate-Holds w closed recs h hf =
      let next : (w.file_seq + 1) % 2 ^ 64 ≡ suc w.file = omega (arith, h.file) in
      let all = closed ++ ((w.file, recs) ∷ []) in
      let below : AllBelow (suc w.file) all =
        AllBelow-append (suc w.file) closed w.file recs (omega arith)
          (AllBelow-mono w.file (suc w.file) closed (omega arith) h.below) in
      rw next (
        refl,
        record {
          dir = rw h.dir (
              rw (get-above crc32 all (suc w.file) below, get_or)
                (insert-above crc32 all (suc w.file) [] below
                  ∙ sym (encode-append crc32 all (suc w.file) [])));
          file = refl;
          below = below;
          fits = AllFit-append closed w.file recs h.fits h.last_fits;
          last_fits = tt;
          ascends =
              rw (append-nil (log_records all), log_records-append closed w.file recs) h.ascends;
        },
      )

  abbrev pub Appended : WalWriter → List WalRecord → Result WalError ℕ × WalWriter → Type 0
  Appended w recs out =
      (out.0 ≡ ok w.next_record_seq)
      × (out.1.next_record_seq ≡ w.next_record_seq + 1)
      × (closed' : Log) × (recs' : List WalRecord) × Holds out.1 closed' recs'
      × (log_records closed' ++ recs' ≡ recs)

  finish_append-Holds :
      (w : WalWriter) (closed : Log) (recs : List WalRecord) (payload : Bytes)
      → Holds w closed recs
      → w.next_record_seq + 1 < 2 ^ 64
      → w.file_seq + 1 < 2 ^ 64
      → length payload < 2 ^ 32
      → Appended w
          ((log_records closed ++ recs) ++ (record_of w payload ∷ []))
          (finish_append crc32 (frame crc32 w.next_record_seq payload) true w)
  unfolding finish_append rotate
  finish_append-Holds w closed recs payload h hn hf hl =
      let a = advanced-Holds w closed recs payload h hn hl in
      let next : (w.next_record_seq + 1) % 2 ^ 64 ≡ w.next_record_seq + 1 = omega arith in
      let recs' = recs ++ (record_of w payload ∷ []) in
      elim (Bool-cases (leb w.rotation_bytes (advanced w payload).file_bytes)) [
        | inl e ↦ rw e (
          refl,
          next,
          closed ++ ((w.file, recs') ∷ []),
          [],
          (rotate-Holds (advanced w payload) closed recs' a hf).1,
          rw
              (
                append-nil (log_records (closed ++ ((w.file, recs') ∷ []))),
                log_records-append closed w.file recs',
              )
              (sym (append_assoc (log_records closed) recs (record_of w payload ∷ []))),
        )
        | inr e ↦ rw e (
          refl,
          next,
          closed,
          recs',
          a,
          sym (append_assoc (log_records closed) recs (record_of w payload ∷ [])),
        )
      ]

  -- For a writer whose directory holds the frames of records, with room for one more sequence
  -- number and file number: an append of a payload below 4 GiB whose system calls succeed returns
  -- the writer's next sequence number, and leaves a writer whose directory holds the same records
  -- and then the new one, whether or not the file was full and a new one was begun.
  pub append-Holds :
      (w : WalWriter) (closed : Log) (recs : List WalRecord) (payload : Bytes)
      → Holds w closed recs
      → w.next_record_seq + 1 < 2 ^ 64
      → w.file_seq + 1 < 2 ^ 64
      → length payload < 2 ^ 32
      → Appended w
          ((log_records closed ++ recs) ++ (record_of w payload ∷ []))
          (append crc32 payload well w)
  unfolding append
  append-Holds w closed recs payload h hn hf hl =
      let small : ltb (2 ^ 32 - 1) (length payload) ≡ false = ground arith in
      rw small (finish_append-Holds w closed recs payload h hn hf hl)
