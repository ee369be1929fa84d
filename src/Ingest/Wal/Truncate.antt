-- ===== src/Ingest/Wal/Truncate.antt =====
-- `truncate_through` of src/ingest/wal.rs on a log that is well formed.
use skaldberg.Base.{
  ℕ, ◌+◌, ◌≤◌, ◌≡◌, refl, ap, List, [], ◌∷◌, ◌++◌, arith, All, ltb, leb, ◌==◌, ==_refl,
  if◌then◌else◌, false, Bool, Bool-cases, inl, inr, keep_if, leb→le,
}
use mathlib.Core.List.{append_assoc}
use skaldberg.Ingest.Wal.{Bytes, WalRecord, WalWriter, truncate_files, truncate_through}
use skaldberg.Ingest.Wal.Frames.{IsCrc32}
use skaldberg.Ingest.Wal.Replay.{Log, log_records, AllFit, encode_records, encode}
use skaldberg.Ingest.Wal.Log.{AllBelow, Ascends}
use skaldberg.Ingest.Wal.Append.{Holds}
use skaldberg.Ingest.Wal.Scan.{max_from, max_from-All, scan_max_record_seq-encode_records}

-- The files of a log that hold a record above `n`.
unfoldable pub files_above : ℕ → Log → Log
files_above n [] = []
files_above n ((s, recs) ∷ log) =
    let rest = files_above n log in if leb (max_from 0 recs) n then rest else (s, recs) ∷ rest

abbrev pub is_above : ℕ → WalRecord → Bool
is_above n r = ltb n r.record_seq

pub keep_if-append :
    (n : ℕ) (xs ys : List WalRecord)
    → keep_if (is_above n) (xs ++ ys) ≡ keep_if (is_above n) xs ++ keep_if (is_above n) ys
keep_if-append n [] ys = refl
keep_if-append n (x ∷ xs) ys = ground (arith, keep_if-append n xs ys)

keep_if-nil :
    (n : ℕ) (recs : List WalRecord)
    → All (λ r. r.record_seq ≤ n) recs
    → keep_if (is_above n) recs ≡ []
keep_if-nil n [] h = refl
keep_if-nil n (r ∷ recs) h = ground (arith, h.0, keep_if-nil n recs h.1)

keep_if-files_above :
    (n : ℕ) (log : Log)
    → keep_if (is_above n) (log_records (files_above n log))
      ≡ keep_if (is_above n) (log_records log)
unfolding files_above
keep_if-files_above n [] = refl
keep_if-files_above n ((s, recs) ∷ log) = elim (Bool-cases (leb (max_from 0 recs) n)) [
  | inl e ↦
      rw
        (
          e,
          keep_if-append n recs (log_records log),
          keep_if-nil n recs (max_from-All 0 n recs (leb→le _ _ e)),
        )
        (keep_if-files_above n log)
  | inr e ↦ rw (
    e,
    keep_if-append n recs (log_records log),
    keep_if-append n recs (log_records (files_above n log)),
    keep_if-files_above n log,
  )
]

files_above-AllBelow : (n s : ℕ) (log : Log) → AllBelow s log → AllBelow s (files_above n log)
unfolding files_above
files_above-AllBelow n s [] h = tt
files_above-AllBelow n s ((j, recs) ∷ log) h = ground (arith, files_above-AllBelow n s log h.1)

files_above-AllFit : (n : ℕ) (log : Log) → AllFit log → AllFit (files_above n log)
unfolding files_above
files_above-AllFit n [] h = tt
files_above-AllFit n ((j, recs) ∷ log) h = ground (arith, files_above-AllFit n log h.1)

Ascends-weaken :
    (lo lo' next : ℕ) (recs : List WalRecord)
    → lo' ≤ lo
    → Ascends lo recs next
    → Ascends lo' recs next
Ascends-weaken lo lo' next [] h a = omega arith
Ascends-weaken lo lo' next (r ∷ recs) h a = (omega arith, a.1)

Ascends-drop :
    (lo next : ℕ) (xs ys : List WalRecord) → Ascends lo (xs ++ ys) next → Ascends lo ys next
Ascends-drop lo next [] ys a = a
Ascends-drop lo next (x ∷ xs) ys a =
    Ascends-weaken (x.record_seq + 1) lo next ys (omega (arith, a.0))
      (Ascends-drop (x.record_seq + 1) next xs ys a.1)

-- What stands behind `xs` may be exchanged for what ascends from where it does.
Ascends-exchange :
    (lo next : ℕ) (xs ys zs : List WalRecord)
    → ((l : ℕ) → Ascends l ys next → Ascends l zs next)
    → Ascends lo (xs ++ ys) next
    → Ascends lo (xs ++ zs) next
Ascends-exchange lo next [] ys zs f a = f lo a
Ascends-exchange lo next (x ∷ xs) ys zs f a =
    (a.0, Ascends-exchange (x.record_seq + 1) next xs ys zs f a.1)

files_above-Ascends :
    (n lo next : ℕ) (log : Log) (recs : List WalRecord)
    → Ascends lo (log_records log ++ recs) next
    → Ascends lo (log_records (files_above n log) ++ recs) next
unfolding files_above
files_above-Ascends n lo next [] recs a = a
files_above-Ascends n lo next ((s, xs) ∷ log) recs a =
    let a' : Ascends lo (xs ++ (log_records log ++ recs)) next =
      rw (← append_assoc xs (log_records log) recs) a in
    elim (Bool-cases (leb (max_from 0 xs) n)) [
      | inl e ↦ rw e (
          files_above-Ascends n lo next log recs
            (Ascends-drop lo next xs (log_records log ++ recs) a'))
      | inr e ↦
          rw (e, append_assoc xs (log_records (files_above n log)) recs)
            (Ascends-exchange lo next xs (log_records log ++ recs)
              (log_records (files_above n log) ++ recs) (λ l. files_above-Ascends n l next log recs)
              a')
    ]

module _ (crc32 : Bytes → ℕ) where
  truncate_files-encode :
      (s n : ℕ) (closed : Log) (recs : List WalRecord)
      → IsCrc32 crc32
      → AllFit closed
      → AllBelow s closed
      → truncate_files s n (encode crc32 (closed ++ ((s, recs) ∷ [])))
        ≡ encode crc32 (files_above n closed ++ ((s, recs) ∷ []))
  unfolding truncate_files files_above
  truncate_files-encode s n [] recs hc hf hb = rw (==_refl s)
  truncate_files-encode s n ((j, xs) ∷ closed) recs hc hf hb =
      let other : (j == s) ≡ false = ground arith in
      let more = truncate_files-encode s n closed recs hc hf.1 hb.1 in
      let scanned = scan_max_record_seq-encode_records crc32 xs hc hf.0 in
      elim (Bool-cases (leb (max_from 0 xs) n)) [
        | inl e ↦ rw (other, scanned, e) more
        | inr e ↦ rw (other, scanned, e) (ap (◌∷◌ (j, encode_records crc32 xs)) more)
      ]

  -- For a writer whose directory holds the frames of records: `truncate_through n` leaves a writer
  -- whose directory holds the frames of the open file, unchanged, and of some closed files. No
  -- record above `n` is lost, and their order stays.
  pub truncate_through-Holds :
      (n : ℕ) (w : WalWriter) (closed : Log) (recs : List WalRecord)
      → IsCrc32 crc32
      → Holds crc32 w closed recs
      → (left : Log) × Holds crc32 (truncate_through n w) left recs
        × (keep_if (is_above n) (log_records left) ≡ keep_if (is_above n) (log_records closed))
  unfolding truncate_through
  truncate_through-Holds n w closed recs hc h = (
    files_above n closed,
    record {
      dir = rw (h.dir, h.file) (truncate_files-encode w.file n closed recs hc h.fits h.below);
      file = h.file;
      below = files_above-AllBelow n w.file closed h.below;
      fits = files_above-AllFit n closed h.fits;
      last_fits = h.last_fits;
      ascends = files_above-Ascends n 0 w.next_record_seq closed recs h.ascends;
    },
    keep_if-files_above n closed,
  )
