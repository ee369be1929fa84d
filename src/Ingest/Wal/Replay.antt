-- ===== src/Ingest/Wal/Replay.antt =====
-- Replay of a log: `WalIter` of src/ingest/wal.rs over the files that hold the frames of records.
use skaldberg.Base.{
  ℕ, suc, ◌≡◌, refl, ap, sym, ◌∙◌, some, none, Option, List, [], ◌∷◌, ◌++◌, All, ok, map,
}
use mathlib.Core.List.{append_assoc, append-nil}
use skaldberg.BTreeMap.{BTreeMap}
use skaldberg.Ingest.Wal.{
  Bytes, Dir, frame, read_header, read_exact, read_record, end_of_file, WalRecord, WalReadError,
  next, next_file, collect, Collected, after,
}
use skaldberg.Ingest.Wal.Frames.{IsCrc32, Fits, read_record-frame}

-- What a log holds, file by file.
abbrev pub Log : Type 0
Log = BTreeMap ℕ (List WalRecord)

abbrev pub log_records : Log → List WalRecord
log_records [] = []
log_records ((s, recs) ∷ log) = recs ++ log_records log

abbrev pub AllFit : Log → Type 0
AllFit [] = Unit
AllFit ((s, recs) ∷ log) = All Fits recs × AllFit log

-- The result with the records `recs` in front.
abbrev pub prepend :
    List WalRecord
    → Option (List WalRecord × Option WalReadError)
    → Option (List WalRecord × Option WalReadError)
prepend recs none = none
prepend recs (some (more, e)) = some (recs ++ more, e)

-- One round for each record, and those of `fuel`.
abbrev pub rounds : List WalRecord → ℕ → ℕ
rounds [] fuel = fuel
rounds (r ∷ recs) fuel = suc (rounds recs fuel)

module _ (crc32 : Bytes → ℕ) where
  abbrev pub encode_records : List WalRecord → Bytes
  encode_records [] = []
  encode_records (r ∷ recs) = frame crc32 r.record_seq r.payload ++ encode_records recs

  abbrev pub encode : Log → Dir
  encode [] = []
  encode ((s, recs) ∷ log) = (s, encode_records recs) ∷ encode log

  pub read_record-nil : read_record crc32 [] ≡ end_of_file
  unfolding read_record read_header read_exact
  read_record-nil = refl

  prepend-append :
      (r : WalRecord) (recs : List WalRecord) (x : Option (List WalRecord × Option WalReadError))
      → prepend (r ∷ recs) x ≡ prepend (r ∷ []) (prepend recs x)
  prepend-append r recs none = refl
  prepend-append r recs (some (more, e)) = refl

  after-prepend :
      (r : WalRecord) (x : Collected crc32) → after crc32 (some (ok r)) x ≡ prepend (r ∷ []) x
  after-prepend r none = refl
  after-prepend r (some (recs, e)) = refl

  pub prepend-nil : (x : Collected crc32) → x ≡ prepend [] x
  prepend-nil none = refl
  prepend-nil (some (recs, e)) = refl

  -- A round at a frame.
  collect-frame :
      (fuel : ℕ) (r : WalRecord) (rest : Bytes) (files : List Bytes)
      → IsCrc32 crc32
      → Fits r
      → collect crc32
          (suc fuel)
          (record { current = some (frame crc32 r.record_seq r.payload ++ rest); files = files })
        ≡ prepend (r ∷ []) (collect crc32 fuel (record { current = some rest; files = files }))
  unfolding collect next
  collect-frame fuel r rest files hc h =
      rw (read_record-frame crc32 r rest hc h, next) (after-prepend r _)

  pub collect-encode_records :
      (fuel : ℕ) (recs : List WalRecord) (rest : Bytes) (files : List Bytes)
      → IsCrc32 crc32
      → All Fits recs
      → collect crc32
          (rounds recs fuel)
          (record { current = some (encode_records recs ++ rest); files = files })
        ≡ prepend recs (collect crc32 fuel (record { current = some rest; files = files }))
  collect-encode_records fuel [] rest files hc h = prepend-nil _
  collect-encode_records fuel (r ∷ recs) rest files hc h =
      rw (append_assoc (frame crc32 r.record_seq r.payload) (encode_records recs) rest) (
        collect-frame (rounds recs fuel) r (encode_records recs ++ rest) files hc h.0
        ∙ ap (prepend (r ∷ [])) (collect-encode_records fuel recs rest files hc h.1)
        ∙ sym (prepend-append r recs _))

  -- An exhausted file makes way for the next.
  pub collect_next_file :
      (fuel : ℕ) (bytes : Bytes) (files : List Bytes)
      → collect crc32 (suc fuel) (record { current = some []; files = bytes ∷ files })
        ≡ collect crc32 (suc fuel) (record { current = some bytes; files = files })
  unfolding collect next next_file
  collect_next_file fuel bytes files = rw read_record-nil

  collect_first_file :
      (fuel : ℕ) (bytes : Bytes) (files : List Bytes)
      → collect crc32 (suc fuel) (record { current = none; files = bytes ∷ files })
        ≡ collect crc32 (suc fuel) (record { current = some bytes; files = files })
  unfolding collect next next_file
  collect_first_file fuel bytes files = refl

  collect_end :
      (fuel : ℕ)
      → collect crc32 (suc fuel) (record { current = some []; files = [] }) ≡ some ([], none)
  unfolding collect next next_file
  collect_end fuel = rw read_record-nil

  abbrev pub files_of : Dir → List Bytes
  files_of dir = map (λ (s, bytes). bytes) dir

  -- A round for each record of the log, and one for its end.
  abbrev pub log_rounds : Log → ℕ
  log_rounds [] = 1
  log_rounds ((s, recs) ∷ log) = rounds recs (log_rounds log)

  pub rounds-suc : (recs : List WalRecord) (k : ℕ) → (n : ℕ) × (rounds recs (suc k) ≡ suc n)
  rounds-suc [] k = (k, refl)
  rounds-suc (r ∷ recs) k = let (n, e) = rounds-suc recs k in (suc n, ap suc e)

  pub log_rounds-suc : (log : Log) → (n : ℕ) × (log_rounds log ≡ suc n)
  log_rounds-suc [] = (0, refl)
  log_rounds-suc ((s, recs) ∷ log) = let (k, e) = log_rounds-suc log in rw e (rounds-suc recs k)

  collect-file :
      (recs : List WalRecord) (log : Log) (files : List Bytes)
      → IsCrc32 crc32
      → All Fits recs
      → collect crc32
          (rounds recs (log_rounds log))
          (record { current = some (encode_records recs); files = files })
        ≡ prepend recs
            (collect crc32 (log_rounds log) (record { current = some []; files = files }))
  collect-file recs log files hc h =
      rw (append-nil) at (collect-encode_records (log_rounds log) recs [] files hc h)

  pub collect-log :
      (log : Log)
      → IsCrc32 crc32
      → AllFit log
      → collect crc32 (log_rounds log) (record { current = some []; files = files_of (encode log) })
        ≡ some (log_records log, none)
  collect-log [] hc h = collect_end 0
  collect-log ((s, recs) ∷ log) hc h =
      let (n, e) = log_rounds-suc ((s, recs) ∷ log) in
      cc (
        e,
        collect_next_file n (encode_records recs) (files_of (encode log)),
        collect-file recs log (files_of (encode log)) hc h.0,
        ap (prepend recs) (collect-log log hc h.1),
      )
