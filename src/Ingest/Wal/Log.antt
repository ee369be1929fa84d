-- ===== src/Ingest/Wal/Log.antt =====
-- A log whose last file is the one that is open, and what inserting into it does
-- (src/ingest/wal.rs).
use skaldberg.Base.{
  ℕ, ◌+◌, ◌≤◌, ◌<◌, ◌≡◌, refl, ap, sym, ◌∙◌, some, none, List, [], ◌∷◌, ◌++◌, arith, All,
}
use mathlib.Core.List.{append_assoc, append-nil}
use skaldberg.Order.{nat_ord}
use skaldberg.BTreeMap.{insert, get}
use skaldberg.Ingest.Wal.{Bytes, WalRecord, frame}
use skaldberg.Ingest.Wal.Frames.{Fits}
use skaldberg.Ingest.Wal.Replay.{Log, log_records, AllFit, encode_records, encode}

-- Every file of the log has a number below `s`.
abbrev pub AllBelow : ℕ → Log → Type 0
AllBelow s [] = Unit
AllBelow s ((j, recs) ∷ log) = (j < s) × AllBelow s log

-- The sequence numbers ascend strictly, from `lo` on and below `next`.
abbrev pub Ascends : ℕ → List WalRecord → ℕ → Type 0
Ascends lo [] next = lo ≤ next
Ascends lo (r ∷ recs) next = (lo ≤ r.record_seq) × Ascends (r.record_seq + 1) recs next

pub Ascends-append :
    (lo next : ℕ) (recs : List WalRecord) (r : WalRecord)
    → Ascends lo recs next
    → r.record_seq ≡ next
    → Ascends lo (recs ++ (r ∷ [])) (next + 1)
Ascends-append lo next [] r h e = omega arith
Ascends-append lo next (x ∷ recs) r h e = (h.0, Ascends-append (x.record_seq + 1) next recs r h.1 e)

pub AllBelow-mono : (s t : ℕ) (log : Log) → s ≤ t → AllBelow s log → AllBelow t log
AllBelow-mono s t [] h b = tt
AllBelow-mono s t ((j, recs) ∷ log) h b = (omega arith, AllBelow-mono s t log h b.1)

pub AllBelow-append :
    (s : ℕ) (log : Log) (j : ℕ) (recs : List WalRecord)
    → j < s
    → AllBelow s log
    → AllBelow s (log ++ ((j, recs) ∷ []))
AllBelow-append s [] j recs h b = (h, tt)
AllBelow-append s ((i, x) ∷ log) j recs h b = (b.0, AllBelow-append s log j recs h b.1)

pub AllFit-append :
    (log : Log) (j : ℕ) (recs : List WalRecord)
    → AllFit log
    → All Fits recs
    → AllFit (log ++ ((j, recs) ∷ []))
AllFit-append [] j recs a f = (f, tt)
AllFit-append ((i, x) ∷ log) j recs a f = (a.0, AllFit-append log j recs a.1 f)

pub log_records-append :
    (log : Log) (j : ℕ) (recs : List WalRecord)
    → log_records (log ++ ((j, recs) ∷ [])) ≡ log_records log ++ recs
log_records-append [] j recs = append-nil recs
log_records-append ((i, x) ∷ log) j recs =
    ap (◌++◌ x) (log_records-append log j recs) ∙ sym (append_assoc x (log_records log) recs)

module _ (crc32 : Bytes → ℕ) where
  pub encode_records-append :
      (recs : List WalRecord) (r : WalRecord)
      → encode_records crc32 (recs ++ (r ∷ []))
        ≡ encode_records crc32 recs ++ frame crc32 r.record_seq r.payload
  encode_records-append [] r = append-nil (frame crc32 r.record_seq r.payload)
  encode_records-append (x ∷ recs) r =
      ap (◌++◌ (frame crc32 x.record_seq x.payload)) (encode_records-append recs r)
      ∙ sym (
          append_assoc (frame crc32 x.record_seq x.payload) (encode_records crc32 recs)
            (frame crc32 r.record_seq r.payload))

  pub encode-append :
      (log : Log) (s : ℕ) (recs : List WalRecord)
      → encode crc32 (log ++ ((s, recs) ∷ []))
        ≡ encode crc32 log ++ ((s, encode_records crc32 recs) ∷ [])
  encode-append [] s recs = refl
  encode-append ((j, x) ∷ log) s recs =
      ap (◌∷◌ (j, encode_records crc32 x)) (encode-append log s recs)

  -- Looking up, and writing over, the last file.
  pub get-last :
      (log : Log) (s : ℕ) (bytes : Bytes)
      → AllBelow s log
      → get s (encode crc32 log ++ ((s, bytes) ∷ [])) ≡ some bytes
  unfolding get
  get-last [] s bytes b = ground arith
  get-last ((j, x) ∷ log) s bytes b = ground (arith, get-last log s bytes b.1)

  pub insert-last :
      (log : Log) (s : ℕ) (old bytes : Bytes)
      → AllBelow s log
      → insert s bytes (encode crc32 log ++ ((s, old) ∷ [])) ≡ encode crc32 log ++ ((s, bytes) ∷ [])
  unfolding insert
  insert-last [] s old bytes b = ground arith
  insert-last ((j, x) ∷ log) s old bytes b = ground (arith, insert-last log s old bytes b.1)

  -- A file above all others.
  pub get-above : (log : Log) (s : ℕ) → AllBelow s log → get s (encode crc32 log) ≡ none
  unfolding get
  get-above [] s b = refl
  get-above ((j, x) ∷ log) s b = ground (arith, get-above log s b.1)

  pub insert-above :
      (log : Log) (s : ℕ) (bytes : Bytes)
      → AllBelow s log
      → insert s bytes (encode crc32 log) ≡ encode crc32 log ++ ((s, bytes) ∷ [])
  unfolding insert
  insert-above [] s bytes b = refl
  insert-above ((j, x) ∷ log) s bytes b = ground (arith, insert-above log s bytes b.1)
