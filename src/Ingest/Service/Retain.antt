-- ===== src/Ingest/Service/Retain.antt =====
-- What the log still holds while handlers and flusher run side by side (src/ingest/service.rs).
use skaldberg.Base.{
  ℕ, ◌+◌, ◌^◌, ◌≡◌, ◌≤◌, ◌<◌, refl, ap, sym, ◌∙◌, Bool, true, false, Bool-cases, inl, inr, List, [],
  ◌∷◌, ◌++◌, arith, ltb, if◌then◌else◌, keep_if, ok, ok-inj, length,
}
use mathlib.Core.List.{append_assoc, append-nil}
use skaldberg.Order.{Ord}
use skaldberg.Ingest.Buffer.{Chrono, Snapshot}
use skaldberg.Ingest.Wal.{Bytes, WalRecord, WalWriter, append, well, truncate_through}
use skaldberg.Ingest.Wal.Frames.{IsCrc32}
use skaldberg.Ingest.Wal.Replay.{Log, log_records}
use skaldberg.Ingest.Wal.Append.{Holds, append-Holds, record_of}
use skaldberg.Ingest.Wal.Truncate.{is_above, truncate_through-Holds, keep_if-append}
use skaldberg.Ingest.Service.{IngestState, Json, buffer_batch, begin_flush, end_flush}
use skaldberg.Ingest.Service.System.{
  System, Step, persist, put, begin, finish, Reach, start, later, ended,
}

-- The largest of the sequence numbers up to which a flush that succeeded has reached.
abbrev pub flushed_through : {D F : Type 0} → List (Snapshot D F × Bool) → ℕ
flushed_through [] = 0
flushed_through ((snap, flushed) ∷ taken) =
    let m = flushed_through taken in
    if flushed then (if ltb m snap.max_record_seq then snap.max_record_seq else m) else m

flushed_through-append :
    {D F : Type 0} (taken : List (Snapshot D F × Bool)) (snap : Snapshot D F)
    → (flushed_through (taken ++ ((snap, false) ∷ [])) ≡ flushed_through taken)
      × (flushed_through taken ≤ flushed_through (taken ++ ((snap, true) ∷ [])))
      × (snap.max_record_seq ≤ flushed_through (taken ++ ((snap, true) ∷ [])))
flushed_through-append [] snap = (refl, ground arith, ground arith)
flushed_through-append ((x, b) ∷ taken) snap =
    let (h₁, h₂, h₃) = flushed_through-append taken snap in
    (ground (arith, h₁), ground (arith, h₂), ground (arith, h₃))

-- The records above the larger bound, among those above the smaller.
keep_if-keep_if :
    (n m : ℕ) (recs : List WalRecord)
    → m ≤ n
    → keep_if (is_above n) (keep_if (is_above m) recs) ≡ keep_if (is_above n) recs
keep_if-keep_if n m [] h = refl
keep_if-keep_if n m (r ∷ recs) h = ground (arith, keep_if-keep_if n m recs h)

above_mono :
    (n m : ℕ) (xs ys : List WalRecord)
    → m ≤ n
    → keep_if (is_above m) xs ≡ keep_if (is_above m) ys
    → keep_if (is_above n) xs ≡ keep_if (is_above n) ys
above_mono n m xs ys h e =
    sym (keep_if-keep_if n m xs h) ∙ ap (keep_if (is_above n)) e ∙ keep_if-keep_if n m ys h

module _ (crc32 : Bytes → ℕ) where
  -- The directory of the writer holds the frames of some records, and among these are all records of
  -- `history` above `n`.
  pub record Retains (n : ℕ) (history : List WalRecord) (w : WalWriter) : Type 0 where
    pub closed : Log
    pub recs : List WalRecord
    pub holds : Holds crc32 w closed recs
    pub kept : keep_if (is_above n) (log_records closed ++ recs) ≡ keep_if (is_above n) history

  Retains-append :
      (n seq : ℕ) (history : List WalRecord) (w : WalWriter) (payload : Bytes)
      → Retains n history w
      → length payload < 2 ^ 32
      → w.next_record_seq + 1 < 2 ^ 64
      → w.file_seq + 1 < 2 ^ 64
      → (append crc32 payload well w).0 ≡ ok seq
      → Retains n
          (history ++ (record { record_seq = seq; payload = payload } ∷ []))
          (append crc32 payload well w).1
  Retains-append n seq history w payload r hl hn hf e =
      let (returned, advanced, closed', recs', holds', all) =
        append-Holds crc32 w r.closed r.recs payload r.holds hn hf hl in
      let old = log_records r.closed ++ r.recs in
      let rec = record_of crc32 w payload in
      let number : w.next_record_seq ≡ seq = ok-inj (sym returned ∙ e) in
      record {
        closed = closed';
        recs = recs';
        holds = holds';
        kept = rw (← number) (
            ap (keep_if (is_above n)) all
            ∙ keep_if-append n old (rec ∷ [])
            ∙ ap (λ l. l ++ keep_if (is_above n) (rec ∷ [])) r.kept
            ∙ sym (keep_if-append n history (rec ∷ [])));
      }

  Retains-truncate :
      (n m k : ℕ) (history : List WalRecord) (w : WalWriter)
      → IsCrc32 crc32
      → n ≤ k
      → m ≤ k
      → Retains n history w
      → Retains k history (truncate_through m w)
  Retains-truncate n m k history w hc hn hm r =
      let (left, holds', same) = truncate_through-Holds crc32 m w r.closed r.recs hc r.holds in
      record {
        closed = left;
        recs = r.recs;
        holds = holds';
        kept =
            keep_if-append k (log_records left) r.recs
            ∙ ap (λ l. l ++ keep_if (is_above k) r.recs)
                (above_mono k m (log_records left) (log_records r.closed) hm same)
            ∙ sym (keep_if-append k (log_records r.closed) r.recs)
            ∙ above_mono k n (log_records r.closed ++ r.recs) history hn r.kept;
      }

  Retains-mono :
      (n k : ℕ) (history : List WalRecord) (w : WalWriter)
      → n ≤ k
      → Retains n history w
      → Retains k history w
  Retains-mono n k history w h r = record {
    closed = r.closed;
    recs = r.recs;
    holds = r.holds;
    kept = above_mono k n (log_records r.closed ++ r.recs) history h r.kept;
  }

module _ {D F : Type 0} ⦃o : Ord D⦄ ⦃c : Chrono D⦄ (crc32 : Bytes → ℕ) (json : Json F) where
  RetainsAll : List WalRecord → System D F → Type 0
  RetainsAll old s = Retains crc32 (flushed_through s.taken) (old ++ s.appended) s.st.wal

  begin_flush-wal : (st : IngestState D F) → (begin_flush st).1.wal ≡ st.wal
  unfolding begin_flush
  begin_flush-wal st = ground arith

  end_flush-Retains :
      (old : List WalRecord) (s : System D F) (snap : Snapshot D F) (flushed : Bool)
      → IsCrc32 crc32
      → RetainsAll old s
      → RetainsAll old (ended crc32 json snap flushed s)
  unfolding RetainsAll end_flush
  end_flush-Retains old s snap false hc r = rw ((flushed_through-append s.taken snap).0) r
  end_flush-Retains old s snap true hc r =
      let (same, hn, hm) = flushed_through-append s.taken snap in
      let k = flushed_through (s.taken ++ ((snap, true) ∷ [])) in
      elim (Bool-cases (ltb 0 snap.max_record_seq)) [
        | inl e ↦
            rw (e, end_flush)
              (Retains-truncate crc32 (flushed_through s.taken) snap.max_record_seq k
                (old ++ s.appended) s.st.wal hc hn hm r)
        | inr e ↦
            rw (e, end_flush)
              (Retains-mono crc32 (flushed_through s.taken) k (old ++ s.appended) s.st.wal hn r)
      ]

  Step-Retains :
      (old : List WalRecord) {s t : System D F}
      → IsCrc32 crc32
      → Step crc32 json s t
      → RetainsAll old s
      → RetainsAll old t
  unfolding RetainsAll buffer_batch
  Step-Retains old {s} hc (persist seq samples payload h₁ h₂ h₃ h₄ h₅) r =
      rw (← append_assoc old s.appended (record { record_seq = seq; payload = payload } ∷ [])) (
        Retains-append crc32 (flushed_through s.taken) seq (old ++ s.appended) s.st.wal payload r h₂
          h₃ h₄ h₅)
  Step-Retains old hc (put seq samples before after h) r = r
  Step-Retains old {s} hc (begin snap h₁ h₂) r = rw (begin_flush-wal s.st) r
  Step-Retains old {s} hc (finish snap flushed h) r = end_flush-Retains old s snap flushed hc r

  -- In every state that handlers and flusher reach from a state whose log holds the frames of
  -- records, by appends whose payloads are below 4 GiB, whose system calls succeed and for which
  -- there are sequence and file numbers left, whatever the order of their steps and whether the
  -- flushes succeed or fail: the log holds the frames of records, and among them, in order, every record that it held at first or that was
  -- appended since whose sequence number is above those of all snapshots that were flushed.
  pub Reach-Retains :
      (init : IngestState D F) (closed : Log) (recs : List WalRecord) (s : System D F)
      → IsCrc32 crc32
      → Holds crc32 init.wal closed recs
      → Reach crc32 json init s
      → Retains crc32
          (flushed_through s.taken)
          ((log_records closed ++ recs) ++ s.appended)
          s.st.wal
  unfolding RetainsAll
  Reach-Retains init closed recs s hc h start = record {
    closed = closed;
    recs = recs;
    holds = h;
    kept = ap (keep_if (is_above 0)) (sym (append-nil (log_records closed ++ recs)));
  }
  Reach-Retains init closed recs s hc h (later r st) =
      Step-Retains (log_records closed ++ recs) hc st (Reach-Retains init closed recs _ hc h r)
