-- ===== src/Ingest/Service/System.antt =====
-- Handlers and flusher of src/ingest/service.rs side by side. The lock of the log and the lock of
-- the buffer are taken one after the other, and neither while the tables are written, so a step is
-- what one thread does under one lock. The system calls of an append succeed.
use skaldberg.Base.{
  ℕ, ◌+◌, ◌^◌, ◌<◌, ◌≡◌, Bool, Option, none, some, List, [], ◌∷◌, ◌++◌, length, ok,
}
use skaldberg.Order.{Ord}
use skaldberg.Ingest.Types.{ValidatedSample}
use skaldberg.Ingest.Buffer.{Chrono, Snapshot}
use skaldberg.Ingest.Wal.{Bytes, WalRecord, append, well}
use skaldberg.Ingest.Service.{IngestState, Json, buffer_batch, begin_flush, end_flush}

-- `pending` are the batches that are in the log and not yet in the buffer, and `flushing` is the
-- snapshot that is being written. The last three fields record what has happened: every record that
-- was appended, every sample that went into the buffer (its request is then answered), and every
-- snapshot whose flush has ended, with its success.
pub record System (D F : Type 0) : Type 0 where
  pub st : IngestState D F
  pub pending : List (ℕ × List (ValidatedSample F))
  pub flushing : Option (Snapshot D F)
  pub appended : List WalRecord
  pub acked : List (ValidatedSample F)
  pub taken : List (Snapshot D F × Bool)

module _ {D F : Type 0} where
  abbrev pub start_of : IngestState D F → System D F
  start_of st = record {
    st = st;
    pending = [];
    flushing = none;
    appended = [];
    acked = [];
    taken = [];
  }

module _ {D F : Type 0} ⦃o : Ord D⦄ ⦃c : Chrono D⦄ (crc32 : Bytes → ℕ) (json : Json F) where
  abbrev pub persisted : ℕ → List (ValidatedSample F) → Bytes → System D F → System D F
  persisted seq samples payload s = record s {
    st = record s.st { wal = (append crc32 payload well s.st.wal).1 };
    pending = s.pending ++ ((seq, samples) ∷ []);
    appended = s.appended ++ (record { record_seq = seq; payload = payload } ∷ []);
  }

  abbrev pub inserted :
      ℕ → List (ValidatedSample F) → List (ℕ × List (ValidatedSample F)) → System D F → System D F
  inserted seq samples pending s = record s {
    st = buffer_batch crc32 json seq samples s.st;
    pending = pending;
    acked = s.acked ++ samples;
  }

  abbrev pub began : Snapshot D F → System D F → System D F
  began snap s = record s { st = (begin_flush s.st).1; flushing = some snap }

  abbrev pub ended : Snapshot D F → Bool → System D F → System D F
  ended snap flushed s = record s {
    st = (end_flush snap flushed s.st).1;
    flushing = none;
    taken = s.taken ++ ((snap, flushed) ∷ []);
  }

  pub data Step : System D F → System D F → Type 0 where
    persist :
        {s : System D F} (seq : ℕ) (samples : List (ValidatedSample F)) (payload : Bytes)
        → json.to_vec samples ≡ some payload
        → length payload < 2 ^ 32
        → s.st.wal.next_record_seq + 1 < 2 ^ 64
        → s.st.wal.file_seq + 1 < 2 ^ 64
        → (append crc32 payload well s.st.wal).0 ≡ ok seq
        → Step s (persisted seq samples payload s)
    -- The threads that wait for the buffer get its lock in any order.
    put :
        {s : System D F} (seq : ℕ) (samples : List (ValidatedSample F))
        (before after : List (ℕ × List (ValidatedSample F)))
        → s.pending ≡ before ++ ((seq, samples) ∷ after)
        → Step s (inserted seq samples (before ++ after) s)
    begin :
        {s : System D F} (snap : Snapshot D F)
        → s.flushing ≡ none
        → (begin_flush s.st).0 ≡ some snap
        → Step s (began snap s)
    finish :
        {s : System D F} (snap : Snapshot D F) (flushed : Bool)
        → s.flushing ≡ some snap
        → Step s (ended snap flushed s)

  pub data Reach (init : IngestState D F) : System D F → Type 0 where
    start : Reach init (start_of init)
    later : {s t : System D F} → Reach init s → Step s t → Reach init t
