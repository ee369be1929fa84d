-- ===== src/Ingest/Service/Progress.antt =====
-- A flush makes room again (src/ingest/service.rs), while the handlers go on.
use skaldberg.Base.{
  ℕ, ◌+◌, ◌*◌, ◌≡◌, ◌≤◌, ◌<◌, ap, some, List, [], ◌∷◌, arith, ok, length, length-append,
}
use skaldberg.Order.{Ord}
use skaldberg.Ingest.Types.{ValidatedSample}
use skaldberg.Ingest.Buffer.{
  Buffer, Chrono, Snapshot, take_snapshot, insert_one, insert_each, insert_batch,
}
use skaldberg.Ingest.Wal.{Bytes}
use skaldberg.Ingest.Service.Conserve.{end_flush-buffer}
use skaldberg.Ingest.Service.{
  IngestState, Json, backpressure_bytes, buffer_batch, check_backpressure, begin_flush,
}
use skaldberg.Ingest.Service.System.{System, Step, persist, put, begin, finish, began}

module _ {D F : Type 0} ⦃o : Ord D⦄ ⦃c : Chrono D⦄ where
  insert_each-bytes :
      (samples : List (ValidatedSample F)) (b : Buffer D F)
      → (insert_each samples b).bytes_estimate ≤ b.bytes_estimate + 32 * length samples
  unfolding insert_each insert_one
  insert_each-bytes [] b = omega arith
  insert_each-bytes (s ∷ samples) b = omega (arith, insert_each-bytes samples (insert_one s b))

  insert_batch-bytes :
      (seq : ℕ) (samples : List (ValidatedSample F)) (b : Buffer D F)
      → (insert_batch seq samples b).bytes_estimate ≤ b.bytes_estimate + 32 * length samples
  unfolding insert_batch
  insert_batch-bytes seq samples b = ground (
    arith,
    insert_each-bytes samples b,
    insert_each-bytes samples (record b { max_record_seq = seq }),
  )

  begin_flush-bytes :
      (st : IngestState D F) → (begin_flush st).1.buffer.bytes_estimate ≤ st.buffer.bytes_estimate
  unfolding begin_flush take_snapshot
  begin_flush-bytes st = ground arith

  begun-bytes :
      (st : IngestState D F) (snap : Snapshot D F)
      → (begin_flush st).0 ≡ some snap
      → (begin_flush st).1.buffer.bytes_estimate ≡ 0
  unfolding begin_flush take_snapshot
  begun-bytes st snap h = ground (arith, h)

  below-check_backpressure :
      (st : IngestState D F)
      → st.buffer.bytes_estimate < backpressure_bytes
      → check_backpressure st ≡ ok tt
  unfolding check_backpressure
  below-check_backpressure st h = ground arith

module _ {D F : Type 0} ⦃o : Ord D⦄ ⦃c : Chrono D⦄ (crc32 : Bytes → ℕ) (json : Json F) where
  -- Any number of steps of handlers and flusher
  pub data Steps (s : System D F) : System D F → Type 0 where
    here : Steps s s
    after : {t u : System D F} → Steps s t → Step crc32 json t u → Steps s u

  -- The bytes in the buffer are at most those of the samples put in since `s`.
  Fits : System D F → System D F → Type 0
  Fits s t = t.st.buffer.bytes_estimate + 32 * length s.acked ≤ 32 * length t.acked

  Step-Fits : (s : System D F) {t u : System D F} → Step crc32 json t u → Fits s t → Fits s u
  unfolding Fits buffer_batch
  Step-Fits s (persist seq samples payload h₁ h₂ h₃ h₄ h₅) fits = fits
  Step-Fits s {t} (put seq samples before behind h) fits =
      omega (arith, fits, insert_batch-bytes seq samples t.st.buffer, length-append t.acked samples)
  Step-Fits s {t} (begin snap h₁ h₂) fits = omega (arith, fits, begin_flush-bytes t.st)
  Step-Fits s {t} (finish snap flushed h) fits =
      omega (
        arith,
        fits,
        ap (λ (b : Buffer D F). b.bytes_estimate) (end_flush-buffer t.st snap flushed),
      )

  Steps-Fits :
      (s : System D F) (snap : Snapshot D F) (t : System D F)
      → (begin_flush s.st).0 ≡ some snap
      → Steps (began crc32 json snap s) t
      → Fits s t
  unfolding Fits
  Steps-Fits s snap t h here = omega (arith, begun-bytes s.st snap h)
  Steps-Fits s snap t h (after r st) = Step-Fits s st (Steps-Fits s snap _ h r)

  -- A flush lets requests in again. From a state in which the flusher takes a snapshot, however
  -- full the buffer is, and after any further steps of handlers, whose appends succeed, and
  -- flusher, in any order and whether the tables are still being written, were written or could
  -- not be: no request is turned away as long as the samples that were put into the buffer since
  -- the snapshot come to less than the cap, at 32 bytes each.
  pub began-check_backpressure :
      (s : System D F) (snap : Snapshot D F) (t : System D F)
      → (begin_flush s.st).0 ≡ some snap
      → Steps (began crc32 json snap s) t
      → 32 * length t.acked < 32 * length s.acked + backpressure_bytes
      → check_backpressure t.st ≡ ok tt
  unfolding Fits
  began-check_backpressure s snap t h r room =
      below-check_backpressure t.st (omega (arith, Steps-Fits s snap t h r, room))
