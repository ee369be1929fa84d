-- ===== src/Ingest/Handlers/Counts.antt =====
-- What the handler `run_ingest` of src/handlers.rs reports and does.
use skaldberg.Base.{
  ℕ, ◌+◌, ◌-◌, ◌≡◌, ◌≤◌, ◌<◌, ◌==◌, refl, ap, ◌∙◌, Bool-cases, Option, none, some, List, [], ◌∷◌,
  arith, length, Result, ok, err, inl, inr, Result-cases, subst, leb, ltb, err-ne-ok, ok-inj,
  if◌then◌else◌,
}
use skaldberg.Base.Int.{ℤ}
use skaldberg.Order.{Ord}
use skaldberg.Text.{Text}
use skaldberg.Float.{Float}
use skaldberg.Ingest.Types.{
  RawSample, ValidatedSample, RejectedSample, IngestRequest, IngestResponse,
}
use skaldberg.Ingest.Validate.{validate, display}
use skaldberg.Ingest.Buffer.{Chrono}
use skaldberg.Ingest.Wal.{Bytes, Outcome}
use skaldberg.Ingest.Service.{
  IngestState, Json, check_backpressure, backpressure_bytes, append_validated,
}
use skaldberg.Ingest.Handlers.{
  validate_each, run_ingest, append_accepted, Status, internal_server_error,
}

-- The reason that is reported for the index `i`
abbrev pub reason_at : ℕ → List RejectedSample → Option Text
reason_at i [] = none
reason_at i (r ∷ rejected) = if r.index == i then some r.reason else reason_at i rejected

-- The indices grow, from `lo` on.
abbrev pub Grows : ℕ → List RejectedSample → Type 0
Grows lo [] = Unit
Grows lo (r ∷ rejected) = (lo ≤ r.index) × Grows (r.index + 1) rejected

Grows-mono :
    (lo hi : ℕ) (rejected : List RejectedSample) → lo ≤ hi → Grows hi rejected → Grows lo rejected
Grows-mono lo hi [] h g = tt
Grows-mono lo hi (r ∷ rejected) h g = (omega (arith, g.0), g.1)

module _ {F : Type 0} ⦃f : Float F⦄ (xxh3_64 : List ℕ → ℕ) (now_ms : ℤ) where
  abbrev pub fault_of : RawSample F → Option Text
  fault_of raw = elim (validate xxh3_64 raw now_ms) [ ok v ↦ none | err e ↦ some (display e) ]

  -- What is wrong with the sample at an index, if there is one and something is
  abbrev pub fault_at : ℕ → List (RawSample F) → Option Text
  fault_at i [] = none
  fault_at i (raw ∷ samples) = if i == 0 then fault_of raw else fault_at (i - 1) samples

  -- The samples that `validate` accepts, in order and as it returns them
  abbrev pub valid_of : List (RawSample F) → List (ValidatedSample F)
  valid_of [] = []
  valid_of (raw ∷ samples) = elim (validate xxh3_64 raw now_ms) [
    | ok v ↦ v ∷ valid_of samples
    | err e ↦ valid_of samples
  ]

  validate_each-valid_of :
      (i : ℕ) (samples : List (RawSample F))
      → (validate_each xxh3_64 now_ms i samples).0 ≡ valid_of samples
  unfolding validate_each
  validate_each-valid_of i [] = refl
  validate_each-valid_of i (raw ∷ samples) = elim (Result-cases (validate xxh3_64 raw now_ms)) [
    | inl (v, e) ↦
        rw (e, validate_each)
          (rw (e, valid_of) (ap (◌∷◌ v) (validate_each-valid_of (i + 1) samples)))
    | inr (x, e) ↦ rw (e, validate_each) (rw (e, valid_of) (validate_each-valid_of (i + 1) samples))
  ]

  validate_each-reasons :
      (i j : ℕ) (samples : List (RawSample F))
      → reason_at j (validate_each xxh3_64 now_ms i samples).1
        ≡ (if ltb j i then none else fault_at (j - i) samples)
  unfolding validate_each
  validate_each-reasons i j [] = ground arith
  validate_each-reasons i j (raw ∷ samples) =
      let ih = validate_each-reasons (i + 1) j samples in
      let step : fault_at (j - (i + 1)) samples ≡ fault_at (j - i - 1) samples =
        ap (λ n. fault_at n samples) (omega arith) in
      elim (Result-cases (validate xxh3_64 raw now_ms)) [
        | inl (v, e) ↦ rw (e, validate_each) (ground (arith, ih, step, e))
        | inr (x, e) ↦ rw (e, validate_each) (ground (arith, ih, step, e))
      ]

  validate_each-Grows :
      (i : ℕ) (samples : List (RawSample F)) → Grows i (validate_each xxh3_64 now_ms i samples).1
  unfolding validate_each
  validate_each-Grows i [] = tt
  validate_each-Grows i (raw ∷ samples) =
      let rest = validate_each-Grows (i + 1) samples in
      elim (Result-cases (validate xxh3_64 raw now_ms)) [
        | inl (v, e) ↦ rw (e, validate_each) (Grows-mono i (i + 1) _ (omega arith) rest)
        | inr (x, e) ↦ rw (e, validate_each) (omega arith, rest)
      ]

  from_zero :
      (i : ℕ) (samples : List (RawSample F))
      → (if ltb i 0 then none else fault_at (i - 0) samples) ≡ fault_at i samples
  from_zero i samples =
      let same : fault_at (i - 0) samples ≡ fault_at i samples =
        ap (λ n. fault_at n samples) (omega arith) in
      ground (arith, same)

  -- The report of a request: the number of the valid samples, and for every other sample, in order,
  -- its index and what is wrong with it.
  abbrev pub Reports : List (RawSample F) → IngestResponse → Type 0
  Reports samples resp =
      (resp.accepted ≡ length (valid_of samples))
      × ((i : ℕ) → reason_at i resp.rejected ≡ fault_at i samples)
      × Grows 0 resp.rejected

  reported :
      (samples : List (RawSample F)) (resp : IngestResponse)
      → record {
        accepted = length (validate_each xxh3_64 now_ms 0 samples).0;
        rejected = (validate_each xxh3_64 now_ms 0 samples).1;
      }
        ≡ resp
      → Reports samples resp
  reported samples resp h = subst (Reports samples) h (
    ap length (validate_each-valid_of 0 samples),
    λ i. validate_each-reasons 0 i samples ∙ from_zero i samples,
    validate_each-Grows 0 samples,
  )

module _ {D F : Type 0} ⦃o : Ord D⦄ ⦃c : Chrono D⦄ ⦃f : Float F⦄ (crc32 : Bytes → ℕ) (json : Json F)
    (xxh3_64 : List ℕ → ℕ) (now_ms : ℤ) (outcome : Outcome) where
  -- Nothing is done for no samples, and else they are appended, without an error.
  abbrev pub IsAppended : List (ValidatedSample F) → IngestState D F → IngestState D F → Type 0
  IsAppended [] st st' = st' ≡ st
  IsAppended (v ∷ accepted) st st' =
      (seq : ℕ) × (append_validated crc32 json (v ∷ accepted) outcome st ≡ (ok seq, st'))

  append_accepted-IsAppended :
      (accepted : List (ValidatedSample F)) (failure : Status) (st : IngestState D F)
      → (append_accepted crc32 json xxh3_64 now_ms outcome accepted failure st).0 ≡ ok tt
      → IsAppended accepted st
          (append_accepted crc32 json xxh3_64 now_ms outcome accepted failure st).1
  unfolding append_accepted
  append_accepted-IsAppended [] failure st h = refl
  append_accepted-IsAppended (v ∷ accepted) failure st h =
      let r = append_validated crc32 json (v ∷ accepted) outcome st in
      elim (Result-cases r.0) [
        | inl (seq, e) ↦ (seq, λ i. (e i, r.1))
        | inr (x, e) ↦ absurd (err-ne-ok (rw (e, append_accepted) at h))
      ]

  accepted_and_reported :
      (samples : List (RawSample F)) (st : IngestState D F) (resp : IngestResponse)
      (res : Result Status (Unit {0}))
      → (elim res as (λ x. Result Status IngestResponse) [
        | ok u ↦ ok (record {
          accepted = length (validate_each xxh3_64 now_ms 0 samples).0;
          rejected = (validate_each xxh3_64 now_ms 0 samples).1;
        })
        | err e ↦ err e
      ])
        ≡ ok resp
      → (res ≡ ok tt) × Reports xxh3_64 now_ms samples resp
  accepted_and_reported samples st resp (err e) h = absurd (err-ne-ok h)
  accepted_and_reported samples st resp (ok u) h =
      (refl, reported xxh3_64 now_ms samples resp (ok-inj h))

  -- When `run_ingest` answers with success: the buffer was below its cap; `accepted` is the number of
  -- the samples that `validate` accepts; `rejected` has, in the order of the request, the index of
  -- every other sample with what is wrong with it, and nothing else; and the accepted samples, in
  -- order, were appended by `append_validated` without an error, whose state is the one left, or
  -- there were none and the state is left as it was.
  pub run_ingest-ok :
      (req : IngestRequest F) (st : IngestState D F) (resp : IngestResponse)
      → (run_ingest crc32 json xxh3_64 now_ms outcome req st).0 ≡ ok resp
      → (st.buffer.bytes_estimate < backpressure_bytes)
        × Reports xxh3_64 now_ms req.samples resp
        × IsAppended
            (valid_of xxh3_64 now_ms req.samples)
            st
            (run_ingest crc32 json xxh3_64 now_ms outcome req st).1
  unfolding run_ingest check_backpressure
  run_ingest-ok req st resp h =
      elim (Bool-cases (leb backpressure_bytes st.buffer.bytes_estimate)) [
        | inl e ↦ absurd (err-ne-ok (rw (e, run_ingest) at h))
        | inr e ↦
            let accepted = (validate_each xxh3_64 now_ms 0 req.samples).0 in
            let done =
              append_accepted crc32 json xxh3_64 now_ms outcome accepted internal_server_error st in
            let (success, report) =
              accepted_and_reported req.samples st resp done.0 (rw (e, run_ingest) at h) in
            (
              ground arith,
              report,
              rw (e, run_ingest)
                  (rw (← validate_each-valid_of xxh3_64 now_ms 0 req.samples)
                    (append_accepted-IsAppended accepted internal_server_error st success)),
            )
      ]
