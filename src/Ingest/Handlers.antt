-- ===== src/Ingest/Handlers.antt =====
-- `run_ingest` and `run_remote_write` of src/handlers.rs. The clock is an argument, and so is the
-- outcome of the append's system calls; an error is its status code, the message left out.
pub mod Counts
use skaldberg.Base.{
  ℕ, ◌+◌, Bool, true, false, Option, none, some, List, [], ◌∷◌, length, Result, ok, err, is_empty,
  if◌then◌else◌,
}
use skaldberg.Base.Int.{ℤ}
use skaldberg.Order.{Ord}
use skaldberg.Text.{Text}
use skaldberg.Float.{Float}
use skaldberg.Ingest.Types.{
  RawSample, ValidatedSample, RejectedSample, IngestRequest, IngestResponse,
}
use skaldberg.Ingest.Validate.{validate, display}
use skaldberg.Ingest.Buffer.{Chrono}
use skaldberg.Ingest.Wal.{Bytes, Outcome}
use skaldberg.Ingest.RemoteWrite.{Codec, decode_write_request, flatten_write_request}
use skaldberg.Ingest.Service.{IngestState, Json, check_backpressure, append_validated}

pub data Status : Type 0 where
  bad_request : Status
  service_unavailable : Status
  internal_server_error : Status

module _ {F : Type 0} ⦃f : Float F⦄ (xxh3_64 : List ℕ → ℕ) (now_ms : ℤ) where
  -- The loop over the samples, from the index `i` on
  unfoldable pub validate_each :
      ℕ → List (RawSample F) → List (ValidatedSample F) × List RejectedSample
  validate_each i [] = ([], [])
  validate_each i (raw ∷ samples) =
      let (accepted, rejected) = validate_each (i + 1) samples in
      elim (validate xxh3_64 raw now_ms) [
        | ok v ↦ (v ∷ accepted, rejected)
        | err e ↦ (accepted, record { index = i; reason = display e } ∷ rejected)
      ]

module _ {D F : Type 0} ⦃o : Ord D⦄ ⦃c : Chrono D⦄ ⦃f : Float F⦄ (crc32 : Bytes → ℕ) (json : Json F)
    (xxh3_64 : List ℕ → ℕ) (now_ms : ℤ) (outcome : Outcome) where
  -- `append_validated` when there is anything to append
  unfoldable pub append_accepted :
      List (ValidatedSample F)
      → Status
      → IngestState D F
      → Result Status (Unit {0}) × IngestState D F
  append_accepted accepted failure st =
      if is_empty accepted
      then (ok tt, st)
      else (let (res, st') = append_validated crc32 json accepted outcome st in
          (elim res [ ok seq ↦ ok tt | err e ↦ err failure ], st'))

  unfoldable pub run_ingest :
      IngestRequest F → IngestState D F → Result Status IngestResponse × IngestState D F
  run_ingest req st = elim (check_backpressure st) [
    | err n ↦ (err service_unavailable, st)
    | ok u ↦
        let (accepted, rejected) = validate_each xxh3_64 now_ms 0 req.samples in
        let (res, st') = append_accepted accepted internal_server_error st in
        (
          elim res [
            | ok u' ↦ ok (record { accepted = length accepted; rejected = rejected })
            | err e ↦ err e
          ],
          st',
        )
  ]

  unfoldable pub run_remote_write :
      {S P : Type 0}
      → Codec F S P
      → List ℕ
      → IngestState D F
      → Result Status (Unit {0}) × IngestState D F
  run_remote_write codec body st = elim (check_backpressure st) [
    | err n ↦ (err service_unavailable, st)
    | ok u ↦ elim (decode_write_request codec body) [
      | err e ↦ (err bad_request, st)
      | ok req ↦
          let (raws, stats) = flatten_write_request req in
          let (accepted, rejected) = validate_each xxh3_64 now_ms 0 raws in
          append_accepted accepted service_unavailable st
    ]
  ]
