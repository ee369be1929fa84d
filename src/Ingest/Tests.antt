-- ===== src/Ingest/Tests.antt =====
-- The theorems about src/ingest applied to concrete inputs.
use skaldberg.Base.{
  ℕ, ◌≡◌, ◌↔◌, ◌%◌, ◌^◌, length, refl, Option, none, some, List, [], ◌∷◌, ◌++◌, arith, ok, keep_if,
  if◌then◌else◌,
}
use skaldberg.Base.Int.{pos, wrap_i64, ◌-ℤ◌, ◌+ℤ◌, scale, saturate_i64}
use skaldberg.Order.{int_ord, nat_ord, list_ord}
use skaldberg.HashSet.{contains}
use skaldberg.BTreeMap.{BTreeMap, insert, get}
use skaldberg.Text.{lit, starts_with}
use skaldberg.Ingest.Validate.{
  validate, check_metric, check_ts, check_value, collect_labels, is_valid_name, reserved_label_name,
}
use skaldberg.Ingest.Validate.Outcome.{IsAcceptable, accepted, validate_iff}
use skaldberg.Ingest.Validate.Errors.{Explains, validate_err}
use skaldberg.Ingest.Validate.SeriesId.{validate-label_order}
use skaldberg.Ingest.Buffer.{take_snapshot, with_known_series, insert_batch, insert_one}
use skaldberg.Ingest.Buffer.Points.{points_at, points_for, points_at-insert_batch}
use skaldberg.Ingest.Buffer.Series.{
  or_else, first_seen, new-insert_batch, take_snapshot-insert_batch,
}
use skaldberg.Ingest.Buffer.Invariant.{IsValid, insert_batch-IsValid, with_known_series-IsValid}
use skaldberg.Ingest.Wal.{
  to_le_bytes, from_le_bytes, read_all, truncate_through, append, well, open_with_rotation,
}
use skaldberg.Ingest.Wal.Reading.{from_le_bytes-to_le_bytes}
use skaldberg.Ingest.Wal.Replay.{encode, log_records}
use skaldberg.Ingest.Wal.ReplayAll.{read_all-encode}
use skaldberg.Ingest.Wal.Append.{Holds, Appended, append-Holds, record_of}
use skaldberg.Ingest.Wal.Truncate.{is_above, truncate_through-Holds}
use skaldberg.Ingest.Wal.Open.{open_with_rotation-Holds}
use skaldberg.Ingest.RemoteWrite.{flatten_write_request}
use skaldberg.Ingest.RemoteWrite.Flatten.{AreFlat, unnamed, flatten_write_request-AreFlat}
use skaldberg.Ingest.Service.{append_validated, replay_wal}
use skaldberg.Ingest.Service.Recover.{IsDurable, append_validated-IsDurable}
use skaldberg.Ingest.Service.Restart.{append_all, insert_batches, replay_wal-append_all}
use skaldberg.Ingest.Wal.Fuel.{read_all_total}
use skaldberg.Ingest.Wal.{WalRecord, WalReadError}
use skaldberg.Ingest.Fixtures.{
  num_float, int_chrono, hash, good, swapped, reserved, sample, seeded, crc, first, second, closed,
  writer, writer-Holds, json, fresh, fresh-Holds, fresh-IsDurable, write_request, same_labels,
}

validate_iff_example :
    (validate hash good (pos 1000) ≡ ok (accepted hash good))
    ↔ (IsAcceptable good 1000 × (accepted hash good ≡ accepted hash good))
validate_iff_example = validate_iff hash good 1000 (accepted hash good) (omega arith)

validate_err_example : Explains reserved 1000 (reserved_label_name (lit "__x"))
unfolding validate check_metric check_ts check_value collect_labels is_valid_name starts_with insert
validate_err_example =
    validate_err reserved 1000 hash (reserved_label_name (lit "__x")) (omega arith) refl

points_at-insert_batch_example :
    points_at (pos 1) (pos 5) (insert_batch 3 (sample ∷ []) seeded).by_day
    ≡ points_at (pos 1) (pos 5) seeded.by_day ++ points_for (pos 1) (pos 5) (sample ∷ [])
points_at-insert_batch_example = points_at-insert_batch (pos 1) (pos 5) 3 (sample ∷ []) seeded

new-insert_batch_example :
    get (pos 5) (insert_batch 3 (sample ∷ []) seeded).new_series
    ≡ or_else
        (get (pos 5) seeded.new_series)
        (if contains (pos 5) seeded.known_series then none else first_seen (pos 5) (sample ∷ []))
new-insert_batch_example = new-insert_batch (pos 5) 3 (sample ∷ []) seeded

insert_batch-IsValid_example : IsValid (insert_batch 3 (sample ∷ []) seeded)
insert_batch-IsValid_example =
    insert_batch-IsValid 3 (sample ∷ []) seeded (with_known_series-IsValid (pos 7 ∷ []))

from_le_bytes-to_le_bytes_example : from_le_bytes (to_le_bytes 4 70000) ≡ 70000
from_le_bytes-to_le_bytes_example = from_le_bytes-to_le_bytes 4 70000 (omega arith)

read_all-encode_example :
    read_all crc (encode crc (closed ++ ((1, second ∷ []) ∷ []))) ≡ some (first ∷ second ∷ [], none)
read_all-encode_example =
    read_all-encode crc (closed ++ ((1, second ∷ []) ∷ [])) (λ bytes. omega arith)
      (((omega arith, omega arith), tt), (((omega arith, omega arith), tt), tt))

append-Holds_example :
    Appended crc writer
      ((first ∷ second ∷ []) ++ (record_of crc writer (30 ∷ []) ∷ []))
      (append crc (30 ∷ []) well writer)
append-Holds_example =
    append-Holds crc writer closed (second ∷ []) (30 ∷ []) writer-Holds (omega arith) (omega arith)
      (omega arith)

truncate_through-Holds_example :
    (left : BTreeMap ℕ (List WalRecord)) × Holds crc (truncate_through 1 writer) left (second ∷ [])
    × (keep_if (is_above 1) (log_records left) ≡ keep_if (is_above 1) (log_records closed))
truncate_through-Holds_example =
    truncate_through-Holds crc 1 writer closed (second ∷ []) (λ bytes. omega arith) writer-Holds

open_with_rotation-Holds_example :
    Holds crc
      (open_with_rotation (encode crc (closed ++ ((1, second ∷ []) ∷ []))) 100)
      closed
      (second ∷ [])
open_with_rotation-Holds_example =
    open_with_rotation-Holds crc 100 2 1 closed (second ∷ []) (λ bytes. omega arith)
      (((omega arith, omega arith), tt), tt) ((omega arith, omega arith), tt) (omega arith, tt)
      (omega arith, (omega arith, omega arith)) (omega arith)

append_validated-IsDurable_example :
    ((append_validated crc json (sample ∷ []) well fresh).0 ≡ ok 1)
    × ((append_validated crc json (sample ∷ []) well fresh).1.buffer
        ≡ insert_batch 1 (sample ∷ []) fresh.buffer)
    × IsDurable crc json seeded (append_validated crc json (sample ∷ []) well fresh).1
append_validated-IsDurable_example =
    append_validated-IsDurable crc json seeded fresh (sample ∷ []) (1 ∷ []) fresh-IsDurable refl
      refl (omega arith) (omega arith) (omega arith)

replay_wal-append_all_example :
    ((append_all crc json ((sample ∷ []) ∷ (sample ∷ []) ∷ []) fresh).buffer
      ≡ insert_batches 1 ((sample ∷ []) ∷ (sample ∷ []) ∷ []) fresh.buffer)
    × (n : ℕ) × (replay_wal crc json
          (append_all crc json ((sample ∷ []) ∷ (sample ∷ []) ∷ []) fresh).wal.dir
          fresh.buffer
        ≡ some (insert_batches 1 ((sample ∷ []) ∷ (sample ∷ []) ∷ []) fresh.buffer, n))
replay_wal-append_all_example =
    replay_wal-append_all crc json ((sample ∷ []) ∷ (sample ∷ []) ∷ []) fresh (λ bytes. omega arith)
      fresh-Holds ((1 ∷ [], refl, refl, omega arith), ((1 ∷ [], refl, refl, omega arith), tt))
      (omega arith) (omega arith)

take_snapshot-insert_batch_example :
    get
      (pos 5)
      (insert_batch 4
        (sample ∷ [])
        (take_snapshot (insert_batch 3 (sample ∷ []) seeded)).1).new_series
    ≡ none
unfolding insert_batch insert_one insert contains take_snapshot get with_known_series
take_snapshot-insert_batch_example =
    take_snapshot-insert_batch (pos 5)
      (record { series_id = pos 5; metric = lit "up"; labels = [] }) 4 (sample ∷ [])
      (insert_batch 3 (sample ∷ []) seeded) refl

read_all_total_example :
    (c : List WalRecord × Option WalReadError) × (read_all crc ((0, 1 ∷ 2 ∷ []) ∷ []) ≡ some c)
read_all_total_example = read_all_total crc ((0, 1 ∷ 2 ∷ []) ∷ [])

flatten_write_request-AreFlat_example :
    AreFlat write_request.timeseries (flatten_write_request write_request).0
    × ((flatten_write_request write_request).1.series_total ≡ 1)
    × ((flatten_write_request write_request).1.series_dropped_no_name
        ≡ unnamed write_request.timeseries % 2 ^ 64)
    × ((flatten_write_request write_request).1.samples_emitted
        ≡ length (flatten_write_request write_request).0 % 2 ^ 64)
flatten_write_request-AreFlat_example = flatten_write_request-AreFlat write_request

validate-label_order_example :
    validate hash (record good { labels = swapped }) (pos 1000) ≡ ok (accepted hash good)
unfolding validate check_metric check_ts check_value collect_labels is_valid_name starts_with insert
    get wrap_i64 ◌-ℤ◌ ◌+ℤ◌ scale saturate_i64
validate-label_order_example =
    validate-label_order hash good swapped 1000 (accepted hash good) (omega arith)
      (refl, (refl, tt)) (refl, (refl, tt)) same_labels refl
