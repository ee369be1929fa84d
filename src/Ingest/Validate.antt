-- ===== src/Ingest/Validate.antt =====
-- src/ingest/validate.rs: the validation of one sample. The clock is an argument, as in the source;
-- `xxh3_64` and `f64` are parameters. A name is tested by its bytes: the tests accept ASCII only, and
-- every byte of a character beyond ASCII is at least 128, so this is the test of its characters.
pub mod Names
pub mod Labels
pub mod Outcome
pub mod Errors
pub mod SeriesId
use skaldberg.Base.{
  ℕ, ◌*◌, ◌/◌, Bool, false, not, ◌||◌, List, [], ◌∷◌, ◌++◌, ◌==◌, all, is_empty, if◌then◌else◌,
  Result, ok, err, ◌>>=◌,
}
use skaldberg.Base.Int.{ℤ, pos, ◌+ℤ◌, ◌-ℤ◌, ltb_ℤ, wrap_i64, saturate_i64, scale}
use skaldberg.Order.{nat_ord, list_ord}
use skaldberg.BTreeMap.{BTreeMap, insert}
use skaldberg.Text.{Text, lit, starts_with, is_ascii_alphabetic, is_ascii_alphanumeric, show_ℤ}
use skaldberg.Float.{Float}
use skaldberg.Ingest.Types.{RawSample, ValidatedSample}

abbrev pub grace_past_ms : ℤ
grace_past_ms = pos (60 * 60 * 1000)

abbrev pub grace_future_ms : ℤ
grace_future_ms = pos (5 * 60 * 1000)

pub data ValidationError : Type 0 where
  empty_metric_name : ValidationError
  invalid_metric_name : Text → ValidationError
  invalid_label_name : Text → ValidationError
  reserved_label_name : Text → ValidationError
  non_finite_value : Text → ValidationError
  timestamp_too_old : (ts now grace_ms : ℤ) → ValidationError
  timestamp_too_new : (ts now grace_ms : ℤ) → ValidationError

unfoldable pub display : ValidationError → Text
unfolding show_ℤ
display empty_metric_name = lit "metric name is empty"
display (invalid_metric_name s) =
    lit "metric name '"
    ++ s
    ++ lit "' contains invalid characters (must match [a-zA-Z_][a-zA-Z0-9_]*)"
display (invalid_label_name s) =
    lit "label name '" ++ s ++ lit "' is invalid (must match [a-zA-Z_][a-zA-Z0-9_]*)"
display (reserved_label_name s) = lit "label name '" ++ s ++ lit "' is reserved (starts with '__')"
display (non_finite_value s) = lit "value is not finite: " ++ s
display (timestamp_too_old ts now grace_ms) =
    lit "timestamp "
    ++ show_ℤ ts
    ++ lit " ms is too old: now="
    ++ show_ℤ now
    ++ lit " ms, grace="
    ++ show_ℤ grace_ms
    ++ lit " ms"
display (timestamp_too_new ts now grace_ms) =
    lit "timestamp "
    ++ show_ℤ ts
    ++ lit " ms is in the future: now="
    ++ show_ℤ now
    ++ lit " ms, grace="
    ++ show_ℤ grace_ms
    ++ lit " ms"

unfoldable pub is_valid_name : Text → Bool
is_valid_name [] = false
is_valid_name (c ∷ chars) =
    if is_ascii_alphabetic c || c == b'_'
    then all (λ c. is_ascii_alphanumeric c || c == b'_') chars
    else false

-- The bytes that are hashed: the metric, a zero byte, and `k=v` and a zero byte for each label.
label_bytes : BTreeMap Text Text → List ℕ
label_bytes [] = []
label_bytes ((k, v) ∷ labels) = k ++ (b'=' ∷ (v ++ (0 ∷ label_bytes labels)))

unfoldable pub derive_series_id : (List ℕ → ℕ) → Text → BTreeMap Text Text → ℤ
unfolding label_bytes
derive_series_id xxh3_64 metric sorted_labels =
    let h = xxh3_64 (metric ++ (0 ∷ label_bytes sorted_labels)) in wrap_i64 (pos (h / 2))

-- The loop over the labels.
unfoldable pub collect_labels :
    List (Text × Text) → BTreeMap Text Text → Result ValidationError (BTreeMap Text Text)
collect_labels [] sorted = ok sorted
collect_labels ((k, v) ∷ labels) sorted =
    let rest = collect_labels labels (insert k v sorted) in
    if starts_with (lit "__") k
    then err (reserved_label_name k)
    else if not (is_valid_name k)
    then err (invalid_label_name k)
    else rest

unfoldable pub check_metric : Text → Result ValidationError (Unit {0})
check_metric metric =
    if is_empty metric
    then err empty_metric_name
    else if not (is_valid_name metric)
    then err (invalid_metric_name metric)
    else ok tt

unfoldable pub check_ts : ℤ → ℤ → Result ValidationError (Unit {0})
check_ts ts now_ms =
    let lo = wrap_i64 (now_ms -ℤ grace_past_ms) in
    let hi = wrap_i64 (now_ms +ℤ grace_future_ms) in
    if ltb_ℤ ts lo
    then err (timestamp_too_old ts now_ms grace_past_ms)
    else if ltb_ℤ hi ts
    then err (timestamp_too_new ts now_ms grace_future_ms)
    else ok tt

module _ {F : Type 0} ⦃f : Float F⦄ where
  unfoldable pub check_value : F → Result ValidationError (Unit {0})
  check_value value =
      if not (f.is_finite value)
      then err (
          non_finite_value (
            if f.is_nan value
            then lit "NaN"
            else if f.flt f.zero value
            then lit "Infinity"
            else lit "-Infinity"))
      else ok tt

  unfoldable pub validate :
      (List ℕ → ℕ) → RawSample F → ℤ → Result ValidationError (ValidatedSample F)
  validate xxh3_64 raw now_ms = do
    _ ← check_metric raw.metric
    sorted ← collect_labels raw.labels []
    _ ← check_value raw.value
    _ ← check_ts raw.ts now_ms
    ok (record {
      series_id = derive_series_id xxh3_64 raw.metric sorted;
      metric = raw.metric;
      labels = sorted;
      ts_us = saturate_i64 (scale raw.ts 1000);
      value = raw.value;
    })
