-- ===== src/Ingest/Validate/Errors.antt =====
-- What the errors of `validate` in src/ingest/validate.rs say of the sample.
use skaldberg.Base.{
  ℕ, ◌+◌, ◌<◌, ◌≡◌, ◌≢◌, false, List, [], arith, err, inl, inr, >>=-eq-err, eq-nil_of_is_empty,
  ne-nil_of_is_empty, if◌then◌else◌,
}
use skaldberg.Base.Int.{pos, neg_part, pos_part, ◌+ℤ◌, ◌-ℤ◌}
use skaldberg.Text.{Text, lit}
use skaldberg.Text.Prefix.{HasPrefix, starts_with_iff}
use skaldberg.Float.{Float}
use skaldberg.Ingest.Types.{RawSample}
use skaldberg.Ingest.Validate.{
  ValidationError, empty_metric_name, invalid_metric_name, invalid_label_name, reserved_label_name,
  non_finite_value, timestamp_too_old, timestamp_too_new, is_valid_name, collect_labels,
  check_metric, check_ts, check_value, validate, grace_past_ms, grace_future_ms,
}
use skaldberg.Ingest.Validate.Names.{IsName, is_valid_name_iff}
use skaldberg.Ingest.Validate.Labels.{Occurs, LabelFault, collect_labels-LabelFault}
use skaldberg.Ingest.Validate.Outcome.{IsClock, lo_exact, hi_exact}

module _ {F : Type 0} ⦃f : Float F⦄ (raw : RawSample F) (now : ℕ) where
  -- The fault that an error names is a fault of the sample.
  abbrev pub Explains : ValidationError → Type 0
  Explains empty_metric_name = raw.metric ≡ []
  Explains (invalid_metric_name s) = (s ≡ raw.metric) × (raw.metric ≢ []) × (¬ IsName raw.metric)
  Explains (invalid_label_name k) = Occurs k raw.labels × (¬ IsName k)
  Explains (reserved_label_name k) = Occurs k raw.labels × HasPrefix (lit "__") k
  Explains (non_finite_value s) =
      (f.is_finite raw.value ≡ false)
      × (s ≡ (
          if f.is_nan raw.value
          then lit "NaN"
          else if f.flt f.zero raw.value
          then lit "Infinity"
          else lit "-Infinity"))
  Explains (timestamp_too_old t n g) =
      (t ≡ raw.ts)
      × (n ≡ pos now)
      × (g ≡ grace_past_ms)
      × (pos_part raw.ts + 3_600_000 < now + neg_part raw.ts)
  Explains (timestamp_too_new t n g) =
      (t ≡ raw.ts)
      × (n ≡ pos now)
      × (g ≡ grace_future_ms)
      × (now + neg_part raw.ts + 300_000 < pos_part raw.ts)

  not_IsName : (s : Text) → is_valid_name s ≡ false → ¬ IsName s
  not_IsName s h n = ground (arith, (is_valid_name_iff s).1 n)

  metric_explained : (e : ValidationError) → check_metric raw.metric ≡ err e → Explains e
  unfolding check_metric
  metric_explained empty_metric_name h = eq-nil_of_is_empty raw.metric (ground arith)
  metric_explained (invalid_metric_name s) h = (
    ground arith,
    ne-nil_of_is_empty raw.metric (ground arith),
    not_IsName raw.metric (ground arith),
  )
  metric_explained _ h = ground arith

  labels_explained : (e : ValidationError) → LabelFault e raw.labels → Explains e
  labels_explained (reserved_label_name k) h = (h.0, (starts_with_iff (lit "__") k).0 h.1)
  labels_explained (invalid_label_name k) h = (h.0, not_IsName k h.1)
  labels_explained _ h = absurd h

  value_explained : (e : ValidationError) → check_value raw.value ≡ err e → Explains e
  unfolding check_value
  value_explained (non_finite_value s) h = ground arith
  value_explained _ h = ground arith

  ts_explained :
      (e : ValidationError) → IsClock now → check_ts raw.ts (pos now) ≡ err e → Explains e
  unfolding check_ts ◌-ℤ◌ ◌+ℤ◌
  ts_explained (timestamp_too_old t n g) c h = ground (arith, lo_exact now c, hi_exact now c)
  ts_explained (timestamp_too_new t n g) c h = ground (arith, lo_exact now c, hi_exact now c)
  ts_explained _ c h = ground arith

  -- Under a clock before the year 287000, an error of `validate` names a fault that the sample has:
  -- an empty or ill-formed metric name, a label of the sample whose name is ill formed or begins
  -- with `__`, a value that is not finite (and which kind it is), or a timestamp before or after
  -- the window, with the sample's timestamp, the clock and the grace that was applied.
  pub validate_err :
      (xxh3_64 : List ℕ → ℕ) (e : ValidationError)
      → IsClock now
      → validate xxh3_64 raw (pos now) ≡ err e
      → Explains e
  unfolding validate
  validate_err xxh3_64 e c h = elim (>>=-eq-err (check_metric raw.metric) _ e h) [
    | inl p ↦ metric_explained e p
    | inr (u, p, h₁) ↦ elim (>>=-eq-err (collect_labels raw.labels []) _ e h₁) [
      | inl p ↦ labels_explained e (collect_labels-LabelFault raw.labels [] e p)
      | inr (sorted, p, h₂) ↦ elim (>>=-eq-err (check_value raw.value) _ e h₂) [
        | inl p ↦ value_explained e p
        | inr (v, p, h₃) ↦ elim (>>=-eq-err (check_ts raw.ts (pos now)) _ e h₃) [
          | inl p ↦ ts_explained e c p
          | inr (w, p, h₄) ↦ cc
        ]
      ]
    ]
  ]
