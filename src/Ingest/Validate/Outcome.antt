-- ===== src/Ingest/Validate/Outcome.antt =====
-- Which samples `validate` of src/ingest/validate.rs accepts, what it makes of them, and what each
-- of its errors says.
use skaldberg.Base.{
  ℕ, ◌+◌, ◌≤◌, ◌≡◌, ◌↔◌, true, List, [], ◌∷◌, arith, All, All-map, ok, Bool-cases, inl, inr,
  >>=-eq-ok,
}
use skaldberg.Base.Int.{
  ℤ, pos, ◌+ℤ◌, ◌-ℤ◌, scale, wrap_i64, wrap_i64-eq_self, saturate_i64, saturate_i64-eq_self,
  neg_part, pos_part,
}
use skaldberg.Order.{nat_ord, list_ord}
use skaldberg.BTreeMap.{from_iter}
use skaldberg.Text.{Text, lit, starts_with}
use skaldberg.Text.Prefix.{HasPrefix, starts_with_iff}
use skaldberg.Float.{Float}
use skaldberg.Ingest.Types.{RawSample, ValidatedSample}
use skaldberg.Ingest.Validate.{
  is_valid_name, collect_labels, check_metric, check_ts, check_value, validate, derive_series_id,
  grace_past_ms, grace_future_ms,
}
use skaldberg.Ingest.Validate.Names.{IsName, is_valid_name_iff}
use skaldberg.Ingest.Validate.Labels.{Passes, collect_labels-Passes, collect_labels-from_iter}

-- A clock before the year 287000, for which the conversion to microseconds is exact.
abbrev pub IsClock : ℕ → Type 0
IsClock now = now ≤ 9_000_000_000_000_000

-- `__` begins no label name, and every name is well formed.
abbrev pub IsLabel : Text × Text → Type 0
IsLabel (k, v) = (¬ HasPrefix (lit "__") k) × IsName k

abbrev pub IsInWindow : ℤ → ℕ → Type 0
IsInWindow ts now =
    (now + neg_part ts ≤ pos_part ts + 3_600_000) × (pos_part ts ≤ now + neg_part ts + 300_000)

pub lo_exact :
    (now : ℕ) → IsClock now → wrap_i64 (pos now -ℤ grace_past_ms) ≡ pos now -ℤ grace_past_ms
unfolding ◌-ℤ◌
lo_exact now h = wrap_i64-eq_self _ (grind arith)

pub hi_exact :
    (now : ℕ) → IsClock now → wrap_i64 (pos now +ℤ grace_future_ms) ≡ pos now +ℤ grace_future_ms
unfolding ◌+ℤ◌
hi_exact now h = wrap_i64-eq_self _ (grind arith)

pub check_ts_iff :
    (ts : ℤ) (now : ℕ) → IsClock now → (check_ts ts (pos now) ≡ ok tt) ↔ IsInWindow ts now
unfolding check_ts
check_ts_iff ts now h =
    rw (lo_exact now h, hi_exact now h)
      (λ e. unfold ◌-ℤ◌ ◌+ℤ◌ in ground arith, λ w. unfold ◌-ℤ◌ ◌+ℤ◌ in ground arith)

-- What validation makes of a sample that it accepts.
abbrev pub accepted : {F : Type 0} → (List ℕ → ℕ) → RawSample F → ValidatedSample F
accepted xxh3_64 raw = record {
  series_id = derive_series_id xxh3_64 raw.metric (from_iter raw.labels []);
  metric = raw.metric;
  labels = from_iter raw.labels [];
  ts_us = scale raw.ts 1000;
  value = raw.value;
}

-- The documented rules.
pub record IsAcceptable {F : Type 0} ⦃f : Float F⦄ (raw : RawSample F) (now : ℕ) : Type 0 where
  pub name : IsName raw.metric
  pub labels : All IsLabel raw.labels
  pub finite : f.is_finite raw.value ≡ true
  pub window : IsInWindow raw.ts now

microseconds :
    (ts : ℤ) (now : ℕ)
    → IsClock now
    → IsInWindow ts now
    → saturate_i64 (scale ts 1000) ≡ scale ts 1000
unfolding scale
microseconds ts now h w = saturate_i64-eq_self _ (grind arith)

check_metric_iff : (s : Text) → (check_metric s ≡ ok tt) ↔ (is_valid_name s ≡ true)
unfolding check_metric is_valid_name
check_metric_iff [] = (λ h. cc, λ h. cc)
check_metric_iff (c ∷ cs) = ground arith

IsLabel-iff : (kv : Text × Text) → Passes kv ↔ IsLabel kv
IsLabel-iff (k, v) = (
  λ h. (λ p. ground (arith, (starts_with_iff (lit "__") k).1 p, h.0), (is_valid_name_iff k).0 h.1),
  λ h. (
    elim (Bool-cases (starts_with (lit "__") k)) [
      | inl e ↦ absurd (h.0 ((starts_with_iff (lit "__") k).0 e))
      | inr e ↦ e
    ],
    (is_valid_name_iff k).1 h.1,
  ),
)

check_value_iff :
    {F : Type 0} ⦃f : Float F⦄ (v : F) → (check_value v ≡ ok tt) ↔ (f.is_finite v ≡ true)
unfolding check_value
check_value_iff ⦃f⦄ v = ground arith

module _ {F : Type 0} ⦃f : Float F⦄ (xxh3_64 : List ℕ → ℕ) (raw : RawSample F) (now : ℕ) where
  validate-accepted :
      IsClock now
      → IsAcceptable raw now
      → validate xxh3_64 raw (pos now) ≡ ok (accepted xxh3_64 raw)
  unfolding validate
  validate-accepted h a =
      let labels = All-map IsLabel Passes raw.labels (λ kv. (IsLabel-iff kv).1) a.labels in
      rw (
        (check_metric_iff raw.metric).1 ((is_valid_name_iff raw.metric).1 a.name),
        collect_labels-from_iter raw.labels [] labels,
        (check_value_iff raw.value).1 a.finite,
        (check_ts_iff raw.ts now h).1 a.window,
        microseconds raw.ts now h a.window,
      )

  validate-IsAcceptable :
      (s : ValidatedSample F)
      → IsClock now
      → validate xxh3_64 raw (pos now) ≡ ok s
      → IsAcceptable raw now
  unfolding validate
  validate-IsAcceptable s h e =
      let (u, e₁, r₁) = >>=-eq-ok (check_metric raw.metric) _ s e in
      let (sorted, e₂, r₂) = >>=-eq-ok (collect_labels raw.labels []) _ s r₁ in
      let (v, e₃, r₃) = >>=-eq-ok (check_value raw.value) _ s r₂ in
      let (w, e₄, r₄) = >>=-eq-ok (check_ts raw.ts (pos now)) _ s r₃ in
      record {
        name = (is_valid_name_iff raw.metric).0 ((check_metric_iff raw.metric).0 e₁);
        labels =
            All-map Passes IsLabel raw.labels (λ kv. (IsLabel-iff kv).0)
              (collect_labels-Passes raw.labels [] sorted e₂).1;
        finite = (check_value_iff raw.value).0 e₃;
        window = (check_ts_iff raw.ts now h).0 e₄;
      }

  -- Under a clock before the year 287000, `validate` accepts a sample exactly when its metric and
  -- label names match `[a-zA-Z_][a-zA-Z0-9_]*`, no label name begins with `__`, the value is finite
  -- and the timestamp lies from one hour before to five minutes after the clock; and the accepted
  -- sample has the labels in key order, the exact timestamp in microseconds, and the id of its
  -- metric and sorted labels.
  pub validate_iff :
      (s : ValidatedSample F)
      → IsClock now
      → (validate xxh3_64 raw (pos now) ≡ ok s)
        ↔ (IsAcceptable raw now × (s ≡ accepted xxh3_64 raw))
  validate_iff s h = (
    λ e. let a = validate-IsAcceptable s h e in (a, cc (validate-accepted h a)),
    λ (a, p). rw p (validate-accepted h a),
  )
