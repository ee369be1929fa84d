-- ===== src/Prom/Api/Durations.antt =====
-- The durations that src/prometheus.rs reads.
use skaldberg.Base.{
  ℕ, ◌*◌, ◌≡◌, ◌⊎◌, ◌↔◌, refl, sym, ap, ◌∙◌, false, Bool-cases, inl, inr, none, some, Option-cases,
  [], ◌∷◌, ◌++◌, ◌==◌, arith, if◌then◌else◌, Result, ok, err, ok-inj, err-ne-ok,
}
use skaldberg.Base.Int.{ℤ}
use skaldberg.Text.{Text}
use skaldberg.Text.Trim.{trim}
use skaldberg.Float.{Float}
use skaldberg.Prom.Engine.{PromError, bad_data, panicked}
use skaldberg.Prom.Api.{split_last, is_continuation, in_unit, scaled, with_unit, parse_duration_us}

-- The microseconds of a unit: a second, a minute, an hour, a day
abbrev pub IsUnit : ℕ → ℕ → Type 0
IsUnit unit us =
    ((unit ≡ b's') × (us ≡ 1_000_000))
    ⊎ ((unit ≡ b'm') × (us ≡ 60 * 1_000_000))
    ⊎ ((unit ≡ b'h') × (us ≡ 60 * 60 * 1_000_000))
    ⊎ ((unit ≡ b'd') × (us ≡ 24 * 60 * 60 * 1_000_000))

split_last-append : (c : ℕ) (cs : Text) → c ∷ cs ≡ (split_last c cs).0 ++ ((split_last c cs).1 ∷ [])
unfolding split_last
split_last-append c [] = refl
split_last-append c (d ∷ cs) = ap (◌∷◌ c) (split_last-append d cs)

append-split_last :
    (d : ℕ) (ds : Text) (unit : ℕ) → split_last d (ds ++ (unit ∷ [])) ≡ (d ∷ ds, unit)
unfolding split_last
append-split_last d [] unit = refl
append-split_last d (e ∷ ds) unit =
    ap (λ (r : Text × ℕ). (d ∷ r.0, r.1)) (append-split_last e ds unit)

IsUnit-is_continuation : (unit us : ℕ) → IsUnit unit us → is_continuation unit ≡ false
IsUnit-is_continuation unit us h = ground (arith, h)

module _ (F : Type 0) ⦃f : Float F⦄ where
  in_unit-eq-ok :
      (n : F) (unit : ℕ) (us : ℤ)
      → in_unit n unit ≡ ok us
      → (scale : ℕ) × IsUnit unit scale × (us ≡ scaled n scale)
  unfolding in_unit
  in_unit-eq-ok n unit us h = elim (Bool-cases (unit == b's')) [
    | inl e₁ ↦ (1_000_000, inl (ground arith, refl), sym (ok-inj (rw e₁ at h)))
    | inr e₁ ↦ elim (Bool-cases (unit == b'm')) [
      | inl e₂ ↦ (60_000_000, inr (inl (ground arith, refl)), sym (ok-inj (rw (e₁, e₂) at h)))
      | inr e₂ ↦ elim (Bool-cases (unit == b'h')) [
        | inl e₃ ↦ (
          3_600_000_000,
          inr (inr (inl (ground arith, refl))),
          sym (ok-inj (rw (e₁, e₂, e₃) at h)),
        )
        | inr e₃ ↦ elim (Bool-cases (unit == b'd')) [
          | inl e₄ ↦ (
            86_400_000_000,
            inr (inr (inr (ground arith, refl))),
            sym (ok-inj (rw (e₁, e₂, e₃, e₄) at h)),
          )
          | inr e₄ ↦ absurd (err-ne-ok (rw (e₁, e₂, e₃, e₄) at h))
        ]
      ]
    ]
  ]

  ok-in_unit : (n : F) (unit scale : ℕ) → IsUnit unit scale → in_unit n unit ≡ ok (scaled n scale)
  unfolding in_unit
  ok-in_unit n unit scale (inl (e, k)) = rw (e, k) refl
  ok-in_unit n unit scale (inr (inl (e, k))) = rw (e, k) refl
  ok-in_unit n unit scale (inr (inr (inl (e, k)))) = rw (e, k) refl
  ok-in_unit n unit scale (inr (inr (inr (e, k)))) = rw (e, k) refl

  -- A number and a unit
  abbrev pub IsMeasure : Text → ℤ → Type 0
  IsMeasure s us =
      (num : Text) × (unit : ℕ) × (n : F) × (scale : ℕ) × (s ≡ num ++ (unit ∷ []))
      × (f.parse num ≡ some n)
      × IsUnit unit scale
      × (us ≡ scaled n scale)

  with_unit-IsMeasure : (s : Text) (us : ℤ) → with_unit F s ≡ ok us → IsMeasure s us
  unfolding with_unit
  with_unit-IsMeasure [] us h = absurd (err-ne-ok h)
  with_unit-IsMeasure (c ∷ cs) us h =
      let num = (split_last c cs).0 in
      let unit = (split_last c cs).1 in
      elim (Bool-cases (is_continuation unit)) [
        | inl e ↦ absurd (err-ne-ok (rw (e, with_unit) at h))
        | inr e ↦ elim (Option-cases (f.parse num)) [
          | inl p ↦ absurd (err-ne-ok (rw (p, with_unit) at (rw (e, with_unit) at h)))
          | inr (n, p) ↦
              let (scale, u, k) =
                in_unit-eq-ok n unit us (rw (p, with_unit) at (rw (e, with_unit) at h)) in
              (num, unit, n, scale, split_last-append c cs, p, u, k)
        ]
      ]

  -- What is done with the number and the unit
  abbrev read_parts : Text × ℕ → Result PromError ℤ
  read_parts (num, unit) =
      if is_continuation unit
      then err panicked
      else elim (f.parse num) [ none ↦ err bad_data | some n ↦ in_unit n unit ]

  with_unit-cons : (c : ℕ) (cs : Text) → with_unit F (c ∷ cs) ≡ read_parts (split_last c cs)
  unfolding with_unit
  with_unit-cons c cs = refl

  read_parts-measure :
      (num : Text) (unit : ℕ) (n : F) (scale : ℕ)
      → f.parse num ≡ some n
      → IsUnit unit scale
      → read_parts (num, unit) ≡ ok (scaled n scale)
  read_parts-measure num unit n scale p u =
      rw (IsUnit-is_continuation unit scale u, p) (ok-in_unit n unit scale u)

  measure-with_unit :
      (num : Text) (unit : ℕ) (n : F) (scale : ℕ)
      → f.parse num ≡ some n
      → IsUnit unit scale
      → with_unit F (num ++ (unit ∷ [])) ≡ ok (scaled n scale)
  unfolding split_last
  measure-with_unit [] unit n scale p u =
      with_unit-cons unit [] ∙ read_parts-measure [] unit n scale p u
  measure-with_unit (d ∷ ds) unit n scale p u =
      with_unit-cons d (ds ++ (unit ∷ []))
      ∙ ap read_parts (append-split_last d ds unit)
      ∙ read_parts-measure (d ∷ ds) unit n scale p u

  abbrev pub IsDuration : Text → ℤ → Type 0
  IsDuration s us =
      ((secs : F) × (f.parse s ≡ some secs) × (us ≡ scaled secs 1_000_000))
      ⊎ ((f.parse s ≡ none) × IsMeasure (trim s) us)

  duration-parse_duration_us : (s : Text) (us : ℤ) → IsDuration s us → parse_duration_us F s ≡ ok us
  unfolding parse_duration_us
  duration-parse_duration_us s us (inl (secs, p, k)) = rw (p, parse_duration_us) (ap ok (sym k))
  duration-parse_duration_us s us (inr (p, (num, unit, n, scale, t, q, u, k))) =
      rw (p, parse_duration_us)
        (ap (with_unit F) t ∙ measure-with_unit num unit n scale q u ∙ ap ok (sym k))

  -- Which durations are read, and as how many microseconds: a text that the parser of floats reads is
  -- that many seconds; any other is read exactly if, with the white space around it taken off, it is
  -- the text of a float and then one of the letters s, m, h and d, and it is that many seconds,
  -- minutes, hours or days. The microseconds are the product of floats, cast to 64 bits.
  pub parse_duration_us_iff :
      (s : Text) (us : ℤ) → (parse_duration_us F s ≡ ok us) ↔ IsDuration s us
  unfolding parse_duration_us
  parse_duration_us_iff s us = (
    λ h. elim (Option-cases (f.parse s)) [
      | inl p ↦ inr (p, with_unit-IsMeasure (trim s) us (rw (p, parse_duration_us) at h))
      | inr (secs, p) ↦ inl (secs, p, sym (ok-inj (rw (p, parse_duration_us) at h)))
    ],
    duration-parse_duration_us s us,
  )
