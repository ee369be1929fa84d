-- ===== src/Prom/Engine/Evals.antt =====
-- The evaluation times of a range query (`range_range_fn_via_sql` of src/prometheus.rs).
use skaldberg.Base.{
  ℕ, zero, suc, ◌+◌, ◌*◌, ◌^◌, ◌<◌, ◌≤◌, ◌≡◌, refl, ap, sym, ◌∙◌, true, false, Bool-cases, inl, inr,
  List, [], ◌∷◌, length, All, Result, ok, err, ◌>>=◌, arith,
}
use skaldberg.Base.Int.{
  ℤ, pos, IsI64, ◌+ℤ◌, ◌≤ℤ◌, ltb_ℤ, saturate_i64, saturate_i64-eq_self, pos_part, +ℤ_parts,
  eq_of_parts,
}
use skaldberg.Prom.Engine.{PromError}
use skaldberg.Prom.Engine.RangeFn.{eval_times, max_range_evals}

-- `n` times from `t` on, `k` apart
abbrev pub times : ℕ → ℤ → ℕ → List ℤ
times zero t k = []
times (suc n) t k = t ∷ times n (t +ℤ pos k) k

-- What the loop gives from `t` on, when `left` more times are allowed.
abbrev pub Evaluates : {E : Type 0} → ℕ → ℤ → ℤ → ℕ → Result E (List ℤ) → Type 0
Evaluates left t end_us k (ok evals) =
    (evals ≡ times (length evals) t k)
    × (length evals ≤ left)
    × All (λ u. u ≤ℤ end_us) evals
    × (ltb_ℤ end_us (t +ℤ pos (length evals * k)) ≡ true)
Evaluates left t end_us k (err e) = (t +ℤ pos (left * k)) ≤ℤ end_us

suc_mul : (n k : ℕ) → suc n * k ≡ k + n * k
suc_mul n k = omega arith

shift : (t : ℤ) (n k : ℕ) → (t +ℤ pos k) +ℤ pos (n * k) ≡ t +ℤ pos (suc n * k)
shift t n k = eq_of_parts _ _ (
    omega (
      arith,
      +ℤ_parts (t +ℤ pos k) (pos (n * k)),
      +ℤ_parts t (pos k),
      +ℤ_parts t (pos (suc n * k)),
      suc_mul n k,
    ))

module _ (k : ℕ) (end_us : ℤ) where
  ended : (left : ℕ) (t : ℤ) → ltb_ℤ end_us t ≡ true → eval_times left t end_us (pos k) ≡ ok []
  unfolding eval_times
  ended zero t e = rw (e, eval_times) refl
  ended (suc left) t e = rw (e, eval_times) refl

  saturates_behind :
      (t : ℤ)
      → IsI64 t
      → IsI64 end_us
      → pos_part end_us + 1 < 2 ^ 63
      → ltb_ℤ end_us (t +ℤ pos k) ≡ true
      → ltb_ℤ end_us (saturate_i64 (t +ℤ pos k)) ≡ true
  unfolding saturate_i64 ◌+ℤ◌
  saturates_behind t ht he hs e = ground arith

  within : (t : ℤ) → IsI64 t → IsI64 end_us → ltb_ℤ end_us (t +ℤ pos k) ≡ false → IsI64 (t +ℤ pos k)
  unfolding ◌+ℤ◌
  within t ht he e = (ground arith, ground arith)

  -- A time that saturated is behind the end, as the exact one is.
  eval_times-saturate :
      (left : ℕ) (t : ℤ)
      → IsI64 t
      → IsI64 end_us
      → pos_part end_us + 1 < 2 ^ 63
      → eval_times left (saturate_i64 (t +ℤ pos k)) end_us (pos k)
        ≡ eval_times left (t +ℤ pos k) end_us (pos k)
  eval_times-saturate left t ht he hs = elim (Bool-cases (ltb_ℤ end_us (t +ℤ pos k))) [
    | inl e ↦ ended left _ (saturates_behind t ht he hs e) ∙ sym (ended left _ e)
    | inr e ↦
        ap (λ u. eval_times left u end_us (pos k))
          (saturate_i64-eq_self (t +ℤ pos k) (within t ht he e))
  ]

  stops :
      (left : ℕ) (t : ℤ) → ltb_ℤ end_us t ≡ true → Evaluates {E = PromError} left t end_us k (ok [])
  unfolding ◌+ℤ◌
  stops left t e = (refl, omega arith, tt, ground arith)

  refused : (t : ℤ) → ltb_ℤ end_us t ≡ false → (t +ℤ pos (0 * k)) ≤ℤ end_us
  unfolding ◌+ℤ◌
  refused t e = ground arith

  goes_on :
      (left : ℕ) (t : ℤ) (later : Result PromError (List ℤ))
      → ltb_ℤ end_us t ≡ false
      → Evaluates left (t +ℤ pos k) end_us k later
      → Evaluates (suc left) t end_us k (later >>= λ evals. ok (t ∷ evals))
  goes_on left t (ok evals) e (these, few, below, last) = (
    ap (◌∷◌ t) these,
    omega (arith, few),
    (ground arith, below),
    ap (ltb_ℤ end_us) (sym (shift t (length evals) k)) ∙ last,
  )
  goes_on left t (err x) e h = rw (← shift t left k) h

  eval_times-from :
      (left : ℕ) (t : ℤ)
      → IsI64 t
      → IsI64 end_us
      → pos_part end_us + 1 < 2 ^ 63
      → Evaluates left t end_us k (eval_times left t end_us (pos k))
  unfolding eval_times
  eval_times-from zero t ht he hs = elim (Bool-cases (ltb_ℤ end_us t)) [
    | inl e ↦ rw e (stops 0 t e)
    | inr e ↦ rw e (refused t e)
  ]
  eval_times-from (suc left) t ht he hs = elim (Bool-cases (ltb_ℤ end_us t)) [
    | inl e ↦ rw e (stops (suc left) t e)
    | inr e ↦ rw e (
        rw (eval_times-saturate left t ht he hs) (
          goes_on left t (eval_times left (t +ℤ pos k) end_us (pos k)) e
            (elim (Bool-cases (ltb_ℤ end_us (t +ℤ pos k))) [
              | inl f ↦ rw (ended left (t +ℤ pos k) f) (stops left (t +ℤ pos k) f)
              | inr f ↦ eval_times-from left (t +ℤ pos k) (within t ht he f) he hs
            ])))
  ]

-- For a start and an end in the range of an `i64`, the end not its last value: the loop ends. With
-- times, these are the start and the times `k` apart from there, none behind the end, all up to the
-- end, and at most 11,000. With an error, the start and 11,000 steps more are still not behind the
-- end, so there are more than 11,000 such times.
pub eval_times_lem :
    (start_us end_us : ℤ) (k : ℕ)
    → IsI64 start_us
    → IsI64 end_us
    → pos_part end_us + 1 < 2 ^ 63
    → Evaluates max_range_evals start_us end_us k
        (eval_times max_range_evals start_us end_us (pos k))
eval_times_lem start_us end_us k hs he h = eval_times-from k end_us max_range_evals start_us hs he h
