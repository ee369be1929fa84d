-- ===== src/Http/Auth.antt =====
-- src/auth.rs: a static token before the handlers. A header's value is its bytes; whether they are
-- a visible string is up to the crate http (`to_str`).
use skaldberg.Base.{
  ℕ, ◌≡◌, refl, ap, ◌∙◌, Bool-cases, Option, none, some, Option-cases, List, [], ◌∷◌, ◌++◌,
  if◌then◌else◌, ◌==◌, inl, inr, ◌↔◌, arith, some-inj, none-ne-some,
}
use skaldberg.Order.{list_ord, nat_ord, ◌=?◌, =?-eq, =?_refl}
use skaldberg.Text.{Text, lit}

-- `strip_prefix`
unfoldable strip_prefix : Text → Text → Option Text
strip_prefix [] s = some s
strip_prefix (p ∷ ps) [] = none
strip_prefix (p ∷ ps) (c ∷ cs) = let rest = strip_prefix ps cs in if p == c then rest else none

-- What the layer does with a request: it runs the handler, or answers 401.
pub data Verdict : Type 0 where
  next_runs : Verdict
  unauthorized : Verdict

module _ (to_str : List ℕ → Option Text) where
  -- The header's value behind `Bearer `
  unfoldable provided : Option (List ℕ) → Option Text
  unfolding strip_prefix
  provided none = none
  provided (some v) = elim (to_str v) [ none ↦ none | some h ↦ strip_prefix (lit "Bearer ") h ]

  unfoldable pub require_bearer_token : Option Text → Option (List ℕ) → Verdict
  unfolding provided
  require_bearer_token none authorization = next_runs
  require_bearer_token (some expected_token) authorization = elim (provided authorization) [
    | none ↦ unauthorized
    | some token ↦ if token =? expected_token then next_runs else unauthorized
  ]

strip_prefix-append : (p s : Text) → strip_prefix p (p ++ s) ≡ some s
unfolding strip_prefix
strip_prefix-append [] s = refl
strip_prefix-append (c ∷ p) s = ground (arith, strip_prefix-append p s)

append-strip_prefix : (p s t : Text) → strip_prefix p s ≡ some t → s ≡ p ++ t
unfolding strip_prefix
append-strip_prefix [] s t h = some-inj h
append-strip_prefix (c ∷ p) [] t h = absurd (none-ne-some h)
append-strip_prefix (c ∷ p) (d ∷ s) t h = ground (arith, append-strip_prefix p s t)

provided_iff :
    (to_str : List ℕ → Option Text) (authorization : Option (List ℕ)) (token : Text)
    → (provided to_str authorization ≡ some token)
      ↔ ((v : List ℕ) × (authorization ≡ some v) × (to_str v ≡ some (lit "Bearer " ++ token)))
unfolding provided
provided_iff to_str none token =
    (λ h. absurd (none-ne-some h), λ (v, h, k). absurd (none-ne-some h))
provided_iff to_str (some v) token = (
  λ h. elim (Option-cases (to_str v)) [
    | inl e ↦ absurd (none-ne-some (rw (e, provided) at h))
    | inr (header, e) ↦ (
      v,
      refl,
      e ∙ ap some (append-strip_prefix (lit "Bearer ") header token (rw (e, provided) at h)),
    )
  ],
  λ (w, h, k).
      let e : to_str v ≡ some (lit "Bearer " ++ token) = cc (some-inj h, k) in
      rw (e, provided) (strip_prefix-append (lit "Bearer ") token),
)

-- With a token set, a request passes exactly if it has an `Authorization` header that is a visible
-- string, and this is `Bearer ` followed by the token and nothing else.
pub require_bearer_token_iff :
    (to_str : List ℕ → Option Text) (token : Text) (authorization : Option (List ℕ))
    → (require_bearer_token to_str (some token) authorization ≡ next_runs)
      ↔ ((v : List ℕ) × (authorization ≡ some v) × (to_str v ≡ some (lit "Bearer " ++ token)))
unfolding require_bearer_token
require_bearer_token_iff to_str token authorization = (
  λ h. elim (Option-cases (provided to_str authorization)) [
    | inl e ↦ absurd (ground (arith, rw (e, require_bearer_token) at h))
    | inr (given, e) ↦ elim (Bool-cases (given =? token)) [
      | inl f ↦ (provided_iff to_str authorization token).0 (e ∙ ap some (=?-eq given token f))
      | inr f ↦ absurd (ground (arith, rw (f) at (rw (e, require_bearer_token) at h)))
    ]
  ],
  λ h.
      rw ((provided_iff to_str authorization token).1 h, require_bearer_token)
        (rw (=?_refl token) refl),
)
