-- ===== src/Ingest/Validate/Names.antt =====
-- What `is_valid_name` of src/ingest/validate.rs accepts.
use skaldberg.Base.{
  ℕ, ◌≤◌, ◌≡◌, ◌⊎◌, ◌↔◌, true, ◌||◌, [], ◌∷◌, ◌==◌, arith, all, All, &&-iff, if_iff,
}
use skaldberg.Text.{Text, is_ascii_alphabetic, is_ascii_alphanumeric}
use skaldberg.Ingest.Validate.{is_valid_name}

-- `[a-zA-Z_]`
abbrev pub IsNameStart : ℕ → Type 0
IsNameStart c = ((97 ≤ c) × (c ≤ 122)) ⊎ ((65 ≤ c) × (c ≤ 90)) ⊎ (c ≡ 95)

-- `[a-zA-Z0-9_]`
abbrev pub IsNameChar : ℕ → Type 0
IsNameChar c = IsNameStart c ⊎ ((48 ≤ c) × (c ≤ 57))

-- `[a-zA-Z_][a-zA-Z0-9_]*`
abbrev pub IsName : Text → Type 0
IsName [] = ⊥
IsName (c ∷ cs) = IsNameStart c × All IsNameChar cs

start_iff : (c : ℕ) → ((is_ascii_alphabetic c || c == 95) ≡ true) ↔ IsNameStart c
start_iff c = ground arith

char_iff : (c : ℕ) → ((is_ascii_alphanumeric c || c == 95) ≡ true) ↔ IsNameChar c
char_iff c = ground arith

chars_iff :
    (cs : Text) → (all (λ c. is_ascii_alphanumeric c || c == 95) cs ≡ true) ↔ All IsNameChar cs
chars_iff [] = ground arith
chars_iff (c ∷ cs) =
    &&-iff (is_ascii_alphanumeric c || c == 95) (all (λ c. is_ascii_alphanumeric c || c == 95) cs)
      (char_iff c) (chars_iff cs)

-- A text is a valid name exactly when it matches `[a-zA-Z_][a-zA-Z0-9_]*`.
pub is_valid_name_iff : (s : Text) → (is_valid_name s ≡ true) ↔ IsName s
unfolding is_valid_name
is_valid_name_iff [] = ground arith
is_valid_name_iff (c ∷ cs) =
    if_iff (is_ascii_alphabetic c || c == 95) (all (λ c. is_ascii_alphanumeric c || c == 95) cs)
      (start_iff c) (chars_iff cs)
