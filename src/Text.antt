-- ===== src/Text.antt =====
-- `String` and `&str`: the bytes of the text's UTF-8 form, which is how Rust orders, hashes and
-- compares it. The program's own literals and all that it tests for are ASCII.
pub mod Prefix
pub mod Trim
use Prim.Native.Char.{code}
use Prim.Native.String.{String}
use skaldberg.Base.{
  ℕ, zero, suc, ◌+◌, ◌/◌, ◌%◌, Bool, true, false, ◌&&◌, ◌||◌, List, [], ◌∷◌, leb, ltb, ◌==◌,
  if◌then◌else◌,
}
use skaldberg.Base.Int.{ℤ, pos, negsuc}

abbrev pub Text : Type 0
Text = List ℕ

-- A literal.
abbrev pub lit : String → Text
lit String.[] = []
lit (String.◌∷◌ c s) = code c ∷ lit s

-- `starts_with`
unfoldable pub starts_with : Text → Text → Bool
starts_with [] s = true
starts_with (p ∷ ps) [] = false
starts_with (p ∷ ps) (c ∷ cs) = p == c && starts_with ps cs

abbrev pub is_ascii_alphabetic : ℕ → Bool
is_ascii_alphabetic c = (leb b'a' c && leb c b'z') || (leb b'A' c && leb c b'Z')

abbrev pub is_ascii_digit : ℕ → Bool
is_ascii_digit c = leb b'0' c && leb c b'9'

abbrev pub is_ascii_alphanumeric : ℕ → Bool
is_ascii_alphanumeric c = is_ascii_alphabetic c || is_ascii_digit c

-- Decimal digits, the last one first; every round divides by ten, so `n` rounds are enough.
digits_rev : ℕ → ℕ → Text
digits_rev zero n = []
digits_rev (suc f) n =
    let rest = digits_rev f (n / 10) in (b'0' + n % 10) ∷ (if ltb n 10 then [] else rest)

append_rev : Text → Text → Text
append_rev [] acc = acc
append_rev (c ∷ cs) acc = append_rev cs (c ∷ acc)

-- `to_string` of an unsigned and of a signed integer
unfoldable pub show_ℕ : ℕ → Text
unfolding digits_rev append_rev
show_ℕ n = append_rev (digits_rev (suc n) n) []

unfoldable pub show_ℤ : ℤ → Text
unfolding show_ℕ
show_ℤ (pos n) = show_ℕ n
show_ℤ (negsuc n) = b'-' ∷ show_ℕ (suc n)
