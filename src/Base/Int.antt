-- ===== src/Base/Int.antt =====
-- Signed integers over the native numbers, under the library's names, and the machine's `i64`.
use mathlib.Core.Path.{◌≡◌}
use mathlib.Core.Bool.{Bool}
use Prim.Native.Nat.{ℕ, suc, ◌+◌, ◌-◌, ◌*◌, ◌/◌, ◌%◌, ◌^◌, ◌≤◌, ◌<◌, compare, Ordering}
use native.Mathlib.Omega.{arith}
use skaldberg.Base.Tests.{ltb, leb, if◌then◌else◌}

-- `negsuc n` is -(n + 1).
pub data ℤ : Type 0 where
  pos : ℕ → ℤ
  negsuc : ℕ → ℤ

abbrev pub pos_part : ℤ → ℕ
pos_part (pos n) = n
pos_part (negsuc n) = 0

abbrev pub neg_part : ℤ → ℕ
neg_part (pos n) = 0
neg_part (negsuc n) = suc n

-- a - b, as an integer.
abbrev pub sub_ℕ : ℕ → ℕ → ℤ
sub_ℕ a b = if leb b a then pos (a - b) else negsuc (b - a - 1)

infixl 65 ◌+ℤ◌ ◌-ℤ◌
infix 50 ◌≤ℤ◌
unfoldable pub ◌+ℤ◌ : ℤ → ℤ → ℤ
a +ℤ b = sub_ℕ (pos_part a + pos_part b) (neg_part a + neg_part b)

unfoldable pub ◌-ℤ◌ : ℤ → ℤ → ℤ
a -ℤ b = sub_ℕ (pos_part a + neg_part b) (neg_part a + pos_part b)

-- z * n
unfoldable pub scale : ℤ → ℕ → ℤ
scale z n = sub_ℕ (pos_part z * n) (neg_part z * n)

abbrev pub ◌≤ℤ◌ : ℤ → ℤ → Type 0
a ≤ℤ b = pos_part a + neg_part b ≤ pos_part b + neg_part a

abbrev pub ltb_ℤ : ℤ → ℤ → Bool
ltb_ℤ a b = ltb (pos_part a + neg_part b) (pos_part b + neg_part a)

abbrev pub compare_ℤ : ℤ → ℤ → Ordering
compare_ℤ a b = compare (pos_part a + neg_part b) (pos_part b + neg_part a)

-- The range of an `i64`.
abbrev pub IsI64 : ℤ → Type 0
IsI64 z = (neg_part z ≤ 2 ^ 63) × (pos_part z < 2 ^ 63)

-- An `i64` result that overflows wraps: its representative modulo 2^64.
unfoldable pub wrap_i64 : ℤ → ℤ
wrap_i64 z = sub_ℕ ((pos_part z + 2 ^ 63 + 2 ^ 64 - neg_part z % 2 ^ 64) % 2 ^ 64) (2 ^ 63)

-- An `i64` result that saturates.
unfoldable pub saturate_i64 : ℤ → ℤ
saturate_i64 z =
    if leb (2 ^ 63) (pos_part z)
    then pos (2 ^ 63 - 1)
    else if ltb (2 ^ 63) (neg_part z)
    then negsuc (2 ^ 63 - 1)
    else z

-- `div_euclid` and `rem_euclid` by a positive number.
unfoldable pub div_euclid : ℤ → ℕ → ℤ
div_euclid (pos n) d = pos (n / d)
div_euclid (negsuc n) d = negsuc (n / d)

unfoldable pub rem_euclid : ℤ → ℕ → ℕ
rem_euclid (pos n) d = n % d
rem_euclid (negsuc n) d = d - 1 - n % d

pub wrap_i64-eq_self : (z : ℤ) → IsI64 z → wrap_i64 z ≡ z
unfolding wrap_i64
wrap_i64-eq_self (pos n) h = ground arith
wrap_i64-eq_self (negsuc n) h = ground arith

pub saturate_i64-eq_self : (z : ℤ) → IsI64 z → saturate_i64 z ≡ z
unfolding saturate_i64
saturate_i64-eq_self z h = ground arith

pub +ℤ_parts :
    (a b : ℤ)
    → pos_part (a +ℤ b) + neg_part a + neg_part b ≡ neg_part (a +ℤ b) + pos_part a + pos_part b
unfolding ◌+ℤ◌
+ℤ_parts a b = ground arith

pub -ℤ_parts :
    (a b : ℤ)
    → pos_part (a -ℤ b) + neg_part a + pos_part b ≡ neg_part (a -ℤ b) + pos_part a + neg_part b
unfolding ◌-ℤ◌
-ℤ_parts a b = ground arith

pub eq_of_parts : (a b : ℤ) → pos_part a + neg_part b ≡ pos_part b + neg_part a → a ≡ b
eq_of_parts a b h = ground arith

pub ruleset int_laws = (arith, +ℤ_parts, -ℤ_parts, eq_of_parts)
