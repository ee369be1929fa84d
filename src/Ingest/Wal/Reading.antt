-- ===== src/Ingest/Wal/Reading.antt =====
-- Little-endian words and exact reads of src/ingest/wal.rs.
use skaldberg.Base.{
  ℕ, zero, suc, ◌*◌, ◌/◌, ◌^◌, ◌<◌, ◌≡◌, refl, ap, some, ◌++◌, arith, length, take-append_length,
  drop-append_length, length-append, le→leb,
}
use native.Mathlib.Nat.{pow-suc}
use skaldberg.Ingest.Wal.{Bytes, to_le_bytes, from_le_bytes, read_exact}

pub length-to_le_bytes : (w n : ℕ) → length (to_le_bytes w n) ≡ w
unfolding to_le_bytes
length-to_le_bytes zero n = refl
length-to_le_bytes (suc w) n = ap suc (length-to_le_bytes w (n / 256))

quotient-lt : (w n : ℕ) → n < 256 ^ suc w → n / 256 < 256 ^ w
quotient-lt w n h = let h' : n < 256 ^ w * 256 = rw pow-suc at h in omega arith

-- A number that fits in `w` bytes comes back from its little-endian bytes.
pub from_le_bytes-to_le_bytes : (w n : ℕ) → n < 256 ^ w → from_le_bytes (to_le_bytes w n) ≡ n
unfolding to_le_bytes from_le_bytes
from_le_bytes-to_le_bytes zero n h = omega arith
from_le_bytes-to_le_bytes (suc w) n h =
    omega (arith, from_le_bytes-to_le_bytes w (n / 256) (quotient-lt w n h))

-- Reading as many bytes as were written gives them, and leaves what follows.
pub read_exact-append :
    (n : ℕ) (bytes rest : Bytes)
    → length bytes ≡ n
    → read_exact n (bytes ++ rest) ≡ some (bytes, rest)
unfolding read_exact
read_exact-append n bytes rest h = rw (
  ← h,
  le→leb (length bytes) (length (bytes ++ rest)) (omega (arith, length-append bytes rest)),
  take-append_length bytes rest,
  drop-append_length bytes rest,
)
