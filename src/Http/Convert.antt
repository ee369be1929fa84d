-- ===== src/Http/Convert.antt =====
-- The times of src/convert.rs: a timestamp cell as the seconds and nanoseconds that chrono is given.
use skaldberg.Base.{ℕ, suc, ◌*◌, ◌/◌, ◌%◌, ◌^◌, ◌≡◌, ◌==◌, if◌then◌else◌, arith}
use skaldberg.Base.Int.{ℤ, pos, negsuc, sub_ℕ, rem_euclid, scale, ◌+ℤ◌}

-- `/` on `i64` rounds toward zero.
unfoldable pub quot : ℤ → ℕ → ℤ
quot (pos n) d = pos (n / d)
quot (negsuc n) d = sub_ℕ 0 (suc n / d)

-- The variants of `TimeUnit`
pub data TimeUnit : Type 0 where
  seconds : TimeUnit
  milliseconds : TimeUnit
  microseconds : TimeUnit
  nanoseconds : TimeUnit

-- The seconds and the nanoseconds, as `i64` and `u32`
unfoldable pub timestamp_parts : TimeUnit → ℤ → ℤ × ℕ
unfolding quot rem_euclid
timestamp_parts seconds v = (v, 0)
timestamp_parts milliseconds v = (quot v 1_000, rem_euclid v 1_000 % 2 ^ 32 * 1_000_000 % 2 ^ 32)
timestamp_parts microseconds v =
    (quot v 1_000_000, rem_euclid v 1_000_000 % 2 ^ 32 * 1_000 % 2 ^ 32)
timestamp_parts nanoseconds v = (quot v 1_000_000_000, rem_euclid v 1_000_000_000 % 2 ^ 32)

-- The units in a second
abbrev pub per_second : TimeUnit → ℕ
per_second seconds = 1
per_second milliseconds = 1_000
per_second microseconds = 1_000_000
per_second nanoseconds = 1_000_000_000

-- The nanoseconds in a unit
abbrev pub nanos : TimeUnit → ℕ
nanos seconds = 1_000_000_000
nanos milliseconds = 1_000_000
nanos microseconds = 1_000
nanos nanoseconds = 1

-- What the conversion of `v` is late by
abbrev pub late_by : TimeUnit → ℤ → ℕ
late_by unit (pos n) = 0
late_by unit (negsuc n) = if suc n % per_second unit == 0 then 0 else 1_000_000_000

-- The seconds and nanoseconds denote the time of the cell in every unit when it is not before 1970,
-- or when it is a whole number of seconds before it. Any other time before 1970 comes out as one
-- second later than it is.
pub timestamp_parts-time :
    (unit : TimeUnit) (v : ℤ)
    → let (s, ns) = timestamp_parts unit v in
      scale s 1_000_000_000 +ℤ pos ns ≡ scale v (nanos unit) +ℤ pos (late_by unit v)
unfolding timestamp_parts quot rem_euclid scale ◌+ℤ◌
timestamp_parts-time seconds (pos n) = ground arith
timestamp_parts-time seconds (negsuc n) = ground arith
timestamp_parts-time milliseconds (pos n) = ground arith
timestamp_parts-time milliseconds (negsuc n) = ground arith
timestamp_parts-time microseconds (pos n) = ground arith
timestamp_parts-time microseconds (negsuc n) = ground arith
timestamp_parts-time nanoseconds (pos n) = ground arith
timestamp_parts-time nanoseconds (negsuc n) = ground arith
