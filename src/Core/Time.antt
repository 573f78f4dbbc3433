-- ===== src/Core/Time.antt =====
-- Go's `time.Time`, `time.Duration` and the conversions between 64-bit integers.
use logarithm.Prelude.{ℕ, ◌-◌, ◌^◌, Bool, true, false, ltb, if◌then◌else◌}
use logarithm.Prelude.Int.{ℤ, pos, negsuc}

-- The zero value, or a time by its nanoseconds since 1970: no `time.Unix(0, n)` is the zero value,
-- since that lies before the range of `n`.
pub data Time : Type 0 where
  zero_time : Time
  unix_nano : ℤ → Time

abbrev pub is_zero : Time → Bool
is_zero zero_time = true
is_zero (unix_nano n) = false

-- Nanoseconds.
abbrev pub Duration : Type 0
Duration = ℤ

-- `int64(n)` of a `uint64`, which keeps the bit pattern.
unfoldable pub to_int64 : ℕ → ℤ
to_int64 n = if ltb n (2 ^ 63) then pos n else negsuc (2 ^ 64 - n - 1)
