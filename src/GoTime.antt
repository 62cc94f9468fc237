-- ===== src/GoTime.antt =====
-- Go's `time` package as far as the broker uses it. A `Time` is its number of nanoseconds since the
-- zero time (1 January of year 1), not bounded; a `Duration` is an int64 number of nanoseconds, and
-- every operation on it wraps or saturates as Go's does.
pub mod Laws
use ephemeral_credential_bro.Base.{
  ℕ, ◌+◌, ◌-◌, ◌*◌, ◌/◌, ◌%◌, ◌^◌, Bool, true, false, ltb, if◌then◌else◌, Option, none, some,
}
use ephemeral_credential_bro.Base.Int.{
  ℤ, pos, negsuc, ◌+ℤ◌, ◌-ℤ◌, ltb_ℤ, ◌≤ℤ◌, scale, pos_part, neg_part,
}

abbrev pub Time : Type 0
Time = ℤ

abbrev pub Duration : Type 0
Duration = ℤ

abbrev pub max_int64 : ℤ
max_int64 = pos (2 ^ 63 - 1)

abbrev pub min_int64 : ℤ
min_int64 = negsuc (2 ^ 63 - 1)

-- The values of an int32 and of an int64.
abbrev pub IsInt32 : ℤ → Type 0
IsInt32 z = (negsuc (2 ^ 31 - 1) ≤ℤ z) × (z ≤ℤ pos (2 ^ 31 - 1))

abbrev pub IsInt64 : ℤ → Type 0
IsInt64 z = (min_int64 ≤ℤ z) × (z ≤ℤ max_int64)

-- The int64 with these 64 bits.
from_bits : ℕ → ℤ
from_bits m = if ltb m (2 ^ 63) then pos m else negsuc (2 ^ 64 - 1 - m)

-- What an int64 operation keeps of its exact result.
unfoldable pub wrap64 : ℤ → ℤ
unfolding from_bits
wrap64 (pos n) = from_bits (n % 2 ^ 64)
wrap64 (negsuc n) = from_bits (2 ^ 64 - 1 - n % 2 ^ 64)

abbrev pub nanoseconds : ℕ
nanoseconds = 1000000000

abbrev pub seconds : ℕ → Duration
seconds n = pos (n * nanoseconds)

-- `time.Duration(n) * time.Second`
unfoldable pub seconds_of : ℤ → Duration
seconds_of n = wrap64 (scale nanoseconds n)

-- `-d`
unfoldable pub negate : Duration → Duration
negate d = wrap64 (pos 0 -ℤ d)

-- `t.Add(d)`
unfoldable pub add : Time → Duration → Time
add t d = t +ℤ d

-- An exact difference, held to the range of an int64.
saturate : ℤ → Duration
saturate d = if ltb_ℤ max_int64 d then max_int64 else if ltb_ℤ d min_int64 then min_int64 else d

-- `t.Sub(u)`: a difference out of range becomes the nearest duration.
unfoldable pub sub : Time → Time → Duration
unfolding saturate
sub t u = saturate (t -ℤ u)

-- `t.Before(u)`
abbrev pub before : Time → Time → Bool
before t u = ltb_ℤ t u

-- `t.IsZero()` of a `*metav1.Time`, where nil counts as zero.
unfoldable pub is_zero : Option Time → Bool
is_zero none = true
is_zero (some t) = if ltb_ℤ t (pos 0) then false else if ltb_ℤ (pos 0) t then false else true

-- The number of whole seconds, rounded down.
abbrev pub floor_seconds : Time → ℤ
floor_seconds (pos n) = pos (n / nanoseconds)
floor_seconds (negsuc n) = negsuc (n / nanoseconds)

-- `t.Unix()`: seconds since 1970.
unfoldable pub unix : Time → ℤ
unix t = floor_seconds t -ℤ pos 62135596800
