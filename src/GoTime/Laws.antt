-- ===== src/GoTime/Laws.antt =====
-- Where the operations of GoTime are exact.
use ephemeral_credential_bro.Base.{◌≡◌, arith}
use ephemeral_credential_bro.Base.Int.{ℤ, pos, negsuc, ◌-ℤ◌, ◌≤ℤ◌, ◌<ℤ◌, scale, int_laws}
use ephemeral_credential_bro.GoTime.{
  wrap64, seconds_of, negate, sub, Time, Duration, IsInt32, IsInt64, min_int64, max_int64,
  nanoseconds,
}

pub wrap64_exact : (z : ℤ) → IsInt64 z → wrap64 z ≡ z
unfolding wrap64
wrap64_exact (pos n) h = ground arith
wrap64_exact (negsuc n) h = ground arith

-- An int32 number of seconds is an int64 number of nanoseconds.
pub seconds_of_exact : (n : ℤ) → IsInt32 n → seconds_of n ≡ scale nanoseconds n
unfolding seconds_of
seconds_of_exact n h = wrap64_exact (scale nanoseconds n) (unfold scale in ground arith)

pub negate_exact : (d : Duration) → min_int64 <ℤ d → d ≤ℤ max_int64 → negate d ≡ pos 0 -ℤ d
unfolding negate
negate_exact d h k = wrap64_exact (pos 0 -ℤ d) (omega int_laws)

pub sub_exact : (t u : Time) → IsInt64 (t -ℤ u) → sub t u ≡ t -ℤ u
unfolding sub
sub_exact t u h = ground arith

-- A difference is never out of range.
pub sub-IsInt64 : (t u : Time) → IsInt64 (sub t u)
unfolding sub
sub-IsInt64 t u = ground arith

-- What an operation keeps is an int64.
pub wrap64-IsInt64 : (z : ℤ) → IsInt64 (wrap64 z)
unfolding wrap64
wrap64-IsInt64 (pos n) = ground arith
wrap64-IsInt64 (negsuc n) = ground arith
