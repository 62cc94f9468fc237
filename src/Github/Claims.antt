-- ===== src/Github/Claims.antt =====
-- The times in the App JWT of internal/provider/github/github.go.
use ephemeral_credential_bro.Base.{◌≡◌, refl, arith}
use ephemeral_credential_bro.Base.Int.{ℤ, pos, negsuc, int_laws, eq_of_parts, ◌+ℤ◌, ◌-ℤ◌}
use ephemeral_credential_bro.GoTime.{Time, unix, add, negate, wrap64, floor_seconds, seconds}
use ephemeral_credential_bro.Api.{Bytes}
use ephemeral_credential_bro.Github.{jwt_claims, jwt_clock_skew_guard, jwt_max_lifetime}

floor_later : (t : Time) → floor_seconds (t +ℤ seconds 540) ≡ floor_seconds t +ℤ pos 540
unfolding ◌+ℤ◌
floor_later (pos n) = ground arith
floor_later (negsuc n) = ground arith

floor_earlier : (t : Time) → floor_seconds (t +ℤ negsuc 59999999999) +ℤ pos 60 ≡ floor_seconds t
unfolding ◌+ℤ◌
floor_earlier (pos n) = ground arith
floor_earlier (negsuc n) = ground arith

minus_guard : negate jwt_clock_skew_guard ≡ negsuc 59999999999
unfolding negate wrap64 ◌-ℤ◌
minus_guard = refl

usable_time : jwt_max_lifetime -ℤ jwt_clock_skew_guard ≡ seconds 540
unfolding ◌-ℤ◌
usable_time = refl

-- One instant with its minute before and nine minutes after, counted from another epoch.
shifted :
    (c e : ℤ)
    → (c +ℤ pos 60 +ℤ pos 540 -ℤ e ≡ c -ℤ e +ℤ pos 600)
      × (c -ℤ e +ℤ pos 60 ≡ c +ℤ pos 60 -ℤ e)
      × (c +ℤ pos 60 +ℤ pos 540 -ℤ e ≡ c +ℤ pos 60 -ℤ e +ℤ pos 540)
shifted c e = (
  eq_of_parts _ _ (omega int_laws),
  eq_of_parts _ _ (omega int_laws),
  eq_of_parts _ _ (omega int_laws),
)

-- An App JWT is valid for exactly ten minutes, in whole seconds: from one minute before the second
-- that the clock is in to nine minutes after it.
pub jwt_claims-lifetime :
    (t : Time) (app_id : Bytes)
    → let claims = jwt_claims t app_id in
      (claims.exp ≡ claims.iat +ℤ pos 600)
      × (claims.iat +ℤ pos 60 ≡ unix t)
      × (claims.exp ≡ unix t +ℤ pos 540)
unfolding jwt_claims unix add
jwt_claims-lifetime t app_id =
    rw (minus_guard, usable_time, floor_later t, ← floor_earlier t)
      (shifted (floor_seconds (t +ℤ negsuc 59999999999)) (pos 62135596800))
