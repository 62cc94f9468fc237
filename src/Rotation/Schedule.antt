-- ===== src/Rotation/Schedule.antt =====
-- The schedule of rotations of internal/controller/ephemeralcredential_controller.go: the wake-up that
-- a mint asks for, and what `needsMint` answers before and after it.
use ephemeral_credential_bro.Base.{true, false, ◌≡◌, ◌⊎◌, inl, inr, some, arith}
use ephemeral_credential_bro.Base.Int.{
  pos, ◌+ℤ◌, ◌-ℤ◌, ◌≤ℤ◌, ◌<ℤ◌, int_laws, half_nonneg, scale, ≤ℤ_trans, ≤ℤ_or_lt,
}
use ephemeral_credential_bro.GoTime.{Time, Duration, IsInt64, max_int64, seconds_of, add, sub}
use ephemeral_credential_bro.GoTime.Laws.{sub_exact, negate_exact, wrap64-IsInt64}
use ephemeral_credential_bro.Api.{EphemeralCredential}
use ephemeral_credential_bro.Rotation.{
  requested_rotate_before, granted_lifetime, clamp_rotate_before, current_window, needs_mint,
  requeue_after, min_requeue_after, next_window,
}
use ephemeral_credential_bro.Rotation.Window.{IsClamped, clamp_rotate_before-IsClamped}

pub requested_bounds :
    (ec : EphemeralCredential)
    → (pos 0 <ℤ requested_rotate_before ec) × (requested_rotate_before ec ≤ℤ max_int64)
unfolding requested_rotate_before seconds_of
requested_bounds ec =
    ground (arith, wrap64-IsInt64 (scale 1000000000 ec.spec.rotate_before_seconds))

-- The window lies between zero and the request, whatever was granted.
pub clamp_bounds :
    (r g : Duration)
    → pos 0 <ℤ r
    → (pos 0 ≤ℤ (clamp_rotate_before r g).0) × ((clamp_rotate_before r g).0 ≤ℤ r)
unfolding clamp_rotate_before
clamp_bounds r g h = grind (int_laws, half_nonneg)

-- A lifetime that is shorter by `d` shrinks the window by at most `d`.
clamp_shrinks :
    (r g g' d : Duration)
    → pos 0 <ℤ r
    → pos 0 <ℤ g
    → pos 0 ≤ℤ d
    → g ≤ℤ g' +ℤ d
    → (clamp_rotate_before r g).0 ≤ℤ (clamp_rotate_before r g').0 +ℤ d
unfolding clamp_rotate_before
clamp_shrinks r g g' d hr hg hd h = grind (int_laws, half_nonneg g, half_nonneg g')

-- The delay is at least the floor and at least the exact time to the window.
pub requeue_bounds :
    (now expires : Time) (w : Duration)
    → pos 0 ≤ℤ w
    → w ≤ℤ max_int64
    → expires -ℤ now ≤ℤ max_int64
    → (min_requeue_after ≤ℤ requeue_after now expires w)
      × (expires ≤ℤ now +ℤ requeue_after now expires w +ℤ w)
unfolding requeue_after add sub
requeue_bounds now expires w h k l = grind (int_laws, negate_exact w (omega arith) k)

-- The status holds a credential minted at a time and valid until another.
pub record Holds (ec : EphemeralCredential) (minted expires : Time) : Type 0 where
  pub expiry : ec.status.expires_at ≡ some expires
  pub rotated : ec.status.last_rotated_at ≡ some minted

granted_lifetime-Holds :
    {ec : EphemeralCredential} {minted expires : Time}
    → Holds ec minted expires
    → IsInt64 (expires -ℤ minted)
    → granted_lifetime ec ≡ expires -ℤ minted
unfolding granted_lifetime
granted_lifetime-Holds {minted = m} {expires = e} h range =
    rw (h.expiry, h.rotated) (sub_exact e m range)

-- The status of a mint keeps the reconciler from minting again until half of the granted lifetime
-- is over, whatever window the spec asks for, as long as the spec's generation has been observed
-- and the lifetime is positive and an int64.
pub needs_mint-first_half :
    (ec : EphemeralCredential) (minted expires now : Time)
    → Holds ec minted expires
    → ec.metadata.generation ≡ ec.status.observed_generation
    → pos 0 <ℤ expires -ℤ minted
    → expires -ℤ minted ≤ℤ max_int64
    → now +ℤ now <ℤ minted +ℤ expires
    → needs_mint now (current_window ec) ec ≡ false
unfolding needs_mint current_window add
needs_mint-first_half ec minted expires now h same positive range early =
    let life : granted_lifetime ec ≡ expires -ℤ minted =
      granted_lifetime-Holds h (omega int_laws) in
    let fits : IsClamped _ _ _ _ =
      clamp_rotate_before-IsClamped (requested_rotate_before ec) (granted_lifetime ec)
        (rw life positive) in
    rw h.expiry (grind (int_laws, same, fits.within_half, life))

-- At the wake-up the stored times leave no room: either the credential is over, or the window that
-- they give has opened.
window_open :
    (r : Duration) (minted expires minted' expires' now : Time)
    → pos 0 <ℤ r
    → r ≤ℤ max_int64
    → minted' ≤ℤ minted
    → expires' ≤ℤ expires
    → expires -ℤ minted ≤ℤ max_int64
    → minted +ℤ requeue_after minted expires (clamp_rotate_before r (expires -ℤ minted)).0 ≤ℤ now
    → expires' ≤ℤ now +ℤ (clamp_rotate_before r (expires' -ℤ minted')).0
window_open r m e m' e' now hr kr p q range late =
    let w : Duration = (clamp_rotate_before r (e -ℤ m)).0 in
    let bounds : (pos 0 ≤ℤ w) × (w ≤ℤ r) = clamp_bounds r (e -ℤ m) hr in
    let wait : (min_requeue_after ≤ℤ requeue_after m e w) × (e ≤ℤ m +ℤ requeue_after m e w +ℤ w) =
      requeue_bounds m e w bounds.0 (≤ℤ_trans w r max_int64 bounds.1 kr) range in
    elim (≤ℤ_or_lt (e -ℤ m) (pos 0)) [
      | inl over ↦ omega (int_laws, clamp_bounds r (e' -ℤ m') hr)
      | inr positive ↦ omega (
        int_laws,
        clamp_shrinks r (e -ℤ m) (e' -ℤ m') (e -ℤ e') hr positive (omega int_laws) (omega int_laws),
      )
    ]

-- At or after the wake-up that a mint schedules, a mint is due again. The status may hold earlier
-- times than the mint had, as the API server drops fractions of a second; both lifetimes are taken
-- to fit an int64.
pub needs_mint-wake :
    (ec : EphemeralCredential) (minted expires minted' expires' now : Time)
    → Holds ec minted' expires'
    → minted' ≤ℤ minted
    → expires' ≤ℤ expires
    → IsInt64 (expires -ℤ minted)
    → IsInt64 (expires' -ℤ minted')
    → minted +ℤ requeue_after minted expires (next_window ec minted expires).0 ≤ℤ now
    → needs_mint now (current_window ec) ec ≡ true
unfolding needs_mint current_window add next_window
needs_mint-wake ec minted expires minted' expires' now h p q range range' late =
    let life : granted_lifetime ec ≡ expires' -ℤ minted' = granted_lifetime-Holds h range' in
    let (positive, fits) = requested_bounds ec in
    let open_now : expires'
        ≤ℤ now +ℤ (clamp_rotate_before (requested_rotate_before ec) (expires' -ℤ minted')).0 =
      window_open (requested_rotate_before ec) minted expires minted' expires' now positive fits p q
        range.1 (rw (← sub_exact expires minted range) late) in
    rw (current_window, life) (grind int_laws)

-- The delay never leaves the floor and the time to the window: it is the larger of the two.
pub requeue_at_most :
    (now expires : Time) (w : Duration)
    → pos 0 ≤ℤ w
    → w ≤ℤ max_int64
    → IsInt64 (expires -ℤ now)
    → (requeue_after now expires w ≤ℤ min_requeue_after)
      ⊎ (now +ℤ requeue_after now expires w +ℤ w ≤ℤ expires)
unfolding requeue_after add sub
requeue_at_most now expires w h k l = grind (int_laws, negate_exact w (omega arith) k)

clamp_positive : (r g : Duration) → pos 0 <ℤ r → pos 1 <ℤ g → pos 0 <ℤ (clamp_rotate_before r g).0
unfolding clamp_rotate_before
clamp_positive r g hr hg = grind (int_laws, half_nonneg g)

-- For a credential that lives longer than the floor of the delay, and no longer than an int64 of
-- nanoseconds, the wake-up that its mint schedules comes strictly before its expiry, and no sooner
-- than the floor.
pub requeue_before_expiry :
    (ec : EphemeralCredential) (minted expires : Time)
    → min_requeue_after <ℤ expires -ℤ minted
    → expires -ℤ minted ≤ℤ max_int64
    → let delay : Duration = requeue_after minted expires (next_window ec minted expires).0 in
      (min_requeue_after ≤ℤ delay) × (minted +ℤ delay <ℤ expires)
unfolding next_window
requeue_before_expiry ec minted expires long range =
    let r : Duration = requested_rotate_before ec in
    let asked : (pos 0 <ℤ r) × (r ≤ℤ max_int64) = requested_bounds ec in
    let w : Duration = (clamp_rotate_before r (expires -ℤ minted)).0 in
    let bounds : (pos 0 ≤ℤ w) × (w ≤ℤ r) = clamp_bounds r (expires -ℤ minted) asked.0 in
    let fits : w ≤ℤ max_int64 = ≤ℤ_trans w r max_int64 bounds.1 asked.1 in
    rw (sub_exact expires minted (omega int_laws)) (
      omega (
        int_laws,
        requeue_bounds minted expires w bounds.0 fits range,
        requeue_at_most minted expires w bounds.0 fits (omega int_laws),
        clamp_positive r (expires -ℤ minted) asked.0 (omega int_laws),
      ))

-- The floor holds for every delay.
pub requeue_floor :
    (now expires : Time) (w : Duration) → min_requeue_after ≤ℤ requeue_after now expires w
unfolding requeue_after
requeue_floor now expires w = ground arith
