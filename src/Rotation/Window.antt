-- ===== src/Rotation/Window.antt =====
-- `clampRotateBefore` of internal/controller/ephemeralcredential_controller.go.
use ephemeral_credential_bro.Base.{Bool, true, false, ◌≡◌, ◌⊎◌}
use ephemeral_credential_bro.Base.Int.{pos, half, ◌+ℤ◌, ◌≤ℤ◌, ◌<ℤ◌, int_laws, half_nonneg}
use ephemeral_credential_bro.GoTime.{Duration}
use ephemeral_credential_bro.Rotation.{clamp_rotate_before, or_default}

-- What a window is to a requested one and a positive lifetime.
pub record IsClamped (requested granted window : Duration) (clamped : Bool) : Type 0 where
  pub nonneg : pos 0 ≤ℤ window
  pub within_half : window +ℤ window ≤ℤ granted
  pub decided :
      ((clamped ≡ true) × (window ≡ half granted) × (window <ℤ or_default requested))
      ⊎ ((clamped ≡ false) × (window ≡ or_default requested))

-- Against a positive lifetime the window is not negative, fits twice into the lifetime, and is either
-- half the lifetime, less than what was asked for and flagged as reduced, or what was asked for (ten
-- minutes where that is not positive) and not flagged.
pub clamp_rotate_before-IsClamped :
    (requested granted : Duration)
    → pos 0 <ℤ granted
    → let (window, clamped) = clamp_rotate_before requested granted in
      IsClamped requested granted window clamped
unfolding clamp_rotate_before
clamp_rotate_before-IsClamped r g h = grind (int_laws, half_nonneg)
