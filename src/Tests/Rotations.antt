-- ===== src/Tests/Rotations.antt =====
-- Rotation windows of a credential that lives for an hour.
use ephemeral_credential_bro.Base.{true, false, refl, ◌≡◌}
use ephemeral_credential_bro.Base.Int.{half, ◌-ℤ◌, scale, int_laws, ◌+ℤ◌, ◌≤ℤ◌, ◌<ℤ◌}
use ephemeral_credential_bro.GoTime.{seconds, seconds_of, sub, negate, add, wrap64}
use ephemeral_credential_bro.Rotation.{
  clamp_rotate_before, current_window, needs_mint, next_window, requeue_after, min_requeue_after,
  requested_rotate_before,
}
use ephemeral_credential_bro.Rotation.Window.{IsClamped, clamp_rotate_before-IsClamped}
use ephemeral_credential_bro.Rotation.Schedule.{
  Holds, needs_mint-first_half, needs_mint-wake, requeue_before_expiry,
}
use ephemeral_credential_bro.Tests.Sample.{credential}

clamp_rotate_before-IsClamped_example : IsClamped (seconds 600) (seconds 900) (seconds 450) true
unfolding clamp_rotate_before half
clamp_rotate_before-IsClamped_example =
    clamp_rotate_before-IsClamped (seconds 600) (seconds 900) (omega int_laws)

credential-Holds : Holds credential (seconds 1000) (seconds 4600)
credential-Holds = record { expiry = refl; rotated = refl }

needs_mint-first_half_example :
    needs_mint (seconds 2000) (current_window credential) credential ≡ false
needs_mint-first_half_example =
    needs_mint-first_half credential (seconds 1000) (seconds 4600) (seconds 2000) credential-Holds
      refl (omega int_laws) (omega int_laws) (omega int_laws)

-- The mint at 1000 s asks to be looked at again ten minutes before the expiry.
wake_delay :
    requeue_after
      (seconds 1000)
      (seconds 4600)
      (next_window credential (seconds 1000) (seconds 4600)).0
    ≡ seconds 3000
unfolding requeue_after next_window clamp_rotate_before half requested_rotate_before seconds_of sub
    negate add wrap64 ◌-ℤ◌ ◌+ℤ◌ scale
wake_delay = refl

needs_mint-wake_example : needs_mint (seconds 4000) (current_window credential) credential ≡ true
needs_mint-wake_example =
    needs_mint-wake credential (seconds 1000) (seconds 4600) (seconds 1000) (seconds 4600)
      (seconds 4000) credential-Holds (omega int_laws) (omega int_laws)
      (omega int_laws, omega int_laws) (omega int_laws, omega int_laws)
      (rw wake_delay (omega int_laws))

requeue_before_expiry_example :
    let delay =
      requeue_after
        (seconds 1000)
        (seconds 4600)
        (next_window credential (seconds 1000) (seconds 4600)).0 in
    (min_requeue_after ≤ℤ delay) × (seconds 1000 +ℤ delay <ℤ seconds 4600)
requeue_before_expiry_example =
    requeue_before_expiry credential (seconds 1000) (seconds 4600) (omega int_laws) (omega int_laws)
