-- ===== src/Rotation/Waiting.antt =====
-- When a credential that is not due should be looked at again.
use ephemeral_credential_bro.Base.{true, false, ◌≡◌, ◌⊎◌, inl, inr, some}
use ephemeral_credential_bro.Base.Int.{pos, ◌+ℤ◌, ◌-ℤ◌, ◌≤ℤ◌, ◌<ℤ◌, int_laws, ≤ℤ_trans}
use ephemeral_credential_bro.GoTime.{Time, Duration, max_int64, add}
use ephemeral_credential_bro.Api.{EphemeralCredential}
use ephemeral_credential_bro.Rotation.{
  requested_rotate_before, granted_lifetime, current_window, needs_mint, requeue_after,
  min_requeue_after,
}
use ephemeral_credential_bro.Rotation.Schedule.{
  requested_bounds, clamp_bounds, requeue_bounds, requeue_at_most,
}

-- When the holder of a credential that is not due should look again: not before the floor, not
-- after the window opens, and not before it opens unless the floor says so.
pub record ComesBack (ec : EphemeralCredential) (t : Time) (delay : Duration) : Type 0 where
  pub not_sooner : min_requeue_after ≤ℤ delay
  pub due : (later : Time) → t +ℤ delay ≤ℤ later → needs_mint later (current_window ec) ec ≡ true
  pub not_early :
      (delay ≡ min_requeue_after)
      ⊎ ((earlier : Time)
          → earlier <ℤ t +ℤ delay
          → needs_mint earlier (current_window ec) ec ≡ false)

current_bounds :
    (ec : EphemeralCredential) → (pos 0 ≤ℤ current_window ec) × (current_window ec ≤ℤ max_int64)
unfolding current_window
current_bounds ec =
    let asked : (pos 0 <ℤ requested_rotate_before ec) × (requested_rotate_before ec ≤ℤ max_int64) =
      requested_bounds ec in
    let bounds = clamp_bounds (requested_rotate_before ec) (granted_lifetime ec) asked.0 in
    (bounds.0, ≤ℤ_trans _ (requested_rotate_before ec) max_int64 bounds.1 asked.1)

-- What a credential that is not due at a time says of other times.
due_later :
    (ec : EphemeralCredential) (expires now : Time) (w : Duration)
    → ec.status.expires_at ≡ some expires
    → expires ≤ℤ now +ℤ w
    → needs_mint now w ec ≡ true
unfolding needs_mint add
due_later ec expires now w valid over = rw valid (grind int_laws)

not_due :
    (ec : EphemeralCredential) (expires t now : Time) (w : Duration)
    → ec.status.expires_at ≡ some expires
    → needs_mint t w ec ≡ false
    → now +ℤ w <ℤ expires
    → needs_mint now w ec ≡ false
unfolding needs_mint add
not_due ec expires t now w valid quiet early = rw valid (grind (int_laws, valid, quiet))

still_valid :
    (ec : EphemeralCredential) (expires t : Time) (w : Duration)
    → ec.status.expires_at ≡ some expires
    → needs_mint t w ec ≡ false
    → t +ℤ w <ℤ expires
unfolding needs_mint add
still_valid ec expires t w valid quiet = grind (int_laws, valid, quiet)

pub requeue_after-ComesBack :
    (ec : EphemeralCredential) (expires t : Time)
    → ec.status.expires_at ≡ some expires
    → needs_mint t (current_window ec) ec ≡ false
    → expires -ℤ t ≤ℤ max_int64
    → ComesBack ec t (requeue_after t expires (current_window ec))
requeue_after-ComesBack ec expires t valid quiet range =
    let w : Duration = current_window ec in
    let fits : (pos 0 ≤ℤ w) × (w ≤ℤ max_int64) = current_bounds ec in
    let open_later : t +ℤ w <ℤ expires = still_valid ec expires t w valid quiet in
    let wait = requeue_bounds t expires w fits.0 fits.1 range in
    record {
      not_sooner = wait.0;
      due = λ later h. due_later ec expires later w valid (omega (int_laws, wait.1, h));
      not_early = elim (requeue_at_most t expires w fits.0 fits.1 (omega int_laws)) [
        | inl floor ↦ inl (omega (int_laws, wait.0, floor))
        | inr soon ↦ inr (λ earlier h. not_due ec expires t earlier w valid quiet (omega int_laws))
      ];
    }
