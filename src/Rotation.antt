-- ===== src/Rotation.antt =====
-- The rotation window of internal/controller/ephemeralcredential_controller.go: what the spec asks
-- for, what the provider granted, whether a mint is due, and when to look again.
pub mod Window
pub mod Schedule
pub mod Waiting
use ephemeral_credential_bro.Base.{
  ℕ, Bool, true, false, not, ◌||◌, Option, none, some, ltb, if◌then◌else◌,
}
use ephemeral_credential_bro.Base.Int.{ℤ, pos, half, ltb_ℤ, leb_ℤ, ◌==ℤ◌}
use ephemeral_credential_bro.GoTime.{Time, Duration, seconds, seconds_of, negate, add, sub, before}
use ephemeral_credential_bro.Api.{EphemeralCredential}

abbrev pub default_rotate_before : Duration
default_rotate_before = seconds 600

abbrev pub min_requeue_after : Duration
min_requeue_after = seconds 5

-- `clampRotateBefore` and `requestedRotateBefore` both replace a window that is not positive.
abbrev pub or_default : Duration → Duration
or_default d = if leb_ℤ d (pos 0) then default_rotate_before else d

unfoldable pub requested_rotate_before : EphemeralCredential → Duration
requested_rotate_before ec = or_default (seconds_of ec.spec.rotate_before_seconds)

abbrev granted : Option Time → Option Time → Duration
granted none rotated = pos 0
granted (some expires) none = pos 0
granted (some expires) (some rotated) = sub expires rotated

unfoldable pub granted_lifetime : EphemeralCredential → Duration
granted_lifetime ec = granted ec.status.expires_at ec.status.last_rotated_at

unfoldable pub clamp_rotate_before : Duration → Duration → Duration × Bool
clamp_rotate_before requested granted =
    let requested' : Duration = or_default requested in
    if leb_ℤ granted (pos 0)
    then (requested', false)
    else let ceiling : Duration = half granted in
      if ltb_ℤ ceiling requested' then (ceiling, true) else (requested', false)

-- The window that `Reconcile` first computes, from the status.
unfoldable pub current_window : EphemeralCredential → Duration
current_window ec = (clamp_rotate_before (requested_rotate_before ec) (granted_lifetime ec)).0

-- The window after a mint, against the lifetime just granted, and whether it was reduced.
unfoldable pub next_window : EphemeralCredential → Time → Time → Duration × Bool
next_window ec now expires = clamp_rotate_before (requested_rotate_before ec) (sub expires now)

abbrev stale : Bool → Time → Duration → Option Time → Bool
stale changed now rotate_before none = true
stale changed now rotate_before (some expires) =
    changed || not (before (add now rotate_before) expires)

-- `needsMint`
unfoldable pub needs_mint : Time → Duration → EphemeralCredential → Bool
needs_mint now rotate_before ec =
    let changed : Bool = not (ec.metadata.generation ==ℤ ec.status.observed_generation) in
    stale changed now rotate_before ec.status.expires_at

-- `requeueAfter`, with its floor
unfoldable pub requeue_after : Time → Time → Duration → Duration
requeue_after now expires rotate_before =
    let after : Duration = sub (add expires (negate rotate_before)) now in
    if ltb_ℤ after min_requeue_after then min_requeue_after else after
