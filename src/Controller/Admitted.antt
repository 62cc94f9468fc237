-- ===== src/Controller/Admitted.antt =====
-- What the checks before the controller leave to it and to the provider: an admitted spec, and a
-- scope that was built.
use ephemeral_credential_bro.Base.{String, ◌≡◌, ◌≢◌, refl, [], arith}
use ephemeral_credential_bro.Base.Int.{ℤ, pos, int_laws, scale, ◌<ℤ◌}
use ephemeral_credential_bro.GoTime.{Duration, seconds_of, nanoseconds}
use ephemeral_credential_bro.GoTime.Laws.{seconds_of_exact}
use ephemeral_credential_bro.Api.{EphemeralCredential, EphemeralCredentialSpec}
use ephemeral_credential_bro.Api.Admission.{IsAdmitted}
use ephemeral_credential_bro.Effects.{ok}
use ephemeral_credential_bro.Rotation.{or_default, requested_rotate_before}
use ephemeral_credential_bro.Provider.Scope.{AnyScope, github_scope}
use ephemeral_credential_bro.Cluster.{Reconciler}
use ephemeral_credential_bro.Controller.Scope.{build_scope, build_github_scope}
use ephemeral_credential_bro.Controller.Mint.{mint_request}

-- A scope with which the github-app provider gets past its own check of App ID and key.
abbrev pub IsUsable : AnyScope → Type 0
IsUsable (github_scope scope) = (scope.app_id ≢ []) × (scope.private_key_pem ≢ [])
IsUsable _ = ⊥

-- Every scope that the controller builds is one of GitHub's, with an App ID and a private key that
-- are not empty.
pub build_scope-IsUsable :
    {W : Type 0} (r : Reconciler W) (namespace : String) (spec : EphemeralCredentialSpec) (w : W)
    (scope : AnyScope)
    → (build_scope r namespace spec w).0 ≡ ok scope
    → IsUsable scope
unfolding build_scope build_github_scope
build_scope-IsUsable r namespace spec w scope h = ground arith

seconds_order :
    (a b : ℤ)
    → pos 0 <ℤ a
    → a <ℤ b
    → (pos 0 <ℤ scale nanoseconds a) × (scale nanoseconds a <ℤ scale nanoseconds b)
unfolding scale
seconds_order a b positive less = ground arith

kept : (d : Duration) → pos 0 <ℤ d → or_default d ≡ d
kept d positive = ground arith

-- For an admitted spec the rotation window and the lifetime that are asked for are the spec's
-- numbers of seconds, with no overflow and no default, and the window is shorter than the lifetime.
pub admitted_window :
    (ec : EphemeralCredential) (scope : AnyScope)
    → IsAdmitted ec.spec
    → (requested_rotate_before ec ≡ scale nanoseconds ec.spec.rotate_before_seconds)
      × ((mint_request ec scope).ttl ≡ scale nanoseconds ec.spec.ttl_seconds)
      × (requested_rotate_before ec <ℤ (mint_request ec scope).ttl)
unfolding requested_rotate_before
admitted_window ec scope h =
    let rotate : ℤ = ec.spec.rotate_before_seconds in
    let ttl : ℤ = ec.spec.ttl_seconds in
    let (positive, less) : (pos 0 <ℤ scale nanoseconds rotate)
        × (scale nanoseconds rotate <ℤ scale nanoseconds ttl) =
      seconds_order rotate ttl (omega (int_laws, h.rotate_minimum)) h.rotate_before_ttl in
    let exact : seconds_of rotate ≡ scale nanoseconds rotate =
      seconds_of_exact rotate (
        omega (int_laws, h.rotate_minimum),
        omega (int_laws, h.rotate_before_ttl, h.ttl_range.1),
      ) in
    rw (seconds_of_exact ttl h.ttl_range, exact, kept (scale nanoseconds rotate) positive)
      (refl, refl, less)
