-- ===== src/Api/Admission.antt =====
-- What the CRD's markers and CEL rules on the fields of the spec itself admit (the kubebuilder comments of
-- api/v1alpha1/ephemeralcredential_types.go), as a predicate on a spec. The markers inside the blocks of
-- `providerConfig` are left out.
use ephemeral_credential_bro.Base.{◌≡◌, ◌⊎◌, Option, none, some}
use ephemeral_credential_bro.Base.Int.{pos, ◌≤ℤ◌, ◌<ℤ◌}
use ephemeral_credential_bro.GoTime.{IsInt32}
use ephemeral_credential_bro.Api.{EphemeralCredentialSpec, github_app, aws_sts, database, vault}

abbrev IsPresent : {A : Type 0} → Option A → Type 0
IsPresent none = ⊥
IsPresent (some a) = Unit

-- The spec passes these of the CRD's rules: the ranges of its numbers, the rotation window below the
-- requested lifetime, a known provider, and the block of `providerConfig` that it names.
pub record IsAdmitted (spec : EphemeralCredentialSpec) : Type 0 where
  pub ttl_range : IsInt32 spec.ttl_seconds
  pub ttl_minimum : pos 60 ≤ℤ spec.ttl_seconds
  pub rotate_minimum : pos 30 ≤ℤ spec.rotate_before_seconds
  pub rotate_before_ttl : spec.rotate_before_seconds <ℤ spec.ttl_seconds
  pub configured :
      ((spec.provider ≡ github_app) × IsPresent spec.provider_config.github)
      ⊎ ((spec.provider ≡ aws_sts) × IsPresent spec.provider_config.aws)
      ⊎ ((spec.provider ≡ database) × IsPresent spec.provider_config.database)
      ⊎ ((spec.provider ≡ vault) × IsPresent spec.provider_config.vault)
