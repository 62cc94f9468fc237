-- ===== src/DeepCopy/Configs.antt =====
-- The copies of the spec and of what it consists of are deep.
use ephemeral_credential_bro.Base.{String, refl, Option, List}
use ephemeral_credential_bro.Base.Int.{ℤ}
use ephemeral_credential_bro.Base.Map.{Map}
use ephemeral_credential_bro.Api.{
  AwsProviderConfig, VaultProviderConfig, LocalObjectReference, ProviderName,
}
use ephemeral_credential_bro.DeepCopy.{
  copy_database, copy_github, copy_provider_config, copy_target_secret, copy_spec,
  deep_copy_local_ref, deep_copy_aws, deep_copy_vault, deep_copy_database, deep_copy_github,
  deep_copy_provider_config, deep_copy_target_secret, deep_copy_spec,
}
use ephemeral_credential_bro.DeepCopy.Memory.{Ref, allocate, copy_strings, copy_entries}
use ephemeral_credential_bro.DeepCopy.Objects.{
  TargetSecretFields, GitHubFields, DatabaseFields, ProviderConfigFields, SpecFields,
}
use ephemeral_credential_bro.DeepCopy.Views.{
  View, IsDeepCopy, plain, entries, ref, plain-IsDeepCopy, copy_entries-IsDeepCopy,
  allocate-IsDeepCopy, both, copy_both-IsDeepCopy, struct, struct-IsDeepCopy,
}

abbrev Entries : Type 0
Entries = String → Option String

abbrev strings : View (Option (Ref (List String))) (Option (List String))
strings = ref plain

abbrev string_map : View (Option (Ref (Map String))) (Option Entries)
string_map = ref entries

strings-IsDeepCopy : IsDeepCopy strings (allocate copy_strings)
strings-IsDeepCopy = allocate-IsDeepCopy plain-IsDeepCopy

string_map-IsDeepCopy : IsDeepCopy string_map (allocate copy_entries)
string_map-IsDeepCopy = allocate-IsDeepCopy copy_entries-IsDeepCopy

abbrev pub target_secret : View TargetSecretFields (String × Option Entries)
target_secret = struct (λ s. s.name) (λ s. s.keys) string_map

pub copy_target_secret-IsDeepCopy : IsDeepCopy target_secret copy_target_secret
unfolding copy_target_secret
copy_target_secret-IsDeepCopy =
    struct-IsDeepCopy (λ s. s.name) (λ s. s.keys) string_map-IsDeepCopy (λ s n. refl) (λ s n. refl)
      (λ s n. refl)

abbrev GitHubValue : Type 0
GitHubValue = LocalObjectReference × (Option (List String) × Option Entries)

abbrev pub github : View GitHubFields GitHubValue
github =
    struct (λ s. s.app_config_ref) (λ s. (s.repositories, s.permissions)) (both strings string_map)

pub copy_github-IsDeepCopy : IsDeepCopy github copy_github
unfolding copy_github
copy_github-IsDeepCopy =
    struct-IsDeepCopy (λ s. s.app_config_ref) (λ s. (s.repositories, s.permissions))
      (copy_both-IsDeepCopy strings-IsDeepCopy string_map-IsDeepCopy) (λ s n. refl) (λ s n. refl)
      (λ s n. refl)

abbrev DatabaseValue : Type 0
DatabaseValue = (String × LocalObjectReference × LocalObjectReference) × Option (List String)

abbrev pub database : View DatabaseFields DatabaseValue
database = struct (λ s. (s.engine, s.admin_secret_ref, s.connection_ref)) (λ s. s.grants) strings

pub copy_database-IsDeepCopy : IsDeepCopy database copy_database
unfolding copy_database
copy_database-IsDeepCopy =
    struct-IsDeepCopy (λ s. (s.engine, s.admin_secret_ref, s.connection_ref)) (λ s. s.grants)
      strings-IsDeepCopy (λ s n. refl) (λ s n. refl) (λ s n. refl)

abbrev ProviderConfigValue : Type 0
ProviderConfigValue =
    Unit {0}
    × (((Option GitHubValue × Option AwsProviderConfig) × Option DatabaseValue)
        × Option VaultProviderConfig)

abbrev pub provider_config : View ProviderConfigFields ProviderConfigValue
provider_config =
    struct (λ s. tt) (λ s. (((s.github, s.aws), s.database), s.vault))
      (both (both (both (ref github) (ref plain)) (ref database)) (ref plain))

pub copy_provider_config-IsDeepCopy : IsDeepCopy provider_config copy_provider_config
unfolding copy_provider_config
copy_provider_config-IsDeepCopy =
    struct-IsDeepCopy (λ s. tt) (λ s. (((s.github, s.aws), s.database), s.vault))
      (copy_both-IsDeepCopy
        (copy_both-IsDeepCopy
          (copy_both-IsDeepCopy (allocate-IsDeepCopy copy_github-IsDeepCopy)
            (allocate-IsDeepCopy plain-IsDeepCopy))
          (allocate-IsDeepCopy copy_database-IsDeepCopy))
        (allocate-IsDeepCopy plain-IsDeepCopy))
      (λ s n. refl) (λ s n. refl) (λ s n. refl)

abbrev pub SpecValue : Type 0
SpecValue = (ProviderName × ℤ × ℤ) × ((String × Option Entries) × ProviderConfigValue)

abbrev pub spec : View SpecFields SpecValue
spec =
    struct (λ s. (s.provider, s.ttl_seconds, s.rotate_before_seconds))
      (λ s. (s.target_secret, s.provider_config)) (both target_secret provider_config)

pub copy_spec-IsDeepCopy : IsDeepCopy spec copy_spec
unfolding copy_spec
copy_spec-IsDeepCopy =
    struct-IsDeepCopy (λ s. (s.provider, s.ttl_seconds, s.rotate_before_seconds))
      (λ s. (s.target_secret, s.provider_config))
      (copy_both-IsDeepCopy copy_target_secret-IsDeepCopy copy_provider_config-IsDeepCopy)
      (λ s n. refl) (λ s n. refl) (λ s n. refl)

-- `DeepCopy` of a pointer to each type that the spec consists of is a deep copy: nil from nil, else a
-- pointer to the same value in every field, at addresses that were free, also for what is reached
-- through it.
pub deep_copies-IsDeepCopy :
    IsDeepCopy (ref plain) deep_copy_local_ref
    × IsDeepCopy (ref plain) deep_copy_aws
    × IsDeepCopy (ref plain) deep_copy_vault
    × IsDeepCopy (ref database) deep_copy_database
    × IsDeepCopy (ref github) deep_copy_github
    × IsDeepCopy (ref provider_config) deep_copy_provider_config
    × IsDeepCopy (ref target_secret) deep_copy_target_secret
    × IsDeepCopy (ref spec) deep_copy_spec
deep_copies-IsDeepCopy = (
  allocate-IsDeepCopy plain-IsDeepCopy,
  allocate-IsDeepCopy plain-IsDeepCopy,
  allocate-IsDeepCopy plain-IsDeepCopy,
  allocate-IsDeepCopy copy_database-IsDeepCopy,
  allocate-IsDeepCopy copy_github-IsDeepCopy,
  allocate-IsDeepCopy copy_provider_config-IsDeepCopy,
  allocate-IsDeepCopy copy_target_secret-IsDeepCopy,
  allocate-IsDeepCopy copy_spec-IsDeepCopy,
)
