-- ===== src/DeepCopy.antt =====
-- The deep copies of api/v1alpha1/zz_generated.deepcopy.go: for each type `DeepCopyInto`, from what
-- `in` is to what `*out` becomes, and `DeepCopy`. Each starts from `*out = *in`, so a field that is
-- not set after that still has the pointers of the original.
pub mod Memory
pub mod Objects
pub mod Views
pub mod Configs
pub mod Apart
use ephemeral_credential_bro.Base.{Option, none, some, List}
use ephemeral_credential_bro.GoTime.{Time}
use ephemeral_credential_bro.Api.{AwsProviderConfig, VaultProviderConfig, LocalObjectReference}
use Memory.{Ref, Alloc, kept, ◌>>=◌, allocate, copy_each, copy_strings, copy_entries}
use Objects.{
  TargetSecretFields, GitHubFields, DatabaseFields, ProviderConfigFields, SpecFields, StatusFields,
  CredentialFields, CredentialListFields, Object, credential_object, list_object, Library,
}

abbrev pub copy_aws : AwsProviderConfig → Alloc AwsProviderConfig
copy_aws cfg = kept cfg

abbrev pub copy_vault : VaultProviderConfig → Alloc VaultProviderConfig
copy_vault cfg = kept (record cfg { backend_ref = cfg.backend_ref })

abbrev pub copy_local_ref : LocalObjectReference → Alloc LocalObjectReference
copy_local_ref ref = kept ref

unfoldable pub copy_database : DatabaseFields → Alloc DatabaseFields
copy_database cfg = do
  grants ← allocate copy_strings cfg.grants
  kept (record cfg {
    admin_secret_ref = cfg.admin_secret_ref;
    connection_ref = cfg.connection_ref;
    grants = grants;
  })

unfoldable pub copy_github : GitHubFields → Alloc GitHubFields
copy_github cfg = do
  repositories ← allocate copy_strings cfg.repositories
  permissions ← allocate copy_entries cfg.permissions
  kept (record cfg {
    app_config_ref = cfg.app_config_ref;
    repositories = repositories;
    permissions = permissions;
  })

unfoldable pub copy_provider_config : ProviderConfigFields → Alloc ProviderConfigFields
copy_provider_config cfg = do
  github ← allocate copy_github cfg.github
  aws ← allocate copy_aws cfg.aws
  database ← allocate copy_database cfg.database
  vault ← allocate copy_vault cfg.vault
  kept (record cfg { github = github; aws = aws; database = database; vault = vault })

unfoldable pub copy_target_secret : TargetSecretFields → Alloc TargetSecretFields
copy_target_secret target = do
  keys ← allocate copy_entries target.keys
  kept (record target { keys = keys })

unfoldable pub copy_spec : SpecFields → Alloc SpecFields
copy_spec spec = do
  target_secret ← copy_target_secret spec.target_secret
  provider_config ← copy_provider_config spec.provider_config
  kept (record spec { target_secret = target_secret; provider_config = provider_config })

abbrev pub deep_copy_aws : Option (Ref AwsProviderConfig) → Alloc (Option (Ref AwsProviderConfig))
deep_copy_aws = allocate copy_aws

abbrev pub deep_copy_vault :
    Option (Ref VaultProviderConfig) → Alloc (Option (Ref VaultProviderConfig))
deep_copy_vault = allocate copy_vault

abbrev pub deep_copy_local_ref :
    Option (Ref LocalObjectReference) → Alloc (Option (Ref LocalObjectReference))
deep_copy_local_ref = allocate copy_local_ref

abbrev pub deep_copy_database : Option (Ref DatabaseFields) → Alloc (Option (Ref DatabaseFields))
deep_copy_database = allocate copy_database

abbrev pub deep_copy_github : Option (Ref GitHubFields) → Alloc (Option (Ref GitHubFields))
deep_copy_github = allocate copy_github

abbrev pub deep_copy_provider_config :
    Option (Ref ProviderConfigFields) → Alloc (Option (Ref ProviderConfigFields))
deep_copy_provider_config = allocate copy_provider_config

abbrev pub deep_copy_target_secret :
    Option (Ref TargetSecretFields) → Alloc (Option (Ref TargetSecretFields))
deep_copy_target_secret = allocate copy_target_secret

abbrev pub deep_copy_spec : Option (Ref SpecFields) → Alloc (Option (Ref SpecFields))
deep_copy_spec = allocate copy_spec

module _ {Meta ListMeta Condition : Type 0} (lib : Library Meta ListMeta Condition) where
  -- `if t != nil { *out = t.DeepCopy() }`
  abbrev pub copy_set_time : Option (Ref Time) → Alloc (Option (Ref Time))
  copy_set_time none = kept none
  copy_set_time (some t) = lib.copy_time (some t)

  unfoldable pub copy_status : StatusFields Condition → Alloc (StatusFields Condition)
  copy_status status = do
    expires_at ← copy_set_time status.expires_at
    last_rotated_at ← copy_set_time status.last_rotated_at
    conditions ← allocate (copy_each lib.copy_condition) status.conditions
    kept (record status {
      expires_at = expires_at;
      last_rotated_at = last_rotated_at;
      conditions = conditions;
    })

  unfoldable pub copy_credential :
      CredentialFields Meta Condition → Alloc (CredentialFields Meta Condition)
  copy_credential ec = do
    metadata ← lib.copy_meta ec.metadata
    spec ← copy_spec ec.spec
    status ← copy_status ec.status
    kept (record ec { type_meta = ec.type_meta; metadata = metadata; spec = spec; status = status })

  unfoldable pub copy_credential_list :
      CredentialListFields Meta ListMeta Condition
      → Alloc (CredentialListFields Meta ListMeta Condition)
  copy_credential_list list = do
    metadata ← lib.copy_list_meta list.metadata
    items ← allocate (copy_each copy_credential) list.items
    kept (record list { type_meta = list.type_meta; metadata = metadata; items = items })

  abbrev pub deep_copy_status :
      Option (Ref (StatusFields Condition)) → Alloc (Option (Ref (StatusFields Condition)))
  deep_copy_status = allocate copy_status

  abbrev pub deep_copy_credential :
      Option (Ref (CredentialFields Meta Condition))
      → Alloc (Option (Ref (CredentialFields Meta Condition)))
  deep_copy_credential = allocate copy_credential

  abbrev pub deep_copy_credential_list :
      Option (Ref (CredentialListFields Meta ListMeta Condition))
      → Alloc (Option (Ref (CredentialListFields Meta ListMeta Condition)))
  deep_copy_credential_list = allocate copy_credential_list

  -- `DeepCopyObject`: a copy that is nil becomes a nil interface.
  abbrev pub deep_copy_object :
      Option (Ref (CredentialFields Meta Condition))
      → Alloc (Option (Object Meta ListMeta Condition))
  deep_copy_object p = do
    copied ← deep_copy_credential p
    kept (elim copied [ none ↦ none | some c ↦ some (credential_object c) ])

  abbrev pub deep_copy_list_object :
      Option (Ref (CredentialListFields Meta ListMeta Condition))
      → Alloc (Option (Object Meta ListMeta Condition))
  deep_copy_list_object p = do
    copied ← deep_copy_credential_list p
    kept (elim copied [ none ↦ none | some c ↦ some (list_object c) ])
