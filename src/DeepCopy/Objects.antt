-- ===== src/DeepCopy/Objects.antt =====
-- The types of api/v1alpha1/ephemeralcredential_types.go with the pointers, slices and maps that Go
-- has in them; a struct with neither is the one of Api.antt.
use ephemeral_credential_bro.Base.{String, Option, List}
use ephemeral_credential_bro.Base.Int.{ℤ}
use ephemeral_credential_bro.Base.Map.{Map}
use ephemeral_credential_bro.GoTime.{Time}
use ephemeral_credential_bro.Api.{
  AwsProviderConfig, VaultProviderConfig, LocalObjectReference, ProviderName, CredentialState,
}
use ephemeral_credential_bro.DeepCopy.Memory.{Ref, Alloc}

-- `metav1.TypeMeta`
pub record TypeMeta : Type 0 where
  pub kind : String
  pub api_version : String

pub record TargetSecretFields : Type 0 where
  pub name : String
  pub keys : Option (Ref (Map String))

pub record GitHubFields : Type 0 where
  pub app_config_ref : LocalObjectReference
  pub repositories : Option (Ref (List String))
  pub permissions : Option (Ref (Map String))

pub record DatabaseFields : Type 0 where
  pub engine : String
  pub admin_secret_ref : LocalObjectReference
  pub connection_ref : LocalObjectReference
  pub grants : Option (Ref (List String))

pub record ProviderConfigFields : Type 0 where
  pub github : Option (Ref GitHubFields)
  pub aws : Option (Ref AwsProviderConfig)
  pub database : Option (Ref DatabaseFields)
  pub vault : Option (Ref VaultProviderConfig)

pub record SpecFields : Type 0 where
  pub provider : ProviderName
  pub ttl_seconds : ℤ
  pub rotate_before_seconds : ℤ
  pub target_secret : TargetSecretFields
  pub provider_config : ProviderConfigFields

pub record StatusFields (Condition : Type 0) : Type 0 where
  pub state : CredentialState
  pub expires_at : Option (Ref Time)
  pub last_rotated_at : Option (Ref Time)
  pub observed_generation : ℤ
  pub conditions : Option (Ref (List Condition))

pub record CredentialFields (Meta Condition : Type 0) : Type 0 where
  pub type_meta : TypeMeta
  pub metadata : Meta
  pub spec : SpecFields
  pub status : StatusFields Condition

pub record CredentialListFields (Meta ListMeta Condition : Type 0) : Type 0 where
  pub type_meta : TypeMeta
  pub metadata : ListMeta
  pub items : Option (Ref (List (CredentialFields Meta Condition)))

-- `runtime.Object`: a pointer to a type of the API.
pub data Object (Meta ListMeta Condition : Type 0) : Type 0 where
  credential_object : Ref (CredentialFields Meta Condition) → Object Meta ListMeta Condition
  list_object : Ref (CredentialListFields Meta ListMeta Condition) → Object Meta ListMeta Condition

-- The deep copies of apimachinery that the package calls.
pub record Library (Meta ListMeta Condition : Type 0) : Type 0 where
  pub copy_meta : Meta → Alloc Meta
  pub copy_list_meta : ListMeta → Alloc ListMeta
  pub copy_condition : Condition → Alloc Condition
  -- `(*metav1.Time).DeepCopy`
  pub copy_time : Option (Ref Time) → Alloc (Option (Ref Time))
