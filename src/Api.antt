-- ===== src/Api.antt =====
-- api/v1alpha1/ephemeralcredential_types.go: the EphemeralCredential resource, and the fields of the
-- Kubernetes types that the broker reads or writes (object metadata, conditions, Secrets).
-- Constants are shared by the controller and its tests; `secret_data` is the source's `Data`.
pub mod Error
pub mod Admission
use ephemeral_credential_bro.Base.{ℕ, String, Bool, Option, List}
use ephemeral_credential_bro.Base.Int.{ℤ}
use ephemeral_credential_bro.Base.Map.{Map}
use ephemeral_credential_bro.GoTime.{Time}
use Error.{Message}

-- `[]byte`; a Go string that only travels between byte slices is also its bytes.
abbrev pub Bytes : Type 0
Bytes = List ℕ

-- The values of `CredentialState`; `unset` is the empty string.
pub data CredentialState : Type 0 where
  unset pending active expiring failed : CredentialState

-- The `Reason…` constants.
pub data Reason : Type 0 where
  pending_first_mint mint_succeeded mint_failed rotation_failed provider_not_found : Reason
  invalid_config secret_write_failed secret_missing revoke_failed : Reason
  rotation_window_clamped : Reason

pub data ConditionStatus : Type 0 where
  condition_true condition_false condition_unknown : ConditionStatus

pub data EventType : Type 0 where
  normal warning : EventType

-- `ProviderName` is a string type: a stored object may hold any.
abbrev pub ProviderName : Type 0
ProviderName = String

abbrev pub github_app : ProviderName
github_app = "github-app"

abbrev pub aws_sts : ProviderName
aws_sts = "aws-sts"

abbrev pub database : ProviderName
database = "database"

abbrev pub vault : ProviderName
vault = "vault"

abbrev pub condition_ready : String
condition_ready = "Ready"

abbrev pub finalizer_name : String
finalizer_name = "broker.shivansh-sinha.dev/finalizer"

abbrev pub target_secret_type : String
target_secret_type = "Opaque"

pub record LocalObjectReference : Type 0 where
  pub name : String

pub record TargetSecretSpec : Type 0 where
  pub name : String
  pub keys : Map String

pub record GitHubProviderConfig : Type 0 where
  pub app_config_ref : LocalObjectReference
  pub repositories : List String
  pub permissions : Map String

pub record AwsProviderConfig : Type 0 where
  pub role_arn : String
  pub session_policy : String
  pub region : String
  pub duration_seconds : ℤ

pub record DatabaseProviderConfig : Type 0 where
  pub engine : String
  pub admin_secret_ref : LocalObjectReference
  pub connection_ref : LocalObjectReference
  pub grants : List String

pub record VaultProviderConfig : Type 0 where
  pub backend_ref : LocalObjectReference
  pub path : String
  pub renewable : Bool

pub record ProviderConfig : Type 0 where
  pub github : Option GitHubProviderConfig
  pub aws : Option AwsProviderConfig
  pub database : Option DatabaseProviderConfig
  pub vault : Option VaultProviderConfig

pub record EphemeralCredentialSpec : Type 0 where
  pub provider : ProviderName
  pub ttl_seconds : ℤ
  pub rotate_before_seconds : ℤ
  pub target_secret : TargetSecretSpec
  pub provider_config : ProviderConfig

-- `metav1.Condition`
pub record Condition : Type 0 where
  pub condition_type : String
  pub status : ConditionStatus
  pub observed_generation : ℤ
  pub last_transition_time : Option Time
  pub reason : Reason
  pub message : Message

pub record EphemeralCredentialStatus : Type 0 where
  pub state : CredentialState
  pub expires_at : Option Time
  pub last_rotated_at : Option Time
  pub observed_generation : ℤ
  pub conditions : List Condition

-- The fields of `metav1.ObjectMeta` that the broker or the libraries that it calls work with.
pub record ObjectMeta : Type 0 where
  pub name : String
  pub namespace : String
  pub uid : String
  pub resource_version : String
  pub generation : ℤ
  pub deletion_timestamp : Option Time
  pub finalizers : List String
  pub owner_references : List String
  pub annotations : Map String

pub record EphemeralCredential : Type 0 where
  pub metadata : ObjectMeta
  pub spec : EphemeralCredentialSpec
  pub status : EphemeralCredentialStatus

-- `corev1.Secret`
pub record Secret : Type 0 where
  pub metadata : ObjectMeta
  pub secret_type : String
  pub secret_data : Map Bytes
