-- ===== src/Cluster.antt =====
-- What the reconciler is given: the Kubernetes client and the apimachinery and controller-runtime
-- functions that it calls, which are parameters, and the fields of `EphemeralCredentialReconciler`.
use ephemeral_credential_bro.Base.{String, Bool, false, Option, List}
use ephemeral_credential_bro.Base.Int.{pos}
use ephemeral_credential_bro.GoTime.{Time, Duration}
use ephemeral_credential_bro.Api.{EphemeralCredential, Secret, Condition, EventType, Reason}
use ephemeral_credential_bro.Api.Error.{Error, Message}
use ephemeral_credential_bro.Effects.{Result, Action}
use ephemeral_credential_bro.Provider.{Registry}
use ephemeral_credential_bro.Handle.{Json}

-- The calls take namespace and name, or the object. `update` and `update_status` return the object
-- as the API server answered, which client-go writes back into the one that was passed.
pub record Kubernetes (W : Type 0) : Type 0 where
  -- client.Client
  pub get_credential : String → String → Action W EphemeralCredential
  pub get_secret : String → String → Action W Secret
  pub update : EphemeralCredential → Action W EphemeralCredential
  pub update_status : EphemeralCredential → Action W EphemeralCredential
  pub delete_secret : Secret → Action W (Unit {0})
  -- controllerutil
  pub create_or_update : Secret → (Secret → Result Secret) → Action W Secret
  pub contains_finalizer : EphemeralCredential → String → Bool
  pub add_finalizer : EphemeralCredential → String → EphemeralCredential
  pub remove_finalizer : EphemeralCredential → String → EphemeralCredential
  pub set_controller_reference : EphemeralCredential → Secret → Result Secret
  -- apierrors.IsNotFound
  pub is_not_found : Error → Bool
  -- meta.SetStatusCondition, which reads the clock
  pub set_status_condition : List Condition → Condition → W → List Condition × W

-- `EphemeralCredentialReconciler`: `override_now` is its field `Now`, and `time_now` the `time.Now`
-- behind it.
pub record Reconciler (W : Type 0) : Type 0 where
  pub client : Kubernetes W
  pub open client use *
  pub providers : Registry W
  pub recorder : Option (EphemeralCredential → EventType → Reason → Message → W → W)
  pub override_now : Option (W → Time × W)
  pub time_now : W → Time × W
  pub json : Json

-- `ctrl.Result`
pub record CtrlResult : Type 0 where
  pub requeue : Bool
  pub requeue_after : Duration

-- `ctrl.Request`
pub record Request : Type 0 where
  pub namespace : String
  pub name : String

-- `ctrl.Result{}`
abbrev pub nothing_more : CtrlResult
nothing_more = record { requeue = false; requeue_after = pos 0 }
