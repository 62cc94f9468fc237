-- ===== src/Controller.antt =====
-- internal/controller/ephemeralcredential_controller.go: the small methods of the reconciler that
-- the others share.
pub mod Scope
pub mod Status
pub mod Delete
pub mod Mint
pub mod Reconcile
pub mod Conditions
pub mod Traced
pub mod Protocol
pub mod Outcome
pub mod Admitted
use ephemeral_credential_bro.Base.{String, ◌==◌, Option, none, some, if◌then◌else◌}
use ephemeral_credential_bro.Base.Map.{lookup}
use ephemeral_credential_bro.GoTime.{Time}
use ephemeral_credential_bro.Api.{
  EphemeralCredential, ConditionStatus, EventType, Reason, condition_ready,
}
use ephemeral_credential_bro.Api.Error.{Message, format}
use ephemeral_credential_bro.Effects.{Result, ok, err, Action, pure, or_wrap}
use ephemeral_credential_bro.Provider.{CredentialHandle}
use ephemeral_credential_bro.Handle.{decode_handle}
use ephemeral_credential_bro.Cluster.{Reconciler}

abbrev pub handle_annotation_key : String
handle_annotation_key = "broker.shivansh-sinha.dev/last-credential-handle"

abbrev pub value_or_empty : Option String → String
value_or_empty none = ""
value_or_empty (some s) = s

module _ {W : Type 0} (r : Reconciler W) where
  abbrev pub clock : Option (W → Time × W) → W → Time × W
  clock none = r.time_now
  clock (some override) = override

  -- `now()`
  unfoldable pub now : Action W Time
  now w = let (t, w') = clock r.override_now w in (ok t, w')

  abbrev record_event :
      Option (EphemeralCredential → EventType → Reason → Message → W → W)
      → EphemeralCredential
      → EventType
      → Reason
      → Message
      → W
      → W
  record_event none ec kind reason message w = w
  record_event (some recorder) ec kind reason message w = recorder ec kind reason message w

  -- `event`
  unfoldable pub event : EphemeralCredential → EventType → Reason → Message → Action W (Unit {0})
  event ec kind reason message w = (ok tt, record_event r.recorder ec kind reason message w)

  -- `setReadyCondition`
  unfoldable pub set_ready_condition :
      EphemeralCredential → ConditionStatus → Reason → Message → Action W EphemeralCredential
  set_ready_condition ec status reason message w =
      let (conditions, w') =
        r.set_status_condition ec.status.conditions
          (record {
            condition_type = condition_ready;
            status = status;
            observed_generation = ec.metadata.generation;
            last_transition_time = none;
            reason = reason;
            message = message;
          })
          w in
      (ok (record ec { status = record ec.status { conditions = conditions } }), w')

  -- `decodeHandle(ec.Annotations[handleAnnotationKey])`
  unfoldable pub stored_handle : EphemeralCredential → Option CredentialHandle
  stored_handle ec =
      decode_handle r.json (value_or_empty (lookup handle_annotation_key ec.metadata.annotations))
