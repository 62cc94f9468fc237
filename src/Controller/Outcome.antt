-- ===== src/Controller/Outcome.antt =====
-- What `failStatus` reports, and what a minting run that returns no error has done.
pub mod Idle
pub mod Success
pub mod Cycle
pub mod Missing
pub mod Delivered
pub mod Removed
use ephemeral_credential_bro.Base.{
  String, Bool, true, false, ◌||◌, ◌≡◌, refl, ap, Option, none, some, List, [], ◌∷◌, arith,
  if◌then◌else◌,
}
use ephemeral_credential_bro.GoTime.{Time, before}
use ephemeral_credential_bro.Api.{
  EphemeralCredential, CredentialState, expiring, failed, rotation_failed, Reason, EventType,
  warning, Condition, ConditionStatus, condition_true, condition_false, condition_ready,
}
use ephemeral_credential_bro.Api.Error.{Error, Message}
use ephemeral_credential_bro.Effects.{Result, ok, err}
use ephemeral_credential_bro.Cluster.{Reconciler, CtrlResult, nothing_more}
use ephemeral_credential_bro.Controller.{now, event, set_ready_condition}
use ephemeral_credential_bro.Provider.{Provider, MintResult}
use ephemeral_credential_bro.Provider.Scope.{AnyScope}
use ephemeral_credential_bro.Controller.Scope.{build_scope}
use ephemeral_credential_bro.Controller.Mint.{mint_request}
use ephemeral_credential_bro.Controller.Conditions.{reported, SetsConditions}
use ephemeral_credential_bro.Controller.Status.{fail_status, delete_target_secret}
use ephemeral_credential_bro.Controller.Traced.{
  Call, Log, minted, revoked, wrote_secret, deleted_secret, updated, updated_status, recorded,
  set_condition, traced,
}
use ephemeral_credential_bro.Controller.Protocol.{any, succeeded}

-- The credential of the status has not expired at a time.
abbrev pub valid_at : Time → Option Time → Bool
valid_at t none = false
valid_at t (some expires) = before t expires

-- What the report of a failure with a reason may contain, at a time and for a credential.
abbrev pub MayReport : Time → EphemeralCredential → Reason → Call → Type 0
MayReport t ec reason (updated_status ec' res) =
    (ec'.status.state ≡ (if valid_at t ec.status.expires_at then expiring else failed))
    × (ec'.status.expires_at ≡ ec.status.expires_at)
    × (ec'.status.observed_generation ≡ ec.status.observed_generation)
    × (ec'.metadata ≡ ec.metadata)
    × (reported condition_ready ec'.status.conditions
        ≡ some (record {
          status = if valid_at t ec.status.expires_at then condition_true else condition_false;
          observed_generation = ec.metadata.generation;
          reason = if valid_at t ec.status.expires_at then rotation_failed else reason;
        }))
MayReport t ec reason (set_condition c) =
    (c.condition_type ≡ condition_ready)
    × (c.status ≡ (if valid_at t ec.status.expires_at then condition_true else condition_false))
    × (c.observed_generation ≡ ec.metadata.generation)
MayReport t ec reason (deleted_secret s res) = valid_at t ec.status.expires_at ≡ false
MayReport t ec reason (recorded kind reason') = (kind ≡ warning) × (reason' ≡ reason)
MayReport t ec reason _ = ⊥

abbrev pub Reports : Time → EphemeralCredential → Reason → Log → Type 0
Reports t ec reason [] = Unit
Reports t ec reason (c ∷ past) = MayReport t ec reason c × Reports t ec reason past

abbrev pub is_status_update : Call → Bool
is_status_update (updated_status ec res) = true
is_status_update _ = false

-- What a minting run that starts in a world mints: it builds a scope and the provider grants this.
abbrev pub Mints :
    {W : Type 0} → Reconciler W → Provider W → EphemeralCredential → W → MintResult → Type 0
Mints {W} r prov ec w m =
    let built : Result AnyScope × W = build_scope r ec.metadata.namespace ec.spec w in
    (scope : AnyScope) × (built.0 ≡ ok scope)
    × ((prov.mint (mint_request ec scope) built.1).0 ≡ ok m)

module _ {W : Type 0} (r : Reconciler W) (ec : EphemeralCredential) where
  -- A failure is reported by one kind of status: Expiring with a Ready condition that is true, of
  -- reason RotationFailed, while the credential of the status has not expired, Failed with one that is
  -- false, of the reason of the failure, otherwise; the condition is for the object's generation, and
  -- the status has no new expiry or observed generation. Setting a condition does what the library
  -- documents. The target Secret is deleted only if the credential is not valid any more; nothing is
  -- minted, revoked or written to a Secret, and the status update is always attempted.
  pub fail_status-Reports :
      (reason : Reason) (message : Message) (cause : Option Error) (retryable : Bool) (t : Time)
      (w w' : W)
      → SetsConditions r
      → now r w ≡ (ok t, w')
      → let log = (fail_status (traced r) ec reason message cause retryable (w, [])).1.1 in
        Reports t ec reason log × (any is_status_update log ≡ true)
  unfolding fail_status delete_target_secret now event set_ready_condition
  fail_status-Reports reason message cause retryable t w w' conditions e =
      grind (arith, conditions.sets, ap (λ (p : Result Time × W). p.0) e)

  -- A failure that can be retried always comes back as an error, on every branch, with a cause or
  -- without one.
  pub fail_status_retries :
      (reason : Reason) (message : Message) (cause : Option Error) (w : W)
      → succeeded (fail_status r ec reason message cause true w).0 ≡ false
  unfolding fail_status delete_target_secret now event set_ready_condition
  fail_status_retries reason message cause w = ground arith
