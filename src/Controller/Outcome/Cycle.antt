-- ===== src/Controller/Outcome/Cycle.antt =====
-- From one mint to the next, for a client that stores statuses as the API server does: what is asked
-- of the client.
pub mod Recorded
pub mod Due
pub mod Again
use ephemeral_credential_bro.Base.{
  String, Bool, true, false, ◌≡◌, refl, sym, ◌∙◌, ap, Option, none, some, List, [], ◌∷◌, arith, inl,
  inr,
}
use ephemeral_credential_bro.Base.Int.{ℤ, pos, ◌≤ℤ◌, ◌<ℤ◌, ◌+ℤ◌, ◌-ℤ◌}
use mathlib.Core.Path.{subst}
use ephemeral_credential_bro.GoTime.{Time, Duration, IsInt64, seconds_of, sub}
use ephemeral_credential_bro.Api.{
  EphemeralCredential, Secret, EphemeralCredentialSpec, EventType, Reason, Condition,
  CredentialState, active, invalid_config, mint_succeeded, condition_true, condition_ready,
  secret_write_failed,
}
use ephemeral_credential_bro.Api.Error.{Message, of_error, format, minted_via}
use ephemeral_credential_bro.Effects.{
  Action, Result, ok, err, handle-ends, Result-cases, ok-injective, or_wrap, or_wrap-ends, raise,
  ◌>>=◌,
}
use ephemeral_credential_bro.Rotation.{
  needs_mint, current_window, next_window, requeue_after, requested_rotate_before,
  clamp_rotate_before, or_default,
}
use ephemeral_credential_bro.Rotation.Schedule.{Holds, needs_mint-wake, needs_mint-first_half}
use ephemeral_credential_bro.Provider.{Provider, MintRequest, MintResult, CredentialHandle}
use ephemeral_credential_bro.Provider.Scope.{AnyScope}
use ephemeral_credential_bro.Handle.{encode_handle}
use ephemeral_credential_bro.Cluster.{Reconciler, CtrlResult}
use ephemeral_credential_bro.Controller.{event, set_ready_condition, stored_handle}
use ephemeral_credential_bro.Controller.Scope.{build_scope}
use ephemeral_credential_bro.Controller.Status.{fail_status}
use ephemeral_credential_bro.Controller.Mint.{
  mint_credential, mint_with, mint_request, write_and_record, write_target_secret, record_mint,
  failure_reason, finish_mint, persist_handle, mark_active, with_handle,
}
use ephemeral_credential_bro.Controller.Protocol.{succeeded}
use ephemeral_credential_bro.Controller.Outcome.{fail_status_retries}

-- What the cycle relies on: `credential_at` is the credential in the store, and `kept` what is left
-- of a time there (the API server drops fractions of a second). A status update that succeeds has
-- stored the status and nothing else, and is answered with what is stored. An update whose spec and
-- generation are the stored ones (so that it changes metadata only) leaves both as they are, and its
-- answer has them, the namespace and the name. No other call of a minting run changes a credential.
pub record StoresStatus {W : Type 0} (r : Reconciler W) (prov : Provider W)
    (credential_at : String → String → W → EphemeralCredential) (kept : Time → Time) : Type 0 where
  pub not_later : (t : Time) → kept t ≤ℤ t
  pub stored_times :
      (ec ec' : EphemeralCredential) (w : W) (expires rotated : Time)
      → (r.update_status ec w).0 ≡ ok ec'
      → ec.status.expires_at ≡ some expires
      → ec.status.last_rotated_at ≡ some rotated
      → let c = credential_at ec.metadata.namespace ec.metadata.name (r.update_status ec w).1 in
        (c.status.expires_at ≡ some (kept expires))
        × (c.status.last_rotated_at ≡ some (kept rotated))
  pub stored_rest :
      (ec ec' : EphemeralCredential) (w : W)
      → (r.update_status ec w).0 ≡ ok ec'
      → let before = credential_at ec.metadata.namespace ec.metadata.name w in
        let c = credential_at ec.metadata.namespace ec.metadata.name (r.update_status ec w).1 in
        (c.status.state ≡ ec.status.state)
        × (c.status.observed_generation ≡ ec.status.observed_generation)
        × (c.metadata.generation ≡ before.metadata.generation)
        × (c.spec ≡ before.spec)
  pub status_answer :
      (ec ec' : EphemeralCredential) (w : W)
      → (r.update_status ec w).0 ≡ ok ec'
      → let c = credential_at ec.metadata.namespace ec.metadata.name (r.update_status ec w).1 in
        ec'.spec ≡ c.spec
  pub metadata_only :
      (ec ec' : EphemeralCredential) (w : W)
      → (r.update ec w).0 ≡ ok ec'
      → let before = credential_at ec.metadata.namespace ec.metadata.name w in
        let c = credential_at ec.metadata.namespace ec.metadata.name (r.update ec w).1 in
        before.spec ≡ ec.spec
        → before.metadata.generation ≡ ec.metadata.generation
        → (c.spec ≡ ec.spec)
          × (c.metadata.generation ≡ ec.metadata.generation)
          × (ec'.spec ≡ ec.spec)
          × (ec'.metadata.generation ≡ ec.metadata.generation)
          × (ec'.metadata.namespace ≡ ec.metadata.namespace)
          × (ec'.metadata.name ≡ ec.metadata.name)
  pub get_keeps :
      (of_namespace of_name namespace name : String) (w : W)
      → credential_at namespace name (r.get_secret of_namespace of_name w).1
        ≡ credential_at namespace name w
  pub mint_keeps :
      (req : MintRequest) (namespace name : String) (w : W)
      → credential_at namespace name (prov.mint req w).1 ≡ credential_at namespace name w
  pub write_keeps :
      (secret : Secret) (f : Secret → Result Secret) (namespace name : String) (w : W)
      → credential_at namespace name (r.create_or_update secret f w).1
        ≡ credential_at namespace name w
  pub condition_keeps :
      (cs : List Condition) (c : Condition) (namespace name : String) (w : W)
      → credential_at namespace name (r.set_status_condition cs c w).1
        ≡ credential_at namespace name w
  pub revoke_keeps :
      (h : CredentialHandle) (namespace name : String) (w : W)
      → credential_at namespace name (prov.revoke h w).1 ≡ credential_at namespace name w
  pub event_keeps :
      (ec : EphemeralCredential) (kind : EventType) (reason : Reason) (message : Message)
      (namespace name : String) (w : W)
      → credential_at namespace name (event r ec kind reason message w).1
        ≡ credential_at namespace name w

-- The store has the object with this spec and generation.
pub record InStore {W : Type 0} (credential_at : String → String → W → EphemeralCredential)
    (ec : EphemeralCredential) (w : W) : Type 0 where
  pub spec : (credential_at ec.metadata.namespace ec.metadata.name w).spec ≡ ec.spec
  pub generation :
      (credential_at ec.metadata.namespace ec.metadata.name w).metadata.generation
      ≡ ec.metadata.generation

-- What leaves the stored credential alone keeps it in the store.
pub InStore-same :
    {W : Type 0} {credential_at : String → String → W → EphemeralCredential}
    {ec : EphemeralCredential} {w w' : W}
    → credential_at ec.metadata.namespace ec.metadata.name w'
      ≡ credential_at ec.metadata.namespace ec.metadata.name w
    → InStore credential_at ec w
    → InStore credential_at ec w'
InStore-same e h = record {
  spec = ap (λ (c : EphemeralCredential). c.spec) e ∙ h.spec;
  generation = ap (λ (c : EphemeralCredential). c.metadata.generation) e ∙ h.generation;
}

-- What events and revokes leave alone, the end of a mint leaves alone.
pub finish_mint-keeps :
    {W A : Type 0} (r : Reconciler W) (prov : Provider W) (view : String → String → W → A)
    → ((h : CredentialHandle) (namespace name : String) (w : W)
        → view namespace name (prov.revoke h w).1 ≡ view namespace name w)
    → ((ec : EphemeralCredential) (kind : EventType) (reason : Reason) (message : Message)
          (namespace name : String) (w : W)
        → view namespace name (event r ec kind reason message w).1 ≡ view namespace name w)
    → (updated : EphemeralCredential) (t : Time) (previous : Option CredentialHandle)
      (m : MintResult) (namespace name : String) (w : W)
    → view namespace name (finish_mint r prov updated t previous m w).1 ≡ view namespace name w
unfolding finish_mint
finish_mint-keeps r prov view revoke_keeps event_keeps updated t previous m namespace name w =
    grind (arith, revoke_keeps, event_keeps)
