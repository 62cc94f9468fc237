-- ===== src/Controller/Mint.antt =====
-- The part of `Reconcile` that mints: scope, mint, target Secret, handle annotation, status, revoke
-- of the previous credential, next wake-up.
use ephemeral_credential_bro.Base.{
  String, Bool, true, false, ◌==◌, Option, none, some, [], ◌∷◌, if◌then◌else◌,
}
use ephemeral_credential_bro.Base.Int.{pos}
use ephemeral_credential_bro.Base.Map.{insert}
use ephemeral_credential_bro.GoTime.{Time, Duration, seconds_of, sub}
use ephemeral_credential_bro.Api.{
  EphemeralCredential, Secret, active, Reason, mint_failed, rotation_failed, mint_succeeded,
  invalid_config, secret_write_failed, revoke_failed, rotation_window_clamped, condition_true,
  normal, warning,
}
use ephemeral_credential_bro.Api.Error.{format, of_error, minted_via, clamped_window, is_no_revoke}
use ephemeral_credential_bro.Effects.{ok, err, Action, pure, or_wrap, handle, ◌>>=◌, ◌>>◌}
use ephemeral_credential_bro.Rotation.{next_window, requeue_after}
use ephemeral_credential_bro.TargetSecret.{mutate_secret}
use ephemeral_credential_bro.Handle.{encode_handle}
use ephemeral_credential_bro.Provider.{Provider, MintRequest, MintResult, CredentialHandle}
use ephemeral_credential_bro.Provider.Scope.{AnyScope}
use ephemeral_credential_bro.Cluster.{Reconciler, CtrlResult}
use ephemeral_credential_bro.Controller.{
  event, set_ready_condition, stored_handle, handle_annotation_key,
}
use ephemeral_credential_bro.Controller.Scope.{build_scope}
use ephemeral_credential_bro.Controller.Status.{fail_status}

-- `&corev1.Secret{ObjectMeta: metav1.ObjectMeta{Name: …, Namespace: …}}`
abbrev pub empty_secret : EphemeralCredential → Secret
empty_secret ec = record {
  metadata = record {
    name = ec.spec.target_secret.name;
    namespace = ec.metadata.namespace;
    uid = "";
    resource_version = "";
    generation = pos 0;
    deletion_timestamp = none;
    finalizers = [];
    owner_references = [];
    annotations = [];
  };
  secret_type = "";
  secret_data = [];
}

-- The status fields that a mint sets.
abbrev pub mark_active : EphemeralCredential → Time → Time → EphemeralCredential
mark_active ec t expires = record ec {
  status = record ec.status {
    state = active;
    expires_at = some expires;
    last_rotated_at = some t;
    observed_generation = ec.metadata.generation;
  };
}

abbrev pub with_handle : String → EphemeralCredential → EphemeralCredential
with_handle encoded ec = record ec {
  metadata = record ec.metadata {
    annotations = insert handle_annotation_key encoded ec.metadata.annotations;
  };
}

abbrev pub failure_reason : Option Time → Reason
failure_reason none = mint_failed
failure_reason (some expires) = rotation_failed

abbrev pub mint_request : EphemeralCredential → AnyScope → MintRequest
mint_request ec scope = record {
  scope = scope;
  ttl = seconds_of ec.spec.ttl_seconds;
  namespace = ec.metadata.namespace;
  name = ec.metadata.name;
}

module _ {W : Type 0} (r : Reconciler W) where
  -- `writeTargetSecret`
  unfoldable pub write_target_secret : EphemeralCredential → MintResult → Action W Secret
  write_target_secret ec minted =
      or_wrap (format "writing target secret %q" (ec.spec.target_secret.name ∷ []))
        (r.create_or_update (empty_secret ec) (mutate_secret r.set_controller_reference ec minted))

  -- The new handle goes into the annotation; a handle that cannot be encoded is only logged.
  unfoldable pub persist_handle :
      EphemeralCredential → CredentialHandle → Action W EphemeralCredential
  persist_handle ec current = elim (encode_handle r.json current) [
    | err e ↦ pure ec
    | ok encoded ↦
        or_wrap (format "persisting new credential handle annotation" [])
          (r.update (with_handle encoded ec))
  ]

  -- The best-effort revoke of the credential that was replaced.
  revoke_previous : Provider W → EphemeralCredential → Option CredentialHandle → Action W (Unit {0})
  revoke_previous prov ec none = pure tt
  revoke_previous prov ec (some previous) =
      if previous.provider_name == prov.name
      then handle (prov.revoke previous)
          (λ e. if is_no_revoke e then pure tt else event r ec warning revoke_failed (of_error e))
          (λ _. pure tt)
      else pure tt

  warn_clamped : EphemeralCredential → Time → Time → Duration → Bool → Action W (Unit {0})
  warn_clamped ec t expires window false = pure tt
  warn_clamped ec t expires window true =
      event r ec warning rotation_window_clamped
        (clamped_window ec.spec.rotate_before_seconds (sub expires t) ec.spec.provider window)

  schedule : EphemeralCredential → Time → Time → Action W CtrlResult
  unfolding warn_clamped
  schedule ec t expires =
      let (window, clamped) = next_window ec t expires in
      do
        warn_clamped ec t expires window clamped
        pure (record { requeue = false; requeue_after = requeue_after t expires window })

  -- After the status has been updated: the event, the previous credential, the next wake-up.
  unfoldable pub finish_mint :
      Provider W
      → EphemeralCredential
      → Time
      → Option CredentialHandle
      → MintResult
      → Action W CtrlResult
  unfolding revoke_previous schedule
  finish_mint prov updated t previous minted = do
    event r updated normal mint_succeeded (
        minted_via "minted credential via %s, expires at %s" updated.spec.provider
          minted.expires_at)
    revoke_previous prov updated previous
    schedule updated t minted.expires_at

  -- After the target Secret has been written.
  unfoldable pub record_mint :
      Provider W
      → EphemeralCredential
      → Time
      → Option CredentialHandle
      → MintResult
      → Action W CtrlResult
  unfolding persist_handle finish_mint
  record_mint prov ec t previous minted = do
    annotated ← persist_handle ec minted.handle
    ready ←
        set_ready_condition r (mark_active annotated t minted.expires_at) condition_true
          mint_succeeded
          (minted_via "minted via %s, expires %s" annotated.spec.provider minted.expires_at)
    updated ← or_wrap (format "updating status after mint" []) (r.update_status ready)
    finish_mint prov updated t previous minted

  -- From the write of the target Secret on.
  unfoldable pub write_and_record :
      Provider W → EphemeralCredential → Time → MintResult → Action W CtrlResult
  write_and_record prov ec t minted =
      handle (write_target_secret ec minted)
        (λ e. fail_status r ec secret_write_failed (of_error e) (some e) true)
        (λ _. record_mint prov ec t (stored_handle r ec) minted)

  -- From the call of the provider on.
  unfoldable pub mint_with :
      Provider W → EphemeralCredential → Time → AnyScope → Action W CtrlResult
  mint_with prov ec t scope =
      handle (prov.mint (mint_request ec scope))
        (λ e. fail_status r ec (failure_reason ec.status.expires_at) (of_error e) (some e) true)
        (λ minted. write_and_record prov ec t minted)

  -- From `previousHandle` to the end of `Reconcile`.
  unfoldable pub mint_credential : Provider W → EphemeralCredential → Time → Action W CtrlResult
  mint_credential prov ec t =
      handle (build_scope r ec.metadata.namespace ec.spec)
        (λ e. fail_status r ec invalid_config (of_error e) (some e) true)
        (λ scope. mint_with prov ec t scope)
