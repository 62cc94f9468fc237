-- ===== src/Controller/Status.antt =====
-- The target Secret's existence and removal, and `failStatus`.
use ephemeral_credential_bro.Base.{Bool, true, false, ◌==◌, Option, none, some, [], if◌then◌else◌}
use ephemeral_credential_bro.GoTime.{Time, before}
use ephemeral_credential_bro.Api.{
  EphemeralCredential, CredentialState, expiring, failed, Reason, rotation_failed, condition_true,
  condition_false, warning,
}
use ephemeral_credential_bro.Api.Error.{Error, Message, format, new, wrap, still_valid}
use ephemeral_credential_bro.Effects.{Action, pure, raise, or_wrap, handle, ◌>>=◌, ◌>>◌}
use ephemeral_credential_bro.Cluster.{Reconciler, CtrlResult, nothing_more}
use ephemeral_credential_bro.Controller.{now, event, set_ready_condition}

abbrev with_state : CredentialState → EphemeralCredential → EphemeralCredential
with_state state ec = record ec { status = record ec.status { state = state } }

module _ {W : Type 0} (r : Reconciler W) where
  -- `targetSecretExists`
  unfoldable pub target_secret_exists : EphemeralCredential → Action W Bool
  target_secret_exists ec =
      let name = ec.spec.target_secret.name in
      if name == ""
      then pure false
      else handle (r.get_secret ec.metadata.namespace name)
          (λ e.
            if r.is_not_found e
            then pure false
            else raise (wrap (format "checking target secret" []) e))
          (λ secret. pure true)

  -- `deleteTargetSecret`
  unfoldable pub delete_target_secret : EphemeralCredential → Action W (Unit {0})
  delete_target_secret ec =
      let name = ec.spec.target_secret.name in
      if name == ""
      then pure tt
      else handle (r.get_secret ec.metadata.namespace name)
          (λ e.
            if r.is_not_found e
            then pure tt
            else raise (wrap (format "fetching target secret for deletion" []) e))
          (λ secret.
            handle (r.delete_secret secret)
              (λ e.
                if r.is_not_found e
                then pure tt
                else raise (wrap (format "deleting target secret" []) e))
              (λ _. pure tt))

  -- The two branches of `failStatus` on `credentialStillValid`: the state and the condition.
  settle :
      EphemeralCredential → Reason → Message → Time → Option Time → Action W EphemeralCredential
  settle ec reason message t none =
      set_ready_condition r (with_state failed ec) condition_false reason message
  settle ec reason message t (some expires) =
      if before t expires
      then set_ready_condition r (with_state expiring ec) condition_true rotation_failed
          (still_valid ec.spec.target_secret.name expires message)
      else handle (delete_target_secret ec)
          (λ e. set_ready_condition r (with_state failed ec) condition_false reason message)
          (λ _. set_ready_condition r (with_state failed ec) condition_false reason message)

  -- What `failStatus` returns to controller-runtime.
  verdict : Message → Option Error → Bool → Action W CtrlResult
  verdict message cause false = pure nothing_more
  verdict message (some cause) true = raise cause
  verdict message none true = raise (new message)

  unfoldable pub fail_status :
      EphemeralCredential → Reason → Message → Option Error → Bool → Action W CtrlResult
  unfolding settle verdict
  fail_status ec reason message cause retryable = do
    t ← now r
    settled ← settle ec reason message t ec.status.expires_at
    ec' ← or_wrap (format "updating status after failure" []) (r.update_status settled)
    event r ec' warning reason message
    verdict message cause retryable
