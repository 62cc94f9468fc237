-- ===== src/Controller/Reconcile.antt =====
-- `Reconcile`: the loop body of the broker.
use ephemeral_credential_bro.Base.{
  Bool, true, false, not, Option, none, some, [], ◌∷◌, if◌then◌else◌,
}
use ephemeral_credential_bro.Base.Int.{pos}
use ephemeral_credential_bro.GoTime.{Time, is_zero}
use ephemeral_credential_bro.Api.{
  EphemeralCredential, CredentialState, unset, pending, finalizer_name, condition_false,
  pending_first_mint, provider_not_found, secret_missing, warning,
}
use ephemeral_credential_bro.Api.Error.{format, wrap}
use ephemeral_credential_bro.Effects.{Action, pure, raise, or_wrap, handle, ◌>>=◌, ◌>>◌}
use ephemeral_credential_bro.Rotation.{current_window, needs_mint, requeue_after}
use ephemeral_credential_bro.Provider.{Provider, get}
use ephemeral_credential_bro.Cluster.{Reconciler, Request, CtrlResult, nothing_more}
use ephemeral_credential_bro.Controller.{now, event, set_ready_condition}
use ephemeral_credential_bro.Controller.Status.{target_secret_exists, fail_status}
use ephemeral_credential_bro.Controller.Delete.{reconcile_delete}
use ephemeral_credential_bro.Controller.Mint.{mint_credential}

abbrev pub requeue_now : CtrlResult
requeue_now = record { requeue = true; requeue_after = pos 0 }

module _ {W : Type 0} (r : Reconciler W) where
  -- `if ec.Status.State == ""`
  unfoldable pub report_pending : CredentialState → EphemeralCredential → Action W (Unit {0})
  report_pending unset ec = do
    ready ←
        set_ready_condition r (record ec { status = record ec.status { state = pending } })
          condition_false pending_first_mint (format "accepted; waiting for the first mint" [])
    or_wrap (format "setting initial Pending status" []) (r.update_status ready)
    pure tt
  report_pending _ ec = pure tt

  unfoldable pub add_finalizer_first : EphemeralCredential → Action W CtrlResult
  unfolding report_pending
  add_finalizer_first ec = do
    updated ← or_wrap (format "adding finalizer" []) (r.update (r.add_finalizer ec finalizer_name))
    report_pending updated.status.state updated
    pure requeue_now

  -- Wait until the window opens if the Secret is there; else mint to restore it.
  unfoldable pub restore_unless :
      Bool → Provider W → EphemeralCredential → Time → Time → Action W CtrlResult
  restore_unless true prov ec t expires =
      pure (record { requeue = false; requeue_after = requeue_after t expires (current_window ec) })
  restore_unless false prov ec t expires = do
    event r ec warning secret_missing (
        format "target secret %q was missing; re-minting to restore it"
          (ec.spec.target_secret.name ∷ []))
    mint_credential r prov ec t

  -- The credential is valid and outside its window: is its Secret there?
  unfoldable pub keep_or_restore :
      Provider W → EphemeralCredential → Time → Option Time → Action W CtrlResult
  unfolding restore_unless
  -- without an expiry a mint is due, so this clause is never reached
  keep_or_restore prov ec t none = mint_credential r prov ec t
  keep_or_restore prov ec t (some expires) = do
    exists ← target_secret_exists r ec
    restore_unless exists prov ec t expires

  unfoldable pub reconcile_live : Provider W → EphemeralCredential → Action W CtrlResult
  unfolding keep_or_restore
  reconcile_live prov ec = now r >>= λ t.
      if needs_mint t (current_window ec) ec
      then mint_credential r prov ec t
      else keep_or_restore prov ec t ec.status.expires_at

  unfoldable pub no_provider : EphemeralCredential → Action W CtrlResult
  no_provider ec =
      fail_status r ec provider_not_found
        (format "no provider registered for %q -- is it implemented and wired up in cmd/main.go?"
          (ec.spec.provider ∷ []))
        none false

  unfoldable pub reconcile_found : EphemeralCredential → Action W CtrlResult
  unfolding no_provider
  reconcile_found ec =
      if not (is_zero ec.metadata.deletion_timestamp)
      then reconcile_delete r ec
      else if not (r.contains_finalizer ec finalizer_name)
      then add_finalizer_first ec
      else elim (get r.providers ec.spec.provider) [
        | none ↦ no_provider ec
        | some prov ↦ reconcile_live prov ec
      ]

  unfoldable pub reconcile : Request → Action W CtrlResult
  reconcile req =
      handle (r.get_credential req.namespace req.name)
        (λ e.
          if r.is_not_found e
          then pure nothing_more
          else raise (wrap (format "fetching EphemeralCredential" []) e))
        (λ ec. reconcile_found ec)
