-- ===== src/Controller/Delete.antt =====
-- `reconcileDelete`: revoke, delete the target Secret, drop the finalizer.
use ephemeral_credential_bro.Base.{not, ◌==◌, Option, some, [], if◌then◌else◌}
use ephemeral_credential_bro.Api.{EphemeralCredential, finalizer_name}
use ephemeral_credential_bro.Api.Error.{format}
use ephemeral_credential_bro.Effects.{Action, pure, or_wrap, handle, ◌>>◌}
use ephemeral_credential_bro.Provider.{Provider, CredentialHandle, get}
use ephemeral_credential_bro.Cluster.{Reconciler, CtrlResult, nothing_more}
use ephemeral_credential_bro.Controller.{stored_handle}
use ephemeral_credential_bro.Controller.Status.{delete_target_secret}

module _ {W : Type 0} (r : Reconciler W) where
  -- The best-effort revoke: its error is logged and dropped.
  unfoldable pub revoke_current :
      Option (Provider W) → Option CredentialHandle → Action W (Unit {0})
  revoke_current (some prov) (some current) =
      if current.provider_name == prov.name
      then handle (prov.revoke current) (λ e. pure tt) (λ _. pure tt)
      else pure tt
  revoke_current _ _ = pure tt

  unfoldable pub reconcile_delete : EphemeralCredential → Action W CtrlResult
  unfolding revoke_current
  reconcile_delete ec =
      if not (r.contains_finalizer ec finalizer_name) then pure nothing_more else do
        revoke_current (get r.providers ec.spec.provider) (stored_handle r ec)
        delete_target_secret r ec
        or_wrap (format "removing finalizer" []) (r.update (r.remove_finalizer ec finalizer_name))
        pure nothing_more
