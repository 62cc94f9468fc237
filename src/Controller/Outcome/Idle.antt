-- ===== src/Controller/Outcome/Idle.antt =====
-- Reconciles that end without a mint: the object is gone, the credential is in order, or its
-- provider is not registered.
use ephemeral_credential_bro.Base.{refl, true, false, ◌≡◌, ◌≢◌, none, some, [], ◌∷◌, arith, eq_iff}
use ephemeral_credential_bro.GoTime.{Time, is_zero, max_int64}
use ephemeral_credential_bro.Api.{
  EphemeralCredential, Secret, finalizer_name, provider_not_found, Reason,
}
use ephemeral_credential_bro.Api.Error.{Message, format}
use ephemeral_credential_bro.Effects.{ok}
use ephemeral_credential_bro.Rotation.{needs_mint, current_window, requeue_after}
use ephemeral_credential_bro.Base.Int.{◌-ℤ◌, ◌≤ℤ◌}
use ephemeral_credential_bro.Rotation.Waiting.{ComesBack, requeue_after-ComesBack}
use ephemeral_credential_bro.Provider.{Provider, get}
use ephemeral_credential_bro.Cluster.{Reconciler, Request, CtrlResult, nothing_more}
use ephemeral_credential_bro.Controller.{now, event, set_ready_condition}
use ephemeral_credential_bro.Controller.Status.{fail_status, target_secret_exists}
use ephemeral_credential_bro.Controller.Reconcile.{
  reconcile, reconcile_found, reconcile_live, keep_or_restore, restore_unless, no_provider,
}
use ephemeral_credential_bro.Controller.Protocol.{succeeded}

no_retry :
    {W : Type 0} (r : Reconciler W) (ec : EphemeralCredential) (reason : Reason) (message : Message)
    (w : W)
    → ((ec' : EphemeralCredential) (v : W) → succeeded (r.update_status ec' v).0 ≡ true)
    → (fail_status r ec reason message none false w).0 ≡ ok nothing_more
unfolding fail_status now event set_ready_condition
no_retry r ec reason message w writable = grind (arith, writable)

module _ {W : Type 0} (r : Reconciler W) (req : Request) (ec : EphemeralCredential) (w w' : W)
    (found : r.get_credential req.namespace req.name w ≡ (ok ec, w'))
    (live : is_zero ec.metadata.deletion_timestamp ≡ true)
    (protected : r.contains_finalizer ec finalizer_name ≡ true) where
  idle-requeue :
      (prov : Provider W) (t expires : Time) (secret : Secret) (w₁ w₂ : W)
      → get r.providers ec.spec.provider ≡ some prov
      → now r w' ≡ (ok t, w₁)
      → ec.status.expires_at ≡ some expires
      → needs_mint t (current_window ec) ec ≡ false
      → ec.spec.target_secret.name ≢ ""
      → r.get_secret ec.metadata.namespace ec.spec.target_secret.name w₁ ≡ (ok secret, w₂)
      → reconcile r req w ≡ (
        ok (record {
          requeue = false;
          requeue_after = requeue_after t expires (current_window ec);
        }),
        w₂,
      )
  unfolding reconcile reconcile_found reconcile_live keep_or_restore restore_unless
      target_secret_exists
  idle-requeue prov t expires secret w₁ w₂ known clock valid quiet named there =
      ground (arith, eq_iff ec.spec.target_secret.name "")

  -- A live credential that carries the finalizer, has a registered provider, is outside its
  -- rotation window, expires within an int64 of nanoseconds and has its target Secret, whatever
  -- that Secret holds, is left alone: the reconcile only reads the object, the clock and the
  -- Secret. It comes back after a delay from which on a mint is due, and which is either the floor
  -- of five seconds or one before whose end no mint is due.
  pub reconcile_idle :
      (prov : Provider W) (t expires : Time) (secret : Secret) (w₁ w₂ : W)
      → get r.providers ec.spec.provider ≡ some prov
      → now r w' ≡ (ok t, w₁)
      → ec.status.expires_at ≡ some expires
      → expires -ℤ t ≤ℤ max_int64
      → needs_mint t (current_window ec) ec ≡ false
      → ec.spec.target_secret.name ≢ ""
      → r.get_secret ec.metadata.namespace ec.spec.target_secret.name w₁ ≡ (ok secret, w₂)
      → (res : CtrlResult) × (reconcile r req w ≡ (ok res, w₂))
        × (res.requeue ≡ false)
        × ComesBack ec t res.requeue_after
  reconcile_idle prov t expires secret w₁ w₂ known clock valid range quiet named there = (
    _,
    idle-requeue prov t expires secret w₁ w₂ known clock valid quiet named there,
    refl,
    requeue_after-ComesBack ec expires t valid quiet range,
  )

  -- When the provider of a live credential that carries the finalizer is not registered and every
  -- status update succeeds, the reconcile asks for no requeue and returns no error, whatever the
  -- expiry in the status.
  pub reconcile_unregistered :
      get r.providers ec.spec.provider ≡ none
      → ((ec' : EphemeralCredential) (v : W) → succeeded (r.update_status ec' v).0 ≡ true)
      → (reconcile r req w).0 ≡ ok nothing_more
  unfolding reconcile reconcile_found no_provider
  reconcile_unregistered unknown writable = ground (
    arith,
    no_retry r ec provider_not_found
        (format "no provider registered for %q -- is it implemented and wired up in cmd/main.go?"
          (ec.spec.provider ∷ []))
        w' writable,
  )
