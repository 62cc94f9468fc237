-- ===== src/Controller/Outcome/Removed.antt =====
-- Where a finished clean-up leaves the target Secret, for a client that keeps Secrets as the API
-- server does.
use ephemeral_credential_bro.Base.{String, Bool, true, false, ◌≡◌, ◌≢◌, eq_iff, [], arith}
use mathlib.Core.Path.{subst}
use ephemeral_credential_bro.Api.{EphemeralCredential, Secret, finalizer_name}
use ephemeral_credential_bro.Api.Error.{Error, format}
use ephemeral_credential_bro.Effects.{
  Result, ok, err, Action, pure, raise, or_wrap, handle-ends, ◌>>◌,
}
use ephemeral_credential_bro.Provider.{get}
use ephemeral_credential_bro.Cluster.{Reconciler, CtrlResult, nothing_more}
use ephemeral_credential_bro.Controller.{stored_handle}
use ephemeral_credential_bro.Controller.Status.{delete_target_secret}
use ephemeral_credential_bro.Controller.Delete.{reconcile_delete, revoke_current}
use ephemeral_credential_bro.Controller.Protocol.{succeeded}

-- What the clean-up relies on: `has` says whether a Secret of a namespace and a name is in the store.
-- A read changes nothing, finds the Secret that it was asked for, and answers with a not-found error
-- only if there is none; a deletion that succeeds, or finds nothing, leaves none (the Secret having
-- no finalizers); and an update of a credential leaves the Secrets alone.
pub record KeepsSecrets {W : Type 0} (r : Reconciler W) (has : String → String → W → Bool)
    : Type 0 where
  pub read_keeps :
      (namespace name : String) (w : W)
      → has namespace name (r.get_secret namespace name w).1 ≡ has namespace name w
  pub read_missing :
      (namespace name : String) (w : W) (e : Error)
      → (r.get_secret namespace name w).0 ≡ err e
      → r.is_not_found e ≡ true
      → has namespace name w ≡ false
  pub read_found :
      (namespace name : String) (w : W) (s : Secret)
      → (r.get_secret namespace name w).0 ≡ ok s
      → (s.metadata.namespace ≡ namespace) × (s.metadata.name ≡ name)
  pub deleted :
      (s : Secret) (w : W)
      → succeeded (r.delete_secret s w).0 ≡ true
      → has s.metadata.namespace s.metadata.name (r.delete_secret s w).1 ≡ false
  pub deleted_before :
      (s : Secret) (w : W) (e : Error)
      → (r.delete_secret s w).0 ≡ err e
      → r.is_not_found e ≡ true
      → has s.metadata.namespace s.metadata.name (r.delete_secret s w).1 ≡ false
  pub update_keeps :
      (ec : EphemeralCredential) (namespace name : String) (w : W)
      → has namespace name (r.update ec w).1 ≡ has namespace name w

module _ {W : Type 0} (r : Reconciler W) (has : String → String → W → Bool)
    (law : KeepsSecrets r has) (ec : EphemeralCredential)
    (named : ec.spec.target_secret.name ≢ "") where
  abbrev Gone : {A : Type 0} → Result A × W → Type 0
  Gone (ok a, w) = has ec.metadata.namespace ec.spec.target_secret.name w ≡ false
  Gone (err e, w) = Unit

  delete_target_secret-Gone : (w : W) → Gone (delete_target_secret r ec w)
  unfolding delete_target_secret
  delete_target_secret-Gone w = grind (
    arith,
    eq_iff ec.spec.target_secret.name "",
    law.read_missing,
    law.read_found,
    law.read_keeps,
    law.deleted,
    law.deleted_before,
  )

  drop_finalizer-Gone :
      (w : W)
      → has ec.metadata.namespace ec.spec.target_secret.name w ≡ false
      → Gone (
          (or_wrap
                (format "removing finalizer" [])
                (r.update (r.remove_finalizer ec finalizer_name))
              >> pure nothing_more)
            w)
  drop_finalizer-Gone w h = grind (arith, law.update_keeps)

  abbrev drop_finalizer : Action W CtrlResult
  drop_finalizer =
      or_wrap (format "removing finalizer" []) (r.update (r.remove_finalizer ec finalizer_name))
      >> pure nothing_more

  finish-Gone : (w : W) → Gone ((delete_target_secret r ec >> drop_finalizer) w)
  finish-Gone w =
      let out : Result (Unit {0}) × W = delete_target_secret r ec w in
      let gone : Gone out = delete_target_secret-Gone w in
      handle-ends {B = CtrlResult} Gone out.0 raise (λ _. drop_finalizer) out.1
        (λ a e. drop_finalizer-Gone out.1 (ground (arith, gone, e))) (λ x _. tt)

  reconcile_delete-Gone :
      (w : W) → r.contains_finalizer ec finalizer_name ≡ true → Gone (reconcile_delete r ec w)
  unfolding reconcile_delete
  reconcile_delete-Gone w there =
      let out : Result (Unit {0}) × W =
        revoke_current r (get r.providers ec.spec.provider) (stored_handle r ec) w in
      rw there (
        handle-ends {B = CtrlResult} Gone out.0 raise
          (λ _. delete_target_secret r ec >> drop_finalizer) out.1 (λ a e. finish-Gone out.1)
          (λ x _. tt))

  -- When the clean-up of a deleted credential that carries the finalizer returns no error, its
  -- target Secret is not in the store any more, for a client that keeps Secrets as the API server
  -- does and a target with a name.
  pub reconcile_delete-removes :
      (w w' : W) (res : CtrlResult)
      → r.contains_finalizer ec finalizer_name ≡ true
      → reconcile_delete r ec w ≡ (ok res, w')
      → has ec.metadata.namespace ec.spec.target_secret.name w' ≡ false
  reconcile_delete-removes w w' res there e = subst Gone e (reconcile_delete-Gone w there)
