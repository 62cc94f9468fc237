-- ===== src/Controller/Protocol/Deletion.antt =====
-- The order of the writes when a credential is being deleted.
use ephemeral_credential_bro.Base.{
  Bool, true, false, not, ◌≡◌, Option, none, some, [], ◌∷◌, arith, inl, inr, Bool-cases,
}
use ephemeral_credential_bro.Base.Map.{lookup}
use ephemeral_credential_bro.Api.{EphemeralCredential, finalizer_name}
use ephemeral_credential_bro.Api.Error.{Error, format}
use ephemeral_credential_bro.Effects.{
  Result, ok, err, Action, pure, raise, or_wrap, ◌>>◌, handle-ends,
}
use ephemeral_credential_bro.Provider.{Provider, CredentialHandle, get}
use ephemeral_credential_bro.Cluster.{Reconciler, CtrlResult, nothing_more}
use ephemeral_credential_bro.Controller.{stored_handle}
use ephemeral_credential_bro.Controller.Status.{delete_target_secret}
use ephemeral_credential_bro.Controller.Delete.{reconcile_delete, revoke_current}
use ephemeral_credential_bro.Controller.Traced.{
  Call, Log, revoked, wrote_secret, deleted_secret, updated, traced, traced_option, get-traced,
}
use ephemeral_credential_bro.Controller.Protocol.{any}

abbrev pub is_deletion : Call → Bool
is_deletion (deleted_secret s res) = true
is_deletion _ = false

-- a deletion that failed otherwise than on a Secret that was already gone
abbrev pub deletion_failed : (Error → Bool) → Call → Bool
deletion_failed is_not_found (deleted_secret s (ok _)) = false
deletion_failed is_not_found (deleted_secret s (err e)) = not (is_not_found e)
deletion_failed is_not_found _ = false

-- What the clean-up of `ec` may do after `past`, where `previous` is the handle that `ec` carries.
abbrev pub MayClean :
    {W : Type 0}
    → Reconciler W
    → EphemeralCredential
    → Option CredentialHandle
    → Call
    → Log
    → Type 0
MayClean r ec previous (revoked h res) past = (past ≡ []) × (previous ≡ some h)
MayClean r ec previous (deleted_secret s res) past = any is_deletion past ≡ false
MayClean r ec previous (updated ec' res) past =
    (ec' ≡ r.remove_finalizer ec finalizer_name)
    × (any (deletion_failed r.is_not_found) past ≡ false)
MayClean r ec previous _ past = ⊥

abbrev pub Cleans :
    {W : Type 0} → Reconciler W → EphemeralCredential → Option CredentialHandle → Log → Type 0
Cleans r ec previous [] = Unit
Cleans r ec previous (c ∷ past) = MayClean r ec previous c past × Cleans r ec previous past

abbrev is_update : Call → Bool
is_update (updated ec res) = true
is_update _ = false

abbrev pub is_revoke : Call → Bool
is_revoke (revoked h res) = true
is_revoke _ = false

abbrev pub is_secret_write : Call → Bool
is_secret_write (wrote_secret s res) = true
is_secret_write _ = false

module _ {W : Type 0} (r : Reconciler W) (ec : EphemeralCredential) where
  clean-Cleans :
      (o : Option (Provider W)) (previous : Option CredentialHandle) (w : W)
      → let (done, s) = revoke_current (traced r) (traced_option o) previous (w, []) in
        (done ≡ ok tt)
        × Cleans r ec previous s.1
        × (any is_deletion s.1 ≡ false)
        × (any (deletion_failed r.is_not_found) s.1 ≡ false)
  unfolding revoke_current
  clean-Cleans none previous w = ground arith
  clean-Cleans (some p) none w = ground arith
  clean-Cleans (some p) (some h) w = ground arith

  -- Deleting the Secret is allowed, and if it returns no error then no deletion failed.
  delete-Cleans :
      (previous : Option CredentialHandle) (s : W × Log)
      → Cleans r ec previous s.1
      → any is_deletion s.1 ≡ false
      → any (deletion_failed r.is_not_found) s.1 ≡ false
      → let (done, s') = delete_target_secret (traced r) ec s in
        Cleans r ec previous s'.1
        × ((done ≡ ok tt) → any (deletion_failed r.is_not_found) s'.1 ≡ false)
  unfolding delete_target_secret
  delete-Cleans previous s h fresh clean = ground arith

  abbrev drop_finalizer : Action (W × Log) CtrlResult
  drop_finalizer =
      or_wrap (format "removing finalizer" [])
        ((traced r).update (r.remove_finalizer ec finalizer_name))
      >> pure nothing_more

  drop_finalizer-Cleans :
      (previous : Option CredentialHandle) (s : W × Log)
      → Cleans r ec previous s.1
      → any (deletion_failed r.is_not_found) s.1 ≡ false
      → Cleans r ec previous (drop_finalizer s).1.1
  drop_finalizer-Cleans previous s h clean = ground arith

  finish-Cleans :
      (previous : Option CredentialHandle) (s : W × Log)
      → Cleans r ec previous s.1
      → any is_deletion s.1 ≡ false
      → any (deletion_failed r.is_not_found) s.1 ≡ false
      → Cleans r ec previous ((delete_target_secret (traced r) ec >> drop_finalizer) s).1.1
  finish-Cleans previous s h fresh clean =
      let out : Result (Unit {0}) × (W × Log) = delete_target_secret (traced r) ec s in
      let (allowed, none_failed) = delete-Cleans previous s h fresh clean in
      handle-ends {B = CtrlResult} (λ end. Cleans r ec previous end.1.1) out.0 raise
        (λ _. drop_finalizer) out.1
        (λ a e. drop_finalizer-Cleans previous out.1 allowed (none_failed e)) (λ x _. allowed)

  start-Cleans :
      (o : Option (Provider W)) (previous : Option CredentialHandle) (w : W)
      → Cleans r ec previous
          ((revoke_current (traced r) (traced_option o) previous
              >> (delete_target_secret (traced r) ec >> drop_finalizer))
            (w, [])).1.1
  start-Cleans o previous w =
      let out : Result (Unit {0}) × (W × Log) =
        revoke_current (traced r) (traced_option o) previous (w, []) in
      let (done, allowed, fresh, clean) = clean-Cleans o previous w in
      handle-ends {B = CtrlResult} (λ end. Cleans r ec previous end.1.1) out.0 raise
        (λ _. delete_target_secret (traced r) ec >> drop_finalizer) out.1
        (λ a e. finish-Cleans previous out.1 allowed fresh clean) (λ x _. allowed)

  -- When a credential is being deleted, whatever the world answers: nothing is minted, no Secret
  -- and no status is written, a revoke is of the handle that the credential carries and comes
  -- before every other write, the target Secret is deleted at most once, and every update takes the
  -- finalizer off and comes after no deletion that failed.
  pub reconcile_delete-Cleans :
      (w : W) → Cleans r ec (stored_handle r ec) (reconcile_delete (traced r) ec (w, [])).1.1
  unfolding reconcile_delete get stored_handle
  reconcile_delete-Cleans w = elim (Bool-cases (r.contains_finalizer ec finalizer_name)) [
    | inl there ↦
        rw (there, get-traced r.providers.providers ec.spec.provider)
          (start-Cleans (lookup ec.spec.provider r.providers.providers) (stored_handle r ec) w)
    | inr gone ↦ rw gone tt
  ]
