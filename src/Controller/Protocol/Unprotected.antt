-- ===== src/Controller/Protocol/Unprotected.antt =====
-- The reconcile of a live credential that does not carry the finalizer yet.
use ephemeral_credential_bro.Base.{true, false, ◌≡◌, ◌⊎◌, Option, none, some, [], ◌∷◌, arith}
use ephemeral_credential_bro.GoTime.{is_zero}
use ephemeral_credential_bro.Api.{EphemeralCredential, finalizer_name}
use ephemeral_credential_bro.Effects.{Result, ok}
use ephemeral_credential_bro.Cluster.{Reconciler, Request}
use ephemeral_credential_bro.Controller.{set_ready_condition}
use ephemeral_credential_bro.Controller.Reconcile.{
  reconcile, reconcile_found, add_finalizer_first, report_pending, requeue_now,
}
use ephemeral_credential_bro.Controller.Traced.{Call, Log, traced, updated}
use ephemeral_credential_bro.Controller.Protocol.{any, is_mint, succeeded}
use ephemeral_credential_bro.Controller.Protocol.Deletion.{is_deletion, is_revoke, is_secret_write}
use ephemeral_credential_bro.Controller.Protocol.Live.{reconcile-found}

-- The oldest call.
abbrev pub first_call : Log → Option Call
first_call [] = none
first_call (c ∷ []) = some c
first_call (c ∷ before ∷ past) = first_call (before ∷ past)

add_finalizer_first-asks :
    {W : Type 0} (r : Reconciler W) (ec : EphemeralCredential) (w : W)
    → let (res, s) = add_finalizer_first (traced r) ec (w, []) in
      let answer : Result EphemeralCredential =
        (r.update (r.add_finalizer ec finalizer_name) w).0 in
      (any is_mint s.1 ≡ false)
      × (any is_deletion s.1 ≡ false)
      × (any is_revoke s.1 ≡ false)
      × (any is_secret_write s.1 ≡ false)
      × (first_call s.1 ≡ some (updated (r.add_finalizer ec finalizer_name) answer))
      × (((res ≡ ok requeue_now) × (succeeded answer ≡ true)) ⊎ (succeeded res ≡ false))
unfolding add_finalizer_first report_pending set_ready_condition
add_finalizer_first-asks r ec w = ground arith

-- A reconcile of a live credential without the finalizer first of all asks the API server to add it.
-- It mints nothing, revokes nothing, deletes no Secret and writes none, and if it returns no error
-- the finalizer was stored and it asks to be run again at once.
pub reconcile_unprotected :
    {W : Type 0} (r : Reconciler W) (req : Request) (ec : EphemeralCredential) (w w' : W)
    → r.get_credential req.namespace req.name w ≡ (ok ec, w')
    → is_zero ec.metadata.deletion_timestamp ≡ true
    → r.contains_finalizer ec finalizer_name ≡ false
    → let (res, s) = reconcile (traced r) req (w, []) in
      let answer : Result EphemeralCredential =
        (r.update (r.add_finalizer ec finalizer_name) w').0 in
      (any is_mint s.1 ≡ false)
      × (any is_deletion s.1 ≡ false)
      × (any is_revoke s.1 ≡ false)
      × (any is_secret_write s.1 ≡ false)
      × (first_call s.1 ≡ some (updated (r.add_finalizer ec finalizer_name) answer))
      × (((res ≡ ok requeue_now) × (succeeded answer ≡ true)) ⊎ (succeeded res ≡ false))
unfolding reconcile_found
reconcile_unprotected r req ec w w' found live unprotected =
    rw (reconcile-found r req ec w w' found, live, unprotected) (add_finalizer_first-asks r ec w')
