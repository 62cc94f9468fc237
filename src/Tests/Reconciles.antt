-- ===== src/Tests/Reconciles.antt =====
-- Reconciles in the small world: a rotation, a quiet one, a failure, a deletion.
use text.Mathlib.TextLemmas.{cons≢nil}
use ephemeral_credential_bro.Base.{true, false, refl, ◌≡◌, ◌⊎◌, none, some, []}
use ephemeral_credential_bro.Base.Int.{int_laws}
use ephemeral_credential_bro.Base.Map.{lookup}
use ephemeral_credential_bro.Rotation.Waiting.{ComesBack}
use ephemeral_credential_bro.Rotation.Schedule.{needs_mint-first_half}
use ephemeral_credential_bro.GoTime.{seconds, is_zero}
use ephemeral_credential_bro.Api.{mint_failed, finalizer_name, EphemeralCredential}
use ephemeral_credential_bro.Api.Error.{Message, format}
use ephemeral_credential_bro.Effects.{ok}
use ephemeral_credential_bro.Rotation.{needs_mint, current_window}
use ephemeral_credential_bro.Provider.{get}
use ephemeral_credential_bro.Cluster.{CtrlResult, nothing_more}
use ephemeral_credential_bro.Controller.{now, stored_handle}
use ephemeral_credential_bro.Controller.Status.{fail_status}
use ephemeral_credential_bro.Controller.Delete.{reconcile_delete}
use ephemeral_credential_bro.Controller.Mint.{mint_credential}
use ephemeral_credential_bro.Controller.Reconcile.{reconcile, requeue_now}
use ephemeral_credential_bro.Controller.Traced.{traced, traced_provider, updated}
use ephemeral_credential_bro.Controller.Protocol.Unprotected.{first_call, reconcile_unprotected}
use ephemeral_credential_bro.Controller.Protocol.{any, is_mint, Follows, succeeded}
use ephemeral_credential_bro.Controller.Protocol.Coherent.{Coherent}
use ephemeral_credential_bro.Controller.Protocol.Coherent.Whole.{reconcile-Coherent}
use ephemeral_credential_bro.Controller.Protocol.Live.{reconcile-Follows}
use ephemeral_credential_bro.Controller.Protocol.Deletion.{
  Cleans, is_deletion, is_revoke, is_secret_write, reconcile_delete-Cleans,
}
use ephemeral_credential_bro.Controller.Outcome.{
  Reports, is_status_update, fail_status-Reports, fail_status_retries,
}
use ephemeral_credential_bro.Controller.Outcome.Success.{IsDone, mint_credential-IsDone}
use ephemeral_credential_bro.Controller.Outcome.Idle.{reconcile_idle, reconcile_unregistered}
use ephemeral_credential_bro.Tests.Sample.{
  credential, secret, unprotected, world, reconciler, reconciler-SetsConditions, bare, request,
  provider,
}

-- A rotation at 4200 s.
reconcile-Follows_example :
    Follows credential
      (stored_handle reconciler credential)
      (reconcile (traced reconciler) request (world (some secret) 4200, [])).1.1
unfolding is_zero
reconcile-Follows_example =
    reconcile-Follows reconciler request credential (world (some secret) 4200)
      (world (some secret) 4200) refl refl refl

mint_credential-IsDone_example :
    let (res, end) =
      mint_credential
        (traced reconciler)
        (traced_provider provider)
        credential
        (seconds 4200)
        (world (some secret) 4200, []) in
    IsDone (res, end.1)
mint_credential-IsDone_example =
    mint_credential-IsDone reconciler provider credential (seconds 4200)
      (world (some secret) 4200, [])

reconcile_delete-Cleans_example :
    Cleans reconciler credential
      (stored_handle reconciler credential)
      (reconcile_delete (traced reconciler) credential (world (some secret) 2000, [])).1.1
reconcile_delete-Cleans_example =
    reconcile_delete-Cleans reconciler credential (world (some secret) 2000)

-- The first reconcile of a new credential.
reconcile_unprotected_example :
    let (res, s) =
      reconcile
        (traced reconciler)
        request
        (record (world none 2000) { credential = unprotected }, []) in
    let protected : EphemeralCredential = reconciler.add_finalizer unprotected finalizer_name in
    (any is_mint s.1 ≡ false)
    × (any is_deletion s.1 ≡ false)
    × (any is_revoke s.1 ≡ false)
    × (any is_secret_write s.1 ≡ false)
    × (first_call s.1 ≡ some (updated protected (ok protected)))
    × (((res ≡ ok requeue_now) × (true ≡ true)) ⊎ (succeeded res ≡ false))
unfolding is_zero
reconcile_unprotected_example =
    reconcile_unprotected reconciler request unprotected
      (record (world none 2000) { credential = unprotected })
      (record (world none 2000) { credential = unprotected }) refl refl refl

abbrev no_answer : Message
no_answer = format "no answer" []

-- A failure after the expiry.
fail_status-Reports_example :
    let log =
      (fail_status
        (traced reconciler)
        credential
        mint_failed
        no_answer
        none
        true
        (world (some secret) 5000, [])).1.1 in
    Reports (seconds 5000) credential mint_failed log × (any is_status_update log ≡ true)
unfolding now
fail_status-Reports_example =
    fail_status-Reports reconciler credential mint_failed no_answer none true (seconds 5000)
      (world (some secret) 5000) (world (some secret) 5000) (reconciler-SetsConditions none) refl

fail_status_retries_example :
    succeeded
      (fail_status reconciler credential mint_failed no_answer none true
        (world (some secret) 5000)).0
    ≡ false
fail_status_retries_example =
    fail_status_retries reconciler credential mint_failed no_answer none (world (some secret) 5000)

idle : needs_mint (seconds 2000) (current_window credential) credential ≡ false
idle =
    needs_mint-first_half credential (seconds 1000) (seconds 4600) (seconds 2000)
      (record { expiry = refl; rotated = refl }) refl (omega int_laws) (omega int_laws)
      (omega int_laws)

reconcile_idle_example :
    (res : CtrlResult) × (reconcile reconciler request (world (some secret) 2000)
      ≡ (ok res, world (some secret) 2000))
    × (res.requeue ≡ false)
    × ComesBack credential (seconds 2000) res.requeue_after
unfolding is_zero get lookup now
reconcile_idle_example =
    reconcile_idle reconciler request credential (world (some secret) 2000)
      (world (some secret) 2000) refl refl refl provider (seconds 2000) (seconds 4600) secret
      (world (some secret) 2000) (world (some secret) 2000) refl refl refl (omega int_laws) idle
      (λ e. cons≢nil e) refl

reconcile_unregistered_example :
    (reconcile bare request (world (some secret) 2000)).0 ≡ ok nothing_more
unfolding is_zero get lookup
reconcile_unregistered_example =
    reconcile_unregistered bare request credential (world (some secret) 2000)
      (world (some secret) 2000) refl refl refl refl (λ ec' v. refl)

reconcile-Coherent_example :
    Coherent (reconcile (traced reconciler) request (world (some secret) 4200, [])).1.1
reconcile-Coherent_example =
    reconcile-Coherent reconciler request (world (some secret) 4200)
      (reconciler-SetsConditions none)
