-- ===== src/Controller/Protocol/Coherent/Whole.antt =====
-- The statuses that a reconcile sends, from the mint up to the whole of `Reconcile`.
use ephemeral_credential_bro.Base.{
  ap, Bool, true, false, not, ◌≡◌, Option, none, some, [], arith, if◌then◌else◌,
}
use ephemeral_credential_bro.Base.Map.{lookup}
use ephemeral_credential_bro.GoTime.{Time, is_zero}
use ephemeral_credential_bro.Api.{
  EphemeralCredential, Secret, Reason, invalid_config, secret_write_failed, provider_not_found,
  finalizer_name,
}
use ephemeral_credential_bro.Api.Error.{of_error, wrap, format}
use ephemeral_credential_bro.Effects.{Result, Action, pure, handle-ends, raise}
use ephemeral_credential_bro.Rotation.{needs_mint, current_window}
use ephemeral_credential_bro.Provider.{Provider, MintResult, get}
use ephemeral_credential_bro.Provider.Scope.{AnyScope}
use ephemeral_credential_bro.Cluster.{Reconciler, Request, CtrlResult, nothing_more}
use ephemeral_credential_bro.Controller.{now, event, stored_handle}
use ephemeral_credential_bro.Controller.Scope.{build_scope}
use ephemeral_credential_bro.Controller.Status.{fail_status, target_secret_exists}
use ephemeral_credential_bro.Controller.Delete.{reconcile_delete}
use ephemeral_credential_bro.Controller.Mint.{
  mint_credential, record_mint, write_target_secret, write_and_record, mint_with, mint_request,
  failure_reason,
}
use ephemeral_credential_bro.Controller.Reconcile.{
  restore_unless, keep_or_restore, reconcile_live, no_provider, reconcile_found, reconcile,
  add_finalizer_first,
}
use ephemeral_credential_bro.Controller.Traced.{
  Log, traced, traced_provider, traced_option, get-traced,
}
use ephemeral_credential_bro.Controller.Protocol.{any, secret_written, build_scope-quiet, succeeded}
use ephemeral_credential_bro.Controller.Protocol.Live.{
  target_secret_exists-quiet, now-quiet, if-either,
}
use ephemeral_credential_bro.Controller.Conditions.{SetsConditions}
use ephemeral_credential_bro.Controller.Protocol.Coherent.{
  Coherent, Ends, handle-Coherent, fail_status-Coherent, record_mint-Coherent,
  add_finalizer_first-Coherent, reconcile_delete-Coherent,
}

module _ {W : Type 0} (r : Reconciler W) (conditions : SetsConditions r) (prov : Provider W)
    (ec : EphemeralCredential) (t : Time) where
  write_target_secret-Coherent :
      (res : MintResult) (s : W × Log)
      → Coherent s.1
      → let out = write_target_secret (traced r) ec res s in
        Ends out × ((succeeded out.0 ≡ true) → any secret_written out.1.1 ≡ true)
  unfolding write_target_secret
  write_target_secret-Coherent res s h = ground arith

  write_and_record-Coherent :
      (res : MintResult) (s : W × Log)
      → Coherent s.1
      → Ends (write_and_record (traced r) (traced_provider prov) ec t res s)
  unfolding write_and_record
  write_and_record-Coherent res s h =
      let out : Result Secret × (W × Log) = write_target_secret (traced r) ec res s in
      let (allowed, written) = write_target_secret-Coherent res s h in
      handle-ends Ends out.0
        (λ x. fail_status (traced r) ec secret_write_failed (of_error x) (some x) true)
        (λ _. record_mint (traced r) (traced_provider prov) ec t (stored_handle (traced r) ec) res)
        out.1
        (λ a e.
          record_mint-Coherent r conditions ec prov t (stored_handle (traced r) ec) res out.1
            (written (ap succeeded e)) allowed)
        (λ x _.
          fail_status-Coherent r conditions ec secret_write_failed (of_error x) (some x) true out.1
            allowed)

  mint_with-Coherent :
      (scope : AnyScope) (s : W × Log)
      → Coherent s.1
      → Ends (mint_with (traced r) (traced_provider prov) ec t scope s)
  unfolding mint_with
  mint_with-Coherent scope s h =
      let reason : Reason = failure_reason ec.status.expires_at in
      handle-Coherent ((traced_provider prov).mint (mint_request ec scope))
        (λ x. fail_status (traced r) ec reason (of_error x) (some x) true)
        (λ m. write_and_record (traced r) (traced_provider prov) ec t m) s (tt, h)
        (λ x v k. fail_status-Coherent r conditions ec reason (of_error x) (some x) true v k)
        (λ m v k. write_and_record-Coherent m v k)

  mint_credential-Coherent :
      (s : W × Log) → Coherent s.1 → Ends (mint_credential (traced r) (traced_provider prov) ec t s)
  unfolding mint_credential
  mint_credential-Coherent s h =
      handle-Coherent (build_scope (traced r) ec.metadata.namespace ec.spec)
        (λ x. fail_status (traced r) ec invalid_config (of_error x) (some x) true)
        (λ scope. mint_with (traced r) (traced_provider prov) ec t scope) s
        (rw (build_scope-quiet r ec.metadata.namespace ec.spec s) h)
        (λ x v k.
          fail_status-Coherent r conditions ec invalid_config (of_error x) (some x) true v k)
        (λ scope v k. mint_with-Coherent scope v k)

  restore_unless-Coherent :
      (exists : Bool) (expires : Time) (s : W × Log)
      → Coherent s.1
      → Ends (restore_unless (traced r) exists (traced_provider prov) ec t expires s)
  unfolding restore_unless event
  restore_unless-Coherent true expires s h = h
  restore_unless-Coherent false expires s h = mint_credential-Coherent _ (ground arith)

  keep_or_restore-Coherent :
      (expires : Option Time) (s : W × Log)
      → Coherent s.1
      → Ends (keep_or_restore (traced r) (traced_provider prov) ec t expires s)
  unfolding keep_or_restore
  keep_or_restore-Coherent none s h = mint_credential-Coherent s h
  keep_or_restore-Coherent (some expires) s h =
      handle-Coherent (target_secret_exists (traced r) ec) raise
        (λ exists. restore_unless (traced r) exists (traced_provider prov) ec t expires) s
        (rw (target_secret_exists-quiet r ec s) h) (λ x v k. k)
        (λ exists v k. restore_unless-Coherent exists expires v k)

module _ {W : Type 0} (r : Reconciler W) (conditions : SetsConditions r)
    (ec : EphemeralCredential) where
  reconcile_live-Coherent :
      (prov : Provider W) (s : W × Log)
      → Coherent s.1
      → Ends (reconcile_live (traced r) (traced_provider prov) ec s)
  unfolding reconcile_live
  reconcile_live-Coherent prov s h =
      handle-Coherent (now (traced r)) raise
        (λ t.
          if needs_mint t (current_window ec) ec
          then mint_credential (traced r) (traced_provider prov) ec t
          else keep_or_restore (traced r) (traced_provider prov) ec t ec.status.expires_at)
        s (rw (now-quiet r s) h) (λ x v k. k)
        (λ t v k.
          if-either (λ (m : Action (W × Log) CtrlResult). Ends (m v))
            (needs_mint t (current_window ec) ec)
            (mint_credential (traced r) (traced_provider prov) ec t)
            (keep_or_restore (traced r) (traced_provider prov) ec t ec.status.expires_at)
            (mint_credential-Coherent r conditions prov ec t v k)
            (keep_or_restore-Coherent r conditions prov ec t ec.status.expires_at v k))

  with_provider-Coherent :
      (o : Option (Provider W)) (s : W × Log)
      → Coherent s.1
      → Ends (
          elim (traced_option o) as (λ x. Action (W × Log) CtrlResult) [
            | none ↦ no_provider (traced r) ec
            | some prov ↦ reconcile_live (traced r) prov ec
          ]
            s)
  unfolding no_provider
  with_provider-Coherent none s h =
      fail_status-Coherent r conditions ec provider_not_found _ none false s h
  with_provider-Coherent (some prov) s h = reconcile_live-Coherent prov s h

  reconcile_found-Coherent : (s : W × Log) → Coherent s.1 → Ends (reconcile_found (traced r) ec s)
  unfolding reconcile_found get
  reconcile_found-Coherent s h =
      if-either (λ (m : Action (W × Log) CtrlResult). Ends (m s))
        (not (is_zero ec.metadata.deletion_timestamp)) (reconcile_delete (traced r) ec) _
        (reconcile_delete-Coherent r conditions ec s h)
        (if-either (λ (m : Action (W × Log) CtrlResult). Ends (m s))
          (not (r.contains_finalizer ec finalizer_name)) (add_finalizer_first (traced r) ec) _
          (add_finalizer_first-Coherent r conditions ec s h)
          (rw (get-traced r.providers.providers ec.spec.provider)
            (with_provider-Coherent (lookup ec.spec.provider r.providers.providers) s h)))

-- Whatever a reconcile finds, and whatever the API server, the provider and the clock answer: every
-- status that it sends has a state and a Ready condition, of the object's generation, which is true
-- if the state is Active or Expiring and false otherwise; and Active is sent only after the target
-- Secret was written. Setting a condition does what the library documents.
pub reconcile-Coherent :
    {W : Type 0} (r : Reconciler W) (req : Request) (w : W)
    → SetsConditions r
    → Coherent (reconcile (traced r) req (w, [])).1.1
unfolding reconcile
reconcile-Coherent r req w conditions =
    handle-Coherent ((traced r).get_credential req.namespace req.name)
      (λ e.
        if r.is_not_found e
        then pure nothing_more
        else raise (wrap (format "fetching EphemeralCredential" []) e))
      (λ ec. reconcile_found (traced r) ec) (w, []) tt (λ e v k. ground (arith, k))
      (λ ec v k. reconcile_found-Coherent r conditions ec v k)
