-- ===== src/Controller/Outcome/Success.antt =====
-- A minting run that returns no error has done all that it is for.
use ephemeral_credential_bro.Base.{true, false, ◌≡◌, refl, ◌∙◌, ap, Option, some, ◌∷◌, arith}
use ephemeral_credential_bro.GoTime.{Time}
use ephemeral_credential_bro.Api.{
  EphemeralCredential, Secret, Reason, invalid_config, secret_write_failed,
}
use ephemeral_credential_bro.Api.Error.{Error, of_error}
use ephemeral_credential_bro.Effects.{Result, ok, err, handle-ends}
use ephemeral_credential_bro.Rotation.{min_requeue_after}
use ephemeral_credential_bro.Rotation.Schedule.{requeue_floor}
use ephemeral_credential_bro.Base.Int.{◌≤ℤ◌}
use ephemeral_credential_bro.Provider.{Provider, MintResult, CredentialHandle}
use ephemeral_credential_bro.Provider.Scope.{AnyScope}
use ephemeral_credential_bro.Cluster.{Reconciler, CtrlResult}
use ephemeral_credential_bro.Controller.{event, set_ready_condition, stored_handle}
use ephemeral_credential_bro.Controller.Scope.{build_scope}
use ephemeral_credential_bro.Controller.Status.{fail_status}
use ephemeral_credential_bro.Controller.Mint.{
  mint_credential, mint_with, write_and_record, write_target_secret, record_mint, mint_request,
  failure_reason,
}
use ephemeral_credential_bro.Controller.Traced.{Log, minted, traced, traced_provider}
use ephemeral_credential_bro.Controller.Protocol.{
  any, succeeded, mint_succeeded, secret_written, active_reported,
}
use ephemeral_credential_bro.Controller.Outcome.{fail_status_retries}

-- No error was returned only if everything that a mint is for has been done.
abbrev pub IsDone : Result CtrlResult × Log → Type 0
IsDone (err e, log) = Unit
IsDone (ok res, log) =
    (any mint_succeeded log ≡ true)
    × (any secret_written log ≡ true)
    × (any active_reported log ≡ true)
    × (min_requeue_after ≤ℤ res.requeue_after)

not-IsDone : (end : Result CtrlResult × Log) → succeeded end.0 ≡ false → IsDone end
not-IsDone (err e, log) h = tt
not-IsDone (ok res, log) h = cc

module _ {W : Type 0} (r : Reconciler W) (prov : Provider W) (ec : EphemeralCredential)
    (t : Time) where
  abbrev Finishes : Result CtrlResult × (W × Log) → Type 0
  Finishes end = IsDone (end.0, end.1.1)

  record_mint-IsDone :
      (previous : Option CredentialHandle) (res : MintResult) (s : W × Log)
      → any mint_succeeded s.1 ≡ true
      → any secret_written s.1 ≡ true
      → Finishes (record_mint (traced r) (traced_provider prov) ec t previous res s)
  unfolding record_mint event set_ready_condition
  record_mint-IsDone previous res s made written = grind (arith, requeue_floor)

  write_target_secret-logged :
      (res : MintResult) (s : W × Log)
      → let out = write_target_secret (traced r) ec res s in
        (any mint_succeeded out.1.1 ≡ any mint_succeeded s.1)
        × (succeeded out.0 ≡ true → any secret_written out.1.1 ≡ true)
  unfolding write_target_secret
  write_target_secret-logged res s = ground arith

  failed_late :
      (reason : Reason) (x : Error) (s : W × Log)
      → Finishes (fail_status (traced r) ec reason (of_error x) (some x) true s)
  failed_late reason x s =
      not-IsDone _ (fail_status_retries (traced r) ec reason (of_error x) (some x) s)

  write_and_record-IsDone :
      (res : MintResult) (s : W × Log)
      → any mint_succeeded s.1 ≡ true
      → Finishes (write_and_record (traced r) (traced_provider prov) ec t res s)
  unfolding write_and_record
  write_and_record-IsDone res s made =
      let out : Result Secret × (W × Log) = write_target_secret (traced r) ec res s in
      let (kept, counted) = write_target_secret-logged res s in
      let previous : Option CredentialHandle = stored_handle (traced r) ec in
      handle-ends Finishes out.0
        (λ x. fail_status (traced r) ec secret_write_failed (of_error x) (some x) true)
        (λ _. record_mint (traced r) (traced_provider prov) ec t previous res) out.1
        (λ a e. record_mint-IsDone previous res out.1 (kept ∙ made) (counted (ap succeeded e)))
        (λ x _. failed_late secret_write_failed x out.1)

  mint_with-IsDone :
      (scope : AnyScope) (s : W × Log)
      → Finishes (mint_with (traced r) (traced_provider prov) ec t scope s)
  unfolding mint_with
  mint_with-IsDone scope s =
      let out : Result MintResult × W = prov.mint (mint_request ec scope) s.0 in
      let past : Log = minted (mint_request ec scope) out.0 ∷ s.1 in
      let reason : Reason = failure_reason ec.status.expires_at in
      handle-ends Finishes out.0 (λ x. fail_status (traced r) ec reason (of_error x) (some x) true)
        (λ a. write_and_record (traced r) (traced_provider prov) ec t a) (out.1, past)
        (λ a e. write_and_record-IsDone a (out.1, past) (rw e refl))
        (λ x _. failed_late reason x (out.1, past))

  -- A minting run that returns no error has had a mint that succeeded, has written the target Secret
  -- and has reported Active, and it schedules the next reconcile no sooner than the floor.
  pub mint_credential-IsDone :
      (s : W × Log)
      → let (res, end) = mint_credential (traced r) (traced_provider prov) ec t s in
        IsDone (res, end.1)
  unfolding mint_credential
  mint_credential-IsDone s =
      let out : Result AnyScope × (W × Log) =
        build_scope (traced r) ec.metadata.namespace ec.spec s in
      handle-ends Finishes out.0
        (λ x. fail_status (traced r) ec invalid_config (of_error x) (some x) true)
        (λ a. mint_with (traced r) (traced_provider prov) ec t a) out.1
        (λ a _. mint_with-IsDone a out.1) (λ x _. failed_late invalid_config x out.1)
