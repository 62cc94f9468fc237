-- ===== src/Controller/Outcome/Missing.antt =====
-- What is reported when the target Secret is missing and minting it again fails.
use ephemeral_credential_bro.Base.{
  Bool, true, false, ◌≡◌, ◌&&◌, refl, sym, ◌∙◌, ap, Option, none, some, [], ◌∷◌, arith,
}
use mathlib.Core.Path.{subst}
use ephemeral_credential_bro.GoTime.{Time, before}
use ephemeral_credential_bro.Api.{
  EphemeralCredential, CredentialState, expiring, Reason, ConditionStatus, condition_true,
  condition_ready, invalid_config,
}
use ephemeral_credential_bro.Api.Error.{Error, of_error}
use ephemeral_credential_bro.Effects.{Result, ok, raise, handle-ends, ok-injective}
use ephemeral_credential_bro.Provider.{Provider, MintRequest, MintResult}
use ephemeral_credential_bro.Provider.Scope.{AnyScope}
use ephemeral_credential_bro.Cluster.{Reconciler, CtrlResult}
use ephemeral_credential_bro.Controller.{clock, now, event, set_ready_condition}
use ephemeral_credential_bro.Controller.Conditions.{Report, reported, SetsConditions}
use ephemeral_credential_bro.Controller.Scope.{build_scope}
use ephemeral_credential_bro.Controller.Status.{fail_status, target_secret_exists}
use ephemeral_credential_bro.Controller.Mint.{
  mint_credential, mint_with, write_and_record, mint_request, failure_reason,
}
use ephemeral_credential_bro.Controller.Reconcile.{keep_or_restore, restore_unless}
use ephemeral_credential_bro.Controller.Traced.{
  Call, Log, minted, updated_status, traced, traced_now, traced_provider,
}
use ephemeral_credential_bro.Controller.Protocol.{any, succeeded, secret_written, build_scope-quiet}

abbrev is_expiring : CredentialState → Bool
is_expiring expiring = true
is_expiring _ = false

abbrev is_true : ConditionStatus → Bool
is_true condition_true = true
is_true _ = false

abbrev says_ready : Option Report → Bool
says_ready none = false
says_ready (some report) = is_true report.status

-- A status of state Expiring is sent, with a Ready condition that is true.
abbrev pub expiring_sent : Call → Bool
expiring_sent (updated_status ec res) =
    is_expiring ec.status.state && says_ready (reported condition_ready ec.status.conditions)
expiring_sent _ = false

-- The run says that a valid credential is there, and has put none there.
abbrev pub Misreports : Log → Type 0
Misreports log = (any secret_written log ≡ false) × (any expiring_sent log ≡ true)

now-traced :
    {W : Type 0} (r : Reconciler W) (o : Option (W → Time × W)) (s : W × Log)
    → clock (traced r) (traced_now o) s ≡ (let (t, w) = clock r o s.0 in (t, (w, s.1)))
now-traced r none s = refl
now-traced r (some f) s = refl

target_secret_exists-traced :
    {W : Type 0} (r : Reconciler W) (ec : EphemeralCredential) (s : W × Log)
    → let out = target_secret_exists (traced r) ec s in
      (out.0 ≡ (target_secret_exists r ec s.0).0) × (out.1.1 ≡ s.1)
unfolding target_secret_exists
target_secret_exists-traced r ec s = ground arith

module _ {W : Type 0} (r : Reconciler W) (conditions : SetsConditions r) (prov : Provider W)
    (ec : EphemeralCredential) (expires : Time) (unexpired : ec.status.expires_at ≡ some expires)
    (early : (v : W) → before (clock r r.override_now v).0 expires ≡ true)
    (refused : (req : MintRequest) (v : W) → succeeded (prov.mint req v).0 ≡ false) where
  abbrev Ends : Result CtrlResult × (W × Log) → Type 0
  Ends end = Misreports end.1.1

  failed-Misreports :
      (reason : Reason) (x : Error) (s : W × Log)
      → any secret_written s.1 ≡ false
      → Ends (fail_status (traced r) ec reason (of_error x) (some x) true s)
  unfolding fail_status now event set_ready_condition
  failed-Misreports reason x s fresh =
      rw (now-traced r r.override_now s) (grind (arith, conditions.sets, early s.0))

  mint_with-Misreports :
      (t : Time) (scope : AnyScope) (s : W × Log)
      → any secret_written s.1 ≡ false
      → Ends (mint_with (traced r) (traced_provider prov) ec t scope s)
  unfolding mint_with
  mint_with-Misreports t scope s fresh =
      let out : Result MintResult × W = prov.mint (mint_request ec scope) s.0 in
      let reason : Reason = failure_reason ec.status.expires_at in
      handle-ends Ends out.0 (λ x. fail_status (traced r) ec reason (of_error x) (some x) true)
        (λ m. write_and_record (traced r) (traced_provider prov) ec t m)
        (out.1, minted (mint_request ec scope) out.0 ∷ s.1)
        (λ m e. cc (refused (mint_request ec scope) s.0, ap succeeded e))
        (λ x _.
          failed-Misreports reason x (out.1, minted (mint_request ec scope) out.0 ∷ s.1) fresh)

  mint_credential-Misreports :
      (t : Time) (s : W × Log)
      → any secret_written s.1 ≡ false
      → Ends (mint_credential (traced r) (traced_provider prov) ec t s)
  unfolding mint_credential
  mint_credential-Misreports t s fresh =
      let out : Result AnyScope × (W × Log) =
        build_scope (traced r) ec.metadata.namespace ec.spec s in
      let kept : any secret_written out.1.1 ≡ false =
        rw (build_scope-quiet r ec.metadata.namespace ec.spec s) fresh in
      handle-ends Ends out.0
        (λ x. fail_status (traced r) ec invalid_config (of_error x) (some x) true)
        (λ scope. mint_with (traced r) (traced_provider prov) ec t scope) out.1
        (λ scope _. mint_with-Misreports t scope out.1 kept)
        (λ x _. failed-Misreports invalid_config x out.1 kept)

  restore-Misreports :
      (t : Time) (s : W × Log)
      → any secret_written s.1 ≡ false
      → Ends (restore_unless (traced r) false (traced_provider prov) ec t expires s)
  unfolding restore_unless event
  restore-Misreports t s fresh = mint_credential-Misreports t _ (ground arith)

  -- When the target Secret of a credential that no mint is due for is missing, and minting it again
  -- fails while the clock stays before the expiry of the status, the run sends a status of state
  -- Expiring whose Ready condition is true, and it writes no Secret: it reports a valid credential
  -- where there is none. Setting a condition does what the library documents.
  pub missing-Misreports :
      (t : Time) (w : W)
      → (target_secret_exists r ec w).0 ≡ ok false
      → Misreports
          (keep_or_restore (traced r) (traced_provider prov) ec t (some expires) (w, [])).1.1
  unfolding keep_or_restore
  missing-Misreports t w missing =
      let out : Result Bool × (W × Log) = target_secret_exists (traced r) ec (w, []) in
      let (same, quiet) = target_secret_exists-traced r ec (w, []) in
      handle-ends {B = CtrlResult} Ends out.0 raise
        (λ exists. restore_unless (traced r) exists (traced_provider prov) ec t expires) out.1
        (λ exists e.
          subst (λ b. Ends (restore_unless (traced r) b (traced_provider prov) ec t expires out.1))
            (ok-injective (sym missing ∙ sym same ∙ e))
            (restore-Misreports t out.1 (rw quiet refl)))
        (λ x e. cc (same, missing, e))
