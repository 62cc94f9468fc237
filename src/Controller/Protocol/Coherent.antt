-- ===== src/Controller/Protocol/Coherent.antt =====
-- The statuses that a reconcile sends, whatever it finds: their state and their Ready condition.
pub mod Whole
use ephemeral_credential_bro.Base.{
  ap, Bool, true, false, not, ◌||◌, ◌≡◌, refl, ◌∙◌, Option, none, some, [], ◌∷◌, arith,
  if◌then◌else◌, inl, inr,
}
use ephemeral_credential_bro.Base.Map.{lookup}
use ephemeral_credential_bro.GoTime.{Time, is_zero}
use ephemeral_credential_bro.Api.{
  EphemeralCredential, Secret, CredentialState, unset, pending, active, expiring, failed, Reason,
  EventType, warning, secret_missing, ConditionStatus, condition_true, condition_false,
  condition_ready, invalid_config, secret_write_failed, provider_not_found, finalizer_name,
}
use ephemeral_credential_bro.Api.Error.{Error, Message, of_error, wrap, format}
use ephemeral_credential_bro.Effects.{
  Result, ok, err, Action, handle, pure, handle-ends, raise, or_wrap, ◌>>◌,
}
use ephemeral_credential_bro.Rotation.{needs_mint, current_window}
use ephemeral_credential_bro.Provider.{Provider, MintResult, CredentialHandle, get}
use ephemeral_credential_bro.Provider.Scope.{AnyScope}
use ephemeral_credential_bro.Cluster.{Reconciler, Request, CtrlResult, nothing_more}
use ephemeral_credential_bro.Controller.{now, event, set_ready_condition, stored_handle}
use ephemeral_credential_bro.Controller.Scope.{build_scope}
use ephemeral_credential_bro.Controller.Status.{
  fail_status, delete_target_secret, target_secret_exists,
}
use ephemeral_credential_bro.Controller.Delete.{reconcile_delete, revoke_current}
use ephemeral_credential_bro.Controller.Mint.{
  mint_credential, record_mint, write_target_secret, write_and_record, mint_with, mint_request,
  failure_reason,
}
use ephemeral_credential_bro.Controller.Reconcile.{
  restore_unless, keep_or_restore, reconcile_live, no_provider, reconcile_found, reconcile,
  add_finalizer_first, report_pending,
}
use ephemeral_credential_bro.Base.Int.{ℤ}
use ephemeral_credential_bro.Controller.Conditions.{Report, reported, SetsConditions}
use ephemeral_credential_bro.Controller.Traced.{
  Call, Log, minted, updated_status, set_condition, traced, traced_provider, traced_option,
  get-traced,
}
use ephemeral_credential_bro.Controller.Protocol.{any, secret_written, build_scope-quiet, succeeded}
use ephemeral_credential_bro.Controller.Protocol.Live.{
  target_secret_exists-quiet, now-quiet, if-either,
}

-- What the Ready condition says in a state.
abbrev pub ready_in : CredentialState → ConditionStatus
ready_in unset = condition_false
ready_in pending = condition_false
ready_in active = condition_true
ready_in expiring = condition_true
ready_in failed = condition_false

-- A state that may be sent after `past`.
abbrev pub MaySend : CredentialState → Log → Type 0
MaySend unset past = ⊥
MaySend active past = any secret_written past ≡ true
MaySend _ past = Unit

abbrev pub stated : Option Report → Option (ConditionStatus × ℤ)
stated none = none
stated (some report) = some (report.status, report.observed_generation)

-- The Ready condition in a status says what the state says, for the generation of the object.
abbrev pub Agrees : EphemeralCredential → Type 0
Agrees ec =
    stated (reported condition_ready ec.status.conditions)
    ≡ some (ready_in ec.status.state, ec.metadata.generation)

abbrev pub MayStand : Call → Log → Type 0
MayStand (updated_status ec res) past = Agrees ec × MaySend ec.status.state past
MayStand _ past = Unit

abbrev pub Coherent : Log → Type 0
Coherent [] = Unit
Coherent (c ∷ past) = MayStand c past × Coherent past

abbrev pub Ends : {W A : Type 0} → Result A × (W × Log) → Type 0
Ends end = Coherent end.1.1

pub handle-Coherent :
    {W A B : Type 0} (m : Action (W × Log) A) (on_failure : Error → Action (W × Log) B)
    (next : A → Action (W × Log) B) (s : W × Log)
    → Ends (m s)
    → ((e : Error) (v : W × Log) → Coherent v.1 → Ends (on_failure e v))
    → ((a : A) (v : W × Log) → Coherent v.1 → Ends (next a v))
    → Ends (handle m on_failure next s)
handle-Coherent m on_failure next s h on_error on_ok =
    handle-ends Ends (m s).0 on_failure next (m s).1 (λ a _. on_ok a (m s).1 h)
      (λ e _. on_error e (m s).1 h)

module _ {W : Type 0} (r : Reconciler W) (conditions : SetsConditions r)
    (ec : EphemeralCredential) where
  pub fail_status-Coherent :
      (reason : Reason) (message : Message) (cause : Option Error) (retryable : Bool) (s : W × Log)
      → Coherent s.1
      → Ends (fail_status (traced r) ec reason message cause retryable s)
  unfolding fail_status delete_target_secret now event set_ready_condition
  fail_status-Coherent reason message cause retryable s h = grind (arith, conditions.sets)

  pub record_mint-Coherent :
      (prov : Provider W) (t : Time) (previous : Option CredentialHandle) (res : MintResult)
      (s : W × Log)
      → any secret_written s.1 ≡ true
      → Coherent s.1
      → Ends (record_mint (traced r) (traced_provider prov) ec t previous res s)
  unfolding record_mint event set_ready_condition
  record_mint-Coherent prov t previous res s written h = grind (arith, conditions.sets)

  pub add_finalizer_first-Coherent :
      (s : W × Log) → Coherent s.1 → Ends (add_finalizer_first (traced r) ec s)
  unfolding add_finalizer_first report_pending set_ready_condition
  add_finalizer_first-Coherent s h = grind (arith, conditions.sets)

  delete-Coherent : (s : W × Log) → Coherent s.1 → Ends (delete_target_secret (traced r) ec s)
  unfolding delete_target_secret
  delete-Coherent s h = ground arith

  abbrev drop_finalizer : Action (W × Log) CtrlResult
  drop_finalizer =
      or_wrap (format "removing finalizer" [])
        ((traced r).update (r.remove_finalizer ec finalizer_name))
      >> pure nothing_more

  drop_finalizer-Coherent : (s : W × Log) → Coherent s.1 → Ends (drop_finalizer s)
  drop_finalizer-Coherent s h = ground arith

  revoke_current-Coherent :
      (o : Option (Provider W)) (current : Option CredentialHandle) (s : W × Log)
      → Coherent s.1
      → Ends (revoke_current (traced r) (traced_option o) current s)
  unfolding revoke_current
  revoke_current-Coherent none current s h = h
  revoke_current-Coherent (some prov) none s h = h
  revoke_current-Coherent (some prov) (some current) s h = ground arith

  pub reconcile_delete-Coherent :
      (s : W × Log) → Coherent s.1 → Ends (reconcile_delete (traced r) ec s)
  unfolding reconcile_delete get
  reconcile_delete-Coherent s h =
      if-either (λ (m : Action (W × Log) CtrlResult). Ends (m s))
        (not (r.contains_finalizer ec finalizer_name)) (pure nothing_more) _ h
        (rw (get-traced r.providers.providers ec.spec.provider) (
          handle-Coherent
            (revoke_current (traced r)
              (traced_option (lookup ec.spec.provider r.providers.providers))
              (stored_handle (traced r) ec))
            raise (λ _. delete_target_secret (traced r) ec >> drop_finalizer) s
            (revoke_current-Coherent (lookup ec.spec.provider r.providers.providers)
              (stored_handle (traced r) ec) s h)
            (λ x v k. k)
            (λ a v k.
              handle-Coherent (delete_target_secret (traced r) ec) raise (λ _. drop_finalizer) v
                (delete-Coherent v k) (λ x u l. l) (λ b u l. drop_finalizer-Coherent u l))))
