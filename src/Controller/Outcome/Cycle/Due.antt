-- ===== src/Controller/Outcome/Cycle/Due.antt =====
-- What a reconcile that runs at or after the wake-up of a mint finds in the status of that mint.
use ephemeral_credential_bro.Base.{arith, String, true, false, ◌≡◌, ◌∙◌, sym, some, Option}
use ephemeral_credential_bro.Base.Int.{pos, ◌≤ℤ◌, ◌<ℤ◌, ◌+ℤ◌, ◌-ℤ◌, int_laws}
use mathlib.Core.Path.{subst}
use ephemeral_credential_bro.GoTime.{Time, max_int64}
use ephemeral_credential_bro.Api.{
  EphemeralCredential, Secret, active, Reason, invalid_config, secret_write_failed,
}
use ephemeral_credential_bro.Api.Error.{Error, of_error}
use ephemeral_credential_bro.Effects.{Result, ok, err, handle-ends}
use ephemeral_credential_bro.Rotation.{min_requeue_after, needs_mint, current_window}
use ephemeral_credential_bro.Rotation.Schedule.{
  Holds, requeue_before_expiry, needs_mint-wake, needs_mint-first_half,
}
use ephemeral_credential_bro.Provider.{Provider, MintResult, CredentialHandle}
use ephemeral_credential_bro.Provider.Scope.{AnyScope}
use ephemeral_credential_bro.Cluster.{Reconciler, CtrlResult}
use ephemeral_credential_bro.Controller.{stored_handle}
use ephemeral_credential_bro.Controller.Scope.{build_scope, build_github_scope}
use ephemeral_credential_bro.Controller.Status.{fail_status}
use ephemeral_credential_bro.Controller.Mint.{
  mint_credential, mint_with, mint_request, write_and_record, write_target_secret, record_mint,
  failure_reason,
}
use ephemeral_credential_bro.Controller.Protocol.{succeeded}
use ephemeral_credential_bro.Controller.Outcome.{Mints, fail_status_retries}
use ephemeral_credential_bro.Controller.Outcome.Cycle.{StoresStatus, InStore, InStore-same}
use ephemeral_credential_bro.Controller.Outcome.Cycle.Recorded.{
  Recorded, RecordedEnd, next_window-spec, record_mint-Recorded,
}

module _ {W : Type 0} (r : Reconciler W) (prov : Provider W)
    (credential_at : String → String → W → EphemeralCredential) (kept : Time → Time)
    (law : StoresStatus r prov credential_at kept) (ec : EphemeralCredential) (t : Time) where
  -- The lifetime of a minted credential is longer than the floor of the delay and fits an int64; as
  -- the store keeps its times, it is still positive and fits.
  abbrev pub Fits : MintResult → Type 0
  Fits m =
      (min_requeue_after <ℤ m.expires_at -ℤ t)
      × (m.expires_at -ℤ t ≤ℤ max_int64)
      × (pos 0 <ℤ kept m.expires_at -ℤ kept t)
      × (kept m.expires_at -ℤ kept t ≤ℤ max_int64)

  -- The run ended with an error, or recorded a mint that `P` holds of and that fits.
  abbrev CycleEnd : (MintResult → Type 0) → Result CtrlResult × W → Type 0
  CycleEnd P (err e, w) = Unit
  CycleEnd P (ok res, w) =
      (m : MintResult) × P m
      × Fits m
      × Recorded r prov credential_at kept law ec t m.expires_at res
          (credential_at ec.metadata.namespace ec.metadata.name w)

  fails :
      (P : MintResult → Type 0) (end : Result CtrlResult × W)
      → succeeded end.0 ≡ false
      → CycleEnd P end
  fails P (err e, w) h = tt
  fails P (ok res, w) h = cc

  failed_late :
      (P : MintResult → Type 0) (reason : Reason) (x : Error) (w : W)
      → CycleEnd P (fail_status r ec reason (of_error x) (some x) true w)
  failed_late P reason x w = fails P _ (fail_status_retries r ec reason (of_error x) (some x) w)

  RecordedEnd-CycleEnd :
      (P : MintResult → Type 0) (end : Result CtrlResult × W) (m : MintResult)
      → P m
      → Fits m
      → RecordedEnd r prov credential_at kept law ec t m end
      → CycleEnd P end
  RecordedEnd-CycleEnd P (err e, w) m minted fits h = tt
  RecordedEnd-CycleEnd P (ok res, w) m minted fits h = (m, minted, fits, h)

  write_target_secret-keeps :
      (m : MintResult) (w : W)
      → InStore credential_at ec w
      → InStore credential_at ec (write_target_secret r ec m w).1
  unfolding write_target_secret
  write_target_secret-keeps m w there = InStore-same (grind (arith, law.write_keeps)) there

  build_scope-keeps :
      (w : W)
      → InStore credential_at ec w
      → InStore credential_at ec (build_scope r ec.metadata.namespace ec.spec w).1
  unfolding build_scope build_github_scope
  build_scope-keeps w there = InStore-same (grind (arith, law.get_keeps)) there

  write_and_record-CycleEnd :
      (P : MintResult → Type 0) (m : MintResult) (w : W)
      → P m
      → Fits m
      → InStore credential_at ec w
      → CycleEnd P (write_and_record r prov ec t m w)
  unfolding write_and_record
  write_and_record-CycleEnd P m w minted fits there =
      let out : Result Secret × W = write_target_secret r ec m w in
      let previous : Option CredentialHandle = stored_handle r ec in
      handle-ends (CycleEnd P) out.0
        (λ x. fail_status r ec secret_write_failed (of_error x) (some x) true)
        (λ _. record_mint r prov ec t previous m) out.1
        (λ s e. RecordedEnd-CycleEnd P _ m minted fits (
          record_mint-Recorded r prov credential_at kept law ec t previous m out.1
            (write_target_secret-keeps m w there)))
        (λ x _. failed_late P secret_write_failed x out.1)

  mint_with-CycleEnd :
      (P : MintResult → Type 0) (scope : AnyScope) (w : W)
      → ((m : MintResult) → (prov.mint (mint_request ec scope) w).0 ≡ ok m → P m)
      → ((m : MintResult) → P m → Fits m)
      → InStore credential_at ec w
      → CycleEnd P (mint_with r prov ec t scope w)
  unfolding mint_with
  mint_with-CycleEnd P scope w granted fits there =
      let out : Result MintResult × W = prov.mint (mint_request ec scope) w in
      let reason : Reason = failure_reason ec.status.expires_at in
      handle-ends (CycleEnd P) out.0 (λ x. fail_status r ec reason (of_error x) (some x) true)
        (λ m. write_and_record r prov ec t m) out.1
        (λ m e.
          write_and_record-CycleEnd P m out.1 (granted m e) (fits m (granted m e))
            (InStore-same (law.mint_keeps _ _ _ w) there))
        (λ x _. failed_late P reason x out.1)

  -- What the run that starts in `w` mints, if it builds a scope and the provider grants it, fits.
  abbrev pub MintFits : W → Type 0
  MintFits w = (m : MintResult) → Mints r prov ec w m → Fits m

  mint_credential-CycleEnd :
      (w : W)
      → MintFits w
      → InStore credential_at ec w
      → CycleEnd (Mints r prov ec w) (mint_credential r prov ec t w)
  unfolding mint_credential
  mint_credential-CycleEnd w fits there =
      let out : Result AnyScope × W = build_scope r ec.metadata.namespace ec.spec w in
      handle-ends (CycleEnd (Mints r prov ec w)) out.0
        (λ x. fail_status r ec invalid_config (of_error x) (some x) true)
        (λ scope. mint_with r prov ec t scope) out.1
        (λ scope e.
          mint_with-CycleEnd (Mints r prov ec w) scope out.1 (λ m granted. (scope, e, granted)) fits
            (build_scope-keeps w there))
        (λ x _. failed_late (Mints r prov ec w) invalid_config x out.1)

  -- The stored status of a mint whose credential expires at `expires`: a mint is not due for half of
  -- the lifetime, and due at and after the wake-up.
  pub record Cycles (expires : Time) (res : CtrlResult) (c : EphemeralCredential) : Type 0 where
    pub state : c.status.state ≡ active
    pub quiet :
        (now : Time)
        → now +ℤ now <ℤ kept t +ℤ kept expires
        → needs_mint now (current_window c) c ≡ false
    pub in_time : t +ℤ res.requeue_after <ℤ expires
    pub due :
        (now : Time) → t +ℤ res.requeue_after ≤ℤ now → needs_mint now (current_window c) c ≡ true

  abbrev pub CyclesIn : W → CtrlResult → EphemeralCredential → Type 0
  CyclesIn start res c = (m : MintResult) × Mints r prov ec start m × Cycles m.expires_at res c

  Recorded-Cycles :
      (expires : Time) (res : CtrlResult) (c : EphemeralCredential)
      → Recorded r prov credential_at kept law ec t expires res c
      → min_requeue_after <ℤ expires -ℤ t
      → expires -ℤ t ≤ℤ max_int64
      → pos 0 <ℤ kept expires -ℤ kept t
      → kept expires -ℤ kept t ≤ℤ max_int64
      → Cycles expires res c
  Recorded-Cycles expires res c h positive range positive' range' =
      let holds : Holds c (kept t) (kept expires) = record {
        expiry = h.expiry;
        rotated = h.rotated;
      } in
      let same : c.metadata.generation ≡ c.status.observed_generation =
        h.generation ∙ sym h.observed in
      let (floor, early) = requeue_before_expiry ec t expires positive range in
      record {
        state = h.state;
        quiet = λ now early.
            needs_mint-first_half c (kept t) (kept expires) now holds same positive' range' early;
        in_time = rw h.wake early;
        due = λ now late.
            needs_mint-wake c t expires (kept t) (kept expires) now holds (law.not_later t)
              (law.not_later expires) (omega int_laws, range) (omega int_laws, range')
              (rw (next_window-spec r prov credential_at kept law ec t c expires h.spec, ← h.wake)
                late);
      }

  -- What the run's end is to be.
  abbrev CyclesAt : W → Result CtrlResult × W → Type 0
  CyclesAt start (err x, w) = Unit
  CyclesAt start (ok res, w) =
      CyclesIn start res (credential_at ec.metadata.namespace ec.metadata.name w)

  CycleEnd-CyclesAt :
      (start : W) (end : Result CtrlResult × W)
      → CycleEnd (Mints r prov ec start) end
      → CyclesAt start end
  CycleEnd-CyclesAt start (err x, w) h = tt
  CycleEnd-CyclesAt start (ok res, w) (m, minted, fits, recorded) =
      let (positive, range, positive', range') = fits in
      (m, minted, Recorded-Cycles _ res _ recorded positive range positive' range')

  -- The cycle of rotations: when a minting run at `t` of the credential that is in the store returns
  -- no error, the stored credential is Active with the times of the run's mint, which succeeded. `needsMint` of
  -- it is false until half of the lifetime is over, and true at and after the wake-up that the run
  -- returned, with the window that its status gives; and that wake-up comes before the minted
  -- credential expires. The client stores credentials as the API server does, which may drop fractions
  -- of a second, and the lifetime that the run is granted is longer than the floor of the delay and
  -- fits an int64, also as its times are kept.
  pub mint_credential-cycles :
      (w w' : W) (res : CtrlResult)
      → InStore credential_at ec w
      → MintFits w
      → mint_credential r prov ec t w ≡ (ok res, w')
      → CyclesIn w res (credential_at ec.metadata.namespace ec.metadata.name w')
  mint_credential-cycles w w' res there fits e =
      subst (CyclesAt w) e (CycleEnd-CyclesAt w _ (mint_credential-CycleEnd w fits there))
