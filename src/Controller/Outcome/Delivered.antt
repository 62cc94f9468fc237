-- ===== src/Controller/Outcome/Delivered.antt =====
-- What a minting run that returns no error leaves in the target Secret, for a client that keeps
-- Secrets as the API server does.
use ephemeral_credential_bro.Base.{
  String, true, false, ◌≡◌, ◌∙◌, ap, Option, none, some, arith, List,
}
use mathlib.Core.Path.{subst}
use ephemeral_credential_bro.GoTime.{Time}
use ephemeral_credential_bro.Api.{
  EphemeralCredential, Secret, Condition, EventType, Reason, invalid_config, secret_write_failed,
}
use ephemeral_credential_bro.Api.Error.{Error, Message, of_error}
use ephemeral_credential_bro.Effects.{Result, ok, err, handle-ends}
use ephemeral_credential_bro.TargetSecret.{mutate_secret, fill_secret}
use ephemeral_credential_bro.Provider.{Provider, MintRequest, MintResult, CredentialHandle}
use ephemeral_credential_bro.Provider.Scope.{AnyScope}
use ephemeral_credential_bro.Cluster.{Reconciler, CtrlResult}
use ephemeral_credential_bro.Controller.{event, set_ready_condition, stored_handle}
use ephemeral_credential_bro.Controller.Scope.{build_scope, build_github_scope}
use ephemeral_credential_bro.Controller.Status.{fail_status}
use ephemeral_credential_bro.Controller.Mint.{
  mint_credential, mint_with, mint_request, write_and_record, write_target_secret, record_mint,
  empty_secret, failure_reason,
}
use ephemeral_credential_bro.Controller.Protocol.{succeeded}
use ephemeral_credential_bro.Controller.Outcome.{Mints, fail_status_retries}

-- What the API server has, or the object the client starts from.
abbrev pub or_given : Option Secret → Secret → Secret
or_given none s = s
or_given (some old) s = old

-- What a CreateOrUpdate of `s` through the closure `f` has done to the store between two worlds: the
-- closure got the stored Secret, or `s` where there was none, and a Secret with the data of what it
-- made is stored.
pub record IsWritten {W : Type 0} (secret_at : String → String → W → Option Secret) (s : Secret)
    (f : Secret → Result Secret) (w w' : W) : Type 0 where
  pub filled : Secret
  pub made : f (or_given (secret_at s.metadata.namespace s.metadata.name w) s) ≡ ok filled
  pub kept : Secret
  pub there : secret_at s.metadata.namespace s.metadata.name w' ≡ some kept
  pub same_data : kept.secret_data ≡ filled.secret_data

-- What a minting run relies on: `secret_at` is the Secret that the store has under a namespace and
-- a name. A CreateOrUpdate that succeeds has written through its closure; setting the owner leaves
-- the data alone; and nothing else that the run calls changes a Secret.
pub record StoresSecrets {W : Type 0} (r : Reconciler W) (prov : Provider W)
    (secret_at : String → String → W → Option Secret) : Type 0 where
  pub written :
      (s s' : Secret) (f : Secret → Result Secret) (w : W)
      → (r.create_or_update s f w).0 ≡ ok s'
      → IsWritten secret_at s f w (r.create_or_update s f w).1
  pub get_keeps :
      (of_namespace of_name namespace name : String) (w : W)
      → secret_at namespace name (r.get_secret of_namespace of_name w).1
        ≡ secret_at namespace name w
  pub mint_keeps :
      (req : MintRequest) (namespace name : String) (w : W)
      → secret_at namespace name (prov.mint req w).1 ≡ secret_at namespace name w
  pub owned :
      (ec : EphemeralCredential) (s s' : Secret)
      → r.set_controller_reference ec s ≡ ok s'
      → s'.secret_data ≡ s.secret_data
  pub update_keeps :
      (ec : EphemeralCredential) (namespace name : String) (w : W)
      → secret_at namespace name (r.update ec w).1 ≡ secret_at namespace name w
  pub status_keeps :
      (ec : EphemeralCredential) (namespace name : String) (w : W)
      → secret_at namespace name (r.update_status ec w).1 ≡ secret_at namespace name w
  pub revoke_keeps :
      (h : CredentialHandle) (namespace name : String) (w : W)
      → secret_at namespace name (prov.revoke h w).1 ≡ secret_at namespace name w
  pub event_keeps :
      (ec : EphemeralCredential) (kind : EventType) (reason : Reason) (message : Message)
      (namespace name : String) (w : W)
      → secret_at namespace name (event r ec kind reason message w).1 ≡ secret_at namespace name w
  pub condition_keeps :
      (cs : List Condition) (c : Condition) (namespace name : String) (w : W)
      → secret_at namespace name (r.set_status_condition cs c w).1 ≡ secret_at namespace name w

module _ {W : Type 0} (r : Reconciler W) (prov : Provider W)
    (secret_at : String → String → W → Option Secret) (law : StoresSecrets r prov secret_at)
    (ec : EphemeralCredential) (t : Time) where
  record_mint-keeps :
      (previous : Option CredentialHandle) (m : MintResult) (namespace name : String) (w : W)
      → secret_at namespace name (record_mint r prov ec t previous m w).1
        ≡ secret_at namespace name w
  unfolding record_mint set_ready_condition
  record_mint-keeps previous m namespace name w = grind (
    arith, law.update_keeps, law.status_keeps, law.revoke_keeps, law.event_keeps,
    law.condition_keeps,
  )

  abbrev target_at : W → Option Secret
  target_at w = secret_at ec.metadata.namespace ec.spec.target_secret.name w

  -- The store's target Secret has the data that writing the minted values makes of an earlier one.
  abbrev pub Holds : MintResult → Option Secret → W → Type 0
  Holds m old w =
      (s : Secret) × (target_at w ≡ some s)
      × (s.secret_data
          ≡ (fill_secret ec.spec.target_secret m.minted_data
              (or_given old (empty_secret ec))).secret_data)

  -- The values of the run's mint are in the target Secret, over what it held when the run began.
  abbrev pub Delivered : W → W → Type 0
  Delivered start w = (m : MintResult) × Mints r prov ec start m × Holds m (target_at start) w

  abbrev Delivers : (MintResult → Type 0) → Option Secret → Result CtrlResult × W → Type 0
  Delivers P old (err e, w) = Unit
  Delivers P old (ok res, w) = (m : MintResult) × P m × Holds m old w

  fails :
      (P : MintResult → Type 0) (old : Option Secret) (end : Result CtrlResult × W)
      → succeeded end.0 ≡ false
      → Delivers P old end
  fails P old (err e, w) h = tt
  fails P old (ok res, w) h = cc

  delivers :
      (P : MintResult → Type 0) (old : Option Secret) (end : Result CtrlResult × W) (m : MintResult)
      → P m
      → Holds m old end.1
      → Delivers P old end
  delivers P old (err e, w) m minted holds = tt
  delivers P old (ok res, w) m minted holds = (m, minted, holds)

  failed_late :
      (P : MintResult → Type 0) (old : Option Secret) (reason : Reason) (x : Error) (w : W)
      → Delivers P old (fail_status r ec reason (of_error x) (some x) true w)
  failed_late P old reason x w =
      fails P old _ (fail_status_retries r ec reason (of_error x) (some x) w)

  written-Holds :
      (m : MintResult) (w : W) (s : Secret)
      → (write_target_secret r ec m w).0 ≡ ok s
      → Holds m (target_at w) (write_target_secret r ec m w).1
  unfolding write_target_secret mutate_secret
  written-Holds m w s e =
      let f : Secret → Result Secret = mutate_secret r.set_controller_reference ec m in
      let same : (r.create_or_update (empty_secret ec) f w).0 ≡ ok s = ground (arith, e) in
      let out : IsWritten secret_at (empty_secret ec) f w
          (r.create_or_update (empty_secret ec) f w).1 =
        law.written (empty_secret ec) s f w same in
      let there : (write_target_secret r ec m w).1 ≡ (r.create_or_update (empty_secret ec) f w).1 =
        ground arith in
      (out.kept, ap target_at there ∙ out.there, out.same_data ∙ law.owned ec _ out.filled out.made)

  record_mint-Holds :
      (old : Option Secret) (previous : Option CredentialHandle) (m : MintResult) (w : W)
      → Holds m old w
      → Holds m old (record_mint r prov ec t previous m w).1
  record_mint-Holds old previous m w (s, there, same) =
      (s, record_mint-keeps previous m _ _ w ∙ there, same)

  write_and_record-Delivers :
      (P : MintResult → Type 0) (m : MintResult) (w : W)
      → P m
      → Delivers P (target_at w) (write_and_record r prov ec t m w)
  unfolding write_and_record
  write_and_record-Delivers P m w minted =
      let out : Result Secret × W = write_target_secret r ec m w in
      let old : Option Secret = target_at w in
      let previous : Option CredentialHandle = stored_handle r ec in
      handle-ends (Delivers P old) out.0
        (λ x. fail_status r ec secret_write_failed (of_error x) (some x) true)
        (λ _. record_mint r prov ec t previous m) out.1
        (λ s e.
          delivers P old _ m minted
            (record_mint-Holds old previous m out.1 (written-Holds m w s e)))
        (λ x _. failed_late P old secret_write_failed x out.1)

  mint_with-Delivers :
      (P : MintResult → Type 0) (scope : AnyScope) (w : W)
      → ((m : MintResult) → (prov.mint (mint_request ec scope) w).0 ≡ ok m → P m)
      → Delivers P (target_at w) (mint_with r prov ec t scope w)
  unfolding mint_with
  mint_with-Delivers P scope w granted =
      let out : Result MintResult × W = prov.mint (mint_request ec scope) w in
      let old : Option Secret = target_at w in
      let reason : Reason = failure_reason ec.status.expires_at in
      let same : target_at out.1 ≡ old = law.mint_keeps (mint_request ec scope) _ _ w in
      handle-ends (Delivers P old) out.0 (λ x. fail_status r ec reason (of_error x) (some x) true)
        (λ m. write_and_record r prov ec t m) out.1
        (λ m e.
          subst (λ (o : Option Secret). Delivers P o (write_and_record r prov ec t m out.1)) same
            (write_and_record-Delivers P m out.1 (granted m e)))
        (λ x _. failed_late P old reason x out.1)

  build_scope-keeps :
      (w : W) → target_at (build_scope r ec.metadata.namespace ec.spec w).1 ≡ target_at w
  unfolding build_scope build_github_scope
  build_scope-keeps w = grind (arith, law.get_keeps)

  mint_credential-Delivers :
      (w : W) → Delivers (Mints r prov ec w) (target_at w) (mint_credential r prov ec t w)
  unfolding mint_credential
  mint_credential-Delivers w =
      let out : Result AnyScope × W = build_scope r ec.metadata.namespace ec.spec w in
      let old : Option Secret = target_at w in
      handle-ends (Delivers (Mints r prov ec w) old) out.0
        (λ x. fail_status r ec invalid_config (of_error x) (some x) true)
        (λ scope. mint_with r prov ec t scope) out.1
        (λ scope e.
          subst
            (λ (o : Option Secret).
              Delivers (Mints r prov ec w) o (mint_with r prov ec t scope out.1))
            (build_scope-keeps w)
            (mint_with-Delivers (Mints r prov ec w) scope out.1 (λ m granted. (scope, e, granted))))
        (λ x _. failed_late (Mints r prov ec w) old invalid_config x out.1)

  -- When a minting run returns no error, its scope was built and its mint succeeded, and the store's
  -- target Secret has the data that writing the minted values makes of the Secret that was stored
  -- when the run began, or of an empty one, for a client that stores Secrets as the API server does
  -- and a provider that leaves Secrets alone.
  pub mint_credential-delivers :
      (w w' : W) (res : CtrlResult) → mint_credential r prov ec t w ≡ (ok res, w') → Delivered w w'
  mint_credential-delivers w w' res e =
      subst (Delivers (Mints r prov ec w) (target_at w)) e (mint_credential-Delivers w)
