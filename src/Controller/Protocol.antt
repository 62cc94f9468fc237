-- ===== src/Controller/Protocol.antt =====
-- The order of the writes of one reconcile of a live credential, whatever the world answers.
pub mod Live
pub mod Deletion
pub mod Coherent
pub mod Unprotected
use ephemeral_credential_bro.Base.{
  String, Bool, true, false, ◌||◌, ◌&&◌, ◌≡◌, refl, ◌∙◌, ap, Option, none, some, List, [], ◌∷◌,
  arith, inl, inr,
}
use ephemeral_credential_bro.GoTime.{Time}
use ephemeral_credential_bro.Api.{
  EphemeralCredential, EphemeralCredentialSpec, Secret, CredentialState, unset, pending, active,
  expiring, failed, Reason, secret_write_failed, invalid_config,
}
use ephemeral_credential_bro.Api.Error.{Message, Error, of_error, wrap, format}
use ephemeral_credential_bro.Effects.{Result, ok, err, handle-ends}
use ephemeral_credential_bro.Provider.{Provider, MintResult, CredentialHandle, get}
use ephemeral_credential_bro.TargetSecret.{mutate_secret}
use ephemeral_credential_bro.Provider.Scope.{AnyScope}
use ephemeral_credential_bro.Cluster.{Reconciler, CtrlResult}
use ephemeral_credential_bro.Controller.{now, event, set_ready_condition, stored_handle}
use ephemeral_credential_bro.Controller.Scope.{build_scope, build_github_scope}
use ephemeral_credential_bro.Controller.Status.{fail_status, delete_target_secret}
use ephemeral_credential_bro.Controller.Mint.{
  mint_credential, empty_secret, record_mint, write_target_secret, write_and_record, mint_with,
  mint_request, failure_reason,
}
use ephemeral_credential_bro.Controller.Traced.{
  Call, Log, minted, revoked, wrote_secret, deleted_secret, updated, updated_status, recorded,
  set_condition, traced, traced_provider,
}

abbrev pub succeeded : {A : Type 0} → Result A → Bool
succeeded (ok a) = true
succeeded (err e) = false

abbrev pub is_active : CredentialState → Bool
is_active active = true
is_active _ = false

abbrev pub any : (Call → Bool) → Log → Bool
any p [] = false
any p (c ∷ past) = p c || any p past

abbrev pub is_mint : Call → Bool
is_mint (minted req res) = true
is_mint _ = false

abbrev pub mint_succeeded : Call → Bool
mint_succeeded (minted req res) = succeeded res
mint_succeeded _ = false

abbrev pub secret_written : Call → Bool
secret_written (wrote_secret s res) = succeeded res
secret_written _ = false

abbrev pub active_reported : Call → Bool
active_reported (updated_status ec res) = is_active ec.status.state && succeeded res
active_reported _ = false

abbrev pub FollowsActive : CredentialState → Log → Type 0
FollowsActive active past = any secret_written past ≡ true
FollowsActive _ past = Unit

-- What a reconcile of `ec` may do after `past`, where `previous` is the handle that `ec` carries.
abbrev pub MayFollow : EphemeralCredential → Option CredentialHandle → Call → Log → Type 0
MayFollow ec previous (minted req res) past =
    (any is_mint past ≡ false)
    × (req.namespace ≡ ec.metadata.namespace)
    × (req.name ≡ ec.metadata.name)
MayFollow ec previous (wrote_secret s res) past =
    (any mint_succeeded past ≡ true) × (s ≡ empty_secret ec)
MayFollow ec previous (updated ec' res) past = any secret_written past ≡ true
MayFollow ec previous (updated_status ec' res) past = FollowsActive ec'.status.state past
MayFollow ec previous (revoked h res) past =
    (any secret_written past ≡ true) × (any active_reported past ≡ true) × (previous ≡ some h)
MayFollow ec previous (deleted_secret s res) past = any secret_written past ≡ false
MayFollow ec previous (recorded kind reason) past = Unit
MayFollow ec previous (set_condition c) past = Unit

-- Every call of the log was allowed when it was made.
abbrev pub Follows : EphemeralCredential → Option CredentialHandle → Log → Type 0
Follows ec previous [] = Unit
Follows ec previous (c ∷ past) = MayFollow ec previous c past × Follows ec previous past

-- Building a scope writes nothing.
pub build_scope-quiet :
    {W : Type 0} (r : Reconciler W) (namespace : String) (spec : EphemeralCredentialSpec)
    (s : W × Log)
    → (build_scope (traced r) namespace spec s).1.1 ≡ s.1
unfolding build_scope build_github_scope
build_scope-quiet r namespace spec s = ground arith

module _ {W : Type 0} (r : Reconciler W) (ec : EphemeralCredential)
    (previous : Option CredentialHandle) where
  fail_status-Follows :
      (reason : Reason) (message : Message) (cause : Option Error) (retryable : Bool) (s : W × Log)
      → any secret_written s.1 ≡ false
      → Follows ec previous s.1
      → Follows ec previous (fail_status (traced r) ec reason message cause retryable s).1.1
  unfolding fail_status delete_target_secret now event set_ready_condition
  fail_status-Follows reason message cause retryable s fresh h = ground arith

  record_mint-Follows :
      (prov : Provider W) (t : Time) (res : MintResult) (s : W × Log)
      → any secret_written s.1 ≡ true
      → Follows ec previous s.1
      → Follows ec previous (record_mint (traced r) (traced_provider prov) ec t previous res s).1.1
  unfolding record_mint event set_ready_condition
  record_mint-Follows prov t res s written h = ground arith

module _ {W : Type 0} (r : Reconciler W) (prov : Provider W) (ec : EphemeralCredential)
    (t : Time) where
  abbrev pub Ends : Result CtrlResult × (W × Log) → Type 0
  Ends end = Follows ec (stored_handle r ec) end.1.1

  -- The write is allowed, and it counts as one exactly if it returns no error.
  write_target_secret-Follows :
      (res : MintResult) (s : W × Log)
      → any mint_succeeded s.1 ≡ true
      → any secret_written s.1 ≡ false
      → Follows ec (stored_handle r ec) s.1
      → let out = write_target_secret (traced r) ec res s in
        Follows ec (stored_handle r ec) out.1.1 × (any secret_written out.1.1 ≡ succeeded out.0)
  unfolding write_target_secret
  write_target_secret-Follows res s made unwritten h = ground arith

  write_and_record-Follows :
      (res : MintResult) (s : W × Log)
      → any mint_succeeded s.1 ≡ true
      → any secret_written s.1 ≡ false
      → Follows ec (stored_handle r ec) s.1
      → Ends (write_and_record (traced r) (traced_provider prov) ec t res s)
  unfolding write_and_record stored_handle
  write_and_record-Follows res s made unwritten h =
      let out : Result Secret × (W × Log) = write_target_secret (traced r) ec res s in
      let (allowed, counted) = write_target_secret-Follows res s made unwritten h in
      handle-ends Ends out.0
        (λ x. fail_status (traced r) ec secret_write_failed (of_error x) (some x) true)
        (λ _. record_mint (traced r) (traced_provider prov) ec t (stored_handle r ec) res) out.1
        (λ a e.
          record_mint-Follows r ec (stored_handle r ec) prov t res out.1 (counted ∙ ap succeeded e)
            allowed)
        (λ x e.
          fail_status-Follows r ec (stored_handle r ec) secret_write_failed (of_error x) (some x)
            true out.1 (counted ∙ ap succeeded e) allowed)

  mint_with-Follows :
      (scope : AnyScope) (s : W × Log)
      → any is_mint s.1 ≡ false
      → any secret_written s.1 ≡ false
      → Follows ec (stored_handle r ec) s.1
      → Ends (mint_with (traced r) (traced_provider prov) ec t scope s)
  unfolding mint_with
  mint_with-Follows scope s unminted unwritten h =
      let out : Result MintResult × W = prov.mint (mint_request ec scope) s.0 in
      let past : Log = minted (mint_request ec scope) out.0 ∷ s.1 in
      handle-ends Ends out.0
        (λ x.
          fail_status (traced r) ec (failure_reason ec.status.expires_at) (of_error x) (some x)
            true)
        (λ a. write_and_record (traced r) (traced_provider prov) ec t a) (out.1, past)
        (λ a e.
          write_and_record-Follows a (out.1, past) (rw e refl) unwritten
            ((unminted, refl, refl), h))
        (λ x e.
          fail_status-Follows r ec (stored_handle r ec) (failure_reason ec.status.expires_at)
            (of_error x) (some x) true (out.1, past) unwritten ((unminted, refl, refl), h))

  pub mint_credential-Follows :
      (s : W × Log)
      → any is_mint s.1 ≡ false
      → any secret_written s.1 ≡ false
      → Follows ec (stored_handle r ec) s.1
      → Ends (mint_credential (traced r) (traced_provider prov) ec t s)
  unfolding mint_credential
  mint_credential-Follows s unminted unwritten h =
      let out : Result AnyScope × (W × Log) =
        build_scope (traced r) ec.metadata.namespace ec.spec s in
      let same : out.1.1 ≡ s.1 = build_scope-quiet r ec.metadata.namespace ec.spec s in
      handle-ends Ends out.0
        (λ x. fail_status (traced r) ec invalid_config (of_error x) (some x) true)
        (λ a. mint_with (traced r) (traced_provider prov) ec t a) out.1
        (λ a e. mint_with-Follows a out.1 (rw same unminted) (rw same unwritten) (rw same h))
        (λ x e.
          fail_status-Follows r ec (stored_handle r ec) invalid_config (of_error x) (some x) true
            out.1 (rw same unwritten) (rw same h))
