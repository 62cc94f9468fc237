-- ===== src/Controller/Protocol/Live.antt =====
-- The order of the writes, for the whole of `Reconcile`.
use ephemeral_credential_bro.Base.{
  ap, Bool, true, false, ◌≡◌, refl, ◌∙◌, Option, none, some, [], ◌∷◌, arith, if◌then◌else◌,
}
use ephemeral_credential_bro.Base.Map.{lookup}
use ephemeral_credential_bro.GoTime.{Time, is_zero}
use ephemeral_credential_bro.Api.{
  EphemeralCredential, Reason, EventType, warning, secret_missing, provider_not_found,
  finalizer_name,
}
use ephemeral_credential_bro.Api.Error.{Message, wrap, format}
use ephemeral_credential_bro.Effects.{Result, ok, Action, handle, pure, handle-ends, raise}
use ephemeral_credential_bro.Rotation.{needs_mint, current_window}
use ephemeral_credential_bro.Provider.{Provider, CredentialHandle, get}
use ephemeral_credential_bro.Cluster.{Reconciler, Request, CtrlResult, nothing_more}
use ephemeral_credential_bro.Controller.{now, event, stored_handle}
use ephemeral_credential_bro.Controller.Status.{target_secret_exists}
use ephemeral_credential_bro.Controller.Mint.{mint_credential}
use ephemeral_credential_bro.Controller.Reconcile.{
  restore_unless, keep_or_restore, reconcile_live, no_provider, reconcile_found, reconcile,
}
use ephemeral_credential_bro.Controller.Traced.{
  Log, traced, traced_provider, traced_option, get-traced,
}
use ephemeral_credential_bro.Controller.Protocol.{
  Follows, any, is_mint, secret_written, Ends, mint_credential-Follows, fail_status-Follows,
}

-- Looking for the target Secret writes nothing.
pub target_secret_exists-quiet :
    {W : Type 0} (r : Reconciler W) (ec : EphemeralCredential) (s : W × Log)
    → (target_secret_exists (traced r) ec s).1.1 ≡ s.1
unfolding target_secret_exists
target_secret_exists-quiet r ec s = ground arith

pub now-quiet : {W : Type 0} (r : Reconciler W) (s : W × Log) → (now (traced r) s).1.1 ≡ s.1
unfolding now
now-quiet r s = ground arith

-- An event first of all leaves everything else to be done.
event-first :
    {W : Type 0} (r : Reconciler W) (ec ec' : EphemeralCredential) (kind : EventType)
    (reason : Reason) (message : Message) (previous : Option CredentialHandle) (s : W × Log)
    → s.1 ≡ []
    → let past = (event (traced r) ec kind reason message s).1.1 in
      (any is_mint past ≡ false) × (any secret_written past ≡ false) × Follows ec' previous past
unfolding event
event-first r ec ec' kind reason message previous s e = ground arith

pub if-either {ℓ} :
    {A : Type 0} (P : A → Type ℓ) (b : Bool) (x y : A) → P x → P y → P (if b then x else y)
if-either P true x y p q = p
if-either P false x y p q = q

module _ {W : Type 0} (r : Reconciler W) (prov : Provider W) (ec : EphemeralCredential) where
  restore_unless-Follows :
      (exists : Bool) (t expires : Time) (s : W × Log)
      → s.1 ≡ []
      → Ends r prov ec t (restore_unless (traced r) exists (traced_provider prov) ec t expires s)
  unfolding restore_unless event
  restore_unless-Follows true t expires s e = rw e tt
  restore_unless-Follows false t expires s e =
      let message : Message =
        format "target secret %q was missing; re-minting to restore it"
          (ec.spec.target_secret.name ∷ []) in
      let (unminted, unwritten, allowed) =
        event-first r ec ec warning secret_missing message (stored_handle r ec) s e in
      mint_credential-Follows r prov ec t (event (traced r) ec warning secret_missing message s).1
        unminted unwritten allowed

  keep_or_restore-Follows :
      (t : Time) (expires : Option Time) (s : W × Log)
      → s.1 ≡ []
      → Ends r prov ec t (keep_or_restore (traced r) (traced_provider prov) ec t expires s)
  unfolding keep_or_restore
  keep_or_restore-Follows t none s e =
      mint_credential-Follows r prov ec t s (rw e refl) (rw e refl) (rw e tt)
  keep_or_restore-Follows t (some expires) s e =
      let out : Result Bool × (W × Log) = target_secret_exists (traced r) ec s in
      let same : out.1.1 ≡ [] = target_secret_exists-quiet r ec s ∙ e in
      handle-ends {B = CtrlResult} (Ends r prov ec t) out.0 raise
        (λ exists. restore_unless (traced r) exists (traced_provider prov) ec t expires) out.1
        (λ exists _. restore_unless-Follows exists t expires out.1 same) (λ x _. rw same tt)

  reconcile_live-Follows :
      (s : W × Log)
      → s.1 ≡ []
      → Follows ec (stored_handle r ec) (reconcile_live (traced r) (traced_provider prov) ec s).1.1
  unfolding reconcile_live
  reconcile_live-Follows s e =
      let out : Result Time × (W × Log) = now (traced r) s in
      let same : out.1.1 ≡ [] = now-quiet r s ∙ e in
      handle-ends {B = CtrlResult} (λ end. Follows ec (stored_handle r ec) end.1.1) out.0 raise
        (λ t.
          if needs_mint t (current_window ec) ec
          then mint_credential (traced r) (traced_provider prov) ec t
          else keep_or_restore (traced r) (traced_provider prov) ec t ec.status.expires_at)
        out.1
        (λ t _.
          if-either (λ m. Follows ec (stored_handle r ec) (m out.1).1.1)
            (needs_mint t (current_window ec) ec)
            (mint_credential (traced r) (traced_provider prov) ec t)
            (keep_or_restore (traced r) (traced_provider prov) ec t ec.status.expires_at)
            (mint_credential-Follows r prov ec t out.1 (rw same refl) (rw same refl) (rw same tt))
            (keep_or_restore-Follows t ec.status.expires_at out.1 same))
        (λ x _. rw same tt)

module _ {W : Type 0} (r : Reconciler W) (ec : EphemeralCredential) where
  with_provider-Follows :
      (o : Option (Provider W)) (s : W × Log)
      → s.1 ≡ []
      → Follows ec
          (stored_handle r ec)
          (elim (traced_option o) as (λ x. Action (W × Log) CtrlResult) [
            | none ↦ no_provider (traced r) ec
            | some prov ↦ reconcile_live (traced r) prov ec
          ]
            s).1.1
  unfolding no_provider
  with_provider-Follows none s e =
      fail_status-Follows r ec (stored_handle r ec) provider_not_found _ none false s (rw e refl)
        (rw e tt)
  with_provider-Follows (some prov) s e = reconcile_live-Follows r prov ec s e

  reconcile_found-Follows :
      (s : W × Log)
      → s.1 ≡ []
      → is_zero ec.metadata.deletion_timestamp ≡ true
      → r.contains_finalizer ec finalizer_name ≡ true
      → Follows ec (stored_handle r ec) (reconcile_found (traced r) ec s).1.1
  unfolding reconcile_found get
  reconcile_found-Follows s e live protected =
      rw (live, protected, get-traced r.providers.providers ec.spec.provider)
        (with_provider-Follows (lookup ec.spec.provider r.providers.providers) s e)

-- A reconcile of a request goes on with the object that was found.
pub reconcile-found :
    {W : Type 0} (r : Reconciler W) (req : Request) (ec : EphemeralCredential) (w w' : W)
    → r.get_credential req.namespace req.name w ≡ (ok ec, w')
    → reconcile (traced r) req (w, []) ≡ reconcile_found (traced r) ec (w', [])
unfolding reconcile
reconcile-found {W} r req ec w w' found =
    ap
      (λ (out : Result EphemeralCredential × W).
        handle {B = CtrlResult} (λ (v : W × Log). (out.0, (out.1, v.1)))
          (λ e.
            if r.is_not_found e
            then pure nothing_more
            else raise (wrap (format "fetching EphemeralCredential" []) e))
          (λ ec'. reconcile_found (traced r) ec') (w, []))
      found

-- In a reconcile of a live credential that carries the finalizer, whatever the API server, the
-- provider and the clock answer: it mints at most once and in the credential's name, writes the target Secret only after a
-- successful mint, stores the new handle and reports Active only after the Secret is written,
-- revokes only the handle that the credential carried and only after the new Secret is written and
-- Active is reported, and deletes no Secret after it wrote one.
pub reconcile-Follows :
    {W : Type 0} (r : Reconciler W) (req : Request) (ec : EphemeralCredential) (w w' : W)
    → r.get_credential req.namespace req.name w ≡ (ok ec, w')
    → is_zero ec.metadata.deletion_timestamp ≡ true
    → r.contains_finalizer ec finalizer_name ≡ true
    → Follows ec (stored_handle r ec) (reconcile (traced r) req (w, [])).1.1
reconcile-Follows r req ec w w' found live protected =
    rw (reconcile-found r req ec w w' found)
      (reconcile_found-Follows r ec (w', []) refl live protected)
