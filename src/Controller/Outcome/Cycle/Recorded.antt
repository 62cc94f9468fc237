-- ===== src/Controller/Outcome/Cycle/Recorded.antt =====
-- What a minting run that returns no error leaves in the status.
use ephemeral_credential_bro.Base.{
  String, Bool, false, ◌≡◌, refl, sym, ◌∙◌, ap, Option, none, some, List, [], arith, inl, inr,
}
use mathlib.Core.Path.{subst}
use ephemeral_credential_bro.GoTime.{Time, Duration, seconds_of, sub}
use ephemeral_credential_bro.Api.{
  EphemeralCredential, EphemeralCredentialSpec, Condition, active, mint_succeeded, condition_true,
  condition_ready,
}
use ephemeral_credential_bro.Api.Error.{format, minted_via}
use ephemeral_credential_bro.Effects.{
  Action, Result, ok, err, handle-ends, Result-cases, ok-injective, or_wrap, or_wrap-ends, raise,
  ◌>>=◌,
}
use ephemeral_credential_bro.Rotation.{
  next_window, requeue_after, requested_rotate_before, clamp_rotate_before, or_default,
}
use ephemeral_credential_bro.Provider.{Provider, MintResult, CredentialHandle}
use ephemeral_credential_bro.Handle.{encode_handle}
use ephemeral_credential_bro.Cluster.{Reconciler, CtrlResult}
use ephemeral_credential_bro.Controller.{event, set_ready_condition}
use ephemeral_credential_bro.Controller.Mint.{
  record_mint, finish_mint, persist_handle, mark_active, with_handle,
}
use ephemeral_credential_bro.Controller.Outcome.Cycle.{
  StoresStatus, InStore, InStore-same, finish_mint-keeps,
}

module _ {W : Type 0} (r : Reconciler W) (prov : Provider W)
    (credential_at : String → String → W → EphemeralCredential) (kept : Time → Time)
    (law : StoresStatus r prov credential_at kept) (ec : EphemeralCredential) (t : Time) where
  -- The store has the status of a mint at `t`, and the wake-up is the one of its lifetime.
  pub record Recorded (expires : Time) (res : CtrlResult) (c : EphemeralCredential) : Type 0 where
    pub state : c.status.state ≡ active
    pub expiry : c.status.expires_at ≡ some (kept expires)
    pub rotated : c.status.last_rotated_at ≡ some (kept t)
    pub observed : c.status.observed_generation ≡ ec.metadata.generation
    pub generation : c.metadata.generation ≡ ec.metadata.generation
    pub spec : c.spec ≡ ec.spec
    pub wake : res.requeue_after ≡ requeue_after t expires (next_window ec t expires).0

  abbrev pub RecordedEnd : MintResult → Result CtrlResult × W → Type 0
  RecordedEnd m (err e, w) = Unit
  RecordedEnd m (ok res, w) =
      Recorded m.expires_at res (credential_at ec.metadata.namespace ec.metadata.name w)

  -- The same object as the one that was read, but for annotations and status.
  abbrev IsSame : EphemeralCredential → Type 0
  IsSame a =
      (a.spec ≡ ec.spec)
      × (a.metadata.generation ≡ ec.metadata.generation)
      × (a.metadata.namespace ≡ ec.metadata.namespace)
      × (a.metadata.name ≡ ec.metadata.name)

  -- The annotation is stored on the object that was read, and only that.
  persist_handle-IsSame :
      (h : CredentialHandle) (w : W) (a : EphemeralCredential)
      → InStore credential_at ec w
      → (persist_handle r ec h w).0 ≡ ok a
      → IsSame a × InStore credential_at ec (persist_handle r ec h w).1
  unfolding persist_handle
  persist_handle-IsSame h w a there e = elim (Result-cases (encode_handle r.json h)) [
    | inl (text, q) ↦ ground (arith, law.metadata_only (with_handle text ec) a w)
    | inr (x, q) ↦ ground arith
  ]

  finish_mint-wake :
      (updated : EphemeralCredential) (previous : Option CredentialHandle) (m : MintResult) (w : W)
      → (finish_mint r prov updated t previous m w).0
        ≡ ok (record {
          requeue = false;
          requeue_after = requeue_after t m.expires_at (next_window updated t m.expires_at).0;
        })
  unfolding finish_mint event
  finish_mint-wake updated previous m w = ground arith

  pub next_window-spec :
      (a : EphemeralCredential) (expires : Time)
      → a.spec ≡ ec.spec
      → next_window a t expires ≡ next_window ec t expires
  unfolding next_window requested_rotate_before
  next_window-spec a expires same =
      ap
        (λ (spec : EphemeralCredentialSpec).
          clamp_rotate_before (or_default (seconds_of spec.rotate_before_seconds)) (sub expires t))
        same

  -- The object that the status update is sent for.
  abbrev with_status : EphemeralCredential → MintResult → List Condition → EphemeralCredential
  with_status a m conditions =
      let marked = mark_active a t m.expires_at in
      record marked { status = record marked.status { conditions = conditions } }

  end-Recorded :
      (m : MintResult) (res : CtrlResult) (end : Result CtrlResult × W) (c : EphemeralCredential)
      → end.0 ≡ ok res
      → credential_at ec.metadata.namespace ec.metadata.name end.1 ≡ c
      → Recorded m.expires_at res c
      → RecordedEnd m end
  end-Recorded m res (err x, w) c e k h = tt
  end-Recorded m res (ok res', w) c e k h =
      subst (λ x. Recorded m.expires_at x (credential_at ec.metadata.namespace ec.metadata.name w))
        (sym (ok-injective e)) (subst (Recorded m.expires_at res) (sym k) h)

  publish-Recorded :
      (a : EphemeralCredential) (previous : Option CredentialHandle) (m : MintResult)
      (conditions : List Condition) (w : W)
      → IsSame a
      → InStore credential_at ec w
      → RecordedEnd m (
          (or_wrap
                (format "updating status after mint" [])
                (r.update_status (with_status a m conditions))
              >>= λ updated. finish_mint r prov updated t previous m)
            w)
  publish-Recorded a previous m conditions w (spec, generation, namespace, name) there =
      let ready : EphemeralCredential = with_status a m conditions in
      let out : Result EphemeralCredential × W = r.update_status ready w in
      or_wrap-ends (RecordedEnd m) out.0 (format "updating status after mint" []) raise
        (λ updated. finish_mint r prov updated t previous m) out.1
        (λ updated e.
          let (expiry, rotated) = law.stored_times ready updated w m.expires_at t e refl refl in
          let (state, observed, same_generation, same_spec) = law.stored_rest ready updated w e in
          let place : credential_at a.metadata.namespace a.metadata.name w
              ≡ credential_at ec.metadata.namespace ec.metadata.name w =
            (λ i. credential_at (namespace i) (name i) w) in
          let stored_spec : (credential_at a.metadata.namespace a.metadata.name out.1).spec
              ≡ ec.spec =
            same_spec ∙ ap (λ (c : EphemeralCredential). c.spec) place ∙ there.spec in
          end-Recorded m _ (finish_mint r prov updated t previous m out.1) _
            (finish_mint-wake updated previous m out.1)
            (finish_mint-keeps r prov credential_at law.revoke_keeps law.event_keeps updated t
                previous m ec.metadata.namespace ec.metadata.name out.1
              ∙ (λ i. credential_at (sym namespace i) (sym name i) out.1))
            (record {
              state = state;
              expiry = expiry;
              rotated = rotated;
              observed = observed ∙ generation;
              generation =
                  same_generation
                  ∙ ap (λ (c : EphemeralCredential). c.metadata.generation) place
                  ∙ there.generation;
              spec = stored_spec;
              wake =
                  ap (λ (x : Duration × Bool). requeue_after t m.expires_at x.0)
                    (next_window-spec updated m.expires_at
                      (law.status_answer ready updated w e ∙ stored_spec));
            }))
        (λ x e. tt)

  abbrev announce : MintResult → EphemeralCredential → Action W EphemeralCredential
  announce m a =
      set_ready_condition r (mark_active a t m.expires_at) condition_true mint_succeeded
        (minted_via "minted via %s, expires %s" a.spec.provider m.expires_at)

  abbrev set_condition : MintResult → EphemeralCredential → W → List Condition × W
  set_condition m a w =
      r.set_status_condition a.status.conditions
        (record {
          condition_type = condition_ready;
          status = condition_true;
          observed_generation = a.metadata.generation;
          last_transition_time = none;
          reason = mint_succeeded;
          message = minted_via "minted via %s, expires %s" a.spec.provider m.expires_at;
        })
        w

  pub record_mint-Recorded :
      (previous : Option CredentialHandle) (m : MintResult) (w : W)
      → InStore credential_at ec w
      → RecordedEnd m (record_mint r prov ec t previous m w)
  unfolding record_mint set_ready_condition
  record_mint-Recorded previous m w there =
      let out : Result EphemeralCredential × W = persist_handle r ec m.handle w in
      handle-ends (RecordedEnd m) out.0 raise
        (λ a. announce m a >>= λ ready.
          (or_wrap (format "updating status after mint" []) (r.update_status ready) >>= λ updated.
          finish_mint r prov updated t previous m))
        out.1
        (λ a e.
          let (same, still) = persist_handle-IsSame m.handle w a there e in
          publish-Recorded a previous m (set_condition m a out.1).0 (set_condition m a out.1).1 same
            (InStore-same (law.condition_keeps _ _ _ _ out.1) still))
        (λ x e. tt)
