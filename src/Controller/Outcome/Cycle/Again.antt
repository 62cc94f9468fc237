-- ===== src/Controller/Outcome/Cycle/Again.antt =====
-- The next reconcile after a mint's wake-up: it mints again.
use ephemeral_credential_bro.Base.{String, true, ◌≡◌, some, arith}
use ephemeral_credential_bro.Base.Int.{◌≤ℤ◌, ◌+ℤ◌}
use ephemeral_credential_bro.GoTime.{Time, is_zero}
use ephemeral_credential_bro.Api.{EphemeralCredential, finalizer_name}
use ephemeral_credential_bro.Effects.{ok}
use ephemeral_credential_bro.Rotation.{needs_mint, current_window}
use ephemeral_credential_bro.Provider.{Provider, get}
use ephemeral_credential_bro.Cluster.{Reconciler, Request, CtrlResult}
use ephemeral_credential_bro.Controller.{now}
use ephemeral_credential_bro.Controller.Mint.{mint_credential}
use ephemeral_credential_bro.Controller.Reconcile.{reconcile, reconcile_found, reconcile_live}
use ephemeral_credential_bro.Controller.Outcome.Cycle.{StoresStatus, InStore}
use ephemeral_credential_bro.Controller.Outcome.Cycle.Due.{MintFits, mint_credential-cycles}

-- A reconcile of a live credential that a mint is due for is a minting run.
reconcile_due :
    {W : Type 0} (r : Reconciler W) (req : Request) (ec : EphemeralCredential) (prov : Provider W)
    (t : Time) (v v' v'' : W)
    → r.get_credential req.namespace req.name v ≡ (ok ec, v')
    → is_zero ec.metadata.deletion_timestamp ≡ true
    → r.contains_finalizer ec finalizer_name ≡ true
    → get r.providers ec.spec.provider ≡ some prov
    → now r v' ≡ (ok t, v'')
    → needs_mint t (current_window ec) ec ≡ true
    → reconcile r req v ≡ mint_credential r prov ec t v''
unfolding reconcile reconcile_found reconcile_live
reconcile_due r req ec prov t v v' v'' found live protected known clock due = ground arith

module _ {W : Type 0} (r : Reconciler W) (prov : Provider W)
    (credential_at : String → String → W → EphemeralCredential) (kept : Time → Time)
    (law : StoresStatus r prov credential_at kept) (ec : EphemeralCredential) (t : Time) where
  -- The broker goes round: after a minting run at `t`, of the credential that was in the store, that
  -- returned no error, a reconcile of the credential that it left in the store, at or after the
  -- wake-up that it returned, is a minting run again, whatever has been done to the rest of the world,
  -- as long as that credential is live with its finalizer and its provider registered. The client
  -- stores credentials as the API server does, and the lifetime that the first run was granted is
  -- longer than the floor of the delay and fits an int64, also as its times are kept.
  pub reconcile_rotates :
      (w w' : W) (res : CtrlResult)
      → InStore credential_at ec w
      → MintFits r prov credential_at kept law ec t w
      → mint_credential r prov ec t w ≡ (ok res, w')
      → (req : Request) (later : Time) (v v' v'' : W)
      → let c = credential_at ec.metadata.namespace ec.metadata.name w' in
        r.get_credential req.namespace req.name v ≡ (ok c, v')
        → is_zero c.metadata.deletion_timestamp ≡ true
        → r.contains_finalizer c finalizer_name ≡ true
        → get r.providers c.spec.provider ≡ some prov
        → now r v' ≡ (ok later, v'')
        → t +ℤ res.requeue_after ≤ℤ later
        → reconcile r req v ≡ mint_credential r prov c later v''
  reconcile_rotates w w' res there fits done req later v v' v'' found live protected known clock
        late =
      let (m, minted, cycles) =
        mint_credential-cycles r prov credential_at kept law ec t w w' res there fits done in
      reconcile_due r req (credential_at ec.metadata.namespace ec.metadata.name w') prov later v v'
        v'' found live protected known clock (cycles.due later late)
