-- ===== src/Tests/Removals.antt =====
-- A clean-up in a world whose client looks Secrets up by namespace and name.
use ephemeral_credential_bro.Base.{
  String, Bool, false, ◌≡◌, refl, ◌==◌, ◌&&◌, eq_iff, Option, none, some, [], if◌then◌else◌, arith,
}
use text.Mathlib.TextLemmas.{cons≢nil}
use ephemeral_credential_bro.Base.Map.{lookup}
use ephemeral_credential_bro.Provider.{get}
use ephemeral_credential_bro.Handle.{decode_handle}
use ephemeral_credential_bro.Api.{EphemeralCredential, Secret}
use ephemeral_credential_bro.Api.Error.{foreign}
use ephemeral_credential_bro.Effects.{Result, ok, err}
use ephemeral_credential_bro.Cluster.{Reconciler, nothing_more}
use ephemeral_credential_bro.Controller.{stored_handle}
use ephemeral_credential_bro.Controller.Status.{delete_target_secret}
use ephemeral_credential_bro.Controller.Delete.{reconcile_delete}
use ephemeral_credential_bro.Controller.Outcome.Removed.{KeepsSecrets, reconcile_delete-removes}
use ephemeral_credential_bro.Tests.Sample.{
  World, credential, meta, kubernetes, reconciler, secret, world,
}

abbrev is_named : String → String → Option Secret → Bool
is_named namespace name none = false
is_named namespace name (some s) = (s.metadata.namespace == namespace) && (s.metadata.name == name)

abbrev read : String → String → Option Secret → Result Secret
read namespace name none = err (foreign "NotFound" "not found")
read namespace name (some s) =
    if (s.metadata.namespace == namespace) && (s.metadata.name == name)
    then ok s
    else err (foreign "NotFound" "not found")

abbrev naming : Reconciler World
naming = record reconciler {
  client = record kubernetes {
    get_secret = λ namespace name w. (read namespace name w.secret, w);
    delete_secret = λ s w. (
      ok tt,
      record w {
        secret = if is_named s.metadata.namespace s.metadata.name w.secret then none else w.secret;
      },
    );
  };
}

abbrev has : String → String → World → Bool
has namespace name w = is_named namespace name w.secret

read_missing :
    (namespace name : String) (s : Option Secret)
    → (read namespace name s ≡ err (foreign "NotFound" "not found"))
    → is_named namespace name s ≡ false
read_missing namespace name none h = refl
read_missing namespace name (some s) h = ground arith

naming-KeepsSecrets : KeepsSecrets naming has
naming-KeepsSecrets = record {
  read_keeps = λ namespace name w. refl;
  read_missing = λ namespace name w e h missing. ground arith;
  read_found = λ namespace name w s h. grind (arith, eq_iff);
  deleted = λ s w h. ground arith;
  deleted_before = λ s w e h missing. ground arith;
  update_keeps = λ ec namespace name w. refl;
}

-- the credential before its first mint, so without a stored handle
abbrev unminted : EphemeralCredential
unminted = record credential { metadata = record meta { annotations = [] } }

abbrev cleaned : World
cleaned = record (world none 2000) {
  credential = naming.remove_finalizer unminted "broker.shivansh-sinha.dev/finalizer";
}

reconcile_delete-removes_example : has "ci" "build-secret" cleaned ≡ false
unfolding reconcile_delete delete_target_secret stored_handle get lookup decode_handle
reconcile_delete-removes_example =
    reconcile_delete-removes naming has naming-KeepsSecrets unminted (λ e. cons≢nil e)
      (world (some secret) 2000) cleaned nothing_more refl refl
