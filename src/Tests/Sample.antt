-- ===== src/Tests/Sample.antt =====
-- A small world to run the controller in: one credential, at most one Secret, a clock, and a
-- provider that counts its mints.
use ephemeral_credential_bro.Base.{
  ℕ, String, Bool, false, Option, none, some, List, [], ◌∷◌, ◌==◌, ◌||◌, eq_refl, refl,
  if◌then◌else◌,
}
use ephemeral_credential_bro.Base.Int.{pos, ◌+ℤ◌}
use ephemeral_credential_bro.GoTime.{Time, seconds}
use ephemeral_credential_bro.Api.{
  Bytes, EphemeralCredential, EphemeralCredentialStatus, ObjectMeta, Secret, TargetSecretSpec,
  active, github_app, finalizer_name,
}
use ephemeral_credential_bro.Api.Error.{Error, foreign}
use ephemeral_credential_bro.Effects.{Result, ok, err}
use ephemeral_credential_bro.Handle.{Json, StoredHandle}
use ephemeral_credential_bro.Provider.{Provider, CredentialHandle}
use ephemeral_credential_bro.Cluster.{CtrlResult, Kubernetes, Reconciler, Request}
use ephemeral_credential_bro.Controller.{handle_annotation_key}
use ephemeral_credential_bro.Controller.Outcome.Delivered.{or_given}
use ephemeral_credential_bro.Controller.Conditions.{SetsConditions, reported}

pub record World : Type 0 where
  pub credential : EphemeralCredential
  pub secret : Option Secret
  pub time : Time

abbrev not_found : Error
not_found = foreign "NotFound" "not found"

abbrev found : {A : Type 0} → Option A → Result A
found none = err not_found
found (some a) = ok a

abbrev pub meta : ObjectMeta
meta = record {
  name = "build-token";
  namespace = "ci";
  uid = "u1";
  resource_version = "7";
  generation = pos 1;
  deletion_timestamp = none;
  finalizers = finalizer_name ∷ [];
  owner_references = [];
  annotations = (handle_annotation_key, "AQ==") ∷ [];
}

abbrev pub target : TargetSecretSpec
target = record { name = "build-secret"; keys = ("token", "GITHUB_TOKEN") ∷ [] }

-- Valid until one hour after it was minted at 1000 s.
abbrev pub fresh_status : EphemeralCredentialStatus
fresh_status = record {
  state = active;
  expires_at = some (seconds 4600);
  last_rotated_at = some (seconds 1000);
  observed_generation = pos 1;
  conditions = [];
}

abbrev pub credential : EphemeralCredential
credential = record {
  metadata = meta;
  spec = record {
    provider = github_app;
    ttl_seconds = pos 3600;
    rotate_before_seconds = pos 600;
    target_secret = target;
    provider_config = record {
      github = some (record {
        app_config_ref = record { name = "app" };
        repositories = "broker" ∷ [];
        permissions = [];
      });
      aws = none;
      database = none;
      vault = none;
    };
  };
  status = fresh_status;
}

abbrev pub secret : Secret
secret = record {
  metadata = record meta { name = "build-secret"; finalizers = []; annotations = [] };
  secret_type = "Opaque";
  secret_data =
      ("appId", 49 ∷ []) ∷ ("privateKey", 75 ∷ []) ∷ ("GITHUB_TOKEN", 111 ∷ 108 ∷ 100 ∷ []) ∷ [];
}

abbrev pub handle : CredentialHandle
handle = record { provider_name = github_app; opaque = 116 ∷ 111 ∷ 107 ∷ [] }

abbrev stored : StoredHandle
stored = record { provider_name = github_app; opaque = "dG9r" }

-- A codec that can write one handle only.
abbrev pub json : Json
json = record {
  marshal = λ sh.
      if sh.provider_name == github_app
      then if sh.opaque == "dG9r" then ok (1 ∷ []) else err (foreign "Json" "")
      else err (foreign "Json" "");
  unmarshal = λ b. some stored;
}

abbrev pub minted_data : List (String × Bytes)
minted_data = ("token", 110 ∷ 101 ∷ 119 ∷ []) ∷ []

abbrev pub provider : Provider World
provider = record {
  name = github_app;
  mint = λ req w. (
    ok (record { minted_data = minted_data; expires_at = w.time +ℤ seconds 3600; handle = handle }),
    w,
  );
  revoke = λ h w. (ok tt, w);
}

abbrev contains_name : List String → String → Bool
contains_name [] x = false
contains_name (y ∷ l) x = (y == x) || contains_name l x

abbrev without : List String → String → List String
without [] x = []
without (y ∷ l) x = if y == x then without l x else y ∷ without l x

abbrev pub store : Result Secret → World → Result Secret × World
store (ok s) w = (ok s, record w { secret = some s })
store (err e) w = (err e, w)

abbrev pub kubernetes : Kubernetes World
kubernetes = record {
  get_credential = λ namespace name w. (ok w.credential, w);
  get_secret = λ namespace name w. (found w.secret, w);
  update = λ ec w. (ok ec, record w { credential = ec });
  update_status = λ ec w.
      let stored = record w.credential { status = ec.status } in
      (ok stored, record w { credential = stored });
  delete_secret = λ s w. (ok tt, record w { secret = none });
  create_or_update = λ s f w. store (f (or_given w.secret s)) w;
  contains_finalizer = λ ec name. contains_name ec.metadata.finalizers name;
  add_finalizer = λ ec name. record ec {
    metadata = record ec.metadata { finalizers = name ∷ ec.metadata.finalizers };
  };
  remove_finalizer = λ ec name. record ec {
    metadata = record ec.metadata { finalizers = without ec.metadata.finalizers name };
  };
  set_controller_reference = λ ec s.
      ok (record s { metadata = record s.metadata { owner_references = ec.metadata.uid ∷ [] } });
  is_not_found = λ e. elim e [ foreign kind text ↦ kind == "NotFound" | _ ↦ false ];
  set_status_condition = λ cs c w. (c ∷ [], w);
}

abbrev pub reconciler : Reconciler World
reconciler = record {
  client = kubernetes;
  providers = record { providers = (github_app, provider) ∷ [] };
  recorder = none;
  override_now = none;
  time_now = λ w. (w.time, w);
  json = json;
}

-- the same reconciler with no provider wired up
abbrev pub bare : Reconciler World
bare = record reconciler { providers = record { providers = [] } }

abbrev pub request : Request
request = record { namespace = "ci"; name = "build-token" }

-- The world at a time, with a Secret or without.
abbrev pub world : Option Secret → ℕ → World
world s n = record { credential = credential; secret = s; time = seconds n }

-- the credential before its first mint
abbrev pub unminted : EphemeralCredential
unminted = record credential { metadata = record meta { annotations = [] } }

-- ten minutes before the expiry at 7800 s
abbrev pub in_50_minutes : CtrlResult
in_50_minutes = record { requeue = false; requeue_after = seconds 3000 }

-- It keeps one condition.
pub reconciler-SetsConditions :
    (clock : Option (World → Time × World))
    → SetsConditions (record reconciler { override_now = clock })
unfolding reported
reconciler-SetsConditions clock = record { sets = λ cs c w. rw (eq_refl c.condition_type) refl }

-- The credential as it is created.
abbrev pub unprotected : EphemeralCredential
unprotected = record credential { metadata = record meta { annotations = []; finalizers = [] } }
