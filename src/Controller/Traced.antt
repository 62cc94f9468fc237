-- ===== src/Controller/Traced.antt =====
-- A reconciler whose every write to the outside is also noted down, newest first, with its outcome.
-- The reconciler's code is the same; only what it is given is wrapped, whatever the world answers.
use ephemeral_credential_bro.Base.{String, ◌≡◌, refl, Option, none, some, List, [], ◌∷◌, arith}
use ephemeral_credential_bro.Base.Map.{Map, lookup}
use ephemeral_credential_bro.GoTime.{Time}
use ephemeral_credential_bro.Api.{EphemeralCredential, Secret, Condition, EventType, Reason}
use ephemeral_credential_bro.Api.Error.{Message}
use ephemeral_credential_bro.Effects.{Result, Action}
use ephemeral_credential_bro.Provider.{Provider, MintRequest, MintResult, CredentialHandle}
use ephemeral_credential_bro.Cluster.{Kubernetes, Reconciler}

pub data Call : Type 0 where
  minted : MintRequest → Result MintResult → Call
  revoked : CredentialHandle → Result (Unit {0}) → Call
  wrote_secret : Secret → Result Secret → Call
  deleted_secret : Secret → Result (Unit {0}) → Call
  updated : EphemeralCredential → Result EphemeralCredential → Call
  updated_status : EphemeralCredential → Result EphemeralCredential → Call
  recorded : EventType → Reason → Call
  set_condition : Condition → Call

abbrev pub Log : Type 0
Log = List Call

module _ {W : Type 0} where
  -- a call that is noted
  abbrev pub noted : {A : Type 0} → Action W A → (Result A → Call) → Action (W × Log) A
  noted m note (w, past) = let (r, w') = m w in (r, (w', note r ∷ past))

  -- a call that only reads
  abbrev pub quiet : {A : Type 0} → (W → A × W) → W × Log → A × (W × Log)
  quiet m (w, past) = let (a, w') = m w in (a, (w', past))

  abbrev pub traced_provider : Provider W → Provider (W × Log)
  traced_provider p = record {
    name = p.name;
    mint = λ req. noted (p.mint req) (minted req);
    revoke = λ h. noted (p.revoke h) (revoked h);
  }

  abbrev pub traced_providers : Map (Provider W) → Map (Provider (W × Log))
  traced_providers [] = []
  traced_providers ((k, p) ∷ m) = (k, traced_provider p) ∷ traced_providers m

  abbrev traced_recorder :
      Option (EphemeralCredential → EventType → Reason → Message → W → W)
      → Option (EphemeralCredential → EventType → Reason → Message → W × Log → W × Log)
  traced_recorder none = none
  traced_recorder (some f) =
      some (λ ec kind reason message w. (f ec kind reason message w.0, recorded kind reason ∷ w.1))

  abbrev pub traced_now : Option (W → Time × W) → Option (W × Log → Time × (W × Log))
  traced_now none = none
  traced_now (some f) = some (quiet f)

  abbrev pub traced_client : Kubernetes W → Kubernetes (W × Log)
  traced_client k = record {
    get_credential = λ namespace name. quiet (k.get_credential namespace name);
    get_secret = λ namespace name. quiet (k.get_secret namespace name);
    update = λ ec. noted (k.update ec) (updated ec);
    update_status = λ ec. noted (k.update_status ec) (updated_status ec);
    delete_secret = λ s. noted (k.delete_secret s) (deleted_secret s);
    create_or_update = λ s f. noted (k.create_or_update s f) (wrote_secret s);
    contains_finalizer = k.contains_finalizer;
    add_finalizer = k.add_finalizer;
    remove_finalizer = k.remove_finalizer;
    set_controller_reference = k.set_controller_reference;
    is_not_found = k.is_not_found;
    set_status_condition = λ cs c w.
        let (cs', w') = k.set_status_condition cs c w.0 in (cs', (w', set_condition c ∷ w.1));
  }

  abbrev pub traced : Reconciler W → Reconciler (W × Log)
  traced r = record {
    client = traced_client r.client;
    providers = record { providers = traced_providers r.providers.providers };
    recorder = traced_recorder r.recorder;
    override_now = traced_now r.override_now;
    time_now = quiet r.time_now;
    json = r.json;
  }

  abbrev pub traced_option : Option (Provider W) → Option (Provider (W × Log))
  traced_option none = none
  traced_option (some p) = some (traced_provider p)

  pub get-traced :
      (m : Map (Provider W)) (name : String)
      → lookup name (traced_providers m) ≡ traced_option (lookup name m)
  unfolding lookup
  get-traced [] name = refl
  get-traced ((k, p) ∷ m) name = ground (arith, get-traced m name)
