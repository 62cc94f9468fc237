-- ===== src/Main/Booted.antt =====
-- The order of what the process of cmd/main.go sets up, and how it ends. The runtime is wrapped so
-- that each of its calls is noted with whether it succeeded; the code that runs is the same.
use ephemeral_credential_bro.Base.{
  ℕ, suc, ◌<◌, String, Bool, true, false, ◌&&◌, ◌≡◌, List, [], ◌∷◌, arith, if◌then◌else◌,
}
use ephemeral_credential_bro.Api.{EphemeralCredential, EventType, Reason}
use ephemeral_credential_bro.Api.Error.{Message}
use ephemeral_credential_bro.Effects.{Result, ok, err, Action}
use ephemeral_credential_bro.Cluster.{Kubernetes}
use ephemeral_credential_bro.Controller.Protocol.{succeeded}
use ephemeral_credential_bro.Github.Http.{Platform}
use ephemeral_credential_bro.Main.{Exit, panicked, exited, returned, process, group_version}
use ephemeral_credential_bro.Main.Options.{
  Flags, TlsConfig, ManagerOptions, Kind, ephemeral_credential, ephemeral_credential_list,
  secret_kind, GroupVersion, ControllerSpec, Manager, Runtime,
}

-- A call of the runtime, and whether it succeeded.
pub data Stage : Type 0 where
  client_go_added : Bool → Stage
  types_added : GroupVersion → List Kind → Bool → Stage
  flags_parsed : Flags → Stage
  manager_made : ManagerOptions → Bool → Stage
  completed : Kind → List Kind → Bool → Stage
  healthz_added : String → Bool → Stage
  readyz_added : String → Bool → Stage
  started : Bool → Stage

abbrev noted : {W A : Type 0} → Action W A → (Bool → Stage) → Action (W × List Stage) A
noted m note (w, past) = let (res, w') = m w in (res, (w', note (succeeded res) ∷ past))

-- A controller of the wrapped world, run in the world itself.
abbrev narrowed : {W : Type 0} → ControllerSpec (W × List Stage) → ControllerSpec W
narrowed spec = record {
  watched = spec.watched;
  owned = spec.owned;
  reconciler = λ req w. let (res, s) = spec.reconciler req (w, []) in (res, s.0);
}

-- The client and the recorder of the wrapped manager may be any, since nothing here calls them.
abbrev noted_manager :
    {W : Type 0}
    → Kubernetes (W × List Stage)
    → (String
        → EphemeralCredential
        → EventType
        → Reason
        → Message
        → W × List Stage
        → W × List Stage)
    → Manager W
    → Manager (W × List Stage)
noted_manager client recorder mgr = record {
  client = client;
  event_recorder_for = recorder;
  complete = λ spec. noted (mgr.complete (narrowed spec)) (completed spec.watched spec.owned);
  add_healthz_check = λ name. noted (mgr.add_healthz_check name) (healthz_added name);
  add_readyz_check = λ name. noted (mgr.add_readyz_check name) (readyz_added name);
  start = noted mgr.start started;
}

abbrev mapped : {A B : Type 0} → (A → B) → Result A → Result B
mapped f (ok a) = ok (f a)
mapped f (err e) = err e

abbrev pub noted_runtime :
    {W : Type 0}
    → Kubernetes (W × List Stage)
    → (String
        → EphemeralCredential
        → EventType
        → Reason
        → Message
        → W × List Stage
        → W × List Stage)
    → Runtime W
    → Runtime (W × List Stage)
noted_runtime client recorder runtime = record {
  add_client_go = noted runtime.add_client_go client_go_added;
  add_types = λ gv kinds. noted (runtime.add_types gv kinds) (types_added gv kinds);
  parse_flags = λ defaults s.
      let (flags, w) = runtime.parse_flags defaults s.0 in (flags, (w, flags_parsed flags ∷ s.1));
  new_manager = λ opts.
      noted
        (λ w.
          let (res, w') = runtime.new_manager opts w in
          (mapped (noted_manager client recorder) res, w'))
        (manager_made opts);
  time_now = λ s. let (t, w) = runtime.time_now s.0 in (t, (w, s.1));
  json = runtime.json;
}

abbrev pub went_well : Stage → Bool
went_well (client_go_added done) = done
went_well (types_added gv kinds done) = done
went_well (flags_parsed flags) = true
went_well (manager_made opts done) = done
went_well (completed kind owned done) = done
went_well (healthz_added name done) = done
went_well (readyz_added name done) = done
went_well (started done) = done

abbrev pub all_well : List Stage → Bool
all_well [] = true
all_well (st ∷ past) = went_well st && all_well past

abbrev pub rank : Stage → ℕ
rank (client_go_added done) = 0
rank (types_added gv kinds done) = 1
rank (flags_parsed flags) = 2
rank (manager_made opts done) = 3
rank (completed kind owned done) = 4
rank (healthz_added name done) = 5
rank (readyz_added name done) = 6
rank (started done) = 7

abbrev pub length : List Stage → ℕ
length [] = 0
length (st ∷ past) = suc (length past)

-- What a server offers after its options, for an offer `c` of crypto/tls.
abbrev apply_all : List (TlsConfig → TlsConfig) → TlsConfig → TlsConfig
apply_all [] c = c
apply_all (opt ∷ opts) c = apply_all opts (opt c)

abbrev pub offered : Flags → TlsConfig → List String
offered flags c = if flags.enable_http2 then c.next_protos else "http/1.1" ∷ []

-- What a call is given, after the calls before it.
abbrev pub Fits : TlsConfig → Stage → List Stage → Type 0
Fits c (types_added gv kinds done) past =
    (gv ≡ group_version) × (kinds ≡ ephemeral_credential ∷ ephemeral_credential_list ∷ [])
Fits c (manager_made opts done) (flags_parsed flags ∷ past) =
    (opts.leader_election ≡ false)
    × (opts.metrics.bind_address ≡ flags.metrics_addr)
    × (opts.metrics.secure_serving ≡ flags.secure_metrics)
    × (opts.health_probe_bind_address ≡ flags.probe_addr)
    × ((apply_all opts.metrics.tls_opts c).next_protos ≡ offered flags c)
    × ((apply_all opts.webhook_tls_opts c).next_protos ≡ offered flags c)
Fits c (manager_made opts done) past = ⊥
Fits c (completed kind owned done) past = (kind ≡ ephemeral_credential) × (owned ≡ secret_kind ∷ [])
Fits c st past = Unit

abbrev pub InOrder : TlsConfig → List Stage → Type 0
InOrder c [] = Unit
InOrder c (st ∷ past) =
    (rank st ≡ length past) × (all_well past ≡ true) × Fits c st past × InOrder c past

-- How the process ends after its calls, newest first.
abbrev pub EndsAs : Exit → List Stage → Type 0
EndsAs returned log = (length log ≡ 8) × (all_well log ≡ true)
EndsAs (exited code) (st ∷ past) = (code ≡ 1) × (went_well st ≡ false) × (2 < rank st)
EndsAs (panicked e) (st ∷ past) = (went_well st ≡ false) × (rank st < 2)
EndsAs _ [] = ⊥

module _ {W Key : Type 0} (client : Kubernetes (W × List Stage))
    (recorder : String
      → EphemeralCredential
      → EventType
      → Reason
      → Message
      → W × List Stage
      → W × List Stage)
    (runtime : Runtime W) (platform : Platform (W × List Stage) Key) where
  -- The process makes its calls in one order and stops at the first that fails: the scheme's two
  -- registrations, the flags, the manager, the controller, the two checks, the start. So the manager
  -- starts only after the controller and both checks are in place. The controller watches the
  -- credentials and owns Secrets, there is no leader election, and unless HTTP/2 is enabled both TLS
  -- servers offer HTTP/1.1 alone. A failed registration panics, any later failure exits with 1, and
  -- the process returns exactly when every call has succeeded.
  pub process-InOrder :
      (c : TlsConfig) (w : W)
      → let (exit, s) = process (noted_runtime client recorder runtime) platform (w, []) in
        InOrder c s.1 × EndsAs exit s.1
  unfolding process
  process-InOrder c w = ground arith
