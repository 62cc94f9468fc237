-- ===== src/Main.antt =====
-- cmd/main.go and the code that only it calls: the scheme of api/v1alpha1/groupversion_info.go, and
-- `SetupWithManager` of internal/controller/ephemeralcredential_controller.go.
pub mod Options
pub mod Booted
pub mod Wired
use ephemeral_credential_bro.Base.{
  ℕ, String, Bool, true, false, Option, none, some, List, [], ◌∷◌, if◌then◌else◌,
}
use ephemeral_credential_bro.Api.Error.{Error}
use ephemeral_credential_bro.Effects.{Result, ok, err, Action, handle, ◌>>◌}
use ephemeral_credential_bro.Provider.{Registry, new_registry}
use ephemeral_credential_bro.Cluster.{Reconciler}
use ephemeral_credential_bro.Controller.Reconcile.{reconcile}
use ephemeral_credential_bro.Github.{GitHubProvider, default_api_base_url}
use ephemeral_credential_bro.Github.Http.{Platform}
use ephemeral_credential_bro.Github.Mint.{github_provider}
use Options.{
  Flags, TlsConfig, MetricsOptions, ManagerOptions, Kind, ephemeral_credential,
  ephemeral_credential_list, secret_kind, GroupVersion, ControllerSpec, Manager, Runtime,
}

-- How the process ends: by a panic in `init`, by `os.Exit`, or by a return from `main`.
pub data Exit : Type 0 where
  panicked : Error → Exit
  exited : ℕ → Exit
  returned : Exit

abbrev pub group_version : GroupVersion
group_version = record { group = "broker.shivansh-sinha.dev"; version = "v1alpha1" }

-- What `init` of the API package registers with the builder.
abbrev pub registered_kinds : List Kind
registered_kinds = ephemeral_credential ∷ ephemeral_credential_list ∷ []

abbrev pub default_flags : Flags
default_flags = record {
  metrics_addr = "0";
  probe_addr = ":8081";
  secure_metrics = false;
  enable_http2 = false;
}

abbrev pub disable_http2 : Bool → TlsConfig → TlsConfig
disable_http2 enable_http2 c =
    if enable_http2 then c else record c { next_protos = "http/1.1" ∷ [] }

abbrev pub manager_options : Flags → ManagerOptions
manager_options flags = record {
  metrics = record {
    bind_address = flags.metrics_addr;
    secure_serving = flags.secure_metrics;
    tls_opts = disable_http2 flags.enable_http2 ∷ [];
  };
  webhook_tls_opts = disable_http2 flags.enable_http2 ∷ [];
  health_probe_bind_address = flags.probe_addr;
  leader_election = false;
}

-- `SetupWithManager`, on the reconciler's `Reconcile`
abbrev pub controller_spec : {W : Type 0} → Reconciler W → ControllerSpec W
controller_spec r = record {
  watched = ephemeral_credential;
  owned = secret_kind ∷ [];
  reconciler = reconcile r;
}

unfoldable pub setup_with_manager : {W : Type 0} → Reconciler W → Manager W → Action W (Unit {0})
setup_with_manager r mgr = mgr.complete (controller_spec r)

-- `if err != nil { os.Exit(1) }` after a call, then the rest
abbrev or_exit : {W A : Type 0} → Action W A → (A → W → Exit × W) → W → Exit × W
or_exit m next w = let (res, w') = m w in elim res [ ok a ↦ next a w' | err e ↦ (exited 1, w') ]

-- `utilruntime.Must`
abbrev must : {W A : Type 0} → Action W A → (W → Exit × W) → W → Exit × W
must m next w = let (res, w') = m w in elim res [ ok a ↦ next w' | err e ↦ (panicked e, w') ]

module _ {W Key : Type 0} (runtime : Runtime W) (platform : Platform W Key) where
  -- `github.New()`
  abbrev pub new_github : GitHubProvider W
  new_github = record {
    api_base_url = default_api_base_url;
    http_client = some platform.default_do;
    override_now = some platform.time_now;
  }

  unfoldable pub main_providers : Registry W
  main_providers = new_registry (github_provider platform new_github ∷ [])

  abbrev pub main_reconciler : Manager W → Reconciler W
  main_reconciler mgr = record {
    client = mgr.client;
    providers = main_providers;
    recorder = some (mgr.event_recorder_for "ephemeral-credential-broker");
    override_now = none;
    time_now = runtime.time_now;
    json = runtime.json;
  }

  -- From the manager on.
  unfoldable pub run_manager : Manager W → W → Exit × W
  unfolding setup_with_manager
  run_manager mgr = or_exit (setup_with_manager (main_reconciler mgr) mgr) (λ _.
      or_exit (mgr.add_healthz_check "healthz") (λ _.
        or_exit (mgr.add_readyz_check "readyz") (λ _. or_exit mgr.start (λ _ w. (returned, w)))))

  -- `main`
  unfoldable pub main : W → Exit × W
  unfolding run_manager
  main w =
      let (flags, w') = runtime.parse_flags default_flags w in
      or_exit (runtime.new_manager (manager_options flags)) run_manager w'

  -- The process: `init` of the packages, then `main`.
  unfoldable pub process : W → Exit × W
  unfolding main
  process =
      must runtime.add_client_go (must (runtime.add_types group_version registered_kinds) main)
