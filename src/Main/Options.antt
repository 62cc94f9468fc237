-- ===== src/Main/Options.antt =====
-- What cmd/main.go is given by flag, crypto/tls and controller-runtime: parameters, and the options
-- that it passes to them.
use ephemeral_credential_bro.Base.{String, Bool, List}
use ephemeral_credential_bro.GoTime.{Time}
use ephemeral_credential_bro.Api.{EphemeralCredential, EventType, Reason}
use ephemeral_credential_bro.Api.Error.{Message}
use ephemeral_credential_bro.Effects.{Action}
use ephemeral_credential_bro.Handle.{Json}
use ephemeral_credential_bro.Cluster.{Kubernetes, Request, CtrlResult}

-- The variables that `flag` fills in.
pub record Flags : Type 0 where
  pub metrics_addr : String
  pub probe_addr : String
  pub secure_metrics : Bool
  pub enable_http2 : Bool

-- `tls.Config`: the one field that main sets.
pub record TlsConfig : Type 0 where
  pub next_protos : List String

-- `metricsserver.Options`
pub record MetricsOptions : Type 0 where
  pub bind_address : String
  pub secure_serving : Bool
  pub tls_opts : List (TlsConfig → TlsConfig)

-- `ctrl.Options`: `webhook_tls_opts` are the options of `webhook.NewServer`.
pub record ManagerOptions : Type 0 where
  pub metrics : MetricsOptions
  pub webhook_tls_opts : List (TlsConfig → TlsConfig)
  pub health_probe_bind_address : String
  pub leader_election : Bool

-- The kinds of objects that the scheme knows, by the Go type.
pub data Kind : Type 0 where
  ephemeral_credential ephemeral_credential_list secret_kind : Kind

-- `schema.GroupVersion`
pub record GroupVersion : Type 0 where
  pub group : String
  pub version : String

-- What `ctrl.NewControllerManagedBy(mgr)` has been told when `Complete` is called.
pub record ControllerSpec (W : Type 0) : Type 0 where
  pub watched : Kind
  pub owned : List Kind
  pub reconciler : Request → Action W CtrlResult

-- `ctrl.Manager`
pub record Manager (W : Type 0) : Type 0 where
  pub client : Kubernetes W
  pub event_recorder_for : String → EphemeralCredential → EventType → Reason → Message → W → W
  pub complete : ControllerSpec W → Action W (Unit {0})
  pub add_healthz_check : String → Action W (Unit {0})
  pub add_readyz_check : String → Action W (Unit {0})
  pub start : Action W (Unit {0})

pub record Runtime (W : Type 0) : Type 0 where
  -- `clientgoscheme.AddToScheme`, and a builder's `AddToScheme` of its types
  pub add_client_go : Action W (Unit {0})
  pub add_types : GroupVersion → List Kind → Action W (Unit {0})
  -- `flag.Parse`, from the defaults, where it returns
  pub parse_flags : Flags → W → Flags × W
  -- `ctrl.NewManager` with the configuration of `ctrl.GetConfigOrDie`, which exits with 1 itself when
  -- there is none: an error of this action is either
  pub new_manager : ManagerOptions → Action W (Manager W)
  -- `time.Now` and encoding/json, which the reconciler uses
  pub time_now : W → Time × W
  pub json : Json
