-- ===== src/Tests/Boots.antt =====
-- Boots of the process in a small runtime, and the reconciler that it sets up.
use ephemeral_credential_bro.Base.{false, refl, ◌≡◌, eq_iff, arith, none, some, [], ◌∷◌}
use ephemeral_credential_bro.GoTime.{seconds, is_zero}
use ephemeral_credential_bro.Api.{Bytes, EphemeralCredential, github_app, vault}
use ephemeral_credential_bro.Api.Error.{Error, foreign}
use ephemeral_credential_bro.Effects.{ok, err}
use ephemeral_credential_bro.Cluster.{Kubernetes}
use ephemeral_credential_bro.Controller.Reconcile.{reconcile}
use ephemeral_credential_bro.Controller.Traced.{traced}
use ephemeral_credential_bro.Controller.Protocol.{any, is_mint}
use ephemeral_credential_bro.Controller.Protocol.Deletion.{is_revoke, is_secret_write}
use ephemeral_credential_bro.Github.Http.{Platform}
use ephemeral_credential_bro.Main.{process, main_reconciler}
use ephemeral_credential_bro.Main.Options.{TlsConfig, Manager, Runtime}
use ephemeral_credential_bro.Main.Booted.{InOrder, EndsAs, noted_runtime, process-InOrder}
use ephemeral_credential_bro.Main.Wired.{main_reconciler-serves_github}
use ephemeral_credential_bro.Tests.Sample.{
  World, credential, json, kubernetes, request, secret, world,
}

abbrev offline_error : Error
offline_error = foreign "Offline" "no network"

-- A platform with no network and no keys.
abbrev offline : {W : Type 0} → Platform W Bytes
offline = record {
  default_do = λ req w. (err offline_error, w);
  request_error = λ method url. none;
  time_now = λ w. (seconds 1000, w);
  pem_decode = λ pem. none;
  parse_pkcs1 = λ der. err offline_error;
  parse_pkcs8 = λ der. err offline_error;
  sha256 = λ text. text;
  sign_pkcs1v15 = λ key digest w. (err offline_error, w);
  marshal_header = λ header. err offline_error;
  marshal_claims = λ claims. err offline_error;
  marshal_token_request = λ req. err offline_error;
  decode_installation = λ body. err offline_error;
  decode_token = λ body. err offline_error;
  body_text = λ body. "";
}

-- A client that reaches no API server.
abbrev unreachable : {W : Type 0} → Kubernetes W
unreachable = record {
  get_credential = λ namespace name w. (err offline_error, w);
  get_secret = λ namespace name w. (err offline_error, w);
  update = λ ec w. (err offline_error, w);
  update_status = λ ec w. (err offline_error, w);
  delete_secret = λ s w. (err offline_error, w);
  create_or_update = λ s f w. (err offline_error, w);
  contains_finalizer = λ ec name. false;
  add_finalizer = λ ec name. ec;
  remove_finalizer = λ ec name. ec;
  set_controller_reference = λ ec s. err offline_error;
  is_not_found = λ e. false;
  set_status_condition = λ cs c w. (cs, w);
}

abbrev vaulted : EphemeralCredential
vaulted = record credential { spec = record credential.spec { provider = vault } }

-- The API server has the credential that asks for Vault.
abbrev manager : Manager World
manager = record {
  client = record kubernetes { get_credential = λ namespace name w. (ok vaulted, w) };
  event_recorder_for = λ source ec kind reason message w. w;
  complete = λ spec w. (ok tt, w);
  add_healthz_check = λ name w. (ok tt, w);
  add_readyz_check = λ name w. (err offline_error, w);
  start = λ w. (ok tt, w);
}

-- The second health check is refused.
abbrev runtime : Runtime World
runtime = record {
  add_client_go = λ w. (ok tt, w);
  add_types = λ gv kinds w. (ok tt, w);
  parse_flags = λ defaults w. (record defaults { metrics_addr = ":8443" }, w);
  new_manager = λ opts w. (ok manager, w);
  time_now = λ w. (w.time, w);
  json = json;
}

abbrev offer : TlsConfig
offer = record { next_protos = "h2" ∷ "http/1.1" ∷ [] }

process-InOrder_example :
    let (exit, s) =
      process
        (noted_runtime unreachable (λ source ec kind reason message s. s) runtime)
        offline
        (world none 1000, []) in
    InOrder offer s.1 × EndsAs exit s.1
process-InOrder_example =
    process-InOrder unreachable (λ source ec kind reason message s. s) runtime offline offer
      (world none 1000)

main_reconciler-serves_github_example :
    let log =
      (reconcile
        (traced (main_reconciler runtime offline manager))
        request
        (world (some secret) 2000, [])).1.1 in
    (any is_mint log ≡ false) × (any is_revoke log ≡ false) × (any is_secret_write log ≡ false)
unfolding is_zero
main_reconciler-serves_github_example =
    main_reconciler-serves_github runtime offline manager request vaulted (world (some secret) 2000)
      (world (some secret) 2000) refl refl refl (λ e. ground (arith, eq_iff vault github_app, e))
