-- ===== src/Tests/Tokens.antt =====
-- Tokens of a small GitHub, an admitted spec and a built scope.
use ephemeral_credential_bro.Base.{ℕ, suc, ◌++◌, refl, ◌≡◌, inl, none, some, [], ◌∷◌}
use ephemeral_credential_bro.Base.Int.{pos, scale, int_laws, ◌+ℤ◌, ◌<ℤ◌}
use ephemeral_credential_bro.Base.Map.{lookup}
use ephemeral_credential_bro.GoTime.{seconds, unix, nanoseconds}
use ephemeral_credential_bro.Api.{Bytes, GitHubProviderConfig}
use ephemeral_credential_bro.Api.Admission.{IsAdmitted}
use ephemeral_credential_bro.Api.Error.{foreign}
use ephemeral_credential_bro.Effects.{ok, err}
use ephemeral_credential_bro.Provider.Scope.{GitHubScope, github_scope, nil_scope}
use ephemeral_credential_bro.Rotation.{requested_rotate_before}
use ephemeral_credential_bro.Controller.Scope.{build_scope, build_github_scope}
use ephemeral_credential_bro.Controller.Mint.{mint_request}
use ephemeral_credential_bro.Controller.Admitted.{IsUsable, build_scope-IsUsable, admitted_window}
use ephemeral_credential_bro.Github.{GitHubProvider, base_url, jwt_claims}
use ephemeral_credential_bro.Github.Http.{Platform}
use ephemeral_credential_bro.Github.Mint.{mint_token, revoke_token}
use ephemeral_credential_bro.Github.Claims.{jwt_claims-lifetime}
use ephemeral_credential_bro.Github.Requests.{
  RevokeSent, noted_platform, noted_provider, revoke_token-RevokeSent,
}
use ephemeral_credential_bro.Github.Refused.{TokenSent, mint_token-TokenSent}
use ephemeral_credential_bro.Main.Wired.{SentFor, mint_token-SentFor}
use ephemeral_credential_bro.Tests.Sample.{credential, handle, reconciler, secret, world}

-- Every answer has status 201; a world counts the requests.
abbrev small : Platform ℕ Bytes
small = record {
  default_do = λ req n. (ok (record { status_code = 201; response_body = 123 ∷ 125 ∷ [] }), suc n);
  request_error = λ method url. none;
  time_now = λ n. (seconds 1000, n);
  pem_decode = λ pem. some pem;
  parse_pkcs1 = λ der. ok der;
  parse_pkcs8 = λ der. err (foreign "Key" "not a key");
  sha256 = λ text. text;
  sign_pkcs1v15 = λ key digest n. (ok (key ++ digest), n);
  marshal_header = λ header. ok (123 ∷ 125 ∷ []);
  marshal_claims = λ claims. ok (123 ∷ 125 ∷ []);
  marshal_token_request = λ req. ok (123 ∷ 125 ∷ []);
  decode_installation = λ body. ok (pos 7);
  decode_token = λ body. ok (record { token = 116 ∷ []; expires_at = seconds 4600 });
  body_text = λ body. "{}";
}

abbrev github : GitHubProvider ℕ
github = record { api_base_url = ""; http_client = none; override_now = none }

abbrev usable : GitHubScope
usable = record {
  app_id = 49 ∷ [];
  private_key_pem = 75 ∷ [];
  repositories = "org/broker" ∷ [];
  permissions = [];
}

jwt_claims-lifetime_example :
    let claims = jwt_claims (seconds 1000) (49 ∷ []) in
    (claims.exp ≡ claims.iat +ℤ pos 600)
    × (claims.iat +ℤ pos 60 ≡ unix (seconds 1000))
    × (claims.exp ≡ unix (seconds 1000) +ℤ pos 540)
jwt_claims-lifetime_example = jwt_claims-lifetime (seconds 1000) (49 ∷ [])

revoke_token-RevokeSent_example :
    let (res, s) = revoke_token (noted_platform small) (noted_provider github) handle (0, []) in
    RevokeSent (base_url small github) handle res s.1
revoke_token-RevokeSent_example = revoke_token-RevokeSent small github handle 0

mint_token-TokenSent_example :
    let (res, s) =
      mint_token
        (noted_platform small)
        (noted_provider github)
        (mint_request credential (github_scope usable))
        (0, []) in
    TokenSent small github (github_scope usable) res s.1
mint_token-TokenSent_example =
    mint_token-TokenSent small github (mint_request credential (github_scope usable)) 0

abbrev asked : GitHubProviderConfig
asked = record {
  app_config_ref = record { name = "app" };
  repositories = "broker" ∷ [];
  permissions = [];
}

abbrev built : GitHubScope
built = record {
  app_id = 49 ∷ [];
  private_key_pem = 75 ∷ [];
  repositories = "broker" ∷ [];
  permissions = [];
}

build_scope-IsUsable_example : IsUsable (github_scope built)
unfolding build_scope build_github_scope lookup
build_scope-IsUsable_example =
    build_scope-IsUsable reconciler "ci" credential.spec (world (some secret) 1000)
      (github_scope built) refl

credential-IsAdmitted : IsAdmitted credential.spec
credential-IsAdmitted = record {
  ttl_range = (omega int_laws, omega int_laws);
  ttl_minimum = omega int_laws;
  rotate_minimum = omega int_laws;
  rotate_before_ttl = omega int_laws;
  configured = inl (refl, tt);
}

admitted_window_example :
    (requested_rotate_before credential ≡ scale nanoseconds (pos 600))
    × ((mint_request credential nil_scope).ttl ≡ scale nanoseconds (pos 3600))
    × (requested_rotate_before credential <ℤ (mint_request credential nil_scope).ttl)
admitted_window_example = admitted_window credential nil_scope credential-IsAdmitted

mint_token-SentFor_example :
    let (res, s) =
      mint_token
        (noted_platform small)
        (noted_provider github)
        (mint_request credential (github_scope built))
        (0, []) in
    SentFor small github asked "broker" res s.1
unfolding build_scope build_github_scope lookup
mint_token-SentFor_example =
    mint_token-SentFor small github reconciler credential asked "broker" [] (github_scope built)
      (world (some secret) 1000) 0 refl refl refl
