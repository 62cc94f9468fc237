-- ===== src/Github/Requests.antt =====
-- What a `Mint` or a `Revoke` of internal/provider/github/github.go sends, and what its result says
-- of the answers. The HTTP client is wrapped so that each request is noted with its answer.
use ephemeral_credential_bro.Base.{
  ℕ, String, Bool, true, false, ◌≡◌, ◌≢◌, ◌++◌, eqb, Option, none, some, List, [], ◌∷◌, arith,
  eq_iff,
}
use ephemeral_credential_bro.Base.Map.{lookup}
use ephemeral_credential_bro.GoTime.{Time}
use ephemeral_credential_bro.Effects.{Result, ok, err}
use ephemeral_credential_bro.Provider.{CredentialHandle}
use ephemeral_credential_bro.Github.{ascii, GitHubProvider, provider_name, base_url, send}
use ephemeral_credential_bro.Github.Http.{
  http_delete, token_url, Do, HttpRequest, HttpResponse, Platform,
}
use ephemeral_credential_bro.Github.Token.{exchange}
use ephemeral_credential_bro.Github.Mint.{revoke_token}

pub record Sent : Type 0 where
  pub request : HttpRequest
  pub answer : Result HttpResponse

abbrev noted_do : {W : Type 0} → Do W → Do (W × List Sent)
noted_do do_request req (w, past) =
    let (res, w') = do_request req w in (res, (w', record { request = req; answer = res } ∷ past))

abbrev pub noted_platform : {W Key : Type 0} → Platform W Key → Platform (W × List Sent) Key
noted_platform platform = record {
  default_do = noted_do platform.default_do;
  request_error = platform.request_error;
  time_now = λ s. let (t, w) = platform.time_now s.0 in (t, (w, s.1));
  pem_decode = platform.pem_decode;
  parse_pkcs1 = platform.parse_pkcs1;
  parse_pkcs8 = platform.parse_pkcs8;
  sha256 = platform.sha256;
  sign_pkcs1v15 =
      λ key digest s. let (res, w) = platform.sign_pkcs1v15 key digest s.0 in (res, (w, s.1));
  marshal_header = platform.marshal_header;
  marshal_claims = platform.marshal_claims;
  marshal_token_request = platform.marshal_token_request;
  decode_installation = platform.decode_installation;
  decode_token = platform.decode_token;
  body_text = platform.body_text;
}

abbrev noted_client : {W : Type 0} → Option (Do W) → Option (Do (W × List Sent))
noted_client none = none
noted_client (some client) = some (noted_do client)

abbrev noted_clock :
    {W : Type 0} → Option (W → Time × W) → Option (W × List Sent → Time × (W × List Sent))
noted_clock none = none
noted_clock (some override) = some (λ s. let (t, w) = override s.0 in (t, (w, s.1)))

abbrev pub noted_provider : {W : Type 0} → GitHubProvider W → GitHubProvider (W × List Sent)
noted_provider p = record {
  api_base_url = p.api_base_url;
  http_client = noted_client p.http_client;
  override_now = noted_clock p.override_now;
}

-- The answer has the status.
abbrev pub is_status : ℕ → Result HttpResponse → Bool
is_status n (ok resp) = eqb resp.status_code n
is_status n (err e) = false

abbrev pub is_ok : {A : Type 0} → Result A → Bool
is_ok (ok a) = true
is_ok (err e) = false

-- What a `Revoke` of a handle may have sent, given what it returned.
abbrev pub RevokeSent : String → CredentialHandle → Result (Unit {0}) → List Sent → Type 0
RevokeSent base handle res [] = is_ok res ≡ false
RevokeSent base handle res (sent ∷ []) =
    (handle.provider_name ≡ provider_name)
    × (handle.opaque ≢ [])
    × (sent.request.method ≡ http_delete)
    × (sent.request.url ≡ token_url base)
    × (lookup "Authorization" sent.request.headers ≡ some (ascii "Bearer " ++ handle.opaque))
    × (sent.request.request_body ≡ [])
    × (is_ok res ≡ is_status 204 sent.answer)
RevokeSent base handle res _ = ⊥

module _ {W Key : Type 0} (platform : Platform W Key) (p : GitHubProvider W) where
  -- A revoke sends at most one request, and only for a handle of this provider that is not empty: a
  -- DELETE of the installation token's URL with an empty body, which the handle's token authorizes. It
  -- returns no error exactly if that request was sent and answered with status 204.
  pub revoke_token-RevokeSent :
      (handle : CredentialHandle) (w : W)
      → let (res, s) = revoke_token (noted_platform platform) (noted_provider p) handle (w, []) in
        RevokeSent (base_url platform p) handle res s.1
  unfolding revoke_token exchange send base_url lookup
  revoke_token-RevokeSent handle w = ground (arith, eq_iff handle.provider_name provider_name)
