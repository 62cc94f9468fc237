-- ===== src/Github/Token.antt =====
-- The calls of GitHub's API: `resolveInstallationID`, `createInstallationToken` and the request of
-- `Revoke`.
use ephemeral_credential_bro.Base.{
  ℕ, zero, suc, String, eqb, none, some, List, [], ◌∷◌, ◌++◌, if◌then◌else◌,
}
use ephemeral_credential_bro.Base.Int.{ℤ}
use ephemeral_credential_bro.Base.Map.{Map}
use ephemeral_credential_bro.Api.{Bytes}
use ephemeral_credential_bro.Api.Error.{format, format_status, new}
use ephemeral_credential_bro.Effects.{Action, raise, or_wrap, ◌>>=◌}
use ephemeral_credential_bro.Github.{GitHubProvider, send, base_url, ascii}
use ephemeral_credential_bro.Github.Http.{
  http_get, http_post, http_delete, installation_url, access_tokens_url, token_url, HttpRequest,
  HttpResponse, CreateTokenResponse, Platform,
}

-- At most the first bytes of a body.
abbrev prefix : ℕ → Bytes → Bytes
prefix zero b = []
prefix (suc n) [] = []
prefix (suc n) (x ∷ b) = x ∷ prefix n b

abbrev accept : Map Bytes
accept = ("Accept", ascii "application/vnd.github+json") ∷ []

abbrev pub authorized : Bytes → Map Bytes → Map Bytes
authorized token headers = ("Authorization", ascii "Bearer " ++ token) ∷ headers

abbrev pub installation_request : String → Bytes → String → HttpRequest
installation_request base jwt repo = record {
  method = http_get;
  url = installation_url base repo;
  headers = authorized jwt accept;
  request_body = [];
}

abbrev pub access_tokens_request : String → Bytes → ℤ → Bytes → HttpRequest
access_tokens_request base jwt installation body = record {
  method = http_post;
  url = access_tokens_url base installation;
  headers = authorized jwt (accept ++ ("Content-Type", ascii "application/json") ∷ []);
  request_body = body;
}

abbrev pub revoke_request : String → Bytes → HttpRequest
revoke_request base token = record {
  method = http_delete;
  url = token_url base;
  headers = authorized token accept;
  request_body = [];
}

module _ {W Key : Type 0} (platform : Platform W Key) (p : GitHubProvider W) where
  -- `http.NewRequestWithContext`, the headers, and `client().Do`
  unfoldable pub exchange : HttpRequest → Action W HttpResponse
  exchange req = elim (platform.request_error req.method req.url) [
    | some e ↦ raise e
    | none ↦ send platform p req
  ]

  -- `readBody`
  abbrev pub read_body : HttpResponse → String
  read_body resp = platform.body_text (prefix 4096 resp.response_body)

  -- `resolveInstallationID`
  unfoldable pub resolve_installation_id : Bytes → String → Action W ℤ
  resolve_installation_id jwt repo =
      exchange (installation_request (base_url platform p) jwt repo) >>= λ resp.
      if eqb resp.status_code 200
      then or_wrap (format "decoding installation response" [])
          (λ w. (platform.decode_installation resp.response_body, w))
      else raise (
          new (
            format_status "unexpected status %d resolving installation for %s: %s" resp.status_code
              (repo ∷ read_body resp ∷ [])))

  -- `createInstallationToken`
  unfoldable pub create_installation_token :
      Bytes → ℤ → List String → Map String → Action W CreateTokenResponse
  create_installation_token jwt installation repositories permissions = do
    body ← λ w. (
      platform.marshal_token_request
          (record { repositories = repositories; permissions = permissions }),
      w,
    )
    resp ← exchange (access_tokens_request (base_url platform p) jwt installation body)
    if eqb resp.status_code 201
        then or_wrap (format "decoding token response" [])
            (λ w. (platform.decode_token resp.response_body, w))
        else raise (
            new (
              format_status "unexpected status %d creating installation token: %s" resp.status_code
                (read_body resp ∷ [])))
