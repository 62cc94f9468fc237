-- ===== src/Github/Granted.antt =====
-- What a `Mint` of internal/provider/github/github.go sends, and what its result says of the answers.
use ephemeral_credential_bro.Base.{String, false, ◌≡◌, refl, ◌∙◌, ◌++◌, some, List, [], ◌∷◌, arith}
use ephemeral_credential_bro.Base.Int.{ℤ}
use ephemeral_credential_bro.Base.Map.{lookup}
use ephemeral_credential_bro.Api.{Bytes}
use ephemeral_credential_bro.Api.Error.{format}
use ephemeral_credential_bro.Effects.{
  Result, ok, err, Action, pure, raise, or_wrap, handle, handle-ends, ◌>>=◌,
}
use ephemeral_credential_bro.Provider.{MintResult}
use ephemeral_credential_bro.Provider.Scope.{GitHubScope}
use ephemeral_credential_bro.Github.{
  GitHubProvider, base_url, send, sign_app_jwt, parse_private_key, ascii,
}
use ephemeral_credential_bro.Github.Http.{
  Url, installation_url, access_tokens_url, http_get, http_post, HttpResponse, CreateTokenResponse,
  Platform,
}
use ephemeral_credential_bro.Github.Token.{
  exchange, resolve_installation_id, create_installation_token,
}
use ephemeral_credential_bro.Github.Mint.{mint_scoped, granted_token}
use ephemeral_credential_bro.Github.Requests.{Sent, is_ok, noted_platform, noted_provider}

-- The URL names the installation that was decoded.
abbrev pub NamesInstallation : String → Result ℤ → Url → Type 0
NamesInstallation base (ok installation) url = url ≡ access_tokens_url base installation
NamesInstallation base (err e) url = ⊥

abbrev pub granted_by : Result CreateTokenResponse → Result MintResult
granted_by (ok resp) = ok (granted_token resp)
granted_by (err e) = err e

module _ {W Key : Type 0} (platform : Platform W Key) where
  -- The first request asks for the installation of a repository.
  abbrev pub AsksInstallation : String → String → Sent → Type 0
  AsksInstallation base repo sent =
      (sent.request.method ≡ http_get) × (sent.request.url ≡ installation_url base repo)

  -- The second one comes after an answer to the first with status 200, and asks the installation
  -- of that answer for a token, with the same credential as the first.
  abbrev pub AsksToken : String → GitHubScope → Sent → Result HttpResponse → Sent → Type 0
  AsksToken base scope first (err e) second = ⊥
  AsksToken base scope first (ok resp) second =
      (resp.status_code ≡ 200)
      × NamesInstallation base (platform.decode_installation resp.response_body) second.request.url
      × (second.request.method ≡ http_post)
      × (lookup "Authorization" second.request.headers
          ≡ lookup "Authorization" first.request.headers)
      × (platform.marshal_token_request
            (record { repositories = scope.repositories; permissions = scope.permissions })
          ≡ ok second.request.request_body)

  -- A result is the token of an answer with status 201.
  abbrev pub Grants : Result MintResult → Result HttpResponse → Type 0
  Grants (err e) answer = Unit
  Grants (ok res) (err e) = ⊥
  Grants (ok res) (ok resp) =
      (resp.status_code ≡ 201) × (granted_by (platform.decode_token resp.response_body) ≡ ok res)

  -- What a `Mint` of a scope with a first repository may have sent, newest first, given what it
  -- returned.
  abbrev pub MintSent : String → GitHubScope → String → Result MintResult → List Sent → Type 0
  MintSent base scope repo res [] = is_ok res ≡ false
  MintSent base scope repo res (first ∷ []) = (is_ok res ≡ false) × AsksInstallation base repo first
  MintSent base scope repo res (second ∷ first ∷ []) =
      AsksInstallation base repo first
      × AsksToken base scope first first.answer second
      × Grants res second.answer
  MintSent base scope repo res _ = ⊥

module _ {W Key : Type 0} (platform : Platform W Key) (p : GitHubProvider W) where
  -- The installation was found in the answer to a request that this JWT authorized.
  abbrev FoundIn : ℤ → Result HttpResponse → Type 0
  FoundIn installation (err e) = ⊥
  FoundIn installation (ok resp) =
      (resp.status_code ≡ 200) × (platform.decode_installation resp.response_body ≡ ok installation)

  abbrev Resolved : Bytes → String → Result ℤ → List Sent → Type 0
  Resolved jwt repo (err e) [] = Unit
  Resolved jwt repo (err e) (first ∷ []) =
      AsksInstallation platform (base_url platform p) repo first
  Resolved jwt repo (ok installation) (first ∷ []) =
      AsksInstallation platform (base_url platform p) repo first
      × (lookup "Authorization" first.request.headers ≡ some (ascii "Bearer " ++ jwt))
      × FoundIn installation first.answer
  Resolved jwt repo _ _ = ⊥

  abbrev resolve : Bytes → String → Action (W × List Sent) ℤ
  resolve jwt repo =
      or_wrap (format "github: resolving installation" [])
        (resolve_installation_id (noted_platform platform) (noted_provider p) jwt repo)

  abbrev grant : GitHubScope → Bytes → ℤ → Action (W × List Sent) MintResult
  grant scope jwt installation =
      or_wrap (format "github: minting installation token" []) (
        create_installation_token (noted_platform platform) (noted_provider p) jwt installation
          scope.repositories scope.permissions)
      >>= λ granted. pure (granted_token granted)

  abbrev Sends : GitHubScope → String → Result MintResult × (W × List Sent) → Type 0
  Sends scope repo end = MintSent platform (base_url platform p) scope repo end.0 end.1.1

  resolve-Resolved :
      (jwt : Bytes) (repo : String) (s : W × List Sent)
      → s.1 ≡ []
      → let (res, s') = resolve jwt repo s in Resolved jwt repo res s'.1
  unfolding resolve_installation_id exchange send base_url lookup
  resolve-Resolved jwt repo s e = ground arith

  grant-Sends :
      (scope : GitHubScope) (repo : String) (jwt : Bytes) (installation : ℤ) (first : Sent) (w : W)
      → Resolved jwt repo (ok installation) (first ∷ [])
      → Sends scope repo (grant scope jwt installation (w, first ∷ []))
  unfolding create_installation_token exchange send base_url lookup
  grant-Sends scope repo jwt installation first w h = ground arith

  after_resolve-Sends :
      (scope : GitHubScope) (repo : String) (jwt : Bytes) (res : Result ℤ) (w : W) (log : List Sent)
      → Resolved jwt repo res log
      → Sends scope repo (handle (λ v. (res, v)) raise (grant scope jwt) (w, log))
  after_resolve-Sends scope repo jwt (ok installation) w (first ∷ []) h =
      grant-Sends scope repo jwt installation first w h
  after_resolve-Sends scope repo jwt (ok installation) w [] h = elim h [ ]
  after_resolve-Sends scope repo jwt (ok installation) w (first ∷ (_ ∷ _)) h = elim h [ ]
  after_resolve-Sends scope repo jwt (err e) w [] h = refl
  after_resolve-Sends scope repo jwt (err e) w (first ∷ []) h = (refl, h)
  after_resolve-Sends scope repo jwt (err e) w (first ∷ (_ ∷ _)) h = elim h [ ]

  sign_app_jwt-quiet :
      (app_id : Bytes) (key : Key) (s : W × List Sent)
      → (sign_app_jwt (noted_platform platform) (noted_provider p) app_id key s).1.1 ≡ s.1
  unfolding sign_app_jwt
  sign_app_jwt-quiet app_id key s = ground arith

  abbrev sign : GitHubScope → Key → Action (W × List Sent) Bytes
  sign scope key =
      or_wrap (format "github: signing App JWT" [])
        (sign_app_jwt (noted_platform platform) (noted_provider p) scope.app_id key)

  sign-quiet : (scope : GitHubScope) (key : Key) (s : W × List Sent) → (sign scope key s).1.1 ≡ s.1
  sign-quiet scope key s = ground (arith, sign_app_jwt-quiet scope.app_id key s)

  signed-Sends :
      (scope : GitHubScope) (repo : String) (key : Key) (s : W × List Sent)
      → s.1 ≡ []
      → Sends scope repo (
          (sign scope key >>= λ jwt.
          (resolve jwt repo >>= λ installation. grant scope jwt installation))
            s)
  signed-Sends scope repo key s e =
      let out : Result Bytes × (W × List Sent) = sign scope key s in
      let same : out.1.1 ≡ [] = sign-quiet scope key s ∙ e in
      handle-ends {B = MintResult} (Sends scope repo) out.0 raise
        (λ jwt. (resolve jwt repo >>= λ installation. grant scope jwt installation)) out.1
        (λ jwt _.
          let found : Result ℤ × (W × List Sent) = resolve jwt repo out.1 in
          after_resolve-Sends scope repo jwt found.0 found.1.0 found.1.1
            (resolve-Resolved jwt repo out.1 same))
        (λ x _. rw same refl)

  abbrev parse : GitHubScope → Action (W × List Sent) Key
  parse scope = or_wrap (format "github: parsing App private key" []) (λ v.
      (parse_private_key (noted_platform platform) (noted_provider p) scope.private_key_pem, v))

  parse-quiet : (scope : GitHubScope) (s : W × List Sent) → (parse scope s).1.1 ≡ s.1
  parse-quiet scope s = ground arith

  -- A mint of a scope that has an App ID, a private key and a first repository sends at most two
  -- requests: it asks for the installation of that repository, and, only after an answer with status
  -- 200, asks that installation for a token, with the same credential and exactly the repositories
  -- and permissions of the scope. It returns no error only with the token and the expiry of an
  -- answer to the second with status 201.
  pub mint_scoped-MintSent :
      (scope : GitHubScope) (repo : String) (w : W)
      → let (res, s) =
          mint_scoped (noted_platform platform) (noted_provider p) scope repo (w, []) in
        MintSent platform (base_url platform p) scope repo res s.1
  unfolding mint_scoped
  mint_scoped-MintSent scope repo w =
      let out : Result Key × (W × List Sent) = parse scope (w, []) in
      handle-ends {B = MintResult} (Sends scope repo) out.0 raise
        (λ key.
          (sign scope key >>= λ jwt.
          (resolve jwt repo >>= λ installation. grant scope jwt installation)))
        out.1 (λ key _. signed-Sends scope repo key out.1 (parse-quiet scope (w, [])))
        (λ x _. rw (parse-quiet scope (w, [])) refl)
