-- ===== src/Github/Refused.antt =====
-- `Mint` of internal/provider/github/github.go as a whole: which scopes it refuses.
use ephemeral_credential_bro.Base.{String, false, ◌≡◌, refl, List, [], ◌∷◌}
use ephemeral_credential_bro.Api.{Bytes}
use ephemeral_credential_bro.Effects.{Result}
use ephemeral_credential_bro.Provider.{MintRequest, MintResult}
use ephemeral_credential_bro.Provider.Scope.{
  GitHubScope, AnyScope, nil_scope, github_scope, other_scope,
}
use ephemeral_credential_bro.Github.{GitHubProvider, base_url}
use ephemeral_credential_bro.Github.Http.{Platform}
use ephemeral_credential_bro.Github.Mint.{mint_token, mint_any, mint_github}
use ephemeral_credential_bro.Github.Requests.{Sent, is_ok, noted_platform, noted_provider}
use ephemeral_credential_bro.Github.Granted.{MintSent, mint_scoped-MintSent}

module _ {W Key : Type 0} (platform : Platform W Key) (p : GitHubProvider W) where
  abbrev pub Refused : Result MintResult → List Sent → Type 0
  Refused res log = (is_ok res ≡ false) × (log ≡ [])

  -- What may be sent for an App ID, a private key and repositories.
  abbrev pub GitHubSent :
      GitHubScope → Bytes → Bytes → List String → Result MintResult → List Sent → Type 0
  GitHubSent scope (x ∷ app_id) (y ∷ pem) (repo ∷ repositories) res log =
      MintSent platform (base_url platform p) scope repo res log
  GitHubSent scope _ _ _ res log = Refused res log

  -- What may be sent for a scope.
  abbrev pub TokenSent : AnyScope → Result MintResult → List Sent → Type 0
  TokenSent (github_scope scope) res log =
      GitHubSent scope scope.app_id scope.private_key_pem scope.repositories res log
  TokenSent _ res log = Refused res log

  mint_github-GitHubSent :
      (scope : GitHubScope) (app_id pem : Bytes) (repositories : List String) (w : W)
      → let (res, s) =
          mint_github
            (noted_platform platform)
            (noted_provider p)
            scope
            app_id
            pem
            repositories
            (w, []) in
        GitHubSent scope app_id pem repositories res s.1
  mint_github-GitHubSent scope [] pem repositories w = (refl, refl)
  mint_github-GitHubSent scope (x ∷ app_id) [] repositories w = (refl, refl)
  mint_github-GitHubSent scope (x ∷ app_id) (y ∷ pem) [] w = (refl, refl)
  mint_github-GitHubSent scope (x ∷ app_id) (y ∷ pem) (repo ∷ repositories) w =
      mint_scoped-MintSent platform p scope repo w

  mint_any-TokenSent :
      (scope : AnyScope) (w : W)
      → let (res, s) = mint_any (noted_platform platform) (noted_provider p) scope (w, []) in
        TokenSent scope res s.1
  mint_any-TokenSent nil_scope w = (refl, refl)
  mint_any-TokenSent (other_scope name) w = (refl, refl)
  mint_any-TokenSent (github_scope scope) w =
      mint_github-GitHubSent scope scope.app_id scope.private_key_pem scope.repositories w

  -- A mint whose scope is not one of GitHub's, or has no App ID, no private key or no repositories,
  -- fails and sends nothing. Any other sends at most two requests: it asks for the installation of
  -- the first repository, and, only after an answer with status 200, asks that installation for a
  -- token, with the same credential and exactly the repositories and permissions of the scope. It
  -- returns no error only with the token and the expiry of an answer to the second with status 201.
  pub mint_token-TokenSent :
      (req : MintRequest) (w : W)
      → let (res, s) = mint_token (noted_platform platform) (noted_provider p) req (w, []) in
        TokenSent req.scope res s.1
  unfolding mint_token
  mint_token-TokenSent req w = mint_any-TokenSent req.scope w
