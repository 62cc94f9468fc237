-- ===== src/Github/Mint.antt =====
-- `Mint` and `Revoke` of internal/provider/github/github.go, and the provider that they make up.
use ephemeral_credential_bro.Base.{String, ◌==◌, eqb, List, [], ◌∷◌, if◌then◌else◌}
use ephemeral_credential_bro.Api.{Bytes}
use ephemeral_credential_bro.Api.Error.{format, format_status, new}
use ephemeral_credential_bro.Effects.{Action, pure, raise, handle, or_wrap, ◌>>=◌}
use ephemeral_credential_bro.Provider.{CredentialHandle, MintRequest, MintResult, Provider}
use ephemeral_credential_bro.Provider.Scope.{
  GitHubScope, AnyScope, nil_scope, github_scope, other_scope,
}
use ephemeral_credential_bro.Github.{
  GitHubProvider, provider_name, base_url, sign_app_jwt, parse_private_key,
}
use ephemeral_credential_bro.Github.Http.{CreateTokenResponse, Platform}
use ephemeral_credential_bro.Github.Token.{
  exchange, read_body, resolve_installation_id, create_installation_token, revoke_request,
}

-- `%T`
abbrev type_name : AnyScope → String
type_name nil_scope = "<nil>"
type_name (github_scope scope) = "github.Scope"
type_name (other_scope name) = name

abbrev pub granted_token : CreateTokenResponse → MintResult
granted_token resp = record {
  minted_data = ("token", resp.token) ∷ [];
  expires_at = resp.expires_at;
  handle = record { provider_name = provider_name; opaque = resp.token };
}

module _ {W Key : Type 0} (platform : Platform W Key) (p : GitHubProvider W) where
  -- From `parsePrivateKey` on, with the first repository.
  unfoldable pub mint_scoped : GitHubScope → String → Action W MintResult
  mint_scoped scope repo = do
    key ←
        or_wrap (format "github: parsing App private key" [])
          (λ w. (parse_private_key platform p scope.private_key_pem, w))
    jwt ← or_wrap (format "github: signing App JWT" []) (sign_app_jwt platform p scope.app_id key)
    installation ←
        or_wrap (format "github: resolving installation" [])
          (resolve_installation_id platform p jwt repo)
    granted ←
        or_wrap (format "github: minting installation token" []) (
          create_installation_token platform p jwt installation scope.repositories
            scope.permissions)
    pure (granted_token granted)

  abbrev required : Action W MintResult
  required = raise (new (format "github: Scope.AppID and Scope.PrivateKeyPEM are required" []))

  -- The checks of a scope, in order.
  abbrev pub mint_github : GitHubScope → Bytes → Bytes → List String → Action W MintResult
  mint_github scope [] pem repositories = required
  mint_github scope (x ∷ app_id) [] repositories = required
  mint_github scope (x ∷ app_id) (y ∷ pem) [] =
      raise (new (format "github: Scope.Repositories must not be empty" []))
  mint_github scope (x ∷ app_id) (y ∷ pem) (repo ∷ repositories) = mint_scoped scope repo

  abbrev pub mint_any : AnyScope → Action W MintResult
  mint_any (github_scope scope) =
      mint_github scope scope.app_id scope.private_key_pem scope.repositories
  mint_any scope =
      raise (
        new
          (format "github: MintRequest.Scope must be github.Scope, got %T" (type_name scope ∷ [])))

  -- `Mint`
  unfoldable pub mint_token : MintRequest → Action W MintResult
  mint_token req = mint_any req.scope

  abbrev revoke_opaque : Bytes → Action W (Unit {0})
  revoke_opaque [] = raise (new (format "github: empty credential handle" []))
  revoke_opaque (x ∷ token) =
      exchange platform p (revoke_request (base_url platform p) (x ∷ token)) >>= λ resp.
      if eqb resp.status_code 204
      then pure tt
      else raise (
          new (
            format_status "github: revoke installation token: unexpected status %d: %s"
              resp.status_code (read_body platform p resp ∷ [])))

  -- `Revoke`
  unfoldable pub revoke_token : CredentialHandle → Action W (Unit {0})
  revoke_token handle =
      if handle.provider_name == provider_name
      then revoke_opaque handle.opaque
      else raise (
          new (
            format "github: cannot revoke a handle minted by provider %q"
              (handle.provider_name ∷ [])))

  -- `*github.Provider` as a `provider.Provider`
  abbrev pub github_provider : Provider W
  github_provider = record { name = provider_name; mint = mint_token; revoke = revoke_token }
