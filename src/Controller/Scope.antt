-- ===== src/Controller/Scope.antt =====
-- `buildScope` and `buildGitHubScope`: from the spec and the App's Secret to what a provider takes.
use ephemeral_credential_bro.Base.{String, ◌==◌, ◌||◌, Option, none, some, [], ◌∷◌, if◌then◌else◌}
use ephemeral_credential_bro.Base.Map.{lookup}
use ephemeral_credential_bro.Api.{
  Bytes, EphemeralCredentialSpec, GitHubProviderConfig, github_app, aws_sts, database, vault,
}
use ephemeral_credential_bro.Api.Error.{format, new}
use ephemeral_credential_bro.Effects.{Action, pure, raise, or_wrap, ◌>>=◌}
use ephemeral_credential_bro.Provider.Scope.{GitHubScope, AnyScope, github_scope}
use ephemeral_credential_bro.Cluster.{Reconciler}

module _ {W : Type 0} (r : Reconciler W) where
  -- A key of the App's Secret; an empty value counts as missing.
  present : String → String → Option Bytes → Action W Bytes
  present secret key (some (b ∷ value)) = pure (b ∷ value)
  present secret key _ =
      raise (new (format "secret %q is missing required key %q" (secret ∷ key ∷ [])))

  github_scope_of : String → GitHubProviderConfig → Action W GitHubScope
  unfolding present
  github_scope_of namespace cfg = do
    let app_secret = cfg.app_config_ref.name
    secret ←
        or_wrap (format "fetching appConfigRef secret %q" (app_secret ∷ []))
          (r.get_secret namespace app_secret)
    app_id ← present app_secret "appId" (lookup "appId" secret.secret_data)
    private_key ← present app_secret "privateKey" (lookup "privateKey" secret.secret_data)
    pure (record {
      app_id = app_id;
      private_key_pem = private_key;
      repositories = cfg.repositories;
      permissions = cfg.permissions;
    })

  unfoldable pub build_github_scope : String → EphemeralCredentialSpec → Action W GitHubScope
  unfolding github_scope_of
  build_github_scope namespace spec = elim spec.provider_config.github [
    | none ↦ raise (new (format "provider github-app requires providerConfig.github to be set" []))
    | some cfg ↦ github_scope_of namespace cfg
  ]

  unfoldable pub build_scope : String → EphemeralCredentialSpec → Action W AnyScope
  build_scope namespace spec =
      if spec.provider == github_app
      then (build_github_scope namespace spec >>= λ scope. pure (github_scope scope))
      else if (spec.provider == aws_sts) || (spec.provider == database) || (spec.provider == vault)
      then raise (
          new (
            format
              "provider %q is designed but not implemented in v1 -- see design doc section 4 and internal/provider/%s/doc.go"
              (spec.provider ∷ spec.provider ∷ [])))
      else raise (new (format "unknown provider %q" (spec.provider ∷ [])))
