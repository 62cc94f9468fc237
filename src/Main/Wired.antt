-- ===== src/Main/Wired.antt =====
-- What the reconciler of cmd/main.go can mint, and what it then asks GitHub for: the controller, the
-- registry and the provider of internal/provider/github together.
use ephemeral_credential_bro.Base.{
  String, true, false, ◌≡◌, ◌≢◌, refl, ◌∙◌, ◌==◌, eq_iff, none, some, List, [], ◌∷◌, arith,
  if◌then◌else◌,
}
use ephemeral_credential_bro.Api.{
  Bytes, EphemeralCredential, GitHubProviderConfig, Reason, github_app, finalizer_name,
  provider_not_found,
}
use ephemeral_credential_bro.Api.Error.{Message}
use ephemeral_credential_bro.GoTime.{is_zero}
use ephemeral_credential_bro.Effects.{Result, ok}
use ephemeral_credential_bro.Provider.{MintResult, get}
use ephemeral_credential_bro.Provider.Scope.{
  GitHubScope, AnyScope, nil_scope, github_scope, other_scope,
}
use ephemeral_credential_bro.Provider.Lookup.{get-new_registry, last_named}
use ephemeral_credential_bro.Cluster.{Reconciler}
use ephemeral_credential_bro.Controller.Scope.{build_scope, build_github_scope}
use ephemeral_credential_bro.Controller.Mint.{mint_request}
use ephemeral_credential_bro.Github.{GitHubProvider, base_url}
use ephemeral_credential_bro.Github.Http.{Platform}
use ephemeral_credential_bro.Github.Mint.{mint_token, github_provider}
use ephemeral_credential_bro.Github.Requests.{Sent, noted_platform, noted_provider}
use ephemeral_credential_bro.Github.Granted.{MintSent}
use ephemeral_credential_bro.Github.Refused.{GitHubSent, TokenSent, mint_token-TokenSent}
use ephemeral_credential_bro.Cluster.{Request}
use ephemeral_credential_bro.Controller.{now, event, set_ready_condition}
use ephemeral_credential_bro.Controller.Status.{fail_status, delete_target_secret}
use ephemeral_credential_bro.Controller.Reconcile.{reconcile, reconcile_found, no_provider}
use ephemeral_credential_bro.Controller.Traced.{traced, get-traced}
use ephemeral_credential_bro.Controller.Protocol.{any, is_mint}
use ephemeral_credential_bro.Controller.Protocol.Deletion.{is_revoke, is_secret_write}
use ephemeral_credential_bro.Controller.Protocol.Live.{reconcile-found}
use ephemeral_credential_bro.Main.{main_providers, new_github, main_reconciler}
use ephemeral_credential_bro.Main.Options.{Manager, Runtime}

module _ {W Key : Type 0} (runtime : Runtime W) (platform : Platform W Key) where
  -- The registry that main builds knows the GitHub provider under `github-app`, and no other name.
  pub get-main_providers :
      (name : String)
      → get (main_providers runtime platform) name ≡ (
          if name == github_app
          then some (github_provider platform (new_github runtime platform))
          else none)
  unfolding main_providers last_named
  get-main_providers name =
      get-new_registry name (github_provider platform (new_github runtime platform) ∷ [])
      ∙ ground (arith, eq_iff name github_app, eq_iff github_app name)

-- What a built scope has to do with the configuration in the spec.
abbrev pub IsBuiltFrom : GitHubProviderConfig → AnyScope → Type 0
IsBuiltFrom cfg (github_scope scope) =
    (scope.app_id ≢ [])
    × (scope.private_key_pem ≢ [])
    × (scope.repositories ≡ cfg.repositories)
    × (scope.permissions ≡ cfg.permissions)
IsBuiltFrom cfg _ = ⊥

build_scope-IsBuiltFrom :
    {W : Type 0} (r : Reconciler W) (ec : EphemeralCredential) (w : W) (scope : AnyScope)
    (cfg : GitHubProviderConfig)
    → ec.spec.provider_config.github ≡ some cfg
    → (build_scope r ec.metadata.namespace ec.spec w).0 ≡ ok scope
    → IsBuiltFrom cfg scope
unfolding build_scope build_github_scope
build_scope-IsBuiltFrom r ec w scope cfg configured h = ground arith

module _ {W Key : Type 0} (platform : Platform W Key) (p : GitHubProvider W) where
  full-MintSent :
      (scope : GitHubScope) (app_id pem : Bytes) (repositories rest : List String) (repo : String)
      (res : Result MintResult) (log : List Sent)
      → app_id ≢ []
      → pem ≢ []
      → repositories ≡ repo ∷ rest
      → GitHubSent platform p scope app_id pem repositories res log
      → MintSent platform (base_url platform p) scope repo res log
  full-MintSent scope [] pem repositories rest repo res log a k e h = absurd (a refl)
  full-MintSent scope (x ∷ app_id) [] repositories rest repo res log a k e h = absurd (k refl)
  full-MintSent scope (x ∷ app_id) (y ∷ pem) [] rest repo res log a k e h = cc
  full-MintSent scope (x ∷ app_id) (y ∷ pem) (first ∷ repositories) rest repo res log a k e h =
      let same : first ≡ repo = cc in rw (← same) h

  -- The mint sent for the spec's repositories and permissions.
  abbrev pub SentFor : GitHubProviderConfig → String → Result MintResult → List Sent → Type 0
  SentFor cfg repo res log =
      (scope : GitHubScope) × (scope.repositories ≡ cfg.repositories)
      × (scope.permissions ≡ cfg.permissions)
      × MintSent platform (base_url platform p) scope repo res log

  built-SentFor :
      (cfg : GitHubProviderConfig) (scope : AnyScope) (repo : String) (rest : List String)
      (res : Result MintResult) (log : List Sent)
      → cfg.repositories ≡ repo ∷ rest
      → IsBuiltFrom cfg scope
      → TokenSent platform p scope res log
      → SentFor cfg repo res log
  built-SentFor cfg nil_scope repo rest res log e h sent = absurd h
  built-SentFor cfg (other_scope name) repo rest res log e h sent = absurd h
  built-SentFor cfg (github_scope scope) repo rest res log e (a, k, repos, perms) sent = (
    scope,
    repos,
    perms,
    full-MintSent scope scope.app_id scope.private_key_pem scope.repositories rest repo res log a k
        (repos ∙ e) sent,
  )

  -- From the spec to GitHub: a mint of a scope that the controller built from a spec with at least
  -- one repository sends at most two requests. It asks for the installation of the spec's first
  -- repository and, only after an answer with status 200, asks that installation for a token for
  -- exactly the repositories and the permissions of the spec. It returns no error only with the token
  -- of an answer to the second with status 201.
  pub mint_token-SentFor :
      {V : Type 0} (r : Reconciler V) (ec : EphemeralCredential) (cfg : GitHubProviderConfig)
      (repo : String) (rest : List String) (scope : AnyScope) (v : V) (w : W)
      → ec.spec.provider_config.github ≡ some cfg
      → cfg.repositories ≡ repo ∷ rest
      → (build_scope r ec.metadata.namespace ec.spec v).0 ≡ ok scope
      → let (res, s) =
          mint_token (noted_platform platform) (noted_provider p) (mint_request ec scope) (w, []) in
        SentFor cfg repo res s.1
  mint_token-SentFor r ec cfg repo rest scope v w configured some_repo built =
      built-SentFor cfg scope repo rest _ _ some_repo
        (build_scope-IsBuiltFrom r ec v scope cfg configured built)
        (mint_token-TokenSent platform p (mint_request ec scope) w)

-- Without a provider a live credential is only reported as failed.
fail_status-mints_nothing :
    {W : Type 0} (r : Reconciler W) (ec : EphemeralCredential) (reason : Reason) (message : Message)
    (w : W)
    → let log = (fail_status (traced r) ec reason message none false (w, [])).1.1 in
      (any is_mint log ≡ false) × (any is_revoke log ≡ false) × (any is_secret_write log ≡ false)
unfolding fail_status delete_target_secret now event set_ready_condition
fail_status-mints_nothing r ec reason message w = ground arith

module _ {W Key : Type 0} (runtime : Runtime W) (platform : Platform W Key) (mgr : Manager W)
    (req : Request) (ec : EphemeralCredential) where
  -- The reconciler of main serves `github-app` alone: for a live credential with the finalizer and
  -- any other provider, implemented or not, a reconcile mints nothing, revokes nothing and writes no
  -- Secret, whatever the API server answers.
  pub main_reconciler-serves_github :
      (w w' : W)
      → mgr.client.get_credential req.namespace req.name w ≡ (ok ec, w')
      → is_zero ec.metadata.deletion_timestamp ≡ true
      → mgr.client.contains_finalizer ec finalizer_name ≡ true
      → ec.spec.provider ≢ github_app
      → let log = (reconcile (traced (main_reconciler runtime platform mgr)) req (w, [])).1.1 in
        (any is_mint log ≡ false) × (any is_revoke log ≡ false) × (any is_secret_write log ≡ false)
  unfolding reconcile_found no_provider get
  main_reconciler-serves_github w w' found live protected other =
      let unknown : get (main_providers runtime platform) ec.spec.provider ≡ none =
        rw (get-main_providers runtime platform ec.spec.provider)
          (ground (arith, eq_iff ec.spec.provider github_app)) in
      rw
        (
          reconcile-found (main_reconciler runtime platform mgr) req ec w w' found,
          live,
          protected,
          get-traced (main_providers runtime platform).providers ec.spec.provider,
          unknown,
        )
        (fail_status-mints_nothing (main_reconciler runtime platform mgr) ec provider_not_found _
          w')
