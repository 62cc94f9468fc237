-- ===== src/Provider/Scope.antt =====
-- The values that travel as `MintRequest.Scope any`: nil, the Scope of internal/provider/github, or
-- a value of another type, of which a type assertion sees only that it is another.
use ephemeral_credential_bro.Base.{String, List}
use ephemeral_credential_bro.Base.Map.{Map}
use ephemeral_credential_bro.Api.{Bytes}

-- `github.Scope`; an empty `app_id` is the empty list.
pub record GitHubScope : Type 0 where
  pub app_id : Bytes
  pub private_key_pem : Bytes
  pub repositories : List String
  pub permissions : Map String

pub data AnyScope : Type 0 where
  nil_scope : AnyScope
  github_scope : GitHubScope → AnyScope
  other_scope : String → AnyScope
