-- ===== src/Provider.antt =====
-- internal/provider/provider.go: handles, mint requests and results, the Provider interface over a
-- world `W`, and the registry.
pub mod Scope
pub mod Lookup
use ephemeral_credential_bro.Base.{String, Option, List, [], ◌∷◌}
use ephemeral_credential_bro.Base.Map.{Map, lookup, insert}
use ephemeral_credential_bro.GoTime.{Time, Duration}
use ephemeral_credential_bro.Api.{Bytes}
use ephemeral_credential_bro.Effects.{Action}
use Scope.{AnyScope}

pub record CredentialHandle : Type 0 where
  pub provider_name : String
  pub opaque : Bytes

pub record MintRequest : Type 0 where
  pub scope : AnyScope
  pub ttl : Duration
  pub namespace : String
  pub name : String

-- `minted_data` is the source's `Data`; its order is the order in which a loop visits the map.
pub record MintResult : Type 0 where
  pub minted_data : Map Bytes
  pub expires_at : Time
  pub handle : CredentialHandle

pub record Provider (W : Type 0) : Type 0 where
  pub name : String
  pub mint : MintRequest → Action W MintResult
  pub revoke : CredentialHandle → Action W Unit

pub record Registry (W : Type 0) : Type 0 where
  pub providers : Map (Provider W)

module _ {W : Type 0} where
  register : Map (Provider W) → List (Provider W) → Map (Provider W)
  register m [] = m
  register m (p ∷ ps) = register (insert p.name p m) ps

  unfoldable pub new_registry : List (Provider W) → Registry W
  unfolding register
  new_registry ps = record { providers = register [] ps }

  unfoldable pub get : Registry W → String → Option (Provider W)
  get r name = lookup name r.providers
