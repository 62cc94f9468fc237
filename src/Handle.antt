-- ===== src/Handle.antt =====
-- `storedHandle`, `encodeHandle` and `decodeHandle` of
-- internal/controller/ephemeralcredential_controller.go. `encoding/json` is the parameter `Json`.
pub mod Base64
pub mod RoundTrip
use ephemeral_credential_bro.Base.{
  String, Bool, ◌≡◌, Option, none, some, List, [], ◌∷◌, ◌==◌, if◌then◌else◌,
}
use ephemeral_credential_bro.Api.{Bytes}
use ephemeral_credential_bro.Api.Error.{Error}
use ephemeral_credential_bro.Effects.{Result, ok, err}
use ephemeral_credential_bro.Provider.{CredentialHandle}

pub record StoredHandle : Type 0 where
  pub provider_name : String
  pub opaque : String

-- `json.Marshal` and `json.Unmarshal` at `storedHandle`; `none` is an error of the decoder.
pub record Json : Type 0 where
  pub marshal : StoredHandle → Result Bytes
  pub unmarshal : Bytes → Option StoredHandle

module _ (json : Json) where
  unfoldable pub encode_handle : CredentialHandle → Result String
  encode_handle h =
      elim (json.marshal
        (record { provider_name = h.provider_name; opaque = Base64.encode h.opaque })) [
          | ok b ↦ ok (Base64.encode b)
          | err e ↦ err e
        ]

  abbrev opened : StoredHandle → Option CredentialHandle
  opened sh = elim (Base64.decode sh.opaque) [
    | none ↦ none
    | some opaque ↦ some (record { provider_name = sh.provider_name; opaque = opaque })
  ]

  abbrev parsed : Option Bytes → Option CredentialHandle
  parsed none = none
  parsed (some b) = elim (json.unmarshal b) [ none ↦ none | some sh ↦ opened sh ]

  unfoldable pub decode_handle : String → Option CredentialHandle
  decode_handle raw = if raw == "" then none else parsed (Base64.decode raw)
