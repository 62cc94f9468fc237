-- ===== src/Tests/Handles.antt =====
-- Handles stored and read back, and a registry of two providers.
use ephemeral_credential_bro.Base.{
  refl, ◌≡◌, some, [], ◌∷◌, arith, ◌==◌, eq_iff, Bool-cases, inl, inr,
}
use ephemeral_credential_bro.Effects.{ok}
use ephemeral_credential_bro.Api.{Bytes, github_app}
use ephemeral_credential_bro.Handle.{StoredHandle, decode_handle, encode_handle}
use ephemeral_credential_bro.Handle.RoundTrip.{IsLawful, decode_handle-encode_handle}
use ephemeral_credential_bro.Handle.Base64.{encode, decode, digit_char}
use ephemeral_credential_bro.Handle.Base64.RoundTrip.{decode-encode}
use ephemeral_credential_bro.Provider.{Provider, get, new_registry}
use ephemeral_credential_bro.Provider.Lookup.{last_named, get-new_registry, name-get}
use ephemeral_credential_bro.Base.Map.{lookup, insert}
use ephemeral_credential_bro.Tests.Sample.{World, json, handle, provider}

decode-encode_example : decode (encode (0 ∷ 255 ∷ 62 ∷ 63 ∷ [])) ≡ some (0 ∷ 255 ∷ 62 ∷ 63 ∷ [])
decode-encode_example = decode-encode (0 ∷ 255 ∷ 62 ∷ 63 ∷ []) (ground arith)

reads_back : (sh : StoredHandle) (b : Bytes) → json.marshal sh ≡ ok b → json.unmarshal b ≡ some sh
reads_back sh b e = elim (Bool-cases (sh.provider_name == github_app)) [
  | inl same ↦ elim (Bool-cases (sh.opaque == "dG9r")) [
    | inl same' ↦
        let p : sh.provider_name ≡ github_app = (eq_iff _ _).0 same in
        let q : sh.opaque ≡ "dG9r" = (eq_iff _ _).0 same' in cc
    | inr other ↦ ground arith
  ]
  | inr other ↦ ground arith
]

json-IsLawful : IsLawful json
json-IsLawful = record {
  bytes = λ sh b e. ground arith;
  nonempty = λ sh b e q. ground arith;
  reads_back = λ sh b e. reads_back sh b e;
}

decode_handle-encode_handle_example : decode_handle json "AQ==" ≡ some handle
unfolding encode_handle encode digit_char
decode_handle-encode_handle_example =
    decode_handle-encode_handle json handle "AQ==" json-IsLawful (ground arith) refl

abbrev unused : Provider World
unused = record provider { name = "vault" }

get-new_registry_example :
    get (new_registry (provider ∷ unused ∷ [])) github_app
    ≡ last_named github_app (provider ∷ unused ∷ [])
get-new_registry_example = get-new_registry github_app (provider ∷ unused ∷ [])

name-get_example : provider.name ≡ github_app
unfolding get new_registry lookup insert
name-get_example = name-get github_app (provider ∷ unused ∷ []) provider refl
