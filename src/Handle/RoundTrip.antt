-- ===== src/Handle/RoundTrip.antt =====
-- The handle that is read back from the annotation is the one that was stored.
use text.Mathlib.TextLemmas.{cons≢nil}
use ephemeral_credential_bro.Base.{
  String, ◌≡◌, refl, ◌≢◌, ◌==◌, eq_iff, Bool-cases, inl, inr, some, [], ◌∷◌, arith,
}
use ephemeral_credential_bro.Api.{Bytes}
use ephemeral_credential_bro.Effects.{ok, Result-cases}
use ephemeral_credential_bro.Provider.{CredentialHandle}
use ephemeral_credential_bro.Handle.{Json, StoredHandle, encode_handle, decode_handle}
use ephemeral_credential_bro.Handle.Base64.{encode}
use ephemeral_credential_bro.Handle.Base64.RoundTrip.{AreBytes, decode-encode}

-- What `encoding/json` documents: a marshalled value is a non-empty text of bytes, from which
-- `Unmarshal` reads the value back (the strings being valid UTF-8).
pub record IsLawful (json : Json) : Type 0 where
  pub bytes : (sh : StoredHandle) (b : Bytes) → json.marshal sh ≡ ok b → AreBytes b
  pub nonempty : (sh : StoredHandle) (b : Bytes) → json.marshal sh ≡ ok b → b ≢ []
  pub reads_back :
      (sh : StoredHandle) (b : Bytes) → json.marshal sh ≡ ok b → json.unmarshal b ≡ some sh

encode-ne_empty : (b : Bytes) → b ≢ [] → encode b ≢ ""
unfolding encode
encode-ne_empty [] h e = h refl
encode-ne_empty (x ∷ []) h e = cons≢nil e
encode-ne_empty (x ∷ y ∷ []) h e = cons≢nil e
encode-ne_empty (x ∷ y ∷ z ∷ r) h e = cons≢nil e

abbrev stored : CredentialHandle → StoredHandle
stored h = record { provider_name = h.provider_name; opaque = encode h.opaque }

decode_handle-encode :
    (json : Json) (h : CredentialHandle) (b : Bytes)
    → IsLawful json
    → AreBytes h.opaque
    → json.marshal (stored h) ≡ ok b
    → decode_handle json (encode b) ≡ some h
unfolding decode_handle
decode_handle-encode json h b law bytes e = elim (Bool-cases (encode b == "")) [
  | inl empty ↦ absurd (encode-ne_empty b (law.nonempty (stored h) b e) ((eq_iff _ _).0 empty))
  | inr full ↦
      rw (full, decode-encode b (law.bytes (stored h) b e))
        (ground (arith, law.reads_back (stored h) b e, decode-encode h.opaque bytes))
]

-- A handle whose opaque part is bytes is read back as it was stored, provider name and opaque part,
-- whenever it could be stored at all, for a JSON codec that reads back what it wrote.
pub decode_handle-encode_handle :
    (json : Json) (h : CredentialHandle) (raw : String)
    → IsLawful json
    → AreBytes h.opaque
    → encode_handle json h ≡ ok raw
    → decode_handle json raw ≡ some h
unfolding encode_handle
decode_handle-encode_handle json h raw law bytes e = elim (Result-cases (json.marshal (stored h))) [
  | inl (b, q) ↦ ground (arith, decode_handle-encode json h b law bytes q)
  | inr (x, q) ↦ ground arith
]
