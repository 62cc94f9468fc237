-- ===== src/TargetSecret.antt =====
-- What `writeTargetSecret` of internal/controller/ephemeralcredential_controller.go does to the
-- Secret that it was given: the closure that it passes to CreateOrUpdate, and
-- `previouslyManagedKeys`.
pub mod Entries
pub mod Rewrite
pub mod Ordering
use ephemeral_credential_bro.Base.{
  String, Bool, ◌≡◌, Option, none, some, List, [], ◌∷◌, ◌++◌, ◌==◌, if◌then◌else◌,
}
use ephemeral_credential_bro.Base.Map.{Map, lookup, insert, erase}
use ephemeral_credential_bro.GoStrings.{contains, join, split, sort}
use ephemeral_credential_bro.Api.{
  Bytes, ObjectMeta, Secret, EphemeralCredential, TargetSecretSpec, target_secret_type,
}
use ephemeral_credential_bro.Effects.{Result}
use ephemeral_credential_bro.Provider.{MintResult}

abbrev pub managed_keys_annotation : String
managed_keys_annotation = "broker.shivansh-sinha.dev/managed-keys"

abbrev mapped_or : String → Option String → String
mapped_or logical none = logical
mapped_or logical (some mapped) = if mapped == "" then logical else mapped

-- The key of the Secret for a provider's output key.
unfoldable pub secret_key : Map String → String → String
secret_key keys logical = mapped_or logical (lookup logical keys)

-- The loop over `mint.Data`: the Secret's data and the keys written so far.
unfoldable pub write_entries :
    Map String → Map Bytes → Map Bytes → List String → Map Bytes × List String
write_entries keys [] entries written = (entries, written)
write_entries keys ((logical, value) ∷ minted) entries written =
    let key = secret_key keys logical in
    write_entries keys minted (insert key value entries) (written ++ key ∷ [])

-- The loop over the keys that were managed before.
unfoldable pub remove_stale : List String → List String → Map Bytes → Map Bytes
remove_stale written [] entries = entries
remove_stale written (stale ∷ previous) entries =
    remove_stale written previous (if contains written stale then entries else erase stale entries)

abbrev pub split_raw : Option String → List String
split_raw none = []
split_raw (some raw) = if raw == "" then [] else split raw

unfoldable pub previously_managed_keys : Secret → List String
previously_managed_keys secret =
    split_raw (lookup managed_keys_annotation secret.metadata.annotations)

-- The closure up to `SetControllerReference`.
unfoldable pub fill_secret : TargetSecretSpec → Map Bytes → Secret → Secret
fill_secret target minted secret =
    let (entries, unsorted) = write_entries target.keys minted secret.secret_data [] in
    let written = sort unsorted in
    record secret {
      metadata = record secret.metadata {
        annotations = insert managed_keys_annotation (join written) secret.metadata.annotations;
      };
      secret_type = target_secret_type;
      secret_data = remove_stale written (previously_managed_keys secret) entries;
    }

-- The whole closure, over the library's `SetControllerReference`.
unfoldable pub mutate_secret :
    (EphemeralCredential → Secret → Result Secret)
    → EphemeralCredential
    → MintResult
    → Secret
    → Result Secret
mutate_secret set_controller_reference ec mint secret =
    set_controller_reference ec (fill_secret ec.spec.target_secret mint.minted_data secret)
