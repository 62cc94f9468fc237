-- ===== src/Tests/Copies.antt =====
-- Copies of a credential with a GitHub configuration, of a list of one, and of nil.
use ephemeral_credential_bro.Base.{String, Option, none, some, List, [], ◌∷◌, arith}
use ephemeral_credential_bro.Base.Int.{pos}
use ephemeral_credential_bro.GoTime.{seconds}
use ephemeral_credential_bro.Api.{github_app, active}
use ephemeral_credential_bro.DeepCopy.{
  deep_copy_credential, deep_copy_credential_list, deep_copy_object, deep_copy_list_object,
}
use ephemeral_credential_bro.DeepCopy.Memory.{Ref, allocate, kept, copy_strings}
use ephemeral_credential_bro.DeepCopy.Objects.{
  GitHubFields, CredentialFields, CredentialListFields, Library,
}
use ephemeral_credential_bro.DeepCopy.Views.{
  Within, each_addresses, plain, ref, plain-IsDeepCopy, allocate-IsDeepCopy,
}
use ephemeral_credential_bro.DeepCopy.Apart.{
  CopiesDeeply, IsApartCopy, IsObjectCopy, IsListObjectCopy, credential, credential_list,
  deep_copy_credential-IsApartCopy, deep_copy_credential_list-IsApartCopy,
  deep_copy_object-IsObjectCopy,
}

abbrev Finalizers : Type 0
Finalizers = Option (Ref (List String))

-- Metadata is a slice of finalizers, the other types of apimachinery are texts.
abbrev library : Library Finalizers String String
library = record {
  copy_meta = allocate copy_strings;
  copy_list_meta = kept;
  copy_condition = kept;
  copy_time = allocate kept;
}

library-CopiesDeeply : CopiesDeeply library (ref plain) plain plain
library-CopiesDeeply = record {
  of_meta = allocate-IsDeepCopy plain-IsDeepCopy;
  of_list_meta = plain-IsDeepCopy;
  of_condition = plain-IsDeepCopy;
  of_time = allocate-IsDeepCopy plain-IsDeepCopy;
}

abbrev at : {A : Type 0} → A → Option (Ref A)
at a = some (record { address = 3; content = a })

abbrev configured : GitHubFields
configured = record {
  app_config_ref = record { name = "app" };
  repositories = at ("broker" ∷ []);
  permissions = at (("contents", "read") ∷ []);
}

abbrev original : CredentialFields Finalizers String
original = record {
  type_meta = record { kind = "EphemeralCredential"; api_version = "v1alpha1" };
  metadata = at ("protected" ∷ []);
  spec = record {
    provider = github_app;
    ttl_seconds = pos 3600;
    rotate_before_seconds = pos 600;
    target_secret = record { name = "build-secret"; keys = none };
    provider_config = record { github = at configured; aws = none; database = none; vault = none };
  };
  status = record {
    state = active;
    expires_at = at (seconds 4600);
    last_rotated_at = none;
    observed_generation = pos 1;
    conditions = at ("Ready" ∷ []);
  };
}

abbrev listed : CredentialListFields Finalizers String String
listed = record {
  type_meta = record { kind = "EphemeralCredentialList"; api_version = "v1alpha1" };
  metadata = "7";
  items = at (original ∷ []);
}

deep_copy_credential-IsApartCopy_example :
    IsApartCopy
      (credential library (ref plain) plain plain library-CopiesDeeply)
      (at original)
      (deep_copy_credential library (at original) 4).0
unfolding Within each_addresses
deep_copy_credential-IsApartCopy_example =
    deep_copy_credential-IsApartCopy library (ref plain) plain plain library-CopiesDeeply
      (at original) 4 (ground arith)

deep_copy_credential_list-IsApartCopy_example :
    IsApartCopy
      (credential_list library (ref plain) plain plain library-CopiesDeeply)
      (at listed)
      (deep_copy_credential_list library (at listed) 4).0
unfolding Within each_addresses
deep_copy_credential_list-IsApartCopy_example =
    deep_copy_credential_list-IsApartCopy library (ref plain) plain plain library-CopiesDeeply
      (at listed) 4 (ground arith)

deep_copy_object-IsObjectCopy_example :
    IsObjectCopy library
      (ref plain)
      plain
      plain
      library-CopiesDeeply
      (at original)
      (deep_copy_object library (at original) 4).0
    × IsListObjectCopy library
        (ref plain)
        plain
        plain
        library-CopiesDeeply
        none
        (deep_copy_list_object library none 4).0
unfolding Within each_addresses
deep_copy_object-IsObjectCopy_example =
    deep_copy_object-IsObjectCopy library (ref plain) plain plain library-CopiesDeeply (at original)
      none 4 (ground arith) tt
