-- ===== src/Tests/Secrets.antt =====
-- Writes of a target Secret, with a mapping of one key and then with none.
use Prim.Native.Char.{code}
use text.Mathlib.TextLemmas.{cons≢nil}
use mathlib.Core.List.Permᴰ
use ephemeral_credential_bro.Base.{
  Bool, not, ◌&&◌, eqb, true, refl, ◌≡◌, none, some, [], ◌∷◌, String, if◌then◌else◌, arith,
}
use ephemeral_credential_bro.Base.Map.{lookup}
use ephemeral_credential_bro.GoStrings.{comma, contains, sort}
use ephemeral_credential_bro.GoStrings.Laws.{AreKeys, HasNoComma}
use ephemeral_credential_bro.Api.{TargetSecretSpec}
use ephemeral_credential_bro.Provider.Lookup.{or_else}
use ephemeral_credential_bro.TargetSecret.{secret_key, previously_managed_keys, fill_secret}
use ephemeral_credential_bro.TargetSecret.Entries.{
  target_keys, minted_under, fill_secret-lookup, fill_secret-minted,
}
use ephemeral_credential_bro.TargetSecret.Rewrite.{
  previously_managed_keys-fill_secret, fill_secret-fill_secret_stale, fill_secret-fill_secret_other,
}
use ephemeral_credential_bro.TargetSecret.Ordering.{fill_secret_perm}
use ephemeral_credential_bro.Base.Map.{Map}
use ephemeral_credential_bro.Api.{Bytes}
use ephemeral_credential_bro.Tests.Sample.{target, secret, minted_data}

-- the same Secret with no mapping: `token` stays `token`
abbrev unmapped : TargetSecretSpec
unmapped = record { name = "build-secret"; keys = [] }

fill_secret-lookup_example :
    lookup "GITHUB_TOKEN" (fill_secret target minted_data secret).secret_data
    ≡ or_else (minted_under target.keys minted_data "GITHUB_TOKEN") (
        if contains (previously_managed_keys secret) "GITHUB_TOKEN"
        then none
        else lookup "GITHUB_TOKEN" secret.secret_data)
fill_secret-lookup_example = fill_secret-lookup target minted_data secret "GITHUB_TOKEN"

fill_secret-minted_example :
    lookup (secret_key target.keys "token") (fill_secret target minted_data secret).secret_data
    ≡ some (110 ∷ 101 ∷ 119 ∷ [])
unfolding contains target_keys secret_key
fill_secret-minted_example =
    fill_secret-minted target [] [] "token" (110 ∷ 101 ∷ 119 ∷ []) secret (refl, tt)

abbrev comma_free : String → Bool
comma_free String.[] = true
comma_free (String.◌∷◌ c s) = not (eqb (code c) comma) && comma_free s

comma_free_sound : (s : String) → comma_free s ≡ true → HasNoComma s
comma_free_sound String.[] h = tt
comma_free_sound (String.◌∷◌ c s) h = ground (arith, comma_free_sound s)

keys_written : AreKeys (target_keys target.keys minted_data)
unfolding target_keys secret_key lookup
keys_written = (λ e. cons≢nil e, comma_free_sound "GITHUB_TOKEN" refl, tt)

previously_managed_keys-fill_secret_example :
    previously_managed_keys (fill_secret target minted_data secret)
    ≡ sort (target_keys target.keys minted_data)
previously_managed_keys-fill_secret_example =
    previously_managed_keys-fill_secret target minted_data secret keys_written

fill_secret-fill_secret_stale_example :
    lookup "GITHUB_TOKEN"
      (fill_secret unmapped minted_data (fill_secret target minted_data secret)).secret_data
    ≡ none
unfolding contains target_keys secret_key lookup
fill_secret-fill_secret_stale_example =
    fill_secret-fill_secret_stale target unmapped minted_data minted_data secret "GITHUB_TOKEN"
      keys_written refl refl

fill_secret-fill_secret_other_example :
    lookup "appId"
      (fill_secret unmapped minted_data (fill_secret target minted_data secret)).secret_data
    ≡ lookup "appId" secret.secret_data
unfolding contains target_keys secret_key lookup previously_managed_keys
fill_secret-fill_secret_other_example =
    fill_secret-fill_secret_other target unmapped minted_data minted_data secret "appId"
      keys_written refl refl refl

-- two outputs, visited in both orders
abbrev token_first : Map Bytes
token_first = ("token", 110 ∷ []) ∷ ("user", 98 ∷ []) ∷ []

abbrev user_first : Map Bytes
user_first = ("user", 98 ∷ []) ∷ ("token", 110 ∷ []) ∷ []

fill_secret_perm_example :
    ((key : String)
      → lookup key (fill_secret target token_first secret).secret_data
        ≡ lookup key (fill_secret target user_first secret).secret_data)
    × ((fill_secret target token_first secret).metadata
        ≡ (fill_secret target user_first secret).metadata)
    × ((fill_secret target token_first secret).secret_type
        ≡ (fill_secret target user_first secret).secret_type)
unfolding contains target_keys secret_key lookup
fill_secret_perm_example =
    fill_secret_perm target token_first user_first secret (Permᴰ.swap refl refl) (refl, (refl, tt))
