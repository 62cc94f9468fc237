-- ===== src/TargetSecret/Entries.antt =====
-- Each key of the Secret after one write: the minted value where one was written under it, nothing
-- where the broker had written before and no longer does, and the old value elsewhere.
use ephemeral_credential_bro.Base.{
  String, Bool, true, false, ◌≡◌, refl, sym, ◌∙◌, Option, none, some, List, [], ◌∷◌, ◌++◌, ◌==◌,
  eq_iff, eq_refl, arith, if◌then◌else◌,
}
use mathlib.Core.List.{append-nil, append_assoc}
use ephemeral_credential_bro.Base.Map.{Map, lookup, insert, erase, lookup-insert, lookup-erase}
use ephemeral_credential_bro.GoStrings.{contains}
use ephemeral_credential_bro.GoStrings.Laws.{contains-sort}
use ephemeral_credential_bro.Api.{Bytes, Secret, TargetSecretSpec}
use ephemeral_credential_bro.Provider.Lookup.{or_else}
use ephemeral_credential_bro.TargetSecret.{
  secret_key, write_entries, remove_stale, previously_managed_keys, fill_secret,
}

-- The keys that a mint is written under, in the order of the loop.
unfoldable pub target_keys : Map String → Map Bytes → List String
target_keys keys [] = []
target_keys keys ((logical, value) ∷ minted) = secret_key keys logical ∷ target_keys keys minted

-- The value that the loop leaves under a key: the last one that is mapped there.
unfoldable pub minted_under : Map String → Map Bytes → String → Option Bytes
minted_under keys [] key = none
minted_under keys ((logical, value) ∷ minted) key =
    or_else (minted_under keys minted key)
      (if secret_key keys logical == key then some value else none)

write_entries-lookup :
    (keys : Map String) (minted entries : Map Bytes) (written : List String) (key : String)
    → lookup key (write_entries keys minted entries written).0
      ≡ or_else (minted_under keys minted key) (lookup key entries)
unfolding write_entries minted_under
write_entries-lookup keys [] entries written key = refl
write_entries-lookup keys ((logical, value) ∷ minted) entries written key =
    rw
      (write_entries-lookup keys minted (insert (secret_key keys logical) value entries)
        (written ++ secret_key keys logical ∷ []) key)
      (rw lookup-insert (ground arith))

pub write_entries-written :
    (keys : Map String) (minted entries : Map Bytes) (written : List String)
    → (write_entries keys minted entries written).1 ≡ written ++ target_keys keys minted
unfolding write_entries target_keys
write_entries-written keys [] entries written = simp append-nil
write_entries-written keys ((logical, value) ∷ minted) entries written =
    rw
      (write_entries-written keys minted (insert (secret_key keys logical) value entries)
        (written ++ secret_key keys logical ∷ []))
      (simp append_assoc)

remove_stale-lookup :
    (written previous : List String) (entries : Map Bytes) (key : String)
    → lookup key (remove_stale written previous entries) ≡ (
        if contains written key
        then lookup key entries
        else if contains previous key
        then none
        else lookup key entries)
unfolding remove_stale contains
remove_stale-lookup written [] entries key = ground arith
remove_stale-lookup written (stale ∷ previous) entries key =
    rw
      (remove_stale-lookup written previous
        (if contains written stale then entries else erase stale entries) key)
      (ground (arith, lookup-erase stale key entries, eq_iff stale key))

abbrev pub is_some {ℓ} : {A : Type ℓ} → Option A → Bool
is_some none = false
is_some (some a) = true

not-is_some {ℓ} : {A : Type ℓ} (o : Option A) → is_some o ≡ false → o ≡ none
not-is_some none h = refl
not-is_some (some a) h = cc

pub contains-target_keys :
    (keys : Map String) (minted : Map Bytes) (key : String)
    → contains (target_keys keys minted) key ≡ is_some (minted_under keys minted key)
unfolding contains target_keys minted_under
contains-target_keys keys [] key = refl
contains-target_keys keys ((logical, value) ∷ minted) key =
    ground (arith, contains-target_keys keys minted key)

-- After a write the Secret holds, under each key: the minted value that the mapping sends there,
-- the last one if there are several; otherwise nothing if the broker had written the key before;
-- otherwise what was there.
pub fill_secret-lookup :
    (target : TargetSecretSpec) (minted : Map Bytes) (secret : Secret) (key : String)
    → lookup key (fill_secret target minted secret).secret_data
      ≡ or_else (minted_under target.keys minted key) (
          if contains (previously_managed_keys secret) key
          then none
          else lookup key secret.secret_data)
unfolding fill_secret
fill_secret-lookup target minted secret key =
    rw (write_entries-written target.keys minted secret.secret_data []) (
      rw remove_stale-lookup (
        rw contains-sort (
          rw
            (
              contains-target_keys,
              write_entries-lookup target.keys minted secret.secret_data [] key,
            )
            (ground arith))))

-- No text stands twice in the list.
abbrev pub IsDistinct : List String → Type 0
IsDistinct [] = Unit
IsDistinct (x ∷ l) = (contains l x ≡ false) × IsDistinct l

minted_under-split :
    (keys : Map String) (xs ys : Map Bytes) (logical : String) (value : Bytes)
    → IsDistinct (target_keys keys (xs ++ (logical, value) ∷ ys))
    → minted_under keys (xs ++ (logical, value) ∷ ys) (secret_key keys logical) ≡ some value
unfolding target_keys minted_under
minted_under-split keys [] ys logical value (alone, rest) =
    let absent : is_some (minted_under keys ys (secret_key keys logical)) ≡ false =
      sym (contains-target_keys keys ys (secret_key keys logical)) ∙ alone in
    rw (eq_refl (secret_key keys logical)) (rw (not-is_some _ absent))
minted_under-split keys ((l, v) ∷ xs) ys logical value (alone, rest) =
    ground (arith, minted_under-split keys xs ys logical value rest)

-- If the mapping sends no two output keys to one key of the Secret, every minted value stands under
-- its key after the write, in whatever order the loop visits the map.
pub fill_secret-minted :
    (target : TargetSecretSpec) (xs ys : Map Bytes) (logical : String) (value : Bytes)
    (secret : Secret)
    → IsDistinct (target_keys target.keys (xs ++ (logical, value) ∷ ys))
    → lookup
        (secret_key target.keys logical)
        (fill_secret target (xs ++ (logical, value) ∷ ys) secret).secret_data
      ≡ some value
fill_secret-minted target xs ys logical value secret h =
    rw fill_secret-lookup (rw (minted_under-split target.keys xs ys logical value h))
