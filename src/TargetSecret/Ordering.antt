-- ===== src/TargetSecret/Ordering.antt =====
-- A Go map is visited in an order that the language leaves open: the order in which the loop of
-- `writeTargetSecret` comes by the minted values.
use ephemeral_credential_bro.Base.{
  String, ◌≡◌, refl, sym, ◌∙◌, ap, none, some, List, [], ◌||◌, ◌==◌, eq_iff, arith, if◌then◌else◌,
}
use mathlib.Core.List.{Permᴰ}
use ephemeral_credential_bro.Base.Map.{Map, lookup, insert}
use ephemeral_credential_bro.GoStrings.{contains, join, sort}
use ephemeral_credential_bro.GoStrings.Order.{sort_perm}
use ephemeral_credential_bro.Api.{Bytes, Secret, TargetSecretSpec}
use ephemeral_credential_bro.Provider.Lookup.{or_else}
use ephemeral_credential_bro.TargetSecret.{
  fill_secret, secret_key, write_entries, managed_keys_annotation,
}
use ephemeral_credential_bro.TargetSecret.Entries.{
  target_keys, minted_under, fill_secret-lookup, write_entries-written, IsDistinct,
}

module _ (keys : Map String) where
  target_keys_perm :
      {minted minted' : Map Bytes}
      → Permᴰ minted minted'
      → Permᴰ (target_keys keys minted) (target_keys keys minted')
  unfolding target_keys
  target_keys_perm Permᴰ.nil = Permᴰ.nil
  target_keys_perm (Permᴰ.cons e p) =
      Permᴰ.cons (ap (λ (x : String × Bytes). secret_key keys x.0) e) (target_keys_perm p)
  target_keys_perm (Permᴰ.swap e e') =
      Permᴰ.swap (ap (λ (x : String × Bytes). secret_key keys x.0) e)
        (ap (λ (x : String × Bytes). secret_key keys x.0) e')
  target_keys_perm (Permᴰ.trans p q) = Permᴰ.trans (target_keys_perm p) (target_keys_perm q)

contains_perm : {l m : List String} → Permᴰ l m → (key : String) → contains l key ≡ contains m key
unfolding contains
contains_perm Permᴰ.nil key = refl
contains_perm (Permᴰ.cons {a = a} {b = b} e p) key = λ i. (e i == key) || contains_perm p key i
contains_perm (Permᴰ.swap {a = a} {b = b} {l = l} e e') key = rw (← e, ← e') (ground arith)
contains_perm (Permᴰ.trans p q) key = contains_perm p key ∙ contains_perm q key

IsDistinct-perm : {l m : List String} → Permᴰ l m → IsDistinct l → IsDistinct m
unfolding contains
IsDistinct-perm Permᴰ.nil h = tt
IsDistinct-perm (Permᴰ.cons {a = a} {b = b} {l₂ = l} e p) (alone, rest) =
    (sym (contains_perm p b) ∙ ap (contains _) (sym e) ∙ alone, IsDistinct-perm p rest)
IsDistinct-perm (Permᴰ.swap {a = a} {b = b} e e') h =
    rw (← e, ← e') (ground (arith, eq_iff a b, eq_iff b a, h))
IsDistinct-perm (Permᴰ.trans p q) h = IsDistinct-perm q (IsDistinct-perm p h)

module _ (keys : Map String) (key : String) where
  minted_under_perm :
      {minted minted' : Map Bytes}
      → Permᴰ minted minted'
      → IsDistinct (target_keys keys minted)
      → minted_under keys minted key ≡ minted_under keys minted' key
  unfolding target_keys minted_under contains
  minted_under_perm Permᴰ.nil h = refl
  minted_under_perm (Permᴰ.cons e p) h = λ i.
      or_else (minted_under_perm p h.1 i)
        (if secret_key keys (e i).0 == key then some (e i).1 else none)
  minted_under_perm (Permᴰ.swap {a = a} {b = b} e e') h =
      rw (← e, ← e')
        (ground (
          arith,
          eq_iff (secret_key keys a.0) key,
          eq_iff (secret_key keys b.0) key,
          eq_iff (secret_key keys b.0) (secret_key keys a.0),
          h,
        ))
  minted_under_perm (Permᴰ.trans p q) h =
      minted_under_perm p h ∙ minted_under_perm q (IsDistinct-perm (target_keys_perm keys p) h)

fill_secret-lookup_perm :
    (target : TargetSecretSpec) (minted minted' : Map Bytes) (secret : Secret)
    → Permᴰ minted minted'
    → IsDistinct (target_keys target.keys minted)
    → (key : String)
    → lookup key (fill_secret target minted secret).secret_data
      ≡ lookup key (fill_secret target minted' secret).secret_data
fill_secret-lookup_perm target minted minted' secret p h key =
    fill_secret-lookup target minted secret key
    ∙ rw (minted_under_perm target.keys key p h)
        (sym (fill_secret-lookup target minted' secret key))

written_perm :
    (keys : Map String) (minted minted' entries : Map Bytes)
    → Permᴰ minted minted'
    → sort (write_entries keys minted entries []).1 ≡ sort (write_entries keys minted' entries []).1
written_perm keys minted minted' entries p =
    ap sort (write_entries-written keys minted entries [])
    ∙ sort_perm (target_keys_perm keys p)
    ∙ ap sort (sym (write_entries-written keys minted' entries []))

-- The write does not depend on the order in which Go visits the minted values: in another order each
-- key of the Secret holds the same value, if the mapping sends no two of them to one key, and the
-- rest of the Secret, with the annotation of the managed keys, is the same.
pub fill_secret_perm :
    (target : TargetSecretSpec) (minted minted' : Map Bytes) (secret : Secret)
    → Permᴰ minted minted'
    → IsDistinct (target_keys target.keys minted)
    → ((key : String)
        → lookup key (fill_secret target minted secret).secret_data
          ≡ lookup key (fill_secret target minted' secret).secret_data)
      × ((fill_secret target minted secret).metadata ≡ (fill_secret target minted' secret).metadata)
      × ((fill_secret target minted secret).secret_type
          ≡ (fill_secret target minted' secret).secret_type)
unfolding fill_secret
fill_secret_perm target minted minted' secret p h = (
  fill_secret-lookup_perm target minted minted' secret p h,
  (λ i. record secret.metadata {
    annotations =
        insert managed_keys_annotation
          (join (written_perm target.keys minted minted' secret.secret_data p i))
          secret.metadata.annotations;
  }),
  refl,
)
