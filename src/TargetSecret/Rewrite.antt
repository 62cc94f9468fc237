-- ===== src/TargetSecret/Rewrite.antt =====
-- The managed-keys annotation carries what one write did over to the next one.
use ephemeral_credential_bro.Base.{
  String, ◌≡◌, refl, none, some, true, false, List, [], ◌∷◌, ◌==◌, eq_iff, arith, Bool-cases, inl,
  inr,
}
use ephemeral_credential_bro.Base.Map.{Map, lookup, lookup-insert}
use ephemeral_credential_bro.GoStrings.{contains, join, sort}
use ephemeral_credential_bro.GoStrings.Laws.{
  AreKeys, AreKeys-sort, split-join, contains-sort, join-ne_empty,
}
use ephemeral_credential_bro.Api.{Bytes, Secret, TargetSecretSpec}
use ephemeral_credential_bro.TargetSecret.{previously_managed_keys, fill_secret, split_raw}
use ephemeral_credential_bro.TargetSecret.Entries.{
  target_keys, fill_secret-lookup, write_entries-written, contains-target_keys,
}

split_raw-join : (l : List String) → AreKeys l → split_raw (some (join l)) ≡ l
unfolding join
split_raw-join [] h = refl
split_raw-join (x ∷ l) h = elim (Bool-cases (join (x ∷ l) == "")) [
  | inl empty ↦ absurd (join-ne_empty x l h.0 ((eq_iff _ _).0 empty))
  | inr full ↦ rw full (split-join x l h)
]

-- After a write the annotation lists exactly the keys that were written, in sorted order, if they
-- are keys that a Secret may have (not empty, no comma).
pub previously_managed_keys-fill_secret :
    (target : TargetSecretSpec) (minted : Map Bytes) (secret : Secret)
    → AreKeys (target_keys target.keys minted)
    → previously_managed_keys (fill_secret target minted secret)
      ≡ sort (target_keys target.keys minted)
unfolding previously_managed_keys fill_secret
previously_managed_keys-fill_secret target minted secret h =
    rw (lookup-insert, write_entries-written target.keys minted secret.secret_data [])
      (split_raw-join (sort (target_keys target.keys minted)) (AreKeys-sort _ h))

-- No credential is stranded: a key that one write put a value under, and that the next write (under
-- another mapping, or of a mint with other outputs) does not write, is gone after that write, if
-- what the first one wrote are keys that a Secret may have (not empty, no comma).
pub fill_secret-fill_secret_stale :
    (before after : TargetSecretSpec) (minted minted' : Map Bytes) (secret : Secret) (key : String)
    → AreKeys (target_keys before.keys minted)
    → contains (target_keys before.keys minted) key ≡ true
    → contains (target_keys after.keys minted') key ≡ false
    → lookup key (fill_secret after minted' (fill_secret before minted secret)).secret_data ≡ none
fill_secret-fill_secret_stale before after minted minted' secret key h written dropped =
    rw fill_secret-lookup (
      rw (previously_managed_keys-fill_secret before minted secret h)
        (rw contains-sort (ground (arith, contains-target_keys after.keys minted' key))))

-- A key that was not managed before, and that neither of two writes is about, keeps its value
-- through both, if what the first one wrote are keys that a Secret may have.
pub fill_secret-fill_secret_other :
    (before after : TargetSecretSpec) (minted minted' : Map Bytes) (secret : Secret) (key : String)
    → AreKeys (target_keys before.keys minted)
    → contains (previously_managed_keys secret) key ≡ false
    → contains (target_keys before.keys minted) key ≡ false
    → contains (target_keys after.keys minted') key ≡ false
    → lookup key (fill_secret after minted' (fill_secret before minted secret)).secret_data
      ≡ lookup key secret.secret_data
fill_secret-fill_secret_other before after minted minted' secret key h foreign first second =
    rw fill_secret-lookup (
      rw (previously_managed_keys-fill_secret before minted secret h) (
        rw contains-sort (
          rw fill_secret-lookup (
            ground (
              arith,
              contains-target_keys after.keys minted' key,
              contains-target_keys before.keys minted key,
            )))))
