-- ===== src/DeepCopy/Apart.antt =====
-- The copies of the status, of a credential and of a list of credentials are deep when the copies of
-- apimachinery that they call are, and share no address with the original.
use ephemeral_credential_bro.Base.{ℕ, true, false, ◌≤◌, ◌≡◌, refl, Option, none, some, List, arith}
use ephemeral_credential_bro.Base.Int.{ℤ}
use ephemeral_credential_bro.GoTime.{Time}
use ephemeral_credential_bro.Api.{CredentialState}
use ephemeral_credential_bro.DeepCopy.{
  copy_set_time, copy_status, copy_credential, copy_credential_list, deep_copy_credential,
  deep_copy_credential_list, deep_copy_object, deep_copy_list_object,
}
use ephemeral_credential_bro.DeepCopy.Memory.{Ref, Alloc, allocate}
use ephemeral_credential_bro.DeepCopy.Objects.{
  TypeMeta, StatusFields, CredentialFields, CredentialListFields, Object, credential_object,
  list_object, Library,
}
use ephemeral_credential_bro.DeepCopy.Views.{
  View, Within, Within-apart, reaches, IsDeepCopy, plain, ref, each, allocate-IsDeepCopy,
  copy_each-IsDeepCopy, both, copy_both-IsDeepCopy, struct, struct-IsDeepCopy,
}
use ephemeral_credential_bro.DeepCopy.Configs.{SpecValue, spec, copy_spec-IsDeepCopy}

-- A pointer `p` that is copied to `q`: the value is the same, and no address that is reached from
-- `p` is reached from `q`.
abbrev pub IsApartCopy : {A V : Type 0} → View A V → Option (Ref A) → Option (Ref A) → Type 0
IsApartCopy v p q =
    ((ref v).value q ≡ (ref v).value p)
    × ((a : ℕ) → reaches a ((ref v).addresses p) ≡ true → reaches a ((ref v).addresses q) ≡ false)

allocate-IsApartCopy :
    {A V : Type 0} (v : View A V) (f : A → Alloc A) (p : Option (Ref A)) (n : ℕ)
    → IsDeepCopy v f
    → Within 0 n ((ref v).addresses p)
    → IsApartCopy v p (allocate f p n).0
allocate-IsApartCopy v f p n h old =
    let deep : IsDeepCopy (ref v) (allocate f) = allocate-IsDeepCopy h in
    (deep.same p n, Within-apart _ _ n _ old (deep.taken p n))

-- What the code relies on: the copies of apimachinery are deep.
pub record CopiesDeeply {Meta ListMeta Condition MetaValue ListMetaValue ConditionValue : Type 0}
    (lib : Library Meta ListMeta Condition) (meta : View Meta MetaValue)
    (list_meta : View ListMeta ListMetaValue) (condition : View Condition ConditionValue)
    : Type 0 where
  pub of_meta : IsDeepCopy meta lib.copy_meta
  pub of_list_meta : IsDeepCopy list_meta lib.copy_list_meta
  pub of_condition : IsDeepCopy condition lib.copy_condition
  pub of_time : IsDeepCopy (ref plain) lib.copy_time

module _ {Meta ListMeta Condition MetaValue ListMetaValue ConditionValue : Type 0}
    (lib : Library Meta ListMeta Condition) (meta : View Meta MetaValue)
    (list_meta : View ListMeta ListMetaValue) (condition : View Condition ConditionValue)
    (law : CopiesDeeply lib meta list_meta condition) where
  copy_set_time-same :
      (t : Option (Ref Time)) (n : ℕ)
      → (ref plain).value (copy_set_time lib t n).0 ≡ (ref plain).value t
  copy_set_time-same none n = refl
  copy_set_time-same (some p) n = law.of_time.same (some p) n

  copy_set_time-grows : (t : Option (Ref Time)) (n : ℕ) → n ≤ (copy_set_time lib t n).1
  copy_set_time-grows none n = omega arith
  copy_set_time-grows (some p) n = law.of_time.grows (some p) n

  copy_set_time-taken :
      (t : Option (Ref Time)) (n : ℕ)
      → Within n (copy_set_time lib t n).1 ((ref plain).addresses (copy_set_time lib t n).0)
  unfolding Within
  copy_set_time-taken none n = tt
  copy_set_time-taken (some p) n = law.of_time.taken (some p) n

  copy_set_time-IsDeepCopy : IsDeepCopy (ref plain) (copy_set_time lib)
  copy_set_time-IsDeepCopy = record {
    same = copy_set_time-same;
    grows = copy_set_time-grows;
    taken = copy_set_time-taken;
  }

  abbrev StatusValue : Type 0
  StatusValue = (CredentialState × ℤ) × ((Option Time × Option Time) × Option (List ConditionValue))

  abbrev pub status : View (StatusFields Condition) StatusValue
  status =
      struct (λ s. (s.state, s.observed_generation))
        (λ s. ((s.expires_at, s.last_rotated_at), s.conditions))
        (both (both (ref plain) (ref plain)) (ref (each condition)))

  copy_status-IsDeepCopy : IsDeepCopy status (copy_status lib)
  unfolding copy_status
  copy_status-IsDeepCopy =
      struct-IsDeepCopy (λ s. (s.state, s.observed_generation))
        (λ s. ((s.expires_at, s.last_rotated_at), s.conditions))
        (copy_both-IsDeepCopy
          (copy_both-IsDeepCopy copy_set_time-IsDeepCopy copy_set_time-IsDeepCopy)
          (allocate-IsDeepCopy (copy_each-IsDeepCopy law.of_condition)))
        (λ s n. refl) (λ s n. refl) (λ s n. refl)

  abbrev CredentialValue : Type 0
  CredentialValue = TypeMeta × ((MetaValue × SpecValue) × StatusValue)

  abbrev pub credential : View (CredentialFields Meta Condition) CredentialValue
  credential =
      struct (λ s. s.type_meta) (λ s. ((s.metadata, s.spec), s.status))
        (both (both meta spec) status)

  copy_credential-IsDeepCopy : IsDeepCopy credential (copy_credential lib)
  unfolding copy_credential
  copy_credential-IsDeepCopy =
      struct-IsDeepCopy (λ s. s.type_meta) (λ s. ((s.metadata, s.spec), s.status))
        (copy_both-IsDeepCopy (copy_both-IsDeepCopy law.of_meta copy_spec-IsDeepCopy)
          copy_status-IsDeepCopy)
        (λ s n. refl) (λ s n. refl) (λ s n. refl)

  abbrev CredentialListValue : Type 0
  CredentialListValue = TypeMeta × (ListMetaValue × Option (List CredentialValue))

  abbrev pub credential_list :
      View (CredentialListFields Meta ListMeta Condition) CredentialListValue
  credential_list =
      struct (λ s. s.type_meta) (λ s. (s.metadata, s.items))
        (both list_meta (ref (each credential)))

  copy_credential_list-IsDeepCopy : IsDeepCopy credential_list (copy_credential_list lib)
  unfolding copy_credential_list
  copy_credential_list-IsDeepCopy =
      struct-IsDeepCopy (λ s. s.type_meta) (λ s. (s.metadata, s.items))
        (copy_both-IsDeepCopy law.of_list_meta
          (allocate-IsDeepCopy (copy_each-IsDeepCopy copy_credential-IsDeepCopy)))
        (λ s n. refl) (λ s n. refl) (λ s n. refl)

  -- `DeepCopy` of a credential, nil or not: the copy has the same value in every field, and whatever
  -- can be reached through pointers, slices and maps of the original cannot be reached from the copy.
  -- The original's addresses are in use before the copy, and the copies of apimachinery are deep.
  pub deep_copy_credential-IsApartCopy :
      (p : Option (Ref (CredentialFields Meta Condition))) (n : ℕ)
      → Within 0 n ((ref credential).addresses p)
      → IsApartCopy credential p (deep_copy_credential lib p n).0
  deep_copy_credential-IsApartCopy p n =
      allocate-IsApartCopy credential (copy_credential lib) p n copy_credential-IsDeepCopy

  -- The same for `DeepCopy` of a list of credentials, whatever its length.
  pub deep_copy_credential_list-IsApartCopy :
      (p : Option (Ref (CredentialListFields Meta ListMeta Condition))) (n : ℕ)
      → Within 0 n ((ref credential_list).addresses p)
      → IsApartCopy credential_list p (deep_copy_credential_list lib p n).0
  deep_copy_credential_list-IsApartCopy p n =
      allocate-IsApartCopy credential_list (copy_credential_list lib) p n
        copy_credential_list-IsDeepCopy

  -- What an object of the API is to the pointer that it was copied from.
  abbrev pub IsObjectCopy :
      Option (Ref (CredentialFields Meta Condition))
      → Option (Object Meta ListMeta Condition)
      → Type 0
  IsObjectCopy none none = Unit
  IsObjectCopy (some p) (some (credential_object q)) = IsApartCopy credential (some p) (some q)
  IsObjectCopy _ _ = ⊥

  abbrev pub IsListObjectCopy :
      Option (Ref (CredentialListFields Meta ListMeta Condition))
      → Option (Object Meta ListMeta Condition)
      → Type 0
  IsListObjectCopy none none = Unit
  IsListObjectCopy (some p) (some (list_object q)) = IsApartCopy credential_list (some p) (some q)
  IsListObjectCopy _ _ = ⊥

  of_credential :
      (p : Option (Ref (CredentialFields Meta Condition))) (n : ℕ)
      → Within 0 n ((ref credential).addresses p)
      → IsObjectCopy p (deep_copy_object lib p n).0
  of_credential none n old = tt
  of_credential (some p) n old = deep_copy_credential-IsApartCopy (some p) n old

  of_list :
      (l : Option (Ref (CredentialListFields Meta ListMeta Condition))) (n : ℕ)
      → Within 0 n ((ref credential_list).addresses l)
      → IsListObjectCopy l (deep_copy_list_object lib l n).0
  of_list none n old = tt
  of_list (some l) n old = deep_copy_credential_list-IsApartCopy (some l) n old

  -- `DeepCopyObject` of a credential and of a list: a nil pointer becomes a nil interface, any other
  -- one an object of its own type that points to a copy with the same value and no shared address.
  pub deep_copy_object-IsObjectCopy :
      (p : Option (Ref (CredentialFields Meta Condition)))
      (l : Option (Ref (CredentialListFields Meta ListMeta Condition))) (n : ℕ)
      → Within 0 n ((ref credential).addresses p)
      → Within 0 n ((ref credential_list).addresses l)
      → IsObjectCopy p (deep_copy_object lib p n).0
        × IsListObjectCopy l (deep_copy_list_object lib l n).0
  deep_copy_object-IsObjectCopy p l n h k = (of_credential p n h, of_list l n k)
