-- ===== src/DeepCopy/Views.antt =====
-- What a deep copy is: the same value at new addresses.
use ephemeral_credential_bro.Base.{
  ℕ, suc, Bool, true, false, ◌||◌, eqb, ◌≤◌, ◌<◌, String, ◌≡◌, refl, ap, ◌∙◌, Option, none, some,
  List, [], ◌∷◌, ◌++◌, arith, if◌then◌else◌, ◌==◌,
}
use ephemeral_credential_bro.Base.Map.{Map, lookup, lookup-insert}
use ephemeral_credential_bro.DeepCopy.Memory.{
  Ref, Alloc, kept, allocate, copy_each, entries_copied, copy_entries,
}

-- How a type is read: its value without addresses, and the addresses that are reached from it.
pub record View (A V : Type 0) : Type 0 where
  pub value : A → V
  pub addresses : A → List ℕ

-- Addresses that were free at `n` and are no longer at `k`.
unfoldable pub Within : ℕ → ℕ → List ℕ → Type 0
Within n k [] = Unit
Within n k (a ∷ l) = (n ≤ a) × (a < k) × Within n k l

-- The address `a` is one of them.
pub reaches : ℕ → List ℕ → Bool
reaches a [] = false
reaches a (b ∷ l) = eqb a b || reaches a l

module _ {A V : Type 0} (v : View A V) (f : A → Alloc A) where
  -- The copy has the value of the original and addresses that `f` has taken, and `f` frees none.
  pub record IsDeepCopy : Type 0 where
    pub same : (a : A) (n : ℕ) → v.value (f a n).0 ≡ v.value a
    pub grows : (a : A) (n : ℕ) → n ≤ (f a n).1
    pub taken : (a : A) (n : ℕ) → Within n (f a n).1 (v.addresses (f a n).0)

pub Within-widen : (l : List ℕ) (n n' k k' : ℕ) → Within n k l → n' ≤ n → k ≤ k' → Within n' k' l
unfolding Within
Within-widen [] n n' k k' h p q = tt
Within-widen (a ∷ l) n n' k k' (low, high, rest) p q =
    (omega arith, omega arith, Within-widen l n n' k k' rest p q)

pub Within-reaches :
    (l : List ℕ) (n k a : ℕ) → Within n k l → reaches a l ≡ true → (n ≤ a) × (a < k)
unfolding Within reaches
Within-reaches [] n k a h e = cc
Within-reaches (b ∷ l) n k a (low, high, rest) e = ground (arith, Within-reaches l n k a rest)

-- Addresses below `n` are none of those that were taken from `n` on.
pub Within-apart :
    (l l' : List ℕ) (n k : ℕ)
    → Within 0 n l
    → Within n k l'
    → (a : ℕ) → reaches a l ≡ true
    → reaches a l' ≡ false
Within-apart l l' n k old new a h =
    ground (arith, Within-reaches l 0 n a old h, Within-reaches l' n k a new)

pub Within-append : (l l' : List ℕ) (n k : ℕ) → Within n k l → Within n k l' → Within n k (l ++ l')
unfolding Within
Within-append [] l' n k h h' = h'
Within-append (a ∷ l) l' n k (low, high, rest) h' = (low, high, Within-append l l' n k rest h')

-- A struct, a slice or a map that holds no addresses itself.
abbrev pub plain : {A : Type 0} → View A A
plain = record { value = λ a. a; addresses = λ a. [] }

abbrev pub entries : View (Map String) (String → Option String)
entries = record { value = λ m key. lookup key m; addresses = λ m. [] }

module _ {A V : Type 0} (v : View A V) where
  abbrev ref_value : Option (Ref A) → Option V
  ref_value none = none
  ref_value (some p) = some (v.value p.content)

  abbrev ref_addresses : Option (Ref A) → List ℕ
  ref_addresses none = []
  ref_addresses (some p) = p.address ∷ v.addresses p.content

  abbrev pub ref : View (Option (Ref A)) (Option V)
  ref = record { value = ref_value; addresses = ref_addresses }

  pub each_value : List A → List V
  each_value [] = []
  each_value (a ∷ l) = v.value a ∷ each_value l

  unfoldable pub each_addresses : List A → List ℕ
  each_addresses [] = []
  each_addresses (a ∷ l) = v.addresses a ++ each_addresses l

  abbrev pub each : View (List A) (List V)
  each = record { value = each_value; addresses = each_addresses }

pub plain-IsDeepCopy : {A : Type 0} → IsDeepCopy (plain {A = A}) kept
unfolding Within
plain-IsDeepCopy = record { same = λ a n. refl; grows = λ a n. omega arith; taken = λ a n. tt }

entries_copied-lookup :
    (m : Map String) (key : String) → lookup key (entries_copied m) ≡ lookup key m
unfolding lookup entries_copied
entries_copied-lookup [] key = refl
entries_copied-lookup ((held, val) ∷ rest) key =
    lookup-insert held key val (entries_copied rest)
    ∙ ap (λ (x : Option String). if held == key then some val else x)
        (entries_copied-lookup rest key)

pub copy_entries-IsDeepCopy : IsDeepCopy entries copy_entries
unfolding Within
copy_entries-IsDeepCopy = record {
  same = λ m n i key. entries_copied-lookup m key i;
  grows = λ m n. omega arith;
  taken = λ m n. tt;
}

module _ {A V : Type 0} {v : View A V} {f : A → Alloc A} (h : IsDeepCopy v f) where
  allocate-same : (p : Option (Ref A)) (n : ℕ) → (ref v).value (allocate f p n).0 ≡ (ref v).value p
  allocate-same none n = refl
  allocate-same (some p) n = ap some (h.same p.content (suc n))

  allocate-grows : (p : Option (Ref A)) (n : ℕ) → n ≤ (allocate f p n).1
  allocate-grows none n = omega arith
  allocate-grows (some p) n = omega (arith, h.grows p.content (suc n))

  allocate-taken :
      (p : Option (Ref A)) (n : ℕ)
      → Within n (allocate f p n).1 ((ref v).addresses (allocate f p n).0)
  unfolding Within
  allocate-taken none n = tt
  allocate-taken (some p) n = (
    omega arith,
    omega (arith, h.grows p.content (suc n)),
    Within-widen _ (suc n) n _ _ (h.taken p.content (suc n)) (omega arith) (omega arith),
  )

  pub allocate-IsDeepCopy : IsDeepCopy (ref v) (allocate f)
  allocate-IsDeepCopy = record {
    same = allocate-same;
    grows = allocate-grows;
    taken = allocate-taken;
  }

  copy_each-same : (l : List A) (n : ℕ) → each_value v (copy_each f l n).0 ≡ each_value v l
  unfolding copy_each each_value
  copy_each-same [] n = refl
  copy_each-same (a ∷ l) n = λ i. h.same a n i ∷ copy_each-same l (f a n).1 i

  copy_each-grows : (l : List A) (n : ℕ) → n ≤ (copy_each f l n).1
  unfolding copy_each
  copy_each-grows [] n = omega arith
  copy_each-grows (a ∷ l) n = omega (arith, h.grows a n, copy_each-grows l (f a n).1)

  copy_each-taken :
      (l : List A) (n : ℕ) → Within n (copy_each f l n).1 (each_addresses v (copy_each f l n).0)
  unfolding Within copy_each each_addresses
  copy_each-taken [] n = tt
  copy_each-taken (a ∷ l) n =
      let k : ℕ = (f a n).1 in
      Within-append _ _ n _
        (Within-widen _ n n k _ (h.taken a n) (omega arith) (copy_each-grows l k))
        (Within-widen _ k n _ _ (copy_each-taken l k) (h.grows a n) (omega arith))

  pub copy_each-IsDeepCopy : IsDeepCopy (each v) (copy_each f)
  copy_each-IsDeepCopy = record {
    same = copy_each-same;
    grows = copy_each-grows;
    taken = copy_each-taken;
  }

-- The parts of a struct, copied one after the other.
module _ {A V B U : Type 0} (v : View A V) (u : View B U) where
  abbrev pub both : View (A × B) (V × U)
  both = record {
    value = λ p. (v.value p.0, u.value p.1);
    addresses = λ p. v.addresses p.0 ++ u.addresses p.1;
  }

module _ {A B : Type 0} (f : A → Alloc A) (g : B → Alloc B) where
  abbrev pub copy_both : A × B → Alloc (A × B)
  copy_both (a, b) n = let (a', m) = f a n in let (b', k) = g b m in ((a', b'), k)

pub copy_both-IsDeepCopy :
    {A V B U : Type 0} {v : View A V} {u : View B U} {f : A → Alloc A} {g : B → Alloc B}
    → IsDeepCopy v f
    → IsDeepCopy u g
    → IsDeepCopy (both v u) (copy_both f g)
copy_both-IsDeepCopy {f = f} h k = record {
  same = λ p n i. (h.same p.0 n i, k.same p.1 (f p.0 n).1 i);
  grows = λ p n. omega (arith, h.grows p.0 n, k.grows p.1 (f p.0 n).1);
  taken = λ p n.
      let m : ℕ = (f p.0 n).1 in
      Within-append _ _ n _ (Within-widen _ n n m _ (h.taken p.0 n) (omega arith) (k.grows p.1 m))
        (Within-widen _ m n _ _ (k.taken p.1 m) (h.grows p.0 n) (omega arith));
}

-- A struct is the fields without addresses, `rest`, and the parts that are copied.
module _ {S K P V : Type 0} (rest : S → K) (parts : S → P) where
  abbrev pub struct : View P V → View S (K × V)
  struct v = record {
    value = λ s. (rest s, v.value (parts s));
    addresses = λ s. v.addresses (parts s);
  }

  -- A copy of the struct that copies its parts and keeps the rest.
  pub struct-IsDeepCopy :
      {v : View P V} {g : S → Alloc S} {f : P → Alloc P}
      → IsDeepCopy v f
      → ((s : S) (n : ℕ) → rest (g s n).0 ≡ rest s)
      → ((s : S) (n : ℕ) → parts (g s n).0 ≡ (f (parts s) n).0)
      → ((s : S) (n : ℕ) → (g s n).1 ≡ (f (parts s) n).1)
      → IsDeepCopy (struct v) g
  struct-IsDeepCopy {v = v} h keeps copies ends = record {
    same = λ s n i. (keeps s n i, (ap v.value (copies s n) ∙ h.same (parts s) n) i);
    grows = λ s n. rw (ends s n) (h.grows (parts s) n);
    taken = λ s n. rw (copies s n, ends s n) (h.taken (parts s) n);
  }
