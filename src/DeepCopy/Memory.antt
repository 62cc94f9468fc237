-- ===== src/DeepCopy/Memory.antt =====
-- Memory as api/v1alpha1/zz_generated.deepcopy.go sees it. A pointer, a slice or a map is its address
-- with what is there while the object is copied, which nothing changes meanwhile; nil is `none`. An
-- action allocates: it takes the first address that is free and returns the next one.
use ephemeral_credential_bro.Base.{ℕ, suc, String, Option, none, some, List, [], ◌∷◌}
use ephemeral_credential_bro.Base.Map.{Map, insert}

pub record Ref (A : Type 0) : Type 0 where
  pub address : ℕ
  pub content : A

abbrev pub Alloc : Type 0 → Type 0
Alloc A = ℕ → A × ℕ

abbrev pub kept : {A : Type 0} → A → Alloc A
kept a n = (a, n)

module _ {A B : Type 0} where
  infixl 5 ◌>>=◌
  abbrev pub ◌>>=◌ : Alloc A → (A → Alloc B) → Alloc B
  (m >>= f) n = let (a, k) = m n in f a k

module _ {A : Type 0} (into : A → Alloc A) where
  -- `out := new(T)`, or `make` for a slice or a map; then what is there is copied into it. From nil
  -- comes nil.
  abbrev pub allocate : Option (Ref A) → Alloc (Option (Ref A))
  allocate none n = (none, n)
  allocate (some p) n =
      let (content, k) = into p.content (suc n) in
      (some (record { address = n; content = content }), k)

  -- `for i := range *in { (*in)[i].DeepCopyInto(&(*out)[i]) }`
  unfoldable pub copy_each : List A → Alloc (List A)
  copy_each [] = kept []
  copy_each (a ∷ l) = do copied ← into a; rest ← copy_each l; kept (copied ∷ rest)

-- `for key, val := range *in { (*out)[key] = val }`
unfoldable pub entries_copied : Map String → Map String
entries_copied [] = []
entries_copied ((key, val) ∷ rest) = insert key val (entries_copied rest)

-- `copy(*out, *in)` into a slice of the same length
abbrev pub copy_strings : List String → Alloc (List String)
copy_strings l = kept l

abbrev pub copy_entries : Map String → Alloc (Map String)
copy_entries m = kept (entries_copied m)
