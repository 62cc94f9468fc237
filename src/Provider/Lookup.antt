-- ===== src/Provider/Lookup.antt =====
-- A registry answers with the provider that was registered last under the name.
use ephemeral_credential_bro.Base.{
  String, ◌≡◌, refl, sym, ◌∙◌, ◌==◌, eq_iff, Option, none, some, List, [], ◌∷◌, arith,
  if◌then◌else◌,
}
use ephemeral_credential_bro.Base.Map.{Map, lookup, lookup-insert}
use ephemeral_credential_bro.Provider.{Provider, register, new_registry, get}

-- `o`, or `d` where there is none.
abbrev pub or_else {ℓ} : {A : Type ℓ} → Option A → Option A → Option A
or_else (some a) d = some a
or_else none d = d

or_else-none {ℓ} : {A : Type ℓ} (o : Option A) → or_else o none ≡ o
or_else-none none = refl
or_else-none (some a) = refl

module _ {W : Type 0} where
  -- The last provider of the list that has the name.
  unfoldable pub last_named : String → List (Provider W) → Option (Provider W)
  last_named name [] = none
  last_named name (p ∷ ps) = or_else (last_named name ps) (if p.name == name then some p else none)

  register_lem :
      (name : String) (ps : List (Provider W)) (m : Map (Provider W))
      → lookup name (register m ps) ≡ or_else (last_named name ps) (lookup name m)
  unfolding register last_named
  register_lem name [] m = refl
  register_lem name (p ∷ ps) m = rw (register_lem name ps) (rw lookup-insert (ground arith))

  -- `Get` on a registry built from a list returns the last provider of the list whose own `Name()`
  -- is the one asked for, and nothing when no provider has it.
  pub get-new_registry :
      (name : String) (ps : List (Provider W)) → get (new_registry ps) name ≡ last_named name ps
  unfolding get new_registry lookup
  get-new_registry name ps = register_lem name ps [] ∙ or_else-none (last_named name ps)

  last_named-name :
      (name : String) (ps : List (Provider W)) (p : Provider W)
      → last_named name ps ≡ some p
      → p.name ≡ name
  unfolding last_named
  last_named-name name [] p h = cc
  last_named-name name (q ∷ ps) p h = ground (arith, last_named-name name ps p, eq_iff q.name name)

  -- So a provider that is found answers to the name that it was found under.
  pub name-get :
      (name : String) (ps : List (Provider W)) (p : Provider W)
      → get (new_registry ps) name ≡ some p
      → p.name ≡ name
  name-get name ps p h = last_named-name name ps p (sym (get-new_registry name ps) ∙ h)
