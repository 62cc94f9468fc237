-- ===== src/Base/Map.antt =====
-- A Go map with string keys, as an association list; a nil map and an empty one are both `[]`.
use Prim.Native.String.{String}
use mathlib.Core.Path.{◌≡◌, refl}
use mathlib.Core.Option.{Option, none, some}
use mathlib.Core.List.{List, [], ◌∷◌}
use native.Mathlib.Omega.{arith}
use text.Mathlib.Text.{◌==◌}
use text.Mathlib.TextEquality.{eq_iff}
use ephemeral_credential_bro.Base.Tests.{if◌then◌else◌}

abbrev pub Map {ℓ} : Type ℓ → Type ℓ
Map V = List (String × V)

module _ {ℓ} {V : Type ℓ} where
  -- `m[key]`
  unfoldable pub lookup : String → Map V → Option V
  lookup key [] = none
  lookup key ((held, value) ∷ rest) = if held == key then some value else lookup key rest

  -- `m[key] = value`
  unfoldable pub insert : String → V → Map V → Map V
  insert key value [] = (key, value) ∷ []
  insert key value ((held, old) ∷ rest) =
      let changed = insert key value rest in
      if held == key then (key, value) ∷ rest else (held, old) ∷ changed

  -- `delete(m, key)`
  unfoldable pub erase : String → Map V → Map V
  erase key [] = []
  erase key ((held, value) ∷ rest) =
      let left = erase key rest in if held == key then left else (held, value) ∷ left

  pub lookup-insert :
      (key asked : String) (value : V) (m : Map V)
      → lookup asked (insert key value m) ≡ (if key == asked then some value else lookup asked m)
  unfolding lookup insert
  lookup-insert key asked value [] = refl
  lookup-insert key asked value ((held, old) ∷ rest) = ground (
    arith,
    lookup-insert key asked value rest,
    eq_iff held asked,
    eq_iff held key,
    eq_iff key asked,
  )

  pub lookup-erase :
      (key asked : String) (m : Map V)
      → lookup asked (erase key m) ≡ (if key == asked then none else lookup asked m)
  unfolding lookup erase
  lookup-erase key asked [] = ground arith
  lookup-erase key asked ((held, value) ∷ rest) =
      ground
        (arith, lookup-erase key asked rest, eq_iff held asked, eq_iff held key, eq_iff key asked)
