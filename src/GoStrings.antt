-- ===== src/GoStrings.antt =====
-- Go's `strings.Join` and `strings.Split` with a comma, `sort.Strings` and `slices.Contains`.
-- `sort.Strings` is an insertion sort here: equal strings cannot be told apart, so every correct
-- sort returns the same list.
pub mod Laws
pub mod Order
use Prim.Native.Char.{Char, code}
use Prim.Native.String.{compare, ◌++◌ as str_append}
use text.Mathlib.Text.{is_lt}
use ephemeral_credential_bro.Base.{
  ℕ, String, Bool, true, false, ◌||◌, List, [], ◌∷◌, ◌==◌, eqb, if◌then◌else◌,
}

abbrev pub comma : ℕ
comma = b','

unfoldable pub contains : List String → String → Bool
contains [] k = false
contains (j ∷ l) k = (j == k) || contains l k

-- `strings.Join(l, ",")`
unfoldable pub join : List String → String
join [] = ""
join (x ∷ []) = x
join (x ∷ y ∷ l) = str_append x (String.◌∷◌ "," (join (y ∷ l)))

abbrev pub grow : Char → List String → List String
grow c [] = String.◌∷◌ c "" ∷ []
grow c (x ∷ l) = String.◌∷◌ c x ∷ l

-- `strings.Split(s, ",")`
unfoldable pub split : String → List String
split String.[] = "" ∷ []
split (String.◌∷◌ c s) = let rest = split s in if eqb (code c) comma then "" ∷ rest else grow c rest

insert_sorted : String → List String → List String
insert_sorted x [] = x ∷ []
insert_sorted x (y ∷ l) = if is_lt (compare y x) then y ∷ insert_sorted x l else x ∷ y ∷ l

-- `sort.Strings(l)`
unfoldable pub sort : List String → List String
unfolding insert_sorted
sort [] = []
sort (x ∷ l) = insert_sorted x (sort l)
