-- ===== src/GoStrings/Laws.antt =====
-- Splitting what was joined, and membership in a sorted list.
use Prim.Native.Char.{code}
use Prim.Native.String.{◌++◌ as str_append}
use text.Mathlib.TextLemmas.{nil-append, cons-append, cons≢nil}
use ephemeral_credential_bro.Base.{
  String, ◌≡◌, refl, sym, ◌∙◌, ◌≢◌, ap, ◌||◌, List, [], ◌∷◌, ◌==◌, arith,
}
use ephemeral_credential_bro.GoStrings.{comma, contains, join, split, insert_sorted, sort}

-- A text without a comma.
abbrev pub HasNoComma : String → Type 0
HasNoComma String.[] = Unit
HasNoComma (String.◌∷◌ c s) = (code c ≢ comma) × HasNoComma s

-- What the API server demands of a data key of a Secret, as far as a comma-separated list needs it.
abbrev pub AreKeys : List String → Type 0
AreKeys [] = Unit
AreKeys (x ∷ l) = (x ≢ "") × HasNoComma x × AreKeys l

split-no_comma : (x : String) → HasNoComma x → split x ≡ x ∷ []
unfolding split
split-no_comma String.[] h = refl
split-no_comma (String.◌∷◌ c x) (other, h) = rw (split-no_comma x h) (ground arith)

split-append : (x s : String) → HasNoComma x → split (str_append x (String.◌∷◌ "," s)) ≡ x ∷ split s
unfolding split
split-append String.[] s h = rw nil-append
split-append (String.◌∷◌ c x) s (other, h) =
    rw cons-append (rw (split, split-append x s h) (ground arith))

-- Splitting a joined list of texts without commas gives the list back, unless it is empty.
pub split-join : (x : String) (l : List String) → AreKeys (x ∷ l) → split (join (x ∷ l)) ≡ x ∷ l
unfolding join
split-join x [] h = split-no_comma x h.1
split-join x (y ∷ l) h = rw (split-append x (join (y ∷ l)) h.1) (ap (◌∷◌ x) (split-join y l h.2))

contains-insert_sorted :
    (x k : String) (l : List String) → contains (insert_sorted x l) k ≡ ((x == k) || contains l k)
unfolding contains insert_sorted
contains-insert_sorted x k [] = refl
contains-insert_sorted x k (y ∷ l) = ground (arith, contains-insert_sorted x k l)

pub contains-sort : (l : List String) (k : String) → contains (sort l) k ≡ contains l k
unfolding contains sort
contains-sort [] k = refl
contains-sort (x ∷ l) k = rw contains-insert_sorted (rw (contains-sort l k))

AreKeys-insert_sorted :
    (x : String) (l : List String)
    → (x ≢ "") × HasNoComma x
    → AreKeys l
    → AreKeys (insert_sorted x l)
unfolding insert_sorted
AreKeys-insert_sorted x [] h k = (h.0, h.1, tt)
AreKeys-insert_sorted x (y ∷ l) h k = ground (arith, AreKeys-insert_sorted x l h k.2)

pub AreKeys-sort : (l : List String) → AreKeys l → AreKeys (sort l)
unfolding sort
AreKeys-sort [] h = tt
AreKeys-sort (x ∷ l) h = AreKeys-insert_sorted x (sort l) (h.0, h.1) (AreKeys-sort l h.2)

append-ne_empty : (x s : String) → x ≢ "" → str_append x s ≢ ""
append-ne_empty String.[] s h e = h refl
append-ne_empty (String.◌∷◌ c x) s h e = cons≢nil (sym (cons-append c x s) ∙ e)

pub join-ne_empty : (x : String) (l : List String) → x ≢ "" → join (x ∷ l) ≢ ""
unfolding join
join-ne_empty x [] h = h
join-ne_empty x (y ∷ l) h = append-ne_empty x _ h
