-- ===== src/GoStrings/Order.antt =====
-- The order of texts is a linear one, so sorting a list does not depend on how the list is ordered.
use Prim.Native.Char.{Char, code}
use Prim.Native.Nat.{Ordering, compare as compare_ℕ}
use Prim.Native.String.compare
use Prim.Native.String.{compare}
use text.Mathlib.Text.{is_lt}
use text.Mathlib.TextEquality.{codes_equal}
use mathlib.Core.List.{Permᴰ}
use ephemeral_credential_bro.Base.{
  String, Bool, Bool-cases, true, false, ◌≡◌, refl, sym, ◌∙◌, ap, ◌⊎◌, inl, inr, List, [], ◌∷◌,
  arith, if◌then◌else◌, eqb, ltb,
}
use ephemeral_credential_bro.GoStrings.{insert_sorted, sort}

-- Go's `<` on strings.
abbrev below : String → String → Bool
below x y = is_lt (compare x y)

below-empty_empty : below "" "" ≡ false
below-empty_empty = ap is_lt compare.nil-nil

below-empty_cons : (d : Char) (t : String) → below "" (String.◌∷◌ d t) ≡ true
below-empty_cons d t = ap is_lt (compare.nil-cons d t)

below-cons_empty : (c : Char) (s : String) → below (String.◌∷◌ c s) "" ≡ false
below-cons_empty c s = ap is_lt (compare.cons-nil c s)

below-cons_cons :
    (c d : Char) (s t : String)
    → below (String.◌∷◌ c s) (String.◌∷◌ d t)
      ≡ (if eqb (code c) (code d) then below s t else ltb (code c) (code d))
below-cons_cons c d s t = ap is_lt (compare.cons-cons c d s t) ∙ ground arith

below_trans : (x y z : String) → below x y ≡ true → below y z ≡ true → below x z ≡ true
below_trans String.[] String.[] z h k = k
below_trans String.[] (String.◌∷◌ d t) String.[] h k = cc (k, below-cons_empty d t)
below_trans String.[] (String.◌∷◌ d t) (String.◌∷◌ e u) h k = below-empty_cons e u
below_trans (String.◌∷◌ c s) String.[] z h k = cc (h, below-cons_empty c s)
below_trans (String.◌∷◌ c s) (String.◌∷◌ d t) String.[] h k = cc (k, below-cons_empty d t)
below_trans (String.◌∷◌ c s) (String.◌∷◌ d t) (String.◌∷◌ e u) h k = rw (below-cons_cons c e s u) (
    ground (
      arith,
      below_trans s t u,
      sym (below-cons_cons c d s t) ∙ h,
      sym (below-cons_cons d e t u) ∙ k,
    ))

below_asym : (x y : String) → below x y ≡ true → below y x ≡ false
below_asym String.[] String.[] h = below-empty_empty
below_asym String.[] (String.◌∷◌ d t) h = below-cons_empty d t
below_asym (String.◌∷◌ c s) String.[] h = cc (h, below-cons_empty c s)
below_asym (String.◌∷◌ c s) (String.◌∷◌ d t) h =
    rw (below-cons_cons d c t s) (ground (arith, below_asym s t, sym (below-cons_cons c d s t) ∙ h))

below_total : (x y : String) → below x y ≡ false → below y x ≡ false → x ≡ y
below_total String.[] String.[] h k = refl
below_total String.[] (String.◌∷◌ d t) h k = cc (h, below-empty_cons d t)
below_total (String.◌∷◌ c s) String.[] h k = cc (k, below-empty_cons c s)
below_total (String.◌∷◌ c s) (String.◌∷◌ d t) h k =
    let (letter, first, second) : (compare_ℕ (code c) (code d) ≡ Ordering.eq)
        × (below s t ≡ false)
        × (below t s ≡ false) =
      ground (arith, sym (below-cons_cons c d s t) ∙ h, sym (below-cons_cons d c t s) ∙ k) in
    λ i. String.◌∷◌ (codes_equal c d letter i) (below_total s t first second i)

order : (x y : String) → (x ≡ y) ⊎ ((below x y ≡ true) ⊎ (below y x ≡ true))
order x y = elim (Bool-cases (below x y)) [
  | inl first ↦ inr (inl first)
  | inr later ↦ elim (Bool-cases (below y x)) [
    | inl first ↦ inr (inr first)
    | inr neither ↦ inl (below_total x y later neither)
  ]
]

insert_sorted_swap :
    (x y : String) (l : List String)
    → insert_sorted x (insert_sorted y l) ≡ insert_sorted y (insert_sorted x l)
unfolding insert_sorted
insert_sorted_swap x y [] = elim (order x y) [
  | inl same ↦ λ i. insert_sorted (same i) (insert_sorted (sym same i) [])
  | inr (inl first) ↦ ground (arith, below_asym x y first, first)
  | inr (inr first) ↦ ground (arith, below_asym y x first, first)
]
insert_sorted_swap x y (z ∷ l) = elim (order x y) [
  | inl same ↦ λ i. insert_sorted (same i) (insert_sorted (sym same i) (z ∷ l))
  | inr (inl first) ↦ ground (
    arith,
    below_asym x y first,
    first,
    below_trans z x y,
    below_asym x z,
    below_asym y z,
    insert_sorted_swap x y l,
  )
  | inr (inr first) ↦ ground (
    arith,
    below_asym y x first,
    first,
    below_trans z y x,
    below_asym x z,
    below_asym y z,
    insert_sorted_swap x y l,
  )
]

pub sort_perm : {l m : List String} → Permᴰ l m → sort l ≡ sort m
unfolding sort
sort_perm Permᴰ.nil = refl
sort_perm (Permᴰ.cons {l₁ = l} e p) = λ i. insert_sorted (e i) (sort_perm p i)
sort_perm (Permᴰ.swap {a = a} {b = b} {l = l} e e') =
    insert_sorted_swap a b (sort l) ∙ (λ i. insert_sorted (e' i) (insert_sorted (e i) (sort l)))
sort_perm (Permᴰ.trans p q) = sort_perm p ∙ sort_perm q
