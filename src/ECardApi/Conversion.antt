-- ===== src/ECardApi/Conversion.antt =====
-- The conversion maps of src/global/ECardApiResult.cpp and the first elements of their keys.
use ausweisapp2_android_sdk.Base.{
  ◌==◌, if◌then◌else◌, ==_iff, Bool-cases, Option-cases, ℕ, ◌≡◌, refl, sym, ap, ◌∙◌, inl, inr,
  Option, none, some, List, [], ◌∷◌,
}
use ausweisapp2_android_sdk.Status.{Code, unknown_error}
use ausweisapp2_android_sdk.ECardApi.Minor.{Minor, al_unknown_error, code_value, minor_value}
use ausweisapp2_android_sdk.ECardApi.Maps.{
  lookup, contains, insert, Maps, add_conversion_element, elements, add_all, init_conversion_maps,
  from_status, to_status,
}

abbrev or_else {ℓ} : {A : Type ℓ} → Option A → Option A → Option A
or_else none y = y
or_else (some x) y = some x

module _ {ℓ ℓ'} {K : Type ℓ} {A : Type ℓ'} (value : K → ℕ) where
  lookup-same :
      (k k' : K) (entries : List (K × A))
      → value k ≡ value k'
      → lookup value k entries ≡ lookup value k' entries
  unfolding lookup
  lookup-same k k' [] e = refl
  lookup-same k k' ((c, a) ∷ entries) e = rw (e, lookup-same k k' entries e) refl

  or_else-none : (o : Option A) → or_else o none ≡ o
  or_else-none none = refl
  or_else-none (some x) = refl

  abbrev matching : K → K → A → Option A
  matching k c a = if value c == value k then some a else none

  lookup-absent :
      (k c : K) (a : A) (entries : List (K × A))
      → lookup value c entries ≡ none
      → lookup value k ((c, a) ∷ entries) ≡ or_else (lookup value k entries) (matching k c a)
  unfolding lookup
  lookup-absent k c a entries e = elim (Bool-cases (value c == value k)) [
    | inl q ↦
        (let missing = lookup-same k c entries (sym ((==_iff (value c) (value k)).0 q)) ∙ e in
          rw (q, missing) refl)
    | inr q ↦ rw q (sym (or_else-none (lookup value k entries)))
  ]

  lookup-present :
      (k c : K) (a b : A) (entries : List (K × A))
      → lookup value c entries ≡ some b
      → lookup value k entries ≡ or_else (lookup value k entries) (matching k c a)
  lookup-present k c a b entries e = elim (Bool-cases (value c == value k)) [
    | inl q ↦
        (let found = lookup-same k c entries (sym ((==_iff (value c) (value k)).0 q)) ∙ e in
          rw (found) refl)
    | inr q ↦ rw q (sym (or_else-none (lookup value k entries)))
  ]

  pub lookup-insert :
      (k c : K) (a : A) (entries : List (K × A))
      → lookup value k (insert value c a entries)
        ≡ or_else (lookup value k entries) (matching k c a)
  unfolding insert contains
  lookup-insert k c a entries = elim (Option-cases (lookup value c entries)) [
    | inl e ↦ rw (e, insert, contains) (lookup-absent k c a entries e)
    | inr (b, e) ↦ rw (e, insert, contains) (lookup-present k c a b entries e)
  ]

  or_else_assoc : (x y z : Option A) → or_else (or_else x y) z ≡ or_else x (or_else y z)
  or_else_assoc none y z = refl
  or_else_assoc (some x) y z = refl

  or_else-lookup :
      (k c : K) (a : A) (entries : List (K × A))
      → or_else (matching k c a) (lookup value k entries) ≡ lookup value k ((c, a) ∷ entries)
  unfolding lookup
  or_else-lookup k c a entries = elim (Bool-cases (value c == value k)) [
    | inl q ↦ rw q refl
    | inr q ↦ rw q refl
  ]

  -- One more element behind those that the map has.
  pub lookup-insert_rest :
      (k c : K) (a : A) (entries rest : List (K × A))
      → or_else (lookup value k (insert value c a entries)) (lookup value k rest)
        ≡ or_else (lookup value k entries) (lookup value k ((c, a) ∷ rest))
  lookup-insert_rest k c a entries rest =
      ap (λ o. or_else o (lookup value k rest)) (lookup-insert k c a entries)
      ∙ or_else_assoc (lookup value k entries) (matching k c a) (lookup value k rest)
      ∙ ap (λ o. or_else (lookup value k entries) o) (or_else-lookup k c a rest)

unfoldable pub flip : List (Code × Minor) → List (Minor × Code)
flip [] = []
flip ((c, m) ∷ rest) = (m, c) ∷ flip rest

add_all-codes :
    (c : Code) (rest : List (Code × Minor)) (maps : Maps)
    → lookup code_value c (add_all rest maps).0
      ≡ or_else (lookup code_value c maps.0) (lookup code_value c rest)
unfolding add_all add_conversion_element
add_all-codes c [] maps =
    unfold lookup in sym (or_else-none code_value (lookup code_value c maps.0))
add_all-codes c ((d, m) ∷ rest) maps =
    add_all-codes c rest (add_conversion_element d m maps)
    ∙ lookup-insert_rest code_value c d m maps.0 rest

add_all-minors :
    (m : Minor) (rest : List (Code × Minor)) (maps : Maps)
    → lookup minor_value m (add_all rest maps).1
      ≡ or_else (lookup minor_value m maps.1) (lookup minor_value m (flip rest))
unfolding add_all add_conversion_element flip
add_all-minors m [] maps =
    unfold lookup in sym (or_else-none minor_value (lookup minor_value m maps.1))
add_all-minors m ((c, n) ∷ rest) maps =
    add_all-minors m rest (add_conversion_element c n maps)
    ∙ lookup-insert_rest minor_value m n c maps.1 (flip rest)

-- The map that the insertions build gives a code what its first element in the list says.
pub first_minor :
    (c : Code) → lookup code_value c init_conversion_maps.0 ≡ lookup code_value c elements
unfolding init_conversion_maps lookup
first_minor c = add_all-codes c elements ([], [])

-- The first element of a minor result counts.
pub first_code :
    (m : Minor) → lookup minor_value m init_conversion_maps.1 ≡ lookup minor_value m (flip elements)
unfolding init_conversion_maps lookup
first_code m = add_all-minors m elements ([], [])

-- What the list of elements says.
unfoldable pub first_minor_of : Code → Minor
unfolding lookup elements code_value
first_minor_of c = elim (lookup code_value c elements) [ none ↦ al_unknown_error | some m ↦ m ]

unfoldable pub first_code_of : Minor → Code
unfolding lookup elements minor_value flip
first_code_of m = elim (lookup minor_value m (flip elements)) [ none ↦ unknown_error | some c ↦ c ]

pub from_status_first : (c : Code) → from_status c ≡ first_minor_of c
unfolding from_status first_minor_of
from_status_first c =
    ap (λ (o : Option Minor). elim o as (λ _. Minor) [ none ↦ al_unknown_error | some m ↦ m ])
      (first_minor c)

pub to_status_first : (m : Minor) → to_status m ≡ first_code_of m
unfolding to_status first_code_of
to_status_first m =
    ap (λ (o : Option Code). elim o as (λ _. Code) [ none ↦ unknown_error | some c ↦ c ])
      (first_code m)
