-- ===== src/Card/ChainBuilder.antt =====
-- src/card/base/asn1/ChainBuilder.h: the chains that a pool of elements makes up. The type of the
-- elements, its `==` and the function that tells a child of a parent are parameters, as they are
-- in the source. `buildChain` calls itself with a longer chain; its depth is the fuel, and `none`
-- means that the fuel has run out.
use ausweisapp2_android_sdk.Base.{
  ℕ, zero, suc, Bool, true, false, not, ◌&&◌, ◌||◌, List, [], ◌∷◌, ◌++◌, Option, none, some,
  if◌then◌else◌, length,
}
pub mod Ordered
pub mod SubChain
pub mod Build
pub mod Pool

module _ {ℓ} {A : Type ℓ} where
  abbrev pub first : List A → Option A
  first [] = none
  first (x ∷ rest) = some x

  abbrev pub last : List A → Option A
  last [] = none
  last (x ∷ []) = some x
  last (x ∷ y ∷ rest) = last (y ∷ rest)

module _ {ℓ} {A : Type ℓ} (same is_child : A → A → Bool) where
  -- QVector::contains.
  unfoldable pub contains : List A → A → Bool
  contains [] elem = false
  contains (x ∷ rest) elem = same x elem || contains rest elem

  unfoldable pub is_child_of_last : A → List A → Bool
  is_child_of_last elem chain = elim (last chain) [ none ↦ false | some l ↦ is_child elem l ]

  unfoldable pub is_parent_of_first : A → List A → Bool
  is_parent_of_first elem chain = elim (first chain) [ none ↦ false | some f ↦ is_child f elem ]

  unfoldable pub starts_with : List A → List A → Bool
  starts_with chain [] = true
  starts_with [] (y ∷ sub) = false
  starts_with (x ∷ chain) (y ∷ sub) = same x y && starts_with chain sub

  -- std::search finds the sub chain before the end.
  unfoldable pub search_in : List A → List A → Bool
  unfolding starts_with
  search_in [] sub = false
  search_in (x ∷ chain) sub = starts_with (x ∷ chain) sub || search_in chain sub

  unfoldable pub is_sub_chain : List (List A) → List A → Bool
  unfolding search_in
  is_sub_chain [] sub = false
  is_sub_chain (chain ∷ chains) sub = search_in chain sub || is_sub_chain chains sub

  -- `mChains`, and `chainComplete`.
  abbrev pub Progress : Type ℓ
  Progress = List (List A) × Bool

  abbrev pub incomplete : Option (List (List A)) → Option Progress
  incomplete none = none
  incomplete (some chains) = some (chains, false)

  -- The loop's body, with the recursive call given.
  unfoldable pub try_element :
      (List A → List (List A) → Option (List (List A))) → List A → A → Progress → Option Progress
  unfolding contains is_child_of_last is_parent_of_first
  try_element build chain elem (chains, complete) =
      if contains chain elem
      then some (chains, complete)
      else if is_child_of_last elem chain
      then incomplete (build (chain ++ elem ∷ []) chains)
      else if is_parent_of_first elem chain
      then incomplete (build (elem ∷ chain) chains)
      else some (chains, complete)

  unfoldable pub try_elements :
      (List A → List (List A) → Option (List (List A)))
      → List A
      → List A
      → Progress
      → Option Progress
  unfolding try_element
  try_elements build chain [] p = some p
  try_elements build chain (elem ∷ elems) p = elim (try_element build chain elem p) [
    | none ↦ none
    | some p' ↦ try_elements build chain elems p'
  ]

  unfoldable pub finish : List A → Option Progress → Option (List (List A))
  unfolding is_sub_chain
  finish chain none = none
  finish chain (some (chains, complete)) =
      some (if complete && not (is_sub_chain chains chain) then chains ++ chain ∷ [] else chains)

  unfoldable pub build_chain : ℕ → List A → List A → List (List A) → Option (List (List A))
  unfolding try_elements finish
  build_chain zero all chain chains = none
  build_chain (suc fuel) all chain chains =
      finish chain (try_elements (build_chain fuel all) chain all (chains, true))

  -- The constructor's loop.
  unfoldable pub build_from : List A → List A → List (List A) → Option (List (List A))
  unfolding build_chain is_sub_chain
  build_from all [] chains = some chains
  build_from all (elem ∷ elems) chains =
      elim (if is_sub_chain chains (elem ∷ [])
        then some chains
        else build_chain (suc (length all)) all (elem ∷ []) chains) [
          | none ↦ none
          | some chains' ↦ build_from all elems chains'
        ]

  unfoldable pub build_chains : List A → Option (List (List A))
  unfolding build_from
  build_chains all = build_from all all []
