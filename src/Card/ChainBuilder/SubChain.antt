-- ===== src/Card/ChainBuilder/SubChain.antt =====
-- What isSubChain of src/card/base/asn1/ChainBuilder.h finds.
use ausweisapp2_android_sdk.Base.{Bool, true, ◌||◌, List, [], ◌∷◌, ◌++◌, ◌≡◌, refl, arith}
use ausweisapp2_android_sdk.Card.ChainBuilder.{starts_with, search_in, is_sub_chain}

module _ {ℓ} {A : Type ℓ} (same is_child : A → A → Bool) where
  starts_with-prefix :
      (chain sub more : List A)
      → starts_with same is_child chain (sub ++ more) ≡ true
      → starts_with same is_child chain sub ≡ true
  unfolding starts_with
  starts_with-prefix chain [] more h = refl
  starts_with-prefix [] (y ∷ sub) more h = ground arith
  starts_with-prefix (x ∷ chain) (y ∷ sub) more h =
      ground (arith, starts_with-prefix chain sub more)

  search_in-prefix :
      (chain sub more : List A)
      → search_in same is_child chain (sub ++ more) ≡ true
      → search_in same is_child chain sub ≡ true
  unfolding search_in
  search_in-prefix [] sub more h = ground arith
  search_in-prefix (x ∷ chain) sub more h =
      ground (arith, starts_with-prefix (x ∷ chain) sub more, search_in-prefix chain sub more)

  search_in-starts_with :
      (chain : List A) (y : A) (sub : List A)
      → starts_with same is_child chain (y ∷ sub) ≡ true
      → search_in same is_child chain (y ∷ sub) ≡ true
  unfolding search_in
  search_in-starts_with [] y sub h = ground arith
  search_in-starts_with (x ∷ chain) y sub h = ground arith

  search_in-tail :
      (chain : List A) (elem y : A) (sub : List A)
      → search_in same is_child chain (elem ∷ y ∷ sub) ≡ true
      → search_in same is_child chain (y ∷ sub) ≡ true
  unfolding search_in starts_with
  search_in-tail [] elem y sub h = ground arith
  search_in-tail (x ∷ chain) elem y sub h =
      ground (arith, search_in-starts_with chain y sub, search_in-tail chain elem y sub)

  pub is_sub_chain-prefix :
      (chains : List (List A)) (sub more : List A)
      → is_sub_chain same is_child chains (sub ++ more) ≡ true
      → is_sub_chain same is_child chains sub ≡ true
  unfolding is_sub_chain
  is_sub_chain-prefix [] sub more h = ground arith
  is_sub_chain-prefix (chain ∷ chains) sub more h =
      ground (arith, search_in-prefix chain sub more, is_sub_chain-prefix chains sub more)

  pub is_sub_chain-tail :
      (chains : List (List A)) (elem y : A) (sub : List A)
      → is_sub_chain same is_child chains (elem ∷ y ∷ sub) ≡ true
      → is_sub_chain same is_child chains (y ∷ sub) ≡ true
  unfolding is_sub_chain
  is_sub_chain-tail [] elem y sub h = ground arith
  is_sub_chain-tail (chain ∷ chains) elem y sub h =
      ground (arith, search_in-tail chain elem y sub, is_sub_chain-tail chains elem y sub)

  pub is_sub_chain-append :
      (chains more : List (List A)) (sub : List A)
      → is_sub_chain same is_child (chains ++ more) sub
        ≡ (is_sub_chain same is_child chains sub || is_sub_chain same is_child more sub)
  unfolding is_sub_chain
  is_sub_chain-append [] more sub = refl
  is_sub_chain-append (chain ∷ chains) more sub =
      ground (arith, is_sub_chain-append chains more sub)

  module _ (same_refl : (x : A) → same x x ≡ true) where
    starts_with_self : (chain : List A) → starts_with same is_child chain chain ≡ true
    unfolding starts_with
    starts_with_self [] = refl
    starts_with_self (x ∷ chain) = ground (arith, same_refl x, starts_with_self chain)

    pub is_sub_chain_self :
        (x : A) (chain : List A) → is_sub_chain same is_child ((x ∷ chain) ∷ []) (x ∷ chain) ≡ true
    unfolding is_sub_chain search_in
    is_sub_chain_self x chain = ground (arith, starts_with_self (x ∷ chain))
