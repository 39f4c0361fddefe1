-- ===== src/Card/ChainBuilder/Pool.antt =====
-- The constructor of src/card/base/asn1/ChainBuilder.h: the chains of a whole pool.
use ausweisapp2_android_sdk.Base.{
  suc, Bool, true, List, [], ◌∷◌, some, ◌≡◌, refl, sym, ◌⊎◌, inl, inr, ◌↔◌, if◌then◌else◌, length,
  arith, Bool-cases,
}
use ausweisapp2_android_sdk.Card.ChainBuilder.{
  contains, is_sub_chain, build_chain, build_from, build_chains,
}
use ausweisapp2_android_sdk.Card.ChainBuilder.Ordered.{
  In, All, All-In_self, IsOrdered, IsChain, unused-le-length,
}
use ausweisapp2_android_sdk.Card.ChainBuilder.{search_in, starts_with}
use ausweisapp2_android_sdk.Card.ChainBuilder.Build.{
  IsBuilt, IsBuilt-trans, IsBuilt-refl, build_chain_lem,
}

module _ {A : Type 0} where
  abbrev pub Any : (A → Type 0) → List A → Type 0
  Any P [] = ⊥
  Any P (x ∷ rest) = P x ⊎ Any P rest

module _ {A : Type 0} (same is_child : A → A → Bool)
    (same_iff : (x y : A) → (same x y ≡ true) ↔ (x ≡ y)) where
  search_in-one :
      (chain : List A) (elem : A) → search_in same is_child chain (elem ∷ []) ≡ true → In elem chain
  unfolding search_in starts_with
  search_in-one [] elem h = ground arith
  search_in-one (x ∷ chain) elem h = elim (Bool-cases (same x elem)) [
    | inl e ↦ inl (sym ((same_iff x elem).0 e))
    | inr e ↦ inr (search_in-one chain elem (ground arith))
  ]

  is_sub_chain-one :
      (chains : List (List A)) (elem : A)
      → is_sub_chain same is_child chains (elem ∷ []) ≡ true
      → Any (λ chain. In elem chain) chains
  unfolding is_sub_chain
  is_sub_chain-one [] elem h = ground arith
  is_sub_chain-one (chain ∷ chains) elem h =
      elim (Bool-cases (search_in same is_child chain (elem ∷ []))) [
        | inl e ↦ inl (search_in-one chain elem e)
        | inr e ↦ inr (is_sub_chain-one chains elem (ground arith))
      ]

  covered :
      (chains : List (List A)) (elems : List A)
      → All (λ elem. is_sub_chain same is_child chains (elem ∷ []) ≡ true) elems
      → All (λ elem. Any (λ chain. In elem chain) chains) elems
  covered chains [] h = tt
  covered chains (elem ∷ elems) h = (is_sub_chain-one chains elem h.0, covered chains elems h.1)

  alone : (all : List A) (elem : A) → In elem all → IsOrdered same is_child all (elem ∷ [])
  unfolding contains
  alone all elem found = record {
    begins = (elem, [], refl);
    linked = tt;
    distinct = (refl, tt);
    within = (found, tt);
  }

  module _ (all : List A) where
    chain_of :
        (elem : A) (chains : List (List A))
        → In elem all
        → All (IsChain same is_child all) chains
        → (after : List (List A)) × ((if is_sub_chain same is_child chains (elem ∷ [])
              then some chains
              else build_chain same is_child (suc (length all)) all (elem ∷ []) chains)
            ≡ some after)
          × IsBuilt same is_child same_iff all chains after
          × (is_sub_chain same is_child after (elem ∷ []) ≡ true)
    chain_of elem chains found good =
        elim (Bool-cases (is_sub_chain same is_child chains (elem ∷ []))) [
          | inl old ↦
              (chains, rw old refl, IsBuilt-refl same is_child same_iff all chains good, old)
          | inr new ↦
              (let (after, e, b, s) =
                  build_chain_lem same is_child same_iff all (suc (length all)) (elem ∷ []) chains
                    (omega (arith, unused-le-length same is_child (elem ∷ []) all))
                    (alone all elem found) good in
                (after, rw new e, b, s))
        ]

    build_from_lem :
        (elems : List A) (chains : List (List A))
        → All (λ elem. In elem all) elems
        → All (IsChain same is_child all) chains
        → (after : List (List A)) × (build_from same is_child all elems chains ≡ some after)
          × IsBuilt same is_child same_iff all chains after
          × All (λ elem. is_sub_chain same is_child after (elem ∷ []) ≡ true) elems
    unfolding build_from
    build_from_lem [] chains found good =
        (chains, refl, IsBuilt-refl same is_child same_iff all chains good, tt)
    build_from_lem (elem ∷ elems) chains found good =
        let (after, e, b, s) = chain_of elem chains found.0 good in
        let (after', e', b', s') = build_from_lem elems after found.1 b.chains in
        (
          after',
          rw (e, build_from) e',
          IsBuilt-trans same is_child same_iff all chains after after' b b',
          (b'.grown (elem ∷ []) s, s'),
        )

    -- Where the equality test decides equality, the builder ends for every pool and every
    -- relation of child and parent, cycles included: each chain is in the order of the relation,
    -- repeats no element, has elements of the pool only and can be extended by no further element
    -- of the pool at either end, and each element of the pool is in some chain.
    pub build_chains_lem :
        (chains : List (List A)) × (build_chains same is_child all ≡ some chains)
        × All (IsChain same is_child all) chains
        × All (λ elem. Any (λ chain. In elem chain) chains) all
    build_chains_lem =
        let (chains, e, b, s) = build_from_lem all [] (All-In_self all) tt in
        (chains, unfold build_chains in e, b.chains, covered chains all s)
