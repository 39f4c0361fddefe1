-- ===== src/Card/ChainBuilder/Build.antt =====
-- buildChain of src/card/base/asn1/ChainBuilder.h: what it adds, and that the recursion ends.
use ausweisapp2_android_sdk.Base.{
  ℕ, zero, suc, ◌<◌, Bool, true, false, List, [], ◌∷◌, ◌++◌, Option, some, ◌≡◌, refl, ◌∙◌, inl, inr,
  ◌↔◌, arith, Bool-cases,
}
use ausweisapp2_android_sdk.Card.ChainBuilder.{
  contains, is_child_of_last, is_parent_of_first, is_sub_chain, try_element, try_elements, finish,
  build_chain,
}
use ausweisapp2_android_sdk.Card.ChainBuilder.SubChain.{
  is_sub_chain-prefix, is_sub_chain-tail, is_sub_chain-append, is_sub_chain_self,
}
use ausweisapp2_android_sdk.Card.ChainBuilder.Ordered.{
  In, All, All-append, All-In_self, IsOrdered, IsBarred, IsChain, unused, IsOrdered-last,
  IsOrdered-first, unused-last, unused-first,
}

module _ {A : Type 0} (same is_child : A → A → Bool)
    (same_iff : (x y : A) → (same x y ≡ true) ↔ (x ≡ y)) (all : List A) where
  abbrev pub is_sub : List (List A) → List A → Bool
  is_sub = is_sub_chain same is_child

  abbrev pub Chains : List (List A) → Type 0
  Chains = All (IsChain same is_child all)

  pub record IsBuilt (before after : List (List A)) : Type 0 where
    pub grown : (sub : List A) → is_sub before sub ≡ true → is_sub after sub ≡ true
    pub chains : Chains after

  pub IsBuilt-trans : (a b c : List (List A)) → IsBuilt a b → IsBuilt b c → IsBuilt a c
  IsBuilt-trans a b c h k = record {
    grown = λ sub s. k.grown sub (h.grown sub s);
    chains = k.chains;
  }

  pub IsBuilt-refl : (a : List (List A)) → Chains a → IsBuilt a a
  IsBuilt-refl a h = record { grown = λ sub s. s; chains = h }

  -- What the recursive call does on longer chains.
  abbrev pub Builds : (List A → List (List A) → Option (List (List A))) → ℕ → Type 0
  Builds build fuel =
      (chain : List A) (chains : List (List A))
      → unused same is_child chain all < fuel
      → IsOrdered same is_child all chain
      → Chains chains
      → (after : List (List A)) × (build chain chains ≡ some after)
        × IsBuilt chains after
        × (is_sub after chain ≡ true)

  module _ (build : List A → List (List A) → Option (List (List A))) (fuel : ℕ)
      (builds : Builds build fuel) (chain : List A) (o : IsOrdered same is_child all chain)
      (enough : unused same is_child chain all < suc fuel) where
    record IsTried (elems : List A) (p p' : List (List A) × Bool) : Type 0 where
      built : IsBuilt p.0 p'.0
      still : p'.1 ≡ true → p.1 ≡ true
      barred : p'.1 ≡ true → All (IsBarred same is_child chain) elems
      covered : p'.1 ≡ false → is_sub p'.0 chain ≡ true

    abbrev IsGood : List (List A) × Bool → Type 0
    IsGood p = Chains p.0 × (p.1 ≡ false → is_sub p.0 chain ≡ true)

    passed :
        (elem : A) (p : List (List A) × Bool)
        → IsGood p
        → IsBarred same is_child chain elem
        → IsTried (elem ∷ []) p p
    passed elem p good b = record {
      built = IsBuilt-refl p.0 good.0;
      still = λ h. h;
      barred = λ h. (b, tt);
      covered = good.1;
    }

    added :
        (elem : A) (p : List (List A) × Bool) (after : List (List A))
        → IsBuilt p.0 after
        → is_sub after chain ≡ true
        → IsTried (elem ∷ []) p (after, false)
    added elem p after b s = record {
      built = b;
      still = λ h. absurd (ground arith);
      barred = λ h. absurd (ground arith);
      covered = λ h. s;
    }

    covers_chain :
        (elem : A) (after : List (List A))
        → is_sub after (elem ∷ chain) ≡ true
        → is_sub after chain ≡ true
    covers_chain elem after h =
        let (x, rest, e) = o.begins in
        rw e (is_sub_chain-tail same is_child after elem x rest (rw e at h))

    try_element_lem :
        (elem : A) (p : List (List A) × Bool)
        → In elem all
        → IsGood p
        → (p' : List (List A) × Bool) × (try_element same is_child build chain elem p ≡ some p')
          × IsTried (elem ∷ []) p p'
    unfolding try_element
    try_element_lem elem (chains, complete) found good =
        elim (Bool-cases (contains same is_child chain elem)) [
          | inl old ↦
              ((chains, complete), rw old refl, passed elem (chains, complete) good (inl old))
          | inr new ↦ elim (Bool-cases (is_child_of_last same is_child elem chain)) [
            | inl child ↦
                (let (after, e, b, s) =
                    builds (chain ++ elem ∷ []) chains
                      (omega (arith, unused-last same is_child same_iff all chain elem new found))
                      (IsOrdered-last same is_child same_iff all chain elem o found new child)
                      good.0 in
                  (
                    (after, false),
                    rw (new, child, e) refl,
                    added elem (chains, complete) after b
                        (is_sub_chain-prefix same is_child after chain (elem ∷ []) s),
                  ))
            | inr no_child ↦ elim (Bool-cases (is_parent_of_first same is_child elem chain)) [
              | inl parent ↦
                  (let (after, e, b, s) =
                      builds (elem ∷ chain) chains
                        (omega
                          (arith, unused-first same is_child same_iff all chain elem new found))
                        (IsOrdered-first same is_child same_iff all chain elem o found new parent)
                        good.0 in
                    (
                      (after, false),
                      rw (new, no_child, parent, e) refl,
                      added elem (chains, complete) after b (covers_chain elem after s),
                    ))
              | inr no_parent ↦ (
                (chains, complete),
                rw (new, no_child, no_parent) refl,
                passed elem (chains, complete) good (inr (no_child, no_parent)),
              )
            ]
          ]
        ]

    try_elements_lem :
        (elems : List A) (p : List (List A) × Bool)
        → All (λ elem. In elem all) elems
        → IsGood p
        → (p' : List (List A) × Bool) × (try_elements same is_child build chain elems p ≡ some p')
          × IsTried elems p p'
    unfolding try_elements
    try_elements_lem [] p found good = (
      p,
      refl,
      record {
        built = IsBuilt-refl p.0 good.0;
        still = λ h. h;
        barred = λ h. tt;
        covered = good.1;
      },
    )
    try_elements_lem (elem ∷ elems) p found good =
        let (p', e, t) = try_element_lem elem p found.0 good in
        let (p'', e', t') = try_elements_lem elems p' found.1 (t.built.chains, t.covered) in
        (
          p'',
          rw (e, try_elements) e',
          record {
            built = IsBuilt-trans p.0 p'.0 p''.0 t.built t'.built;
            still = λ h. t.still (t'.still h);
            barred = λ h. ((t.barred (t'.still h)).0, t'.barred h);
            covered = t'.covered;
          },
        )

  finish_lem :
      (chain : List A) (before : List (List A)) (p : List (List A) × Bool)
      → IsOrdered same is_child all chain
      → IsBuilt before p.0
      → (p.1 ≡ true → All (IsBarred same is_child chain) all)
      → (p.1 ≡ false → is_sub p.0 chain ≡ true)
      → (after : List (List A)) × (finish same is_child chain (some p) ≡ some after)
        × IsBuilt before after
        × (is_sub after chain ≡ true)
  unfolding finish
  finish_lem chain before (chains, false) o b barred covered = (chains, refl, b, covered refl)
  finish_lem chain before (chains, true) o b barred covered =
      elim (Bool-cases (is_sub chains chain)) [
        | inl old ↦ (chains, rw old refl, b, old)
        | inr new ↦
            (let (x, rest, e) = o.begins in
              let append = is_sub_chain-append same is_child chains (chain ∷ []) in
              let self = is_sub_chain_self same is_child (λ y. (same_iff y y).1 refl) x rest in
              (
                chains ++ chain ∷ [],
                rw new refl,
                record {
                  grown = λ sub h. append sub ∙ ground (arith, b.grown sub h);
                  chains =
                      All-append (IsChain same is_child all) chains (chain ∷ []) b.chains
                        (record { ordered = o; maximal = barred refl }, tt);
                },
                append chain ∙ ground (arith, rw (← e) at self),
              ))
      ]

  pub build_chain_lem : (fuel : ℕ) → Builds (build_chain same is_child fuel all) fuel
  unfolding build_chain
  build_chain_lem zero chain chains enough o good = absurd (omega arith)
  build_chain_lem (suc fuel) chain chains enough o good =
      let build = build_chain same is_child fuel all in
      let (p, e, t) =
        try_elements_lem build fuel (build_chain_lem fuel) chain o enough all (chains, true)
          (All-In_self all) (good, λ h. absurd (ground arith)) in
      let (after, e', b, s) = finish_lem chain chains p o t.built t.barred t.covered in
      (after, rw (e, build_chain) e', b, s)
