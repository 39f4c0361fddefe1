-- ===== src/Card/Certificates/SubChain.antt =====
-- The valid part of one chain that src/card/base/asn1/CVCertificateChainBuilder.cpp looks for.
use ausweisapp2_android_sdk.Base.{
  Bool-cases, ◌≡◌, refl, sym, ap, ◌∙◌, ◌≢◌, inl, inr, Bool, true, false, ◌&&◌, Option, none, some,
  List, [], ◌∷◌, ◌++◌, arith,
}
use ausweisapp2_android_sdk.Card.Certificates.{Cvc, is_valid, new_chain, find_sub_chain}

unfoldable pub starts_chain : (Cvc → Bool) → Cvc → List Cvc → Bool
starts_chain wanted c cvcs = wanted c && is_valid (c ∷ cvcs)

new_chain_valid : (cvcs : List Cvc) → is_valid cvcs ≡ true → new_chain cvcs ≡ cvcs
unfolding new_chain
new_chain_valid cvcs v = rw v refl

pub new_chain_invalid : (cvcs : List Cvc) → is_valid cvcs ≡ false → new_chain cvcs ≡ []
unfolding new_chain
new_chain_invalid cvcs v = rw v refl

pub nothing_is_invalid : is_valid [] ≡ false
unfolding is_valid
nothing_is_invalid = refl

pub is_valid-new_chain : (cvcs : List Cvc) → is_valid (new_chain cvcs) ≡ is_valid cvcs
is_valid-new_chain cvcs = elim (Bool-cases (is_valid cvcs)) [
  | inl v ↦ ap is_valid (new_chain_valid cvcs v)
  | inr v ↦ ap is_valid (new_chain_invalid cvcs v) ∙ nothing_is_invalid ∙ sym v
]

module _ (wanted : Cvc → Bool) where
  pub starts_chain_valid :
      (c : Cvc) (cvcs : List Cvc) → starts_chain wanted c cvcs ≡ true → is_valid (c ∷ cvcs) ≡ true
  unfolding starts_chain
  starts_chain_valid c cvcs h = ground arith

  find_sub_chain_here :
      (c : Cvc) (cvcs : List Cvc)
      → starts_chain wanted c cvcs ≡ true
      → find_sub_chain wanted (c ∷ cvcs) ≡ some (c ∷ cvcs)
  unfolding find_sub_chain starts_chain
  find_sub_chain_here c cvcs h =
      let w : wanted c ≡ true = ground arith in
      let v : is_valid (c ∷ cvcs) ≡ true = ground arith in
      rw (w, is_valid-new_chain (c ∷ cvcs), v) refl

  find_sub_chain_later :
      (c : Cvc) (cvcs : List Cvc)
      → starts_chain wanted c cvcs ≡ false
      → find_sub_chain wanted (c ∷ cvcs) ≡ find_sub_chain wanted cvcs
  unfolding find_sub_chain starts_chain
  find_sub_chain_later c cvcs h = elim (Bool-cases (wanted c)) [
    | inl w ↦
        (let v : is_valid (c ∷ cvcs) ≡ false = ground arith in
          rw (w, is_valid-new_chain (c ∷ cvcs), v) refl)
    | inr w ↦ rw w refl
  ]

  -- Within one chain.
  abbrev pub Part : List Cvc → List Cvc → Type 0
  Part cvcs found =
      (before : List Cvc) × (root : Cvc) × (rest : List Cvc) × (cvcs ≡ before ++ found)
      × (found ≡ root ∷ rest)
      × (starts_chain wanted root rest ≡ true)

  pub find_sub_chain_sound :
      (cvcs found : List Cvc) → find_sub_chain wanted cvcs ≡ some found → Part cvcs found
  find_sub_chain_sound [] found e = absurd (unfold find_sub_chain in ground arith)
  find_sub_chain_sound (c ∷ cvcs) found e = elim (Bool-cases (starts_chain wanted c cvcs)) [
    | inl h ↦
        (let same : c ∷ cvcs ≡ found =
            ap
              (λ (o : Option (List Cvc)). elim o as (λ _. List Cvc) [
                | none ↦ c ∷ cvcs
                | some x ↦ x
              ])
              (sym (find_sub_chain_here c cvcs h) ∙ e) in
          ([], c, cvcs, same, sym same, h))
    | inr h ↦
        (let (before, root, rest, split, starts, fits) =
            find_sub_chain_sound cvcs found (sym (find_sub_chain_later c cvcs h) ∙ e) in
          (c ∷ before, root, rest, ap (λ l. c ∷ l) split, starts, fits))
  ]

  pub find_sub_chain_complete :
      (before : List Cvc) (root : Cvc) (rest : List Cvc)
      → starts_chain wanted root rest ≡ true
      → find_sub_chain wanted (before ++ root ∷ rest) ≢ none
  find_sub_chain_complete [] root rest h e = ground (arith, find_sub_chain_here root rest h)
  find_sub_chain_complete (c ∷ before) root rest h e =
      elim (Bool-cases (starts_chain wanted c (before ++ root ∷ rest))) [
        | inl k ↦ ground (arith, find_sub_chain_here c (before ++ root ∷ rest) k)
        | inr k ↦
            find_sub_chain_complete before root rest h
              (sym (find_sub_chain_later c (before ++ root ∷ rest) k) ∙ e)
      ]

  pub find_sub_chain_valid :
      (cvcs found : List Cvc) → find_sub_chain wanted cvcs ≡ some found → is_valid found ≡ true
  find_sub_chain_valid cvcs found e =
      let (before, root, rest, split, starts, fits) = find_sub_chain_sound cvcs found e in
      rw starts (starts_chain_valid root rest fits)
