-- ===== src/Card/Certificates/Selection.antt =====
-- The chain that src/card/base/asn1/CVCertificateChainBuilder.cpp selects for an authority or a root.
use ausweisapp2_android_sdk.Base.{
  Bool-cases, Option-cases, ℕ, ◌≡◌, refl, sym, ap, ◌∙◌, ◌≢◌, ◌⊎◌, inl, inr, Bool, true, false, none,
  some, List, [], ◌∷◌, ◌++◌, arith,
}
use ausweisapp2_android_sdk.Card.Certificates.{
  Cvc, same_cvc, is_valid, find_sub_chain, find_chain, is_issued_under,
  get_chain_for_certification_authority, get_chain_starting_with, get_chain_for_pace_output,
}
use ausweisapp2_android_sdk.Card.Certificates.SubChain.{
  starts_chain, new_chain_invalid, nothing_is_invalid, starts_chain_valid, find_sub_chain_sound,
  find_sub_chain_complete, find_sub_chain_valid,
}

-- A valid part of one of the chains, up to its end, that starts with a wanted certificate.
pub record IsCandidate (wanted : Cvc → Bool) (chains : List (List Cvc)) (chain : List Cvc)
    : Type 0 where
  pub before_chains : List (List Cvc)
  pub behind_chains : List (List Cvc)
  pub before : List Cvc
  pub root : Cvc
  pub rest : List Cvc
  pub among : chains ≡ before_chains ++ (before ++ chain) ∷ behind_chains
  pub starts : chain ≡ root ∷ rest
  pub fits : starts_chain wanted root rest ≡ true

abbrev pub IsWithout : (Cvc → Bool) → List (List Cvc) → Type 0
IsWithout wanted chains = (chain : List Cvc) → ¬ IsCandidate wanted chains chain

module _ (wanted : Cvc → Bool) where
  pub find_chain_found :
      (chain : List Cvc) (chains : List (List Cvc)) (found : List Cvc)
      → find_sub_chain wanted chain ≡ some found
      → find_chain wanted (chain ∷ chains) ≡ found
  unfolding find_chain
  find_chain_found chain chains found e = rw (e, find_chain) refl

  pub find_chain_next :
      (chain : List Cvc) (chains : List (List Cvc))
      → find_sub_chain wanted chain ≡ none
      → find_chain wanted (chain ∷ chains) ≡ find_chain wanted chains
  unfolding find_chain
  find_chain_next chain chains e = rw (e, find_chain) refl

  find_chain_nothing : find_chain wanted [] ≡ []
  unfolding find_chain
  find_chain_nothing = new_chain_invalid [] nothing_is_invalid

  find_chain_sound :
      (chains : List (List Cvc))
      → is_valid (find_chain wanted chains) ≡ true
      → IsCandidate wanted chains (find_chain wanted chains)
  find_chain_sound [] v =
      let empty : is_valid (find_chain wanted []) ≡ false =
        ap is_valid find_chain_nothing ∙ nothing_is_invalid in
      absurd (ground arith)
  find_chain_sound (chain ∷ chains) v = elim (Option-cases (find_sub_chain wanted chain)) [
    | inl e ↦
        (let next = find_chain_next chain chains e in
          let c = find_chain_sound chains (sym (ap is_valid next) ∙ v) in
          rw next (record {
            before_chains = chain ∷ c.before_chains;
            behind_chains = c.behind_chains;
            before = c.before;
            root = c.root;
            rest = c.rest;
            among = ap (λ l. chain ∷ l) c.among;
            starts = c.starts;
            fits = c.fits;
          }))
    | inr (found, e) ↦
        (let (before, root, rest, split, starts, fits) =
            find_sub_chain_sound wanted chain found e in
          rw (find_chain_found chain chains found e) (record {
            before_chains = [];
            behind_chains = chains;
            before = before;
            root = root;
            rest = rest;
            among = ap (λ l. l ∷ chains) split;
            starts = starts;
            fits = fits;
          }))
  ]

  find_chain_among :
      (before_chains : List (List Cvc)) (chain : List Cvc) (behind_chains : List (List Cvc))
      → find_sub_chain wanted chain ≢ none
      → is_valid (find_chain wanted (before_chains ++ chain ∷ behind_chains)) ≡ true
  find_chain_among [] chain behind_chains h = elim (Option-cases (find_sub_chain wanted chain)) [
    | inl e ↦ absurd (h e)
    | inr (found, e) ↦
        ap is_valid (find_chain_found chain behind_chains found e)
        ∙ find_sub_chain_valid wanted chain found e
  ]
  find_chain_among (c ∷ before_chains) chain behind_chains h =
      let chains = before_chains ++ chain ∷ behind_chains in
      elim (Option-cases (find_sub_chain wanted c)) [
        | inl e ↦
            ap is_valid (find_chain_next c chains e)
            ∙ find_chain_among before_chains chain behind_chains h
        | inr (found, e) ↦
            ap is_valid (find_chain_found c chains found e) ∙ find_sub_chain_valid wanted c found e
      ]

  find_chain_complete :
      (chains : List (List Cvc)) (chain : List Cvc)
      → IsCandidate wanted chains chain
      → is_valid (find_chain wanted chains) ≡ true
  find_chain_complete chains chain c =
      rw (c.among, c.starts)
        (find_chain_among c.before_chains (c.before ++ c.root ∷ c.rest) c.behind_chains
          (find_sub_chain_complete wanted c.before c.root c.rest c.fits))

  find_chain_invalid :
      (chains : List (List Cvc))
      → is_valid (find_chain wanted chains) ≡ false
      → find_chain wanted chains ≡ []
  find_chain_invalid [] v = find_chain_nothing
  find_chain_invalid (chain ∷ chains) v = elim (Option-cases (find_sub_chain wanted chain)) [
    | inl e ↦
        (let next = find_chain_next chain chains e in
          next ∙ find_chain_invalid chains (sym (ap is_valid next) ∙ v))
    | inr (found, e) ↦
        (let valid = find_sub_chain_valid wanted chain found e in
          let same = ap is_valid (find_chain_found chain chains found e) in absurd (ground arith))
  ]

  find_chain_lem :
      (chains : List (List Cvc))
      → IsCandidate wanted chains (find_chain wanted chains)
        ⊎ (IsWithout wanted chains × (find_chain wanted chains ≡ []))
  find_chain_lem chains = elim (Bool-cases (is_valid (find_chain wanted chains))) [
    | inl v ↦ inl (find_chain_sound chains v)
    | inr v ↦ inr (
      (λ chain c. (let w = find_chain_complete chains chain c in absurd (ground arith))),
      find_chain_invalid chains v,
    )
  ]

  candidate_is_valid :
      (chains : List (List Cvc)) (chain : List Cvc)
      → IsCandidate wanted chains chain
      → is_valid chain ≡ true
  candidate_is_valid chains chain c = rw c.starts (starts_chain_valid wanted c.root c.rest c.fits)

-- The chain for a root is a valid end of one of the chains that starts with the same certificate
-- as the root; where there is none, it is empty.
pub get_chain_starting_with_lem :
    (chains : List (List Cvc)) (root : Cvc)
    → IsCandidate (λ c. same_cvc c root) chains (get_chain_starting_with chains root)
      ⊎ (IsWithout (λ c. same_cvc c root) chains × (get_chain_starting_with chains root ≡ []))
unfolding get_chain_starting_with
get_chain_starting_with_lem chains root = find_chain_lem (λ c. same_cvc c root) chains

-- The chain for the output of PACE is a valid end of one of the chains that starts below the
-- current authority; where there is none, one that starts below the previous authority; where
-- there is none either, it is empty.
pub get_chain_for_pace_output_lem :
    (chains : List (List Cvc)) (car_curr car_prev : List ℕ)
    → let chain = get_chain_for_pace_output chains car_curr car_prev in
      IsCandidate (is_issued_under car_curr) chains chain
      ⊎ (IsWithout (is_issued_under car_curr) chains
          × (IsCandidate (is_issued_under car_prev) chains chain
              ⊎ (IsWithout (is_issued_under car_prev) chains × (chain ≡ []))))
unfolding get_chain_for_pace_output get_chain_for_certification_authority
get_chain_for_pace_output_lem chains car_curr car_prev =
    elim (find_chain_lem (is_issued_under car_curr) chains) [
      | inl c ↦
          rw
            (candidate_is_valid (is_issued_under car_curr) chains
              (find_chain (is_issued_under car_curr) chains) c)
            (inl c)
      | inr (without, empty) ↦
          rw empty (inr (without, find_chain_lem (is_issued_under car_prev) chains))
    ]
