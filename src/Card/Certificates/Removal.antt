-- ===== src/Card/Certificates/Removal.antt =====
-- CVCertificateChainBuilder::removeInvalidChains of src/card/base/asn1/CVCertificateChainBuilder.cpp
-- and the selection.
use ausweisapp2_android_sdk.Base.{
  Bool-cases, Option-cases, ◌≡◌, refl, sym, ap, ◌∙◌, inl, inr, Bool, true, false, none, List, [],
  ◌∷◌, ◌++◌, arith, length, ltb, ◌-◌, ℕ, suc,
}
use ausweisapp2_android_sdk.Card.Certificates.{
  Cvc, same_cvc, is_valid, find_sub_chain, find_chain, is_issued_under, remove_invalid_chains,
  get_chain_for_certification_authority, get_chain_starting_with, get_chain_for_pace_output,
}
use ausweisapp2_android_sdk.Card.Certificates.SubChain.{
  is_valid-new_chain, nothing_is_invalid, find_sub_chain_sound, find_sub_chain_valid,
}
use ausweisapp2_android_sdk.Card.Certificates.Selection.{find_chain_next, find_chain_found}

one_is_invalid : (c : Cvc) → is_valid (c ∷ []) ≡ false
unfolding is_valid
one_is_invalid c = refl

longer_is_valid :
    (c a b : Cvc) (cvcs : List Cvc) → is_valid (c ∷ a ∷ b ∷ cvcs) ≡ is_valid (a ∷ b ∷ cvcs)
unfolding is_valid
longer_is_valid c a b cvcs =
    let n = length cvcs in
    let long : ltb (suc (suc (suc n))) 2 ≡ false = ground arith in
    let short : ltb (suc (suc n)) 2 ≡ false = ground arith in
    let last_of_longer : suc (suc (suc n)) - 1 ≡ suc (suc n) = omega arith in
    let last : suc (suc n) - 1 ≡ suc n = omega arith in
    let second_last_of_longer : suc (suc (suc n)) - 2 ≡ suc n = omega arith in
    let second_last : suc (suc n) - 2 ≡ n = omega arith in
    rw (long, short, last_of_longer, last, second_last_of_longer, second_last) refl

is_valid_tail : (c : Cvc) (cvcs : List Cvc) → is_valid cvcs ≡ true → is_valid (c ∷ cvcs) ≡ true
is_valid_tail c [] v = absurd (let no = nothing_is_invalid in ground arith)
is_valid_tail c (a ∷ []) v = absurd (let no = one_is_invalid a in ground arith)
is_valid_tail c (a ∷ b ∷ cvcs) v = longer_is_valid c a b cvcs ∙ v

is_valid_behind : (before cvcs : List Cvc) → is_valid cvcs ≡ true → is_valid (before ++ cvcs) ≡ true
is_valid_behind [] cvcs v = v
is_valid_behind (c ∷ before) cvcs v =
    is_valid_tail c (before ++ cvcs) (is_valid_behind before cvcs v)

remove_valid :
    (chain : List Cvc) (chains : List (List Cvc))
    → is_valid chain ≡ true
    → remove_invalid_chains (chain ∷ chains) ≡ chain ∷ remove_invalid_chains chains
unfolding remove_invalid_chains
remove_valid chain chains v = rw (is_valid-new_chain chain, v, remove_invalid_chains) refl

remove_invalid :
    (chain : List Cvc) (chains : List (List Cvc))
    → is_valid chain ≡ false
    → remove_invalid_chains (chain ∷ chains) ≡ remove_invalid_chains chains
unfolding remove_invalid_chains
remove_invalid chain chains v = rw (is_valid-new_chain chain, v, remove_invalid_chains) refl

module _ (wanted : Cvc → Bool) where
  nothing_in_invalid :
      (chain : List Cvc) → is_valid chain ≡ false → find_sub_chain wanted chain ≡ none
  nothing_in_invalid chain v = elim (Option-cases (find_sub_chain wanted chain)) [
    | inl e ↦ e
    | inr (found, e) ↦
        (let (before, root, rest, split, starts, fits) =
            find_sub_chain_sound wanted chain found e in
          let whole = is_valid_behind before found (find_sub_chain_valid wanted chain found e) in
          absurd (let same = ap is_valid split in ground arith))
  ]

  find_chain-remove_invalid_chains :
      (chains : List (List Cvc))
      → find_chain wanted (remove_invalid_chains chains) ≡ find_chain wanted chains
  find_chain-remove_invalid_chains [] = unfold remove_invalid_chains in refl
  find_chain-remove_invalid_chains (chain ∷ chains) = elim (Bool-cases (is_valid chain)) [
    | inl v ↦ elim (Option-cases (find_sub_chain wanted chain)) [
      | inl e ↦
          ap (find_chain wanted) (remove_valid chain chains v)
          ∙ find_chain_next wanted chain (remove_invalid_chains chains) e
          ∙ find_chain-remove_invalid_chains chains
          ∙ sym (find_chain_next wanted chain chains e)
      | inr (found, e) ↦
          ap (find_chain wanted) (remove_valid chain chains v)
          ∙ find_chain_found wanted chain (remove_invalid_chains chains) found e
          ∙ sym (find_chain_found wanted chain chains found e)
    ]
    | inr v ↦
        ap (find_chain wanted) (remove_invalid chain chains v)
        ∙ find_chain-remove_invalid_chains chains
        ∙ sym (find_chain_next wanted chain chains (nothing_in_invalid chain v))
  ]

-- Removing the invalid chains loses no candidate: the chains that are selected for the output of
-- PACE and for a root are the same as without the removal.
pub get_chain_unaffected :
    (chains : List (List Cvc)) (car_curr car_prev : List ℕ) (root : Cvc)
    → (get_chain_for_pace_output (remove_invalid_chains chains) car_curr car_prev
        ≡ get_chain_for_pace_output chains car_curr car_prev)
      × (get_chain_starting_with (remove_invalid_chains chains) root
          ≡ get_chain_starting_with chains root)
unfolding get_chain_for_pace_output get_chain_for_certification_authority get_chain_starting_with
get_chain_unaffected chains car_curr car_prev root = (
  rw
      (
        find_chain-remove_invalid_chains (is_issued_under car_curr) chains,
        find_chain-remove_invalid_chains (is_issued_under car_prev) chains,
      )
      refl,
  find_chain-remove_invalid_chains (λ c. same_cvc c root) chains,
)
