-- ===== src/Card/Certificates.antt =====
-- src/card/base/asn1/CVCertificateChain.cpp and CVCertificateChainBuilder.cpp: the choice of a chain
-- of card verifiable certificates. A certificate is what the code reads of it: its references, its
-- role, and its encoded body and signature.
use ausweisapp2_android_sdk.Base.{
  ℕ, ◌-◌, Bool, true, false, not, ◌&&◌, ◌||◌, List, [], ◌∷◌, Option, none, some, ltb, ◌==◌,
  if◌then◌else◌, length, drop,
}
use ausweisapp2_android_sdk.Card.ChainBuilder.{first}
pub mod SubChain
pub mod Selection
pub mod Removal
pub mod Builder

pub data AccessRole : Type 0 where
  at dv_no_f dv_od cvca unknown_role : AccessRole

pub record Cvc : Type 0 where
  pub authority : List ℕ
  pub holder : List ℕ
  pub access_role : AccessRole
  pub raw_body : List ℕ
  pub raw_signature : List ℕ

unfoldable pub same_bytes : List ℕ → List ℕ → Bool
same_bytes [] [] = true
same_bytes (a ∷ s) (b ∷ t) = a == b && same_bytes s t
same_bytes _ _ = false

unfoldable pub same_cvc : Cvc → Cvc → Bool
unfolding same_bytes
same_cvc a b = same_bytes a.raw_body b.raw_body && same_bytes a.raw_signature b.raw_signature

unfoldable pub is_issued_by : Cvc → Cvc → Bool
unfolding same_bytes
is_issued_by c issuer = same_bytes c.authority issuer.holder

unfoldable pub get_terminal_cvc : List Cvc → Option Cvc
get_terminal_cvc chain = first (drop (length chain - 1) chain)

unfoldable pub get_dv_cvc : List Cvc → Option Cvc
get_dv_cvc chain = first (drop (length chain - 2) chain)

unfoldable pub is_terminal : Option Cvc → Bool
is_terminal none = false
is_terminal (some c) = elim c.access_role [
  | at ↦ true
  | dv_no_f ↦ false
  | dv_od ↦ false
  | cvca ↦ false
  | unknown_role ↦ false
]

unfoldable pub is_document_verifier : Option Cvc → Bool
is_document_verifier none = false
is_document_verifier (some c) = elim c.access_role [
  | at ↦ false
  | dv_no_f ↦ true
  | dv_od ↦ true
  | cvca ↦ false
  | unknown_role ↦ false
]

unfoldable pub is_valid : List Cvc → Bool
unfolding is_terminal is_document_verifier get_terminal_cvc get_dv_cvc
is_valid chain =
    if ltb (length chain) 2
    then false
    else is_terminal (get_terminal_cvc chain) && is_document_verifier (get_dv_cvc chain)

-- The constructor clears an invalid chain.
unfoldable pub new_chain : List Cvc → List Cvc
unfolding is_valid
new_chain cvcs = if is_valid cvcs then cvcs else []

unfoldable pub remove_invalid_chains : List (List Cvc) → List (List Cvc)
unfolding new_chain is_valid
remove_invalid_chains [] = []
remove_invalid_chains (chain ∷ chains) =
    let rest = remove_invalid_chains chains in
    if not (is_valid (new_chain chain)) then rest else chain ∷ rest

-- The inner loop over a chain's certificates: the first valid part that starts with a wanted one.
unfoldable pub find_sub_chain : (Cvc → Bool) → List Cvc → Option (List Cvc)
unfolding new_chain is_valid
find_sub_chain wanted [] = none
find_sub_chain wanted (c ∷ cvcs) =
    let rest = find_sub_chain wanted cvcs in
    let sub_chain = new_chain (c ∷ cvcs) in
    if wanted c then (if is_valid sub_chain then some sub_chain else rest) else rest

unfoldable pub find_chain : (Cvc → Bool) → List (List Cvc) → List Cvc
unfolding find_sub_chain new_chain
find_chain wanted [] = new_chain []
find_chain wanted (chain ∷ chains) =
    let rest = find_chain wanted chains in
    elim (find_sub_chain wanted chain) [ none ↦ rest | some found ↦ found ]

unfoldable pub is_issued_under : List ℕ → Cvc → Bool
unfolding same_bytes is_issued_by
is_issued_under car c = same_bytes c.authority car && not (is_issued_by c c)

unfoldable pub get_chain_for_certification_authority : List (List Cvc) → List ℕ → List Cvc
unfolding find_chain is_issued_under
get_chain_for_certification_authority chains car = find_chain (is_issued_under car) chains

unfoldable pub get_chain_starting_with : List (List Cvc) → Cvc → List Cvc
unfolding find_chain same_cvc
get_chain_starting_with chains root = find_chain (λ c. same_cvc c root) chains

-- The current authority reference of the PACE output, then the previous one.
unfoldable pub get_chain_for_pace_output : List (List Cvc) → (car_curr car_prev : List ℕ) → List Cvc
unfolding get_chain_for_certification_authority is_valid
get_chain_for_pace_output chains car_curr car_prev =
    let chain = get_chain_for_certification_authority chains car_curr in
    if not (is_valid chain) then get_chain_for_certification_authority chains car_prev else chain
