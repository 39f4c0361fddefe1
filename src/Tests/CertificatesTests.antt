-- ===== src/Tests/CertificatesTests.antt =====
-- The chain that is selected, of one of a document verifier and a terminal.
use ausweisapp2_android_sdk.Base.{ℕ, zero, suc, some, ==_iff, ◌≡◌, refl, ◌⊎◌, List, [], ◌∷◌}
use ausweisapp2_android_sdk.Card.ChainBuilder.{build_chains}
use ausweisapp2_android_sdk.Card.ChainBuilder.Ordered.{In, All, IsChain}
use ausweisapp2_android_sdk.Card.ChainBuilder.Pool.{Any, build_chains_lem}
use ausweisapp2_android_sdk.Card.Certificates.Builder.{same_address, child_at, new_builder}
use ausweisapp2_android_sdk.Card.Certificates.Builder.Issued.{IsSelected, new_builder-IsSelected}
use ausweisapp2_android_sdk.Card.Certificates.{
  at, dv_od, Cvc, is_issued_under, get_chain_for_pace_output,
}
use ausweisapp2_android_sdk.Card.Certificates.Selection.{
  IsCandidate, IsWithout, get_chain_for_pace_output_lem,
}

abbrev verifier : Cvc
verifier = record {
  authority = 1 ∷ [];
  holder = 2 ∷ [];
  access_role = dv_od;
  raw_body = 5 ∷ [];
  raw_signature = 6 ∷ [];
}

abbrev terminal : Cvc
terminal = record {
  authority = 2 ∷ [];
  holder = 3 ∷ [];
  access_role = at;
  raw_body = 7 ∷ [];
  raw_signature = 8 ∷ [];
}

abbrev two_certificates : List Cvc
two_certificates = verifier ∷ terminal ∷ []

-- The previous authority is known, the current one is not.
previous_authority :
    get_chain_for_pace_output (two_certificates ∷ []) (9 ∷ []) (1 ∷ []) ≡ two_certificates
unfolding get_chain_for_pace_output
previous_authority = refl

get_chain_for_pace_output_lem_example :
    let chain = get_chain_for_pace_output (two_certificates ∷ []) (9 ∷ []) (1 ∷ []) in
    IsCandidate (is_issued_under (9 ∷ [])) (two_certificates ∷ []) chain
    ⊎ (IsWithout (is_issued_under (9 ∷ [])) (two_certificates ∷ [])
        × (IsCandidate (is_issued_under (1 ∷ [])) (two_certificates ∷ []) chain
            ⊎ (IsWithout (is_issued_under (1 ∷ [])) (two_certificates ∷ []) × (chain ≡ []))))
get_chain_for_pace_output_lem_example =
    get_chain_for_pace_output_lem (two_certificates ∷ []) (9 ∷ []) (1 ∷ [])

abbrev two_chains : List (List Cvc)
two_chains = (terminal ∷ []) ∷ two_certificates ∷ []

-- The terminal's certificate at the address 0, the document verifier's at all others.
abbrev heap : ℕ → Cvc
heap zero = terminal
heap (suc a) = verifier

abbrev pool : List ℕ
pool = 0 ∷ 1 ∷ []

one_chain : build_chains same_address (child_at heap) pool ≡ some ((1 ∷ 0 ∷ []) ∷ [])
unfolding build_chains child_at
one_chain = refl

one_certificate_chain : new_builder heap pool ≡ some (two_certificates ∷ [])
unfolding new_builder
one_certificate_chain = refl

build_chains_lem_example :
    (chains : List (List ℕ)) × (build_chains same_address (child_at heap) pool ≡ some chains)
    × All (IsChain same_address (child_at heap) pool) chains
    × All (λ elem. Any (λ chain. In elem chain) chains) pool
build_chains_lem_example = build_chains_lem same_address (child_at heap) ==_iff pool

new_builder-IsSelected_example :
    (chains : List (List Cvc)) × (new_builder heap pool ≡ some chains)
    × ((get_chain_for_pace_output chains (1 ∷ []) (9 ∷ []) ≡ [])
        ⊎ IsSelected heap pool
            (1 ∷ [])
            (9 ∷ [])
            (get_chain_for_pace_output chains (1 ∷ []) (9 ∷ [])))
new_builder-IsSelected_example = new_builder-IsSelected heap pool (1 ∷ []) (9 ∷ [])
