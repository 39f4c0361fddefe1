-- ===== src/Card/Certificates/Builder.antt =====
-- The constructor of src/card/base/asn1/CVCertificateChainBuilder.cpp. The pool holds pointers, which
-- `QVector::contains` and `std::search` compare by address: `heap` gives the certificate at an
-- address.
use ausweisapp2_android_sdk.Base.{ℕ, Bool, not, ◌&&◌, List, Option, none, some, map, ◌==◌}
use ausweisapp2_android_sdk.Card.ChainBuilder.{build_chains}
use ausweisapp2_android_sdk.Card.Certificates.{Cvc, is_issued_by, remove_invalid_chains}
pub mod Issued

unfoldable pub is_child : Cvc → Cvc → Bool
unfolding is_issued_by
is_child child parent = not (is_issued_by child child) && is_issued_by child parent

unfoldable pub child_at : (ℕ → Cvc) → ℕ → ℕ → Bool
unfolding is_child
child_at heap child parent = is_child (heap child) (heap parent)

abbrev pub same_address : ℕ → ℕ → Bool
same_address a b = a == b

abbrev pub certificates : (ℕ → Cvc) → List (List ℕ) → List (List Cvc)
certificates heap chains = map (map heap) chains

unfoldable pub new_builder : (ℕ → Cvc) → List ℕ → Option (List (List Cvc))
unfolding build_chains remove_invalid_chains child_at
new_builder heap pool = elim (build_chains same_address (child_at heap) pool) [
  | none ↦ none
  | some chains ↦ some (remove_invalid_chains (certificates heap chains))
]
