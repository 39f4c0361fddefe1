-- ===== src/Workflow/TrustedChannel/Extract.antt =====
-- src/core/states/StateExtractCvcsFromEac1InputType.cpp: the terminal certificate and the one of its
-- document verifier among the certificates of DIDAuthenticate EAC1. The chain builder that the state
-- starts then is Card.Certificates.Builder.
use ausweisapp2_android_sdk.Base.{
  length, ◌≡◌, refl, Bool, true, false, List, [], ◌∷◌, Option, none, some, if◌then◌else◌, arith,
}
use ausweisapp2_android_sdk.Status.{Code, workflow_no_unique_atcvc, workflow_no_unique_dvcvc}
use ausweisapp2_android_sdk.Card.Certificates.{AccessRole, at, dv_no_f, dv_od, Cvc}

-- The two certificates of the context, which were none before, with the signal: an error is aborted
-- with its status.
pub record Extracted : Type 0 where
  pub terminal_cvc : Option Cvc
  pub dv_cvc : Option Cvc
  pub abort : Option Code

abbrev with_terminal : Cvc → Extracted → Extracted
with_terminal c x = record x { terminal_cvc = some c }

abbrev with_dv : Cvc → Extracted → Extracted
with_dv c x = record x { dv_cvc = some c }

abbrev pub is_found : Option Cvc → Bool
is_found none = false
is_found (some c) = true

abbrev pub abort_with : Code → Extracted → Extracted
abort_with code x = record x { abort = some code }

-- Behind the loop.
unfoldable pub check_found : Extracted → Extracted
check_found x =
    if is_found x.terminal_cvc
    then (if is_found x.dv_cvc then x else abort_with workflow_no_unique_dvcvc x)
    else abort_with workflow_no_unique_atcvc x

-- A certificate of a role, with the rest of the loop.
unfoldable pub extract_next : AccessRole → Cvc → (Extracted → Extracted) → Extracted → Extracted
extract_next at c rest x =
    if is_found x.terminal_cvc
    then abort_with workflow_no_unique_atcvc x
    else rest (with_terminal c x)
extract_next dv_no_f c rest x =
    if is_found x.dv_cvc then abort_with workflow_no_unique_dvcvc x else rest (with_dv c x)
extract_next dv_od c rest x =
    if is_found x.dv_cvc then abort_with workflow_no_unique_dvcvc x else rest (with_dv c x)
extract_next _ c rest x = rest x

unfoldable pub extract_from : List Cvc → Extracted → Extracted
unfolding check_found extract_next
extract_from [] x = check_found x
extract_from (c ∷ cvcs) x = extract_next c.access_role c (extract_from cvcs) x

unfoldable pub extract_cvcs : List Cvc → Extracted
unfolding extract_from
extract_cvcs cvcs = extract_from cvcs (record { terminal_cvc = none; dv_cvc = none; abort = none })

abbrev pub add_terminal : AccessRole → Cvc → List Cvc → List Cvc
add_terminal at c rest = c ∷ rest
add_terminal _ c rest = rest

abbrev pub add_dv : AccessRole → Cvc → List Cvc → List Cvc
add_dv dv_no_f c rest = c ∷ rest
add_dv dv_od c rest = c ∷ rest
add_dv _ c rest = rest

unfoldable pub terminals : List Cvc → List Cvc
terminals [] = []
terminals (c ∷ cvcs) = add_terminal c.access_role c (terminals cvcs)

unfoldable pub dvs : List Cvc → List Cvc
dvs [] = []
dvs (c ∷ cvcs) = add_dv c.access_role c (dvs cvcs)

abbrev with_found : Option Cvc → List Cvc → List Cvc
with_found none cvcs = cvcs
with_found (some c) cvcs = c ∷ cvcs

abbrev found : Option Cvc → Option Cvc → Extracted
found t d = record { terminal_cvc = t; dv_cvc = d; abort = none }

-- The loop has found exactly the certificates of the lists.
abbrev IsExtracted : List Cvc → List Cvc → Extracted → Type 0
IsExtracted ts ds r =
    (r.abort ≡ none
      → (t : Cvc) × (d : Cvc) × (ts ≡ t ∷ [])
        × (ds ≡ d ∷ [])
        × (r.terminal_cvc ≡ some t)
        × (r.dv_cvc ≡ some d))
    × ((length ts ≡ 1) → (length ds ≡ 1) → r.abort ≡ none)

check_found-IsExtracted :
    (t d : Option Cvc) → IsExtracted (with_found t []) (with_found d []) (check_found (found t d))
unfolding check_found
check_found-IsExtracted none d = (λ h. cc h, λ h k. absurd (omega (arith, h)))
check_found-IsExtracted (some t) none = (λ h. cc h, λ h k. absurd (omega (arith, k)))
check_found-IsExtracted (some t) (some d) = (λ h. (t, d, refl, refl, refl, refl), λ h k. refl)

two_terminals :
    (a b : Cvc) (ts ds : List Cvc) (x : Extracted)
    → IsExtracted (a ∷ b ∷ ts) ds (abort_with workflow_no_unique_atcvc x)
two_terminals a b ts ds x = (λ h. cc h, λ h k. absurd (omega (arith, h)))

two_dvs :
    (a b : Cvc) (ts ds : List Cvc) (x : Extracted)
    → IsExtracted ts (a ∷ b ∷ ds) (abort_with workflow_no_unique_dvcvc x)
two_dvs a b ts ds x = (λ h. cc h, λ h k. absurd (omega (arith, k)))

-- The next certificate, by its role.
module _ (c : Cvc) (cvcs ts ds : List Cvc)
    (rest : (t d : Option Cvc)
      → IsExtracted (with_found t ts) (with_found d ds) (extract_from cvcs (found t d))) where
  extract_next-IsExtracted :
      (role : AccessRole) (t d : Option Cvc)
      → IsExtracted
          (with_found t (add_terminal role c ts))
          (with_found d (add_dv role c ds))
          (extract_next role c (extract_from cvcs) (found t d))
  unfolding extract_next
  extract_next-IsExtracted at none d = rest (some c) d
  extract_next-IsExtracted at (some t) d = two_terminals t c ts (with_found d ds) (found (some t) d)
  extract_next-IsExtracted dv_no_f t none = rest t (some c)
  extract_next-IsExtracted dv_no_f t (some d) = two_dvs d c (with_found t ts) ds (found t (some d))
  extract_next-IsExtracted dv_od t none = rest t (some c)
  extract_next-IsExtracted dv_od t (some d) = two_dvs d c (with_found t ts) ds (found t (some d))
  extract_next-IsExtracted _ t d = rest t d

extract_from-IsExtracted :
    (cvcs : List Cvc) (t d : Option Cvc)
    → IsExtracted
        (with_found t (terminals cvcs))
        (with_found d (dvs cvcs))
        (extract_from cvcs (found t d))
unfolding extract_from terminals dvs
extract_from-IsExtracted [] t d = check_found-IsExtracted t d
extract_from-IsExtracted (c ∷ cvcs) t d =
    extract_next-IsExtracted c cvcs (terminals cvcs) (dvs cvcs) (extract_from-IsExtracted cvcs)
      c.access_role t d

-- The certificates of DIDAuthenticate EAC1 are accepted exactly if one of them has the role of a
-- terminal and one that of a document verifier, and the context has these two then.
pub extract_cvcs_lem :
    (cvcs : List Cvc)
    → let r = extract_cvcs cvcs in
      (r.abort ≡ none
        → (t : Cvc) × (d : Cvc) × (terminals cvcs ≡ t ∷ [])
          × (dvs cvcs ≡ d ∷ [])
          × (r.terminal_cvc ≡ some t)
          × (r.dv_cvc ≡ some d))
      × ((length (terminals cvcs) ≡ 1) → (length (dvs cvcs) ≡ 1) → r.abort ≡ none)
unfolding extract_cvcs
extract_cvcs_lem cvcs = extract_from-IsExtracted cvcs none none
