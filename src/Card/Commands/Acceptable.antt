-- ===== src/Card/Commands/Acceptable.antt =====
-- src/card/base/command/TransmitCommand.cpp: what `isAcceptable` says, without running it.
use ausweisapp2_android_sdk.Base.{
  ℕ, ◌≡◌, refl, ap, ◌∙◌, ◌↔◌, ◌⊎◌, inl, inr, Bool, true, false, ◌&&◌, ◌||◌, List, [], ◌∷◌, ◌++◌,
  Bool-cases, arith, is_empty,
}
use mathlib.Core.Path.{subst}
use ausweisapp2_android_sdk.Pace.Establish.{is_ok}
use ausweisapp2_android_sdk.Card.Connection.{Answer}
use ausweisapp2_android_sdk.Card.Commands.{
  InputApduInfo, text_starts_with, matches_any, get_return_code_as_hex, is_acceptable,
}

-- One of the texts is the start of this one.
pub data IsListed (status : List ℕ) : List (List ℕ) → Type 0 where
  here :
      (code tail : List ℕ) (codes : List (List ℕ))
      → code ++ tail ≡ status
      → IsListed status (code ∷ codes)
  there :
      (code : List ℕ) (codes : List (List ℕ))
      → IsListed status codes
      → IsListed status (code ∷ codes)

-- The answer has arrived, and its status is free or starts with a text that the element lists.
unfoldable pub IsAccepted : InputApduInfo → Answer → Type 0
IsAccepted info answer =
    (is_ok answer.0 ≡ true)
    × ((info.acceptable_status_codes ≡ [])
        ⊎ IsListed (get_return_code_as_hex answer.1) info.acceptable_status_codes)

pub data AllAccepted : List InputApduInfo → List Answer → Type 0 where
  no_more : AllAccepted [] []
  and_next :
      (info : InputApduInfo) (infos : List InputApduInfo) (answer : Answer) (answers : List Answer)
      → IsAccepted info answer
      → AllAccepted infos answers
      → AllAccepted (info ∷ infos) (answer ∷ answers)

text_starts_with-append : (code tail : List ℕ) → text_starts_with (code ++ tail) code ≡ true
unfolding text_starts_with
text_starts_with-append [] [] = refl
text_starts_with-append [] (t ∷ tail) = refl
text_starts_with-append (c ∷ code) tail = ground (arith, text_starts_with-append code tail)

text_starts_with-true :
    (text code : List ℕ)
    → text_starts_with text code ≡ true
    → (tail : List ℕ) × (code ++ tail ≡ text)
unfolding text_starts_with
text_starts_with-true text [] h = (text, refl)
text_starts_with-true [] (c ∷ code) h = cc
text_starts_with-true (t ∷ text) (c ∷ code) h =
    let first : c ≡ t = ground arith in
    let (tail, e) = text_starts_with-true text code (ground arith) in
    (tail, ap (◌∷◌ c) e ∙ ap (λ x. x ∷ text) first)

matches_any-true :
    (status : List ℕ) (codes : List (List ℕ))
    → matches_any status codes ≡ true
    → IsListed status codes
unfolding matches_any
matches_any-true status [] h = cc
matches_any-true status (code ∷ codes) h = elim (Bool-cases (text_starts_with status code)) [
  | inl hit ↦ let (tail, e) = text_starts_with-true status code hit in here code tail codes e
  | inr miss ↦ there code codes (matches_any-true status codes (rw miss at h))
]

matches_any-IsListed :
    (status : List ℕ) (codes : List (List ℕ))
    → IsListed status codes
    → matches_any status codes ≡ true
unfolding matches_any
matches_any-IsListed status codes (here code tail codes' e) =
    let hit : text_starts_with status code ≡ true =
      subst (λ s. text_starts_with s code ≡ true) e (text_starts_with-append code tail) in
    rw hit refl
matches_any-IsListed status codes (there code codes' l) =
    ground (arith, matches_any-IsListed status codes' l)

is_free_or_IsListed :
    (status : List ℕ) (codes : List (List ℕ))
    → ((is_empty codes || matches_any status codes) ≡ true) ↔ ((codes ≡ []) ⊎ IsListed status codes)
is_free_or_IsListed status [] = (λ h. inl refl, λ l. refl)
is_free_or_IsListed status (code ∷ codes) = (
  λ h. inr (matches_any-true status (code ∷ codes) h),
  λ l. elim l [
    | inl e ↦ absurd (cc e)
    | inr listed ↦ matches_any-IsListed status (code ∷ codes) listed
  ],
)

pub is_acceptable_iff :
    (info : InputApduInfo) (answer : Answer)
    → ((is_ok answer.0 && is_acceptable info answer.1) ≡ true) ↔ IsAccepted info answer
unfolding is_acceptable IsAccepted
is_acceptable_iff info answer =
    let (only_if, if_so) =
      is_free_or_IsListed (get_return_code_as_hex answer.1) info.acceptable_status_codes in
    (
      λ h. elim (Bool-cases (is_ok answer.0)) [
        | inl arrived ↦ (arrived, only_if (rw arrived at h))
        | inr lost ↦ absurd (cc (rw lost at h))
      ],
      λ a. rw a.0 (if_so a.1),
    )

-- The test of all the elements, which is true exactly where all are accepted.
unfoldable pub all_accepted : List InputApduInfo → List Answer → Bool
unfolding is_ok is_acceptable
all_accepted [] [] = true
all_accepted (info ∷ infos) (answer ∷ answers) =
    (is_ok answer.0 && is_acceptable info answer.1) && all_accepted infos answers
all_accepted _ _ = false

all_accepted-AllAccepted :
    (infos : List InputApduInfo) (answers : List Answer)
    → all_accepted infos answers ≡ true
    → AllAccepted infos answers
unfolding all_accepted
all_accepted-AllAccepted [] [] h = no_more
all_accepted-AllAccepted [] (answer ∷ answers) h = cc
all_accepted-AllAccepted (info ∷ infos) [] h = cc
all_accepted-AllAccepted (info ∷ infos) (answer ∷ answers) h =
    elim (Bool-cases (is_ok answer.0 && is_acceptable info answer.1)) [
      | inl good ↦
          and_next info infos answer answers ((is_acceptable_iff info answer).0 good)
            (all_accepted-AllAccepted infos answers (rw good at h))
      | inr bad ↦ absurd (cc (rw bad at h))
    ]

all_accepted-true :
    (infos : List InputApduInfo) (answers : List Answer)
    → AllAccepted infos answers
    → all_accepted infos answers ≡ true
unfolding all_accepted
all_accepted-true infos answers no_more = refl
all_accepted-true infos answers (and_next info infos' answer answers' a rest) =
    rw ((is_acceptable_iff info answer).1 a) (all_accepted-true infos' answers' rest)

pub all_accepted_iff :
    (infos : List InputApduInfo) (answers : List Answer)
    → (all_accepted infos answers ≡ true) ↔ AllAccepted infos answers
all_accepted_iff infos answers =
    (all_accepted-AllAccepted infos answers, all_accepted-true infos answers)
