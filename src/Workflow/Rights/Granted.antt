-- ===== src/Workflow/Rights/Granted.antt =====
-- What the CHAT that src/core/context/AuthContext.cpp sends to the card can grant.
use ausweisapp2_android_sdk.Base.{
  ◌≡◌, refl, ap, sym, ◌∙◌, Bool, true, false, not, ◌&&◌, ◌||◌, Option, none, some, List, inl, inr,
  Bool-cases, arith,
}
use ausweisapp2_android_sdk.Card.AccessRight.{
  AccessRight, same_right, age_verification, community_id_verification,
}
use ausweisapp2_android_sdk.Card.Chat.{
  Template, get_access_rights, has_access_right, contains_right,
}
use ausweisapp2_android_sdk.Workflow.Rights.{
  Eac1, Rights, all_displayed_ordered_rights, intersect, allowed_access_rights, remove_without,
  remove_forbidden_access_rights,
}
use ausweisapp2_android_sdk.Workflow.Rights.Sets.{
  contains_right-same, contains_right-intersect, contains_right-remove_from,
}

abbrev pub has_data : AccessRight → Bool → AccessRight → Bool
has_data right there r = not (same_right right r) || there

-- The certificate grants it, it is displayed, and the auxiliary data that it needs are there.
unfoldable pub is_allowed : Template → Eac1 → AccessRight → Bool
unfolding has_access_right all_displayed_ordered_rights contains_right same_right
is_allowed chat e r =
    (has_access_right r chat && contains_right all_displayed_ordered_rights r)
    && (has_data age_verification e.has_age_verification_date r
        && has_data community_id_verification e.has_community_id r)

pub remove_without-has_data :
    (right : AccessRight) (there : Bool) (s : List AccessRight) (r : AccessRight)
    → contains_right (remove_without right there s) r ≡ contains_right s r && has_data right there r
unfolding remove_without
remove_without-has_data right true s r = elim (Bool-cases (contains_right s right)) [
  | inl h ↦ rw h (ground arith)
  | inr h ↦ rw h (ground arith)
]
remove_without-has_data right false s r = elim (Bool-cases (contains_right s right)) [
  | inl h ↦ rw h (contains_right-remove_from right s r ∙ ground arith)
  | inr h ↦ rw h (elim (Bool-cases (same_right right r)) [
    | inl same ↦ rw (same, sym (contains_right-same s right r same) ∙ h) refl
    | inr other ↦ rw other (ground arith)
  ])
]

pub has_access_right-same :
    (chat : Template) (r : AccessRight)
    → has_access_right r chat ≡ contains_right (get_access_rights chat) r
unfolding has_access_right
has_access_right-same chat r = refl

contains_right-allowed_access_rights :
    (chat : Template) (r : AccessRight)
    → contains_right (allowed_access_rights chat) r
      ≡ has_access_right r chat && contains_right all_displayed_ordered_rights r
unfolding allowed_access_rights has_access_right
contains_right-allowed_access_rights chat r =
    contains_right-intersect (get_access_rights chat) all_displayed_ordered_rights r

and_first : (a b c : Bool) → (a && b) && c ≡ true → a ≡ true
and_first a b c h = ground arith

pub is_allowed-granted :
    (chat : Template) (e : Eac1) (r : AccessRight)
    → is_allowed chat e r ≡ true
    → has_access_right r chat ≡ true
unfolding is_allowed
is_allowed-granted chat e r h =
    and_first (has_access_right r chat) (contains_right all_displayed_ordered_rights r)
      (has_data age_verification e.has_age_verification_date r
        && has_data community_id_verification e.has_community_id r)
      h

displayed : Template → Eac1 → List AccessRight → List AccessRight
displayed chat e s = remove_without community_id_verification e.has_community_id (
    remove_without age_verification e.has_age_verification_date
      (intersect s (allowed_access_rights chat)))

remove_forbidden_access_rights-displayed :
    (chat : Template) (c : Rights) (s : List AccessRight)
    → c.terminal_chat ≡ some chat
    → remove_forbidden_access_rights c s ≡ displayed chat c.eac1 s
unfolding remove_forbidden_access_rights displayed
remove_forbidden_access_rights-displayed chat c s e =
    let keep : Option Template → List AccessRight =
      λ t. elim t [ none ↦ s | some chat ↦ displayed chat c.eac1 s ] in
    ap keep e

regroup : (a b c d e : Bool) → a && ((b && c) && (d && e)) ≡ ((a && (b && c)) && d) && e
regroup a b c d e = ground arith

is_allowed-data :
    (chat : Template) (e : Eac1) (s : List AccessRight) (r : AccessRight)
    → contains_right s r && is_allowed chat e r
      ≡ ((contains_right s r
            && (has_access_right r chat && contains_right all_displayed_ordered_rights r))
          && has_data age_verification e.has_age_verification_date r)
        && has_data community_id_verification e.has_community_id r
unfolding is_allowed
is_allowed-data chat e s r =
    regroup (contains_right s r) (has_access_right r chat)
      (contains_right all_displayed_ordered_rights r)
      (has_data age_verification e.has_age_verification_date r)
      (has_data community_id_verification e.has_community_id r)

contains_right-displayed :
    (chat : Template) (e : Eac1) (s : List AccessRight) (r : AccessRight)
    → contains_right (displayed chat e s) r ≡ contains_right s r && is_allowed chat e r
unfolding displayed
contains_right-displayed chat e s r =
    remove_without-has_data community_id_verification e.has_community_id _ r
    ∙ ap (λ b. b && has_data community_id_verification e.has_community_id r)
        (remove_without-has_data age_verification e.has_age_verification_date _ r
          ∙ ap (λ b. b && has_data age_verification e.has_age_verification_date r)
              (contains_right-intersect s (allowed_access_rights chat) r
                ∙ ap (λ b. contains_right s r && b) (contains_right-allowed_access_rights chat r)))
    ∙ sym (is_allowed-data chat e s r)

pub remove_forbidden_access_rights-is_allowed :
    (chat : Template) (c : Rights) (s : List AccessRight) (r : AccessRight)
    → c.terminal_chat ≡ some chat
    → contains_right (remove_forbidden_access_rights c s) r
      ≡ contains_right s r && is_allowed chat c.eac1 r
remove_forbidden_access_rights-is_allowed chat c s r e =
    ap (λ t. contains_right t r) (remove_forbidden_access_rights-displayed chat c s e)
    ∙ contains_right-displayed chat c.eac1 s r
