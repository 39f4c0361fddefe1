-- ===== src/Workflow/Rights.antt =====
-- The access rights of src/core/context/AuthContext.cpp: what the server asks for, what the user lets
-- it have, and the CHAT that is sent to the card. A QSet is a list that is asked by `contains_right`;
-- the message DIDAuthenticate EAC1, which the code asserts, is there. Signals are left out, and so is
-- what setEffectiveAccessRights returns.
use ausweisapp2_android_sdk.Base.{
  Bool, true, false, not, ◌&&◌, Option, none, some, List, [], ◌∷◌, ◌++◌, if◌then◌else◌, is_empty,
}
use ausweisapp2_android_sdk.Card.AccessRight.{
  AccessRight, same_right, write_dg17, write_dg18, write_dg19, write_dg20, read_dg01, read_dg02,
  read_dg03, read_dg04, read_dg05, read_dg06, read_dg07, read_dg08, read_dg09, read_dg10, read_dg13,
  read_dg17, read_dg19, install_qual_cert, install_cert, can_allowed, restricted_identification,
  community_id_verification, age_verification,
}
use ausweisapp2_android_sdk.Card.Chat.{
  Template, get_access_rights, contains_right, set_access_right, set_access_rights,
  remove_all_access_rights,
}
pub mod Sets
pub mod Granted
pub mod Limited
pub mod Encoded
pub mod Answers
pub mod Sent

-- The two templates of DIDAuthenticate EAC1, and what its auxiliary data have.
pub record Eac1 : Type 0 where
  pub required_chat : Option Template
  pub optional_chat : Option Template
  pub has_age_verification_date : Bool
  pub has_community_id : Bool

pub record Rights : Type 0 where
  pub terminal_chat : Option Template
  pub eac1 : Eac1
  pub can_allowed_mode : Bool
  pub required : List AccessRight
  pub optional : List AccessRight
  pub effective : List AccessRight

unfoldable pub all_displayed_ordered_rights : List AccessRight
all_displayed_ordered_rights =
    read_dg05 ∷ read_dg13 ∷ read_dg04 ∷ read_dg07 ∷ read_dg08 ∷ read_dg09 ∷ read_dg17 ∷ read_dg01
    ∷ read_dg03 ∷ restricted_identification ∷ read_dg10 ∷ read_dg06 ∷ age_verification
    ∷ community_id_verification ∷ read_dg02 ∷ read_dg19 ∷ install_qual_cert ∷ install_cert
    ∷ write_dg17 ∷ write_dg18 ∷ write_dg19 ∷ write_dg20 ∷ []

-- The operations of QSet.
unfoldable pub keep_rights : (AccessRight → Bool) → List AccessRight → List AccessRight
keep_rights p [] = []
keep_rights p (r ∷ rights) = let rest = keep_rights p rights in if p r then r ∷ rest else rest

abbrev pub intersect : List AccessRight → List AccessRight → List AccessRight
intersect s t = keep_rights (contains_right t) s

abbrev pub subtract : List AccessRight → List AccessRight → List AccessRight
subtract s t = keep_rights (λ r. not (contains_right t r)) s

abbrev pub unite : List AccessRight → List AccessRight → List AccessRight
unite s t = s ++ subtract t s

abbrev pub remove_from : AccessRight → List AccessRight → List AccessRight
remove_from right s = keep_rights (λ r. not (same_right right r)) s

unfoldable pub allowed_access_rights : Template → List AccessRight
unfolding all_displayed_ordered_rights get_access_rights keep_rights contains_right
allowed_access_rights chat = intersect (get_access_rights chat) all_displayed_ordered_rights

-- A right for which the auxiliary data are not there.
unfoldable pub remove_without : AccessRight → Bool → List AccessRight → List AccessRight
unfolding keep_rights contains_right same_right
remove_without right there s =
    if contains_right s right && not there then remove_from right s else s

unfoldable pub remove_forbidden_access_rights : Rights → List AccessRight → List AccessRight
unfolding keep_rights contains_right allowed_access_rights remove_without
remove_forbidden_access_rights c s = elim c.terminal_chat [
  | none ↦ s
  | some chat ↦ remove_without community_id_verification c.eac1.has_community_id (
      remove_without age_verification c.eac1.has_age_verification_date
        (intersect s (allowed_access_rights chat)))
]

unfoldable pub asked_rights : Rights → Option Template → List AccessRight
unfolding remove_forbidden_access_rights get_access_rights
asked_rights c none = []
asked_rights c (some chat) = remove_forbidden_access_rights c (get_access_rights chat)

unfoldable pub without_required : List AccessRight → List AccessRight → List AccessRight
unfolding keep_rights contains_right
without_required required optional =
    if not (is_empty optional) && not (is_empty required)
    then subtract optional required
    else optional

-- With neither, the server asks for what its certificate lets it.
unfoldable pub optional_rights :
    Rights → Template → List AccessRight → List AccessRight → List AccessRight
unfolding remove_forbidden_access_rights get_access_rights
optional_rights c chat required optional =
    if is_empty optional && is_empty required
    then remove_forbidden_access_rights c (get_access_rights chat)
    else optional

unfoldable pub initialize_chat : Template → Rights → Rights
unfolding asked_rights without_required optional_rights keep_rights contains_right
initialize_chat chat c =
    let required = asked_rights c c.eac1.required_chat in
    let optional =
      optional_rights c chat required
        (without_required required (asked_rights c c.eac1.optional_chat)) in
    record c { required = required; optional = optional; effective = unite required optional }

unfoldable pub set_terminal_cvc : Template → Rights → Rights
unfolding initialize_chat contains_right get_access_rights
set_terminal_cvc chat c = initialize_chat chat (record c {
  terminal_chat = some chat;
  can_allowed_mode = contains_right (get_access_rights chat) can_allowed;
})

unfoldable pub add_effective_access_right : AccessRight → Rights → Bool × Rights
unfolding contains_right
add_effective_access_right right c =
    if contains_right c.effective right
    then (true, c)
    else if contains_right c.optional right
    then (true, record c { effective = right ∷ c.effective })
    else (false, c)

unfoldable pub remove_effective_access_right : AccessRight → Rights → Bool × Rights
unfolding contains_right keep_rights same_right
remove_effective_access_right right c = if contains_right c.required right then (false, c) else (
  true,
  if contains_right c.effective right
      then record c { effective = remove_from right c.effective }
      else c,
)

unfoldable pub add_rights : List AccessRight → Rights → Rights
unfolding add_effective_access_right
add_rights [] c = c
add_rights (right ∷ rights) c = add_rights rights (add_effective_access_right right c).1

unfoldable pub set_effective_access_rights : List AccessRight → Rights → Rights
unfolding add_rights
set_effective_access_rights rights c = add_rights rights (record c { effective = c.required })

unfoldable pub encode_effective_chat : Template → Rights → Template
unfolding remove_all_access_rights set_access_rights set_access_right
encode_effective_chat chat c =
    let effective_chat = set_access_rights c.effective (remove_all_access_rights chat) in
    if c.can_allowed_mode then set_access_right can_allowed effective_chat else effective_chat
