-- ===== src/Workflow/Rights/Limited.antt =====
-- The rights of src/core/context/AuthContext.cpp from the terminal's certificate on, under every
-- sequence of calls on the effective rights.
use ausweisapp2_android_sdk.Base.{
  ◌≡◌, refl, ap, sym, ◌∙◌, Bool, true, false, not, ◌&&◌, Option, none, some, List, [], ◌∷◌,
  if◌then◌else◌, is_empty, inl, inr, Bool-cases, arith,
}
use ausweisapp2_android_sdk.Card.AccessRight.{AccessRight, same_right, can_allowed}
use ausweisapp2_android_sdk.Card.Chat.{
  Template, get_access_rights, has_access_right, contains_right,
}
use ausweisapp2_android_sdk.Workflow.Rights.{
  Eac1, Rights, subtract, unite, remove_from, remove_forbidden_access_rights, asked_rights,
  without_required, optional_rights, initialize_chat, set_terminal_cvc, add_effective_access_right,
  remove_effective_access_right, add_rights, set_effective_access_rights,
}
use ausweisapp2_android_sdk.Workflow.Rights.Sets.{
  contains_right-same, contains_right-subtract, contains_right-unite, contains_right-remove_from,
}
use ausweisapp2_android_sdk.Workflow.Rights.Granted.{
  is_allowed, has_access_right-same, remove_forbidden_access_rights-is_allowed,
}

pub and_left : (a b : Bool) → a && b ≡ true → a ≡ true
and_left a b h = ground arith

pub and_right : (a b : Bool) → a && b ≡ true → b ≡ true
and_right a b h = ground arith

both_true : (a b : Bool) → a ≡ true → b ≡ true → a && b ≡ true
both_true a b h h' = ground arith

abbrev pub Allows : Template → Eac1 → List AccessRight → Type 0
Allows chat e s = (r : AccessRight) → contains_right s r ≡ true → is_allowed chat e r ≡ true

pub record IsLimited (chat : Template) (e : Eac1) (required : List AccessRight) (c : Rights)
    : Type 0 where
  pub mode : c.can_allowed_mode ≡ has_access_right can_allowed chat
  pub kept : c.required ≡ required
  pub requires :
      (r : AccessRight) → contains_right required r ≡ true → contains_right c.effective r ≡ true
  pub allows_required : Allows chat e required
  pub allows_optional : Allows chat e c.optional
  pub allows_effective : Allows chat e c.effective

module _ (chat : Template) (c : Rights) (t : c.terminal_chat ≡ some chat) where
  forbidden_gone : (s : List AccessRight) → Allows chat c.eac1 (remove_forbidden_access_rights c s)
  forbidden_gone s r h =
      and_right (contains_right s r) (is_allowed chat c.eac1 r)
        (sym (remove_forbidden_access_rights-is_allowed chat c s r t) ∙ h)

  asked_rights-Allows : (asked : Option Template) → Allows chat c.eac1 (asked_rights c asked)
  unfolding asked_rights contains_right
  asked_rights-Allows none r h = ground arith
  asked_rights-Allows (some template) r h = forbidden_gone (get_access_rights template) r h

  subtract-Allows :
      (s t : List AccessRight) → Allows chat c.eac1 s → Allows chat c.eac1 (subtract s t)
  subtract-Allows s t a r h = a r (
      and_left (contains_right s r) (not (contains_right t r))
        (sym (contains_right-subtract s t r) ∙ h))

  if-Allows :
      (b : Bool) (s t : List AccessRight)
      → Allows chat c.eac1 s
      → Allows chat c.eac1 t
      → Allows chat c.eac1 (if b then s else t)
  if-Allows true s t a a' = a
  if-Allows false s t a a' = a'

  without_required-Allows :
      (required optional : List AccessRight)
      → Allows chat c.eac1 optional
      → Allows chat c.eac1 (without_required required optional)
  unfolding without_required
  without_required-Allows required optional a =
      if-Allows (not (is_empty optional) && not (is_empty required)) (subtract optional required)
        optional (subtract-Allows optional required a) a

  optional_rights-Allows :
      (required optional : List AccessRight)
      → Allows chat c.eac1 optional
      → Allows chat c.eac1 (optional_rights c chat required optional)
  unfolding optional_rights
  optional_rights-Allows required optional a =
      if-Allows (is_empty optional && is_empty required)
        (remove_forbidden_access_rights c (get_access_rights chat)) optional
        (forbidden_gone (get_access_rights chat)) a

  initial_required : List AccessRight
  initial_required = asked_rights c c.eac1.required_chat

  initial_optional : List AccessRight
  unfolding initial_required
  initial_optional =
      optional_rights c chat initial_required
        (without_required initial_required (asked_rights c c.eac1.optional_chat))

  initial_optional-Allows : Allows chat c.eac1 initial_optional
  unfolding initial_optional
  initial_optional-Allows =
      optional_rights-Allows initial_required _
        (without_required-Allows initial_required _ (asked_rights-Allows c.eac1.optional_chat))

  unite-Allows :
      (s t' : List AccessRight)
      → Allows chat c.eac1 s
      → Allows chat c.eac1 t'
      → Allows chat c.eac1 (unite s t')
  unite-Allows s t' a b r h = elim (Bool-cases (contains_right s r)) [
    | inl first ↦ a r first
    | inr second ↦ b r (sym (rw (contains_right-unite s t' r, second) refl) ∙ h)
  ]

  unite-requires :
      (s t' : List AccessRight) (r : AccessRight)
      → contains_right s r ≡ true
      → contains_right (unite s t') r ≡ true
  unite-requires s t' r h = contains_right-unite s t' r ∙ rw h refl

  initialize_chat-IsLimited :
      c.can_allowed_mode ≡ has_access_right can_allowed chat
      → IsLimited chat c.eac1 (initialize_chat chat c).required (initialize_chat chat c)
  unfolding initialize_chat initial_required initial_optional
  initialize_chat-IsLimited m = record {
    mode = m;
    kept = refl;
    requires = unite-requires initial_required initial_optional;
    allows_required = asked_rights-Allows c.eac1.required_chat;
    allows_optional = initial_optional-Allows;
    allows_effective =
        unite-Allows initial_required initial_optional (asked_rights-Allows c.eac1.required_chat)
          initial_optional-Allows;
  }

  initialize_chat-required :
      (asked : Template) (r : AccessRight)
      → c.eac1.required_chat ≡ some asked
      → has_access_right r asked ≡ true
      → is_allowed chat c.eac1 r ≡ true
      → contains_right (initialize_chat chat c).required r ≡ true
  unfolding initialize_chat asked_rights
  initialize_chat-required asked r q h a =
      ap (λ o. contains_right (asked_rights c o) r) q
      ∙ remove_forbidden_access_rights-is_allowed chat c (get_access_rights asked) r t
      ∙ both_true (contains_right (get_access_rights asked) r) _
          (sym (has_access_right-same asked r) ∙ h) a

-- The object as setTerminalCvc has it when it calls initializeChat.
abbrev with_terminal : Template → Rights → Rights
with_terminal chat c = record c {
  terminal_chat = some chat;
  can_allowed_mode = contains_right (get_access_rights chat) can_allowed;
}

pub set_terminal_cvc-required :
    (chat : Template) (c : Rights) (asked : Template) (r : AccessRight)
    → c.eac1.required_chat ≡ some asked
    → has_access_right r asked ≡ true
    → is_allowed chat c.eac1 r ≡ true
    → contains_right (set_terminal_cvc chat c).required r ≡ true
unfolding set_terminal_cvc
set_terminal_cvc-required chat c = initialize_chat-required chat (with_terminal chat c) refl

pub set_terminal_cvc-IsLimited :
    (chat : Template) (c : Rights)
    → IsLimited chat c.eac1 (set_terminal_cvc chat c).required (set_terminal_cvc chat c)
unfolding set_terminal_cvc
set_terminal_cvc-IsLimited chat c =
    initialize_chat-IsLimited chat (with_terminal chat c) refl
      (sym (has_access_right-same chat can_allowed))

-- The calls of the user interface on the effective rights.
pub data RightsCall : Type 0 where
  add_right remove_right : AccessRight → RightsCall
  set_all : List AccessRight → RightsCall

unfoldable pub run_call : RightsCall → Rights → Rights
unfolding add_effective_access_right remove_effective_access_right set_effective_access_rights
run_call (add_right right) c = (add_effective_access_right right c).1
run_call (remove_right right) c = (remove_effective_access_right right c).1
run_call (set_all rights) c = set_effective_access_rights rights c

unfoldable pub run_calls : List RightsCall → Rights → Rights
unfolding run_call
run_calls [] c = c
run_calls (call ∷ calls) c = run_calls calls (run_call call c)

abbrev pub add_if : Bool → Bool → AccessRight → Rights → Bool × Rights
add_if there offered right c =
    if there
    then (true, c)
    else if offered
    then (true, record c { effective = right ∷ c.effective })
    else (false, c)

abbrev pub remove_if : Bool → Bool → AccessRight → Rights → Bool × Rights
remove_if needed there right c =
    if needed
    then (false, c)
    else (true, if there then record c { effective = remove_from right c.effective } else c)

module _ (chat : Template) (e : Eac1) (required : List AccessRight) where
  cons-contains :
      (s : List AccessRight) (right r : AccessRight)
      → contains_right s r ≡ true
      → contains_right (right ∷ s) r ≡ true
  unfolding contains_right
  cons-contains s right r h = ground arith

  cons-Allows :
      (right : AccessRight) (s t : List AccessRight)
      → Allows chat e s
      → Allows chat e t
      → contains_right t right ≡ true
      → Allows chat e (right ∷ s)
  unfolding contains_right
  cons-Allows right s t a b o r h = elim (Bool-cases (same_right right r)) [
    | inl same ↦ b r (sym (contains_right-same t right r same) ∙ o)
    | inr other ↦ a r (ground (arith, h))
  ]

  added :
      (right : AccessRight) (c : Rights) (there offered : Bool)
      → IsLimited chat e required c
      → contains_right c.optional right ≡ offered
      → IsLimited chat e required (add_if there offered right c).1
  added right c true offered l o = l
  added right c false true l o = record {
    mode = l.mode;
    kept = l.kept;
    requires = λ r h. cons-contains c.effective right r (l.requires r h);
    allows_required = l.allows_required;
    allows_optional = l.allows_optional;
    allows_effective =
        cons-Allows right c.effective c.optional l.allows_effective l.allows_optional o;
  }
  added right c false false l o = l

  pub add_effective_access_right-IsLimited :
      (right : AccessRight) (c : Rights)
      → IsLimited chat e required c
      → IsLimited chat e required (add_effective_access_right right c).1
  unfolding add_effective_access_right
  add_effective_access_right-IsLimited right c l =
      added right c (contains_right c.effective right) (contains_right c.optional right) l refl

  add_rights-IsLimited :
      (rights : List AccessRight) (c : Rights)
      → IsLimited chat e required c
      → IsLimited chat e required (add_rights rights c)
  unfolding add_rights
  add_rights-IsLimited [] c l = l
  add_rights-IsLimited (right ∷ rights) c l =
      add_rights-IsLimited rights _ (add_effective_access_right-IsLimited right c l)

  not_removed :
      (s : List AccessRight) (right r : AccessRight)
      → contains_right required right ≡ false
      → contains_right required r ≡ true
      → contains_right s r ≡ true
      → contains_right (remove_from right s) r ≡ true
  not_removed s right r n q h = elim (Bool-cases (same_right right r)) [
    | inl same ↦ absurd (ground (arith, contains_right-same required right r same))
    | inr other ↦ contains_right-remove_from right s r ∙ rw (h, other) refl
  ]

  removed :
      (right : AccessRight) (c : Rights) (needed there : Bool)
      → IsLimited chat e required c
      → contains_right c.required right ≡ needed
      → IsLimited chat e required (remove_if needed there right c).1
  removed right c true there l n = l
  removed right c false true l n = record {
    mode = l.mode;
    kept = l.kept;
    requires = λ r h.
        not_removed c.effective right r (sym (ap (λ s. contains_right s right) l.kept) ∙ n) h
          (l.requires r h);
    allows_required = l.allows_required;
    allows_optional = l.allows_optional;
    allows_effective = λ r h. l.allows_effective r (
        and_left (contains_right c.effective r) (not (same_right right r))
          (sym (contains_right-remove_from right c.effective r) ∙ h));
  }
  removed right c false false l n = l

  pub remove_effective_access_right-IsLimited :
      (right : AccessRight) (c : Rights)
      → IsLimited chat e required c
      → IsLimited chat e required (remove_effective_access_right right c).1
  unfolding remove_effective_access_right
  remove_effective_access_right-IsLimited right c l =
      removed right c (contains_right c.required right) (contains_right c.effective right) l refl

  run_call-IsLimited :
      (call : RightsCall) (c : Rights)
      → IsLimited chat e required c
      → IsLimited chat e required (run_call call c)
  unfolding run_call set_effective_access_rights
  run_call-IsLimited (add_right right) c l = add_effective_access_right-IsLimited right c l
  run_call-IsLimited (remove_right right) c l = remove_effective_access_right-IsLimited right c l
  run_call-IsLimited (set_all rights) c l = add_rights-IsLimited rights _ (record {
    mode = l.mode;
    kept = l.kept;
    requires = λ r h. ap (λ s. contains_right s r) l.kept ∙ h;
    allows_required = l.allows_required;
    allows_optional = l.allows_optional;
    allows_effective = λ r h. l.allows_required r (sym (ap (λ s. contains_right s r) l.kept) ∙ h);
  })

  pub run_calls-IsLimited :
      (calls : List RightsCall) (c : Rights)
      → IsLimited chat e required c
      → IsLimited chat e required (run_calls calls c)
  unfolding run_calls
  run_calls-IsLimited [] c l = l
  run_calls-IsLimited (call ∷ calls) c l = run_calls-IsLimited calls _ (run_call-IsLimited call c l)
