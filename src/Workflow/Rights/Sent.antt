-- ===== src/Workflow/Rights/Sent.antt =====
-- The CHAT that src/core/context/AuthContext.cpp sends to the card, from the terminal's certificate
-- on and after every sequence of calls on the effective rights.
use ausweisapp2_android_sdk.Base.{
  ◌≡◌, refl, sym, ◌∙◌, ◌⊎◌, Bool, true, false, not, ◌&&◌, ◌||◌, some, List, inl, inr, Bool-cases,
  arith,
}
use ausweisapp2_android_sdk.Card.AccessRight.{AccessRight, same_right, can_allowed}
use ausweisapp2_android_sdk.Card.Chat.{
  Template, get_access_role, get_access_rights, has_access_right, contains_right,
}
use ausweisapp2_android_sdk.Card.Chat.Fields.{IsFull}
use ausweisapp2_android_sdk.Workflow.Rights.{
  Eac1, Rights, set_terminal_cvc, encode_effective_chat, add_effective_access_right,
  remove_effective_access_right,
}
use ausweisapp2_android_sdk.Workflow.Rights.Sets.{contains_right-same}
use ausweisapp2_android_sdk.Workflow.Rights.Granted.{
  is_allowed, has_access_right-same, is_allowed-granted,
}
use ausweisapp2_android_sdk.Workflow.Rights.Limited.{
  IsLimited, RightsCall, run_calls, run_calls-IsLimited, set_terminal_cvc-IsLimited,
  add_effective_access_right-IsLimited, remove_effective_access_right-IsLimited,
  set_terminal_cvc-required,
}
use ausweisapp2_android_sdk.Workflow.Rights.Answers.{
  add_effective_access_right-answer, remove_effective_access_right-answer,
}
use ausweisapp2_android_sdk.Workflow.Rights.Encoded.{
  encode_effective_chat-role, encode_effective_chat-right,
}

unfoldable pub rights_after : Template → List RightsCall → Rights → Rights
unfolding run_calls set_terminal_cvc
rights_after chat calls c = run_calls calls (set_terminal_cvc chat c)

both : (a b c : Bool) → a ≡ false → a || (b && c) ≡ true → (b ≡ true) × (c ≡ true)
both a b c h e = ground arith

sent_right :
    {e : Eac1} {required : List AccessRight} (chat : Template) (full : IsFull chat) (c : Rights)
    (answer : Bool) (right : AccessRight)
    → IsLimited chat e required c
    → contains_right c.effective right ≡ answer
    → has_access_right right (encode_effective_chat chat c)
      ≡ answer || (has_access_right can_allowed chat && same_right can_allowed right)
sent_right chat full c answer right l a =
    encode_effective_chat-right chat full c right
    ∙ (λ i. a i || (l.mode i && same_right can_allowed right))

module _ (chat : Template) (full : IsFull chat) (c : Rights) (calls : List RightsCall) where
  limited : IsLimited chat c.eac1 (set_terminal_cvc chat c).required (rights_after chat calls c)
  unfolding rights_after
  limited = run_calls-IsLimited chat c.eac1 _ calls _ (set_terminal_cvc-IsLimited chat c)

  mode_sent :
      (right r : AccessRight)
      → same_right right r ≡ true
      → has_access_right right chat ≡ true
      → has_access_right r chat ≡ true
  mode_sent right r e h =
      has_access_right-same chat r
      ∙ sym (contains_right-same (get_access_rights chat) right r e)
      ∙ sym (has_access_right-same chat right)
      ∙ h

  -- After setTerminalCvc with a CHAT of five bytes, and any calls that add, remove and set
  -- effective rights, each right in the CHAT for the card is granted by the CHAT of the terminal,
  -- and it is CAN_ALLOWED or it is displayed and the auxiliary data that it needs, a date for the
  -- age and a community for the place, are there.
  pub sent_chat-is_allowed :
      (r : AccessRight)
      → has_access_right r (encode_effective_chat chat (rights_after chat calls c)) ≡ true
      → (has_access_right r chat ≡ true)
        × ((is_allowed chat c.eac1 r ≡ true) ⊎ (same_right can_allowed r ≡ true))
  sent_chat-is_allowed r sent =
      let after = rights_after chat calls c in
      let e = sym (encode_effective_chat-right chat full after r) ∙ sent in
      elim (Bool-cases (contains_right after.effective r)) [
        | inl h ↦
            let allowed = limited.allows_effective r h in
            (is_allowed-granted chat c.eac1 r allowed, inl allowed)
        | inr h ↦
            let (can, same) =
              both (contains_right after.effective r) after.can_allowed_mode
                (same_right can_allowed r) h e in
            (mode_sent can_allowed r same (sym limited.mode ∙ can), inr same)
      ]

  -- After setTerminalCvc with a CHAT of five bytes, and any calls that add, remove and set
  -- effective rights: the CHAT for the card has each right of the required CHAT that the CHAT of
  -- the terminal grants, that is displayed and whose auxiliary data are there, and it has the
  -- role of the terminal.
  pub sent_chat-required :
      (asked : Template) (r : AccessRight)
      → c.eac1.required_chat ≡ some asked
      → has_access_right r asked ≡ true
      → is_allowed chat c.eac1 r ≡ true
      → (has_access_right r (encode_effective_chat chat (rights_after chat calls c)) ≡ true)
        × (get_access_role (encode_effective_chat chat (rights_after chat calls c))
            ≡ get_access_role chat)
  sent_chat-required asked r q h a =
      let after = rights_after chat calls c in
      let there = limited.requires r (set_terminal_cvc-required chat c asked r q h a) in
      (
        encode_effective_chat-right chat full after r ∙ rw there refl,
        encode_effective_chat-role chat full after,
      )

  -- After setTerminalCvc with a CHAT of five bytes, and any calls that add, remove and set
  -- effective rights: a right other than CAN_ALLOWED is in the CHAT for the card after
  -- addEffectiveAccessRight exactly if that says yes, and after removeEffectiveAccessRight
  -- exactly if that says no; CAN_ALLOWED is there anyway if the terminal has it.
  pub sent_chat_answered :
      (right : AccessRight)
      → let after = rights_after chat calls c in
        let can = has_access_right can_allowed chat && same_right can_allowed right in
        let (taken, added) = add_effective_access_right right after in
        let (left, removed) = remove_effective_access_right right after in
        (has_access_right right (encode_effective_chat chat added) ≡ taken || can)
        × (has_access_right right (encode_effective_chat chat removed) ≡ not left || can)
  sent_chat_answered right =
      let after = rights_after chat calls c in
      (
        sent_right chat full (add_effective_access_right right after).1 _ right
            (add_effective_access_right-IsLimited chat c.eac1 _ right after limited)
            (add_effective_access_right-answer right after),
        sent_right chat full (remove_effective_access_right right after).1 _ right
            (remove_effective_access_right-IsLimited chat c.eac1 _ right after limited)
            (remove_effective_access_right-answer chat c.eac1 _ right after limited),
      )
