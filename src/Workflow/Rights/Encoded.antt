-- ===== src/Workflow/Rights/Encoded.antt =====
-- The CHAT that encodeEffectiveChat of src/core/context/AuthContext.cpp makes, right by right.
use ausweisapp2_android_sdk.Base.{
  ◌≡◌, refl, ap, ◌∙◌, true, ◌&&◌, ◌||◌, List, [], ◌∷◌, if◌then◌else◌, inl, inr, Bool-cases, arith,
}
use ausweisapp2_android_sdk.Card.AccessRight.{AccessRight, same_right, can_allowed}
use ausweisapp2_android_sdk.Card.Chat.{Template, get_access_role, has_access_right, contains_right}
use ausweisapp2_android_sdk.Card.Chat.Fields.{IsFull, IsTemplate}
use ausweisapp2_android_sdk.Card.Chat.Grants.{
  Grant, view, grant, grant_all, touched, touched-full, nothing_left,
}
use ausweisapp2_android_sdk.Card.Chat.Sets.{touched_twice, same_right_sym}
use ausweisapp2_android_sdk.Card.Chat.Refines.{
  Call, set_right, set_rights, remove_all, run_calls, run_call, specify_all, run_calls_lem,
}
use ausweisapp2_android_sdk.Workflow.Rights.{Rights, encode_effective_chat}

grant_all-role :
    (rights : List AccessRight) (g : Grant)
    → touched g.role ≡ g.role
    → (grant_all rights g).role ≡ g.role
grant_all-role [] g h = refl
grant_all-role (right ∷ rest) g h =
    grant_all-role rest (grant true right g) (touched_twice g.role) ∙ h

grant_all-granted :
    (rights : List AccessRight) (g : Grant) (r : AccessRight)
    → (grant_all rights g).granted r ≡ contains_right rights r || g.granted r
unfolding contains_right
grant_all-granted [] g r = refl
grant_all-granted (right ∷ rest) g r =
    grant_all-granted rest (grant true right g) r ∙ rw (same_right_sym r right) (ground arith)

-- The calls on the copy of the terminal's CHAT.
abbrev calls_on_chat : Rights → List Call
calls_on_chat c =
    remove_all
    ∷ set_rights c.effective
    ∷ (if c.can_allowed_mode then set_right can_allowed ∷ [] else [])

encode_effective_chat-run_calls :
    (chat : Template) (c : Rights) → encode_effective_chat chat c ≡ run_calls (calls_on_chat c) chat
unfolding encode_effective_chat run_calls run_call
encode_effective_chat-run_calls chat c = elim (Bool-cases c.can_allowed_mode) [
  | inl on ↦ rw on refl
  | inr off ↦ rw off refl
]

specified :
    (c : Rights) (g : Grant)
    → touched g.role ≡ g.role
    → ((specify_all (calls_on_chat c) g).role ≡ g.role)
      × ((r : AccessRight)
          → (specify_all (calls_on_chat c) g).granted r
            ≡ contains_right c.effective r || (c.can_allowed_mode && same_right can_allowed r))
specified c g h =
    let role = grant_all-role c.effective (nothing_left g) h in
    elim (Bool-cases c.can_allowed_mode) [
      | inl on ↦ rw on (
        ap touched role ∙ h,
        λ r.
            rw (same_right_sym r can_allowed, grant_all-granted c.effective (nothing_left g) r)
              (ground arith),
      )
      | inr off ↦
          rw off (role, λ r. grant_all-granted c.effective (nothing_left g) r ∙ ground arith)
    ]

module _ (chat : Template) (full : IsFull chat) (c : Rights) where
  encoded :
      (IsTemplate (encode_effective_chat chat c))
      × (view (encode_effective_chat chat c) ≡ specify_all (calls_on_chat c) (view chat))
  encoded =
      rw (encode_effective_chat-run_calls chat c) (run_calls_lem (calls_on_chat c) chat (inr full))

  pub encode_effective_chat-role :
      get_access_role (encode_effective_chat chat c) ≡ get_access_role chat
  unfolding view
  encode_effective_chat-role =
      ap (λ g. g.role) encoded.1 ∙ (specified c (view chat) (touched-full chat full)).0

  pub encode_effective_chat-right :
      (r : AccessRight)
      → has_access_right r (encode_effective_chat chat c)
        ≡ contains_right c.effective r || (c.can_allowed_mode && same_right can_allowed r)
  unfolding view
  encode_effective_chat-right r =
      ap (λ g. g.granted r) encoded.1 ∙ (specified c (view chat) (touched-full chat full)).1 r
