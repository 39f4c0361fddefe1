-- ===== src/Pace/Passwords/Cleared.antt =====
-- When the passwords of src/core/context/WorkflowContext.cpp are deleted, and what keeps them so.
use ausweisapp2_android_sdk.Base.{
  if◌then◌else◌, Bool-cases, is_empty, ℕ, ◌≡◌, refl, ◌∙◌, inl, inr, Bool, true, false, ◌&&◌, ◌||◌,
  [], ◌∷◌, arith,
}
use ausweisapp2_android_sdk.Status.{
  Code, CardReturnCode, ok, invalid_pin, cancellation_by_user, puk_inoperative, to_global_status,
  equals_wrong_pace_password, is_no_error, is_error,
}
use ausweisapp2_android_sdk.Pace.Context.{
  Text, PacePasswordId, Context, set_status, set_last_pace_result, reset_pace_passwords,
  reset_card_connection, set_npa_position_verified, handle_wrong_npa_position, update_status,
}
use ausweisapp2_android_sdk.Pace.States.{Reaction}
use ausweisapp2_android_sdk.Pace.Establish.{
  is_ok, handle_npa_position, expect_after_success, succeeded, wrong_pin_entered, failed, react,
  note_connection, keep_output, establish_connection_done,
}
use ausweisapp2_android_sdk.Pace.Machine.{
  StateName, maintain_card_connection, clear_pace_passwords_on_error, unfortunate_card_position,
  clear_pace_passwords_before_destroy, destroy_pace, aborted, faulted,
}
use ausweisapp2_android_sdk.Pace.Invariant.{leads, after, leads-after}

-- No password is set.
unfoldable pub is_cleared : Context → Bool
is_cleared c = is_empty c.can && is_empty c.pin && is_empty c.puk

-- The states from which refused passwords do not come back to the card; `b` tells that the last
-- result is a refusal or that the workflow has failed.
unfoldable pub keeps_out : StateName → Bool → Bool
keeps_out clear_pace_passwords_on_error b = true
keeps_out aborted b = true
keeps_out faulted b = true
keeps_out clear_pace_passwords_before_destroy b = b
keeps_out destroy_pace b = b
keeps_out maintain_card_connection b = b
keeps_out unfortunate_card_position b = b
keeps_out _ b = false

unfoldable pub is_refused : Context → Bool
unfolding equals_wrong_pace_password is_error is_no_error
is_refused c = is_error c.status || equals_wrong_pace_password c.last_pace_result

-- No refused password can come back to the card from here.
unfoldable pub is_safe : StateName → Context → Bool
unfolding is_cleared keeps_out is_refused
is_safe s c = is_cleared c || keeps_out s (is_refused c)

unfoldable pub is_safe_answer : StateName → Reaction → Bool
unfolding is_safe after
is_safe_answer s r = is_safe (after s r.1) r.0

pub leads-is_safe :
    (s : StateName) (r : Reaction) → is_safe_answer s r ≡ true → leads is_safe s r ≡ true
unfolding is_safe_answer
leads-is_safe s r h = leads-after is_safe (λ s c k. unfold is_safe is_cleared is_refused in k) s r h

pub is_safe_cleared : (s : StateName) (c : Context) → is_cleared c ≡ true → is_safe s c ≡ true
unfolding is_safe
is_safe_cleared s c h = ground arith

pub is_cleared-update_status :
    (s : Code) (c : Context) → is_cleared (update_status s c) ≡ is_cleared c
unfolding is_cleared update_status set_status
is_cleared-update_status s c = elim (Bool-cases (is_error s && is_no_error c.status)) [
  | inl e ↦ rw e
  | inr e ↦ rw e
]

pub is_cleared-react :
    (now : ℕ) (r : CardReturnCode) (id : PacePasswordId) (c : Context)
    → is_cleared (react now r id c).0 ≡ is_cleared c
unfolding is_cleared react succeeded failed wrong_pin_entered set_last_pace_result
is_cleared-react now ok id c = ground arith
is_cleared-react now puk_inoperative id c =
    is_cleared-update_status (to_global_status puk_inoperative) c
is_cleared-react now cancellation_by_user id c =
    is_cleared-update_status (to_global_status cancellation_by_user) c
is_cleared-react now invalid_pin id c = ground arith
is_cleared-react now r id c = refl

pub is_cleared-handle_npa_position :
    (now : ℕ) (r : CardReturnCode) (c : Context)
    → is_cleared (handle_npa_position now r c) ≡ is_cleared c
unfolding is_cleared handle_npa_position handle_wrong_npa_position set_npa_position_verified
    reset_card_connection
is_cleared-handle_npa_position now r c = ground arith

pub expect_after_success-is_cleared :
    (id : PacePasswordId) (c : Context)
    → is_cleared c ≡ true
    → is_cleared (expect_after_success id c) ≡ true
unfolding is_cleared expect_after_success reset_pace_passwords
expect_after_success-is_cleared id c h = ground arith

if-is_cleared :
    (b : Bool) (x y : Context)
    → is_cleared x ≡ true
    → is_cleared y ≡ true
    → is_cleared (if b then x else y) ≡ true
if-is_cleared true x y h k = h
if-is_cleared false x y h k = k

set_last_pace_result-is_cleared :
    (r : CardReturnCode) (c : Context)
    → is_cleared c ≡ true
    → is_cleared (set_last_pace_result r (keep_output c.channel_type (note_connection r c))) ≡ true
unfolding is_cleared set_last_pace_result note_connection
set_last_pace_result-is_cleared r c h = h

pub establish_connection_done-is_cleared :
    (now : ℕ) (r : CardReturnCode) (c : Context)
    → is_cleared c ≡ true
    → is_cleared (establish_connection_done now r c).0 ≡ true
unfolding establish_connection_done
establish_connection_done-is_cleared now r c h =
    let noted = set_last_pace_result r (keep_output c.channel_type (note_connection r c)) in
    let placed = handle_npa_position now r noted in
    let placed_cleared : is_cleared placed ≡ true =
      is_cleared-handle_npa_position now r noted ∙ set_last_pace_result-is_cleared r c h in
    is_cleared-react now r c.channel_type
      (if is_ok r then expect_after_success c.channel_type placed else placed)
    ∙ if-is_cleared (is_ok r) (expect_after_success c.channel_type placed) placed
        (expect_after_success-is_cleared c.channel_type placed placed_cleared) placed_cleared

unfoldable pub Wiped : Context → Type 0
Wiped c = (c.can ≡ []) × (c.pin ≡ []) × (c.puk ≡ [])

pub is_empty→[] : (t : Text) → is_empty t ≡ true → t ≡ []
is_empty→[] [] h = refl
is_empty→[] (a ∷ t) h = ground arith

pub is_cleared→Wiped : (c : Context) → is_cleared c ≡ true → Wiped c
unfolding Wiped is_cleared
is_cleared→Wiped c h = (
  is_empty→[] c.can (ground arith),
  is_empty→[] c.pin (ground arith),
  is_empty→[] c.puk (ground arith),
)
