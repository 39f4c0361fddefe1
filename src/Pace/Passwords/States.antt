-- ===== src/Pace/Passwords/States.antt =====
-- What the states of src/core/states do to passwords that the card has refused.
use ausweisapp2_android_sdk.Base.{
  if◌then◌else◌, ℕ, ◌≡◌, ◌∙◌, true, false, not, ◌&&◌, none, some, List, arith,
}
use ausweisapp2_android_sdk.Status.{
  Code, CardReturnCode, ok, invalid_pin, equals_wrong_pace_password, is_no_error, is_error,
}
use ausweisapp2_android_sdk.Pace.Context.{
  Context, set_status, set_last_pace_result, reset_last_pace_result, reset_pace_passwords,
  reset_card_connection, set_npa_position_verified, handle_wrong_npa_position, remember_reader,
  update_status,
}
use ausweisapp2_android_sdk.Pace.States.{
  fire_abort, wait, Reaction, check_connection, abort_with_result, forget_passwords, maintain_after,
  run_maintain_card_connection, run_clear_pace_passwords, expect, verify, run_verify_retry_counter,
  request_pace_can, prepare_pin, prepare, run_prepare_pace, run_enter_pace_password,
  run_unfortunate_card_position, run_update_retry_counter, update_retry_counter_done,
  run_destroy_pace,
}
use ausweisapp2_android_sdk.Pace.Establish.{
  abort, run_establish_pace_channel, handle_npa_position, wrong_pin_entered, failed, react,
  establish_connection_done,
}
use ausweisapp2_android_sdk.Pace.Reader.{
  ReaderInfo, on_reader_info_changed, is_scan_error, on_reader_device_error, on_command_done,
}
use ausweisapp2_android_sdk.Pace.Machine.{
  StateName, maintain_card_connection, clear_pace_passwords_on_error, select_reader, connect_card,
  update_retry_counter, verify_retry_counter, prepare_pace, unfortunate_card_position,
  enter_pace_password, establish_pace_channel, clear_pace_passwords_before_destroy, destroy_pace,
  aborted, transition, run_state, on_user_cancelled,
}
use ausweisapp2_android_sdk.Pace.Events.{
  Event, destroy_done, readers_changed, device_error, command_done, reader_removed, update_done,
  establish_done, answer, on_plug_ins_changed,
}
use ausweisapp2_android_sdk.Pace.Invariant.{after}
use ausweisapp2_android_sdk.Pace.Passwords.Cleared.{
  is_cleared, keeps_out, is_refused, is_safe, is_safe_answer, is_safe_cleared,
  is_cleared-update_status, establish_connection_done-is_cleared,
}

pub run_state-is_safe :
    (s : StateName) (rs : List ReaderInfo) (c : Context)
    → is_safe s c ≡ true
    → is_safe_answer s (run_state s rs c) ≡ true
unfolding is_safe_answer is_safe is_cleared after keeps_out is_refused transition run_state
run_state-is_safe maintain_card_connection rs c h =
    unfold run_maintain_card_connection maintain_after check_connection abort_with_result
      forget_passwords reset_pace_passwords reset_card_connection reset_last_pace_result
      set_last_pace_result equals_wrong_pace_password update_status in
    ground arith
run_state-is_safe select_reader rs c h = unfold on_reader_info_changed in ground arith
run_state-is_safe verify_retry_counter rs c h =
    unfold run_verify_retry_counter verify expect remember_reader reset_pace_passwords in
    ground arith
run_state-is_safe prepare_pace rs c h =
    unfold run_prepare_pace prepare request_pace_can prepare_pin in ground arith
run_state-is_safe establish_pace_channel rs c h =
    unfold run_establish_pace_channel abort reset_pace_passwords reset_last_pace_result
      set_last_pace_result in
    ground arith
run_state-is_safe unfortunate_card_position rs c h =
    unfold run_unfortunate_card_position set_npa_position_verified in ground arith
run_state-is_safe enter_pace_password rs c h = unfold run_enter_pace_password in ground arith
run_state-is_safe update_retry_counter rs c h = unfold run_update_retry_counter in ground arith
run_state-is_safe destroy_pace rs c h = unfold run_destroy_pace in ground arith
run_state-is_safe clear_pace_passwords_on_error rs c h =
    unfold run_clear_pace_passwords reset_pace_passwords in ground arith
run_state-is_safe clear_pace_passwords_before_destroy rs c h =
    unfold run_clear_pace_passwords reset_pace_passwords in ground arith
run_state-is_safe _ rs c h = ground arith

pub on_user_cancelled-is_safe :
    (s : StateName) (c : Context)
    → is_safe s c ≡ true
    → is_safe_answer s (on_user_cancelled s c) ≡ true
unfolding is_safe_answer is_safe is_cleared after keeps_out is_refused transition on_user_cancelled
    update_status set_last_pace_result set_status is_error is_no_error
on_user_cancelled-is_safe aborted c h = ground arith
on_user_cancelled-is_safe _ c h = ground arith

on_reader_device_error-is_safe :
    (s : Code) (c : Context)
    → is_cleared c ≡ true
    → is_safe_answer select_reader (on_reader_device_error s c) ≡ true
unfolding is_safe_answer after is_safe on_reader_device_error
on_reader_device_error-is_safe s c h =
    elim (is_error s && not (is_scan_error s))
      as (λ b.
        let r : Reaction = if b then (update_status s c, fire_abort) else (c, wait) in
        is_safe (after select_reader r.1) r.0 ≡ true) [
          | true ↦
              is_safe_cleared (after select_reader fire_abort) (update_status s c)
                (is_cleared-update_status s c ∙ h)
          | false ↦ is_safe_cleared (after select_reader wait) c h
        ]

pub on_plug_ins_changed-is_safe :
    (s : StateName) (c : Context)
    → is_safe s c ≡ true
    → is_safe (after s (on_plug_ins_changed s)) c ≡ true
unfolding on_plug_ins_changed transition is_safe keeps_out after
on_plug_ins_changed-is_safe select_reader c h = h
on_plug_ins_changed-is_safe connect_card c h = h
on_plug_ins_changed-is_safe _ c h = h

pub answer-is_safe :
    (s : StateName) (e : Event) (rs : List ReaderInfo) (c : Context)
    → is_safe s c ≡ true
    → is_safe_answer s (answer s e rs c) ≡ true
unfolding answer is_safe_answer is_refused keeps_out is_cleared transition
answer-is_safe select_reader (readers_changed l) rs c h =
    unfold on_reader_info_changed in ground arith
answer-is_safe select_reader (device_error s) rs c h =
    on_reader_device_error-is_safe s c (ground arith)
answer-is_safe connect_card (command_done none) rs c h = unfold on_command_done in ground arith
answer-is_safe connect_card (command_done (some k)) rs c h = unfold on_command_done in ground arith
answer-is_safe connect_card (reader_removed name) rs c h = ground arith
answer-is_safe update_retry_counter (update_done ok) rs c h =
    unfold update_retry_counter_done in ground arith
answer-is_safe update_retry_counter (update_done r) rs c h =
    unfold update_retry_counter_done reset_card_connection in ground arith
answer-is_safe establish_pace_channel (establish_done now r) rs c h =
    ground (arith, establish_connection_done-is_cleared now r c)
answer-is_safe destroy_pace destroy_done rs c h = ground arith
answer-is_safe _ _ rs c h = ground arith

pub establish_connection_done-refused :
    (now : ℕ) (r : CardReturnCode) (c : Context)
    → equals_wrong_pace_password r ≡ true
    → is_safe_answer establish_pace_channel (establish_connection_done now r c) ≡ true
unfolding is_safe_answer is_safe is_cleared after keeps_out is_refused transition
    establish_connection_done react wrong_pin_entered failed handle_npa_position
    set_last_pace_result equals_wrong_pace_password handle_wrong_npa_position
    set_npa_position_verified
establish_connection_done-refused now invalid_pin c h = ground arith
establish_connection_done-refused now ok c h = ground arith
establish_connection_done-refused now r c h = ground arith
