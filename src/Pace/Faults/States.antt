-- ===== src/Pace/Faults/States.antt =====
-- The states of src/core/states in a sound context.
use ausweisapp2_android_sdk.Base.{
  if◌then◌else◌, Bool-cases, ℕ, ◌≡◌, refl, ◌∙◌, inl, inr, true, false, not, ◌&&◌, none, some, List,
  arith,
}
use ausweisapp2_android_sdk.Status.{
  Code, card_not_found, CardReturnCode, ok, retry_allowed, card_not_found, invalid_pin,
  cancellation_by_user, puk_inoperative, to_global_status, is_no_error, is_error,
}
use ausweisapp2_android_sdk.Pace.Context.{
  Context, set_status, set_last_pace_result, reset_last_pace_result, reset_pace_passwords,
  reset_card_connection, set_npa_position_verified, handle_wrong_npa_position, remember_reader,
  update_status,
}
use ausweisapp2_android_sdk.Pace.States.{
  fire_abort, wait, Reaction, check_connection, abort_with_result, forget_passwords, maintain_after,
  run_maintain_card_connection, run_clear_pace_passwords, expect, verify, run_verify_retry_counter,
  request_pace_can, prepare_pin, prepare, run_prepare_pace, run_enter_pace_password,
  run_unfortunate_card_position, run_update_retry_counter, update_retry_counter_done,
  run_destroy_pace,
}
use ausweisapp2_android_sdk.Pace.Establish.{
  abort, run_establish_pace_channel, is_ok, note_result, handle_npa_position, expect_after_success,
  succeeded, wrong_pin_entered, failed, react, note_connection, keep_output,
  establish_connection_done,
}
use ausweisapp2_android_sdk.Pace.Reader.{
  ReaderInfo, on_reader_info_changed, is_scan_error, on_reader_device_error, on_command_done,
}
use ausweisapp2_android_sdk.Pace.Machine.{
  StateName, maintain_card_connection, clear_pace_passwords_on_error, select_reader, connect_card,
  update_retry_counter, verify_retry_counter, prepare_pace, unfortunate_card_position,
  enter_pace_password, establish_pace_channel, clear_pace_passwords_before_destroy, destroy_pace,
  aborted, transition, run_state, on_user_cancelled,
}
use ausweisapp2_android_sdk.Pace.Events.{
  Event, destroy_done, readers_changed, device_error, command_done, reader_removed, update_done,
  establish_done, answer, on_plug_ins_changed,
}
use ausweisapp2_android_sdk.Pace.Invariant.{after}
use ausweisapp2_android_sdk.Pace.Faults.Sound.{
  is_pin_done, has_connection, keeps_sound, is_sound, is_sound_answer, is_fresh,
}

pub run_state-is_sound :
    (s : StateName) (rs : List ReaderInfo) (c : Context)
    → is_sound s c ≡ true
    → is_sound_answer s (run_state s rs c) ≡ true
unfolding is_sound_answer is_sound is_pin_done has_connection keeps_sound after transition run_state
run_state-is_sound maintain_card_connection rs c h =
    unfold run_maintain_card_connection maintain_after check_connection abort_with_result
      forget_passwords reset_pace_passwords reset_card_connection reset_last_pace_result
      set_last_pace_result update_status set_status in
    ground arith
run_state-is_sound select_reader rs c h = unfold on_reader_info_changed in ground arith
run_state-is_sound verify_retry_counter rs c h =
    unfold run_verify_retry_counter verify expect remember_reader reset_pace_passwords in
    ground arith
run_state-is_sound prepare_pace rs c h =
    unfold run_prepare_pace prepare request_pace_can prepare_pin in ground arith
run_state-is_sound establish_pace_channel rs c h =
    unfold run_establish_pace_channel abort reset_pace_passwords reset_last_pace_result
      set_last_pace_result in
    ground arith
run_state-is_sound unfortunate_card_position rs c h =
    unfold run_unfortunate_card_position set_npa_position_verified in ground arith
run_state-is_sound enter_pace_password rs c h = unfold run_enter_pace_password in ground arith
run_state-is_sound update_retry_counter rs c h = unfold run_update_retry_counter in ground arith
run_state-is_sound destroy_pace rs c h = unfold run_destroy_pace in ground arith
run_state-is_sound clear_pace_passwords_on_error rs c h =
    unfold run_clear_pace_passwords reset_pace_passwords in ground arith
run_state-is_sound clear_pace_passwords_before_destroy rs c h =
    unfold run_clear_pace_passwords reset_pace_passwords in ground arith
run_state-is_sound _ rs c h = ground arith

pub on_user_cancelled-is_sound :
    (s : StateName) (c : Context)
    → is_sound s c ≡ true
    → is_sound_answer s (on_user_cancelled s c) ≡ true
unfolding is_sound_answer is_sound is_pin_done has_connection keeps_sound after transition
    on_user_cancelled update_status set_last_pace_result set_status
on_user_cancelled-is_sound aborted c h = ground arith
on_user_cancelled-is_sound _ c h = ground arith

pub on_plug_ins_changed-is_sound :
    (s : StateName) (c : Context)
    → is_sound s c ≡ true
    → is_sound_answer s (c, on_plug_ins_changed s) ≡ true
unfolding on_plug_ins_changed transition is_sound_answer is_sound keeps_sound after
on_plug_ins_changed-is_sound select_reader c h = h
on_plug_ins_changed-is_sound connect_card c h = h
on_plug_ins_changed-is_sound _ c h = h

is_sound-update_status :
    (s : StateName) (x : Code) (c : Context) → is_sound s (update_status x c) ≡ is_sound s c
unfolding is_sound has_connection is_pin_done update_status set_status
is_sound-update_status s x c = elim (Bool-cases (is_error x && is_no_error c.status)) [
  | inl e ↦ rw e
  | inr e ↦ rw e
]

on_reader_device_error-is_sound :
    (s : Code) (c : Context)
    → is_sound select_reader c ≡ true
    → is_sound_answer select_reader (on_reader_device_error s c) ≡ true
unfolding is_sound_answer on_reader_device_error after transition is_sound keeps_sound
on_reader_device_error-is_sound s c h =
    elim (is_error s && not (is_scan_error s))
      as (λ b.
        let r : Reaction = if b then (update_status s c, fire_abort) else (c, wait) in
        is_sound (after select_reader r.1) r.0 ≡ true) [
          | true ↦ is_sound-update_status maintain_card_connection s c ∙ h
          | false ↦ h
        ]

abbrev noted : CardReturnCode → Context → Context
noted r c = set_last_pace_result r (keep_output c.channel_type (note_connection r c))

note_connection-is_sound :
    (r : CardReturnCode) (c : Context)
    → is_ok r ≡ false
    → is_sound establish_pace_channel c ≡ true
    → is_sound establish_pace_channel
        (set_last_pace_result r (keep_output c.channel_type (note_connection r c)))
      ≡ true
unfolding is_sound has_connection is_pin_done keeps_sound note_connection note_result
    set_last_pace_result
note_connection-is_sound r c f h = ground arith

wrong_pin_entered-is_sound :
    (c : Context)
    → is_sound establish_pace_channel c ≡ true
    → is_sound_answer establish_pace_channel (wrong_pin_entered (set_npa_position_verified c))
      ≡ true
unfolding is_sound_answer is_sound has_connection is_pin_done keeps_sound after transition
    wrong_pin_entered set_last_pace_result set_npa_position_verified
wrong_pin_entered-is_sound c h = ground arith

vanished-is_sound :
    (now : ℕ) (c : Context)
    → is_sound_answer establish_pace_channel (failed now (handle_wrong_npa_position now c)) ≡ true
unfolding is_sound_answer is_sound has_connection is_pin_done keeps_sound after transition failed
    handle_wrong_npa_position reset_card_connection
vanished-is_sound now c = ground arith

rested-is_sound :
    (c : Context)
    → is_sound establish_pace_channel c ≡ true
    → is_sound maintain_card_connection (set_npa_position_verified c) ≡ true
unfolding is_sound has_connection is_pin_done keeps_sound set_npa_position_verified
rested-is_sound c h = ground arith

establish_connection_done-is_sound :
    (now : ℕ) (r : CardReturnCode) (c : Context)
    → is_sound establish_pace_channel c ≡ true
    → is_sound_answer establish_pace_channel (establish_connection_done now r c) ≡ true
unfolding establish_connection_done is_sound_answer react failed after transition
    handle_npa_position
establish_connection_done-is_sound now ok c h =
    unfold after transition is_sound keeps_sound has_connection is_pin_done note_connection
      note_result set_last_pace_result expect_after_success react succeeded handle_npa_position
      set_npa_position_verified reset_pace_passwords in
    ground arith
establish_connection_done-is_sound now invalid_pin c h =
    wrong_pin_entered-is_sound (noted invalid_pin c) (note_connection-is_sound invalid_pin c refl h)
establish_connection_done-is_sound now retry_allowed c h =
    vanished-is_sound now (noted retry_allowed c)
establish_connection_done-is_sound now card_not_found c h =
    vanished-is_sound now (noted card_not_found c)
establish_connection_done-is_sound now puk_inoperative c h =
    is_sound-update_status maintain_card_connection (to_global_status puk_inoperative)
      (set_npa_position_verified (noted puk_inoperative c))
    ∙ rested-is_sound (noted puk_inoperative c) (note_connection-is_sound puk_inoperative c refl h)
establish_connection_done-is_sound now cancellation_by_user c h =
    is_sound-update_status maintain_card_connection (to_global_status cancellation_by_user)
      (set_npa_position_verified (noted cancellation_by_user c))
    ∙ rested-is_sound (noted cancellation_by_user c)
        (note_connection-is_sound cancellation_by_user c refl h)
establish_connection_done-is_sound now r c h =
    rested-is_sound (noted r c) (note_connection-is_sound r c refl h)

pub answer-is_sound :
    (s : StateName) (e : Event) (rs : List ReaderInfo) (c : Context)
    → is_fresh e ≡ true
    → is_sound s c ≡ true
    → is_sound_answer s (answer s e rs c) ≡ true
unfolding answer is_fresh is_sound_answer is_sound is_pin_done has_connection keeps_sound after
    transition
answer-is_sound select_reader (readers_changed l) rs c a h =
    unfold on_reader_info_changed in ground arith
answer-is_sound select_reader (device_error s) rs c a h = on_reader_device_error-is_sound s c h
answer-is_sound connect_card (command_done none) rs c a h = unfold on_command_done in ground arith
answer-is_sound connect_card (command_done (some k)) rs c a h =
    unfold on_command_done in ground arith
answer-is_sound connect_card (reader_removed name) rs c a h = ground arith
answer-is_sound update_retry_counter (update_done ok) rs c a h =
    unfold update_retry_counter_done in ground arith
answer-is_sound update_retry_counter (update_done r) rs c a h =
    unfold update_retry_counter_done reset_card_connection in ground arith
answer-is_sound establish_pace_channel (establish_done now r) rs c a h =
    establish_connection_done-is_sound now r c h
answer-is_sound destroy_pace destroy_done rs c a h = ground arith
answer-is_sound _ _ rs c a h = ground arith
