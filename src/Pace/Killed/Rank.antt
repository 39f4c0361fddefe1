-- ===== src/Pace/Killed/Rank.antt =====
-- How many states a killed workflow still runs, one after another, before one of them waits.
use ausweisapp2_android_sdk.Base.{ltb, ℕ, ◌≡◌, Bool, true, ◌&&◌, ◌||◌, List, arith}
use ausweisapp2_android_sdk.Status.{is_no_error, is_error}
use ausweisapp2_android_sdk.Pace.Context.{
  Context, reset_pace_passwords, set_npa_position_verified, remember_reader,
}
use ausweisapp2_android_sdk.Pace.States.{
  Signal, fire_continue, run_maintain_card_connection, run_clear_pace_passwords, expect, verify,
  run_verify_retry_counter, request_pace_can, prepare_pin, prepare, run_prepare_pace,
  run_enter_pace_password, run_unfortunate_card_position, run_update_retry_counter,
  run_destroy_pace,
}
use ausweisapp2_android_sdk.Pace.Establish.{run_establish_pace_channel}
use ausweisapp2_android_sdk.Pace.Reader.{ReaderInfo, on_reader_info_changed}
use ausweisapp2_android_sdk.Pace.Machine.{
  StateName, maintain_card_connection, clear_pace_passwords_on_error, select_reader,
  update_retry_counter, verify_retry_counter, prepare_pace, unfortunate_card_position,
  enter_pace_password, establish_pace_channel, clear_pace_passwords_before_destroy, destroy_pace,
  transition, run_state,
}
use ausweisapp2_android_sdk.Pace.Invariant.{Test, leads}

unfoldable pub rank : StateName → ℕ
rank verify_retry_counter = 5
rank prepare_pace = 4
rank update_retry_counter = 3
rank unfortunate_card_position = 3
rank enter_pace_password = 3
rank establish_pace_channel = 3
rank maintain_card_connection = 2
rank clear_pace_passwords_on_error = 1
rank select_reader = 1
rank clear_pace_passwords_before_destroy = 1
rank _ = 0

unfoldable pub is_doomed : Context → Bool
unfolding is_error is_no_error
is_doomed c = c.workflow_killed && is_error c.status

-- The machine waits, or has come below the rank `n`.
unfoldable pub is_calmer : ℕ → Test
unfolding rank is_doomed
is_calmer n s c = is_doomed c && (c.state_approved || ltb (rank s) n)

any_signal-is_calmer :
    (c : Context) (s : Signal)
    → is_doomed c ≡ true
    → c.state_approved ≡ true
    → leads (is_calmer 4) prepare_pace (c, s) ≡ true
unfolding leads is_calmer rank transition
any_signal-is_calmer c fire_continue d a = ground arith
any_signal-is_calmer c _ d a = ground arith

pub prepare-is_doomed :
    (c : Context)
    → is_doomed c ≡ true
    → c.state_approved ≡ true
    → (is_doomed (run_prepare_pace c).0 ≡ true) × ((run_prepare_pace c).0.state_approved ≡ true)
unfolding is_doomed run_prepare_pace prepare request_pace_can prepare_pin
prepare-is_doomed c d a = (ground arith, ground arith)

pub run_state-is_calmer :
    (s : StateName) (rs : List ReaderInfo) (c : Context)
    → is_doomed c ≡ true
    → c.state_approved ≡ true
    → leads (is_calmer (rank s)) s (run_state s rs c) ≡ true
unfolding leads is_calmer is_doomed rank transition run_state
run_state-is_calmer maintain_card_connection rs c d a =
    unfold run_maintain_card_connection in ground arith
run_state-is_calmer select_reader rs c d a = unfold on_reader_info_changed in ground arith
run_state-is_calmer verify_retry_counter rs c d a =
    unfold run_verify_retry_counter verify expect remember_reader reset_pace_passwords in
    ground arith
run_state-is_calmer prepare_pace rs c d a =
    (let h = prepare-is_doomed c d a in
      any_signal-is_calmer (run_prepare_pace c).0 (run_prepare_pace c).1 h.0 h.1)
run_state-is_calmer establish_pace_channel rs c d a =
    unfold run_establish_pace_channel in ground arith
run_state-is_calmer unfortunate_card_position rs c d a =
    unfold run_unfortunate_card_position set_npa_position_verified in ground arith
run_state-is_calmer enter_pace_password rs c d a = unfold run_enter_pace_password in ground arith
run_state-is_calmer update_retry_counter rs c d a = unfold run_update_retry_counter in ground arith
run_state-is_calmer destroy_pace rs c d a = unfold run_destroy_pace in ground arith
run_state-is_calmer clear_pace_passwords_on_error rs c d a =
    unfold run_clear_pace_passwords reset_pace_passwords in ground arith
run_state-is_calmer clear_pace_passwords_before_destroy rs c d a =
    unfold run_clear_pace_passwords reset_pace_passwords in ground arith
run_state-is_calmer _ rs c d a = ground arith
