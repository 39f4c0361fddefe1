-- ===== src/Tests/PaceTests.antt =====
-- Runs of the states and of the machine of src/core/states on concrete contexts and events.
use ausweisapp2_android_sdk.Base.{
  ◌≡◌, refl, ◌≢◌, ◌↔◌, ◌⊎◌, true, false, none, some, List, [], ◌∷◌, arith,
}
use ausweisapp2_android_sdk.Status.{
  ok, invalid_pin, equals_wrong_pace_password, is_no_error, is_error,
}
use ausweisapp2_android_sdk.Pace.Context.{
  Text, same_text, pace_can, pace_pin, Connection, Context, new_context, set_last_pace_result,
  reset_pace_passwords, set_npa_position_verified, is_expected_reader, remember_reader,
  kill_workflow,
}
use ausweisapp2_android_sdk.Pace.States.{
  fire_pace_channel_established, check_connection, forget_passwords, maintain_after,
  run_maintain_card_connection, run_clear_pace_passwords, expect, verify, run_verify_retry_counter,
  request_pace_can, prepare_pin, prepare, run_prepare_pace, run_enter_pace_password,
  run_update_retry_counter, update_retry_counter_done, run_destroy_pace,
}
use ausweisapp2_android_sdk.Pace.Establish.{
  is_ok, has_vanished, note_result, handle_npa_position, wrong_pin_entered, react, note_connection,
  establish_connection_done,
}
use ausweisapp2_android_sdk.Pace.Machine.{
  verify_retry_counter, establish_pace_channel, aborted, established, faulted, transition, Machine,
  start, follow, run_state, approve_state, settle, rounds,
}
use ausweisapp2_android_sdk.Pace.Events.{
  Event, approve, killed, destroy_done, command_done, retry_counter_changed, update_done,
  establish_done, password_set, answer, set_retry_counter, answer_if_approved, react_to, step, run,
}
use ausweisapp2_android_sdk.Pace.Invariant.{all_are}
use ausweisapp2_android_sdk.Pace.Passwords.Cleared.{Wiped}
use ausweisapp2_android_sdk.Pace.Passwords.Refused.{is_no_password, sent, run-refused}
use ausweisapp2_android_sdk.Pace.Faults.Sound.{is_pin_done, is_fresh}
use ausweisapp2_android_sdk.Pace.Faults.Runs.{run-faultless}
use ausweisapp2_android_sdk.Pace.Killed.Rank.{is_doomed}
use ausweisapp2_android_sdk.Pace.Killed.Settled.{is_pending, settle_enough}
use ausweisapp2_android_sdk.Pace.Killed.Ends.{run-killed}
use ausweisapp2_android_sdk.Pace.Channel.{established_iff}
use ausweisapp2_android_sdk.Pace.Reader.{passport, pcsc, nfc, ReaderInfo}

abbrev reader : Text
reader = 78 ∷ 70 ∷ 67 ∷ []

abbrev fresh_connection : Connection
fresh_connection = record {
  retry_counter = some 3;
  basic_reader = true;
  pace_can_successful = false;
  pace_pin_successful = false;
}

abbrev last_try : Connection
last_try = record fresh_connection { retry_counter = some 1; pace_can_successful = true }

abbrev with_pin : Connection → Context
unfolding new_context
with_pin k = record new_context {
  pin = 49 ∷ 50 ∷ 51 ∷ [];
  channel_type = pace_pin;
  card_connection = some k;
  reader_name = reader;
  expected_reader_name = reader;
  expected_retry_counter = k.retry_counter;
}

-- After a wrong PIN the channel is destroyed, the counter read, and the PIN asked for again.
abbrev second_try : List Event
second_try =
    approve
    ∷ approve
    ∷ destroy_done
    ∷ approve
    ∷ approve
    ∷ retry_counter_changed (some 2)
    ∷ update_done ok
    ∷ approve
    ∷ approve
    ∷ approve
    ∷ []

second_try_asks :
    (run second_try
      (step (establish_done 0 invalid_pin) (sent (with_pin fresh_connection) []))).state
    ≡ establish_pace_channel
unfolding with_pin new_context run step settle react_to approve_state start run_state
    run_maintain_card_connection follow transition maintain_after forget_passwords is_error
    is_no_error reset_pace_passwords run_update_retry_counter answer_if_approved answer
    update_retry_counter_done run_verify_retry_counter verify is_expected_reader same_text expect
    remember_reader run_prepare_pace prepare prepare_pin request_pace_can establish_connection_done
    react wrong_pin_entered handle_npa_position has_vanished set_npa_position_verified
    set_last_pace_result note_connection note_result is_ok run_clear_pace_passwords run_destroy_pace
    set_retry_counter run_enter_pace_password
second_try_asks = refl

run-refused_example :
    Wiped
      (run second_try
        (step (establish_done 0 invalid_pin) (sent (with_pin fresh_connection) []))).context
run-refused_example =
    run-refused second_try 0 invalid_pin (with_pin fresh_connection) []
      (unfold equals_wrong_pace_password in refl) (unfold all_are is_no_password in refl)
      second_try_asks

-- The first connection of a workflow, up to the entry of the PIN.
abbrev first_try : List Event
first_try =
    approve
    ∷ approve
    ∷ command_done (some fresh_connection)
    ∷ approve
    ∷ update_done ok
    ∷ approve
    ∷ approve
    ∷ password_set pace_pin (49 ∷ [])
    ∷ approve
    ∷ approve
    ∷ establish_done 0 invalid_pin
    ∷ killed
    ∷ []

run-faultless_example : (run first_try (start new_context [])).state ≢ faulted
run-faultless_example =
    run-faultless first_try new_context [] (unfold is_pin_done new_context in refl)
      (unfold all_are is_fresh in refl)

established_iff_example :
    ((establish_connection_done 0 ok (with_pin fresh_connection)).1 ≡ fire_pace_channel_established)
    ↔ ((ok ≡ ok)
        × (((with_pin fresh_connection).channel_type ≡ pace_pin)
            ⊎ (((with_pin fresh_connection).channel_type ≡ pace_can)
                × ((with_pin fresh_connection).can_allowed_mode ≡ true))))
established_iff_example = established_iff 0 ok (with_pin fresh_connection)

abbrev passport_reader : ReaderInfo
passport_reader = record {
  plug_in_type = pcsc;
  name = 1 ∷ [];
  basic_reader = true;
  card_info = record {
    card_type = passport;
    retry_counter = none;
    pin_deactivated = false;
    puk_inoperative = false;
  };
  connected = true;
  max_apdu_length = 500;
}

abbrev phone : ReaderInfo
phone = record passport_reader { plug_in_type = nfc; name = 2 ∷ []; max_apdu_length = 0 }

-- No reader has been found yet.
abbrev searching : Machine
searching = run (approve ∷ []) (start new_context [])

searching-not_established : searching.state ≢ established
unfolding run step settle react_to approve_state start new_context run_state
    run_maintain_card_connection maintain_after check_connection follow transition is_error
    is_no_error
searching-not_established e = ground arith

run-killed_example : (step killed searching).state ≡ aborted
run-killed_example =
    run-killed (approve ∷ []) new_context [] (unfold is_pin_done new_context in refl)
      (unfold all_are is_fresh in refl) searching-not_established

abbrev dying : Machine
dying = record {
  state = verify_retry_counter;
  context = kill_workflow (with_pin fresh_connection);
  readers = [];
}

settle_enough_example : is_pending (settle rounds dying) ≡ false
settle_enough_example =
    settle_enough dying (unfold is_doomed kill_workflow is_error is_no_error in refl)
