-- ===== src/Pace/Machine.antt =====
-- src/core/states/CompositeStatePace.cpp: the states, their transitions, and the machine that
-- AbstractState.cpp and WorkflowContext.cpp drive. A signal without a transition in the current
-- state is dropped. The readers are those of the last event about them; that a state waits for a
-- command that was sent is its approval. What a command whose state was left still notes on its
-- connection is left out.
use ausweisapp2_android_sdk.Base.{
  ℕ, zero, suc, true, false, List, Option, none, some, not, ◌&&◌, if◌then◌else◌,
}
use ausweisapp2_android_sdk.Status.{workflow_cancellation_by_user, cancellation_by_user}
use ausweisapp2_android_sdk.Pace.Context.{Context, update_status, set_last_pace_result}
use ausweisapp2_android_sdk.Pace.States.{
  Signal, Reaction, fire_continue, fire_abort, fire_retry, fire_no_card_connection,
  fire_force_update_retry_counter, fire_enter_pace_password, fire_establish_pace_channel,
  fire_pace_channel_established, fire_pace_channel_inoperative,
  fire_abort_and_unfortunate_card_position, wait, undefined_behaviour, run_maintain_card_connection,
  run_clear_pace_passwords, run_verify_retry_counter, run_prepare_pace, run_enter_pace_password,
  run_unfortunate_card_position, run_update_retry_counter, run_destroy_pace,
}
use ausweisapp2_android_sdk.Pace.Establish.{run_establish_pace_channel}
use ausweisapp2_android_sdk.Pace.Reader.{ReaderInfo, on_reader_info_changed}

-- The last three are not states of the source: the composite state has fired `fireAbort` or
-- `firePaceChannelEstablished`, or the program's behaviour is undefined.
pub data StateName : Type 0 where
  maintain_card_connection clear_pace_passwords_on_error select_reader connect_card : StateName
  update_retry_counter verify_retry_counter prepare_pace unfortunate_card_position : StateName
  enter_pace_password establish_pace_channel clear_pace_passwords_before_destroy : StateName
  destroy_pace aborted established faulted : StateName

unfoldable pub transition : StateName → Signal → Option StateName
transition maintain_card_connection fire_continue = some verify_retry_counter
transition maintain_card_connection fire_no_card_connection = some select_reader
transition maintain_card_connection fire_force_update_retry_counter = some update_retry_counter
transition maintain_card_connection fire_abort = some clear_pace_passwords_on_error
transition clear_pace_passwords_on_error fire_continue = some aborted
transition clear_pace_passwords_on_error fire_abort = some aborted
transition select_reader fire_retry = some select_reader
transition select_reader fire_continue = some connect_card
transition select_reader fire_abort = some maintain_card_connection
transition connect_card fire_retry = some select_reader
transition connect_card fire_continue = some update_retry_counter
transition connect_card fire_abort = some maintain_card_connection
transition update_retry_counter fire_continue = some verify_retry_counter
transition update_retry_counter fire_abort = some maintain_card_connection
transition verify_retry_counter fire_continue = some prepare_pace
transition verify_retry_counter fire_abort = some maintain_card_connection
transition prepare_pace fire_enter_pace_password = some enter_pace_password
transition prepare_pace fire_establish_pace_channel = some establish_pace_channel
transition prepare_pace fire_continue = some maintain_card_connection
transition prepare_pace fire_abort = some maintain_card_connection
transition enter_pace_password fire_continue = some establish_pace_channel
transition enter_pace_password fire_abort = some maintain_card_connection
transition establish_pace_channel fire_continue = some maintain_card_connection
transition establish_pace_channel fire_pace_channel_established = some established
transition establish_pace_channel fire_pace_channel_inoperative =
    some clear_pace_passwords_before_destroy
transition establish_pace_channel fire_abort_and_unfortunate_card_position =
    some unfortunate_card_position
transition establish_pace_channel fire_abort = some maintain_card_connection
transition unfortunate_card_position fire_continue = some maintain_card_connection
transition unfortunate_card_position fire_abort = some maintain_card_connection
transition clear_pace_passwords_before_destroy fire_continue = some destroy_pace
transition clear_pace_passwords_before_destroy fire_abort = some destroy_pace
transition destroy_pace fire_continue = some maintain_card_connection
transition destroy_pace fire_abort = some aborted
transition _ _ = none

pub record Machine : Type 0 where
  pub state : StateName
  pub context : Context
  pub readers : List ReaderInfo

-- The initial state of the composite state.
unfoldable pub start : Context → List ReaderInfo → Machine
start c readers = record {
  state = maintain_card_connection;
  context = record c { state_approved = false };
  readers = readers;
}

-- What the machine does with a state's answer: a transition withdraws the approval (`onExit`).
unfoldable pub follow : Machine → Reaction → Machine
unfolding transition
follow m (c, wait) = record m { context = c }
follow m (c, undefined_behaviour) = record m { state = faulted; context = c }
follow m (c, signal) = elim (transition m.state signal) [
  | none ↦ record m { context = c }
  | some s ↦ record m { state = s; context = record c { state_approved = false } }
]

unfoldable pub run_state : StateName → List ReaderInfo → Context → Reaction
unfolding run_maintain_card_connection run_clear_pace_passwords run_verify_retry_counter
    run_prepare_pace run_enter_pace_password run_unfortunate_card_position run_update_retry_counter
    run_destroy_pace run_establish_pace_channel on_reader_info_changed
run_state maintain_card_connection readers c = run_maintain_card_connection c
run_state clear_pace_passwords_on_error readers c = run_clear_pace_passwords c
run_state select_reader readers c = on_reader_info_changed readers c
run_state connect_card readers c = (c, wait)
run_state update_retry_counter readers c = run_update_retry_counter c
run_state verify_retry_counter readers c = run_verify_retry_counter c
run_state prepare_pace readers c = run_prepare_pace c
run_state unfortunate_card_position readers c = run_unfortunate_card_position c
run_state enter_pace_password readers c = run_enter_pace_password c
run_state establish_pace_channel readers c = run_establish_pace_channel c
run_state clear_pace_passwords_before_destroy readers c = run_clear_pace_passwords c
run_state destroy_pace readers c = run_destroy_pace c
run_state _ readers c = (c, wait)

-- AbstractState::onUserCancelled and its override in StateEstablishPaceChannel.
unfoldable pub on_user_cancelled : StateName → Context → Reaction
unfolding update_status set_last_pace_result
on_user_cancelled establish_pace_channel c = (
  update_status workflow_cancellation_by_user (set_last_pace_result cancellation_by_user c),
  fire_abort,
)
on_user_cancelled aborted c = (c, wait)
on_user_cancelled established c = (c, wait)
on_user_cancelled faulted c = (c, wait)
on_user_cancelled _ c = (update_status workflow_cancellation_by_user c, fire_abort)

-- `setStateApproved(true)` and AbstractState::onStateApprovedChanged.
unfoldable pub approve_state : Machine → Machine
unfolding follow run_state
approve_state m =
    if m.context.state_approved
    then m
    else let c = record m.context { state_approved = true } in
      follow (record m { context = c }) (run_state m.state m.readers c)

-- `setCurrentState` approves a state that a killed workflow enters, at most `fuel` times in a row.
unfoldable pub settle : ℕ → Machine → Machine
unfolding approve_state
settle zero m = m
settle (suc fuel) m =
    let rest = settle fuel (approve_state m) in
    if m.context.workflow_killed && not m.context.state_approved then rest else m

abbrev pub rounds : ℕ
rounds = 8
