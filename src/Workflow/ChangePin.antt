-- ===== src/Workflow/ChangePin.antt =====
-- src/core/controller/ChangePinController.cpp: the workflow that changes the PIN, and its states below
-- src/core/states. One of its states is the composite state of PACE, whose machine runs inside; both
-- have one context. The approval that a killed workflow gives itself is an event like the user's:
-- killWorkflow in another state is the event `killed`, followed by approvals and by `cancelled`.
-- Scanning for readers and the texts of the success message are left out.
use ausweisapp2_android_sdk.Base.{
  Bool, true, false, List, [], ◌∷◌, Option, none, some, if◌then◌else◌, is_empty,
}
use ausweisapp2_android_sdk.Status.{
  CardReturnCode, ok, cancellation_by_user, new_pin_mismatch, to_global_status,
  workflow_cancellation_by_user,
}
use ausweisapp2_android_sdk.Pace.Context.{
  Context, Text, update_status, set_last_pace_result, reset_card_connection, kill_workflow,
}
use ausweisapp2_android_sdk.Pace.States.{
  Signal, Reaction, fire_continue, fire_abort, fire_enter_new_pace_pin, fire_invalid_pin, wait,
  undefined_behaviour, run_clear_pace_passwords, run_update_retry_counter,
  update_retry_counter_done, run_destroy_pace,
}
use ausweisapp2_android_sdk.Pace.Reader.{ReaderInfo}
use ausweisapp2_android_sdk.Pace.Machine.{Machine, StateName, aborted, established, start}
use ausweisapp2_android_sdk.Pace.Machine
use ausweisapp2_android_sdk.Pace.Events.{
  Event, approve, cancelled, killed, readers_changed, retry_counter_changed, password_set,
  update_done, destroy_done, react_to, set_password, set_retry_counter,
}
pub mod Tidy
pub mod Clean
pub mod Success

-- `stopped` and `crashed` are not states of the source: the machine has finished, or its behaviour
-- is undefined.
pub data ChangeState : Type 0 where
  in_pace prepare_change_pin enter_new_pace_pin change_pin clear_pace_passwords : ChangeState
  destroy_pace update_retry_counter_final clean_up_reader_manager final_state : ChangeState
  stopped crashed : ChangeState

unfoldable pub change_transition : ChangeState → Signal → Option ChangeState
change_transition prepare_change_pin fire_continue = some change_pin
change_transition prepare_change_pin fire_enter_new_pace_pin = some enter_new_pace_pin
change_transition prepare_change_pin fire_abort = some in_pace
change_transition enter_new_pace_pin fire_continue = some change_pin
change_transition enter_new_pace_pin fire_abort = some in_pace
change_transition change_pin fire_continue = some destroy_pace
change_transition change_pin fire_invalid_pin = some clear_pace_passwords
change_transition change_pin fire_abort = some in_pace
change_transition destroy_pace fire_continue = some clear_pace_passwords
change_transition destroy_pace fire_abort = some clear_pace_passwords
change_transition clear_pace_passwords fire_continue = some update_retry_counter_final
change_transition clear_pace_passwords fire_abort = some update_retry_counter_final
change_transition update_retry_counter_final fire_continue = some clean_up_reader_manager
change_transition update_retry_counter_final fire_abort = some clean_up_reader_manager
change_transition clean_up_reader_manager fire_continue = some final_state
change_transition clean_up_reader_manager fire_abort = some final_state
change_transition final_state fire_continue = some stopped
change_transition _ _ = none

pub record Workflow : Type 0 where
  pub state : ChangeState
  pub pace : Machine
  pub success : Bool

unfoldable pub begin_workflow : Context → List ReaderInfo → Workflow
begin_workflow c readers = record { state = in_pace; pace = start c readers; success = false }

abbrev pub context_of : Workflow → Context
context_of w = w.pace.context

abbrev pub with_context : Context → Workflow → Workflow
with_context c w = record w { pace = record w.pace { context = c } }

-- The new context is not approved; the composite state starts anew.
unfoldable pub enter : ChangeState → Context → Workflow → Workflow
enter in_pace c w = record w { state = in_pace; pace = start c w.pace.readers }
enter s c w = record (with_context (record c { state_approved = false }) w) { state = s }

unfoldable pub follow_signal : Workflow → Reaction → Workflow
unfolding change_transition enter
follow_signal w (c, wait) = with_context c w
follow_signal w (c, undefined_behaviour) = record (with_context c w) { state = crashed }
follow_signal w (c, signal) = elim (change_transition w.state signal) [
  | none ↦ with_context c w
  | some s ↦ enter s c w
]

-- The composite state's signals.
unfoldable pub leave_pace : Workflow → Workflow
unfolding enter
leave_pace w = elim w.pace.state [
  | aborted ↦ enter clear_pace_passwords w.pace.context w
  | established ↦ enter prepare_change_pin w.pace.context w
  | Machine.faulted ↦ record w { state = crashed }
  | _ ↦ w
]

abbrev pub new_pin_of : Context → Text
new_pin_of c = elim c.new_pin [ none ↦ [] | some t ↦ t ]

unfoldable pub run_prepare_change_pin : Context → Reaction
run_prepare_change_pin c =
    (c, if is_empty (new_pin_of c) then fire_enter_new_pace_pin else fire_continue)

-- StateChangePin: the command, and its result.
unfoldable pub run_change_pin : Context → Reaction
run_change_pin c = elim c.card_connection [ none ↦ (c, undefined_behaviour) | some k ↦ (c, wait) ]

unfoldable pub after_set_eid_pin : CardReturnCode → Context → Reaction
unfolding update_status
after_set_eid_pin ok c = (c, fire_continue)
after_set_eid_pin cancellation_by_user c =
    (update_status (to_global_status cancellation_by_user) c, fire_abort)
after_set_eid_pin new_pin_mismatch c =
    (update_status (to_global_status new_pin_mismatch) c, fire_invalid_pin)
after_set_eid_pin _ c = (c, fire_abort)

unfoldable pub set_eid_pin_done : CardReturnCode → Context → Reaction
unfolding after_set_eid_pin set_last_pace_result
set_eid_pin_done r c = after_set_eid_pin r (set_last_pace_result r c)

abbrev pub succeeds : CardReturnCode → Bool
succeeds ok = true
succeeds _ = false

unfoldable pub run_change_state : ChangeState → Context → Reaction
unfolding run_prepare_change_pin run_change_pin run_clear_pace_passwords run_destroy_pace
    run_update_retry_counter reset_card_connection
run_change_state prepare_change_pin c = run_prepare_change_pin c
run_change_state enter_new_pace_pin c = (c, fire_continue)
run_change_state change_pin c = run_change_pin c
run_change_state clear_pace_passwords c = run_clear_pace_passwords c
run_change_state destroy_pace c = run_destroy_pace c
run_change_state update_retry_counter_final c = run_update_retry_counter c
run_change_state clean_up_reader_manager c = (reset_card_connection c, fire_continue)
run_change_state final_state c = (c, fire_continue)
run_change_state _ c = (c, wait)

unfoldable pub approve_workflow : Workflow → Workflow
unfolding follow_signal run_change_state
approve_workflow w =
    if w.pace.context.state_approved
    then w
    else let c = record w.pace.context { state_approved = true } in
      follow_signal (with_context c w) (run_change_state w.state c)

-- The final state has no transition before it runs.
unfoldable pub cancel_state : ChangeState → Context → Reaction
unfolding update_status
cancel_state stopped c = (c, wait)
cancel_state crashed c = (c, wait)
cancel_state s c = (update_status workflow_cancellation_by_user c, fire_abort)

-- The events of a state that is not the composite state.
unfoldable pub react_outside : Event → Workflow → Workflow
unfolding approve_workflow follow_signal cancel_state kill_workflow set_password set_retry_counter
    update_retry_counter_done
react_outside approve w = approve_workflow w
react_outside cancelled w = follow_signal w (cancel_state w.state w.pace.context)
react_outside killed w = approve_workflow (with_context (kill_workflow w.pace.context) w)
react_outside (readers_changed list) w = record w { pace = record w.pace { readers = list } }
react_outside (retry_counter_changed n) w = with_context (set_retry_counter n w.pace.context) w
react_outside (password_set id t) w = with_context (set_password id t w.pace.context) w
react_outside (update_done r) w = elim w.state [
  | update_retry_counter_final ↦
      if w.pace.context.state_approved
      then follow_signal w (update_retry_counter_done r w.pace.context)
      else w
  | _ ↦ w
]
react_outside destroy_done w = elim w.state [
  | destroy_pace ↦
      if w.pace.context.state_approved then follow_signal w (w.pace.context, fire_continue) else w
  | _ ↦ w
]
react_outside _ w = w

pub data ChangeEvent : Type 0 where
  event : Event → ChangeEvent
  new_pin_set : Text → ChangeEvent
  eid_pin_done : CardReturnCode → ChangeEvent

unfoldable pub eid_pin_reaction : CardReturnCode → Workflow → Workflow
unfolding follow_signal set_eid_pin_done
eid_pin_reaction r w =
    let w' = follow_signal w (set_eid_pin_done r w.pace.context) in
    elim w.state [
      | change_pin ↦
          if w.pace.context.state_approved
          then record w' { success = if succeeds r then true else w.success }
          else w
      | _ ↦ w
    ]

unfoldable pub change_step : ChangeEvent → Workflow → Workflow
unfolding leave_pace react_outside eid_pin_reaction
change_step (event e) w = elim w.state [
  | in_pace ↦ leave_pace (record w { pace = react_to e w.pace })
  | _ ↦ react_outside e w
]
change_step (new_pin_set t) w = with_context (record w.pace.context { new_pin = some t }) w
change_step (eid_pin_done r) w = eid_pin_reaction r w

unfoldable pub change_run : List ChangeEvent → Workflow → Workflow
unfolding change_step
change_run [] w = w
change_run (e ∷ events) w = change_run events (change_step e w)
