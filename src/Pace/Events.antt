-- ===== src/Pace/Events.antt =====
-- The events that reach the machine of src/core/states/CompositeStatePace.cpp, and its step.
use ausweisapp2_android_sdk.Base.{ℕ, List, [], ◌∷◌, Option, none, some, if◌then◌else◌}
use ausweisapp2_android_sdk.Status.{Code, CardReturnCode}
use ausweisapp2_android_sdk.Pace.Context.{
  Context, Connection, Counter, Text, PacePasswordId, pace_can, pace_pin, pace_puk, kill_workflow,
}
use ausweisapp2_android_sdk.Pace.States.{
  Signal, Reaction, fire_continue, fire_retry, wait, update_retry_counter_done,
}
use ausweisapp2_android_sdk.Pace.Establish.{establish_connection_done}
use ausweisapp2_android_sdk.Pace.Reader.{
  ReaderInfo, on_reader_info_changed, on_reader_device_error, on_command_done, on_reader_removed,
}
use ausweisapp2_android_sdk.Pace.Machine.{
  Machine, StateName, select_reader, connect_card, update_retry_counter, establish_pace_channel,
  destroy_pace, follow, on_user_cancelled, approve_state, settle, rounds,
}

unfoldable pub cancel : Machine → Machine
unfolding follow on_user_cancelled
cancel m = follow m (on_user_cancelled m.state m.context)

-- `killWorkflow`.
unfoldable pub kill_machine : Machine → Machine
unfolding kill_workflow approve_state settle cancel
kill_machine m =
    cancel (settle rounds (approve_state (record m { context = kill_workflow m.context })))

-- The events that reach the machine. `retry_counter_changed` is CardConnection's copy of the
-- reader's counter, `done` events are the results of commands.
pub data Event : Type 0 where
  approve cancelled killed plug_ins_changed destroy_done : Event
  readers_changed : List ReaderInfo → Event
  device_error : Code → Event
  command_done : Option Connection → Event
  reader_removed : Text → Event
  retry_counter_changed : Counter → Event
  update_done : CardReturnCode → Event
  establish_done : ℕ → CardReturnCode → Event
  password_set : PacePasswordId → Text → Event

-- The slots that a state's `run` connects.
unfoldable pub answer : StateName → Event → List ReaderInfo → Context → Reaction
unfolding on_reader_info_changed on_reader_device_error on_command_done on_reader_removed
    update_retry_counter_done establish_connection_done
answer select_reader (readers_changed list) readers c = on_reader_info_changed readers c
answer select_reader (device_error s) readers c = on_reader_device_error s c
answer connect_card (command_done k) readers c = on_command_done readers k c
answer connect_card (reader_removed name) readers c = (c, on_reader_removed name c)
answer update_retry_counter (update_done r) readers c = update_retry_counter_done r c
answer establish_pace_channel (establish_done now r) readers c = establish_connection_done now r c
answer destroy_pace destroy_done readers c = (c, fire_continue)
answer _ _ readers c = (c, wait)

unfoldable pub on_plug_ins_changed : StateName → Signal
on_plug_ins_changed select_reader = fire_retry
on_plug_ins_changed connect_card = fire_retry
on_plug_ins_changed _ = wait

unfoldable pub set_password : PacePasswordId → Text → Context → Context
set_password pace_can t c = record c { can = t }
set_password pace_pin t c = record c { pin = t }
set_password pace_puk t c = record c { puk = t }
set_password _ t c = c

unfoldable pub set_retry_counter : Counter → Context → Context
set_retry_counter n c = record c {
  card_connection = elim c.card_connection [
    | none ↦ none
    | some k ↦ some (record k { retry_counter = n })
  ];
}

unfoldable pub answer_if_approved : Event → Machine → Machine
unfolding follow answer
answer_if_approved e m =
    if m.context.state_approved then follow m (answer m.state e m.readers m.context) else m

unfoldable pub react_to : Event → Machine → Machine
unfolding approve_state cancel kill_machine follow on_plug_ins_changed set_password
    set_retry_counter answer_if_approved
react_to approve m = approve_state m
react_to cancelled m = cancel m
react_to killed m = kill_machine m
react_to plug_ins_changed m = follow m (m.context, on_plug_ins_changed m.state)
react_to (readers_changed list) m =
    answer_if_approved (readers_changed list) (record m { readers = list })
react_to (retry_counter_changed n) m = record m { context = set_retry_counter n m.context }
react_to (password_set id t) m = record m { context = set_password id t m.context }
react_to e m = answer_if_approved e m

unfoldable pub step : Event → Machine → Machine
unfolding react_to settle
step e m = settle rounds (react_to e m)

unfoldable pub run : List Event → Machine → Machine
unfolding step
run [] m = m
run (e ∷ events) m = run events (step e m)
