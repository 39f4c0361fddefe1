-- ===== src/Tests/ChangePinTests.antt =====
-- A PIN that is changed, from the entry of the old one to the end of the workflow.
use ausweisapp2_android_sdk.Base.{◌≡◌, refl, true, false, some, List, [], ◌∷◌}
use ausweisapp2_android_sdk.Status.{ok}
use ausweisapp2_android_sdk.Pace.Context.{Connection, Context, new_context}
use ausweisapp2_android_sdk.Pace.Events.{
  approve, establish_done, update_done, destroy_done, react_to,
}
use ausweisapp2_android_sdk.Pace.Machine.{start}
use ausweisapp2_android_sdk.Workflow.ChangePin.{
  stopped, begin_workflow, ChangeEvent, event, eid_pin_done, change_run,
}
use ausweisapp2_android_sdk.Workflow.ChangePin.Tidy.{are_orderly}
use ausweisapp2_android_sdk.Workflow.ChangePin.Clean.{IsClean, change_run-IsClean}
use ausweisapp2_android_sdk.Workflow.ChangePin.Success.{IsConfirmed, change_run-IsConfirmed}

abbrev card : Connection
card = record {
  retry_counter = some 3;
  basic_reader = true;
  pace_can_successful = false;
  pace_pin_successful = false;
}

abbrev entered : Context
unfolding new_context
entered = record new_context {
  pin = 49 ∷ 50 ∷ 51 ∷ [];
  new_pin = some (52 ∷ 53 ∷ 54 ∷ []);
  card_connection = some card;
  expected_retry_counter = some 3;
}

abbrev changed : List ChangeEvent
changed =
    event approve
    ∷ event approve
    ∷ event approve
    ∷ event approve
    ∷ event (establish_done 0 ok)
    ∷ event approve
    ∷ event approve
    ∷ eid_pin_done ok
    ∷ event approve
    ∷ event destroy_done
    ∷ event approve
    ∷ event approve
    ∷ event (update_done ok)
    ∷ event approve
    ∷ event approve
    ∷ []

changed_stops : (change_run changed (begin_workflow entered [])).state ≡ stopped
unfolding change_run begin_workflow react_to start entered
changed_stops = refl

changed_succeeds : (change_run changed (begin_workflow entered [])).success ≡ true
unfolding change_run begin_workflow react_to start entered
changed_succeeds = refl

changed_orderly : are_orderly changed (begin_workflow entered []) ≡ true
unfolding are_orderly begin_workflow
changed_orderly = refl

change_run-IsClean_example : IsClean (change_run changed (begin_workflow entered [])).pace.context
change_run-IsClean_example = change_run-IsClean changed entered [] changed_orderly changed_stops

change_run-IsConfirmed_example : IsConfirmed changed (begin_workflow entered [])
change_run-IsConfirmed_example = change_run-IsConfirmed changed entered [] changed_succeeds
