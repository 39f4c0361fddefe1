-- ===== src/Workflow/ChangePin/Tidy.antt =====
-- What the states of src/core/controller/ChangePinController.cpp leave of the passwords and of the
-- connection.
use ausweisapp2_android_sdk.Base.{
  Bool, true, false, not, ◌&&◌, List, [], ◌∷◌, none, some, is_empty, ◌≡◌, refl, arith,
}
use ausweisapp2_android_sdk.Status.{CardReturnCode, ok}
use ausweisapp2_android_sdk.Pace.Context.{Context, Text, kill_workflow}
use ausweisapp2_android_sdk.Pace.Machine.{Machine, StateName, aborted, established}
use ausweisapp2_android_sdk.Pace.Machine
use ausweisapp2_android_sdk.Pace.Events.{
  Event, approve, cancelled, killed, readers_changed, retry_counter_changed, password_set,
  update_done, destroy_done, react_to,
}
use ausweisapp2_android_sdk.Pace.Passwords.Cleared.{is_cleared}
use ausweisapp2_android_sdk.Workflow.ChangePin.{
  ChangeState, in_pace, prepare_change_pin, change_pin, clear_pace_passwords,
  update_retry_counter_final, clean_up_reader_manager, final_state, stopped, Workflow, leave_pace,
  new_pin_of, approve_workflow, react_outside, ChangeEvent, event, new_pin_set, eid_pin_done,
  eid_pin_reaction, change_step, change_run,
}

-- No password is left, the new PIN included.
unfoldable pub is_wiped : Context → Bool
unfolding is_cleared
is_wiped c = is_cleared c && is_empty (new_pin_of c)

unfoldable pub is_disconnected : Context → Bool
is_disconnected c = elim c.card_connection [ none ↦ true | some k ↦ false ]

-- What holds in a state of the workflow.
unfoldable pub is_tidy_at : ChangeState → Context → Bool
unfolding is_wiped is_disconnected
is_tidy_at update_retry_counter_final c = is_wiped c
is_tidy_at clean_up_reader_manager c = is_wiped c
is_tidy_at final_state c = is_wiped c && is_disconnected c
is_tidy_at stopped c = is_wiped c && is_disconnected c
is_tidy_at _ c = true

unfoldable pub is_tidy : Workflow → Bool
unfolding is_tidy_at
is_tidy w = is_tidy_at w.state w.pace.context

-- The states behind StateClearPacePasswords.
abbrev pub is_closing : ChangeState → Bool
is_closing update_retry_counter_final = true
is_closing clean_up_reader_manager = true
is_closing final_state = true
is_closing stopped = true
is_closing _ = false

abbrev pub is_clearing : ChangeState → Bool
is_clearing clear_pace_passwords = true
is_clearing clean_up_reader_manager = true
is_clearing _ = false

-- No password is set when they have been deleted, and the states that clean up are not cancelled.
unfoldable pub is_orderly : ChangeEvent → Workflow → Bool
is_orderly (event (password_set id t)) w = not (is_closing w.state)
is_orderly (event cancelled) w = not (is_clearing w.state)
is_orderly (event _) w = true
is_orderly (new_pin_set t) w = not (is_closing w.state)
is_orderly (eid_pin_done r) w = true

unfoldable pub are_orderly : List ChangeEvent → Workflow → Bool
unfolding is_orderly change_step
are_orderly [] w = true
are_orderly (e ∷ events) w = is_orderly e w && are_orderly events (change_step e w)

leave_pace-is_tidy :
    (w : Workflow) (s : StateName)
    → w.pace.state ≡ s
    → w.state ≡ in_pace
    → is_tidy (leave_pace w) ≡ true
unfolding leave_pace is_tidy
leave_pace-is_tidy w aborted e h = rw (e, leave_pace) refl
leave_pace-is_tidy w established e h = rw (e, leave_pace) refl
leave_pace-is_tidy w Machine.faulted e h = rw (e, leave_pace) refl
leave_pace-is_tidy w _ e h = rw (e, leave_pace, h) refl

abbrev at_state : Machine → Bool → ChangeState → Workflow
at_state p b s = record { state = s; pace = p; success = b }

approve-is_tidy :
    (p : Machine) (b : Bool) (s : ChangeState)
    → is_tidy (at_state p b s) ≡ true
    → is_tidy (approve_workflow (at_state p b s)) ≡ true
unfolding approve_workflow is_tidy
approve-is_tidy p b in_pace h = ground arith
approve-is_tidy p b _ h = ground arith

kill_workflow-is_tidy :
    (p : Machine) (b : Bool) (s : ChangeState)
    → is_tidy (at_state p b s) ≡ true
    → is_tidy (at_state (record p { context = kill_workflow p.context }) b s) ≡ true
unfolding kill_workflow is_tidy
kill_workflow-is_tidy p b in_pace h = refl
kill_workflow-is_tidy p b _ h = h

module _ (p : Machine) (b : Bool) where
  abbrev at : ChangeState → Workflow
  at = at_state p b

  react_outside-is_tidy :
      (e : Event) (s : ChangeState)
      → is_tidy (at s) ≡ true
      → is_orderly (event e) (at s) ≡ true
      → is_tidy (react_outside e (at s)) ≡ true
  unfolding react_outside is_tidy is_orderly
  react_outside-is_tidy approve s h o = approve-is_tidy p b s h
  react_outside-is_tidy cancelled in_pace h o = ground arith
  react_outside-is_tidy cancelled _ h o = ground arith
  react_outside-is_tidy killed s h o =
      approve-is_tidy (record p { context = kill_workflow p.context }) b s
        (kill_workflow-is_tidy p b s h)
  react_outside-is_tidy (readers_changed l) in_pace h o = h
  react_outside-is_tidy (readers_changed l) _ h o = h
  react_outside-is_tidy (retry_counter_changed n) in_pace h o = refl
  react_outside-is_tidy (retry_counter_changed n) _ h o = ground arith
  react_outside-is_tidy (password_set id t) in_pace h o = refl
  react_outside-is_tidy (password_set id t) _ h o = ground arith
  react_outside-is_tidy (update_done r) in_pace h o = refl
  react_outside-is_tidy (update_done r) _ h o = ground arith
  react_outside-is_tidy destroy_done in_pace h o = refl
  react_outside-is_tidy destroy_done _ h o = ground arith
  react_outside-is_tidy _ s h o = h

  eid_pin_reaction-is_tidy :
      (r : CardReturnCode) (s : ChangeState)
      → is_tidy (at s) ≡ true
      → is_tidy (eid_pin_reaction r (at s)) ≡ true
  unfolding eid_pin_reaction is_tidy
  eid_pin_reaction-is_tidy r in_pace h = refl
  eid_pin_reaction-is_tidy ok change_pin h = ground arith
  eid_pin_reaction-is_tidy _ change_pin h = ground arith
  eid_pin_reaction-is_tidy r _ h = h

  new_pin_set-is_tidy :
      (t : Text) (s : ChangeState)
      → is_tidy (at s) ≡ true
      → is_orderly (new_pin_set t) (at s) ≡ true
      → is_tidy (change_step (new_pin_set t) (at s)) ≡ true
  unfolding change_step is_tidy is_orderly
  new_pin_set-is_tidy t in_pace h o = refl
  new_pin_set-is_tidy t _ h o = ground arith

  change_step-is_tidy :
      (e : ChangeEvent) (s : ChangeState)
      → is_tidy (at s) ≡ true
      → is_orderly e (at s) ≡ true
      → is_tidy (change_step e (at s)) ≡ true
  unfolding change_step
  change_step-is_tidy (event e) in_pace h o =
      leave_pace-is_tidy (record (at in_pace) { pace = react_to e p }) (react_to e p).state refl
        refl
  change_step-is_tidy (event e) prepare_change_pin h o =
      react_outside-is_tidy e prepare_change_pin h o
  change_step-is_tidy (event e) s h o = react_outside-is_tidy e s h o
  change_step-is_tidy (new_pin_set t) s h o = new_pin_set-is_tidy t s h o
  change_step-is_tidy (eid_pin_done r) s h o = eid_pin_reaction-is_tidy r s h

pub change_run-is_tidy :
    (events : List ChangeEvent) (w : Workflow)
    → is_tidy w ≡ true
    → are_orderly events w ≡ true
    → is_tidy (change_run events w) ≡ true
unfolding change_run are_orderly
change_run-is_tidy [] w h o = h
change_run-is_tidy (e ∷ events) w h o =
    change_run-is_tidy events (change_step e w)
      (change_step-is_tidy w.pace w.success e w.state h (ground arith)) (ground arith)
