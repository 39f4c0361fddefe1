-- ===== src/Workflow/ChangePin/Success.antt =====
-- When the workflow of src/core/controller/ChangePinController.cpp reports success.
use ausweisapp2_android_sdk.Base.{
  Bool, true, false, List, [], ◌∷◌, ◌++◌, none, some, if◌then◌else◌, ◌≡◌, refl, sym, ap, ◌∙◌, ◌⊎◌,
  inl, inr, Bool-cases, arith,
}
use ausweisapp2_android_sdk.Status.{CardReturnCode, ok}
use ausweisapp2_android_sdk.Pace.Context.{Context, kill_workflow}
use ausweisapp2_android_sdk.Pace.States.{
  Reaction, fire_continue, update_retry_counter_done, wait, undefined_behaviour,
}
use ausweisapp2_android_sdk.Pace.Reader.{ReaderInfo}
use ausweisapp2_android_sdk.Pace.Machine.{StateName, aborted, established}
use ausweisapp2_android_sdk.Pace.Machine
use ausweisapp2_android_sdk.Pace.Events.{
  Event, approve, cancelled, killed, update_done, destroy_done, react_to,
}
use ausweisapp2_android_sdk.Workflow.ChangePin.{
  ChangeState, in_pace, prepare_change_pin, change_pin, clear_pace_passwords, run_change_state,
  cancel_state, with_context, update_retry_counter_final, destroy_pace, change_transition, Workflow,
  begin_workflow, enter, follow_signal, leave_pace, approve_workflow, react_outside, succeeds,
  ChangeEvent, event, new_pin_set, eid_pin_done, eid_pin_reaction, change_step, change_run,
}

enter-success : (s : ChangeState) (c : Context) (w : Workflow) → (enter s c w).success ≡ w.success
unfolding enter
enter-success in_pace c w = refl
enter-success _ c w = refl

follow_signal-success : (w : Workflow) (r : Reaction) → (follow_signal w r).success ≡ w.success
unfolding follow_signal
follow_signal-success w (c, wait) = refl
follow_signal-success w (c, undefined_behaviour) = refl
follow_signal-success w (c, signal) =
    elim (change_transition w.state signal)
      as (λ o.
        (elim o as (λ _. Workflow) [
          | none ↦ record w { pace = record w.pace { context = c } }
          | some s ↦ enter s c w
        ]).success
        ≡ w.success) [ none ↦ refl | some s ↦ enter-success s c w ]

leave_pace-success :
    (w : Workflow) (s : StateName) → w.pace.state ≡ s → (leave_pace w).success ≡ w.success
unfolding leave_pace
leave_pace-success w aborted e =
    rw (e, leave_pace) (enter-success clear_pace_passwords w.pace.context w)
leave_pace-success w established e =
    rw (e, leave_pace) (enter-success prepare_change_pin w.pace.context w)
leave_pace-success w Machine.faulted e = rw (e, leave_pace) refl
leave_pace-success w _ e = rw (e, leave_pace) refl

if-success :
    (b v : Bool) (x y : Workflow) → x.success ≡ v → y.success ≡ v → (if b then x else y).success ≡ v
if-success true v x y h k = h
if-success false v x y h k = k

approve_workflow-success : (w : Workflow) → (approve_workflow w).success ≡ w.success
unfolding approve_workflow
approve_workflow-success w =
    let c = record w.pace.context { state_approved = true } in
    if-success w.pace.context.state_approved w.success w
      (follow_signal (with_context c w) (run_change_state w.state c)) refl
      (follow_signal-success (with_context c w) (run_change_state w.state c))

module _ (p : Machine.Machine) (b : Bool) where
  abbrev at : ChangeState → Workflow
  at s = record { state = s; pace = p; success = b }

  react_outside-success : (e : Event) (s : ChangeState) → (react_outside e (at s)).success ≡ b
  unfolding react_outside
  react_outside-success approve s = approve_workflow-success (at s)
  react_outside-success cancelled s = follow_signal-success (at s) (cancel_state s p.context)
  react_outside-success killed s =
      approve_workflow-success (with_context (kill_workflow p.context) (at s))
  react_outside-success (update_done r) update_retry_counter_final =
      let w = at update_retry_counter_final in
      let c = update_retry_counter_done r p.context in
      if-success p.context.state_approved b (follow_signal w c) w (follow_signal-success w c) refl
  react_outside-success (update_done r) _ = refl
  react_outside-success destroy_done destroy_pace =
      let w = at destroy_pace in
      let r : Reaction = (p.context, fire_continue) in
      if-success p.context.state_approved b (follow_signal w r) w (follow_signal-success w r) refl
  react_outside-success destroy_done _ = refl
  react_outside-success _ s = refl

  -- The card has confirmed the new PIN.
  abbrev IsConfirmation : ChangeEvent → ChangeState → Type 0
  IsConfirmation e s = (e ≡ eid_pin_done ok) × (s ≡ change_pin) × (p.context.state_approved ≡ true)

  confirmed : (r : CardReturnCode) → succeeds r ≡ true → r ≡ ok
  confirmed ok h = refl
  confirmed _ h = ground arith

  eid_pin_reaction-success :
      (r : CardReturnCode) (s : ChangeState)
      → (eid_pin_reaction r (at s)).success ≡ true
      → (b ≡ true) ⊎ IsConfirmation (eid_pin_done r) s
  unfolding eid_pin_reaction
  eid_pin_reaction-success r in_pace h = inl h
  eid_pin_reaction-success r change_pin h = elim (Bool-cases p.context.state_approved) [
    | inr waiting ↦ inl (rw waiting at h)
    | inl approved ↦ elim (Bool-cases (succeeds r)) [
      | inl done ↦ inr (ap eid_pin_done (confirmed r done), refl, approved)
      | inr failed ↦ inl (rw (approved, failed) at h)
    ]
  ]
  eid_pin_reaction-success r _ h = inl h

  change_step-success :
      (e : ChangeEvent) (s : ChangeState)
      → (change_step e (at s)).success ≡ true
      → (b ≡ true) ⊎ IsConfirmation e s
  unfolding change_step
  change_step-success (event e) in_pace h = inl (
      sym
        (leave_pace-success (record (at in_pace) { pace = react_to e p }) (react_to e p).state refl)
      ∙ h)
  change_step-success (event e) prepare_change_pin h =
      inl (sym (react_outside-success e prepare_change_pin) ∙ h)
  change_step-success (event e) s h = inl (sym (react_outside-success e s) ∙ h)
  change_step-success (new_pin_set t) s h = inl h
  change_step-success (eid_pin_done r) s h = eid_pin_reaction-success r s h

-- The run up to an event that confirms the new PIN.
pub record IsConfirmed (events : List ChangeEvent) (w : Workflow) : Type 0 where
  pub before : List ChangeEvent
  pub after : List ChangeEvent
  pub split : events ≡ before ++ eid_pin_done ok ∷ after
  pub state : (change_run before w).state ≡ change_pin
  pub approved : (change_run before w).pace.context.state_approved ≡ true

IsConfirmed-later :
    (e : ChangeEvent) (events : List ChangeEvent) (w : Workflow)
    → IsConfirmed events (change_step e w)
    → IsConfirmed (e ∷ events) w
unfolding change_run
IsConfirmed-later e events w c = record {
  before = e ∷ c.before;
  after = c.after;
  split = ap (λ l. e ∷ l) c.split;
  state = c.state;
  approved = c.approved;
}

change_run-IsConfirmed_from :
    (events : List ChangeEvent) (w : Workflow)
    → (change_run events w).success ≡ true
    → (w.success ≡ true) ⊎ IsConfirmed events w
unfolding change_run
change_run-IsConfirmed_from [] w h = inl h
change_run-IsConfirmed_from (e ∷ events) w h =
    elim (change_run-IsConfirmed_from events (change_step e w) h) [
      | inr c ↦ inr (IsConfirmed-later e events w c)
      | inl s ↦ elim (change_step-success w.pace w.success e w.state s) [
        | inl already ↦ inl already
        | inr (is, at_change, approved) ↦ inr (record {
          before = [];
          after = events;
          split = ap (λ x. x ∷ events) is;
          state = at_change;
          approved = approved;
        })
      ]
    ]

-- The workflow that changes the PIN reports success only in a run with an event in which the card
-- has confirmed the new PIN, while the approved StateChangePin waited for it.
pub change_run-IsConfirmed :
    (events : List ChangeEvent) (c : Context) (readers : List ReaderInfo)
    → (change_run events (begin_workflow c readers)).success ≡ true
    → IsConfirmed events (begin_workflow c readers)
unfolding begin_workflow
change_run-IsConfirmed events c readers h =
    elim (change_run-IsConfirmed_from events (begin_workflow c readers) h) [
      | inl already ↦ absurd (ground arith)
      | inr found ↦ found
    ]
