-- ===== src/Pace/Killed/Ends.antt =====
-- The end of a killed workflow.
use ausweisapp2_android_sdk.Base.{
  if◌then◌else◌, is_empty, ◌≡◌, refl, ap, ◌∙◌, ◌≢◌, Bool, true, false, ◌&&◌, Option, none, some,
  List, [], ◌∷◌, arith,
}
use ausweisapp2_android_sdk.Status.{is_error}
use ausweisapp2_android_sdk.Pace.Context.{
  Connection, Context, set_last_pace_result, reset_pace_passwords, set_npa_position_verified,
  remember_reader, kill_workflow, update_status,
}
use ausweisapp2_android_sdk.Pace.States.{
  Signal, fire_continue, fire_abort, wait, Reaction, run_maintain_card_connection,
  run_clear_pace_passwords, expect, verify, run_verify_retry_counter, run_prepare_pace,
  run_enter_pace_password, run_unfortunate_card_position, run_update_retry_counter,
  run_destroy_pace,
}
use ausweisapp2_android_sdk.Pace.Establish.{password_of, abort, run_establish_pace_channel}
use ausweisapp2_android_sdk.Pace.Reader.{ReaderInfo, on_reader_info_changed}
use ausweisapp2_android_sdk.Pace.Machine.{
  StateName, maintain_card_connection, clear_pace_passwords_on_error, select_reader,
  update_retry_counter, verify_retry_counter, prepare_pace, unfortunate_card_position,
  enter_pace_password, establish_pace_channel, clear_pace_passwords_before_destroy, destroy_pace,
  aborted, established, transition, Machine, start, follow, run_state, on_user_cancelled,
  approve_state, settle, rounds,
}
use ausweisapp2_android_sdk.Pace.Events.{cancel, kill_machine, Event, killed, react_to, step, run}
use ausweisapp2_android_sdk.Pace.Invariant.{
  approve_state-holds, Test, leads, holds, all_are, Runs, follow-holds, settle-holds, run-holds,
}
use ausweisapp2_android_sdk.Pace.Faults.Sound.{is_pin_done, keeps_sound, is_sound, is_fresh}
use ausweisapp2_android_sdk.Pace.Faults.Runs.{is_sound-Preserved, start-is_sound}
use ausweisapp2_android_sdk.Pace.Killed.Rank.{is_doomed, prepare-is_doomed}
use ausweisapp2_android_sdk.Pace.Killed.Settled.{is_pending, settle_enough}
use ausweisapp2_android_sdk.Pace.Killed.Waiting.{waits, is_waiting, is_any, is_waiting-Preserved}

-- The last states of a workflow that has failed.
unfoldable pub is_last : StateName → Bool
is_last maintain_card_connection = true
is_last clear_pace_passwords_on_error = true
is_last aborted = true
is_last _ = false

unfoldable pub is_ending : Test
unfolding is_last is_doomed
is_ending s c = is_doomed c && is_last s

-- The channel has not been reported; the workflow is killed.
unfoldable pub is_open : StateName → Bool
is_open established = false
is_open _ = true

unfoldable pub is_closing : Test
unfolding is_open is_doomed
is_closing s c = is_doomed c && is_open s

run_state-is_ending : Runs is_ending
unfolding leads is_ending is_doomed is_last transition run_state
run_state-is_ending maintain_card_connection rs c a h =
    unfold run_maintain_card_connection in ground arith
run_state-is_ending clear_pace_passwords_on_error rs c a h =
    unfold run_clear_pace_passwords reset_pace_passwords in ground arith
run_state-is_ending aborted rs c a h = ground arith
run_state-is_ending _ rs c a h = ground arith

closing_signal :
    (c : Context) (s : Signal) → is_doomed c ≡ true → leads is_closing prepare_pace (c, s) ≡ true
unfolding leads is_closing is_open transition is_doomed
closing_signal c fire_continue d = ground arith
closing_signal c _ d = ground arith

verify-is_doomed :
    (k : Connection) (c : Context) → is_doomed c ≡ true → is_doomed (verify k c) ≡ true
unfolding is_doomed verify expect remember_reader reset_pace_passwords
verify-is_doomed k c d = ground arith

verified-is_closing :
    (c : Context) (o : Option Connection)
    → is_doomed c ≡ true
    → leads is_closing verify_retry_counter (elim o as (λ _. Reaction) [
      | none ↦ (c, fire_abort)
      | some k ↦ (verify k c, fire_continue)
    ])
      ≡ true
unfolding leads is_closing is_open transition
verified-is_closing c none d = unfold is_doomed in ground arith
verified-is_closing c (some k) d =
    let v = verify-is_doomed k c d in unfold is_doomed in ground arith

establish-aborts :
    (c : Context) → is_doomed c ≡ true → run_establish_pace_channel c ≡ (c, fire_abort)
unfolding run_establish_pace_channel is_doomed
establish-aborts c d =
    let e : is_error c.status ≡ true = ground arith in
    ap
      (λ (b : Bool). if b then (c, fire_abort) else elim c.card_connection as (λ _. Reaction) [
        | none ↦ abort c
        | some k ↦
            if is_empty (password_of c.channel_type c) && k.basic_reader
            then abort (reset_pace_passwords c)
            else (c, wait)
      ])
      e

aborts-is_closing :
    (c : Context)
    → is_doomed c ≡ true
    → leads is_closing establish_pace_channel (c, fire_abort) ≡ true
unfolding leads is_closing is_open transition is_doomed
aborts-is_closing c d = ground arith

doomed_of : (s : StateName) (c : Context) → is_closing s c ≡ true → is_doomed c ≡ true
unfolding is_closing
doomed_of s c h = ground arith

run_state-is_closing : Runs is_closing
unfolding leads is_closing is_doomed is_open transition run_state
run_state-is_closing maintain_card_connection rs c a h =
    unfold run_maintain_card_connection in ground arith
run_state-is_closing select_reader rs c a h = unfold on_reader_info_changed in ground arith
run_state-is_closing verify_retry_counter rs c a h =
    unfold run_verify_retry_counter in
    verified-is_closing (record c { state_approved = true }) c.card_connection
      (unfold is_doomed in doomed_of verify_retry_counter c h)
run_state-is_closing prepare_pace rs c a h =
    let c' : Context = record c { state_approved = true } in
    closing_signal (run_prepare_pace c').0 (run_prepare_pace c').1
      (prepare-is_doomed c' (unfold is_doomed in doomed_of prepare_pace c h) refl).0
run_state-is_closing establish_pace_channel rs c a h =
    let c' : Context = record c { state_approved = true } in
    let d : is_doomed c' ≡ true = unfold is_doomed in doomed_of establish_pace_channel c h in
    ap (leads is_closing establish_pace_channel) (establish-aborts c' d) ∙ aborts-is_closing c' d
run_state-is_closing unfortunate_card_position rs c a h =
    unfold run_unfortunate_card_position set_npa_position_verified in ground arith
run_state-is_closing enter_pace_password rs c a h = unfold run_enter_pace_password in ground arith
run_state-is_closing update_retry_counter rs c a h = unfold run_update_retry_counter in ground arith
run_state-is_closing destroy_pace rs c a h = unfold run_destroy_pace in ground arith
run_state-is_closing clear_pace_passwords_on_error rs c a h =
    unfold run_clear_pace_passwords reset_pace_passwords in ground arith
run_state-is_closing clear_pace_passwords_before_destroy rs c a h =
    unfold run_clear_pace_passwords reset_pace_passwords in ground arith
run_state-is_closing _ rs c a h = ground arith

-- A waiting state leaves on the cancellation.
on_user_cancelled-is_ending :
    (s : StateName) (c : Context)
    → waits s ≡ true
    → is_sound s c ≡ true
    → is_closing s c ≡ true
    → leads is_ending s (on_user_cancelled s c) ≡ true
unfolding leads is_ending is_closing is_open is_doomed is_last transition on_user_cancelled waits
    is_sound keeps_sound update_status set_last_pace_result
on_user_cancelled-is_ending aborted c w g h = ground arith
on_user_cancelled-is_ending _ c w g h = ground arith

ending-aborted :
    (m : Machine)
    → holds is_ending m ≡ true
    → holds is_waiting m ≡ true
    → is_pending m ≡ false
    → m.state ≡ aborted
unfolding holds is_ending is_doomed is_last is_waiting waits is_pending
ending-aborted m e w p = ground arith

killed-is_closing :
    (m : Machine) → m.state ≢ established → is_closing m.state (kill_workflow m.context) ≡ true
unfolding is_closing is_doomed is_open kill_workflow
killed-is_closing m o = ground arith

resting-waits :
    (m : Machine)
    → holds is_closing m ≡ true
    → holds is_waiting m ≡ true
    → is_pending m ≡ false
    → waits m.state ≡ true
unfolding holds is_closing is_doomed is_waiting is_pending
resting-waits m c w p = ground arith

ending-doomed : (m : Machine) → holds is_ending m ≡ true → is_doomed m.context ≡ true
unfolding holds is_ending
ending-doomed m h = ground arith

-- The machine, approved if it was not, has run as far as it can, and then is cancelled.
cancel-ends :
    (k : Machine)
    → holds is_closing k ≡ true
    → holds is_sound k ≡ true
    → holds is_waiting k ≡ true
    → (settle rounds (cancel (settle rounds (approve_state k)))).state ≡ aborted
unfolding cancel
cancel-ends k c g w =
    let a = approve_state k in
    let s = settle rounds a in
    let closing_a = approve_state-holds is_closing run_state-is_closing k c in
    let closing = settle-holds is_closing run_state-is_closing rounds a closing_a in
    let sound =
      settle-holds is_sound is_sound-Preserved.runs rounds a
        (approve_state-holds is_sound is_sound-Preserved.runs k g) in
    let waiting =
      settle-holds is_waiting is_waiting-Preserved.runs rounds a
        (approve_state-holds is_waiting is_waiting-Preserved.runs k w) in
    let rested = settle_enough a (unfold holds in doomed_of a.state a.context closing_a) in
    let answered = on_user_cancelled s.state s.context in
    let ending = follow-holds is_ending s answered (
      unfold holds in
      on_user_cancelled-is_ending s.state s.context (resting-waits s closing waiting rested) sound
        closing) in
    let waiting' =
      follow-holds is_waiting s answered
        (unfold holds in is_waiting-Preserved.cancels s.state s.context waiting) in
    let f = follow s answered in
    ending-aborted (settle rounds f) (settle-holds is_ending run_state-is_ending rounds f ending)
      (settle-holds is_waiting is_waiting-Preserved.runs rounds f waiting')
      (settle_enough f (ending-doomed f ending))

killed-ends :
    (m : Machine)
    → holds is_sound m ≡ true
    → holds is_waiting m ≡ true
    → m.state ≢ established
    → (step killed m).state ≡ aborted
unfolding step react_to kill_machine holds
killed-ends m g w o =
    cancel-ends (record m { context = kill_workflow m.context }) (killed-is_closing m o)
      (is_sound-Preserved.kills m.state m.context g)
      (is_waiting-Preserved.kills m.state m.context w)

start-is_waiting :
    (c : Context) (readers : List ReaderInfo) → holds is_waiting (start c readers) ≡ true
unfolding holds start is_waiting
start-is_waiting c readers = refl

any_events : (events : List Event) → all_are is_any events ≡ true
unfolding all_are is_any
any_events [] = refl
any_events (e ∷ events) = any_events events

-- Killing the workflow, after any run that starts without a PIN channel on the present connection
-- and whose new connections have none, aborts the composite state, unless it has reported the
-- channel before.
pub run-killed :
    (events : List Event) (c : Context) (readers : List ReaderInfo)
    → is_pin_done c ≡ false
    → all_are is_fresh events ≡ true
    → let m = run events (start c readers) in
      m.state ≢ established → (step killed m).state ≡ aborted
run-killed events c readers h a =
    killed-ends (run events (start c readers))
      (run-holds is_sound is_fresh is_sound-Preserved events (start c readers) a
        (start-is_sound c readers h))
      (run-holds is_waiting is_any is_waiting-Preserved events (start c readers) (any_events events)
        (start-is_waiting c readers))
