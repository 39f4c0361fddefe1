-- ===== src/Pace/Killed/Waiting.antt =====
-- The states that wait for something after they have run.
use ausweisapp2_android_sdk.Base.{◌≡◌, refl, Bool, true, false, not, ◌||◌, none, some, List, arith}
use ausweisapp2_android_sdk.Pace.Context.{Text, PacePasswordId, pace_can, Context, kill_workflow}
use ausweisapp2_android_sdk.Pace.States.{
  Signal, wait, undefined_behaviour, Reaction, check_connection, abort_with_result,
  forget_passwords, maintain_after, run_maintain_card_connection, run_clear_pace_passwords,
  run_verify_retry_counter, request_pace_can, prepare_pin, prepare, run_prepare_pace,
  run_enter_pace_password, run_unfortunate_card_position,
}
use ausweisapp2_android_sdk.Pace.Reader.{ReaderInfo}
use ausweisapp2_android_sdk.Pace.Machine.{
  StateName, maintain_card_connection, clear_pace_passwords_on_error, select_reader, connect_card,
  update_retry_counter, verify_retry_counter, prepare_pace, unfortunate_card_position,
  enter_pace_password, establish_pace_channel, clear_pace_passwords_before_destroy, destroy_pace,
  aborted, established, faulted, transition, run_state, on_user_cancelled,
}
use ausweisapp2_android_sdk.Pace.Events.{
  Event, answer, on_plug_ins_changed, set_password, set_retry_counter,
}
use ausweisapp2_android_sdk.Pace.Invariant.{Test, leads, Preserved}

unfoldable pub waits : StateName → Bool
waits select_reader = true
waits connect_card = true
waits update_retry_counter = true
waits establish_pace_channel = true
waits destroy_pace = true
waits aborted = true
waits established = true
waits faulted = true
waits _ = false

-- A state that has run and is still there is one that waits.
unfoldable pub is_waiting : Test
unfolding waits
is_waiting s c = not c.state_approved || waits s

-- Every event may happen.
unfoldable pub is_any : Event → Bool
is_any _ = true

waiting_stays : (s : StateName) (r : Reaction) → waits s ≡ true → leads is_waiting s r ≡ true
unfolding leads is_waiting
waiting_stays s (c, wait) h = ground arith
waiting_stays s (c, undefined_behaviour) h = ground arith
waiting_stays s (c, signal) h =
    elim (transition s signal)
      as (λ o.
        (elim o [
          | none ↦ is_waiting s c
          | some t ↦ is_waiting t (record c { state_approved = false })
        ])
        ≡ true) [ none ↦ ground arith | some t ↦ refl ]

-- The signal has a transition, or ends the program.
unfoldable pub goes : StateName → Signal → Bool
unfolding transition
goes s wait = false
goes s undefined_behaviour = true
goes s signal = elim (transition s signal) [ none ↦ false | some t ↦ true ]

goes_on : (s : StateName) (r : Reaction) → goes s r.1 ≡ true → leads is_waiting s r ≡ true
unfolding leads goes is_waiting
goes_on s (c, undefined_behaviour) h = ground arith
goes_on s (c, wait) h = ground arith
goes_on s (c, signal) h =
    elim (transition s signal)
        as (λ o.
          (elim o as (λ _. Bool) [ none ↦ false | some t ↦ true ]) ≡ true
          → (elim o as (λ _. Bool) [
            | none ↦ is_waiting s c
            | some t ↦ is_waiting t (record c { state_approved = false })
          ])
            ≡ true) [ none ↦ λ k. ground arith | some t ↦ λ k. refl ]
      h

run_maintain_card_connection-goes :
    (c : Context) → goes maintain_card_connection (run_maintain_card_connection c).1 ≡ true
unfolding goes transition run_maintain_card_connection maintain_after check_connection
    abort_with_result forget_passwords
run_maintain_card_connection-goes c = ground arith

run_prepare_pace-goes : (c : Context) → goes prepare_pace (run_prepare_pace c).1 ≡ true
unfolding goes transition run_prepare_pace prepare request_pace_can prepare_pin
run_prepare_pace-goes c = ground arith

run_state-is_waiting :
    (s : StateName) (rs : List ReaderInfo) (c : Context)
    → leads is_waiting s (run_state s rs c) ≡ true
unfolding leads is_waiting transition run_state
run_state-is_waiting maintain_card_connection rs c =
    goes_on maintain_card_connection (run_maintain_card_connection c)
      (run_maintain_card_connection-goes c)
run_state-is_waiting clear_pace_passwords_on_error rs c =
    unfold run_clear_pace_passwords in ground arith
run_state-is_waiting clear_pace_passwords_before_destroy rs c =
    unfold run_clear_pace_passwords in ground arith
run_state-is_waiting verify_retry_counter rs c = unfold run_verify_retry_counter in ground arith
run_state-is_waiting prepare_pace rs c =
    goes_on prepare_pace (run_prepare_pace c) (run_prepare_pace-goes c)
run_state-is_waiting unfortunate_card_position rs c =
    unfold run_unfortunate_card_position in ground arith
run_state-is_waiting enter_pace_password rs c = unfold run_enter_pace_password in ground arith
run_state-is_waiting select_reader rs c =
    waiting_stays select_reader (run_state select_reader rs c) refl
run_state-is_waiting connect_card rs c =
    waiting_stays connect_card (run_state connect_card rs c) refl
run_state-is_waiting update_retry_counter rs c =
    waiting_stays update_retry_counter (run_state update_retry_counter rs c) refl
run_state-is_waiting establish_pace_channel rs c =
    waiting_stays establish_pace_channel (run_state establish_pace_channel rs c) refl
run_state-is_waiting destroy_pace rs c =
    waiting_stays destroy_pace (run_state destroy_pace rs c) refl
run_state-is_waiting _ rs c = ground arith

on_user_cancelled-is_waiting :
    (s : StateName) (c : Context)
    → is_waiting s c ≡ true
    → leads is_waiting s (on_user_cancelled s c) ≡ true
unfolding leads is_waiting transition on_user_cancelled
on_user_cancelled-is_waiting aborted c h = ground arith
on_user_cancelled-is_waiting _ c h = ground arith

on_plug_ins_changed-is_waiting :
    (s : StateName) (c : Context)
    → is_waiting s c ≡ true
    → leads is_waiting s (c, on_plug_ins_changed s) ≡ true
unfolding leads is_waiting transition on_plug_ins_changed
on_plug_ins_changed-is_waiting select_reader c h = refl
on_plug_ins_changed-is_waiting _ c h = ground arith

set_password-is_waiting :
    (s : StateName) (c : Context) (id : PacePasswordId) (t : Text)
    → is_waiting s c ≡ true
    → is_waiting s (set_password id t c) ≡ true
unfolding is_waiting set_password
set_password-is_waiting s c pace_can t h = h
set_password-is_waiting s c _ t h = h

approved-waits :
    (s : StateName) (c : Context) → c.state_approved ≡ true → is_waiting s c ≡ true → waits s ≡ true
unfolding is_waiting
approved-waits s c a h = ground arith

pub is_waiting-Preserved : Preserved is_waiting is_any
is_waiting-Preserved = record {
  runs = λ s readers c e h. run_state-is_waiting s readers (record c { state_approved = true });
  cancels = on_user_cancelled-is_waiting;
  answers = λ s e readers c _ a h. waiting_stays s (answer s e readers c) (approved-waits s c a h);
  retries = on_plug_ins_changed-is_waiting;
  counts = λ s c n h. (unfold is_waiting set_retry_counter in h);
  sets = λ s c id t _ h. set_password-is_waiting s c id t h;
  kills = λ s c h. (unfold is_waiting kill_workflow in h);
}
