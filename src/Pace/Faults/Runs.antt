-- ===== src/Pace/Faults/Runs.antt =====
-- Which runs of the machine of src/core/states/CompositeStatePace.cpp end in undefined behaviour.
use ausweisapp2_android_sdk.Base.{ℕ, ◌≡◌, ◌≢◌, true, false, some, List, [], ◌∷◌, arith}
use ausweisapp2_android_sdk.Status.{CardReturnCode, ok}
use ausweisapp2_android_sdk.Pace.Context.{
  Text, Counter, PacePasswordId, pace_can, Context, new_context, kill_workflow,
}
use ausweisapp2_android_sdk.Pace.Reader.{ReaderInfo}
use ausweisapp2_android_sdk.Pace.Machine.{
  StateName, faulted, Machine, start, run_state, on_user_cancelled,
}
use ausweisapp2_android_sdk.Pace.Events.{
  Event, approve, update_done, answer, on_plug_ins_changed, set_password, set_retry_counter, run,
}
use ausweisapp2_android_sdk.Pace.Invariant.{holds, all_are, Preserved, run-holds}
use ausweisapp2_android_sdk.Pace.Faults.Sound.{
  is_pin_done, has_connection, keeps_sound, is_sound, leads-is_sound, is_fresh,
}
use ausweisapp2_android_sdk.Pace.Faults.States.{
  run_state-is_sound, on_user_cancelled-is_sound, on_plug_ins_changed-is_sound, answer-is_sound,
}

kill_workflow-is_sound :
    (s : StateName) (c : Context) → is_sound s c ≡ true → is_sound s (kill_workflow c) ≡ true
unfolding is_sound is_pin_done has_connection kill_workflow
kill_workflow-is_sound s c h = h

set_password-is_sound :
    (s : StateName) (c : Context) (id : PacePasswordId) (t : Text)
    → is_sound s c ≡ true
    → is_sound s (set_password id t c) ≡ true
unfolding is_sound is_pin_done has_connection set_password
set_password-is_sound s c pace_can t h = h
set_password-is_sound s c _ t h = h

set_retry_counter-is_sound :
    (s : StateName) (c : Context) (n : Counter)
    → is_sound s c ≡ true
    → is_sound s (set_retry_counter n c) ≡ true
unfolding is_sound is_pin_done has_connection set_retry_counter
set_retry_counter-is_sound s c n h = ground arith

pub is_sound-Preserved : Preserved is_sound is_fresh
is_sound-Preserved = record {
  runs = λ s readers c e h.
      let c' = record c { state_approved = true } in
      leads-is_sound s (run_state s readers c')
        (run_state-is_sound s readers c' (unfold is_sound is_pin_done has_connection in h));
  cancels = λ s c h. leads-is_sound s (on_user_cancelled s c) (on_user_cancelled-is_sound s c h);
  answers = λ s e readers c a _ h.
      leads-is_sound s (answer s e readers c) (answer-is_sound s e readers c a h);
  retries =
      λ s c h. leads-is_sound s (c, on_plug_ins_changed s) (on_plug_ins_changed-is_sound s c h);
  counts = set_retry_counter-is_sound;
  sets = λ s c id t _ h. set_password-is_sound s c id t h;
  kills = kill_workflow-is_sound;
}

pub start-is_sound :
    (c : Context) (readers : List ReaderInfo)
    → is_pin_done c ≡ false
    → holds is_sound (start c readers) ≡ true
unfolding holds start is_sound keeps_sound is_pin_done
start-is_sound c readers h = ground arith

sound-not_faulted : (m : Machine) → holds is_sound m ≡ true → m.state ≢ faulted
unfolding holds is_sound keeps_sound
sound-not_faulted m h at = ground arith

-- A run that starts without a PIN channel on the present connection, and whose new connections
-- have none, never reaches undefined behaviour.
pub run-faultless :
    (events : List Event) (c : Context) (readers : List ReaderInfo)
    → is_pin_done c ≡ false
    → all_are is_fresh events ≡ true
    → (run events (start c readers)).state ≢ faulted
run-faultless events c readers h a = sound-not_faulted (run events (start c readers)) (
    run-holds is_sound is_fresh is_sound-Preserved events (start c readers) a
      (start-is_sound c readers h))

-- What ChangePinController enters the composite state again with after StateChangePin has failed:
-- the channel that the PIN has opened, with `n` tries left, and the result `r`.
abbrev pub after_change_pin : CardReturnCode → ℕ → Text → Context
after_change_pin r n pin = record new_context {
  pin = pin;
  last_pace_result = r;
  card_connection = some (record {
    retry_counter = some n;
    basic_reader = false;
    pace_can_successful = false;
    pace_pin_successful = true;
  });
}

abbrev pub back_to_prepare : List Event
back_to_prepare = approve ∷ approve ∷ update_done ok ∷ approve ∷ approve ∷ []

abbrev FaultsWith : ℕ → CardReturnCode → Type 0
FaultsWith n r =
    (pin : Text) (readers : List ReaderInfo)
    → (run back_to_prepare (start (after_change_pin r n pin) readers)).state ≡ faulted
