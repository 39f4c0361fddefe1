-- ===== src/Pace/Passwords/Refused.antt =====
-- Runs of the machine of src/core/states/CompositeStatePace.cpp after the card has refused a
-- password.
use ausweisapp2_android_sdk.Base.{ℕ, ◌≡◌, Bool, true, false, List, arith}
use ausweisapp2_android_sdk.Status.{CardReturnCode, equals_wrong_pace_password}
use ausweisapp2_android_sdk.Pace.Context.{Text, Counter, PacePasswordId, Context, kill_workflow}
use ausweisapp2_android_sdk.Pace.Establish.{establish_connection_done}
use ausweisapp2_android_sdk.Pace.Reader.{ReaderInfo}
use ausweisapp2_android_sdk.Pace.Machine.{
  StateName, establish_pace_channel, Machine, follow, run_state, on_user_cancelled, rounds,
}
use ausweisapp2_android_sdk.Pace.Events.{
  Event, establish_done, password_set, answer, on_plug_ins_changed, set_password, set_retry_counter,
  answer_if_approved, react_to, step, run,
}
use ausweisapp2_android_sdk.Pace.Invariant.{
  settle-holds, run-holds, holds, all_are, Preserved, follow-holds,
}
use ausweisapp2_android_sdk.Pace.Passwords.Cleared.{
  is_cleared→Wiped, is_cleared, keeps_out, is_refused, is_safe, is_safe_answer, leads-is_safe,
  Wiped,
}
use ausweisapp2_android_sdk.Pace.Passwords.States.{
  run_state-is_safe, on_user_cancelled-is_safe, on_plug_ins_changed-is_safe, answer-is_safe,
  establish_connection_done-refused,
}

-- The event does not give the workflow a password.
unfoldable pub is_no_password : Event → Bool
is_no_password (password_set id t) = false
is_no_password _ = true

kill_workflow-is_safe :
    (s : StateName) (c : Context) → is_safe s c ≡ true → is_safe s (kill_workflow c) ≡ true
unfolding is_safe is_cleared is_refused keeps_out kill_workflow
kill_workflow-is_safe s c h = ground arith

set_password-is_safe :
    (s : StateName) (c : Context) (id : PacePasswordId) (t : Text)
    → is_no_password (password_set id t) ≡ true
    → is_safe s c ≡ true
    → is_safe s (set_password id t c) ≡ true
unfolding is_no_password
set_password-is_safe s c id t a h = ground arith

set_retry_counter-is_safe :
    (s : StateName) (c : Context) (n : Counter)
    → is_safe s c ≡ true
    → is_safe s (set_retry_counter n c) ≡ true
unfolding is_safe is_cleared is_refused set_retry_counter
set_retry_counter-is_safe s c n h = h

is_safe-Preserved : Preserved is_safe is_no_password
is_safe-Preserved = record {
  runs = λ s readers c e h.
      let c' = record c { state_approved = true } in
      leads-is_safe s (run_state s readers c')
        (run_state-is_safe s readers c' (unfold is_safe is_cleared is_refused in h));
  cancels = λ s c h. leads-is_safe s (on_user_cancelled s c) (on_user_cancelled-is_safe s c h);
  answers = λ s e readers c a _ h.
      leads-is_safe s (answer s e readers c) (answer-is_safe s e readers c h);
  retries = λ s c h.
      leads-is_safe s (c, on_plug_ins_changed s)
        (unfold is_safe_answer in on_plug_ins_changed-is_safe s c h);
  counts = set_retry_counter-is_safe;
  sets = set_password-is_safe;
  kills = kill_workflow-is_safe;
}

-- While the command is under way.
abbrev pub sent : Context → List ReaderInfo → Machine
sent c readers = record {
  state = establish_pace_channel;
  context = record c { state_approved = true };
  readers = readers;
}

establish_done-is_safe :
    (now : ℕ) (r : CardReturnCode) (c : Context) (readers : List ReaderInfo)
    → equals_wrong_pace_password r ≡ true
    → holds is_safe (step (establish_done now r) (sent c readers)) ≡ true
unfolding step react_to answer_if_approved answer
establish_done-is_safe now r c readers wrong =
    let c' = record c { state_approved = true } in
    let done = establish_connection_done now r c' in
    settle-holds is_safe is_safe-Preserved.runs rounds (follow (sent c readers) done) (
      follow-holds is_safe (sent c readers) done (
        leads-is_safe establish_pace_channel done
          (establish_connection_done-refused now r c' wrong)))

back-is_cleared :
    (m : Machine)
    → holds is_safe m ≡ true
    → m.state ≡ establish_pace_channel
    → is_cleared m.context ≡ true
unfolding holds is_safe keeps_out
back-is_cleared m h at = ground arith

-- Once the card has refused a password, the machine comes back to StateEstablishPaceChannel only
-- with all passwords deleted, whatever happens in between, unless a password is set again.
pub run-refused :
    (events : List Event) (now : ℕ) (r : CardReturnCode) (c : Context) (readers : List ReaderInfo)
    → equals_wrong_pace_password r ≡ true
    → all_are is_no_password events ≡ true
    → let m = run events (step (establish_done now r) (sent c readers)) in
      m.state ≡ establish_pace_channel → Wiped m.context
run-refused events now r c readers wrong np back =
    let m = step (establish_done now r) (sent c readers) in
    is_cleared→Wiped (run events m).context (
      back-is_cleared (run events m)
        (run-holds is_safe is_no_password is_safe-Preserved events m np
          (establish_done-is_safe now r c readers wrong))
        back)
