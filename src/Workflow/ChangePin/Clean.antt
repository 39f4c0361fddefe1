-- ===== src/Workflow/ChangePin/Clean.antt =====
-- The end of the workflow of src/core/controller/ChangePinController.cpp.
use ausweisapp2_android_sdk.Base.{true, List, [], none, ◌≡◌, refl, inl, inr, Option-cases, arith}
use ausweisapp2_android_sdk.Pace.Context.{Context}
use ausweisapp2_android_sdk.Pace.Reader.{ReaderInfo}
use ausweisapp2_android_sdk.Pace.Passwords.Cleared.{Wiped, is_cleared→Wiped, is_empty→[]}
use ausweisapp2_android_sdk.Workflow.ChangePin.{
  stopped, Workflow, begin_workflow, new_pin_of, ChangeEvent, change_run,
}
use ausweisapp2_android_sdk.Workflow.ChangePin.Tidy.{
  is_wiped, is_disconnected, is_tidy_at, is_tidy, are_orderly, change_run-is_tidy,
}

-- No password and no connection.
pub record IsClean (c : Context) : Type 0 where
  pub can : c.can ≡ []
  pub pin : c.pin ≡ []
  pub puk : c.puk ≡ []
  pub new_pin : new_pin_of c ≡ []
  pub connection : c.card_connection ≡ none

is_disconnected-none : (c : Context) → is_disconnected c ≡ true → c.card_connection ≡ none
unfolding is_disconnected
is_disconnected-none c h = elim (Option-cases c.card_connection) [
  | inl e ↦ e
  | inr (k, e) ↦ absurd (let no = rw (e, is_disconnected) at h in ground arith)
]

tidy_end : (w : Workflow) → w.state ≡ stopped → is_tidy w ≡ true → IsClean w.pace.context
unfolding is_tidy is_tidy_at is_wiped Wiped
tidy_end w e h =
    let c = w.pace.context in
    let tidy : is_tidy_at stopped c ≡ true = rw e at h in
    let wiped = is_cleared→Wiped c (ground arith) in
    record {
      can = wiped.0;
      pin = wiped.1;
      puk = wiped.2;
      new_pin = is_empty→[] (new_pin_of c) (ground arith);
      connection = is_disconnected-none c (ground arith);
    }

-- However a run of the workflow that changes the PIN ends, no password, the new PIN included, and
-- no card connection is left, if no password is set behind StateClearPacePasswords and neither
-- this state nor StateCleanUpReaderManager is cancelled before it runs.
pub change_run-IsClean :
    (events : List ChangeEvent) (c : Context) (readers : List ReaderInfo)
    → are_orderly events (begin_workflow c readers) ≡ true
    → let w = change_run events (begin_workflow c readers) in
      w.state ≡ stopped → IsClean w.pace.context
change_run-IsClean events c readers o stops =
    tidy_end (change_run events (begin_workflow c readers)) stops (
      change_run-is_tidy events (begin_workflow c readers) (unfold is_tidy begin_workflow in refl)
        o)
