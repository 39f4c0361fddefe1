-- ===== src/Pace/Invariant.antt =====
-- Invariants of the machine of src/core/states/CompositeStatePace.cpp, in terms of its states'
-- answers and of the changes of its context.
use ausweisapp2_android_sdk.Base.{
  if◌then◌else◌, ℕ, zero, suc, ◌≡◌, refl, Bool, true, false, ◌&&◌, none, some, List, [], ◌∷◌, arith,
}
use ausweisapp2_android_sdk.Pace.Context.{Text, Counter, PacePasswordId, Context, kill_workflow}
use ausweisapp2_android_sdk.Pace.States.{Signal, wait, undefined_behaviour, Reaction}
use ausweisapp2_android_sdk.Pace.Reader.{ReaderInfo}
use ausweisapp2_android_sdk.Pace.Machine.{
  StateName, faulted, transition, Machine, follow, run_state, on_user_cancelled, approve_state,
  settle, rounds,
}
use ausweisapp2_android_sdk.Pace.Events.{
  cancel, kill_machine, Event, approve, cancelled, killed, plug_ins_changed, readers_changed,
  retry_counter_changed, password_set, answer, on_plug_ins_changed, set_password, set_retry_counter,
  answer_if_approved, react_to, step, run,
}

abbrev pub Test : Type 0
Test = StateName → Context → Bool

-- The test holds where the machine goes from state `s` with this answer.
unfoldable pub leads : Test → StateName → Reaction → Bool
unfolding transition
leads test s (c, wait) = test s c
leads test s (c, undefined_behaviour) = test faulted c
leads test s (c, signal) = elim (transition s signal) [
  | none ↦ test s c
  | some t ↦ test t (record c { state_approved = false })
]

-- Where the machine goes with this signal.
unfoldable pub after : StateName → Signal → StateName
unfolding transition
after s wait = s
after s undefined_behaviour = faulted
after s signal = elim (transition s signal) [ none ↦ s | some t ↦ t ]

unfoldable pub holds : Test → Machine → Bool
holds test m = test m.state m.context

unfoldable pub all_are : (Event → Bool) → List Event → Bool
all_are admits [] = true
all_are admits (e ∷ events) = admits e && all_are admits events

-- A state that has not run yet keeps the test when it runs.
abbrev pub Runs : Test → Type 0
Runs test =
    (s : StateName) (readers : List ReaderInfo) (c : Context)
    → c.state_approved ≡ false
    → test s c ≡ true
    → leads test s (run_state s readers (record c { state_approved = true })) ≡ true

pub record Preserved (test : Test) (admits : Event → Bool) : Type 0 where
  pub runs : Runs test
  pub cancels :
      (s : StateName) (c : Context) → test s c ≡ true → leads test s (on_user_cancelled s c) ≡ true
  pub answers :
      (s : StateName) (e : Event) (readers : List ReaderInfo) (c : Context)
      → admits e ≡ true
      → c.state_approved ≡ true
      → test s c ≡ true
      → leads test s (answer s e readers c) ≡ true
  pub retries :
      (s : StateName) (c : Context)
      → test s c ≡ true
      → leads test s (c, on_plug_ins_changed s) ≡ true
  pub counts :
      (s : StateName) (c : Context) (n : Counter)
      → test s c ≡ true
      → test s (set_retry_counter n c) ≡ true
  pub sets :
      (s : StateName) (c : Context) (id : PacePasswordId) (t : Text)
      → admits (password_set id t) ≡ true
      → test s c ≡ true
      → test s (set_password id t c) ≡ true
  pub kills : (s : StateName) (c : Context) → test s c ≡ true → test s (kill_workflow c) ≡ true

pub follow-holds :
    (test : Test) (m : Machine) (r : Reaction)
    → leads test m.state r ≡ true
    → holds test (follow m r) ≡ true
unfolding holds leads follow
follow-holds test m (c, wait) h = h
follow-holds test m (c, undefined_behaviour) h = h
follow-holds test m (c, signal) h =
    elim (transition m.state signal)
        as (λ o.
          (elim o [ none ↦ test m.state c | some t ↦ test t (record c { state_approved = false }) ])
            ≡ true
          → holds test (elim o [
            | none ↦ record m { context = c }
            | some s ↦ record m { state = s; context = record c { state_approved = false } }
          ])
            ≡ true) [ none ↦ λ k. k | some t ↦ λ k. k ]
      h

-- A test that does not ask for the approval.
pub leads-after :
    (test : Test)
    → ((s : StateName) (c : Context)
        → test s c ≡ true
        → test s (record c { state_approved = false }) ≡ true)
    → (s : StateName) (r : Reaction) → test (after s r.1) r.0 ≡ true
    → leads test s r ≡ true
unfolding leads after
leads-after test blind s (c, wait) h = h
leads-after test blind s (c, undefined_behaviour) h = h
leads-after test blind s (c, signal) h =
    elim (transition s signal)
        as (λ o.
          test (elim o [ none ↦ s | some t ↦ t ]) c ≡ true
          → (elim o [ none ↦ test s c | some t ↦ test t (record c { state_approved = false }) ])
            ≡ true) [ none ↦ λ k. k | some t ↦ λ k. blind t c k ]
      h

if-holds :
    (test : Test) (b : Bool) (x y : Machine)
    → (b ≡ true → holds test x ≡ true)
    → (b ≡ false → holds test y ≡ true)
    → holds test (if b then x else y) ≡ true
if-holds test true x y h k = h refl
if-holds test false x y h k = k refl

module _ (test : Test) (runs : Runs test) where
  pub approve_state-holds :
      (m : Machine) → holds test m ≡ true → holds test (approve_state m) ≡ true
  unfolding approve_state holds
  approve_state-holds m h =
      let c = record m.context { state_approved = true } in
      let moved = follow (record m { context = c }) (run_state m.state m.readers c) in
      if-holds test m.context.state_approved m moved (λ e. h)
        (λ e.
          follow-holds test (record m { context = c }) (run_state m.state m.readers c)
            (runs m.state m.readers m.context e h))

  pub settle-holds : (n : ℕ) (m : Machine) → holds test m ≡ true → holds test (settle n m) ≡ true
  unfolding settle
  settle-holds zero m h = h
  settle-holds (suc n) m h =
      ground (arith, settle-holds n (approve_state m) (approve_state-holds m h))

module _ (test : Test) (admits : Event → Bool) (p : Preserved test admits) where
  answer_if_approved-holds :
      (e : Event) (m : Machine)
      → admits e ≡ true
      → holds test m ≡ true
      → holds test (answer_if_approved e m) ≡ true
  unfolding answer_if_approved holds
  answer_if_approved-holds e m a h =
      let r = answer m.state e m.readers m.context in
      if-holds test m.context.state_approved (follow m r) m
        (λ e'. follow-holds test m r (p.answers m.state e m.readers m.context a e' h)) (λ e'. h)

  cancel-holds : (m : Machine) → holds test m ≡ true → holds test (cancel m) ≡ true
  unfolding cancel holds
  cancel-holds m h =
      follow-holds test m (on_user_cancelled m.state m.context) (p.cancels m.state m.context h)

  kill_machine-holds : (m : Machine) → holds test m ≡ true → holds test (kill_machine m) ≡ true
  unfolding kill_machine holds
  kill_machine-holds m h =
      let k : Machine = record m { context = kill_workflow m.context } in
      cancel-holds (settle rounds (approve_state k)) (
        settle-holds test p.runs rounds (approve_state k)
          (approve_state-holds test p.runs k (p.kills m.state m.context h)))

  react_to-holds :
      (e : Event) (m : Machine)
      → admits e ≡ true
      → holds test m ≡ true
      → holds test (react_to e m) ≡ true
  unfolding react_to holds
  react_to-holds approve m a h = approve_state-holds test p.runs m h
  react_to-holds cancelled m a h = cancel-holds m h
  react_to-holds killed m a h = kill_machine-holds m h
  react_to-holds plug_ins_changed m a h =
      follow-holds test m (m.context, on_plug_ins_changed m.state) (p.retries m.state m.context h)
  react_to-holds (readers_changed l) m a h =
      answer_if_approved-holds (readers_changed l) (record m { readers = l }) a h
  react_to-holds (retry_counter_changed n) m a h = p.counts m.state m.context n h
  react_to-holds (password_set id t) m a h = p.sets m.state m.context id t a h
  react_to-holds e m a h = answer_if_approved-holds e m a h

  pub step-holds :
      (e : Event) (m : Machine)
      → admits e ≡ true
      → holds test m ≡ true
      → holds test (step e m) ≡ true
  unfolding step
  step-holds e m a h = settle-holds test p.runs rounds (react_to e m) (react_to-holds e m a h)

  pub run-holds :
      (events : List Event) (m : Machine)
      → all_are admits events ≡ true
      → holds test m ≡ true
      → holds test (run events m) ≡ true
  unfolding run all_are
  run-holds [] m a h = h
  run-holds (e ∷ events) m a h =
      run-holds events (step e m) (ground arith) (step-holds e m (ground arith) h)
