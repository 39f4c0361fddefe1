-- ===== src/Pace/Killed/Settled.antt =====
-- A killed workflow comes to rest: the rounds that `settle` is given, and the end of the machine.
use ausweisapp2_android_sdk.Base.{
  if◌then◌else◌, Bool-cases, ℕ, zero, suc, ◌<◌, ◌≡◌, refl, inl, inr, Bool, true, false, not, ◌&&◌,
  arith,
}
use ausweisapp2_android_sdk.Pace.Context.{Context}
use ausweisapp2_android_sdk.Pace.Machine.{
  StateName, verify_retry_counter, Machine, run_state, approve_state, settle, rounds,
}
use ausweisapp2_android_sdk.Pace.Invariant.{holds, follow-holds}
use ausweisapp2_android_sdk.Pace.Killed.Rank.{rank, is_doomed, is_calmer, run_state-is_calmer}

-- The workflow is killed, and its state has not run yet.
unfoldable pub is_pending : Machine → Bool
is_pending m = m.context.workflow_killed && not m.context.state_approved

approve_state-calmer :
    (m : Machine)
    → is_doomed m.context ≡ true
    → is_pending m ≡ true
    → holds (is_calmer (rank m.state)) (approve_state m) ≡ true
unfolding is_pending approve_state
approve_state-calmer m d p =
    let c : Context = record m.context { state_approved = true } in
    let go =
      follow-holds (is_calmer (rank m.state)) (record m { context = c })
        (run_state m.state m.readers c)
        (run_state-is_calmer m.state m.readers c (unfold is_doomed in d) refl) in
    ground (arith, go)

settle-idle : (n : ℕ) (m : Machine) → is_pending m ≡ false → is_pending (settle n m) ≡ false
unfolding settle is_pending
settle-idle zero m h = h
settle-idle (suc n) m h = rw h h

if-idle :
    (b : Bool) (x y : Machine)
    → (b ≡ true → is_pending x ≡ false)
    → (b ≡ false → is_pending y ≡ false)
    → is_pending (if b then x else y) ≡ false
if-idle true x y h k = h refl
if-idle false x y h k = k refl

below :
    (n : ℕ) (m : Machine)
    → holds (is_calmer n) m ≡ true
    → m.context.state_approved ≡ false
    → (is_doomed m.context ≡ true) × (rank m.state < n)
unfolding holds is_calmer
below n m h a = (ground arith, ground arith)

approved-idle : (m : Machine) → m.context.state_approved ≡ true → is_pending m ≡ false
unfolding is_pending
approved-idle m a = ground arith

pub settle-rests :
    (n : ℕ) (m : Machine)
    → is_doomed m.context ≡ true
    → rank m.state < n
    → is_pending (settle n m) ≡ false
unfolding settle
settle-rests zero m d h = absurd (omega arith)
settle-rests (suc n) m d h =
    if-idle (m.context.workflow_killed && not m.context.state_approved) (settle n (approve_state m))
      m
      (λ p.
        let next = approve_state m in
        elim (Bool-cases next.context.state_approved) [
          | inl a ↦ settle-idle n next (approved-idle next a)
          | inr a ↦
              (let low =
                  below (rank m.state) next (approve_state-calmer m d (unfold is_pending in p)) a in
                settle-rests n next low.0 (omega (arith, low.1, h)))
        ])
      (λ p. unfold is_pending in p)

rank_bound : (s : StateName) → rank s < rounds
unfolding rank
rank_bound verify_retry_counter = omega arith
rank_bound _ = omega arith

-- The rounds of `settle` are enough: when the workflow is killed and has an error status, no
-- state is left that has been entered and has not run.
pub settle_enough :
    (m : Machine) → is_doomed m.context ≡ true → is_pending (settle rounds m) ≡ false
settle_enough m d = settle-rests rounds m d (rank_bound m.state)
