-- ===== src/Pace/Channel.antt =====
-- Which password StatePreparePace asks for, what StateVerifyRetryCounter keeps, and when
-- StateEstablishPaceChannel ends the composite state.
use ausweisapp2_android_sdk.Base.{
  ℕ, ◌≡◌, refl, sym, ap, ◌∙◌, ◌≢◌, ◌↔◌, ◌⊎◌, Bool, true, false, ◌&&◌, Option, none, some, [], ◌∷◌,
  arith,
}
use ausweisapp2_android_sdk.Status.{CardReturnCode, ok}
use ausweisapp2_android_sdk.Pace.Context.{
  Text, same_text, Counter, same_counter, unknown_id, pace_can, pace_pin, Connection, Context,
  set_last_pace_result, reset_pace_passwords, set_npa_position_verified, is_expected_reader,
  remember_reader,
}
use ausweisapp2_android_sdk.Pace.States.{
  fire_abort, fire_pace_channel_established, Reaction, expect, verify, run_verify_retry_counter,
  channel, request_pace_can, prepare_pin, prepare, run_prepare_pace,
}
use ausweisapp2_android_sdk.Pace.Establish.{
  handle_npa_position, expect_after_success, succeeded, wrong_pin_entered, failed, react,
  note_connection, establish_connection_done,
}
use ausweisapp2_android_sdk.Pace.Passwords.Cleared.{Wiped}

-- Tries are left, and on the last one the CAN has been entered.
unfoldable pub MayUsePin : Connection → Type 0
MayUsePin k =
    (k.retry_counter ≢ some 0) × ((k.retry_counter ≡ some 1) → k.pace_can_successful ≡ true)

same_counter→≡ : (n m : Counter) → same_counter n m ≡ true → n ≡ m
same_counter→≡ none none h = refl
same_counter→≡ (some n) (some m) h = ap some (ground arith)
same_counter→≡ none (some m) h = ground arith
same_counter→≡ (some n) none h = ground arith

≡→same_counter : (n m : Counter) → n ≡ m → same_counter n m ≡ true
≡→same_counter none m h = rw (← h) refl
≡→same_counter (some n) m h = rw (← h) (ground arith)

pub same_text_refl : (t : Text) → same_text t t ≡ true
unfolding same_text
same_text_refl [] = refl
same_text_refl (a ∷ t) = ground (arith, same_text_refl t)

-- The answer of StatePreparePace with this connection.
prepare-pin :
    (c : Context) (k : Connection)
    → (prepare k c).0.channel_type ≡ pace_pin
    → (same_counter k.retry_counter (some 0) ≡ false)
      × (same_counter k.retry_counter (some 1) ≡ true → k.pace_can_successful ≡ true)
unfolding prepare request_pace_can prepare_pin
prepare-pin c k pin = ground arith

run_prepare_pace-some :
    (c : Context) (k : Connection)
    → c.card_connection ≡ some k
    → run_prepare_pace c ≡ prepare k (channel unknown_id c)
unfolding run_prepare_pace
run_prepare_pace-some c k there =
    ap
      (λ (o : Option Connection). elim o as (λ _. Reaction) [
        | none ↦ (channel unknown_id c, fire_abort)
        | some k ↦ prepare k (channel unknown_id c)
      ])
      there

-- With a connection at hand, StatePreparePace chooses the PIN only with tries left, and on the
-- last one only after the CAN.
pub run_prepare_pace-pin :
    (c : Context) (k : Connection)
    → c.card_connection ≡ some k
    → (run_prepare_pace c).0.channel_type ≡ pace_pin
    → MayUsePin k
unfolding MayUsePin
run_prepare_pace-pin c k there pin =
    let h =
      prepare-pin (channel unknown_id c) k
        (ap (λ r. r.0.channel_type) (sym (run_prepare_pace-some c k there)) ∙ pin) in
    (
      λ e. ground (arith, h.0, ≡→same_counter k.retry_counter (some 0) e),
      λ e. h.1 (≡→same_counter k.retry_counter (some 1) e),
    )

-- The passwords that are kept: those entered for this reader and this counter.
unfoldable pub Kept : Context → Context → Type 0
Kept c c' = (c'.can ≡ c.can) × (c'.pin ≡ c.pin) × (c'.puk ≡ c.puk)

unfoldable pub is_expected : Connection → Context → Bool
unfolding is_expected_reader
is_expected k c = is_expected_reader c && same_counter c.expected_retry_counter k.retry_counter

verify-Kept : (c : Context) (k : Connection) → is_expected k c ≡ true → Kept c (verify k c)
unfolding verify Kept is_expected expect remember_reader
verify-Kept c k h = ground arith

verify-Wiped : (c : Context) (k : Connection) → is_expected k c ≡ false → Wiped (verify k c)
unfolding verify Wiped is_expected expect remember_reader reset_pace_passwords
verify-Wiped c k h = ground arith

verify-is_expected : (c : Context) (k : Connection) → is_expected k (verify k c) ≡ true
unfolding verify is_expected expect remember_reader reset_pace_passwords is_expected_reader
verify-is_expected c k = ground (
  arith,
  same_text_refl c.reader_name,
  same_counter→≡ c.expected_retry_counter k.retry_counter,
  ≡→same_counter k.retry_counter k.retry_counter refl,
)

-- With a connection at hand, StateVerifyRetryCounter keeps the passwords if the reader and its
-- retry counter are the expected ones, deletes them if not, and the workflow then expects the
-- present ones.
pub run_verify_retry_counter_lem :
    (c : Context) (k : Connection)
    → c.card_connection ≡ some k
    → let c' = (run_verify_retry_counter c).0 in
      (is_expected k c ≡ true → Kept c c')
      × (is_expected k c ≡ false → Wiped c')
      × (is_expected k c' ≡ true)
unfolding run_verify_retry_counter is_expected Kept
run_verify_retry_counter_lem c k there =
    rw (there, run_verify_retry_counter) (verify-Kept c k, verify-Wiped c k, verify-is_expected c k)

-- StateEstablishPaceChannel reports an established channel exactly when the command has succeeded
-- and the password was the PIN, or the CAN where the CAN is allowed.
pub established_iff :
    (now : ℕ) (r : CardReturnCode) (c : Context)
    → ((establish_connection_done now r c).1 ≡ fire_pace_channel_established) ↔ (
        (r ≡ ok)
        × ((c.channel_type ≡ pace_pin)
            ⊎ ((c.channel_type ≡ pace_can) × (c.can_allowed_mode ≡ true))))
unfolding establish_connection_done react succeeded failed wrong_pin_entered handle_npa_position
    set_npa_position_verified set_last_pace_result note_connection expect_after_success
    reset_pace_passwords
established_iff now ok c = ground arith
established_iff now r c = ground arith
