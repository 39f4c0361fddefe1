-- ===== src/Card/Connection/RetryCounter.antt =====
-- src/card/base/Reader.cpp and CardConnectionWorker.cpp: asking a card for its retry counter.
use ausweisapp2_android_sdk.Base.{
  ℕ, suc, ◌==◌, Bool, false, ◌&&◌, ◌||◌, not, Option, none, some, [], ◌∷◌, if◌then◌else◌,
}
use ausweisapp2_android_sdk.Status.{CardReturnCode, ok, card_not_found, command_failed}
use ausweisapp2_android_sdk.Pace.Context.{same_counter}
use ausweisapp2_android_sdk.Pace.Establish.{is_ok}
use ausweisapp2_android_sdk.Card.Builders.{build_mse, no_data, perform_security_operation, set_at}
use ausweisapp2_android_sdk.Card.ResponseApdu.{
  StatusCode, value, get_return_code, get_retry_counter,
}
use ausweisapp2_android_sdk.Card.Connection.{Worker, Device, Answer, transmit}

abbrev same_bool : Bool → Bool → Bool
same_bool a b = if a then b else not b

-- RetryCounterResult: a return code, a counter and whether the PIN is deactivated.
abbrev pub RetryCounterResult : Type 0
RetryCounterResult = CardReturnCode × Option ℕ × Bool

unfoldable pub counter_of : Answer → RetryCounterResult
unfolding is_ok value get_return_code get_retry_counter
counter_of (code, response) =
    let status = value (get_return_code response) in
    if not (is_ok code)
    then (code, none, false)
    else if status == value StatusCode.invalid
    then (command_failed, none, false)
    else (ok, get_retry_counter response, status == value StatusCode.pin_deactivated)

module _ {S K : Type 0} where
  unfoldable pub get_retry_counter_of : Device S K → Worker S K → Worker S K × RetryCounterResult
  unfolding transmit build_mse counter_of
  get_retry_counter_of d w = elim w.counter_reference [
    | none ↦ (w, (command_failed, none, false))
    | some (protocol, parameter) ↦
        let (w', answer) = transmit d w (
          build_mse perform_security_operation set_at (record no_data {
            oid = d.encode 0x80 protocol;
            public_key = d.encode 0x83 (3 ∷ []);
            private_key = d.encode 0x84 parameter;
          })) in
        (w', counter_of answer)
  ]

  -- The reader says that its counter has changed, if it has known another one before.
  unfoldable pub note_counter : Worker S K → RetryCounterResult → Worker S K
  unfolding is_ok
  note_counter w (code, counter, deactivated) =
      let i = w.reader_info.card_info in
      let changed =
        not (same_counter i.retry_counter none)
        && (not (same_counter counter i.retry_counter)
            || not (same_bool deactivated i.pin_deactivated)) in
      if is_ok code
      then record w {
        reader_info = record w.reader_info {
          card_info = record i { retry_counter = counter; pin_deactivated = deactivated };
        };
        counter_changes = if changed then suc w.counter_changes else w.counter_changes;
      }
      else w

  unfoldable pub update_retry_counter : Device S K → Worker S K → Worker S K × CardReturnCode
  unfolding get_retry_counter_of note_counter
  update_retry_counter d w = elim w.card [
    | none ↦ (w, card_not_found)
    | some s ↦ let (w', result) = get_retry_counter_of d w in (note_counter w' result, result.0)
  ]
