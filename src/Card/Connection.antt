-- ===== src/Card/Connection.antt =====
-- src/card/base/CardConnectionWorker.cpp: a connection to a card, with its reader. The
-- card, its driver, the cipher of the secure channel and the PACE protocol are a `Device`; what
-- PACE hands out besides its return code, timeouts and texts are left out. A PIN is its bytes. A
-- result made of a return code alone has the empty response.
use ausweisapp2_android_sdk.Base.{
  ℕ, zero, suc, ◌==◌, Bool, true, false, ◌&&◌, ◌||◌, not, Option, none, some, List, [], ◌∷◌, ◌++◌,
  length, is_empty, if◌then◌else◌,
}
use ausweisapp2_android_sdk.Status.{CardReturnCode, ok, card_not_found, command_failed}
use ausweisapp2_android_sdk.Pace.Context.{PacePasswordId, same_counter}
use ausweisapp2_android_sdk.Pace.Reader.{ReaderInfo}
use ausweisapp2_android_sdk.Pace.Establish.{is_ok}
use ausweisapp2_android_sdk.Card.Builders.{
  FileRef, build_select, build_read_binary, build_reset_retry_counter, build_mse, no_data, erase,
  default_channel, perform_security_operation, set_at,
}
use ausweisapp2_android_sdk.Card.ResponseApdu.{
  StatusCode, value, success, end_of_file, get_data, get_return_code, get_retry_counter,
}
pub mod RetryCounter
pub mod ReadFile
pub mod Sealed

-- CardConnectionWorker with its reader: the card in the reader, the secure channel, what is known
-- of the reader, the protocol and the parameter id of the first PACE info of EF.CardAccess, and how
-- often the reader has said that its retry counter has changed.
pub record Worker (S K : Type 0) : Type 0 where
  pub card : Option S
  pub secure_messaging : Option K
  pub reader_info : ReaderInfo
  pub counter_reference : Option (List ℕ × List ℕ)
  pub counter_changes : ℕ

-- What a card answers: a return code and a response.
abbrev pub Answer : Type 0
Answer = CardReturnCode × List ℕ

pub record Device (S K : Type 0) : Type 0 where
  pub card_transmit : S → List ℕ → S × Answer
  pub card_pace : S → PacePasswordId → List ℕ → List ℕ → S × CardReturnCode
  pub card_destroy_pace : S → S × CardReturnCode
  pub card_set_eid_pin : S → S × Answer
  pub encode : ℕ → List ℕ → List ℕ
  pub encrypt : K → List ℕ → K × List ℕ
  pub decrypt : K → List ℕ → K × List ℕ
  pub pace_handler :
      Worker S K → PacePasswordId → List ℕ → List ℕ → Worker S K × (CardReturnCode × K)

-- The response is there and has this status.
unfoldable pub is_answered : StatusCode → Answer → Bool
unfolding value get_return_code is_ok
is_answered s (code, response) = is_ok code && value (get_return_code response) == value s

module _ {S K : Type 0} where
  unfoldable pub stop_secure_messaging : Worker S K → Worker S K
  stop_secure_messaging w = record w { secure_messaging = none }

  -- The answer to a secured command, with the channel that its response has been decrypted on.
  unfoldable pub unwrap : Worker S K → CardReturnCode → K × List ℕ → Worker S K × Answer
  unfolding stop_secure_messaging
  unwrap w code (k, response) =
      if is_empty response
      then (stop_secure_messaging w, (command_failed, []))
      else (record w { secure_messaging = some k }, (code, response))

  unfoldable pub transmit_secured : Device S K → Worker S K → S → K × List ℕ → Worker S K × Answer
  unfolding unwrap
  transmit_secured d w s (k, secured) =
      if is_empty secured
      then (record w { secure_messaging = some k }, (command_failed, []))
      else let (s', (code, response)) = d.card_transmit s secured in
        unwrap (record w { card = some s' }) code (d.decrypt k response)

  unfoldable pub transmit_plain : Device S K → Worker S K → S → List ℕ → Worker S K × Answer
  transmit_plain d w s apdu =
      let (s', answer) = d.card_transmit s apdu in (record w { card = some s' }, answer)

  unfoldable pub transmit : Device S K → Worker S K → List ℕ → Worker S K × Answer
  unfolding transmit_secured transmit_plain
  transmit d w apdu = elim w.card [
    | none ↦ (w, (card_not_found, []))
    | some s ↦ elim w.secure_messaging [
      | none ↦ transmit_plain d w s apdu
      | some k ↦ transmit_secured d w s (d.encrypt k apdu)
    ]
  ]

  -- The body of the loop behind the command; `rest` is what the next rounds do.
  unfoldable pub read_answer :
      Option (Worker S K × Answer) → Worker S K → List ℕ → Answer → Option (Worker S K × Answer)
  unfolding is_ok is_answered
  read_answer rest w content answer =
      if not (is_ok answer.0)
      then some (w, (command_failed, content))
      else if is_answered end_of_file answer
      then some (w, (ok, content ++ get_data answer.1))
      else if not (is_answered success answer)
      then some (w, (command_failed, content ++ get_data answer.1))
      else rest

  -- The loop; `none` is a loop that has not ended within the fuel.
  unfoldable pub read_binaries : ℕ → Device S K → Worker S K → List ℕ → Option (Worker S K × Answer)
  unfolding transmit build_read_binary read_answer
  read_binaries zero d w content = none
  read_binaries (suc fuel) d w content =
      let (w', answer) = transmit d w (build_read_binary (length content) 0xff) in
      let rest = read_binaries fuel d w' (content ++ get_data answer.1) in
      read_answer rest w' content answer

  unfoldable pub read_file :
      ℕ → Device S K → Worker S K → FileRef → List ℕ → Option (Worker S K × Answer)
  unfolding transmit build_select is_answered read_binaries
  read_file fuel d w file content = elim w.card [
    | none ↦ some (w, (card_not_found, content))
    | some s ↦
        let (w', answer) = transmit d w (build_select file) in
        if not (is_answered success answer)
        then some (w', (command_failed, content))
        else read_binaries fuel d w' content
  ]

  -- What PaceHandler has done; its keys are used if it has succeeded.
  unfoldable pub secure : Worker S K × (CardReturnCode × K) → Worker S K × CardReturnCode
  unfolding is_ok
  secure (w, (code, k)) = (if is_ok code then record w { secure_messaging = some k } else w, code)

  unfoldable pub establish_pace_channel :
      Device S K
      → Worker S K
      → PacePasswordId
      → List ℕ
      → List ℕ
      → List ℕ
      → Worker S K × CardReturnCode
  unfolding secure is_ok
  establish_pace_channel d w id password chat description = elim w.card [
    | none ↦ (w, card_not_found)
    | some s ↦
        if w.reader_info.basic_reader
        then secure (d.pace_handler w id password chat)
        else let (s', code) = d.card_pace s id chat description in
          (record w { card = some s' }, code)
  ]

  unfoldable pub destroy_pace_channel : Device S K → Worker S K → Worker S K × CardReturnCode
  unfolding stop_secure_messaging build_mse
  destroy_pace_channel d w = elim w.card [
    | none ↦ (w, card_not_found)
    | some s ↦
        if w.reader_info.basic_reader
        then (let (s', (code, response)) =
              d.card_transmit s (build_mse erase default_channel no_data) in
            (record (stop_secure_messaging w) { card = some s' }, code))
        else let (s', code) = d.card_destroy_pace s in (record w { card = some s' }, code)
  ]

  -- On a reader without a keypad.
  unfoldable pub change_pin_on_card : Device S K → Worker S K → List ℕ → Worker S K × Answer
  unfolding transmit build_reset_retry_counter is_answered
  change_pin_on_card d w pin =
      let (w', answer) = transmit d w (build_reset_retry_counter (some pin)) in
      (w', if is_answered success answer then (ok, answer.1) else (command_failed, []))

  unfoldable pub set_eid_pin : Device S K → Worker S K → List ℕ → Worker S K × Answer
  unfolding change_pin_on_card
  set_eid_pin d w pin = elim w.card [
    | none ↦ (w, (card_not_found, []))
    | some s ↦
        if w.reader_info.basic_reader
        then change_pin_on_card d w pin
        else let (s', answer) = d.card_set_eid_pin s in (record w { card = some s' }, answer)
  ]

  unfoldable pub set_puk_inoperative : Worker S K → Worker S K
  set_puk_inoperative w = record w {
    reader_info = record w.reader_info {
      card_info = record w.reader_info.card_info { puk_inoperative = true };
    };
  }
