-- ===== src/Card/Commands.antt =====
-- src/card/base/command/UnblockPinCommand.cpp and TransmitCommand.cpp, InputAPDUInfo.h, and the
-- answer of src/core/states/StateTransmit.cpp to the latter: commands over a connection to a card.
-- Hexadecimal texts are lists of character codes.
use ausweisapp2_android_sdk.Base.{
  ℕ, ◌+◌, ◌/◌, ◌%◌, ◌==◌, Bool, true, false, ◌&&◌, ◌||◌, not, none, some, List, [], ◌∷◌, is_empty,
  right, ltb, if◌then◌else◌,
}
use ausweisapp2_android_sdk.Status.{
  CardReturnCode, ok, card_not_found, pin_not_blocked, puk_inoperative, unexpected_transmit_status,
  to_global_status,
}
use ausweisapp2_android_sdk.Pace.Context.{Context, Counter, pace_puk, update_status}
use ausweisapp2_android_sdk.Pace.States.{Reaction, fire_continue, fire_abort}
use ausweisapp2_android_sdk.Pace.Reader.{is_eid}
use ausweisapp2_android_sdk.Pace.Establish.{is_ok}
use ausweisapp2_android_sdk.Card.Builders.{build_reset_retry_counter}
use ausweisapp2_android_sdk.Card.ResponseApdu.{
  sw1_value, error_command_not_allowed, get_sw1, return_code_length,
}
use ausweisapp2_android_sdk.Card.Connection.{
  Worker, Device, Answer, transmit, establish_pace_channel, set_puk_inoperative,
}
pub mod Acceptable
pub mod Outputs
pub mod Unblock

-- `> 0`; the undefined counter is -1.
abbrev pub is_positive : Counter → Bool
is_positive none = false
is_positive (some n) = ltb 0 n

abbrev pub is_refused : Answer → Bool
is_refused (code, response) =
    is_ok code && sw1_value (get_sw1 response) == sw1_value error_command_not_allowed

module _ {S K : Type 0} where
  -- What UnblockPinCommand does with the answer to its command.
  unfoldable pub note_unblocked : Worker S K × Answer → Worker S K × CardReturnCode
  unfolding is_ok sw1_value get_sw1 set_puk_inoperative
  note_unblocked (w, answer) =
      if is_refused answer then (set_puk_inoperative w, puk_inoperative) else (w, answer.0)

  unfoldable pub unblock_pin : Device S K → Worker S K → List ℕ → Worker S K × CardReturnCode
  unfolding is_ok is_eid establish_pace_channel transmit build_reset_retry_counter note_unblocked
  unblock_pin d w puk =
      let i = w.reader_info.card_info in
      let paced = establish_pace_channel d w pace_puk puk [] [] in
      if not (is_eid i)
      then (w, card_not_found)
      else if is_positive i.retry_counter || i.pin_deactivated
      then (w, pin_not_blocked)
      else if not (is_ok paced.1)
      then paced
      else note_unblocked (transmit d paced.0 (build_reset_retry_counter none))

-- One element of a Transmit message of the eID server.
pub record InputApduInfo : Type 0 where
  pub input_apdu : List ℕ
  pub acceptable_status_codes : List (List ℕ)

-- QByteArray::toHex: the digits and the letters from a to f.
unfoldable pub hex_digit : ℕ → ℕ
hex_digit n = if ltb n 10 then 48 + n else 87 + n

unfoldable pub to_hex : List ℕ → List ℕ
unfolding hex_digit
to_hex [] = []
to_hex (b ∷ rest) = hex_digit (b / 16) ∷ hex_digit (b % 16) ∷ to_hex rest

unfoldable pub text_starts_with : List ℕ → List ℕ → Bool
text_starts_with text [] = true
text_starts_with [] (p ∷ prefix) = false
text_starts_with (t ∷ text) (p ∷ prefix) = t == p && text_starts_with text prefix

unfoldable pub get_return_code_as_hex : List ℕ → List ℕ
unfolding to_hex
get_return_code_as_hex buffer = to_hex (right buffer return_code_length)

unfoldable pub matches_any : List ℕ → List (List ℕ) → Bool
unfolding text_starts_with
matches_any text [] = false
matches_any text (code ∷ codes) = text_starts_with text code || matches_any text codes

unfoldable pub is_acceptable : InputApduInfo → List ℕ → Bool
unfolding matches_any get_return_code_as_hex
is_acceptable info response =
    is_empty info.acceptable_status_codes
    || matches_any (get_return_code_as_hex response) info.acceptable_status_codes

-- The return code of TransmitCommand, and the responses that it keeps.
abbrev pub TransmitOutput : Type 0
TransmitOutput = CardReturnCode × List (List ℕ)

module _ {S K : Type 0} where
  unfoldable pub transmit_all :
      Device S K → Worker S K → List InputApduInfo → Worker S K × TransmitOutput
  unfolding is_ok is_acceptable to_hex transmit
  transmit_all d w [] = (w, (ok, []))
  transmit_all d w (info ∷ infos) =
      let (w', (code, response)) = transmit d w info.input_apdu in
      let (w'', (code', outputs)) = transmit_all d w' infos in
      if not (is_ok code)
      then (w', (code, []))
      else if is_acceptable info response
      then (w'', (code', to_hex response ∷ outputs))
      else (w', (unexpected_transmit_status, to_hex response ∷ []))

abbrev is_unexpected : CardReturnCode → Bool
is_unexpected unexpected_transmit_status = true
is_unexpected _ = false

-- StateTransmit: the answer to a command that is done, and the output of the response, where it is
-- set.
unfoldable pub transmit_done : TransmitOutput → Context → Reaction × List (List ℕ)
unfolding is_ok update_status to_global_status
transmit_done (code, outputs) c =
    if is_ok code
    then ((c, fire_continue), outputs)
    else if is_unexpected code
    then ((update_status (to_global_status code) c, fire_continue), outputs)
    else ((update_status (to_global_status code) c, fire_abort), [])
