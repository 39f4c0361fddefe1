-- ===== src/Tests/BluetoothTests.antt =====
-- Messages of a Bluetooth reader, whole and in chunks.
use ausweisapp2_android_sdk.Base.{
  take, drop, ℕ, ◌/◌, ◌%◌, ◌<◌, ◌≡◌, refl, ◌↔◌, true, some, List, [], ◌∷◌, ◌++◌, arith,
}
use ausweisapp2_android_sdk.Status.{ok}
use ausweisapp2_android_sdk.Bluetooth.Message.{
  add_parameter, insert_multi, Message, get_padding_length, padding, parameter_data,
  create_message_parameter, create_message, get_parameter, parameters_data, message_data,
  max_msg_size_of, max_msg_size_from,
}
use ausweisapp2_android_sdk.Bluetooth.Message.MaxMsgSize.{max_msg_size-signed}
use ausweisapp2_android_sdk.Bluetooth.Parser.{
  rounds, parse, parse_message, parse_parameters, get_param_length,
}
use ausweisapp2_android_sdk.Bluetooth.Parser.Stream.{parse-some, parse-append}
use ausweisapp2_android_sdk.Bluetooth.RoundTrip.{IsWellFormed, parse-message_data}
use ausweisapp2_android_sdk.Bluetooth.Exchange.{receive, new_call}
use ausweisapp2_android_sdk.Bluetooth.Exchange.Chunks.{receive-message_data}
use ausweisapp2_android_sdk.Bluetooth.BluetoothCard.{
  transmit, Device, transfer_apdu_response_id, done, fault,
}
use ausweisapp2_android_sdk.Bluetooth.BluetoothCard.Transmit.{
  transmit_lem, transmit_fault, apdu_response,
}

-- A response with the status word 9000, and its 20 bytes.
abbrev response : Message
response = apdu_response (0x90 ∷ 0x00 ∷ [])

response-IsWellFormed : IsWellFormed true response
response-IsWellFormed = record {
  count = ground arith;
  ascends = ground arith;
  built = (
    record { fits = omega arith; taken = unfold create_message_parameter in refl },
    (record { fits = omega arith; taken = unfold create_message_parameter in refl }, tt),
  );
}

abbrev response_bytes : List ℕ
response_bytes =
    0x06 ∷ 0x02 ∷ 0 ∷ 0 ∷ 0x02 ∷ 0 ∷ 0 ∷ 1 ∷ 0 ∷ 0 ∷ 0 ∷ 0 ∷ 0x05 ∷ 0 ∷ 0 ∷ 2 ∷ 0x90 ∷ 0x00 ∷ 0 ∷ 0
    ∷ []

response_written : message_data true response ≡ response_bytes
unfolding message_data parameters_data parameter_data padding get_padding_length
response_written = refl

response_in_chunks : response_bytes ≡ message_data true response ++ []
unfolding message_data parameters_data parameter_data padding get_padding_length
response_in_chunks = refl

parse-message_data_example :
    parse true (message_data true response ++ (0x06 ∷ []))
    ≡ (response ∷ (parse true (0x06 ∷ [])).0, (parse true (0x06 ∷ [])).1)
parse-message_data_example = parse-message_data true response (0x06 ∷ []) response-IsWellFormed

parse-append_example :
    let (ms, left) = parse true (take 7 response_bytes) in
    let (ms', left') = parse true (left ++ drop 7 response_bytes) in
    parse true (take 7 response_bytes ++ drop 7 response_bytes) ≡ (ms ++ ms', left')
parse-append_example = parse-append true (take 7 response_bytes) (drop 7 response_bytes)

response_parses : parse_message true response_bytes ≡ some (response, [])
unfolding parse_message parse_parameters get_param_length rounds create_message
    create_message_parameter add_parameter insert_multi get_padding_length
response_parses = refl

parse-some_example :
    let (ms, left) = parse true [] in parse true response_bytes ≡ (response ∷ ms, left)
parse-some_example = parse-some true response_bytes response [] response_parses

abbrev chunks : List (List ℕ)
chunks = take 7 response_bytes ∷ drop 7 response_bytes ∷ []

receive-message_data_example : (receive true new_call chunks).message ≡ some response
receive-message_data_example =
    receive-message_data true response chunks [] response-IsWellFormed response_in_chunks

abbrev answers_with : List ℕ → Device
answers_with bytes request = bytes ∷ []

transmit_lem_example :
    transmit true (answers_with response_bytes) true (0x00 ∷ 0x84 ∷ 0x00 ∷ 0x00 ∷ 0x08 ∷ [])
    ≡ done (ok, 0x90 ∷ 0x00 ∷ [])
transmit_lem_example =
    transmit_lem true (answers_with response_bytes) (0x00 ∷ 0x84 ∷ 0x00 ∷ 0x00 ∷ 0x08 ∷ [])
      (0x90 ∷ 0x00 ∷ []) [] (omega arith) response_in_chunks

-- A response that says nothing.
abbrev silent : Message
silent = record { msg_id = transfer_apdu_response_id; parameters = [] }

silent_sent : 0x06 ∷ 0 ∷ 0 ∷ 0 ∷ [] ≡ message_data true silent ++ []
unfolding message_data parameters_data
silent_sent = refl

transmit_fault_example :
    transmit true
      (answers_with (0x06 ∷ 0 ∷ 0 ∷ 0 ∷ []))
      true
      (0x00 ∷ 0x84 ∷ 0x00 ∷ 0x00 ∷ 0x08 ∷ [])
    ≡ fault
transmit_fault_example =
    transmit_fault true (answers_with (0x06 ∷ 0 ∷ 0 ∷ 0 ∷ []))
      (0x00 ∷ 0x84 ∷ 0x00 ∷ 0x00 ∷ 0x08 ∷ []) [] silent
      (record { count = ground arith; ascends = tt; built = tt }) refl
      (unfold get_parameter in refl) silent_sent

max_msg_size-signed_example :
    (max_msg_size_from true (max_msg_size_of 500).value ≡ 500)
    ↔ ((500 / 256 < 128) × (500 % 256 < 128))
max_msg_size-signed_example = max_msg_size-signed 500 (omega arith)
