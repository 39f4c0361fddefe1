-- ===== src/Bluetooth/BluetoothCard.antt =====
-- src/card/bluetooth/BluetoothCard.cpp, with the requests of messages/BluetoothMessageCreator.cpp
-- and the accessors of messages/BluetoothMessage...Response.cpp. What the reader sends in answer to
-- a request, in chunks and before the timeout, is a function of the request's data.
use ausweisapp2_android_sdk.Base.{
  ℕ, Bool, true, false, not, List, [], ◌∷◌, Option, none, some, ◌==◌, if◌then◌else◌,
}
use ausweisapp2_android_sdk.Status.{CardReturnCode, ok, command_failed}
use ausweisapp2_android_sdk.Bluetooth.Message.{
  Message, Parameter, get_parameter, add_parameter, message_data, result_code_id, response_apdu_id,
  transport_protocol_id, command_apdu_7816_id,
}
use ausweisapp2_android_sdk.Bluetooth.Exchange.{send}
pub mod Transmit

abbrev pub Device : Type 0
Device = List ℕ → List (List ℕ)

abbrev pub transfer_apdu_request_id : ℕ
transfer_apdu_request_id = 0x05

abbrev pub transfer_apdu_response_id : ℕ
transfer_apdu_response_id = 0x06

abbrev pub disconnect_request_id : ℕ
disconnect_request_id = 0x02

abbrev pub disconnect_response_id : ℕ
disconnect_response_id = 0x03

abbrev pub set_transport_protocol_request_id : ℕ
set_transport_protocol_request_id = 0x13

abbrev pub set_transport_protocol_response_id : ℕ
set_transport_protocol_response_id = 0x14

-- BluetoothTransportProtocol::T1 and BluetoothResultCode::Ok.
abbrev pub transport_protocol_t1 : ℕ
transport_protocol_t1 = 0x01

abbrev pub result_ok : ℕ
result_ok = 0x00

abbrev pub one_parameter : ℕ → List ℕ → List Parameter
one_parameter id value = record { id = id; value = value; valid = true } ∷ []

unfoldable pub create_disconnect_request : Message
create_disconnect_request = record { msg_id = disconnect_request_id; parameters = [] }

unfoldable pub create_transfer_apdu_request : List ℕ → Message
create_transfer_apdu_request apdu = record {
  msg_id = transfer_apdu_request_id;
  parameters = one_parameter command_apdu_7816_id apdu;
}

unfoldable pub create_set_transport_protocol_request : ℕ → Message
create_set_transport_protocol_request protocol = record {
  msg_id = set_transport_protocol_request_id;
  parameters = one_parameter transport_protocol_id (protocol ∷ []);
}

-- `fault` stands for the dereferencing of a null pointer.
pub data Outcome {ℓ} (A : Type ℓ) : Type ℓ where
  done : A → Outcome A
  fault : Outcome A

infixl 5 ◌>>=◌
abbrev pub ◌>>=◌ {ℓ κ} : {A : Type ℓ} {B : Type κ} → Outcome A → (A → Outcome B) → Outcome B
done a >>= f = f a
fault >>= f = fault

-- `parseByteParameter` leaves the value-initialised code, which is `Ok`, if there is not one byte.
abbrev pub byte_or_ok : List ℕ → ℕ
byte_or_ok (b ∷ []) = b
byte_or_ok _ = result_ok

-- `getResultCode` of the responses.
unfoldable pub get_result_code : Message → Outcome ℕ
unfolding get_parameter
get_result_code m = elim (get_parameter result_code_id m.parameters) [
  | none ↦ fault
  | some p ↦ done (byte_or_ok p.value)
]

-- `getResponseAPDU`.
unfoldable pub get_response_apdu : Message → Outcome (List ℕ)
unfolding get_parameter
get_response_apdu m = elim (get_parameter response_apdu_id m.parameters) [
  | none ↦ fault
  | some p ↦ done p.value
]

-- The state of a card is whether it is connected. A method returns its result and the new state.
module _ (char_signed : Bool) (device : Device) where
  abbrev pub ask : Message → ℕ → Option Message
  ask request response_type =
      send char_signed (device (message_data char_signed request)) response_type

  abbrev connected_by : Option Message → Outcome (CardReturnCode × Bool)
  connected_by none = done (command_failed, false)
  connected_by (some m) = do
    code ← get_result_code m
    done (if code == result_ok then (ok, true) else (command_failed, false))

  unfoldable pub connect : Bool → Outcome (CardReturnCode × Bool)
  unfolding create_set_transport_protocol_request
  connect true = done (command_failed, true)
  connect false = connected_by (
      ask (create_set_transport_protocol_request transport_protocol_t1)
        set_transport_protocol_response_id)

  abbrev disconnected_by : Option Message → CardReturnCode × Bool
  disconnected_by none = (command_failed, false)
  disconnected_by (some m) = (ok, false)

  unfoldable pub disconnect : Bool → CardReturnCode × Bool
  unfolding create_disconnect_request
  disconnect false = (command_failed, false)
  disconnect true = disconnected_by (ask create_disconnect_request disconnect_response_id)

  -- A result other than `OK` comes with the empty response.
  abbrev transmitted_by : Option Message → Outcome (CardReturnCode × List ℕ)
  transmitted_by none = done (command_failed, [])
  transmitted_by (some m) = do
    code ← get_result_code m
    if code == result_ok
        then (get_response_apdu m >>= λ apdu. done (ok, apdu))
        else done (command_failed, [])

  unfoldable pub transmit : Bool → List ℕ → Outcome (CardReturnCode × List ℕ)
  unfolding create_transfer_apdu_request
  transmit false apdu = done (command_failed, [])
  transmit true apdu =
      transmitted_by (ask (create_transfer_apdu_request apdu) transfer_apdu_response_id)
