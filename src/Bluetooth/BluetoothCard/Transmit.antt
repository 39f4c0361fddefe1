-- ===== src/Bluetooth/BluetoothCard/Transmit.antt =====
-- What a card command brings back through src/card/bluetooth/BluetoothCard.cpp.
use ausweisapp2_android_sdk.Base.{
  ℕ, ◌≤◌, ◌≡◌, refl, Bool, true, List, [], ◌∷◌, ◌++◌, none, some, arith, length,
}
use ausweisapp2_android_sdk.Status.{ok}
use ausweisapp2_android_sdk.Bluetooth.Message.{
  Message, message_data, result_code_id, response_apdu_id, create_message_parameter, get_parameter,
}
use ausweisapp2_android_sdk.Bluetooth.RoundTrip.{IsWellFormed}
use ausweisapp2_android_sdk.Bluetooth.Exchange.{send}
use ausweisapp2_android_sdk.Bluetooth.Exchange.Chunks.{concat, receive-message_data}
use ausweisapp2_android_sdk.Bluetooth.BluetoothCard.{
  Device, done, fault, transmit, create_transfer_apdu_request, transfer_apdu_response_id,
  get_result_code, get_response_apdu, one_parameter, result_ok,
}

-- The answer of a reader to a command: `Ok`, and the card's response.
abbrev pub apdu_response : List ℕ → Message
apdu_response apdu = record {
  msg_id = transfer_apdu_response_id;
  parameters =
      record { id = result_code_id; value = result_ok ∷ []; valid = true }
      ∷ one_parameter response_apdu_id apdu;
}

module _ (char_signed : Bool) where
  apdu_response-IsWellFormed :
      (apdu : List ℕ) → length apdu ≤ 0xffff → IsWellFormed char_signed (apdu_response apdu)
  apdu_response-IsWellFormed apdu h = record {
    count = ground arith;
    ascends = ground arith;
    built = (
      record { fits = omega arith; taken = unfold create_message_parameter in refl },
      (record { fits = h; taken = unfold create_message_parameter in refl }, tt),
    );
  }

  send-message_data :
      (m : Message) (chunks : List (List ℕ)) (more : List ℕ)
      → IsWellFormed char_signed m
      → concat chunks ≡ message_data char_signed m ++ more
      → send char_signed chunks m.msg_id ≡ some m
  unfolding send
  send-message_data m chunks more good e =
      rw (receive-message_data char_signed m chunks more good e) (ground arith)

  -- A connected card returns the response of at most 0xFFFF bytes that the reader sent for a
  -- command, however the reader cuts its answer into chunks and whatever it sends behind it.
  pub transmit_lem :
      (device : Device) (command response more : List ℕ)
      → length response ≤ 0xffff
      → concat (device (message_data char_signed (create_transfer_apdu_request command)))
        ≡ message_data char_signed (apdu_response response) ++ more
      → transmit char_signed device true command ≡ done (ok, response)
  unfolding transmit get_result_code get_response_apdu
  transmit_lem device command response more h e =
      rw (
        send-message_data (apdu_response response) _ more (apdu_response-IsWellFormed response h) e)

  -- A well-formed answer of the right type that carries no result code, in chunks of any sizes
  -- and with anything behind it, makes the accessor follow a null pointer.
  pub transmit_fault :
      (device : Device) (command more : List ℕ) (m : Message)
      → IsWellFormed char_signed m
      → m.msg_id ≡ transfer_apdu_response_id
      → get_parameter result_code_id m.parameters ≡ none
      → concat (device (message_data char_signed (create_transfer_apdu_request command)))
        ≡ message_data char_signed m ++ more
      → transmit char_signed device true command ≡ fault
  unfolding transmit get_result_code
  transmit_fault device command more m good type missing e = rw (
    ← type,
    send-message_data m (device (message_data char_signed (create_transfer_apdu_request command)))
        more good e,
    missing,
    get_result_code,
  )
