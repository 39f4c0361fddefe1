-- ===== src/Bluetooth/Exchange.antt =====
-- src/card/bluetooth/SynchronousBtCall.cpp: one request, and the chunks of data that the reader
-- sends until the event loop ends. A call that times out has seen fewer chunks.
use ausweisapp2_android_sdk.Base.{
  ℕ, Bool, List, [], ◌∷◌, ◌++◌, Option, none, some, ◌==◌, if◌then◌else◌,
}
use ausweisapp2_android_sdk.Bluetooth.Message.{Message}
use ausweisapp2_android_sdk.Bluetooth.Parser.{parse}
pub mod Chunks

pub record Call : Type 0 where
  pub buffer : List ℕ
  pub message : Option Message

abbrev pub new_call : Call
new_call = record { buffer = []; message = none }

abbrev pub first_or : Option Message → List Message → Option Message
first_or old [] = old
first_or old (m ∷ ms) = some m

module _ (char_signed : Bool) where
  -- `onCharacteristicChanged`: the whole buffer is parsed anew.
  unfoldable pub on_characteristic_changed : Call → List ℕ → Call
  on_characteristic_changed c chunk =
      let buffer = c.buffer ++ chunk in
      record { buffer = buffer; message = first_or c.message (parse char_signed buffer).0 }

  unfoldable pub receive : Call → List (List ℕ) → Call
  unfolding on_characteristic_changed
  receive c [] = c
  receive c (chunk ∷ chunks) = receive (on_characteristic_changed c chunk) chunks

  abbrev of_type : ℕ → Option Message → Option Message
  of_type response_type none = none
  of_type response_type (some m) = if m.msg_id == response_type then some m else none

  -- `send`, given what the reader sends in answer: the first message, if it has the expected type.
  unfoldable pub send : List (List ℕ) → ℕ → Option Message
  unfolding receive
  send chunks response_type = of_type response_type (receive new_call chunks).message
