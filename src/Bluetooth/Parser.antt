-- ===== src/Bluetooth/Parser.antt =====
-- src/card/bluetooth/messages/BluetoothMessageParser.cpp.
pub mod Stream
use ausweisapp2_android_sdk.Base.{
  ℕ, zero, suc, ◌+◌, ◌*◌, Bool, ◌&&◌, List, [], ◌∷◌, Option, none, some, ltb, leb, if◌then◌else◌,
  length, get_or, take, drop,
}
use ausweisapp2_android_sdk.Bluetooth.Message.{
  Message, get_padding_length, create_message_parameter, create_message, add_parameter,
}

unfoldable pub get_param_length : ℕ → ℕ → ℕ
get_param_length hi lo = hi * 256 + lo

module _ (char_signed : Bool) where
  -- The rounds of the parameter loop: none for a count that is negative as a `char`.
  unfoldable pub rounds : ℕ → ℕ
  rounds count = if char_signed && leb 128 count then 0 else count

  -- The loop of `parseParameter`, with the rounds left, the unread data and the message so far.
  -- `none` is the result `false`: the data ends inside a parameter.
  unfoldable pub parse_parameters : ℕ → List ℕ → Message → Option (Message × List ℕ)
  unfolding get_param_length get_padding_length
  parse_parameters zero input m = some (m, input)
  parse_parameters (suc n) input m =
      let size = get_param_length (get_or input 2 0) (get_or input 3 0) in
      let padded = size + get_padding_length size in
      let content = drop 4 input in
      let p = create_message_parameter (get_or input 0 0) (take size content) in
      let rest = parse_parameters n (drop padded content) (add_parameter char_signed m p) in
      if ltb (length input) 4 then none else if ltb (length content) padded then none else rest

  -- One round of `parse`: the message at the front of the remaining bytes, if it is complete.
  unfoldable pub parse_message : List ℕ → Option (Message × List ℕ)
  unfolding parse_parameters rounds create_message
  parse_message input =
      if ltb (length input) 4
      then none
      else parse_parameters (rounds (get_or input 1 0)) (drop 4 input)
          (create_message (get_or input 0 0))

  -- The loop of `parse`. Each round takes four bytes at least.
  unfoldable pub parse_loop : ℕ → List ℕ → List Message × List ℕ
  parse_loop zero input = ([], input)
  parse_loop (suc fuel) input = elim (parse_message input) [
    | none ↦ ([], input)
    | some (m, rest) ↦ let (ms, left) = parse_loop fuel rest in (m ∷ ms, left)
  ]

  -- The messages, and the bytes that remain.
  unfoldable pub parse : List ℕ → List Message × List ℕ
  unfolding parse_loop
  parse input = parse_loop (length input) input
