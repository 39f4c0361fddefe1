-- ===== src/Bluetooth/Message.antt =====
-- src/card/bluetooth/messages: BluetoothIDs.h, BluetoothUtils.cpp, BluetoothMessage.cpp and the
-- parameter classes. Identifiers stay bytes, since a message with an unknown one is kept. Whether
-- `char` is signed depends on the platform, and is a parameter of the functions that read a `char`
-- as a number.
pub mod MaxMsgSize
use Prim.Native.Nat.{bit_or}
use ausweisapp2_android_sdk.Base.{
  ℕ, ◌+◌, ◌-◌, ◌*◌, ◌/◌, ◌%◌, ◌^◌, Bool, true, false, ◌&&◌, List, [], ◌∷◌, ◌++◌, Option, none, some,
  ltb, leb, ◌==◌, if◌then◌else◌, length, replicate,
}

-- BluetoothParamId, as far as the code tells the parameters apart.
abbrev pub max_msg_size_id : ℕ
max_msg_size_id = 0x00

abbrev pub connection_status_id : ℕ
connection_status_id = 0x01

abbrev pub result_code_id : ℕ
result_code_id = 0x02

abbrev pub response_apdu_id : ℕ
response_apdu_id = 0x05

abbrev pub card_reader_status_id : ℕ
card_reader_status_id = 0x07

abbrev pub status_change_id : ℕ
status_change_id = 0x08

abbrev pub transport_protocol_id : ℕ
transport_protocol_id = 0x09

abbrev pub command_apdu_7816_id : ℕ
command_apdu_7816_id = 0x10

pub record Parameter : Type 0 where
  pub id : ℕ
  pub value : List ℕ
  pub valid : Bool

-- The parameters stand in the order in which the QMap is iterated.
pub record Message : Type 0 where
  pub msg_id : ℕ
  pub parameters : List Parameter

abbrev pub default_padding_length : ℕ
default_padding_length = 4

unfoldable pub get_padding_length : ℕ → ℕ
get_padding_length n =
    let needed = default_padding_length - n % default_padding_length in
    if needed == default_padding_length then 0 else needed

-- `addPadding`, for content that is not longer than 0xFFFF.
unfoldable pub padding : List ℕ → List ℕ
unfolding get_padding_length
padding content = replicate (get_padding_length (length content)) 0

-- BluetoothMessageParameter::toData.
unfoldable pub parameter_data : Parameter → List ℕ
unfolding padding
parameter_data p =
    let n = length p.value in
    if ltb 0xffff n then [] else p.id ∷ 0 ∷ n / 256 % 256 ∷ n % 256 ∷ (p.value ++ padding p.value)

-- The base class, and the classes that decode a single byte and keep any value.
abbrev plain_parameter : ℕ → List ℕ → Parameter
plain_parameter id value = record { id = id; value = value; valid = true }

abbrev byte_parameter : ℕ → List ℕ → Parameter
byte_parameter id value = record { id = id; value = value; valid = length value == 1 }

-- BluetoothMessageParameterMaxMsgSize clears a value that has not two bytes.
abbrev max_msg_size_parameter : List ℕ → Parameter
max_msg_size_parameter value =
    if length value == 2
    then plain_parameter max_msg_size_id value
    else record { id = max_msg_size_id; value = []; valid = false }

-- BluetoothMessageParser::createMessageParameter.
unfoldable pub create_message_parameter : ℕ → List ℕ → Parameter
create_message_parameter id value =
    if id == status_change_id
    then byte_parameter id value
    else if id == result_code_id
    then byte_parameter id value
    else if id == connection_status_id
    then byte_parameter id value
    else if id == response_apdu_id
    then plain_parameter id value
    else if id == max_msg_size_id
    then max_msg_size_parameter value
    else if id == card_reader_status_id
    then byte_parameter id value
    else plain_parameter id value

-- BluetoothMessageParser::createMessage: each class passes the identifier on.
unfoldable pub create_message : ℕ → Message
create_message id = record { msg_id = id; parameters = [] }

module _ (char_signed : Bool) where
  -- The order of the keys of the QMap is that of `char`.
  abbrev pub key : ℕ → ℕ
  key id = if char_signed then (id + 128) % 256 else id

  -- `insertMulti` puts an entry before those with the same key.
  unfoldable pub insert_multi : Parameter → List Parameter → List Parameter
  insert_multi p [] = p ∷ []
  insert_multi p (q ∷ rest) =
      if ltb (key q.id) (key p.id) then q ∷ insert_multi p rest else p ∷ q ∷ rest

  unfoldable pub add_parameter : Message → Parameter → Message
  unfolding insert_multi
  add_parameter m p = record m { parameters = insert_multi p m.parameters }

  abbrev pub char_max : ℕ
  char_max = if char_signed then 127 else 255

  -- A `char` that is widened to an unsigned 32-bit number.
  abbrev pub widen : ℕ → ℕ
  widen b = if char_signed && leb 128 b then b + (2 ^ 32 - 256) else b

  -- The number that BluetoothMessageParameterMaxMsgSize reads from two bytes.
  unfoldable pub get_max_msg_size : ℕ → ℕ → ℕ
  get_max_msg_size hi lo = bit_or (widen lo) (widen hi * 256 % 2 ^ 32)

unfoldable pub get_parameter : ℕ → List Parameter → Option Parameter
get_parameter id [] = none
get_parameter id (p ∷ rest) = if p.id == id then some p else get_parameter id rest

unfoldable pub parameters_data : List Parameter → List ℕ
unfolding parameter_data
parameters_data [] = []
parameters_data (p ∷ rest) = parameter_data p ++ parameters_data rest

-- BluetoothMessage::toData; a message of more than CHAR_MAX parameters gives no data.
unfoldable pub message_data : Bool → Message → List ℕ
unfolding parameters_data
message_data char_signed m =
    let count = length m.parameters in
    if ltb (char_max char_signed) count
    then []
    else m.msg_id ∷ count % 256 ∷ 0 ∷ 0 ∷ parameters_data m.parameters

-- The constructor of BluetoothMessageParameterMaxMsgSize from a number.
unfoldable pub max_msg_size_of : ℕ → Parameter
max_msg_size_of n =
    if 0 == n / 2 ^ 16
    then record { id = max_msg_size_id; value = n / 256 % 256 ∷ n % 256 ∷ []; valid = true }
    else record { id = max_msg_size_id; value = []; valid = false }

-- `mMaxMsgSize` as the constructor from a value sets it.
unfoldable pub max_msg_size_from : Bool → List ℕ → ℕ
unfolding get_max_msg_size
max_msg_size_from char_signed (hi ∷ lo ∷ []) = get_max_msg_size char_signed hi lo
max_msg_size_from char_signed _ = 0
