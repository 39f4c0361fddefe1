-- ===== src/Card/SecureMessaging.antt =====
-- src/card/base/pace/SecureMessaging.cpp and SecureMessagingResponse.cpp: commands and responses on
-- the secure channel. The block cipher, the MAC and the coding of ASN.1 objects are calls of OpenSSL
-- with the keys of the channel: a `Cipher`. The state is the send sequence counter, a quint32.
use ausweisapp2_android_sdk.Base.{
  ℕ, zero, suc, ◌+◌, ◌-◌, ◌*◌, ◌/◌, ◌%◌, ◌^◌, Bool, true, false, not, ◌&&◌, ◌||◌, Option, none,
  some, List, [], ◌∷◌, ◌++◌, ltb, ◌==◌, if◌then◌else◌, length, get_or, take, drop, replicate,
  is_empty,
}
use ausweisapp2_android_sdk.Pace.Context.{same_text}
use ausweisapp2_android_sdk.Card.CommandApdu
use ausweisapp2_android_sdk.Card.CommandApdu.{
  command_apdu, get_cla, get_ins, get_p1, get_p2, get_le, needs_extended_length, short_max_le,
  extended_max_le, cla_secure_messaging, high_byte, low_byte,
}
use ausweisapp2_android_sdk.Card.ResponseApdu
use ausweisapp2_android_sdk.Card.ResponseApdu.{value, get_return_code, bytes_value}
pub mod Response
pub mod Padding
pub mod Sealed
pub mod Replay
pub mod Opened

-- `cipher_encrypt` and `cipher_decrypt` take the initialization vector first; `encode` and `decode`
-- are DER octet strings with a tag, `decode` at the start of the input.
pub record Cipher : Type 0 where
  pub initialized : Bool
  pub block_size : ℕ
  pub cipher_encrypt : List ℕ → List ℕ → List ℕ
  pub cipher_decrypt : List ℕ → List ℕ → List ℕ
  pub mac : List ℕ → List ℕ
  pub encode : ℕ → List ℕ → List ℕ
  pub decode : ℕ → List ℕ → Option (List ℕ)

-- The tags of SM_ENCRYPTED_DATA, SM_PROTECTED_LE, SM_PROCESSING_STATUS and SM_CHECKSUM.
abbrev pub encrypted_data_tag : ℕ
encrypted_data_tag = 0x87

abbrev pub protected_le_tag : ℕ
protected_le_tag = 0x97

abbrev pub processing_status_tag : ℕ
processing_status_tag = 0x99

abbrev pub checksum_tag : ℕ
checksum_tag = 0x8e

abbrev pub iso_leading_pad_byte : ℕ
iso_leading_pad_byte = 0x80

unfoldable pub increment : ℕ → ℕ
increment n = (n + 1) % 2 ^ 32

-- QByteArray::lastIndexOf.
unfoldable pub last_index_of : ℕ → List ℕ → Option ℕ
last_index_of b [] = none
last_index_of b (x ∷ xs) = elim (last_index_of b xs) [
  | some i ↦ some (suc i)
  | none ↦ if x == b then some zero else none
]

unfoldable pub create_secured_le : ℕ → List ℕ
create_secured_le le =
    if ltb 0 le
    then (if ltb short_max_le le then high_byte le ∷ low_byte le ∷ [] else low_byte le ∷ [])
    else []

unfoldable pub create_new_le : List ℕ → ℕ → ℕ
unfolding needs_extended_length
create_new_le secured_data old_le =
    if needs_extended_length secured_data old_le then extended_max_le else short_max_le

module _ (c : Cipher) where
  unfoldable pub pad_to_cipher_block_size : List ℕ → List ℕ
  pad_to_cipher_block_size bytes =
      let remainder = length bytes % c.block_size in
      let padding_size = if remainder == 0 then c.block_size else c.block_size - remainder in
      bytes ++ (iso_leading_pad_byte ∷ replicate (padding_size - 1) 0)

  unfoldable pub unpad_from_cipher_block_size : List ℕ → List ℕ
  unfolding last_index_of
  unpad_from_cipher_block_size bytes =
      if not (length bytes % c.block_size == 0)
      then []
      else elim (last_index_of iso_leading_pad_byte bytes) [
        | none ↦ []
        | some position ↦ take position bytes
      ]

  unfoldable pub get_send_sequence_counter : ℕ → List ℕ
  get_send_sequence_counter n =
      replicate (c.block_size - 4) 0
      ++ (n / 2 ^ 24 % 256 ∷ n / 2 ^ 16 % 256 ∷ n / 2 ^ 8 % 256 ∷ n % 256 ∷ [])

  unfoldable pub get_encrypted_iv : ℕ → List ℕ
  unfolding get_send_sequence_counter
  get_encrypted_iv n = c.cipher_encrypt (replicate c.block_size 0) (get_send_sequence_counter n)

  -- `(x & 0xF0) | 0x0C` of a byte.
  unfoldable pub create_secured_header : List ℕ → List ℕ
  unfolding get_cla get_ins get_p1 get_p2
  create_secured_header apdu =
      (get_cla apdu / 16 % 16 * 16 + cla_secure_messaging)
      ∷ get_ins apdu
      ∷ get_p1 apdu
      ∷ get_p2 apdu
      ∷ []

  unfoldable pub create_mac : ℕ → List ℕ → List ℕ → List ℕ → List ℕ
  unfolding pad_to_cipher_block_size get_send_sequence_counter
  create_mac n header formatted_encrypted_data secured_le =
      let padded = pad_to_cipher_block_size header ++ (formatted_encrypted_data ++ secured_le) in
      let data_to_mac =
        if not (is_empty formatted_encrypted_data) || not (is_empty secured_le)
        then pad_to_cipher_block_size padded
        else padded in
      c.encode checksum_tag (c.mac (get_send_sequence_counter n ++ data_to_mac))

  unfoldable pub format_encrypted_data : ℕ → List ℕ → List ℕ
  unfolding pad_to_cipher_block_size get_encrypted_iv
  format_encrypted_data n bytes =
      if is_empty bytes
      then []
      else c.encode encrypted_data_tag
          (0x01 ∷ c.cipher_encrypt (get_encrypted_iv n) (pad_to_cipher_block_size bytes))

  unfoldable pub format_secured_le : ℕ → List ℕ
  unfolding create_secured_le
  format_secured_le le = if ltb 0 le then c.encode protected_le_tag (create_secured_le le) else []

  -- The body of `encrypt` behind the increment of the counter.
  unfoldable pub secure_command : ℕ → List ℕ → List ℕ
  unfolding create_secured_header create_mac create_new_le format_encrypted_data format_secured_le
      command_apdu CommandApdu.get_data get_le
  secure_command n apdu =
      let formatted_encrypted_data = format_encrypted_data n (CommandApdu.get_data apdu) in
      let secured_le = format_secured_le (get_le apdu) in
      let header = create_secured_header apdu in
      let mac = create_mac n header formatted_encrypted_data secured_le in
      let secured_data = formatted_encrypted_data ++ (secured_le ++ mac) in
      command_apdu (get_or header 0 0) (get_or header 1 0) (get_or header 2 0) (get_or header 3 0)
        secured_data (create_new_le secured_data (get_le apdu))

  unfoldable pub encrypt : ℕ → List ℕ → ℕ × List ℕ
  unfolding increment secure_command
  encrypt n apdu =
      if not c.initialized then (n, []) else (increment n, secure_command (increment n) apdu)
