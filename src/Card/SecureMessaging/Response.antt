-- ===== src/Card/SecureMessaging/Response.antt =====
-- src/card/base/SecureMessagingResponse.cpp, and `decrypt` of src/card/base/pace/SecureMessaging.cpp.
use ausweisapp2_android_sdk.Base.{
  ℕ, not, ◌||◌, Option, none, some, List, [], ◌++◌, ◌==◌, if◌then◌else◌, length, get_or, drop,
  is_empty,
}
use ausweisapp2_android_sdk.Pace.Context.{same_text}
use ausweisapp2_android_sdk.Card.ResponseApdu
use ausweisapp2_android_sdk.Card.ResponseApdu.{value, get_return_code, bytes_value}
use ausweisapp2_android_sdk.Card.SecureMessaging.{
  Cipher, encrypted_data_tag, processing_status_tag, checksum_tag, increment,
  pad_to_cipher_block_size, unpad_from_cipher_block_size, get_send_sequence_counter,
  get_encrypted_iv,
}

-- The objects of a valid response; a response without encrypted data has `none`.
pub record SecureMessagingResponse : Type 0 where
  pub encrypted_data : Option (List ℕ)
  pub processing_status : List ℕ
  pub checksum : List ℕ

-- Asn1OctetStringUtil::getValue, which is empty without an object.
abbrev pub get_value : Option (List ℕ) → List ℕ
get_value none = []
get_value (some v) = v

-- Without the padding-content indicator.
unfoldable pub get_encrypted_data : SecureMessagingResponse → List ℕ
get_encrypted_data r = drop 1 (get_value r.encrypted_data)

unfoldable pub get_secured_status_code : SecureMessagingResponse → ℕ
unfolding bytes_value
get_secured_status_code r = bytes_value 0 r.processing_status

module _ (c : Cipher) where
  unfoldable pub read_checksum : Option (List ℕ) → List ℕ → List ℕ → Option SecureMessagingResponse
  read_checksum encrypted status bytes = elim (c.decode checksum_tag bytes) [
    | none ↦ none
    | some checksum ↦
        if not (length checksum == 8)
        then none
        else some
            (record { encrypted_data = encrypted; processing_status = status; checksum = checksum })
  ]

  unfoldable pub read_status : Option (List ℕ) → List ℕ → Option SecureMessagingResponse
  unfolding read_checksum
  read_status encrypted bytes = elim (c.decode processing_status_tag bytes) [
    | none ↦ none
    | some status ↦
        if not (length status == 2)
        then none
        else read_checksum encrypted status
            (drop (length (c.encode processing_status_tag status)) bytes)
  ]

  unfoldable pub read_objects : List ℕ → Option SecureMessagingResponse
  unfolding read_status
  read_objects bytes = elim (c.decode encrypted_data_tag bytes) [
    | none ↦ read_status none bytes
    | some v ↦
        if is_empty v || not (get_or v 0 0 == 0x01)
        then none
        else read_status (some v) (drop (length (c.encode encrypted_data_tag v)) bytes)
  ]

  -- The constructor; `none` is an invalid response.
  unfoldable pub secure_messaging_response : List ℕ → Option SecureMessagingResponse
  unfolding read_objects ResponseApdu.get_data
  secure_messaging_response buffer = read_objects (ResponseApdu.get_data buffer)

  -- What the MAC of a response is taken of, behind the counter.
  unfoldable pub response_to_mac : SecureMessagingResponse → List ℕ
  unfolding get_encrypted_data pad_to_cipher_block_size
  response_to_mac r =
      let encoded =
        if is_empty (get_encrypted_data r)
        then []
        else c.encode encrypted_data_tag (get_value r.encrypted_data) in
      pad_to_cipher_block_size c (encoded ++ c.encode processing_status_tag r.processing_status)

  unfoldable pub decrypt_data : ℕ → SecureMessagingResponse → List ℕ
  unfolding get_encrypted_data get_encrypted_iv unpad_from_cipher_block_size
  decrypt_data n r =
      if is_empty (get_encrypted_data r)
      then []
      else unpad_from_cipher_block_size c
          (c.cipher_decrypt (get_encrypted_iv c n) (get_encrypted_data r))

  -- `n` is the counter of the response; an empty result is a response that is not accepted.
  unfoldable pub accept_response : ℕ → List ℕ → SecureMessagingResponse → List ℕ
  unfolding value get_return_code get_secured_status_code response_to_mac get_send_sequence_counter
      same_text decrypt_data
  accept_response n buffer r =
      if not (get_secured_status_code r == value (get_return_code buffer))
      then []
      else if not
          (same_text (c.mac (get_send_sequence_counter c n ++ response_to_mac r)) r.checksum)
      then []
      else decrypt_data n r ++ r.processing_status

  unfoldable pub open_response : ℕ → List ℕ → List ℕ
  unfolding secure_messaging_response accept_response
  open_response n buffer = elim (secure_messaging_response buffer) [
    | none ↦ []
    | some r ↦ accept_response n buffer r
  ]

  unfoldable pub decrypt : ℕ → List ℕ → ℕ × List ℕ
  unfolding increment open_response
  decrypt n buffer =
      if not c.initialized then (n, []) else (increment n, open_response (increment n) buffer)
