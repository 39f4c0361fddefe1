-- ===== src/Card/SecureMessaging/Sealed.antt =====
-- src/card/base/pace/SecureMessaging.cpp: `decrypt` of what a card seals as TR-03110-3 says.
use mathlib.Core.List.{append-nil}
use ausweisapp2_android_sdk.Base.{
  ℕ, ◌+◌, ◌%◌, ◌<◌, ◌≤◌, ◌≡◌, ◌≢◌, refl, ap, ◌∙◌, Bool, true, false, not, Option, none, some, List,
  [], ◌∷◌, ◌++◌, ◌==◌, if◌then◌else◌, length, drop-length_append, arith, is_empty,
}
use ausweisapp2_android_sdk.Pace.Context.{same_text}
use ausweisapp2_android_sdk.Pace.Channel.{same_text_refl}
use ausweisapp2_android_sdk.Card.ResponseApdu.{StatusCode, value, get_return_code, bytes_value}
use ausweisapp2_android_sdk.Card.ResponseApdu.Laws.{get_data-trailer}
use ausweisapp2_android_sdk.Card.SecureMessaging.{
  Cipher, encrypted_data_tag, processing_status_tag, checksum_tag, increment,
  pad_to_cipher_block_size, unpad_from_cipher_block_size, get_send_sequence_counter,
  get_encrypted_iv, format_encrypted_data,
}
use ausweisapp2_android_sdk.Card.SecureMessaging.Padding.{
  padding_size-lt, pad-blocks, unpad-pad, length-pad,
}
use ausweisapp2_android_sdk.Card.SecureMessaging.Response.{
  SecureMessagingResponse, read_checksum, read_status, read_objects, secure_messaging_response,
  get_encrypted_data, get_secured_status_code, response_to_mac, decrypt_data, accept_response,
  open_response, decrypt,
}

-- What OpenSSL promises of a block cipher without padding, of a MAC that is cut to eight bytes, and
-- of DER.
pub record IsSound (c : Cipher) : Type 0 where
  pub ready : c.initialized ≡ true
  pub sized : 0 < c.block_size
  pub small : c.block_size ≤ 16
  pub inverse :
      (iv bytes : List ℕ)
      → length bytes % c.block_size ≡ 0
      → c.cipher_decrypt iv (c.cipher_encrypt iv bytes) ≡ bytes
  pub keeps_length :
      (iv bytes : List ℕ)
      → length bytes % c.block_size ≡ 0
      → length (c.cipher_encrypt iv bytes) ≡ length bytes
  pub mac_length : (bytes : List ℕ) → length (c.mac bytes) ≡ 8
  pub reads : (tag : ℕ) (v rest : List ℕ) → c.decode tag (c.encode tag v ++ rest) ≡ some v
  pub tells :
      (tag other : ℕ) (v rest : List ℕ)
      → tag ≢ other
      → c.decode tag (c.encode other v ++ rest) ≡ none
  pub short : (tag : ℕ) (v : List ℕ) → length v ≤ 0xffff → length (c.encode tag v) ≤ length v + 4

module _ (c : Cipher) where
  -- The card's side: the objects of the response to a command, with the counter `n`.
  unfoldable pub seal_objects : ℕ → List ℕ → ℕ → ℕ → List ℕ
  unfolding format_encrypted_data
  seal_objects n payload hi lo =
      let formatted = format_encrypted_data c n payload in
      let status = c.encode processing_status_tag (hi ∷ lo ∷ []) in
      let to_mac =
        get_send_sequence_counter c n ++ pad_to_cipher_block_size c (formatted ++ status) in
      formatted ++ (status ++ c.encode checksum_tag (c.mac to_mac))

  -- The response, with the status word outside as well.
  unfoldable pub seal_response : ℕ → List ℕ → ℕ → ℕ → List ℕ
  unfolding seal_objects
  seal_response n payload hi lo = seal_objects n payload hi lo ++ (hi ∷ lo ∷ [])

  -- The objects that are in it.
  abbrev pub sealed_objects : ℕ → List ℕ → ℕ → ℕ → SecureMessagingResponse
  sealed_objects n payload hi lo = record {
    encrypted_data =
        if is_empty payload
        then none
        else some
            (0x01 ∷ c.cipher_encrypt (get_encrypted_iv c n) (pad_to_cipher_block_size c payload));
    processing_status = hi ∷ lo ∷ [];
    checksum = c.mac (
        get_send_sequence_counter c n
        ++ pad_to_cipher_block_size c
            (format_encrypted_data c n payload ++ c.encode processing_status_tag (hi ∷ lo ∷ [])));
  }

module _ (c : Cipher) (sound : IsSound c) where
  read_checksum-encode :
      (encrypted : Option (List ℕ)) (status bytes : List ℕ)
      → read_checksum c encrypted status (c.encode checksum_tag (c.mac bytes))
        ≡ some (record {
          encrypted_data = encrypted;
          processing_status = status;
          checksum = c.mac bytes;
        })
  unfolding read_checksum
  read_checksum-encode encrypted status bytes =
      let read : c.decode checksum_tag (c.encode checksum_tag (c.mac bytes)) ≡ some (c.mac bytes) =
        rw append-nil at (sound.reads checksum_tag (c.mac bytes) []) in
      rw (read, read_checksum) (rw (sound.mac_length bytes) refl)

  read_status-encode :
      (encrypted : Option (List ℕ)) (hi lo : ℕ) (bytes : List ℕ)
      → read_status c encrypted
          (c.encode processing_status_tag (hi ∷ lo ∷ []) ++ c.encode checksum_tag (c.mac bytes))
        ≡ some (record {
          encrypted_data = encrypted;
          processing_status = hi ∷ lo ∷ [];
          checksum = c.mac bytes;
        })
  unfolding read_status
  read_status-encode encrypted hi lo bytes =
      let status = c.encode processing_status_tag (hi ∷ lo ∷ []) in
      let rest = c.encode checksum_tag (c.mac bytes) in
      rw (sound.reads processing_status_tag (hi ∷ lo ∷ []) rest, read_status)
        (rw (drop-length_append status rest) (read_checksum-encode encrypted (hi ∷ lo ∷ []) bytes))

  read_objects-status :
      (hi lo : ℕ) (bytes : List ℕ)
      → read_objects c
          (c.encode processing_status_tag (hi ∷ lo ∷ []) ++ c.encode checksum_tag (c.mac bytes))
        ≡ some (record {
          encrypted_data = none;
          processing_status = hi ∷ lo ∷ [];
          checksum = c.mac bytes;
        })
  unfolding read_objects
  read_objects-status hi lo bytes =
      let rest = c.encode checksum_tag (c.mac bytes) in
      rw
        (
          sound.tells encrypted_data_tag processing_status_tag (hi ∷ lo ∷ []) rest
              (λ e. omega arith),
          read_objects,
        )
        (read_status-encode none hi lo bytes)

  read_objects-encrypted :
      (text : List ℕ) (hi lo : ℕ) (bytes : List ℕ)
      → read_objects c (
          c.encode encrypted_data_tag (0x01 ∷ text)
          ++ (c.encode processing_status_tag (hi ∷ lo ∷ []) ++ c.encode checksum_tag (c.mac bytes)))
        ≡ some (record {
          encrypted_data = some (0x01 ∷ text);
          processing_status = hi ∷ lo ∷ [];
          checksum = c.mac bytes;
        })
  unfolding read_objects
  read_objects-encrypted text hi lo bytes =
      let rest =
        c.encode processing_status_tag (hi ∷ lo ∷ []) ++ c.encode checksum_tag (c.mac bytes) in
      rw (sound.reads encrypted_data_tag (0x01 ∷ text) rest, read_objects)
        (rw (drop-length_append (c.encode encrypted_data_tag (0x01 ∷ text)) rest)
          (read_status-encode (some (0x01 ∷ text)) hi lo bytes))

  secure_messaging_response-seal_response :
      (n : ℕ) (payload : List ℕ) (hi lo : ℕ)
      → secure_messaging_response c (seal_response c n payload hi lo)
        ≡ some (sealed_objects c n payload hi lo)
  unfolding secure_messaging_response seal_response format_encrypted_data
  secure_messaging_response-seal_response n [] hi lo =
      ap (read_objects c) (get_data-trailer _ hi lo).0 ∙ read_objects-status hi lo _
  secure_messaging_response-seal_response n (x ∷ payload) hi lo =
      ap (read_objects c) (get_data-trailer _ hi lo).0 ∙ read_objects-encrypted _ hi lo _

  is_empty-nonempty : (xs : List ℕ) → 0 < length xs → is_empty xs ≡ false
  is_empty-nonempty [] h = elim h [ ]
  is_empty-nonempty (x ∷ xs) h = refl

  cipher_text-nonempty :
      (iv payload : List ℕ)
      → is_empty (c.cipher_encrypt iv (pad_to_cipher_block_size c payload)) ≡ false
  cipher_text-nonempty iv payload =
      is_empty-nonempty (c.cipher_encrypt iv (pad_to_cipher_block_size c payload)) (
        omega (
          arith,
          sound.keeps_length iv (pad_to_cipher_block_size c payload)
              (pad-blocks c sound.sized payload),
          length-pad c sound.sized payload,
          padding_size-lt c.block_size (length payload) sound.sized,
        ))

  response_to_mac-sealed :
      (n : ℕ) (payload : List ℕ) (hi lo : ℕ)
      → response_to_mac c (sealed_objects c n payload hi lo)
        ≡ pad_to_cipher_block_size c
            (format_encrypted_data c n payload ++ c.encode processing_status_tag (hi ∷ lo ∷ []))
  unfolding response_to_mac get_encrypted_data format_encrypted_data
  response_to_mac-sealed n [] hi lo = refl
  response_to_mac-sealed n (x ∷ payload) hi lo =
      rw (cipher_text-nonempty (get_encrypted_iv c n) (x ∷ payload)) refl

  decrypt_data-sealed :
      (n : ℕ) (payload : List ℕ) (hi lo : ℕ)
      → decrypt_data c n (sealed_objects c n payload hi lo) ≡ payload
  unfolding decrypt_data get_encrypted_data
  decrypt_data-sealed n [] hi lo = refl
  decrypt_data-sealed n (x ∷ payload) hi lo =
      rw (cipher_text-nonempty (get_encrypted_iv c n) (x ∷ payload)) (
        ap (unpad_from_cipher_block_size c) (
          sound.inverse (get_encrypted_iv c n) (pad_to_cipher_block_size c (x ∷ payload))
            (pad-blocks c sound.sized (x ∷ payload)))
        ∙ unpad-pad c sound.sized (x ∷ payload))

  -- The status word is one of the enumerators of StatusCode.
  abbrev pub is_status_code : ℕ → ℕ → Bool
  is_status_code hi lo = bytes_value 0 (hi ∷ lo ∷ []) == value (get_return_code (hi ∷ lo ∷ []))

  swap_branches : (b : Bool) (xs : List ℕ) → (if not b then [] else xs) ≡ (if b then xs else [])
  swap_branches true xs = refl
  swap_branches false xs = refl

  accept_response-sealed :
      (n : ℕ) (payload : List ℕ) (hi lo : ℕ)
      → accept_response c n (seal_response c n payload hi lo) (sealed_objects c n payload hi lo)
        ≡ (if is_status_code hi lo then payload ++ (hi ∷ lo ∷ []) else [])
  unfolding accept_response seal_response get_secured_status_code
  accept_response-sealed n payload hi lo =
      let r = sealed_objects c n payload hi lo in
      let objects =
        format_encrypted_data c n payload ++ c.encode processing_status_tag (hi ∷ lo ∷ []) in
      let checks : StatusCode → List ℕ → List ℕ → List ℕ = λ code to_mac plain.
        if not (bytes_value 0 (hi ∷ lo ∷ []) == value code)
        then []
        else if not (same_text (c.mac (get_send_sequence_counter c n ++ to_mac)) r.checksum)
        then []
        else plain ++ (hi ∷ lo ∷ []) in
      let trusted : same_text r.checksum r.checksum ≡ true = same_text_refl r.checksum in
      ap (λ code. checks code (response_to_mac c r) (decrypt_data c n r))
        (get_data-trailer (seal_objects c n payload hi lo) hi lo).1
      ∙ ap (λ m. checks (get_return_code (hi ∷ lo ∷ [])) m (decrypt_data c n r))
          (response_to_mac-sealed n payload hi lo)
      ∙ ap (checks (get_return_code (hi ∷ lo ∷ [])) (pad_to_cipher_block_size c objects))
          (decrypt_data-sealed n payload hi lo)
      ∙ ap
          (λ b.
            if not (is_status_code hi lo)
            then []
            else if not b
            then []
            else payload ++ (hi ∷ lo ∷ []))
          trusted
      ∙ swap_branches (is_status_code hi lo) (payload ++ (hi ∷ lo ∷ []))

  -- With a sound cipher and MAC, decrypting a response that a card has sealed as TR-03110-3 says
  -- with the next counter gives its payload and status word if the status word is a StatusCode
  -- enumerator, and the empty response for every other status word; the counter is increased.
  pub decrypt-seal_response :
      (n : ℕ) (payload : List ℕ) (hi lo : ℕ)
      → decrypt c n (seal_response c (increment n) payload hi lo)
        ≡ (increment n, if is_status_code hi lo then payload ++ (hi ∷ lo ∷ []) else [])
  unfolding decrypt open_response
  decrypt-seal_response n payload hi lo =
      let buffer = seal_response c (increment n) payload hi lo in
      ap (λ b. if not b then (n, []) else (increment n, open_response c (increment n) buffer))
        sound.ready
      ∙ ap (λ r. (increment n, r))
          (ap
              (λ o. elim o as (λ _. List ℕ) [
                | none ↦ []
                | some r ↦ accept_response c (increment n) buffer r
              ])
              (secure_messaging_response-seal_response (increment n) payload hi lo)
            ∙ accept_response-sealed (increment n) payload hi lo)
