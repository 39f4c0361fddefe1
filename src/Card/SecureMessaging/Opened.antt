-- ===== src/Card/SecureMessaging/Opened.antt =====
-- src/card/base/pace/SecureMessaging.cpp: what a card makes of a command, as TR-03110-3 says, and
-- that it gets back what `encrypt` has taken.
use native.Mathlib.Nat.{mod-add-mod, zero-add}
use mathlib.Core.List.{append-nil, append_assoc}
use ausweisapp2_android_sdk.Base.{
  ℕ, zero, suc, ◌+◌, ◌*◌, ◌-◌, ◌/◌, ◌%◌, ◌≤◌, ◌<◌, ◌≡◌, ◌≢◌, ◌⊎◌, refl, ap, sym, ◌∙◌, Option, none,
  some, List, [], ◌∷◌, ◌++◌, ◌==◌, if◌then◌else◌, length, length-append, drop, drop-length_append,
  replicate, arith, is_empty,
}
use ausweisapp2_android_sdk.Pace.Context.{same_text}
use ausweisapp2_android_sdk.Pace.Channel.{same_text_refl}
use ausweisapp2_android_sdk.Card.CommandApdu
use ausweisapp2_android_sdk.Card.CommandApdu.{
  command_apdu, get_cla, get_ins, get_p1, get_p2, get_le, cla_secure_messaging, short_max_le,
  extended_max_le, extended_max_lc, high_byte, low_byte,
}
use ausweisapp2_android_sdk.Card.CommandApdu.RoundTrip.{get_data-command_apdu, get_le-command_apdu}
use ausweisapp2_android_sdk.Card.SecureMessaging.{
  Cipher, iso_leading_pad_byte, encrypted_data_tag, protected_le_tag, checksum_tag,
  pad_to_cipher_block_size, unpad_from_cipher_block_size, get_send_sequence_counter,
  get_encrypted_iv, create_secured_header, create_secured_le, create_mac, create_new_le,
  format_encrypted_data, format_secured_le, secure_command,
}
use ausweisapp2_android_sdk.Card.SecureMessaging.Padding.{
  padding_size-le, pad-blocks, unpad-pad, length-pad,
}
use ausweisapp2_android_sdk.Card.SecureMessaging.Sealed.{IsSound}

-- With the three objects, at most 0xFFFF bytes.
abbrev pub payload_max : ℕ
payload_max = extended_max_lc - 39

-- A field of zeros stands for the maximum.
unfoldable pub read_protected_le : List ℕ → ℕ
read_protected_le (lo ∷ []) = if lo == 0 then short_max_le else lo
read_protected_le (hi ∷ lo ∷ []) = let le = hi * 256 + lo in if le == 0 then extended_max_le else le
read_protected_le _ = 0

abbrev pub open_le : Option (List ℕ) → ℕ
open_le none = 0
open_le (some v) = read_protected_le v

module _ (c : Cipher) where
  -- An object at the start of the input: its bytes, its value and what follows.
  unfoldable pub read_object : ℕ → List ℕ → List ℕ × Option (List ℕ) × List ℕ
  read_object tag bytes = elim (c.decode tag bytes) [
    | none ↦ ([], none, bytes)
    | some v ↦ (c.encode tag v, some v, drop (length (c.encode tag v)) bytes)
  ]

  abbrev pub open_data : ℕ → Option (List ℕ) → List ℕ
  open_data n none = []
  open_data n (some v) =
      unpad_from_cipher_block_size c (c.cipher_decrypt (get_encrypted_iv c n) (drop 1 v))

  -- The MAC is taken of the counter, the padded header, and the objects, padded if there are any.
  unfoldable pub command_mac : ℕ → List ℕ → List ℕ → List ℕ
  command_mac n header objects = c.mac (
      get_send_sequence_counter c n
      ++ (pad_to_cipher_block_size c header
          ++ (if is_empty objects then [] else pad_to_cipher_block_size c objects)))

  unfoldable pub open_objects : ℕ → (cla ins p1 p2 : ℕ) → List ℕ → Option (List ℕ)
  unfolding read_object command_mac
  open_objects n cla ins p1 p2 objects =
      let (encrypted, payload, rest) = read_object encrypted_data_tag objects in
      let (protected, le, checksum) = read_object protected_le_tag rest in
      if same_text checksum
        (c.encode checksum_tag (command_mac n (cla ∷ ins ∷ p1 ∷ p2 ∷ []) (encrypted ++ protected)))
      then some (command_apdu (cla / 16 * 16) ins p1 p2 (open_data n payload) (open_le le))
      else none

  -- `n` is the counter of the command; `none` is a command that is not accepted.
  unfoldable pub open_command : ℕ → List ℕ → Option (List ℕ)
  unfolding open_objects
  open_command n buffer =
      open_objects n (get_cla buffer) (get_ins buffer) (get_p1 buffer) (get_p2 buffer)
        (CommandApdu.get_data buffer)

read_protected_le-create_secured_le :
    (le : ℕ) → 0 < le → le ≤ extended_max_le → read_protected_le (create_secured_le le) ≡ le
unfolding read_protected_le create_secured_le
read_protected_le-create_secured_le le h k = ground arith

format_secured_le-suc :
    (c : Cipher) (k : ℕ)
    → format_secured_le c (suc k) ≡ c.encode protected_le_tag (create_secured_le (suc k))
unfolding format_secured_le
format_secured_le-suc c k = ground arith

module _ (c : Cipher) (sound : IsSound c) where
  pad-append :
      (xs ys : List ℕ)
      → length xs % c.block_size ≡ 0
      → pad_to_cipher_block_size c (xs ++ ys) ≡ xs ++ pad_to_cipher_block_size c ys
  unfolding pad_to_cipher_block_size
  pad-append xs ys h =
      let same : length (xs ++ ys) % c.block_size ≡ length ys % c.block_size =
        ap (λ k. k % c.block_size) (length-append xs ys)
        ∙ sym (mod-add-mod (length xs) c.block_size (length ys))
        ∙ ap (λ k. (k + length ys) % c.block_size) h
        ∙ ap (λ k. k % c.block_size) (zero-add (length ys)) in
      let tail : ℕ → List ℕ = λ r.
        iso_leading_pad_byte
        ∷ replicate ((if r == 0 then c.block_size else c.block_size - r) - 1) 0 in
      ap (λ r. (xs ++ ys) ++ tail r) same ∙ append_assoc xs ys (tail (length ys % c.block_size))

  create_mac-command_mac :
      (n : ℕ) (header encrypted protected : List ℕ)
      → create_mac c n header encrypted protected
        ≡ c.encode checksum_tag (command_mac c n header (encrypted ++ protected))
  unfolding create_mac command_mac
  create_mac-command_mac n header [] [] = refl
  create_mac-command_mac n header [] (y ∷ ys) =
      ap (λ m. c.encode checksum_tag (c.mac (get_send_sequence_counter c n ++ m)))
        (pad-append (pad_to_cipher_block_size c header) (y ∷ ys) (pad-blocks c sound.sized header))
  create_mac-command_mac n header (x ∷ xs) protected =
      ap (λ m. c.encode checksum_tag (c.mac (get_send_sequence_counter c n ++ m)))
        (pad-append (pad_to_cipher_block_size c header) ((x ∷ xs) ++ protected)
          (pad-blocks c sound.sized header))

  -- An object is read where it stands, and not missed where another one does.
  read_object-encode :
      (tag : ℕ) (v rest : List ℕ)
      → read_object c tag (c.encode tag v ++ rest) ≡ (c.encode tag v, some v, rest)
  unfolding read_object
  read_object-encode tag v rest =
      rw (sound.reads tag v rest, read_object) (rw (drop-length_append (c.encode tag v) rest) refl)

  read_object-other :
      (tag other : ℕ) (v rest : List ℕ)
      → tag ≢ other
      → read_object c tag (c.encode other v ++ rest) ≡ ([], none, c.encode other v ++ rest)
  unfolding read_object
  read_object-other tag other v rest h = rw (sound.tells tag other v rest h, read_object) refl

  read_object-last :
      (tag other : ℕ) (v : List ℕ)
      → tag ≢ other
      → read_object c tag (c.encode other v) ≡ ([], none, c.encode other v)
  read_object-last tag other v h =
      sym (ap (read_object c tag) (append-nil (c.encode other v)))
      ∙ read_object-other tag other v [] h
      ∙ ap (λ b. ([], none, b)) (append-nil (c.encode other v))

  -- The two optional objects of a command, in front of its checksum object.
  module _ (n : ℕ) (m : List ℕ) where
    abbrev FindsLe : ℕ → Type 0
    FindsLe le =
        (v : Option (List ℕ)) × (read_object c protected_le_tag
            (format_secured_le c le ++ c.encode checksum_tag m)
          ≡ (format_secured_le c le, v, c.encode checksum_tag m))
        × (open_le v ≡ le)

    read_le_objects : (le : ℕ) → le ≤ extended_max_le → FindsLe le
    read_le_objects zero h =
        unfold format_secured_le in
        (none, read_object-last protected_le_tag checksum_tag m (λ e. omega arith), refl)
    read_le_objects (suc k) h =
        let le = create_secured_le (suc k) in
        (
          some le,
          rw (format_secured_le-suc c k)
              (read_object-encode protected_le_tag le (c.encode checksum_tag m)),
          read_protected_le-create_secured_le (suc k) (omega arith) h,
        )

    abbrev FindsData : List ℕ → ℕ → Type 0
    FindsData payload le =
        let rest = format_secured_le c le ++ c.encode checksum_tag m in
        (v : Option (List ℕ)) × (read_object c encrypted_data_tag
            (format_encrypted_data c n payload ++ rest)
          ≡ (format_encrypted_data c n payload, v, rest))
        × (open_data c n v ≡ payload)

    read_data_objects : (payload : List ℕ) (le : ℕ) → FindsData payload le
    unfolding format_encrypted_data
    read_data_objects [] zero =
        unfold format_secured_le in
        (none, read_object-last encrypted_data_tag checksum_tag m (λ e. omega arith), refl)
    read_data_objects [] (suc k) = (
      none,
      rw (format_secured_le-suc c k) (
          read_object-other encrypted_data_tag protected_le_tag (create_secured_le (suc k))
            (c.encode checksum_tag m) (λ e. omega arith)),
      refl,
    )
    read_data_objects (x ∷ payload) le =
        let padded = pad_to_cipher_block_size c (x ∷ payload) in
        let v = 0x01 ∷ c.cipher_encrypt (get_encrypted_iv c n) padded in
        (
          some v,
          read_object-encode encrypted_data_tag v
              (format_secured_le c le ++ c.encode checksum_tag m),
          ap (unpad_from_cipher_block_size c) (
                sound.inverse (get_encrypted_iv c n) padded
                  (pad-blocks c sound.sized (x ∷ payload)))
              ∙ unpad-pad c sound.sized (x ∷ payload),
        )

  -- The secured data of a command fit into an extended length field.
  length-format_encrypted_data :
      (n : ℕ) (payload : List ℕ)
      → length payload ≤ payload_max
      → length (format_encrypted_data c n payload) ≤ length payload + 21
  unfolding format_encrypted_data
  length-format_encrypted_data n [] h = omega arith
  length-format_encrypted_data n (x ∷ payload) h =
      let padded = pad_to_cipher_block_size c (x ∷ payload) in
      let text = c.cipher_encrypt (get_encrypted_iv c n) padded in
      let size : length padded ≤ suc (length payload) + 16 = omega (
        arith,
        length-pad c sound.sized (x ∷ payload),
        padding_size-le c.block_size (suc (length payload)),
        sound.small,
      ) in
      let kept : length text ≡ length padded =
        sound.keeps_length (get_encrypted_iv c n) padded (pad-blocks c sound.sized (x ∷ payload)) in
      omega (arith, sound.short encrypted_data_tag (0x01 ∷ text) (omega arith))

  length-format_secured_le : (le : ℕ) → length (format_secured_le c le) ≤ 6
  unfolding format_secured_le create_secured_le
  length-format_secured_le le = ground (arith, sound.short protected_le_tag (create_secured_le le))

  length-command_mac :
      (n : ℕ) (header objects : List ℕ) → length (command_mac c n header objects) ≡ 8
  unfolding command_mac
  length-command_mac n header objects = sound.mac_length _

  module _ (n cla ins p1 p2 : ℕ) (payload : List ℕ) (le : ℕ) where
    abbrev secured_header : List ℕ
    secured_header = (cla / 16 % 16 * 16 + cla_secure_messaging) ∷ ins ∷ p1 ∷ p2 ∷ []

    abbrev checksum : List ℕ
    checksum = c.encode checksum_tag (
        command_mac c n secured_header
          (format_encrypted_data c n payload ++ format_secured_le c le))

    abbrev secured_data : List ℕ
    secured_data = format_encrypted_data c n payload ++ (format_secured_le c le ++ checksum)

    secure_command-command_apdu :
        length payload ≤ extended_max_lc
        → le ≤ extended_max_le
        → get_le (command_apdu cla ins p1 p2 payload le) ≡ le
        → secure_command c n (command_apdu cla ins p1 p2 payload le)
          ≡ command_apdu
              (cla / 16 % 16 * 16 + cla_secure_messaging)
              ins
              p1
              p2
              secured_data
              (create_new_le secured_data le)
    unfolding secure_command create_secured_header
    secure_command-command_apdu h k l =
        let (at_cla, at_ins, at_p1, at_p2, at_data) =
          get_data-command_apdu cla ins p1 p2 payload le h k in
        rw (at_cla, at_ins, at_p1, at_p2, at_data, l)
          (rw
            (create_mac-command_mac n secured_header (format_encrypted_data c n payload)
              (format_secured_le c le))
            refl)

    length-secured_data : length payload ≤ payload_max → length secured_data ≤ extended_max_lc
    length-secured_data h =
        let to_mac =
          command_mac c n secured_header
            (format_encrypted_data c n payload ++ format_secured_le c le) in
        omega (
          arith,
          length-append (format_encrypted_data c n payload) (format_secured_le c le ++ checksum),
          length-append (format_secured_le c le) checksum,
          length-format_encrypted_data n payload h,
          length-format_secured_le le,
          sound.short checksum_tag to_mac,
          length-command_mac n secured_header
              (format_encrypted_data c n payload ++ format_secured_le c le),
        )

  open_objects-secured_data :
      (n cla ins p1 p2 : ℕ) (payload : List ℕ) (le : ℕ)
      → le ≤ extended_max_le
      → open_objects c n
          (cla / 16 % 16 * 16 + cla_secure_messaging)
          ins
          p1
          p2
          (secured_data n cla ins p1 p2 payload le)
        ≡ some (command_apdu (cla / 16 % 16 * 16) ins p1 p2 payload le)
  unfolding open_objects
  open_objects-secured_data n cla ins p1 p2 payload le k =
      let m =
        command_mac c n (secured_header n cla ins p1 p2 payload le)
          (format_encrypted_data c n payload ++ format_secured_le c le) in
      let (v, at_data, opened) = read_data_objects n m payload le in
      let (w, at_le, opened_le) = read_le_objects n m le k in
      let cleared : (cla / 16 % 16 * 16 + cla_secure_messaging) / 16 * 16 ≡ cla / 16 % 16 * 16 =
        omega arith in
      rw at_data (
        rw at_le (
          rw (same_text_refl (checksum n cla ins p1 p2 payload le))
            (rw (opened, opened_le, cleared) refl)))

  create_new_le-le : (objects : List ℕ) (le : ℕ) → create_new_le objects le ≤ extended_max_le
  unfolding create_new_le
  create_new_le-le objects le = ground arith

  -- With a sound cipher and MAC, a card that opens commands as TR-03110-3 says, with the same
  -- counter, gets back from a secured command the command that was secured, its class byte
  -- without the low four bits and its high bits above a byte: for a payload of at most 65,496
  -- bytes and an expected length of at most 0x10000 that is at most 0x100, or is 0x10000, or
  -- comes with a payload.
  pub open_command-secure_command :
      (n cla ins p1 p2 : ℕ) (payload : List ℕ) (le : ℕ)
      → length payload ≤ payload_max
      → le ≤ extended_max_le
      → (le ≤ short_max_le) ⊎ ((le ≡ extended_max_le) ⊎ (payload ≢ []))
      → open_command c n (secure_command c n (command_apdu cla ins p1 p2 payload le))
        ≡ some (command_apdu (cla / 16 % 16 * 16) ins p1 p2 payload le)
  unfolding open_command
  open_command-secure_command n cla ins p1 p2 payload le h k l =
      let objects = secured_data n cla ins p1 p2 payload le in
      let (at_cla, at_ins, at_p1, at_p2, at_data) =
        get_data-command_apdu (cla / 16 % 16 * 16 + cla_secure_messaging) ins p1 p2 objects
          (create_new_le objects le) (length-secured_data n cla ins p1 p2 payload le h)
          (create_new_le-le objects le) in
      ap (open_command c n) (
        secure_command-command_apdu n cla ins p1 p2 payload le (omega arith) k
          (get_le-command_apdu cla ins p1 p2 payload le (omega arith) k l))
      ∙ rw (at_cla, at_ins, at_p1, at_p2, at_data)
          (open_objects-secured_data n cla ins p1 p2 payload le k)
