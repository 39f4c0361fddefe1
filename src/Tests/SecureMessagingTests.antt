-- ===== src/Tests/SecureMessagingTests.antt =====
-- Tests and witnesses for src/card/base/pace/SecureMessaging.cpp, with a toy cipher.
use ausweisapp2_android_sdk.Base.{
  ℕ, suc, ◌-◌, ◌≡◌, ◌≢◌, refl, ap, inl, inr, true, false, Option, none, some, List, [], ◌∷◌, ◌++◌,
  ◌==◌, ==_iff, if◌then◌else◌, length, take, take-length_append, replicate, arith, Bool-cases,
  is_empty,
}
use ausweisapp2_android_sdk.Card.ResponseApdu.{bytes_value, value, get_return_code}
use ausweisapp2_android_sdk.Card.CommandApdu.{command_apdu}
use ausweisapp2_android_sdk.Card.SecureMessaging.{Cipher, secure_command, increment}
use ausweisapp2_android_sdk.Card.SecureMessaging.Response.{decrypt}
use ausweisapp2_android_sdk.Card.SecureMessaging.Sealed.{
  IsSound, seal_response, decrypt-seal_response,
}
use ausweisapp2_android_sdk.Card.SecureMessaging.Replay.{decrypt_replayed}
use ausweisapp2_android_sdk.Card.SecureMessaging.Opened.{open_command, open_command-secure_command}

abbrev shift : List ℕ → List ℕ
shift [] = []
shift (x ∷ xs) = suc x ∷ shift xs

abbrev unshift : List ℕ → List ℕ
unshift [] = []
unshift (x ∷ xs) = (x - 1) ∷ unshift xs

abbrev read_toy : ℕ → List ℕ → Option (List ℕ)
read_toy tag (t ∷ n ∷ rest) = if t == tag then some (take n rest) else none
read_toy tag _ = none

-- Blocks of four bytes; the MAC is of the length.
abbrev toy : Cipher
toy = record {
  initialized = true;
  block_size = 4;
  cipher_encrypt = λ iv bytes. shift bytes;
  cipher_decrypt = λ iv bytes. unshift bytes;
  mac = λ bytes. replicate 8 (length bytes);
  encode = λ tag v. tag ∷ length v ∷ v;
  decode = read_toy;
}

unshift-shift : (xs : List ℕ) → unshift (shift xs) ≡ xs
unshift-shift [] = refl
unshift-shift (x ∷ xs) = ground (arith, unshift-shift xs)

length-shift : (xs : List ℕ) → length (shift xs) ≡ length xs
length-shift [] = refl
length-shift (x ∷ xs) = ground (arith, length-shift xs)

read_toy_reads : (tag : ℕ) (v rest : List ℕ) → read_toy tag ((tag ∷ length v ∷ v) ++ rest) ≡ some v
read_toy_reads tag v rest = rw ((==_iff tag tag).1 refl) (ap some (take-length_append v rest))

read_toy_tells :
    (tag other : ℕ) (v rest : List ℕ)
    → tag ≢ other
    → read_toy tag ((other ∷ length v ∷ v) ++ rest) ≡ none
read_toy_tells tag other v rest h = elim (Bool-cases (other == tag)) [
  | inl e ↦ absurd (h (omega (arith, (==_iff other tag).0 e)))
  | inr e ↦ rw e refl
]

toy-IsSound : IsSound toy
toy-IsSound = record {
  ready = refl;
  sized = omega arith;
  small = omega arith;
  inverse = λ iv bytes h. unshift-shift bytes;
  keeps_length = λ iv bytes h. length-shift bytes;
  mac_length = λ bytes. refl;
  reads = read_toy_reads;
  tells = read_toy_tells;
  short = λ tag v h. ground arith;
}

abbrev response : List ℕ
response = seal_response toy 7 (1 ∷ 2 ∷ 3 ∷ []) 0x90 0

decrypt-seal_response_example : decrypt toy 6 response ≡ (7, 1 ∷ 2 ∷ 3 ∷ 0x90 ∷ 0 ∷ [])
unfolding increment bytes_value value get_return_code
decrypt-seal_response_example = decrypt-seal_response toy toy-IsSound 6 (1 ∷ 2 ∷ 3 ∷ []) 0x90 0

-- The toy MAC does not tell the counters apart.
accepted_first : is_empty (decrypt toy 6 response).1 ≡ false
unfolding decrypt seal_response
accepted_first = refl

accepted_again : is_empty (decrypt toy 8 response).1 ≡ false
unfolding decrypt seal_response
accepted_again = refl

increment_apart : increment 6 ≢ increment 8
unfolding increment
increment_apart e = omega (arith, e)

decrypt_replayed_example : (a b : List ℕ) × (a ≢ b) × (toy.mac a ≡ toy.mac b)
decrypt_replayed_example =
    decrypt_replayed toy 6 8 response increment_apart accepted_first accepted_again

open_command-secure_command_example :
    open_command toy 7 (secure_command toy 7 (command_apdu 0 0xb0 1 2 (9 ∷ []) 300))
    ≡ some (command_apdu 0 0xb0 1 2 (9 ∷ []) 300)
open_command-secure_command_example =
    open_command-secure_command toy toy-IsSound 7 0 0xb0 1 2 (9 ∷ []) 300 (omega arith)
      (omega arith) (inr (inr (λ e. cc)))
