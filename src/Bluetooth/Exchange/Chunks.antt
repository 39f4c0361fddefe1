-- ===== src/Bluetooth/Exchange/Chunks.antt =====
-- That the chunks in which an answer arrives do not matter to
-- src/card/bluetooth/SynchronousBtCall.cpp.
use ausweisapp2_android_sdk.Base.{
  ℕ, ◌≡◌, refl, sym, ◌∙◌, ap, Bool, List, [], ◌∷◌, ◌++◌, none, some, arith, Option-cases, inl, inr,
  ◌≢◌,
}
use mathlib.Core.List.{append_assoc, append-nil}
use ausweisapp2_android_sdk.Bluetooth.Message.{Message, message_data}
use ausweisapp2_android_sdk.Bluetooth.Parser.{parse, parse_message}
use ausweisapp2_android_sdk.Bluetooth.Parser.Stream.{
  parse-append, parse_message-append, parse-none, parse_message_short,
}
use ausweisapp2_android_sdk.Bluetooth.RoundTrip.{
  IsWellFormed, parse_message-data, parse-message_data,
}
use ausweisapp2_android_sdk.Bluetooth.Exchange.{
  Call, new_call, first_or, on_characteristic_changed, receive,
}

abbrev pub concat : List (List ℕ) → List ℕ
concat [] = []
concat (chunk ∷ chunks) = chunk ++ concat chunks

first_or-append :
    (ms ms' : List Message) → first_or (first_or none ms) (ms ++ ms') ≡ first_or none (ms ++ ms')
first_or-append [] ms' = refl
first_or-append (m ∷ ms) ms' = refl

append-ne-nil : (xs : List ℕ) (y : ℕ) (ys : List ℕ) → xs ++ (y ∷ ys) ≢ []
append-ne-nil [] y ys e = cc
append-ne-nil (x ∷ xs) y ys e = cc

module _ (char_signed : Bool) where
  -- What a call has found is the first message of what it has received.
  abbrev IsFound : Call → Type 0
  IsFound c = c.message ≡ first_or none (parse char_signed c.buffer).0

  changed-IsFound :
      (c : Call) (chunk : List ℕ)
      → IsFound c
      → IsFound (on_characteristic_changed char_signed c chunk)
  unfolding on_characteristic_changed
  changed-IsFound c chunk found =
      rw (found, parse-append char_signed c.buffer chunk)
        (first_or-append (parse char_signed c.buffer).0
          (parse char_signed ((parse char_signed c.buffer).1 ++ chunk)).0)

  receive_lem :
      (c : Call) (chunks : List (List ℕ))
      → IsFound c
      → (receive char_signed c chunks).message
        ≡ first_or none (parse char_signed (c.buffer ++ concat chunks)).0
  unfolding receive
  receive_lem c [] found = rw append-nil found
  receive_lem c (chunk ∷ chunks) found =
      receive_lem (on_characteristic_changed char_signed c chunk) chunks
        (changed-IsFound c chunk found)
      ∙ rw append_assoc

  nothing-IsFound : IsFound new_call
  nothing-IsFound = sym (
      ap (λ (r : List Message × List ℕ). first_or none r.0)
        (parse-none char_signed [] (parse_message_short char_signed [] (omega arith))))

  incomplete :
      (m : Message) (front : List ℕ) (x : ℕ) (missing : List ℕ)
      → IsWellFormed char_signed m
      → message_data char_signed m ≡ front ++ (x ∷ missing)
      → parse_message char_signed front ≡ none
  incomplete m front x missing ok e = elim (Option-cases (parse_message char_signed front)) [
    | inl nothing ↦ nothing
    | inr ((m', rest), early) ↦
        let whole : parse_message char_signed (message_data char_signed m) ≡ some (m, []) =
          rw append-nil at (parse_message-data char_signed m [] ok) in
        let extended = parse_message-append char_signed front (x ∷ missing) m' rest early in
        absurd (append-ne-nil rest x missing (cc (whole, extended, e)))
  ]

  -- A call that has received the data of a well-formed message, in chunks of any sizes and with
  -- anything behind it, has found this message.
  pub receive-message_data :
      (m : Message) (chunks : List (List ℕ)) (more : List ℕ)
      → IsWellFormed char_signed m
      → concat chunks ≡ message_data char_signed m ++ more
      → (receive char_signed new_call chunks).message ≡ some m
  receive-message_data m chunks more ok e =
      receive_lem new_call chunks nothing-IsFound ∙ rw (e, parse-message_data char_signed m more ok)

  -- A call that has received less than the data of a well-formed message, in chunks of any sizes,
  -- has found none.
  pub receive_incomplete :
      (m : Message) (chunks : List (List ℕ)) (x : ℕ) (missing : List ℕ)
      → IsWellFormed char_signed m
      → message_data char_signed m ≡ concat chunks ++ (x ∷ missing)
      → (receive char_signed new_call chunks).message ≡ none
  receive_incomplete m chunks x missing ok e =
      receive_lem new_call chunks nothing-IsFound
      ∙ rw (parse-none char_signed (concat chunks) (incomplete m (concat chunks) x missing ok e))
