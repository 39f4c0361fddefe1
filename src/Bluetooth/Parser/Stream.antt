-- ===== src/Bluetooth/Parser/Stream.antt =====
-- How the parser of src/card/bluetooth/messages/BluetoothMessageParser.cpp takes its input apart.
use ausweisapp2_android_sdk.Base.{
  ℕ, zero, suc, ◌+◌, ◌≤◌, ◌<◌, ◌≡◌, refl, sym, ◌∙◌, Bool, List, [], ◌∷◌, ◌++◌, none, some, arith,
  length, length-append, take, drop, get_or, take-append_le, drop-append_le, get_or-append_lt,
  length-drop, Option-cases, inl, inr, le→ltb, lt→ltb,
}
use ausweisapp2_android_sdk.Bluetooth.Message.{
  Message, get_padding_length, create_message_parameter, create_message, add_parameter,
}
use ausweisapp2_android_sdk.Bluetooth.Parser.{
  parse_parameters, parse_message, parse_loop, parse, get_param_length, rounds,
}

module _ (char_signed : Bool) where
  parse_parameters_step :
      (n : ℕ) (input : List ℕ) (m m' : Message) (rest : List ℕ)
      → parse_parameters char_signed (suc n) input m ≡ some (m', rest)
      → let size = get_param_length (get_or input 2 0) (get_or input 3 0) in
        let padded = size + get_padding_length size in
        let p = create_message_parameter (get_or input 0 0) (take size (drop 4 input)) in
        (4 ≤ length input)
        × (padded ≤ length (drop 4 input))
        × (parse_parameters char_signed n
              (drop padded (drop 4 input))
              (add_parameter char_signed m p)
            ≡ some (m', rest))
  unfolding parse_parameters
  parse_parameters_step n input m m' rest e = (ground arith, ground arith, ground arith)

  parse_parameters-append :
      (n : ℕ) (input more : List ℕ) (m m' : Message) (rest : List ℕ)
      → parse_parameters char_signed n input m ≡ some (m', rest)
      → parse_parameters char_signed n (input ++ more) m ≡ some (m', rest ++ more)
  unfolding parse_parameters
  parse_parameters-append zero input more m m' rest e = ground arith
  parse_parameters-append (suc n) input more m m' rest e =
      let size = get_param_length (get_or input 2 0) (get_or input 3 0) in
      let padded = size + get_padding_length size in
      let content = drop 4 input in
      let p = create_message_parameter (get_or input 0 0) (take size content) in
      let (four, fits, next) = parse_parameters_step n input m m' rest e in
      rw
        (
          get_or-append_lt 0 input more 0 (omega arith),
          get_or-append_lt 2 input more 0 (omega arith),
          get_or-append_lt 3 input more 0 (omega arith),
          drop-append_le 4 input more four,
          take-append_le size content more (omega arith),
          drop-append_le padded content more fits,
          le→ltb (length (input ++ more)) 4 (omega (arith, length-append input more)),
          le→ltb (length (content ++ more)) padded (omega (arith, length-append content more)),
        )
        (parse_parameters-append n (drop padded content) more (add_parameter char_signed m p) m'
          rest next)

  parse_parameters-length :
      (n : ℕ) (input : List ℕ) (m m' : Message) (rest : List ℕ)
      → parse_parameters char_signed n input m ≡ some (m', rest)
      → length rest ≤ length input
  unfolding parse_parameters
  parse_parameters-length zero input m m' rest e = ground arith
  parse_parameters-length (suc n) input m m' rest e =
      let size = get_param_length (get_or input 2 0) (get_or input 3 0) in
      let padded = size + get_padding_length size in
      let p = create_message_parameter (get_or input 0 0) (take size (drop 4 input)) in
      let (_, fits, next) = parse_parameters_step n input m m' rest e in
      omega (
        arith,
        parse_parameters-length n (drop padded (drop 4 input)) (add_parameter char_signed m p) m'
            rest next,
        length-drop padded (drop 4 input),
        length-drop 4 input,
      )

  parse_message_step :
      (input : List ℕ) (m : Message) (rest : List ℕ)
      → parse_message char_signed input ≡ some (m, rest)
      → (4 ≤ length input)
        × (parse_parameters char_signed
              (rounds char_signed (get_or input 1 0))
              (drop 4 input)
              (create_message (get_or input 0 0))
            ≡ some (m, rest))
  unfolding parse_message
  parse_message_step input m rest e = (ground arith, ground arith)

  pub parse_message_long :
      (input : List ℕ)
      → 4 ≤ length input
      → parse_message char_signed input
        ≡ parse_parameters char_signed
            (rounds char_signed (get_or input 1 0))
            (drop 4 input)
            (create_message (get_or input 0 0))
  unfolding parse_message
  parse_message_long input h = rw (le→ltb (length input) 4 h)

  pub parse_message_short :
      (input : List ℕ) → length input < 4 → parse_message char_signed input ≡ none
  unfolding parse_message
  parse_message_short input h = rw (lt→ltb (length input) 4 h)

  -- A complete message is parsed alike, whatever follows it.
  pub parse_message-append :
      (input more : List ℕ) (m : Message) (rest : List ℕ)
      → parse_message char_signed input ≡ some (m, rest)
      → parse_message char_signed (input ++ more) ≡ some (m, rest ++ more)
  parse_message-append input more m rest e =
      let (four, next) = parse_message_step input m rest e in
      rw
        (
          parse_message_long (input ++ more) (omega (arith, length-append input more)),
          get_or-append_lt 0 input more 0 (omega arith),
          get_or-append_lt 1 input more 0 (omega arith),
          drop-append_le 4 input more four,
        )
        (parse_parameters-append _ (drop 4 input) more _ m rest next)

  pub parse_message-length :
      (input : List ℕ) (m : Message) (rest : List ℕ)
      → parse_message char_signed input ≡ some (m, rest)
      → length rest + 4 ≤ length input
  parse_message-length input m rest e =
      let (four, next) = parse_message_step input m rest e in
      omega (arith, parse_parameters-length _ (drop 4 input) _ m rest next, length-drop 4 input)

  loop_none :
      (f : ℕ) (input : List ℕ)
      → parse_message char_signed input ≡ none
      → parse_loop char_signed f input ≡ ([], input)
  unfolding parse_loop
  loop_none zero input e = refl
  loop_none (suc f) input e = rw (e, parse_loop)

  loop_some :
      (f : ℕ) (input : List ℕ) (m : Message) (rest : List ℕ)
      → parse_message char_signed input ≡ some (m, rest)
      → let (ms, left) = parse_loop char_signed f rest in
        parse_loop char_signed (suc f) input ≡ (m ∷ ms, left)
  unfolding parse_loop
  loop_some f input m rest e = rw (e, parse_loop)

  -- The result does not depend on the fuel, once there is enough.
  loop_rounds :
      (f g : ℕ) (input : List ℕ)
      → length input ≤ f
      → length input ≤ g
      → parse_loop char_signed f input ≡ parse_loop char_signed g input
  loop_rounds zero g input h k =
      let e = parse_message_short input (omega arith) in
      loop_none zero input e ∙ sym (loop_none g input e)
  loop_rounds (suc f) zero input h k =
      let e = parse_message_short input (omega arith) in
      loop_none (suc f) input e ∙ sym (loop_none zero input e)
  loop_rounds (suc f) (suc g) input h k = elim (Option-cases (parse_message char_signed input)) [
    | inl e ↦ loop_none (suc f) input e ∙ sym (loop_none (suc g) input e)
    | inr ((m, rest), e) ↦
        let shorter = parse_message-length input m rest e in
        rw (
          loop_some f input m rest e,
          loop_some g input m rest e,
          loop_rounds f g rest (omega arith) (omega arith),
        )
  ]

  pub parse-none :
      (input : List ℕ)
      → parse_message char_signed input ≡ none
      → parse char_signed input ≡ ([], input)
  unfolding parse
  parse-none input e = loop_none (length input) input e

  -- The loop does not run out of fuel: behind a complete message the parser goes on as if it
  -- started there.
  pub parse-some :
      (input : List ℕ) (m : Message) (rest : List ℕ)
      → parse_message char_signed input ≡ some (m, rest)
      → let (ms, left) = parse char_signed rest in parse char_signed input ≡ (m ∷ ms, left)
  unfolding parse
  parse-some input m rest e = fuel_is_enough (length input) refl
    where
      fuel_is_enough :
          (n : ℕ)
          → n ≡ length input
          → parse_loop char_signed n input ≡ (
            m ∷ (parse_loop char_signed (length rest) rest).0,
            (parse_loop char_signed (length rest) rest).1,
          )
      fuel_is_enough zero h = absurd (omega (arith, parse_message-length input m rest e))
      fuel_is_enough (suc n) h =
          let shorter = parse_message-length input m rest e in
          rw (
            loop_some n input m rest e,
            loop_rounds n (length rest) rest (omega arith) (omega arith),
          )

  stream :
      (n : ℕ) (input more : List ℕ)
      → length input ≤ n
      → let (ms, left) = parse char_signed input in
        let (ms', left') = parse char_signed (left ++ more) in
        parse char_signed (input ++ more) ≡ (ms ++ ms', left')
  stream zero input more h = rw (parse-none input (parse_message_short input (omega arith)))
  stream (suc n) input more h = elim (Option-cases (parse_message char_signed input)) [
    | inl e ↦ rw (parse-none input e)
    | inr ((m, rest), e) ↦
        let shorter = parse_message-length input m rest e in
        rw (
          parse-some input m rest e,
          parse-some (input ++ more) m (rest ++ more) (parse_message-append input more m rest e),
          stream n rest more (omega arith),
        )
  ]

  -- Input that arrives in two parts: the messages of the first part are kept, and the parser goes
  -- on with what it left of it, followed by the second part.
  pub parse-append :
      (input more : List ℕ)
      → let (ms, left) = parse char_signed input in
        let (ms', left') = parse char_signed (left ++ more) in
        parse char_signed (input ++ more) ≡ (ms ++ ms', left')
  parse-append input more = stream (length input) input more (omega arith)
