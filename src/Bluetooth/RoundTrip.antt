-- ===== src/Bluetooth/RoundTrip.antt =====
-- What src/card/bluetooth/messages/BluetoothMessageParser.cpp makes of the data that
-- BluetoothMessage::toData wrote.
use ausweisapp2_android_sdk.Base.{
  ℕ, suc, ◌+◌, ◌*◌, ◌/◌, ◌%◌, ◌≤◌, ◌<◌, ◌≡◌, refl, ◌∙◌, ap, Bool, List, [], ◌∷◌, ◌++◌, some, arith,
  length, length-append, take, drop, length-replicate, take-length_append, drop-length_append,
  lt→ltb, le→ltb,
}
use mathlib.Core.List.{append_assoc, append-nil}
use ausweisapp2_android_sdk.Bluetooth.Message.{
  Message, Parameter, get_padding_length, padding, create_message_parameter, create_message,
  add_parameter, insert_multi, key, char_max, parameter_data, parameters_data, message_data,
}
use ausweisapp2_android_sdk.Bluetooth.Parser.{
  parse_parameters, parse_message, parse, get_param_length, rounds,
}
use ausweisapp2_android_sdk.Bluetooth.Parser.Stream.{parse-some, parse_message_long}

-- A parameter that the constructors of the source can build: its value is not too long, and its
-- class takes it as it is.
pub record IsBuilt (p : Parameter) : Type 0 where
  pub fits : length p.value ≤ 0xffff
  pub taken : create_message_parameter p.id p.value ≡ p

-- The keys ascend strictly, from `low` on: no parameter occurs twice.
abbrev pub Ascends : Bool → ℕ → List Parameter → Type 0
Ascends char_signed low [] = Unit {0}
Ascends char_signed low (p ∷ rest) =
    (low ≤ key char_signed p.id) × Ascends char_signed (suc (key char_signed p.id)) rest

abbrev pub AllBuilt : List Parameter → Type 0
AllBuilt [] = Unit {0}
AllBuilt (p ∷ rest) = IsBuilt p × AllBuilt rest

pub record IsWellFormed (char_signed : Bool) (m : Message) : Type 0 where
  pub count : length m.parameters ≤ char_max char_signed
  pub ascends : Ascends char_signed 0 m.parameters
  pub built : AllBuilt m.parameters

split_content :
    (value more : List ℕ)
    → let n = length value + get_padding_length (length value) in
      let content = (value ++ padding value) ++ more in
      (take (length value) content ≡ value) × (drop n content ≡ more) × (n ≤ length content)
unfolding padding
split_content value more =
    let pad = get_padding_length (length value) in
    let w = value ++ padding value in
    let n : length w ≡ length value + pad =
      length-append value (padding value) ∙ ap (◌+◌ (length value)) (length-replicate pad 0) in
    (
      rw append_assoc (take-length_append value (padding value ++ more)),
      rw (← n) (drop-length_append w more),
      omega (arith, n, length-append w more),
    )

module _ (char_signed : Bool) where
  abbrev Below : ℕ → List Parameter → Type 0
  Below k [] = Unit {0}
  Below k (q ∷ rest) = (key char_signed q.id < k) × Below k rest

  insert_multi-last :
      (p : Parameter) (acc : List Parameter)
      → Below (key char_signed p.id) acc
      → insert_multi char_signed p acc ≡ acc ++ (p ∷ [])
  unfolding insert_multi
  insert_multi-last p [] h = refl
  insert_multi-last p (q ∷ rest) h =
      rw (lt→ltb (key char_signed q.id) (key char_signed p.id) h.0)
        (ap (◌∷◌ q) (insert_multi-last p rest h.1))

  Below-last :
      (k : ℕ) (p : Parameter) (acc : List Parameter)
      → Below k acc
      → k ≤ key char_signed p.id
      → Below (suc (key char_signed p.id)) (acc ++ (p ∷ []))
  Below-last k p [] h le = (omega arith, tt)
  Below-last k p (q ∷ rest) h le = (omega arith, Below-last k p rest h.1 le)

  Below-mono : (k n : ℕ) (acc : List Parameter) → k ≤ n → Below k acc → Below n acc
  Below-mono k n [] le h = tt
  Below-mono k n (q ∷ rest) le h = (omega arith, Below-mono k n rest le h.1)

  parse_parameter :
      (n : ℕ) (p : Parameter) (more : List ℕ) (m : Message)
      → IsBuilt p
      → parse_parameters char_signed (suc n) (parameter_data p ++ more) m
        ≡ parse_parameters char_signed n more (add_parameter char_signed m p)
  unfolding parameter_data parse_parameters get_param_length
  parse_parameter n p more m ok =
      let size : length p.value / 256 % 256 * 256 + length p.value % 256 ≡ length p.value =
        omega (arith, ok.fits) in
      let (value, rest, fits) = split_content p.value more in
      rw (le→ltb 0xffff (length p.value) ok.fits, size, value, rest, ok.taken) (ground arith)

  add_parameter_last :
      (p : Parameter) (acc : List Parameter) (id : ℕ)
      → Below (key char_signed p.id) acc
      → add_parameter char_signed (record { msg_id = id; parameters = acc }) p
        ≡ record { msg_id = id; parameters = acc ++ (p ∷ []) }
  unfolding add_parameter
  add_parameter_last p acc id h = rw (insert_multi-last p acc h)

  parse_parameters-data :
      (ps acc : List Parameter) (low id : ℕ) (more : List ℕ)
      → Ascends char_signed low ps
      → Below low acc
      → AllBuilt ps
      → parse_parameters char_signed
          (length ps)
          (parameters_data ps ++ more)
          (record { msg_id = id; parameters = acc })
        ≡ some (record { msg_id = id; parameters = acc ++ ps }, more)
  unfolding parameters_data
  parse_parameters-data [] acc low id more up below built = unfold parse_parameters in rw append-nil
  parse_parameters-data (p ∷ ps) acc low id more up below built =
      let rest : List ℕ = parameters_data ps ++ more in
      let next =
        parse_parameters-data ps (acc ++ (p ∷ [])) (suc (key char_signed p.id)) id more up.1
          (Below-last low p acc below up.0) built.1 in
      rw append_assoc (
        parse_parameter (length ps) p rest (record { msg_id = id; parameters = acc }) built.0
        ∙ rw (add_parameter_last p acc id (Below-mono low _ acc up.0 below))
            (next ∙ rw append_assoc))

  rounds_count : (n : ℕ) → n ≤ char_max char_signed → rounds char_signed (n % 256) ≡ n
  unfolding rounds
  rounds_count n h = ground arith

  pub parse_message-data :
      (m : Message) (more : List ℕ)
      → IsWellFormed char_signed m
      → parse_message char_signed (message_data char_signed m ++ more) ≡ some (m, more)
  unfolding message_data
  parse_message-data m more ok = rw (le→ltb (char_max char_signed) (length m.parameters) ok.count) (
      parse_message_long char_signed _ (omega arith)
      ∙ rw (rounds_count (length m.parameters) ok.count) (
          unfold create_message in
          parse_parameters-data m.parameters [] 0 m.msg_id more ok.ascends tt ok.built))

  -- The parser gives back a well-formed message from its data, and goes on with the bytes behind
  -- it.
  pub parse-message_data :
      (m : Message) (more : List ℕ)
      → IsWellFormed char_signed m
      → let (ms, left) = parse char_signed more in
        parse char_signed (message_data char_signed m ++ more) ≡ (m ∷ ms, left)
  parse-message_data m more ok = parse-some char_signed _ m more (parse_message-data m more ok)
