-- ===== src/Card/Commands/Outputs.antt =====
-- src/card/base/command/TransmitCommand.cpp: the outputs of a command against the card's answers to
-- all its elements.
use ausweisapp2_android_sdk.Base.{
  ◌≡◌, refl, ap, ◌↔◌, ◌⊎◌, inl, inr, true, false, List, [], ◌∷◌, ◌++◌, map, Bool-cases, ℕ,
}
use ausweisapp2_android_sdk.Pace.Establish.{is_ok}
use ausweisapp2_android_sdk.Card.Connection.{Worker, Device, Answer, transmit}
use ausweisapp2_android_sdk.Card.Commands.Acceptable.{AllAccepted, all_accepted, all_accepted_iff}
use ausweisapp2_android_sdk.Card.Commands.{InputApduInfo, to_hex, is_acceptable, transmit_all}

abbrev pub output_of : Answer → List ℕ
output_of answer = to_hex answer.1

module _ {S K : Type 0} where
  -- The card's answers if all the elements are sent to it, whatever it answers.
  unfoldable pub exchange : Device S K → Worker S K → List InputApduInfo → Worker S K × List Answer
  exchange d w [] = (w, [])
  exchange d w (info ∷ infos) =
      let (w', answer) = transmit d w info.input_apdu in
      let (w'', answers) = exchange d w' infos in (w'', answer ∷ answers)

module _ {S K : Type 0} where
  transmit_all-all_accepted :
      (d : Device S K) (w : Worker S K) (infos : List InputApduInfo)
      → ((rest : List (List ℕ)) × ((transmit_all d w infos).1.1 ++ rest
            ≡ map output_of (exchange d w infos).1)
          × ((is_ok (transmit_all d w infos).1.0 ≡ false) ⊎ (rest ≡ [])))
        × (is_ok (transmit_all d w infos).1.0 ≡ all_accepted infos (exchange d w infos).1)
  unfolding transmit_all exchange all_accepted is_ok
  transmit_all-all_accepted d w [] = (([], refl, inr refl), refl)
  transmit_all-all_accepted d w (info ∷ infos) =
      let t = transmit d w info.input_apdu in
      let ((rest, prefix, complete), accepted) = transmit_all-all_accepted d t.0 infos in
      elim (Bool-cases (is_ok t.1.0)) [
        | inr lost ↦ rw lost ((map output_of (exchange d w (info ∷ infos)).1, refl, inl lost), lost)
        | inl there ↦ elim (Bool-cases (is_acceptable info t.1.1)) [
          | inr wrong ↦
              rw there (rw wrong ((map output_of (exchange d t.0 infos).1, refl, inl refl), refl))
          | inl right ↦
              rw there (rw right ((rest, ap (◌∷◌ (output_of t.1)) prefix, complete), accepted))
        ]
      ]

  -- The outputs of a command are the first of the answers, in hexadecimal, that the card gives if
  -- all its elements are sent to it, and all of them if the command succeeds; it succeeds exactly
  -- when each of these answers has arrived, and its element lists no acceptable status codes or
  -- one that its status word, in lower-case hexadecimal, starts with.
  pub transmit_all-outputs :
      (d : Device S K) (w : Worker S K) (infos : List InputApduInfo)
      → ((rest : List (List ℕ)) × ((transmit_all d w infos).1.1 ++ rest
            ≡ map output_of (exchange d w infos).1)
          × ((is_ok (transmit_all d w infos).1.0 ≡ false) ⊎ (rest ≡ [])))
        × ((is_ok (transmit_all d w infos).1.0 ≡ true) ↔ AllAccepted infos (exchange d w infos).1)
  transmit_all-outputs d w infos =
      let (outputs, accepted) = transmit_all-all_accepted d w infos in
      (outputs, rw accepted (all_accepted_iff infos (exchange d w infos).1))
