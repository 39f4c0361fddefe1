-- ===== src/Tests/ConnectionTests.antt =====
-- A card with one file, and commands over a connection to it.
use ausweisapp2_android_sdk.Base.{
  ℕ, ◌+◌, ◌*◌, ◌/◌, ◌%◌, ◌≡◌, refl, ◌↔◌, ◌⊎◌, ap, Bool, true, false, Option, none, some, List, [],
  ◌∷◌, ◌++◌, replicate, mid, length, leb, ◌==◌, if◌then◌else◌, arith, map,
}
use mathlib.Core.Option
use ausweisapp2_android_sdk.Status.{ok, unexpected_transmit_status}
use ausweisapp2_android_sdk.Pace.Reader.{is_eid, new_reader_info, eid_card, ReaderInfo}
use ausweisapp2_android_sdk.Pace.Establish.{is_ok}
use ausweisapp2_android_sdk.Card.CommandApdu.{get_ins, get_p1, get_p2, get_le}
use ausweisapp2_android_sdk.Card.Builders.{ef_card_access, build_read_binary, build_select}
use ausweisapp2_android_sdk.Card.ResponseApdu.{
  response_apdu, success, end_of_file, no_current_directory_selected,
}
use ausweisapp2_android_sdk.Card.Connection.{Worker, Device, Answer, is_answered, read_file}
use ausweisapp2_android_sdk.Card.Connection.ReadFile.{Serves, plain, read_file-serves}
use ausweisapp2_android_sdk.Card.Detection.{PaceInfo, matching_value, create}
use ausweisapp2_android_sdk.Card.Commands.{is_positive, InputApduInfo, unblock_pin, transmit_all}
use ausweisapp2_android_sdk.Card.Commands.Acceptable.{AllAccepted}
use ausweisapp2_android_sdk.Card.Commands.Outputs.{output_of, exchange, transmit_all-outputs}
use ausweisapp2_android_sdk.Card.Commands.Unblock.{IsAnswered, unblock_pin-IsAnswered}

abbrev content : List ℕ
content = matching_value ++ replicate 210 7

abbrev read_at : Bool → ℕ → ℕ → List ℕ
read_at selected offset le =
    if selected
    then mid content offset le
      ++ response_apdu (if leb (offset + le) (length content) then success else end_of_file)
    else response_apdu no_current_directory_selected

-- The state of the card: whether its file is selected.
abbrev answer_apdu : Bool → List ℕ → Bool × Answer
answer_apdu selected apdu =
    if get_ins apdu == 0xb0
    then (selected, (ok, read_at selected (get_p1 apdu * 256 + get_p2 apdu) (get_le apdu)))
    else (true, (ok, response_apdu success))

-- The cipher adds a byte, and takes it away again; PACE gives the key 5.
abbrev device : Device Bool ℕ
device = record {
  card_transmit = answer_apdu;
  card_pace = λ s id chat description. (s, ok);
  card_destroy_pace = λ s. (s, ok);
  card_set_eid_pin = λ s. (s, (ok, response_apdu success));
  encode = λ tag bytes. tag ∷ length bytes ∷ bytes;
  encrypt = λ k apdu. (k + 1, apdu ++ (k ∷ []));
  decrypt = λ k response. (k + 1, response);
  pace_handler = λ w id password chat. (w, (ok, 5));
}

abbrev blocked_reader : ReaderInfo
unfolding new_reader_info
blocked_reader =
    let i = new_reader_info [] in
    record i { card_info = record i.card_info { card_type = eid_card; retry_counter = some 0 } }

abbrev worker : Worker Bool ℕ
unfolding blocked_reader
worker = record {
  card = some false;
  secure_messaging = none;
  reader_info = blocked_reader;
  counter_reference = none;
  counter_changes = 0;
}

served : Serves device ef_card_access (λ s. s ≡ true) content
unfolding get_ins get_p1 get_p2 get_le build_select build_read_binary is_answered response_apdu
served = record {
  selects = λ s. refl;
  accepts = λ s. refl;
  stays = λ s offset h small. h;
  replies = λ s offset h small.
      let joined : offset / 256 % 256 * 256 + offset % 256 ≡ offset = omega arith in
      rw h (ap (λ o. (ok, read_at true o 0xff)) joined);
}

-- 300 bytes are read in two rounds.
read_file-serves_example :
    (s : Bool) × (read_file 129 device (plain worker false) ef_card_access []
      ≡ some (plain worker s, (ok, content)))
read_file-serves_example =
    read_file-serves device ef_card_access (λ s. s ≡ true) content served worker 129 false 0
      (omega arith) (omega arith) (omega arith)

unblocked : (unblock_pin device worker (49 ∷ 50 ∷ [])).1 ≡ ok
unfolding unblock_pin worker get_ins response_apdu
unblocked = refl

basic : worker.reader_info.basic_reader ≡ true
unfolding worker
basic = refl

unblock_pin-IsAnswered_example :
    (is_eid worker.reader_info.card_info ≡ true)
    × (is_positive worker.reader_info.card_info.retry_counter ≡ false)
    × (worker.reader_info.card_info.pin_deactivated ≡ false)
    × (ok ≡ ok)
    × ((s : Bool) × (worker.card ≡ some s) × IsAnswered device 5 s)
unblock_pin-IsAnswered_example = unblock_pin-IsAnswered device worker (49 ∷ 50 ∷ []) basic unblocked

-- The second status is not the one that is asked for.
abbrev infos : List InputApduInfo
infos =
    record { input_apdu = 0 ∷ 0xa4 ∷ 2 ∷ 0x0c ∷ []; acceptable_status_codes = (57 ∷ 48 ∷ []) ∷ [] }
    ∷ record { input_apdu = 0 ∷ 0x84 ∷ 0 ∷ 0 ∷ []; acceptable_status_codes = (54 ∷ 51 ∷ []) ∷ [] }
    ∷ []

transmit_all-unexpected :
    (transmit_all device worker infos).1
    ≡ (unexpected_transmit_status, (57 ∷ 48 ∷ 48 ∷ 48 ∷ []) ∷ (57 ∷ 48 ∷ 48 ∷ 48 ∷ []) ∷ [])
unfolding transmit_all worker get_ins response_apdu
transmit_all-unexpected = refl

transmit_all-outputs_example :
    let run = transmit_all device worker infos in
    let exchanged = exchange device worker infos in
    ((rest : List (List ℕ)) × (run.1.1 ++ rest ≡ map output_of exchanged.1)
      × ((is_ok run.1.0 ≡ false) ⊎ (rest ≡ [])))
    × ((is_ok run.1.0 ≡ true) ↔ AllAccepted infos exchanged.1)
transmit_all-outputs_example = transmit_all-outputs device worker infos

-- EF.CardAccess with one PACEInfo.
abbrev decode : List ℕ → Option (List PaceInfo)
decode bytes = some (record { protocol = 4 ∷ []; parameter_id = 13 ∷ []; standardized = true } ∷ [])

created : Option.map (λ r. r.1) (create 129 device decode (plain worker false)) ≡ some true
unfolding create plain worker get_ins get_p1 get_p2 get_le response_apdu
created = refl

-- A card that counts the commands, and takes off and puts on a byte; the channel counts as well.
abbrev sealed_card : ℕ × Bool → List ℕ → (ℕ × Bool) × Answer
sealed_card t [] = (t, (ok, []))
sealed_card (n, b) (c ∷ apdu) =
    let (b', (code, response)) = answer_apdu b apdu in
    if c == n then ((n + 1, b'), (code, 1 ∷ response)) else ((n, b), (ok, []))

abbrev take_off : ℕ → List ℕ → ℕ × List ℕ
take_off k [] = (k, [])
take_off k (x ∷ response) = (k + 1, response)

abbrev sealing : Device (ℕ × Bool) ℕ
sealing = record {
  card_transmit = sealed_card;
  card_pace = λ t id chat description. (t, ok);
  card_destroy_pace = λ t. (t, ok);
  card_set_eid_pin = λ t. (t, (ok, response_apdu success));
  encode = λ tag bytes. tag ∷ length bytes ∷ bytes;
  encrypt = λ k apdu. (k, k ∷ apdu);
  decrypt = take_off;
  pace_handler = λ w id password chat. (w, (ok, 5));
}

abbrev InStep : ℕ × Bool → ℕ → Bool → Type 0
InStep t k b = (t.0 ≡ k) × (t.1 ≡ b)

abbrev sealed_worker : Worker (ℕ × Bool) ℕ
unfolding blocked_reader
sealed_worker = record {
  card = none;
  secure_messaging = none;
  reader_info = blocked_reader;
  counter_reference = none;
  counter_changes = 0;
}
