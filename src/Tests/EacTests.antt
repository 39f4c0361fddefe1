-- ===== src/Tests/EacTests.antt =====
-- Extended access control with a card that answers every command with SUCCESS and has a short
-- EF.CardSecurity.
use ausweisapp2_android_sdk.Base.{
  ℕ, ◌≡◌, refl, ◌↔◌, ◌+◌, none, some, [], ◌∷◌, ◌++◌, length, ◌==◌, if◌then◌else◌,
}
use ausweisapp2_android_sdk.Status.{ok}
use ausweisapp2_android_sdk.Pace.Reader.{new_reader_info}
use ausweisapp2_android_sdk.Card.CommandApdu.{get_ins}
use ausweisapp2_android_sdk.Card.ResponseApdu.{get_data, response_apdu, success, end_of_file}
use ausweisapp2_android_sdk.Card.Certificates.{at, dv_od}
use ausweisapp2_android_sdk.Card.Connection.{Worker, Device}
use ausweisapp2_android_sdk.Card.Eac.{Decoders, Eac2, Eac2Output, execute_eac2}
use ausweisapp2_android_sdk.Card.Eac.Authenticated.{IsAuthenticated, execute_eac2_iff}

abbrev device : Device ℕ ℕ
device = record {
  card_transmit = λ s apdu. (
    s + 1,
    (
      ok,
      if get_ins apdu == 0xb0
          then 7 ∷ 8 ∷ response_apdu end_of_file
          else if get_ins apdu == 0x86
          then 9 ∷ response_apdu success
          else response_apdu success,
    ),
  );
  card_pace = λ s id chat description. (s, ok);
  card_destroy_pace = λ s. (s, ok);
  card_set_eid_pin = λ s. (s, (ok, response_apdu success));
  encode = λ tag bytes. tag ∷ length bytes ∷ bytes;
  encrypt = λ k apdu. (k + 1, apdu ++ (k ∷ []));
  decrypt = λ k response. (k + 1, response);
  pace_handler = λ w id password chat. (w, (ok, 5));
}

abbrev worker : Worker ℕ ℕ
unfolding new_reader_info
worker = record {
  card = some 0;
  secure_messaging = some 1;
  reader_info = new_reader_info [];
  counter_reference = none;
  counter_changes = 0;
}

abbrev decoders : Decoders
decoders = record {
  key_oid = λ c. 4 ∷ [];
  chip_authentication_infos = λ content. some (record { protocol = content; key_id = 2 ∷ [] } ∷ []);
  nonce = λ response. response;
  authentication_token = λ response. response;
}

abbrev request : Eac2
request = record {
  cvc_chain =
      record {
        authority = 1 ∷ [];
        holder = 2 ∷ [];
        access_role = dv_od;
        raw_body = 5 ∷ [];
        raw_signature = 6 ∷ [];
      }
      ∷ record {
        authority = 2 ∷ [];
        holder = 3 ∷ [];
        access_role = at;
        raw_body = 7 ∷ [];
        raw_signature = 8 ∷ [];
      }
      ∷ [];
  ephemeral_public_key = 11 ∷ 12 ∷ [];
  signature = 13 ∷ [];
  auxiliary_data = [];
}

-- Ten commands have reached the card: two for each certificate, two for the terminal, SELECT and READ
-- BINARY, and two for the chip.
abbrev outcome : Worker ℕ ℕ × Eac2Output
unfolding worker
outcome = (
  record worker { card = some 10; secure_messaging = none },
  record {
    return_code = ok;
    card_security = 48 ∷ 55 ∷ 48 ∷ 56 ∷ [];
    nonce_text = 48 ∷ 57 ∷ 57 ∷ 48 ∷ 48 ∷ 48 ∷ [];
    auth_token = 48 ∷ 57 ∷ 57 ∷ 48 ∷ 48 ∷ 48 ∷ [];
  },
)

authenticates : execute_eac2 9 device decoders worker request ≡ some outcome
unfolding execute_eac2 worker outcome get_ins response_apdu get_data
authenticates = refl

execute_eac2_iff_example :
    ((execute_eac2 9 device decoders worker request ≡ some outcome) × (outcome.1.return_code ≡ ok))
    ↔ IsAuthenticated 9 device decoders worker request outcome
execute_eac2_iff_example = execute_eac2_iff device decoders 9 worker request outcome
