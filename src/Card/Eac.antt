-- ===== src/Card/Eac.antt =====
-- src/card/base/command/DidAuthenticateEAC1Command.cpp and DidAuthenticateEAC2Command.cpp with the
-- builders PSOBuilder, EABuilder, GABuilder and GetChallengeBuilder: extended access control over a
-- connection to a card. The ephemeral public key and the signature are the bytes of their
-- hexadecimal texts, and log lines are left out.
use ausweisapp2_android_sdk.Base.{
  ℕ, ◌-◌, ◌/◌, ◌%◌, ◌==◌, Bool, not, Option, none, some, List, [], ◌∷◌, ◌++◌, length, take, drop,
  if◌then◌else◌,
}
use ausweisapp2_android_sdk.Status.{CardReturnCode, ok, protocol_error}
use ausweisapp2_android_sdk.Pace.Establish.{is_ok}
use ausweisapp2_android_sdk.Card.CommandApdu.{command_apdu}
use ausweisapp2_android_sdk.Card.ResponseApdu.{value, success, get_data, get_return_code}
use ausweisapp2_android_sdk.Card.Certificates.{Cvc, get_terminal_cvc}
use ausweisapp2_android_sdk.Card.Builders.{FileRef, MseData, child_ef, set_at, no_data, build_mse}
use ausweisapp2_android_sdk.Card.Connection.{
  Worker, Device, Answer, transmit, read_file, stop_secure_messaging,
}
use ausweisapp2_android_sdk.Card.Commands.{to_hex}
pub mod Accepted
pub mod Authenticated

abbrev pub ef_card_security : FileRef
ef_card_security = record { type = child_ef; path = 0x01 ∷ 0x1d ∷ [] }

-- MSEBuilder::P1 and P2 that are used here.
abbrev pub set_dst : ℕ
set_dst = 0x81

abbrev pub compute : ℕ
compute = 0x41

abbrev pub compute_digital_signature : ℕ
compute_digital_signature = 0xb6

unfoldable pub build_pso : Cvc → List ℕ
unfolding command_apdu
build_pso c = command_apdu 0x00 0x2a 0x00 0xbe (c.raw_body ++ c.raw_signature) 0

unfoldable pub build_ea : List ℕ → List ℕ
unfolding command_apdu
build_ea signature = command_apdu 0x00 0x82 0 0 signature 0

-- With the ephemeral key of chip authentication.
unfoldable pub build_ga : (ℕ → List ℕ → List ℕ) → List ℕ → List ℕ
unfolding command_apdu
build_ga encode key = command_apdu 0x00 0x86 0 0 (encode 0x7c (encode 0x80 key)) 0x0100

unfoldable pub build_get_challenge : List ℕ
unfolding command_apdu
build_get_challenge = command_apdu 0x00 0x84 0 0 [] 8

pub record ChipAuthenticationInfo : Type 0 where
  pub protocol : List ℕ
  pub key_id : List ℕ

-- The decoders, which are calls of OpenSSL: the object identifier of a certificate's public key, the
-- infos of EF.CardSecurity, and the nonce and the token of a response to General Authenticate.
pub record Decoders : Type 0 where
  pub key_oid : Cvc → List ℕ
  pub chip_authentication_infos : List ℕ → Option (List ChipAuthenticationInfo)
  pub nonce : List ℕ → List ℕ
  pub authentication_token : List ℕ → List ℕ

-- The arguments of the command.
pub record Eac2 : Type 0 where
  pub cvc_chain : List Cvc
  pub ephemeral_public_key : List ℕ
  pub signature : List ℕ
  pub auxiliary_data : List ℕ

-- Its results, the last three in hexadecimal.
pub record Eac2Output : Type 0 where
  pub return_code : CardReturnCode
  pub card_security : List ℕ
  pub nonce_text : List ℕ
  pub auth_token : List ℕ

-- What is returned for an answer, if it is not OK.
unfoldable pub checked : Answer → CardReturnCode
unfolding is_ok value get_return_code
checked (code, response) =
    if not (is_ok code)
    then code
    else if not (value (get_return_code response) == value success)
    then protocol_error
    else ok

-- An uncompressed point begins with 04, and is sent without by some servers.
unfoldable pub with_prefix : List ℕ → List ℕ
with_prefix key = if length key % 2 == 0 then 0x04 ∷ key else key

unfoldable pub compressed : List ℕ → List ℕ
compressed key = take ((length key - 1) / 2) (drop 1 key)

abbrev pub failed_with : CardReturnCode → List ℕ → Eac2Output
failed_with code card_security = record {
  return_code = code;
  card_security = card_security;
  nonce_text = [];
  auth_token = [];
}

abbrev pub agreed_output : Decoders → List ℕ → List ℕ → Eac2Output
agreed_output x content response = record {
  return_code = ok;
  card_security = to_hex content;
  nonce_text = to_hex (x.nonce response);
  auth_token = to_hex (x.authentication_token response);
}

module _ {S K : Type 0} where
  unfoldable pub execute_eac1 : Device S K → Worker S K → Worker S K × Answer
  unfolding transmit build_get_challenge is_ok value get_return_code get_data
  execute_eac1 d w =
      let (w', (code, response)) = transmit d w build_get_challenge in
      if not (is_ok code)
      then (w', (code, []))
      else if not (value (get_return_code response) == value success)
      then (w', (code, []))
      else (w', (code, get_data response))

  abbrev pub mse_certificate : Device S K → Cvc → List ℕ
  mse_certificate d c =
      build_mse set_dst compute_digital_signature
        (record no_data { public_key = d.encode 0x83 c.authority })

  unfoldable pub put_certificate_chain :
      Device S K → Worker S K → List Cvc → Worker S K × CardReturnCode
  unfolding transmit checked is_ok build_mse build_pso
  put_certificate_chain d w [] = (w, ok)
  put_certificate_chain d w (c ∷ cvcs) =
      let (mse_worker, mse) = transmit d w (mse_certificate d c) in
      let (pso_worker, pso) = transmit d mse_worker (build_pso c) in
      let rest = put_certificate_chain d pso_worker cvcs in
      if not (is_ok (checked mse))
      then (mse_worker, checked mse)
      else if not (is_ok (checked pso))
      then (pso_worker, checked pso)
      else rest

  abbrev pub mse_terminal : Device S K → List ℕ → List ℕ → List ℕ → List ℕ → List ℕ
  mse_terminal d protocol holder auxiliary_data key = build_mse set_dst set_at (record no_data {
    oid = d.encode 0x80 protocol;
    public_key = d.encode 0x83 holder;
    auxiliary_data = auxiliary_data;
    ephemeral_public_key = d.encode 0x91 key;
  })

  unfoldable pub perform_terminal_authentication :
      Device S K → Worker S K → List ℕ → List ℕ → Worker S K × CardReturnCode
  unfolding transmit checked is_ok build_ea
  perform_terminal_authentication d w mse_command signature =
      let (mse_worker, mse) = transmit d w mse_command in
      let (ea_worker, ea) = transmit d mse_worker (build_ea signature) in
      if not (is_ok (checked mse)) then (mse_worker, checked mse) else (ea_worker, checked ea)

  abbrev pub mse_chip : Device S K → ChipAuthenticationInfo → List ℕ
  mse_chip d info = build_mse compute set_at (record no_data {
    oid = d.encode 0x80 info.protocol;
    private_key = d.encode 0x84 info.key_id;
  })

  -- The return code, and the response to General Authenticate.
  unfoldable pub perform_chip_authentication :
      Device S K → Worker S K → ChipAuthenticationInfo → List ℕ → Worker S K × Answer
  unfolding transmit checked is_ok build_mse build_ga
  perform_chip_authentication d w info key =
      let (mse_worker, mse) = transmit d w (mse_chip d info) in
      let (ga_worker, ga) = transmit d mse_worker (build_ga d.encode key) in
      if not (is_ok (checked mse))
      then (mse_worker, (checked mse, []))
      else if not (is_ok (checked ga))
      then (ga_worker, (checked ga, []))
      else (ga_worker, (ok, ga.1))

  -- What is done with the result of chip authentication.
  unfoldable pub note_agreed : Decoders → List ℕ → Worker S K × Answer → Worker S K × Eac2Output
  unfolding stop_secure_messaging is_ok to_hex
  note_agreed x content (w, (code, response)) =
      if not (is_ok code)
      then (w, failed_with code (to_hex content))
      else (stop_secure_messaging w, agreed_output x content response)

  -- The first info is taken.
  unfoldable pub choose_info :
      Device S K
      → Decoders
      → Worker S K
      → List ℕ
      → List ℕ
      → Option (List ChipAuthenticationInfo)
      → Worker S K × Eac2Output
  unfolding perform_chip_authentication note_agreed to_hex
  choose_info d x w key content none = (w, failed_with protocol_error (to_hex content))
  choose_info d x w key content (some []) = (w, failed_with protocol_error (to_hex content))
  choose_info d x w key content (some (info ∷ infos)) =
      note_agreed x content (perform_chip_authentication d w info key)

  unfoldable pub with_card_security :
      Device S K → Decoders → List ℕ → Worker S K × Answer → Worker S K × Eac2Output
  unfolding choose_info is_ok
  with_card_security d x key (w, (code, content)) =
      if not (is_ok code)
      then (w, failed_with code [])
      else choose_info d x w key content (x.chip_authentication_infos content)

  unfoldable pub after_file :
      Device S K
      → Decoders
      → List ℕ
      → Option (Worker S K × Answer)
      → Option (Worker S K × Eac2Output)
  unfolding with_card_security
  after_file d x key none = none
  after_file d x key (some read) = some (with_card_security d x key read)

  unfoldable pub authenticate_terminal :
      ℕ → Device S K → Decoders → Worker S K → Eac2 → Cvc → Option (Worker S K × Eac2Output)
  unfolding put_certificate_chain perform_terminal_authentication read_file after_file is_ok
      with_prefix compressed build_mse
  authenticate_terminal fuel d x w e terminal =
      let (put_worker, put) = put_certificate_chain d w e.cvc_chain in
      let key = with_prefix e.ephemeral_public_key in
      let (ta_worker, ta) =
        perform_terminal_authentication d put_worker
          (mse_terminal d (x.key_oid terminal) terminal.holder e.auxiliary_data (compressed key))
          e.signature in
      if not (is_ok put)
      then some (put_worker, failed_with put [])
      else if not (is_ok ta)
      then some (ta_worker, failed_with ta [])
      else after_file d x key (read_file fuel d ta_worker ef_card_security [])

  -- No result stands for a file that does not end within the rounds, and for a chain without a
  -- certificate, which no caller passes.
  unfoldable pub execute_eac2 :
      ℕ → Device S K → Decoders → Worker S K → Eac2 → Option (Worker S K × Eac2Output)
  unfolding authenticate_terminal get_terminal_cvc
  execute_eac2 fuel d x w e = elim (get_terminal_cvc e.cvc_chain) [
    | none ↦ none
    | some terminal ↦ authenticate_terminal fuel d x w e terminal
  ]
