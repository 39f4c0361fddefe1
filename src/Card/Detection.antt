-- ===== src/Card/Detection.antt =====
-- src/card/base/CardInfo.cpp: how a card is recognised, when it is put on a reader. Decoding
-- EF.CardAccess, a call of OpenSSL, is the argument `decode`; the reader that is described is that
-- of the connection.
use mathlib.Core.Option
use ausweisapp2_android_sdk.Base.{
  ℕ, Bool, true, false, not, ◌&&◌, ◌||◌, Option, none, some, List, [], ◌∷◌, if◌then◌else◌,
}
use ausweisapp2_android_sdk.Pace.Reader.{CardType, unknown_card, passport, eid_card, CardInfo}
use ausweisapp2_android_sdk.Pace.Establish.{is_ok}
use ausweisapp2_android_sdk.Card.Builders.{
  master_file, ef_dir, app_passport, ef_card_access, build_select,
}
use ausweisapp2_android_sdk.Card.ResponseApdu.{success, get_data}
use ausweisapp2_android_sdk.Card.Commands.{text_starts_with}
use ausweisapp2_android_sdk.Card.Connection.{
  Worker, Device, Answer, is_answered, transmit, read_file,
}
use ausweisapp2_android_sdk.Card.Connection.RetryCounter.{update_retry_counter}
pub mod Detected

-- The start of EF.DIR on an eID card.
abbrev pub matching_value : List ℕ
matching_value =
    0x61 ∷ 0x32 ∷ 0x4f ∷ 0x0f ∷ 0xe8 ∷ 0x28 ∷ 0xbd ∷ 0x08 ∷ 0x0f ∷ 0xa0 ∷ 0x00 ∷ 0x00 ∷ 0x01 ∷ 0x67
    ∷ 0x45 ∷ 0x53 ∷ 0x49 ∷ 0x47 ∷ 0x4e ∷ 0x50 ∷ 0x0f ∷ 0x43 ∷ 0x49 ∷ 0x41 ∷ 0x20 ∷ 0x7a ∷ 0x75
    ∷ 0x20 ∷ 0x44 ∷ 0x46 ∷ 0x2e ∷ 0x65 ∷ 0x53 ∷ 0x69 ∷ 0x67 ∷ 0x6e ∷ 0x51 ∷ 0x00 ∷ 0x73 ∷ 0x0c
    ∷ 0x4f ∷ 0x0a ∷ 0xa0 ∷ 0x00 ∷ 0x00 ∷ 0x01 ∷ 0x67 ∷ 0x45 ∷ 0x53 ∷ 0x49 ∷ 0x47 ∷ 0x4e ∷ 0x61
    ∷ 0x09 ∷ 0x4f ∷ 0x07 ∷ 0xa0 ∷ 0x00 ∷ 0x00 ∷ 0x02 ∷ 0x47 ∷ 0x10 ∷ 0x01 ∷ 0x61 ∷ 0x0b ∷ 0x4f
    ∷ 0x09 ∷ 0xe8 ∷ 0x07 ∷ 0x04 ∷ 0x00 ∷ 0x7f ∷ 0x00 ∷ 0x07 ∷ 0x03 ∷ 0x02 ∷ 0x61 ∷ 0x0c ∷ 0x4f
    ∷ 0x0a ∷ 0xa0 ∷ 0x00 ∷ 0x00 ∷ 0x01 ∷ 0x67 ∷ 0x45 ∷ 0x53 ∷ 0x49 ∷ 0x47 ∷ 0x4e ∷ []

-- A PACEInfo of EF.CardAccess: its protocol, its parameter id, and whether its domain parameters are
-- standardized.
pub record PaceInfo : Type 0 where
  pub protocol : List ℕ
  pub parameter_id : List ℕ
  pub standardized : Bool

-- checkEfCardAccess, for EF.CardAccess that is there; the first PACEInfo is that of the counter.
unfoldable pub any_standardized : List PaceInfo → Bool
any_standardized [] = false
any_standardized (info ∷ infos) = info.standardized || any_standardized infos

unfoldable pub first_info : List PaceInfo → Option (List ℕ × List ℕ)
first_info [] = none
first_info (info ∷ infos) = some (info.protocol, info.parameter_id)

abbrev pub new_card_info : CardType → CardInfo
new_card_info type = record {
  card_type = type;
  retry_counter = none;
  pin_deactivated = false;
  puk_inoperative = false;
}

abbrev pub is_eid_card : CardType → Bool
is_eid_card eid_card = true
is_eid_card _ = false

module _ {S K : Type 0} where
  -- `setCardInfo`, with the reference that EF.CardAccess gives.
  unfoldable pub set_card_info : CardInfo → Option (List ℕ × List ℕ) → Worker S K → Worker S K
  set_card_info i access w = record w {
    reader_info = record w.reader_info { card_info = i };
    counter_reference = access;
  }

  -- The last step, behind the selection of EF.DIR.
  unfoldable pub detect_by_content : Device S K → Worker S K → Worker S K × CardType
  unfolding is_answered transmit text_starts_with get_data
  detect_by_content d w =
      let (w', answer) = transmit d w (0x00 ∷ 0xb0 ∷ 0x00 ∷ 0x00 ∷ 0x5a ∷ []) in
      (
        w',
        if not (is_answered success answer)
            then unknown_card
            else if text_starts_with (get_data answer.1) matching_value
            then eid_card
            else unknown_card,
      )

  unfoldable pub detect_passport : Device S K → Worker S K → Worker S K × CardType
  unfolding is_answered transmit build_select
  detect_passport d w =
      let (w', answer) = transmit d w (build_select app_passport) in
      (w', if is_answered success answer then passport else unknown_card)

  unfoldable pub detect_card : Device S K → Worker S K → Worker S K × CardType
  unfolding is_answered transmit build_select detect_passport detect_by_content
  detect_card d w =
      let (w1, root) = transmit d w (build_select master_file) in
      let (w2, dir) = transmit d w1 (build_select ef_dir) in
      if not (is_answered success root)
      then (w1, unknown_card)
      else if not (is_answered success dir)
      then detect_passport d w2
      else detect_by_content d w2

  -- What is done with EF.CardAccess; `none` is a file that has not been read or decoded.
  unfoldable pub accept_access :
      Device S K → Worker S K → Option (List PaceInfo) → Worker S K × Bool
  unfolding any_standardized first_info set_card_info update_retry_counter
  accept_access d w none = (w, false)
  accept_access d w (some infos) =
      if any_standardized infos
      then (
        (update_retry_counter d (set_card_info (new_card_info eid_card) (first_info infos) w)).0,
        true,
      )
      else (w, false)

  unfoldable pub accept_content :
      Device S K → (List ℕ → Option (List PaceInfo)) → Worker S K × Answer → Worker S K × Bool
  unfolding accept_access is_ok
  accept_content d decode (w, (code, content)) =
      accept_access d w (if is_ok code then decode content else none)

  unfoldable pub read_access :
      ℕ → Device S K → (List ℕ → Option (List PaceInfo)) → Worker S K → Option (Worker S K × Bool)
  unfolding read_file accept_content
  read_access fuel d decode w =
      Option.map (accept_content d decode) (read_file fuel d w ef_card_access [])

  -- Behind the detection of the card.
  unfoldable pub accept_card :
      ℕ
      → Device S K
      → (List ℕ → Option (List PaceInfo))
      → Worker S K × CardType
      → Option (Worker S K × Bool)
  unfolding read_access
  accept_card fuel d decode (w, type) =
      if is_eid_card type then read_access fuel d decode w else some (w, false)

  -- CardInfoFactory::create; `none` is a file that has not been read within the fuel.
  unfoldable pub create :
      ℕ → Device S K → (List ℕ → Option (List PaceInfo)) → Worker S K → Option (Worker S K × Bool)
  unfolding set_card_info detect_card accept_card
  create fuel d decode w =
      accept_card fuel d decode (detect_card d (set_card_info (new_card_info unknown_card) none w))
