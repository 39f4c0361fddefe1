-- ===== src/Pace/Reader.antt =====
-- src/core/states/StateSelectReader.cpp and StateConnectCard.cpp, over src/card/base/ReaderInfo.h
-- and CardInfo.cpp. The readers are the list that the reader manager returns for the enabled
-- plug-ins; scanning and the texts on the reader's display are left out. Maximal lengths are not
-- negative.
use ausweisapp2_android_sdk.Base.{
  ℕ, Bool, true, false, ◌&&◌, ◌||◌, not, List, [], ◌∷◌, Option, none, some, ◌==◌, leb,
  if◌then◌else◌,
}
use ausweisapp2_android_sdk.Status.{Code, is_error, workflow_reader_device_scan_error}
use ausweisapp2_android_sdk.Pace.Context.{
  Context, Connection, Text, Counter, same_text, update_status,
}
use ausweisapp2_android_sdk.Pace.States.{
  Signal, Reaction, fire_continue, fire_abort, fire_retry, wait,
}
pub mod Selection

pub data CardType : Type 0 where
  no_card unknown_card passport eid_card : CardType

pub record CardInfo : Type 0 where
  pub card_type : CardType
  pub retry_counter : Counter
  pub pin_deactivated : Bool
  pub puk_inoperative : Bool

unfoldable pub is_available : CardInfo → Bool
is_available i = elim i.card_type [
  | no_card ↦ false
  | unknown_card ↦ true
  | passport ↦ true
  | eid_card ↦ true
]

unfoldable pub is_eid : CardInfo → Bool
is_eid i = elim i.card_type [
  | no_card ↦ false
  | unknown_card ↦ false
  | passport ↦ false
  | eid_card ↦ true
]

pub data PlugInType : Type 0 where
  unknown_plug_in pcsc bluetooth nfc remote : PlugInType

pub record ReaderInfo : Type 0 where
  pub plug_in_type : PlugInType
  pub name : Text
  pub basic_reader : Bool
  pub card_info : CardInfo
  pub connected : Bool
  pub max_apdu_length : ℕ

-- The constructor's values, for a reader that the manager does not know.
unfoldable pub new_reader_info : Text → ReaderInfo
new_reader_info name = record {
  plug_in_type = unknown_plug_in;
  name = name;
  basic_reader = true;
  card_info = record {
    card_type = no_card;
    retry_counter = none;
    pin_deactivated = false;
    puk_inoperative = false;
  };
  connected = false;
  max_apdu_length = 500;
}

unfoldable pub get_reader_info : Text → List ReaderInfo → ReaderInfo
unfolding same_text new_reader_info
get_reader_info name [] = new_reader_info name
get_reader_info name (i ∷ readers) =
    let rest = get_reader_info name readers in if same_text i.name name then i else rest

unfoldable pub sufficient_apdu_length : ReaderInfo → Bool
unfolding is_available
sufficient_apdu_length i =
    if not (is_available i.card_info)
    then true
    else i.max_apdu_length == 0 || leb 500 i.max_apdu_length

-- StateSelectReader.
unfoldable pub requires_card : PlugInType → Bool
requires_card pcsc = true
requires_card remote = true
requires_card _ = false

unfoldable pub is_offered : ReaderInfo → Bool
unfolding requires_card is_eid
is_offered i = i.connected && (not (requires_card i.plug_in_type) || is_eid i.card_info)

-- The loop of `onReaderInfoChanged`: the first selectable reader, and the flag.
unfoldable pub scan : List ReaderInfo → Option ReaderInfo × Bool
unfolding is_offered sufficient_apdu_length
scan [] = (none, false)
scan (i ∷ readers) =
    let rest = scan readers in
    if is_offered i
    then if sufficient_apdu_length i then (some i, rest.1) else (rest.0, true)
    else rest

unfoldable pub on_reader_info_changed : List ReaderInfo → Context → Reaction
unfolding scan
on_reader_info_changed readers c =
    let c' = record c { insufficient_apdu_length = (scan readers).1 } in
    elim (scan readers).0 [
      | none ↦ (c', wait)
      | some i ↦ (record c' { reader_name = i.name }, fire_continue)
    ]

unfoldable pub is_scan_error : Code → Bool
is_scan_error workflow_reader_device_scan_error = true
is_scan_error _ = false

unfoldable pub on_reader_device_error : Code → Context → Reaction
unfolding is_scan_error update_status is_error
on_reader_device_error s c =
    if is_error s && not (is_scan_error s) then (update_status s c, fire_abort) else (c, wait)

-- StateConnectCard. It sends the command that connects when the reader has an eID card; whether
-- there is a connection is the reader manager's answer.
unfoldable pub on_command_done : List ReaderInfo → Option Connection → Context → Reaction
unfolding get_reader_info sufficient_apdu_length
on_command_done readers none c = (c, fire_abort)
on_command_done readers (some k) c =
    let i = get_reader_info c.reader_name readers in
    (
      record c { card_connection = some k },
      if sufficient_apdu_length i && (not i.card_info.pin_deactivated || c.can_allowed_mode)
          then fire_continue
          else wait,
    )

unfoldable pub on_reader_removed : Text → Context → Signal
unfolding same_text
on_reader_removed name c = if same_text name c.reader_name then fire_retry else wait

-- The connection that a command makes: no channel has been established on it.
unfoldable pub new_connection : ReaderInfo → Connection
new_connection i = record {
  retry_counter = i.card_info.retry_counter;
  basic_reader = i.basic_reader;
  pace_can_successful = false;
  pace_pin_successful = false;
}
