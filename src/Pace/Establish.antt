-- ===== src/Pace/Establish.antt =====
-- src/core/states/StateEstablishPaceChannel.cpp, and what src/card/base/CardConnection.h notes of
-- the command's result.
use ausweisapp2_android_sdk.Base.{
  ℕ, ◌≡◌, refl, Bool, true, false, ◌&&◌, [], none, some, if◌then◌else◌, is_empty,
}
use ausweisapp2_android_sdk.Status.{
  CardReturnCode, is_error, to_global_status, ok, ok_puk, retry_allowed, card_not_found,
  invalid_pin, invalid_pin_2, invalid_pin_3, cancellation_by_user, puk_inoperative,
}
use ausweisapp2_android_sdk.Pace.Context.{
  Context, Connection, Counter, Text, PacePasswordId, unknown_id, pace_mrz, pace_can, pace_pin,
  pace_puk, same_counter, update_status, reset_pace_passwords, reset_last_pace_result,
  set_last_pace_result, handle_wrong_npa_position, set_npa_position_verified,
  is_npa_repositioning_required,
}
use ausweisapp2_android_sdk.Pace.States.{
  Reaction, fire_continue, fire_abort, fire_pace_channel_established, fire_pace_channel_inoperative,
  fire_abort_and_unfortunate_card_position, wait, undefined_behaviour,
}

unfoldable pub password_of : PacePasswordId → Context → Text
password_of pace_can c = c.can
password_of pace_pin c = c.pin
password_of pace_puk c = c.puk
password_of unknown_id c = []
password_of pace_mrz c = []

unfoldable pub abort : Context → Reaction
unfolding reset_last_pace_result
abort c = (reset_last_pace_result c, fire_abort)

-- `wait` is the case in which the command is sent.
unfoldable pub run_establish_pace_channel : Context → Reaction
unfolding abort password_of reset_pace_passwords
run_establish_pace_channel c =
    if is_error c.status then (c, fire_abort) else elim c.card_connection [
      | none ↦ abort c
      | some k ↦
          if is_empty (password_of c.channel_type c) && k.basic_reader
          then abort (reset_pace_passwords c)
          else (c, wait)
    ]

unfoldable pub is_ok : CardReturnCode → Bool
is_ok ok = true
is_ok _ = false

pub is_ok→≡ : (code : CardReturnCode) → is_ok code ≡ true → code ≡ ok
unfolding is_ok
is_ok→≡ ok e = refl
is_ok→≡ _ e = cc

unfoldable pub has_vanished : CardReturnCode → Bool
has_vanished card_not_found = true
has_vanished retry_allowed = true
has_vanished _ = false

-- CardConnection::callEstablishPaceChannelCommand. The PUK goes through another command.
unfoldable pub note_result : PacePasswordId → CardReturnCode → Connection → Connection
unfolding is_ok
note_result pace_can r k = record k { pace_can_successful = is_ok r }
note_result pace_pin r k = record k {
  pace_pin_successful = is_ok r;
  pace_can_successful = is_ok r && k.pace_can_successful;
}
note_result _ r k = k

unfoldable pub handle_npa_position : ℕ → CardReturnCode → Context → Context
unfolding has_vanished handle_wrong_npa_position set_npa_position_verified
handle_npa_position now r c =
    if has_vanished r then handle_wrong_npa_position now c else set_npa_position_verified c

-- The retry counter that the card is expected to have from now on.
unfoldable pub expect_after_success : PacePasswordId → Context → Context
unfolding reset_pace_passwords
expect_after_success pace_pin c = record c { expected_retry_counter = some 3 }
expect_after_success pace_puk c = record (reset_pace_passwords c) { expected_retry_counter = none }
expect_after_success _ c = c

unfoldable pub succeeded : PacePasswordId → Context → Reaction
unfolding set_last_pace_result
succeeded pace_pin c = (c, fire_pace_channel_established)
succeeded pace_can c =
    (c, if c.can_allowed_mode then fire_pace_channel_established else fire_continue)
succeeded pace_puk c = (set_last_pace_result ok_puk c, fire_pace_channel_inoperative)
succeeded _ c = (c, fire_continue)

-- The old counter tells which try has failed.
abbrev pub wrong_pin : Counter → CardReturnCode
wrong_pin counter =
    if same_counter counter (some 2)
    then invalid_pin_2
    else if same_counter counter (some 1)
    then invalid_pin_3
    else invalid_pin

unfoldable pub wrong_pin_entered : Context → Reaction
unfolding set_last_pace_result
wrong_pin_entered c = elim c.card_connection [
  | none ↦ (c, undefined_behaviour)
  | some k ↦ (set_last_pace_result (wrong_pin k.retry_counter) c, fire_pace_channel_inoperative)
]

unfoldable pub failed : ℕ → Context → Reaction
unfolding is_npa_repositioning_required
failed now c = (
  c,
  if is_npa_repositioning_required now c
      then fire_abort_and_unfortunate_card_position
      else fire_abort,
)

unfoldable pub react : ℕ → CardReturnCode → PacePasswordId → Context → Reaction
unfolding succeeded wrong_pin_entered failed
react now ok id c = succeeded id c
react now puk_inoperative id c = (update_status (to_global_status puk_inoperative) c, fire_abort)
react now cancellation_by_user id c =
    (update_status (to_global_status cancellation_by_user) c, fire_abort)
react now invalid_pin id c = wrong_pin_entered c
react now r id c = failed now c

unfoldable pub note_connection : CardReturnCode → Context → Context
unfolding note_result
note_connection r c = record c {
  card_connection = elim c.card_connection [
    | none ↦ none
    | some k ↦ some (note_result c.channel_type r k)
  ];
}

-- The output of a command with another password than the PUK is kept, of a failed one too.
abbrev pub has_output : PacePasswordId → Bool → Bool
has_output pace_puk before = before
has_output _ before = true

abbrev pub keep_output : PacePasswordId → Context → Context
keep_output id c = record c { pace_output = has_output id c.pace_output }

-- `onEstablishConnectionDone`, at the time `now`, with the connection's note taken before.
unfoldable pub establish_connection_done : ℕ → CardReturnCode → Context → Reaction
unfolding note_connection handle_npa_position expect_after_success react is_ok set_last_pace_result
establish_connection_done now r c =
    let id = c.channel_type in
    let placed =
      handle_npa_position now r
        (set_last_pace_result r (keep_output c.channel_type (note_connection r c))) in
    react now r id (if is_ok r then expect_after_success id placed else placed)
