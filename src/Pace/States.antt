-- ===== src/Pace/States.antt =====
-- The states of src/core/states that CompositeStatePace.cpp joins: what each does when it is run,
-- and when the card command that it waits for is done. A state answers with the context and a
-- signal. AuthContext only adds the certificate description and the CHAT to the command that
-- StateEstablishPaceChannel sends; they change no state and are left out.
use ausweisapp2_android_sdk.Base.{not, ◌||◌, Option, none, some, if◌then◌else◌, is_empty}
use ausweisapp2_android_sdk.Status.{
  CardReturnCode, is_error, to_global_status, undefined, ok, ok_puk, retry_allowed, card_not_found,
  unknown, input_time_out, invalid_can, invalid_pin, invalid_pin_2, invalid_pin_3, invalid_puk,
  command_failed, cancellation_by_user, new_pin_mismatch, new_pin_invalid_length, pin_blocked,
  pin_not_blocked, puk_inoperative, protocol_error, unexpected_transmit_status,
}
use ausweisapp2_android_sdk.Pace.Context.{
  Context, Connection, Counter, Text, PacePasswordId, unknown_id, pace_can, pace_pin, pace_puk,
  same_counter, update_status, reset_pace_passwords, reset_card_connection, reset_last_pace_result,
  set_npa_position_verified, is_expected_reader, remember_reader,
}

-- The signals, with those of the states of ChangePinController. `wait`: the state emits none and waits. `undefined_behaviour`: the code runs into
-- `Q_UNREACHABLE` or follows a null pointer.
pub data Signal : Type 0 where
  fire_continue fire_abort fire_retry fire_no_card_connection : Signal
  fire_force_update_retry_counter fire_enter_pace_password : Signal
  fire_establish_pace_channel fire_pace_channel_established : Signal
  fire_pace_channel_inoperative fire_abort_and_unfortunate_card_position : Signal
  fire_enter_new_pace_pin fire_invalid_pin wait undefined_behaviour : Signal

abbrev pub Reaction : Type 0
Reaction = Context × Signal

-- StateMaintainCardConnection.
unfoldable pub check_connection : Context → Reaction
check_connection c = elim c.card_connection [
  | none ↦ (c, fire_no_card_connection)
  | some k ↦ (c, fire_continue)
]

unfoldable pub abort_with_result : CardReturnCode → Context → Reaction
abort_with_result r c = (update_status (to_global_status r) c, fire_abort)

unfoldable pub forget_passwords : Context → Reaction
unfolding reset_pace_passwords
forget_passwords c =
    let c' = reset_pace_passwords c in
    elim c.card_connection [
      | none ↦ (c', fire_no_card_connection)
      | some k ↦ (c', fire_force_update_retry_counter)
    ]

unfoldable pub maintain_after : CardReturnCode → Context → Reaction
unfolding check_connection abort_with_result forget_passwords reset_card_connection
    reset_last_pace_result
maintain_after cancellation_by_user c = abort_with_result cancellation_by_user c
maintain_after puk_inoperative c = abort_with_result puk_inoperative c
maintain_after input_time_out c = abort_with_result input_time_out c
maintain_after unknown c = abort_with_result unknown c
maintain_after undefined c = abort_with_result undefined c
maintain_after command_failed c = abort_with_result command_failed c
maintain_after protocol_error c = abort_with_result protocol_error c
maintain_after unexpected_transmit_status c = abort_with_result unexpected_transmit_status c
maintain_after invalid_can c = forget_passwords c
maintain_after invalid_pin c = forget_passwords c
maintain_after invalid_pin_2 c = forget_passwords c
maintain_after invalid_pin_3 c = forget_passwords c
maintain_after invalid_puk c = forget_passwords c
maintain_after new_pin_mismatch c = forget_passwords c
maintain_after new_pin_invalid_length c = forget_passwords c
maintain_after pin_not_blocked c = forget_passwords c
maintain_after pin_blocked c = forget_passwords c
maintain_after retry_allowed c = check_connection (reset_last_pace_result (reset_card_connection c))
maintain_after card_not_found c =
    check_connection (reset_last_pace_result (reset_card_connection c))
maintain_after ok c = check_connection c
maintain_after ok_puk c = (reset_last_pace_result c, fire_force_update_retry_counter)

unfoldable pub run_maintain_card_connection : Context → Reaction
unfolding maintain_after
run_maintain_card_connection c =
    if is_error c.status then (c, fire_abort) else maintain_after c.last_pace_result c

-- StateClearPacePasswords.
unfoldable pub run_clear_pace_passwords : Context → Reaction
unfolding reset_pace_passwords
run_clear_pace_passwords c = (reset_pace_passwords c, fire_continue)

-- StateVerifyRetryCounter.
unfoldable pub expect : Counter → Context → Context
unfolding remember_reader
expect counter c = record (remember_reader c) { expected_retry_counter = counter }

unfoldable pub verify : Connection → Context → Context
unfolding expect reset_pace_passwords is_expected_reader
verify k c =
    let c' =
      if not (is_expected_reader c) || not (same_counter c.expected_retry_counter k.retry_counter)
      then expect k.retry_counter (reset_pace_passwords c)
      else c in
    if same_counter c'.expected_retry_counter none then expect k.retry_counter c' else c'

unfoldable pub run_verify_retry_counter : Context → Reaction
unfolding verify
run_verify_retry_counter c = elim c.card_connection [
  | none ↦ (c, fire_abort)
  | some k ↦ (verify k c, fire_continue)
]

-- StatePreparePace.
abbrev pub channel : PacePasswordId → Context → Context
channel id c = record c { channel_type = id }

abbrev pub enter_or_establish : Text → Signal
enter_or_establish password =
    if is_empty password then fire_enter_pace_password else fire_establish_pace_channel

-- `requestPaceCanIfStillRequired`; `none` is its result `false`.
unfoldable pub request_pace_can : Connection → Context → Option Signal
request_pace_can k c = if k.pace_can_successful then none else some (enter_or_establish c.can)

unfoldable pub prepare_pin : Connection → Context → Reaction
prepare_pin k c = (
  channel pace_pin c,
  if k.pace_pin_successful then undefined_behaviour else enter_or_establish c.pin,
)

unfoldable pub prepare : Connection → Context → Reaction
unfolding request_pace_can prepare_pin
prepare k c =
    if c.can_allowed_mode
    then (channel pace_can c, elim (request_pace_can k c) [ none ↦ fire_continue | some s ↦ s ])
    else if same_counter k.retry_counter (some 0)
    then (channel pace_puk c, enter_or_establish c.puk)
    else if same_counter k.retry_counter (some 1)
    then (elim (request_pace_can k c) [ none ↦ prepare_pin k c | some s ↦ (channel pace_can c, s) ])
    else prepare_pin k c

unfoldable pub run_prepare_pace : Context → Reaction
unfolding prepare
run_prepare_pace c = elim c.card_connection [
  | none ↦ (channel unknown_id c, fire_abort)
  | some k ↦ prepare k (channel unknown_id c)
]

-- StateEnterPacePassword.
unfoldable pub run_enter_pace_password : Context → Reaction
run_enter_pace_password c = (c, if is_error c.status then fire_abort else fire_continue)

-- StateUnfortunateCardPosition.
unfoldable pub run_unfortunate_card_position : Context → Reaction
unfolding set_npa_position_verified
run_unfortunate_card_position c = (set_npa_position_verified c, fire_continue)

-- StateUpdateRetryCounter: the command, and its result.
unfoldable pub run_update_retry_counter : Context → Reaction
run_update_retry_counter c = elim c.card_connection [ none ↦ (c, fire_abort) | some k ↦ (c, wait) ]

unfoldable pub update_retry_counter_done : CardReturnCode → Context → Reaction
unfolding reset_card_connection
update_retry_counter_done ok c = (c, fire_continue)
update_retry_counter_done _ c = (reset_card_connection c, fire_abort)

-- StateDestroyPace.
unfoldable pub run_destroy_pace : Context → Reaction
run_destroy_pace c = elim c.card_connection [ none ↦ (c, undefined_behaviour) | some k ↦ (c, wait) ]
