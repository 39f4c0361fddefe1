-- ===== src/Workflow/TrustedChannel/Receive.antt =====
-- src/core/states/StateGenericSendReceive.cpp and .h: what becomes of the message that the server
-- sends as its answer, and src/core/paos/PaosType.h. The answer of the network is an event.
use ausweisapp2_android_sdk.Base.{
  ℕ, zero, suc, ◌+◌, Bool, true, false, List, [], ◌∷◌, Option, none, some, leb, ◌==◌, if◌then◌else◌,
  ◌≡◌, refl,
}
use ausweisapp2_android_sdk.Status.{
  Code, workflow_trustedchannel_error_from_server, workflow_unexpected_message_from_eidserver,
  workflow_unknown_paos_from_eidserver,
}
use ausweisapp2_android_sdk.Pace.Context.{Context, update_status}
use ausweisapp2_android_sdk.Workflow.TrustedChannel.{
  TrustedState, TrustedSignal, trusted_transition, s_send_start_paos, s_initialize_framework,
  s_send_initialize_framework_response, s_did_list, s_send_did_list_response,
  s_extract_cvcs_from_eac1_input_type, s_send_did_authenticate_response_eac1,
  s_eac_additional_input_type, s_send_did_authenticate_response_eac_additional_input,
  s_process_certificates_from_eac2, s_send_did_authenticate_response_eac2, s_transmit,
  s_send_transmit_response, s_send_disconnect_response, s_start_paos_response, fire_continue,
  fire_abort, fire_received_did_list, fire_received_extract_cvcs_from_eac1_input_type,
  fire_received_start_paos_response, fire_received_disconnect, no_signal,
}
pub mod Handled

pub data PaosType : Type 0 where
  unknown startpaos startpaos_response initialize_framework : PaosType
  initialize_framework_response did_list did_list_response did_authenticate_eac1 : PaosType
  did_authenticate_response_eac1 did_authenticate_eac2 did_authenticate_response_eac2 : PaosType
  did_authenticate_eac_additional_input_type transmit transmit_response disconnect : PaosType
  disconnect_response : PaosType

unfoldable pub paos_value : PaosType → ℕ
paos_value unknown = 0
paos_value startpaos = 1
paos_value startpaos_response = 2
paos_value initialize_framework = 3
paos_value initialize_framework_response = 4
paos_value did_list = 5
paos_value did_list_response = 6
paos_value did_authenticate_eac1 = 7
paos_value did_authenticate_response_eac1 = 8
paos_value did_authenticate_eac2 = 9
paos_value did_authenticate_response_eac2 = 10
paos_value did_authenticate_eac_additional_input_type = 11
paos_value transmit = 12
paos_value transmit_response = 13
paos_value disconnect = 14
paos_value disconnect_response = 15

-- `mTypesToReceive`; the states that send nothing have none.
unfoldable pub types_to_receive : TrustedState → List PaosType
types_to_receive s_send_start_paos =
    initialize_framework ∷ did_list ∷ did_authenticate_eac1 ∷ startpaos_response ∷ []
types_to_receive s_send_initialize_framework_response =
    did_list ∷ did_authenticate_eac1 ∷ startpaos_response ∷ []
types_to_receive s_send_did_list_response =
    did_authenticate_eac1 ∷ disconnect ∷ startpaos_response ∷ []
types_to_receive s_send_did_authenticate_response_eac1 =
    did_authenticate_eac2 ∷ disconnect ∷ startpaos_response ∷ []
types_to_receive s_send_did_authenticate_response_eac_additional_input =
    did_authenticate_eac_additional_input_type ∷ startpaos_response ∷ []
types_to_receive s_send_did_authenticate_response_eac2 =
    transmit ∷ disconnect ∷ startpaos_response ∷ []
types_to_receive s_send_transmit_response = transmit ∷ disconnect ∷ startpaos_response ∷ []
types_to_receive s_send_disconnect_response = startpaos_response ∷ []
types_to_receive _ = []

unfoldable pub emit_state_machine_signal : TrustedState → ℕ → TrustedSignal
emit_state_machine_signal s_send_start_paos result =
    if result == 3
    then fire_received_did_list
    else if result == 4
    then fire_received_extract_cvcs_from_eac1_input_type
    else if result == 5
    then fire_received_start_paos_response
    else no_signal
emit_state_machine_signal s_send_initialize_framework_response result =
    if result == 3
    then fire_received_extract_cvcs_from_eac1_input_type
    else if result == 4
    then fire_received_start_paos_response
    else no_signal
emit_state_machine_signal s_send_did_authenticate_response_eac_additional_input result =
    if result == 3 then fire_received_start_paos_response else no_signal
emit_state_machine_signal s_send_disconnect_response result = no_signal
emit_state_machine_signal _ result =
    if result == 3
    then fire_received_disconnect
    else if result == 4
    then fire_received_start_paos_response
    else no_signal

-- QVector::indexOf.
unfoldable pub index_of : PaosType → List PaosType → Option ℕ
unfolding paos_value
index_of t [] = none
index_of t (u ∷ types) =
    let rest = index_of t types in
    if paos_value u == paos_value t
    then some zero
    else elim rest [ none ↦ none | some i ↦ some (suc i) ]

-- The index of a type that is expected.
unfoldable pub next_signal : TrustedState → ℕ → TrustedSignal
unfolding emit_state_machine_signal
next_signal s index =
    if index == 0
    then fire_continue
    else let result = index + 2 in
      if result == 1
      then fire_abort
      else if result == 2
      then fire_abort
      else emit_state_machine_signal s result

-- The network's error, as toTrustedChannelStatus says it, or an HTTP status with a message.
pub data Reply : Type 0 where
  network_failed : Code → Reply
  received : ℕ → PaosType → Reply

abbrev pub unexpected_status : PaosType → Code
unexpected_status unknown = workflow_unknown_paos_from_eidserver
unexpected_status _ = workflow_unexpected_message_from_eidserver

unfoldable pub on_reply_finished : TrustedState → Reply → Context → Context × TrustedSignal
unfolding update_status types_to_receive index_of next_signal
on_reply_finished s (network_failed code) c = (update_status code c, fire_abort)
on_reply_finished s (received status_code t) c =
    if leb 500 status_code
    then (update_status workflow_trustedchannel_error_from_server c, fire_abort)
    else if leb 400 status_code
    then (update_status workflow_unexpected_message_from_eidserver c, fire_abort)
    else elim (index_of t (types_to_receive s)) [
      | none ↦ (update_status (unexpected_status t) c, fire_abort)
      | some i ↦ (c, next_signal s i)
    ]
