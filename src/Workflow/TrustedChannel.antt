-- ===== src/Workflow/TrustedChannel.antt =====
-- src/core/states/CompositeStateTrustedChannel.cpp: the states of an authentication between the
-- start of the trusted channel and its end, with those of CompositeStateProcessCvcsAndSetRights.cpp
-- in their place, and their transitions.
use ausweisapp2_android_sdk.Base.{Option, none, some}
pub mod Receive
pub mod Ends
pub mod Report
pub mod Extract
pub mod Run

-- `s_state_pace` is the composite state of PACE, whose machine is Pace.Machine. `continued` and
-- `aborted` are not states of the source: the composite state has been left by the signal.
pub data TrustedState : Type 0 where
  s_get_tc_token s_start_paos s_send_start_paos s_initialize_framework : TrustedState
  s_send_initialize_framework_response s_did_list s_send_did_list_response : TrustedState
  s_extract_cvcs_from_eac1_input_type s_pre_verification : TrustedState
  s_certificate_description_check s_check_certificates s_edit_access_rights : TrustedState
  s_state_pace s_clear_pace_passwords s_did_authenticate_eac1 : TrustedState
  s_send_did_authenticate_response_eac1 s_eac_additional_input_type : TrustedState
  s_send_did_authenticate_response_eac_additional_input : TrustedState
  s_process_certificates_from_eac2 s_did_authenticate_eac2 : TrustedState
  s_send_did_authenticate_response_eac2 s_transmit s_send_transmit_response : TrustedState
  s_send_disconnect_response s_start_paos_response s_update_retry_counter_final : TrustedState
  s_clean_up_reader_manager continued aborted : TrustedState

-- `no_signal` is none of the source.
pub data TrustedSignal : Type 0 where
  fire_continue fire_abort fire_received_did_list : TrustedSignal
  fire_received_extract_cvcs_from_eac1_input_type fire_received_start_paos_response : TrustedSignal
  fire_received_disconnect fire_send_did_authenticat_response : TrustedSignal
  fire_pace_channel_established no_signal : TrustedSignal

unfoldable pub trusted_transition : TrustedState → TrustedSignal → Option TrustedState
trusted_transition s_get_tc_token fire_continue = some s_start_paos
trusted_transition s_get_tc_token fire_abort = some s_clean_up_reader_manager
trusted_transition s_start_paos fire_continue = some s_send_start_paos
trusted_transition s_start_paos fire_abort = some s_clean_up_reader_manager
trusted_transition s_send_start_paos fire_continue = some s_initialize_framework
trusted_transition s_send_start_paos fire_abort = some s_clean_up_reader_manager
trusted_transition s_send_start_paos fire_received_did_list = some s_did_list
trusted_transition s_send_start_paos fire_received_extract_cvcs_from_eac1_input_type =
    some s_extract_cvcs_from_eac1_input_type
trusted_transition s_send_start_paos fire_received_start_paos_response = some s_start_paos_response
trusted_transition s_initialize_framework fire_continue = some s_send_initialize_framework_response
trusted_transition s_initialize_framework fire_abort = some s_send_initialize_framework_response
trusted_transition s_send_initialize_framework_response fire_continue = some s_did_list
trusted_transition s_send_initialize_framework_response fire_abort = some s_clean_up_reader_manager
trusted_transition s_send_initialize_framework_response
      fire_received_extract_cvcs_from_eac1_input_type =
    some s_extract_cvcs_from_eac1_input_type
trusted_transition s_send_initialize_framework_response fire_received_start_paos_response =
    some s_start_paos_response
trusted_transition s_did_list fire_continue = some s_send_did_list_response
trusted_transition s_did_list fire_abort = some s_send_did_list_response
trusted_transition s_send_did_list_response fire_continue = some s_extract_cvcs_from_eac1_input_type
trusted_transition s_send_did_list_response fire_abort = some s_clean_up_reader_manager
trusted_transition s_send_did_list_response fire_received_disconnect =
    some s_send_disconnect_response
trusted_transition s_send_did_list_response fire_received_start_paos_response =
    some s_start_paos_response
trusted_transition s_extract_cvcs_from_eac1_input_type fire_continue = some s_pre_verification
trusted_transition s_extract_cvcs_from_eac1_input_type fire_abort =
    some s_send_did_authenticate_response_eac1
trusted_transition s_pre_verification fire_continue = some s_certificate_description_check
trusted_transition s_pre_verification fire_abort = some s_send_did_authenticate_response_eac1
trusted_transition s_certificate_description_check fire_continue = some s_check_certificates
trusted_transition s_certificate_description_check fire_abort =
    some s_send_did_authenticate_response_eac1
trusted_transition s_check_certificates fire_continue = some s_edit_access_rights
trusted_transition s_check_certificates fire_abort = some s_send_did_authenticate_response_eac1
trusted_transition s_edit_access_rights fire_continue = some s_state_pace
trusted_transition s_edit_access_rights fire_abort = some s_send_did_authenticate_response_eac1
trusted_transition s_state_pace fire_pace_channel_established = some s_clear_pace_passwords
trusted_transition s_state_pace fire_abort = some s_send_did_authenticate_response_eac1
trusted_transition s_clear_pace_passwords fire_continue = some s_did_authenticate_eac1
trusted_transition s_clear_pace_passwords fire_abort = some s_did_authenticate_eac1
trusted_transition s_did_authenticate_eac1 fire_continue =
    some s_send_did_authenticate_response_eac1
trusted_transition s_did_authenticate_eac1 fire_abort = some s_send_did_authenticate_response_eac1
trusted_transition s_send_did_authenticate_response_eac1 fire_continue =
    some s_eac_additional_input_type
trusted_transition s_send_did_authenticate_response_eac1 fire_abort =
    some s_update_retry_counter_final
trusted_transition s_send_did_authenticate_response_eac1 fire_received_disconnect =
    some s_send_disconnect_response
trusted_transition s_send_did_authenticate_response_eac1 fire_received_start_paos_response =
    some s_start_paos_response
trusted_transition s_eac_additional_input_type fire_continue = some s_process_certificates_from_eac2
trusted_transition s_eac_additional_input_type fire_abort =
    some s_send_did_authenticate_response_eac_additional_input
trusted_transition s_eac_additional_input_type fire_send_did_authenticat_response =
    some s_send_did_authenticate_response_eac_additional_input
trusted_transition s_send_did_authenticate_response_eac_additional_input fire_continue =
    some s_process_certificates_from_eac2
trusted_transition s_send_did_authenticate_response_eac_additional_input fire_abort =
    some s_update_retry_counter_final
trusted_transition s_send_did_authenticate_response_eac_additional_input
      fire_received_start_paos_response =
    some s_start_paos_response
trusted_transition s_process_certificates_from_eac2 fire_continue = some s_did_authenticate_eac2
trusted_transition s_process_certificates_from_eac2 fire_abort =
    some s_send_did_authenticate_response_eac2
trusted_transition s_did_authenticate_eac2 fire_continue =
    some s_send_did_authenticate_response_eac2
trusted_transition s_did_authenticate_eac2 fire_abort = some s_send_did_authenticate_response_eac2
trusted_transition s_send_did_authenticate_response_eac2 fire_continue = some s_transmit
trusted_transition s_send_did_authenticate_response_eac2 fire_abort =
    some s_update_retry_counter_final
trusted_transition s_send_did_authenticate_response_eac2 fire_received_disconnect =
    some s_send_disconnect_response
trusted_transition s_send_did_authenticate_response_eac2 fire_received_start_paos_response =
    some s_start_paos_response
trusted_transition s_transmit fire_continue = some s_send_transmit_response
trusted_transition s_transmit fire_abort = some s_send_transmit_response
trusted_transition s_send_transmit_response fire_continue = some s_transmit
trusted_transition s_send_transmit_response fire_abort = some s_update_retry_counter_final
trusted_transition s_send_transmit_response fire_received_disconnect =
    some s_send_disconnect_response
trusted_transition s_send_transmit_response fire_received_start_paos_response =
    some s_start_paos_response
trusted_transition s_send_disconnect_response fire_continue = some s_start_paos_response
trusted_transition s_send_disconnect_response fire_abort = some s_update_retry_counter_final
trusted_transition s_start_paos_response fire_continue = some s_update_retry_counter_final
trusted_transition s_start_paos_response fire_abort = some s_update_retry_counter_final
trusted_transition s_update_retry_counter_final fire_continue = some s_clean_up_reader_manager
trusted_transition s_update_retry_counter_final fire_abort = some s_clean_up_reader_manager
trusted_transition s_clean_up_reader_manager fire_continue = some continued
trusted_transition s_clean_up_reader_manager fire_abort = some aborted
trusted_transition _ _ = none
