-- ===== src/Status.antt =====
-- src/global/CardReturnCode.h and .cpp, and the codes of src/global/GlobalStatus.h and .cpp.
use ausweisapp2_android_sdk.Base.{Bool, true, false, not, ◌||◌}
pub mod Laws

-- GlobalStatus::Code.
pub data Code : Type 0 where
  unknown_error no_error network_serviceunavailable : Code
  network_ssl_establishment_error network_timeout network_proxy_error : Code
  network_other_error downloader_file_not_found downloader_cannot_save_file : Code
  downloader_data_corrupted workflow_alreadyinprogress_error : Code
  workflow_communication_missing_redirect_url workflow_cancellation_by_user : Code
  workflow_card_removed workflow_cannot_confirm_idcard_authenticity : Code
  workflow_unknown_paos_from_eidserver : Code
  workflow_unexpected_message_from_eidserver : Code
  workflow_preverification_developermode_error workflow_preverification_error : Code
  workflow_no_unique_atcvc workflow_no_unique_dvcvc : Code
  workflow_no_permission_error workflow_certificate_no_description : Code
  workflow_certificate_no_url_in_description workflow_certificate_hash_error : Code
  workflow_certificate_sop_error workflow_error_page_transmission_error : Code
  workflow_redirect_transmission_error workflow_processing_error : Code
  workflow_trustedchannel_establishment_error : Code
  workflow_trustedchannel_error_from_server : Code
  workflow_trustedchannel_hash_not_in_description : Code
  workflow_trustedchannel_no_data_received : Code
  workflow_trustedchannel_ssl_certificate_unsupported_algorithm_or_length : Code
  workflow_trustedchannel_serviceunavailable workflow_trustedchannel_timeout : Code
  workflow_trustedchannel_proxy_error : Code
  workflow_trustedchannel_server_format_error : Code
  workflow_trustedchannel_other_network_error : Code
  workflow_reader_became_inaccessible : Code
  workflow_server_incomplete_information_provided : Code
  workflow_network_ssl_connection_unsupported_algorithm_or_length : Code
  workflow_network_ssl_certificate_unsupported_algorithm_or_length : Code
  workflow_network_ssl_hash_not_in_certificate_description : Code
  workflow_network_empty_redirect_url workflow_network_expected_redirect : Code
  workflow_network_invalid_scheme workflow_network_malformed_redirect_url : Code
  workflow_wrong_parameter_invocation paos_unexpected_warning : Code
  paos_generic_server_error paos_error_al_unknown_error : Code
  paos_error_al_internal_error paos_error_al_communication_error : Code
  paos_error_dp_trusted_channel_establishment_failed : Code
  paos_error_sal_cancellation_by_user paos_error_sal_invalid_key : Code
  workflow_bluetooth_reader_connection_error workflow_reader_device_scan_error : Code
  card_not_found card_communication_error card_protocol_error : Code
  card_unexpected_transmit_status card_cancellation_by_user card_input_timeout : Code
  card_invalid_pin card_invalid_can card_invalid_puk card_pin_blocked : Code
  card_pin_not_blocked card_puk_blocked card_newpin_mismatch : Code
  card_newpin_invalid_length remotereader_closecode_abnormalclose : Code
  remoteconnector_invalidrequest remoteconnector_nosupportedapilevel : Code
  remoteconnector_connectiontimeout remoteconnector_connectionerror : Code
  remoteconnector_remotehostrefusedconnection : Code

-- CardReturnCode, the result of a card command.
pub data CardReturnCode : Type 0 where
  undefined ok ok_puk retry_allowed card_not_found unknown input_time_out : CardReturnCode
  invalid_can invalid_pin invalid_pin_2 invalid_pin_3 invalid_puk : CardReturnCode
  command_failed cancellation_by_user new_pin_mismatch new_pin_invalid_length : CardReturnCode
  pin_blocked pin_not_blocked puk_inoperative protocol_error : CardReturnCode
  unexpected_transmit_status : CardReturnCode

unfoldable pub to_global_status : CardReturnCode → Code
to_global_status ok = no_error
to_global_status ok_puk = no_error
to_global_status undefined = unknown_error
to_global_status unknown = unknown_error
to_global_status card_not_found = card_not_found
to_global_status retry_allowed = card_not_found
to_global_status command_failed = card_communication_error
to_global_status protocol_error = card_protocol_error
to_global_status unexpected_transmit_status = card_unexpected_transmit_status
to_global_status cancellation_by_user = card_cancellation_by_user
to_global_status input_time_out = card_input_timeout
to_global_status invalid_pin = card_invalid_pin
to_global_status invalid_pin_2 = card_invalid_pin
to_global_status invalid_pin_3 = card_invalid_pin
to_global_status invalid_can = card_invalid_can
to_global_status invalid_puk = card_invalid_puk
to_global_status new_pin_mismatch = card_newpin_mismatch
to_global_status new_pin_invalid_length = card_newpin_invalid_length
to_global_status pin_blocked = card_pin_blocked
to_global_status pin_not_blocked = card_pin_not_blocked
to_global_status puk_inoperative = card_puk_blocked

unfoldable pub equals_wrong_pace_password : CardReturnCode → Bool
equals_wrong_pace_password invalid_can = true
equals_wrong_pace_password invalid_pin = true
equals_wrong_pace_password invalid_pin_2 = true
equals_wrong_pace_password invalid_pin_3 = true
equals_wrong_pace_password invalid_puk = true
equals_wrong_pace_password new_pin_mismatch = true
equals_wrong_pace_password new_pin_invalid_length = true
equals_wrong_pace_password pin_not_blocked = true
equals_wrong_pace_password pin_blocked = true
equals_wrong_pace_password undefined = false
equals_wrong_pace_password retry_allowed = false
equals_wrong_pace_password card_not_found = false
equals_wrong_pace_password unknown = false
equals_wrong_pace_password command_failed = false
equals_wrong_pace_password protocol_error = false
equals_wrong_pace_password unexpected_transmit_status = false
equals_wrong_pace_password ok = false
equals_wrong_pace_password ok_puk = false
equals_wrong_pace_password cancellation_by_user = false
equals_wrong_pace_password puk_inoperative = false
equals_wrong_pace_password input_time_out = false

-- GlobalStatus::isNoError, isError and isCancellationByUser, of a status with this code.
unfoldable pub is_no_error : Code → Bool
is_no_error no_error = true
is_no_error _ = false

unfoldable pub is_error : Code → Bool
unfolding is_no_error
is_error c = not (is_no_error c)

unfoldable pub is_cancellation_by_user : Code → Bool
is_cancellation_by_user workflow_cancellation_by_user = true
is_cancellation_by_user card_cancellation_by_user = true
is_cancellation_by_user paos_error_sal_cancellation_by_user = true
is_cancellation_by_user _ = false
