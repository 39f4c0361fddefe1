-- ===== src/ECardApi/Minor.antt =====
-- The minor results of src/global/ECardApiResult.h, and the values of the enumerators by which the
-- maps of ECardApiResult.cpp compare their keys.
use ausweisapp2_android_sdk.Base.{ℕ}
use ausweisapp2_android_sdk.Status.{
  Code, unknown_error, no_error, network_serviceunavailable, network_ssl_establishment_error,
  network_timeout, network_proxy_error, network_other_error, downloader_file_not_found,
  downloader_cannot_save_file, downloader_data_corrupted, workflow_alreadyinprogress_error,
  workflow_communication_missing_redirect_url, workflow_cancellation_by_user, workflow_card_removed,
  workflow_cannot_confirm_idcard_authenticity, workflow_unknown_paos_from_eidserver,
  workflow_unexpected_message_from_eidserver, workflow_preverification_developermode_error,
  workflow_preverification_error, workflow_no_unique_atcvc, workflow_no_unique_dvcvc,
  workflow_no_permission_error, workflow_certificate_no_description,
  workflow_certificate_no_url_in_description, workflow_certificate_hash_error,
  workflow_certificate_sop_error, workflow_error_page_transmission_error,
  workflow_redirect_transmission_error, workflow_processing_error,
  workflow_trustedchannel_establishment_error, workflow_trustedchannel_error_from_server,
  workflow_trustedchannel_hash_not_in_description, workflow_trustedchannel_no_data_received,
  workflow_trustedchannel_ssl_certificate_unsupported_algorithm_or_length,
  workflow_trustedchannel_serviceunavailable, workflow_trustedchannel_timeout,
  workflow_trustedchannel_proxy_error, workflow_trustedchannel_server_format_error,
  workflow_trustedchannel_other_network_error, workflow_reader_became_inaccessible,
  workflow_server_incomplete_information_provided,
  workflow_network_ssl_connection_unsupported_algorithm_or_length,
  workflow_network_ssl_certificate_unsupported_algorithm_or_length,
  workflow_network_ssl_hash_not_in_certificate_description, workflow_network_empty_redirect_url,
  workflow_network_expected_redirect, workflow_network_invalid_scheme,
  workflow_network_malformed_redirect_url, workflow_wrong_parameter_invocation,
  paos_unexpected_warning, paos_generic_server_error, paos_error_al_unknown_error,
  paos_error_al_internal_error, paos_error_al_communication_error,
  paos_error_dp_trusted_channel_establishment_failed, paos_error_sal_cancellation_by_user,
  paos_error_sal_invalid_key, workflow_bluetooth_reader_connection_error,
  workflow_reader_device_scan_error, card_not_found, card_communication_error, card_protocol_error,
  card_unexpected_transmit_status, card_cancellation_by_user, card_input_timeout, card_invalid_pin,
  card_invalid_can, card_invalid_puk, card_pin_blocked, card_pin_not_blocked, card_puk_blocked,
  card_newpin_mismatch, card_newpin_invalid_length, remotereader_closecode_abnormalclose,
  remoteconnector_invalidrequest, remoteconnector_nosupportedapilevel,
  remoteconnector_connectiontimeout, remoteconnector_connectionerror,
  remoteconnector_remotehostrefusedconnection,
}

pub data Minor : Type 0 where
  null al_unknown_error al_no_permission al_internal_error al_parameter_error : Minor
  al_unkown_api_function al_not_initialized al_warning_connection_disconnected : Minor
  al_session_terminated_warning al_communication_error dp_timeout_error : Minor
  dp_unknown_channel_handle dp_communication_error : Minor
  dp_trusted_channel_establishment_failed dp_unknown_protocol : Minor
  dp_unknown_cipher_suite dp_unknown_webservice_binding dp_node_not_reachable : Minor
  ifdl_timeout_error ifdl_unknownslot ifdl_invalidslothandle ifdl_cancellationbyuser : Minor
  ifdl_ifd_sharingviolation ifdl_terminal_nocard ifdl_io_repeateddatamismatch : Minor
  ifdl_io_unknownpinformat il_signature_invalidcertificatepath : Minor
  key_keygenerationnotpossible sal_cancellation_by_user sal_invalid_key : Minor
  sal_securityconditionnotsatisfied sal_meac_ageverificationfailedwarning : Minor
  sal_meac_communityverificationfailedwarning : Minor
  sal_meac_documentvalidityverificationfailed : Minor

unfoldable pub code_value : Code → ℕ
code_value unknown_error = 0
code_value no_error = 1
code_value network_serviceunavailable = 2
code_value network_ssl_establishment_error = 3
code_value network_timeout = 4
code_value network_proxy_error = 5
code_value network_other_error = 6
code_value downloader_file_not_found = 7
code_value downloader_cannot_save_file = 8
code_value downloader_data_corrupted = 9
code_value workflow_alreadyinprogress_error = 10
code_value workflow_communication_missing_redirect_url = 11
code_value workflow_cancellation_by_user = 12
code_value workflow_card_removed = 13
code_value workflow_cannot_confirm_idcard_authenticity = 14
code_value workflow_unknown_paos_from_eidserver = 15
code_value workflow_unexpected_message_from_eidserver = 16
code_value workflow_preverification_developermode_error = 17
code_value workflow_preverification_error = 18
code_value workflow_no_unique_atcvc = 19
code_value workflow_no_unique_dvcvc = 20
code_value workflow_no_permission_error = 21
code_value workflow_certificate_no_description = 22
code_value workflow_certificate_no_url_in_description = 23
code_value workflow_certificate_hash_error = 24
code_value workflow_certificate_sop_error = 25
code_value workflow_error_page_transmission_error = 26
code_value workflow_redirect_transmission_error = 27
code_value workflow_processing_error = 28
code_value workflow_trustedchannel_establishment_error = 29
code_value workflow_trustedchannel_error_from_server = 30
code_value workflow_trustedchannel_hash_not_in_description = 31
code_value workflow_trustedchannel_no_data_received = 32
code_value workflow_trustedchannel_ssl_certificate_unsupported_algorithm_or_length = 33
code_value workflow_trustedchannel_serviceunavailable = 34
code_value workflow_trustedchannel_timeout = 35
code_value workflow_trustedchannel_proxy_error = 36
code_value workflow_trustedchannel_server_format_error = 37
code_value workflow_trustedchannel_other_network_error = 38
code_value workflow_reader_became_inaccessible = 39
code_value workflow_server_incomplete_information_provided = 40
code_value workflow_network_ssl_connection_unsupported_algorithm_or_length = 41
code_value workflow_network_ssl_certificate_unsupported_algorithm_or_length = 42
code_value workflow_network_ssl_hash_not_in_certificate_description = 43
code_value workflow_network_empty_redirect_url = 44
code_value workflow_network_expected_redirect = 45
code_value workflow_network_invalid_scheme = 46
code_value workflow_network_malformed_redirect_url = 47
code_value workflow_wrong_parameter_invocation = 48
code_value paos_unexpected_warning = 49
code_value paos_generic_server_error = 50
code_value paos_error_al_unknown_error = 51
code_value paos_error_al_internal_error = 52
code_value paos_error_al_communication_error = 53
code_value paos_error_dp_trusted_channel_establishment_failed = 54
code_value paos_error_sal_cancellation_by_user = 55
code_value paos_error_sal_invalid_key = 56
code_value workflow_bluetooth_reader_connection_error = 57
code_value workflow_reader_device_scan_error = 58
code_value card_not_found = 59
code_value card_communication_error = 60
code_value card_protocol_error = 61
code_value card_unexpected_transmit_status = 62
code_value card_cancellation_by_user = 63
code_value card_input_timeout = 64
code_value card_invalid_pin = 65
code_value card_invalid_can = 66
code_value card_invalid_puk = 67
code_value card_pin_blocked = 68
code_value card_pin_not_blocked = 69
code_value card_puk_blocked = 70
code_value card_newpin_mismatch = 71
code_value card_newpin_invalid_length = 72
code_value remotereader_closecode_abnormalclose = 73
code_value remoteconnector_invalidrequest = 74
code_value remoteconnector_nosupportedapilevel = 75
code_value remoteconnector_connectiontimeout = 76
code_value remoteconnector_connectionerror = 77
code_value remoteconnector_remotehostrefusedconnection = 78

unfoldable pub minor_value : Minor → ℕ
minor_value null = 0
minor_value al_unknown_error = 1
minor_value al_no_permission = 2
minor_value al_internal_error = 3
minor_value al_parameter_error = 4
minor_value al_unkown_api_function = 5
minor_value al_not_initialized = 6
minor_value al_warning_connection_disconnected = 7
minor_value al_session_terminated_warning = 8
minor_value al_communication_error = 9
minor_value dp_timeout_error = 10
minor_value dp_unknown_channel_handle = 11
minor_value dp_communication_error = 12
minor_value dp_trusted_channel_establishment_failed = 13
minor_value dp_unknown_protocol = 14
minor_value dp_unknown_cipher_suite = 15
minor_value dp_unknown_webservice_binding = 16
minor_value dp_node_not_reachable = 17
minor_value ifdl_timeout_error = 18
minor_value ifdl_unknownslot = 19
minor_value ifdl_invalidslothandle = 20
minor_value ifdl_cancellationbyuser = 21
minor_value ifdl_ifd_sharingviolation = 22
minor_value ifdl_terminal_nocard = 23
minor_value ifdl_io_repeateddatamismatch = 24
minor_value ifdl_io_unknownpinformat = 25
minor_value il_signature_invalidcertificatepath = 26
minor_value key_keygenerationnotpossible = 27
minor_value sal_cancellation_by_user = 28
minor_value sal_invalid_key = 29
minor_value sal_securityconditionnotsatisfied = 30
minor_value sal_meac_ageverificationfailedwarning = 31
minor_value sal_meac_communityverificationfailedwarning = 32
minor_value sal_meac_documentvalidityverificationfailed = 33
