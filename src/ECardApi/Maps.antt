-- ===== src/ECardApi/Maps.antt =====
-- The conversion maps of src/global/ECardApiResult.cpp.
use ausweisapp2_android_sdk.Base.{
  ◌==◌, if◌then◌else◌, ℕ, Bool, true, false, Option, none, some, List, [], ◌∷◌,
}
use ausweisapp2_android_sdk.Status.{
  Code, unknown_error, no_error, network_serviceunavailable, network_ssl_establishment_error,
  network_timeout, network_proxy_error, network_other_error, downloader_file_not_found,
  downloader_cannot_save_file, downloader_data_corrupted, workflow_alreadyinprogress_error,
  workflow_communication_missing_redirect_url, workflow_cancellation_by_user, workflow_card_removed,
  workflow_cannot_confirm_idcard_authenticity, workflow_unknown_paos_from_eidserver,
  workflow_unexpected_message_from_eidserver, workflow_preverification_developermode_error,
  workflow_preverification_error, workflow_no_unique_atcvc, workflow_no_unique_dvcvc,
  workflow_no_permission_error, workflow_certificate_no_description,
  workflow_certificate_no_url_in_description, workflow_certificate_hash_error,
  workflow_certificate_sop_error, workflow_error_page_transmission_error,
  workflow_redirect_transmission_error, workflow_processing_error,
  workflow_trustedchannel_establishment_error, workflow_trustedchannel_error_from_server,
  workflow_trustedchannel_hash_not_in_description, workflow_trustedchannel_no_data_received,
  workflow_trustedchannel_ssl_certificate_unsupported_algorithm_or_length,
  workflow_trustedchannel_serviceunavailable, workflow_trustedchannel_timeout,
  workflow_trustedchannel_proxy_error, workflow_trustedchannel_server_format_error,
  workflow_trustedchannel_other_network_error, workflow_reader_became_inaccessible,
  workflow_server_incomplete_information_provided,
  workflow_network_ssl_connection_unsupported_algorithm_or_length,
  workflow_network_ssl_certificate_unsupported_algorithm_or_length,
  workflow_network_ssl_hash_not_in_certificate_description, workflow_network_empty_redirect_url,
  workflow_network_expected_redirect, workflow_network_invalid_scheme,
  workflow_network_malformed_redirect_url, workflow_wrong_parameter_invocation,
  paos_unexpected_warning, paos_generic_server_error, paos_error_al_unknown_error,
  paos_error_al_internal_error, paos_error_al_communication_error,
  paos_error_dp_trusted_channel_establishment_failed, paos_error_sal_cancellation_by_user,
  paos_error_sal_invalid_key, workflow_bluetooth_reader_connection_error,
  workflow_reader_device_scan_error, card_not_found, card_communication_error, card_protocol_error,
  card_unexpected_transmit_status, card_cancellation_by_user, card_input_timeout, card_invalid_pin,
  card_invalid_can, card_invalid_puk, card_pin_blocked, card_pin_not_blocked, card_puk_blocked,
  card_newpin_mismatch, card_newpin_invalid_length, remotereader_closecode_abnormalclose,
  remoteconnector_invalidrequest, remoteconnector_nosupportedapilevel,
  remoteconnector_connectiontimeout, remoteconnector_connectionerror,
  remoteconnector_remotehostrefusedconnection,
}
use ausweisapp2_android_sdk.ECardApi.Minor.{
  Minor, null, al_unknown_error, al_no_permission, al_internal_error, al_parameter_error,
  al_unkown_api_function, al_not_initialized, al_warning_connection_disconnected,
  al_session_terminated_warning, al_communication_error, dp_timeout_error,
  dp_unknown_channel_handle, dp_communication_error, dp_trusted_channel_establishment_failed,
  dp_unknown_protocol, dp_unknown_cipher_suite, dp_unknown_webservice_binding,
  dp_node_not_reachable, ifdl_timeout_error, ifdl_unknownslot, ifdl_invalidslothandle,
  ifdl_cancellationbyuser, ifdl_ifd_sharingviolation, ifdl_terminal_nocard,
  ifdl_io_repeateddatamismatch, ifdl_io_unknownpinformat, il_signature_invalidcertificatepath,
  key_keygenerationnotpossible, sal_cancellation_by_user, sal_invalid_key,
  sal_securityconditionnotsatisfied, sal_meac_ageverificationfailedwarning,
  sal_meac_communityverificationfailedwarning, sal_meac_documentvalidityverificationfailed,
  code_value, minor_value,
}

-- The first entry with this key; the keys are compared by their values.
unfoldable pub lookup {ℓ ℓ'} : {K : Type ℓ} {A : Type ℓ'} → (K → ℕ) → K → List (K × A) → Option A
lookup value k [] = none
lookup value k ((k', a) ∷ entries) =
    let rest = lookup value k entries in if value k' == value k then some a else rest

unfoldable pub contains {ℓ ℓ'} : {K : Type ℓ} {A : Type ℓ'} → (K → ℕ) → K → List (K × A) → Bool
unfolding lookup
contains value k entries = elim (lookup value k entries) [ none ↦ false | some a ↦ true ]

unfoldable pub insert {ℓ ℓ'} :
    {K : Type ℓ} {A : Type ℓ'} → (K → ℕ) → K → A → List (K × A) → List (K × A)
unfolding contains
insert value k a entries = if contains value k entries then entries else (k, a) ∷ entries

-- `cConversionMap1` and `cConversionMap2`.
abbrev pub Maps : Type 0
Maps = List (Code × Minor) × List (Minor × Code)

unfoldable pub add_conversion_element : Code → Minor → Maps → Maps
unfolding insert
add_conversion_element c m (map1, map2) = (insert code_value c m map1, insert minor_value m c map2)

-- The calls in `initConversionMaps`, in their order.
unfoldable pub elements : List (Code × Minor)
elements =
    (paos_error_al_unknown_error, al_unknown_error)
    ∷ (paos_unexpected_warning, al_unknown_error)
    ∷ (unknown_error, al_unknown_error)
    ∷ (card_unexpected_transmit_status, al_unknown_error)
    ∷ (no_error, null)
    ∷ (workflow_card_removed, ifdl_cancellationbyuser)
    ∷ (workflow_no_unique_dvcvc, il_signature_invalidcertificatepath)
    ∷ (workflow_no_unique_atcvc, il_signature_invalidcertificatepath)
    ∷ (workflow_preverification_error, il_signature_invalidcertificatepath)
    ∷ (workflow_preverification_developermode_error, il_signature_invalidcertificatepath)
    ∷ (workflow_certificate_no_description, al_parameter_error)
    ∷ (workflow_certificate_no_url_in_description, al_parameter_error)
    ∷ (workflow_certificate_hash_error, al_parameter_error)
    ∷ (workflow_certificate_sop_error, al_parameter_error)
    ∷ (paos_error_dp_trusted_channel_establishment_failed, dp_trusted_channel_establishment_failed)
    ∷ (workflow_trustedchannel_establishment_error, dp_trusted_channel_establishment_failed)
    ∷ (workflow_trustedchannel_error_from_server, dp_trusted_channel_establishment_failed)
    ∷ (workflow_trustedchannel_hash_not_in_description, dp_trusted_channel_establishment_failed)
    ∷ (workflow_trustedchannel_no_data_received, dp_trusted_channel_establishment_failed)
    ∷ (
      workflow_trustedchannel_ssl_certificate_unsupported_algorithm_or_length,
      dp_trusted_channel_establishment_failed,
    )
    ∷ (workflow_trustedchannel_serviceunavailable, dp_trusted_channel_establishment_failed)
    ∷ (workflow_trustedchannel_timeout, dp_trusted_channel_establishment_failed)
    ∷ (workflow_trustedchannel_proxy_error, dp_trusted_channel_establishment_failed)
    ∷ (workflow_trustedchannel_establishment_error, dp_trusted_channel_establishment_failed)
    ∷ (workflow_trustedchannel_server_format_error, dp_trusted_channel_establishment_failed)
    ∷ (workflow_trustedchannel_other_network_error, dp_trusted_channel_establishment_failed)
    ∷ (paos_error_sal_cancellation_by_user, sal_cancellation_by_user)
    ∷ (workflow_cancellation_by_user, sal_cancellation_by_user)
    ∷ (card_cancellation_by_user, sal_cancellation_by_user)
    ∷ (workflow_no_permission_error, al_no_permission)
    ∷ (paos_error_al_communication_error, al_communication_error)
    ∷ (workflow_communication_missing_redirect_url, al_communication_error)
    ∷ (workflow_error_page_transmission_error, al_communication_error)
    ∷ (workflow_redirect_transmission_error, al_communication_error)
    ∷ (workflow_processing_error, al_communication_error)
    ∷ (workflow_reader_became_inaccessible, al_communication_error)
    ∷ (workflow_bluetooth_reader_connection_error, al_communication_error)
    ∷ (workflow_reader_device_scan_error, al_communication_error)
    ∷ (workflow_server_incomplete_information_provided, al_communication_error)
    ∷ (network_ssl_establishment_error, al_communication_error)
    ∷ (workflow_network_ssl_connection_unsupported_algorithm_or_length, al_communication_error)
    ∷ (workflow_network_ssl_certificate_unsupported_algorithm_or_length, al_communication_error)
    ∷ (workflow_network_ssl_hash_not_in_certificate_description, al_communication_error)
    ∷ (workflow_network_empty_redirect_url, al_communication_error)
    ∷ (workflow_network_expected_redirect, al_communication_error)
    ∷ (workflow_network_invalid_scheme, al_communication_error)
    ∷ (workflow_network_malformed_redirect_url, al_communication_error)
    ∷ (network_serviceunavailable, al_communication_error)
    ∷ (network_timeout, al_communication_error)
    ∷ (network_proxy_error, al_communication_error)
    ∷ (network_other_error, al_communication_error)
    ∷ (workflow_wrong_parameter_invocation, al_communication_error)
    ∷ (card_invalid_pin, al_communication_error)
    ∷ (card_invalid_can, al_communication_error)
    ∷ (card_invalid_puk, al_communication_error)
    ∷ (card_puk_blocked, al_communication_error)
    ∷ (card_newpin_invalid_length, al_unknown_error)
    ∷ (workflow_alreadyinprogress_error, al_unknown_error)
    ∷ (card_not_found, al_unknown_error)
    ∷ (card_communication_error, al_unknown_error)
    ∷ (card_input_timeout, al_unknown_error)
    ∷ (card_pin_blocked, al_unknown_error)
    ∷ (card_pin_not_blocked, al_unknown_error)
    ∷ (card_newpin_mismatch, al_unknown_error)
    ∷ (paos_error_al_internal_error, al_internal_error)
    ∷ (workflow_cannot_confirm_idcard_authenticity, al_internal_error)
    ∷ (workflow_unknown_paos_from_eidserver, al_internal_error)
    ∷ (workflow_unexpected_message_from_eidserver, al_internal_error)
    ∷ (card_protocol_error, al_internal_error)
    ∷ (paos_generic_server_error, al_unkown_api_function)
    ∷ (paos_generic_server_error, al_not_initialized)
    ∷ (paos_generic_server_error, al_warning_connection_disconnected)
    ∷ (paos_generic_server_error, al_session_terminated_warning)
    ∷ (paos_generic_server_error, dp_timeout_error)
    ∷ (paos_generic_server_error, dp_unknown_channel_handle)
    ∷ (paos_generic_server_error, dp_communication_error)
    ∷ (paos_generic_server_error, dp_unknown_protocol)
    ∷ (paos_generic_server_error, dp_unknown_cipher_suite)
    ∷ (paos_generic_server_error, dp_unknown_webservice_binding)
    ∷ (paos_generic_server_error, dp_node_not_reachable)
    ∷ (paos_generic_server_error, ifdl_timeout_error)
    ∷ (paos_generic_server_error, ifdl_unknownslot)
    ∷ (paos_generic_server_error, ifdl_invalidslothandle)
    ∷ (paos_generic_server_error, ifdl_ifd_sharingviolation)
    ∷ (paos_generic_server_error, ifdl_terminal_nocard)
    ∷ (paos_generic_server_error, ifdl_io_repeateddatamismatch)
    ∷ (paos_generic_server_error, ifdl_io_unknownpinformat)
    ∷ (paos_generic_server_error, key_keygenerationnotpossible)
    ∷ (paos_generic_server_error, il_signature_invalidcertificatepath)
    ∷ (paos_generic_server_error, sal_securityconditionnotsatisfied)
    ∷ (paos_generic_server_error, sal_meac_ageverificationfailedwarning)
    ∷ (paos_generic_server_error, sal_meac_communityverificationfailedwarning)
    ∷ (paos_generic_server_error, sal_meac_documentvalidityverificationfailed)
    ∷ (paos_error_sal_invalid_key, sal_invalid_key)
    ∷ (downloader_data_corrupted, al_unknown_error)
    ∷ (remotereader_closecode_abnormalclose, al_unknown_error)
    ∷ (remoteconnector_invalidrequest, al_unknown_error)
    ∷ (remoteconnector_nosupportedapilevel, al_unknown_error)
    ∷ (remoteconnector_connectiontimeout, al_unknown_error)
    ∷ (remoteconnector_connectionerror, al_unknown_error)
    ∷ (remoteconnector_remotehostrefusedconnection, al_unknown_error)
    ∷ (downloader_file_not_found, al_unknown_error)
    ∷ (downloader_cannot_save_file, al_unknown_error)
    ∷ []

unfoldable pub add_all : List (Code × Minor) → Maps → Maps
unfolding add_conversion_element
add_all [] maps = maps
add_all ((c, m) ∷ rest) maps = add_all rest (add_conversion_element c m maps)

unfoldable pub init_conversion_maps : Maps
unfolding add_all elements
init_conversion_maps = add_all elements ([], [])

unfoldable pub from_status : Code → Minor
unfolding lookup init_conversion_maps
from_status c = elim (lookup code_value c init_conversion_maps.0) [
  | none ↦ al_unknown_error
  | some m ↦ m
]

unfoldable pub to_status : Minor → Code
unfolding lookup init_conversion_maps
to_status m = elim (lookup minor_value m init_conversion_maps.1) [
  | none ↦ unknown_error
  | some c ↦ c
]
