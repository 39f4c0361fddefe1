-- ===== src/Tests/ECardApiTests.antt =====
-- Conversions of single codes.
use ausweisapp2_android_sdk.Base.{sym, ◌∙◌, ◌≢◌, arith}
use ausweisapp2_android_sdk.Status.{paos_generic_server_error}
use ausweisapp2_android_sdk.ECardApi.Minor.{sal_invalid_key, minor_value}
use ausweisapp2_android_sdk.ECardApi.Maps.{lookup, elements, to_status}
use ausweisapp2_android_sdk.ECardApi.Conversion.{flip, first_code_of, to_status_first}

key_first : first_code_of sal_invalid_key ≢ paos_generic_server_error
unfolding first_code_of lookup flip elements minor_value
key_first e = ground arith

key_not_general : to_status sal_invalid_key ≢ paos_generic_server_error
key_not_general e = key_first (sym (to_status_first sal_invalid_key) ∙ e)
