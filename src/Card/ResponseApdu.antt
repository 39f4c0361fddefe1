-- ===== src/Card/ResponseApdu.antt =====
-- src/card/base/ResponseApdu.h and .cpp: response APDUs. A response is its buffer, a list of bytes.
use ausweisapp2_android_sdk.Base.{
  ℕ, ◌+◌, ◌-◌, ◌*◌, ◌/◌, ◌%◌, Bool, true, false, List, [], ◌∷◌, Option, none, some, ltb, ◌==◌,
  if◌then◌else◌, length, get_or, take, right, is_empty,
}
use ausweisapp2_android_sdk.Status.{
  CardReturnCode, ok, input_time_out, cancellation_by_user, new_pin_mismatch,
  new_pin_invalid_length, protocol_error,
}
pub mod Laws

-- The enumerators in the order of the source; NOT_YET_INITIALIZED has the value of NO_PARENT_FILE
-- and is no constructor of its own.
pub data StatusCode : Type 0 where
  empty invalid success no_pkcs15_app end_of_file pin_deactivated : StatusCode
  fci_no_iso7816_4 verification_failed input_timeout input_cancelled : StatusCode
  passwords_differ password_outof_range card_ejected_and_reinserted : StatusCode
  eeprom_cell_defect security_environment wrong_length no_binary_file : StatusCode
  last_chain_cmd_expected access_denied password_counter_expired : StatusCode
  directory_or_password_locked_or_not_allowed no_parent_file : StatusCode
  no_current_directory_selected datafield_expected invalid_sm_objects : StatusCode
  command_not_allowed invalid_datafield algorithm_id file_not_found : StatusCode
  record_not_found invalid_parameter lc_inconsistant password_not_found : StatusCode
  illegal_offset unsupported_cla cant_display invalid_p1p2 unsupported_ins : StatusCode
  pin_blocked pin_suspended pin_retry_count_2 : StatusCode

unfoldable pub value : StatusCode → ℕ
value empty = 0x0000
value invalid = 0x0001
value success = 0x9000
value no_pkcs15_app = 0x6200
value end_of_file = 0x6282
value pin_deactivated = 0x6283
value fci_no_iso7816_4 = 0x6284
value verification_failed = 0x6300
value input_timeout = 0x6400
value input_cancelled = 0x6401
value passwords_differ = 0x6402
value password_outof_range = 0x6403
value card_ejected_and_reinserted = 0x64a2
value eeprom_cell_defect = 0x6581
value security_environment = 0x6600
value wrong_length = 0x6700
value no_binary_file = 0x6981
value last_chain_cmd_expected = 0x6883
value access_denied = 0x6982
value password_counter_expired = 0x6983
value directory_or_password_locked_or_not_allowed = 0x6984
value no_parent_file = 0x6985
value no_current_directory_selected = 0x6986
value datafield_expected = 0x6987
value invalid_sm_objects = 0x6988
value command_not_allowed = 0x69f0
value invalid_datafield = 0x6a80
value algorithm_id = 0x6a81
value file_not_found = 0x6a82
value record_not_found = 0x6a83
value invalid_parameter = 0x6a86
value lc_inconsistant = 0x6a87
value password_not_found = 0x6a88
value illegal_offset = 0x6b00
value unsupported_cla = 0x6e00
value cant_display = 0x6410
value invalid_p1p2 = 0x6a00
value unsupported_ins = 0x6d00
value pin_blocked = 0x63c0
value pin_suspended = 0x63c1
value pin_retry_count_2 = 0x63c2

abbrev pub status_codes : List StatusCode
status_codes =
    empty ∷ invalid ∷ success ∷ no_pkcs15_app ∷ end_of_file ∷ pin_deactivated ∷ fci_no_iso7816_4
    ∷ verification_failed ∷ input_timeout ∷ input_cancelled ∷ passwords_differ
    ∷ password_outof_range ∷ card_ejected_and_reinserted ∷ eeprom_cell_defect ∷ security_environment
    ∷ wrong_length ∷ no_binary_file ∷ last_chain_cmd_expected ∷ access_denied
    ∷ password_counter_expired ∷ directory_or_password_locked_or_not_allowed ∷ no_parent_file
    ∷ no_current_directory_selected ∷ datafield_expected ∷ invalid_sm_objects ∷ command_not_allowed
    ∷ invalid_datafield ∷ algorithm_id ∷ file_not_found ∷ record_not_found ∷ invalid_parameter
    ∷ lc_inconsistant ∷ password_not_found ∷ illegal_offset ∷ unsupported_cla ∷ cant_display
    ∷ invalid_p1p2 ∷ unsupported_ins ∷ pin_blocked ∷ pin_suspended ∷ pin_retry_count_2 ∷ []

pub data Sw1 : Type 0 where
  invalid more_data_available nonvolatile_memory_unchanged_1 : Sw1
  nonvolatile_memory_changed_1 nonvolatile_memory_unchanged_2 : Sw1
  nonvolatile_memory_changed_2 security_issue wrong_length : Sw1
  functions_in_class_not_supported error_command_not_allowed : Sw1
  wrong_parameters_p1_p2 wrong_parameters_p1_p2_no_info wrong_le_field : Sw1
  instruction_code_invalid class_not_supported no_precise_diagnosis success : Sw1

unfoldable pub sw1_value : Sw1 → ℕ
sw1_value invalid = 0x00
sw1_value more_data_available = 0x61
sw1_value nonvolatile_memory_unchanged_1 = 0x62
sw1_value nonvolatile_memory_changed_1 = 0x63
sw1_value nonvolatile_memory_unchanged_2 = 0x64
sw1_value nonvolatile_memory_changed_2 = 0x65
sw1_value security_issue = 0x66
sw1_value wrong_length = 0x67
sw1_value functions_in_class_not_supported = 0x68
sw1_value error_command_not_allowed = 0x69
sw1_value wrong_parameters_p1_p2 = 0x6a
sw1_value wrong_parameters_p1_p2_no_info = 0x6b
sw1_value wrong_le_field = 0x6c
sw1_value instruction_code_invalid = 0x6d
sw1_value class_not_supported = 0x6e
sw1_value no_precise_diagnosis = 0x6f
sw1_value success = 0x90

abbrev pub sw1_codes : List Sw1
sw1_codes =
    Sw1.invalid ∷ Sw1.more_data_available ∷ Sw1.nonvolatile_memory_unchanged_1
    ∷ Sw1.nonvolatile_memory_changed_1 ∷ Sw1.nonvolatile_memory_unchanged_2
    ∷ Sw1.nonvolatile_memory_changed_2 ∷ Sw1.security_issue ∷ Sw1.wrong_length
    ∷ Sw1.functions_in_class_not_supported ∷ Sw1.error_command_not_allowed
    ∷ Sw1.wrong_parameters_p1_p2 ∷ Sw1.wrong_parameters_p1_p2_no_info ∷ Sw1.wrong_le_field
    ∷ Sw1.instruction_code_invalid ∷ Sw1.class_not_supported ∷ Sw1.no_precise_diagnosis
    ∷ Sw1.success ∷ []

-- The enumerator with a value, if there is one: `isValue` of src/global/EnumHelper.h and the cast.
unfoldable pub find_value {ℓ} : {A : Type ℓ} → (A → ℕ) → List A → ℕ → Option A
find_value key [] v = none
find_value key (a ∷ rest) v = if key a == v then some a else find_value key rest v

abbrev or_default {ℓ} : {A : Type ℓ} → Option A → A → A
or_default none d = d
or_default (some a) d = a

abbrev pub return_code_length : ℕ
return_code_length = 2

-- The constructor from a status code: its value as two bytes, the high one first.
unfoldable pub response_apdu : StatusCode → List ℕ
unfolding value
response_apdu s = value s / 256 ∷ value s % 256 ∷ []

-- `getDataLength` is negative on a buffer with less than two bytes; `getData` asks for the length first.
unfoldable pub get_data : List ℕ → List ℕ
get_data buffer =
    if ltb (length buffer) return_code_length
    then []
    else take (length buffer - return_code_length) buffer

-- The number that the bytes are the hexadecimal digits of.
unfoldable pub bytes_value : ℕ → List ℕ → ℕ
bytes_value acc [] = acc
bytes_value acc (b ∷ rest) = bytes_value (acc * 256 + b) rest

unfoldable pub get_return_code : List ℕ → StatusCode
unfolding find_value value bytes_value
get_return_code buffer =
    if is_empty buffer
    then empty
    else or_default
        (find_value value status_codes (bytes_value 0 (right buffer return_code_length))) invalid

-- `none` stands for -1, the undefined counter.
unfoldable pub retry_counter_of : StatusCode → Option ℕ
retry_counter_of success = some 3
retry_counter_of pin_retry_count_2 = some 2
retry_counter_of pin_suspended = some 1
retry_counter_of pin_blocked = some 0
retry_counter_of pin_deactivated = some 0
retry_counter_of _ = none

unfoldable pub get_retry_counter : List ℕ → Option ℕ
unfolding retry_counter_of get_return_code
get_retry_counter buffer = retry_counter_of (get_return_code buffer)

unfoldable pub get_sw1 : List ℕ → Sw1
unfolding find_value sw1_value
get_sw1 buffer =
    if ltb (length buffer) return_code_length
    then Sw1.invalid
    else or_default
        (find_value sw1_value sw1_codes (get_or buffer (length buffer - return_code_length) 0))
        Sw1.invalid

unfoldable pub get_sw2 : List ℕ → ℕ
get_sw2 buffer = if ltb (length buffer) 1 then 0 else get_or buffer (length buffer - 1) 0

unfoldable pub card_return_code_of : StatusCode → CardReturnCode
card_return_code_of success = ok
card_return_code_of input_timeout = input_time_out
card_return_code_of input_cancelled = cancellation_by_user
card_return_code_of passwords_differ = new_pin_mismatch
card_return_code_of password_outof_range = new_pin_invalid_length
card_return_code_of pin_blocked = CardReturnCode.pin_blocked
card_return_code_of _ = protocol_error

unfoldable pub get_card_return_code : List ℕ → CardReturnCode
unfolding card_return_code_of get_return_code
get_card_return_code buffer = card_return_code_of (get_return_code buffer)
