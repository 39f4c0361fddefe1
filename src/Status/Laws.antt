-- ===== src/Status/Laws.antt =====
-- How src/global/CardReturnCode.cpp sorts the results of card commands.
use ausweisapp2_android_sdk.Base.{◌≡◌, refl, Bool, true, false, not}
use ausweisapp2_android_sdk.Status.{
  CardReturnCode, to_global_status, equals_wrong_pace_password, is_error, is_cancellation_by_user,
  ok, ok_puk, cancellation_by_user,
}

abbrev pub is_success : CardReturnCode → Bool
is_success ok = true
is_success ok_puk = true
is_success _ = false

abbrev pub is_cancelled : CardReturnCode → Bool
is_cancelled cancellation_by_user = true
is_cancelled _ = false

-- A result is an error for the user exactly when it is neither `OK` nor `OK_PUK`; a cancellation
-- exactly when it is `CANCELLATION_BY_USER`; and each wrong password is an error.
pub to_global_status_lem :
    (r : CardReturnCode)
    → (is_error (to_global_status r) ≡ not (is_success r))
      × (is_cancellation_by_user (to_global_status r) ≡ is_cancelled r)
      × (equals_wrong_pace_password r ≡ true → is_error (to_global_status r) ≡ true)
unfolding is_error to_global_status is_cancellation_by_user equals_wrong_pace_password
to_global_status_lem ok = (refl, refl, λ h. cc)
to_global_status_lem ok_puk = (refl, refl, λ h. cc)
to_global_status_lem _ = (refl, refl, λ h. refl)
