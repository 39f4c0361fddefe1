-- ===== src/ECardApi/Laws.antt =====
-- The conversion of src/global/ECardApiResult.cpp, code by code.
use ausweisapp2_android_sdk.Base.{
  ◌≡◌, refl, ap, ◌∙◌, ◌≢◌, ◌↔◌, Bool, true, false, Option, none, some, arith,
}
use ausweisapp2_android_sdk.Status.{
  Code, unknown_error, no_error, paos_generic_server_error, is_no_error, is_error,
  is_cancellation_by_user,
}
use ausweisapp2_android_sdk.ECardApi.Minor.{
  Minor, null, sal_cancellation_by_user, code_value, minor_value,
}
use ausweisapp2_android_sdk.ECardApi.Maps.{
  lookup, contains, elements, init_conversion_maps, from_status, to_status,
}
use ausweisapp2_android_sdk.ECardApi.Conversion.{
  flip, first_minor, first_code, first_minor_of, first_code_of, from_status_first, to_status_first,
}

code_found : (c : Code) → contains code_value c elements ≡ true
unfolding contains lookup elements code_value
code_found unknown_error = refl
code_found _ = refl

minor_found : (m : Minor) → contains minor_value m (flip elements) ≡ true
unfolding contains lookup elements minor_value flip
minor_found null = refl
minor_found _ = refl

-- Both conversion maps are total: the branches of `fromStatus` and `toStatus` that report a
-- mismatch are dead.
pub init_conversion_maps-total :
    (c : Code) (m : Minor)
    → (contains code_value c init_conversion_maps.0 ≡ true)
      × (contains minor_value m init_conversion_maps.1 ≡ true)
unfolding contains
init_conversion_maps-total c m = (
  ap (λ (o : Option Minor). elim o as (λ _. Bool) [ none ↦ false | some _ ↦ true ]) (first_minor c)
      ∙ code_found c,
  ap (λ (o : Option Code). elim o as (λ _. Bool) [ none ↦ false | some _ ↦ true ]) (first_code m)
      ∙ minor_found m,
)

cancellation_first :
    (c : Code) → (first_minor_of c ≡ sal_cancellation_by_user) ↔ (is_cancellation_by_user c ≡ true)
unfolding first_minor_of is_cancellation_by_user
cancellation_first unknown_error = ground arith
cancellation_first _ = ground arith

-- A code becomes the result "cancelled by the user" exactly when GlobalStatus says so too.
pub from_status-cancellation :
    (c : Code) → (from_status c ≡ sal_cancellation_by_user) ↔ (is_cancellation_by_user c ≡ true)
from_status-cancellation c = rw (from_status_first c) (cancellation_first c)

null_first : (c : Code) → (first_minor_of c ≡ null) ↔ (is_error c ≡ false)
unfolding first_minor_of is_error is_no_error
null_first no_error = ground arith
null_first _ = ground arith

-- Exactly the codes that are no error have no minor result.
pub from_status-null : (c : Code) → (from_status c ≡ null) ↔ (is_error c ≡ false)
from_status-null c = rw (from_status_first c) (null_first c)

round_trip_first :
    (m : Minor)
    → (first_code_of m ≢ paos_generic_server_error)
    → first_minor_of (first_code_of m) ≡ m
unfolding first_minor_of first_code_of
round_trip_first null h = refl
round_trip_first _ h = ground arith

-- A minor result survives the way through GlobalStatus unless it becomes the general server
-- error.
pub from_status-to_status :
    (m : Minor) → to_status m ≢ paos_generic_server_error → from_status (to_status m) ≡ m
from_status-to_status m h =
    ap from_status (to_status_first m)
    ∙ from_status_first (first_code_of m)
    ∙ round_trip_first m (λ e. h (to_status_first m ∙ e))
