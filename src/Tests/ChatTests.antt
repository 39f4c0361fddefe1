-- ===== src/Tests/ChatTests.antt =====
-- A CHAT that is built from nothing.
use ausweisapp2_android_sdk.Base.{◌≡◌, refl, inl, List, [], ◌∷◌}
use ausweisapp2_android_sdk.Card.AccessRight.{read_dg01, age_verification, write_dg17}
use ausweisapp2_android_sdk.Card.Certificates.{dv_od}
use ausweisapp2_android_sdk.Card.Chat.{get_access_rights, is_masked}
use ausweisapp2_android_sdk.Card.Chat.Fields.{IsTemplate}
use ausweisapp2_android_sdk.Card.Chat.Grants.{view}
use ausweisapp2_android_sdk.Card.Chat.Refines.{
  Call, set_the_role, set_right, set_rights, remove_right, run_calls, specify_all, run_calls_lem,
}

abbrev calls : List Call
calls =
    set_rights (age_verification ∷ read_dg01 ∷ [])
    ∷ set_the_role dv_od
    ∷ set_right write_dg17
    ∷ remove_right age_verification
    ∷ []

built : run_calls calls [] ≡ 0xa0 ∷ 0x00 ∷ 0x00 ∷ 0x01 ∷ 0x00 ∷ []
unfolding run_calls
built = refl

rights_built : get_access_rights (run_calls calls []) ≡ write_dg17 ∷ read_dg01 ∷ []
unfolding run_calls get_access_rights is_masked
rights_built = refl

run_calls_lem_example :
    IsTemplate (run_calls calls []) × (view (run_calls calls []) ≡ specify_all calls (view []))
run_calls_lem_example = run_calls_lem calls [] (inl refl)
