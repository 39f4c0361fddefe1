-- ===== src/Card/Chat/Roles.antt =====
-- setAccessRole of src/card/base/asn1/Chat.cpp on a CHAT's role.
use ausweisapp2_android_sdk.Base.{
  ◌+◌, ◌*◌, Bool, true, false, ◌≡◌, refl, ◌∙◌, inr, ◌==◌, if◌then◌else◌, arith,
}
use ausweisapp2_android_sdk.Card.AccessRight.{AccessRight, right_value}
use ausweisapp2_android_sdk.Card.Certificates.{AccessRole, at, dv_no_f, dv_od, cvca, unknown_role}
use ausweisapp2_android_sdk.Card.Chat.{
  Template, set_template_bit, set_access_role, get_access_role, role_of, has_access_right,
}
use ausweisapp2_android_sdk.Card.Chat.Fields.{IsTemplate}
use ausweisapp2_android_sdk.Card.Chat.Writes.{IsWritten, set_template_bit-IsWritten}
use ausweisapp2_android_sdk.Card.Chat.Rights.{
  right_value-lt, has_access_right-digit_at, get_access_role-digit_at,
}
use ausweisapp2_android_sdk.Card.Chat.Grants.{view, with_role}

module _ (lower higher : Bool) (template one both : Template) where
  role_written :
      IsWritten 38 lower template one
      → IsWritten 39 higher one both
      → get_access_role both ≡ role_of ((if lower then 1 else 0) + 2 * (if higher then 1 else 0))
  role_written w w' =
      get_access_role-digit_at both w'.full
      ∙ rw (w'.digits 38 (omega arith), w'.digits 39 (omega arith), w.digits 38 (omega arith)) refl

  right_kept :
      IsTemplate template
      → IsWritten 38 lower template one
      → IsWritten 39 higher one both
      → (r : AccessRight) → has_access_right r both ≡ has_access_right r template
  right_kept t w w' r =
      let low = right_value-lt r in
      let not_higher : (right_value r == 39) ≡ false = ground arith in
      let not_lower : (right_value r == 38) ≡ false = ground arith in
      has_access_right-digit_at r both (inr w'.full)
      ∙ rw
          (
            w'.digits (right_value r) (omega arith),
            not_higher,
            w.digits (right_value r) (omega arith),
            not_lower,
            has_access_right-digit_at r template t,
          )
          refl

set_role_lem :
    (lower higher : Bool) (template : Template)
    → IsTemplate template
    → let template' = set_template_bit 39 higher (set_template_bit 38 lower template) in
      IsTemplate template'
      × (view template' ≡ record (view template) {
        role = role_of ((if lower then 1 else 0) + 2 * (if higher then 1 else 0));
      })
unfolding view
set_role_lem lower higher template t =
    let w = set_template_bit-IsWritten 38 lower template (omega arith) t in
    let w' =
      set_template_bit-IsWritten 39 higher (set_template_bit 38 lower template) (omega arith)
        (inr w.full) in
    (
      inr w'.full,
      λ i. record {
        role = role_written lower higher template _ _ w w' i;
        granted = λ r. right_kept lower higher template _ _ t w w' r i;
      },
    )

pub set_access_role_lem :
    (role : AccessRole) (template : Template)
    → IsTemplate template
    → IsTemplate (set_access_role role template)
      × (view (set_access_role role template) ≡ with_role role (view template))
unfolding set_access_role role_of
set_access_role_lem unknown_role template t = (t, refl)
set_access_role_lem at template t = set_role_lem false false template t
set_access_role_lem dv_no_f template t = set_role_lem true false template t
set_access_role_lem dv_od template t = set_role_lem false true template t
set_access_role_lem cvca template t = set_role_lem true true template t
