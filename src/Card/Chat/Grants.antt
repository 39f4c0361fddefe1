-- ===== src/Card/Chat/Grants.antt =====
-- What a CHAT of src/card/base/asn1/Chat.cpp grants: a role and a set of access rights.
use ausweisapp2_android_sdk.Base.{
  ℕ, zero, suc, ◌+◌, ◌*◌, ◌<◌, Bool, true, false, List, [], ◌∷◌, ◌≡◌, refl, sym, ◌∙◌, inl, inr,
  ◌==◌, if◌then◌else◌, get_or, Bool-cases, arith,
}
use ausweisapp2_android_sdk.Card.AccessRight.{AccessRight, right_value, same_right}
use ausweisapp2_android_sdk.Card.Certificates.{AccessRole, at, dv_no_f, dv_od, cvca, unknown_role}
use ausweisapp2_android_sdk.Card.Chat.{Template, get_access_role, role_of, has_access_right}
use ausweisapp2_android_sdk.Card.Chat.Fields.{IsFull, IsTemplate, digit_at}
use ausweisapp2_android_sdk.Card.Chat.Writes.{IsWritten}
use ausweisapp2_android_sdk.Card.Chat.Bits.{bit, bit-lt-two}
use ausweisapp2_android_sdk.Card.Chat.Rights.{
  right_value-lt, has_access_right-digit_at, get_access_role-digit_at,
}

pub record Grant : Type 0 where
  pub role : AccessRole
  pub granted : AccessRight → Bool

unfoldable pub view : Template → Grant
view template = record {
  role = get_access_role template;
  granted = λ right. has_access_right right template;
}

-- A right that is written gives an empty CHAT the role 0.
abbrev pub touched : AccessRole → AccessRole
touched unknown_role = at
touched at = at
touched dv_no_f = dv_no_f
touched dv_od = dv_od
touched cvca = cvca

abbrev pub grant : Bool → AccessRight → Grant → Grant
grant on right g = record {
  role = touched g.role;
  granted = λ r. if same_right r right then on else g.granted r;
}

abbrev pub grant_all : List AccessRight → Grant → Grant
grant_all [] g = g
grant_all (right ∷ rest) g = grant_all rest (grant true right g)

abbrev pub with_role : AccessRole → Grant → Grant
with_role unknown_role g = g
with_role at g = record g { role = at }
with_role dv_no_f g = record g { role = dv_no_f }
with_role dv_od g = record g { role = dv_od }
with_role cvca g = record g { role = cvca }

abbrev pub nothing_left : Grant → Grant
nothing_left g = record { role = g.role; granted = λ r. false }

touched-role_of : (n : ℕ) → n < 4 → touched (role_of n) ≡ role_of n
unfolding role_of
touched-role_of zero h = refl
touched-role_of (suc zero) h = refl
touched-role_of (suc (suc zero)) h = refl
touched-role_of (suc (suc (suc zero))) h = refl
touched-role_of (suc (suc (suc (suc n)))) h = absurd (omega arith)

role_number : Template → ℕ
role_number template = digit_at template 38 + 2 * digit_at template 39

role_number-lt : (template : Template) → role_number template < 4
unfolding role_number digit_at
role_number-lt template =
    omega (arith, bit-lt-two 6 (get_or template 0 0), bit-lt-two 7 (get_or template 0 0))

pub touched-full :
    (template : Template)
    → IsFull template
    → touched (get_access_role template) ≡ get_access_role template
unfolding role_number
touched-full template f =
    rw (get_access_role-digit_at template f)
      (touched-role_of (role_number template) (role_number-lt template))

pub digit_of : (on : Bool) → ((if on then 1 else 0) == 1) ≡ on
digit_of true = refl
digit_of false = refl

-- A right's digit.
module _ (right : AccessRight) (on : Bool) (template template' : Template) (t : IsTemplate template)
    (w : IsWritten (right_value right) on template template') where
  role_before :
      IsTemplate template → role_of (role_number template) ≡ touched (get_access_role template)
  unfolding role_number
  role_before (inl e) = rw e (unfold digit_at get_access_role role_of bit in refl)
  role_before (inr f) = sym (touched-full template f ∙ get_access_role-digit_at template f)

  pub role_kept : get_access_role template' ≡ touched (get_access_role template)
  unfolding role_number
  role_kept =
      let low = right_value-lt right in
      let lower : (38 == right_value right) ≡ false = ground arith in
      let higher : (39 == right_value right) ≡ false = ground arith in
      get_access_role-digit_at template' w.full
      ∙ rw (w.digits 38 (omega arith), w.digits 39 (omega arith), lower, higher) (role_before t)

  pub granted_changed :
      (r : AccessRight)
      → has_access_right r template'
        ≡ (if same_right r right then on else has_access_right r template)
  unfolding same_right
  granted_changed r =
      has_access_right-digit_at r template' (inr w.full)
      ∙ rw
          (
            w.digits (right_value r) (omega (arith, right_value-lt r)),
            has_access_right-digit_at r template t,
          )
          (elim (Bool-cases (right_value r == right_value right)) [
            | inl same ↦ rw same (digit_of on)
            | inr other ↦ rw other refl
          ])

  pub view-written : view template' ≡ grant on right (view template)
  unfolding view
  view-written = λ i. record { role = role_kept i; granted = λ r. granted_changed r i }
