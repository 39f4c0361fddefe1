-- ===== src/Card/Chat/Rights.antt =====
-- getAccessRights, hasAccessRight and getAccessRole of src/card/base/asn1/Chat.cpp read the digits of
-- the template.
use native.Mathlib.Nat.{one-le-pow}
use ausweisapp2_android_sdk.Base.{
  ℕ, ◌+◌, ◌*◌, ◌/◌, ◌%◌, ◌^◌, ◌<◌, true, ◌&&◌, List, [], ◌∷◌, ◌≡◌, refl, ap, ◌∙◌, inl, inr, ◌==◌,
  ==_iff, Bool-cases, arith,
}
use ausweisapp2_android_sdk.Card.AccessRight.{
  AccessRight, write_dg17, right_value, same_right, all_rights,
}
use ausweisapp2_android_sdk.Card.Chat.{
  Template, accumulate, is_masked, rights_in, contains_right, has_access_right, get_access_role,
  role_of,
}
use ausweisapp2_android_sdk.Card.Chat.Bits.{bit, bit-lt-two, bit-zero, bit_and-power}
use ausweisapp2_android_sdk.Card.Chat.Fields.{IsFull, IsTemplate, digit_at, accumulate-sum, bit-sum}

pub right_value-lt : (right : AccessRight) → right_value right < 38
unfolding right_value
right_value-lt write_dg17 = omega arith
right_value-lt _ = omega arith

all_of_them : (right : AccessRight) → contains_right all_rights right ≡ true
unfolding contains_right all_rights same_right
all_of_them write_dg17 = refl
all_of_them _ = refl

is_masked-same :
    (rights : ℕ) (q r : AccessRight)
    → same_right q r ≡ true
    → is_masked rights q ≡ is_masked rights r
unfolding is_masked same_right
is_masked-same rights q r h = let e : right_value q ≡ right_value r = (==_iff _ _).0 h in rw e refl

contains_right-rights_in :
    (rights : ℕ) (all : List AccessRight) (right : AccessRight)
    → contains_right (rights_in rights all) right
      ≡ (contains_right all right && is_masked rights right)
unfolding contains_right rights_in
contains_right-rights_in rights [] right = refl
contains_right-rights_in rights (r ∷ all) right =
    ground (arith, is_masked-same rights r right, contains_right-rights_in rights all right)

is_masked-bit :
    (rights : ℕ) (right : AccessRight)
    → is_masked rights right ≡ (bit (right_value right) rights == 1)
unfolding is_masked
is_masked-bit rights right =
    let k : ℕ = right_value right in
    let positive : 0 < 2 ^ k = omega (arith, one-le-pow k 2) in
    let mask = bit_and-power k rights in
    elim (Bool-cases (bit k rights == 1)) [
      | inl one ↦
          (let e : bit k rights ≡ 1 = (==_iff _ _).0 one in
            let m = rw e at mask in rw (one, m) (ground arith))
      | inr other ↦
          (let e : bit k rights ≡ 0 = ground (arith, bit-lt-two k rights) in
            let m = rw e at mask in rw (other, m) (ground arith))
    ]

has_access_right-masked :
    (right : AccessRight) (template : Template)
    → has_access_right right template ≡ (bit (right_value right) (accumulate 0 template) == 1)
unfolding has_access_right
has_access_right-masked right template =
    contains_right-rights_in (accumulate 0 template) all_rights right
    ∙ rw (all_of_them right) (is_masked-bit (accumulate 0 template) right)

-- A full template byte by byte.
record FiveBytes (template : Template) : Type 0 where
  a : ℕ
  b : ℕ
  c : ℕ
  d : ℕ
  e : ℕ
  are : template ≡ a ∷ b ∷ c ∷ d ∷ e ∷ []
  a_byte : a < 256
  b_byte : b < 256
  c_byte : c < 256
  d_byte : d < 256
  e_byte : e < 256

split : (template : Template) → IsFull template → FiveBytes template
split [] f = absurd (omega (arith, f.size))
split (a ∷ []) f = absurd (omega (arith, f.size))
split (a ∷ b ∷ []) f = absurd (omega (arith, f.size))
split (a ∷ b ∷ c ∷ []) f = absurd (omega (arith, f.size))
split (a ∷ b ∷ c ∷ d ∷ []) f = absurd (omega (arith, f.size))
split (a ∷ b ∷ c ∷ d ∷ e ∷ []) f = record {
  a = a;
  b = b;
  c = c;
  d = d;
  e = e;
  are = refl;
  a_byte = f.bytes 0;
  b_byte = f.bytes 1;
  c_byte = f.bytes 2;
  d_byte = f.bytes 3;
  e_byte = f.bytes 4;
}
split (a ∷ b ∷ c ∷ d ∷ e ∷ x ∷ rest) f = absurd (omega (arith, f.size))

pub has_access_right-digit_at :
    (right : AccessRight) (template : Template)
    → IsTemplate template
    → has_access_right right template ≡ (digit_at template (right_value right) == 1)
has_access_right-digit_at right template (inl e) =
    has_access_right-masked right template
    ∙ rw e (
        unfold accumulate digit_at in
        rw (bit-zero (right_value right), bit-zero (right_value right % 8)) refl)
has_access_right-digit_at right template (inr f) =
    let t = split template f in
    let s = accumulate-sum t.a t.b t.c t.d t.e t.a_byte t.b_byte t.c_byte t.d_byte t.e_byte in
    let r = right_value-lt right in
    has_access_right-masked right template
    ∙ rw
        (
          t.are,
          s,
          bit-sum t.a t.b t.c t.d t.e t.a_byte t.b_byte t.c_byte t.d_byte t.e_byte
              (right_value right) (omega arith),
        )
        refl

-- Digit 38 is the lower digit of the role, digit 39 the higher.
pub get_access_role-digit_at :
    (template : Template)
    → IsFull template
    → get_access_role template ≡ role_of (digit_at template 38 + 2 * digit_at template 39)
get_access_role-digit_at template f =
    let t = split template f in
    let h = t.a_byte in
    rw t.are (
      unfold get_access_role digit_at bit in
      ap role_of {x = t.a / 2 ^ 6} {y = bit 6 t.a + 2 * bit 7 t.a} (omega arith))
