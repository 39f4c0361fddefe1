-- ===== src/Card/Chat.antt =====
-- src/card/base/asn1/Chat.cpp: the certificate holder authorization template. A CHAT is its type and
-- the bytes of its template. A write behind the end of a template, which is undefined behaviour, is
-- `write` without effect: the decoder refuses such templates. The set that getAccessRights returns
-- is a list without repetition, and a set is gone through in the order of its list.
use ausweisapp2_android_sdk.Base.{
  ℕ, zero, suc, ◌+◌, ◌-◌, ◌*◌, ◌/◌, ◌%◌, ◌^◌, Bool, true, false, not, ◌&&◌, ◌||◌, List, [], ◌∷◌,
  ltb, leb, ◌==◌, if◌then◌else◌, length, get_or, replicate, is_empty,
}
use Prim.Native.Nat.{bit_and, bit_or}
use ausweisapp2_android_sdk.Card.AccessRight.{AccessRight, right_value, same_right, all_rights}
use ausweisapp2_android_sdk.Card.Certificates.{
  AccessRole, at, dv_no_f, dv_od, cvca, unknown_role, same_bytes,
}
pub mod Bits
pub mod Fields
pub mod Rights
pub mod Writes
pub mod Grants
pub mod Sets
pub mod Roles
pub mod Refines

abbrev pub Template : Type 0
Template = List ℕ

abbrev pub u64 : ℕ
u64 = 2 ^ 64

-- CHAT::decodeCallback, after the decoding: `id_at` is the text of KnownOIDs::CHATType::ID_AT.
unfoldable pub is_accepted : List ℕ → List ℕ → Template → Bool
unfolding same_bytes
is_accepted id_at type template = length template == 5 && same_bytes type id_at

abbrev pub write : Template → ℕ → ℕ → Template
write [] i byte = []
write (x ∷ rest) zero byte = byte ∷ rest
write (x ∷ rest) (suc i) byte = x ∷ write rest i byte

-- `data | (0x01 << bit)` and `data & ~(0x01 << bit)`, as a byte.
unfoldable pub set_bit : Bool → ℕ → ℕ → ℕ
set_bit true bit byte = bit_or byte (2 ^ bit) % 256
set_bit false bit byte = bit_and byte (255 - 2 ^ bit)

unfoldable pub set_template_bit : ℕ → Bool → Template → Template
unfolding set_bit
set_template_bit bit on template =
    if ltb 39 bit
    then template
    else let template' = if length template == 0 then replicate 5 0 else template in
      let byte_number = 4 - bit / 8 in
      write template' byte_number (set_bit on (bit % 8) (get_or template' byte_number 0))

-- The number of the role; `unknown_role` is -1 and never asked for.
abbrev pub role_value : AccessRole → ℕ
role_value at = 0
role_value dv_no_f = 1
role_value dv_od = 2
role_value cvca = 3
role_value unknown_role = 0

abbrev pub set_role : AccessRole → Template → Template
set_role role template =
    set_template_bit 39 (leb 2 (role_value role))
      (set_template_bit 38 (role_value role % 2 == 1) template)

unfoldable pub set_access_role : AccessRole → Template → Template
unfolding set_template_bit
set_access_role unknown_role template = template
set_access_role at template = set_role at template
set_access_role dv_no_f template = set_role dv_no_f template
set_access_role dv_od template = set_role dv_od template
set_access_role cvca template = set_role cvca template

unfoldable pub role_of : ℕ → AccessRole
role_of n =
    if n == 0
    then at
    else if n == 1
    then dv_no_f
    else if n == 2
    then dv_od
    else if n == 3
    then cvca
    else unknown_role

unfoldable pub get_access_role : Template → AccessRole
unfolding role_of
get_access_role [] = unknown_role
get_access_role (byte ∷ rest) = role_of (byte / 2 ^ 6)

unfoldable pub accumulate : ℕ → Template → ℕ
accumulate sum [] = sum
accumulate sum (byte ∷ rest) = accumulate ((sum * 256 % u64 + byte) % u64) rest

unfoldable pub is_masked : ℕ → AccessRight → Bool
unfolding right_value
is_masked rights right = bit_and rights (2 ^ right_value right) == 2 ^ right_value right

unfoldable pub rights_in : ℕ → List AccessRight → List AccessRight
rights_in rights [] = []
rights_in rights (right ∷ rest) =
    let more = rights_in rights rest in if is_masked rights right then right ∷ more else more

unfoldable pub get_access_rights : Template → List AccessRight
unfolding accumulate rights_in all_rights
get_access_rights template = rights_in (accumulate 0 template) all_rights

unfoldable pub contains_right : List AccessRight → AccessRight → Bool
contains_right [] right = false
contains_right (r ∷ rest) right = same_right r right || contains_right rest right

unfoldable pub has_access_right : AccessRight → Template → Bool
unfolding get_access_rights contains_right
has_access_right right template = contains_right (get_access_rights template) right

unfoldable pub set_access_right : AccessRight → Template → Template
unfolding set_template_bit right_value
set_access_right right template = set_template_bit (right_value right) true template

unfoldable pub set_access_rights : List AccessRight → Template → Template
unfolding set_access_right
set_access_rights [] template = template
set_access_rights (right ∷ rest) template = set_access_rights rest (set_access_right right template)

unfoldable pub remove_access_right : AccessRight → Template → Template
unfolding set_template_bit right_value
remove_access_right right template = set_template_bit (right_value right) false template

unfoldable pub remove_access_rights : List AccessRight → Template → Template
unfolding remove_access_right
remove_access_rights [] template = template
remove_access_rights (right ∷ rest) template =
    remove_access_rights rest (remove_access_right right template)

unfoldable pub remove_all_access_rights : Template → Template
unfolding get_access_rights remove_access_rights
remove_all_access_rights template = remove_access_rights (get_access_rights template) template
