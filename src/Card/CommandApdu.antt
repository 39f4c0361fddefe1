-- ===== src/Card/CommandApdu.antt =====
-- src/card/base/CommandApdu.cpp and .h: ISO 7816-4 command APDUs. An APDU is its buffer, a list of
-- bytes; `char` values are bytes below 256. Sizes and the expected length are non-negative ints.
use ausweisapp2_android_sdk.Base.{
  ℕ, ◌+◌, ◌*◌, ◌/◌, ◌%◌, Bool, true, false, not, ◌&&◌, ◌||◌, List, [], ◌∷◌, ◌++◌, ltb, leb, ◌==◌,
  if◌then◌else◌, length, get_or, mid, is_empty,
}
pub mod RoundTrip

abbrev pub short_max_lc : ℕ
short_max_lc = 0xff

abbrev pub short_max_le : ℕ
short_max_le = 0x100

abbrev pub extended_max_lc : ℕ
extended_max_lc = 0xffff

abbrev pub extended_max_le : ℕ
extended_max_le = 0x10000

abbrev pub cla_secure_messaging : ℕ
cla_secure_messaging = 0x0c

-- The member function, on a buffer that was received or built.
unfoldable pub is_extended_length : List ℕ → Bool
is_extended_length buffer = ltb 5 (length buffer) && get_or buffer 4 0 == 0

-- The static function, on what an APDU is to be built from.
unfoldable pub needs_extended_length : List ℕ → ℕ → Bool
needs_extended_length payload le = ltb short_max_lc (length payload) || ltb short_max_le le

-- `x & 0x0F` of a byte is `x % 16`.
unfoldable pub is_secure_messaging : List ℕ → Bool
is_secure_messaging buffer = not (is_empty buffer) && get_or buffer 0 0 % 16 == cla_secure_messaging

-- `static_cast<char>(n >> 8 & 0xff)` and `static_cast<char>(n & 0xff)`.
abbrev pub high_byte : ℕ → ℕ
high_byte n = n / 256 % 256

abbrev pub low_byte : ℕ → ℕ
low_byte n = n % 256

unfoldable pub lc_field : List ℕ → ℕ → List ℕ
lc_field payload le =
    if ltb 0 (length payload)
    then (if needs_extended_length payload le
        then 0 ∷ high_byte (length payload) ∷ low_byte (length payload) ∷ payload
        else low_byte (length payload) ∷ payload)
    else []

unfoldable pub le_field : List ℕ → ℕ → List ℕ
le_field payload le =
    if ltb 0 le
    then (if needs_extended_length payload le
        then (if is_empty payload
            then 0 ∷ high_byte le ∷ low_byte le ∷ []
            else high_byte le ∷ low_byte le ∷ [])
        else low_byte le ∷ [])
    else []

-- The constructor; a payload or an expected length that is too long gives the empty buffer.
unfoldable pub command_apdu : (cla ins p1 p2 : ℕ) → List ℕ → ℕ → List ℕ
unfolding lc_field le_field needs_extended_length
command_apdu cla ins p1 p2 payload le =
    if ltb extended_max_lc (length payload)
    then []
    else if ltb extended_max_le le
    then []
    else cla ∷ ins ∷ p1 ∷ p2 ∷ (lc_field payload le ++ le_field payload le)

unfoldable pub get_cla : List ℕ → ℕ
get_cla buffer = if ltb 0 (length buffer) then get_or buffer 0 0 else 0

unfoldable pub get_ins : List ℕ → ℕ
get_ins buffer = if ltb 1 (length buffer) then get_or buffer 1 0 else 0

unfoldable pub get_p1 : List ℕ → ℕ
get_p1 buffer = if ltb 2 (length buffer) then get_or buffer 2 0 else 0

unfoldable pub get_p2 : List ℕ → ℕ
get_p2 buffer = if ltb 3 (length buffer) then get_or buffer 3 0 else 0

-- A big-endian 16-bit number.
unfoldable pub read_length : List ℕ → ℕ → ℕ
read_length buffer offset = get_or buffer offset 0 * 256 + get_or buffer (offset + 1) 0

unfoldable pub get_lc : List ℕ → ℕ
unfolding is_extended_length read_length
get_lc buffer =
    if leb (length buffer) 5
    then 0
    else if not (is_extended_length buffer)
    then get_or buffer 4 0
    else if leb (length buffer) 6
    then 0
    else read_length buffer 5

-- A field of 0 stands for the maximum.
abbrev or_maximum : ℕ → ℕ → ℕ
or_maximum le maximum = if le == 0 then maximum else le

unfoldable pub extended_le : List ℕ → ℕ → ℕ
unfolding read_length
extended_le buffer offset =
    if ltb (length buffer) (offset + 2)
    then 0
    else or_maximum (read_length buffer offset) extended_max_le

unfoldable pub short_le : List ℕ → ℕ → ℕ
short_le buffer offset =
    if ltb (length buffer) (offset + 1) then 0 else or_maximum (get_or buffer offset 0) short_max_le

unfoldable pub get_le : List ℕ → ℕ
unfolding is_extended_length get_lc extended_le short_le
get_le buffer =
    let lc = get_lc buffer in
    if is_extended_length buffer
    then extended_le buffer (if lc == 0 then 5 else 7 + lc)
    else short_le buffer (if lc == 0 then 4 else 5 + lc)

unfoldable pub get_data : List ℕ → List ℕ
unfolding is_extended_length get_lc
get_data buffer =
    let lc = get_lc buffer in
    if lc == 0 then [] else if is_extended_length buffer then mid buffer 7 lc else mid buffer 5 lc
