-- ===== src/Card/Chat/Bits.antt =====
-- The binary digits of a number, and what the masks of src/card/base/asn1/Chat.cpp do to them.
use Prim.Native.Nat.{min, digits, bit_and, bit_and-bitwise}
use native.Mathlib.Nat.{pow-suc}
use ausweisapp2_android_sdk.Base.{
  ℕ, zero, suc, ◌+◌, ◌*◌, ◌/◌, ◌%◌, ◌^◌, ◌≤◌, ◌<◌, Bool, true, false, ◌&&◌, ◌≡◌, refl, ap, ltb,
  ◌==◌, if◌then◌else◌, passes, passes_at, arith,
}
use ausweisapp2_android_sdk.Card.Chat.{set_bit}

-- The digit at a place, 0 the lowest.
unfoldable pub bit : ℕ → ℕ → ℕ
bit zero n = n % 2
bit (suc k) n = bit k (n / 2)

pub bit-lt-two : (k n : ℕ) → bit k n < 2
unfolding bit
bit-lt-two zero n = omega arith
bit-lt-two (suc k) n = bit-lt-two k (n / 2)

pub bit-zero : (k : ℕ) → bit k 0 ≡ 0
unfolding bit
bit-zero zero = refl
bit-zero (suc k) = bit-zero k

abbrev common : ℕ → ℕ → ℕ → ℕ
common = digits (λ n. zero) min

more_fuel : (small large a b : ℕ) → a ≤ small → small ≤ large → common large a b ≡ common small a b
more_fuel zero zero a b h k = refl
more_fuel zero (suc large) zero b h k = refl
more_fuel zero (suc large) (suc a) b h k = absurd (omega arith)
more_fuel (suc small) zero a b h k = absurd (omega arith)
more_fuel (suc small) (suc large) zero b h k = refl
more_fuel (suc small) (suc large) (suc a) b h k =
    omega (arith, more_fuel small large (suc a / 2) (b / 2) (omega arith) (omega arith))

none_in_common : (b : ℕ) → bit_and 0 b ≡ 0
none_in_common b = bit_and-bitwise 0 b

bit_and-digit :
    (n mask : ℕ) → bit_and n mask ≡ min (n % 2) (mask % 2) + 2 * bit_and (n / 2) (mask / 2)
bit_and-digit zero mask = omega (arith, none_in_common mask, none_in_common (mask / 2))
bit_and-digit (suc n) mask =
    let half : ℕ = suc n / 2 in
    let rest : ℕ = mask / 2 in
    omega (
      arith,
      more_fuel half n half rest (omega arith) (omega arith),
      bit_and-bitwise half rest,
      bit_and-bitwise (suc n) mask,
    )

bit_and_nothing : (fuel a : ℕ) → a ≤ fuel → bit_and a 0 ≡ 0
bit_and_nothing fuel zero h = none_in_common 0
bit_and_nothing zero (suc a) h = absurd (omega arith)
bit_and_nothing (suc fuel) (suc a) h =
    omega (arith, bit_and-digit (suc a) 0, bit_and_nothing fuel (suc a / 2) (omega arith))

-- A mask of one bit.
pub bit_and-power : (k a : ℕ) → bit_and a (2 ^ k) ≡ bit k a * 2 ^ k
unfolding bit
bit_and-power zero a =
    omega (arith, bit_and-digit a 1, bit_and_nothing (a / 2) (a / 2) (omega arith))
bit_and-power (suc k) a =
    let half : 2 ^ suc k / 2 ≡ 2 ^ k = omega (arith, pow-suc 2 k) in
    let even : 2 ^ suc k % 2 ≡ 0 = omega (arith, pow-suc 2 k) in
    let step = rw (half, even) at (bit_and-digit a (2 ^ suc k)) in
    let ih = bit_and-power k (a / 2) in
    omega (arith, step, ih, ap (λ (t : ℕ). bit k (a / 2) * t) (pow-suc 2 k))

-- Each of the 256 bytes, at each pair of places.
good_at : Bool → ℕ → Bool
unfolding set_bit bit
good_at on n =
    let byte = n / 64 in
    let place = n / 8 % 8 in
    let k = n % 8 in
    (bit k (set_bit on place byte) == (if k == place then (if on then 1 else 0) else bit k byte))
    && ltb (set_bit on place byte) 256

set_table : passes (good_at true) 16384 ≡ true
unfolding passes good_at
set_table = refl

reset_table : passes (good_at false) 16384 ≡ true
unfolding passes good_at
reset_table = refl

table : (on : Bool) → passes (good_at on) 16384 ≡ true
table true = set_table
table false = reset_table

module _ (on : Bool) (place k byte : ℕ) (p : place < 8) (q : k < 8) (r : byte < 256) where
  abbrev row : ℕ
  row = byte * 64 + place * 8 + k

  row_good : good_at on row ≡ true
  row_good = passes_at (good_at on) 16384 row (omega arith) (table on)

  both :
      (bit k (set_bit on place byte) == (if k == place then (if on then 1 else 0) else bit k byte))
        && ltb (set_bit on place byte) 256
      ≡ true
  unfolding good_at
  both =
      let e : row / 64 ≡ byte = omega arith in
      let f : row / 8 % 8 ≡ place = omega arith in
      let g : row % 8 ≡ k = omega arith in rw (e, f, g) at row_good

  -- The place that is written has the new digit, all others keep theirs.
  pub bit-set_bit :
      bit k (set_bit on place byte) ≡ (if k == place then (if on then 1 else 0) else bit k byte)
  bit-set_bit = ground (arith, both)

pub set_bit-lt : (on : Bool) (place byte : ℕ) → place < 8 → byte < 256 → set_bit on place byte < 256
set_bit-lt on place byte p r = ground (arith, both on place 0 byte p (omega arith) r)

-- The digits of two parts.
pub bit-low : (k hi lo : ℕ) → k < 8 → bit k (hi * 256 + lo) ≡ bit k lo
unfolding bit
bit-low zero hi lo h = omega arith
bit-low (suc zero) hi lo h = omega arith
bit-low (suc (suc zero)) hi lo h = omega arith
bit-low (suc (suc (suc zero))) hi lo h = omega arith
bit-low (suc (suc (suc (suc zero)))) hi lo h = omega arith
bit-low (suc (suc (suc (suc (suc zero))))) hi lo h = omega arith
bit-low (suc (suc (suc (suc (suc (suc zero)))))) hi lo h = omega arith
bit-low (suc (suc (suc (suc (suc (suc (suc zero))))))) hi lo h = omega arith
bit-low (suc (suc (suc (suc (suc (suc (suc (suc k)))))))) hi lo h = absurd (omega arith)

pub bit-high : (k hi lo : ℕ) → lo < 256 → bit (k + 8) (hi * 256 + lo) ≡ bit k hi
unfolding bit
bit-high k hi lo h =
    let e : k + 8 ≡ suc (suc (suc (suc (suc (suc (suc (suc k))))))) = omega arith in
    let f : (hi * 256 + lo) / 2 / 2 / 2 / 2 / 2 / 2 / 2 / 2 ≡ hi = omega arith in
    rw (e, bit, f) refl
