-- ===== src/Card/Chat/Fields.antt =====
-- The template of src/card/base/asn1/Chat.cpp digit by digit: what setTemplateBit writes, and what
-- getAccessRights and getAccessRole read.
use ausweisapp2_android_sdk.Base.{
  ℕ, zero, suc, ◌+◌, ◌-◌, ◌*◌, ◌/◌, ◌%◌, ◌<◌, Bool, false, [], ◌∷◌, ◌≡◌, refl, ap, ◌∙◌, ◌⊎◌, inl,
  inr, ltb, ◌==◌, ==_iff, if◌then◌else◌, length, get_or, Bool-cases, arith,
}
use ausweisapp2_android_sdk.Card.Chat.{Template, write, set_bit, accumulate}
use ausweisapp2_android_sdk.Card.Chat.Bits.{bit, bit-set_bit, set_bit-lt, bit-low, bit-high}

-- Five bytes, as the decoder asks.
pub record IsFull (template : Template) : Type 0 where
  pub size : length template ≡ 5
  pub bytes : (i : ℕ) → get_or template i 0 < 256

-- A new CHAT has an empty template.
abbrev pub IsTemplate : Template → Type 0
IsTemplate template = (template ≡ []) ⊎ IsFull template

unfoldable pub digit_at : Template → ℕ → ℕ
digit_at template k = bit (k % 8) (get_or template (4 - k / 8) 0)

get_or-write :
    (template : Template) (i j byte : ℕ)
    → i < length template
    → get_or (write template i byte) j 0 ≡ (if j == i then byte else get_or template j 0)
get_or-write [] i j byte h = elim h [ ]
get_or-write (x ∷ rest) zero zero byte h = refl
get_or-write (x ∷ rest) zero (suc j) byte h = ground arith
get_or-write (x ∷ rest) (suc i) zero byte h = ground arith
get_or-write (x ∷ rest) (suc i) (suc j) byte h =
    ground (arith, get_or-write rest i j byte (omega arith))

length-write : (template : Template) (i byte : ℕ) → length (write template i byte) ≡ length template
length-write [] i byte = refl
length-write (x ∷ rest) zero byte = refl
length-write (x ∷ rest) (suc i) byte = ap suc (length-write rest i byte)

module _ (on : Bool) (place : ℕ) (p : place < 40) where
  abbrev pub written : Template → Template
  written template =
      let n = 4 - place / 8 in write template n (set_bit on (place % 8) (get_or template n 0))

  pub written-IsFull : (template : Template) → IsFull template → IsFull (written template)
  written-IsFull template f =
      let n : ℕ = 4 - place / 8 in
      record {
        size = length-write template n _ ∙ f.size;
        bytes = λ i. ground (
          arith,
          f.size,
          f.bytes i,
          get_or-write template n i (set_bit on (place % 8) (get_or template n 0)),
          set_bit-lt on (place % 8) (get_or template n 0) (omega arith) (f.bytes n),
        );
      }

  pub digit_at-written :
      (template : Template) (k : ℕ)
      → IsFull template
      → k < 40
      → digit_at (written template) k
        ≡ (if k == place then (if on then 1 else 0) else digit_at template k)
  unfolding digit_at
  digit_at-written template k f q =
      let n : ℕ = 4 - place / 8 in
      let byte : ℕ = get_or template n 0 in
      rw (get_or-write template n (4 - k / 8) (set_bit on (place % 8) byte) (omega (arith, f.size)))
        (elim (Bool-cases (4 - k / 8 == n)) [
          | inl same ↦
              (let e : 4 - k / 8 ≡ n = (==_iff _ _).0 same in
                let places : (k == place) ≡ (k % 8 == place % 8) = ground arith in
                rw (same, places, e)
                  (bit-set_bit on (place % 8) (k % 8) byte (omega arith) (omega arith) (f.bytes n)))
          | inr other ↦
              (let apart : (k == place) ≡ false = ground arith in rw (other, apart, digit_at) refl)
        ])

-- A number of two parts, its lower part a byte.
bit-parts :
    (k hi lo : ℕ)
    → lo < 256
    → bit k (hi * 256 + lo) ≡ (if ltb k 8 then bit k lo else bit (k - 8) hi)
bit-parts k hi lo h = elim (Bool-cases (ltb k 8)) [
  | inl low ↦ rw low (bit-low k hi lo (ground arith))
  | inr high ↦
      (let e : k ≡ (k - 8) + 8 = ground arith in
        rw high (ap (λ (j : ℕ). bit j (hi * 256 + lo)) e ∙ bit-high (k - 8) hi lo h))
]

module _ (a b c d e : ℕ) (ha : a < 256) (hb : b < 256) (hc : c < 256) (hd : d < 256)
    (he : e < 256) where
  abbrev pub sum : ℕ
  sum = (((a * 256 + b) * 256 + c) * 256 + d) * 256 + e

  pub accumulate-sum : accumulate 0 (a ∷ b ∷ c ∷ d ∷ e ∷ []) ≡ sum
  unfolding accumulate
  accumulate-sum = omega arith

  pub bit-sum : (k : ℕ) → k < 40 → bit k sum ≡ digit_at (a ∷ b ∷ c ∷ d ∷ e ∷ []) k
  unfolding digit_at
  bit-sum k q =
      bit-parts k (((a * 256 + b) * 256 + c) * 256 + d) e he ∙ elim (Bool-cases (ltb k 8)) [
        | inl t0 ↦ rw t0 (
            let m : k % 8 ≡ k = ground arith in
            let n : 4 - k / 8 ≡ 4 = ground arith in rw (m, n) refl)
        | inr t0 ↦ rw t0 (
            bit-parts (k - 8) ((a * 256 + b) * 256 + c) d hd ∙ elim (Bool-cases (ltb (k - 8) 8)) [
              | inl t1 ↦ rw t1 (
                  let m : k % 8 ≡ k - 8 = ground arith in
                  let n : 4 - k / 8 ≡ 3 = ground arith in rw (m, n) refl)
              | inr t1 ↦ rw t1 (
                  bit-parts (k - 8 - 8) (a * 256 + b) c hc ∙ elim (Bool-cases (ltb (k - 8 - 8) 8)) [
                    | inl t2 ↦ rw t2 (
                        let m : k % 8 ≡ k - 8 - 8 = ground arith in
                        let n : 4 - k / 8 ≡ 2 = ground arith in rw (m, n) refl)
                    | inr t2 ↦ rw t2 (
                        bit-parts (k - 8 - 8 - 8) (a) b hb
                        ∙ elim (Bool-cases (ltb (k - 8 - 8 - 8) 8)) [
                          | inl t3 ↦ rw t3 (
                              let m : k % 8 ≡ k - 8 - 8 - 8 = ground arith in
                              let n : 4 - k / 8 ≡ 1 = ground arith in rw (m, n) refl)
                          | inr t3 ↦ rw t3 (
                              (let m : k % 8 ≡ k - 8 - 8 - 8 - 8 = ground arith in
                                let n : 4 - k / 8 ≡ 0 = ground arith in rw (m, n) refl))
                        ])
                  ])
            ])
      ]
