-- ===== src/Card/Chat/Writes.antt =====
-- setTemplateBit of src/card/base/asn1/Chat.cpp, on a new CHAT as well.
use ausweisapp2_android_sdk.Base.{
  ℕ, zero, suc, ◌-◌, ◌/◌, ◌%◌, ◌<◌, Bool, false, [], ◌≡◌, refl, ap, ◌∙◌, inl, inr, ltb, ◌==◌,
  if◌then◌else◌, length, get_or, replicate, arith,
}
use ausweisapp2_android_sdk.Card.Chat.Bits.{bit}
use ausweisapp2_android_sdk.Card.Chat.{Template, set_template_bit}
use ausweisapp2_android_sdk.Card.Chat.Fields.{
  IsFull, IsTemplate, digit_at, written-IsFull, digit_at-written,
}

-- After a digit has been written.
pub record IsWritten (place : ℕ) (on : Bool) (template template' : Template) : Type 0 where
  pub full : IsFull template'
  pub digits :
      (k : ℕ)
      → k < 40
      → digit_at template' k ≡ (if k == place then (if on then 1 else 0) else digit_at template k)

abbrev blank : Template
blank = replicate 5 0

zero_at : (i : ℕ) → get_or (blank) i 0 ≡ 0
zero_at zero = refl
zero_at (suc zero) = refl
zero_at (suc (suc zero)) = refl
zero_at (suc (suc (suc zero))) = refl
zero_at (suc (suc (suc (suc zero)))) = refl
zero_at (suc (suc (suc (suc (suc i))))) = refl

digits_of_zeros : (k : ℕ) → k < 40 → digit_at (blank) k ≡ digit_at [] k
unfolding digit_at
digits_of_zeros k h = ap (bit (k % 8)) (zero_at (4 - k / 8))

zeros : IsFull (blank)
zeros = record { size = refl; bytes = λ i. omega (arith, zero_at i) }

pub set_template_bit-IsWritten :
    (place : ℕ) (on : Bool) (template : Template)
    → place < 40
    → IsTemplate template
    → IsWritten place on template (set_template_bit place on template)
unfolding set_template_bit
set_template_bit-IsWritten place on template p (inl e) =
    let inside : ltb 39 place ≡ false = ground arith in
    rw (inside, e)
      (record {
        full = written-IsFull on place p (blank) zeros;
        digits =
            λ k q. digit_at-written on place p (blank) k zeros q ∙ rw (digits_of_zeros k q) refl;
      })
set_template_bit-IsWritten place on template p (inr f) =
    let inside : ltb 39 place ≡ false = ground arith in
    let some_bytes : (length template == 0) ≡ false = ground (arith, f.size) in
    rw (inside, some_bytes)
      (record {
        full = written-IsFull on place p template f;
        digits = λ k q. digit_at-written on place p template k f q;
      })
