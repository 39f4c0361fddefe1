-- ===== src/Card/ResponseApdu/Laws.antt =====
-- What src/card/base/ResponseApdu.cpp reads from a response: its payload and its trailing status
-- word.
use ausweisapp2_android_sdk.Base.{
  ℕ, ◌+◌, ◌-◌, ◌*◌, ◌<◌, ◌≡◌, refl, ◌∙◌, ap, true, List, [], ◌∷◌, ◌++◌, Option, none, some, arith,
  ltb, leb, if◌then◌else◌, length, length-append, take-length_append, drop-length_append, right,
  is_empty, false, le→ltb, Bool-cases, inl, inr, ◌==◌, ◌↔◌, Bool, ◌&&◌, passes, passes_at,
  Option-cases, sym,
}
use ausweisapp2_android_sdk.Status.{ok}
use ausweisapp2_android_sdk.Card.ResponseApdu.{
  StatusCode, value, status_codes, find_value, response_apdu, get_data, get_return_code,
  bytes_value, get_retry_counter, retry_counter_of, card_return_code_of, get_card_return_code,
  empty, success,
}

-- A response that is built from a status code has this return code.
pub get_return_code-response_apdu : (s : StatusCode) → get_return_code (response_apdu s) ≡ s
unfolding get_return_code response_apdu
get_return_code-response_apdu empty = refl
get_return_code-response_apdu _ = refl

length-trailer :
    (payload : List ℕ) (hi lo : ℕ) → length (payload ++ (hi ∷ lo ∷ [])) ≡ length payload + 2
length-trailer payload hi lo = length-append payload (hi ∷ lo ∷ [])

right-trailer : (payload : List ℕ) (hi lo : ℕ) → right (payload ++ (hi ∷ lo ∷ [])) 2 ≡ hi ∷ lo ∷ []
right-trailer payload hi lo =
    let n : length (payload ++ (hi ∷ lo ∷ [])) - 2 ≡ length payload =
      omega (arith, length-trailer payload hi lo) in
    rw n (drop-length_append payload (hi ∷ lo ∷ []))

is_empty-trailer : (payload : List ℕ) (hi lo : ℕ) → is_empty (payload ++ (hi ∷ lo ∷ [])) ≡ false
is_empty-trailer [] hi lo = refl
is_empty-trailer (x ∷ xs) hi lo = refl

-- A response of any payload and a status word: the payload is given back, and the return code is
-- that of the status word alone.
pub get_data-trailer :
    (payload : List ℕ) (hi lo : ℕ)
    → (get_data (payload ++ (hi ∷ lo ∷ [])) ≡ payload)
      × (get_return_code (payload ++ (hi ∷ lo ∷ [])) ≡ get_return_code (hi ∷ lo ∷ []))
unfolding get_data get_return_code
get_data-trailer payload hi lo =
    let n : length (payload ++ (hi ∷ lo ∷ [])) - 2 ≡ length payload =
      omega (arith, length-trailer payload hi lo) in
    (
      rw
          (le→ltb (length (payload ++ (hi ∷ lo ∷ []))) 2
            (omega (arith, length-trailer payload hi lo)))
          (rw n (take-length_append payload (hi ∷ lo ∷ []))),
      rw (is_empty-trailer payload hi lo) (rw (right-trailer payload hi lo)),
    )

find_value_sound {ℓ} :
    {A : Type ℓ} (key : A → ℕ) (l : List A) (v : ℕ) {a : A}
    → find_value key l v ≡ some a
    → key a ≡ v
unfolding find_value
find_value_sound key [] v e = cc
find_value_sound key (b ∷ rest) v e = elim (Bool-cases (key b == v)) [
  | inl hit ↦ ground arith
  | inr miss ↦ find_value_sound key rest v (rw miss at e)
]

reads_counter : ℕ → Bool
unfolding get_retry_counter
reads_counter n = elim (get_retry_counter (0x63 ∷ (0xc0 + n) ∷ [])) [
  | none ↦ ltb 2 n
  | some k ↦ k == n && leb n 2
]

reads_counter_table : passes reads_counter 16 ≡ true
unfolding passes reads_counter
reads_counter_table = refl

counter_63c :
    (n : ℕ)
    → n < 16
    → get_retry_counter (0x63 ∷ (0xc0 + n) ∷ []) ≡ (if leb n 2 then some n else none)
counter_63c n h =
    from_test (get_retry_counter (0x63 ∷ (0xc0 + n) ∷ []))
      (unfold reads_counter in passes_at reads_counter 16 n h reads_counter_table)
  where
    from_test :
        (o : Option ℕ)
        → (elim o [ none ↦ ltb 2 n | some k ↦ k == n && leb n 2 ]) ≡ true
        → o ≡ (if leb n 2 then some n else none)
    from_test none e = ground arith
    from_test (some k) e = ground arith

-- The retry counter of a status word 63Cn, n below 16, behind any payload, is n for n up to 2,
-- and undefined for the words above, which are no status codes of the program.
pub get_retry_counter-63c :
    (payload : List ℕ) (n : ℕ)
    → n < 16
    → get_retry_counter (payload ++ (0x63 ∷ (0xc0 + n) ∷ [])) ≡ (if leb n 2 then some n else none)
unfolding get_retry_counter
get_retry_counter-63c payload n h =
    ap retry_counter_of (get_data-trailer payload 0x63 (0xc0 + n)).1 ∙ counter_63c n h

success_of_ok : (s : StatusCode) → card_return_code_of s ≡ ok → s ≡ success
unfolding card_return_code_of
success_of_ok success e = refl
success_of_ok _ e = cc

word_of_success : (hi lo : ℕ) → get_return_code (hi ∷ lo ∷ []) ≡ success → hi * 256 + lo ≡ 0x9000
unfolding get_return_code
word_of_success hi lo e =
    elim (Option-cases (find_value value status_codes (bytes_value 0 (hi ∷ lo ∷ [])))) [
      | inl miss ↦ cc (rw miss at e)
      | inr (s, hit) ↦
          let is_success : s ≡ success = rw hit at e in
          let word : value s ≡ (0 * 256 + hi) * 256 + lo =
            find_value_sound value status_codes _ hit in
          let word' : value s ≡ 0x9000 = ap value is_success in omega arith
    ]

success_of_word : (hi lo : ℕ) → hi * 256 + lo ≡ 0x9000 → get_return_code (hi ∷ lo ∷ []) ≡ success
unfolding get_return_code
success_of_word hi lo e = let v : (0 * 256 + hi) * 256 + lo ≡ 0x9000 = omega arith in rw v

-- A response of any payload and a status word means success exactly when the status word is 9000.
pub get_card_return_code-ok :
    (payload : List ℕ) (hi lo : ℕ)
    → (get_card_return_code (payload ++ (hi ∷ lo ∷ [])) ≡ ok) ↔ (hi * 256 + lo ≡ 0x9000)
unfolding get_card_return_code
get_card_return_code-ok payload hi lo =
    let code = (get_data-trailer payload hi lo).1 in
    (
      λ e. word_of_success hi lo (sym code ∙ success_of_ok _ e),
      λ e. ap card_return_code_of (code ∙ success_of_word hi lo e),
    )
