-- ===== src/Card/SecureMessaging/Replay.antt =====
-- src/card/base/pace/SecureMessaging.cpp: what `decrypt` has checked of a response that it accepts.
use ausweisapp2_android_sdk.Base.{
  ℕ, ◌-◌, ◌/◌, ◌%◌, ◌^◌, ◌<◌, ◌≡◌, ◌≢◌, refl, ap, sym, ◌∙◌, inl, inr, Bool, true, false, not, some,
  List, [], ◌∷◌, ◌++◌, ◌==◌, ==_iff, if◌then◌else◌, get_or, length, length-append, take,
  take-length_append, drop, drop-length_append, replicate, arith, Bool-cases, Option-cases,
  is_empty,
}
use ausweisapp2_android_sdk.Pace.Context.{same_text}
use ausweisapp2_android_sdk.Card.ResponseApdu.{value, get_return_code}
use ausweisapp2_android_sdk.Card.SecureMessaging.{Cipher, increment, get_send_sequence_counter}
use ausweisapp2_android_sdk.Card.SecureMessaging.Response.{
  SecureMessagingResponse, secure_messaging_response, get_secured_status_code, response_to_mac,
  decrypt_data, accept_response, open_response, decrypt,
}

same_text→≡ : (s t : List ℕ) → same_text s t ≡ true → s ≡ t
unfolding same_text
same_text→≡ [] [] h = refl
same_text→≡ [] (b ∷ t) h = cc
same_text→≡ (a ∷ s) [] h = cc
same_text→≡ (a ∷ s) (b ∷ t) h =
    let first : a ≡ b = ground arith in
    ap (◌∷◌ a) (same_text→≡ s t (ground arith)) ∙ ap (λ x. x ∷ t) first

module _ (c : Cipher) where
  counter_digits : ℕ → List ℕ
  counter_digits n = n / 2 ^ 24 % 256 ∷ n / 2 ^ 16 % 256 ∷ n / 2 ^ 8 % 256 ∷ n % 256 ∷ []

  -- Two counters are told apart by the bytes that the MAC starts with.
  get_send_sequence_counter_injective :
      (n m : ℕ) (rest : List ℕ)
      → n < 2 ^ 32
      → m < 2 ^ 32
      → get_send_sequence_counter c n ++ rest ≡ get_send_sequence_counter c m ++ rest
      → n ≡ m
  unfolding get_send_sequence_counter counter_digits
  get_send_sequence_counter_injective n m rest hn hm e =
      let zeros : List ℕ = replicate (c.block_size - 4) 0 in
      let a = get_send_sequence_counter c n in
      let b = get_send_sequence_counter c m in
      let lengths : length a ≡ length b =
        omega
          (arith, length-append zeros (counter_digits n), length-append zeros (counter_digits m)) in
      let whole : a ≡ b =
        sym (take-length_append a rest)
        ∙ ap (take (length a)) e
        ∙ ap (λ k. take k (b ++ rest)) lengths
        ∙ take-length_append b rest in
      let digits : counter_digits n ≡ counter_digits m =
        sym (drop-length_append zeros (counter_digits n))
        ∙ ap (drop (length zeros)) whole
        ∙ drop-length_append zeros (counter_digits m) in
      let at_0 = ap (λ l. get_or l 0 0) digits in
      let at_1 = ap (λ l. get_or l 1 0) digits in
      let at_2 = ap (λ l. get_or l 2 0) digits in
      let at_3 = ap (λ l. get_or l 3 0) digits in omega (arith, at_0, at_1, at_2, at_3)

  -- What has been checked of a response that is accepted: its objects, their status word and their MAC.
  abbrev pub Verified : ℕ → List ℕ → Type 0
  Verified n buffer =
      (r : SecureMessagingResponse) × (secure_messaging_response c buffer ≡ some r)
      × (get_secured_status_code r ≡ value (get_return_code buffer))
      × (c.mac (get_send_sequence_counter c n ++ response_to_mac c r) ≡ r.checksum)

  accept_response-Verified :
      (n : ℕ) (buffer : List ℕ) (r : SecureMessagingResponse)
      → is_empty (accept_response c n buffer r) ≡ false
      → (get_secured_status_code r ≡ value (get_return_code buffer))
        × (c.mac (get_send_sequence_counter c n ++ response_to_mac c r) ≡ r.checksum)
  unfolding accept_response
  accept_response-Verified n buffer r h =
      let mac = c.mac (get_send_sequence_counter c n ++ response_to_mac c r) in
      let h' : is_empty (
            if not (get_secured_status_code r == value (get_return_code buffer))
            then []
            else if not (same_text mac r.checksum)
            then []
            else decrypt_data c n r ++ r.processing_status)
          ≡ false =
        h in
      elim (Bool-cases (get_secured_status_code r == value (get_return_code buffer))) [
        | inr other ↦ absurd (cc (rw other at h'))
        | inl same ↦ elim (Bool-cases (same_text mac r.checksum)) [
          | inr forged ↦ absurd (cc (rw forged at (rw same at h')))
          | inl genuine ↦ (
            (==_iff (get_secured_status_code r) (value (get_return_code buffer))).0 same,
            same_text→≡ mac r.checksum genuine,
          )
        ]
      ]

  open_response-Verified :
      (n : ℕ) (buffer : List ℕ) → is_empty (open_response c n buffer) ≡ false → Verified n buffer
  unfolding open_response
  open_response-Verified n buffer h = elim (Option-cases (secure_messaging_response c buffer)) [
    | inl invalid ↦ absurd (cc (rw (invalid, is_empty) at h))
    | inr (r, valid) ↦
        let accepted = accept_response-Verified n buffer r (rw (valid, is_empty) at h) in
        (r, valid, accepted.0, accepted.1)
  ]

  decrypt-Verified :
      (n : ℕ) (buffer : List ℕ)
      → is_empty (decrypt c n buffer).1 ≡ false
      → Verified (increment n) buffer
  unfolding decrypt
  decrypt-Verified n buffer h =
      let run : Bool → ℕ × List ℕ =
        λ b. if not b then (n, []) else (increment n, open_response c (increment n) buffer) in
      elim (Bool-cases c.initialized) [
        | inr unready ↦ absurd (cc (ap (λ b. is_empty (run b).1) (sym unready) ∙ h))
        | inl ready ↦
            open_response-Verified (increment n) buffer
              (ap (λ b. is_empty (run b).1) (sym ready) ∙ h)
      ]

  increment-lt : (n : ℕ) → increment n < 2 ^ 32
  unfolding increment
  increment-lt n = omega arith

  -- For every cipher, a response that is accepted at two counters whose increments differ gives
  -- two different inputs with the same MAC: a response cannot be accepted a second time without a
  -- collision of the MAC.
  pub decrypt_replayed :
      (n m : ℕ) (buffer : List ℕ)
      → increment n ≢ increment m
      → is_empty (decrypt c n buffer).1 ≡ false
      → is_empty (decrypt c m buffer).1 ≡ false
      → (a b : List ℕ) × (a ≢ b) × (c.mac a ≡ c.mac b)
  decrypt_replayed n m buffer apart first second =
      let (r, valid, code, genuine) = decrypt-Verified n buffer first in
      let (r', valid', code', genuine') = decrypt-Verified m buffer second in
      let same : r ≡ r' = cc in
      let a = get_send_sequence_counter c (increment n) ++ response_to_mac c r in
      let b = get_send_sequence_counter c (increment m) ++ response_to_mac c r in
      (
        a,
        b,
        λ e. apart (
            get_send_sequence_counter_injective (increment n) (increment m) (response_to_mac c r)
              (increment-lt n) (increment-lt m) e),
        genuine
            ∙ ap (λ x. x.checksum) same
            ∙ sym genuine'
            ∙ ap (λ x. c.mac (get_send_sequence_counter c (increment m) ++ response_to_mac c x))
                (sym same),
      )
