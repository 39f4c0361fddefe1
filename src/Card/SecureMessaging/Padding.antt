-- ===== src/Card/SecureMessaging/Padding.antt =====
-- src/card/base/pace/SecureMessaging.cpp: padding to the block size and back.
use native.Mathlib.Nat.{mod-lt, mod_self, mod-add-mod, add-mod_right}
use ausweisapp2_android_sdk.Base.{
  ℕ, zero, suc, ◌+◌, ◌-◌, ◌%◌, ◌≤◌, ◌<◌, ◌≡◌, refl, ap, sym, ◌∙◌, inl, inr, true, none, some, List,
  [], ◌∷◌, ◌++◌, ◌==◌, if◌then◌else◌, length, length-append, length-replicate, take-length_append,
  replicate, arith, Bool-cases, ==_iff,
}
use ausweisapp2_android_sdk.Card.SecureMessaging.{
  Cipher, iso_leading_pad_byte, last_index_of, pad_to_cipher_block_size,
  unpad_from_cipher_block_size,
}

last_index_of-replicate : (k : ℕ) → last_index_of iso_leading_pad_byte (replicate k 0) ≡ none
unfolding last_index_of
last_index_of-replicate zero = refl
last_index_of-replicate (suc k) = rw (last_index_of-replicate k) refl

last_index_of-delimiter :
    (k : ℕ) → last_index_of iso_leading_pad_byte (iso_leading_pad_byte ∷ replicate k 0) ≡ some zero
unfolding last_index_of
last_index_of-delimiter k = rw (last_index_of-replicate k, last_index_of) refl

last_index_of-append :
    (b j : ℕ) (xs ys : List ℕ)
    → last_index_of b ys ≡ some j
    → last_index_of b (xs ++ ys) ≡ some (length xs + j)
unfolding last_index_of
last_index_of-append b j [] ys h = h ∙ ap some (omega arith)
last_index_of-append b j (x ∷ xs) ys h =
    rw (last_index_of-append b j xs ys h) (ap some (omega arith))

-- The number of bytes that are added.
abbrev pub padding_size : ℕ → ℕ → ℕ
padding_size size n = if n % size == 0 then size else size - n % size

pub padding_size-lt : (size n : ℕ) → 0 < size → 0 < padding_size size n
padding_size-lt size n h = ground (arith, mod-lt n h)

pub padding_size-le : (size n : ℕ) → padding_size size n ≤ size
padding_size-le size n = ground arith

fills_blocks : (size n : ℕ) → 0 < size → (n + padding_size size n) % size ≡ 0
fills_blocks size n h = elim (Bool-cases (n % size == 0)) [
  | inl full ↦ rw full (add-mod_right n size ∙ (==_iff (n % size) 0).0 full)
  | inr rest ↦
      let whole : n % size + (size - n % size) ≡ size = omega (arith, mod-lt n h) in
      rw rest
        (sym (mod-add-mod n size (size - n % size)) ∙ ap (λ m. m % size) whole ∙ mod_self size)
]

module _ (c : Cipher) (sized : 0 < c.block_size) where
  pub length-pad :
      (xs : List ℕ)
      → length (pad_to_cipher_block_size c xs) ≡ length xs + padding_size c.block_size (length xs)
  unfolding pad_to_cipher_block_size
  length-pad xs =
      let n = padding_size c.block_size (length xs) in
      omega (
        arith,
        length-append xs (iso_leading_pad_byte ∷ replicate (n - 1) 0),
        length-replicate {A = ℕ} (n - 1) 0,
        padding_size-lt c.block_size (length xs) sized,
      )

  -- A padded text consists of blocks, and gives the text back.
  pub pad-blocks : (xs : List ℕ) → length (pad_to_cipher_block_size c xs) % c.block_size ≡ 0
  pad-blocks xs =
      ap (λ n. n % c.block_size) (length-pad xs) ∙ fills_blocks c.block_size (length xs) sized

  pub unpad-pad :
      (xs : List ℕ) → unpad_from_cipher_block_size c (pad_to_cipher_block_size c xs) ≡ xs
  unfolding unpad_from_cipher_block_size pad_to_cipher_block_size
  unpad-pad xs =
      let n = padding_size c.block_size (length xs) in
      let zeros : List ℕ = replicate (n - 1) 0 in
      let blocks : (length (pad_to_cipher_block_size c xs) % c.block_size == 0) ≡ true =
        (==_iff (length (pad_to_cipher_block_size c xs) % c.block_size) 0).1 (pad-blocks xs) in
      let position : last_index_of iso_leading_pad_byte (pad_to_cipher_block_size c xs)
          ≡ some (length xs) =
        last_index_of-append iso_leading_pad_byte zero xs (iso_leading_pad_byte ∷ zeros)
          (last_index_of-delimiter (n - 1))
        ∙ ap some (omega arith) in
      rw blocks (rw position (take-length_append xs (iso_leading_pad_byte ∷ zeros)))
