-- ===== src/Bluetooth/Message/MaxMsgSize.antt =====
-- BluetoothMessageParameterMaxMsgSize.cpp: the number that is written and the number that is read.
use ausweisapp2_android_sdk.Base.{
  ℕ, ◌/◌, ◌%◌, ◌<◌, ◌≡◌, refl, sym, ◌∙◌, ◌^◌, ◌↔◌, Bool, true, false, not, ◌&&◌, ltb, ◌==◌, ==_iff,
  arith, passes, passes_at,
}
use ausweisapp2_android_sdk.Bluetooth.Message.{get_max_msg_size, max_msg_size_from, max_msg_size_of}

same : Bool → Bool → Bool
same true b = b
same false b = not b

reads_back : Bool → ℕ → Bool
unfolding get_max_msg_size same
reads_back true n =
    same (get_max_msg_size true (n / 256) (n % 256) == n) (ltb (n / 256) 128 && ltb (n % 256) 128)
reads_back false n = get_max_msg_size false (n / 256) (n % 256) == n

unsigned_table : passes (reads_back false) 65536 ≡ true
unfolding passes reads_back
unsigned_table = refl

signed_table : passes (reads_back true) 65536 ≡ true
unfolding passes reads_back
signed_table = refl

same-true : (a b : Bool) → same a b ≡ true → (a ≡ true) ↔ (b ≡ true)
unfolding same
same-true true b e = (λ _. e, λ _. refl)
same-true false b e = (λ h. cc, λ h. ground arith)

small_bytes : (a b : ℕ) → ((ltb a 128 && ltb b 128) ≡ true) ↔ ((a < 128) × (b < 128))
small_bytes a b = (λ h. (ground arith, ground arith), λ h. ground arith)

written :
    (char_signed : Bool) (n : ℕ)
    → n < 65536
    → max_msg_size_from char_signed (max_msg_size_of n).value
      ≡ get_max_msg_size char_signed (n / 256) (n % 256)
unfolding max_msg_size_from max_msg_size_of
written char_signed n h =
    let small : n / 2 ^ 16 ≡ 0 = omega arith in
    let high : n / 256 % 256 ≡ n / 256 = omega arith in rw (small, high)

-- Where `char` is unsigned, every 16-bit message size is read back from its two bytes.
pub max_msg_size-unsigned :
    (n : ℕ) → n < 65536 → max_msg_size_from false (max_msg_size_of n).value ≡ n
max_msg_size-unsigned n h =
    written false n h
    ∙ (==_iff _ n).0 (unfold reads_back in passes_at (reads_back false) 65536 n h unsigned_table)

-- Where `char` is signed, a 16-bit message size is read back exactly when both of its bytes are
-- below 128.
pub max_msg_size-signed :
    (n : ℕ)
    → n < 65536
    → (max_msg_size_from true (max_msg_size_of n).value ≡ n) ↔ ((n / 256 < 128) × (n % 256 < 128))
max_msg_size-signed n h =
    let row =
      same-true (get_max_msg_size true (n / 256) (n % 256) == n)
        (ltb (n / 256) 128 && ltb (n % 256) 128)
        (unfold reads_back in passes_at (reads_back true) 65536 n h signed_table) in
    (
      λ e. (small_bytes _ _).0 (row.0 ((==_iff _ n).1 (sym (written true n h) ∙ e))),
      λ b. written true n h ∙ (==_iff _ n).0 (row.1 ((small_bytes _ _).1 b)),
    )
