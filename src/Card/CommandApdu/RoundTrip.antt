-- ===== src/Card/CommandApdu/RoundTrip.antt =====
-- What the accessors of src/card/base/CommandApdu.cpp read from an APDU that its constructor built.
use ausweisapp2_android_sdk.Base.{
  ℕ, zero, suc, ◌+◌, ◌*◌, ◌≤◌, ◌<◌, ◌≡◌, refl, ◌∙◌, true, List, [], ◌∷◌, ◌++◌, arith, ltb, leb,
  take_nil, if◌then◌else◌, length, length-append, take, get_or, take-length_append,
  get_or-append_at, ◌≢◌, ◌⊎◌, inl, inr, Bool-cases,
}
use ausweisapp2_android_sdk.Card.CommandApdu.{
  command_apdu, get_cla, get_ins, get_p1, get_p2, get_lc, get_le, get_data, extended_max_lc,
  extended_max_le, needs_extended_length, short_max_lc, short_max_le, high_byte, low_byte, short_le,
  extended_le,
}

abbrev short_tail : ℕ → List ℕ
short_tail le = if ltb 0 le then low_byte le ∷ [] else []

abbrev extended_tail : ℕ → List ℕ
extended_tail le = if ltb 0 le then high_byte le ∷ low_byte le ∷ [] else []

module _ (cla ins p1 p2 : ℕ) where
  abbrev header : List ℕ → List ℕ
  header rest = cla ∷ ins ∷ p1 ∷ p2 ∷ rest

  -- The layouts.
  layout_nil :
      (le : ℕ) → le ≤ short_max_le → command_apdu cla ins p1 p2 [] le ≡ header (short_tail le)
  unfolding command_apdu
  layout_nil le h = ground arith

  layout_nil_extended :
      (le : ℕ)
      → short_max_le < le
      → le ≤ extended_max_le
      → command_apdu cla ins p1 p2 [] le ≡ header (0 ∷ high_byte le ∷ low_byte le ∷ [])
  unfolding command_apdu
  layout_nil_extended le h k = ground arith

  layout_short :
      (x : ℕ) (xs : List ℕ) (le : ℕ)
      → suc (length xs) ≤ short_max_lc
      → le ≤ short_max_le
      → command_apdu cla ins p1 p2 (x ∷ xs) le
        ≡ header (suc (length xs) ∷ ((x ∷ xs) ++ short_tail le))
  unfolding command_apdu
  layout_short x xs le h k = ground arith

  layout_extended :
      (x : ℕ) (xs : List ℕ) (le : ℕ)
      → suc (length xs) ≤ extended_max_lc
      → le ≤ extended_max_le
      → needs_extended_length (x ∷ xs) le ≡ true
      → command_apdu cla ins p1 p2 (x ∷ xs) le
        ≡ header (
            0
            ∷ high_byte (suc (length xs))
            ∷ low_byte (suc (length xs))
            ∷ ((x ∷ xs) ++ extended_tail le))
  unfolding command_apdu
  layout_extended x xs le h k e = ground arith

  -- What is read from either layout.
  read_short :
      (n x : ℕ) (rest : List ℕ)
      → 0 < n
      → let apdu = header (n ∷ x ∷ rest) in
        (get_lc apdu ≡ n)
        × (get_data apdu ≡ take n (x ∷ rest))
        × (get_le apdu ≡ short_le apdu (5 + n))
  unfolding get_lc get_data get_le
  read_short n x rest h = (ground arith, ground arith, ground arith)

  read_extended :
      (hi lo x : ℕ) (rest : List ℕ)
      → let n = hi * 256 + lo in
        let apdu = header (0 ∷ hi ∷ lo ∷ x ∷ rest) in
        0 < n
        → (get_lc apdu ≡ n)
          × (get_data apdu ≡ take n (x ∷ rest))
          × (get_le apdu ≡ extended_le apdu (7 + n))
  unfolding get_lc get_data get_le
  read_extended hi lo x rest h = (ground arith, ground arith, ground arith)

short_le-append :
    (front : List ℕ) (le offset : ℕ)
    → offset ≡ length front
    → le ≤ short_max_le
    → short_le (front ++ short_tail le) offset ≡ le
unfolding short_le
short_le-append front le offset e h =
    ground
      (arith, length-append front (short_tail le), get_or-append_at offset front (low_byte le) [] 0)

get_or-append_next :
    (n : ℕ) (xs : List ℕ) (x y : ℕ) (ys : List ℕ)
    → n ≡ length xs
    → get_or (xs ++ (x ∷ y ∷ ys)) (n + 1) 0 ≡ y
get_or-append_next n [] x y ys e = ground arith
get_or-append_next zero (z ∷ xs) x y ys e = absurd (omega arith)
get_or-append_next (suc n) (z ∷ xs) x y ys e =
    ground (arith, get_or-append_next n xs x y ys (omega arith))

extended_le-append :
    (front : List ℕ) (le offset : ℕ)
    → offset ≡ length front
    → le ≤ extended_max_le
    → extended_le (front ++ extended_tail le) offset ≡ le
unfolding extended_le
extended_le-append front le offset e h = ground (
  arith,
  length-append front (extended_tail le),
  get_or-append_at offset front (high_byte le) (low_byte le ∷ []) 0,
  get_or-append_next offset front (high_byte le) (low_byte le) [],
)

module _ (cla ins p1 p2 : ℕ) where
  fields_short :
      (x : ℕ) (xs : List ℕ) (le : ℕ)
      → suc (length xs) ≤ short_max_lc
      → le ≤ short_max_le
      → let apdu = command_apdu cla ins p1 p2 (x ∷ xs) le in
        (get_data apdu ≡ x ∷ xs) × (get_le apdu ≡ le)
  fields_short x xs le h k =
      let (lc, payload, rest) =
        read_short cla ins p1 p2 (suc (length xs)) x (xs ++ short_tail le) (omega arith) in
      rw (layout_short cla ins p1 p2 x xs le h k) (
        payload ∙ take-length_append (x ∷ xs) (short_tail le),
        rest
            ∙ short_le-append (cla ∷ ins ∷ p1 ∷ p2 ∷ suc (length xs) ∷ x ∷ xs) le _ (omega arith) k,
      )

  fields_extended :
      (x : ℕ) (xs : List ℕ) (le : ℕ)
      → suc (length xs) ≤ extended_max_lc
      → le ≤ extended_max_le
      → needs_extended_length (x ∷ xs) le ≡ true
      → let apdu = command_apdu cla ins p1 p2 (x ∷ xs) le in
        (get_data apdu ≡ x ∷ xs) × (get_le apdu ≡ le)
  fields_extended x xs le h k e =
      let n = suc (length xs) in
      let (lc, payload, rest) =
        read_extended cla ins p1 p2 (high_byte n) (low_byte n) x (xs ++ extended_tail le)
          (omega arith) in
      let size : high_byte n * 256 + low_byte n ≡ n = omega arith in
      rw (layout_extended cla ins p1 p2 x xs le h k e) (
        payload ∙ rw size (take-length_append (x ∷ xs) (extended_tail le)),
        rest
            ∙ extended_le-append (cla ∷ ins ∷ p1 ∷ p2 ∷ 0 ∷ high_byte n ∷ low_byte n ∷ x ∷ xs) le _
                (omega arith) k,
      )

  header_fields :
      (payload : List ℕ) (le : ℕ)
      → length payload ≤ extended_max_lc
      → le ≤ extended_max_le
      → let apdu = command_apdu cla ins p1 p2 payload le in
        (get_cla apdu ≡ cla) × (get_ins apdu ≡ ins) × (get_p1 apdu ≡ p1) × (get_p2 apdu ≡ p2)
  unfolding command_apdu get_cla get_ins get_p1 get_p2
  header_fields payload le h k = (ground arith, ground arith, ground arith, ground arith)

  fields_cons :
      (x : ℕ) (xs : List ℕ) (le : ℕ)
      → suc (length xs) ≤ extended_max_lc
      → le ≤ extended_max_le
      → let apdu = command_apdu cla ins p1 p2 (x ∷ xs) le in
        (get_data apdu ≡ x ∷ xs) × (get_le apdu ≡ le)
  fields_cons x xs le h k = elim (Bool-cases (needs_extended_length (x ∷ xs) le)) [
    | inl e ↦ fields_extended x xs le h k e
    | inr e ↦
        fields_short x xs le (unfold needs_extended_length in ground arith)
          (unfold needs_extended_length in ground arith)
  ]

  get_data-nil : (le : ℕ) → le ≤ extended_max_le → get_data (command_apdu cla ins p1 p2 [] le) ≡ []
  unfolding get_data
  get_data-nil le k = elim (Bool-cases (leb le short_max_le)) [
    | inl e ↦ rw (layout_nil cla ins p1 p2 le (ground arith)) (ground arith)
    | inr e ↦
        rw (layout_nil_extended cla ins p1 p2 le (ground arith) k)
          (ground (arith, take_nil {A = ℕ} (high_byte le * 256 + low_byte le)))
  ]

  get_le-nil :
      (le : ℕ)
      → (le ≤ short_max_le) ⊎ (le ≡ extended_max_le)
      → get_le (command_apdu cla ins p1 p2 [] le) ≡ le
  unfolding get_le
  get_le-nil le c =
      ground (arith, layout_nil cla ins p1 p2 le, layout_nil_extended cla ins p1 p2 le)

  -- A command that was built from a payload of at most 0xFFFF bytes and an expected length of at
  -- most 0x10000 gives back its four header bytes and its payload, in the short and the extended
  -- layout.
  pub get_data-command_apdu :
      (payload : List ℕ) (le : ℕ)
      → length payload ≤ extended_max_lc
      → le ≤ extended_max_le
      → let apdu = command_apdu cla ins p1 p2 payload le in
        (get_cla apdu ≡ cla)
        × (get_ins apdu ≡ ins)
        × (get_p1 apdu ≡ p1)
        × (get_p2 apdu ≡ p2)
        × (get_data apdu ≡ payload)
  get_data-command_apdu [] le h k =
      let (a, b, c, d) = header_fields [] le h k in (a, b, c, d, get_data-nil le k)
  get_data-command_apdu (x ∷ xs) le h k =
      let (a, b, c, d) = header_fields (x ∷ xs) le h k in (a, b, c, d, (fields_cons x xs le h k).0)

  -- A command that was built from a payload of at most 0xFFFF bytes and an expected length of at
  -- most 0x10000 gives back the expected length, if that is at most 0x100, or is 0x10000, or
  -- there is a payload.
  pub get_le-command_apdu :
      (payload : List ℕ) (le : ℕ)
      → length payload ≤ extended_max_lc
      → le ≤ extended_max_le
      → (le ≤ short_max_le) ⊎ ((le ≡ extended_max_le) ⊎ (payload ≢ []))
      → get_le (command_apdu cla ins p1 p2 payload le) ≡ le
  get_le-command_apdu [] le h k (inl c) = get_le-nil le (inl c)
  get_le-command_apdu [] le h k (inr (inl c)) = get_le-nil le (inr c)
  get_le-command_apdu [] le h k (inr (inr c)) = absurd (c refl)
  get_le-command_apdu (x ∷ xs) le h k c = (fields_cons x xs le h k).1

  -- Without a payload, an expected length above 0x100 and below 0x10000 is lost: it is read as
  -- the length of a payload, and the expected length as 0.
  pub get_le_lost :
      (le : ℕ)
      → short_max_le < le
      → le < extended_max_le
      → let apdu = command_apdu cla ins p1 p2 [] le in (get_lc apdu ≡ le) × (get_le apdu ≡ 0)
  unfolding command_apdu get_lc get_le
  get_le_lost le h k = ground arith
