-- ===== src/Card/ChainBuilder/Ordered.antt =====
-- The chains of src/card/base/asn1/ChainBuilder.h: in the order of the relation, without
-- repetition, from the pool, and what is left of the pool.
use ausweisapp2_android_sdk.Base.{
  ℕ, ◌+◌, ◌≤◌, ◌<◌, Bool, true, false, ◌||◌, List, [], ◌∷◌, ◌++◌, ◌≡◌, refl, sym, ap, ◌⊎◌, inl, inr,
  ◌↔◌, if◌then◌else◌, length, arith, Bool-cases,
}
use ausweisapp2_android_sdk.Card.ChainBuilder.{contains, is_child_of_last, is_parent_of_first}

module _ {A : Type 0} where
  abbrev pub In : A → List A → Type 0
  In x [] = ⊥
  In x (y ∷ rest) = (x ≡ y) ⊎ In x rest

  abbrev pub All {κ} : (A → Type κ) → List A → Type κ
  All P [] = Unit
  All P (x ∷ rest) = P x × All P rest

  pub All-append {κ} : (P : A → Type κ) (xs ys : List A) → All P xs → All P ys → All P (xs ++ ys)
  All-append P [] ys h k = k
  All-append P (x ∷ xs) ys h k = (h.0, All-append P xs ys h.1 k)

  pub All-In_weaken : (y : A) (xs ys : List A) → All (λ x. In x ys) xs → All (λ x. In x (y ∷ ys)) xs
  All-In_weaken y [] ys h = tt
  All-In_weaken y (x ∷ xs) ys h = (inr h.0, All-In_weaken y xs ys h.1)

  pub All-In_self : (xs : List A) → All (λ x. In x xs) xs
  All-In_self [] = tt
  All-In_self (x ∷ xs) = (inl refl, All-In_weaken x xs xs (All-In_self xs))

module _ {A : Type 0} (same is_child : A → A → Bool) where
  -- Each element is a child of the one before it.
  abbrev pub Linked : List A → Type 0
  Linked [] = Unit
  Linked (x ∷ []) = Unit
  Linked (x ∷ y ∷ rest) = (is_child y x ≡ true) × Linked (y ∷ rest)

  abbrev pub Distinct : List A → Type 0
  Distinct [] = Unit
  Distinct (x ∷ rest) = (contains same is_child rest x ≡ false) × Distinct rest

  pub record IsOrdered (all chain : List A) : Type 0 where
    pub begins : (x : A) × (rest : List A) × (chain ≡ x ∷ rest)
    pub linked : Linked chain
    pub distinct : Distinct chain
    pub within : All (λ x. In x all) chain

  -- It is in the chain, or it cannot be added at either end.
  abbrev pub IsBarred : List A → A → Type 0
  IsBarred chain elem =
      (contains same is_child chain elem ≡ true)
      ⊎ ((is_child_of_last same is_child elem chain ≡ false)
          × (is_parent_of_first same is_child elem chain ≡ false))

  pub record IsChain (all chain : List A) : Type 0 where
    pub ordered : IsOrdered all chain
    pub maximal : All (IsBarred chain) all

  pub unused : List A → List A → ℕ
  unused chain [] = 0
  unused chain (x ∷ rest) = (if contains same is_child chain x then 0 else 1) + unused chain rest

  pub unused-le-length : (chain all : List A) → unused chain all ≤ length all
  unfolding unused
  unused-le-length chain [] = omega arith
  unused-le-length chain (x ∷ rest) = ground (arith, unused-le-length chain rest)

  Linked-last :
      (elem : A) (chain : List A)
      → Linked chain
      → is_child_of_last same is_child elem chain ≡ true
      → Linked (chain ++ elem ∷ [])
  unfolding is_child_of_last
  Linked-last elem [] l h = tt
  Linked-last elem (x ∷ []) l h = (h, tt)
  Linked-last elem (x ∷ y ∷ rest) l h = (l.0, Linked-last elem (y ∷ rest) l.1 h)

  Linked-first :
      (elem : A) (chain : List A)
      → Linked chain
      → is_parent_of_first same is_child elem chain ≡ true
      → Linked (elem ∷ chain)
  unfolding is_parent_of_first
  Linked-first elem [] l h = tt
  Linked-first elem (x ∷ rest) l h = (h, l)

  module _ (same_iff : (x y : A) → (same x y ≡ true) ↔ (x ≡ y)) where
    contains-append :
        (xs ys : List A) (x : A)
        → contains same is_child (xs ++ ys) x
          ≡ (contains same is_child xs x || contains same is_child ys x)
    unfolding contains
    contains-append [] ys x = refl
    contains-append (y ∷ xs) ys x = ground (arith, contains-append xs ys x)

    same_sym : (x y : A) → same x y ≡ false → same y x ≡ false
    same_sym x y h = elim (Bool-cases (same y x)) [
      | inl e ↦ ground (arith, (same_iff x y).1 (sym ((same_iff y x).0 e)))
      | inr e ↦ e
    ]

    Distinct-last :
        (elem : A) (chain : List A)
        → Distinct chain
        → contains same is_child chain elem ≡ false
        → Distinct (chain ++ elem ∷ [])
    unfolding contains
    Distinct-last elem [] d h = (refl, tt)
    Distinct-last elem (x ∷ rest) d h = (
      ground (arith, contains-append rest (elem ∷ []) x, same_sym x elem),
      Distinct-last elem rest d.1 (ground arith),
    )

    module _ (all chain : List A) (elem : A) (o : IsOrdered all chain) (found : In elem all)
        (new : contains same is_child chain elem ≡ false) where
      pub IsOrdered-last :
          is_child_of_last same is_child elem chain ≡ true → IsOrdered all (chain ++ elem ∷ [])
      IsOrdered-last h =
          let (x, rest, e) = o.begins in
          record {
            begins = (x, rest ++ elem ∷ [], ap (λ l. l ++ elem ∷ []) e);
            linked = Linked-last elem chain o.linked h;
            distinct = Distinct-last elem chain o.distinct new;
            within = All-append (λ x. In x all) chain (elem ∷ []) o.within (found, tt);
          }

      pub IsOrdered-first :
          is_parent_of_first same is_child elem chain ≡ true → IsOrdered all (elem ∷ chain)
      IsOrdered-first h = record {
        begins = (elem, chain, refl);
        linked = Linked-first elem chain o.linked h;
        distinct = (new, o.distinct);
        within = (found, o.within);
      }

    -- A longer chain leaves less of the pool.
    unused-le :
        (chain longer all : List A)
        → ((x : A) → contains same is_child chain x ≡ true → contains same is_child longer x ≡ true)
        → unused longer all ≤ unused chain all
    unfolding unused
    unused-le chain longer [] grows = omega arith
    unused-le chain longer (x ∷ all) grows =
        ground (arith, grows x, unused-le chain longer all grows)

    unused-lt :
        (chain longer all : List A) (elem : A)
        → ((x : A) → contains same is_child chain x ≡ true → contains same is_child longer x ≡ true)
        → contains same is_child chain elem ≡ false
        → contains same is_child longer elem ≡ true
        → In elem all
        → unused longer all < unused chain all
    unfolding unused
    unused-lt chain longer [] elem grows old new found = elim found [ ]
    unused-lt chain longer (x ∷ all) elem grows old new (inl e) =
        let was : contains same is_child chain x ≡ false = rw (sym e) old in
        let now : contains same is_child longer x ≡ true = rw (sym e) new in
        ground (arith, unused-le chain longer all grows)
    unused-lt chain longer (x ∷ all) elem grows old new (inr found) =
        ground (arith, grows x, unused-lt chain longer all elem grows old new found)

    pub unused-last :
        (all chain : List A) (elem : A)
        → contains same is_child chain elem ≡ false
        → In elem all
        → unused (chain ++ elem ∷ []) all < unused chain all
    unfolding contains
    unused-last all chain elem new found =
        unused-lt chain (chain ++ elem ∷ []) all elem
          (λ x h. ground (arith, contains-append chain (elem ∷ []) x)) new
          (ground (arith, contains-append chain (elem ∷ []) elem, (same_iff elem elem).1 refl))
          found

    pub unused-first :
        (all chain : List A) (elem : A)
        → contains same is_child chain elem ≡ false
        → In elem all
        → unused (elem ∷ chain) all < unused chain all
    unfolding contains
    unused-first all chain elem new found =
        unused-lt chain (elem ∷ chain) all elem (λ x h. ground arith) new
          (ground (arith, (same_iff elem elem).1 refl)) found
