-- ===== src/Card/Certificates/Builder/Issued.antt =====
-- The chains of src/card/base/asn1/CVCertificateChainBuilder.cpp, and the selected one, are paths of
-- certificates, each issued by the one before it.
use ausweisapp2_android_sdk.Base.{
  ℕ, Bool, true, List, [], ◌∷◌, ◌++◌, some, map, ◌≡◌, ◌∙◌, refl, ap, ◌⊎◌, inl, inr, arith, ==_iff,
  ◌≢◌, sym,
}
use ausweisapp2_android_sdk.Card.ChainBuilder.Ordered.{In, All, Linked, IsChain}
use ausweisapp2_android_sdk.Card.ChainBuilder.Pool.{build_chains_lem}
use ausweisapp2_android_sdk.Card.Certificates.{
  Cvc, same_bytes, is_issued_by, is_valid, is_issued_under, get_chain_for_pace_output,
  remove_invalid_chains,
}
use ausweisapp2_android_sdk.Card.Certificates.SubChain.{starts_chain}
use ausweisapp2_android_sdk.Card.Certificates.Selection.{IsCandidate, get_chain_for_pace_output_lem}
use ausweisapp2_android_sdk.Card.Certificates.Removal.{get_chain_unaffected}
use ausweisapp2_android_sdk.Card.Certificates.Builder.{
  is_child, child_at, same_address, certificates, new_builder,
}

same_bytes→≡ : (s t : List ℕ) → same_bytes s t ≡ true → s ≡ t
unfolding same_bytes
same_bytes→≡ [] [] h = refl
same_bytes→≡ [] (b ∷ t) h = ground arith
same_bytes→≡ (a ∷ s) [] h = ground arith
same_bytes→≡ (a ∷ s) (b ∷ t) h =
    let e : a ≡ b = (==_iff a b).0 (ground arith) in
    rw e (ap (λ l. b ∷ l) (same_bytes→≡ s t (ground arith)))

-- Each certificate names the holder of the one before it as its authority.
abbrev pub IsIssued : List Cvc → Type 0
IsIssued [] = Unit
IsIssued (c ∷ []) = Unit
IsIssued (c ∷ d ∷ rest) = (d.authority ≡ c.holder) × IsIssued (d ∷ rest)

-- A chain of certificates of the pool.
pub record IsPath (heap : ℕ → Cvc) (pool : List ℕ) (chain : List Cvc) : Type 0 where
  pub issued : IsIssued chain
  pub known : All (λ c. In c (map heap pool)) chain

IsIssued-behind : (before chain : List Cvc) → IsIssued (before ++ chain) → IsIssued chain
IsIssued-behind [] chain h = h
IsIssued-behind (c ∷ []) [] h = tt
IsIssued-behind (c ∷ []) (d ∷ chain) h = h.1
IsIssued-behind (c ∷ d ∷ before) chain h = IsIssued-behind (d ∷ before) chain h.1

child-authority :
    (child parent : Cvc) → is_child child parent ≡ true → child.authority ≡ parent.holder
unfolding is_child is_issued_by
child-authority child parent h = same_bytes→≡ child.authority parent.holder (ground arith)

same_bytes_refl : (s : List ℕ) → same_bytes s s ≡ true
unfolding same_bytes
same_bytes_refl [] = refl
same_bytes_refl (a ∷ s) = ground (arith, same_bytes_refl s)

issued_under :
    (car : List ℕ) (c : Cvc)
    → is_issued_under car c ≡ true
    → (c.authority ≡ car) × (c.authority ≢ c.holder)
unfolding is_issued_under is_issued_by
issued_under car c h = (
  same_bytes→≡ c.authority car (ground arith),
  λ e.
      (let own : same_bytes c.authority c.holder ≡ true =
          ap (λ l. same_bytes c.authority l) (sym e) ∙ same_bytes_refl c.authority in
        absurd (ground arith)),
)

module _ {A : Type 0} (P : A → Type 0) where
  All-behind : (before xs : List A) → All P (before ++ xs) → All P xs
  All-behind [] xs h = h
  All-behind (x ∷ before) xs h = All-behind before xs h.1

  All-at : (before : List A) (x : A) (behind : List A) → All P (before ++ x ∷ behind) → P x
  All-at before x behind h = (All-behind before (x ∷ behind) h).0

module _ (heap : ℕ → Cvc) (pool : List ℕ) where
  IsIssued-map :
      (chain : List ℕ) → Linked same_address (child_at heap) chain → IsIssued (map heap chain)
  unfolding child_at
  IsIssued-map [] h = tt
  IsIssued-map (a ∷ []) h = tt
  IsIssued-map (a ∷ b ∷ chain) h =
      (child-authority (heap b) (heap a) h.0, IsIssued-map (b ∷ chain) h.1)

  In-map : (a : ℕ) (addresses : List ℕ) → In a addresses → In (heap a) (map heap addresses)
  In-map a [] h = elim h [ ]
  In-map a (b ∷ rest) (inl e) = inl (ap heap e)
  In-map a (b ∷ rest) (inr h) = inr (In-map a rest h)

  known-map :
      (chain : List ℕ)
      → All (λ a. In a pool) chain
      → All (λ c. In c (map heap pool)) (map heap chain)
  known-map [] h = tt
  known-map (a ∷ chain) h = (In-map a pool h.0, known-map chain h.1)

  paths :
      (chains : List (List ℕ))
      → All (IsChain same_address (child_at heap) pool) chains
      → All (IsPath heap pool) (certificates heap chains)
  paths [] h = tt
  paths (chain ∷ chains) h = (
    record {
      issued = IsIssued-map chain h.0.ordered.linked;
      known = known-map chain h.0.ordered.within;
    },
    paths chains h.1,
  )

  -- A selected chain: a valid path that starts below one of the two authorities.
  pub record IsSelected (car_curr car_prev : List ℕ) (chain : List Cvc) : Type 0 where
    pub path : IsPath heap pool chain
    pub valid : is_valid chain ≡ true
    pub root : Cvc
    pub rest : List Cvc
    pub starts : chain ≡ root ∷ rest
    pub authority : (root.authority ≡ car_curr) ⊎ (root.authority ≡ car_prev)
    pub not_self_signed : root.authority ≢ root.holder

  candidate-IsPath :
      (wanted : Cvc → Bool) (chains : List (List Cvc)) (chain : List Cvc)
      → All (IsPath heap pool) chains
      → IsCandidate wanted chains chain
      → IsPath heap pool chain
  candidate-IsPath wanted chains chain h c =
      let whole =
        All-at (IsPath heap pool) c.before_chains (c.before ++ chain) c.behind_chains
          (rw c.among at h) in
      record {
        issued = IsIssued-behind c.before chain whole.issued;
        known = All-behind (λ c. In c (map heap pool)) c.before chain whole.known;
      }

  candidate-IsSelected :
      (wanted : Cvc → Bool) (car_curr car_prev : List ℕ) (chains : List (List Cvc))
      (chain : List Cvc)
      → ((c : Cvc)
          → wanted c ≡ true
          → ((c.authority ≡ car_curr) ⊎ (c.authority ≡ car_prev)) × (c.authority ≢ c.holder))
      → All (IsPath heap pool) chains
      → IsCandidate wanted chains chain
      → IsSelected car_curr car_prev chain
  unfolding starts_chain
  candidate-IsSelected wanted car_curr car_prev chains chain authority h c = record {
    path = candidate-IsPath wanted chains chain h c;
    valid = rw c.starts (ground arith);
    root = c.root;
    rest = c.rest;
    starts = c.starts;
    authority = (authority c.root (ground arith)).0;
    not_self_signed = (authority c.root (ground arith)).1;
  }

  -- From every pool of certificates the builder is made, and the chain that it selects for the
  -- output of PACE is empty, or a valid chain of certificates of the pool, each naming the holder
  -- of the one before it as its authority, whose first names the current or the previous
  -- authority and does not name its own holder.
  pub new_builder-IsSelected :
      (car_curr car_prev : List ℕ)
      → (chains : List (List Cvc)) × (new_builder heap pool ≡ some chains)
        × ((get_chain_for_pace_output chains car_curr car_prev ≡ [])
            ⊎ IsSelected car_curr car_prev (get_chain_for_pace_output chains car_curr car_prev))
  unfolding new_builder
  new_builder-IsSelected car_curr car_prev =
      let (chains, e, good, covered) = build_chains_lem same_address (child_at heap) ==_iff pool in
      let cvcs = certificates heap chains in
      let p = paths chains good in
      (
        remove_invalid_chains cvcs,
        rw (e, new_builder) refl,
        rw (get_chain_unaffected cvcs car_curr car_prev (heap 0)).0
            (elim (get_chain_for_pace_output_lem cvcs car_curr car_prev) [
              | inl c ↦ inr (
                  candidate-IsSelected (is_issued_under car_curr) car_curr car_prev cvcs _
                    (λ r h. (inl (issued_under car_curr r h).0, (issued_under car_curr r h).1)) p c)
              | inr (w, inl c) ↦ inr (
                  candidate-IsSelected (is_issued_under car_prev) car_curr car_prev cvcs _
                    (λ r h. (inr (issued_under car_prev r h).0, (issued_under car_prev r h).1)) p c)
              | inr (w, inr (w', empty)) ↦ inl empty
            ]),
      )
