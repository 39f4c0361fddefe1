-- ===== src/Workflow/Rights/Sets.antt =====
-- The sets of access rights of src/core/context/AuthContext.cpp.
use ausweisapp2_android_sdk.Base.{
  ◌≡◌, refl, ap, sym, ◌∙◌, Bool, true, false, not, ◌&&◌, ◌||◌, List, [], ◌∷◌, ◌++◌, ==_iff, inl,
  inr, Bool-cases, arith,
}
use ausweisapp2_android_sdk.Card.AccessRight.{AccessRight, right_value, same_right}
use ausweisapp2_android_sdk.Card.Chat.{contains_right}
use ausweisapp2_android_sdk.Workflow.Rights.{keep_rights, intersect, subtract, unite, remove_from}

same_right-value : (a b : AccessRight) → same_right a b ≡ true → right_value a ≡ right_value b
unfolding same_right
same_right-value a b h = (==_iff (right_value a) (right_value b)).0 h

-- A set does not tell rights of one number apart.
pub contains_right-same :
    (s : List AccessRight) (a b : AccessRight)
    → same_right a b ≡ true
    → contains_right s a ≡ contains_right s b
unfolding contains_right same_right
contains_right-same [] a b h = refl
contains_right-same (r ∷ s) a b h =
    let values : right_value a ≡ right_value b = same_right-value a b h in
    rw (values, contains_right-same s a b h) refl

pub contains_right-keep_rights :
    (p : AccessRight → Bool)
    → ((a b : AccessRight) → same_right a b ≡ true → p a ≡ p b)
    → (s : List AccessRight) (r : AccessRight)
    → contains_right (keep_rights p s) r ≡ contains_right s r && p r
unfolding contains_right keep_rights
contains_right-keep_rights p e [] r = refl
contains_right-keep_rights p e (x ∷ s) r =
    let ih = contains_right-keep_rights p e s r in
    elim (Bool-cases (same_right x r)) [
      | inl same ↦ elim (Bool-cases (p x)) [
        | inl kept ↦ rw (kept, same) (sym kept ∙ e x r same)
        | inr lost ↦
            let out : p r ≡ false = sym (e x r same) ∙ lost in
            rw (lost, same, ih) (rw out (ground arith))
      ]
      | inr other ↦ elim (Bool-cases (p x)) [
        | inl kept ↦ rw (kept, other) ih
        | inr lost ↦ rw (lost, other) ih
      ]
    ]

pub contains_right-append :
    (s t : List AccessRight) (r : AccessRight)
    → contains_right (s ++ t) r ≡ contains_right s r || contains_right t r
unfolding contains_right
contains_right-append [] t r = refl
contains_right-append (x ∷ s) t r = rw (contains_right-append s t r) (ground arith)

pub contains_right-intersect :
    (s t : List AccessRight) (r : AccessRight)
    → contains_right (intersect s t) r ≡ contains_right s r && contains_right t r
contains_right-intersect s t r =
    contains_right-keep_rights (contains_right t) (contains_right-same t) s r

pub contains_right-subtract :
    (s t : List AccessRight) (r : AccessRight)
    → contains_right (subtract s t) r ≡ contains_right s r && not (contains_right t r)
contains_right-subtract s t r =
    contains_right-keep_rights (λ x. not (contains_right t x))
      (λ a b e. ap not (contains_right-same t a b e)) s r

same_right-same : (x a b : AccessRight) → same_right a b ≡ true → same_right x a ≡ same_right x b
unfolding same_right
same_right-same x a b h = rw (same_right-value a b h) refl

pub contains_right-remove_from :
    (right : AccessRight) (s : List AccessRight) (r : AccessRight)
    → contains_right (remove_from right s) r ≡ contains_right s r && not (same_right right r)
contains_right-remove_from right s r =
    contains_right-keep_rights (λ x. not (same_right right x))
      (λ a b e. ap not (same_right-same right a b e)) s r

pub contains_right-unite :
    (s t : List AccessRight) (r : AccessRight)
    → contains_right (unite s t) r ≡ contains_right s r || contains_right t r
contains_right-unite s t r =
    contains_right-append s (subtract t s) r ∙ rw (contains_right-subtract t s r) (ground arith)
