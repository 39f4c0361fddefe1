-- ===== src/Workflow/Rights/Answers.antt =====
-- What addEffectiveAccessRight and removeEffectiveAccessRight of src/core/context/AuthContext.cpp
-- answer, and the right in the set that they leave.
use ausweisapp2_android_sdk.Base.{◌≡◌, refl, ap, sym, ◌∙◌, Bool, true, false, not, List, ==_iff}
use ausweisapp2_android_sdk.Card.AccessRight.{AccessRight, right_value, same_right}
use ausweisapp2_android_sdk.Card.Chat.{Template, contains_right}
use ausweisapp2_android_sdk.Workflow.Rights.{
  Eac1, Rights, add_effective_access_right, remove_effective_access_right,
}
use ausweisapp2_android_sdk.Workflow.Rights.Sets.{contains_right-remove_from}
use ausweisapp2_android_sdk.Workflow.Rights.Limited.{IsLimited, add_if, remove_if}

same_right_refl : (r : AccessRight) → same_right r r ≡ true
unfolding same_right
same_right_refl r = (==_iff (right_value r) (right_value r)).1 refl

add_if-answer :
    (right : AccessRight) (c : Rights) (there offered : Bool)
    → contains_right c.effective right ≡ there
    → contains_right (add_if there offered right c).1.effective right
      ≡ (add_if there offered right c).0
unfolding contains_right
add_if-answer right c true offered h = h
add_if-answer right c false true h = rw (same_right_refl right) refl
add_if-answer right c false false h = h

pub add_effective_access_right-answer :
    (right : AccessRight) (c : Rights)
    → contains_right (add_effective_access_right right c).1.effective right
      ≡ (add_effective_access_right right c).0
unfolding add_effective_access_right
add_effective_access_right-answer right c =
    add_if-answer right c (contains_right c.effective right) (contains_right c.optional right) refl

remove_if-answer :
    (right : AccessRight) (c : Rights) (needed there : Bool)
    → contains_right c.effective right ≡ there
    → (needed ≡ true → contains_right c.effective right ≡ true)
    → contains_right (remove_if needed there right c).1.effective right
      ≡ not (remove_if needed there right c).0
remove_if-answer right c true there h q = q refl
remove_if-answer right c false true h q =
    contains_right-remove_from right c.effective right ∙ rw (h, same_right_refl right) refl
remove_if-answer right c false false h q = h

pub remove_effective_access_right-answer :
    (chat : Template) (e : Eac1) (required : List AccessRight) (right : AccessRight) (c : Rights)
    → IsLimited chat e required c
    → contains_right (remove_effective_access_right right c).1.effective right
      ≡ not (remove_effective_access_right right c).0
unfolding remove_effective_access_right
remove_effective_access_right-answer chat e required right c l =
    remove_if-answer right c (contains_right c.required right) (contains_right c.effective right)
      refl (λ n. l.requires right (sym (ap (λ s. contains_right s right) l.kept) ∙ n))
