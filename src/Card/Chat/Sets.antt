-- ===== src/Card/Chat/Sets.antt =====
-- setAccessRight, removeAccessRight and their like of src/card/base/asn1/Chat.cpp on a CHAT's rights.
use ausweisapp2_android_sdk.Base.{
  true, false, List, [], ◌∷◌, ◌≡◌, refl, ap, ◌∙◌, inl, inr, if◌then◌else◌, Bool-cases, arith,
}
use ausweisapp2_android_sdk.Card.AccessRight.{AccessRight, right_value, same_right}
use ausweisapp2_android_sdk.Card.Certificates.{AccessRole, at, dv_no_f, dv_od, cvca, unknown_role}
use ausweisapp2_android_sdk.Card.Chat.{
  Template, is_masked, get_access_role, has_access_right, get_access_rights, contains_right,
  set_access_right, set_access_rights, remove_access_right, remove_access_rights,
  remove_all_access_rights,
}
use ausweisapp2_android_sdk.Card.Chat.Fields.{IsFull, IsTemplate}
use ausweisapp2_android_sdk.Card.Chat.Writes.{set_template_bit-IsWritten}
use ausweisapp2_android_sdk.Card.Chat.Rights.{right_value-lt}
use ausweisapp2_android_sdk.Card.Chat.Grants.{
  Grant, view, grant, grant_all, touched, touched-full, nothing_left, view-written,
}

pub set_access_right_lem :
    (right : AccessRight) (template : Template)
    → IsTemplate template
    → IsTemplate (set_access_right right template)
      × (view (set_access_right right template) ≡ grant true right (view template))
unfolding set_access_right
set_access_right_lem right template t =
    let w =
      set_template_bit-IsWritten (right_value right) true template
        (omega (arith, right_value-lt right)) t in
    (inr w.full, view-written right true template _ t w)

pub remove_access_right_lem :
    (right : AccessRight) (template : Template)
    → IsTemplate template
    → IsFull (remove_access_right right template)
      × (view (remove_access_right right template) ≡ grant false right (view template))
unfolding remove_access_right
remove_access_right_lem right template t =
    let w =
      set_template_bit-IsWritten (right_value right) false template
        (omega (arith, right_value-lt right)) t in
    (w.full, view-written right false template _ t w)

pub set_access_rights_lem :
    (rights : List AccessRight) (template : Template)
    → IsTemplate template
    → IsTemplate (set_access_rights rights template)
      × (view (set_access_rights rights template) ≡ grant_all rights (view template))
unfolding set_access_rights
set_access_rights_lem [] template t = (t, refl)
set_access_rights_lem (right ∷ rest) template t =
    let (t', e) = set_access_right_lem right template t in
    let (t'', e') = set_access_rights_lem rest (set_access_right right template) t' in
    (t'', e' ∙ ap (grant_all rest) e)

abbrev revoke_all : List AccessRight → Grant → Grant
revoke_all [] g = g
revoke_all (right ∷ rest) g = revoke_all rest (grant false right g)

remove_access_rights_lem :
    (rights : List AccessRight) (template : Template)
    → IsFull template
    → IsFull (remove_access_rights rights template)
      × (view (remove_access_rights rights template) ≡ revoke_all rights (view template))
unfolding remove_access_rights
remove_access_rights_lem [] template f = (f, refl)
remove_access_rights_lem (right ∷ rest) template f =
    let (f', e) = remove_access_right_lem right template (inr f) in
    let (f'', e') = remove_access_rights_lem rest (remove_access_right right template) f' in
    (f'', e' ∙ ap (revoke_all rest) e)

pub touched_twice : (role : AccessRole) → touched (touched role) ≡ touched role
touched_twice at = refl
touched_twice dv_no_f = refl
touched_twice dv_od = refl
touched_twice cvca = refl
touched_twice unknown_role = refl

revoke_all-role :
    (rights : List AccessRight) (g : Grant)
    → touched g.role ≡ g.role
    → (revoke_all rights g).role ≡ g.role
revoke_all-role [] g h = refl
revoke_all-role (right ∷ rest) g h =
    revoke_all-role rest (grant false right g) (touched_twice g.role) ∙ h

pub same_right_sym : (q r : AccessRight) → same_right q r ≡ same_right r q
unfolding same_right
same_right_sym q r = ground arith

revoke_all-granted :
    (rights : List AccessRight) (g : Grant) (r : AccessRight)
    → (revoke_all rights g).granted r ≡ (if contains_right rights r then false else g.granted r)
unfolding contains_right
revoke_all-granted [] g r = refl
revoke_all-granted (right ∷ rest) g r =
    revoke_all-granted rest (grant false right g) r ∙ rw (same_right_sym r right) (ground arith)

nothing_granted : get_access_rights [] ≡ []
unfolding get_access_rights is_masked
nothing_granted = refl

nothing_removed : remove_all_access_rights [] ≡ []
unfolding remove_all_access_rights is_masked
nothing_removed = refl

has_nothing : (r : AccessRight) → has_access_right r [] ≡ false
unfolding has_access_right contains_right
has_nothing r = rw nothing_granted refl

revoked :
    (template : Template) (r : AccessRight)
    → (if contains_right (get_access_rights template) r then false else has_access_right r template)
      ≡ false
unfolding has_access_right
revoked template r = elim (Bool-cases (contains_right (get_access_rights template) r)) [
  | inl h ↦ rw h refl
  | inr h ↦ rw h refl
]

pub remove_all_lem :
    (template : Template)
    → IsTemplate template
    → IsTemplate (remove_all_access_rights template)
      × (view (remove_all_access_rights template) ≡ nothing_left (view template))
unfolding remove_all_access_rights view
remove_all_lem template (inl e) =
    rw (e, nothing_removed)
      (inl refl, λ i. record { role = get_access_role []; granted = λ r. has_nothing r i })
remove_all_lem template (inr f) =
    let rights = get_access_rights template in
    let (f', e) = remove_access_rights_lem rights template f in
    let g = view template in
    (
      inr f',
      e ∙ (λ i. record {
        role = revoke_all-role rights g (touched-full template f) i;
        granted = λ r. (revoke_all-granted rights g r ∙ revoked template r) i;
      }),
    )
