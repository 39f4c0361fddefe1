-- ===== src/Card/Chat/Refines.antt =====
-- src/card/base/asn1/Chat.cpp against what a CHAT is for: a role and a set of access rights.
use ausweisapp2_android_sdk.Base.{true, false, List, [], ◌∷◌, ◌≡◌, refl, ap, ◌∙◌, inr}
use ausweisapp2_android_sdk.Card.AccessRight.{AccessRight}
use ausweisapp2_android_sdk.Card.Certificates.{AccessRole}
use ausweisapp2_android_sdk.Card.Chat.{
  Template, set_access_role, set_access_right, set_access_rights, remove_access_right,
  remove_all_access_rights,
}
use ausweisapp2_android_sdk.Card.Chat.Fields.{IsTemplate}
use ausweisapp2_android_sdk.Card.Chat.Grants.{
  Grant, view, grant, grant_all, with_role, nothing_left,
}
use ausweisapp2_android_sdk.Card.Chat.Sets.{
  set_access_right_lem, remove_access_right_lem, set_access_rights_lem, remove_all_lem,
}
use ausweisapp2_android_sdk.Card.Chat.Roles.{set_access_role_lem}

pub data Call : Type 0 where
  set_the_role : AccessRole → Call
  set_right : AccessRight → Call
  set_rights : List AccessRight → Call
  remove_right : AccessRight → Call
  remove_all : Call

unfoldable pub run_call : Call → Template → Template
unfolding set_access_role set_access_right set_access_rights remove_access_right
    remove_all_access_rights
run_call (set_the_role role) template = set_access_role role template
run_call (set_right right) template = set_access_right right template
run_call (set_rights rights) template = set_access_rights rights template
run_call (remove_right right) template = remove_access_right right template
run_call remove_all template = remove_all_access_rights template

unfoldable pub run_calls : List Call → Template → Template
unfolding run_call
run_calls [] template = template
run_calls (call ∷ calls) template = run_calls calls (run_call call template)

abbrev pub specify : Call → Grant → Grant
specify (set_the_role role) g = with_role role g
specify (set_right right) g = grant true right g
specify (set_rights rights) g = grant_all rights g
specify (remove_right right) g = grant false right g
specify remove_all g = nothing_left g

abbrev pub specify_all : List Call → Grant → Grant
specify_all [] g = g
specify_all (call ∷ calls) g = specify_all calls (specify call g)

run_call_lem :
    (call : Call) (template : Template)
    → IsTemplate template
    → IsTemplate (run_call call template)
      × (view (run_call call template) ≡ specify call (view template))
unfolding run_call
run_call_lem (set_the_role role) template t = set_access_role_lem role template t
run_call_lem (set_right right) template t = set_access_right_lem right template t
run_call_lem (set_rights rights) template t = set_access_rights_lem rights template t
run_call_lem (remove_right right) template t =
    let (f, e) = remove_access_right_lem right template t in (inr f, e)
run_call_lem remove_all template t = remove_all_lem template t

-- Every sequence of calls on a CHAT, from a new one or one of five bytes, leaves a new one or one
-- of five bytes, and acts on what getAccessRole and hasAccessRight read of it as on a role and a
-- set of access rights: each call changes the role or the rights that it names and nothing else,
-- except that a right that is set or removed on a new CHAT gives it the role AT, and that setting
-- the role UNKNOWN changes nothing.
pub run_calls_lem :
    (calls : List Call) (template : Template)
    → IsTemplate template
    → IsTemplate (run_calls calls template)
      × (view (run_calls calls template) ≡ specify_all calls (view template))
unfolding run_calls
run_calls_lem [] template t = (t, refl)
run_calls_lem (call ∷ calls) template t =
    let (t', e) = run_call_lem call template t in
    let (t'', e') = run_calls_lem calls (run_call call template) t' in
    (t'', e' ∙ ap (specify_all calls) e)
