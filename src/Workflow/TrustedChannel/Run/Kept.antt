-- ===== src/Workflow/TrustedChannel/Run/Kept.antt =====
-- What there is in the states of src/core/states/CompositeStateTrustedChannel.cpp, and how the steps keep it.
use ausweisapp2_android_sdk.Base.{
  Bool, true, false, not, ◌&&◌, ◌||◌, none, some, ◌≡◌, refl, inl, inr, Option-cases, arith,
}
use ausweisapp2_android_sdk.Pace.Context.{Context}
use ausweisapp2_android_sdk.Pace.Machine
use ausweisapp2_android_sdk.Pace.Machine.{Machine, StateName, established, start}
use ausweisapp2_android_sdk.Pace.Invariant.{holds}
use ausweisapp2_android_sdk.Pace.Faults.Sound.{is_pin_done, has_connection, is_sound, keeps_sound}
use ausweisapp2_android_sdk.Pace.Faults.Runs.{start-is_sound}
use ausweisapp2_android_sdk.Workflow.TrustedChannel.{
  TrustedState, TrustedSignal, trusted_transition, s_get_tc_token, s_start_paos, s_send_start_paos,
  s_send_initialize_framework_response, s_did_list, s_initialize_framework,
  s_send_did_list_response, s_extract_cvcs_from_eac1_input_type, s_pre_verification,
  s_certificate_description_check, s_check_certificates, s_edit_access_rights, s_state_pace,
  s_clear_pace_passwords, s_did_authenticate_eac1, s_send_did_authenticate_response_eac1,
  s_eac_additional_input_type, s_send_did_authenticate_response_eac_additional_input,
  s_process_certificates_from_eac2, s_did_authenticate_eac2, s_send_did_authenticate_response_eac2,
  s_transmit, s_send_transmit_response, s_send_disconnect_response, s_start_paos_response,
  fire_continue, fire_abort,
}
use ausweisapp2_android_sdk.Workflow.TrustedChannel.Receive.{
  PaosType, unknown, did_authenticate_eac2, Reply, received,
}
use ausweisapp2_android_sdk.Workflow.TrustedChannel.Receive.Handled.{handler, expects}
use ausweisapp2_android_sdk.Workflow.TrustedChannel.Run.{
  Objects, set_received_message, has_card, has_objects, Channel, enter_state, move,
  leave_state_pace, sends, is_pace, is_abort,
}

-- What there is in a state: `k` a card connection, `p` the output of PACE, `d` a PIN channel.
unfoldable pub keeps_objects : TrustedState → (k p d : Bool) → Objects → Bool
keeps_objects s_get_tc_token k p d o = not d
keeps_objects s_start_paos k p d o = not d
keeps_objects s_send_start_paos k p d o = not d
keeps_objects s_initialize_framework k p d o = o.framework && not d
keeps_objects s_send_initialize_framework_response k p d o = o.framework && not d
keeps_objects s_did_list k p d o = o.dids && not d
keeps_objects s_send_did_list_response k p d o = o.dids && not d
keeps_objects s_extract_cvcs_from_eac1_input_type k p d o = o.eac1 && not d
keeps_objects s_pre_verification k p d o = o.eac1 && not d
keeps_objects s_certificate_description_check k p d o = o.eac1 && not d
keeps_objects s_check_certificates k p d o = o.eac1 && not d
keeps_objects s_edit_access_rights k p d o = o.eac1 && not d
keeps_objects s_state_pace k p d o = o.eac1
keeps_objects s_clear_pace_passwords k p d o = o.eac1 && (k && p)
keeps_objects s_did_authenticate_eac1 k p d o = o.eac1 && (k && p)
keeps_objects s_send_did_authenticate_response_eac1 k p d o = o.eac1
keeps_objects s_eac_additional_input_type k p d o = (o.eac1 && o.eac2) && (k && p)
keeps_objects s_send_did_authenticate_response_eac_additional_input k p d o =
    (o.eac1 && o.eac2) && (k && p)
keeps_objects s_process_certificates_from_eac2 k p d o = (o.eac1 && o.eac2) && (k && p)
keeps_objects s_did_authenticate_eac2 k p d o = (o.eac1 && o.eac2) && (k && p)
keeps_objects s_send_did_authenticate_response_eac2 k p d o = o.eac2 && k
keeps_objects s_transmit k p d o = o.transmits && k
keeps_objects s_send_transmit_response k p d o = o.transmits && k
keeps_objects s_send_disconnect_response k p d o = o.disconnected
keeps_objects s_start_paos_response k p d o = o.start_paos_result
keeps_objects _ k p d o = true

-- EAC2 is asked for over an established channel only.
unfoldable pub asks_rightly : Bool → Reply → Bool
asks_rightly k (received n did_authenticate_eac2) = k
asks_rightly k _ = true

-- PACE is entered without a PIN channel.
unfoldable pub may_enter : TrustedState → (k p d : Bool) → Objects → Bool
unfolding keeps_objects
may_enter s k p d o = keeps_objects s k p d o && (not (is_pace s) || not d)

-- The state that the next message leads to.
pub answer_kept :
    (s : TrustedState) (t : PaosType) (k p d : Bool) (o : Objects)
    → expects s t ≡ true
    → asks_rightly (k && p) (received 200 t) ≡ true
    → keeps_objects s k p d o ≡ true
    → (elim (handler t) [ none ↦ false | some u ↦ may_enter u k p d (set_received_message t o) ])
      ≡ true
unfolding expects asks_rightly may_enter handler set_received_message
answer_kept s_send_start_paos unknown k p d o e a h = absurd (cc e)
answer_kept s_send_start_paos _ k p d o e a h = ground arith
answer_kept s_send_initialize_framework_response unknown k p d o e a h = absurd (cc e)
answer_kept s_send_initialize_framework_response _ k p d o e a h = ground arith
answer_kept s_send_did_list_response unknown k p d o e a h = absurd (cc e)
answer_kept s_send_did_list_response _ k p d o e a h = ground arith
answer_kept s_send_did_authenticate_response_eac1 unknown k p d o e a h = absurd (cc e)
answer_kept s_send_did_authenticate_response_eac1 _ k p d o e a h = ground arith
answer_kept s_send_did_authenticate_response_eac_additional_input unknown k p d o e a h =
    absurd (cc e)
answer_kept s_send_did_authenticate_response_eac_additional_input _ k p d o e a h = ground arith
answer_kept s_send_did_authenticate_response_eac2 unknown k p d o e a h = absurd (cc e)
answer_kept s_send_did_authenticate_response_eac2 _ k p d o e a h = ground arith
answer_kept s_send_transmit_response unknown k p d o e a h = absurd (cc e)
answer_kept s_send_transmit_response _ k p d o e a h = ground arith
answer_kept s_send_disconnect_response unknown k p d o e a h = absurd (cc e)
answer_kept s_send_disconnect_response _ k p d o e a h = ground arith
answer_kept _ t k p d o e a h = absurd (cc e)

-- A state that is aborted, or that ends by its own work.
pub signal_kept :
    (s : TrustedState) (g : TrustedSignal) (k p d : Bool) (o : Objects)
    → is_pace s || (sends s && not (is_abort g)) ≡ false
    → keeps_objects s k p d o ≡ true
    → (elim (trusted_transition s g) [ none ↦ true | some u ↦ may_enter u k p d o ]) ≡ true
unfolding trusted_transition may_enter
signal_kept s_get_tc_token fire_continue k p d o e h = ground arith
signal_kept s_get_tc_token _ k p d o e h = ground arith
signal_kept _ fire_abort k p d o e h = ground arith
signal_kept _ _ k p d o e h = ground arith

abbrev pub keeps_at : TrustedState → Context → Objects → Bool
keeps_at s c o = keeps_objects s (has_card c) c.pace_output (is_pin_done c) o

-- What holds of a run: its state has its objects, and the machine of PACE is sound while it runs.
unfoldable pub is_kept : Channel → Bool
unfolding keeps_objects has_card is_pin_done holds is_sound
is_kept w =
    keeps_at w.state w.pace.context w.objects && (not (is_pace w.state) || holds is_sound w.pace)

pub both_true : (a b : Bool) → a ≡ true → b ≡ true → a && b ≡ true
both_true a b h k = ground arith

enter_state-is_kept :
    (s : TrustedState) (m : Machine) (o : Objects)
    → may_enter s (has_card m.context) m.context.pace_output (is_pin_done m.context) o ≡ true
    → is_kept (enter_state s m o) ≡ true
unfolding is_kept enter_state may_enter
enter_state-is_kept s_state_pace m o h =
    both_true o.eac1 (holds is_sound (start m.context m.readers)) (ground arith)
      (start-is_sound m.context m.readers (ground arith))
enter_state-is_kept _ m o h = ground arith

pub move-is_kept :
    (s : TrustedState) (g : TrustedSignal) (m : Machine) (o : Objects)
    → (trusted_transition s g ≡ none → is_kept (record { state = s; pace = m; objects = o }) ≡ true)
    → (elim (trusted_transition s g) [
      | none ↦ true
      | some u ↦ may_enter u (has_card m.context) m.context.pace_output (is_pin_done m.context) o
    ])
      ≡ true
    → is_kept (move s g m o) ≡ true
unfolding move
move-is_kept s g m o stays h = elim (Option-cases (trusted_transition s g)) [
  | inl e ↦ rw (e, move) (stays e)
  | inr (u, e) ↦ rw (e, move) (enter_state-is_kept u m o (rw e at h))
]

established_objects :
    (s : StateName) (c : Context)
    → s ≡ established
    → is_sound s c ≡ true
    → has_card c && c.pace_output ≡ true
unfolding is_sound keeps_sound has_connection has_card
established_objects s c e h = let h' : is_sound established c ≡ true = rw e at h in h'

pub leave_state_pace-is_kept :
    (m : Machine) (o : Objects) (s : StateName)
    → m.state ≡ s
    → holds is_sound m ≡ true
    → o.eac1 ≡ true
    → is_kept (leave_state_pace m o) ≡ true
unfolding leave_state_pace is_kept holds is_sound keeps_sound move trusted_transition enter_state
leave_state_pace-is_kept m o established e h a =
    rw (e, leave_state_pace)
      (both_true (o.eac1 && (has_card m.context && m.context.pace_output)) true
        (both_true o.eac1 (has_card m.context && m.context.pace_output) a
          (established_objects m.state m.context e h))
        refl)
leave_state_pace-is_kept m o Machine.aborted e h a = rw (e, leave_state_pace) (ground arith)
leave_state_pace-is_kept m o _ e h a = rw (e, leave_state_pace) (ground arith)

keeps_at-has_objects :
    (s : TrustedState) (c : Context) (o : Objects)
    → keeps_at s c o ≡ true
    → has_objects s c o ≡ true
unfolding keeps_objects has_objects has_card
keeps_at-has_objects s_get_tc_token c o h = refl
keeps_at-has_objects _ c o h = ground arith

pub is_kept-has_objects :
    (w : Channel) → is_kept w ≡ true → has_objects w.state w.pace.context w.objects ≡ true
unfolding is_kept
is_kept-has_objects w h = keeps_at-has_objects w.state w.pace.context w.objects (ground arith)
