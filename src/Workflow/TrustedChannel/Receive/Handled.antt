-- ===== src/Workflow/TrustedChannel/Receive/Handled.antt =====
-- Where an answer of the server leads, in src/core/states/StateGenericSendReceive.cpp and
-- CompositeStateTrustedChannel.cpp.
use ausweisapp2_android_sdk.Base.{
  ℕ, Bool, true, false, not, ◌&&◌, Option, none, some, leb, if◌then◌else◌, ◌≡◌, refl, inl, inr,
  Bool-cases, Option-cases, arith,
}
use ausweisapp2_android_sdk.Status.{
  Code, is_error, workflow_trustedchannel_error_from_server,
  workflow_unexpected_message_from_eidserver,
}
use ausweisapp2_android_sdk.Pace.Context.{Context, update_status}
use ausweisapp2_android_sdk.Workflow.TrustedChannel.{
  TrustedState, TrustedSignal, trusted_transition, s_send_start_paos,
  s_send_initialize_framework_response, s_send_did_list_response,
  s_send_did_authenticate_response_eac1, s_send_did_authenticate_response_eac_additional_input,
  s_send_did_authenticate_response_eac2, s_send_transmit_response, s_initialize_framework,
  s_did_list, s_extract_cvcs_from_eac1_input_type, s_eac_additional_input_type,
  s_process_certificates_from_eac2, s_transmit, s_send_disconnect_response, s_start_paos_response,
  fire_abort,
}
use ausweisapp2_android_sdk.Workflow.TrustedChannel.Receive.{
  PaosType, unknown, startpaos_response, initialize_framework, did_list, did_authenticate_eac1,
  did_authenticate_eac2, did_authenticate_eac_additional_input_type, transmit, disconnect,
  types_to_receive, index_of, next_signal, Reply, network_failed, received, unexpected_status,
  on_reply_finished,
}

-- The state that treats a message of a type.
unfoldable pub handler : PaosType → Option TrustedState
handler initialize_framework = some s_initialize_framework
handler did_list = some s_did_list
handler did_authenticate_eac1 = some s_extract_cvcs_from_eac1_input_type
handler did_authenticate_eac2 = some s_eac_additional_input_type
handler did_authenticate_eac_additional_input_type = some s_process_certificates_from_eac2
handler transmit = some s_transmit
handler disconnect = some s_send_disconnect_response
handler startpaos_response = some s_start_paos_response
handler _ = none

unfoldable pub expects : TrustedState → PaosType → Bool
unfolding types_to_receive index_of
expects s t = elim (index_of t (types_to_receive s)) [ none ↦ false | some i ↦ true ]

-- The answer is a message of a type that the state expects.
unfoldable pub is_answer : TrustedState → Reply → Bool
unfolding expects
is_answer s (network_failed code) = false
is_answer s (received status_code t) = not (leb 400 status_code) && expects s t

unfoldable pub handler_of : Reply → Option TrustedState
unfolding handler
handler_of (network_failed code) = none
handler_of (received status_code t) = handler t

-- The network says no success of a request that has failed.
unfoldable pub is_reply : Reply → Bool
unfolding is_error
is_reply (network_failed code) = is_error code
is_reply (received status_code t) = true

abbrev signal_of : TrustedState → PaosType → TrustedSignal
signal_of s t = elim (index_of t (types_to_receive s)) [
  | none ↦ fire_abort
  | some i ↦ next_signal s i
]

signal_of-handler :
    (s : TrustedState) (t : PaosType)
    → trusted_transition s (signal_of s t)
      ≡ (if expects s t then handler t else trusted_transition s fire_abort)
unfolding trusted_transition index_of types_to_receive next_signal expects handler
signal_of-handler s_send_start_paos unknown = refl
signal_of-handler s_send_start_paos _ = refl
signal_of-handler s_send_initialize_framework_response unknown = refl
signal_of-handler s_send_initialize_framework_response _ = refl
signal_of-handler s_send_did_list_response unknown = refl
signal_of-handler s_send_did_list_response _ = refl
signal_of-handler s_send_did_authenticate_response_eac1 unknown = refl
signal_of-handler s_send_did_authenticate_response_eac1 _ = refl
signal_of-handler s_send_did_authenticate_response_eac_additional_input unknown = refl
signal_of-handler s_send_did_authenticate_response_eac_additional_input _ = refl
signal_of-handler s_send_did_authenticate_response_eac2 unknown = refl
signal_of-handler s_send_did_authenticate_response_eac2 _ = refl
signal_of-handler s_send_transmit_response unknown = refl
signal_of-handler s_send_transmit_response _ = refl
signal_of-handler s_send_disconnect_response unknown = refl
signal_of-handler s_send_disconnect_response _ = refl
signal_of-handler _ t = refl

update_status-is_error :
    (code : Code) (c : Context)
    → is_error code ≡ true
    → is_error (update_status code c).status ≡ true
unfolding update_status is_error
update_status-is_error code c h = ground arith

unexpected_status-is_error : (t : PaosType) → is_error (unexpected_status t) ≡ true
unfolding is_error
unexpected_status-is_error unknown = refl
unexpected_status-is_error _ = refl

-- What the state does with a message, by its HTTP status and by what is found of its type.
abbrev treat_message :
    TrustedState → PaosType → Context → Bool → Bool → Option ℕ → Context × TrustedSignal
treat_message s t c true bad found =
    (update_status workflow_trustedchannel_error_from_server c, fire_abort)
treat_message s t c false true found =
    (update_status workflow_unexpected_message_from_eidserver c, fire_abort)
treat_message s t c false false none = (update_status (unexpected_status t) c, fire_abort)
treat_message s t c false false (some i) = (c, next_signal s i)

on_reply_finished-treat_message :
    (s : TrustedState) (n : ℕ) (t : PaosType) (c : Context)
    → on_reply_finished s (received n t) c
      ≡ treat_message s t c (leb 500 n) (leb 400 n) (index_of t (types_to_receive s))
unfolding on_reply_finished
on_reply_finished-treat_message s n t c = elim (Bool-cases (leb 500 n)) [
  | inl e ↦ rw e refl
  | inr e ↦ elim (Bool-cases (leb 400 n)) [
    | inl e' ↦ rw (e, e') refl
    | inr e' ↦
        rw (e, e')
          (elim (Option-cases (index_of t (types_to_receive s))) [
            | inl o ↦ rw o refl
            | inr (i, o) ↦ rw o refl
          ])
  ]
]

abbrev pub Handled : TrustedState → Reply → Context → Context × TrustedSignal → Type 0
Handled s reply c r =
    (trusted_transition s r.1
      ≡ (if is_answer s reply then handler_of reply else trusted_transition s fire_abort))
    × (if is_answer s reply then r.0 ≡ c else is_error r.0.status ≡ true)

treat_message-Handled :
    (s : TrustedState) (n : ℕ) (t : PaosType) (c : Context)
    → Handled s
        (received n t)
        c
        (treat_message s t c (leb 500 n) (leb 400 n) (index_of t (types_to_receive s)))
unfolding is_answer handler_of
treat_message-Handled s n t c = elim (Bool-cases (leb 400 n)) [
  | inl e ↦ elim (Bool-cases (leb 500 n)) [
    | inl e' ↦
        rw (e, e')
          (
            refl,
            update_status-is_error workflow_trustedchannel_error_from_server c
                (unfold is_error in refl),
          )
    | inr e' ↦
        rw (e, e')
          (
            refl,
            update_status-is_error workflow_unexpected_message_from_eidserver c
                (unfold is_error in refl),
          )
  ]
  | inr e ↦
      let e' : leb 500 n ≡ false = ground arith in
      let led = signal_of-handler s t in
      elim (Option-cases (index_of t (types_to_receive s))) [
        | inl o ↦
            let out : expects s t ≡ false = rw (o, expects) refl in
            rw (e, e', out, o)
              (refl, update_status-is_error (unexpected_status t) c (unexpected_status-is_error t))
        | inr (i, o) ↦
            let out : expects s t ≡ true = rw (o, expects) refl in
            rw (e, e', out, o) (rw (out, o, signal_of) at led, refl)
      ]
]

-- In every state, and for every reply of which the network reports a failure as an error: a
-- message whose HTTP status is below 400 and whose type the state expects leads to the state that
-- treats messages of its type and leaves the context as it is; every other reply leads to where
-- the state is aborted to, with an error status.
pub on_reply_finished-Handled :
    (s : TrustedState) (reply : Reply) (c : Context)
    → is_reply reply ≡ true
    → Handled s reply c (on_reply_finished s reply c)
unfolding is_answer is_reply
on_reply_finished-Handled s (network_failed code) c h =
    unfold on_reply_finished in (refl, update_status-is_error code c h)
on_reply_finished-Handled s (received n t) c h =
    rw (on_reply_finished-treat_message s n t c) (treat_message-Handled s n t c)
