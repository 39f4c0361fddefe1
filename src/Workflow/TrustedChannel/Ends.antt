-- ===== src/Workflow/TrustedChannel/Ends.antt =====
-- How long a run over the states of src/core/states/CompositeStateTrustedChannel.cpp can be.
use ausweisapp2_android_sdk.Base.{
  ℕ, suc, ◌+◌, ◌*◌, ◌≤◌, ◌≡◌, refl, ap, Bool, true, List, [], ◌∷◌, Option, none, some, leb, length,
  arith, inl, inr, Option-cases,
}
use ausweisapp2_android_sdk.Workflow.TrustedChannel.{
  TrustedState, TrustedSignal, trusted_transition, s_get_tc_token, s_start_paos, s_send_start_paos,
  s_initialize_framework, s_send_initialize_framework_response, s_did_list,
  s_send_did_list_response, s_extract_cvcs_from_eac1_input_type, s_pre_verification,
  s_certificate_description_check, s_check_certificates, s_edit_access_rights, s_state_pace,
  s_clear_pace_passwords, s_did_authenticate_eac1, s_send_did_authenticate_response_eac1,
  s_eac_additional_input_type, s_send_did_authenticate_response_eac_additional_input,
  s_process_certificates_from_eac2, s_did_authenticate_eac2, s_send_did_authenticate_response_eac2,
  s_transmit, s_send_transmit_response, s_send_disconnect_response, s_start_paos_response,
  s_update_retry_counter_final, s_clean_up_reader_manager, continued, aborted, fire_continue,
}

-- The most transitions that are left, of those that are no further Transmit message.
abbrev pub rank : TrustedState → ℕ
rank continued = 0
rank aborted = 0
rank s_clean_up_reader_manager = 1
rank s_update_retry_counter_final = 2
rank s_start_paos_response = 3
rank s_send_disconnect_response = 4
rank s_send_transmit_response = 5
rank s_transmit = 6
rank s_send_did_authenticate_response_eac2 = 7
rank s_did_authenticate_eac2 = 8
rank s_process_certificates_from_eac2 = 9
rank s_send_did_authenticate_response_eac_additional_input = 10
rank s_eac_additional_input_type = 11
rank s_send_did_authenticate_response_eac1 = 12
rank s_did_authenticate_eac1 = 13
rank s_clear_pace_passwords = 14
rank s_state_pace = 15
rank s_edit_access_rights = 16
rank s_check_certificates = 17
rank s_certificate_description_check = 18
rank s_pre_verification = 19
rank s_extract_cvcs_from_eac1_input_type = 20
rank s_send_did_list_response = 21
rank s_did_list = 22
rank s_send_initialize_framework_response = 23
rank s_initialize_framework = 24
rank s_send_start_paos = 25
rank s_start_paos = 26
rank s_get_tc_token = 27

-- One more Transmit message of the server.
abbrev pub transmits_again : TrustedState → TrustedSignal → ℕ
transmits_again s_send_transmit_response fire_continue = 1
transmits_again _ _ = 0

-- The state after some signals, each of which has led somewhere.
unfoldable pub follow_signals : TrustedState → List TrustedSignal → Option TrustedState
unfolding trusted_transition
follow_signals s [] = some s
follow_signals s (g ∷ signals) = elim (trusted_transition s g) [
  | none ↦ none
  | some t ↦ follow_signals t signals
]

unfoldable pub count_transmits : TrustedState → List TrustedSignal → ℕ
unfolding trusted_transition
count_transmits s [] = 0
count_transmits s (g ∷ signals) = elim (trusted_transition s g) [
  | none ↦ 0
  | some t ↦ transmits_again s g + count_transmits t signals
]

abbrev falls : TrustedState → TrustedSignal → Option TrustedState → Bool
falls s g none = true
falls s g (some t) = leb (suc (rank t)) (rank s + 2 * transmits_again s g)

transition-falls :
    (s : TrustedState) (g : TrustedSignal) → falls s g (trusted_transition s g) ≡ true
unfolding trusted_transition
transition-falls s_send_transmit_response fire_continue = refl
transition-falls s_send_transmit_response _ = refl
transition-falls s_get_tc_token fire_continue = refl
transition-falls _ fire_continue = refl
transition-falls _ _ = refl

leb→≤ : (a b : ℕ) → leb a b ≡ true → a ≤ b
leb→≤ a b h = ground arith

falls-lt :
    (s u : TrustedState) (g : TrustedSignal)
    → trusted_transition s g ≡ some u
    → suc (rank u) ≤ rank s + 2 * transmits_again s g
falls-lt s u g led =
    let down : falls s g (some u) ≡ true = rw led at (transition-falls s g) in
    leb→≤ (suc (rank u)) (rank s + 2 * transmits_again s g) down

add_step : (n r u s k m : ℕ) → suc u ≤ s + 2 * k → n + r ≤ u + 2 * m → suc n + r ≤ s + 2 * (k + m)
add_step n r u s k m h l = omega arith

-- Every sequence of signals that leads from one state of the trusted channel to another is
-- bounded: by the distance of the two in a ranking of at most 27 and twice the number of Transmit
-- messages that the server sends in answer to a TransmitResponse.
pub follow_signals-length :
    (signals : List TrustedSignal) (s t : TrustedState)
    → follow_signals s signals ≡ some t
    → length signals + rank t ≤ rank s + 2 * count_transmits s signals
unfolding follow_signals count_transmits
follow_signals-length [] s t e = let same : s ≡ t = cc in let r = ap rank same in omega (arith, r)
follow_signals-length (g ∷ signals) s t e = elim (Option-cases (trusted_transition s g)) [
  | inl lost ↦ absurd (cc (rw (lost, follow_signals) at e))
  | inr (u, led) ↦
      rw (led, count_transmits)
        (add_step (length signals) (rank t) (rank u) (rank s) (transmits_again s g)
          (count_transmits u signals) (falls-lt s u g led)
          (follow_signals-length signals u t (rw (led, follow_signals) at e)))
]
