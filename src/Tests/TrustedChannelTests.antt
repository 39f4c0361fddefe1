-- ===== src/Tests/TrustedChannelTests.antt =====
-- Tests and witnesses for the trusted channel of src/core/states.
use ausweisapp2_android_sdk.Base.{
  ℕ, ◌+◌, ◌*◌, ◌≤◌, ◌≡◌, refl, true, false, List, [], ◌∷◌, none, some, length, arith,
}
use ausweisapp2_android_sdk.Status.{workflow_card_removed, workflow_cancellation_by_user, no_error}
use ausweisapp2_android_sdk.Pace.Context.{new_context}
use ausweisapp2_android_sdk.Card.Certificates.{AccessRole, Cvc, at, dv_od, cvca}
use ausweisapp2_android_sdk.Workflow.TrustedChannel.{
  s_start_paos_response, s_send_did_authenticate_response_eac1, s_process_certificates_from_eac2,
  s_send_start_paos, s_send_did_list_response, s_send_did_authenticate_response_eac2, continued,
  fire_continue, fire_abort, TrustedSignal,
}
use ausweisapp2_android_sdk.Pace.Machine.{start}
use ausweisapp2_android_sdk.Pace.Events.{cancelled, approve}
use ausweisapp2_android_sdk.Workflow.TrustedChannel.Run.{
  Objects, has_objects, begin_channel, ChannelEvent, in_pace, replied, fired, channel_run,
}
use ausweisapp2_android_sdk.Workflow.TrustedChannel.Run.Missing.{channel_run-missing}
use ausweisapp2_android_sdk.Workflow.TrustedChannel.Receive.{
  disconnect, startpaos_response, did_authenticate_eac2, received, did_authenticate_eac1,
  on_reply_finished,
}
use ausweisapp2_android_sdk.Workflow.TrustedChannel.Receive.Handled.{
  Handled, is_reply, on_reply_finished-Handled,
}
use ausweisapp2_android_sdk.Workflow.TrustedChannel.Ends.{
  follow_signals, rank, count_transmits, follow_signals-length,
}
use ausweisapp2_android_sdk.Workflow.TrustedChannel.Report.{
  told_status, raised, sent, ReportEvent, reports,
}
use ausweisapp2_android_sdk.Workflow.TrustedChannel.Report.Once.{
  told_errors, first_error, is_open, reports-first_error,
}
use ausweisapp2_android_sdk.Workflow.TrustedChannel.Extract.{
  extract_cvcs, terminals, dvs, extract_cvcs_lem,
}

-- The server asks for DIDAuthenticate EAC1 after the DID list.
on_reply_finished-Handled_example :
    Handled s_send_did_list_response
      (received 200 did_authenticate_eac1)
      new_context
      (on_reply_finished s_send_did_list_response (received 200 did_authenticate_eac1) new_context)
on_reply_finished-Handled_example =
    on_reply_finished-Handled s_send_did_list_response (received 200 did_authenticate_eac1)
      new_context (unfold is_reply in refl)

-- Two Transmit messages after EAC2, and a broken connection.
abbrev signals : List TrustedSignal
signals =
    fire_continue ∷ fire_continue ∷ fire_continue ∷ fire_continue ∷ fire_abort ∷ fire_continue
    ∷ fire_continue ∷ []

reaches_end : follow_signals s_send_did_authenticate_response_eac2 signals ≡ some continued
unfolding follow_signals
reaches_end = refl

follow_signals-length_example :
    length signals + rank continued
    ≤ rank s_send_did_authenticate_response_eac2
      + 2 * count_transmits s_send_did_authenticate_response_eac2 signals
follow_signals-length_example =
    follow_signals-length signals s_send_did_authenticate_response_eac2 continued reaches_end

abbrev events : List ReportEvent
events =
    sent s_send_start_paos
    ∷ sent s_send_did_list_response
    ∷ raised workflow_card_removed
    ∷ raised workflow_cancellation_by_user
    ∷ sent s_send_did_list_response
    ∷ sent s_send_did_list_response
    ∷ []

reports-first_error_example :
    told_errors (
      reports events (record {
        status = no_error;
        origin_server = false;
        start_paos_result = record { is_ok = true; code = no_error };
        error_reported_to_server = false;
      }))
    ≡ told_status workflow_card_removed ∷ []
unfolding first_error is_open
reports-first_error_example =
    reports-first_error (record { is_ok = true; code = no_error }) refl events refl

abbrev cvc_of : AccessRole → ℕ → Cvc
cvc_of role n = record {
  authority = 1 ∷ [];
  holder = n ∷ [];
  access_role = role;
  raw_body = n ∷ [];
  raw_signature = [];
}

abbrev cvcs : List Cvc
cvcs = cvc_of cvca 1 ∷ cvc_of dv_od 2 ∷ cvc_of at 3 ∷ []

extract_cvcs_lem_example :
    let r = extract_cvcs cvcs in
    (r.abort ≡ none
      → (t : Cvc) × (d : Cvc) × (terminals cvcs ≡ t ∷ [])
        × (dvs cvcs ≡ d ∷ [])
        × (r.terminal_cvc ≡ some t)
        × (r.dv_cvc ≡ some d))
    × ((length (terminals cvcs) ≡ 1) → (length (dvs cvcs) ≡ 1) → r.abort ≡ none)
extract_cvcs_lem_example = extract_cvcs_lem cvcs

-- PACE is cancelled, the server is told, and ends the channel.
abbrev cancelled_run : List ChannelEvent
cancelled_run =
    fired fire_continue
    ∷ fired fire_continue
    ∷ replied (received 200 did_authenticate_eac1)
    ∷ fired fire_continue
    ∷ fired fire_continue
    ∷ fired fire_continue
    ∷ fired fire_continue
    ∷ fired fire_continue
    ∷ in_pace cancelled
    ∷ in_pace approve
    ∷ replied (received 200 disconnect)
    ∷ replied (received 200 startpaos_response)
    ∷ []

-- It ends in StateStartPaosResponse.
cancelled_end :
    (channel_run cancelled_run (begin_channel new_context [])).state ≡ s_start_paos_response
unfolding channel_run begin_channel new_context
cancelled_end = refl

abbrev asked : Objects
asked = record {
  start_paos_result = false;
  framework = false;
  dids = false;
  eac1 = true;
  eac2 = false;
  transmits = false;
  disconnected = false;
}

channel_run-missing_example :
    let w =
      channel_run
        (replied (received 200 did_authenticate_eac2) ∷ fired fire_continue ∷ [])
        (record {
          state = s_send_did_authenticate_response_eac1;
          pace = start new_context [];
          objects = asked;
        }) in
    (w.state ≡ s_process_certificates_from_eac2)
    × (has_objects w.state w.pace.context w.objects ≡ false)
channel_run-missing_example =
    channel_run-missing (start new_context []) asked 200 (unfold start new_context in refl)
      (omega arith)
