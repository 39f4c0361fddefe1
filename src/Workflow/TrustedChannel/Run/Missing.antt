-- ===== src/Workflow/TrustedChannel/Run/Missing.antt =====
-- EAC2 without PACE in src/core/states/StateProcessCertificatesFromEac2.cpp.
use ausweisapp2_android_sdk.Base.{ℕ, ◌<◌, ◌≡◌, refl, false, [], ◌∷◌, leb, arith}
use ausweisapp2_android_sdk.Pace.Machine.{Machine}
use ausweisapp2_android_sdk.Workflow.TrustedChannel.{
  trusted_transition, s_send_did_authenticate_response_eac1, s_process_certificates_from_eac2,
  fire_continue,
}
use ausweisapp2_android_sdk.Workflow.TrustedChannel.Receive.{
  did_authenticate_eac2, received, on_reply_finished,
}
use ausweisapp2_android_sdk.Workflow.TrustedChannel.Receive.Handled.{is_answer}
use ausweisapp2_android_sdk.Workflow.TrustedChannel.Run.{
  Objects, has_objects, enter_state, move, replied, fired, note_message, channel_step, channel_run,
}

nothing_there :
    (a : Objects) (m : Machine)
    → m.context.pace_output ≡ false
    → has_objects s_process_certificates_from_eac2 m.context a ≡ false
unfolding has_objects
nothing_there a m h = ground arith

-- A server that asks for DIDAuthenticate EAC2 with a status below 400 after the answer to EAC1,
-- when there is no PACE output, leads the workflow, when the next state has gone on, to
-- StateProcessCertificatesFromEac2, which then follows a null pointer.
pub channel_run-missing :
    (m : Machine) (o : Objects) (n : ℕ)
    → m.context.pace_output ≡ false
    → n < 400
    → let w =
        channel_run
          (replied (received n did_authenticate_eac2) ∷ fired fire_continue ∷ [])
          (record { state = s_send_did_authenticate_response_eac1; pace = m; objects = o }) in
      (w.state ≡ s_process_certificates_from_eac2)
      × (has_objects w.state w.pace.context w.objects ≡ false)
unfolding channel_run channel_step on_reply_finished move trusted_transition enter_state
    note_message is_answer
channel_run-missing m o n h below =
    let server : leb 500 n ≡ false = ground arith in
    let client : leb 400 n ≡ false = ground arith in rw (server, client) (refl, nothing_there _ m h)
