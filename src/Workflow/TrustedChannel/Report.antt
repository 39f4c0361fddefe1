-- ===== src/Workflow/TrustedChannel/Report.antt =====
-- `run` of src/core/states/StateGenericSendReceive.cpp, `updateStatus` and `updateStartPaosResult` of
-- AbstractState.cpp, and StateStartPaosResponse.cpp: what the server is told of errors. What else may
-- happen between two messages is the list of these events.
use ausweisapp2_android_sdk.Base.{
  Bool, true, false, not, ◌&&◌, ◌||◌, List, [], ◌∷◌, ◌++◌, Option, none, some, if◌then◌else◌, ◌≡◌,
  refl, ◌∙◌, ap, inl, inr, Bool-cases, arith,
}
use ausweisapp2_android_sdk.Status.{Code, is_error, is_no_error}
use ausweisapp2_android_sdk.Workflow.TrustedChannel.{TrustedState, s_send_start_paos}
pub mod Once

-- The result of a message: whether it is OK, and what toStatus says of it.
pub record ServerResult : Type 0 where
  pub is_ok : Bool
  pub code : Code

-- What a response says: OK, the status, or the result of StartPAOSResponse.
pub data Told : Type 0 where
  told_ok : Told
  told_status : Code → Told
  told_result : ServerResult → Told

-- The part of the context; `origin_server` is the origin of the status.
pub record Reporting : Type 0 where
  pub status : Code
  pub origin_server : Bool
  pub start_paos_result : ServerResult
  pub error_reported_to_server : Bool

unfoldable pub note_status : Code → Bool → Reporting → Reporting
unfolding is_error is_no_error
note_status code server c =
    if is_error code && is_no_error c.status
    then record c { status = code; origin_server = server }
    else c

unfoldable pub update_start_paos_result : ServerResult → Reporting → Reporting
unfolding note_status
update_start_paos_result r c =
    if not r.is_ok && c.start_paos_result.is_ok
    then note_status r.code true (record c { start_paos_result = r })
    else c

-- `getAsResponse` of the states that send: StartPAOS is no response.
unfoldable pub has_response : TrustedState → Bool
has_response s_send_start_paos = false
has_response _ = true

-- A message that is no response tells nothing.
unfoldable pub run_send : Bool → Reporting → Reporting × List Told
unfolding is_error
run_send false c = (c, [])
run_send true c =
    if not c.error_reported_to_server && (is_error c.status && not c.origin_server)
    then (
      record c { error_reported_to_server = true },
      (if not c.start_paos_result.is_ok
            then told_result c.start_paos_result
            else told_status c.status)
          ∷ [],
    )
    else (c, told_ok ∷ [])

pub data ReportEvent : Type 0 where
  raised : Code → ReportEvent
  answered : ServerResult → ReportEvent
  sent : TrustedState → ReportEvent

unfoldable pub report_step : ReportEvent → Reporting → Reporting × List Told
unfolding note_status update_start_paos_result run_send has_response
report_step (raised code) c = (note_status code false c, [])
report_step (answered r) c = (update_start_paos_result r c, [])
report_step (sent s) c = run_send (has_response s) c

-- What the server is told, in order.
unfoldable pub reports : List ReportEvent → Reporting → List Told
unfolding report_step
reports [] c = []
reports (e ∷ events) c = let (c', told) = report_step e c in told ++ reports events c'
