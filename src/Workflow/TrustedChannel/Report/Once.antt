-- ===== src/Workflow/TrustedChannel/Report/Once.antt =====
-- How often, and of which error, the server is told in src/core/states/StateGenericSendReceive.cpp.
use ausweisapp2_android_sdk.Base.{
  Bool, true, false, not, ◌&&◌, List, [], ◌∷◌, ◌++◌, ◌||◌, if◌then◌else◌, ◌≡◌, refl, ◌∙◌, ap, inl,
  inr, Bool-cases, arith,
}
use ausweisapp2_android_sdk.Status.{Code, is_error, is_no_error, no_error}
use ausweisapp2_android_sdk.Workflow.TrustedChannel.Report.{
  ServerResult, Told, told_ok, told_status, told_result, Reporting, note_status,
  update_start_paos_result, has_response, run_send, ReportEvent, raised, answered, sent,
  report_step, reports,
}

unfoldable pub told_errors : List Told → List Told
told_errors [] = []
told_errors (told_ok ∷ told) = told_errors told
told_errors (told_status code ∷ told) = told_status code ∷ told_errors told
told_errors (told_result r ∷ told) = told_result r ∷ told_errors told

-- The server has not answered with the message that ends the channel.
unfoldable pub is_open : List ReportEvent → Bool
is_open [] = true
is_open (raised code ∷ events) = is_open events
is_open (answered r ∷ events) = false
is_open (sent s ∷ events) = is_open events

unfoldable pub sends_response : List ReportEvent → Bool
unfolding has_response
sends_response [] = false
sends_response (sent s ∷ events) = has_response s || sends_response events
sends_response (_ ∷ events) = sends_response events

-- The error that is raised first, if a response is sent after it.
unfoldable pub first_error : List ReportEvent → List Told
unfolding is_error sends_response
first_error [] = []
first_error (raised code ∷ events) =
    let rest = first_error events in
    if is_error code then (if sends_response events then told_status code ∷ [] else []) else rest
first_error (_ ∷ events) = first_error events

abbrev at_status : Code → ServerResult → Reporting
at_status code r = record {
  status = code;
  origin_server = false;
  start_paos_result = r;
  error_reported_to_server = false;
}

false_of_negation : (b : Bool) → not b ≡ true → b ≡ false
false_of_negation true h = cc h
false_of_negation false h = refl

refused_branch : {A : Type 0} (b : Bool) (x y : A) → (if b && false then x else y) ≡ y
refused_branch true x y = refl
refused_branch false x y = refl

run_send-reported :
    (events : List ReportEvent) (b : Bool) (c : Reporting)
    → c.error_reported_to_server ≡ true
    → told_errors (reports events c) ≡ []
    → let r = run_send b c in told_errors (r.1 ++ reports events r.0) ≡ []
unfolding told_errors run_send
run_send-reported events false c h rest = rest
run_send-reported events true c h rest =
    let run : Bool → Reporting × List Told = λ b.
      if not b && (is_error c.status && not c.origin_server)
      then (
        record c { error_reported_to_server = true },
        (if not c.start_paos_result.is_ok
              then told_result c.start_paos_result
              else told_status c.status)
            ∷ [],
      )
      else (c, told_ok ∷ []) in
    ap (λ b. told_errors ((run b).1 ++ reports events (run b).0)) h ∙ rest

reported-reports :
    (events : List ReportEvent) (c : Reporting)
    → c.error_reported_to_server ≡ true
    → told_errors (reports events c) ≡ []
unfolding told_errors reports report_step note_status update_start_paos_result
reported-reports [] c h = refl
reported-reports (raised code ∷ events) c h =
    reported-reports events (note_status code false c) (ground arith)
reported-reports (answered r ∷ events) c h =
    reported-reports events (update_start_paos_result r c) (ground arith)
reported-reports (sent s ∷ events) c h =
    run_send-reported events (has_response s) c h (reported-reports events c h)

-- The first error stays.
note_status-error :
    (x code : Code) (r : ServerResult)
    → is_error code ≡ true
    → note_status x false (at_status code r) ≡ at_status code r
unfolding note_status is_error
note_status-error x code r h =
    rw (false_of_negation (is_no_error code) h)
      (refused_branch (is_error x) (at_status x r) (at_status code r))

note_status-first :
    (x : Code) (r : ServerResult)
    → note_status x false (at_status no_error r)
      ≡ (if is_error x then at_status x r else at_status no_error r)
unfolding note_status is_no_error
note_status-first x r = elim (Bool-cases (is_error x)) [ inl e ↦ rw e refl | inr e ↦ rw e refl ]

module _ (r : ServerResult) (fine : r.is_ok ≡ true) where
  run_send-pending :
      (events : List ReportEvent) (code : Code) (b : Bool)
      → is_error code ≡ true
      → told_errors (reports events (at_status code r))
        ≡ (if sends_response events then told_status code ∷ [] else [])
      → let out = run_send b (at_status code r) in
        told_errors (out.1 ++ reports events out.0)
        ≡ (if b || sends_response events then told_status code ∷ [] else [])
  unfolding told_errors run_send
  run_send-pending events code false h rest = rest
  run_send-pending events code true h rest =
      let told : Reporting = record (at_status code r) { error_reported_to_server = true } in
      let run : Bool → Bool → Reporting × List Told = λ b ok.
        if b && true
        then (told, (if not ok then told_result r else told_status code) ∷ [])
        else (at_status code r, told_ok ∷ []) in
      let errors : Bool → Bool → List Told =
        λ b ok. told_errors ((run b ok).1 ++ reports events (run b ok).0) in
      ap (λ b. errors b r.is_ok) h
      ∙ ap (errors true) fine
      ∙ ap (λ l. told_status code ∷ l) (reported-reports events told refl)

  run_send-first :
      (events : List ReportEvent) (b : Bool) (told : List Told)
      → told_errors (reports events (at_status no_error r)) ≡ told
      → let out = run_send b (at_status no_error r) in
        told_errors (out.1 ++ reports events out.0) ≡ told
  unfolding told_errors run_send
  run_send-first events false told rest = rest
  run_send-first events true told rest = rest

  pending-reports :
      (events : List ReportEvent) (code : Code)
      → is_error code ≡ true
      → is_open events ≡ true
      → told_errors (reports events (at_status code r))
        ≡ (if sends_response events then told_status code ∷ [] else [])
  unfolding told_errors reports report_step note_status run_send sends_response is_open
  pending-reports [] code h o = refl
  pending-reports (raised x ∷ events) code h o =
      ap (λ c. told_errors (reports events c)) (note_status-error x code r h)
      ∙ pending-reports events code h o
  pending-reports (answered x ∷ events) code h o = absurd (cc o)
  pending-reports (sent s ∷ events) code h o =
      run_send-pending events code (has_response s) h (pending-reports events code h o)

  -- If the channel starts without an error, without an error that was reported and with a
  -- StartPaos result that is OK, then until the server has ended the channel the responses tell
  -- it of one error at most: of the error that was raised first, and exactly if a response is
  -- sent after it; all other responses say OK.
  pub reports-first_error :
      (events : List ReportEvent)
      → is_open events ≡ true
      → told_errors (reports events (at_status no_error r)) ≡ first_error events
  unfolding told_errors reports report_step note_status run_send first_error is_open
  reports-first_error [] o = refl
  reports-first_error (raised code ∷ events) o =
      ap (λ c. told_errors (reports events c)) (note_status-first code r)
      ∙ elim (Bool-cases (is_error code)) [
        | inl e ↦ rw e (pending-reports events code e o)
        | inr e ↦ rw e (reports-first_error events o)
      ]
  reports-first_error (answered x ∷ events) o = absurd (cc o)
  reports-first_error (sent s ∷ events) o =
      run_send-first events (has_response s) (first_error events) (reports-first_error events o)
