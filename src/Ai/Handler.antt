-- ===== src/Ai/Handler.antt =====
-- services/internal/ai/handler.go: the endpoints. `parse_uuid` is uuid.Parse, and a body is what
-- ShouldBindJSON made of it.
use gotra.Prelude.{ℕ, pos, Str, Option, List, []}
use gotra.Errors.{GoError, Sentinel, Outcome, ok}
use gotra.Store.{Analysis, Incident}
use gotra.Store.Action.{Env, M, pure, Attempt}
use gotra.Web.{
  Claims, Answer, success, refusal, literal, error_text, current_user_id, when_is, conclude,
  with_id, with_body, bad_request,
}
use gotra.Ai.Service.{
  StoredAnalysis, StoredIncident, Tools, explain_error, analyze_request, analyze_replay,
  explain_logs, generate_incident, list_analyses, list_incidents,
}

-- writeError
unfoldable pub write_error : {A : Type 0} → GoError → Outcome (Answer A)
write_error e = when_is e Sentinel.requests_not_found (refusal 404 (literal "not found")) (
    when_is e Sentinel.ai_forbidden (refusal 403 (literal "forbidden")) (
      when_is e Sentinel.no_data (refusal 422 (literal "no recent failed requests to analyze"))
        (ok (refusal 502 (error_text e)))))

-- The body of explainLogs.
pub record LogsRequest : Type 0 where
  pub project_id : Str
  pub logs : Str

module _ (env : Env) (tools : Tools) (parse_uuid : Str → Option ℕ) where
  -- runRequestOp
  unfoldable pub run_request_op :
      Option Claims → Attempt Str → (ℕ → ℕ → M StoredAnalysis) → M (Answer StoredAnalysis)
  run_request_op claims body op = with_body bad_request body (λ request_id.
      with_id "invalid request_id" (parse_uuid request_id)
        (λ id. conclude write_error (success 200) (op (current_user_id claims) id)))

  -- explainError, analyzeRequest and analyzeReplay
  unfoldable pub explain_error_at : Option Claims → Attempt Str → M (Answer StoredAnalysis)
  unfolding run_request_op
  explain_error_at claims body = run_request_op claims body (explain_error env tools)

  unfoldable pub analyze_request_at : Option Claims → Attempt Str → M (Answer StoredAnalysis)
  unfolding run_request_op
  analyze_request_at claims body = run_request_op claims body (analyze_request env tools)

  unfoldable pub analyze_replay_at : Option Claims → Attempt Str → M (Answer StoredAnalysis)
  unfolding run_request_op
  analyze_replay_at claims body = run_request_op claims body (analyze_replay env tools)

  -- explainLogs
  unfoldable pub explain_logs_at : Option Claims → Attempt LogsRequest → M (Answer StoredAnalysis)
  explain_logs_at claims body = with_body bad_request body (λ (req : LogsRequest).
      with_id "invalid project_id" (parse_uuid req.project_id) (λ id.
        conclude write_error (success 200)
          (explain_logs env tools (current_user_id claims) id req.logs)))

  -- generateIncident
  unfoldable pub generate_incident_at : Option Claims → Attempt Str → M (Answer StoredIncident)
  generate_incident_at claims body = with_body bad_request body (λ project_id.
      with_id "invalid project_id" (parse_uuid project_id) (λ id.
        conclude write_error (success 201)
          (generate_incident env tools (current_user_id claims) id)))

  -- listAnalyses, and history, which is the same
  unfoldable pub list_analyses_at : Option Claims → Str → M (Answer (List Analysis))
  list_analyses_at claims project_id =
      with_id "project_id query parameter is required" (parse_uuid project_id) (λ id.
        conclude write_error (success 200)
          (list_analyses env tools (current_user_id claims) id (pos 0)))

  -- listIncidents
  unfoldable pub list_incidents_at : Option Claims → Str → M (Answer (List Incident))
  list_incidents_at claims project_id =
      with_id "project_id query parameter is required" (parse_uuid project_id) (λ id.
        conclude write_error (success 200)
          (list_incidents env tools (current_user_id claims) id (pos 0)))

-- listReports
unfoldable pub list_reports : M (Answer (List Incident))
list_reports = pure (success 200 [])
