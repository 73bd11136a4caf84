-- ===== src/Ai/Service.antt =====
-- services/internal/ai/service.go: the use cases. The orchestrator, json.Unmarshal of the two
-- results, and the texts of prompt.go's system prompts are arguments.
use gotra.Prelude.{
  pos, ℕ, ℤ, ◌*◌, Str, Option, none, some, List, [], ◌∷◌, codes, leb, ◌==◌, if◌then◌else◌,
}
use gotra.Errors.{GoError, Sentinel, Outcome, ok, err, panic}
use gotra.Store.{Analysis, Incident}
use gotra.Store.Action.{Env, M, pure, raise, lift, ignore, ◌>>=◌, ◌>>◌}
use gotra.Ai.{
  CompletionRequest, CompletionResponse, AnalysisResult, IncidentResult, Completeness, few_failures,
  logs_only, complete_context, json_text, apply_confidence,
}
use gotra.Ai.Context.{
  user_for_explain_error, user_for_analyze_request, user_for_analyze_replay, user_for_explain_logs,
  user_for_incident, for_request, for_recent_failures,
}
use gotra.Ai.Repository as Rows
use gotra.Ai.Repository.{user_in_project, save_analysis, save_incident, record_usage}

-- StoredAnalysis and StoredIncident
pub record StoredAnalysis : Type 0 where
  pub id : ℕ
  pub provider : Str
  pub analysis_type : Str
  pub result : AnalysisResult
  pub confidence : ℕ

pub record StoredIncident : Type 0 where
  pub id : ℕ
  pub provider : Str
  pub result : IncidentResult
  pub confidence : ℕ

-- What the service takes from elsewhere: Orchestrator.Complete, the system prompts, the decoders of
-- JSON, the product of a confidence, and the formats of the context.
pub record Tools : Type 0 where
  pub complete : CompletionRequest → Outcome CompletionResponse
  pub analysis_system : Str
  pub incident_system : Str
  pub decode_analysis : Str → Outcome AnalysisResult
  pub decode_incident : Str → Outcome IncidentResult
  pub scaled : ℕ → Completeness → ℤ
  pub decimal : ℤ → Str
  pub clock_time : ℕ → Str

-- maxAnalysisTokens
abbrev pub max_analysis_tokens : ℕ
max_analysis_tokens = 1024

unfoldable pub parsed : {A : Type 0} → Outcome A → Outcome A
parsed (ok a) = ok a
parsed (err e) = err (GoError.wrapped "parse ai response" e)
parsed panic = panic

unfoldable pub severity_or_medium : Str → Str
severity_or_medium [] = codes "medium"
severity_or_medium (c ∷ s) = c ∷ s

-- The completeness of an incident from the count of failures.
unfoldable pub incident_completeness : ℕ → Completeness
incident_completeness count = if leb 3 count then complete_context else few_failures

module _ (env : Env) (tools : Tools) where
  -- ensureMember
  unfoldable pub ensure_member : ℕ → ℕ → M (Unit {0})
  unfolding user_in_project
  ensure_member user_id project_id = do
    member ← user_in_project env user_id project_id
    if member then pure tt else raise (GoError.sentinel Sentinel.ai_forbidden)

  -- The end of analyzeRequest and ExplainLogs, from SaveAnalysis on.
  unfoldable pub store_analysis :
      ℕ → Option ℕ → Str → CompletionResponse → AnalysisResult → ℕ → M StoredAnalysis
  unfolding save_analysis record_usage
  store_analysis project_id request_id analysis_type resp result confidence = do
    id ←
        save_analysis env project_id request_id analysis_type resp.provider confidence
          result.severity
    ignore (record_usage env project_id resp.provider resp.tokens_in resp.tokens_out)
    pure (record {
      id = id;
      provider = resp.provider;
      analysis_type = analysis_type;
      result = result;
      confidence = confidence;
    })

  -- The same from the prompt on.
  unfoldable pub analyze : ℕ → Option ℕ → Str → Str → Completeness → M StoredAnalysis
  unfolding parsed severity_or_medium store_analysis
  analyze project_id request_id analysis_type prompt completeness = do
    resp ← lift (
        tools.complete (record {
          system = tools.analysis_system;
          user = prompt;
          max_tokens = max_analysis_tokens;
        }))
    result ← lift (parsed (tools.decode_analysis (json_text resp.text)))
    store_analysis project_id request_id analysis_type resp
        (record result {
          severity = severity_or_medium result.severity;
          confidence = pos (apply_confidence tools.scaled result.confidence completeness);
        })
        (apply_confidence tools.scaled result.confidence completeness)

  -- analyzeRequest
  unfoldable pub analyze_captured : ℕ → ℕ → Str → (Str → Str) → M StoredAnalysis
  unfolding analyze
  analyze_captured user_id request_id analysis_type prompt = do
    (block, project_id, completeness) ←
        for_request tools.decimal tools.clock_time env user_id request_id
    analyze project_id (some request_id) analysis_type (prompt block) completeness

  -- ExplainError, AnalyzeRequest and AnalyzeReplay
  unfoldable pub explain_error : ℕ → ℕ → M StoredAnalysis
  unfolding analyze_captured
  explain_error user_id request_id =
      analyze_captured user_id request_id (codes "explain_error") user_for_explain_error

  unfoldable pub analyze_request : ℕ → ℕ → M StoredAnalysis
  unfolding analyze_captured
  analyze_request user_id request_id =
      analyze_captured user_id request_id (codes "analyze_request") user_for_analyze_request

  unfoldable pub analyze_replay : ℕ → ℕ → M StoredAnalysis
  unfolding analyze_captured
  analyze_replay user_id request_id =
      analyze_captured user_id request_id (codes "analyze_replay") user_for_analyze_replay

  -- ExplainLogs
  unfoldable pub explain_logs : ℕ → ℕ → Str → M StoredAnalysis
  unfolding ensure_member analyze
  explain_logs user_id project_id logs = do
    ensure_member user_id project_id
    analyze project_id none (codes "explain_logs") (user_for_explain_logs logs) logs_only

  -- The end of GenerateIncident, from SaveIncident on.
  unfoldable pub store_incident : ℕ → CompletionResponse → IncidentResult → ℕ → M StoredIncident
  unfolding save_incident record_usage
  store_incident project_id resp result confidence = do
    id ← save_incident env project_id result.summary result.root_cause confidence
    ignore (record_usage env project_id resp.provider resp.tokens_in resp.tokens_out)
    pure (record { id = id; provider = resp.provider; result = result; confidence = confidence })

  -- The same from the prompt on.
  unfoldable pub report : ℕ → Str → ℕ → M StoredIncident
  unfolding parsed incident_completeness store_incident
  report project_id block count = do
    resp ← lift (
        tools.complete (record {
          system = tools.incident_system;
          user = user_for_incident block;
          max_tokens = max_analysis_tokens * 2;
        }))
    result ← lift (parsed (tools.decode_incident (json_text resp.text)))
    store_incident project_id resp
        (record result {
          confidence =
              pos (apply_confidence tools.scaled result.confidence (incident_completeness count));
        })
        (apply_confidence tools.scaled result.confidence (incident_completeness count))

  unfoldable pub some_failure : ℕ → M (Unit {0})
  some_failure count = if count == 0 then raise (GoError.sentinel Sentinel.no_data) else pure tt

  -- GenerateIncident
  unfoldable pub generate_incident : ℕ → ℕ → M StoredIncident
  unfolding ensure_member some_failure report
  generate_incident user_id project_id = do
    ensure_member user_id project_id
    (block, count) ← for_recent_failures tools.decimal tools.clock_time env user_id project_id
    some_failure count
    report project_id block count

  -- ListAnalyses and ListIncidents
  unfoldable pub list_analyses : ℕ → ℕ → ℤ → M (List Analysis)
  unfolding ensure_member
  list_analyses user_id project_id limit = do
    ensure_member user_id project_id
    Rows.list_analyses env project_id limit

  unfoldable pub list_incidents : ℕ → ℕ → ℤ → M (List Incident)
  unfolding ensure_member
  list_incidents user_id project_id limit = do
    ensure_member user_id project_id
    Rows.list_incidents env project_id limit
