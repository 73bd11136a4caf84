-- ===== src/Ai/Stored.antt =====
-- What the AI service stores, and for whom.
use gotra.Prelude.{codes, ℕ, ◌≤◌, ◌≡◌, ◌∙◌, Str, Option, none, some, [], ◌∷◌, ◌++◌, arith}
use gotra.Errors.{Outcome, ok}
use gotra.Store.{Member, Analysis, Incident}
use gotra.Store.Action.{Env, World, lift, statement, row_or}
use gotra.Store.Action.Laws.{bind_ok}
use gotra.Tunnels.{member_of}
use gotra.Ai.{AnalysisResult, CompletionResponse, Completeness, json_text, logs_only}
use gotra.Ai.Schema.{apply_confidence_bound}
use gotra.Ai.Context.{user_for_explain_logs}
use gotra.Ai.Repository.{
  user_in_project, save_analysis, insert_analysis, record_usage, insert_usage,
}
use gotra.Ai.Service.{
  StoredAnalysis, StoredIncident, Tools, store_analysis, parsed, ensure_member, analyze,
  explain_logs,
}

-- The row of an analysis, and what is returned of it.
pub record IsRowOf (project_id : ℕ) (s : StoredAnalysis) (a : Analysis) : Type 0 where
  pub same_id : a.id ≡ s.id
  pub same_project : a.project_id ≡ project_id
  pub same_type : a.analysis_type ≡ s.analysis_type
  pub same_confidence : a.confidence_score ≡ s.confidence
  pub in_range : a.confidence_score ≤ 100

-- The row of an incident, and what is returned of it.
pub record IsReportOf (project_id : ℕ) (s : StoredIncident) (i : Incident) : Type 0 where
  pub report_id : i.id ≡ s.id
  pub report_project : i.project_id ≡ project_id
  pub report_confidence : i.confidence_score ≡ s.confidence
  pub report_in_range : i.confidence_score ≤ 100

module _ (env : Env) (tools : Tools) where
  ensure_member-ok :
      (user_id project_id : ℕ) (w : World) {x : Unit {0}} {w' : World}
      → ensure_member env tools user_id project_id w ≡ (ok x, w')
      → ((m : Member) × (member_of user_id project_id w.committed ≡ some m))
        × (w'.committed ≡ w.committed)
  unfolding ensure_member user_in_project statement row_or
  ensure_member-ok user_id project_id w h = ground arith

  store_analysis-ok :
      (project_id : ℕ) (request_id : Option ℕ) (kind : Str) (resp : CompletionResponse)
      (result : AnalysisResult) (confidence : ℕ) (w : World) {s : StoredAnalysis} {w' : World}
      → confidence ≤ 100
      → store_analysis env tools project_id request_id kind resp result confidence w ≡ (ok s, w')
      → (a : Analysis) × (w'.committed.analyses ≡ w.committed.analyses ++ a ∷ [])
        × IsRowOf project_id s a
  unfolding store_analysis save_analysis insert_analysis record_usage insert_usage statement row_or
  store_analysis-ok project_id request_id kind resp result confidence w {s} b h = (
    record {
      id = s.id;
      project_id = project_id;
      request_id = request_id;
      analysis_type = kind;
      provider = resp.provider;
      confidence_score = confidence;
      severity = result.severity;
      created_at = w.now;
    },
    ground arith,
    ground arith,
  )

  lift_ok :
      {A : Type 0} (o : Outcome A) (w : World) {a : A} {w' : World} → lift o w ≡ (ok a, w') → w' ≡ w
  lift_ok o w h = cc

  analyze-ok :
      (project_id : ℕ) (request_id : Option ℕ) (kind prompt : Str) (c : Completeness) (w : World)
      {s : StoredAnalysis} {w' : World}
      → analyze env tools project_id request_id kind prompt c w ≡ (ok s, w')
      → (a : Analysis) × (w'.committed.analyses ≡ w.committed.analyses ++ a ∷ [])
        × IsRowOf project_id s a
  unfolding analyze
  analyze-ok project_id request_id kind prompt c w {s} {w'} h =
      let (resp, w1, e1, k1) = bind_ok (lift (tools.complete _)) _ w h in
      let (result, w2, e2, k2) =
        bind_ok (lift (parsed (tools.decode_analysis (json_text resp.text)))) _ w1 k1 in
      let stored =
        store_analysis-ok project_id request_id kind resp _ _ w2 {s = s} {w' = w'}
          (apply_confidence_bound tools.scaled result.confidence c) k2 in
      let same : w2 ≡ w = lift_ok _ w1 e2 ∙ lift_ok _ w e1 in rw same at stored

  -- Where ExplainLogs returns an analysis, the user is a member of the project, and the one change
  -- to the analyses is a new row of this project with the identifier, the kind and the confidence
  -- that are returned, at most 100.
  pub explain_logs_sound :
      (user_id project_id : ℕ) (logs : Str) (w : World) {s : StoredAnalysis} {w' : World}
      → explain_logs env tools user_id project_id logs w ≡ (ok s, w')
      → ((m : Member) × (member_of user_id project_id w.committed ≡ some m))
        × ((a : Analysis) × (w'.committed.analyses ≡ w.committed.analyses ++ a ∷ [])
            × IsRowOf project_id s a)
  unfolding explain_logs
  explain_logs_sound user_id project_id logs w {s} {w'} h =
      let (x, w1, e1, k1) = bind_ok (ensure_member env tools user_id project_id) _ w h in
      let (member, same) = ensure_member-ok user_id project_id w e1 in
      let stored =
        analyze-ok project_id none (codes "explain_logs") (user_for_explain_logs logs) logs_only w1
          {s = s} {w' = w'} k1 in
      (member, rw same at stored)
