-- ===== src/Ai/Repository.antt =====
-- services/internal/ai/repository.go. The score of an analysis and of an incident has the CHECK
-- that it lies between 0 and 100.
use gotra.Prelude.{
  ℕ, ℤ, pos, negsuc, Str, Bool, true, false, ◌&&◌, ◌||◌, not, Option, none, some, List, [], ◌∷◌,
  ◌++◌, ◌==◌, leb, if◌then◌else◌, any, select, take,
}
use gotra.Errors.{GoError}
use gotra.Store.{Db, Project, Request, Member, Analysis, Incident, Usage}
use gotra.Store.Action.{
  Env, M, pool, Row, row, broken, statement, row_or, driver_error, return_error, ◌>>=◌,
  foreign_key_violation,
}
use gotra.Tunnels.{member_of}

-- check_violation
abbrev pub check_violation : ℕ
check_violation = 23514

abbrev request_exists : Option ℕ → Db → Bool
request_exists none d = true
request_exists (some id) d = any (λ (r : Request). r.id == id) d.requests

abbrev pub project_exists : ℕ → Db → Bool
project_exists id d = any (λ (p : Project). p.id == id) d.projects

-- INSERT INTO ai_analyses
unfoldable pub insert_analysis : Analysis → Db → Row (ℕ × Db)
insert_analysis a d =
    if leb a.confidence_score 100
    then (if project_exists a.project_id d && request_exists a.request_id d
        then row (a.id, record d { analyses = d.analyses ++ a ∷ [] })
        else broken foreign_key_violation)
    else broken check_violation

-- INSERT INTO ai_incidents
unfoldable pub insert_incident : Incident → Db → Row (ℕ × Db)
insert_incident i d =
    if leb i.confidence_score 100
    then (if project_exists i.project_id d
        then row (i.id, record d { incidents = d.incidents ++ i ∷ [] })
        else broken foreign_key_violation)
    else broken check_violation

-- INSERT INTO ai_usage
unfoldable pub insert_usage : Usage → Db → Row (Unit {0} × Db)
insert_usage u d =
    if project_exists u.project_id d
    then row (tt, record d { usages = d.usages ++ u ∷ [] })
    else broken foreign_key_violation

-- The limit of ListAnalyses and ListIncidents.
unfoldable pub history_limit : ℤ → ℕ
history_limit (negsuc n) = 50
history_limit (pos n) = if n == 0 || not (leb n 200) then 50 else n

abbrev newest_first {ℓ} : {A : Type ℓ} → List A → List A → List A
newest_first [] acc = acc
newest_first (x ∷ xs) acc = newest_first xs (x ∷ acc)

abbrev is_member : Option Member → Bool
is_member none = false
is_member (some m) = true

module _ (env : Env) where
  -- UserInProject
  unfoldable pub user_in_project : ℕ → ℕ → M Bool
  unfolding member_of row_or
  user_in_project user_id project_id = do
    r ← statement env pool (λ id now d. row (is_member (member_of user_id project_id d), d))
    row_or GoError.nil r

  -- SaveAnalysis
  unfoldable pub save_analysis : ℕ → Option ℕ → Str → Str → ℕ → Str → M ℕ
  unfolding insert_analysis row_or
  save_analysis project_id request_id analysis_type provider confidence severity = do
    r ← statement env pool (λ id now d.
        insert_analysis
          (record {
            id = id;
            project_id = project_id;
            request_id = request_id;
            analysis_type = analysis_type;
            provider = provider;
            confidence_score = confidence;
            severity = severity;
            created_at = now;
          })
          d)
    row_or GoError.nil r

  -- ListAnalyses
  unfoldable pub list_analyses : ℕ → ℤ → M (List Analysis)
  unfolding history_limit row_or
  list_analyses project_id limit = do
    r ← statement env pool (λ id now d. row (
      take (history_limit limit)
          (newest_first (select (λ (a : Analysis). a.project_id == project_id) d.analyses) []),
      d,
    ))
    row_or GoError.nil r

  -- SaveIncident
  unfoldable pub save_incident : ℕ → Str → Str → ℕ → M ℕ
  unfolding insert_incident row_or
  save_incident project_id summary root_cause confidence = do
    r ← statement env pool (λ id now d.
        insert_incident
          (record {
            id = id;
            project_id = project_id;
            summary = summary;
            root_cause = root_cause;
            confidence_score = confidence;
            created_at = now;
          })
          d)
    row_or GoError.nil r

  -- ListIncidents
  unfoldable pub list_incidents : ℕ → ℤ → M (List Incident)
  unfolding history_limit row_or
  list_incidents project_id limit = do
    r ← statement env pool (λ id now d. row (
      take (history_limit limit)
          (newest_first (select (λ (i : Incident). i.project_id == project_id) d.incidents) []),
      d,
    ))
    row_or GoError.nil r

  -- RecordUsage; the cost in USD is left out.
  unfoldable pub record_usage : ℕ → Str → ℤ → ℤ → M (Unit {0})
  unfolding insert_usage
  record_usage project_id provider tokens_in tokens_out = do
    r ← statement env pool (λ id now d.
        insert_usage
          (record {
            project_id = project_id;
            provider = provider;
            tokens_in = tokens_in;
            tokens_out = tokens_out;
          })
          d)
    return_error (driver_error r)
