-- ===== src/Ai/Context.antt =====
-- services/internal/ai/context.go and prompt.go: the text that a prompt is made of. The decimal
-- form of an `int` and the clock time of a timestamp are arguments.
use gotra.Prelude.{
  ℕ, suc, ℤ, pos, negsuc, ◌+◌, ◌≤◌, ◌<◌, Str, Bool, Option, none, some, List, [], ◌∷◌, ◌++◌, codes,
  leb, length, take, if◌then◌else◌, arith, length-append, Bool-cases, Option-cases, inl, inr,
}
use gotra.Prelude.Alls.{length-take}
use gotra.Prelude.Sorting.{sort_by}
use gotra.Store.Action.{Env, M, pure, ◌>>=◌}
use gotra.Requests.{Summary, Detail, ResponseDetail}
use gotra.Requests.Repository.{get_for_user, list_for_project}
use gotra.Ai.{Completeness, no_response, complete_context}

abbrev pub newline : Str
newline = 10 ∷ []

-- maxBodyChars
abbrev pub max_body_chars : ℕ
max_body_chars = 4000

-- "\n…(truncated)", in UTF-8
abbrev pub truncation_mark : Str
truncation_mark = 10 ∷ 226 ∷ 128 ∷ 166 ∷ codes "(truncated)"

-- truncate
unfoldable pub truncate : Str → Str
truncate s = if leb (length s) max_body_chars then s else take max_body_chars s ++ truncation_mark

-- strings.Join(vs, ", ")
unfoldable pub join_comma : List Str → Str
join_comma [] = []
join_comma (v ∷ []) = v
join_comma (v ∷ w ∷ vs) = v ++ codes ", " ++ join_comma (w ∷ vs)

unfoldable pub header_lines : List (Str × List Str) → Str
unfolding join_comma
header_lines [] = []
header_lines ((k, vs) ∷ hs) =
    codes "  " ++ k ++ codes ": " ++ join_comma vs ++ newline ++ header_lines hs

-- writeHeaders
unfoldable pub write_headers : List (Str × List Str) → Str
unfolding header_lines sort_by
write_headers headers = header_lines (sort_by (λ h. h.0) headers)

-- A line or a paragraph for a text, or nothing where the text is empty.
unfoldable pub unless_empty : Str → Str → Str
unless_empty [] block = []
unless_empty (c ∷ s) block = block

-- systemFor
unfoldable pub system_for : Bool → Str → Str → Str → Str
system_for is_incident base incident_schema analysis_schema =
    base ++ codes " " ++ (if is_incident then incident_schema else analysis_schema)

-- userForExplainError, userForAnalyzeRequest and userForAnalyzeReplay
unfoldable pub user_for_explain_error : Str → Str
user_for_explain_error block =
    codes "Explain why this request failed and how to fix it." ++ newline ++ newline ++ block

unfoldable pub user_for_analyze_request : Str → Str
user_for_analyze_request block =
    codes "Analyze this request/response. Identify problems, performance concerns and fixes."
    ++ newline
    ++ newline
    ++ block

unfoldable pub user_for_analyze_replay : Str → Str
user_for_analyze_replay block =
    codes
      "This request was replayed. Analyze the outcome, compare against expectations and suggest fixes."
    ++ newline
    ++ newline
    ++ block

-- userForExplainLogs
unfoldable pub user_for_explain_logs : Str → Str
unfolding truncate
user_for_explain_logs logs =
    codes
      "Explain these application logs: summarize what happened, probable causes and suggested actions."
    ++ newline
    ++ newline
    ++ codes "LOGS:"
    ++ newline
    ++ truncate logs

-- userForIncident
unfoldable pub user_for_incident : Str → Str
user_for_incident block =
    codes "Generate an incident report from the following recent failed requests."
    ++ newline
    ++ newline
    ++ block

module _ (decimal : ℤ → Str) (clock_time : ℕ → Str) where
  unfoldable pub request_block : Detail → Str
  unfolding unless_empty write_headers truncate
  request_block d =
      codes "REQUEST"
      ++ newline
      ++ codes "Method: "
      ++ d.method
      ++ newline
      ++ codes "Path: "
      ++ d.path
      ++ newline
      ++ unless_empty d.query (codes "Query: " ++ d.query ++ newline)
      ++ codes "Request headers:"
      ++ newline
      ++ write_headers d.headers
      ++ unless_empty d.body (codes "Request body:" ++ newline ++ truncate d.body ++ newline)

  unfoldable pub response_block : Option ResponseDetail → Str
  unfolding unless_empty write_headers truncate
  response_block none =
      newline
      ++ codes "RESPONSE"
      ++ newline
      ++ codes "(no response was captured for this request)"
      ++ newline
  response_block (some r) =
      newline
      ++ codes "RESPONSE"
      ++ newline
      ++ codes "Status: "
      ++ decimal r.status
      ++ newline
      ++ codes "Duration: "
      ++ decimal (pos r.duration_ms)
      ++ codes "ms"
      ++ newline
      ++ codes "Response headers:"
      ++ newline
      ++ write_headers r.headers
      ++ unless_empty r.body (codes "Response body:" ++ newline ++ truncate r.body ++ newline)

  unfoldable pub completeness_of : Option ResponseDetail → Completeness
  completeness_of none = no_response
  completeness_of (some r) = complete_context

  -- ForRequest: the block, the project and the completeness.
  unfoldable pub for_request : Env → ℕ → ℕ → M (Str × ℕ × Completeness)
  unfolding request_block response_block completeness_of
  for_request env user_id request_id = do
    d ← get_for_user env user_id request_id
    pure (request_block d ++ response_block d.response, d.project_id, completeness_of d.response)

  -- `it.Status == nil || *it.Status < 400`
  unfoldable pub failed_status : Option ℤ → Option ℤ
  failed_status none = none
  failed_status (some (negsuc n)) = none
  failed_status (some (pos n)) = if leb 400 n then some (pos n) else none

  unfoldable pub failure_line : Summary → ℤ → Str
  failure_line it status =
      codes "- "
      ++ it.method
      ++ codes " "
      ++ it.path
      ++ (32 ∷ 226 ∷ 134 ∷ 146 ∷ 32 ∷ decimal status)
      ++ codes " ("
      ++ decimal (elim it.duration_ms [ none ↦ pos 0 | some n ↦ pos n ])
      ++ codes "ms) at "
      ++ clock_time it.received_at
      ++ newline

  -- The loop of ForRecentFailures, with the block and the count so far.
  unfoldable pub collect_failures : List Summary → Str → ℕ → Str × ℕ
  unfolding failed_status failure_line
  collect_failures [] block count = (block, count)
  collect_failures (it ∷ items) block count = elim (failed_status it.status) [
    | none ↦ collect_failures items block count
    | some status ↦
        if leb 25 (suc count)
        then (block ++ failure_line it status, suc count)
        else collect_failures items (block ++ failure_line it status) (suc count)
  ]

  -- ForRecentFailures
  unfoldable pub for_recent_failures : Env → ℕ → ℕ → M (Str × ℕ)
  unfolding collect_failures
  for_recent_failures env user_id project_id = do
    items ← list_for_project env user_id project_id (pos 100)
    pure (collect_failures items (codes "RECENT FAILED REQUESTS (most recent first)" ++ newline) 0)

  -- The loop of ForRecentFailures ends with at most 25 failures.
  pub collect_failures_bound :
      (items : List Summary) (block : Str) (count : ℕ)
      → count < 25
      → (collect_failures items block count).1 ≤ 25
  unfolding collect_failures
  collect_failures_bound [] block count h = omega arith
  collect_failures_bound (it ∷ items) block count h =
      elim (Option-cases (failed_status it.status)) [
        | inl e ↦ rw (collect_failures, e) (collect_failures_bound items block count h)
        | inr (status, e) ↦ elim (Bool-cases (leb 25 (suc count))) [
          | inl k ↦ rw (collect_failures, e, k) (omega (arith, h))
          | inr k ↦
              rw (collect_failures, e, k)
                (collect_failures_bound items (block ++ failure_line it status) (suc count)
                  (ground (arith, k)))
        ]
      ]

length-cut :
    (n : ℕ) (s mark : Str)
    → length (if leb (length s) n then s else take n s ++ mark) ≤ n + length mark
length-cut n s mark = elim (Bool-cases (leb (length s) n)) [
  | inl e ↦ rw e (ground (arith, e))
  | inr e ↦ rw (e, length-append (take n s) mark) (omega (arith, length-take n s))
]

-- A text in a prompt has at most 4000 bytes and the mark of a truncation.
pub truncate_bound : (s : Str) → length (truncate s) ≤ 4015
unfolding truncate
truncate_bound s = length-cut max_body_chars s truncation_mark
