-- ===== src/Ai.antt =====
-- services/internal/ai: schema.go and provider.go here. The two remote providers, JSON, and the
-- float64 product of a confidence are arguments.
pub mod Schema
pub mod Fallback
pub mod Context
pub mod Repository
pub mod Service
pub mod Handler
pub mod Recent
pub mod Stored
mod Tests
use gotra.Prelude.{
  ℕ, ℤ, pos, negsuc, Str, String, Bool, true, false, ◌&&◌, ◌||◌, Option, none, some, List, [], ◌∷◌,
  ◌++◌, codes, has_prefix, trim_prefix, trim_space, leb, str_eq, if◌then◌else◌,
}
use gotra.Errors.{GoError, Outcome, ok, err, panic}

-- CompletionRequest
pub record CompletionRequest : Type 0 where
  pub system : Str
  pub user : Str
  pub max_tokens : ℕ

-- CompletionResponse
pub record CompletionResponse : Type 0 where
  pub text : Str
  pub provider : Str
  pub tokens_in : ℤ
  pub tokens_out : ℤ

-- AnalysisResult
pub record AnalysisResult : Type 0 where
  pub explanation : Str
  pub root_cause : Str
  pub suggested_fix : Str
  pub severity : Str
  pub confidence : ℤ

-- IncidentResult
pub record IncidentResult : Type 0 where
  pub summary : Str
  pub timeline : List Str
  pub affected_services : List Str
  pub root_cause : Str
  pub recommended_actions : List Str
  pub severity : Str
  pub confidence : ℤ

-- The text before the last occurrence of a pattern that is not empty: strings.LastIndex.
unfoldable pub before_last : Str → Str → Option Str
before_last pattern [] = none
before_last pattern (c ∷ s) = elim (before_last pattern s) [
  | some l ↦ some (c ∷ l)
  | none ↦ if has_prefix (c ∷ s) pattern then some [] else none
]

abbrev pub fence : Str
fence = b'`' ∷ b'`' ∷ b'`' ∷ []

unfoldable pub or_whole : Str → Option Str → Str
or_whole s none = s
or_whole s (some l) = l

-- The text that parseJSON decodes.
unfoldable pub json_text : Str → Str
unfolding or_whole before_last
json_text raw =
    let s = trim_space raw in
    let t = trim_prefix (trim_prefix s (fence ++ codes "json")) fence in
    if has_prefix s fence then trim_space (or_whole t (before_last fence t)) else s

-- clampConfidence
unfoldable pub clamp_confidence : ℤ → ℕ
clamp_confidence (negsuc n) = 0
clamp_confidence (pos n) = if leb n 100 then n else 100

-- The factors of completeness that the services pass: 0.6, 0.7, 0.8 and 1.0.
pub data Completeness : Type 0 where
  no_response few_failures logs_only complete_context : Completeness

-- applyConfidence, where `scaled` is the truncated product with the factor.
unfoldable pub apply_confidence : (ℕ → Completeness → ℤ) → ℤ → Completeness → ℕ
unfolding clamp_confidence
apply_confidence scaled confidence c = clamp_confidence (scaled (clamp_confidence confidence) c)

-- Provider: its name and its Complete.
pub record Provider : Type 0 where
  pub name : Str
  pub available : Bool
  pub complete : CompletionRequest → Outcome CompletionResponse

-- The remote providers by name, of NewOrchestrator.
unfoldable pub by_name : Provider → Provider → Str → Option Provider
by_name gemini claude name =
    if str_eq name (codes "gemini")
    then some gemini
    else if str_eq name (codes "claude")
    then some claude
    else none

abbrev pub if_available : Option Provider → List Provider → List Provider
if_available none rest = rest
if_available (some p) rest = if p.available then p ∷ rest else rest

-- strings.Contains
unfoldable pub contains : Str → Str → Bool
contains [] pattern = has_prefix [] pattern
contains (c ∷ s) pattern = has_prefix (c ∷ s) pattern || contains s pattern

-- The severity that the stub finds in a prompt.
unfoldable pub stub_severity : Str → Str
unfolding contains
stub_severity user =
    if contains user (codes "status\": 5")
      || (contains user (codes "Status: 5") || contains user (codes "5xx"))
    then codes "high"
    else if contains user (codes "status\": 4")
        || (contains user (codes "Status: 4") || contains user (codes "4xx"))
    then codes "medium"
    else codes "low"

-- stubProvider, where `payload` is the JSON of its result with a severity.
unfoldable pub stub_provider : (Str → Str) → Provider
unfolding stub_severity
stub_provider payload = record {
  name = codes "stub";
  available = true;
  complete = λ req. ok (record {
    text = payload (stub_severity req.user);
    provider = codes "stub";
    tokens_in = pos 0;
    tokens_out = pos 0;
  });
}

-- NewOrchestrator: cfg.AI.PrimaryProvider, cfg.AI.SecondaryProvider and the stub.
unfoldable pub new_orchestrator : Provider → Provider → (Str → Str) → Str → Str → List Provider
unfolding by_name stub_provider
new_orchestrator gemini claude payload primary secondary =
    if_available (by_name gemini claude primary)
      (if_available (by_name gemini claude secondary) (stub_provider payload ∷ []))

-- The loop of Complete, with lastErr.
unfoldable pub complete_from :
    GoError → List Provider → CompletionRequest → Outcome CompletionResponse
complete_from last_err [] req = err (GoError.wrapped "all ai providers failed" last_err)
complete_from last_err (p ∷ ps) req = elim (p.complete req) [
  | ok resp ↦ ok resp
  | err e ↦ complete_from e ps req
  | panic ↦ panic
]

-- Complete
unfoldable pub complete : List Provider → CompletionRequest → Outcome CompletionResponse
unfolding complete_from
complete providers req = complete_from GoError.nil providers req
