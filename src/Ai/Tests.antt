-- ===== src/Ai/Tests.antt =====
-- A provider that fails, and an incident from a captured failure.
use gotra.Prelude.{pos, ◌≡◌, ◌⊎◌, Str, true, [], codes}
use gotra.Errors.{GoError, ok, err}
use gotra.Store.Action.{World}
use gotra.Tunnels.Tests.{quiet}
use gotra.Requests.Tests.{saved}
use gotra.Ai.{
  Provider, CompletionRequest, CompletionResponse, AnalysisResult, IncidentResult, new_orchestrator,
  complete,
}
use gotra.Ai.Fallback.{AnswersAs, Silent, stub_response, complete_answers}
use gotra.Ai.Service.{Tools, StoredIncident, generate_incident}

abbrev broken : Provider
broken = record {
  name = codes "gemini";
  available = true;
  complete = λ req. err (GoError.library 1);
}

abbrev question : CompletionRequest
question = record { system = []; user = codes "Status: 5"; max_tokens = 10 }

abbrev json : Str → Str
json severity = severity

complete_answers_example :
    (r : CompletionResponse) × (complete
        (new_orchestrator broken broken json (codes "gemini") (codes "claude"))
        question
      ≡ ok r)
    × (AnswersAs broken broken question (codes "gemini") r
        ⊎ (Silent broken broken question (codes "gemini")
            × (AnswersAs broken broken question (codes "claude") r
                ⊎ (Silent broken broken question (codes "claude")
                    × (r ≡ stub_response json question)))))
complete_answers_example =
    complete_answers broken broken json (codes "gemini") (codes "claude") question (λ e. cc)
      (λ e. cc)

abbrev reply : CompletionResponse
reply = record { text = []; provider = codes "stub"; tokens_in = pos 0; tokens_out = pos 0 }

abbrev found : IncidentResult
found = record {
  summary = codes "down";
  timeline = [];
  affected_services = [];
  root_cause = codes "bug";
  recommended_actions = [];
  severity = codes "high";
  confidence = pos 250;
}

abbrev tools : Tools
tools = record {
  complete = λ req. ok reply;
  analysis_system = [];
  incident_system = [];
  decode_analysis = λ s. err (GoError.library 2);
  decode_incident = λ s. ok found;
  scaled = λ n c. pos n;
  decimal = λ n. codes "0";
  clock_time = λ n. codes "00:00:00";
}

abbrev reported : World
reported = (generate_incident quiet tools 1 6 saved).1

abbrev incident : StoredIncident
incident = record {
  id = 106;
  provider = codes "stub";
  result = record found { confidence = pos 100 };
  confidence = 100;
}
