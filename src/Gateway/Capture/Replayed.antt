-- ===== src/Gateway/Capture/Replayed.antt =====
-- The replay of an exchange that capture has stored.
use gotra.Prelude.{ℕ, Str, ◌≡◌, refl, arith, none, ◌++◌, ℤ, List, take}
use gotra.Errors.{Outcome, ok, err, panic}
use gotra.Store.{ModifiedRequest}
use gotra.Store as Tables
use gotra.Store.Action.{Env, World, M, pure, lift, ◌>>=◌, ignore, statement, row_or, begin, commit}
use gotra.Gateway.Host.{tunnel_host}
use gotra.Gateway.Message.{Request, Response}
use gotra.Gateway.Capture.{Source, capture_of, event_of, capture}
use gotra.Analytics.{record_event}
use gotra.Analytics as Analytics
use gotra.Requests.{Capture, insert_request, insert_response}
use gotra.Requests.Repository.{save_capture, save_replay}
use gotra.Requests.Replay.{ReplayInput, ReplayResult, Outgoing, trim_slashes}

-- A replay without a body.
abbrev pub no_override : ReplayInput
no_override = record { method = none; path = none; headers = none; body = none }

-- The request that a replay without overrides makes of a request of the gateway, whose headers
-- have come back from JSON.
abbrev pub repeated : Request → List (Str × List Str) → ModifiedRequest
repeated req headers = record {
  method = req.method;
  path = req.path;
  headers = headers;
  body = req.body;
}

abbrev pub repeated_at : Str → Str → Str → Request → List (Str × List Str) → Outgoing
repeated_at gateway_url base sub req headers = record {
  method = req.method;
  url = trim_slashes gateway_url ++ req.path;
  host = tunnel_host base sub;
  headers = headers;
  body = req.body;
}

-- What Replay does once it has its request: the HTTP client sends it, and the answer is recorded.
abbrev pub sent_and_recorded :
    Env → (Outgoing → Outcome (ℤ × Str)) → ℕ → ℕ → ℕ → Outgoing → ModifiedRequest → M ReplayResult
sent_and_recorded env send took request_id project_id outgoing modified = do
  (status, body) ← lift (send outgoing)
  id ← save_replay env request_id project_id modified status (take 33554432 body) took
  pure (record { replay_id = id; status = status; body = take 33554432 body; duration_ms = took })

module _ (env : Env) where
  -- SaveCapture does not panic.
  save_capture-panic : (c : Capture) (w w' : World) → ¬ (save_capture env c w ≡ (panic, w'))
  unfolding save_capture insert_request insert_response statement row_or begin commit
  save_capture-panic c w w' h = ground arith

  ignore-runs :
      {A : Type 0} (m : M A) (w : World)
      → ((w' : World) → ¬ (m w ≡ (panic, w')))
      → (w' : World) × (ignore m w ≡ (ok tt, w'))
  ignore-runs {A = A} m w calm = runs (m w) refl
    where
      runs : (r : Outcome A × World) → m w ≡ r → (w' : World) × (ignore m w ≡ (ok tt, w'))
      runs (ok a, w') e = (w', rw (e) refl)
      runs (err x, w') e = (w', rw (e) refl)
      runs (panic, w') e = elim (calm w' e) [ ]

  -- Whether the exchange can be stored or not, capture returns and the event is recorded.
  pub capture-records :
      (conn : Source) (req : Request) (resp : Response) (elapsed now : ℕ) (s : Analytics.Store)
      (w : World)
      → (w' : World) × (capture env conn req resp elapsed now s w
          ≡ (ok (record_event (event_of conn req resp elapsed now) s), w'))
  unfolding capture
  capture-records conn req resp elapsed now s w =
      let c = capture_of conn req resp elapsed in
      let (w', e) = ignore-runs (save_capture env c) w (save_capture-panic c w) in (w', rw (e) refl)
