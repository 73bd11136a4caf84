-- ===== src/Gateway/Capture.antt =====
-- services/internal/gateway/server.go: capture, the exchange that the gateway stores for a request
-- that serveLocally has forwarded, and the event that it records.
pub mod Replayed
mod Tests
use gotra.Prelude.{ℕ, pos}
use gotra.Store.Action.{Env, M, pure, ◌>>◌, ignore}
use gotra.Gateway.Host.{captured_path}
use gotra.Gateway.Message.{Request, Response}
use gotra.Analytics.{Event, Store, record_event}
use gotra.Requests.{Capture}
use gotra.Requests.Repository.{save_capture}

-- What capture reads of the connection.
pub record Source : Type 0 where
  pub tunnel_id : ℕ
  pub project_id : ℕ

-- The requests.Capture that capture builds.
unfoldable pub capture_of : Source → Request → Response → ℕ → Capture
unfolding captured_path
capture_of conn req resp duration_ms = record {
  tunnel_id = conn.tunnel_id;
  project_id = conn.project_id;
  method = req.method;
  path = (captured_path req.path).0;
  query = (captured_path req.path).1;
  req_headers = req.headers;
  req_body = req.body;
  status = resp.status;
  resp_headers = resp.headers;
  resp_body = resp.body;
  duration_ms = duration_ms;
}

-- The analytics.Event that capture builds at the time `now`.
unfoldable pub event_of : Source → Request → Response → ℕ → ℕ → Event
unfolding captured_path
event_of conn req resp duration_ms now = record {
  project_id = conn.project_id;
  tunnel_id = conn.tunnel_id;
  method = req.method;
  path = (captured_path req.path).0;
  status = resp.status;
  duration_ms = pos duration_ms;
  received_at = now;
}

module _ (env : Env) where
  -- capture, with the goroutine of SaveCapture run at once, and the writer's state after Record.
  unfoldable pub capture : Source → Request → Response → ℕ → ℕ → Store → M Store
  unfolding capture_of event_of
  capture conn req resp duration_ms now s = do
    ignore (save_capture env (capture_of conn req resp duration_ms))
    pure (record_event (event_of conn req resp duration_ms now) s)
