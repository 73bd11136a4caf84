-- ===== src/Gateway/Capture/Tests.antt =====
-- A captured request with a query, stored and replayed.
use gotra.Prelude.{[], ◌∷◌, codes, ℤ, pos, Str}
use gotra.Errors.{GoError, Outcome, err}
use gotra.Store.Action.{World}
use gotra.Tunnels.Tests.{quiet, busy}
use gotra.Gateway.Message.{Request, Response}
use gotra.Gateway.Capture.{Source, capture_of}
use gotra.Requests.Repository.{save_capture}
use gotra.Requests.Replay.{Outgoing}

abbrev conn : Source
conn = record { tunnel_id = 40; project_id = 6 }

abbrev search : Request
search = record {
  method = codes "GET";
  path = codes "/find?q=1";
  headers = (codes "Accept", codes "*/*" ∷ []) ∷ [];
  body = [];
}

abbrev found_page : Response
found_page = record { status = pos 200; headers = []; body = codes "ok" }

abbrev stored : World
stored = (save_capture quiet (capture_of conn search found_page 7) busy).1

-- The gateway is not there.
abbrev unreachable : Outgoing → Outcome (ℤ × Str)
unreachable out = err (GoError.library 3)
