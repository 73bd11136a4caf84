-- ===== src/Gateway/Conn/ReadLoop.antt =====
-- services/internal/gateway/server.go: the messages that readLoop takes from an agent, up to the
-- closing of the connection.
use gotra.Prelude.{
  ℕ, Bool, true, ◌||◌, List, [], ◌∷◌, ◌≡◌, arith, false, any, if◌then◌else◌, Bool-cases, inl, inr,
}
use gotra.Errors.{Outcome, ok, err, panic}
use gotra.Gateway.Message.{Response}
use gotra.Gateway.Conn.{Conn, deliver, close, Runs, shut, arrived}

-- A ReadJSON that fails, or an envelope, with the response that Decode makes of its payload.
data Incoming : Type 0 where
  unreadable heartbeat disconnecting other_envelope : Incoming
  response_forward : ℕ → Outcome Response → Incoming

-- The end of the loop.
unfoldable ends_loop : Incoming → Bool
ends_loop unreadable = true
ends_loop disconnecting = true
ends_loop heartbeat = false
ends_loop other_envelope = false
ends_loop (response_forward id r) = false

-- One case of the switch.
unfoldable dispatch : Incoming → Conn → Conn
dispatch (response_forward id (ok r)) c = deliver id r c
dispatch (response_forward id (err e)) c = c
dispatch (response_forward id panic) c = c
dispatch unreadable c = c
dispatch disconnecting c = c
dispatch heartbeat c = c
dispatch other_envelope c = c

-- readLoop, with the deferred close; without a message that ends it, it goes on waiting.
unfoldable read_loop : List Incoming → Conn → Conn
unfolding ends_loop dispatch
read_loop [] c = c
read_loop (m ∷ ms) c =
    let rest = read_loop ms (dispatch m c) in if ends_loop m then close c else rest

dispatch-Runs : (m : Incoming) (c : Conn) → Runs c → Runs (dispatch m c)
unfolding dispatch
dispatch-Runs (response_forward id (ok r)) c run = arrived id r run
dispatch-Runs (response_forward id (err e)) c run = run
dispatch-Runs (response_forward id panic) c run = run
dispatch-Runs unreadable c run = run
dispatch-Runs disconnecting c run = run
dispatch-Runs heartbeat c run = run
dispatch-Runs other_envelope c run = run

-- Whatever an agent sends, readLoop takes its connection from one state of a run to another, so what
-- holds of the runs of a connection holds under it.
read_loop-Runs : (ms : List Incoming) (c : Conn) → Runs c → Runs (read_loop ms c)
unfolding read_loop
read_loop-Runs [] c run = run
read_loop-Runs (m ∷ ms) c run = elim (Bool-cases (ends_loop m)) [
  | inl e ↦ rw (read_loop, e) (shut run)
  | inr e ↦ rw (read_loop, e) (read_loop-Runs ms (dispatch m c) (dispatch-Runs m c run))
]

-- The connection is closed at the end exactly if it was before or a message has ended the loop.
closed-read_loop :
    (ms : List Incoming) (c : Conn) → (read_loop ms c).closed ≡ (c.closed || any ends_loop ms)
unfolding read_loop dispatch close ends_loop deliver
closed-read_loop [] c = ground arith
closed-read_loop (m ∷ ms) c = ground (arith, closed-read_loop ms (dispatch m c))
