-- ===== src/Gateway/Conn.antt =====
-- services/internal/gateway/registry.go: AgentConn, which multiplexes the requests of concurrent
-- calls of `forward` over one connection. A call is known by its request identifier. The log has
-- the newest event first.
pub mod Correlation
pub mod ReadLoop
use gotra.Prelude.{
  ℕ, Bool, true, false, not, Option, none, some, List, [], ◌∷◌, ◌==◌, ◌≡◌, if◌then◌else◌, find,
  select, update_where,
}
use gotra.Errors.{GoError, Sentinel, Outcome, ok, err}
use gotra.Gateway.Message.{Response}

-- An entry of AgentConn.pending: the channel of capacity one holds at most one response.
pub record Waiting : Type 0 where
  pub id : ℕ
  pub slot : Option Response

-- The cases of the `select` in forward, and the failure to write the request.
pub data Ending : Type 0 where
  answered : Response → Ending
  timed_out cancelled gone unsent : Ending

-- What forward returns.
unfoldable pub forward_result : Ending → Outcome Response
forward_result (answered r) = ok r
forward_result timed_out = err (GoError.sentinel Sentinel.forward_timeout)
forward_result cancelled = err (GoError.library 3)
forward_result gone = err (GoError.sentinel Sentinel.no_tunnel)
forward_result unsent = err (GoError.library 4)

pub data Event : Type 0 where
  sent : ℕ → Event
  delivered : ℕ → Response → Event
  returned : ℕ → Ending → Event

pub record Conn : Type 0 where
  pub pending : List Waiting
  pub closed : Bool
  pub log : List Event

-- newAgentConn
abbrev pub new_agent_conn : Conn
new_agent_conn = record { pending = []; closed = false; log = [] }

abbrev pub drop : ℕ → List Waiting → List Waiting
drop id ws = select (λ (w : Waiting). not (w.id == id)) ws

-- forward up to its `select`: the channel is stored.
unfoldable pub begin_forward : ℕ → Conn → Conn
begin_forward id c = record c {
  pending = record { id = id; slot = none } ∷ drop id c.pending;
  log = sent id ∷ c.log;
}

-- A send on a channel that is full takes the default case.
abbrev pub fill : Response → Waiting → Waiting
fill r w = record w { slot = elim w.slot [ none ↦ some r | some first ↦ some first ] }

-- deliver
unfoldable pub deliver : ℕ → Response → Conn → Conn
deliver id r c = record c {
  pending = update_where (λ (w : Waiting). w.id == id) (fill r) c.pending;
  log = delivered id r ∷ c.log;
}

-- The end of forward, with the deferred Delete.
unfoldable pub end_forward : ℕ → Ending → Conn → Conn
end_forward id e c = record c { pending = drop id c.pending; log = returned id e ∷ c.log }

-- close: closeOnce runs the body once.
unfoldable pub close : Conn → Conn
close c = record c { closed = true }

abbrev pub slot_of : Option Waiting → Option (Option Response)
slot_of none = none
slot_of (some w) = some w.slot

-- The channel of a call: none where it does not wait, else what is in it.
unfoldable pub channel : ℕ → Conn → Option (Option Response)
channel id c = slot_of (find (λ (w : Waiting). w.id == id) c.pending)

-- When a call may end so.
abbrev pub MayEnd : ℕ → Ending → Conn → Type 0
MayEnd id (answered r) c = channel id c ≡ some (some r)
MayEnd id gone c = c.closed ≡ true
MayEnd id _ c = Unit

-- The states that a connection reaches, by any interleaving of calls of forward, of messages of
-- the agent and of close.
pub data Runs : Conn → Type 0 where
  opened : Runs new_agent_conn
  began : {c : Conn} (id : ℕ) → Runs c → Runs (begin_forward id c)
  arrived : {c : Conn} (id : ℕ) (r : Response) → Runs c → Runs (deliver id r c)
  ended : {c : Conn} (id : ℕ) (e : Ending) → MayEnd id e c → Runs c → Runs (end_forward id e c)
  shut : {c : Conn} → Runs c → Runs (close c)
