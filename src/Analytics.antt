-- ===== src/Analytics.antt =====
-- services/internal/analytics/analytics.go: the channel of recorded events, the buffer of
-- flushLoop, and the batches that it inserts into ClickHouse. An `Attempt` says what the driver
-- answers during one flush; the rows that `Append` took are in the table if `Send` returns nil.
pub mod Writer
pub mod Order
pub mod Summary
pub mod Handler
mod Tests
use gotra.Prelude.{
  ℕ, ℤ, pos, negsuc, ◌+◌, ◌-◌, ◌%◌, ◌^◌, Str, Bool, true, false, List, [], ◌∷◌, ◌++◌, map, length,
  select, leb, ◌&&◌, ◌≡◌, ltb, if◌then◌else◌, Option, none, some,
}

-- Event
pub record Event : Type 0 where
  pub project_id : ℕ
  pub tunnel_id : ℕ
  pub method : Str
  pub path : Str
  pub status : ℤ
  pub duration_ms : ℤ
  pub received_at : ℕ

-- A row of request_events.
pub record EventRow : Type 0 where
  pub project_id : ℕ
  pub tunnel_id : ℕ
  pub method : Str
  pub path : Str
  pub status : ℕ
  pub duration_ms : ℕ
  pub received_at : ℕ

-- The conversion of an `int` to an unsigned type of `w` bits.
unfoldable pub to_uint : ℕ → ℤ → ℕ
to_uint w (pos n) = n % 2 ^ w
to_uint w (negsuc n) = 2 ^ w - 1 - n % 2 ^ w

-- The arguments of Append.
unfoldable pub row_of : Event → EventRow
row_of e = record {
  project_id = e.project_id;
  tunnel_id = e.tunnel_id;
  method = e.method;
  path = e.path;
  status = to_uint 16 e.status;
  duration_ms = to_uint 32 e.duration_ms;
  received_at = e.received_at;
}

-- Store, with the state of its `conn` and of the goroutine of flushLoop, and the rows inserted.
pub record Store : Type 0 where
  -- conn != nil
  pub enabled : Bool
  pub connected : Bool
  pub buf : List Event
  pub ch : List Event
  -- `done` is closed
  pub done : Bool
  pub looping : Bool
  pub inserted : List EventRow

-- The outcome of Open: which of its steps fails, if one does.
pub data Opening : Type 0 where
  no_url bad_url connect_fails ping_fails schema_fails opens : Opening

unfoldable pub disabled : Store
disabled = record {
  enabled = false;
  connected = false;
  buf = [];
  ch = [];
  done = false;
  looping = false;
  inserted = [];
}

-- Open, on a table that is empty.
unfoldable pub open_store : Opening → Store
unfolding disabled
open_store opens = record disabled { enabled = true; connected = true; looping = true }
open_store _ = disabled

-- make(chan Event, 1024)
abbrev pub ch_capacity : ℕ
ch_capacity = 1024

abbrev pub flush_size : ℕ
flush_size = 500

-- The channel after the `select` of Record.
unfoldable pub offer : Event → List Event → List Event
offer e ch = if ltb (length ch) ch_capacity then ch ++ e ∷ [] else ch

-- Record
unfoldable pub record_event : Event → Store → Store
unfolding offer
record_event e s = if s.enabled then record s { ch = offer e s.ch } else s

-- What the driver answers to PrepareBatch, to each Append, and to Send.
pub record Attempt : Type 0 where
  pub prepared : Bool
  pub appended : EventRow → Bool
  pub sent : Bool

-- The rows that one flush of `batch` inserts.
unfoldable pub inserts : Attempt → List Event → List EventRow
unfolding row_of
inserts a batch =
    if a.prepared then (if a.sent then select a.appended (map row_of batch) else []) else []

-- flush
unfoldable pub flush : Attempt → Store → Store
unfolding inserts
flush a s = elim s.buf [
  | [] ↦ s
  | e ∷ es ↦ record s { buf = []; inserted = s.inserted ++ inserts a (e ∷ es) }
]

-- The case of flushLoop that receives an event, with the flush of a full buffer.
unfoldable pub receive : Attempt → Event → Store → Store
unfolding flush
receive a e s =
    let s' = record s { buf = s.buf ++ e ∷ [] } in
    if leb flush_size (length s'.buf) then flush a s' else s'

-- The case of flushLoop on `done`.
unfoldable pub finish : Attempt → Store → Store
unfolding flush
finish a s = record (flush a s) { looping = false }

-- Close; a second `close` of the channel panics.
unfoldable pub close : Store → Option Store
close s =
    if s.enabled
    then (if s.done then none else some (record s { done = true; connected = false }))
    else some s

-- The events that Record has put into the channel, after one more call on `s`.
unfoldable pub accept : Event → Store → List Event → List Event
accept e s log = if s.enabled && ltb (length s.ch) ch_capacity then log ++ e ∷ [] else log

-- The runs of a store from Open, with the events put into its channel, where the driver may answer
-- each flush by an attempt in `May`. The loop takes any case of its `select` that is ready, also
-- after Close.
pub data Runs (May : Attempt → Type 0) : List Event → Store → Type 0 where
  opened : (o : Opening) → Runs May [] (open_store o)
  recorded :
      {log : List Event} {s : Store} (e : Event)
      → Runs May log s
      → Runs May (accept e s log) (record_event e s)
  received :
      {log ch : List Event} {s : Store} (a : Attempt) (e : Event)
      → May a
      → s.looping ≡ true
      → s.ch ≡ e ∷ ch
      → Runs May log s
      → Runs May log (receive a e (record s { ch = ch }))
  ticked :
      {log : List Event} {s : Store} (a : Attempt)
      → May a
      → s.looping ≡ true
      → Runs May log s
      → Runs May log (flush a s)
  finished :
      {log : List Event} {s : Store} (a : Attempt)
      → May a
      → s.looping ≡ true
      → s.done ≡ true
      → Runs May log s
      → Runs May log (finish a s)
  closed : {log : List Event} {s s' : Store} → close s ≡ some s' → Runs May log s → Runs May log s'
