-- ===== src/Analytics/Writer.antt =====
-- The bounds of the channel and of the buffer, and what of the recorded events is inserted.
use gotra.Prelude.{◌≤◌, ◌<◌, List, [], ◌∷◌, length, ◌≡◌, some, arith, length-append}
use gotra.Analytics.{
  Event, Store, Opening, Attempt, Runs, open_store, disabled, record_event, offer, flush, receive,
  finish, close, opened, recorded, received, ticked, finished, closed,
}

-- At most 1024 events wait in the channel, and the buffer stays below the size of a flush.
pub record Bounded (s : Store) : Type 0 where
  pub ch_bounded : length s.ch ≤ 1024
  pub buf_bounded : length s.buf < 500

open_store-Bounded : (o : Opening) → Bounded (open_store o)
unfolding open_store disabled
open_store-Bounded o = ground arith

offer_bounded : (e : Event) (ch : List Event) → length ch ≤ 1024 → length (offer e ch) ≤ 1024
unfolding offer
offer_bounded e ch h = ground (arith, length-append ch (e ∷ []))

flush-Bounded : (a : Attempt) (s : Store) → Bounded s → Bounded (flush a s)
unfolding flush
flush-Bounded a s h = ground arith

record-Bounded : (e : Event) (s : Store) → Bounded s → Bounded (record_event e s)
unfolding record_event
record-Bounded e s h = ground (arith, offer_bounded e s.ch)

receive-Bounded : (a : Attempt) (e : Event) (s : Store) → Bounded s → Bounded (receive a e s)
unfolding receive flush
receive-Bounded a e s h = ground (arith, length-append s.buf (e ∷ []))

close-Bounded : (s : Store) {s' : Store} → Bounded s → close s ≡ some s' → Bounded s'
unfolding close
close-Bounded s h k = ground arith

-- In every run, at most 1024 events wait in the channel, and between two cases of the loop the
-- buffer holds less than 500.
pub Runs-Bounded :
    {May : Attempt → Type 0} {log : List Event} {s : Store} → Runs May log s → Bounded s
unfolding finish
Runs-Bounded (opened o) = open_store-Bounded o
Runs-Bounded (recorded {s = s} e r) = record-Bounded e s (Runs-Bounded r)
Runs-Bounded (received a e may l h r) =
    receive-Bounded a e _ (let b = Runs-Bounded r in ground arith)
Runs-Bounded (ticked {s = s} a may l r) = flush-Bounded a s (Runs-Bounded r)
Runs-Bounded (finished {s = s} a may l d r) =
    let b = flush-Bounded a s (Runs-Bounded r) in ground arith
Runs-Bounded (closed {s = s} h r) = close-Bounded s (Runs-Bounded r) h
