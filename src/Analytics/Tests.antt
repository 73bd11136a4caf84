-- ===== src/Analytics/Tests.antt =====
-- A store that records one event and flushes it.
use gotra.Prelude.{pos, true, List, [], ◌∷◌, ◌++◌, map, codes, ◌≡◌, refl}
use mathlib.Core.List.{Sublistᴰ}
use gotra.Analytics.{
  Event, EventRow, Store, Opening, Attempt, Runs, open_store, record_event, receive, flush, accept,
  row_of, opened, recorded, received, ticked,
}
use gotra.Analytics.Writer.{Bounded, Runs-Bounded}
use gotra.Analytics.Order.{Works, AnyAnswer, inserted_complete, inserted-Sublist}

abbrev click : Event
click = record {
  project_id = 6;
  tunnel_id = 40;
  method = codes "GET";
  path = codes "/a";
  status = pos 200;
  duration_ms = pos 12;
  received_at = 1000;
}

abbrev smooth : Attempt
smooth = record { prepared = true; appended = λ r. true; sent = true }

smooth-Works : Works smooth
smooth-Works = record { prepares = refl; appends = λ r. refl; sends = refl }

abbrev first : Store
first = open_store Opening.opens

abbrev log : List Event
log = accept click (record_event click first) (accept click first [])

abbrev queued : Store
queued = record_event click (record_event click first)

abbrev written : Store
written = flush smooth (receive smooth click (record queued { ch = click ∷ [] }))

written-Runs : Runs Works log written
unfolding open_store gotra.Analytics.disabled record_event gotra.Analytics.offer receive flush
written-Runs = ticked smooth smooth-Works refl (
    received smooth click smooth-Works refl refl
      (recorded click (recorded click (opened Opening.opens))))

written-any : Runs AnyAnswer log written
unfolding open_store gotra.Analytics.disabled record_event gotra.Analytics.offer receive flush
written-any =
    ticked smooth tt refl
      (received smooth click tt refl refl (recorded click (recorded click (opened Opening.opens))))

inserted_complete_example :
    written.inserted ++ map row_of (written.buf ++ written.ch) ≡ map row_of log
inserted_complete_example = inserted_complete written-Runs

inserted-Sublist_example : Sublistᴰ written.inserted (map row_of log)
inserted-Sublist_example = inserted-Sublist written-any

Runs-Bounded_example : Bounded written
Runs-Bounded_example = Runs-Bounded written-Runs
