-- ===== src/Gateway/Conn/Correlation.antt =====
-- A call of forward gets the first response for its own identifier and no other.
use gotra.Prelude.{
  ℕ, ◌≡◌, refl, ◌∙◌, Option, none, some, List, [], ◌∷◌, ◌==◌, ==_iff, if◌then◌else◌, find,
  update_where, arith, Bool-cases, inl, inr, ◌⊎◌, sym,
}
use gotra.Gateway.Message.{Response}
use gotra.Gateway.Conn.{
  Waiting, Ending, answered, timed_out, cancelled, gone, unsent, Event, sent, delivered, returned,
  Conn, drop, fill, begin_forward, deliver, end_forward, close, channel, slot_of, MayEnd, Runs,
  opened, began, arrived, ended, shut,
}

-- What a response for a call does to its channel.
abbrev receive : Response → Option (Option Response) → Option (Option Response)
receive r none = none
receive r (some none) = some (some r)
receive r (some (some first)) = some (some first)

-- The channel that one call would have of its own, from the events that carry its identifier.
unfoldable pub own_channel : ℕ → List Event → Option (Option Response)
own_channel id [] = none
own_channel id (sent i ∷ log) =
    let before = own_channel id log in if id == i then some none else before
own_channel id (delivered i r ∷ log) =
    let before = own_channel id log in if id == i then receive r before else before
own_channel id (returned i e ∷ log) =
    let before = own_channel id log in if id == i then none else before

find-drop :
    (id i : ℕ) (ws : List Waiting)
    → slot_of (find (λ (w : Waiting). w.id == id) (drop i ws))
      ≡ (if id == i then none else slot_of (find (λ (w : Waiting). w.id == id) ws))
find-drop id i [] = ground arith
find-drop id i (w ∷ ws) =
    ground (arith, find-drop id i ws, ==_iff w.id id, ==_iff w.id i, ==_iff id i)

find-fill :
    (id i : ℕ) (r : Response) (ws : List Waiting)
    → slot_of
        (find (λ (w : Waiting). w.id == id) (update_where (λ (w : Waiting). w.id == i) (fill r) ws))
      ≡ (if id == i
          then receive r (slot_of (find (λ (w : Waiting). w.id == id) ws))
          else slot_of (find (λ (w : Waiting). w.id == id) ws))
find-fill id i r [] = ground arith
find-fill id i r (w ∷ ws) =
    ground (arith, find-fill id i r ws, ==_iff w.id id, ==_iff w.id i, ==_iff id i)

-- Whatever calls, messages and closings interleave, the channel of a call is the one that it would
-- have on a connection of its own.
pub channel-own_channel : {c : Conn} (id : ℕ) → Runs c → channel id c ≡ own_channel id c.log
unfolding channel own_channel begin_forward deliver end_forward close
channel-own_channel id opened = refl
channel-own_channel id (began {c} i r) =
    ground (arith, find-drop id i c.pending, channel-own_channel id r, ==_iff i id, ==_iff id i)
channel-own_channel id (arrived {c} i x r) =
    ground (arith, find-fill id i x c.pending, channel-own_channel id r)
channel-own_channel id (ended {c} i e may r) =
    ground (arith, find-drop id i c.pending, channel-own_channel id r)
channel-own_channel id (shut r) = channel-own_channel id r

-- The response was delivered for the call.
abbrev pub Delivered : ℕ → Response → List Event → Type 0
Delivered id r [] = ⊥
Delivered id r (e ∷ log) = (e ≡ delivered id r) ⊎ Delivered id r log

receive-some :
    (o : Option (Option Response)) (x r : Response)
    → receive x o ≡ some (some r)
    → (x ≡ r) ⊎ (o ≡ some (some r))
receive-some none x r g = ground arith
receive-some (some none) x r g = inl (ground arith)
receive-some (some (some first)) x r g = inr g

own_channel-Delivered :
    (id : ℕ) (r : Response) (log : List Event)
    → own_channel id log ≡ some (some r)
    → Delivered id r log
unfolding own_channel
own_channel-Delivered id r [] h = ground arith
own_channel-Delivered id r (sent i ∷ log) h = inr (own_channel-Delivered id r log (ground arith))
own_channel-Delivered id r (delivered i x ∷ log) h = elim (Bool-cases (id == i)) [
  | inl e ↦ elim (receive-some (own_channel id log) x r (rw e at h)) [
    | inl same ↦ inl (ground (arith, ==_iff id i, same))
    | inr before ↦ inr (own_channel-Delivered id r log before)
  ]
  | inr e ↦ inr (own_channel-Delivered id r log (ground (arith, e)))
]
own_channel-Delivered id r (returned i x ∷ log) h =
    inr (own_channel-Delivered id r log (ground arith))

-- What a return of a call needs of the events before it.
abbrev pub AnswerOf : Event → List Event → Type 0
AnswerOf (returned id (answered r)) log = (own_channel id log ≡ some (some r)) × Delivered id r log
AnswerOf _ log = Unit

abbrev pub AllAnswered : List Event → Type 0
AllAnswered [] = Unit
AllAnswered (e ∷ log) = AnswerOf e log × AllAnswered log

AnswerOf-MayEnd :
    {c : Conn} (id : ℕ) (e : Ending) → MayEnd id e c → Runs c → AnswerOf (returned id e) c.log
AnswerOf-MayEnd {c} id (answered x) may r =
    let own : own_channel id c.log ≡ some (some x) = sym (channel-own_channel id r) ∙ may in
    (own, own_channel-Delivered id x c.log own)
AnswerOf-MayEnd id timed_out may r = tt
AnswerOf-MayEnd id cancelled may r = tt
AnswerOf-MayEnd id gone may r = tt
AnswerOf-MayEnd id unsent may r = tt

-- Whenever a call has returned a response, the agent had delivered that response under the
-- identifier of this call, as the first one since the call stored its channel.
pub AllAnswered-Runs : {c : Conn} → Runs c → AllAnswered c.log
unfolding begin_forward deliver end_forward close
AllAnswered-Runs opened = tt
AllAnswered-Runs (began id r) = (tt, AllAnswered-Runs r)
AllAnswered-Runs (arrived id x r) = (tt, AllAnswered-Runs r)
AllAnswered-Runs (ended {c} id e may r) = (AnswerOf-MayEnd id e may r, AllAnswered-Runs r)
AllAnswered-Runs (shut r) = AllAnswered-Runs r
