-- ===== src/Agent/Proxy.antt =====
-- The headers that pass an agent, the answers to requests, and the waits between connections.
use gotra.Prelude.{
  ℕ, zero, suc, ◌+◌, ◌*◌, ◌≤◌, ◌<◌, ◌≡◌, refl, ap, ◌∙◌, Str, codes, Bool, true, false, Option, none,
  some, List, [], ◌∷◌, ◌++◌, All, ltb, if◌then◌else◌, arith, ◌⊎◌, take,
}
use gotra.Errors.{GoError, ok}
use gotra.Gateway.Message.{Request, Response}
use gotra.Agent.{
  is_hop_by_hop, Local, kept_headers, local_request, error_response, max_body, next_backoff, run,
  Round, cancelled_connected, cancelled_waiting, lost,
}

-- A header that may cross the tunnel.
abbrev pub Crosses {ℓ} : {A : Type ℓ} → Str × A → Type 0
Crosses h = is_hop_by_hop h.0 ≡ false

-- An answer to a forwarded request: one of status 502 of the agent's own, or the local
-- application's, with its body cut at 32 MiB.
pub data AnswerTo (local : Local) (fr : Request) : Response → Type 0 where
  refused : (text : Str) → AnswerTo local fr (error_response text)
  answered :
      {res : Response}
      → local.send (local_request local fr) ≡ ok res
      → AnswerTo local fr (record {
        status = res.status;
        headers = kept_headers res.headers;
        body = take max_body res.body;
      })

-- The response crosses the tunnel, and so does the request to the local application.
pub record Relays (local : Local) (fr : Request) (resp : Response) : Type 0 where
  pub answer : AnswerTo local fr resp
  pub request_crosses : All (Crosses {A = Str}) (local_request local fr).headers
  pub response_crosses : All (Crosses {A = List Str}) resp.headers

abbrev failure_text : Local → GoError → Str
failure_text local e = codes "agent: build request: " ++ local.error_text e

-- The waits of Run.
data Wait : ℕ → Type 0 where
  one : Wait 1
  two : Wait 2
  four : Wait 4
  eight : Wait 8
  sixteen : Wait 16
  thirty_two : Wait 32

next_backoff-Wait : {n : ℕ} → Wait n → Wait (next_backoff n)
unfolding next_backoff
next_backoff-Wait one = two
next_backoff-Wait two = four
next_backoff-Wait four = eight
next_backoff-Wait eight = sixteen
next_backoff-Wait sixteen = thirty_two
next_backoff-Wait thirty_two = thirty_two

Wait-bounds : {n : ℕ} → Wait n → (1 ≤ n) × (n ≤ 32)
Wait-bounds one = ground arith
Wait-bounds two = ground arith
Wait-bounds four = ground arith
Wait-bounds eight = ground arith
Wait-bounds sixteen = ground arith
Wait-bounds thirty_two = ground arith

abbrev pub IsBounded : ℕ → Type 0
IsBounded n = (1 ≤ n) × (n ≤ 32)

run-IsBounded : (rounds : List Round) {n : ℕ} → Wait n → All IsBounded (run n rounds).1
unfolding run
run-IsBounded [] w = tt
run-IsBounded (cancelled_connected ∷ rounds) w = tt
run-IsBounded (cancelled_waiting ∷ rounds) w = (Wait-bounds w, tt)
run-IsBounded (lost ∷ rounds) w = (Wait-bounds w, run-IsBounded rounds (next_backoff-Wait w))

-- However often the connection is lost, Run waits between 1 and 32 seconds before it connects
-- again.
pub run_waits : (rounds : List Round) → All IsBounded (run 1 rounds).1
run_waits rounds = run-IsBounded rounds one

-- Run ends only when its context is cancelled.
pub run_ends : (n : ℕ) (rounds : List Round) → All (λ r. r ≡ lost) rounds → (run n rounds).0 ≡ false
unfolding run
run_ends n [] h = refl
run_ends n (lost ∷ rounds) (h, hs) = run_ends (next_backoff n) rounds hs
run_ends n (cancelled_connected ∷ rounds) (h, hs) = cc
run_ends n (cancelled_waiting ∷ rounds) (h, hs) = cc
