-- ===== src/Agent.antt =====
-- services/internal/agent/agent.go: the requests that an agent answers, and its reconnects. The
-- HTTP client, the WebSocket, the decimal form of a number and the text of an error are arguments.
pub mod Proxy
pub mod Command
mod Tests
use gotra.Prelude.{
  ℕ, zero, suc, ℤ, ◌+◌, ◌*◌, Str, Bool, true, false, not, ◌||◌, Option, none, some, List, [], ◌∷◌,
  ◌++◌, codes, str_eq, lower, any, take, ltb, if◌then◌else◌, pos,
}
use gotra.Errors.{GoError, Outcome, ok, err, panic}
use gotra.Gateway.Message.{Request, Response}

abbrev hop_by_hop_names : List Str
hop_by_hop_names =
    codes "connection"
    ∷ codes "keep-alive"
    ∷ codes "proxy-authenticate"
    ∷ codes "proxy-authorization"
    ∷ codes "te"
    ∷ codes "trailer"
    ∷ codes "transfer-encoding"
    ∷ codes "upgrade"
    ∷ []

-- isHopByHop
unfoldable pub is_hop_by_hop : Str → Bool
is_hop_by_hop h = any (str_eq (lower h)) hop_by_hop_names

-- The Type of an Envelope, in tunnelproto.
pub data EnvelopeType : Type 0 where
  register_tunnel registered heartbeat request_forward response_forward : EnvelopeType
  disconnect error_type unknown_type : EnvelopeType

-- What ReadJSON returns: an envelope, with what Decode makes of its payload as a request.
pub record Message : Type 0 where
  pub type : EnvelopeType
  pub request_id : Str
  pub request : Outcome Request

-- The request to the local application: http.NewRequest with the headers that Add has put in.
pub record LocalRequest : Type 0 where
  pub method : Str
  pub url : Str
  pub headers : List (Str × Str)
  pub body : List ℕ

-- One Add for each value of a header.
abbrev pub adds : Str → List Str → List (Str × Str)
adds k [] = []
adds k (v ∷ vs) = (k, v) ∷ adds k vs

-- The loop of proxyLocal over the headers of the request.
unfoldable pub added_headers : List (Str × List Str) → List (Str × Str)
unfolding is_hop_by_hop
added_headers [] = []
added_headers ((k, vs) ∷ hs) =
    let rest = added_headers hs in if is_hop_by_hop k then rest else adds k vs ++ rest

-- The loop of proxyLocal over the headers of the response.
unfoldable pub kept_headers : List (Str × List Str) → List (Str × List Str)
unfolding is_hop_by_hop
kept_headers [] = []
kept_headers ((k, vs) ∷ hs) =
    let rest = kept_headers hs in if is_hop_by_hop k then rest else (k, vs) ∷ rest

-- errorResponse
unfoldable pub error_response : Str → Response
error_response message = record {
  status = pos 502;
  headers = (codes "Content-Type", codes "text/plain; charset=utf-8" ∷ []) ∷ [];
  body = message;
}

-- 32 << 20
abbrev pub max_body : ℕ
max_body = 33554432

-- What an agent takes from elsewhere: the decimal form of a port, the text of an error,
-- http.NewRequest's error, and the response that Client.Do reads.
pub record Local : Type 0 where
  pub port : ℕ
  pub decimal : ℕ → Str
  pub error_text : GoError → Str
  pub request_error : Str → Str → Option GoError
  pub send : LocalRequest → Outcome Response

module _ (local : Local) where
  unfoldable pub local_request : Request → LocalRequest
  unfolding added_headers
  local_request fr = record {
    method = fr.method;
    url = codes "http://localhost:" ++ local.decimal local.port ++ fr.path;
    headers = added_headers fr.headers;
    body = fr.body;
  }

  -- proxyLocal from Client.Do on.
  unfoldable pub relayed : Outcome Response → Outcome Response
  unfolding kept_headers error_response
  relayed (ok res) = ok (record {
    status = res.status;
    headers = kept_headers res.headers;
    body = take max_body res.body;
  })
  relayed (err e) = ok (
      error_response (
        codes "agent: local app unreachable on port "
        ++ local.decimal local.port
        ++ codes ": "
        ++ local.error_text e))
  relayed panic = panic

  -- proxyLocal
  unfoldable pub proxy_local : Request → Outcome Response
  unfolding relayed local_request error_response
  proxy_local fr = elim (local.request_error fr.method (local_request fr).url) [
    | some e ↦ ok (error_response (codes "agent: build request: " ++ local.error_text e))
    | none ↦ relayed (local.send (local_request fr))
  ]

  -- handleRequest: the identifier and the response that are written, or nothing.
  unfoldable pub handle_request : Message → Outcome (Option (Str × Response))
  unfolding proxy_local
  handle_request msg = elim msg.request [
    | ok fr ↦ elim (proxy_local fr) [
      | ok resp ↦ ok (some (msg.request_id, resp))
      | err e ↦ err e
      | panic ↦ panic
    ]
    | err e ↦ ok none
    | panic ↦ panic
  ]

-- A ReadJSON ends with an error or an envelope.
pub data Read : Type 0 where
  broken : GoError → Read
  envelope : Message → Read

-- The error with which connectAndServe ends at the reply to its registration, or none.
unfoldable pub reply_error : Read → Option GoError
reply_error (broken e) = some (GoError.wrapped "read registration reply" e)
reply_error (envelope m) = elim m.type [
  | registered ↦ none
  | error_type ↦ some (GoError.text (codes "gateway rejected tunnel"))
  | _ ↦ some (GoError.text (codes "unexpected reply"))
]

-- The read loop of connectAndServe: the requests that it hands to handleRequest until a read fails.
unfoldable pub handled : List Message → List Message
handled [] = []
handled (m ∷ ms) = let rest = handled ms in elim m.type [ request_forward ↦ m ∷ rest | _ ↦ rest ]

-- The time that Run waits before it connects again, in seconds, from the wait before.
unfoldable pub next_backoff : ℕ → ℕ
next_backoff n = if ltb n 30 then n * 2 else n

-- What ends one round of Run: ctx is cancelled during the connection or the wait, or the wait ends.
pub data Round : Type 0 where
  cancelled_connected cancelled_waiting lost : Round

-- Run over the rounds that happen, with the waits that it announces; `none` while it goes on.
unfoldable pub run : ℕ → List Round → Bool × List ℕ
unfolding next_backoff
run backoff [] = (false, [])
run backoff (cancelled_connected ∷ rounds) = (true, [])
run backoff (cancelled_waiting ∷ rounds) = (true, backoff ∷ [])
run backoff (lost ∷ rounds) =
    let (ended, waits) = run (next_backoff backoff) rounds in (ended, backoff ∷ waits)
