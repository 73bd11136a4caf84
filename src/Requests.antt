-- ===== src/Requests.antt =====
-- services/internal/requests/repository.go: captured requests with their responses, and replays.
-- Headers are stored as JSON, which stands here for the map that it encodes.

pub mod Repository
pub mod Captures
pub mod Replay
pub mod Handler
pub mod Tests
use gotra.Prelude.{
  ℕ, ℤ, pos, negsuc, Str, Bool, true, false, ◌&&◌, ◌||◌, not, Option, none, some, List, [], ◌∷◌,
  ◌++◌, ◌==◌, leb, if◌then◌else◌, find, any, select, take, length, map,
}
use gotra.Errors.{GoError, Sentinel}
use gotra.Store.{Db, Project, Member, Tunnel, Request, Response, ModifiedRequest}
use gotra.Store as Tables
use gotra.Store.Action.{
  Env, M, pure, raise, ◌>>=◌, ◌>>◌, pool, tx, Row, row, broken, statement, found, row_or, begin,
  commit, foreign_key_violation,
}
use gotra.Tunnels.{member_of}

-- Capture
pub record Capture : Type 0 where
  pub tunnel_id : ℕ
  pub project_id : ℕ
  pub method : Str
  pub path : Str
  pub query : Str
  pub req_headers : List (Str × List Str)
  pub req_body : Str
  pub status : ℤ
  pub resp_headers : List (Str × List Str)
  pub resp_body : Str
  pub duration_ms : ℕ

-- Summary
pub record Summary : Type 0 where
  pub id : ℕ
  pub tunnel_id : ℕ
  pub method : Str
  pub path : Str
  pub status : Option ℤ
  pub duration_ms : Option ℕ
  pub received_at : ℕ

-- ResponseDetail
pub record ResponseDetail : Type 0 where
  pub status : ℤ
  pub headers : List (Str × List Str)
  pub body : Str
  pub duration_ms : ℕ

-- Detail
pub record Detail : Type 0 where
  pub id : ℕ
  pub tunnel_id : ℕ
  pub project_id : ℕ
  pub method : Str
  pub path : Str
  pub query : Str
  pub headers : List (Str × List Str)
  pub body : Str
  pub response : Option ResponseDetail
  pub received_at : ℕ

-- ReplayContext
pub record ReplayContext : Type 0 where
  pub request_id : ℕ
  pub project_id : ℕ
  pub tunnel_public_url : Str
  pub method : Str
  pub path : Str
  pub query : Str
  pub headers : List (Str × List Str)
  pub body : Str

abbrev pub missing_request : GoError
missing_request = GoError.sentinel Sentinel.requests_not_found

-- string_data_right_truncation
abbrev pub too_long : ℕ
too_long = 22001

-- INSERT INTO requests: `method` has at most 10 characters, and the tunnel and the project exist.
unfoldable pub insert_request : Request → Db → Row (ℕ × Db)
insert_request r d =
    if leb (length r.method) 10
    then (if any (λ (t : Tunnel). t.id == r.tunnel_id) d.tunnels
          && any (λ (p : Project). p.id == r.project_id) d.projects
        then row (r.id, record d { requests = d.requests ++ r ∷ [] })
        else broken foreign_key_violation)
    else broken too_long

-- INSERT INTO responses
unfoldable pub insert_response : Response → Db → Row (Unit {0} × Db)
insert_response x d =
    if any (λ (r : Request). r.id == x.request_id) d.requests
    then row (tt, record d { responses = d.responses ++ x ∷ [] })
    else broken foreign_key_violation

-- INSERT INTO replays
unfoldable pub insert_replay : Tables.Replay → Db → Row (ℕ × Db)
insert_replay x d =
    if any (λ (r : Request). r.id == x.original_request_id) d.requests
      && any (λ (p : Project). p.id == x.project_id) d.projects
    then row (x.id, record d { replays = d.replays ++ x ∷ [] })
    else broken foreign_key_violation

unfoldable pub summary_of : Request → Option Response → Summary
summary_of r answer = record {
  id = r.id;
  tunnel_id = r.tunnel_id;
  method = r.method;
  path = r.path;
  status = elim answer [ none ↦ none | some x ↦ some x.status_code ];
  duration_ms = elim answer [ none ↦ none | some x ↦ some x.duration_ms ];
  received_at = r.received_at;
}

-- The rows of LEFT JOIN responses for one request.
unfoldable pub summaries_of : Request → List Response → List Summary
unfolding summary_of
summaries_of r [] = summary_of r none ∷ []
summaries_of r (x ∷ xs) = map (λ y. summary_of r (some y)) (x ∷ xs)

-- The rows of ListForProject before LIMIT, newest first.
unfoldable pub joined : List Response → List Request → List Summary → List Summary
unfolding summaries_of
joined answers [] acc = acc
joined answers (r ∷ rs) acc =
    joined answers rs
      (summaries_of r (select (λ (x : Response). x.request_id == r.id) answers) ++ acc)

-- The rows of ListForProject.
unfoldable pub listed : ℕ → ℕ → ℕ → Db → List Summary
unfolding joined
listed user_id project_id limit d = elim (member_of user_id project_id d) [
  | none ↦ []
  | some m ↦
      take limit
        (joined d.responses (select (λ (r : Request). r.project_id == project_id) d.requests) [])
]

-- The limit of ListForProject.
unfoldable pub limit_or_default : ℤ → ℕ
limit_or_default (negsuc n) = 100
limit_or_default (pos n) = if n == 0 || not (leb n 500) then 100 else n

unfoldable pub response_detail : Option Response → Option ResponseDetail
response_detail none = none
response_detail (some x) = some (record {
  status = x.status_code;
  headers = x.headers;
  body = x.body;
  duration_ms = x.duration_ms;
})

unfoldable pub detail_of : Request → Option Response → Detail
unfolding response_detail
detail_of r answer = record {
  id = r.id;
  tunnel_id = r.tunnel_id;
  project_id = r.project_id;
  method = r.method;
  path = r.path;
  query = r.query;
  headers = r.headers;
  body = r.body;
  response = response_detail answer;
  received_at = r.received_at;
}

-- The request with an identifier, where the user is a member of its project.
unfoldable pub visible : ℕ → ℕ → Db → Option Request
visible user_id request_id d = elim (find (λ (r : Request). r.id == request_id) d.requests) [
  | none ↦ none
  | some r ↦ elim (member_of user_id r.project_id d) [ none ↦ none | some m ↦ some r ]
]

unfoldable pub detail_for : ℕ → ℕ → Db → Option Detail
unfolding visible detail_of
detail_for user_id request_id d = elim (visible user_id request_id d) [
  | none ↦ none
  | some r ↦ some (detail_of r (find (λ (x : Response). x.request_id == r.id) d.responses))
]

unfoldable pub replay_context_of : Request → Tunnel → ReplayContext
replay_context_of r t = record {
  request_id = r.id;
  project_id = r.project_id;
  tunnel_public_url = t.public_url;
  method = r.method;
  path = r.path;
  query = r.query;
  headers = r.headers;
  body = r.body;
}

unfoldable pub replay_context_for : ℕ → ℕ → Db → Option ReplayContext
unfolding visible replay_context_of
replay_context_for user_id request_id d = elim (visible user_id request_id d) [
  | none ↦ none
  | some r ↦ elim (find (λ (t : Tunnel). t.id == r.tunnel_id) d.tunnels) [
    | none ↦ none
    | some t ↦ some (replay_context_of r t)
  ]
]
