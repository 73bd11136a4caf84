-- ===== src/Requests/Captures.antt =====
-- What SaveCapture stores and the repository reads back, and what ListForProject may list.
use gotra.Prelude.{
  ℕ, ℤ, pos, negsuc, ◌≡◌, refl, ◌≤◌, ◌<◌, leb, Bool-cases, Bool, true, false, ◌&&◌, Option, none,
  some, List, [], ◌∷◌, ◌++◌, ◌==◌, ==_refl, any, select, take, length, map, arith, All,
  Option-cases, inl, inr, ◌⊎◌,
}
use gotra.Prelude.Alls.{find-fresh, length-take, All-take, All-append, All-map, All-cons_if}
use gotra.Errors.{GoError, ok, err}
use gotra.Store.{Db, Member, Request, Response}
use gotra.Store.Action.{Env, World, statement, row_or, begin, commit}
use gotra.Store.Action.Laws.{spent}
use gotra.Tunnels.{member_of}
use gotra.Requests.{
  Capture, Summary, Detail, insert_request, insert_response, listed, limit_or_default, joined,
  summaries_of, summary_of, detail_for, visible, detail_of, response_detail,
}
use gotra.Requests.Repository.{save_capture, list_for_project, get_for_user}

-- The rows of a capture.
abbrev pub request_of : ℕ → ℕ → Capture → Request
request_of id now c = record {
  id = id;
  tunnel_id = c.tunnel_id;
  project_id = c.project_id;
  method = c.method;
  path = c.path;
  query = c.query;
  headers = c.req_headers;
  body = c.req_body;
  received_at = now;
}

abbrev pub response_of : ℕ → Capture → Response
response_of id c = record {
  request_id = id;
  status_code = c.status;
  headers = c.resp_headers;
  body = c.resp_body;
  duration_ms = c.duration_ms;
}

-- The tables with a capture.
abbrev pub with_capture : ℕ → ℕ → Capture → Db → Db
with_capture id now c d = record d {
  requests = d.requests ++ request_of id now c ∷ [];
  responses = d.responses ++ response_of id c ∷ [];
}

-- A capture with its headers as they are read back from JSON.
abbrev pub as_json : Env → Capture → Capture
as_json env c = record c {
  req_headers = env.json_headers c.req_headers;
  resp_headers = env.json_headers c.resp_headers;
}

module _ (env : Env) where
  -- Where SaveCapture returns an identifier, the one change to the tables is the request with that
  -- identifier and its response, with their headers in JSON.
  pub save_capture_sound :
      (c : Capture) (w : World) {id : ℕ} {w' : World}
      → save_capture env c w ≡ (ok id, w')
      → w'.committed ≡ with_capture id w.now (as_json env c) w.committed
  unfolding save_capture insert_request insert_response statement row_or begin commit
  save_capture_sound c w h = ground arith

  -- Where SaveCapture returns an error, no table has changed: a request is never stored without
  -- its response.
  pub save_capture_rollback :
      (c : Capture) (w : World) {e : GoError} {w' : World}
      → save_capture env c w ≡ (err e, w')
      → w'.committed ≡ w.committed
  unfolding save_capture insert_request insert_response statement row_or begin commit
  save_capture_rollback c w h = ground arith

-- What GetForUser returns for a capture.
abbrev pub captured_detail : ℕ → ℕ → Capture → Detail
captured_detail id now c = record {
  id = id;
  tunnel_id = c.tunnel_id;
  project_id = c.project_id;
  method = c.method;
  path = c.path;
  query = c.query;
  headers = c.req_headers;
  body = c.req_body;
  response = some (record {
    status = c.status;
    headers = c.resp_headers;
    body = c.resp_body;
    duration_ms = c.duration_ms;
  });
  received_at = now;
}

detail_for-with_capture :
    (user_id id now : ℕ) (c : Capture) (d : Db) {m : Member}
    → any (λ (r : Request). r.id == id) d.requests ≡ false
    → any (λ (x : Response). x.request_id == id) d.responses ≡ false
    → member_of user_id c.project_id d ≡ some m
    → detail_for user_id id (with_capture id now c d) ≡ some (captured_detail id now c)
unfolding detail_for visible detail_of response_detail member_of
detail_for-with_capture user_id id now c d h k l =
    let request =
      find-fresh (λ (r : Request). r.id == id) d.requests (request_of id now c) h (==_refl id) in
    let answer =
      find-fresh (λ (x : Response). x.request_id == id) d.responses (response_of id c) k
        (==_refl id) in
    rw (detail_for, visible, request, l, answer) refl

module _ (env : Env) where
  -- A member of the project reads back, through GetForUser, the request and the response that
  -- SaveCapture has stored, with their headers as encoding/json and JSONB keep them, where the
  -- identifier was new to both tables and the statement runs.
  pub get_for_user-save_capture :
      (c : Capture) (user_id : ℕ) (w : World) {id : ℕ} {w' : World} {m : Member}
      → save_capture env c w ≡ (ok id, w')
      → any (λ (r : Request). r.id == id) w.committed.requests ≡ false
      → any (λ (x : Response). x.request_id == id) w.committed.responses ≡ false
      → member_of user_id c.project_id w.committed ≡ some m
      → env.fault w'.statements ≡ none
      → get_for_user env user_id id w' ≡ (ok (captured_detail id w.now (as_json env c)), spent w')
  unfolding get_for_user statement row_or
  get_for_user-save_capture c user_id w {id} {w'} h fresh fresh' member runs =
      let stored = save_capture_sound env c w {id = id} {w' = w'} h in
      let reads =
        detail_for-with_capture user_id id w.now (as_json env c) w.committed fresh fresh' member in
      rw (runs, stored, reads) refl

-- The rows of a list stand for requests of the project.
abbrev pub IsListedFrom : ℕ → Db → Summary → Type 0
IsListedFrom project_id d s =
    any (λ (r : Request). r.id == s.id && r.project_id == project_id) d.requests ≡ true

-- A number of entries that the limit allows: a limit from 1 to 500 is kept, and any other stands
-- for 100.
abbrev pub IsWithin : ℤ → ℕ → Type 0
IsWithin (negsuc n) k = k ≤ 100
IsWithin (pos n) k = (1 ≤ n) × (n ≤ 500) × (k ≤ n) ⊎ ((n ≡ 0) ⊎ (500 < n)) × (k ≤ 100)

limit_or_default-IsWithin : (limit : ℤ) (k : ℕ) → k ≤ limit_or_default limit → IsWithin limit k
unfolding limit_or_default
limit_or_default-IsWithin (negsuc n) k h = h
limit_or_default-IsWithin (pos n) k h = elim (Bool-cases (leb n 500)) [
  | inl e ↦ elim (Bool-cases (n == 0)) [
    | inl z ↦ inr (inl (ground arith), ground arith)
    | inr z ↦ inl (ground arith, ground arith, ground arith)
  ]
  | inr e ↦ inr (inr (ground arith), ground arith)
]

summaries_of-All :
    (P : Summary → Type 0) (r : Request) (xs : List Response)
    → ((o : Option Response) → P (summary_of r o))
    → All P (summaries_of r xs)
unfolding summaries_of
summaries_of-All P r [] h = (h none, tt)
summaries_of-All P r (x ∷ xs) h = (h (some x), rest xs)
  where
    rest : (ys : List Response) → All P (map (λ y. summary_of r (some y)) ys)
    rest [] = tt
    rest (y ∷ ys) = (h (some y), rest ys)

joined-All :
    (P : Summary → Type 0) (xs : List Response) (rs : List Request) (acc : List Summary)
    → All (λ r. (o : Option Response) → P (summary_of r o)) rs
    → All P acc
    → All P (joined xs rs acc)
unfolding joined
joined-All P xs [] acc h k = k
joined-All P xs (r ∷ rs) acc (h, hs) k = joined-All P xs rs _ hs (
    All-append P (summaries_of r (select (λ (x : Response). x.request_id == r.id) xs)) acc
      (summaries_of-All P r _ h) k)

-- What `select` keeps is in the list and passes the test.
select-any :
    (p : Request → Bool) (rs : List Request)
    → All (λ (r : Request). any (λ (x : Request). x.id == r.id && p x) rs ≡ true) (select p rs)
select-any p [] = tt
select-any p (x ∷ xs) =
    let later =
      All-map (λ (r : Request). any (λ (y : Request). y.id == r.id && p y) xs ≡ true)
        (λ (r : Request). any (λ (y : Request). y.id == r.id && p y) (x ∷ xs) ≡ true) (select p xs)
        (λ r h. ground (arith, h)) (select-any p xs) in
    All-cons_if (λ (r : Request). any (λ (y : Request). y.id == r.id && p y) (x ∷ xs) ≡ true) (p x)
      x (select p xs) (λ e. ground (arith, e, ==_refl x.id)) later

-- The rows of ListForProject without LIMIT.
abbrev rows_of : ℕ → Db → List Summary
rows_of project_id d =
    joined d.responses (select (λ (r : Request). r.project_id == project_id) d.requests) []

listed-none :
    (user_id project_id limit : ℕ) (d : Db)
    → member_of user_id project_id d ≡ none
    → listed user_id project_id limit d ≡ []
unfolding listed
listed-none user_id project_id limit d e = rw (listed, e) refl

listed-some :
    (user_id project_id limit : ℕ) (d : Db) {m : Member}
    → member_of user_id project_id d ≡ some m
    → listed user_id project_id limit d ≡ take limit (rows_of project_id d)
unfolding listed
listed-some user_id project_id limit d e = rw (listed, e) refl

rows_of-All : (project_id : ℕ) (d : Db) → All (IsListedFrom project_id d) (rows_of project_id d)
unfolding summary_of
rows_of-All project_id d =
    joined-All (IsListedFrom project_id d) d.responses _ []
      (All-map
        (λ (r : Request).
          any (λ (x : Request). x.id == r.id && x.project_id == project_id) d.requests ≡ true)
        (λ r. (o : Option Response) → IsListedFrom project_id d (summary_of r o)) _ (λ r k o. k)
        (select-any (λ (r : Request). r.project_id == project_id) d.requests))
      tt

listed_lem :
    (user_id project_id limit : ℕ) (d : Db)
    → (length (listed user_id project_id limit d) ≤ limit)
      × All (IsListedFrom project_id d) (listed user_id project_id limit d)
      × ((listed user_id project_id limit d ≡ [])
          ⊎ ((m : Member) × (member_of user_id project_id d ≡ some m)))
listed_lem user_id project_id limit d = elim (Option-cases (member_of user_id project_id d)) [
  | inl e ↦ rw (listed-none user_id project_id limit d e) (omega arith, tt, inl refl)
  | inr (m, e) ↦ rw (listed-some user_id project_id limit d e) (
    length-take limit _,
    All-take (IsListedFrom project_id d) limit _ (rows_of-All project_id d),
    inr (m, e),
  )
]

module _ (env : Env) where
  pub list_for_project-ok :
      (user_id project_id : ℕ) (limit : ℤ) (w : World) {items : List Summary} {w' : World}
      → list_for_project env user_id project_id limit w ≡ (ok items, w')
      → items ≡ listed user_id project_id (limit_or_default limit) w.committed
  unfolding list_for_project statement row_or
  list_for_project-ok user_id project_id limit w h = ground arith

  -- Where ListForProject returns, it lists at most as many entries as the limit that was asked for,
  -- if that is from 1 to 500, and at most 100 for any other limit; each entry stands for a request
  -- of the project; and the list is empty unless the user is a member of the project.
  pub list_for_project_bounded :
      (user_id project_id : ℕ) (limit : ℤ) (w : World) {items : List Summary} {w' : World}
      → list_for_project env user_id project_id limit w ≡ (ok items, w')
      → IsWithin limit (length items)
        × All (IsListedFrom project_id w.committed) items
        × ((items ≡ []) ⊎ ((m : Member) × (member_of user_id project_id w.committed ≡ some m)))
  list_for_project_bounded user_id project_id limit w {items} {w'} h =
      let same = list_for_project-ok user_id project_id limit w {items = items} {w' = w'} h in
      let (few, from, member) =
        listed_lem user_id project_id (limit_or_default limit) w.committed in
      rw same (limit_or_default-IsWithin limit _ few, from, member)
