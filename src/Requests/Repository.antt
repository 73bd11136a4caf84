-- ===== src/Requests/Repository.antt =====
-- services/internal/requests/repository.go: the methods of Repository.
use gotra.Prelude.{ℕ, ℤ, Str, List}
use gotra.Errors.{GoError}
use gotra.Store.{ModifiedRequest}
use gotra.Store.Action.{
  Env, M, pure, ◌>>=◌, ◌>>◌, pool, tx, row, statement, found, row_or, begin, commit,
}
use gotra.Requests.{
  Capture, Summary, Detail, ReplayContext, missing_request, insert_request, insert_response,
  insert_replay, listed, limit_or_default, detail_for, replay_context_for,
}

module _ (env : Env) where
  -- SaveCapture
  unfoldable pub save_capture : Capture → M ℕ
  unfolding insert_request insert_response row_or
  save_capture c = do
    begin env
    r ← statement env tx (λ id now d.
        insert_request
          (record {
            id = id;
            tunnel_id = c.tunnel_id;
            project_id = c.project_id;
            method = c.method;
            path = c.path;
            query = c.query;
            headers = env.json_headers c.req_headers;
            body = c.req_body;
            received_at = now;
          })
          d)
    request_id ← row_or GoError.nil r
    x ← statement env tx (λ id now d.
        insert_response
          (record {
            request_id = request_id;
            status_code = c.status;
            headers = env.json_headers c.resp_headers;
            body = c.resp_body;
            duration_ms = c.duration_ms;
          })
          d)
    row_or GoError.nil x
    commit env
    pure request_id

  -- ListForProject
  unfoldable pub list_for_project : ℕ → ℕ → ℤ → M (List Summary)
  unfolding listed limit_or_default row_or
  list_for_project user_id project_id limit = do
    r ←
        statement env pool
          (λ id now d. row (listed user_id project_id (limit_or_default limit) d, d))
    row_or GoError.nil r

  -- GetForUser
  unfoldable pub get_for_user : ℕ → ℕ → M Detail
  unfolding detail_for row_or
  get_for_user user_id request_id = do
    r ← statement env pool (λ id now d. found d (detail_for user_id request_id d))
    row_or missing_request r

  -- GetReplayContext
  unfoldable pub get_replay_context : ℕ → ℕ → M ReplayContext
  unfolding replay_context_for row_or
  get_replay_context user_id request_id = do
    r ← statement env pool (λ id now d. found d (replay_context_for user_id request_id d))
    row_or missing_request r

  -- SaveReplay
  unfoldable pub save_replay : ℕ → ℕ → ModifiedRequest → ℤ → Str → ℕ → M ℕ
  unfolding insert_replay row_or
  save_replay original_request_id project_id modified status body duration_ms = do
    r ← statement env pool (λ id now d.
        insert_replay
          (record {
            id = id;
            original_request_id = original_request_id;
            project_id = project_id;
            modified_request = modified;
            result_status_code = status;
            result_body = body;
            duration_ms = duration_ms;
          })
          d)
    row_or GoError.nil r
