-- ===== src/Auth/Sessions.antt =====
-- services/internal/auth/repository.go: the sessions behind refresh tokens.
use gotra.Prelude.{
  ℕ, ltb, Str, Bool, true, false, ◌&&◌, Option, none, some, [], ◌∷◌, ◌++◌, ◌==◌, if◌then◌else◌,
  str_eq, find, any, update_where,
}
use gotra.Errors.{Code, GoError, Sentinel, wrap}
use gotra.Store.{User, Session, Db}
use gotra.Store.Action.{
  Env, M, pure, raise, ◌>>=◌, Querier, pool, Row, row, no_rows, broken, statement, found,
  unique_violation, referring, driver_error, return_error,
}
use gotra.Auth.Repository.{scanned, wrapped_error}

abbrev pub some_time : Option ℕ → Bool
some_time none = false
some_time (some t) = true

-- refresh_token_hash = $1 AND revoked_at IS NULL AND expires_at > now()
unfoldable pub is_active : Str → ℕ → Session → Bool
is_active hash now s =
    if some_time s.revoked_at
    then false
    else str_eq s.refresh_token_hash hash && ltb now s.expires_at

-- user_id = $1 AND revoked_at IS NULL
unfoldable pub is_open_of : ℕ → Session → Bool
is_open_of user_id s = if some_time s.revoked_at then false else s.user_id == user_id

unfoldable pub insert_session : Session → Db → Row (ℕ × Db)
insert_session s d =
    if any (λ (t : Session). str_eq t.refresh_token_hash s.refresh_token_hash) d.sessions
    then broken unique_violation
    else referring (any (λ (u : User). u.id == s.user_id) d.users)
        (row (s.id, record d { sessions = d.sessions ++ s ∷ [] }))

module _ (env : Env) where
  -- CreateSession
  unfoldable pub create_session : Querier → ℕ → Str → Str → Str → ℕ → M ℕ
  unfolding insert_session scanned
  create_session q user_id hash ip agent expires = do
    r ← statement env q (λ id now d.
        insert_session
          (record {
            id = id;
            user_id = user_id;
            refresh_token_hash = hash;
            ip_address = ip;
            user_agent = agent;
            expires_at = expires;
            revoked_at = none;
          })
          d)
    scanned
        (wrap (GoError.library 0) Code.internal "Auth Repository: Create Session"
          "unable to create session")
        "Auth Repository: Create Session" "unable to create session" r

  unfoldable pub session_or_not_found : Row Session → M Session
  session_or_not_found (row s) = pure s
  session_or_not_found no_rows = raise (GoError.sentinel Sentinel.auth_not_found)
  session_or_not_found (broken n) = raise (GoError.library n)

  -- GetActiveSessionByHash
  unfoldable pub get_active_session_by_hash : Str → M Session
  unfolding session_or_not_found
  get_active_session_by_hash hash = do
    r ← statement env pool (λ id now d. found d (find (is_active hash now) d.sessions))
    session_or_not_found r

  unfoldable pub revoke : (Session → Bool) → ℕ → Db → Db
  revoke test now d = record d {
    sessions = update_where test (λ s. record s { revoked_at = some now }) d.sessions;
  }

  -- RevokeSessionByHash
  unfoldable pub revoke_session_by_hash : Str → M (Unit {0})
  unfolding revoke
  revoke_session_by_hash hash = do
    r ←
        statement env pool
          (λ id now d. row (tt, revoke (λ s. str_eq s.refresh_token_hash hash) now d))
    return_error (driver_error r)

  -- RevokeAllUserSessions
  unfoldable pub revoke_all_user_sessions : Querier → ℕ → M (Unit {0})
  unfolding revoke wrapped_error
  revoke_all_user_sessions q user_id = do
    r ← statement env q (λ id now d. row (tt, revoke (is_open_of user_id) now d))
    wrapped_error "Auth Repository: Revoke All User Sessions" "unable to revoke user sessions" r
