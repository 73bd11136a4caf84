-- ===== src/Auth/Service/Rotate.antt =====
-- A refresh token serves once: after Refresh or Logout it is refused.
use gotra.Prelude.{
  ℕ, ◌≡◌, refl, Str, true, false, none, some, List, [], ◌∷◌, ◌++◌, arith, any, str_eq, str_eq_iff,
  find, find-append_none, ◌==◌, update_where, Bool-cases, inl, inr,
}
use gotra.Errors.{ok, err, GoError, Sentinel}
use gotra.Errors.Chain.{is_sentinel}
use gotra.Store.{User, Session}
use gotra.Store.Action.{Env, World, statement, attempt, Attempt, got, failed}
use gotra.Store.Action.Laws.{bind_ok, spent}
use gotra.Auth.Repository.{get_user_by_id}
use gotra.Auth.Sessions.{is_active, get_active_session_by_hash, revoke_session_by_hash}
use gotra.Auth.Tokens.{ClientInfo, Login, token_hash, replace_not_found}
use gotra.Auth.Tokens.Issued.{session_for, has_hash}
use gotra.Auth.Service.{refresh, logout}
use gotra.Auth.Service.Enter.{Entered, enter-Entered}

-- The sessions with this hash revoked at the time `now`.
abbrev pub revoked : Str → ℕ → List Session → List Session
revoked hash now =
    update_where (λ (s : Session). str_eq s.refresh_token_hash hash)
      (λ s. record s { revoked_at = some now })

find-revoked :
    (hash : Str) (now later : ℕ) (ss : List Session)
    → find (is_active hash later) (revoked hash now ss) ≡ none
unfolding is_active
find-revoked hash now later [] = refl
find-revoked hash now later (s ∷ ss) = ground (arith, find-revoked hash now later ss)

any-revoked :
    (hash : Str) (now : ℕ) (ss : List Session) {s : Session}
    → find (is_active hash now) ss ≡ some s
    → any (λ (t : Session). str_eq t.refresh_token_hash hash) (revoked hash now ss) ≡ true
unfolding is_active
any-revoked hash now [] h = cc
any-revoked hash now (t ∷ ss) {s} h = ground (arith, any-revoked hash now ss {s = s})

module _ (env : Env) where
  session-ok :
      (hash : Str) (e : Sentinel) (looked : Attempt Session) (w : World) {v w' : World}
      {s : Session}
      → attempt (get_active_session_by_hash env hash) w ≡ (ok looked, v)
      → replace_not_found e looked v ≡ (ok s, w')
      → (find (is_active hash w.now) w.committed.sessions ≡ some s) × (w' ≡ spent w)
  unfolding get_active_session_by_hash statement replace_not_found is_sentinel
  session-ok hash e (got s) w h k = (ground arith, ground arith)
  session-ok hash e (failed x) w h k = ground arith

  revoke-ok :
      (hash : Str) (w : World) {x : Unit {0}} {w' : World}
      → revoke_session_by_hash env hash w ≡ (ok x, w')
      → w' ≡ record (spent w) {
        committed = record w.committed { sessions = revoked hash w.now w.committed.sessions };
      }
  unfolding revoke_session_by_hash statement
  revoke-ok hash w h = ground arith

  user-ok :
      (id : ℕ) (w : World) {u : User} {w' : World}
      → get_user_by_id env id w ≡ (ok u, w')
      → (find (λ (u : User). u.id == id) w.committed.users ≡ some u) × (w' ≡ spent w)
  unfolding get_user_by_id statement
  user-ok id w h = ground arith

  -- Refresh looks up an open session that is not expired, revokes every session with the hash of
  -- the token, and enters as the user of that session.
  pub refresh_sound :
      (token : Str) (client : ClientInfo) (w : World) {r : Login} {w' : World}
      → refresh env token client w ≡ (ok r, w')
      → (s : Session) × (user : User) × (v : World) × (find
            (is_active (token_hash env token) w.now)
            w.committed.sessions
          ≡ some s)
        × (find (λ (u : User). u.id == s.user_id) w.committed.users ≡ some user)
        × (v.committed ≡ record w.committed {
          sessions = revoked (token_hash env token) w.now w.committed.sessions;
        })
        × Entered env user client v w' r
  unfolding refresh
  refresh_sound token client w h =
      let hash = token_hash env token in
      let (looked, w1, e1, k1) = bind_ok (attempt (get_active_session_by_hash env hash)) _ w h in
      let (s, w2, e2, k2) = bind_ok (replace_not_found Sentinel.invalid_refresh looked) _ w1 k1 in
      let (_, w3, e3, k3) = bind_ok (revoke_session_by_hash env hash) _ w2 k2 in
      let (user, w4, e4, k4) = bind_ok (get_user_by_id env s.user_id) _ w3 k3 in
      let (found, same2) = session-ok hash Sentinel.invalid_refresh looked w e1 e2 in
      let same3 = revoke-ok hash w2 e3 in
      let (known, same4) = user-ok s.user_id w3 e4 in
      (s, user, w4, found, ground arith, ground arith, enter-Entered env user client w4 k4)

module _ (env : Env) where
  -- At a world whose sessions are such that no open one has the hash of the token.
  refused :
      (token : Str) (client : ClientInfo) (v : World)
      → find (is_active (token_hash env token) v.now) v.committed.sessions ≡ none
      → env.fault v.statements ≡ none
      → refresh env token client v ≡ (err (GoError.sentinel Sentinel.invalid_refresh), spent v)
  unfolding refresh get_active_session_by_hash statement replace_not_found is_sentinel
  refused token client v e f = rw f (rw e refl)

  other_hash :
      (hash hash' : Str) (now : ℕ) (ss : List Session) {s : Session}
      → find (is_active hash now) ss ≡ some s
      → any (has_hash env hash') (revoked hash now ss) ≡ false
      → str_eq hash' hash ≡ false
  other_hash hash hash' now ss {s} found unused = elim (Bool-cases (str_eq hash' hash)) [
    | inl same ↦
        let used : any (has_hash env hash) (revoked hash now ss) ≡ true =
          any-revoked hash now ss {s = s} found in
        cc (used, rw ((str_eq_iff hash' hash).0 same) at unused)
    | inr other ↦ other
  ]

  -- A new session under another hash leaves the revoked hash with no open session.
  none_open :
      (token token' : Str) (client : ClientInfo) (id user_id start now later : ℕ)
      (ss : List Session)
      → str_eq (token_hash env token') (token_hash env token) ≡ false
      → find (is_active (token_hash env token) later) (
          revoked (token_hash env token) now ss
          ++ session_for env id user_id token' client start ∷ [])
        ≡ none
  none_open token token' client id user_id start now later ss other =
      find-append_none _ (revoked (token_hash env token) now ss) _
        (find-revoked (token_hash env token) now later ss) (unfold is_active in rw other refl)

  -- Once Refresh has returned for a token, the token is refused with ErrInvalidRefresh at every
  -- later time, as long as the sessions are as that call left them and the statement runs.
  pub refresh_twice :
      (token : Str) (client client' : ClientInfo) (w : World) {r : Login} {w' : World} (v : World)
      → refresh env token client w ≡ (ok r, w')
      → v.committed.sessions ≡ w'.committed.sessions
      → env.fault v.statements ≡ none
      → refresh env token client' v ≡ (err (GoError.sentinel Sentinel.invalid_refresh), spent v)
  refresh_twice token client client' w {r} {w'} v h same f =
      let hash = token_hash env token in
      let (s, user, u, found, known, tables, entered) =
        refresh_sound env token client w {r = r} {w' = w'} h in
      let (id, stored) = entered.session in
      let other =
        other_hash hash (token_hash env r.refresh_token) w.now w.committed.sessions found
          (rw tables at entered.fresh) in
      let left : v.committed.sessions
          ≡ revoked hash w.now w.committed.sessions
            ++ session_for env id user.id r.refresh_token client u.now ∷ [] =
        ground arith in
      refused token client' v
        (rw left (
          none_open token r.refresh_token client id user.id u.now w.now v.now w.committed.sessions
            other))
        f

  -- Once Logout has returned for a token that is not empty, Refresh refuses the token with
  -- ErrInvalidRefresh, as long as the sessions are as that call left them and the next statement
  -- runs.
  pub refresh-logout :
      (c : ℕ) (token : Str) (client : ClientInfo) (w : World) {w' : World} {x : Unit {0}}
      (v : World)
      → logout env (c ∷ token) w ≡ (ok x, w')
      → v.committed.sessions ≡ w'.committed.sessions
      → env.fault v.statements ≡ none
      → refresh env (c ∷ token) client v
        ≡ (err (GoError.sentinel Sentinel.invalid_refresh), spent v)
  unfolding logout
  refresh-logout c token client w {w'} {x} v h same f =
      let hash = token_hash env (c ∷ token) in
      let left = revoke-ok env hash w {x = x} {w' = w'} h in
      refused (c ∷ token) client v
        (cc (find-revoked hash w.now v.now w.committed.sessions, left, same)) f
