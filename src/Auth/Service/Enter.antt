-- ===== src/Auth/Service/Enter.antt =====
-- Login, Refresh and Logout of services/internal/auth/service.go: what a success needs and stores.
use gotra.Prelude.{
  ℕ, ◌+◌, ◌≡◌, ◌∙◌, Str, Bool, true, false, some, List, [], ◌∷◌, ◌++◌, arith, any, find, codes,
  if◌then◌else◌, ◌==◌, find-true, ◌&&◌,
}
use gotra.Errors.{ok}
use gotra.Security.Password.{verify_password}
use gotra.Store.{User, ProviderRow, Workspace}
use gotra.Store.Action.{Env, World, statement, attempt, ignore, Attempt, lift}
use gotra.Store.Action.Laws.{bind_ok, spent}
use gotra.Auth.Repository.{
  get_user_by_email, get_password_hash, is_password_of, touch_last_login, coalesce,
}
use gotra.Auth.Provision.{primary_of, get_primary_workspace, PrimaryWorkspace}
use gotra.Auth.Tokens.{ClientInfo, Login, token_hash, normalize_email}
use gotra.Auth.Tokens.Issued.{session_for, has_hash, issue_tokens-ok}
use gotra.Auth.Service.{enter, login, accept_password}
use gotra.Auth.Service.Register.{by_email}

module _ (env : Env) where
  get_user_by_email-ok :
      (email : Str) (w : World) {u : User} {w' : World}
      → get_user_by_email env email w ≡ (ok u, w')
      → (by_email email w.committed.users ≡ some u) × (w' ≡ spent w)
  unfolding get_user_by_email statement
  get_user_by_email-ok email w h = ground arith

  get_password_hash-ok :
      (id : ℕ) (w : World) {s : Str} {w' : World}
      → get_password_hash env id w ≡ (ok s, w')
      → (p : ProviderRow) × (find (is_password_of id) w.committed.providers ≡ some p)
        × (s ≡ coalesce p.password_hash)
        × (w' ≡ spent w)
  unfolding get_password_hash statement
  get_password_hash-ok id w h = ground arith

  get_primary_workspace-ok :
      (id : ℕ) (w : World) {pw : PrimaryWorkspace} {w' : World}
      → get_primary_workspace env id w ≡ (ok pw, w')
      → (x : Workspace) × (primary_of id w.committed.workspaces ≡ some x)
        × (pw.workspace_id ≡ x.id)
        × (w' ≡ spent w)
        × (pw.role ≡ (if x.owner_id == id then codes "owner" else codes "developer"))
  unfolding get_primary_workspace statement
  get_primary_workspace-ok id w h = ground arith

  -- The tables but for users.last_login_at
  touched-same :
      (id : ℕ) (w : World)
      → let w' = (ignore (touch_last_login env id) w).1 in
        ((ignore (touch_last_login env id) w).0 ≡ ok tt)
        × (w'.committed ≡ record w.committed { users = w'.committed.users })
        × (w'.now ≡ w.now)
        × (w'.outbox ≡ w.outbox)
  unfolding touch_last_login statement
  touched-same id w = ground arith

  accepted :
      (password hash : Str) (verdict : Attempt Bool) (w : World) {v w' : World} {x : Unit {0}}
      → attempt (lift (verify_password env.id_key password hash)) w ≡ (ok verdict, v)
      → accept_password verdict v ≡ (ok x, w')
      → (verify_password env.id_key password hash ≡ ok true) × (w' ≡ w)
  unfolding accept_password
  accepted password hash verdict w e h = ground arith

primary_of-owner :
    (id : ℕ) (ws : List Workspace) {x : Workspace} → primary_of id ws ≡ some x → x.owner_id ≡ id
unfolding primary_of
primary_of-owner id ws {x} h = ground (
  arith,
  find-true (λ (y : Workspace). y.owner_id == id && y.is_personal) ws {x = x},
  find-true (λ (y : Workspace). y.owner_id == id) ws {x = x},
)

-- What the end of a login as a user leaves: the tokens are for the user's primary workspace with
-- the role of its owner, and one open session for the refresh token is added to the others.
pub record Entered (env : Env) (user : User) (client : ClientInfo) (w w' : World) (r : Login)
    : Type 0 where
  pub same_user : r.user ≡ user
  pub workspace :
      (x : Workspace) × (primary_of user.id w.committed.workspaces ≡ some x)
      × (r.workspace_id ≡ x.id)
  pub role : r.role ≡ codes "owner"
  pub signed : env.sign user.id r.workspace_id r.role (w.now + env.access_ttl) ≡ some r.access_token
  pub session :
      (id : ℕ) × (w'.committed ≡ record w.committed {
        sessions =
            w.committed.sessions ++ session_for env id user.id r.refresh_token client w.now ∷ [];
      })
  pub fresh : any (has_hash env (token_hash env r.refresh_token)) w.committed.sessions ≡ false

pub enter-Entered :
    (env : Env) (user : User) (client : ClientInfo) (w : World) {r : Login} {w' : World}
    → enter env user client w ≡ (ok r, w')
    → Entered env user client w w' r
unfolding enter
enter-Entered env user client w {r} h =
    let (pw, w1, e, k) = bind_ok (get_primary_workspace env user.id) _ w h in
    let (x, found, id, same, role) = get_primary_workspace-ok env user.id w e in
    let owner = primary_of-owner user.id w.committed.workspaces {x = x} found in
    let (tables, fresh, who, where_, as_role, signed, _) =
      issue_tokens-ok env user pw.workspace_id pw.role client w1 k in
    record {
      same_user = who;
      workspace = (x, found, where_ ∙ id);
      role = ground arith;
      signed = ground arith;
      session = (env.new_id w1.statements, ground arith);
      fresh = ground arith;
    }

-- Login returns only for a user with that e-mail whose stored hash accepts the password, and then
-- it has entered as that user, with the other tables as they were but for last_login_at.
pub login_sound :
    (env : Env) (email password : Str) (client : ClientInfo) (w : World) {r : Login} {w' : World}
    → login env email password client w ≡ (ok r, w')
    → (user : User) × (p : ProviderRow) × (v : World) × (by_email
          (normalize_email email)
          w.committed.users
        ≡ some user)
      × (find (is_password_of user.id) w.committed.providers ≡ some p)
      × (verify_password env.id_key password (coalesce p.password_hash) ≡ ok true)
      × (v.committed ≡ record w.committed { users = v.committed.users })
      × (v.now ≡ w.now)
      × Entered env user client v w' r
unfolding login
login_sound env email password client w h =
    let (user, w1, e1, k1) = bind_ok (get_user_by_email env (normalize_email email)) _ w h in
    let (hash, w2, e2, k2) = bind_ok (get_password_hash env user.id) _ w1 k1 in
    let (p, found, stored, same2) = get_password_hash-ok env user.id w1 e2 in
    let (verdict, w3, e3, k3) =
      bind_ok (attempt (lift (verify_password env.id_key password hash))) _ w2 k2 in
    let (_, w4, e4, k4) = bind_ok (accept_password verdict) _ w3 k3 in
    let (verified, same4) = accepted env password hash verdict w2 e3 e4 in
    let (_, w5, e5, k5) = bind_ok (ignore (touch_last_login env user.id)) _ w4 k4 in
    let (_, touched, time, _) = touched-same env user.id w4 in
    let (known, same1) = get_user_by_email-ok env (normalize_email email) w e1 in
    (
      user,
      p,
      w5,
      known,
      ground arith,
      ground arith,
      ground arith,
      ground arith,
      enter-Entered env user client w5 k5,
    )
