-- ===== src/Auth/Service.antt =====
-- services/internal/auth/service.go: Register, Login, Refresh, Logout, and the provisioning of a
-- new account.
pub mod Register
pub mod Enter
pub mod Rotate
use gotra.Prelude.{ℕ, ◌+◌, Str, Bool, true, false, [], ◌∷◌, ◌++◌, ltb, if◌then◌else◌, codes, length}
use gotra.Errors.{Code, GoError, Sentinel, new_error, wrap}
use gotra.Errors.Chain.{is_sentinel}
use gotra.Security.Password.{verify_password}
use gotra.Store.{User}
use gotra.Store.Action.{
  Env, M, pure, raise, lift, ◌>>=◌, ◌>>◌, Attempt, got, failed, attempt, ignore, Querier, tx, begin,
  commit, post, verification, current_time,
}
use gotra.Auth.Repository.{
  create_user, get_user_by_email, get_user_by_id, touch_last_login, create_password_provider,
  get_password_hash,
}
use gotra.Auth.Sessions.{get_active_session_by_hash, revoke_session_by_hash}
use gotra.Auth.OneTime.{create_email_verification}
use gotra.Auth.Provision.{
  create_workspace, create_project, create_project_member, create_api_key, get_primary_workspace,
}
use gotra.Auth.Tokens.{
  ClientInfo, Login, normalize_email, display_name, replace_not_found, generate_opaque_token,
  hash_new_password, gen_slug, token_hash, issue_tokens,
}

-- emailVerificationTTL, in seconds
abbrev pub email_verification_ttl : ℕ
email_verification_ttl = 86400

-- RoleOwner
abbrev pub role_owner : Str
role_owner = codes "owner"

-- The two tests after GetUserByEmail in Register.
unfoldable pub email_is_free : Attempt User → M (Unit {0})
email_is_free (got u) = raise (GoError.sentinel Sentinel.email_taken)
email_is_free (failed e) = do
  missing ← lift (is_sentinel e Sentinel.auth_not_found)
  if missing then pure tt else raise e

-- `if err != nil || !ok` after VerifyPassword in Login.
unfoldable pub accept_password : Attempt Bool → M (Unit {0})
accept_password (got true) = pure tt
accept_password _ = raise (
    GoError.holds
      (new_error Code.invalid_input "Auth Service: Verify Password" "invalid credentials"))

unfoldable pub key_or_fail : Attempt Str → M Str
key_or_fail (got key) = pure key
key_or_fail (failed e) = raise (
    GoError.holds
      (wrap e Code.internal "Auth Service: Generate Opaque Token" "unable to generate tokens"))

module _ (env : Env) where
  -- provision
  unfoldable pub provision : Querier → User → M ℕ
  provision q user = do
    workspace_slug ← gen_slug env (codes "ws")
    workspace_id ←
        create_workspace env q user.id (display_name user ++ codes "'s Workspace") workspace_slug
          true
    project_slug ← gen_slug env (codes "proj")
    project_id ← create_project env q workspace_id user.id (codes "Default Project") project_slug
    create_project_member env q project_id user.id role_owner
    drawn ← attempt (generate_opaque_token env 24)
    key ← key_or_fail drawn
    create_api_key env q project_id (codes "default") (token_hash env (codes "gtra_" ++ key))
    pure workspace_id

  -- Register past the tests on the password and the e-mail.
  unfoldable pub open_account : Str → Str → Str → ClientInfo → M Login
  open_account email name password client = do
    hash ← hash_new_password env password
    begin env
    user ← create_user env tx email name false
    create_password_provider env tx user.id email hash
    workspace_id ← provision tx user
    verify_token ← generate_opaque_token env 32
    now ← current_time
    create_email_verification env tx user.id (token_hash env verify_token)
        (now + email_verification_ttl)
    commit env
    post (verification user.email verify_token)
    issue_tokens env user workspace_id role_owner client

  -- Register
  unfoldable pub register : Str → Str → Str → ClientInfo → M Login
  register email name password client =
      if ltb (length password) 8 then raise (GoError.sentinel Sentinel.weak_password) else (do
        existing ← attempt (get_user_by_email env (normalize_email email))
        email_is_free existing
        open_account (normalize_email email) name password client)

  -- The end of Login and Refresh: tokens for the user's primary workspace.
  unfoldable pub enter : User → ClientInfo → M Login
  enter user client = do
    pw ← get_primary_workspace env user.id
    issue_tokens env user pw.workspace_id pw.role client

  -- Login
  unfoldable pub login : Str → Str → ClientInfo → M Login
  login email password client = do
    user ← get_user_by_email env (normalize_email email)
    hash ← get_password_hash env user.id
    verdict ← attempt (lift (verify_password env.id_key password hash))
    accept_password verdict
    ignore (touch_last_login env user.id)
    enter user client

  -- Refresh
  unfoldable pub refresh : Str → ClientInfo → M Login
  refresh token client = do
    found ← attempt (get_active_session_by_hash env (token_hash env token))
    session ← replace_not_found Sentinel.invalid_refresh found
    revoke_session_by_hash env (token_hash env token)
    user ← get_user_by_id env session.user_id
    enter user client

  -- Logout
  unfoldable pub logout : Str → M (Unit {0})
  logout [] = pure tt
  logout (c ∷ token) = revoke_session_by_hash env (token_hash env (c ∷ token))
