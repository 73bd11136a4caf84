-- ===== src/Auth/Recovery.antt =====
-- services/internal/auth/service.go: VerifyEmail, RequestPasswordReset, ResetPassword and
-- AuthenticateOAuth.
pub mod Blocked
use gotra.Prelude.{String, ℕ, ◌+◌, Str, Bool, true, false, [], ◌∷◌, ltb, if◌then◌else◌, length}
use gotra.Errors.{Code, GoError, Sentinel, new_error, wrap}
use gotra.Errors.Chain.{is_sentinel, is_not_found, is_invalid_input}
use gotra.Store.{User}
use gotra.Store.Action.{
  Env, M, pure, raise, lift, ◌>>=◌, ◌>>◌, Attempt, got, failed, attempt, ignore, pool, tx, begin,
  commit, post, reset, current_time,
}
use gotra.Auth.Repository.{
  Provider, create_user, get_user_by_email, get_user_by_id, touch_last_login, create_oauth_provider,
  get_user_by_provider,
}
use gotra.Auth.Sessions.{revoke_all_user_sessions}
use gotra.Auth.OneTime.{
  consume_email_verification, set_user_email_verified, create_password_reset,
  consume_password_reset, upsert_password_hash,
}
use gotra.Auth.Tokens.{
  ClientInfo, Login, normalize_email, replace_not_found, generate_opaque_token, hash_new_password,
  token_hash, issue_tokens,
}
use gotra.Auth.Service.{provision, enter, role_owner}

-- passwordResetTTL, in seconds
abbrev pub password_reset_ttl : ℕ
password_reset_ttl = 3600

-- OAuthProfile, without the avatar
pub record OAuthProfile : Type 0 where
  pub provider_user_id : Str
  pub email : Str
  pub name : Str

-- `if err != nil` with the error wrapped again.
unfoldable pub rewrapped : {A : Type 0} → String → String → Attempt A → M A
rewrapped op message (got a) = pure a
rewrapped op message (failed e) = raise (GoError.holds (wrap e Code.internal op message))

module _ (env : Env) where
  -- VerifyEmail
  unfoldable pub verify_email : Str → M (Unit {0})
  verify_email token = do
    begin env
    found ← attempt (consume_email_verification env tx (token_hash env token))
    user_id ← replace_not_found Sentinel.invalid_token found
    set_user_email_verified env tx user_id
    commit env

  -- RequestPasswordReset past the look-up.
  unfoldable pub reset_for : Attempt User → M Str
  reset_for (failed e) = do
    missing ← lift (is_sentinel e Sentinel.auth_not_found)
    if missing then pure [] else raise e
  reset_for (got user) = do
    token ← generate_opaque_token env 32
    now ← current_time
    create_password_reset env pool user.id (token_hash env token) (now + password_reset_ttl)
    post (reset user.email token)
    pure token

  -- RequestPasswordReset
  unfoldable pub request_password_reset : Str → M Str
  request_password_reset email = do
    found ← attempt (get_user_by_email env (normalize_email email))
    reset_for found

  -- ResetPassword
  unfoldable pub reset_password : Str → Str → M (Unit {0})
  reset_password token new_password =
      if ltb (length new_password) 8 then raise (GoError.sentinel Sentinel.weak_password) else (do
        hash ← hash_new_password env new_password
        begin env
        found ← attempt (consume_password_reset env tx (token_hash env token))
        user_id ← replace_not_found Sentinel.invalid_token found
        user ← get_user_by_id env user_id
        upsert_password_hash env tx user_id user.email hash
        revoke_all_user_sessions env tx user_id
        commit env)

  -- A user that AuthenticateOAuth found logs in.
  unfoldable pub welcome_back : User → ClientInfo → M Login
  welcome_back user client = do ignore (touch_last_login env user.id); enter env user client

  -- The new account of AuthenticateOAuth.
  unfoldable pub open_oauth_account : Provider → OAuthProfile → ClientInfo → M Login
  open_oauth_account provider profile client = do
    begun ← attempt (begin env)
    rewrapped "Auth Service: Begin Transaction" "could start transaction" begun
    user ← create_user env tx (normalize_email profile.email) profile.name true
    create_oauth_provider env tx user.id provider profile.provider_user_id
        (normalize_email profile.email)
    workspace_id ← provision env tx user
    done ← attempt (commit env)
    rewrapped "Auth Service: Commit Transaction" "error committing transaction" done
    issue_tokens env user workspace_id role_owner client

  -- The user with the profile's e-mail, if there is one, gets the login method.
  unfoldable pub link_or_open : Provider → OAuthProfile → ClientInfo → Attempt User → M Login
  link_or_open provider profile client (got user) = do
    create_oauth_provider env pool user.id provider profile.provider_user_id
        (normalize_email profile.email)
    welcome_back user client
  link_or_open provider profile client (failed e) = do
    unknown ← lift (is_invalid_input e)
    if unknown then open_oauth_account provider profile client else raise e

  -- AuthenticateOAuth for an identity that no login method has.
  unfoldable pub oauth_by_email : Provider → OAuthProfile → ClientInfo → Str → M Login
  oauth_by_email provider profile client [] = open_oauth_account provider profile client
  oauth_by_email provider profile client (c ∷ email) = do
    found ← attempt (get_user_by_email env (c ∷ email))
    link_or_open provider profile client found

  -- `if !errorMap.IsNotFound(err)` behind GetUserByProvider.
  unfoldable pub oauth_unknown : Provider → OAuthProfile → ClientInfo → Bool → M Login
  oauth_unknown provider profile client true =
      oauth_by_email provider profile client (normalize_email profile.email)
  oauth_unknown provider profile client false = raise (
      GoError.holds
        (new_error Code.internal "Auth Service: Get User By Provider" "error retrieving user"))

  unfoldable pub oauth_known : Provider → OAuthProfile → ClientInfo → Attempt User → M Login
  oauth_known provider profile client (got user) = welcome_back user client
  oauth_known provider profile client (failed e) = do
    unknown ← lift (is_not_found e)
    oauth_unknown provider profile client unknown

  -- AuthenticateOAuth
  unfoldable pub authenticate_oauth : Provider → OAuthProfile → ClientInfo → M Login
  authenticate_oauth provider profile client = do
    found ← attempt (get_user_by_provider env provider profile.provider_user_id)
    oauth_known provider profile client found
