-- ===== src/Auth/Handler.antt =====
-- services/internal/auth/handler.go: the endpoints. A body is what ShouldBindJSON made of it, and a
-- cookie is its text, empty where there is none. An answer that sets the refresh cookie carries it.
use gotra.Prelude.{ℕ, Str, String, Bool, true, false, Option, none, some, List, [], ◌∷◌}
use gotra.Errors.{GoError, Sentinel, Outcome, ok}
use gotra.Store.{User}
use gotra.Store.Action.{Env, M, pure, ◌>>◌, Attempt, ignore}
use gotra.Web.{
  Claims, Answer, success, refusal, literal, error_text, when_is, conclude, with_body, bad_request,
  mapped_error,
}
use gotra.Auth.Repository.{get_user_by_id}
use gotra.Auth.Tokens.{ClientInfo, Login}
use gotra.Auth.Service.{register, login, refresh, logout}
use gotra.Auth.Recovery.{verify_email, request_password_reset, reset_password}

-- writeError
unfoldable pub write_error : {A : Type 0} → GoError → Outcome (Answer A)
write_error e = when_is e Sentinel.email_taken (refusal 409 (error_text e)) (
    when_is e Sentinel.weak_password (refusal 422 (error_text e)) (
      when_is e Sentinel.invalid_credentials (refusal 401 (error_text e)) (
        when_is e Sentinel.invalid_refresh (refusal 401 (error_text e)) (
          when_is e Sentinel.invalid_token (refusal 401 (error_text e)) (
            when_is e Sentinel.unsupported_provider (refusal 400 (error_text e)) (
              when_is e Sentinel.auth_not_found (refusal 404 (literal "not found"))
                (ok (refusal 500 (literal "internal error")))))))))

pub record RegisterRequest : Type 0 where
  pub email : Str
  pub name : Str
  pub password : Str

pub record LoginRequest : Type 0 where
  pub email : Str
  pub password : Str

pub record ResetRequest : Type 0 where
  pub token : Str
  pub password : Str

-- authResponse, with the refresh cookie.
pub record AuthResponse : Type 0 where
  pub access_token : Str
  pub expires_in : ℕ
  pub user : User
  pub workspace_id : ℕ
  pub role : Str
  pub refresh_cookie : Str

-- The answer of me.
pub record Me : Type 0 where
  pub user : User
  pub workspace_id : ℕ
  pub roles : List Str

-- The token of forgotPassword, outside production.
unfoldable pub dev_token : Bool → Str → Option Str
dev_token true token = none
dev_token false [] = none
dev_token false (c ∷ token) = some (c ∷ token)

abbrev pub first_set : Str → Str → Str
first_set [] t = t
first_set (c ∷ s) t = c ∷ s

-- httpx.BadRequest in login.
unfoldable pub bad_login : {A : Type 0} → GoError → Answer A
bad_login e = refusal 400 (literal "invalid payload")

module _ (env : Env) where
  -- respondAuth
  unfoldable pub respond_auth : ℕ → Login → Answer AuthResponse
  respond_auth status res = success status (record {
    access_token = res.access_token;
    expires_in = env.access_ttl;
    user = res.user;
    workspace_id = res.workspace_id;
    role = res.role;
    refresh_cookie = res.refresh_token;
  })

  -- register
  unfoldable pub register_at : ClientInfo → Attempt RegisterRequest → M (Answer AuthResponse)
  unfolding respond_auth
  register_at info body = with_body bad_request body (λ (req : RegisterRequest).
      conclude write_error (respond_auth 201) (register env req.email req.name req.password info))

  -- login
  unfoldable pub login_at : ClientInfo → Attempt LoginRequest → M (Answer AuthResponse)
  unfolding respond_auth bad_login
  login_at info body = with_body bad_login body (λ (req : LoginRequest).
      conclude mapped_error (respond_auth 200) (login env req.email req.password info))

  -- refresh past the choice of the token
  unfoldable pub refresh_with : ClientInfo → Str → M (Answer AuthResponse)
  unfolding respond_auth
  refresh_with info [] = pure (refusal 401 (literal "missing refresh token"))
  refresh_with info (c ∷ token) =
      conclude mapped_error (respond_auth 200) (refresh env (c ∷ token) info)

  -- refresh, with the cookie and the token of the body.
  unfoldable pub refresh_at : ClientInfo → Str → Str → M (Answer AuthResponse)
  unfolding refresh_with
  refresh_at info cookie body_token = refresh_with info (first_set cookie body_token)

  -- logout, which clears the cookie.
  unfoldable pub logout_at : Str → M (Answer String)
  logout_at cookie = do ignore (logout env cookie); pure (success 200 "logged_out")

  -- verifyEmail
  unfoldable pub verify_email_at : Attempt Str → M (Answer String)
  verify_email_at body =
      with_body bad_request body
        (λ token. conclude write_error (λ _. success 200 "verified") (verify_email env token))

  -- forgotPassword, with cfg.IsProduction().
  unfoldable pub forgot_password_at : Bool → Attempt Str → M (Answer (Option Str))
  unfolding dev_token
  forgot_password_at production body = with_body bad_request body (λ email.
      conclude write_error (λ token. success 202 (dev_token production token))
        (request_password_reset env email))

  -- resetPassword, which clears the cookie.
  unfoldable pub reset_password_at : Attempt ResetRequest → M (Answer String)
  reset_password_at body = with_body bad_request body (λ (req : ResetRequest).
      conclude write_error (λ _. success 200 "password_reset")
        (reset_password env req.token req.password))

  -- me
  unfoldable pub me : Option Claims → M (Answer Me)
  me none = pure (refusal 401 (literal "unauthenticated"))
  me (some claims) =
      conclude write_error
        (λ user.
          success 200
            (record { user = user; workspace_id = claims.workspace_id; roles = claims.roles }))
        (get_user_by_id env claims.user_id)
