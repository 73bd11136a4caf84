-- ===== src/Auth/Service/Register.antt =====
-- Register of services/internal/auth/service.go, at every input.
use gotra.Prelude.{
  Str, ◌≡◌, refl, ◌∙◌, inl, inr, Option, List, ltb, length, Bool-cases, if◌then◌else◌, find, str_eq,
  lower,
}
use gotra.Errors.{Code, GoError, app, Sentinel, Outcome, ok, err, new_error, wrap}
use gotra.Errors.Chain.{is_sentinel}
use gotra.Store.{User}
use gotra.Store.Action.{Env, World, Row, row, no_rows, broken, ◌>>◌, attempted, continue}
use gotra.Store.Action.Laws.{spent, answer, statement-found, bind_at, attempt_at}
use gotra.Auth.Repository.{get_user_by_email, scanned}
use gotra.Auth.Tokens.{ClientInfo, normalize_email}
use gotra.Auth.Service.{register, email_is_free, open_account}

-- The user whose e-mail is this one, letter case aside.
abbrev pub by_email : Str → List User → Option User
by_email email users = find (λ (u : User). str_eq (lower u.email) (lower email)) users

-- The outcome of GetUserByEmail.
abbrev pub lookup_outcome : Row User → Outcome User
lookup_outcome (row u) = ok u
lookup_outcome no_rows = err (
    GoError.holds (
      app Code.invalid_input "Auth Repository: Get User By Email" "invalid credentials"
        GoError.nil))
lookup_outcome (broken n) = err (
    GoError.holds (
      app Code.internal "Auth Repository: Get User By Email" "unable to retireve user"
        (GoError.library n)))

scanned-lookup :
    (r : Row User) (w : World)
    → scanned
        (new_error Code.invalid_input "Auth Repository: Get User By Email" "invalid credentials")
        "Auth Repository: Get User By Email"
        "unable to retireve user"
        r
        w
      ≡ (lookup_outcome r, w)
unfolding scanned new_error wrap
scanned-lookup (row u) w = refl
scanned-lookup no_rows w = refl
scanned-lookup (broken n) w = refl

pub get_user_by_email_lem :
    (env : Env) (email : Str) (w : World)
    → get_user_by_email env email w ≡ (
      lookup_outcome (answer (env.fault w.statements) (by_email email w.committed.users)),
      spent w,
    )
unfolding get_user_by_email
get_user_by_email_lem env email w =
    rw (statement-found env (λ _ d. by_email email d.users) w) (scanned-lookup _ (spent w))

-- The error with which Register stops, if the password is long enough.
abbrev register_error : Row User → GoError
register_error (row u) = GoError.sentinel Sentinel.email_taken
register_error no_rows =
    GoError.holds (
      app Code.invalid_input "Auth Repository: Get User By Email" "invalid credentials" GoError.nil)
register_error (broken n) = GoError.holds (
    app Code.internal "Auth Repository: Get User By Email" "unable to retireve user"
      (GoError.library n))

module _ (env : Env) (email name password : Str) (client : ClientInfo) where
  stops :
      (r : Row User) (w : World)
      → continue
          (attempted (lookup_outcome r))
          (λ existing.
            email_is_free existing >> open_account env (normalize_email email) name password client)
          w
        ≡ (err (register_error r), w)
  unfolding email_is_free is_sentinel
  stops (row u) w = refl
  stops no_rows w = refl
  stops (broken n) w = refl

  -- Register never succeeds. With a password of fewer than eight bytes it returns ErrWeakPassword.
  -- Otherwise it looks the e-mail up once and stops: with ErrEmailTaken where a user has that
  -- e-mail, and with the error of the look-up where none has, an error of code InvalidInput that
  -- is not the ErrNotFound it waits for. It changes no table, sends no mail and draws no token.
  pub register-fails :
      (w : World)
      → register env email name password client w ≡ (
          if ltb (length password) 8 then (err (GoError.sentinel Sentinel.weak_password), w) else (
            err (
                register_error (
                  answer
                    (env.fault w.statements)
                    (by_email (normalize_email email) w.committed.users))),
            spent w,
          ))
  unfolding register
  register-fails w = elim (Bool-cases (ltb (length password) 8)) [
    | inl short ↦ rw short refl
    | inr long ↦ rw long (
        bind_at _ (attempt_at (get_user_by_email_lem env (normalize_email email) w))
        ∙ stops _ (spent w))
  ]
