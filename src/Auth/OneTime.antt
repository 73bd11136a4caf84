-- ===== src/Auth/OneTime.antt =====
-- services/internal/auth/repository.go: tokens for email verification and password reset, which
-- are used once, and the two updates that they permit.
use gotra.Prelude.{
  ℕ, ltb, Str, Bool, true, false, ◌&&◌, Option, none, some, List, [], ◌∷◌, ◌++◌, ◌==◌,
  if◌then◌else◌, str_eq, find, any, update_where,
}
use gotra.Errors.{Code, GoError, Sentinel, new_error, wrap}
use gotra.Store.{User, OneTimeToken, Db}
use gotra.Store.Action.{
  Env, M, pure, raise, ◌>>=◌, Querier, Row, row, no_rows, broken, statement, return_ptr, referring,
}
use gotra.Auth.Repository.{scanned, wrapped_error, is_password_of, create_password_provider}
use gotra.Auth.Sessions.{some_time}

-- token_hash = $1 AND used_at IS NULL AND expires_at > now()
unfoldable pub is_usable : Str → ℕ → OneTimeToken → Bool
is_usable hash now t =
    if some_time t.used_at then false else str_eq t.token_hash hash && ltb now t.expires_at

unfoldable pub fresh_token : ℕ → Str → ℕ → OneTimeToken
fresh_token user_id hash expires = record {
  user_id = user_id;
  token_hash = hash;
  expires_at = expires;
  used_at = none;
}

-- SET used_at = now() on the usable tokens with this hash
unfoldable pub use_up : Str → ℕ → List OneTimeToken → List OneTimeToken
unfolding is_usable
use_up hash now ts = update_where (is_usable hash now) (λ t. record t { used_at = some now }) ts

-- RETURNING user_id, of the first row that the update changed.
unfoldable pub consumed : Option OneTimeToken → Db → Row (ℕ × Db)
consumed none d = no_rows
consumed (some t) d = row (t.user_id, d)

unfoldable pub reset_user_or_not_found : Row ℕ → M ℕ
reset_user_or_not_found (row u) = pure u
reset_user_or_not_found no_rows = raise (GoError.sentinel Sentinel.auth_not_found)
reset_user_or_not_found (broken n) = raise (GoError.library n)

-- tag.RowsAffected()
abbrev any_password : ℕ → Db → Bool
any_password user_id d = any (is_password_of user_id) d.providers

module _ (env : Env) where
  -- CreateEmailVerification
  unfoldable pub create_email_verification : Querier → ℕ → Str → ℕ → M (Unit {0})
  unfolding fresh_token wrapped_error
  create_email_verification q user_id hash expires = do
    r ← statement env q (λ id now d. referring (any (λ (u : User). u.id == user_id) d.users) (
        row (
          tt,
          record d { verifications = d.verifications ++ fresh_token user_id hash expires ∷ [] },
        )))
    wrapped_error "Auth Repository: Create Email Verification" "unable to create email verification"
        r

  -- ConsumeEmailVerification
  unfoldable pub consume_email_verification : Querier → Str → M ℕ
  unfolding use_up consumed scanned
  consume_email_verification q hash = do
    r ← statement env q (λ id now d.
        consumed (find (is_usable hash now) d.verifications)
          (record d { verifications = use_up hash now d.verifications }))
    scanned
        (new_error Code.not_found "Auth Repository: Consume Email Verification" "auth: not found")
        "Auth Repository: Consume Email Verification" "unable to consume email verification" r

  -- SetUserEmailVerified
  unfoldable pub set_user_email_verified : Querier → ℕ → M (Unit {0})
  unfolding wrapped_error
  set_user_email_verified q user_id = do
    r ← statement env q (λ id now d. row (
      tt,
      record d {
        users =
            update_where (λ (u : User). u.id == user_id) (λ u. record u { email_verified = true })
              d.users;
      },
    ))
    wrapped_error "Auth Repository: Set User Email Verified" "unable to verify user email" r

  -- CreatePasswordReset
  unfoldable pub create_password_reset : Querier → ℕ → Str → ℕ → M (Unit {0})
  unfolding fresh_token wrapped_error
  create_password_reset q user_id hash expires = do
    r ← statement env q (λ id now d.
        referring (any (λ (u : User). u.id == user_id) d.users)
          (row (tt, record d { resets = d.resets ++ fresh_token user_id hash expires ∷ [] })))
    wrapped_error "Auth Repository: Create Password Reset" "unable to create password reset" r

  -- ConsumePasswordReset
  unfoldable pub consume_password_reset : Querier → Str → M ℕ
  unfolding use_up consumed reset_user_or_not_found
  consume_password_reset q hash = do
    r ← statement env q (λ id now d.
        consumed (find (is_usable hash now) d.resets)
          (record d { resets = use_up hash now d.resets }))
    reset_user_or_not_found r

  -- The end of UpsertPasswordHash: a login method is created where no row was updated.
  unfoldable pub upserted : Querier → ℕ → Str → Str → Row Bool → M (Unit {0})
  upserted q user_id email hash (row true) = pure tt
  upserted q user_id email hash (row false) = create_password_provider env q user_id email hash
  upserted q user_id email hash no_rows = create_password_provider env q user_id email hash
  upserted q user_id email hash (broken n) = return_ptr (
      wrap (GoError.library n) Code.internal "Auth Repository: Upsert Password Hash"
        "unable to update password hash")

  -- UpsertPasswordHash
  unfoldable pub upsert_password_hash : Querier → ℕ → Str → Str → M (Unit {0})
  unfolding upserted
  upsert_password_hash q user_id email hash = do
    r ← statement env q (λ id now d. row (
      any_password user_id d,
      record d {
        providers =
            update_where (is_password_of user_id) (λ p. record p { password_hash = some hash })
              d.providers;
      },
    ))
    upserted q user_id email hash r
