-- ===== src/Auth/Repository.antt =====
-- services/internal/auth/repository.go: users, login methods, sessions, one-time tokens. The
-- columns created_at and updated_at are not kept; the order of creation is that of the lists.
use gotra.Prelude.{
  ℕ, Str, Bool, ◌&&◌, Option, none, some, List, [], ◌∷◌, ◌++◌, ◌==◌, String, if◌then◌else◌, codes,
  str_eq, lower, find, any, update_where,
}
use gotra.Errors.{Code, GoError, AppPtr, new_error, wrap}
use gotra.Store.{User, ProviderRow, Db}
use gotra.Store.Action.{
  Env, M, pure, raise, ◌>>=◌, Querier, pool, Row, row, no_rows, broken, statement, found,
  unique_violation, referring, driver_error, return_error, return_ptr,
}

-- Provider
pub data Provider : Type 0 where
  password google github oidc : Provider

-- string(provider)
unfoldable pub provider_text : Provider → Str
provider_text password = codes "password"
provider_text google = codes "google"
provider_text github = codes "github"
provider_text oidc = codes "oidc"

-- p.provider = $1 AND p.provider_user_id = $2
unfoldable pub is_identity : Str → Str → ProviderRow → Bool
is_identity provider subject p = str_eq p.provider provider && str_eq p.provider_user_id subject

-- The user of the first login method of the list with this identity that has one.
unfoldable pub user_of_provider : Str → Str → List User → List ProviderRow → Option User
unfolding is_identity
user_of_provider provider subject users [] = none
user_of_provider provider subject users (p ∷ ps) =
    let rest = user_of_provider provider subject users ps in
    if is_identity provider subject p
    then elim (find (λ (u : User). u.id == p.user_id) users) [ none ↦ rest | some u ↦ some u ]
    else rest

-- The method `password` of a user.
unfoldable pub is_password_of : ℕ → ProviderRow → Bool
is_password_of user_id p = p.user_id == user_id && str_eq p.provider (codes "password")

-- COALESCE(password_hash, '')
abbrev pub coalesce : Option Str → Str
coalesce none = []
coalesce (some h) = h

-- A row that was asked for, its absence as `missing`, and a fault wrapped as Internal.
unfoldable pub scanned : {A : Type 0} → AppPtr → String → String → Row A → M A
scanned missing op message (row a) = pure a
scanned missing op message no_rows = raise (GoError.holds missing)
scanned missing op message (broken n) =
    raise (GoError.holds (wrap (GoError.library n) Code.internal op message))

-- A statement whose only report is an error, wrapped by Wrap and returned as type `error`.
unfoldable pub wrapped_error : {A : Type 0} → String → String → Row A → M (Unit {0})
wrapped_error op message r = return_ptr (wrap (driver_error r) Code.internal op message)

-- The same behind `if err != nil`.
unfoldable pub checked_error : {A : Type 0} → String → String → Row A → M (Unit {0})
checked_error op message (broken n) = return_ptr (wrap (GoError.library n) Code.internal op message)
checked_error op message (row a) = pure tt
checked_error op message no_rows = pure tt

module _ (env : Env) where
  unfoldable pub insert_user : Str → Str → Bool → ℕ → Db → Row (User × Db)
  insert_user email name verified id d =
      if any (λ (u : User). str_eq (lower u.email) (lower email)) d.users
      then broken unique_violation
      else row (u, record d { users = d.users ++ u ∷ [] })
    where
      u : User
      u = record {
        id = id;
        email = email;
        name = name;
        email_verified = verified;
        last_login_at = none;
      }

  -- CreateUser
  unfoldable pub create_user : Querier → Str → Str → Bool → M User
  unfolding insert_user scanned
  create_user q email name verified = do
    r ← statement env q (λ id now d. insert_user email name verified id d)
    scanned
        (wrap (GoError.library 0) Code.internal "Auth Repository: Create User"
          "unable to create user")
        "Auth Repository: Create User" "unable to create user" r

  -- GetUserByEmail
  unfoldable pub get_user_by_email : Str → M User
  unfolding scanned
  get_user_by_email email = do
    r ←
        statement env pool
          (λ id now d. found d (find (λ (u : User). str_eq (lower u.email) (lower email)) d.users))
    scanned
        (new_error Code.invalid_input "Auth Repository: Get User By Email" "invalid credentials")
        "Auth Repository: Get User By Email" "unable to retireve user" r

  -- GetUserByID
  unfoldable pub get_user_by_id : ℕ → M User
  unfolding scanned
  get_user_by_id user_id = do
    r ← statement env pool (λ id now d. found d (find (λ (u : User). u.id == user_id) d.users))
    scanned (new_error Code.invalid_input "Auth Repository: Get User By ID" "invalid credentials")
        "Auth Repository: Get User By ID" "unable to retrieve user" r

  -- TouchLastLogin
  unfoldable pub touch_last_login : ℕ → M (Unit {0})
  unfolding wrapped_error
  touch_last_login user_id = do
    r ← statement env pool (λ id now d. row (
      tt,
      record d {
        users =
            update_where (λ (u : User). u.id == user_id)
              (λ u. record u { last_login_at = some now }) d.users;
      },
    ))
    wrapped_error "Auth Repository: Touch Last Login" "unable to update last login timestamp" r

  unfoldable pub insert_provider : ProviderRow → Db → Row (Unit {0} × Db)
  unfolding is_identity
  insert_provider p d =
      if any (is_identity p.provider p.provider_user_id) d.providers
      then broken unique_violation
      else referring (any (λ (u : User). u.id == p.user_id) d.users)
          (row (tt, record d { providers = d.providers ++ p ∷ [] }))

  -- CreatePasswordProvider
  unfoldable pub create_password_provider : Querier → ℕ → Str → Str → M (Unit {0})
  unfolding insert_provider
  create_password_provider q user_id email hash = do
    r ← statement env q (λ id now d.
        insert_provider
          (record {
            user_id = user_id;
            provider = codes "password";
            provider_user_id = env.uuid_string user_id;
            provider_email = email;
            password_hash = some hash;
          })
          d)
    return_error (driver_error r)

  -- CreateOAuthProvider, without the metadata
  unfoldable pub create_oauth_provider : Querier → ℕ → Provider → Str → Str → M (Unit {0})
  unfolding insert_provider checked_error provider_text
  create_oauth_provider q user_id provider subject email = do
    r ← statement env q (λ id now d.
        insert_provider
          (record {
            user_id = user_id;
            provider = provider_text provider;
            provider_user_id = subject;
            provider_email = email;
            password_hash = none;
          })
          d)
    checked_error "Auth Repository: Create Oauth Provider" "error creating Oauth provider" r

  -- GetPasswordHash
  unfoldable pub get_password_hash : ℕ → M Str
  unfolding scanned
  get_password_hash user_id = do
    r ← statement env pool (λ id now d. found d (find (is_password_of user_id) d.providers))
    p ←
        scanned
          (new_error Code.invalid_input "Auth Repository: Get PasswordHash" "invalid credentials")
          "Auth Repository: Get PasswordHash" "unable to retrieve password hash" r
    pure (coalesce p.password_hash)

  -- The end of GetUserByProvider: a row that was found is returned beside a nil `*AppError`.
  unfoldable pub returned_by_provider : Row User → M User
  returned_by_provider no_rows = raise (
      GoError.holds
        (new_error Code.not_found "Auth Repository: Get User By Provider" "auth: not found"))
  returned_by_provider (row u) = raise (
      GoError.holds (
        wrap GoError.nil Code.internal "Auth Repository: Get User By Provider"
          "unable to retrieve user by provider"))
  returned_by_provider (broken n) = raise (
      GoError.holds (
        wrap (GoError.library n) Code.internal "Auth Repository: Get User By Provider"
          "unable to retrieve user by provider"))

  -- GetUserByProvider
  unfoldable pub get_user_by_provider : Provider → Str → M User
  unfolding returned_by_provider provider_text
  get_user_by_provider provider subject = do
    r ← statement env pool (λ id now d.
        found d (user_of_provider (provider_text provider) subject d.users d.providers))
    returned_by_provider r
