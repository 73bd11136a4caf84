-- ===== src/Auth/Tokens.antt =====
-- services/internal/auth/service.go: the small steps of the use cases, and issueTokens, which ends
-- each login. Time does not pass within a call.
pub mod Issued
use gotra.Prelude.{
  ℕ, ◌+◌, Str, Option, none, some, List, [], ◌∷◌, ◌++◌, if◌then◌else◌, codes, cut_byte, lower,
  trim_space,
}
use gotra.Errors.{GoError, Sentinel, panic}
use gotra.Errors.Chain.{is_sentinel}
use gotra.Security.Token.{opaque_token, hash_token, label}
use gotra.Security.Password.{hash_password}
use gotra.Store.{User}
use gotra.Store.Action.{
  Env, M, pure, raise, lift, ◌>>=◌, ◌>>◌, Attempt, got, failed, attempt, pool, random_bytes,
  current_time,
}
use gotra.Auth.Sessions.{create_session}

-- ClientInfo
pub record ClientInfo : Type 0 where
  pub ip : Str
  pub user_agent : Str

-- Result
pub record Login : Type 0 where
  pub access_token : Str
  pub refresh_token : Str
  pub user : User
  pub workspace_id : ℕ
  pub role : Str

-- normalizeEmail
unfoldable pub normalize_email : Str → Str
normalize_email email = lower (trim_space email)

unfoldable pub local_part : Option (Str × Str) → Str
local_part none = codes "Personal"
local_part (some ([], domain)) = codes "Personal"
local_part (some (c ∷ l, domain)) = c ∷ l

unfoldable pub display_text : Str → Str → Str
unfolding local_part
display_text [] email = local_part (cut_byte b'@' email)
display_text (c ∷ name) email = c ∷ name

-- displayName
unfoldable pub display_name : User → Str
unfolding display_text
display_name u = display_text u.name u.email

-- `if errors.Is(err, ErrNotFound) { return s } else if err != nil { return err }`
unfoldable pub replace_not_found : {A : Type 0} → Sentinel → Attempt A → M A
replace_not_found s (got a) = pure a
replace_not_found s (failed e) = do
  missing ← lift (is_sentinel e Sentinel.auth_not_found)
  if missing then raise (GoError.sentinel s) else raise e

unfoldable pub token_or_fail : Option (List ℕ) → M Str
token_or_fail none = raise (GoError.wrapped "generate token" (GoError.library 1))
token_or_fail (some bs) = pure (opaque_token bs)

module _ (env : Env) where
  -- GenerateOpaqueToken
  unfoldable pub generate_opaque_token : ℕ → M Str
  unfolding random_bytes token_or_fail
  generate_opaque_token n = do r ← random_bytes env n; token_or_fail r

  unfoldable pub hash_or_fail : Str → Option (List ℕ) → M Str
  hash_or_fail password none = raise (GoError.wrapped "generate salt" (GoError.library 1))
  hash_or_fail password (some salt) = pure (hash_password env.id_key password salt)

  -- HashPassword
  unfoldable pub hash_new_password : Str → M Str
  unfolding random_bytes hash_or_fail
  hash_new_password password = do r ← random_bytes env 16; hash_or_fail password r

  unfoldable pub slug_suffix : Str → Attempt Str → M Str
  slug_suffix prefix (got suffix) = pure (prefix ++ b'-' ∷ label suffix)
  slug_suffix prefix (failed e) = do r ← random_bytes env 16; uuid_or_panic r
    where
      uuid_or_panic : Option (List ℕ) → M Str
      uuid_or_panic none = lift panic
      uuid_or_panic (some bs) = pure (prefix ++ b'-' ∷ env.new_uuid bs)

  -- genSlug
  unfoldable pub gen_slug : Str → M Str
  unfolding generate_opaque_token slug_suffix
  gen_slug prefix = do r ← attempt (generate_opaque_token 6); slug_suffix prefix r

  -- HashToken
  unfoldable pub token_hash : Str → Str
  token_hash token = hash_token env.sha256 token

  unfoldable pub signed_or_fail : Option Str → M Str
  signed_or_fail none = raise (GoError.library 2)
  signed_or_fail (some token) = pure token

  -- TokenManager.IssueAccessToken, with one role
  unfoldable pub issue_access_token : ℕ → ℕ → Str → M Str
  unfolding signed_or_fail
  issue_access_token user_id workspace_id role = do
    now ← current_time
    signed_or_fail (env.sign user_id workspace_id role (now + env.access_ttl))

  -- issueTokens
  unfoldable pub issue_tokens : User → ℕ → Str → ClientInfo → M Login
  unfolding issue_access_token generate_opaque_token
  issue_tokens user workspace_id role client = do
    access ← issue_access_token user.id workspace_id role
    refresh ← generate_opaque_token 32
    now ← current_time
    create_session env pool user.id (token_hash refresh) client.ip client.user_agent
        (now + env.refresh_ttl)
    pure (record {
      access_token = access;
      refresh_token = refresh;
      user = user;
      workspace_id = workspace_id;
      role = role;
    })
