-- ===== src/Auth/Callback.antt =====
-- services/internal/auth/handler.go: oauthStart and oauthCallback. The states wait in Redis, each
-- under its key for ten minutes. Redis may fail at each call, as the arguments say.
pub mod Once
mod Tests
use gotra.Prelude.{
  ℕ, ◌≡◌, refl, ◌+◌, Str, String, Bool, false, ◌&&◌, not, Option, none, some, List, [], ◌∷◌, ◌++◌,
  codes, str_eq, ltb, if◌then◌else◌, find, select, arith, Bool-cases, inl, inr,
}
use gotra.Errors.{Code, GoError, AppPtr, Sentinel, Outcome, ok, err, panic, new_error, wrap}
use gotra.Errors.Sequence as Outcomes
use gotra.Httpx.{Reply, reply, internal_server_error}
use gotra.Store.Action.{Env, World, M, lift}
use gotra.Web.{Answer, success, refusal, literal, conclude, of_reply, mapped_error}
use gotra.Auth.Repository.{Provider, password, google, github, oidc, provider_text}
use gotra.Auth.Tokens.{ClientInfo, Login, generate_opaque_token}
use gotra.Auth.Recovery.{OAuthProfile, authenticate_oauth}
use gotra.Auth.OAuth.{
  Providers, OAuthConfig, Discovered, configured, auth_code_url, exchange, fetch_profile,
}

-- A key of Redis with its value and the time until which it lives.
pub record Entry : Type 0 where
  pub key : Str
  pub value : Str
  pub expires : ℕ

abbrev pub Redis : Type 0
Redis = List Entry

-- oauthStateKey
unfoldable pub oauth_state_key : Str → Str
oauth_state_key state = codes "oauth:state:" ++ state

unfoldable pub without_key : Str → Redis → Redis
without_key key redis = select (λ (e : Entry). not (str_eq e.key key)) redis

-- SET with an expiry.
unfoldable pub set : Str → Str → ℕ → Redis → Redis
unfolding without_key
set key value expires redis =
    record { key = key; value = value; expires = expires } ∷ without_key key redis

-- The value of a key that has not expired.
unfoldable pub lookup : Str → ℕ → Redis → Option Str
lookup key now redis = elim (find (λ (e : Entry). str_eq e.key key && ltb now e.expires) redis) [
  | none ↦ none
  | some e ↦ some e.value
]

-- A redirect, with the refresh cookie that it sets, if it sets one.
pub record Redirect : Type 0 where
  pub location : Str
  pub refresh_cookie : Option Str

-- What a handler leaves: its answer, the endpoints discovered, Redis, and the world.
pub record Left : Type 0 where
  pub answer : Outcome (Answer Redirect)
  pub discovered : Discovered
  pub redis : Redis
  pub world : World

abbrev pub invalid : String → String → Outcome (Answer Redirect)
invalid op message = mapped_error (GoError.holds (new_error Code.invalid_input op message))

-- string(provider) + " oauth is not configured"
abbrev not_configured : Provider → String
not_configured password = "password oauth is not configured"
not_configured google = "google oauth is not configured"
not_configured github = "github oauth is not configured"
not_configured oidc = "oidc oauth is not configured"

abbrev failed_internal : Answer Redirect
failed_internal = of_reply internal_server_error

module _ (env : Env) (ps : Providers) (cfg : OAuthConfig) (provider : Provider) where
  abbrev redirected : Outcome Str → Outcome (Answer Redirect)
  redirected (ok url) = ok (success 307 (record { location = url; refresh_cookie = none }))
  redirected (err e) = mapped_error e
  redirected panic = panic

  -- oauthStart past the random state, where `fault` is the error of SET.
  unfoldable pub start_with : Option GoError → Outcome Str → Discovered → Redis → World → Left
  unfolding set oauth_state_key
  start_with fault (err e) d redis w = record {
    answer = ok failed_internal;
    discovered = d;
    redis = redis;
    world = w;
  }
  start_with fault panic d redis w = record {
    answer = panic;
    discovered = d;
    redis = redis;
    world = w;
  }
  start_with (some e) (ok state) d redis w = record {
    answer = ok failed_internal;
    discovered = d;
    redis = redis;
    world = w;
  }
  start_with none (ok state) d redis w =
      let (url, d') = auth_code_url ps cfg provider state d in
      record {
        answer = redirected url;
        discovered = d';
        redis = set (oauth_state_key state) (provider_text provider) (w.now + 600) redis;
        world = w;
      }

  -- oauthStart
  unfoldable pub oauth_start : Option GoError → Discovered → Redis → World → Left
  unfolding start_with configured
  oauth_start fault d redis w =
      if configured cfg provider
      then (let (r, w') = generate_opaque_token env 24 w in start_with fault r d redis w')
      else record {
        answer = ok (of_reply (reply 503 (not_configured provider)));
        discovered = d;
        redis = redis;
        world = w;
      }

  -- oauthCallback from AuthenticateOAuth on.
  unfoldable pub sign_in : Str → ClientInfo → Outcome OAuthProfile → M (Answer Redirect)
  sign_in base_url info (ok profile) =
      conclude mapped_error
        (λ (res : Login). success 307 (record {
          location = base_url ++ codes "/dashboard";
          refresh_cookie = some res.refresh_token;
        }))
        (authenticate_oauth env provider profile info)
  sign_in base_url info (err e) = lift (mapped_error e)
  sign_in base_url info panic = lift panic

  -- The profile for a code, with the endpoints discovered.
  unfoldable pub profile_for : Str → Discovered → Outcome OAuthProfile × Discovered
  profile_for code d =
      let (token, d') = exchange ps cfg provider code d in
      elim token [
        | ok access ↦ fetch_profile ps cfg provider access d'
        | err e ↦ (err e, d')
        | panic ↦ (panic, d')
      ]

  -- `err != nil || stored != string(provider)`
  unfoldable pub is_stored : Option Str → Bool
  is_stored none = false
  is_stored (some value) = str_eq value (provider_text provider)

  -- oauthCallback past the parameters, where `fault` is the error of GETDEL.
  unfoldable pub callback_with :
      Str → ClientInfo → Option GoError → Str → Str → Discovered → Redis → World → Left
  unfolding is_stored sign_in profile_for lookup without_key oauth_state_key
  callback_with base_url info (some e) state code d redis w = record {
    answer = invalid "Auth Handler: Get Oauth State" "invalid oauth state";
    discovered = d;
    redis = redis;
    world = w;
  }
  callback_with base_url info none state code d redis w =
      let left = without_key (oauth_state_key state) redis in
      if is_stored (lookup (oauth_state_key state) w.now redis)
      then (let (profile, d') = profile_for code d in
          let (r, w') = sign_in base_url info profile w in
          record { answer = r; discovered = d'; redis = left; world = w' })
      else record {
        answer = invalid "Auth Handler: Get Oauth State" "invalid oauth state";
        discovered = d;
        redis = left;
        world = w;
      }

  -- oauthCallback
  unfoldable pub oauth_callback :
      Str → ClientInfo → Option GoError → Str → Str → Discovered → Redis → World → Left
  unfolding callback_with
  oauth_callback base_url info fault [] code d redis w = record {
    answer = invalid "Auth Handler: Oauth Callback" "missing code or state";
    discovered = d;
    redis = redis;
    world = w;
  }
  oauth_callback base_url info fault (s ∷ state) [] d redis w = record {
    answer = invalid "Auth Handler: Oauth Callback" "missing code or state";
    discovered = d;
    redis = redis;
    world = w;
  }
  oauth_callback base_url info fault (s ∷ state) (c ∷ code) d redis w =
      callback_with base_url info fault (s ∷ state) (c ∷ code) d redis w
