-- ===== src/Auth/Callback/Once.antt =====
-- services/internal/auth/handler.go: a state of oauthStart in the callbacks that present it.
use gotra.Prelude.{
  ℕ, ◌≡◌, refl, Str, ◌&&◌, Option, none, some, [], ◌∷◌, str_eq, ltb, find, arith, Bool-cases, inl,
  inr,
}
use gotra.Errors.{Code, GoError, AppPtr, Sentinel, Outcome, ok, err, panic, new_error, wrap}
use gotra.Httpx.{Reply, reply, internal_server_error}
use gotra.Store.Action.{Env, World}
use gotra.Web.{Answer, refusal, literal, mapped_error}
use gotra.Auth.Repository.{Provider}
use gotra.Auth.Tokens.{ClientInfo}
use gotra.Auth.OAuth.{Providers, OAuthConfig, Discovered}
use gotra.Auth.Callback.{
  Entry, Redis, oauth_state_key, without_key, lookup, Redirect, invalid, is_stored, callback_with,
  oauth_callback,
}

without_key-find :
    (key : Str) (now : ℕ) (redis : Redis)
    → find (λ (e : Entry). str_eq e.key key && ltb now e.expires) (without_key key redis) ≡ none
unfolding without_key
without_key-find key now [] = refl
without_key-find key now (e ∷ redis) = ground (arith, without_key-find key now redis)

lookup-without_key :
    (key : Str) (now : ℕ) (redis : Redis) → lookup key now (without_key key redis) ≡ none
unfolding lookup
lookup-without_key key now redis = rw (lookup, without_key-find key now redis) refl

abbrev pub state_refused : Outcome (Answer Redirect)
state_refused = ok (refusal 400 (literal "invalid oauth state"))

invalid_state : invalid "Auth Handler: Get Oauth State" "invalid oauth state" ≡ state_refused
unfolding mapped_error gotra.Httpx.map_error gotra.Errors.new_error
invalid_state = refl

module _ (env : Env) (ps : Providers) (cfg : OAuthConfig) where
  callback_with-unknown :
      (provider : Provider) (base_url : Str) (info : ClientInfo) (fault : Option GoError)
      (state code : Str) (d : Discovered) (redis : Redis) (w : World)
      → lookup (oauth_state_key state) w.now redis ≡ none
      → (callback_with env ps cfg provider base_url info fault state code d redis w).answer
        ≡ state_refused
  unfolding callback_with is_stored
  callback_with-unknown provider base_url info none state code d redis w h =
      rw (callback_with, h) invalid_state
  callback_with-unknown provider base_url info (some e) state code d redis w h = invalid_state

  -- The state that a callback has taken out of Redis.
  callback_with-redis :
      (provider : Provider) (base_url : Str) (info : ClientInfo) (state code : Str) (d : Discovered)
      (redis : Redis) (w : World)
      → (callback_with env ps cfg provider base_url info none state code d redis w).redis
        ≡ without_key (oauth_state_key state) redis
  unfolding callback_with
  callback_with-redis provider base_url info state code d redis w =
      elim (Bool-cases
        (is_stored env ps cfg provider (lookup (oauth_state_key state) w.now redis))) [
          | inl e ↦ rw (callback_with, e) refl
          | inr e ↦ rw (callback_with, e) refl
        ]

  -- An OAuth state serves one callback: once Redis has answered to a callback with a state and a
  -- code, whether it succeeded or not, every later callback with this state and a code is refused,
  -- for whatever provider, unless the state is stored again.
  pub oauth_callback_once :
      (provider provider' : Provider) (base_url base_url' : Str) (info info' : ClientInfo)
      (fault : Option GoError) (s c c' : ℕ) (state code code' : Str) (d d' : Discovered)
      (redis : Redis) (w w' : World)
      → (oauth_callback env ps cfg provider' base_url' info' fault
          (s ∷ state)
          (c' ∷ code')
          d'
          (oauth_callback env ps cfg provider base_url info none
            (s ∷ state)
            (c ∷ code)
            d
            redis
            w).redis
          w').answer
        ≡ state_refused
  unfolding oauth_callback
  oauth_callback_once provider provider' base_url base_url' info info' fault s c c' state code code'
        d d' redis w w' =
      rw (callback_with-redis provider base_url info (s ∷ state) (c ∷ code) d redis w) (
        callback_with-unknown provider' base_url' info' fault (s ∷ state) (c' ∷ code') d' _ w'
          (lookup-without_key (oauth_state_key (s ∷ state)) w'.now redis))
