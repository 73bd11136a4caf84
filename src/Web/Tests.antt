-- ===== src/Web/Tests.antt =====
-- A token that is accepted, and a route behind it.
use gotra.Prelude.{ℕ, ◌++◌, Str, Bool, true, Option, some, List, [], ◌∷◌, codes, ◌≡◌, refl}
use gotra.Errors.{Outcome, ok, err, panic}
use gotra.Store.Action.{M, pure}
use gotra.Tunnels.Tests.{busy}
use gotra.Web.{Claims, Answer, success}
use gotra.Web.Access.{
  SigningMethod, hmac, ParseWithClaims, parse_access_token, parse_access_token_sound, bearer,
  behind_auth, behind_auth_success,
}

abbrev ada : Claims
ada = record { user_id = 1; workspace_id = 5; roles = codes "owner" ∷ [] }

-- A library that accepts every text that is signed with the key for HMAC, which is its beginning.
abbrev accept : Str → Outcome Str → Outcome (Claims × Bool)
accept text (ok key) = ok (ada, true)
accept text (err e) = err e
accept text panic = panic

abbrev library : ParseWithClaims
library text key = accept text (key hmac)

abbrev always_hmac : Str → SigningMethod
always_hmac text = hmac

-- The secret that the text was checked with.
abbrev CheckedWith : Str → Str → Claims → Type 0
CheckedWith secret text claims = claims ≡ ada

ada_signed :
    (text : Str) (o : Outcome Str) {claims : Claims}
    → accept text o ≡ ok (claims, true)
    → (secret : Str) × (o ≡ ok secret) × (claims ≡ ada)
ada_signed text (ok key) h = (key, refl, cc)
ada_signed text (err e) h = cc
ada_signed text panic h = cc

accept_runs : parse_access_token library (codes "secret") (codes "t") ≡ ok ada
unfolding parse_access_token gotra.Web.Access.key_for gotra.Web.Access.valid_claims
accept_runs = refl

parse_access_token_sound_example :
    (always_hmac (codes "t") ≡ hmac) × CheckedWith (codes "secret") (codes "t") ada
parse_access_token_sound_example =
    parse_access_token_sound library always_hmac CheckedWith (codes "secret") (codes "t")
      {claims = ada} (λ text key claims h. ada_signed text (key hmac) h) accept_runs

abbrev greet : Option Claims → M (Answer ℕ)
greet claims = pure (success 200 7)

abbrev everyone : Str → Outcome Claims
everyone t = ok ada

greet_runs : behind_auth everyone (codes "Bearer t") greet busy ≡ (ok (success 200 7), busy)
unfolding behind_auth gotra.Web.Access.authenticate gotra.Web.Access.claims_or_stop
    gotra.Web.Access.go_on gotra.Prelude.has_prefix gotra.Prelude.trim_prefix
greet_runs = refl

behind_auth_success_example :
    (token : Str) × (claims : Claims) × (codes "Bearer t" ≡ bearer ++ token)
    × (everyone token ≡ ok claims)
    × (greet (some claims) busy ≡ (ok (success 200 7), busy))
behind_auth_success_example =
    behind_auth_success everyone (codes "Bearer t") greet busy {status = 200} {b = 7} {w' = busy}
      greet_runs
