-- ===== src/Web/Access.antt =====
-- Access control: ParseAccessToken of services/pkg/security/jwt.go, and the middlewares RequestID,
-- Auth and RequireRole of services/pkg/middleware/middleware.go. The JWT library is an argument:
-- what it reads from a text, given the function that picks the key by the signing method.
use gotra.Prelude.{
  trim_prefix, trim_prefix-has_prefix, ℕ, ◌≡◌, refl, Str, Bool, true, false, Option, none, some,
  List, [], ◌∷◌, ◌++◌, codes, str_eq, any, has_prefix, if◌then◌else◌, arith, Bool-cases, inl, inr,
}
use gotra.Errors.{Code, GoError, Sentinel, Outcome, ok, err, panic, new_error}
use gotra.Store.Action.{World, M, pure}
use gotra.Web.{Claims, Answer, success, refusal, literal, Text}

-- jwt.SigningMethod, as the type switch of the key function sees it.
pub data SigningMethod : Type 0 where
  hmac other_method : SigningMethod

-- The function that picks the key.
unfoldable pub key_for : Str → SigningMethod → Outcome Str
key_for secret hmac = ok secret
key_for secret other_method =
    err (GoError.wrapped "unexpected signing method" (GoError.sentinel Sentinel.invalid_token))

-- ParseWithClaims: the claims it has read, with `token.Valid`.
abbrev pub ParseWithClaims : Type 0
ParseWithClaims = Str → (SigningMethod → Outcome Str) → Outcome (Claims × Bool)

abbrev pub invalid_token : Outcome Claims
invalid_token =
    err (GoError.holds (new_error Code.invalid_input "Jwt : Parse Token" "security: invalid token"))

unfoldable pub valid_claims : Outcome (Claims × Bool) → Outcome Claims
valid_claims (ok (claims, true)) = ok claims
valid_claims panic = panic
valid_claims (ok (claims, false)) = invalid_token
valid_claims (err e) = invalid_token

-- ParseAccessToken
unfoldable pub parse_access_token : ParseWithClaims → Str → Str → Outcome Claims
unfolding valid_claims key_for
parse_access_token parse_with_claims secret text =
    valid_claims (parse_with_claims text (key_for secret))

-- A middleware has answered, or has passed the request on with what it found.
pub data Passage (A : Type 0) : Type 0 where
  stopped : ℕ → Text → Passage A
  passed : A → Passage A

abbrev pub bearer : Str
bearer = codes "Bearer "

unfoldable pub claims_or_stop : Outcome Claims → Passage Claims
claims_or_stop (ok claims) = passed claims
claims_or_stop _ = stopped 401 (literal "invalid token")

-- Auth, on the header Authorization.
unfoldable pub authenticate : (Str → Outcome Claims) → Str → Passage Claims
unfolding claims_or_stop trim_prefix
authenticate parse header =
    if has_prefix header bearer
    then claims_or_stop (parse (trim_prefix header bearer))
    else stopped 401 (literal "missing bearer token")

-- RequireRole, on the claims in the context.
unfoldable pub require_role : List Str → Option Claims → Passage Claims
require_role allowed none = stopped 401 (literal "unauthenticated")
require_role allowed (some claims) =
    if any (λ role. any (str_eq role) allowed) claims.roles
    then passed claims
    else stopped 403 (literal "insufficient permissions")

-- RequestID, on the header X-Request-ID and a new UUID.
unfoldable pub request_id : Str → Str → Str
request_id [] fresh = fresh
request_id (c ∷ header) fresh = c ∷ header

-- The handlers after a middleware.
unfoldable pub go_on : {A : Type 0} → Passage Claims → (Option Claims → M (Answer A)) → M (Answer A)
go_on (stopped status text) handle = pure (refusal status text)
go_on (passed claims) handle = handle (some claims)

-- A route behind Auth.
unfoldable pub behind_auth :
    {A : Type 0} → (Str → Outcome Claims) → Str → (Option Claims → M (Answer A)) → M (Answer A)
unfolding authenticate go_on
behind_auth parse header handle = go_on (authenticate parse header) handle

claims_or_stop_passed :
    (o : Outcome Claims) {claims : Claims} → claims_or_stop o ≡ passed claims → o ≡ ok claims
unfolding claims_or_stop
claims_or_stop_passed (ok x) h = ground arith
claims_or_stop_passed (err e) h = ground arith
claims_or_stop_passed panic h = ground arith

authenticate_passed :
    (parse : Str → Outcome Claims) (header : Str) {claims : Claims}
    → authenticate parse header ≡ passed claims
    → (header ≡ bearer ++ trim_prefix header bearer)
      × (parse (trim_prefix header bearer) ≡ ok claims)
unfolding authenticate
authenticate_passed parse header h = elim (Bool-cases (has_prefix header bearer)) [
  | inr e ↦ ground (arith, e, h)
  | inl e ↦ (
    trim_prefix-has_prefix header bearer e,
    claims_or_stop_passed (parse (trim_prefix header bearer)) (ground (arith, e, h)),
  )
]

go_on_success :
    {A : Type 0} (p : Passage Claims) (handle : Option Claims → M (Answer A)) (w : World)
    {status : ℕ} {b : A} {w' : World}
    → go_on p handle w ≡ (ok (success status b), w')
    → (claims : Claims) × (p ≡ passed claims)
      × (handle (some claims) w ≡ (ok (success status b), w'))
unfolding go_on
go_on_success (stopped status text) handle w h = ground arith
go_on_success (passed claims) handle w h = (claims, refl, h)

-- A route behind Auth answers with a success only where the request has a header "Bearer " with a
-- token that ParseAccessToken accepts, and then with what its handler answers for the claims of
-- that token.
pub behind_auth_success :
    {A : Type 0} (parse : Str → Outcome Claims) (header : Str)
    (handle : Option Claims → M (Answer A)) (w : World) {status : ℕ} {b : A} {w' : World}
    → behind_auth parse header handle w ≡ (ok (success status b), w')
    → (token : Str) × (claims : Claims) × (header ≡ bearer ++ token)
      × (parse token ≡ ok claims)
      × (handle (some claims) w ≡ (ok (success status b), w'))
unfolding behind_auth
behind_auth_success parse header handle w h =
    let (claims, e, k) = go_on_success (authenticate parse header) handle w h in
    let (cut, accepted) = authenticate_passed parse header e in
    (trim_prefix header bearer, claims, cut, accepted, k)

-- What the JWT library documents of ParseWithClaims: it returns valid claims only for a token
-- whose signature it has verified with the key of the function, for the method of its header.
abbrev pub Verifies :
    ParseWithClaims → (Str → SigningMethod) → (Str → Str → Claims → Type 0) → Type 0
Verifies parse_with_claims method_of SignedWith =
    (text : Str) (key : SigningMethod → Outcome Str) (claims : Claims)
    → parse_with_claims text key ≡ ok (claims, true)
    → (secret : Str) × (key (method_of text) ≡ ok secret) × SignedWith secret text claims

valid_claims_ok :
    (o : Outcome (Claims × Bool)) {claims : Claims}
    → valid_claims o ≡ ok claims
    → o ≡ ok (claims, true)
unfolding valid_claims
valid_claims_ok (ok (c, true)) h = ground arith
valid_claims_ok (ok (c, false)) h = ground arith
valid_claims_ok (err e) h = ground arith
valid_claims_ok panic h = ground arith

key_for_ok :
    (secret key : Str) (method : SigningMethod)
    → key_for secret method ≡ ok key
    → (method ≡ hmac) × (key ≡ secret)
unfolding key_for
key_for_ok secret key hmac h = (refl, ground arith)
key_for_ok secret key other_method h = ground arith

-- Where the JWT library verifies as it documents, ParseAccessToken accepts a token only if it is
-- signed with the secret of the services, by a method of the HMAC family.
pub parse_access_token_sound :
    (parse_with_claims : ParseWithClaims) (method_of : Str → SigningMethod)
    (SignedWith : Str → Str → Claims → Type 0) (secret text : Str) {claims : Claims}
    → Verifies parse_with_claims method_of SignedWith
    → parse_access_token parse_with_claims secret text ≡ ok claims
    → (method_of text ≡ hmac) × SignedWith secret text claims
unfolding parse_access_token
parse_access_token_sound parse_with_claims method_of SignedWith secret text {claims} verifies h =
    let (key, picked, signed) =
      verifies text (key_for secret) claims
        (valid_claims_ok (parse_with_claims text (key_for secret)) h) in
    let (method, same) = key_for_ok secret key (method_of text) picked in
    (method, rw same at signed)
