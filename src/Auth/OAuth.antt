-- ===== src/Auth/OAuth.antt =====
-- services/internal/auth/oauth.go: the clients of the OAuth providers. HTTP with JSON is an
-- argument: what each provider answers to a call.
use gotra.Prelude.{
  ℕ, Str, String, Bool, true, false, ◌&&◌, Option, none, some, List, [], ◌∷◌, ◌++◌, codes, ◌==◌,
  if◌then◌else◌, find,
}
use gotra.Errors.{Code, GoError, Outcome, ok, err, panic, new_error, wrap}
use gotra.Errors.Sequence.{◌>>=◌}
use gotra.Auth.Repository.{Provider, google, github, oidc, password}
use gotra.Auth.Recovery.{OAuthProfile}

-- config.OAuthConfig
pub record Creds : Type 0 where
  pub client_id : Str
  pub client_secret : Str
  pub redirect_url : Str

-- The parts of config.Config that OAuthManager reads.
pub record OAuthConfig : Type 0 where
  pub google_creds : Creds
  pub github_creds : Creds
  pub oidc_creds : Creds
  pub issuer : Str

-- providerEndpoints
pub record Endpoints : Type 0 where
  pub auth_url : Str
  pub token_url : Str
  pub userinfo_url : Str
  pub scope : Str

abbrev unsupported : String → GoError
unsupported op = GoError.holds (new_error Code.invalid_input op "auth: unsupported oauth provider")

-- creds
unfoldable pub creds : OAuthConfig → Provider → Outcome Creds
creds cfg google = ok cfg.google_creds
creds cfg github = ok cfg.github_creds
creds cfg oidc = ok cfg.oidc_creds
creds cfg password = err (unsupported "Oauth Service: Resolve Credentials")

abbrev is_set : Str → Bool
is_set [] = false
is_set (c ∷ s) = true

abbrev has_creds : Outcome Creds → Bool
has_creds (ok c) = is_set c.client_id && is_set c.client_secret
has_creds _ = false

-- Configured
unfoldable pub configured : OAuthConfig → Provider → Bool
unfolding creds
configured cfg oidc = is_set cfg.issuer && has_creds (ok cfg.oidc_creds)
configured cfg p = has_creds (creds cfg p)

-- endpoints
unfoldable pub google_endpoints : Endpoints
google_endpoints = record {
  auth_url = codes "https://accounts.google.com/o/oauth2/v2/auth";
  token_url = codes "https://oauth2.googleapis.com/token";
  userinfo_url = [];
  scope = codes "openid email profile";
}

unfoldable pub github_endpoints : Endpoints
github_endpoints = record {
  auth_url = codes "https://github.com/login/oauth/authorize";
  token_url = codes "https://github.com/login/oauth/access_token";
  userinfo_url = [];
  scope = codes "read:user user:email";
}

-- The user information of Google and of OIDC.
pub record UserInfo : Type 0 where
  pub sub : Str
  pub email : Str
  pub name : Str

-- A user of GitHub, its identifier in decimal.
pub record GitHubUser : Type 0 where
  pub id : Str
  pub login : Str
  pub name : Str
  pub email : Str

pub record GitHubEmail : Type 0 where
  pub email : Str
  pub primary : Bool
  pub verified : Bool

-- What the providers answer: the discovery document of an issuer, user information at a URL, the
-- user and the addresses of GitHub, and the status and the body of a token request; with
-- url.Values.Encode and the decoder of the token.
pub record Providers : Type 0 where
  pub discover : Str → Outcome Endpoints
  pub userinfo : Str → Str → Outcome UserInfo
  pub github_user : Str → Outcome GitHubUser
  pub github_emails : Str → Outcome (List GitHubEmail)
  pub post_form : Str → Str → Outcome (ℕ × Str)
  pub encode : List (Str × Str) → Str
  pub decode_token : Str → Outcome Str

-- `oidcEP`
abbrev pub Discovered : Type 0
Discovered = Option Endpoints

-- discoverOIDC, with the endpoints found before.
unfoldable pub discover_oidc : Providers → OAuthConfig → Discovered → Outcome Endpoints × Discovered
discover_oidc ps cfg (some ep) = (ok ep, some ep)
discover_oidc ps cfg none = elim (ps.discover cfg.issuer) [
  | ok ep ↦ (ok ep, some ep)
  | err e ↦ (err (GoError.wrapped "oidc discovery" e), none)
  | panic ↦ (panic, none)
]

-- resolveEndpoints
unfoldable pub resolve_endpoints :
    Providers → OAuthConfig → Provider → Discovered → Outcome Endpoints × Discovered
unfolding google_endpoints github_endpoints discover_oidc
resolve_endpoints ps cfg google d = (ok google_endpoints, d)
resolve_endpoints ps cfg github d = (ok github_endpoints, d)
resolve_endpoints ps cfg oidc d = discover_oidc ps cfg d
resolve_endpoints ps cfg password d = (err (unsupported "Oauth Service: Resolve Endpoints"), d)

abbrev extra_query : Provider → List (Str × Str)
extra_query google =
    (codes "access_type", codes "offline") ∷ (codes "prompt", codes "select_account") ∷ []
extra_query _ = []

-- AuthCodeURL
unfoldable pub auth_code_url :
    Providers → OAuthConfig → Provider → Str → Discovered → Outcome Str × Discovered
unfolding creds resolve_endpoints
auth_code_url ps cfg provider state d = elim (creds cfg provider) [
  | err e ↦ (err e, d)
  | panic ↦ (panic, d)
  | ok c ↦
      let (r, d') = resolve_endpoints ps cfg provider d in
      (
        r >>= (λ ep. ok (
            ep.auth_url
            ++ b'?'
              ∷ ps.encode (
                  (codes "client_id", c.client_id)
                  ∷ (codes "redirect_uri", c.redirect_url)
                  ∷ (codes "response_type", codes "code")
                  ∷ (codes "scope", ep.scope)
                  ∷ (codes "state", state)
                  ∷ extra_query provider))),
        d',
      )
]

abbrev bad_exchange : String → String → GoError
bad_exchange op message = GoError.holds (new_error Code.invalid_input op message)

abbrev token_or_error : Outcome Str → Outcome Str
token_or_error (ok (c ∷ token)) = ok (c ∷ token)
token_or_error panic = panic
token_or_error _ =
    err (bad_exchange "Oauth Service: Unmarshall body" "oauth token response missing access_token")

abbrev exchanged : Providers → Outcome (ℕ × Str) → Outcome Str
exchanged ps (ok (status, body)) =
    if status == 200
    then token_or_error (ps.decode_token body)
    else err (bad_exchange "Oauth Service: Exchange" "oauth token exchange failed")
exchanged ps (err e) =
    err (GoError.holds (wrap e Code.internal "Oauth Service" "error creating connection"))
exchanged ps panic = panic

-- Exchange
unfoldable pub exchange :
    Providers → OAuthConfig → Provider → Str → Discovered → Outcome Str × Discovered
unfolding creds resolve_endpoints
exchange ps cfg provider code d = elim (creds cfg provider) [
  | err e ↦ (err e, d)
  | panic ↦ (panic, d)
  | ok c ↦
      let (r, d') = resolve_endpoints ps cfg provider d in
      (
        r >>= (λ ep. exchanged ps (
            ps.post_form ep.token_url (
              ps.encode (
                (codes "client_id", c.client_id)
                ∷ (codes "client_secret", c.client_secret)
                ∷ (codes "code", code)
                ∷ (codes "redirect_uri", c.redirect_url)
                ∷ (codes "grant_type", codes "authorization_code")
                ∷ [])))),
        d',
      )
]

abbrev profile_of : UserInfo → OAuthProfile
profile_of u = record { provider_user_id = u.sub; email = u.email; name = u.name }

-- fetchOIDC
unfoldable pub fetch_oidc : Providers → Str → Str → Outcome OAuthProfile
fetch_oidc ps url token = ps.userinfo url token >>= λ u. ok (profile_of u)

-- fetchGoogle
unfoldable pub fetch_google : Providers → Str → Outcome OAuthProfile
fetch_google ps token =
    ps.userinfo (codes "https://www.googleapis.com/oauth2/v3/userinfo") token >>= λ u.
    ok (profile_of u)

abbrev pub is_primary : GitHubEmail → Bool
is_primary e = e.primary && e.verified

abbrev address_or_empty : Option GitHubEmail → Str
address_or_empty none = []
address_or_empty (some e) = e.email

-- The address of a GitHub user: the public one, or the primary one of the verified ones.
unfoldable pub github_email : Str → Outcome (List GitHubEmail) → Outcome Str
github_email (c ∷ s) emails = ok (c ∷ s)
github_email [] (ok emails) = ok (address_or_empty (find is_primary emails))
github_email [] (err e) = ok []
github_email [] panic = panic

abbrev name_or_login : Str → Str → Str
name_or_login [] login = login
name_or_login (c ∷ name) login = c ∷ name

-- fetchGitHub
unfoldable pub fetch_github : Providers → Str → Outcome OAuthProfile
unfolding github_email
fetch_github ps token = do
  u ← ps.github_user token
  email ← github_email u.email (ps.github_emails token)
  ok (record { provider_user_id = u.id; email = email; name = name_or_login u.name u.login })

-- FetchProfile
unfoldable pub fetch_profile :
    Providers → OAuthConfig → Provider → Str → Discovered → Outcome OAuthProfile × Discovered
unfolding fetch_google fetch_github fetch_oidc resolve_endpoints
fetch_profile ps cfg google token d = (fetch_google ps token, d)
fetch_profile ps cfg github token d = (fetch_github ps token, d)
fetch_profile ps cfg oidc token d =
    let (r, d') = resolve_endpoints ps cfg oidc d in
    (r >>= (λ ep. fetch_oidc ps ep.userinfo_url token), d')
fetch_profile ps cfg password token d = (err (unsupported "Oauth Service: Fetch Profile"), d)
