-- ===== src/Auth/Callback/Tests.antt =====
-- A callback with a stored state, and a second one.
use gotra.Prelude.{none, [], ◌∷◌, codes, ◌≡◌}
use gotra.Errors.{GoError, ok, err}
use gotra.Tunnels.Tests.{quiet, busy}
use gotra.Auth.Repository.{google}
use gotra.Auth.Tokens.{ClientInfo}
use gotra.Auth.OAuth.{Creds, OAuthConfig, Providers}
use gotra.Auth.Callback.{Redis, oauth_callback}
use gotra.Auth.Callback.Once.{oauth_callback_once, state_refused}

abbrev app_creds : Creds
app_creds = record { client_id = codes "id"; client_secret = codes "s"; redirect_url = [] }

abbrev cfg : OAuthConfig
cfg = record {
  google_creds = app_creds;
  github_creds = app_creds;
  oidc_creds = app_creds;
  issuer = [];
}

abbrev silent : Providers
silent = record {
  discover = λ s. err (GoError.library 1);
  userinfo = λ u t. err (GoError.library 1);
  github_user = λ t. err (GoError.library 1);
  github_emails = λ t. err (GoError.library 1);
  post_form = λ u f. ok (200, []);
  encode = λ q. [];
  decode_token = λ s. ok (codes "t");
}

abbrev browser : ClientInfo
browser = record { ip = []; user_agent = [] }

abbrev waiting : Redis
waiting = record { key = codes "oauth:state:x"; value = codes "google"; expires = 1600 } ∷ []

oauth_callback_once_example :
    (oauth_callback quiet silent cfg google [] browser none
      (codes "x")
      (codes "d")
      none
      (oauth_callback quiet silent cfg google [] browser none
        (codes "x")
        (codes "c")
        none
        waiting
        busy).redis
      busy).answer
    ≡ state_refused
oauth_callback_once_example =
    oauth_callback_once quiet silent cfg google google [] [] browser browser none b'x' b'c' b'd' []
      [] [] none none waiting busy busy
