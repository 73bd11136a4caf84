-- ===== src/Auth/Tests.antt =====
-- Services at concrete worlds.
use gotra.Prelude.{
  ℕ, zero, suc, ◌+◌, ◌==◌, ◌≡◌, ◌≢◌, refl, Str, true, false, Option, none, some, List, [], ◌∷◌,
  ◌++◌, codes, arith, take, select, any, find, str_eq, length, lower, trim_space,
}
use gotra.Errors.Chain.{code_of}
use gotra.Errors.{Code, GoError, Sentinel, ok, err, panic}
use gotra.Security.Password.{hash_password, verify_password}
use gotra.Store.{User, ProviderRow, Session, OneTimeToken, Workspace, Db}
use gotra.Store.Action.{Env, World}
use gotra.Auth.Repository.{Provider}
use gotra.Auth.Tokens.{ClientInfo, Login, token_hash}
use gotra.Auth.Service.{refresh, login, logout, register}
use gotra.Auth.Service.Enter.{Entered, login_sound}
use gotra.Auth.Service.Register.{by_email, register-fails}
use gotra.Auth.Service.Rotate.{revoked, refresh_sound, refresh_twice, refresh-logout}
use gotra.Auth.Tokens.{normalize_email}
use gotra.Auth.Repository.{is_password_of, coalesce}
use gotra.Auth.Sessions.{is_active}
use gotra.Store.Action.Laws.{spent}
use gotra.Auth.Recovery.{authenticate_oauth, request_password_reset, reset_password}
use gotra.Auth.Recovery.Blocked.{
  nil_pointer, unknown_email, reset_password-fails, request_password_reset-distinguishes,
  authenticate_oauth-panics,
}

abbrev sevens : ℕ → List ℕ
sevens zero = []
sevens (suc n) = 7 ∷ sevens n

abbrev calm : ℕ → Option ℕ
calm n = none

-- Externals that do not fail.
abbrev demo : Env
demo = record {
  fault = calm;
  json_headers = λ hs. hs;
  new_id = λ n. 100 + n;
  random = λ k n. some (sevens n);
  sha256 = λ s. s;
  id_key = λ pw salt t m p n. take n (pw ++ sevens n);
  uuid_string = λ n. n ∷ [];
  new_uuid = λ bs. bs;
  sign = λ u w r e. some (codes "jwt");
  access_ttl = 900;
  refresh_ttl = 2592000;
}

abbrev client : ClientInfo
client = record { ip = codes "127.0.0.1"; user_agent = codes "curl" }

abbrev ada : User
ada = record {
  id = 1;
  email = codes "ada@gotra.dev";
  name = codes "Ada";
  email_verified = false;
  last_login_at = none;
}

abbrev start : World
start = record {
  committed = record {
    users = ada ∷ [];
    providers =
        record {
          user_id = 1;
          provider = codes "password";
          provider_user_id = 1 ∷ [];
          provider_email = codes "ada@gotra.dev";
          password_hash = some (
              codes
                "$argon2id$v=19$m=65536,t=3,p=2$BwcHBwcHBwcHBwcHBwcHBw$cGFzc3dvcmQHBwcHBwcHBwcHBwcHBwcHBwcHBwcHBwc");
        }
        ∷ record {
          user_id = 1;
          provider = codes "github";
          provider_user_id = codes "42";
          provider_email = codes "ada@gotra.dev";
          password_hash = none;
        }
        ∷ [];
    sessions =
        record {
          id = 50;
          user_id = 1;
          refresh_token_hash = codes "616263";
          ip_address = [];
          user_agent = [];
          expires_at = 9000;
          revoked_at = none;
        }
        ∷ [];
    verifications =
        record { user_id = 1; token_hash = codes "616263"; expires_at = 9000; used_at = none } ∷ [];
    resets = [];
    workspaces =
        record {
          id = 5;
          owner_id = 1;
          name = codes "Ada's Workspace";
          slug = codes "ws-a";
          is_personal = true;
        }
        ∷ [];
    projects = [];
    members = [];
    api_keys = [];
    tunnels = [];
    subscriptions = [];
    requests = [];
    responses = [];
    replays = [];
    analyses = [];
    incidents = [];
    usages = [];
  };
  pending = record {
    users = [];
    providers = [];
    sessions = [];
    verifications = [];
    resets = [];
    workspaces = [];
    projects = [];
    members = [];
    api_keys = [];
    tunnels = [];
    subscriptions = [];
    requests = [];
    responses = [];
    replays = [];
    analyses = [];
    incidents = [];
    usages = [];
  };
  now = 1000;
  statements = 0;
  draws = 0;
  outbox = [];
}

-- What a login as `ada` returns.
abbrev entry : Login
entry = record {
  access_token = codes "jwt";
  refresh_token = codes "BwcHBwcHBwcHBwcHBwcHBwcHBwcHBwcHBwcHBwcHBwc";
  user = ada;
  workspace_id = 5;
  role = codes "owner";
}

login_runs :
    login demo (codes " Ada@gotra.dev") (codes "password") client start
    ≡ (ok entry, (login demo (codes " Ada@gotra.dev") (codes "password") client start).1)
unfolding gotra.Auth.Provision.get_primary_workspace gotra.Auth.Repository.is_password_of
    gotra.Auth.Repository.get_user_by_email gotra.Auth.Repository.touch_last_login
    gotra.Auth.Repository.get_password_hash gotra.Auth.Service.accept_password
    gotra.Auth.Service.enter gotra.Auth.Service.login gotra.Auth.Sessions.create_session
    gotra.Auth.Tokens.normalize_email gotra.Auth.Tokens.token_hash gotra.Auth.Tokens.issue_tokens
    gotra.Security.Base64.symbol gotra.Security.Base64.value gotra.Security.Base64.encode
    gotra.Security.Base64.decode gotra.Security.Password.decode_hash
    gotra.Security.Password.verify_decoded gotra.Security.Password.verify_password
    gotra.Security.Token.opaque_token gotra.Security.Token.hex gotra.Security.Token.hash_token
    gotra.Store.Action.statement gotra.Prelude.str_eq gotra.Prelude.lower gotra.Prelude.trim_space
login_runs = refl

refresh_runs :
    refresh demo (codes "abc") client start
    ≡ (ok entry, (refresh demo (codes "abc") client start).1)
unfolding gotra.Auth.Provision.get_primary_workspace gotra.Auth.Repository.get_user_by_id
    gotra.Auth.Service.enter gotra.Auth.Service.refresh gotra.Auth.Sessions.is_active
    gotra.Auth.Sessions.create_session gotra.Auth.Sessions.get_active_session_by_hash
    gotra.Auth.Sessions.revoke_session_by_hash gotra.Auth.Tokens.replace_not_found
    gotra.Auth.Tokens.token_hash gotra.Auth.Tokens.issue_tokens gotra.Security.Base64.symbol
    gotra.Security.Base64.encode gotra.Security.Token.opaque_token gotra.Security.Token.hex
    gotra.Security.Token.hash_token gotra.Store.Action.statement gotra.Prelude.str_eq
refresh_runs = refl

abbrev after_refresh : World
after_refresh = (refresh demo (codes "abc") client start).1

abbrev after_logout : World
after_logout = (logout demo (codes "abc") start).1

logout_runs : logout demo (codes "abc") start ≡ (ok tt, after_logout)
unfolding gotra.Auth.Service.logout gotra.Auth.Sessions.revoke_session_by_hash
    gotra.Store.Action.statement
logout_runs = refl

refresh_sound_example :
    (s : Session) × (user : User) × (v : World) × (find
        (is_active (token_hash demo (codes "abc")) 1000)
        start.committed.sessions
      ≡ some s)
    × (find (λ (u : User). u.id == s.user_id) start.committed.users ≡ some user)
    × (v.committed ≡ record start.committed {
      sessions = revoked (token_hash demo (codes "abc")) 1000 start.committed.sessions;
    })
    × Entered demo user client v after_refresh entry
refresh_sound_example =
    refresh_sound demo (codes "abc") client start {r = entry} {w' = after_refresh} refresh_runs

refresh_twice_example :
    refresh demo (codes "abc") client after_refresh
    ≡ (err (GoError.sentinel Sentinel.invalid_refresh), spent after_refresh)
refresh_twice_example =
    refresh_twice demo (codes "abc") client client start {r = entry} {w' = after_refresh}
      after_refresh refresh_runs refl refl

refresh-logout_example :
    refresh demo (codes "abc") client after_logout
    ≡ (err (GoError.sentinel Sentinel.invalid_refresh), spent after_logout)
refresh-logout_example =
    refresh-logout demo b'a' (codes "bc") client start {w' = after_logout} {x = tt} after_logout
      logout_runs refl refl

login_sound_example :
    (user : User) × (p : ProviderRow) × (v : World) × (by_email
        (normalize_email (codes " Ada@gotra.dev"))
        start.committed.users
      ≡ some user)
    × (find (is_password_of user.id) start.committed.providers ≡ some p)
    × (verify_password demo.id_key (codes "password") (coalesce p.password_hash) ≡ ok true)
    × (v.committed ≡ record start.committed { users = v.committed.users })
    × (v.now ≡ 1000)
    × Entered demo user client v
        (login demo (codes " Ada@gotra.dev") (codes "password") client start).1
        entry
login_sound_example =
    login_sound demo (codes " Ada@gotra.dev") (codes "password") client start {r = entry}
      {w' = (login demo (codes " Ada@gotra.dev") (codes "password") client start).1} login_runs

register-fails_example :
    register demo (codes "bob@gotra.dev") (codes "Bob") (codes "password") client start
    ≡ (err unknown_email, spent start)
unfolding gotra.Auth.Tokens.normalize_email gotra.Prelude.str_eq gotra.Prelude.lower
    gotra.Prelude.trim_space
register-fails_example =
    register-fails demo (codes "bob@gotra.dev") (codes "Bob") (codes "password") client start

reset_password-fails_example :
    ((x : Unit {0}) → (reset_password demo (codes "abc") (codes "password") start).0 ≢ ok x)
    × ((reset_password demo (codes "abc") (codes "password") start).1.committed ≡ start.committed)
reset_password-fails_example = reset_password-fails demo (codes "abc") (codes "password") start

request_password_reset-distinguishes_example :
    ((request_password_reset demo (codes "ada@gotra.dev") start).0
      ≡ err (elim (by_email (normalize_email (codes "ada@gotra.dev")) start.committed.users) [
        | none ↦ unknown_email
        | some u ↦ nil_pointer
      ]))
    × (code_of unknown_email ≡ ok Code.invalid_input)
    × (code_of nil_pointer ≡ panic)
request_password_reset-distinguishes_example =
    request_password_reset-distinguishes demo (λ n. refl) (codes "ada@gotra.dev") start (sevens 32)
      refl

authenticate_oauth-panics_example :
    authenticate_oauth demo Provider.github
      (record { provider_user_id = codes "42"; email = codes "ada@gotra.dev"; name = codes "Ada" })
      client
      start
    ≡ (panic, spent start)
unfolding gotra.Auth.Repository.user_of_provider gotra.Auth.Repository.is_identity
    gotra.Auth.Repository.provider_text gotra.Prelude.str_eq
authenticate_oauth-panics_example =
    authenticate_oauth-panics demo (λ n. refl) Provider.github
      (record { provider_user_id = codes "42"; email = codes "ada@gotra.dev"; name = codes "Ada" })
      client start ada refl
