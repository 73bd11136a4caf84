-- ===== src/Gateway/Handshake.antt =====
-- services/internal/gateway/server.go: register, which opens a tunnel for an agent, and the end of
-- readLoop, which closes it. ParseAccessToken and uuid.Parse are arguments; whether the agent can
-- be written to is a Boolean, and so is whether Redis answers.
pub mod Authorized
mod Tests
use gotra.Prelude.{
  ℕ, ℤ, Str, String, Bool, true, false, Option, none, some, List, [], ◌∷◌, ◌++◌, if◌then◌else◌,
  codes, str_eq, take,
}
use gotra.Errors.{GoError, Outcome, ok, err, panic}
use gotra.Security.Token.{label}
use gotra.Store.{Tunnel}
use gotra.Store.Action.{
  Env, World, M, pure, raise, lift, ◌>>=◌, ◌>>◌, Attempt, got, failed, attempt, ignore,
  random_bytes,
}
use gotra.Auth.Tokens.{generate_opaque_token}
use gotra.Tunnels.{project_role, create_tunnel, set_status, valid_port, role_viewer}
use gotra.Gateway.Host.{public_url}
use gotra.Gateway.Registry.{Cluster, add, remove}

-- The first message of an agent, as ReadJSON and Decode give it.
pub data Hello : Type 0 where
  unreadable : GoError → Hello
  other_type : Str → Hello
  malformed : GoError → Hello
  register_tunnel : Str → Str → ℤ → Hello

-- fmt.Errorf
abbrev refuse : {A : Type 0} → Str → M A
refuse message = raise (GoError.text message)

unfoldable pub member_role : Attempt Str → M Str
member_role (got role) = pure role
member_role (failed e) = refuse (codes "not a member of project")

unfoldable pub may_open : Str → M (Unit {0})
may_open role =
    if str_eq role role_viewer then refuse (codes "viewers may not open tunnels") else pure tt

unfoldable pub some_or_refuse : {A : Type 0} → Str → Option A → M A
some_or_refuse message none = refuse message
some_or_refuse message (some a) = pure a

unfoldable pub created_or_wrapped : Attempt Tunnel → M Tunnel
created_or_wrapped (got t) = pure t
created_or_wrapped (failed e) = raise (GoError.wrapped "create tunnel" e)

module _ (env : Env) where
  unfoldable pub minted_subdomain : Attempt Str → M Str
  minted_subdomain (got token) = pure (label token)
  minted_subdomain (failed e) = do r ← random_bytes env 16; uuid_or_panic r
    where
      uuid_or_panic : Option (List ℕ) → M Str
      uuid_or_panic none = lift panic
      uuid_or_panic (some bs) = pure (take 12 (env.new_uuid bs))

  -- newSubdomain
  unfoldable pub new_subdomain : M Str
  unfolding minted_subdomain
  new_subdomain = do drawn ← attempt (generate_opaque_token env 6); minted_subdomain drawn

  module _ (parse_token parse_uuid : Str → Option ℕ) (base : Str) where
    -- register from newSubdomain to SetStatus.
    unfoldable pub create_active : ℕ → ℕ → M (Tunnel × Str)
    unfolding created_or_wrapped
    create_active project_id port = do
      sub ← new_subdomain
      made ← attempt (create_tunnel env project_id (public_url base sub) port)
      tunnel ← created_or_wrapped made
      ignore (set_status env tunnel.id (codes "active"))
      pure (tunnel, sub)

    -- register from ParseAccessToken to SetStatus: the new tunnel and its subdomain.
    unfoldable pub open_tunnel : Str → Str → ℤ → M (Tunnel × Str)
    unfolding member_role may_open some_or_refuse create_active
    open_tunnel token project local_port = do
      user_id ← some_or_refuse (codes "invalid token") (parse_token token)
      project_id ← some_or_refuse (codes "invalid project_id") (parse_uuid project)
      found ← attempt (project_role env user_id project_id)
      role ← member_role found
      may_open role
      port ← some_or_refuse (codes "invalid local port") (valid_port local_port)
      create_active project_id port

    -- The tests on the first message.
    unfoldable pub greet : Hello → M (Tunnel × Str)
    unfolding open_tunnel
    greet (unreadable e) = raise (GoError.wrapped "read register" e)
    greet (other_type t) = refuse (codes "expected REGISTER_TUNNEL, got " ++ t)
    greet (malformed e) = raise (GoError.wrapped "decode register" e)
    greet (register_tunnel token project port) = open_tunnel token project port

    -- The connection `conn` is added, and removed again where the reply cannot be written.
    unfoldable pub announce :
        Bool → Bool → ℕ → ℕ → Cluster → Outcome (Tunnel × Str) → Outcome (Tunnel × Str) × Cluster
    announce works writes i conn s (ok (t, sub)) =
        if writes
        then (ok (t, sub), add works i sub conn s)
        else (err (GoError.library 5), remove works i sub conn (add works i sub conn s))
    announce works writes i conn s (err e) = (err e, s)
    announce works writes i conn s panic = (panic, s)

    -- register, at the instance `i`
    unfoldable pub handshake :
        Bool → Bool → ℕ → ℕ → Hello → World → Cluster → Outcome (Tunnel × Str) × World × Cluster
    unfolding greet announce
    handshake works writes i conn hello w s =
        let (r, w') = greet hello w in
        let (r', s') = announce works writes i conn s r in (r', w', s')

  -- The deferred end of readLoop, without the closing of the connection.
  unfoldable pub disconnect : Bool → ℕ → ℕ → Tunnel × Str → World → Cluster → World × Cluster
  disconnect works i conn (t, sub) w s =
      ((ignore (set_status env t.id (codes "disconnected")) w).1, remove works i sub conn s)
