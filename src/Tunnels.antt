-- ===== src/Tunnels.antt =====
-- services/internal/tunnels: service.go and repository.go.
pub mod Access
pub mod Handler
pub mod Tests
use gotra.Prelude.{
  ℕ, ℤ, pos, negsuc, Str, Bool, true, false, ◌&&◌, ◌||◌, not, Option, none, some, List, [], ◌∷◌,
  ◌++◌, ◌==◌, ltb, leb, if◌then◌else◌, codes, str_eq, find, any, select, take, update_where,
}
use gotra.Errors.{GoError, Sentinel, Outcome, panic}
use gotra.Security.Token.{label}
use gotra.Store.{Db, Member, Project, Tunnel, Request, drop_requests}
use gotra.Store.Action.{
  Env, M, pure, raise, lift, ◌>>=◌, ◌>>◌, Attempt, got, failed, attempt, pool, Row, row, no_rows,
  broken, statement, found, driver_error, return_error, row_or, unique_violation, referring,
  random_bytes,
}
use gotra.Auth.Tokens.{generate_opaque_token}

-- RoleViewer
abbrev pub role_viewer : Str
role_viewer = codes "viewer"

-- project_id = $1 AND user_id = $2
unfoldable pub member_of : ℕ → ℕ → Db → Option Member
member_of user_id project_id d =
    find (λ (m : Member). m.project_id == project_id && m.user_id == user_id) d.members

abbrev role_of : Option Member → Option Str
role_of none = none
role_of (some m) = some m.role

abbrev with_role : Tunnel → Option Member → Option (Tunnel × Str)
with_role t none = none
with_role t (some m) = some (t, m.role)

-- The join of GetWithAccess: the tunnel, whose identifier is a primary key, with the role.
unfoldable pub accessible : ℕ → ℕ → Db → Option (Tunnel × Str)
unfolding member_of
accessible user_id tunnel_id d = elim (find (λ (t : Tunnel). t.id == tunnel_id) d.tunnels) [
  | none ↦ none
  | some t ↦ with_role t (member_of user_id t.project_id d)
]

-- The port, if it is between 1 and 65535.
unfoldable pub valid_port : ℤ → Option ℕ
valid_port (negsuc n) = none
valid_port (pos n) = if ltb 0 n && leb n 65535 then some n else none

unfoldable pub insert_tunnel : Tunnel → Db → Row (Tunnel × Db)
insert_tunnel t d =
    if any (λ (x : Tunnel). str_eq x.public_url t.public_url) d.tunnels
    then broken unique_violation
    else referring (any (λ (p : Project). p.id == t.project_id) d.projects)
        (row (t, record d { tunnels = d.tunnels ++ t ∷ [] }))

unfoldable pub delete_tunnel : ℕ → Db → Row (Bool × Db)
delete_tunnel tunnel_id d = row (
  any (λ (t : Tunnel). t.id == tunnel_id) d.tunnels,
  drop_requests (λ (r : Request). r.tunnel_id == tunnel_id)
      (record d { tunnels = select (λ (t : Tunnel). not (t.id == tunnel_id)) d.tunnels }),
)

-- The error that a tunnel that is not there has.
abbrev missing_tunnel : GoError
missing_tunnel = GoError.sentinel Sentinel.tunnels_not_found

module _ (env : Env) where
  -- ProjectRole
  unfoldable pub project_role : ℕ → ℕ → M Str
  unfolding member_of row_or
  project_role user_id project_id = do
    r ← statement env pool (λ id now d. found d (role_of (member_of user_id project_id d)))
    row_or missing_tunnel r

  -- ListForProject, newest first
  unfoldable pub list_for_project : ℕ → M (List Tunnel)
  unfolding row_or
  list_for_project project_id = do
    r ← statement env pool (λ id now d.
        row (newest [] (select (λ (t : Tunnel). t.project_id == project_id) d.tunnels), d))
    row_or GoError.nil r
    where
      newest : List Tunnel → List Tunnel → List Tunnel
      newest acc [] = acc
      newest acc (t ∷ ts) = newest (t ∷ acc) ts

  -- Repository.Create
  unfoldable pub create_tunnel : ℕ → Str → ℕ → M Tunnel
  unfolding insert_tunnel row_or
  create_tunnel project_id public_url local_port = do
    r ← statement env pool (λ id now d.
        insert_tunnel
          (record {
            id = id;
            project_id = project_id;
            public_url = public_url;
            local_port = local_port;
            status = codes "created";
          })
          d)
    row_or GoError.nil r

  -- GetWithAccess
  unfoldable pub get_with_access : ℕ → ℕ → M (Tunnel × Str)
  unfolding accessible row_or
  get_with_access user_id tunnel_id = do
    r ← statement env pool (λ id now d. found d (accessible user_id tunnel_id d))
    row_or missing_tunnel r

  -- SetStatus
  unfoldable pub set_status : ℕ → Str → M (Unit {0})
  set_status tunnel_id status = do
    r ← statement env pool (λ id now d. row (
      tt,
      record d {
        tunnels =
            update_where (λ (t : Tunnel). t.id == tunnel_id) (λ t. record t { status = status })
              d.tunnels;
      },
    ))
    return_error (driver_error r)

  -- Repository.Delete
  unfoldable pub delete_by_id : ℕ → M (Unit {0})
  unfolding delete_tunnel row_or
  delete_by_id tunnel_id = do
    r ← statement env pool (λ id now d. delete_tunnel tunnel_id d)
    affected ← row_or GoError.nil r
    if affected then pure tt else raise missing_tunnel

  unfoldable pub minted : Attempt Str → M Str
  minted (got token) = pure (label token)
  minted (failed e) = do r ← random_bytes env 16; uuid_or_panic r
    where
      uuid_or_panic : Option (List ℕ) → M Str
      uuid_or_panic none = lift panic
      uuid_or_panic (some bs) = pure (label (take 12 (env.new_uuid bs)))

  -- genPublicURL
  unfoldable pub gen_public_url : M Str
  unfolding minted
  gen_public_url = do
    drawn ← attempt (generate_opaque_token env 6)
    sub ← minted drawn
    pure (codes "https://" ++ sub ++ codes ".tunnels.gotra.local")

  -- The checks on the quota and the role in Create.
  unfoldable pub check_role : Str → M (Unit {0})
  check_role role =
      if str_eq role role_viewer
      then raise (GoError.sentinel Sentinel.tunnels_forbidden)
      else pure tt

  unfoldable pub check_quota : Option (ℕ → M (Unit {0})) → ℕ → M (Unit {0})
  check_quota none user_id = pure tt
  check_quota (some quota) user_id = quota user_id

  unfoldable pub create_at : Option (ℕ → M (Unit {0})) → ℕ → ℕ → Option ℕ → M Tunnel
  unfolding check_role check_quota
  create_at quota user_id project_id none = raise (GoError.text (codes "invalid local port"))
  create_at quota user_id project_id (some port) = do
    role ← project_role user_id project_id
    check_role role
    check_quota quota user_id
    url ← gen_public_url
    create_tunnel project_id url port

  -- Create
  unfoldable pub create : Option (ℕ → M (Unit {0})) → ℕ → ℕ → ℤ → M Tunnel
  unfolding create_at valid_port
  create quota user_id project_id local_port =
      create_at quota user_id project_id (valid_port local_port)

  -- List
  unfoldable pub list : ℕ → ℕ → M (List Tunnel)
  list user_id project_id = do project_role user_id project_id; list_for_project project_id

  -- Delete
  unfoldable pub delete : ℕ → ℕ → M (Unit {0})
  unfolding check_role
  delete user_id tunnel_id = do
    (_, role) ← get_with_access user_id tunnel_id
    check_role role
    delete_by_id tunnel_id
