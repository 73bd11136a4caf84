-- ===== src/Projects.antt =====
-- services/internal/projects: service.go and repository.go. A project stands with the role of the
-- user who asks. Deleting a project deletes the rows that refer to it, as the foreign keys say.
pub mod Membership
pub mod Handler
mod Tests
use gotra.Prelude.{
  ℕ, Str, Bool, true, false, ◌&&◌, ◌||◌, not, Option, none, some, List, [], ◌∷◌, ◌++◌, ◌==◌, leb,
  if◌then◌else◌, codes, str_eq, lower, trim_space, find, any, select, take,
}
use gotra.Errors.{GoError, Sentinel, panic}
use gotra.Security.Token.{label}
use gotra.Store.{
  Db, Project, Member, Workspace, ApiKey, Tunnel, Request, Replay, Analysis, Incident, Usage,
  drop_requests,
}
use gotra.Store.Action.{
  Env, M, pure, raise, lift, ◌>>=◌, ◌>>◌, Attempt, got, failed, attempt, pool, tx, Row, row, broken,
  statement, found, row_or, begin, commit, random_bytes,
}
use gotra.Auth.Provision.{primary_of, insert_project, insert_member}
use gotra.Auth.Tokens.{generate_opaque_token}
use gotra.Tunnels.{member_of}

-- strings.Trim(s, "-")
unfoldable pub trim_dashes_left : Str → Str
trim_dashes_left [] = []
trim_dashes_left (c ∷ s) = let rest = trim_dashes_left s in if c == b'-' then rest else c ∷ s

unfoldable pub cons_undashed : ℕ → Str → Str
cons_undashed c [] = if c == b'-' then [] else c ∷ []
cons_undashed c (d ∷ s) = c ∷ d ∷ s

unfoldable pub trim_dashes_right : Str → Str
unfolding cons_undashed
trim_dashes_right [] = []
trim_dashes_right (c ∷ s) = cons_undashed c (trim_dashes_right s)

-- The loop of genSlug over the name.
unfoldable pub slug_text : Str → Str
slug_text [] = []
slug_text (c ∷ s) =
    let rest = slug_text s in
    if leb b'a' c && leb c b'z' || leb b'0' c && leb c b'9'
    then c ∷ rest
    else if c == b' ' || (c == b'-' || c == b'_')
    then b'-' ∷ rest
    else rest

unfoldable pub slug_or_default : Str → Str
slug_or_default [] = codes "project"
slug_or_default (c ∷ s) = c ∷ s

-- The slug of a name without its suffix.
unfoldable pub slug_base : Str → Str
unfolding slug_or_default trim_dashes_right trim_dashes_left slug_text
slug_base name =
    slug_or_default (trim_dashes_right (trim_dashes_left (slug_text (lower (trim_space name)))))

unfoldable pub name_or_default : Str → Str
name_or_default [] = codes "Untitled Project"
name_or_default (c ∷ name) = c ∷ name

abbrev role_of : Option Member → Option Str
role_of none = none
role_of (some m) = some m.role

abbrev id_of : Option Workspace → Option ℕ
id_of none = none
id_of (some x) = some x.id

abbrev with_role : Project → Option Member → Option (Project × Str)
with_role p none = none
with_role p (some m) = some (p, m.role)

-- The error that a project that is not there has.
abbrev missing_project : GoError
missing_project = GoError.sentinel Sentinel.projects_not_found

-- The tables without a project, its requests and the other rows that refer to it.
unfoldable pub without_project : ℕ → Db → Db
without_project id d =
    drop_requests
      (λ (r : Request).
        r.project_id == id
        || any (λ (t : Tunnel). t.id == r.tunnel_id && t.project_id == id) d.tunnels)
      (record d {
        projects = select (λ (p : Project). not (p.id == id)) d.projects;
        members = select (λ (m : Member). not (m.project_id == id)) d.members;
        api_keys = select (λ (k : ApiKey). not (k.project_id == id)) d.api_keys;
        tunnels = select (λ (t : Tunnel). not (t.project_id == id)) d.tunnels;
        replays = select (λ (x : Replay). not (x.project_id == id)) d.replays;
        analyses = select (λ (a : Analysis). not (a.project_id == id)) d.analyses;
        incidents = select (λ (i : Incident). not (i.project_id == id)) d.incidents;
        usages = select (λ (u : Usage). not (u.project_id == id)) d.usages;
      })

-- DELETE of a project
unfoldable pub delete_project : ℕ → Db → Row (Bool × Db)
unfolding without_project
delete_project id d = row (any (λ (p : Project). p.id == id) d.projects, without_project id d)

module _ (env : Env) where
  -- GetForUser
  unfoldable pub get_for_user : ℕ → ℕ → M (Project × Str)
  unfolding row_or
  get_for_user user_id project_id = do
    r ← statement env pool (λ id now d.
        found d (elim (find (λ (p : Project). p.id == project_id) d.projects) [
          | none ↦ none
          | some p ↦ with_role p (member_of user_id project_id d)
        ]))
    row_or missing_project r

  -- MemberRole
  unfoldable pub member_role : ℕ → ℕ → M Str
  unfolding row_or
  member_role user_id project_id = do
    r ← statement env pool (λ id now d. found d (role_of (member_of user_id project_id d)))
    row_or missing_project r

  -- PrimaryWorkspaceID
  unfoldable pub primary_workspace_id : ℕ → M ℕ
  unfolding row_or primary_of
  primary_workspace_id user_id = do
    r ← statement env pool (λ id now d. found d (id_of (primary_of user_id d.workspaces)))
    row_or missing_project r

  -- Repository.Create: the identifier of the new project.
  unfoldable pub create_owned : ℕ → ℕ → Str → Str → M ℕ
  unfolding insert_project insert_member row_or
  create_owned owner_id workspace_id name slug = do
    begin env
    r ← statement env tx (λ id now d.
        insert_project
          (record {
            id = id;
            workspace_id = workspace_id;
            owner_id = owner_id;
            name = name;
            slug = slug;
          })
          d)
    project_id ← row_or GoError.nil r
    m ← statement env tx (λ id now d.
        insert_member (record { project_id = project_id; user_id = owner_id; role = codes "owner" })
          d)
    row_or GoError.nil m
    commit env
    pure project_id

  -- Repository.Delete
  unfoldable pub delete_by_id : ℕ → M (Unit {0})
  unfolding delete_project row_or
  delete_by_id project_id = do
    r ← statement env pool (λ id now d. delete_project project_id d)
    affected ← row_or GoError.nil r
    if affected then pure tt else raise missing_project

  unfoldable pub suffixed : Str → Attempt Str → M Str
  suffixed slug (got token) = pure (slug ++ b'-' ∷ label token)
  suffixed slug (failed e) = do r ← random_bytes env 16; uuid_or_panic r
    where
      uuid_or_panic : Option (List ℕ) → M Str
      uuid_or_panic none = lift panic
      uuid_or_panic (some bs) = pure (slug ++ b'-' ∷ take 8 (env.new_uuid bs))

  -- genSlug
  unfoldable pub gen_slug : Str → M Str
  unfolding suffixed slug_base
  gen_slug name = do drawn ← attempt (generate_opaque_token env 4); suffixed (slug_base name) drawn

  -- Create
  unfoldable pub create : ℕ → Str → M ℕ
  unfolding name_or_default
  create user_id name = do
    workspace_id ← primary_workspace_id user_id
    slug ← gen_slug (name_or_default (trim_space name))
    create_owned user_id workspace_id (name_or_default (trim_space name)) slug

  -- The test on the role in Delete.
  unfoldable pub may_delete : Str → M (Unit {0})
  may_delete role =
      if str_eq role (codes "owner") || str_eq role (codes "admin")
      then pure tt
      else raise (GoError.sentinel Sentinel.projects_forbidden)

  -- Delete
  unfoldable pub delete : ℕ → ℕ → M (Unit {0})
  unfolding may_delete
  delete user_id project_id = do
    role ← member_role user_id project_id
    may_delete role
    delete_by_id project_id
