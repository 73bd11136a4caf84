-- ===== src/Auth/Provision.antt =====
-- services/internal/auth/repository.go: workspaces, projects, members and API keys, as the first
-- login provisions them.
use gotra.Prelude.{
  ℕ, Str, Bool, ◌&&◌, Option, none, some, List, [], ◌∷◌, ◌++◌, ◌==◌, if◌then◌else◌, codes, str_eq,
  find, any,
}
use gotra.Errors.{Code, GoError, new_error, wrap}
use gotra.Store.{User, Workspace, Project, Member, ApiKey, Db}
use gotra.Store.Action.{
  Env, M, pure, ◌>>=◌, Querier, pool, Row, row, broken, statement, found, unique_violation,
  referring,
}
use gotra.Auth.Repository.{scanned, checked_error}

-- PrimaryWorkspace
pub record PrimaryWorkspace : Type 0 where
  pub workspace_id : ℕ
  pub role : Str

unfoldable pub insert_workspace : Workspace → Db → Row (ℕ × Db)
insert_workspace x d =
    if any (λ (y : Workspace). str_eq y.slug x.slug) d.workspaces
    then broken unique_violation
    else referring (any (λ (u : User). u.id == x.owner_id) d.users)
        (row (x.id, record d { workspaces = d.workspaces ++ x ∷ [] }))

unfoldable pub insert_project : Project → Db → Row (ℕ × Db)
insert_project x d =
    if any (λ (y : Project). str_eq y.slug x.slug) d.projects
    then broken unique_violation
    else referring
        (any (λ (y : Workspace). y.id == x.workspace_id) d.workspaces
          && any (λ (u : User). u.id == x.owner_id) d.users)
        (row (x.id, record d { projects = d.projects ++ x ∷ [] }))

unfoldable pub insert_member : Member → Db → Row (Unit {0} × Db)
insert_member x d =
    if any (λ (y : Member). y.project_id == x.project_id && y.user_id == x.user_id) d.members
    then broken unique_violation
    else referring
        (any (λ (p : Project). p.id == x.project_id) d.projects
          && any (λ (u : User). u.id == x.user_id) d.users)
        (row (tt, record d { members = d.members ++ x ∷ [] }))

unfoldable pub insert_api_key : ApiKey → Db → Row (Unit {0} × Db)
insert_api_key x d =
    if any (λ (y : ApiKey). str_eq y.key_hash x.key_hash) d.api_keys
    then broken unique_violation
    else referring (any (λ (p : Project). p.id == x.project_id) d.projects)
        (row (tt, record d { api_keys = d.api_keys ++ x ∷ [] }))

abbrev or_first : Option Workspace → Option Workspace → Option Workspace
or_first none y = y
or_first (some x) y = some x

-- WHERE owner_id = $1 ORDER BY is_personal DESC, created_at ASC LIMIT 1
unfoldable pub primary_of : ℕ → List Workspace → Option Workspace
primary_of user_id ws =
    or_first (find (λ (x : Workspace). x.owner_id == user_id && x.is_personal) ws)
      (find (λ (x : Workspace). x.owner_id == user_id) ws)

module _ (env : Env) where
  -- CreateWorkspace
  unfoldable pub create_workspace : Querier → ℕ → Str → Str → Bool → M ℕ
  unfolding insert_workspace scanned
  create_workspace q owner_id name slug personal = do
    r ← statement env q (λ id now d.
        insert_workspace
          (record {
            id = id;
            owner_id = owner_id;
            name = name;
            slug = slug;
            is_personal = personal;
          })
          d)
    scanned
        (wrap (GoError.library 0) Code.internal "Auth Repository: Create Workspace"
          "unable to create workspace")
        "Auth Repository: Create Workspace" "unable to create workspace" r

  -- CreateProject
  unfoldable pub create_project : Querier → ℕ → ℕ → Str → Str → M ℕ
  unfolding insert_project scanned
  create_project q workspace_id owner_id name slug = do
    r ← statement env q (λ id now d.
        insert_project
          (record {
            id = id;
            workspace_id = workspace_id;
            owner_id = owner_id;
            name = name;
            slug = slug;
          })
          d)
    scanned
        (wrap (GoError.library 0) Code.internal "Auth Repository: Create Project"
          "unable to create project")
        "Auth Repository: Create Project" "unable to create project" r

  -- CreateProjectMember
  unfoldable pub create_project_member : Querier → ℕ → ℕ → Str → M (Unit {0})
  unfolding insert_member checked_error
  create_project_member q project_id user_id role = do
    r ← statement env q (λ id now d.
        insert_member (record { project_id = project_id; user_id = user_id; role = role }) d)
    checked_error "Auth Repository: Create Project Member" "unable to create project member" r

  -- CreateAPIKey
  unfoldable pub create_api_key : Querier → ℕ → Str → Str → M (Unit {0})
  unfolding insert_api_key checked_error
  create_api_key q project_id name hash = do
    r ← statement env q (λ id now d.
        insert_api_key (record { project_id = project_id; name = name; key_hash = hash }) d)
    checked_error "Auth Repository: Create API Key" "unable to create API key" r

  -- GetPrimaryWorkspace: the owner of the workspace is the user that was asked for.
  unfoldable pub get_primary_workspace : ℕ → M PrimaryWorkspace
  unfolding primary_of scanned
  get_primary_workspace user_id = do
    r ← statement env pool (λ id now d. found d (primary_of user_id d.workspaces))
    x ←
        scanned
          (new_error Code.not_found "Auth Repository: Get Primary Workspace" "auth: not found")
          "Auth Repository: Get Primary Workspace" "unable to retrieve primary workspace" r
    pure (record {
      workspace_id = x.id;
      role = if x.owner_id == user_id then codes "owner" else codes "developer";
    })
