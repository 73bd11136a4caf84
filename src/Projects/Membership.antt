-- ===== src/Projects/Membership.antt =====
-- A new project has its owner, or nothing is stored; and who may delete a project.
use gotra.Prelude.{ℕ, ◌≡◌, Str, true, ◌||◌, some, [], ◌∷◌, ◌++◌, codes, str_eq, arith}
use gotra.Errors.{GoError, ok, err}
use gotra.Store.{Member}
use gotra.Store.Action.{Env, World, statement, row_or, begin, commit}
use gotra.Auth.Provision.{insert_project, insert_member}
use gotra.Tunnels.{member_of}
use gotra.Projects.{
  create_owned, delete, delete_by_id, delete_project, without_project, member_role, may_delete,
}

module _ (env : Env) where
  -- Where the repository's Create returns a project, the one change to the tables is that project
  -- and the membership of its creator as the owner.
  pub create_owned_sound :
      (owner_id workspace_id : ℕ) (name slug : Str) (w : World) {id : ℕ} {w' : World}
      → create_owned env owner_id workspace_id name slug w ≡ (ok id, w')
      → w'.committed ≡ record w.committed {
        projects =
            w.committed.projects
            ++ record {
              id = id;
              workspace_id = workspace_id;
              owner_id = owner_id;
              name = name;
              slug = slug;
            }
              ∷ [];
        members =
            w.committed.members
            ++ record { project_id = id; user_id = owner_id; role = codes "owner" } ∷ [];
      }
  unfolding create_owned insert_project insert_member statement row_or begin commit
  create_owned_sound owner_id workspace_id name slug w h = ground arith

  -- Where the repository's Create returns an error, no table has changed.
  pub create_owned_rollback :
      (owner_id workspace_id : ℕ) (name slug : Str) (w : World) {e : GoError} {w' : World}
      → create_owned env owner_id workspace_id name slug w ≡ (err e, w')
      → w'.committed ≡ w.committed
  unfolding create_owned insert_project insert_member statement row_or begin commit
  create_owned_rollback owner_id workspace_id name slug w h = ground arith

  -- Where Delete returns nil, the user is a member of the project as owner or admin, and the one
  -- change to the tables is that the project is gone, with every row that refers to it.
  pub delete_project_sound :
      (user_id project_id : ℕ) (w : World) {x : Unit {0}} {w' : World}
      → delete env user_id project_id w ≡ (ok x, w')
      → ((m : Member) × (member_of user_id project_id w.committed ≡ some m)
          × ((str_eq m.role (codes "owner") || str_eq m.role (codes "admin")) ≡ true))
        × (w'.committed ≡ without_project project_id w.committed)
  unfolding delete member_role may_delete delete_by_id delete_project statement row_or
  delete_project_sound user_id project_id w h = ground arith
