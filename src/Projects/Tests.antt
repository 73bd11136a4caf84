-- ===== src/Projects/Tests.antt =====
-- Projects at a concrete world.
use gotra.Prelude.{
  ℕ, ◌≡◌, refl, Str, Bool, true, ◌||◌, Option, none, some, List, [], ◌∷◌, ◌++◌, ◌==◌, codes, str_eq,
  select,
}
use gotra.Errors.{ok}
use gotra.Store.{Project, Member, ApiKey, Tunnel}
use gotra.Store.Action.{World, unique_violation}
use gotra.Tunnels.{member_of}
use gotra.Tunnels.Tests.{quiet, busy}
use gotra.Projects.{without_project}
use gotra.Projects.Handler.{delete_project_at, delete_project_at_sound}
use gotra.Web.{Claims, success, current_user_id}

abbrev owner_claims : Claims
owner_claims = record { user_id = 1; workspace_id = 5; roles = [] }

-- An identifier is written as one byte.
abbrev parse_id : Str → Option ℕ
parse_id [] = none
parse_id (c ∷ s) = some c

abbrev removed : World
removed = (delete_project_at quiet parse_id (some owner_claims) (6 ∷ []) busy).1

delete_project_runs :
    delete_project_at quiet parse_id (some owner_claims) (6 ∷ []) busy
    ≡ (ok (success 200 "deleted"), removed)
unfolding delete_project_at gotra.Web.current_user_id gotra.Projects.delete
    gotra.Projects.member_role gotra.Projects.may_delete gotra.Projects.delete_by_id
    gotra.Projects.delete_project member_of gotra.Store.Action.statement gotra.Store.Action.row_or
    gotra.Prelude.str_eq
delete_project_runs = refl

delete_project_at_sound_example :
    (id : ℕ) × (parse_id (6 ∷ []) ≡ some id)
    × ((m : Member) × (member_of (current_user_id (some owner_claims)) id busy.committed ≡ some m)
        × ((str_eq m.role (codes "owner") || str_eq m.role (codes "admin")) ≡ true))
    × (removed.committed ≡ without_project id busy.committed)
delete_project_at_sound_example =
    delete_project_at_sound quiet parse_id (some owner_claims) (6 ∷ []) busy {status = 200}
      {body = "deleted"} {w' = removed} delete_project_runs
