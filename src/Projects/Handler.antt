-- ===== src/Projects/Handler.antt =====
-- services/internal/projects/handler.go, with ListForUser of repository.go and List and Get of
-- service.go. `parse_uuid` is uuid.Parse; the name is that of the body, or empty.
use gotra.Prelude.{
  ℕ, ◌≡◌, Str, String, true, ◌||◌, Option, none, some, List, [], ◌∷◌, codes, str_eq,
}
use gotra.Errors.{GoError, Sentinel, Outcome, ok}
use gotra.Store.{Db, Project, Member}
use gotra.Store.Action.{Env, World, M, pool, row, statement, row_or, ◌>>=◌}
use gotra.Web.{
  Claims, Answer, success, refusal, literal, error_text, current_user_id, when_is, conclude,
  with_id,
}
use gotra.Web.Laws.{
  Refuses, conclude_success, with_id_success, when_is-NoSuccess, refusal-NoSuccess,
}
use gotra.Tunnels.{member_of}
use gotra.Projects.{get_for_user, create, delete, with_role, without_project}
use gotra.Projects.Membership.{delete_project_sound}

-- writeError
unfoldable pub write_error : {A : Type 0} → GoError → Outcome (Answer A)
write_error e = when_is e Sentinel.projects_not_found (refusal 404 (literal "not found")) (
    when_is e Sentinel.projects_forbidden (refusal 403 (error_text e))
      (ok (refusal 500 (literal "internal error"))))

abbrev cons_some : {A : Type 0} → Option A → List A → List A
cons_some none xs = xs
cons_some (some x) xs = x ∷ xs

-- The projects of a user with the roles, newest first.
unfoldable pub projects_of : ℕ → Db → List Project → List (Project × Str) → List (Project × Str)
projects_of user_id d [] acc = acc
projects_of user_id d (p ∷ ps) acc =
    projects_of user_id d ps (cons_some (with_role p (member_of user_id p.id d)) acc)

module _ (env : Env) (parse_uuid : Str → Option ℕ) where
  -- ListForUser
  unfoldable pub list_for_user : ℕ → M (List (Project × Str))
  unfolding projects_of row_or
  list_for_user user_id = do
    r ← statement env pool (λ id now d. row (projects_of user_id d d.projects [], d))
    row_or GoError.nil r

  -- list
  unfoldable pub list_projects : Option Claims → M (Answer (List (Project × Str)))
  unfolding list_for_user
  list_projects claims = conclude write_error (success 200) (list_for_user (current_user_id claims))

  -- create
  unfoldable pub create_project_at : Option Claims → Str → M (Answer ℕ)
  create_project_at claims name =
      conclude write_error (success 201) (create env (current_user_id claims) name)

  -- get
  unfoldable pub get_project : Option Claims → Str → M (Answer (Project × Str))
  get_project claims id =
      with_id "invalid project id" (parse_uuid id)
        (λ id. conclude write_error (success 200) (get_for_user env (current_user_id claims) id))

  -- delete
  unfoldable pub delete_project_at : Option Claims → Str → M (Answer String)
  delete_project_at claims id = with_id "invalid project id" (parse_uuid id) (λ id.
      conclude write_error (λ _. success 200 "deleted") (delete env (current_user_id claims) id))

write_error-Refuses : {A : Type 0} → Refuses {B = A} write_error
unfolding write_error
write_error-Refuses e =
    when_is-NoSuccess e _ _ _ _ (when_is-NoSuccess e _ _ _ _ (refusal-NoSuccess _ _))

module _ (env : Env) (parse_uuid : Str → Option ℕ) where
  -- Where DELETE of a project answers with a success, the user of the request is a member of the
  -- project that it names, as owner or admin, and the one change to the tables is that the project
  -- is gone, with every row that refers to it.
  pub delete_project_at_sound :
      (claims : Option Claims) (text : Str) (w : World) {status : ℕ} {body : String} {w' : World}
      → delete_project_at env parse_uuid claims text w ≡ (ok (success status body), w')
      → (id : ℕ) × (parse_uuid text ≡ some id)
        × ((m : Member) × (member_of (current_user_id claims) id w.committed ≡ some m)
            × ((str_eq m.role (codes "owner") || str_eq m.role (codes "admin")) ≡ true))
        × (w'.committed ≡ without_project id w.committed)
  unfolding delete_project_at
  delete_project_at_sound claims text w h =
      let (id, named, k) = with_id_success "invalid project id" (parse_uuid text) _ w h in
      let (x, runs, _) =
        conclude_success write_error _ (delete env (current_user_id claims) id) w
          write_error-Refuses k in
      let (access, change) = delete_project_sound env (current_user_id claims) id w runs in
      (id, named, access, change)
