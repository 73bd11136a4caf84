-- ===== src/Analytics/Handler.antt =====
-- services/internal/analytics/handler.go: the endpoint of the summary. `parse_uuid` is uuid.Parse,
-- `atoi` strconv.Atoi, and `query` QuerySummary for a project since a time.
use gotra.Prelude.{
  ℕ, ℤ, pos, ◌*◌, ◌-◌, Str, Bool, true, false, ◌&&◌, Option, none, some, leb, if◌then◌else◌, ◌≡◌,
  refl, arith,
}
use gotra.Errors.{GoError, Outcome, ok, err, panic}
use gotra.Store.{Member}
use gotra.Store.Action.{
  Env, World, M, pure, pool, row, statement, row_or, ◌>>=◌, Attempt, got, failed, attempt,
}
use gotra.Store.Action.Laws.{bind_ok}
use gotra.Web.{Claims, Answer, success, refusal, literal, error_text, current_user_id, with_id}
use gotra.Web.Laws.{with_id_success}
use gotra.Tunnels.{member_of}

abbrev exists : Option Member → Bool
exists none = false
exists (some m) = true

-- `err == nil && exists`
unfoldable pub no_error : Attempt Bool → Bool
no_error (got b) = b
no_error (failed e) = false

-- The window in hours, from the query parameter.
unfoldable pub hours_of : Outcome ℤ → ℕ
hours_of (ok (pos n)) = if leb 1 n && leb n 720 then n else 24
hours_of _ = 24

module _ (env : Env) (parse_uuid : Str → Option ℕ) where
  -- isMember
  unfoldable pub is_member : ℕ → ℕ → M Bool
  unfolding member_of row_or no_error
  is_member user_id project_id = do
    r ← attempt (
        statement env pool (λ id now d. row (exists (member_of user_id project_id d), d))
        >>= row_or GoError.nil)
    pure (no_error r)

  abbrev queried : {Summary : Type 0} → Outcome Summary → Outcome (Answer Summary)
  queried (ok s) = ok (success 200 s)
  queried (err e) = ok (refusal 502 (error_text e))
  queried panic = panic

  unfoldable pub summary_for :
      {Summary : Type 0} → (ℕ → ℕ → Outcome Summary) → Outcome ℤ → ℕ → Bool → M (Answer Summary)
  unfolding hours_of
  summary_for query hours project_id false w = (ok (refusal 403 (literal "forbidden")), w)
  summary_for query hours project_id true w =
      (queried (query project_id (w.now - 3600 * hours_of hours)), w)

  -- summary
  unfoldable pub summary :
      {Summary : Type 0}
      → (ℕ → ℕ → Outcome Summary)
      → (Str → Outcome ℤ)
      → Option Claims
      → Str
      → Str
      → M (Answer Summary)
  unfolding is_member summary_for
  summary query atoi claims project_id hours =
      with_id "project_id query parameter is required" (parse_uuid project_id) (λ id. do
        member ← is_member (current_user_id claims) id
        summary_for query (atoi hours) id member)

  is_member-ok :
      (user_id project_id : ℕ) (w : World) {w' : World}
      → is_member user_id project_id w ≡ (ok true, w')
      → (m : Member) × (member_of user_id project_id w.committed ≡ some m)
  unfolding is_member statement row_or no_error
  is_member-ok user_id project_id w h = ground arith

  summary_for_success :
      {Summary : Type 0} (query : ℕ → ℕ → Outcome Summary) (hours : Outcome ℤ) (id : ℕ)
      (member : Bool) (w : World) {status : ℕ} {s : Summary} {w' : World}
      → summary_for query hours id member w ≡ (ok (success status s), w')
      → member ≡ true
  unfolding summary_for
  summary_for_success query hours id true w h = refl
  summary_for_success query hours id false w h = ground arith

  -- The analytics of a project are answered only to its members.
  pub summary_members :
      {Summary : Type 0} (query : ℕ → ℕ → Outcome Summary) (atoi : Str → Outcome ℤ)
      (claims : Option Claims) (text hours : Str) (w : World) {status : ℕ} {s : Summary}
      {w' : World}
      → summary query atoi claims text hours w ≡ (ok (success status s), w')
      → (id : ℕ) × (parse_uuid text ≡ some id)
        × ((m : Member) × (member_of (current_user_id claims) id w.committed ≡ some m))
  unfolding summary
  summary_members query atoi claims text hours w h =
      let (id, named, k) =
        with_id_success "project_id query parameter is required" (parse_uuid text) _ w h in
      let (member, w1, e1, k1) = bind_ok (is_member (current_user_id claims) id) _ w k in
      let is_true = summary_for_success query (atoi hours) id member w1 k1 in
      (id, named, is_member-ok (current_user_id claims) id w (rw is_true at e1))
