-- ===== src/Billing/Quota.antt =====
-- The quota on open tunnels, and the plan that an upsert leaves.
use gotra.Prelude.{
  ℕ, suc, ◌≡◌, Str, Bool, true, false, Option, none, some, List, [], ◌∷◌, ◌++◌, ◌==◌, ==_iff,
  if◌then◌else◌, codes, find, any, update_where, arith, ltb, str_eq, refl, ◌&&◌, ◌||◌, length,
  select, Bool-cases, inl, inr,
}
use gotra.Errors.{GoError, Sentinel, ok, err}
use gotra.Store.{Db, Project, Tunnel}
use gotra.Store as Tables
use gotra.Store.Action.{Env, World, statement, row_or}
use gotra.Store.Action.Laws.{spent}
use gotra.Billing.{
  Subscription, subscription_for, open_tunnels, is_open_tunnel, plan_for, lookup_plan, plans,
  free_plan, within_limit, upsert_plan, primary_subscription, active_tunnels_for_user,
  check_tunnel_quota,
}

-- Where CheckTunnelQuota returns nil, the user has a primary workspace whose open tunnels are
-- fewer than its plan allows, and no table has changed.
pub check_tunnel_quota_sound :
    (env : Env) (user_id : ℕ) (w : World) {x : Unit {0}} {w' : World}
    → check_tunnel_quota env user_id w ≡ (ok x, w')
    → (sub : Subscription) × (subscription_for user_id w.committed ≡ some sub)
      × (within_limit (open_tunnels sub.workspace_id w.committed) (plan_for sub.plan).max_tunnels
          ≡ true)
      × (w'.committed ≡ w.committed)
unfolding check_tunnel_quota active_tunnels_for_user primary_subscription statement row_or
check_tunnel_quota_sound env user_id w h = ground arith

-- The number of open tunnels that a plan sells.
abbrev pub sold_tunnels : Str → ℕ
sold_tunnels plan =
    if str_eq (codes "free") plan
    then 2
    else if str_eq (codes "pro") plan
    then 10
    else if str_eq (codes "team") plan
    then 50
    else 2

-- The number of tunnels of the workspace's projects that are created or active.
abbrev pub tunnels_in_use : ℕ → Db → ℕ
tunnels_in_use workspace_id d = length (
    select
      (λ (t : Tunnel).
        any (λ (p : Project). p.id == t.project_id && p.workspace_id == workspace_id) d.projects
        && (str_eq t.status (codes "created") || str_eq t.status (codes "active")))
      d.tunnels)

open_tunnels-tunnels_in_use :
    (workspace_id : ℕ) (d : Db) → open_tunnels workspace_id d ≡ tunnels_in_use workspace_id d
unfolding open_tunnels is_open_tunnel
open_tunnels-tunnels_in_use workspace_id d = refl

within_limit-plan_for :
    (n : ℕ) (plan : Str) → within_limit n (plan_for plan).max_tunnels ≡ ltb n (sold_tunnels plan)
unfolding within_limit plan_for lookup_plan plans free_plan
within_limit-plan_for n plan = ground arith

-- Where every statement runs, CheckTunnelQuota for a user with a primary workspace returns nil
-- exactly if the workspace has fewer tunnels that are created or active than 50 on the plan "team", 10 on "pro", and 2 on
-- "free" and on every other text; otherwise it returns ErrQuotaExceeded. No table changes.
pub check_tunnel_quota_lem :
    (env : Env)
    → ((n : ℕ) → env.fault n ≡ none)
    → (user_id : ℕ) (w : World) (sub : Subscription)
    → subscription_for user_id w.committed ≡ some sub
    → check_tunnel_quota env user_id w ≡ (
      if ltb (tunnels_in_use sub.workspace_id w.committed) (sold_tunnels sub.plan)
          then ok tt
          else err (GoError.sentinel Sentinel.quota_exceeded),
      spent (spent w),
    )
unfolding check_tunnel_quota active_tunnels_for_user primary_subscription statement row_or
check_tunnel_quota_lem env fine user_id w sub h = ground (
  arith,
  fine w.statements,
  fine (suc w.statements),
  within_limit-plan_for (tunnels_in_use sub.workspace_id w.committed) sub.plan,
  open_tunnels-tunnels_in_use sub.workspace_id w.committed,
)

abbrev of_workspace : ℕ → Tables.Subscription → Bool
of_workspace id s = s.workspace_id == id

abbrev pub plan_of : Option Tables.Subscription → Option Str
plan_of none = none
plan_of (some s) = some s.plan

find-update :
    (id id' : ℕ) (plan : Str) (ss : List Tables.Subscription)
    → plan_of (
        find (of_workspace id') (
          update_where
            (of_workspace id)
            (λ s. record s { plan = plan; status = codes "active" })
            ss))
      ≡ (if id' == id
          then (if any (of_workspace id) ss then some plan else none)
          else plan_of (find (of_workspace id') ss))
find-update id id' plan [] = ground arith
find-update id id' plan (s ∷ ss) = ground (
  arith,
  find-update id id' plan ss,
  ==_iff id' id,
  ==_iff s.workspace_id id,
  ==_iff s.workspace_id id',
)

find-extended :
    (id id' : ℕ) (plan : Str) (ss : List Tables.Subscription)
    → any (of_workspace id) ss ≡ false
    → plan_of (
        find
          (of_workspace id')
          (ss ++ record { workspace_id = id; plan = plan; status = codes "active" } ∷ []))
      ≡ (if id' == id then some plan else plan_of (find (of_workspace id') ss))
find-extended id id' plan [] h = ground (arith, ==_iff id' id, ==_iff id id')
find-extended id id' plan (s ∷ ss) h = ground (
  arith,
  find-extended id id' plan ss,
  ==_iff id' id,
  ==_iff s.workspace_id id,
  ==_iff s.workspace_id id',
)

-- The upsert of SetPlan gives the workspace the plan, whether it had a subscription or not, and
-- leaves the plans of the other workspaces as they were.
pub plan_of-upsert_plan :
    (id id' : ℕ) (plan : Str) (ss : List Tables.Subscription)
    → plan_of (find (λ (s : Tables.Subscription). s.workspace_id == id') (upsert_plan id plan ss))
      ≡ (if id' == id
          then some plan
          else plan_of (find (λ (s : Tables.Subscription). s.workspace_id == id') ss))
unfolding upsert_plan
plan_of-upsert_plan id id' plan ss = elim (Bool-cases (any (of_workspace id) ss)) [
  | inl e ↦ ground (arith, e, find-update id id' plan ss)
  | inr e ↦ ground (arith, e, find-extended id id' plan ss e)
]
