-- ===== src/Billing.antt =====
-- services/internal/billing: plans.go, repository.go and the plan changes and quotas of service.go.
pub mod Quota
pub mod Change
pub mod Handler
pub mod Webhook
mod Tests
use gotra.Prelude.{
  ℕ, ℤ, pos, negsuc, Str, Bool, true, false, ◌&&◌, ◌||◌, Option, none, some, List, [], ◌∷◌, ◌++◌,
  ◌==◌, ltb, if◌then◌else◌, codes, str_eq, find, any, select, length, update_where,
}
use gotra.Errors.{GoError, Sentinel, Outcome, ok, err}
use gotra.Store.{Db, Workspace, Project, Tunnel}
use gotra.Store as Tables
use gotra.Store.Action.{
  Env, M, pure, raise, ◌>>=◌, ◌>>◌, pool, Row, row, statement, found, driver_error, return_error,
  row_or, referring,
}
use gotra.Auth.Provision.{primary_of}

-- The type of a subscription tier
pub record Plan : Type 0 where
  pub name : Str
  pub price_usd : ℕ
  pub max_projects : ℤ
  pub max_tunnels : ℤ
  pub max_requests_per_day : ℤ

unfoldable pub free_plan : Plan
free_plan = record {
  name = codes "free";
  price_usd = 0;
  max_projects = pos 3;
  max_tunnels = pos 2;
  max_requests_per_day = pos 10000;
}

-- The catalog of tiers
unfoldable pub plans : List Plan
unfolding free_plan
plans =
    free_plan
    ∷ record {
      name = codes "pro";
      price_usd = 20;
      max_projects = pos 25;
      max_tunnels = pos 10;
      max_requests_per_day = pos 1000000;
    }
    ∷ record {
      name = codes "team";
      price_usd = 99;
      max_projects = pos 200;
      max_tunnels = pos 50;
      max_requests_per_day = negsuc 0;
    }
    ∷ []

-- Plans[name]
unfoldable pub lookup_plan : Str → Option Plan
unfolding plans
lookup_plan name = find (λ (p : Plan). str_eq p.name name) plans

-- PlanFor
unfoldable pub plan_for : Str → Plan
unfolding lookup_plan free_plan
plan_for name = elim (lookup_plan name) [ none ↦ free_plan | some p ↦ p ]

-- withinLimit
unfoldable pub within_limit : ℕ → ℤ → Bool
within_limit current (negsuc n) = true
within_limit current (pos limit) = ltb current limit

-- Subscription
pub record Subscription : Type 0 where
  pub workspace_id : ℕ
  pub plan : Str
  pub status : Str

-- The row of the LEFT JOIN, with the defaults of COALESCE.
unfoldable pub subscription_of : Db → Workspace → Subscription
subscription_of d w =
    elim (find (λ (s : Tables.Subscription). s.workspace_id == w.id) d.subscriptions) [
      | none ↦ record { workspace_id = w.id; plan = codes "free"; status = codes "active" }
      | some s ↦ record { workspace_id = w.id; plan = s.plan; status = s.status }
    ]

abbrev map_option : {A B : Type 0} → (A → B) → Option A → Option B
map_option f none = none
map_option f (some a) = some (f a)

-- The primary workspace of the user with its plan.
unfoldable pub subscription_for : ℕ → Db → Option Subscription
unfolding subscription_of
subscription_for user_id d = map_option (subscription_of d) (primary_of user_id d.workspaces)

-- t.status IN ('created','active')
unfoldable pub is_open_tunnel : Tunnel → Bool
is_open_tunnel t = str_eq t.status (codes "created") || str_eq t.status (codes "active")

-- The open tunnels in the projects of a workspace, whose identifiers are a primary key.
unfoldable pub open_tunnels : ℕ → Db → ℕ
unfolding is_open_tunnel
open_tunnels workspace_id d = length (
    select
      (λ (t : Tunnel).
        any (λ (p : Project). p.id == t.project_id && p.workspace_id == workspace_id) d.projects
        && is_open_tunnel t)
      d.tunnels)

-- The row that ON CONFLICT leaves.
unfoldable pub upsert_plan : ℕ → Str → List Tables.Subscription → List Tables.Subscription
upsert_plan workspace_id plan ss =
    if any (λ (s : Tables.Subscription). s.workspace_id == workspace_id) ss
    then update_where (λ (s : Tables.Subscription). s.workspace_id == workspace_id)
        (λ s. record s { plan = plan; status = codes "active" }) ss
    else ss ++ record { workspace_id = workspace_id; plan = plan; status = codes "active" } ∷ []

module _ (env : Env) where
  -- PrimarySubscription
  unfoldable pub primary_subscription : ℕ → M Subscription
  unfolding subscription_for row_or
  primary_subscription user_id = do
    r ← statement env pool (λ id now d. found d (subscription_for user_id d))
    row_or (GoError.sentinel Sentinel.billing_not_found) r

  -- SetPlan
  unfoldable pub set_plan : ℕ → Str → M (Unit {0})
  unfolding upsert_plan
  set_plan workspace_id plan = do
    r ← statement env pool (λ id now d.
        referring (any (λ (x : Workspace). x.id == workspace_id) d.workspaces)
          (row (tt, record d { subscriptions = upsert_plan workspace_id plan d.subscriptions })))
    return_error (driver_error r)

  -- ActiveTunnelsForUser
  unfoldable pub active_tunnels_for_user : ℕ → M (ℕ × Str)
  unfolding primary_subscription open_tunnels row_or
  active_tunnels_for_user user_id = do
    sub ← primary_subscription user_id
    r ← statement env pool (λ id now d. row (open_tunnels sub.workspace_id d, d))
    n ← row_or GoError.nil r
    pure (n, sub.plan)

  -- CheckTunnelQuota
  unfoldable pub check_tunnel_quota : ℕ → M (Unit {0})
  unfolding active_tunnels_for_user within_limit plan_for
  check_tunnel_quota user_id = do
    (active, plan) ← active_tunnels_for_user user_id
    if within_limit active (plan_for plan).max_tunnels
        then pure tt
        else raise (GoError.sentinel Sentinel.quota_exceeded)
