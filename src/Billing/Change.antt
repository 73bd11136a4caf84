-- ===== src/Billing/Change.antt =====
-- services/internal/billing/service.go: Current, ChangePlan and ApplyWebhook. The processor's
-- StartCheckout and ParseWebhook are arguments; StubProcessor has no ParseWebhook. The number of a
-- workspace's requests of today is an argument too.
pub mod Applied
use gotra.Prelude.{
  ℕ, Str, Bool, true, false, Option, none, some, List, [], ◌∷◌, ◌==◌, leb, if◌then◌else◌, length,
  select,
}
use gotra.Errors.{GoError, Sentinel, Outcome, ok}
use gotra.Store.{Project}
use gotra.Store.Action.{Env, M, pure, raise, lift, ◌>>=◌, ◌>>◌, pool, row, statement, row_or}
use gotra.Billing.{
  Plan, Subscription, plans, lookup_plan, plan_for, open_tunnels, primary_subscription, set_plan,
}

-- Usage
pub record Usage : Type 0 where
  pub projects : ℕ
  pub active_tunnels : ℕ
  pub requests_today : ℕ

-- Info
pub record Info : Type 0 where
  pub plan : Str
  pub status : Str
  pub limits : Plan
  pub usage : Usage
  pub available_plans : List Plan

-- ChangeResult
pub data ChangeResult : Type 0 where
  changed : Info → ChangeResult
  checkout : Str → ChangeResult

unfoldable pub insert_by_price : Plan → List Plan → List Plan
insert_by_price p [] = p ∷ []
insert_by_price p (q ∷ qs) =
    let rest = insert_by_price p qs in if leb p.price_usd q.price_usd then p ∷ q ∷ qs else q ∷ rest

unfoldable pub sort_by_price : List Plan → List Plan
unfolding insert_by_price
sort_by_price [] = []
sort_by_price (p ∷ ps) = insert_by_price p (sort_by_price ps)

-- catalog
unfoldable pub catalog : List Plan
unfolding sort_by_price plans
catalog = sort_by_price plans

-- `if _, ok := Plans[plan]; !ok`
unfoldable pub known_plan : Option Plan → M (Unit {0})
known_plan none = raise (GoError.sentinel Sentinel.invalid_plan)
known_plan (some p) = pure tt

module _ (env : Env) (requests_today : ℕ → ℕ) where
  -- WorkspaceUsage
  unfoldable pub workspace_usage : ℕ → M Usage
  unfolding open_tunnels row_or
  workspace_usage workspace_id = do
    r ← statement env pool (λ id now d. row (
      record {
        projects = length (select (λ (p : Project). p.workspace_id == workspace_id) d.projects);
        active_tunnels = open_tunnels workspace_id d;
        requests_today = requests_today workspace_id;
      },
      d,
    ))
    row_or GoError.nil r

  -- Current
  unfoldable pub current : ℕ → M Info
  unfolding primary_subscription plan_for catalog
  current user_id = do
    sub ← primary_subscription env user_id
    usage ← workspace_usage sub.workspace_id
    pure (record {
      plan = sub.plan;
      status = sub.status;
      limits = plan_for sub.plan;
      usage = usage;
      available_plans = catalog;
    })

  module _ (start_checkout : ℕ → Str → Outcome Str) where
    -- ChangePlan past StartCheckout.
    unfoldable pub apply_or_redirect : ℕ → ℕ → Str → Str → M ChangeResult
    apply_or_redirect user_id workspace_id plan (c ∷ url) = pure (checkout (c ∷ url))
    apply_or_redirect user_id workspace_id plan [] = do
      set_plan env workspace_id plan
      info ← current user_id
      pure (changed info)

    -- ChangePlan
    unfoldable pub change_plan : ℕ → Str → M ChangeResult
    unfolding known_plan lookup_plan apply_or_redirect
    change_plan user_id plan = do
      known_plan (lookup_plan plan)
      sub ← primary_subscription env user_id
      url ← lift (start_checkout sub.workspace_id plan)
      apply_or_redirect user_id sub.workspace_id plan url

-- ApplyWebhook, where `parse` is ParseWebhook of the processor, if it has one.
unfoldable pub apply_webhook :
    Env → Option (List ℕ → Str → Outcome (ℕ × Str)) → List ℕ → Str → M (Unit {0})
unfolding known_plan lookup_plan
apply_webhook env none payload signature = raise (GoError.sentinel Sentinel.no_webhook)
apply_webhook env (some parse) payload signature = do
  (workspace_id, plan) ← lift (parse payload signature)
  known_plan (lookup_plan plan)
  set_plan env workspace_id plan
