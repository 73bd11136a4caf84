-- ===== src/Billing/Tests.antt =====
-- Changes of plan at a concrete world.
use gotra.Prelude.{ℕ, ◌≡◌, refl, Str, Option, none, some, List, [], ◌∷◌, codes}
use gotra.Errors.{Outcome, ok}
use gotra.Store.Action.{World}
use gotra.Tunnels.Tests.{quiet, busy}
use gotra.Billing.{Plan, Subscription, free_plan, lookup_plan, subscription_for, upsert_plan}
use gotra.Billing.Change.{ChangeResult, changed, checkout, change_plan, apply_webhook}
use gotra.Billing.Change.Applied.{Settled, change_plan_sound}
use gotra.Billing.Handler.{StripeProcessor, StripeEvent, parse_webhook}
use gotra.Billing.Webhook.{IsPaid, stripe_webhook_sound}

-- The checkout is at a fixed address.
abbrev to_pay : ℕ → Str → Outcome Str
to_pay id plan = ok (codes "https://pay")

abbrev no_requests : ℕ → ℕ
no_requests id = 0

-- A processor whose events are all completed checkouts of the plan "pro" for workspace 5.
abbrev stripe : StripeProcessor
stripe = record { webhook_secret = codes "whsec"; price_pro = codes "p"; price_team = [] }

abbrev paid : StripeEvent
paid = record {
  event_type = codes "checkout.session.completed";
  metadata = ok (5 ∷ [], codes "pro");
}

abbrev verify : List ℕ → Str → Str → Outcome StripeEvent
verify payload signature secret = ok paid

abbrev parse_id : Str → Option ℕ
parse_id [] = none
parse_id (c ∷ s) = some c

abbrev upgraded : World
upgraded = (apply_webhook quiet (some (parse_webhook stripe verify parse_id)) [] [] busy).1

apply_webhook_runs :
    apply_webhook quiet (some (parse_webhook stripe verify parse_id)) [] [] busy ≡ (ok tt, upgraded)
unfolding apply_webhook gotra.Billing.Change.known_plan lookup_plan gotra.Billing.plans free_plan
    gotra.Billing.set_plan gotra.Store.Action.statement gotra.Prelude.str_eq parse_webhook
    gotra.Billing.Handler.parse_event gotra.Billing.Handler.verified
    gotra.Billing.Handler.workspace_or_error
apply_webhook_runs = refl

stripe_webhook_sound_example :
    (event : StripeEvent) × (id : ℕ) × (plan : Str) × (offer : Plan) × (verify [] []
        stripe.webhook_secret
      ≡ ok event)
    × IsPaid parse_id event id plan
    × (lookup_plan plan ≡ some offer)
    × (upgraded.committed ≡ record busy.committed {
      subscriptions = upsert_plan id plan busy.committed.subscriptions;
    })
stripe_webhook_sound_example =
    stripe_webhook_sound quiet stripe verify parse_id [] [] busy {x = tt} {w' = upgraded}
      apply_webhook_runs

abbrev paying : World
paying = (change_plan quiet no_requests to_pay 1 (codes "pro") busy).1

change_plan_runs :
    change_plan quiet no_requests to_pay 1 (codes "pro") busy
    ≡ (ok (checkout (codes "https://pay")), paying)
unfolding change_plan gotra.Billing.Change.known_plan gotra.Billing.Change.apply_or_redirect
    lookup_plan gotra.Billing.plans free_plan gotra.Billing.primary_subscription subscription_for
    gotra.Billing.subscription_of gotra.Auth.Provision.primary_of gotra.Store.Action.statement
    gotra.Store.Action.row_or gotra.Prelude.str_eq
change_plan_runs = refl

change_plan_sound_example :
    (p : Plan) × (sub : Subscription) × (url : Str) × (lookup_plan (codes "pro") ≡ some p)
    × (subscription_for 1 busy.committed ≡ some sub)
    × (to_pay sub.workspace_id (codes "pro") ≡ ok url)
    × Settled url sub.workspace_id (codes "pro") (checkout (codes "https://pay")) busy paying
change_plan_sound_example =
    change_plan_sound quiet no_requests to_pay 1 (codes "pro") busy
      {result = checkout (codes "https://pay")} {w' = paying} change_plan_runs
