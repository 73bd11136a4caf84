-- ===== src/Billing/Change/Applied.antt =====
-- What a change of plan and a webhook leave in the tables.
use gotra.Prelude.{
  ℕ, ◌≡◌, ◌≢◌, refl, ◌∙◌, sym, ap, Str, Option, none, some, List, [], ◌∷◌, arith, ◌⊎◌, inl, inr,
}
use gotra.Errors.{Outcome, ok}
use gotra.Store.Action.{Env, World, statement, row_or, lift}
use gotra.Store.Action.Laws.{bind_ok, spent}
use gotra.Billing.{
  Plan, Subscription, lookup_plan, subscription_for, primary_subscription, set_plan, upsert_plan,
}
use gotra.Billing.Change.{
  ChangeResult, checkout, changed, Info, known_plan, workspace_usage, current, apply_or_redirect,
  change_plan, apply_webhook,
}

known_plan-ok :
    (o : Option Plan) (w : World) {x : Unit {0}} {w' : World}
    → known_plan o w ≡ (ok x, w')
    → ((p : Plan) × (o ≡ some p)) × (w' ≡ w)
unfolding known_plan
known_plan-ok none w h = ground arith
known_plan-ok (some p) w h = ((p, refl), ground arith)

-- What the end of ChangePlan does: where the URL is not empty, it redirects there and changes no
-- table; where it is empty, it returns a summary and the one change is the subscription.
abbrev pub Settled : Str → ℕ → Str → ChangeResult → World → World → Type 0
Settled url id plan result w w' =
    (url ≢ []) × (result ≡ checkout url) × (w'.committed ≡ w.committed)
    ⊎ (url ≡ [])
      × ((info : Info) × (result ≡ changed info))
      × (w'.committed
          ≡ record w.committed { subscriptions = upsert_plan id plan w.committed.subscriptions })

module _ (env : Env) where
  primary_subscription-ok :
      (user_id : ℕ) (w : World) {sub : Subscription} {w' : World}
      → primary_subscription env user_id w ≡ (ok sub, w')
      → (subscription_for user_id w.committed ≡ some sub) × (w' ≡ spent w)
  unfolding primary_subscription statement row_or
  primary_subscription-ok user_id w h = ground arith

  set_plan-ok :
      (id : ℕ) (plan : Str) (w : World) {x : Unit {0}} {w' : World}
      → set_plan env id plan w ≡ (ok x, w')
      → w'.committed
        ≡ record w.committed { subscriptions = upsert_plan id plan w.committed.subscriptions }
  unfolding set_plan statement
  set_plan-ok id plan w h = ground arith

  -- Where ApplyWebhook returns nil, the processor has read a workspace and a plan of the catalog
  -- from the payload, and the one change to the tables is that workspace's subscription.
  pub apply_webhook_sound :
      (parse : List ℕ → Str → Outcome (ℕ × Str)) (payload : List ℕ) (signature : Str) (w : World)
      {x : Unit {0}} {w' : World}
      → apply_webhook env (some parse) payload signature w ≡ (ok x, w')
      → (id : ℕ) × (plan : Str) × (p : Plan) × (parse payload signature ≡ ok (id, plan))
        × (lookup_plan plan ≡ some p)
        × (w'.committed
            ≡ record w.committed { subscriptions = upsert_plan id plan w.committed.subscriptions })
  unfolding apply_webhook
  apply_webhook_sound parse payload signature w h =
      let ((id, plan), w1, e1, k1) = bind_ok (lift (parse payload signature)) _ w h in
      let (_, w2, e2, k2) = bind_ok (known_plan (lookup_plan plan)) _ w1 k1 in
      let ((p, known), same) = known_plan-ok (lookup_plan plan) w1 e2 in
      let tables = set_plan-ok id plan w2 k2 in
      let start : w2.committed ≡ w.committed = ground (arith, e1, same) in
      (id, plan, p, ground (arith, e1), known, rw start at tables)

module _ (env : Env) (requests_today : ℕ → ℕ) where
  current-keeps :
      (user_id : ℕ) (w : World) → (current env requests_today user_id w).1.committed ≡ w.committed
  unfolding current primary_subscription workspace_usage statement row_or
  current-keeps user_id w = ground arith

module _ (env : Env) (requests_today : ℕ → ℕ) (start_checkout : ℕ → Str → Outcome Str) where
  settles :
      (user_id id : ℕ) (plan url : Str) (w : World) {result : ChangeResult} {w' : World}
      → apply_or_redirect env requests_today start_checkout user_id id plan url w ≡ (ok result, w')
      → Settled url id plan result w w'
  unfolding apply_or_redirect
  settles user_id id plan [] w h =
      let (_, w1, e1, k1) = bind_ok (set_plan env id plan) _ w h in
      let (info, w2, e2, k2) = bind_ok (current env requests_today user_id) _ w1 k1 in
      let kept : w2.committed ≡ w1.committed =
        ap (λ r. r.1.committed) (sym e2) ∙ current-keeps env requests_today user_id w1 in
      inr (
        refl,
        (info, ground arith),
        ap (λ r. r.1.committed) (sym k2) ∙ kept ∙ set_plan-ok env id plan w e1,
      )
  settles user_id id plan (c ∷ url) w h =
      inl (λ e. cc, ground arith, ap (λ r. r.1.committed) (sym h))

  -- Where ChangePlan returns, the plan is one of the catalog and the user has a primary
  -- workspace. If the processor has given a URL that is not empty, that is the result and no table
  -- has changed; if the URL is empty, the result is a summary and the one change to the tables is
  -- the subscription of that workspace.
  pub change_plan_sound :
      (user_id : ℕ) (plan : Str) (w : World) {result : ChangeResult} {w' : World}
      → change_plan env requests_today start_checkout user_id plan w ≡ (ok result, w')
      → (p : Plan) × (sub : Subscription) × (url : Str) × (lookup_plan plan ≡ some p)
        × (subscription_for user_id w.committed ≡ some sub)
        × (start_checkout sub.workspace_id plan ≡ ok url)
        × Settled url sub.workspace_id plan result w w'
  unfolding change_plan
  change_plan_sound user_id plan w {result} {w'} h =
      let (_, w1, e1, k1) = bind_ok (known_plan (lookup_plan plan)) _ w h in
      let (sub, w2, e2, k2) = bind_ok (primary_subscription env user_id) _ w1 k1 in
      let (url, w3, e3, k3) = bind_ok (lift (start_checkout sub.workspace_id plan)) _ w2 k2 in
      let ((p, known), same1) = known_plan-ok (lookup_plan plan) w e1 in
      let (subscribed, same2) = primary_subscription-ok env user_id w1 e2 in
      let kept : w1.committed ≡ w.committed = ap (λ (v : World). v.committed) same1 in
      let start : w3.committed ≡ w.committed =
        ap (λ r. r.1.committed) (sym e3) ∙ ap (λ (v : World). v.committed) same2 ∙ kept in
      let end = settles user_id sub.workspace_id plan url w3 {result = result} {w' = w'} k3 in
      (p, sub, url, known, rw kept at subscribed, ap (λ r. r.0) e3, rw start at end)
