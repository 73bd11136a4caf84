-- ===== src/Billing/Webhook.antt =====
-- What a Stripe webhook may change.
use gotra.Prelude.{
  ℕ, ◌≡◌, Str, true, Option, none, some, List, codes, str_eq, arith, Bool-cases, inl, inr,
}
use gotra.Errors.{Outcome, ok, err, panic}
use gotra.Errors.Sequence.{sequence_ok}
use gotra.Store.Action.{Env, World}
use gotra.Billing.{Plan, lookup_plan, upsert_plan}
use gotra.Billing.Change.{apply_webhook}
use gotra.Billing.Change.Applied.{apply_webhook_sound}
use gotra.Billing.Handler.{
  StripeProcessor, StripeEvent, parse_webhook, parse_event, verified, workspace_or_error,
}

-- The event is a completed checkout, and its metadata name the workspace and the plan.
pub record IsPaid (parse_uuid : Str → Option ℕ) (event : StripeEvent) (id : ℕ) (plan : Str)
    : Type 0 where
  pub completed : str_eq event.event_type (codes "checkout.session.completed") ≡ true
  pub workspace_text : Str
  pub named : event.metadata ≡ ok (workspace_text, plan)
  pub workspace : parse_uuid workspace_text ≡ some id

verified_ok :
    (p : StripeProcessor) (o : Outcome StripeEvent) {event : StripeEvent}
    → verified p o ≡ ok event
    → o ≡ ok event
unfolding verified
verified_ok p (ok x) h = h
verified_ok p (err e) h = ground arith
verified_ok p panic h = ground arith

workspace_or_error_ok :
    (p : StripeProcessor) (o : Option ℕ) (text : Str) {id : ℕ} {plan : Str}
    → workspace_or_error p o text ≡ ok (id, plan)
    → (o ≡ some id) × (text ≡ plan)
unfolding workspace_or_error
workspace_or_error_ok p none text h = ground arith
workspace_or_error_ok p (some i) text h = ground arith

parse_event_ok :
    (p : StripeProcessor) (parse_uuid : Str → Option ℕ) (event : StripeEvent) {id : ℕ} {plan : Str}
    → parse_event p parse_uuid event ≡ ok (id, plan)
    → IsPaid parse_uuid event id plan
unfolding parse_event
parse_event_ok p parse_uuid event {id} {plan} h =
    elim (Bool-cases (str_eq event.event_type (codes "checkout.session.completed"))) [
      | inr e ↦ ground (arith, e, h)
      | inl e ↦
          let (m, read, k) =
            sequence_ok event.metadata (λ m. workspace_or_error p (parse_uuid m.0) m.1)
              (rw (parse_event, e) at h) in
          let (found, same) = workspace_or_error_ok p (parse_uuid m.0) m.1 k in
          record { completed = e; workspace_text = m.0; named = rw⁻¹ same read; workspace = found }
    ]

module _ (env : Env) where
  -- Where ApplyWebhook with the Stripe processor returns nil, Stripe's library has verified the
  -- payload against the signature with the secret of the webhook, the event is a completed
  -- checkout whose metadata name a workspace and a plan of the catalog, and the one change to the
  -- tables is the subscription of that workspace.
  pub stripe_webhook_sound :
      (p : StripeProcessor) (construct_event : List ℕ → Str → Str → Outcome StripeEvent)
      (parse_uuid : Str → Option ℕ) (payload : List ℕ) (signature : Str) (w : World) {x : Unit {0}}
      {w' : World}
      → apply_webhook env (some (parse_webhook p construct_event parse_uuid)) payload signature w
        ≡ (ok x, w')
      → (event : StripeEvent) × (id : ℕ) × (plan : Str) × (offer : Plan) × (construct_event payload
            signature p.webhook_secret
          ≡ ok event)
        × IsPaid parse_uuid event id plan
        × (lookup_plan plan ≡ some offer)
        × (w'.committed
            ≡ record w.committed { subscriptions = upsert_plan id plan w.committed.subscriptions })
  unfolding parse_webhook
  stripe_webhook_sound p construct_event parse_uuid payload signature w {x} {w'} h =
      let (id, plan, offer, parsed, known, change) =
        apply_webhook_sound env (parse_webhook p construct_event parse_uuid) payload signature w
          {x = x} {w' = w'} h in
      let (event, read, k) =
        sequence_ok (verified p (construct_event payload signature p.webhook_secret))
          (parse_event p parse_uuid) parsed in
      (
        event,
        id,
        plan,
        offer,
        verified_ok p _ read,
        parse_event_ok p parse_uuid event k,
        known,
        change,
      )
