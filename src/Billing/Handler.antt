-- ===== src/Billing/Handler.antt =====
-- services/internal/billing/handler.go, and StripeProcessor of stripe.go. The Stripe SDK is an
-- argument: the URL of a new checkout session, the event that ConstructEvent verifies, and the
-- session in its data.
use gotra.Prelude.{ℕ, Str, String, Option, none, some, List, [], ◌∷◌, codes, str_eq, if◌then◌else◌}
use gotra.Errors.{GoError, Sentinel, Outcome, ok, err, panic}
use gotra.Errors.Sequence as Outcomes
use gotra.Store.Action.{Env, M, pure, Attempt}
use gotra.Web.{
  Claims, Answer, success, refusal, literal, current_user_id, when_is, conclude, with_body,
  bad_request,
}
use gotra.Billing.Change.{Info, ChangeResult, current, change_plan, apply_webhook}

-- writeError
unfoldable pub write_error : {A : Type 0} → GoError → Outcome (Answer A)
write_error e = when_is e Sentinel.invalid_plan (refusal 400 (literal "unknown plan")) (
    when_is e Sentinel.billing_not_found (refusal 404 (literal "not found"))
      (ok (refusal 500 (literal "internal error"))))

-- The answer of webhook to an error of ApplyWebhook.
unfoldable pub webhook_error : GoError → Outcome (Answer String)
webhook_error e =
    when_is e Sentinel.no_webhook (success 200 "ignored")
      (when_is e Sentinel.unhandled_event (success 200 "ignored") (ok (bad_request e)))

-- StripeProcessor, with the prices of "pro" and "team".
pub record StripeProcessor : Type 0 where
  pub webhook_secret : Str
  pub price_pro : Str
  pub price_team : Str

-- p.priceFor[plan]
unfoldable pub price_for : StripeProcessor → Str → Str
price_for p plan =
    if str_eq plan (codes "pro")
    then p.price_pro
    else if str_eq plan (codes "team")
    then p.price_team
    else []

-- A Stripe event: its type, and the metadata of the session in its data, where that parses.
pub record StripeEvent : Type 0 where
  pub event_type : Str
  -- json.Unmarshal of the session: the values of workspace_id and plan
  pub metadata : Outcome (Str × Str)

module _ (p : StripeProcessor) where
  -- StartCheckout, where `new_session` is session.New for a price, a workspace and a plan.
  unfoldable pub start_checkout : (Str → ℕ → Str → Outcome Str) → ℕ → Str → Outcome Str
  unfolding price_for
  start_checkout new_session workspace_id plan =
      if str_eq plan (codes "free") then ok [] else elim (price_for p plan) [
        | [] ↦ err (GoError.text (codes "billing: no stripe price configured for plan"))
        | c ∷ price ↦ elim (new_session (c ∷ price) workspace_id plan) [
          | ok url ↦ ok url
          | err e ↦ err (GoError.wrapped "stripe checkout" e)
          | panic ↦ panic
        ]
      ]

  unfoldable pub workspace_or_error : Option ℕ → Str → Outcome (ℕ × Str)
  workspace_or_error none plan =
      err (GoError.text (codes "stripe webhook: bad workspace_id metadata"))
  workspace_or_error (some id) plan = ok (id, plan)

  unfoldable pub parse_event : (Str → Option ℕ) → StripeEvent → Outcome (ℕ × Str)
  unfolding workspace_or_error
  parse_event parse_uuid event =
      if str_eq event.event_type (codes "checkout.session.completed")
      then Outcomes.◌>>=◌ event.metadata (λ m. workspace_or_error (parse_uuid m.0) m.1)
      else err (GoError.sentinel Sentinel.unhandled_event)

  unfoldable pub verified : Outcome StripeEvent → Outcome StripeEvent
  verified (ok event) = ok event
  verified (err e) = err (GoError.wrapped "stripe webhook verify" e)
  verified panic = panic

  -- ParseWebhook, where `construct_event` is webhook.ConstructEvent.
  unfoldable pub parse_webhook :
      (List ℕ → Str → Str → Outcome StripeEvent)
      → (Str → Option ℕ)
      → List ℕ
      → Str
      → Outcome (ℕ × Str)
  unfolding parse_event verified
  parse_webhook construct_event parse_uuid payload signature =
      Outcomes.◌>>=◌ (verified (construct_event payload signature p.webhook_secret))
        (parse_event parse_uuid)

module _ (env : Env) where
  -- webhook, on the body that GetRawData read and the header Stripe-Signature.
  unfoldable pub webhook :
      Option (List ℕ → Str → Outcome (ℕ × Str)) → Option (List ℕ) → Str → M (Answer String)
  unfolding webhook_error
  webhook parse none signature = pure (refusal 400 (literal "cannot read body"))
  webhook parse (some payload) signature =
      conclude webhook_error (λ _. success 200 "ok") (apply_webhook env parse payload signature)

  module _ (requests_today : ℕ → ℕ) where
    -- current
    unfoldable pub current_at : Option Claims → M (Answer Info)
    current_at claims =
        conclude write_error (success 200) (current env requests_today (current_user_id claims))

    -- changePlan, on the plan of the body.
    unfoldable pub change_plan_at :
        (ℕ → Str → Outcome Str) → Option Claims → Attempt Str → M (Answer ChangeResult)
    change_plan_at checkout claims body = with_body bad_request body (λ plan.
        conclude write_error (success 200)
          (change_plan env requests_today checkout (current_user_id claims) plan))
