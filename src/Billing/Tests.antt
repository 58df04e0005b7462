-- ===== src/Billing/Tests.antt =====
-- Webhooks of billing events (src/modules/billing/services/billing.service.ts) at a sample company.
use fieldserviceit_backend.Base.{
  ℕ, String, ◌≡◌, refl, true, false, Option, none, some, [], ◌∷◌, ok, throw, server_error,
}
use fieldserviceit_backend.Base.Map.{Map, get, set}
use fieldserviceit_backend.Billing.{BillingEvent, CompanyPlan, Ledger}
use fieldserviceit_backend.Billing.Events.{
  is_failed_payment, is_paid, is_subscription, map_status_from_event, current_plan, event_company,
  event_data, apply_to_company, apply_event,
}
use fieldserviceit_backend.Billing.Webhook.{is_settled, handle_webhook}
use fieldserviceit_backend.Billing.Delivery.{handle_webhook-duplicate}
use fieldserviceit_backend.Billing.Effects.{apply_event-other, apply_event-paid}

abbrev lower : String → String
lower s = s

abbrev event_of : String → Option String → BillingEvent
event_of event_type company_id = record {
  provider = "PAYPAL";
  id = "e1";
  event_type = event_type;
  company_id = company_id;
  plan_id = none;
  customer_id = none;
  subscription_id = none;
  status = none;
  interval = none;
  seats = none;
  cancel_at_period_end = none;
  current_period_start = none;
  current_period_end = none;
  trial_ends_at = none;
}

abbrev plan_in : String → Option ℕ → CompanyPlan
plan_in status grace = record {
  plan_id = "pro";
  billing_provider = "PAYPAL";
  provider_customer_id = none;
  provider_subscription_id = some "sub1";
  billing_interval = "MONTH";
  seat_quantity = 3;
  cancel_at_period_end = false;
  status = status;
  trial_ends_at = none;
  current_period_start = none;
  current_period_end = none;
  grace_period_ends_at = grace;
}

abbrev plans_with : CompanyPlan → Map CompanyPlan
plans_with plan = ("acme", plan) ∷ ("other", plan_in "TRIALING" none) ∷ []

abbrev paid_event : BillingEvent
paid_event = event_of "payment.sale.completed" (some "acme")

paid_applied :
    apply_event lower 10 5 paid_event (plans_with (plan_in "PAST_DUE" (some 7)))
    ≡ ok (true, plans_with (plan_in "ACTIVE" none))
unfolding is_failed_payment is_paid is_subscription map_status_from_event current_plan event_company
    event_data apply_to_company apply_event get set
paid_applied = refl

apply_event-paid_example :
    (c : String) × (row : CompanyPlan) × (event_company paid_event
        (plans_with (plan_in "PAST_DUE" (some 7)))
      ≡ some c)
    × (get (plans_with (plan_in "ACTIVE" none)) c ≡ some row)
    × (row.status ≡ "ACTIVE")
    × (row.grace_period_ends_at ≡ none)
unfolding is_failed_payment is_paid
apply_event-paid_example =
    apply_event-paid lower 10 5 paid_event (plans_with (plan_in "PAST_DUE" (some 7)))
      (plans_with (plan_in "ACTIVE" none)) true refl refl paid_applied

apply_event-other_example :
    get (plans_with (plan_in "ACTIVE" none)) "other"
    ≡ get (plans_with (plan_in "PAST_DUE" (some 7))) "other"
unfolding current_plan event_company get
apply_event-other_example =
    apply_event-other lower 10 5 paid_event "other" (plans_with (plan_in "PAST_DUE" (some 7)))
      (plans_with (plan_in "ACTIVE" none)) true paid_applied (λ e. absurd (cc))

abbrev overdue : Ledger
overdue = record { plans = plans_with (plan_in "PAST_DUE" (some 7)); events = [] }

abbrev settled : Ledger
settled = record { plans = plans_with (plan_in "ACTIVE" none); events = ("e1", "PROCESSED") ∷ [] }

handle_webhook-duplicate_example :
    handle_webhook lower 10 9 none (event_of "anything" none) settled ≡ (ok true, settled)
unfolding is_settled handle_webhook is_failed_payment is_paid is_subscription map_status_from_event
    current_plan event_company event_data apply_to_company apply_event get set
handle_webhook-duplicate_example =
    handle_webhook-duplicate lower 10 5 9 none none paid_event (event_of "anything" none) overdue
      settled false refl refl

-- The event is applied, but its row cannot be updated: the plan is changed and the event has failed.
unrecorded : handle_webhook lower 10 5 (some (server_error "Deadlock found")) paid_event overdue ≡ (
  throw (server_error "Deadlock found"),
  record { plans = plans_with (plan_in "ACTIVE" none); events = ("e1", "FAILED") ∷ [] },
)
unfolding is_settled handle_webhook is_failed_payment is_paid is_subscription map_status_from_event
    current_plan event_company event_data apply_to_company apply_event get set
unrecorded = refl
