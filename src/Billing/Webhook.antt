-- ===== src/Billing/Webhook.antt =====
-- `handleWebhook` of BillingService (src/modules/billing/services/billing.service.ts), from a
-- verified event on.
use fieldserviceit_backend.Base.{
  ℕ, String, Bool, true, false, ◌||◌, Option, none, some, Exception, if◌then◌else◌, is_text, Result,
  ok, throw,
}
use fieldserviceit_backend.Base.Map.{Map, get, set}
use fieldserviceit_backend.Billing.{BillingEvent, CompanyPlan, Ledger}
use fieldserviceit_backend.Billing.Events.{apply_event}

unfoldable pub is_settled : Option String → Bool
is_settled status = is_text status "PROCESSED" || is_text status "IGNORED"

-- What is written once the event has been applied, or has thrown. A reply says whether the event
-- was a duplicate. `update_error` is the error of the update of BillingEvent after the event was
-- applied, if it fails; the plans stay changed then.
abbrev pub record_outcome :
    Option Exception → String → Ledger → Result (Bool × Map CompanyPlan) → Result Bool × Ledger
record_outcome none id ledger (ok (processed, plans)) = (
  ok false,
  record {
    plans = plans;
    events = set ledger.events id (if processed then "PROCESSED" else "IGNORED");
  },
)
record_outcome (some error) id ledger (ok (processed, plans)) =
    (throw error, record { plans = plans; events = set ledger.events id "FAILED" })
record_outcome update_error id ledger (throw error) =
    (throw error, record ledger { events = set ledger.events id "FAILED" })

unfoldable pub handle_webhook :
    (String → String) → ℕ → ℕ → Option Exception → BillingEvent → Ledger → Result Bool × Ledger
handle_webhook lower grace_ms now update_error event ledger =
    if is_settled (get ledger.events event.id)
    then (ok true, ledger)
    else record_outcome update_error event.id ledger
        (apply_event lower grace_ms now event ledger.plans)
