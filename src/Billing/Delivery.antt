-- ===== src/Billing/Delivery.antt =====
-- Repeated deliveries of a billing event.
use fieldserviceit_backend.Base.{
  ℕ, String, Option, none, some, ◌≡◌, refl, sym, subst, ◌∙◌, Bool, true, false, arith, eq_refl,
  Result, ok, throw, Exception, Bool-cases, inl, inr,
}
use fieldserviceit_backend.Base.Map.{Map, get, set, get-set}
use fieldserviceit_backend.Billing.{BillingEvent, CompanyPlan, Ledger}
use fieldserviceit_backend.Billing.Events.{apply_event}
use fieldserviceit_backend.Billing.Webhook.{is_settled, record_outcome, handle_webhook}

handle_webhook_open :
    (lower : String → String) (grace_ms now : ℕ) (update_error : Option Exception)
    (event : BillingEvent) (ledger : Ledger)
    → is_settled (get ledger.events event.id) ≡ false
    → handle_webhook lower grace_ms now update_error event ledger
      ≡ record_outcome update_error event.id ledger
          (apply_event lower grace_ms now event ledger.plans)
unfolding handle_webhook
handle_webhook_open lower grace_ms now update_error event ledger unsettled =
    ground (arith, unsettled)

handle_webhook_settled :
    (lower : String → String) (grace_ms now : ℕ) (update_error : Option Exception)
    (event : BillingEvent) (ledger : Ledger)
    → is_settled (get ledger.events event.id) ≡ true
    → handle_webhook lower grace_ms now update_error event ledger ≡ (ok true, ledger)
unfolding handle_webhook
handle_webhook_settled lower grace_ms now update_error event ledger settled =
    ground (arith, settled)

record_outcome-settled :
    (update_error : Option Exception) (id : String) (ledger ledger' : Ledger)
    (outcome : Result (Bool × Map CompanyPlan)) (b : Bool)
    → record_outcome update_error id ledger outcome ≡ (ok b, ledger')
    → is_settled (get ledger'.events id) ≡ true
unfolding is_settled
record_outcome-settled none id ledger ledger' (ok (true, plans)) b h =
    let written : set ledger.events id "PROCESSED" ≡ ledger'.events = cc in
    rw (sym written, get-set ledger.events id id "PROCESSED", eq_refl id) refl
record_outcome-settled none id ledger ledger' (ok (false, plans)) b h =
    let written : set ledger.events id "IGNORED" ≡ ledger'.events = cc in
    rw (sym written, get-set ledger.events id id "IGNORED", eq_refl id) refl
record_outcome-settled (some e) id ledger ledger' (ok (p, plans)) b h = absurd (cc)
record_outcome-settled none id ledger ledger' (throw e) b h = absurd (cc)
record_outcome-settled (some e') id ledger ledger' (throw e) b h = absurd (cc)

-- Once a delivery of an event has been answered without an error, every later delivery with the
-- same event id is answered as a duplicate and changes nothing.
pub handle_webhook-duplicate :
    (lower : String → String) (grace_ms now later : ℕ) (update_error later_error : Option Exception)
    (event event' : BillingEvent) (ledger ledger' : Ledger) (b : Bool)
    → handle_webhook lower grace_ms now update_error event ledger ≡ (ok b, ledger')
    → event'.id ≡ event.id
    → handle_webhook lower grace_ms later later_error event' ledger' ≡ (ok true, ledger')
handle_webhook-duplicate lower grace_ms now later update_error later_error event event' ledger
      ledger' b h same =
    handle_webhook_settled lower grace_ms later later_error event' ledger' (
      rw same (elim (Bool-cases (is_settled (get ledger.events event.id))) [
        | inl settled ↦
            let kept =
              sym (handle_webhook_settled lower grace_ms now update_error event ledger settled)
              ∙ h in
            let ledgers : ledger ≡ ledger' = cc in
            subst (λ (l : Ledger). is_settled (get l.events event.id) ≡ true) ledgers settled
        | inr unsettled ↦
            record_outcome-settled update_error event.id ledger ledger'
              (apply_event lower grace_ms now event ledger.plans) b
              (sym (handle_webhook_open lower grace_ms now update_error event ledger unsettled) ∙ h)
      ]))
