-- ===== src/Billing/Events.antt =====
-- `applyEvent` of BillingService (src/modules/billing/services/billing.service.ts). `lower` stands
-- for toLowerCase, `grace_ms` for the grace period in milliseconds.
use text.Mathlib.Text.{find?}
use fieldserviceit_backend.Base.{
  ℕ, ◌+◌, String, Bool, true, false, not, ◌||◌, Option, none, some, List, [], ◌∷◌, ◌==◌,
  if◌then◌else◌, nat_eq, any, is_none, includes, truthy, or_else, is_text, Result, ok, throw,
  bad_request,
}
use fieldserviceit_backend.Base.Map.{Map, get, set}
use fieldserviceit_backend.Billing.{BillingEvent, CompanyPlan}

-- `s.includes(part)`.
abbrev pub contains : String → String → Bool
contains s part = not (is_none (find? s part))

abbrev pub contains_any : String → List String → Bool
contains_any s parts = any (λ part. contains s part) parts

unfoldable pub is_failed_payment : String → Bool
is_failed_payment t = contains_any t (
    "payment_failed" ∷ "payment.failed" ∷ "invoice_payment_failed" ∷ "subscription_payment_failed"
    ∷ [])

unfoldable pub is_paid : String → Bool
is_paid t = contains_any t (
    "payment_succeeded" ∷ "payment.sale.completed" ∷ "invoice_paid" ∷ "invoice.payment_succeeded"
    ∷ "transaction.completed" ∷ [])

unfoldable pub is_subscription : String → Bool
is_subscription t = contains_any t ("subscription" ∷ "checkout" ∷ "transaction.completed" ∷ [])

unfoldable pub map_status : (String → String) → Option String → String
map_status lower status =
    let s = lower (or_else status "") in
    if includes ("active" ∷ "paid" ∷ "completed" ∷ []) s
    then "ACTIVE"
    else if includes ("trialing" ∷ "on_trial" ∷ []) s
    then "TRIALING"
    else if includes ("past_due" ∷ "past-due" ∷ []) s
    then "PAST_DUE"
    else if includes ("cancelled" ∷ "canceled" ∷ []) s
    then "CANCELED"
    else if s == "suspended"
    then "PAST_DUE"
    else if s == "unpaid"
    then "UNPAID"
    else "INCOMPLETE"

unfoldable pub map_status_from_event : (String → String) → BillingEvent → String
map_status_from_event lower event =
    let t = lower event.event_type in
    if contains t "activated"
    then "ACTIVE"
    else if contains t "cancelled" || contains t "canceled"
    then "CANCELED"
    else if contains t "suspended"
    then "PAST_DUE"
    else if contains t "expired"
    then "CANCELED"
    else map_status lower event.status

-- `a || b || null` of texts.
abbrev pub first_truthy : Option String → Option String → Option String
first_truthy a b = if truthy a then a else if truthy b then b else none

-- `a || d` of numbers.
abbrev pub count_or : ℕ → Option ℕ → ℕ
count_or d none = d
count_or d (some n) = if nat_eq n 0 then d else n

-- `a ?? b ?? false`.
abbrev pub flag_or_false : Option Bool → Option Bool → Bool
flag_or_false none none = false
flag_or_false none (some b) = b
flag_or_false (some a) b = a

-- `a || b || null` of dates.
abbrev pub first_date : Option ℕ → Option ℕ → Option ℕ
first_date none b = b
first_date (some a) b = some a

abbrev pub field {ℓ} : {A : Type ℓ} → (CompanyPlan → Option A) → Option CompanyPlan → Option A
field read none = none
field read (some row) = read row

-- A row whose provider's subscription is the given one.
abbrev pub find_subscription : String → Map CompanyPlan → Option (String × CompanyPlan)
find_subscription id [] = none
find_subscription id ((company_id, row) ∷ rest) =
    let later = find_subscription id rest in
    if is_text row.provider_subscription_id id then some (company_id, row) else later

-- The row that the event is about, with its company.
unfoldable pub current_plan : BillingEvent → Map CompanyPlan → Option (String × CompanyPlan)
current_plan event plans =
    let named =
      elim (if truthy event.company_id then get plans (or_else event.company_id "") else none)
        as (λ o. Option (String × CompanyPlan)) [
          | none ↦ none
          | some row ↦ some (or_else event.company_id "", row)
        ] in
    let by_subscription =
      if truthy event.subscription_id
      then find_subscription (or_else event.subscription_id "") plans
      else none in
    if is_none named then by_subscription else named

abbrev pub row_of : Option (String × CompanyPlan) → Option CompanyPlan
row_of none = none
row_of (some e) = some e.1

-- `event.companyId || current?.companyId`.
unfoldable pub event_company : BillingEvent → Map CompanyPlan → Option String
event_company event plans =
    first_truthy event.company_id
      (elim (current_plan event plans) as (λ o. Option String) [ none ↦ none | some e ↦ some e.0 ])

-- `data` of the upsert.
unfoldable pub event_data :
    (String → String) → BillingEvent → Option CompanyPlan → String → CompanyPlan
event_data lower event current plan_id =
    let status =
      if is_paid (lower event.event_type) then "ACTIVE" else map_status_from_event lower event in
    record {
      plan_id = plan_id;
      billing_provider = event.provider;
      provider_customer_id =
          first_truthy event.customer_id (field (λ r. r.provider_customer_id) current);
      provider_subscription_id =
          first_truthy event.subscription_id (field (λ r. r.provider_subscription_id) current);
      billing_interval =
          or_else (first_truthy event.interval (field (λ r. some r.billing_interval) current))
            "MONTH";
      seat_quantity = count_or (count_or 1 (field (λ r. some r.seat_quantity) current)) event.seats;
      cancel_at_period_end =
          flag_or_false event.cancel_at_period_end
            (field (λ r. some r.cancel_at_period_end) current);
      status = status;
      trial_ends_at = first_date event.trial_ends_at (field (λ r. r.trial_ends_at) current);
      current_period_start =
          first_date event.current_period_start (field (λ r. r.current_period_start) current);
      current_period_end =
          first_date event.current_period_end (field (λ r. r.current_period_end) current);
      grace_period_ends_at =
          if status == "ACTIVE" then none else field (λ r. r.grace_period_ends_at) current;
    }

-- The `updateMany` of a failed payment.
unfoldable pub fail_payment : String → ℕ → Map CompanyPlan → Map CompanyPlan
fail_payment company_id grace_ends plans = elim (get plans company_id) as (λ o. Map CompanyPlan) [
  | none ↦ plans
  | some row ↦
      set plans company_id
        (record row { status = "PAST_DUE"; grace_period_ends_at = some grace_ends })
]

-- `applyEvent` of an event that concerns a company.
unfoldable pub apply_to_company :
    (String → String)
    → ℕ
    → ℕ
    → BillingEvent
    → String
    → Map CompanyPlan
    → Result (Bool × Map CompanyPlan)
apply_to_company lower grace_ms now event company_id plans =
    let current = row_of (current_plan event plans) in
    let plan_id = first_truthy event.plan_id (field (λ r. some r.plan_id) current) in
    if is_failed_payment (lower event.event_type)
    then ok (true, fail_payment company_id (now + grace_ms) plans)
    else if truthy plan_id
    then ok (true, set plans company_id (event_data lower event current (or_else plan_id "")))
    else throw (bad_request "Billing event is missing plan metadata")

-- The result says whether the event was processed or ignored.
unfoldable pub apply_event :
    (String → String) → ℕ → ℕ → BillingEvent → Map CompanyPlan → Result (Bool × Map CompanyPlan)
apply_event lower grace_ms now event plans =
    let t = lower event.event_type in
    let company_id = event_company event plans in
    if not (is_failed_payment t || is_paid t || is_subscription t)
    then ok (false, plans)
    else if truthy company_id
    then apply_to_company lower grace_ms now event (or_else company_id "") plans
    else throw (bad_request "Billing event is missing company metadata")
