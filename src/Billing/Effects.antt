-- ===== src/Billing/Effects.antt =====
-- What an applied event does to the plans (src/modules/billing/services/billing.service.ts).
use fieldserviceit_backend.Base.{
  ℕ, ◌+◌, String, ◌≡◌, ◌≢◌, refl, sym, ap, ◌∙◌, subst, Bool, true, false, ◌||◌, Option, none, some,
  arith, eq_iff, eq_refl, truthy, or_else, ok, Bool-cases, Option-cases, inl, inr,
}
use fieldserviceit_backend.Base.Map.{Map, get, set, get-set}
use fieldserviceit_backend.Billing.{BillingEvent, CompanyPlan}
use fieldserviceit_backend.Billing.Events.{
  is_failed_payment, is_paid, is_subscription, current_plan, row_of, event_company, event_data,
  fail_payment, apply_to_company, apply_event, first_truthy, field,
}

get-fail_payment :
    (company_id c : String) (grace_ends : ℕ) (plans : Map CompanyPlan)
    → company_id ≢ c
    → get (fail_payment company_id grace_ends plans) c ≡ get plans c
unfolding fail_payment
get-fail_payment company_id c grace_ends plans other = elim (Option-cases (get plans company_id)) [
  | inl e ↦ ground (arith, e)
  | inr (row, e) ↦
      let row' : CompanyPlan = record row {
        status = "PAST_DUE";
        grace_period_ends_at = some grace_ends;
      } in
      ground (arith, e, get-set plans company_id c row', eq_iff company_id c, other)
]

apply_to_company-other :
    (lower : String → String) (grace_ms now : ℕ) (event : BillingEvent) (company_id c : String)
    (plans plans' : Map CompanyPlan) (processed : Bool)
    → apply_to_company lower grace_ms now event company_id plans ≡ ok (processed, plans')
    → company_id ≢ c
    → get plans' c ≡ get plans c
unfolding apply_to_company
apply_to_company-other lower grace_ms now event company_id c plans plans' processed h other =
    let failed = is_failed_payment (lower event.event_type) in
    let current = row_of (current_plan event plans) in
    let plan_id = first_truthy event.plan_id (field (λ r. some r.plan_id) current) in
    let row = event_data lower event current (or_else plan_id "") in
    elim (Bool-cases failed) [
      | inl e ↦
          let same : fail_payment company_id (now + grace_ms) plans ≡ plans' = ground (arith, e) in
          subst (λ ps. get ps c ≡ get plans c) same
            (get-fail_payment company_id c (now + grace_ms) plans other)
      | inr e ↦ elim (Bool-cases (truthy plan_id)) [
        | inr missing ↦ absurd (ground (arith, e, missing))
        | inl known ↦
            let same : set plans company_id row ≡ plans' = ground (arith, e, known) in
            subst (λ ps. get ps c ≡ get plans c) same
              (ground (arith, get-set plans company_id c row, eq_iff company_id c, other))
      ]
    ]

named : (o : Option String) → truthy o ≡ true → o ≡ some (or_else o "")
named none h = cc
named (some x) h = ground arith

event_data-paid :
    (lower : String → String) (event : BillingEvent) (current : Option CompanyPlan)
    (plan_id : String)
    → is_paid (lower event.event_type) ≡ true
    → ((event_data lower event current plan_id).status ≡ "ACTIVE")
      × ((event_data lower event current plan_id).grace_period_ends_at ≡ none)
unfolding event_data
event_data-paid lower event current plan_id paid = (ground (arith, paid), rw paid refl)

apply_to_company-paid :
    (lower : String → String) (grace_ms now : ℕ) (event : BillingEvent) (company_id : String)
    (plans plans' : Map CompanyPlan) (processed : Bool)
    → is_paid (lower event.event_type) ≡ true
    → is_failed_payment (lower event.event_type) ≡ false
    → apply_to_company lower grace_ms now event company_id plans ≡ ok (processed, plans')
    → (row : CompanyPlan) × (get plans' company_id ≡ some row)
      × (row.status ≡ "ACTIVE")
      × (row.grace_period_ends_at ≡ none)
unfolding apply_to_company
apply_to_company-paid lower grace_ms now event company_id plans plans' processed paid unfailed h =
    let current = row_of (current_plan event plans) in
    let plan_id = first_truthy event.plan_id (field (λ r. some r.plan_id) current) in
    let row = event_data lower event current (or_else plan_id "") in
    elim (Bool-cases (truthy plan_id)) [
      | inr missing ↦ absurd (ground (arith, unfailed, missing))
      | inl known ↦
          let same : set plans company_id row ≡ plans' = ground (arith, unfailed, known) in
          let (active, ended) = event_data-paid lower event current (or_else plan_id "") paid in
          (
            row,
            ap (λ ps. get ps company_id) (sym same)
                ∙ ground (arith, get-set plans company_id company_id row, eq_refl company_id),
            active,
            ended,
          )
    ]

-- An event changes the plan of no company but the one that it is about.
pub apply_event-other :
    (lower : String → String) (grace_ms now : ℕ) (event : BillingEvent) (c : String)
    (plans plans' : Map CompanyPlan) (processed : Bool)
    → apply_event lower grace_ms now event plans ≡ ok (processed, plans')
    → event_company event plans ≢ some c
    → get plans' c ≡ get plans c
unfolding apply_event
apply_event-other lower grace_ms now event c plans plans' processed h other =
    let t = lower event.event_type in
    let company = event_company event plans in
    elim (Bool-cases (is_failed_payment t || is_paid t || is_subscription t)) [
      | inr e ↦ let same : plans ≡ plans' = ground (arith, e) in ap (λ ps. get ps c) (sym same)
      | inl e ↦ elim (Bool-cases (truthy company)) [
        | inr missing ↦ absurd (ground (arith, e, missing))
        | inl known ↦
            apply_to_company-other lower grace_ms now event (or_else company "") c plans plans'
              processed (ground (arith, e, known))
              (λ same. other (named company known ∙ ap (λ x. some x) same))
      ]
    ]

-- An event whose type is that of a paid and not of a failed payment, and that processing does not
-- refuse, makes the plan of its company active and ends its grace period.
pub apply_event-paid :
    (lower : String → String) (grace_ms now : ℕ) (event : BillingEvent)
    (plans plans' : Map CompanyPlan) (processed : Bool)
    → is_paid (lower event.event_type) ≡ true
    → is_failed_payment (lower event.event_type) ≡ false
    → apply_event lower grace_ms now event plans ≡ ok (processed, plans')
    → (c : String) × (row : CompanyPlan) × (event_company event plans ≡ some c)
      × (get plans' c ≡ some row)
      × (row.status ≡ "ACTIVE")
      × (row.grace_period_ends_at ≡ none)
unfolding apply_event
apply_event-paid lower grace_ms now event plans plans' processed paid unfailed h =
    let company = event_company event plans in
    elim (Bool-cases (truthy company)) [
      | inr missing ↦ absurd (ground (arith, paid, unfailed, missing))
      | inl known ↦
          let (row, written, active, ended) =
            apply_to_company-paid lower grace_ms now event (or_else company "") plans plans'
              processed paid unfailed (ground (arith, paid, unfailed, known)) in
          (or_else company "", row, named company known, written, active, ended)
    ]
