-- ===== src/Billing.antt =====
-- Subscriptions (src/modules/billing/services/billing.service.ts): the events of the payment
-- provider, and the plan rows of the companies.
pub mod Events
pub mod Webhook
mod Delivery
mod Effects
mod Tests
use fieldserviceit_backend.Base.{ℕ, String, Bool, Option}
use fieldserviceit_backend.Base.Map.{Map}

-- An event, as the provider's adapter hands it over (NormalizedBillingEvent), without its raw text.
pub record BillingEvent : Type 0 where
  pub provider : String
  pub id : String
  pub event_type : String
  pub company_id : Option String
  pub plan_id : Option String
  pub customer_id : Option String
  pub subscription_id : Option String
  pub status : Option String
  pub interval : Option String
  pub seats : Option ℕ
  pub cancel_at_period_end : Option Bool
  pub current_period_start : Option ℕ
  pub current_period_end : Option ℕ
  pub trial_ends_at : Option ℕ

-- A row of CompanyPlan, whose key is the company.
pub record CompanyPlan : Type 0 where
  pub plan_id : String
  pub billing_provider : String
  pub provider_customer_id : Option String
  pub provider_subscription_id : Option String
  pub billing_interval : String
  pub seat_quantity : ℕ
  pub cancel_at_period_end : Bool
  pub status : String
  pub trial_ends_at : Option ℕ
  pub current_period_start : Option ℕ
  pub current_period_end : Option ℕ
  pub grace_period_ends_at : Option ℕ

-- The table CompanyPlan, and the statuses in BillingEvent by the provider's event id.
pub record Ledger : Type 0 where
  pub plans : Map CompanyPlan
  pub events : Map String
