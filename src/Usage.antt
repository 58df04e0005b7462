-- ===== src/Usage.antt =====
-- The limits of a plan (src/modules/billing/services/usage.service.ts). A period is the number of a
-- month; a row whose period lies in the month is the row of that month. A limit is `none` where the
-- plan has none, or has -1.
use fieldserviceit_backend.Base.{
  ℕ, ◌+◌, String, Bool, true, not, ◌&&◌, ◌||◌, ◌>>=◌, truthy, or_else, Option, none, some, List, [],
  ◌∷◌, ◌==◌, if◌then◌else◌, ltb, nat_eq, Result, ok, forbidden, ensure,
}
mod Limits
mod Tests

pub record UsageRecord : Type 0 where
  pub company_id : String
  pub metric : String
  pub period : ℕ
  pub count : ℕ

-- The limits of the plan of a company.
pub record Plan : Type 0 where
  pub max_tickets : Option ℕ
  pub max_users : Option ℕ

unfoldable pub is_record : String → String → ℕ → UsageRecord → Bool
is_record company_id metric period r =
    r.company_id == company_id && r.metric == metric && nat_eq r.period period

unfoldable pub get_usage : String → String → ℕ → List UsageRecord → ℕ
get_usage company_id metric period [] = 0
get_usage company_id metric period (r ∷ rs) =
    let later = get_usage company_id metric period rs in
    if is_record company_id metric period r then r.count else later

-- The record that is found gets one more; without one, a record of 0 is made first.
unfoldable pub increment_usage : String → String → ℕ → List UsageRecord → List UsageRecord
increment_usage company_id metric period [] =
    record { company_id = company_id; metric = metric; period = period; count = 0 + 1 } ∷ []
increment_usage company_id metric period (r ∷ rs) =
    let later = increment_usage company_id metric period rs in
    if is_record company_id metric period r
    then record r { count = r.count + 1 } ∷ rs
    else r ∷ later

unfoldable pub check_limit : String → Option ℕ → ℕ → Result Bool
check_limit message none current = ok true
check_limit message (some limit) current =
    if ltb current limit then ok true else Result.throw (forbidden message)

-- `plan` is `none` for a company without one.
unfoldable pub check_ticket_limit : Option Plan → String → ℕ → List UsageRecord → Result Bool
check_ticket_limit none company_id period records = ok true
check_ticket_limit (some plan) company_id period records =
    check_limit "Ticket limit reached for your plan. Upgrade to create more tickets."
      plan.max_tickets (get_usage company_id "tickets" period records)

unfoldable pub check_user_limit : Option Plan → ℕ → Result Bool
check_user_limit none active_users = ok true
check_user_limit (some plan) active_users =
    check_limit "User limit reached for your plan. Upgrade to add more users." plan.max_users
      active_users

-- FeatureGuard (src/modules/billing/guards/feature.guard.ts).
unfoldable pub feature_guard :
    Bool → Bool → Option String → Option Plan → ℕ → List UsageRecord → ℕ → Result Bool
feature_guard checks_tickets checks_users company_id plan period records active_users =
    if not checks_tickets && not checks_users || not (truthy company_id)
    then ok true
    else ((if checks_tickets
          then check_ticket_limit plan (or_else company_id "") period records
          else ok true)
        >>= λ t. (if checks_users then check_user_limit plan active_users else ok true))
      >>= λ u. ok true
