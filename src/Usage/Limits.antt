-- ===== src/Usage/Limits.antt =====
-- What the counts of a month are, and when they stop a request
-- (src/modules/billing/services/usage.service.ts, src/modules/billing/guards/feature.guard.ts).
use fieldserviceit_backend.Base.{
  ℕ, suc, ◌<◌, String, ◌≡◌, ◌≢◌, ◌⊎◌, ◌↔◌, refl, Bool, true, false, ◌&&◌, some, List, [], ◌∷◌,
  arith, ◌==◌, eq_iff, eq_refl, nat_eq, lt→ltb, ltb→lt, ok, Bool-cases, inl, inr, count_where,
}
use fieldserviceit_backend.Usage.{
  UsageRecord, is_record, get_usage, increment_usage, check_limit, check_ticket_limit,
  check_user_limit, feature_guard,
}

-- A call of `incrementUsage`.
pub record Count : Type 0 where
  pub company_id : String
  pub metric : String
  pub period : ℕ

-- The records after calls, the latest first, in a table that was empty.
abbrev pub records_after : List Count → List UsageRecord
records_after [] = []
records_after (c ∷ cs) = increment_usage c.company_id c.metric c.period (records_after cs)

abbrev pub is_count : String → String → ℕ → Count → Bool
is_count company_id metric period c =
    (c.company_id == company_id) && (c.metric == metric) && nat_eq c.period period

get-increment :
    (c m : String) (p : ℕ) (records : List UsageRecord)
    → get_usage c m p (increment_usage c m p records) ≡ suc (get_usage c m p records)
unfolding get_usage increment_usage is_record
get-increment c m p [] = ground (arith, eq_refl c, eq_refl m)
get-increment c m p (r ∷ rs) = ground (arith, get-increment c m p rs)

get-increment_other :
    (c m c' m' : String) (p p' : ℕ) (records : List UsageRecord)
    → ((c' == c) && (m' == m) && nat_eq p' p) ≡ false
    → get_usage c m p (increment_usage c' m' p' records) ≡ get_usage c m p records
unfolding get_usage increment_usage is_record
get-increment_other c m c' m' p p' [] other = ground (arith, other)
get-increment_other c m c' m' p p' (r ∷ rs) other = ground (
  arith,
  get-increment_other c m c' m' p p' rs other,
  other,
  eq_iff r.company_id c',
  eq_iff r.metric m',
  eq_iff r.company_id c,
  eq_iff r.metric m,
  eq_iff c' c,
  eq_iff m' m,
)

get_usage-records_after :
    (c m : String) (p : ℕ) (cs : List Count)
    → get_usage c m p (records_after cs) ≡ count_where (is_count c m p) cs
unfolding get_usage
get_usage-records_after c m p [] = refl
get_usage-records_after c m p (x ∷ xs) = elim (Bool-cases (is_count c m p x)) [
  | inl e ↦ ground (
    arith,
    e,
    eq_iff x.company_id c,
    eq_iff x.metric m,
    get-increment c m p (records_after xs),
    get_usage-records_after c m p xs,
  )
  | inr e ↦ ground (
    arith,
    e,
    get-increment_other c m x.company_id x.metric p x.period (records_after xs) e,
    get_usage-records_after c m p xs,
  )
]

-- After any calls that count usage, the guard of a route lets a user of a company whose plan limits
-- both pass exactly when, if the route checks tickets, fewer tickets were counted for the company in the month than its plan
-- has, whatever was counted for others, and if it checks users, fewer are active than the plan has.
pub feature_guard_iff :
    (checks_tickets checks_users : Bool) (c : String) (p tickets users : ℕ) (cs : List Count)
    (active_users : ℕ)
    → c ≢ ""
    → (feature_guard checks_tickets checks_users
          (some c)
          (some (record { max_tickets = some tickets; max_users = some users }))
          p
          (records_after cs)
          active_users
        ≡ ok true)
      ↔ (((checks_tickets ≡ false) ⊎ (count_where (is_count c "tickets" p) cs < tickets))
          × ((checks_users ≡ false) ⊎ (active_users < users)))
unfolding feature_guard check_ticket_limit check_user_limit check_limit
feature_guard_iff checks_tickets checks_users c p tickets users cs active_users real =
    let known : (c == "") ≡ false = ground (arith, eq_iff c "") in
    let used = get_usage c "tickets" p (records_after cs) in
    let counted = get_usage-records_after c "tickets" p cs in
    (
      λ h. (
        ground (arith, known, h, ltb→lt used tickets, counted),
        ground (arith, known, h, ltb→lt active_users users),
      ),
      λ h. ground (arith, known, h.0, h.1, lt→ltb used tickets, lt→ltb active_users users, counted),
    )
