-- ===== src/Usage/Tests.antt =====
-- The limits of a plan (src/modules/billing/services/usage.service.ts) at a sample company.
use fieldserviceit_backend.Base.{
  ◌<◌, ◌≡◌, ◌⊎◌, ◌↔◌, Bool, true, false, some, List, [], ◌∷◌, arith, eq_iff, ok, count_where,
}
use fieldserviceit_backend.Usage.{feature_guard}
use fieldserviceit_backend.Usage.Limits.{Count, records_after, is_count, feature_guard_iff}

-- Two tickets of the company in the month, and one of another month.
abbrev counts : List Count
counts =
    record { company_id = "acme"; metric = "tickets"; period = 5 }
    ∷ record { company_id = "acme"; metric = "tickets"; period = 4 }
    ∷ record { company_id = "acme"; metric = "tickets"; period = 5 }
    ∷ []

feature_guard_iff_example :
    (feature_guard true false
        (some "acme")
        (some (record { max_tickets = some 3; max_users = some 1 }))
        5
        (records_after counts)
        1
      ≡ ok true)
    ↔ (((◌≡◌ {A = Bool} true false) ⊎ (count_where (is_count "acme" "tickets" 5) counts < 3))
        × ((◌≡◌ {A = Bool} false false) ⊎ (1 < 1)))
feature_guard_iff_example =
    feature_guard_iff true false "acme" 5 3 1 counts 1
      (λ e. absurd (ground (arith, eq_iff "acme" "", e)))
