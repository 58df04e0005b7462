-- ===== src/Caches/RateLimit.antt =====
-- RateLimitMiddleware (src/common/middleware/rate-limit.middleware.ts): the counter per client and
-- the headers of its answers. The clock's reading, in milliseconds, is an argument.
use fieldserviceit_backend.Base.{
  ℕ, suc, ◌+◌, ◌-◌, ◌/◌, ◌≤◌, ◌<◌, String, ◌≡◌, Bool, false, ◌||◌, Option, none, some, List, [],
  ◌∷◌, All, arith, ◌==◌, eq_iff, eq_refl, if◌then◌else◌, ltb, leb, leb→le, le→leb, lt→ltb, ltb→lt,
  Option-cases, Bool-cases, ap, ◌∙◌, inl, inr, or_else,
}
use fieldserviceit_backend.Base.Map.{
  Map, get, set, delete_where, HasUniqueKeys, get-set, get-delete_where, get-delete_where-none,
}

pub record ClientQuota : Type 0 where
  pub count : ℕ
  pub reset_time : ℕ
  pub blocked : Bool

pub record RateLimitConfig : Type 0 where
  pub window_ms : ℕ
  pub max_requests : ℕ

-- X-RateLimit-Limit, X-RateLimit-Remaining and X-RateLimit-Reset.
pub record Headers : Type 0 where
  pub limit : ℕ
  pub remaining : ℕ
  pub reset : ℕ

-- The default `keyGenerator`.
abbrev pub client_key : Option String → Option String → String
client_key forwarded_for ip = or_else forwarded_for (or_else ip "unknown")

-- The quota that a request starts from.
unfoldable pub current_quota : RateLimitConfig → Option ClientQuota → ℕ → ClientQuota
current_quota config quota now =
    let fresh : ClientQuota = record {
      count = 0;
      reset_time = now + config.window_ms;
      blocked = false;
    } in
    elim quota [ none ↦ fresh | some q ↦ if leb q.reset_time now then fresh else q ]

-- The quota after one more request.
unfoldable pub counted : RateLimitConfig → ClientQuota → ClientQuota
counted config quota =
    let count = quota.count + 1 in
    record {
      count = count;
      reset_time = quota.reset_time;
      blocked = ltb config.max_requests count || quota.blocked;
    }

-- `use`; the handler always runs.
unfoldable pub use_rate_limit :
    RateLimitConfig → String → ℕ → Map ClientQuota → Headers × Map ClientQuota
use_rate_limit config key now quotas =
    let quota = counted config (current_quota config (get quotas key) now) in
    (
      record {
        limit = config.max_requests;
        remaining = config.max_requests - quota.count;
        reset = (quota.reset_time + 999) / 1000;
      },
      set quotas key quota,
    )

unfoldable pub cleanup_expired_quotas : ℕ → Map ClientQuota → Map ClientQuota
cleanup_expired_quotas now quotas = delete_where (λ key quota. leb quota.reset_time now) quotas

-- The counters after requests of the given clients at the given times, the latest first.
abbrev pub serve : RateLimitConfig → List (String × ℕ) → Map ClientQuota → Map ClientQuota
serve config [] quotas = quotas
serve config ((key, now) ∷ past) quotas =
    (use_rate_limit config key now (serve config past quotas)).1

-- How many of the requests are of one client.
abbrev pub requests_of : String → List (String × ℕ) → ℕ
requests_of key [] = 0
requests_of key ((k, now) ∷ past) =
    let rest = requests_of key past in if k == key then suc rest else rest

-- One more request in the window.
counted-current_quota :
    (config : RateLimitConfig) (n reset now : ℕ)
    → now < reset
    → counted config (
        current_quota config
          (some (record {
            count = suc n;
            reset_time = reset;
            blocked = ltb config.max_requests (suc n);
          }))
          now)
      ≡ record {
        count = suc (suc n);
        reset_time = reset;
        blocked = ltb config.max_requests (suc (suc n));
      }
unfolding counted current_quota
counted-current_quota config n reset now soon = ground (
  arith,
  leb→le reset now,
  ltb→lt config.max_requests (suc n),
  lt→ltb config.max_requests (suc (suc n)),
)

-- The counter of a client after its first request and the given later ones.
serve_counts :
    (config : RateLimitConfig) (key : String) (first : ℕ) (reqs : List (String × ℕ))
    (quotas : Map ClientQuota)
    → get quotas key ≡ none
    → All (λ r. r.1 < first + config.window_ms) reqs
    → get (serve config reqs (use_rate_limit config key first quotas).1) key
      ≡ some (record {
        count = suc (requests_of key reqs);
        reset_time = first + config.window_ms;
        blocked = ltb config.max_requests (suc (requests_of key reqs));
      })
unfolding use_rate_limit current_quota counted
serve_counts config key first [] quotas new h =
    let entry = counted config (current_quota config (get quotas key) first) in
    ground (arith, get-set quotas key key entry, eq_refl key, new)
serve_counts config key first ((k, now) ∷ past) quotas new (soon, h) =
    let m = serve config past (use_rate_limit config key first quotas).1 in
    let before = serve_counts config key first past quotas new h in
    let entry = counted config (current_quota config (get m k) now) in
    let stored = get-set m k key entry in
    elim (Bool-cases (k == key)) [
      | inr e ↦ ground (arith, before, e, stored)
      | inl e ↦
          let at_k : get m k ≡ get m key = ap (λ x. get m x) ((eq_iff k key).0 e) in
          let same =
            ap (λ q. counted config (current_quota config q now)) (at_k ∙ before)
            ∙ counted-current_quota config (requests_of key past) (first + config.window_ms) now
                soon in
          (rw e at stored) ∙ (ap (λ q. some q) same ∙ ground (arith, e))
    ]

-- The requests of a client without a counter are counted in one window whatever other clients send
-- in between: after its first request and the given later ones, all before the window ends, the
-- next one's answer announces what is left of the allowance, and 0 when nothing is.
pub use_rate_limit-remaining :
    (config : RateLimitConfig) (key : String) (first now : ℕ) (reqs : List (String × ℕ))
    (quotas : Map ClientQuota)
    → get quotas key ≡ none
    → All (λ r. r.1 < first + config.window_ms) reqs
    → now < first + config.window_ms
    → (use_rate_limit config key now
        (serve config reqs (use_rate_limit config key first quotas).1)).0.remaining
      ≡ config.max_requests - (2 + requests_of key reqs)
unfolding use_rate_limit current_quota counted
use_rate_limit-remaining config key first now reqs quotas new h soon =
    ground (
      arith,
      serve_counts config key first reqs quotas new h,
      leb→le (first + config.window_ms) now,
    )

-- A sweep of the expired counters, of which no client has two, is invisible: a later request gets
-- the same headers with it and without it.
pub use_rate_limit-cleanup :
    (config : RateLimitConfig) (key : String) (now later : ℕ) (quotas : Map ClientQuota)
    → HasUniqueKeys quotas
    → now ≤ later
    → (use_rate_limit config key later (cleanup_expired_quotas now quotas)).0
      ≡ (use_rate_limit config key later quotas).0
unfolding use_rate_limit cleanup_expired_quotas current_quota counted
use_rate_limit-cleanup config key now later quotas u later_than =
    elim (Option-cases (get quotas key)) [
      | inl e ↦
          ground
            (arith, e, get-delete_where-none (λ k quota. leb quota.reset_time now) quotas key e)
      | inr (q, e) ↦ ground (
        arith,
        e,
        get-delete_where (λ k quota. leb quota.reset_time now) quotas key q u e,
        leb→le q.reset_time now,
        le→leb q.reset_time later,
      )
    ]
