-- ===== src/Auth/Lockout.antt =====
-- `enforceLoginBackoff`, `recordLoginFailure` and `clearLoginFailures` of AuthService
-- (src/modules/auth/services/auth.service.ts). `now` is the reading of NOW(3) and of the process's
-- clock, in milliseconds; MySQL assigns the columns of an update from left to right.
use fieldserviceit_backend.Base.{
  ℕ, ◌+◌, ◌*◌, min, Option, none, some, if◌then◌else◌, ltb, leb, Result, ok, throw, unauthorized,
}
use fieldserviceit_backend.Auth.{LoginAbuseState}

abbrev pub login_lock_threshold : ℕ
login_lock_threshold = 5

abbrev pub login_lock_ms : ℕ
login_lock_ms = 900000

-- The delay before the password is read, or the refusal while the account is locked.
unfoldable pub enforce_login_backoff : ℕ → Option LoginAbuseState → Result ℕ
enforce_login_backoff now none = ok 0
enforce_login_backoff now (some failure) =
    let locked_until = elim failure.locked_until as (λ o. ℕ) [ none ↦ 0 | some t ↦ t ] in
    if ltb now locked_until
    then throw (unauthorized "Invalid credentials")
    else ok (min 2000 (failure.failure_count * 250))

-- The row that the upsert leaves.
unfoldable pub record_login_failure : ℕ → Option LoginAbuseState → LoginAbuseState
record_login_failure now none = record {
  failure_count = 1;
  locked_until = none;
  last_failure_at = now;
}
record_login_failure now (some row) =
    let count =
      if ltb (row.last_failure_at + login_lock_ms) now then 1 else row.failure_count + 1 in
    record {
      failure_count = count;
      locked_until =
          if leb login_lock_threshold count
          then some (now + login_lock_ms)
          else elim row.locked_until as (λ o. Option ℕ) [
            | none ↦ none
            | some t ↦ if ltb now t then some t else none
          ];
      last_failure_at = now;
    }
