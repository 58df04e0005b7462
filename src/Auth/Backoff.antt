-- ===== src/Auth/Backoff.antt =====
-- When repeated failures lock an account (src/modules/auth/services/auth.service.ts).
use fieldserviceit_backend.Base.{
  ℕ, suc, ◌+◌, ◌*◌, ◌≤◌, min, ◌≡◌, refl, ◌&&◌, Option, none, some, List, [], ◌∷◌, arith,
  if◌then◌else◌, ltb, leb, length, ok, throw, unauthorized,
}
use fieldserviceit_backend.Auth.{LoginAbuseState}
use fieldserviceit_backend.Auth.Lockout.{enforce_login_backoff, record_login_failure}

-- The row after a first failure and later ones at the given times, the latest first.
abbrev pub failures : ℕ → List ℕ → LoginAbuseState
failures first [] = record_login_failure first none
failures first (now ∷ past) = record_login_failure now (some (failures first past))

abbrev pub last_failure : ℕ → List ℕ → ℕ
last_failure first [] = first
last_failure first (now ∷ past) = now

-- Each failure comes at most fifteen minutes after the one before it.
abbrev pub IsBurst : ℕ → List ℕ → Type 0
IsBurst first [] = Unit
IsBurst first (now ∷ past) =
    (last_failure first past ≤ now) × (now ≤ last_failure first past + 900000) × IsBurst first past

-- The lock that a number of failures leaves.
abbrev lock_after : ℕ → ℕ → Option ℕ
lock_after n last = if leb 5 n then some (last + 900000) else none

failures_counted :
    (first : ℕ) (times : List ℕ)
    → IsBurst first times
    → ((failures first times).failure_count ≡ suc (length times))
      × ((failures first times).last_failure_at ≡ last_failure first times)
      × ((failures first times).locked_until
          ≡ lock_after (suc (length times)) (last_failure first times))
unfolding record_login_failure
failures_counted first [] burst = (refl, refl, refl)
failures_counted first (now ∷ past) (after, soon, burst) =
    let (count, last, lock) = failures_counted first past burst in
    (ground (arith, count, last), refl, ground (arith, count, last, lock))

-- After a burst of failures, each at most fifteen minutes after the one before it, a sign-in is
-- refused exactly when they were five or more and the last one was less than fifteen minutes ago;
-- otherwise it waits 250 milliseconds per failure, at most two seconds.
pub enforce_login_backoff-failures :
    (first now : ℕ) (times : List ℕ)
    → IsBurst first times
    → enforce_login_backoff now (some (failures first times)) ≡ (
        if leb 5 (suc (length times)) && ltb now (last_failure first times + 900000)
        then throw (unauthorized "Invalid credentials")
        else ok (min 2000 (suc (length times) * 250)))
unfolding enforce_login_backoff
enforce_login_backoff-failures first now times burst =
    let (count, last, lock) = failures_counted first times burst in ground (arith, count, lock)
