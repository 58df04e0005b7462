-- ===== src/Auth/Guessing.antt =====
-- Repeated wrong passwords (src/modules/auth/services/auth.service.ts).
use fieldserviceit_backend.Base.{
  ℕ, suc, ◌+◌, ◌*◌, ◌≤◌, ◌<◌, min, String, ◌≡◌, refl, ◌∙◌, true, false, Option, none, some, List,
  [], ◌∷◌, arith, eq_refl, leb, lt→ltb, length, ok, throw, unauthorized, Outcome,
}
use fieldserviceit_backend.Base.Map.{get, get-set}
use fieldserviceit_backend.Auth.{Account, AuthStore, LoginAbuseState, SessionContext}
use fieldserviceit_backend.Auth.Lockout.{enforce_login_backoff, record_login_failure}
use fieldserviceit_backend.Auth.Backoff.{
  failures, last_failure, IsBurst, enforce_login_backoff-failures,
}
use fieldserviceit_backend.Auth.Tokens.{Draw}
use fieldserviceit_backend.Auth.Login.{
  Deployment, LoginAnswer, accepts_password, account_by_email, login, login_email_hash,
  store_login_failure,
}

-- What a caller sends.
pub record Credentials : Type 0 where
  pub email : String
  pub password : String
  pub code : Option String
  pub context : SessionContext

abbrev pub try_login :
    Deployment → (ℕ → Draw) → Credentials → ℕ → AuthStore → Outcome AuthStore LoginAnswer
try_login env draws sent now store =
    login env now draws sent.email sent.password sent.code sent.context store

-- The tables after sign-ins at the given times, the latest first.
abbrev pub after_logins : Deployment → (ℕ → Draw) → Credentials → ℕ → List ℕ → AuthStore → AuthStore
after_logins env draws sent first [] store = (try_login env draws sent first store).1
after_logins env draws sent first (now ∷ past) store =
    (try_login env draws sent now (after_logins env draws sent first past store)).1

abbrev pub abuse_key : Deployment → String → String
abuse_key env email = login_email_hash env.crypto (env.crypto.lower_trim email)

-- Whether the account of the email accepts the password.
abbrev pub known_account : Deployment → Credentials → AuthStore → Option Account
known_account env sent store =
    accepts_password env.crypto sent.password
      (account_by_email (env.crypto.lower_trim sent.email) store.accounts)

module _ (env : Deployment) (draws : ℕ → Draw) (sent : Credentials) where
  login_wrong :
      (now delay : ℕ) (row : Option LoginAbuseState) (store : AuthStore)
      → get store.abuse (abuse_key env sent.email) ≡ row
      → enforce_login_backoff now row ≡ ok delay
      → known_account env sent store ≡ none
      → (get (try_login env draws sent now store).1.abuse (abuse_key env sent.email)
          ≡ some (record_login_failure now row))
        × (known_account env sent (try_login env draws sent now store).1 ≡ none)
  unfolding login store_login_failure
  login_wrong now delay row store found passes wrong =
      let key = abuse_key env sent.email in
      let written = get-set store.abuse key key (record_login_failure now (get store.abuse key)) in
      let own = eq_refl key in
      (ground (arith, found, passes, wrong, written, own), ground (arith, found, passes, wrong))

  after_logins-failures :
      (first : ℕ) (times : List ℕ) (store : AuthStore)
      → get store.abuse (abuse_key env sent.email) ≡ none
      → known_account env sent store ≡ none
      → IsBurst first times
      → length times ≤ 4
      → (get (after_logins env draws sent first times store).abuse (abuse_key env sent.email)
          ≡ some (failures first times))
        × (known_account env sent (after_logins env draws sent first times store) ≡ none)
  unfolding enforce_login_backoff
  after_logins-failures first [] store clear wrong burst few =
      login_wrong first 0 none store clear refl wrong
  after_logins-failures first (now ∷ past) store clear wrong (after, soon, burst) few =
      let (row, still) = after_logins-failures first past store clear wrong burst (omega arith) in
      let open_ : leb 5 (suc (length past)) ≡ false = ground arith in
      login_wrong now (min 2000 (suc (length past) * 250)) (some (failures first past))
        (after_logins env draws sent first past store) row
        (enforce_login_backoff-failures first now past burst ∙ ground (arith, open_)) still

-- After five sign-ins with a password that the account of the email does not accept, each at most
-- fifteen minutes after the one before it and the first with no failure on record, every sign-in
-- with the email is refused for fifteen minutes, whatever the password and code, and leaves the
-- tables as they are.
pub login-locked :
    (env : Deployment) (draws draws' : ℕ → Draw) (sent sent' : Credentials) (first now : ℕ)
    (times : List ℕ) (store : AuthStore)
    → get store.abuse (abuse_key env sent.email) ≡ none
    → known_account env sent store ≡ none
    → IsBurst first times
    → length times ≡ 4
    → now < last_failure first times + 900000
    → sent'.email ≡ sent.email
    → try_login env draws' sent' now (after_logins env draws sent first times store)
      ≡ (throw (unauthorized "Invalid credentials"), after_logins env draws sent first times store)
unfolding login
login-locked env draws draws' sent sent' first now times store clear wrong burst five soon same =
    let (row, still) =
      after_logins-failures env draws sent first times store clear wrong burst
        (omega (arith, five)) in
    let many : leb 5 (suc (length times)) ≡ true = ground (arith, five) in
    let early = lt→ltb now (last_failure first times + 900000) soon in
    let locked : enforce_login_backoff now (some (failures first times))
        ≡ throw (unauthorized "Invalid credentials") =
      enforce_login_backoff-failures first now times burst ∙ ground (arith, many, early) in
    rw same (ground (arith, row, locked))
