-- ===== src/Auth/Login.antt =====
-- Sign-in with a password, of AuthService (src/modules/auth/services/auth.service.ts). A challenge token
-- is given by the account and the purpose that it was signed for.
use fieldserviceit_backend.Base.{
  ℕ, ◌-◌, String, Bool, false, not, ◌&&◌, ◌||◌, Option, none, some, List, [], ◌∷◌, ◌==◌,
  if◌then◌else◌, leb, any, find, includes, truthy, or_else, Outcome, ◌▷◌, ok, throw, unauthorized,
  check,
}
use fieldserviceit_backend.Base.Map.{get, set, delete}
use fieldserviceit_backend.Auth.{
  Account, AuthStore, Session, SessionContext, SecurityPolicy, Crypto,
}
use fieldserviceit_backend.Auth.Lockout.{enforce_login_backoff, record_login_failure}
use fieldserviceit_backend.Auth.Sessions.{is_unrevoked}
use fieldserviceit_backend.Auth.Tokens.{Tokens, Draw, generate_tokens, insert_security_alert}
use fieldserviceit_backend.Auth.Mfa.{is_required, verify_user_code, update_account}

-- What a sign-in answers.
pub data LoginAnswer : Type 0 where
  signed_in : Tokens → LoginAnswer
  mfa_challenge mfa_enrollment : String → LoginAnswer

-- What the services see of the deployment: the stored policy, if it can be read, and whether the
-- end-to-end tests switch the requirement of a second factor off.
pub record Deployment : Type 0 where
  pub crypto : Crypto
  pub policy : Option SecurityPolicy
  pub mfa_exempt : Bool

abbrev pub policy_or_default : Option SecurityPolicy → SecurityPolicy
policy_or_default none = record {
  session_lifetime_days = none;
  max_active_sessions = none;
  require_mfa_super_admin = false;
  require_mfa_tenant_admin = false;
  require_mfa_technicians = false;
}
policy_or_default (some policy) = policy

abbrev pub login_email_hash : Crypto → String → String
login_email_hash crypto email = crypto.sha256 (crypto.lower_trim email)

unfoldable pub store_login_failure : Crypto → ℕ → String → AuthStore → AuthStore
store_login_failure crypto now email store =
    let key = login_email_hash crypto email in
    record store { abuse = set store.abuse key (record_login_failure now (get store.abuse key)) }

unfoldable pub clear_login_failures : Crypto → String → AuthStore → AuthStore
clear_login_failures crypto email store = record store {
  abuse = delete store.abuse (login_email_hash crypto email);
}

-- `x IS NOT NULL AND x <> ?`.
abbrev pub differs : Option String → String → Bool
differs none s = false
differs (some t) s = not (t == s)

abbrev pub signal : Bool → Option String → String → String → String → AuthStore → AuthStore
signal raised company_id alert_type severity subject_id store =
    if raised then insert_security_alert company_id alert_type severity subject_id store else store

unfoldable pub record_login_security_signals : ℕ → Account → SessionContext → AuthStore → AuthStore
record_login_security_signals now user context store =
    let other = λ (row : Session).
      is_unrevoked user.id row
      && leb (now - 7776000000) row.created_at
      && (differs row.ip_address (or_else context.ip_address "")
          || differs row.user_agent (or_else context.user_agent "")) in
    if includes ("SUPER_ADMIN" ∷ "TENANT_ADMIN" ∷ []) user.role
    then signal user.is_break_glass user.company_id "BREAK_GLASS_LOGIN" "critical" user.id (
        signal (any other store.sessions) user.company_id "PRIVILEGED_NEW_CONTEXT" "warning" user.id
          store)
    else store

abbrev pub finish_login :
    ℕ → Account → SessionContext → Tokens → AuthStore → Outcome AuthStore LoginAnswer
finish_login now user context tokens store = (
  ok (signed_in tokens),
  update_account user.id (λ a. record a { last_login_at = some now })
      (record_login_security_signals now user context store),
)

-- The tokens, the security signals and the time of the last login, in this order.
unfoldable pub open_session :
    Deployment
    → ℕ
    → (ℕ → Draw)
    → Account
    → SessionContext
    → AuthStore
    → Outcome AuthStore LoginAnswer
open_session env now draws user context store =
    generate_tokens env.crypto.sha256 now (policy_or_default env.policy) user context none draws
      store
    ▷ finish_login now user context

abbrev pub verified : ℕ → SessionContext → SessionContext
verified now context = record context { mfa_verified_at = some now }

abbrev pub clear_and_open :
    Deployment
    → ℕ
    → (ℕ → Draw)
    → String
    → Account
    → SessionContext
    → AuthStore
    → Outcome AuthStore LoginAnswer
clear_and_open env now draws email user context store =
    open_session env now draws user context (clear_login_failures env.crypto email store)

abbrev pub open_verified :
    Deployment
    → ℕ
    → (ℕ → Draw)
    → String
    → Account
    → SessionContext
    → Bool
    → AuthStore
    → Outcome AuthStore LoginAnswer
open_verified env now draws email user context passed store =
    clear_and_open env now draws email user (verified now context) store

-- `login` after the password was accepted.
unfoldable pub second_factor :
    Deployment
    → ℕ
    → (ℕ → Draw)
    → String
    → Option String
    → SessionContext
    → Account
    → AuthStore
    → Outcome AuthStore LoginAnswer
second_factor env now draws email code context user store =
    if user.mfa_enabled
    then (if truthy code
        then verify_user_code env.crypto now user.id (or_else code "") store
          ▷ open_verified env now draws email user context
        else (ok (mfa_challenge user.id), store))
    else if is_required env.mfa_exempt env.policy user.role
    then (ok (mfa_enrollment user.id), store)
    else clear_and_open env now draws email user context store

-- Whether the row that was found may sign in with the password.
unfoldable pub accepts_password : Crypto → String → Option Account → Option Account
accepts_password crypto password none = none
accepts_password crypto password (some user) =
    if user.is_active
      && truthy user.password_hash
      && crypto.bcrypt_compare password (or_else user.password_hash "")
    then some user
    else none

abbrev pub account_by_email : String → List Account → Option Account
account_by_email email accounts = find (λ (a : Account). a.email == email) accounts

abbrev pub sign_in_account :
    Deployment
    → ℕ
    → (ℕ → Draw)
    → String
    → Option String
    → SessionContext
    → Option Account
    → AuthStore
    → Outcome AuthStore LoginAnswer
sign_in_account env now draws email code context none store =
    (throw (unauthorized "Invalid credentials"), store_login_failure env.crypto now email store)
sign_in_account env now draws email code context (some user) store =
    second_factor env now draws email code context user store

-- The wait that the backoff asks for ends before `now`.
unfoldable pub login :
    Deployment
    → ℕ
    → (ℕ → Draw)
    → String
    → String
    → Option String
    → SessionContext
    → AuthStore
    → Outcome AuthStore LoginAnswer
login env now draws email password code context store =
    let normalized = env.crypto.lower_trim email in
    check (enforce_login_backoff now (get store.abuse (login_email_hash env.crypto normalized)))
      store
    ▷ λ delay s.
        sign_in_account env now draws normalized code context
          (accepts_password env.crypto password (account_by_email normalized s.accounts)) s
