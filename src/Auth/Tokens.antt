-- ===== src/Auth/Tokens.antt =====
-- `generateTokens` of AuthService (src/modules/auth/services/auth.service.ts).
use fieldserviceit_backend.Base.{
  ℕ, zero, suc, ◌+◌, ◌*◌, min, max, String, Bool, false, ◌||◌, not, Option, none, some, List, ◌∷◌,
  ◌==◌, if◌then◌else◌, nat_eq, any, find, Outcome, ◌▷◌, ok, throw, Exception, unauthorized,
  server_error,
}
use fieldserviceit_backend.Auth.{Account, AuthStore, Session, SessionContext, SecurityPolicy}
use fieldserviceit_backend.Auth.Sessions.{hash_credential, rotate, trim_sessions, duplicate_entry}

-- What is signed into the access token.
pub record AccessPayload : Type 0 where
  pub sub : String
  pub sid : String
  pub email : String
  pub role : String
  pub user_type : String
  pub company_id : Option String
  pub av : ℕ

-- The answer: the payload stands for the signed access token.
pub record Tokens : Type 0 where
  pub access : AccessPayload
  pub refresh_token : String
  pub expires_in : ℕ

-- What an attempt draws: 32 random bytes in hexadecimal, and the id of a new row of Session.
pub record Draw : Type 0 where
  pub refresh_token : String
  pub session_id : String

-- `Number(value || d)`.
abbrev pub number_or : ℕ → Option ℕ → ℕ
number_or d none = d
number_or d (some n) = if nat_eq n 0 then d else n

unfoldable pub session_lifetime_days : SecurityPolicy → ℕ
session_lifetime_days policy = min (max (number_or 7 policy.session_lifetime_days) 1) 30

unfoldable pub max_active_sessions : SecurityPolicy → ℕ
max_active_sessions policy = min (max (number_or 10 policy.max_active_sessions) 1) 50

abbrev pub session_expiry : ℕ → SecurityPolicy → ℕ
session_expiry now policy = now + session_lifetime_days policy * 86400000

abbrev pub new_session : ℕ → String → SessionContext → ℕ → String → String → Session
new_session now user_id context expires_at id hash = record {
  id = id;
  user_id = user_id;
  refresh_token = hash;
  ip_address = context.ip_address;
  user_agent = context.user_agent;
  created_at = now;
  last_seen_at = some now;
  mfa_verified_at = context.mfa_verified_at;
  expires_at = expires_at;
  revoked_at = none;
  revoked_by_id = none;
  revoke_reason = none;
}

abbrev pub with_sessions : List Session → AuthStore → AuthStore
with_sessions sessions store = record store { sessions = sessions }

-- `session.create`; the column refreshToken is unique, and the id is the primary key.
unfoldable pub create_session :
    ℕ → String → SessionContext → ℕ → String → String → AuthStore → Outcome AuthStore String
create_session now user_id context expires_at id hash store =
    if any (λ (row : Session). (row.refresh_token == hash) || (row.id == id)) store.sessions
    then (throw (server_error duplicate_entry), store)
    else (
      ok id,
      with_sessions (new_session now user_id context expires_at id hash ∷ store.sessions) store,
    )

-- The session and the token that a refresh starts from.
pub record Existing : Type 0 where
  pub session_id : String
  pub refresh_token : String

abbrev pub rotated_id : Option String → AuthStore → Outcome AuthStore String
rotated_id none store = (throw (unauthorized "Refresh token has already been rotated"), store)
rotated_id (some id) store = (ok id, store)

unfoldable pub write_session :
    (String → String)
    → ℕ
    → String
    → SessionContext
    → ℕ
    → Option Existing
    → Draw
    → AuthStore
    → Outcome AuthStore String
write_session sha256 now user_id context expires_at none draw store =
    create_session now user_id context expires_at draw.session_id
      (hash_credential sha256 draw.refresh_token) store
write_session sha256 now user_id context expires_at (some old) draw store =
    rotate sha256 now old.session_id user_id old.refresh_token
      (hash_credential sha256 draw.refresh_token) expires_at context.mfa_verified_at store
    ▷ rotated_id

abbrev pub payload : Account → String → AccessPayload
payload user sid = record {
  sub = user.id;
  sid = sid;
  email = user.email;
  role = user.role;
  user_type = user.user_type;
  company_id = user.company_id;
  av = user.auth_version;
}

abbrev pub granted : Account → Draw → String → Tokens
granted user draw sid = record {
  access = payload user sid;
  refresh_token = draw.refresh_token;
  expires_in = 900;
}

abbrev pub trimmed : ℕ → SecurityPolicy → Account → String → AuthStore → AuthStore
trimmed now policy user sid store =
    with_sessions (trim_sessions now user.id (max_active_sessions policy) sid store.sessions) store

unfoldable pub issue_tokens :
    ℕ → SecurityPolicy → Account → Draw → String → AuthStore → Outcome AuthStore Tokens
issue_tokens now policy user draw sid store =
    (ok (granted user draw sid), trimmed now policy user sid store)

-- One round of the loop.
unfoldable pub attempt_tokens :
    (String → String)
    → ℕ
    → SecurityPolicy
    → Account
    → SessionContext
    → Option Existing
    → Draw
    → AuthStore
    → Outcome AuthStore Tokens
attempt_tokens sha256 now policy user context existing draw store =
    write_session sha256 now user.id context (session_expiry now policy) existing draw store
    ▷ issue_tokens now policy user draw

abbrev pub is_duplicate : Exception → Bool
is_duplicate (server_error message) = message == duplicate_entry
is_duplicate (Exception.bad_request message) = false
is_duplicate (unauthorized message) = false
is_duplicate (Exception.forbidden message) = false
is_duplicate (Exception.not_found message) = false
is_duplicate (Exception.conflict message) = false
is_duplicate (Exception.service_unavailable message) = false

-- What the `catch` of a round does: `more` is what the further rounds answer.
unfoldable pub retry :
    Bool
    → (AuthStore → Outcome AuthStore Tokens)
    → Outcome AuthStore Tokens
    → Outcome AuthStore Tokens
retry is_last more (ok tokens, store) = (ok tokens, store)
retry is_last more (throw error, store) =
    if not (is_duplicate error) || is_last then (throw error, store) else more store

-- The loop with `left` rounds to go; the round `i` draws `draws i`.
unfoldable pub token_loop :
    (String → String)
    → ℕ
    → SecurityPolicy
    → Account
    → SessionContext
    → Option Existing
    → (ℕ → Draw)
    → ℕ
    → ℕ
    → AuthStore
    → Outcome AuthStore Tokens
token_loop sha256 now policy user context existing draws zero i store =
    (throw (unauthorized "Unable to create session"), store)
token_loop sha256 now policy user context existing draws (suc left) i store =
    retry (nat_eq left 0)
      (λ s. token_loop sha256 now policy user context existing draws left (suc i) s)
      (attempt_tokens sha256 now policy user context existing (draws i) store)

unfoldable pub generate_tokens :
    (String → String)
    → ℕ
    → SecurityPolicy
    → Account
    → SessionContext
    → Option Existing
    → (ℕ → Draw)
    → AuthStore
    → Outcome AuthStore Tokens
generate_tokens sha256 now policy user context existing draws store =
    token_loop sha256 now policy user context existing draws 5 0 store

abbrev pub account_by_id : String → List Account → Option Account
account_by_id id accounts = find (λ (a : Account). a.id == id) accounts

abbrev pub company_of : Option Account → Option String
company_of none = none
company_of (some user) = user.company_id

-- `insertSecurityAlert`.
abbrev pub insert_security_alert : Option String → String → String → String → AuthStore → AuthStore
insert_security_alert company_id alert_type severity subject_id store = record store {
  alerts =
      record {
        company_id = company_id;
        alert_type = alert_type;
        severity = severity;
        subject_id = subject_id;
      }
      ∷ store.alerts;
}
