-- ===== src/Auth.antt =====
-- Sign-in (src/modules/auth/services/): the rows of the tables User, Session,
-- SessionRefreshHistory and LoginAbuseState as the services read and write them.
pub mod Lockout
pub mod Sessions
pub mod Refresh
pub mod Mfa
pub mod Tokens
pub mod Login
pub mod Entrances
pub mod Passwords
pub mod Registration
mod Backoff
mod Guessing
mod SessionLimit
mod Draws
mod Spent
mod Reuse
mod Stored
mod SecondFactor
mod Recovery
mod Resets
mod Membership
mod RegistrationTests
mod Tests
mod PasswordTests
use fieldserviceit_backend.Base.{ℕ, String, Bool, Option, List}
use fieldserviceit_backend.Base.Map.{Map}

-- A row of User. The secrets are given decrypted, the recovery codes as the list of their hashes.
pub record Account : Type 0 where
  pub id : String
  pub email : String
  pub role : String
  pub user_type : String
  pub company_id : Option String
  pub is_active : Bool
  pub auth_version : ℕ
  pub password_hash : Option String
  pub mfa_enabled : Bool
  pub mfa_secret : Option String
  pub mfa_pending_secret : Option String
  pub mfa_recovery_codes : List String
  pub last_login_at : Option ℕ
  pub is_break_glass : Bool
  pub email_verified : Bool
  pub email_verification_token : Option String
  pub email_verification_expires_at : Option ℕ
  pub reset_token : Option String
  pub reset_token_expires_at : Option ℕ

pub record Session : Type 0 where
  pub id : String
  pub user_id : String
  pub refresh_token : String
  pub ip_address : Option String
  pub user_agent : Option String
  pub created_at : ℕ
  pub last_seen_at : Option ℕ
  pub mfa_verified_at : Option ℕ
  pub expires_at : ℕ
  pub revoked_at : Option ℕ
  pub revoked_by_id : Option String
  pub revoke_reason : Option String

-- A row of SessionRefreshHistory.
pub record Rotation : Type 0 where
  pub session_id : String
  pub user_id : String
  pub token_hash : String
  pub expires_at : ℕ

pub record LoginAbuseState : Type 0 where
  pub failure_count : ℕ
  pub locked_until : Option ℕ
  pub last_failure_at : ℕ

-- A row of SecurityAlert, without its summary and detail.
pub record SecurityAlert : Type 0 where
  pub company_id : Option String
  pub alert_type : String
  pub severity : String
  pub subject_id : String

-- The tables; the abuse states by the hash of the email.
pub record AuthStore : Type 0 where
  pub accounts : List Account
  pub sessions : List Session
  pub history : List Rotation
  pub abuse : Map LoginAbuseState
  pub alerts : List SecurityAlert

-- Functions that the services call: SHA-256 in hexadecimal, the comparison of bcrypt, the code of
-- an authenticator secret at a counter (`hotp`), `toLowerCase().trim()`, `trim()`, `trim().toUpperCase()`,
-- and a recovery code reduced to its letters and digits in upper case.
pub record Crypto : Type 0 where
  pub sha256 : String → String
  pub bcrypt_compare : String → String → Bool
  pub hotp : String → ℕ → String
  pub lower_trim : String → String
  pub trim : String → String
  pub trim_upper : String → String
  pub alphanumeric_upper : String → String

-- What a request says of its sender (SessionContext): texts that are not empty and fit the columns.
pub record SessionContext : Type 0 where
  pub ip_address : Option String
  pub user_agent : Option String
  pub mfa_verified_at : Option ℕ

-- The columns of PlatformSecurityPolicy that sign-in reads; `none` where the query fails or the
-- column is 0.
pub record SecurityPolicy : Type 0 where
  pub session_lifetime_days : Option ℕ
  pub max_active_sessions : Option ℕ
  pub require_mfa_super_admin : Bool
  pub require_mfa_tenant_admin : Bool
  pub require_mfa_technicians : Bool
