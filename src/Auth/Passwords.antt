-- ===== src/Auth/Passwords.antt =====
-- The reset of a password and the verification of an email of AuthService
-- (src/modules/auth/services/auth.service.ts), and the policy of passwords
-- (src/common/security/password-policy.ts).
use fieldserviceit_backend.Base.{
  ℕ, ◌+◌, String, Bool, true, false, not, ◌&&◌, ◌||◌, Option, none, some, List, [], ◌∷◌, ◌==◌,
  if◌then◌else◌, ltb, leb, is_text, any, find, includes, select, Outcome, Result, ok, throw,
  bad_request,
}
use fieldserviceit_backend.Auth.{Account, AuthStore, Session}
use fieldserviceit_backend.Auth.Sessions.{hash_credential}
use fieldserviceit_backend.Auth.Tokens.{with_sessions}
use fieldserviceit_backend.Auth.Mfa.{update_account}
use fieldserviceit_backend.Auth.Login.{account_by_email}

-- What the policy reads of a password: its length in units of UTF-16, its normalised text in lower
-- case, and `holds`, whether that text includes another.
pub record Password : Type 0 where
  pub text : String
  pub length : ℕ
  pub normalized : String
  pub holds : String → Bool

abbrev blocked_passwords : List String
blocked_passwords =
    "123456789012345" ∷ "adminadminadmin" ∷ "changemechangeme" ∷ "fieldserviceit" ∷ "letmeinletmein"
    ∷ "passwordpassword" ∷ "qwertyqwertyqwerty" ∷ "welcome123456789" ∷ []

-- `words` are the parts of the context of four characters or more.
unfoldable pub password_policy_error : Password → List String → Option String
password_policy_error password words =
    if ltb password.length 15
    then some "Password must be at least 15 characters"
    else if ltb 128 password.length
    then some "Password must be no more than 128 characters"
    else if includes blocked_passwords password.normalized
    then some "Choose a password that is not commonly used or associated with this service"
    else if any password.holds words
    then some "Password must not contain your email address, name, or organization name"
    else none

unfoldable pub assert_password_policy : Password → List String → Result (Unit {0})
assert_password_policy password words =
    elim (password_policy_error password words) as (λ o. Result (Unit {0})) [
      | none ↦ ok tt
      | some error ↦ throw (bad_request error)
    ]

-- `column IN (hash, token) AND expiry >= NOW(3)`.
abbrev pub holds_credential : (String → String) → String → Option String → Bool
holds_credential sha256 token column =
    is_text column (hash_credential sha256 token) || is_text column token

abbrev pub expires_from : ℕ → Option ℕ → Bool
expires_from now none = false
expires_from now (some t) = leb now t

abbrev pub may_reset : (String → String) → ℕ → String → Account → Bool
may_reset sha256 now token a =
    holds_credential sha256 token a.reset_token && expires_from now a.reset_token_expires_at

abbrev pub may_verify : (String → String) → ℕ → String → Account → Bool
may_verify sha256 now token a =
    holds_credential sha256 token a.email_verification_token
    && expires_from now a.email_verification_expires_at

abbrev pub awaiting_reset : String → ℕ → Account → Account
awaiting_reset hash expires_at a = record a {
  reset_token = some hash;
  reset_token_expires_at = some expires_at;
}

abbrev pub with_password : String → Account → Account
with_password hash a = record a {
  password_hash = some hash;
  reset_token = none;
  reset_token_expires_at = none;
}

abbrev pub with_email : Account → Account
with_email a = record a {
  email_verified = true;
  email_verification_token = none;
  email_verification_expires_at = none;
}

-- `forgotPassword`, with the token that it draws and sends; every email is answered alike.
unfoldable pub forgot_password : (String → String) → ℕ → String → String → AuthStore → AuthStore
forgot_password sha256 now drawn email store =
    elim (account_by_email email store.accounts) as (λ o. AuthStore) [
      | none ↦ store
      | some user ↦
          update_account user.id (awaiting_reset (hash_credential sha256 drawn) (now + 3600000))
            store
    ]

abbrev pub is_session_of : String → Session → Bool
is_session_of user_id row = row.user_id == user_id

-- The new password and no sessions of the account.
unfoldable pub password_changed : String → String → AuthStore → AuthStore
password_changed hash user_id store =
    with_sessions (select (λ row. not (is_session_of user_id row)) store.sessions)
      (update_account user_id (with_password hash) store)

-- `bcrypt_hash` stands for the hash of the password.
unfoldable pub reset_password :
    (String → String)
    → (String → String)
    → ℕ
    → String
    → Password
    → AuthStore
    → Outcome AuthStore (Unit {0})
reset_password sha256 bcrypt_hash now token password store =
    elim (assert_password_policy password []) as (λ o. Outcome AuthStore (Unit {0})) [
      | throw e ↦ (throw e, store)
      | ok _ ↦
          elim (find (may_reset sha256 now token) store.accounts)
            as (λ o. Outcome AuthStore (Unit {0})) [
              | none ↦ (throw (bad_request "Invalid or expired reset token"), store)
              | some user ↦ (ok tt, password_changed (bcrypt_hash password.text) user.id store)
            ]
    ]

unfoldable pub verify_email :
    (String → String) → ℕ → String → AuthStore → Outcome AuthStore (Unit {0})
verify_email sha256 now token store =
    elim (find (may_verify sha256 now token) store.accounts)
      as (λ o. Outcome AuthStore (Unit {0})) [
        | none ↦ (throw (bad_request "Invalid or expired verification token"), store)
        | some user ↦ (ok tt, update_account user.id with_email store)
      ]
