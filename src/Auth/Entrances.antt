-- ===== src/Auth/Entrances.antt =====
-- The ways to sign in without a password, and the step up of a session, of AuthService
-- (src/modules/auth/services/auth.service.ts).
use fieldserviceit_backend.Base.{
  ℕ, ◌+◌, String, Bool, not, ◌&&◌, Option, none, some, ◌==◌, if◌then◌else◌, any, truthy, or_else,
  Outcome, ◌▷◌, ok, throw, unauthorized, update_where,
}
use fieldserviceit_backend.Auth.{Account, AuthStore, Session, SessionContext, Crypto}
use fieldserviceit_backend.Auth.Sessions.{is_active}
use fieldserviceit_backend.Auth.Tokens.{Draw, account_by_id}
use fieldserviceit_backend.Auth.Mfa.{is_required, verify_user_code}
use fieldserviceit_backend.Auth.Login.{
  open_session, verified, clear_and_open, open_verified, Deployment, LoginAnswer, mfa_enrollment,
}

-- An account that may be signed in without its password.
abbrev pub usable : Option Account → Option Account
usable none = none
usable (some user) = if user.is_active then some user else none

abbrev pub with_account :
    Option Account
    → String
    → (Account → AuthStore → Outcome AuthStore LoginAnswer)
    → AuthStore
    → Outcome AuthStore LoginAnswer
with_account none refusal next store = (throw (unauthorized refusal), store)
with_account (some user) refusal next store = next user store

-- `challenge` is the account of a valid token whose purpose is `login`.
unfoldable pub confirm_challenge_login :
    Deployment
    → ℕ
    → (ℕ → Draw)
    → Option String
    → String
    → SessionContext
    → AuthStore
    → Outcome AuthStore LoginAnswer
confirm_challenge_login env now draws none code context store =
    (throw (unauthorized "MFA challenge is invalid or expired"), store)
confirm_challenge_login env now draws (some user_id) code context store =
    with_account (usable (account_by_id user_id store.accounts)) "MFA challenge is invalid"
      (λ user s.
        verify_user_code env.crypto now user.id code s
        ▷ open_verified env now draws user.email user context)
      store

unfoldable pub complete_sso_login :
    Deployment
    → ℕ
    → (ℕ → Draw)
    → String
    → SessionContext
    → Bool
    → AuthStore
    → Outcome AuthStore LoginAnswer
complete_sso_login env now draws user_id context trusted_mfa store =
    with_account (usable (account_by_id user_id store.accounts)) "SSO account is not available"
      (λ user s.
        if is_required env.mfa_exempt env.policy user.role
          && not trusted_mfa
          && not user.mfa_enabled
        then (ok (mfa_enrollment user.id), s)
        else open_session env now draws user (if trusted_mfa then verified now context else context)
            s)
      store

unfoldable pub complete_passkey_login :
    Deployment
    → ℕ
    → (ℕ → Draw)
    → String
    → SessionContext
    → AuthStore
    → Outcome AuthStore LoginAnswer
complete_passkey_login env now draws user_id context store =
    with_account (usable (account_by_id user_id store.accounts)) "Passkey authentication failed"
      (λ user s. clear_and_open env now draws user.email user (verified now context) s) store

abbrev pub step_up_verified : ℕ → String → String → Bool → AuthStore → Outcome AuthStore ℕ
step_up_verified now user_id session_id passed store =
    let hit = λ (row : Session). (row.id == session_id) && is_active now user_id row in
    let fresh =
      λ (row : Session). record row { mfa_verified_at = some now; last_seen_at = some now } in
    if any hit store.sessions
    then (ok (now + 600000), record store { sessions = update_where hit fresh store.sessions })
    else (throw (unauthorized "Session is not active"), store)

unfoldable pub step_up :
    Crypto → ℕ → String → Option String → String → AuthStore → Outcome AuthStore ℕ
step_up crypto now user_id session_id code store =
    if truthy session_id
    then verify_user_code crypto now user_id code store
      ▷ step_up_verified now user_id (or_else session_id "")
    else (throw (unauthorized "A revocable session is required"), store)
