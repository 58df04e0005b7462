-- ===== src/Auth/Refresh.antt =====
-- `refresh` and `logout` of AuthService (src/modules/auth/services/auth.service.ts).
use fieldserviceit_backend.Base.{
  ℕ, String, ◌||◌, not, none, some, ◌==◌, if◌then◌else◌, ltb, is_none, Outcome, throw, unauthorized,
  server_error,
}
use fieldserviceit_backend.Auth.{AuthStore, Session, SessionContext, SecurityPolicy}
use fieldserviceit_backend.Auth.Sessions.{
  find_by_refresh_token, find_reused_token, revoke_active_family, revoke_by_refresh_token,
}
use fieldserviceit_backend.Auth.Tokens.{
  generate_tokens, account_by_id, company_of, insert_security_alert, Tokens, Draw,
}

-- The answer to a token that no session holds.
unfoldable pub report_reuse : (String → String) → ℕ → String → AuthStore → AuthStore
report_reuse sha256 now token store =
    elim (find_reused_token sha256 now token store.history) as (λ o. AuthStore) [
      | none ↦ store
      | some reused ↦
          insert_security_alert (company_of (account_by_id reused.user_id store.accounts))
            "REFRESH_TOKEN_REUSE" "critical" reused.user_id
            (revoke_active_family now reused.user_id "refresh-token-reuse" store)
    ]

abbrev pub no_context : SessionContext
no_context = record { ip_address = none; user_agent = none; mfa_verified_at = none }

-- A session of a user who is not there makes the handler fail.
unfoldable pub refresh_session :
    (String → String)
    → ℕ
    → SecurityPolicy
    → (ℕ → Draw)
    → String
    → Session
    → AuthStore
    → Outcome AuthStore Tokens
refresh_session sha256 now policy draws token session store =
    if ltb session.expires_at now || not (is_none session.revoked_at)
    then (throw (unauthorized "Invalid refresh token"), store)
    else elim (account_by_id session.user_id store.accounts) as (λ o. Outcome AuthStore Tokens) [
      | none ↦ (throw (server_error "user is null"), store)
      | some user ↦
          generate_tokens sha256 now policy user no_context
            (some (record { session_id = session.id; refresh_token = token })) draws store
    ]

unfoldable pub refresh :
    (String → String)
    → ℕ
    → SecurityPolicy
    → (ℕ → Draw)
    → String
    → AuthStore
    → Outcome AuthStore Tokens
refresh sha256 now policy draws token store =
    if token == ""
    then (throw (unauthorized "Invalid refresh token"), store)
    else elim (find_by_refresh_token sha256 token store.sessions)
        as (λ o. Outcome AuthStore Tokens) [
          | none ↦
              (throw (unauthorized "Invalid refresh token"), report_reuse sha256 now token store)
          | some session ↦ refresh_session sha256 now policy draws token session store
        ]

unfoldable pub logout : (String → String) → ℕ → String → AuthStore → AuthStore
logout sha256 now token store =
    if token == "" then store else revoke_by_refresh_token sha256 now token "logout" store
