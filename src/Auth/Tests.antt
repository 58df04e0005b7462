-- ===== src/Auth/Tests.antt =====
-- Small tables on which the properties of sign-in apply.
use Prim.Native.String.{◌++◌ as append}
use fieldserviceit_backend.Base.{
  ℕ, zero, suc, ◌≤◌, ◌≡◌, refl, true, false, none, some, List, [], ◌∷◌, ◌==◌, arith, any, ok, throw,
  unauthorized, count_where,
}
use mathlib.Core.List.{Memᴰ}
use fieldserviceit_backend.Base.Map.{get}
use fieldserviceit_backend.Auth.Backoff.{IsBurst}
use fieldserviceit_backend.Auth.{Account, AuthStore, Session, SecurityPolicy, Crypto}
use fieldserviceit_backend.Auth.Sessions.{
  hash_credential, credential_lookup_values, find_by_refresh_token, is_unrevoked, is_active, rotate,
  record_rotation,
}
use fieldserviceit_backend.Auth.Tokens.{
  Tokens, Draw, create_session, max_active_sessions, write_session, issue_tokens, attempt_tokens,
  retry, token_loop, generate_tokens, granted, trimmed, with_sessions, new_session, session_expiry,
}
use fieldserviceit_backend.Auth.Refresh.{refresh_session, refresh, no_context}
use fieldserviceit_backend.Auth.Mfa.{
  verify_totp, is_six_digits, hash_recovery_code, verify_account_code, verify_user_code,
}
use fieldserviceit_backend.Auth.Login.{Deployment, accepts_password, login}
use fieldserviceit_backend.Auth.Recovery.{verify_user_code-once, verify_totp-window}
use fieldserviceit_backend.Auth.Guessing.{Credentials, try_login, after_logins, login-locked}
use fieldserviceit_backend.Auth.Draws.{generate_tokens-answers, active-generate_tokens}
use fieldserviceit_backend.Auth.Reuse.{refresh-reused}
use fieldserviceit_backend.Auth.Stored.{refresh-stored}

abbrev pub crypto : Crypto
crypto = record {
  sha256 = λ s. append "#" s;
  bcrypt_compare = λ password hash. password == hash;
  hotp = λ secret step. "123456";
  lower_trim = λ s. s;
  trim = λ s. s;
  trim_upper = λ s. s;
  alphanumeric_upper = λ s. s;
}

abbrev pub policy : SecurityPolicy
policy = record {
  session_lifetime_days = some 7;
  max_active_sessions = some 1;
  require_mfa_super_admin = true;
  require_mfa_tenant_admin = true;
  require_mfa_technicians = false;
}

abbrev pub ana : Account
ana = record {
  id = "ana";
  email = "ana@x";
  role = "TENANT_ADMIN";
  user_type = "BUSINESS";
  company_id = some "c1";
  is_active = true;
  auth_version = 0;
  password_hash = some "secret";
  mfa_enabled = true;
  mfa_secret = some "base32";
  mfa_pending_secret = none;
  mfa_recovery_codes = "#R1" ∷ "#R2" ∷ [];
  last_login_at = none;
  is_break_glass = false;
  email_verified = true;
  email_verification_token = none;
  email_verification_expires_at = none;
  reset_token = none;
  reset_token_expires_at = none;
}

abbrev pub laptop : Session
laptop = new_session 1000 "ana" no_context 900000 "s1" "sha256:#t1"

abbrev pub store : AuthStore
store = record {
  accounts = ana ∷ [];
  sessions = laptop ∷ [];
  history = [];
  abuse = [];
  alerts = [];
}

-- The first draw is a token that the laptop's session holds.
abbrev draws : ℕ → Draw
draws zero = record { refresh_token = "t1"; session_id = "s2" }
draws (suc i) = record { refresh_token = "t2"; session_id = "s3" }

generate_tokens-answers_example :
    (tokens : Tokens) × (store' : AuthStore) × (i : ℕ) × (generate_tokens crypto.sha256 5000 policy
        ana no_context none draws store
      ≡ (ok tokens, store'))
    × (i ≤ 1)
    × (tokens.refresh_token ≡ (draws i).refresh_token)
unfolding hash_credential
generate_tokens-answers_example =
    generate_tokens-answers crypto.sha256 5000 policy ana no_context draws 1 store (omega arith)
      refl

abbrev second_store : AuthStore
second_store = trimmed 5000 policy ana "s3" (
    with_sessions
      (new_session 5000 "ana" no_context (session_expiry 5000 policy) "s3" "sha256:#t2"
        ∷ laptop
        ∷ [])
      store)

other_ids :
    (i : ℕ) → count_where (λ (row : Session). row.id == (draws i).session_id) store.sessions ≡ 0
other_ids zero = refl
other_ids (suc i) = refl

active-generate_tokens_example :
    (count_where (is_active 5000 "ana") second_store.sessions ≤ suc (max_active_sessions policy))
    × (max_active_sessions policy ≤ 50)
unfolding generate_tokens token_loop retry attempt_tokens write_session create_session issue_tokens
    hash_credential
active-generate_tokens_example =
    active-generate_tokens crypto.sha256 5000 policy ana no_context draws store second_store
      (granted ana (draws 1) "s3") refl other_ids

abbrev pub fresh_draws : ℕ → Draw
fresh_draws i = record { refresh_token = "t2"; session_id = "s3" }

abbrev refreshed_store : AuthStore
refreshed_store = (refresh crypto.sha256 5000 policy fresh_draws "t1" store).1

refresh-reused_example :
    ((refresh crypto.sha256 9000 policy fresh_draws "t1" refreshed_store).0
      ≡ throw (unauthorized "Invalid refresh token"))
    × (any
          (is_unrevoked "ana")
          (refresh crypto.sha256 9000 policy fresh_draws "t1" refreshed_store).1.sessions
        ≡ false)
unfolding refresh refresh_session find_by_refresh_token generate_tokens token_loop retry
    attempt_tokens write_session rotate record_rotation issue_tokens credential_lookup_values
    hash_credential
refresh-reused_example =
    refresh-reused crypto.sha256 5000 9000 policy policy fresh_draws fresh_draws "t1" store
      refreshed_store (granted ana (fresh_draws 0) "s1") refl (omega arith) refl (λ i. refl)
      (omega arith)

refresh-stored_example :
    (tokens : Tokens) × (store' : AuthStore) × (refresh crypto.sha256 5000 policy fresh_draws
        "sha256:#t1" store
      ≡ (ok tokens, store'))
    × (tokens.access.sub ≡ "ana")
    × (tokens.access.sid ≡ "s1")
    × (tokens.access.role ≡ "TENANT_ADMIN")
unfolding credential_lookup_values hash_credential
refresh-stored_example =
    refresh-stored crypto.sha256 5000 policy fresh_draws laptop ana store (Memᴰ.head refl) refl
      (omega arith) (omega arith) refl refl refl

abbrev deployment : Deployment
deployment = record { crypto = crypto; policy = some policy; mfa_exempt = false }

abbrev signed_in_store : AuthStore
signed_in_store =
    (login deployment 5000 fresh_draws "ana@x" "secret" (some "123456") no_context store).1

abbrev wrong : Credentials
wrong = record { email = "ana@x"; password = "guess"; code = none; context = no_context }

abbrev right : Credentials
right = record { email = "ana@x"; password = "secret"; code = some "123456"; context = no_context }

abbrev times : List ℕ
times = 50000 ∷ 40000 ∷ 30000 ∷ 20000 ∷ []

burst : IsBurst 10000 times
burst = ground arith

login-locked_example :
    try_login deployment fresh_draws right 900000
      (after_logins deployment fresh_draws wrong 10000 times store)
    ≡ (
      throw (unauthorized "Invalid credentials"),
      after_logins deployment fresh_draws wrong 10000 times store,
    )
unfolding accepts_password get
login-locked_example =
    login-locked deployment fresh_draws fresh_draws wrong right 10000 900000 times store refl refl
      burst refl (omega arith) refl

abbrev code_used : AuthStore
code_used = (verify_user_code crypto 5000 "ana" "R2" store).1

verify_user_code-once_example :
    verify_user_code crypto 6000 "ana" "R2" code_used
    ≡ (throw (unauthorized "Invalid MFA code"), code_used)
unfolding verify_user_code verify_account_code is_six_digits hash_recovery_code
verify_user_code-once_example =
    verify_user_code-once crypto 5000 6000 "ana" "R2" ana store code_used refl refl (omega arith)
      refl

code_within_window : verify_totp crypto "base32" "123456" 70000 ≡ true
code_within_window =
    verify_totp-window crypto "base32" "123456" 45000 70000 refl (omega arith) (omega arith)
