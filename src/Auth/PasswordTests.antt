-- ===== src/Auth/PasswordTests.antt =====
-- A reset of a password on the tables of Auth/Tests.
use fieldserviceit_backend.Base.{
  String, ◌≡◌, refl, ◌==◌, none, false, some, arith, any, find, ok, throw, bad_request,
}
use fieldserviceit_backend.Auth.{Account, AuthStore, Session}
use fieldserviceit_backend.Auth.Tokens.{account_by_id}
use fieldserviceit_backend.Auth.Sessions.{hash_credential}
use fieldserviceit_backend.Auth.Passwords.{
  Password, password_policy_error, assert_password_policy, may_reset, forgot_password,
  password_changed, reset_password, is_session_of,
}
use fieldserviceit_backend.Auth.Resets.{reset_password-once, forgot_password-reset_password}
use fieldserviceit_backend.Auth.Tests.{crypto, ana, store}

abbrev long_enough : Password
long_enough = record {
  text = "a longer password";
  length = 17;
  normalized = "a longer password";
  holds = λ s. false;
}

abbrev bcrypt_hash : String → String
bcrypt_hash s = s

abbrev asked : AuthStore
asked = forgot_password crypto.sha256 5000 "drawn" "ana@x" store

abbrev changed : AuthStore
changed = (reset_password crypto.sha256 bcrypt_hash 6000 "drawn" long_enough asked).1

reset_password-once_example :
    (user : Account) × (find (may_reset crypto.sha256 6000 "drawn") asked.accounts ≡ some user)
    × (any (is_session_of user.id) changed.sessions ≡ false)
    × (reset_password crypto.sha256 bcrypt_hash 7000 "drawn" long_enough changed
        ≡ (throw (bad_request "Invalid or expired reset token"), changed))
unfolding reset_password forgot_password assert_password_policy password_policy_error
    password_changed hash_credential
reset_password-once_example =
    reset_password-once crypto.sha256 bcrypt_hash 6000 7000 "drawn" long_enough long_enough asked
      changed refl refl (omega arith)

forgot_password-reset_password_example :
    (store' : AuthStore) × (reset_password crypto.sha256 bcrypt_hash 6000 "drawn" long_enough asked
      ≡ (ok tt, store'))
    × (account_by_id "ana" store'.accounts
        ≡ some (record ana {
          password_hash = some "a longer password";
          reset_token = none;
          reset_token_expires_at = none;
        }))
    × (any (λ (row : Session). row.user_id == "ana") store'.sessions ≡ false)
unfolding assert_password_policy password_policy_error
forgot_password-reset_password_example =
    forgot_password-reset_password crypto.sha256 bcrypt_hash 5000 6000 "drawn" "ana@x" long_enough
      ana store refl refl refl refl (omega arith)
