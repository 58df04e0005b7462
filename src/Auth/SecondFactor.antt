-- ===== src/Auth/SecondFactor.antt =====
-- What a sign-in with a password asks for (src/modules/auth/services/auth.service.ts).
use fieldserviceit_backend.Base.{
  ℕ, ◌+◌, ◌/◌, ◌≤◌, String, ◌≡◌, true, false, ◌⊎◌, Option, some, or_else, includes,
}
use fieldserviceit_backend.Auth.{Account, AuthStore, Crypto}
use fieldserviceit_backend.Auth.Tokens.{Tokens, account_by_id}
use fieldserviceit_backend.Auth.Mfa.{is_required, is_six_digits}
use fieldserviceit_backend.Auth.Login.{Deployment}

-- What the second factor of an account takes for a code: six digits that its authenticator shows for
-- the step of thirty seconds of `now` or for the one before or after, or the recovery code of one of
-- the hashes that it keeps.
abbrev pub Proves : Crypto → ℕ → Account → String → Type 0
Proves crypto now row code =
    ((is_six_digits (crypto.trim_upper code) ≡ true)
      × (step : ℕ) × (step ≤ now / 30000 + 1)
      × (now / 30000 ≤ step + 1)
      × (crypto.hotp (or_else row.mfa_secret "") step ≡ crypto.trim (crypto.trim_upper code)))
    ⊎ (includes row.mfa_recovery_codes
          (crypto.sha256 (crypto.alphanumeric_upper (crypto.trim_upper code)))
        ≡ true)

-- What the policy asks of an account beside its password.
abbrev pub Satisfies : Deployment → ℕ → Option String → AuthStore → Account → Type 0
Satisfies env now code store user =
    ((user.mfa_enabled ≡ true)
      × (row : Account) × (account_by_id user.id store.accounts ≡ some row)
      × Proves env.crypto now row (or_else code ""))
    ⊎ ((user.mfa_enabled ≡ false) × (is_required env.mfa_exempt env.policy user.role ≡ false))
