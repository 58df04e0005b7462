-- ===== src/Auth/Mfa.antt =====
-- MfaService (src/modules/auth/services/mfa.service.ts): the second factor of an account.
use Prim.Native.String.{len, slice}
use fieldserviceit_backend.Base.{
  ℕ, zero, suc, ◌+◌, ◌-◌, ◌/◌, String, Bool, true, false, not, ◌&&◌, ◌||◌, Option, none, some, List,
  [], ◌∷◌, ◌==◌, if◌then◌else◌, nat_eq, any, includes, truthy, or_else, map, update_where, Outcome,
  ◌▷◌, ok, throw, unauthorized, bad_request,
}
use fieldserviceit_backend.Auth.{Account, AuthStore, SecurityPolicy, Crypto}
use fieldserviceit_backend.Auth.Tokens.{account_by_id}

-- `none` where no policy can be read; `exempt` is the switch of the end-to-end tests.
unfoldable pub is_required : Bool → Option SecurityPolicy → String → Bool
is_required exempt none role = false
is_required exempt (some policy) role =
    if exempt
    then false
    else if role == "SUPER_ADMIN"
    then policy.require_mfa_super_admin
    else if role == "TENANT_ADMIN"
    then policy.require_mfa_tenant_admin
    else includes ("TECHNICIAN" ∷ "GLOBAL_TECH" ∷ []) role && policy.require_mfa_technicians

abbrev digits : List String
digits = "0" ∷ "1" ∷ "2" ∷ "3" ∷ "4" ∷ "5" ∷ "6" ∷ "7" ∷ "8" ∷ "9" ∷ []

-- The first bytes of a text are that many digits.
abbrev all_digits : ℕ → ℕ → String → Bool
all_digits zero i s = true
all_digits (suc n) i s = includes digits (slice s i (i + 1)) && all_digits n (i + 1) s

-- `/^\d{6}$/`.
unfoldable pub is_six_digits : String → Bool
is_six_digits s = nat_eq (len s) 6 && all_digits 6 0 s

-- The codes of the steps of thirty seconds before, at and after `now`, in milliseconds, which is at
-- least one step after the epoch.
unfoldable pub verify_totp : Crypto → String → String → ℕ → Bool
verify_totp crypto secret code now =
    let counter = now / 30000 in
    any (λ step. crypto.hotp secret step == crypto.trim code)
      ((counter - 1) ∷ counter ∷ (counter + 1) ∷ [])

unfoldable pub hash_recovery_code : Crypto → String → String
hash_recovery_code crypto value = crypto.sha256 (crypto.alphanumeric_upper value)

-- `findIndex` and `splice(index, 1)`: the first entry that is the given one goes.
abbrev pub splice_first : String → List String → List String
splice_first s [] = []
splice_first s (x ∷ xs) = let rest = splice_first s xs in if x == s then xs else x ∷ rest

abbrev pub is_account : String → Account → Bool
is_account id a = a.id == id

abbrev pub update_account : String → (Account → Account) → AuthStore → AuthStore
update_account id change store = record store {
  accounts = update_where (is_account id) change store.accounts;
}

abbrev pub with_codes : List String → Account → Account
with_codes hashes a = record a { mfa_recovery_codes = hashes }

-- The second factor of the row that was read.
unfoldable pub verify_account_code :
    Crypto → ℕ → String → Account → AuthStore → Outcome AuthStore Bool
verify_account_code crypto now code user store =
    if not user.mfa_enabled || not (truthy user.mfa_secret)
    then (throw (unauthorized "MFA is not configured"), store)
    else (let normalized = crypto.trim_upper code in
        let submitted = hash_recovery_code crypto normalized in
        if is_six_digits normalized
          && verify_totp crypto (or_else user.mfa_secret "") normalized now
        then (ok true, store)
        else if includes user.mfa_recovery_codes submitted
        then (
          ok true,
          update_account user.id (with_codes (splice_first submitted user.mfa_recovery_codes))
              store,
        )
        else (throw (unauthorized "Invalid MFA code"), store))

unfoldable pub verify_user_code : Crypto → ℕ → String → String → AuthStore → Outcome AuthStore Bool
verify_user_code crypto now user_id code store =
    elim (account_by_id user_id store.accounts) as (λ o. Outcome AuthStore Bool) [
      | none ↦ (throw (unauthorized "MFA is not configured"), store)
      | some user ↦ verify_account_code crypto now code user store
    ]

-- `beginSetup`, with the secret that it draws.
unfoldable pub begin_setup : String → String → AuthStore → AuthStore
begin_setup user_id secret store =
    update_account user_id (λ a. record a { mfa_pending_secret = some secret }) store

abbrev pub pending_of : Option Account → Option String
pending_of none = none
pending_of (some a) = a.mfa_pending_secret

abbrev pub enabled : String → List String → Account → Account
enabled secret hashes a = record a {
  mfa_enabled = true;
  mfa_secret = some secret;
  mfa_pending_secret = none;
  mfa_recovery_codes = hashes;
}

-- `confirmSetup`, with the ten recovery codes that it draws.
unfoldable pub confirm_setup :
    Crypto → ℕ → String → String → List String → AuthStore → Outcome AuthStore (List String)
confirm_setup crypto now user_id code drawn store =
    let pending = pending_of (account_by_id user_id store.accounts) in
    let secret = or_else pending "" in
    if not (truthy pending)
    then (throw (bad_request "Start MFA setup before confirming it"), store)
    else if verify_totp crypto secret code now
    then (
      ok drawn,
      update_account user_id (enabled secret (map (hash_recovery_code crypto) drawn)) store,
    )
    else (throw (bad_request "The authenticator code is invalid"), store)

abbrev pub disabled : Account → Account
disabled a = record a {
  mfa_enabled = false;
  mfa_secret = none;
  mfa_pending_secret = none;
  mfa_recovery_codes = [];
}

abbrev pub disable_verified : String → Bool → AuthStore → Outcome AuthStore Bool
disable_verified user_id verified store = (ok false, update_account user_id disabled store)

abbrev pub regenerate_verified :
    Crypto → String → List String → Bool → AuthStore → Outcome AuthStore (List String)
regenerate_verified crypto user_id drawn verified store =
    (ok drawn, update_account user_id (with_codes (map (hash_recovery_code crypto) drawn)) store)

unfoldable pub disable : Crypto → ℕ → String → String → AuthStore → Outcome AuthStore Bool
disable crypto now user_id code store =
    verify_user_code crypto now user_id code store ▷ disable_verified user_id

unfoldable pub regenerate_recovery_codes :
    Crypto → ℕ → String → String → List String → AuthStore → Outcome AuthStore (List String)
regenerate_recovery_codes crypto now user_id code drawn store =
    verify_user_code crypto now user_id code store ▷ regenerate_verified crypto user_id drawn
