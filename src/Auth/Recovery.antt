-- ===== src/Auth/Recovery.antt =====
-- How often a recovery code serves (src/modules/auth/services/mfa.service.ts), and for how long the
-- code of an authenticator.
use fieldserviceit_backend.Base.{
  ℕ, ◌+◌, ◌-◌, ◌/◌, ◌≤◌, String, ◌≡◌, refl, ap, subst, true, false, not, ◌||◌, some, List, [], ◌∷◌,
  ◌==◌, arith, eq_refl, eq_iff, find_sound, includes, truthy, ok, throw, unauthorized, Bool-cases,
  ltb, ltb→lt, ◌⊎◌, inl, inr, count_where, update_where,
}
use fieldserviceit_backend.Auth.{Account, AuthStore, Crypto}
use fieldserviceit_backend.Auth.Tokens.{account_by_id}
use fieldserviceit_backend.Auth.Mfa.{
  verify_totp, is_six_digits, hash_recovery_code, verify_account_code, verify_user_code,
  splice_first, with_codes, update_account, is_account,
}

excluded_of_count :
    (s : String) (xs : List String) → count_where (λ x. x == s) xs ≡ 0 → includes xs s ≡ false
excluded_of_count s [] h = refl
excluded_of_count s (x ∷ xs) h = ground (arith, excluded_of_count s xs)

count_spliced :
    (s : String) (xs : List String)
    → count_where (λ x. x == s) xs ≤ 1
    → includes (splice_first s xs) s ≡ false
count_spliced s [] once = refl
count_spliced s (x ∷ xs) once = ground (arith, count_spliced s xs, excluded_of_count s xs)

pub account_by_id-update :
    (id : String) (change : Account → Account) (accounts : List Account) (user : Account)
    → ((a : Account) → (change a).id ≡ a.id)
    → account_by_id id accounts ≡ some user
    → account_by_id id (update_where (is_account id) change accounts) ≡ some (change user)
account_by_id-update id change [] user keeps h = absurd (cc)
account_by_id-update id change (a ∷ accounts) user keeps h = elim (Bool-cases (a.id == id)) [
  | inl e ↦
      let same : a ≡ user = ground (arith, e, h) in
      let named : ((change a).id == id) ≡ true = rw (keeps a) e in
      ground (arith, e, named, ap change same)
  | inr e ↦ ground (arith, e, account_by_id-update id change accounts user keeps, h)
]

-- A recovery code, which is not six digits, that was accepted once is refused from then on, if no
-- other code of the account has its hash.
pub verify_user_code-once :
    (crypto : Crypto) (now later : ℕ) (user_id code : String) (user : Account)
    (store store' : AuthStore)
    → account_by_id user_id store.accounts ≡ some user
    → is_six_digits (crypto.trim_upper code) ≡ false
    → count_where
        (λ x. x == hash_recovery_code crypto (crypto.trim_upper code))
        user.mfa_recovery_codes
      ≤ 1
    → verify_user_code crypto now user_id code store ≡ (ok true, store')
    → verify_user_code crypto later user_id code store'
      ≡ (throw (unauthorized "Invalid MFA code"), store')
unfolding verify_user_code verify_account_code
verify_user_code-once crypto now later user_id code user store store' known long single h =
    let submitted = hash_recovery_code crypto (crypto.trim_upper code) in
    let (_, named) = find_sound (is_account user_id) store.accounts user known in
    let same_id : user.id ≡ user_id = (eq_iff user.id user_id).0 named in
    let change = with_codes (splice_first submitted user.mfa_recovery_codes) in
    let after = account_by_id-update user_id change store.accounts user (λ a. refl) known in
    let gone = count_spliced submitted user.mfa_recovery_codes single in
    elim (Bool-cases (not user.mfa_enabled || not (truthy user.mfa_secret))) [
      | inl off ↦ absurd (ground (arith, known, off, h))
      | inr on ↦ elim (Bool-cases (includes user.mfa_recovery_codes submitted)) [
        | inr unknown ↦ absurd (ground (arith, known, on, long, unknown, h))
        | inl held ↦
            let written : update_account user_id change store ≡ store' =
              ground (arith, known, on, long, held, h, same_id) in
            subst
              (λ (s : AuthStore).
                verify_user_code crypto later user_id code s
                ≡ (throw (unauthorized "Invalid MFA code"), s))
              written (ground (arith, after, on, long, gone))
      ]
    ]

step_near :
    (shown now : ℕ)
    → shown ≤ now + 30000
    → now ≤ shown + 30000
    → (now / 30000 - 1 ≡ shown / 30000)
      ⊎ ((now / 30000 ≡ shown / 30000) ⊎ (now / 30000 + 1 ≡ shown / 30000))
step_near shown now early late = elim (Bool-cases (ltb (now / 30000) (shown / 30000))) [
  | inl below ↦ inr (inr (let below' = ltb→lt (now / 30000) (shown / 30000) below in omega arith))
  | inr above ↦ elim (Bool-cases (ltb (shown / 30000) (now / 30000))) [
    | inl behind ↦ inl (let behind' = ltb→lt (shown / 30000) (now / 30000) behind in omega arith)
    | inr level ↦ inr (inl (ground (arith, above, level)))
  ]
]

-- The code that an authenticator shows at a time is accepted at every time within thirty seconds of
-- it, earlier or later.
pub verify_totp-window :
    (crypto : Crypto) (secret code : String) (shown now : ℕ)
    → crypto.trim code ≡ crypto.hotp secret (shown / 30000)
    → shown ≤ now + 30000
    → now ≤ shown + 30000
    → verify_totp crypto secret code now ≡ true
unfolding verify_totp
verify_totp-window crypto secret code shown now same early late =
    let expected = crypto.hotp secret (shown / 30000) in
    let self = eq_refl expected in
    let at = λ (step : ℕ) (e : step ≡ shown / 30000). ap (λ s. crypto.hotp secret s) e in
    elim (step_near shown now early late) [
      | inl e ↦ ground (arith, same, self, at (now / 30000 - 1) e)
      | inr (inl e) ↦ ground (arith, same, self, at (now / 30000) e)
      | inr (inr e) ↦ ground (arith, same, self, at (now / 30000 + 1) e)
    ]
