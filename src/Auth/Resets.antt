-- ===== src/Auth/Resets.antt =====
-- What a reset of a password leaves (src/modules/auth/services/auth.service.ts).
use fieldserviceit_backend.Base.{
  ℕ, ◌+◌, ◌≤◌, String, ◌≡◌, refl, subst, true, false, not, ◌&&◌, none, some, List, [], ◌∷◌, ◌==◌,
  arith, eq_refl, eq_iff, le→leb, any, find, find_sound, select, ok, throw, bad_request, Bool-cases,
  Option-cases, Result-cases, inl, inr, count_where, update_where, any_strict, find_of_any,
  any-update_where-reached, any_of_mem,
}
use fieldserviceit_backend.Auth.{Account, AuthStore, Session}
use fieldserviceit_backend.Auth.Sessions.{hash_credential}
use fieldserviceit_backend.Auth.Tokens.{account_by_id}
use fieldserviceit_backend.Auth.Mfa.{is_account}
use fieldserviceit_backend.Auth.Recovery.{account_by_id-update}
use fieldserviceit_backend.Auth.Login.{account_by_email}
use fieldserviceit_backend.Auth.Passwords.{
  Password, assert_password_policy, holds_credential, may_reset, awaiting_reset, with_password,
  forgot_password, is_session_of, password_changed, reset_password,
}

any_selected :
    (user_id : String) (rows : List Session)
    → any (is_session_of user_id) (select (λ row. not (is_session_of user_id row)) rows) ≡ false
any_selected user_id [] = refl
any_selected user_id (row ∷ rows) = ground (arith, any_selected user_id rows)

-- A reset that succeeds leaves no session of the account, and its token resets no password any more
-- where no other account holds it, at whatever time and with whatever password that the policy allows.
pub reset_password-once :
    (sha256 bcrypt_hash : String → String) (now later : ℕ) (token : String)
    (password password' : Password) (store store' : AuthStore)
    → reset_password sha256 bcrypt_hash now token password store ≡ (ok tt, store')
    → assert_password_policy password' [] ≡ ok tt
    → count_where (λ (a : Account). holds_credential sha256 token a.reset_token) store.accounts ≤ 1
    → (user : Account) × (find (may_reset sha256 now token) store.accounts ≡ some user)
      × (any (is_session_of user.id) store'.sessions ≡ false)
      × (reset_password sha256 bcrypt_hash later token password' store'
          ≡ (throw (bad_request "Invalid or expired reset token"), store'))
unfolding reset_password password_changed
reset_password-once sha256 bcrypt_hash now later token password password' store store' h allowed
      single =
    elim (Result-cases (assert_password_policy password [])) [
      | inr (e, refused) ↦ absurd (ground (arith, refused, h))
      | inl (_, fine) ↦ elim (Option-cases (find (may_reset sha256 now token) store.accounts)) [
        | inl missing ↦ absurd (ground (arith, fine, missing, h))
        | inr (user, found) ↦
            let holds = λ (a : Account). holds_credential sha256 token a.reset_token in
            let changed = password_changed (bcrypt_hash password.text) user.id store in
            let written : changed ≡ store' = ground (arith, fine, found, h) in
            let (member, passed) =
              find_sound (may_reset sha256 now token) store.accounts user found in
            let held : (holds user && is_account user.id user) ≡ true =
              ground (arith, passed, eq_refl user.id) in
            let reached =
              any_of_mem (λ a. holds a && is_account user.id a) user store.accounts member held in
            let spent =
              any-update_where-reached holds (is_account user.id)
                (with_password (bcrypt_hash password.text)) store.accounts (λ a. refl) single
                reached in
            let left = find_of_any (may_reset sha256 later token) changed.accounts (
              any_strict (may_reset sha256 later token) holds changed.accounts
                (λ a t. ground (arith, t)) spent) in
            let refused : reset_password sha256 bcrypt_hash later token password' changed
                ≡ (throw (bad_request "Invalid or expired reset token"), changed) =
              ground (arith, allowed, left) in
            (
              user,
              found,
              subst (λ (s : AuthStore). any (is_session_of user.id) s.sessions ≡ false) written
                  (any_selected user.id store.sessions),
              subst
                  (λ (s : AuthStore).
                    reset_password sha256 bcrypt_hash later token password' s
                    ≡ (throw (bad_request "Invalid or expired reset token"), s))
                  written refused,
            )
      ]
    ]

sent-found :
    (sha256 : String → String) (drawn id : String) (expires_at later : ℕ) (accounts : List Account)
    → later ≤ expires_at
    → any (λ (a : Account). holds_credential sha256 drawn a.reset_token) accounts ≡ false
    → any (is_account id) accounts ≡ true
    → (a : Account) × (find (may_reset sha256 later drawn) (
          update_where
            (is_account id)
            (awaiting_reset (hash_credential sha256 drawn) expires_at)
            accounts)
        ≡ some a)
      × (a.id ≡ id)
sent-found sha256 drawn id expires_at later [] soon unused known = absurd (cc)
sent-found sha256 drawn id expires_at later (x ∷ xs) soon unused known =
    let hash = hash_credential sha256 drawn in
    let change = awaiting_reset hash expires_at in
    elim (Bool-cases (is_account id x)) [
      | inl e ↦
          let open_ = le→leb later expires_at soon in
          let same = eq_refl hash in
          (change x, ground (arith, e, open_, same), (eq_iff x.id id).0 e)
      | inr e ↦
          let (a, found, named) =
            sent-found sha256 drawn id expires_at later xs soon (ground (arith, unused))
              (ground (arith, e, known)) in
          (a, ground (arith, e, unused, found), named)
    ]

-- The token that a forgotten password draws resets the password of the account with the email, which
-- is the first row with its id, within an hour, to any password that the policy allows, if no account
-- held the token before: the account has the hash of the new password and no token, its other columns
-- are as they were, and no session of it is left.
pub forgot_password-reset_password :
    (sha256 bcrypt_hash : String → String) (now later : ℕ) (drawn email : String)
    (password : Password) (user : Account) (store : AuthStore)
    → account_by_email email store.accounts ≡ some user
    → account_by_id user.id store.accounts ≡ some user
    → any (λ (a : Account). holds_credential sha256 drawn a.reset_token) store.accounts ≡ false
    → assert_password_policy password [] ≡ ok tt
    → later ≤ now + 3600000
    → (store' : AuthStore) × (reset_password sha256 bcrypt_hash later drawn password
          (forgot_password sha256 now drawn email store)
        ≡ (ok tt, store'))
      × (account_by_id user.id store'.accounts
          ≡ some (record user {
            password_hash = some (bcrypt_hash password.text);
            reset_token = none;
            reset_token_expires_at = none;
          }))
      × (any (λ (row : Session). row.user_id == user.id) store'.sessions ≡ false)
unfolding reset_password forgot_password password_changed
forgot_password-reset_password sha256 bcrypt_hash now later drawn email password user store known
      by_id unused allowed soon =
    let (member, named) =
      find_sound (λ (a : Account). a.email == email) store.accounts user known in
    let present = any_of_mem (is_account user.id) user store.accounts member (eq_refl user.id) in
    let (a, found, same) =
      sent-found sha256 drawn user.id (now + 3600000) later store.accounts soon unused present in
    let sent = awaiting_reset (hash_credential sha256 drawn) (now + 3600000) in
    let hash = bcrypt_hash password.text in
    let asked = update_where (is_account user.id) sent store.accounts in
    let awaiting = account_by_id-update user.id sent store.accounts user (λ a. refl) by_id in
    (
      password_changed hash user.id (forgot_password sha256 now drawn email store),
      ground (arith, known, allowed, found, same),
      ground (
        arith,
        known,
        account_by_id-update user.id (with_password hash) asked (sent user) (λ a. refl) awaiting,
      ),
      ground (arith, known, any_selected user.id store.sessions),
    )
