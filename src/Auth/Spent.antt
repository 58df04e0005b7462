-- ===== src/Auth/Spent.antt =====
-- What a rotation leaves of a refresh token, and what its next use meets (src/modules/auth/services/auth.service.ts,
-- src/database/repositories/session.repository.ts).
use fieldserviceit_backend.Base.{
  ℕ, ◌≤◌, ◌<◌, String, ◌≡◌, refl, subst, ◌∙◌, true, false, not, ◌&&◌, Option, none, some, List, ◌∷◌,
  ◌==◌, arith, eq_refl, eq_iff, any, includes, ok, throw, unauthorized, Bool-cases, inl, inr,
  count_where, update_where, any_strict, any-update_where, any-update_where-same,
  any-update_where-only, find_of_any,
}
use fieldserviceit_backend.Auth.{Account, AuthStore, Session, Rotation, SecurityPolicy}
use fieldserviceit_backend.Auth.Sessions.{
  hash_credential, credential_lookup_values, holds_token, find_by_refresh_token, is_unrevoked,
  revoke, revoke_active_family, has_token_hash, record_rotation, is_rotatable, rotated, rotate,
  find_reused_token, trim_sessions, stale_ids,
}
use fieldserviceit_backend.Auth.Tokens.{Draw, session_lifetime_days, trimmed, max_active_sessions}
use fieldserviceit_backend.Auth.Refresh.{report_reuse, refresh}

-- What a rotation of the token leaves: no session holds it, and the history names its user.
pub record IsSpent (sha256 : String → String) (token user_id : String) (expires_at : ℕ)
    (store : AuthStore) : Type 0 where
  pub unheld : any (holds_token sha256 token) store.sessions ≡ false
  pub rest : List Rotation
  pub row : Rotation
  pub first : store.history ≡ row ∷ rest
  pub hashed : row.token_hash ≡ hash_credential sha256 token
  pub owned : row.user_id ≡ user_id
  pub lasting : row.expires_at ≡ expires_at

pub session_lifetime_days-positive : (policy : SecurityPolicy) → 1 ≤ session_lifetime_days policy
unfolding session_lifetime_days
session_lifetime_days-positive policy = omega arith

module _ (sha256 : String → String) (now : ℕ) (token : String) where
  pub rotate-IsSpent :
      (session_id user_id hash : String) (expires_at : ℕ) (mfa : Option ℕ)
      (store store' : AuthStore) (id : String)
      → rotate sha256 now session_id user_id token hash expires_at mfa store
        ≡ (ok (some id), store')
      → count_where (holds_token sha256 token) store.sessions ≤ 1
      → any (has_token_hash (hash_credential sha256 token)) store.history ≡ false
      → includes (credential_lookup_values sha256 token) hash ≡ false
      → IsSpent sha256 token user_id expires_at store'
  unfolding rotate record_rotation
  rotate-IsSpent session_id user_id hash expires_at mfa store store' id h only unused other =
      let hit = is_rotatable sha256 now session_id user_id token in
      let change = rotated now hash expires_at mfa in
      elim (Bool-cases (any hit store.sessions)) [
        | inr none_hit ↦ absurd (ground (arith, h, none_hit))
        | inl some_hit ↦
            elim (Bool-cases
              (any (λ row. not (hit row) && (row.refresh_token == hash)) store.sessions)) [
                | inl taken ↦ absurd (ground (arith, h, some_hit, taken))
                | inr free ↦
                    let unheld =
                      any-update_where-only (holds_token sha256 token) hit change store.sessions
                        (λ x t. ground (arith, t)) (λ x. other) only some_hit in
                    let row : Rotation = record {
                      session_id = session_id;
                      user_id = user_id;
                      token_hash = hash_credential sha256 token;
                      expires_at = expires_at;
                    } in
                    let written : store' ≡ record store {
                      sessions = update_where hit change store.sessions;
                      history = row ∷ store.history;
                    } =
                      ground (arith, h, some_hit, free, unused) in
                    rw written (record {
                      unheld = unheld;
                      rest = store.history;
                      row = row;
                      first = refl;
                      hashed = refl;
                      owned = refl;
                      lasting = refl;
                    })
              ]
      ]

  pub trimmed-IsSpent :
      (policy : SecurityPolicy) (user : Account) (sid user_id : String) (expires_at : ℕ)
      (store : AuthStore)
      → IsSpent sha256 token user_id expires_at store
      → IsSpent sha256 token user_id expires_at (trimmed now policy user sid store)
  unfolding trim_sessions
  trimmed-IsSpent policy user sid user_id expires_at store spent = record {
    unheld =
        any-update_where-same (holds_token sha256 token)
          (λ row.
            includes (stale_ids now user.id (max_active_sessions policy) sid store.sessions) row.id)
          (revoke now "session-limit") store.sessions (λ x. refl)
        ∙ spent.unheld;
    rest = spent.rest;
    row = spent.row;
    first = spent.first;
    hashed = spent.hashed;
    owned = spent.owned;
    lasting = spent.lasting;
  }

  hash_held :
      (stored : String)
      → (stored == hash_credential sha256 token) ≡ true
      → includes (credential_lookup_values sha256 token) stored ≡ true
  unfolding credential_lookup_values
  hash_held stored h = ground (
    arith,
    h,
    eq_iff stored (hash_credential sha256 token),
    eq_iff (hash_credential sha256 token) stored,
    eq_iff (hash_credential sha256 token) token,
    eq_iff token stored,
  )

  -- The refresh of a spent token.
  find_by_refresh_token-unheld :
      (sessions : List Session)
      → any (holds_token sha256 token) sessions ≡ false
      → find_by_refresh_token sha256 token sessions ≡ none
  unfolding find_by_refresh_token
  find_by_refresh_token-unheld sessions unheld =
      let hash = hash_credential sha256 token in
      let stored = λ (x : Session). x.refresh_token == hash in
      ground (
        arith,
        find_of_any stored sessions (
            any_strict stored (holds_token sha256 token) sessions
              (λ x t. hash_held x.refresh_token t) unheld),
        find_of_any (holds_token sha256 token) sessions unheld,
      )

  report_reuse-revokes :
      (later : ℕ) (row : Rotation) (store : AuthStore)
      → find_reused_token sha256 later token store.history ≡ some row
      → any (is_unrevoked row.user_id) (report_reuse sha256 later token store).sessions ≡ false
  unfolding report_reuse revoke_active_family
  report_reuse-revokes later row store found =
      let revoked =
        any-update_where (is_unrevoked row.user_id) (is_unrevoked row.user_id)
          (revoke later "refresh-token-reuse") store.sessions (λ x t. ground arith) (λ x t. t) in
      ground (arith, found, revoked)

  find_reused_token-spent :
      (user_id : String) (expires_at later : ℕ) (store : AuthStore)
      → (spent : IsSpent sha256 token user_id expires_at store) → later < expires_at
      → find_reused_token sha256 later token store.history ≡ some spent.row
  unfolding find_reused_token
  find_reused_token-spent user_id expires_at later store spent live =
      let same = spent.hashed in
      let until = spent.lasting in
      rw spent.first (ground (arith, same, until, live, eq_refl (hash_credential sha256 token)))

  pub refresh-IsSpent :
      (policy : SecurityPolicy) (draws : ℕ → Draw) (user_id : String) (expires_at later : ℕ)
      (store : AuthStore)
      → (token == "") ≡ false
      → IsSpent sha256 token user_id expires_at store
      → later < expires_at
      → ((refresh sha256 later policy draws token store).0
          ≡ throw (unauthorized "Invalid refresh token"))
        × (any (is_unrevoked user_id) (refresh sha256 later policy draws token store).1.sessions
            ≡ false)
  unfolding refresh
  refresh-IsSpent policy draws user_id expires_at later store given spent live =
      let missing = find_by_refresh_token-unheld store.sessions spent.unheld in
      let found = find_reused_token-spent user_id expires_at later store spent live in
      let revoked = report_reuse-revokes later spent.row store found in
      let owned = spent.owned in
      (
        rw (given, missing) refl,
        rw (given, missing)
            (subst
              (λ u. any (is_unrevoked u) (report_reuse sha256 later token store).sessions ≡ false)
              owned revoked),
      )
