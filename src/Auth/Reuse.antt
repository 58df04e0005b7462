-- ===== src/Auth/Reuse.antt =====
-- The second use of a refresh token (src/modules/auth/services/auth.service.ts,
-- src/database/repositories/session.repository.ts).
use fieldserviceit_backend.Base.{
  ℕ, ◌+◌, ◌≤◌, ◌<◌, String, ◌≡◌, sym, ap, subst, ◌∙◌, false, not, ◌||◌, none, some, ◌==◌, arith,
  any, includes, ltb, is_none, ok, throw, unauthorized, Bool-cases, Option-cases, inl, inr, ◌▷◌,
  ▷-eq-ok, count_where,
}
use fieldserviceit_backend.Auth.{Account, AuthStore, Session, SecurityPolicy}
use fieldserviceit_backend.Auth.Sessions.{
  hash_credential, credential_lookup_values, holds_token, find_by_refresh_token, is_unrevoked,
  has_token_hash, rotate,
}
use fieldserviceit_backend.Auth.Tokens.{
  Tokens, Draw, Existing, session_expiry, rotated_id, write_session, issue_tokens, attempt_tokens,
  generate_tokens, account_by_id, trimmed, granted,
}
use fieldserviceit_backend.Auth.Refresh.{refresh_session, refresh, no_context}
use fieldserviceit_backend.Auth.Draws.{token_loop-round}
use fieldserviceit_backend.Auth.Spent.{
  IsSpent, session_lifetime_days-positive, rotate-IsSpent, trimmed-IsSpent, refresh-IsSpent,
}

module _ (sha256 : String → String) (now : ℕ) (token : String) where
  -- A refresh that is answered rotated a session that holds the token.
  refresh-rotates :
      (policy : SecurityPolicy) (draws : ℕ → Draw) (store store' : AuthStore) (tokens : Tokens)
      → refresh sha256 now policy draws token store ≡ (ok tokens, store')
      → ((token == "") ≡ false)
        × (session : Session) × (user : Account) × (i : ℕ) × (attempt_tokens sha256 now policy user
              no_context
              (some (record { session_id = session.id; refresh_token = token }))
              (draws i)
              store
            ≡ (ok tokens, store'))
  unfolding refresh refresh_session generate_tokens
  refresh-rotates policy draws store store' tokens h = elim (Bool-cases (token == "")) [
    | inl e ↦ absurd (ground (arith, e, h))
    | inr given ↦ elim (Option-cases (find_by_refresh_token sha256 token store.sessions)) [
      | inl missing ↦ absurd (ground (arith, given, missing, h))
      | inr (session, found) ↦
          elim (Bool-cases (ltb session.expires_at now || not (is_none session.revoked_at))) [
            | inl over ↦ absurd (ground (arith, given, found, over, h))
            | inr open_ ↦ elim (Option-cases (account_by_id session.user_id store.accounts)) [
              | inl gone ↦ absurd (ground (arith, given, found, open_, gone, h))
              | inr (user, known) ↦
                  let old : Existing = record { session_id = session.id; refresh_token = token } in
                  let loop : generate_tokens sha256 now policy user no_context (some old) draws
                        store
                      ≡ (ok tokens, store') =
                    ground (arith, given, found, open_, known, h) in
                  let (i, round) =
                    token_loop-round sha256 now policy user no_context draws (some old) 5 0 store
                      store' tokens loop in
                  (given, session, user, i, round)
            ]
          ]
    ]
  ]

  attempt-IsSpent :
      (policy : SecurityPolicy) (user : Account) (session_id : String) (draw : Draw)
      (store store' : AuthStore) (tokens : Tokens)
      → attempt_tokens sha256 now policy user no_context
          (some (record { session_id = session_id; refresh_token = token }))
          draw
          store
        ≡ (ok tokens, store')
      → count_where (holds_token sha256 token) store.sessions ≤ 1
      → any (has_token_hash (hash_credential sha256 token)) store.history ≡ false
      → includes (credential_lookup_values sha256 token) (hash_credential sha256 draw.refresh_token)
        ≡ false
      → (tokens.access.sub ≡ user.id)
        × IsSpent sha256 token user.id (session_expiry now policy) store'
  unfolding attempt_tokens write_session issue_tokens
  attempt-IsSpent policy user session_id draw store store' tokens h only unused other =
      let hash = hash_credential sha256 draw.refresh_token in
      let first =
        rotate sha256 now session_id user.id token hash (session_expiry now policy) none store in
      let (sid, s1, wrote, issued) =
        ▷-eq-ok (first ▷ rotated_id) (issue_tokens now policy user draw) tokens store' h in
      let (o, s2, turned, kept) = ▷-eq-ok first rotated_id sid s1 wrote in
      let answered : granted user draw sid ≡ tokens = cc in
      let left : trimmed now policy user sid s1 ≡ store' = cc in
      elim (Option-cases o) [
        | inl none_written ↦ absurd (ground (arith, ap (λ x. rotated_id x s2) none_written, kept))
        | inr (id, written) ↦
            let settled = sym (ap (λ x. rotated_id x s2) written) ∙ kept in
            let same : s2 ≡ s1 = cc in
            let first_ok : first ≡ (ok (some id), s2) = cc in
            let spent =
              rotate-IsSpent sha256 now token session_id user.id hash (session_expiry now policy)
                none store s2 id first_ok only unused other in
            (
              ap (λ (t : Tokens). t.access.sub) (sym answered),
              subst (IsSpent sha256 token user.id (session_expiry now policy)) left (
                  trimmed-IsSpent sha256 now token policy user sid user.id
                    (session_expiry now policy) s1
                    (subst (IsSpent sha256 token user.id (session_expiry now policy)) same spent)),
            )
      ]

-- Once a refresh with a token was answered, a second refresh with the same token within a day is
-- refused and leaves the user without a session that is not revoked; at the first refresh no other
-- session and no earlier rotation held the token, and no drawn token is stored as the token is.
pub refresh-reused :
    (sha256 : String → String) (now later : ℕ) (policy policy' : SecurityPolicy)
    (draws draws' : ℕ → Draw) (token : String) (store store' : AuthStore) (tokens : Tokens)
    → refresh sha256 now policy draws token store ≡ (ok tokens, store')
    → count_where (holds_token sha256 token) store.sessions ≤ 1
    → any (has_token_hash (hash_credential sha256 token)) store.history ≡ false
    → ((i : ℕ)
        → includes
            (credential_lookup_values sha256 token)
            (hash_credential sha256 (draws i).refresh_token)
          ≡ false)
    → later < now + 86400000
    → ((refresh sha256 later policy' draws' token store').0
        ≡ throw (unauthorized "Invalid refresh token"))
      × (any
            (is_unrevoked tokens.access.sub)
            (refresh sha256 later policy' draws' token store').1.sessions
          ≡ false)
refresh-reused sha256 now later policy policy' draws draws' token store store' tokens h only unused
      other soon =
    let (given, session, user, i, round) =
      refresh-rotates sha256 now token policy draws store store' tokens h in
    let (sub, spent) =
      attempt-IsSpent sha256 now token policy user session.id (draws i) store store' tokens round
        only unused (other i) in
    let days = session_lifetime_days-positive policy in
    let (refused, revoked) =
      refresh-IsSpent sha256 now token policy' draws' user.id (session_expiry now policy) later
        store' given spent (omega (arith, days, soon)) in
    (refused, rw sub revoked)
