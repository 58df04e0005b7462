-- ===== src/Auth/Stored.antt =====
-- What a reader of the table Session can sign in with (src/modules/auth/services/auth.service.ts,
-- src/common/security/credential-hash.ts).
use mathlib.Core.List.{Memᴰ}
use fieldserviceit_backend.Base.{
  ℕ, ◌≤◌, ◌<◌, String, ◌≡◌, refl, sym, ap, ◌∙◌, Bool, true, false, not, ◌&&◌, ◌||◌, none, some,
  List, [], ◌∷◌, ◌==◌, arith, eq_refl, eq_iff, any, find, find_sound, any_strict, any_of_mem,
  includes, ltb, lt→ltb, ltb→lt, is_none, ok, Bool-cases, Option-cases, inl, inr, count_where,
  update_where,
}
use fieldserviceit_backend.Auth.{Account, AuthStore, Session, SecurityPolicy}
use fieldserviceit_backend.Auth.Sessions.{
  hash_credential, credential_lookup_values, holds_token, find_by_refresh_token, is_rotatable,
  rotate, rotated, record_rotation,
}
use fieldserviceit_backend.Auth.Tokens.{
  Tokens, Draw, write_session, issue_tokens, attempt_tokens, retry, token_loop, generate_tokens,
  account_by_id, granted, session_expiry, trimmed, with_sessions,
}
use fieldserviceit_backend.Auth.Refresh.{refresh_session, refresh, no_context}

count_of_mem :
    (test : Session → Bool) (row : Session) (rows : List Session)
    → Memᴰ row rows
    → test row ≡ true
    → 1 ≤ count_where test rows
count_of_mem test row [] m h = elim m [ ]
count_of_mem test row (x ∷ xs) (Memᴰ.head e) h =
    let here : test x ≡ true = ap test (sym e) ∙ h in ground (arith, here)
count_of_mem test row (x ∷ xs) (Memᴰ.tail m) h = ground (arith, count_of_mem test row xs m h)

find_only :
    (test : Session → Bool) (row : Session) (rows : List Session)
    → count_where test rows ≤ 1
    → Memᴰ row rows
    → test row ≡ true
    → find test rows ≡ some row
find_only test row [] only m h = elim m [ ]
find_only test row (x ∷ xs) only (Memᴰ.head e) h =
    let here : test x ≡ true = ap test (sym e) ∙ h in
    let same : some x ≡ some row = ap (λ r. some r) (sym e) in rw here same
find_only test row (x ∷ xs) only (Memᴰ.tail m) h = elim (Bool-cases (test x)) [
  | inl hit ↦ absurd (ground (arith, hit, only, count_of_mem test row xs m h))
  | inr miss ↦ rw miss (find_only test row xs (ground (arith, miss, only)) m h)
]

holds_own :
    (sha256 : String → String) (token : String)
    → includes (credential_lookup_values sha256 token) token ≡ true
unfolding credential_lookup_values
holds_own sha256 token = ground (arith, eq_refl token)

holds_hashed :
    (sha256 : String → String) (token : String) (row : Session)
    → (row.refresh_token == hash_credential sha256 token) ≡ true
    → holds_token sha256 token row ≡ true
unfolding credential_lookup_values
holds_hashed sha256 token row h =
    let hash = hash_credential sha256 token in
    ground (
      arith,
      h,
      eq_iff row.refresh_token hash,
      eq_iff hash row.refresh_token,
      eq_iff hash token,
      eq_iff token row.refresh_token,
    )

find_stored :
    (sha256 : String → String) (session : Session) (sessions : List Session)
    → Memᴰ session sessions
    → count_where (holds_token sha256 session.refresh_token) sessions ≤ 1
    → find_by_refresh_token sha256 session.refresh_token sessions ≡ some session
unfolding find_by_refresh_token
find_stored sha256 session sessions m only =
    let token = session.refresh_token in
    let holds = holds_token sha256 token in
    let hashed = λ (x : Session). x.refresh_token == hash_credential sha256 token in
    let found = find_only holds session sessions only m (holds_own sha256 token) in
    elim (Option-cases (find hashed sessions)) [
      | inl e ↦ ground (arith, e, found)
      | inr (row, e) ↦
          let (member, named) = find_sound hashed sessions row e in
          let again =
            find_only holds row sessions only member (holds_hashed sha256 token row named) in
          ground (arith, e, sym again ∙ found)
    ]

-- A session that is active, of a user who is there, is rotated to a token that no session holds.
attempt-stored :
    (sha256 : String → String) (now : ℕ) (policy : SecurityPolicy) (user : Account) (draw : Draw)
    (session : Session) (store : AuthStore)
    → Memᴰ session store.sessions
    → now < session.expires_at
    → session.revoked_at ≡ none
    → session.user_id ≡ user.id
    → any
        (λ (row : Session). row.refresh_token == hash_credential sha256 draw.refresh_token)
        store.sessions
      ≡ false
    → (store' : AuthStore) × (attempt_tokens sha256 now policy user no_context
          (some (record { session_id = session.id; refresh_token = session.refresh_token }))
          draw
          store
        ≡ (ok (granted user draw session.id), store'))
unfolding attempt_tokens write_session rotate issue_tokens
attempt-stored sha256 now policy user draw session store m live unrevoked own free =
    let hash = hash_credential sha256 draw.refresh_token in
    let hit = is_rotatable sha256 now session.id user.id session.refresh_token in
    let holds = holds_own sha256 session.refresh_token in
    let active = lt→ltb now session.expires_at live in
    let open_ : is_none session.revoked_at ≡ true = ap (λ o. is_none o) unrevoked in
    let hits : hit session ≡ true =
      ground
        (arith, eq_refl session.id, holds, eq_iff session.user_id user.id, own, open_, active) in
    let some_hit = any_of_mem hit session store.sessions m hits in
    let apart =
      any_strict (λ row. not (hit row) && (row.refresh_token == hash))
        (λ (row : Session). row.refresh_token == hash) store.sessions (λ a t. ground (arith, t))
        free in
    let rows =
      update_where hit (rotated now hash (session_expiry now policy) none) store.sessions in
    let written =
      record_rotation sha256 session.id user.id session.refresh_token (session_expiry now policy)
        (with_sessions rows store) in
    (trimmed now policy user session.id written, ground (arith, some_hit, apart))

-- What the column of an active session of a known user stores, sent as a refresh token, is answered with
-- tokens of that user and session, if it is not empty, no other session holds it or its hash, and none
-- holds the first drawn token.
pub refresh-stored :
    (sha256 : String → String) (now : ℕ) (policy : SecurityPolicy) (draws : ℕ → Draw)
    (session : Session) (user : Account) (store : AuthStore)
    → Memᴰ session store.sessions
    → (session.refresh_token == "") ≡ false
    → count_where (holds_token sha256 session.refresh_token) store.sessions ≤ 1
    → now < session.expires_at
    → session.revoked_at ≡ none
    → account_by_id session.user_id store.accounts ≡ some user
    → any
        (λ (row : Session). row.refresh_token == hash_credential sha256 (draws 0).refresh_token)
        store.sessions
      ≡ false
    → (tokens : Tokens) × (store' : AuthStore) × (refresh sha256 now policy draws
          session.refresh_token store
        ≡ (ok tokens, store'))
      × (tokens.access.sub ≡ user.id)
      × (tokens.access.sid ≡ session.id)
      × (tokens.access.role ≡ user.role)
unfolding refresh refresh_session generate_tokens token_loop retry
refresh-stored sha256 now policy draws session user store m real only live unrevoked known free =
    let (_, named) =
      find_sound (λ (a : Account). a.id == session.user_id) store.accounts user known in
    let own = sym ((eq_iff user.id session.user_id).0 named) in
    let found = find_stored sha256 session store.sessions m only in
    let (store', round) =
      attempt-stored sha256 now policy user (draws 0) session store m live unrevoked own free in
    let open_ : (ltb session.expires_at now || not (is_none session.revoked_at)) ≡ false =
      ground (arith, unrevoked, ltb→lt session.expires_at now, live) in
    (
      granted user (draws 0) session.id,
      store',
      rw (real, found, open_, known, round) refl,
      refl,
      refl,
      refl,
    )
