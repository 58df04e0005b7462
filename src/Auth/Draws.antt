-- ===== src/Auth/Draws.antt =====
-- The rounds of `generateTokens` (src/modules/auth/services/auth.service.ts): which draw is used, and
-- what a refused round leaves.
use fieldserviceit_backend.Base.{
  ℕ, zero, suc, ◌+◌, ◌≤◌, ◌<◌, String, ◌≡◌, refl, sym, ap, subst, eq_refl, ◌∙◌, Bool, true, false,
  not, ◌||◌, Option, none, some, ◌==◌, arith, any, nat_eq, ok, throw, server_error, Exception,
  Bool-cases, ◌⊎◌, inl, inr, Outcome, le-cases, count_where, ◌∷◌,
}
use fieldserviceit_backend.Auth.{Account, AuthStore, Session, SessionContext, SecurityPolicy}
use fieldserviceit_backend.Auth.Sessions.{hash_credential, duplicate_entry, rotate, is_active}
use fieldserviceit_backend.Auth.Tokens.{
  Tokens, Draw, Existing, create_session, write_session, issue_tokens, attempt_tokens, retry,
  token_loop, generate_tokens, granted, trimmed, with_sessions, new_session, max_active_sessions,
  session_expiry,
}
use fieldserviceit_backend.Auth.SessionLimit.{active-trim_sessions}

-- No session is stored under the hash of the drawn token or under the drawn id.
abbrev pub is_free : (String → String) → Draw → AuthStore → Bool
is_free sha256 draw store = not (
    any
      (λ (row : Session).
        (row.refresh_token == hash_credential sha256 draw.refresh_token)
        || (row.id == draw.session_id))
      store.sessions)

-- What a round with a free draw leaves.
abbrev opened :
    (String → String) → ℕ → SecurityPolicy → Account → SessionContext → Draw → AuthStore → AuthStore
opened sha256 now policy user context draw store = trimmed now policy user draw.session_id (
    with_sessions
      (new_session now user.id context (session_expiry now policy) draw.session_id
          (hash_credential sha256 draw.refresh_token)
        ∷ store.sessions)
      store)

retry-ok :
    (is_last : Bool) (more : AuthStore → Outcome AuthStore Tokens)
    (round : Outcome AuthStore Tokens) (tokens : Tokens) (store' : AuthStore)
    → retry is_last more round ≡ (ok tokens, store')
    → (round ≡ (ok tokens, store'))
      ⊎ ((e : Exception) × (s : AuthStore) × (round ≡ (throw e, s))
          × (more s ≡ (ok tokens, store')))
unfolding retry
retry-ok is_last more (ok t, s) tokens store' h = inl h
retry-ok is_last more (throw e, s) tokens store' h = inr (e, s, refl, ground (arith, h))

module _ (sha256 : String → String) (now : ℕ) (policy : SecurityPolicy) (user : Account)
    (context : SessionContext) (draws : ℕ → Draw) where
  attempt_taken :
      (draw : Draw) (store : AuthStore)
      → is_free sha256 draw store ≡ false
      → attempt_tokens sha256 now policy user context none draw store
        ≡ (throw (server_error duplicate_entry), store)
  unfolding attempt_tokens write_session create_session
  attempt_taken draw store taken = ground (arith, taken)

  attempt_free :
      (draw : Draw) (store : AuthStore)
      → is_free sha256 draw store ≡ true
      → attempt_tokens sha256 now policy user context none draw store
        ≡ (ok (granted user draw draw.session_id), opened sha256 now policy user context draw store)
  unfolding attempt_tokens write_session create_session issue_tokens
  attempt_free draw store free = ground (arith, free)

  -- The loop answers where one of its draws is free.
  token_loop-answers :
      (left i m : ℕ) (store : AuthStore)
      → i ≤ m
      → m < i + left
      → is_free sha256 (draws m) store ≡ true
      → (tokens : Tokens) × (store' : AuthStore) × (k : ℕ) × (token_loop sha256 now policy user
            context none draws left i store
          ≡ (ok tokens, store'))
        × (k ≤ m)
        × (tokens.refresh_token ≡ (draws k).refresh_token)
  unfolding token_loop retry
  token_loop-answers zero i m store from to free = absurd (omega arith)
  token_loop-answers (suc left) i m store from to free =
      elim (Bool-cases (is_free sha256 (draws i) store)) [
        | inl now_free ↦ (
          granted user (draws i) (draws i).session_id,
          opened sha256 now policy user context (draws i) store,
          i,
          rw (attempt_free (draws i) store now_free) refl,
          from,
          refl,
        )
        | inr taken ↦
            let later : i < m = elim (le-cases i m from) [
              | inl same ↦ absurd (ground (arith, ap (λ j. is_free sha256 (draws j) store) same))
              | inr more ↦ more
            ] in
            let (tokens, store', k, same, within, drawn) =
              token_loop-answers left (suc i) m store later (omega arith) free in
            let more : nat_eq left 0 ≡ false = ground arith in
            (tokens, store', k, rw (attempt_taken (draws i) store taken, more) same, within, drawn)
      ]

  -- A round that fails writes nothing.
  attempt_failed :
      (existing : Option Existing) (draw : Draw) (store store' : AuthStore) (e : Exception)
      → attempt_tokens sha256 now policy user context existing draw store ≡ (throw e, store')
      → store ≡ store'
  unfolding attempt_tokens write_session create_session rotate issue_tokens
  attempt_failed none draw store store' e failed = ground (arith, failed)
  attempt_failed (some old) draw store store' e failed = ground (arith, failed)

  -- The round that the loop answers with.
  pub token_loop-round :
      (existing : Option Existing) (left i : ℕ) (store store' : AuthStore) (tokens : Tokens)
      → token_loop sha256 now policy user context existing draws left i store ≡ (ok tokens, store')
      → (k : ℕ) × (attempt_tokens sha256 now policy user context existing (draws k) store
          ≡ (ok tokens, store'))
  unfolding token_loop
  token_loop-round existing zero i store store' tokens h = absurd (cc)
  token_loop-round existing (suc left) i store store' tokens h =
      elim (retry-ok (nat_eq left 0)
        (λ s. token_loop sha256 now policy user context existing draws left (suc i) s)
        (attempt_tokens sha256 now policy user context existing (draws i) store) tokens store' h) [
          | inl done ↦ (i, done)
          | inr (e, s, failed, more) ↦
              let same = attempt_failed existing (draws i) store s e failed in
              token_loop-round existing left (suc i) store store' tokens (rw same more)
        ]

max_active_sessions-bound : (policy : SecurityPolicy) → max_active_sessions policy ≤ 50
unfolding max_active_sessions
max_active_sessions-bound policy = omega arith

active-opened :
    (sha256 : String → String) (now : ℕ) (policy : SecurityPolicy) (user : Account)
    (context : SessionContext) (draw : Draw) (store : AuthStore)
    → count_where (λ (row : Session). row.id == draw.session_id) store.sessions ≡ 0
    → count_where
        (is_active now user.id)
        (opened sha256 now policy user context draw store).sessions
      ≤ suc (max_active_sessions policy)
active-opened sha256 now policy user context draw store fresh =
    let hash = hash_credential sha256 draw.refresh_token in
    let row = new_session now user.id context (session_expiry now policy) draw.session_id hash in
    active-trim_sessions now user.id (max_active_sessions policy) draw.session_id
      (row ∷ store.sessions) (ground (arith, fresh, eq_refl draw.session_id))

-- A sign-in is answered with a token of one of its first k + 1 draws where the draw k of the five is
-- a token and an id that no session uses.
pub generate_tokens-answers :
    (sha256 : String → String) (now : ℕ) (policy : SecurityPolicy) (user : Account)
    (context : SessionContext) (draws : ℕ → Draw) (k : ℕ) (store : AuthStore)
    → k < 5
    → is_free sha256 (draws k) store ≡ true
    → (tokens : Tokens) × (store' : AuthStore) × (i : ℕ) × (generate_tokens sha256 now policy user
          context none draws store
        ≡ (ok tokens, store'))
      × (i ≤ k)
      × (tokens.refresh_token ≡ (draws i).refresh_token)
unfolding generate_tokens
generate_tokens-answers sha256 now policy user context draws k store within free =
    token_loop-answers sha256 now policy user context draws 5 0 k store (omega arith) (omega arith)
      free

-- After a sign-in that is answered, where no session has the id of a draw, the user has at most one
-- active session more than the policy allows, and so never more than fifty-one.
pub active-generate_tokens :
    (sha256 : String → String) (now : ℕ) (policy : SecurityPolicy) (user : Account)
    (context : SessionContext) (draws : ℕ → Draw) (store store' : AuthStore) (tokens : Tokens)
    → generate_tokens sha256 now policy user context none draws store ≡ (ok tokens, store')
    → ((i : ℕ) → count_where (λ (row : Session). row.id == (draws i).session_id) store.sessions ≡ 0)
    → (count_where (is_active now user.id) store'.sessions ≤ suc (max_active_sessions policy))
      × (max_active_sessions policy ≤ 50)
unfolding generate_tokens
active-generate_tokens sha256 now policy user context draws store store' tokens h fresh =
    let (i, round) =
      token_loop-round sha256 now policy user context draws none 5 0 store store' tokens h in
    (
      elim (Bool-cases (is_free sha256 (draws i) store)) [
        | inr taken ↦
            let refused =
              sym (attempt_taken sha256 now policy user context draws (draws i) store taken)
              ∙ round in
            absurd (cc)
        | inl free ↦
            let answered =
              sym (attempt_free sha256 now policy user context draws (draws i) store free)
              ∙ round in
            let same : opened sha256 now policy user context (draws i) store ≡ store' = cc in
            subst
              (λ (s : AuthStore).
                count_where (is_active now user.id) s.sessions ≤ suc (max_active_sessions policy))
              same (active-opened sha256 now policy user context (draws i) store (fresh i))
      ],
      max_active_sessions-bound policy,
    )

-- What is signed is about the account.
pub access-generate_tokens :
    (sha256 : String → String) (now : ℕ) (policy : SecurityPolicy) (user : Account)
    (context : SessionContext) (draws : ℕ → Draw) (store store' : AuthStore) (tokens : Tokens)
    → generate_tokens sha256 now policy user context none draws store ≡ (ok tokens, store')
    → (i : ℕ) × (granted user (draws i) (draws i).session_id ≡ tokens)
unfolding generate_tokens
access-generate_tokens sha256 now policy user context draws store store' tokens h =
    let (i, round) =
      token_loop-round sha256 now policy user context draws none 5 0 store store' tokens h in
    (
      i,
      elim (Bool-cases (is_free sha256 (draws i) store)) [
        | inr taken ↦
            let refused =
              sym (attempt_taken sha256 now policy user context draws (draws i) store taken)
              ∙ round in
            absurd (cc)
        | inl free ↦
            let answered =
              sym (attempt_free sha256 now policy user context draws (draws i) store free)
              ∙ round in
            cc
      ],
    )
