-- ===== src/Auth/Sessions.antt =====
-- Credentials as they are stored (src/common/security/credential-hash.ts) and the writes of
-- SessionRepository (src/database/repositories/session.repository.ts) and of the session routes of
-- AuthService (src/modules/auth/services/auth.service.ts).
use Prim.Native.String.{◌++◌ as append}
use fieldserviceit_backend.Base.{
  ℕ, String, Bool, true, not, ◌&&◌, Option, none, some, List, [], ◌∷◌, ◌==◌, if◌then◌else◌, ltb,
  is_none, truthy, is_text, any, find, includes, Outcome, ok, throw, bad_request, server_error,
  update_where, select, drop, order_by_desc, map,
}
use fieldserviceit_backend.Auth.{AuthStore, Session, Rotation}

unfoldable pub hash_credential : (String → String) → String → String
hash_credential sha256 value = append "sha256:" (sha256 value)

unfoldable pub credential_lookup_values : (String → String) → String → List String
credential_lookup_values sha256 value =
    let hashed = hash_credential sha256 value in
    if hashed == value then value ∷ [] else hashed ∷ value ∷ []

-- `refreshToken IN (...)` for the lookup values of a token.
abbrev pub holds_token : (String → String) → String → Session → Bool
holds_token sha256 token row = includes (credential_lookup_values sha256 token) row.refresh_token

-- A row stored under the hash is preferred to one that holds the token itself.
unfoldable pub find_by_refresh_token : (String → String) → String → List Session → Option Session
find_by_refresh_token sha256 token sessions =
    let legacy = find (holds_token sha256 token) sessions in
    elim (find (λ (row : Session). row.refresh_token == hash_credential sha256 token) sessions)
      as (λ o. Option Session) [ none ↦ legacy | some row ↦ some row ]

abbrev pub revoke : ℕ → String → Session → Session
revoke now reason row = record row { revoked_at = some now; revoke_reason = some reason }

abbrev pub revoke_by : ℕ → String → String → Session → Session
revoke_by now actor_id reason row = record (revoke now reason row) { revoked_by_id = some actor_id }

-- `revokedAt IS NULL` in the rows of a user.
abbrev pub is_unrevoked : String → Session → Bool
is_unrevoked user_id row = (row.user_id == user_id) && is_none row.revoked_at

-- `revokedAt IS NULL AND expiresAt > NOW(3)` in the rows of a user.
abbrev pub is_active : ℕ → String → Session → Bool
is_active now user_id row = is_unrevoked user_id row && ltb now row.expires_at

unfoldable pub revoke_by_refresh_token :
    (String → String) → ℕ → String → String → AuthStore → AuthStore
revoke_by_refresh_token sha256 now token reason store = record store {
  sessions = update_where (holds_token sha256 token) (revoke now reason) store.sessions;
}

unfoldable pub revoke_active_family : ℕ → String → String → AuthStore → AuthStore
revoke_active_family now user_id reason store = record store {
  sessions = update_where (is_unrevoked user_id) (revoke now reason) store.sessions;
}

abbrev pub has_token_hash : String → Rotation → Bool
has_token_hash hash row = row.token_hash == hash

-- INSERT IGNORE: a hash that is there already keeps its row.
unfoldable pub record_rotation :
    (String → String) → String → String → String → ℕ → AuthStore → AuthStore
record_rotation sha256 session_id user_id previous expires_at store =
    let hash = hash_credential sha256 previous in
    if any (has_token_hash hash) store.history then store else record store {
      history =
          record {
            session_id = session_id;
            user_id = user_id;
            token_hash = hash;
            expires_at = expires_at;
          }
          ∷ store.history;
    }

abbrev pub duplicate_entry : String
duplicate_entry = "Duplicate entry"

-- The row that `rotate` may write.
abbrev pub is_rotatable : (String → String) → ℕ → String → String → String → Session → Bool
is_rotatable sha256 now session_id user_id previous row =
    (row.id == session_id) && holds_token sha256 previous row && is_active now user_id row

abbrev pub rotated : ℕ → String → ℕ → Option ℕ → Session → Session
rotated now hash expires_at mfa_verified_at row = record row {
  refresh_token = hash;
  expires_at = expires_at;
  last_seen_at = some now;
  revoked_at = none;
  revoked_by_id = none;
  revoke_reason = none;
  mfa_verified_at = elim mfa_verified_at as (λ o. Option ℕ) [
    | none ↦ row.mfa_verified_at
    | some t ↦ some t
  ];
}

-- The column refreshToken is unique. `none` where no row was written.
unfoldable pub rotate :
    (String → String)
    → ℕ
    → String
    → String
    → String
    → String
    → ℕ
    → Option ℕ
    → AuthStore
    → Outcome AuthStore (Option String)
rotate sha256 now session_id user_id previous hash expires_at mfa_verified_at store =
    let hit = is_rotatable sha256 now session_id user_id previous in
    if any hit store.sessions
    then (if any (λ row. not (hit row) && (row.refresh_token == hash)) store.sessions
        then (throw (server_error duplicate_entry), store)
        else (
          ok (some session_id),
          record_rotation sha256 session_id user_id previous expires_at (record store {
            sessions =
                update_where hit (rotated now hash expires_at mfa_verified_at) store.sessions;
          }),
        ))
    else (ok none, store)

unfoldable pub find_reused_token : (String → String) → ℕ → String → List Rotation → Option Rotation
find_reused_token sha256 now token history =
    find (λ row. has_token_hash (hash_credential sha256 token) row && ltb now row.expires_at)
      history

-- `COALESCE(lastSeenAt, createdAt)`.
abbrev pub last_activity : Session → ℕ
last_activity row = elim row.last_seen_at as (λ o. ℕ) [ none ↦ row.created_at | some t ↦ t ]

abbrev pub session_id_of : Session → String
session_id_of row = row.id

-- The ids of the active sessions beyond the most recent ones, without the one to keep.
unfoldable pub stale_ids : ℕ → String → ℕ → String → List Session → List String
stale_ids now user_id max_active keep sessions =
    let rows = order_by_desc last_activity (select (is_active now user_id) sessions) in
    map session_id_of (select (λ row. not (row.id == keep)) (drop max_active rows))

unfoldable pub trim_sessions : ℕ → String → ℕ → String → List Session → List Session
trim_sessions now user_id max_active keep sessions =
    let stale = stale_ids now user_id max_active keep sessions in
    update_where (λ row. includes stale row.id) (revoke now "session-limit") sessions

-- `revokeSession` and `revokeOtherSessions` of AuthService.
unfoldable pub revoke_session : ℕ → String → String → String → AuthStore → Outcome AuthStore Bool
revoke_session now user_id session_id actor_id store =
    let hit = λ (row : Session). (row.id == session_id) && is_unrevoked user_id row in
    if any hit store.sessions
    then (
      ok true,
      record store {
        sessions = update_where hit (revoke_by now actor_id "user-revoked") store.sessions;
      },
    )
    else (throw (bad_request "Session is not active"), store)

unfoldable pub revoke_other_sessions : ℕ → String → Option String → AuthStore → AuthStore
revoke_other_sessions now user_id current store =
    let other = λ (row : Session). not (truthy current && is_text current row.id) in
    record store {
      sessions =
          update_where (λ row. is_unrevoked user_id row && other row)
            (revoke_by now user_id "user-revoked-others") store.sessions;
    }
