-- ===== src/Caches/Throttler.antt =====
-- DatabaseThrottlerStorage (src/common/services/database-throttler-storage.service.ts): the table
-- RateLimitState with its one upsert. `now` is the reading of NOW(3) and of the process's clock, in
-- milliseconds; the hash of a key is an argument. MySQL assigns the columns of an ON DUPLICATE KEY
-- UPDATE from left to right, so blockedUntil is computed from the new totalHits.
use Prim.Native.String.{◌++◌}
use fieldserviceit_backend.Base.{
  ℕ, suc, ◌+◌, ◌-◌, ◌/◌, ◌≤◌, ◌<◌, max, String, ◌⊎◌, ◌≡◌, refl, Bool, true, false, ◌&&◌, Option,
  none, some, List, [], ◌∷◌, All, arith, eq_refl, if◌then◌else◌, ltb, leb, nat_eq, length, leb→le,
  lt→ltb, ltb→lt, Bool-cases, inl, inr,
}
use fieldserviceit_backend.Base.Map.{Map, get, set, delete_where, get-set}

pub record RateLimitState : Type 0 where
  pub total_hits : ℕ
  pub expires_at : ℕ
  pub blocked_until : Option ℕ

pub record ThrottlerRecord : Type 0 where
  pub total_hits : ℕ
  pub time_to_expire : ℕ
  pub is_blocked : Bool
  pub time_to_block_expire : ℕ

-- `blockedUntil > NOW(3)`, false for NULL.
abbrev pub is_after : Option ℕ → ℕ → Bool
is_after none now = false
is_after (some t) now = ltb now t

-- CEIL of the milliseconds that are left, in seconds, and at least 0.
abbrev pub seconds_left : ℕ → ℕ → ℕ
seconds_left t now = (t - now + 999) / 1000

-- `Math.max(1, blockDuration || ttl)`.
abbrev pub effective_block_ms : ℕ → ℕ → ℕ
effective_block_ms block_duration ttl =
    max 1 (if nat_eq block_duration 0 then ttl else block_duration)

-- The row that the upsert leaves.
unfoldable pub upsert : ℕ → ℕ → ℕ → ℕ → Option RateLimitState → RateLimitState
upsert ttl limit block_duration now none = record {
  total_hits = 1;
  expires_at = now + ttl;
  blocked_until = none;
}
upsert ttl limit block_duration now (some row) =
    let expired = leb row.expires_at now in
    let hits = if expired then 1 else row.total_hits + 1 in
    record {
      total_hits = hits;
      expires_at = if expired then now + ttl else row.expires_at;
      blocked_until =
          if expired
          then none
          else if ltb limit hits
          then (if is_after row.blocked_until now
              then row.blocked_until
              else some (now + effective_block_ms block_duration ttl))
          else row.blocked_until;
    }

-- What `increment` reads back.
unfoldable pub reading : ℕ → RateLimitState → ThrottlerRecord
reading now row = record {
  total_hits = if nat_eq row.total_hits 0 then 1 else row.total_hits;
  time_to_expire = seconds_left row.expires_at now;
  is_blocked = is_after row.blocked_until now;
  time_to_block_expire = elim row.blocked_until [ none ↦ 0 | some t ↦ seconds_left t now ];
}

unfoldable pub increment :
    (String → String)
    → String
    → ℕ
    → ℕ
    → ℕ
    → String
    → ℕ
    → Map RateLimitState
    → ThrottlerRecord × Map RateLimitState
increment sha256 key ttl limit block_duration throttler_name now table =
    let key_hash = sha256 (throttler_name ++ (":" ++ key)) in
    let row = upsert ttl limit block_duration now (get table key_hash) in
    (reading now row, set table key_hash row)

-- A DATE_SUB of one day; the dates are far from the beginning of the clock.
unfoldable pub cleanup_expired_state : ℕ → Map RateLimitState → Map RateLimitState
cleanup_expired_state now table =
    delete_where
      (λ key row.
        ltb (row.expires_at + 86400000) now
        && elim row.blocked_until [ none ↦ true | some t ↦ ltb t now ])
      table

-- The table after hits of one key at the given times, the latest first.
abbrev pub hit :
    (String → String)
    → String
    → ℕ
    → ℕ
    → ℕ
    → String
    → List ℕ
    → Map RateLimitState
    → Map RateLimitState
hit sha256 key ttl limit block_duration name [] table = table
hit sha256 key ttl limit block_duration name (now ∷ past) table =
    let before = hit sha256 key ttl limit block_duration name past table in
    (increment sha256 key ttl limit block_duration name now before).1

-- A row of a window that ends at a date, after a number of hits: it blocks past the end of the
-- window once the hits are more than the limit, and not before.
abbrev IsCounted : ℕ → ℕ → ℕ → RateLimitState → Type 0
IsCounted limit end n row =
    (row.total_hits ≡ n)
    × (row.expires_at ≡ end)
    × (((row.blocked_until ≡ none) × (n ≤ limit))
        ⊎ ((t : ℕ) × (row.blocked_until ≡ some t) × (limit < n) × (end ≤ t)))

upsert-IsCounted :
    (ttl limit block_duration first now n : ℕ) (row : RateLimitState)
    → ttl ≤ effective_block_ms block_duration ttl
    → first ≤ now
    → now < first + ttl
    → IsCounted limit (first + ttl) n row
    → IsCounted limit (first + ttl) (suc n) (upsert ttl limit block_duration now (some row))
unfolding upsert
upsert-IsCounted ttl limit block_duration first now n row long after soon
      (same, end, inl (free, few)) =
    elim (Bool-cases (ltb limit (suc n))) [
      | inl over ↦ (
        ground (arith, leb→le row.expires_at now),
        ground (arith, leb→le row.expires_at now),
        inr (
          now + effective_block_ms block_duration ttl,
          ground (arith, leb→le row.expires_at now, over, free, same, end),
          ltb→lt limit (suc n) over,
          omega arith,
        ),
      )
      | inr under ↦ (
        ground (arith, leb→le row.expires_at now),
        ground (arith, leb→le row.expires_at now),
        inl (
          ground (arith, leb→le row.expires_at now, under, free, same, end),
          ground (arith, under, lt→ltb limit (suc n)),
        ),
      )
    ]
upsert-IsCounted ttl limit block_duration first now n row long after soon
      (same, end, inr (t, held, many, past)) =
    let over = lt→ltb limit (suc n) in
    let current = lt→ltb now t in
    (
      ground (arith, leb→le row.expires_at now),
      ground (arith, leb→le row.expires_at now),
      inr (
        t,
        ground (arith, leb→le row.expires_at now, over, current, held, same, end),
        omega arith,
        past,
      ),
    )

-- What a window's rows count, and when they block.
hit-IsCounted :
    (sha256 : String → String) (key : String) (ttl limit block_duration first : ℕ) (name : String)
    (times : List ℕ) (table : Map RateLimitState)
    → get table (sha256 (name ++ (":" ++ key))) ≡ none
    → ttl ≤ effective_block_ms block_duration ttl
    → 1 ≤ limit
    → All (λ t. (first ≤ t) × (t < first + ttl)) times
    → (row : RateLimitState) × (get
          (hit sha256 key ttl limit block_duration name times
            (increment sha256 key ttl limit block_duration name first table).1)
          (sha256 (name ++ (":" ++ key)))
        ≡ some row)
      × IsCounted limit (first + ttl) (suc (length times)) row
unfolding increment upsert
hit-IsCounted sha256 key ttl limit block_duration first name [] table new long some_allowed h =
    let hash = sha256 (name ++ (":" ++ key)) in
    let row : RateLimitState = record {
      total_hits = 1;
      expires_at = first + ttl;
      blocked_until = none;
    } in
    (
      row,
      ground (arith, get-set table hash hash row, eq_refl hash, new),
      (refl, refl, inl (refl, some_allowed)),
    )
hit-IsCounted sha256 key ttl limit block_duration first name (now ∷ past) table new long
      some_allowed ((after, soon), h) =
    let hash = sha256 (name ++ (":" ++ key)) in
    let (row, at, counted) =
      hit-IsCounted sha256 key ttl limit block_duration first name past table new long some_allowed
        h in
    let m =
      hit sha256 key ttl limit block_duration name past
        (increment sha256 key ttl limit block_duration name first table).1 in
    let row' = upsert ttl limit block_duration now (some row) in
    (
      row',
      ground (arith, get-set m hash hash row', eq_refl hash, at),
      upsert-IsCounted ttl limit block_duration first now (suc (length past)) row long after soon
          counted,
    )

-- In a window that starts with a first hit of a key without a row, where the block is not shorter
-- than the window and the limit is at least 1, a later hit is numbered by the hits before it, and
-- it is blocked exactly when that number is more than the limit.
pub increment_blocks :
    (sha256 : String → String) (key : String) (ttl limit block_duration first : ℕ) (name : String)
    (now : ℕ) (times : List ℕ) (table : Map RateLimitState)
    → get table (sha256 (name ++ (":" ++ key))) ≡ none
    → ttl ≤ effective_block_ms block_duration ttl
    → 1 ≤ limit
    → All (λ t. (first ≤ t) × (t < first + ttl)) (now ∷ times)
    → ((increment sha256 key ttl limit block_duration name now (
          hit sha256 key ttl limit block_duration name times
            (increment sha256 key ttl limit block_duration name first table).1)).0.total_hits
        ≡ 2 + length times)
      × ((increment sha256 key ttl limit block_duration name now (
            hit sha256 key ttl limit block_duration name times
              (increment sha256 key ttl limit block_duration name first table).1)).0.is_blocked
          ≡ ltb limit (2 + length times))
unfolding increment reading
increment_blocks sha256 key ttl limit block_duration first name now times table new long
      some_allowed ((after, soon), h) =
    let (row, at, counted) =
      hit-IsCounted sha256 key ttl limit block_duration first name times table new long some_allowed
        h in
    let (same, end, blocks) =
      upsert-IsCounted ttl limit block_duration first now (suc (length times)) row long after soon
        counted in
    elim blocks [
      | inl (free, few) ↦
          (ground (arith, at, same), ground (arith, at, free, few, ltb→lt limit (2 + length times)))
      | inr (t, held, many, past) ↦ (
        ground (arith, at, same),
        ground (arith, at, held, many, past, lt→ltb limit (2 + length times), lt→ltb now t),
      )
    ]
