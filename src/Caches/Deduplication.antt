-- ===== src/Caches/Deduplication.antt =====
-- RequestDeduplicationMiddleware (src/common/middleware/request-deduplication.middleware.ts). The
-- clock's reading, in milliseconds, and the generated identifier are arguments; the headers that
-- the middleware sets and its log lines are left out.
use Prim.Native.String.{◌++◌}
use text.Mathlib.Text.{starts_with}
use fieldserviceit_backend.Base.{
  ℕ, ◌+◌, ◌-◌, ◌≤◌, ◌<◌, String, ◌≡◌, sym, Bool, true, false, not, ◌&&◌, Option, none, some, List,
  [], ◌∷◌, arith, if◌then◌else◌, ltb, leb, nat_eq, length, any, includes, or_else, eq_refl, leb→le,
  le→leb, lt→ltb, Option-cases, Bool-cases, inl, inr,
}
use fieldserviceit_backend.Base.Map.{
  Map, get, set, delete_where, length-set, length-delete_where, get-set,
}
use fieldserviceit_backend.Caches.Permissions.{delete_oldest}
use fieldserviceit_backend.Caches.KeyLists.{length-delete_oldest}

-- What the middleware reads of a request. It does not read who sends it.
pub record Request : Type 0 where
  pub method : String
  pub path : String
  pub idempotency_key : Option String
  pub authorization : Option String

pub record RequestSignature {ℓ} (A : Type ℓ) : Type ℓ where
  pub timestamp : ℕ
  pub response : A
  pub status : ℕ

-- What becomes of a request: handed on without care, answered from the cache, or handed on with
-- its answer to be kept under a key.
pub data Outcome {ℓ} (A : Type ℓ) : Type ℓ where
  passed : Outcome A
  replayed : Option ℕ → A → Outcome A
  watched : String → Outcome A

abbrev pub cache_duration_ms : ℕ
cache_duration_ms = 60000

abbrev pub max_cache_entries : ℕ
max_cache_entries = 1000

unfoldable pub build_cache_key : Request → String → String
build_cache_key req idempotency_key = req.method ++ (":" ++ (req.path ++ (":" ++ idempotency_key)))

unfoldable pub should_skip_deduplication : Request → Bool
should_skip_deduplication req =
    any (λ prefix. starts_with req.path prefix)
      ("/v1/uploads" ∷ "/v1/file" ∷ "/v1/stream" ∷ "/v1/health" ∷ [])

-- What the middleware does with its map: an answer, or the timer.
pub data Event {ℓ} (A : Type ℓ) : Type ℓ where
  sent : String → A → ℕ → ℕ → Event A
  swept : ℕ → Event A

module _ {ℓ} {A : Type ℓ} where
  unfoldable pub cache_response :
      String → A → ℕ → ℕ → Map (RequestSignature A) → Map (RequestSignature A)
  cache_response key response status now m =
      set (if leb max_cache_entries (length m) then delete_oldest m else m) key
        (record { timestamp = now; response = response; status = status })

  -- The part of `use` after the key is built.
  unfoldable pub answer_from_cache : String → ℕ → Map (RequestSignature A) → Outcome A
  answer_from_cache key now m = elim (get m key) [
    | none ↦ watched key
    | some cached ↦
        if ltb (now - cached.timestamp) cache_duration_ms
        then replayed (if nat_eq cached.status 0 then none else some cached.status) cached.response
        else watched key
  ]

  -- `use`, up to the answer.
  unfoldable pub use_deduplication : Request → String → ℕ → Map (RequestSignature A) → Outcome A
  use_deduplication req uuid now m =
      if not (includes ("POST" ∷ "PUT" ∷ "DELETE" ∷ "PATCH" ∷ []) req.method)
      then passed
      else if should_skip_deduplication req
      then passed
      else answer_from_cache (build_cache_key req (or_else req.idempotency_key uuid)) now m

  -- The wrapped `res.send` of a request that is watched.
  unfoldable pub send : String → A → ℕ → ℕ → Map (RequestSignature A) → Map (RequestSignature A)
  send key data_sent status now m =
      if leb 200 status && ltb status 300 then cache_response key data_sent status now m else m

  unfoldable pub cleanup_cache : ℕ → Map (RequestSignature A) → Map (RequestSignature A)
  cleanup_cache now m =
      delete_where (λ key signature. ltb cache_duration_ms (now - signature.timestamp)) m

  abbrev pub replay_events : List (Event A) → Map (RequestSignature A)
  replay_events [] = []
  replay_events (sent key answer status now ∷ past) =
      send key answer status now (replay_events past)
  replay_events (swept now ∷ past) = cleanup_cache now (replay_events past)

  -- The middleware never keeps more than 1000 answers.
  pub replay_events_bounded : (past : List (Event A)) → length (replay_events past) ≤ 1000
  unfolding send cache_response cleanup_cache
  replay_events_bounded [] = omega arith
  replay_events_bounded (sent key answer status now ∷ past) =
      let m = replay_events past in
      let entry : RequestSignature A = record {
        timestamp = now;
        response = answer;
        status = status;
      } in
      ground (
        arith,
        length-set m key entry,
        length-set (delete_oldest m) key entry,
        length-delete_oldest m,
        le→leb 1000 (length m),
        leb→le 1000 (length m),
        replay_events_bounded past,
      )
  replay_events_bounded (swept now ∷ past) = omega (
    arith,
    length-delete_where (λ key signature. ltb cache_duration_ms (now - signature.timestamp))
        (replay_events past),
    replay_events_bounded past,
  )

  answer_from_cache-eq-watched :
      (key key' : String) (now : ℕ) (m : Map (RequestSignature A))
      → answer_from_cache key now m ≡ watched key'
      → key' ≡ key
  unfolding answer_from_cache
  answer_from_cache-eq-watched key key' now m h = elim (Option-cases (get m key)) [
    | inl e ↦ ground (arith, e)
    | inr (cached, e) ↦ ground (arith, e)
  ]

  watched_key :
      (req : Request) (uuid key : String) (now : ℕ) (m : Map (RequestSignature A))
      → use_deduplication req uuid now m ≡ watched key
      → (key ≡ build_cache_key req (or_else req.idempotency_key uuid))
        × (includes ("POST" ∷ "PUT" ∷ "DELETE" ∷ "PATCH" ∷ []) req.method ≡ true)
        × (should_skip_deduplication req ≡ false)
  unfolding use_deduplication
  watched_key req uuid key now m h =
      let built = build_cache_key req (or_else req.idempotency_key uuid) in
      let mutation = includes ("POST" ∷ "PUT" ∷ "DELETE" ∷ "PATCH" ∷ []) req.method in
      elim (Bool-cases mutation) [
        | inr e ↦ absurd (ground (arith, e))
        | inl e ↦ elim (Bool-cases (should_skip_deduplication req)) [
          | inl skipped ↦ absurd (ground (arith, e, skipped))
          | inr kept ↦
              (answer_from_cache-eq-watched built key now m (ground (arith, e, kept)), e, kept)
        ]
      ]

  get-send :
      (key : String) (answer : A) (status now : ℕ) (m : Map (RequestSignature A))
      → 200 ≤ status
      → status < 300
      → get (send key answer status now m) key
        ≡ some (record { timestamp = now; response = answer; status = status })
  unfolding send cache_response
  get-send key answer status now m low high =
      let entry : RequestSignature A = record {
        timestamp = now;
        response = answer;
        status = status;
      } in
      ground (
        arith,
        get-set m key key entry,
        get-set (delete_oldest m) key key entry,
        eq_refl key,
        le→leb 200 status,
        lt→ltb status 300,
      )

  -- Once a watched request is answered with a status from 200 to 299, every request with the same
  -- method, path and idempotency key within a minute gets that answer, whoever sends it.
  pub use_deduplication-send :
      (first second : Request) (key uuid uuid' : String) (answer : A) (status now later : ℕ)
      (m : Map (RequestSignature A))
      → use_deduplication first uuid now m ≡ watched key
      → 200 ≤ status
      → status < 300
      → later < now + 60000
      → second.method ≡ first.method
      → second.path ≡ first.path
      → or_else second.idempotency_key uuid' ≡ or_else first.idempotency_key uuid
      → use_deduplication second uuid' later (send key answer status now m)
        ≡ replayed (some status) answer
  unfolding use_deduplication answer_from_cache build_cache_key should_skip_deduplication
  use_deduplication-send first second key uuid uuid' answer status now later m h low high soon
        same_method same_path same_key =
      let (built, mutation, kept) = watched_key first uuid key now m h in
      let mutation' : includes ("POST" ∷ "PUT" ∷ "DELETE" ∷ "PATCH" ∷ []) second.method ≡ true =
        rw same_method mutation in
      let kept' : should_skip_deduplication second ≡ false = rw same_path kept in
      let built' : build_cache_key second (or_else second.idempotency_key uuid') ≡ key =
        rw (same_method, same_path, same_key) (sym built) in
      let stored = get-send key answer status now m low high in
      let fresh = lt→ltb (later - now) 60000 in
      ground (arith, mutation', kept', built', stored, fresh)
