-- ===== src/Caches/Permissions.antt =====
-- PermissionScopeCacheService (src/common/services/permission-scope-cache.service.ts). The clock's
-- reading is an argument, in milliseconds; log lines are left out.
use Prim.Native.String.{◌++◌}
use fieldserviceit_backend.Base.{
  ℕ, ◌+◌, ◌-◌, String, Bool, not, ◌&&◌, Option, none, some, List, [], ◌∷◌, if◌then◌else◌, leb, ltb,
  length, truthy, or_else,
}
use fieldserviceit_backend.Base.Map.{Map, get, has, set, delete, first_key, delete_where}
use text.Mathlib.Text.{starts_with}

pub record CacheEntry {ℓ} (A : Type ℓ) : Type ℓ where
  pub scopes : List A
  pub timestamp : ℕ

pub record PermissionScopeCache {ℓ} (A : Type ℓ) : Type ℓ where
  pub cache : Map (CacheEntry A)
  pub hits : ℕ
  pub misses : ℕ
  pub evictions : ℕ

abbrev pub ttl_ms : ℕ
ttl_ms = 300000

abbrev pub max_entries : ℕ
max_entries = 10000

unfoldable pub build_key : String → String → String
build_key user_id company_id = user_id ++ (":" ++ company_id)

-- `delete` of each collected key.
unfoldable pub delete_keys {ℓ} : {V : Type ℓ} → List String → Map V → Map V
delete_keys [] m = m
delete_keys (k ∷ ks) m = delete_keys ks (delete m k)

-- The keys of a map that pass a test, as a `forEach` collects them.
unfoldable pub keys_where {ℓ} : {V : Type ℓ} → (String → Bool) → Map V → List String
keys_where p [] = []
keys_where p ((k, v) ∷ m) = let rest = keys_where p m in if p k then k ∷ rest else rest

-- `cache.delete(cache.keys().next().value)`.
unfoldable pub delete_oldest {ℓ} : {V : Type ℓ} → Map V → Map V
delete_oldest m = elim (first_key m) [ none ↦ m | some k ↦ delete m k ]

unfoldable pub is_expired {ℓ} : {A : Type ℓ} → ℕ → CacheEntry A → Bool
is_expired now entry = ltb ttl_ms (now - entry.timestamp)

module _ {ℓ} {A : Type ℓ} where
  abbrev pub empty_cache : PermissionScopeCache A
  empty_cache = record { cache = []; hits = 0; misses = 0; evictions = 0 }

  unfoldable pub get_scopes :
      String → String → ℕ → PermissionScopeCache A → Option (List A) × PermissionScopeCache A
  get_scopes user_id company_id now c =
      let key = build_key user_id company_id in
      elim (get c.cache key) [
        | none ↦ (none, record c { misses = c.misses + 1 })
        | some entry ↦
            if is_expired now entry
            then (none, record c { cache = delete c.cache key; misses = c.misses + 1 })
            else (some entry.scopes, record c { hits = c.hits + 1 })
      ]

  unfoldable pub set_scopes :
      String → String → List A → ℕ → PermissionScopeCache A → PermissionScopeCache A
  set_scopes user_id company_id scopes now c =
      let key = build_key user_id company_id in
      let full = leb max_entries (length c.cache) && not (has c.cache key) in
      let entry : CacheEntry A = record { scopes = scopes; timestamp = now } in
      record c {
        cache = set (if full then delete_oldest c.cache else c.cache) key entry;
        evictions = if full then c.evictions + 1 else c.evictions;
      }

  unfoldable pub invalidate :
      String → Option String → PermissionScopeCache A → PermissionScopeCache A
  invalidate user_id company_id c = record c {
    cache =
        if truthy company_id
        then delete c.cache (build_key user_id (or_else company_id ""))
        else delete_keys (keys_where (λ key. starts_with key user_id) c.cache) c.cache;
  }

  unfoldable pub clear : PermissionScopeCache A → PermissionScopeCache A
  clear c = record c { cache = [] }

  unfoldable pub cleanup : ℕ → PermissionScopeCache A → PermissionScopeCache A
  cleanup now c = record c { cache = delete_where (λ key entry. is_expired now entry) c.cache }
