-- ===== src/Caches/Tests.antt =====
-- The permission scope cache (src/common/services/permission-scope-cache.service.ts) at sample
-- histories.
use fieldserviceit_backend.Base.{◌+◌, ◌≤◌, String, ◌≡◌, refl, none, some, List, [], ◌∷◌}
use fieldserviceit_backend.Base.Map.{get, set, has, delete}
use fieldserviceit_backend.Caches.Permissions.{
  CacheEntry, build_key, delete_keys, keys_where, is_expired, get_scopes, set_scopes, invalidate,
}
use fieldserviceit_backend.Caches.Refinement.{Operation, looked_up, stored, invalidated, run}
use fieldserviceit_backend.Caches.Tenancy.{latest_for, get_scopes-latest}
use fieldserviceit_backend.Caches.Invalidation.{get_scopes-invalidate}

abbrev history : List (Operation String)
history =
    looked_up "u1" "acme" 5
    ∷ stored "u10" "acme" ("tickets.view" ∷ []) 4
    ∷ invalidated "u1" none
    ∷ stored "u1" "acme" ("tickets.create" ∷ []) 3
    ∷ []

get_scopes-latest_example :
    (e : CacheEntry String) × (latest_for history "u10" "acme" ≡ some e)
    × (e.scopes ≡ "tickets.view" ∷ [])
    × (9 ≤ e.timestamp + 300000)
unfolding get_scopes set_scopes invalidate build_key is_expired get set has delete delete_keys
    keys_where
get_scopes-latest_example = get_scopes-latest history "u10" "acme" 9 ("tickets.view" ∷ []) refl refl

-- The entry of user u10 goes with those of user u1.
get_scopes-invalidate_example :
    (get_scopes "u10" "acme" 9 (invalidate "u1" none (run history))).0 ≡ none
get_scopes-invalidate_example = get_scopes-invalidate history "u1" "u10" "acme" 9 refl
