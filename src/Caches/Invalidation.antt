-- ===== src/Caches/Invalidation.antt =====
-- What the permission scope cache returns after a store and after an invalidation.
use fieldserviceit_backend.Base.{
  ℕ, ◌+◌, ◌-◌, ◌≤◌, String, ◌≡◌, sym, ◌∙◌, ap, true, none, some, List, arith, eq_refl, ltb→lt,
  Option-cases, inl, inr,
}
use Prim.Native.String.{◌++◌}
use text.Mathlib.Text.{starts_with}
use text.Mathlib.TextEquality.{starts_with_iff}
use text.Mathlib.TextPositions.{starts_with_of_prefix}
use text.Mathlib.TextLemmas.{append_assoc}
use fieldserviceit_backend.Base.Map.{get, get-set}
use fieldserviceit_backend.Caches.KeyLists.{get-delete_keys, includes-keys_where}
use fieldserviceit_backend.Caches.Permissions.{
  CacheEntry, PermissionScopeCache, build_key, keys_where, delete_oldest, is_expired, ttl_ms,
  get_scopes, set_scopes, invalidate,
}
use fieldserviceit_backend.Caches.Refinement.{Operation, run, run-HasUniqueKeys}

key_begins : (u v co : String) → starts_with v u ≡ true → starts_with (build_key v co) u ≡ true
unfolding build_key
key_begins u v co begins =
    let (rest, e) = (starts_with_iff v u).0 begins in
    starts_with_of_prefix u (v ++ (":" ++ co))
      (rest ++ (":" ++ co), sym (append_assoc u rest (":" ++ co)) ∙ ap (λ w. w ++ (":" ++ co)) e)

module _ {ℓ} {A : Type ℓ} where
  get-set_scopes_same :
      (u co : String) (scopes : List A) (now : ℕ) (c : PermissionScopeCache A)
      → get (set_scopes u co scopes now c).cache (build_key u co)
        ≡ some (record { scopes = scopes; timestamp = now })
  unfolding set_scopes
  get-set_scopes_same u co scopes now c =
      let entry : CacheEntry A = record { scopes = scopes; timestamp = now } in
      let key = build_key u co in
      ground (
        arith,
        get-set c.cache key key entry,
        get-set (delete_oldest c.cache) key key entry,
        eq_refl key,
      )

  -- A lookup at most five minutes after a store, with nothing in between, returns what was
  -- stored, whatever the cache held before.
  pub get_scopes-set_scopes :
      (u co : String) (scopes : List A) (now later : ℕ) (c : PermissionScopeCache A)
      → later ≤ now + 300000
      → (get_scopes u co later (set_scopes u co scopes now c)).0 ≡ some scopes
  unfolding get_scopes is_expired
  get_scopes-set_scopes u co scopes now later c soon =
      ground (arith, get-set_scopes_same u co scopes now c, ltb→lt ttl_ms (later - now))

  -- After an invalidation without a company, a lookup misses for each user whose id begins with
  -- the id given, that user among them, whatever the company.
  pub get_scopes-invalidate :
      (ops : List (Operation A)) (u v co : String) (now : ℕ)
      → starts_with v u ≡ true
      → (get_scopes v co now (invalidate u none (run ops))).0 ≡ none
  unfolding get_scopes invalidate
  get_scopes-invalidate ops u v co now begins =
      let key = build_key v co in
      let c = run ops in
      let collected = keys_where (λ k. starts_with k u) c.cache in
      let swept = get-delete_keys collected c.cache key (run-HasUniqueKeys ops) in
      elim (Option-cases (get c.cache key)) [
        | inl absent ↦ ground (arith, swept, absent)
        | inr (e, present) ↦ ground (
          arith,
          swept,
          includes-keys_where (λ k. starts_with k u) c.cache key e present,
          key_begins u v co begins,
        )
      ]
