-- ===== src/Caches/Refinement.antt =====
-- The permission scope cache against its specification: a map without a bound that forgets an
-- entry only when it is told to.
use fieldserviceit_backend.Base.{
  ℕ, String, ◌≡◌, inl, inr, Bool, false, Option, none, some, List, [], ◌∷◌, arith, ◌==◌,
  if◌then◌else◌, truthy, or_else, Option-cases,
}
use fieldserviceit_backend.Base.Map.{
  get, HasUniqueKeys, get-set, get-delete, set-HasUniqueKeys, delete-HasUniqueKeys,
  delete_where-HasUniqueKeys, get-delete_where, get-delete_where-none,
}
use text.Mathlib.Text.{starts_with}
use fieldserviceit_backend.Caches.KeyLists.{
  delete_keys-HasUniqueKeys, get-delete_keys, includes-keys_where, delete_oldest-HasUniqueKeys,
  get-delete_oldest,
}
use fieldserviceit_backend.Caches.Permissions.{
  CacheEntry, PermissionScopeCache, build_key, keys_where, delete_oldest, is_expired, empty_cache,
  get_scopes, set_scopes, invalidate, clear, cleanup,
}

-- The service's public operations and its timer.
pub data Operation {ℓ} (A : Type ℓ) : Type ℓ where
  looked_up : String → String → ℕ → Operation A
  stored : String → String → List A → ℕ → Operation A
  invalidated : String → Option String → Operation A
  cleared : Operation A
  cleaned : ℕ → Operation A

-- The keys that an invalidation concerns.
unfoldable pub concerns : String → Option String → String → Bool
concerns user_id company_id key =
    if truthy company_id
    then build_key user_id (or_else company_id "") == key
    else starts_with key user_id

module _ {ℓ} {A : Type ℓ} where
  abbrev pub apply : Operation A → PermissionScopeCache A → PermissionScopeCache A
  apply (looked_up u co now) c = (get_scopes u co now c).1
  apply (stored u co scopes now) c = set_scopes u co scopes now c
  apply (invalidated u co) c = invalidate u co c
  apply cleared c = clear c
  apply (cleaned now) c = cleanup now c

  -- The state after a history, the latest operation first.
  abbrev pub run : List (Operation A) → PermissionScopeCache A
  run [] = empty_cache
  run (op ∷ past) = apply op (run past)

  -- What the history last stored under a key and did not invalidate since.
  abbrev pub latest : List (Operation A) → String → Option (CacheEntry A)
  latest [] key = none
  latest (looked_up u co now ∷ past) key = latest past key
  latest (stored u co scopes now ∷ past) key =
      let before = latest past key in
      if build_key u co == key then some (record { scopes = scopes; timestamp = now }) else before
  latest (invalidated u co ∷ past) key =
      let before = latest past key in if concerns u co key then none else before
  latest (cleared ∷ past) key = none
  latest (cleaned now ∷ past) key = latest past key

  -- A map whose entries are all among the specification's.
  apply-HasUniqueKeys :
      (op : Operation A) (c : PermissionScopeCache A)
      → HasUniqueKeys c.cache
      → HasUniqueKeys (apply op c).cache
  unfolding get_scopes set_scopes invalidate clear cleanup
  apply-HasUniqueKeys (looked_up u co now) c h =
      ground (arith, delete-HasUniqueKeys c.cache (build_key u co) h)
  apply-HasUniqueKeys (stored u co scopes now) c h = ground (
    arith,
    set-HasUniqueKeys c.cache (build_key u co) (record { scopes = scopes; timestamp = now }) h,
    set-HasUniqueKeys (delete_oldest c.cache) (build_key u co)
        (record { scopes = scopes; timestamp = now }) (delete_oldest-HasUniqueKeys c.cache h),
  )
  apply-HasUniqueKeys (invalidated u co) c h = ground (
    arith,
    delete-HasUniqueKeys c.cache (build_key u (or_else co "")) h,
    delete_keys-HasUniqueKeys (keys_where (λ key. starts_with key u) c.cache) c.cache h,
  )
  apply-HasUniqueKeys cleared c h = tt
  apply-HasUniqueKeys (cleaned now) c h =
      delete_where-HasUniqueKeys (λ key entry. is_expired now entry) c.cache h

  pub run-HasUniqueKeys : (ops : List (Operation A)) → HasUniqueKeys (run ops).cache
  run-HasUniqueKeys [] = tt
  run-HasUniqueKeys (op ∷ past) = apply-HasUniqueKeys op (run past) (run-HasUniqueKeys past)

  -- What a store leaves at a key.
  get-set_scopes :
      (u co : String) (scopes : List A) (now : ℕ) (c : PermissionScopeCache A) (key : String)
      (e : CacheEntry A)
      → HasUniqueKeys c.cache
      → get (set_scopes u co scopes now c).cache key ≡ some e
      → (if build_key u co == key
          then some (record { scopes = scopes; timestamp = now })
          else get c.cache key)
        ≡ some e
  unfolding set_scopes
  get-set_scopes u co scopes now c key e h found =
      let entry : CacheEntry A = record { scopes = scopes; timestamp = now } in
      ground (
        arith,
        get-set c.cache (build_key u co) key entry,
        get-set (delete_oldest c.cache) (build_key u co) key entry,
        get-delete_oldest c.cache key e h,
      )

  -- An invalidation keeps only entries that it does not concern.
  get-invalidate :
      (u : String) (co : Option String) (c : PermissionScopeCache A) (key : String)
      (e : CacheEntry A)
      → HasUniqueKeys c.cache
      → get (invalidate u co c).cache key ≡ some e
      → (get c.cache key ≡ some e) × (concerns u co key ≡ false)
  unfolding invalidate concerns
  get-invalidate u co c key e h found =
      let named = get-delete c.cache (build_key u (or_else co "")) key h in
      let swept = get-delete_keys (keys_where (λ k. starts_with k u) c.cache) c.cache key h in
      let collected = includes-keys_where (λ k. starts_with k u) c.cache key e in
      ground (arith, named, swept, collected)

  -- A sweep keeps what it finds or drops it.
  get-cleanup :
      (now : ℕ) (c : PermissionScopeCache A) (key : String) (e : CacheEntry A)
      → HasUniqueKeys c.cache
      → get (cleanup now c).cache key ≡ some e
      → get c.cache key ≡ some e
  unfolding cleanup
  get-cleanup now c key e h found = elim (Option-cases (get c.cache key)) [
    | inl absent ↦
        ground (arith, get-delete_where-none (λ k entry. is_expired now entry) c.cache key absent)
    | inr (e', present) ↦
        ground (arith, get-delete_where (λ k entry. is_expired now entry) c.cache key e' h present)
  ]

  -- The cache holds nothing that the specification does not hold.
  pub run-IsWithin :
      (ops : List (Operation A)) (key : String) (e : CacheEntry A)
      → get (run ops).cache key ≡ some e
      → latest ops key ≡ some e
  unfolding get get_scopes clear
  run-IsWithin [] key e h = cc
  run-IsWithin (looked_up u co now ∷ past) key e h =
      run-IsWithin past key e
        (ground (arith, get-delete (run past).cache (build_key u co) key (run-HasUniqueKeys past)))
  run-IsWithin (stored u co scopes now ∷ past) key e h = ground (
    arith,
    get-set_scopes u co scopes now (run past) key e (run-HasUniqueKeys past) h,
    run-IsWithin past key e,
  )
  run-IsWithin (invalidated u co ∷ past) key e h =
      let (kept, other) = get-invalidate u co (run past) key e (run-HasUniqueKeys past) h in
      ground (arith, run-IsWithin past key e kept, other)
  run-IsWithin (cleared ∷ past) key e h = cc
  run-IsWithin (cleaned now ∷ past) key e h =
      run-IsWithin past key e (get-cleanup now (run past) key e (run-HasUniqueKeys past) h)
