-- ===== src/Caches/Bounds.antt =====
-- How large the permission scope cache gets, and what its counters count.
use fieldserviceit_backend.Base.{
  ℕ, suc, ◌+◌, ◌≤◌, String, ◌≡◌, refl, List, [], ◌∷◌, arith, length, or_else, leb→le, le→leb,
  Option-cases, inl, inr,
}
use fieldserviceit_backend.Base.Map.{get, length-set, length-delete, length-delete_where}
use fieldserviceit_backend.Caches.KeyLists.{length-delete_keys, length-delete_oldest}
use text.Mathlib.Text.{starts_with}
use fieldserviceit_backend.Caches.Permissions.{
  CacheEntry, PermissionScopeCache, max_entries, build_key, keys_where, delete_oldest, is_expired,
  get_scopes, set_scopes, invalidate, clear, cleanup,
}
use fieldserviceit_backend.Caches.Refinement.{
  Operation, looked_up, stored, invalidated, cleared, cleaned, apply, run,
}

module _ {ℓ} {A : Type ℓ} where
  -- The number of lookups in a history.
  abbrev pub lookups : List (Operation A) → ℕ
  lookups [] = 0
  lookups (looked_up u co now ∷ past) = suc (lookups past)
  lookups (stored u co scopes now ∷ past) = lookups past
  lookups (invalidated u co ∷ past) = lookups past
  lookups (cleared ∷ past) = lookups past
  lookups (cleaned now ∷ past) = lookups past

  set_scopes_bounded :
      (u co : String) (scopes : List A) (now : ℕ) (c : PermissionScopeCache A)
      → length c.cache ≤ max_entries
      → length (set_scopes u co scopes now c).cache ≤ max_entries
  unfolding set_scopes
  set_scopes_bounded u co scopes now c h =
      let entry : CacheEntry A = record { scopes = scopes; timestamp = now } in
      let key = build_key u co in
      ground (
        arith,
        length-set c.cache key entry,
        length-set (delete_oldest c.cache) key entry,
        length-delete_oldest c.cache,
        le→leb max_entries (length c.cache),
        leb→le max_entries (length c.cache),
      )

  apply_bounded :
      (op : Operation A) (c : PermissionScopeCache A)
      → length c.cache ≤ max_entries
      → length (apply op c).cache ≤ max_entries
  unfolding get_scopes invalidate clear cleanup
  apply_bounded (looked_up u co now) c h = ground (arith, length-delete c.cache (build_key u co))
  apply_bounded (stored u co scopes now) c h = set_scopes_bounded u co scopes now c h
  apply_bounded (invalidated u co) c h = ground (
    arith,
    length-delete c.cache (build_key u (or_else co "")),
    length-delete_keys (keys_where (λ key. starts_with key u) c.cache) c.cache,
  )
  apply_bounded cleared c h = omega arith
  apply_bounded (cleaned now) c h =
      omega (arith, length-delete_where (λ key entry. is_expired now entry) c.cache)

  apply_counts :
      (op : Operation A) (past : List (Operation A)) (c : PermissionScopeCache A)
      → c.hits + c.misses ≡ lookups past
      → (apply op c).hits + (apply op c).misses ≡ lookups (op ∷ past)
  unfolding get_scopes set_scopes invalidate clear cleanup
  apply_counts (looked_up u co now) past c h = elim (Option-cases (get c.cache (build_key u co))) [
    | inl e ↦ ground (arith, e)
    | inr (entry, e) ↦ ground (arith, e)
  ]
  apply_counts (stored u co scopes now) past c h = h
  apply_counts (invalidated u co) past c h = h
  apply_counts cleared past c h = h
  apply_counts (cleaned now) past c h = h

  -- After any history the cache holds at most 10000 entries, and the hits and misses together
  -- count the lookups.
  pub run_bounded :
      (ops : List (Operation A))
      → (length (run ops).cache ≤ 10000) × ((run ops).hits + (run ops).misses ≡ lookups ops)
  run_bounded [] = (omega arith, refl)
  run_bounded (op ∷ past) =
      let (small, counted) = run_bounded past in
      (apply_bounded op (run past) small, apply_counts op past (run past) counted)
