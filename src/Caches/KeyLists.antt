-- ===== src/Caches/KeyLists.antt =====
-- Deletions of several keys at once, and of the oldest one, in a JavaScript map.
use fieldserviceit_backend.Base.{
  suc, ◌≤◌, String, ◌≡◌, refl, Bool, true, none, some, List, [], ◌∷◌, arith, ◌==◌, eq_iff,
  if◌then◌else◌, length, includes, Bool-cases, inl, inr, subst, sym,
}
use fieldserviceit_backend.Base.Map.{
  Map, get, delete, HasUniqueKeys, get-delete, delete-HasUniqueKeys, length-delete,
  length-delete_of_has, has-first_key,
}
use fieldserviceit_backend.Caches.Permissions.{delete_keys, keys_where, delete_oldest}

module _ {ℓ} {V : Type ℓ} where
  pub delete_keys-HasUniqueKeys :
      (ks : List String) (m : Map V) → HasUniqueKeys m → HasUniqueKeys (delete_keys ks m)
  unfolding delete_keys
  delete_keys-HasUniqueKeys [] m u = u
  delete_keys-HasUniqueKeys (k ∷ ks) m u =
      delete_keys-HasUniqueKeys ks (delete m k) (delete-HasUniqueKeys m k u)

  pub length-delete_keys : (ks : List String) (m : Map V) → length (delete_keys ks m) ≤ length m
  unfolding delete_keys
  length-delete_keys [] m = omega arith
  length-delete_keys (k ∷ ks) m =
      omega (arith, length-delete_keys ks (delete m k), length-delete m k)

  pub get-delete_keys :
      (ks : List String) (m : Map V) (j : String)
      → HasUniqueKeys m
      → get (delete_keys ks m) j ≡ (if includes ks j then none else get m j)
  unfolding delete_keys
  get-delete_keys [] m j u = refl
  get-delete_keys (k ∷ ks) m j u =
      ground
        (arith, get-delete_keys ks (delete m k) j (delete-HasUniqueKeys m k u), get-delete m k j u)

  keys_where_sound :
      (p : String → Bool) (m : Map V) (j : String) → includes (keys_where p m) j ≡ true → p j ≡ true
  unfolding keys_where
  keys_where_sound p [] j h = cc
  keys_where_sound p ((k, w) ∷ m) j h = elim (Bool-cases (k == j)) [
    | inl e ↦
        subst (λ i. p i ≡ true) ((eq_iff k j).0 e)
          (ground (arith, keys_where_sound p m k, eq_iff k j))
    | inr e ↦ ground (arith, keys_where_sound p m j, e)
  ]

  pub includes-keys_where :
      (p : String → Bool) (m : Map V) (j : String) (v : V)
      → get m j ≡ some v
      → includes (keys_where p m) j ≡ p j
  unfolding get keys_where
  includes-keys_where p [] j v h = cc
  includes-keys_where p ((k, w) ∷ m) j v h = elim (Bool-cases (k == j)) [
    | inl e ↦ elim (Bool-cases (p j)) [
      | inl t ↦
          let at_k = subst (λ i. p i ≡ true) (sym ((eq_iff k j).0 e)) t in
          ground (arith, at_k, e, t)
      | inr t ↦ ground (arith, keys_where_sound p ((k, w) ∷ m) j, t)
    ]
    | inr e ↦ ground (arith, includes-keys_where p m j v, e)
  ]

  pub length-delete_oldest : (m : Map V) → 1 ≤ length m → suc (length (delete_oldest m)) ≡ length m
  unfolding delete_oldest
  length-delete_oldest [] h = absurd (omega arith)
  length-delete_oldest ((k, v) ∷ m) h =
      length-delete_of_has ((k, v) ∷ m) k (has-first_key ((k, v) ∷ m) k refl)

  pub delete_oldest-HasUniqueKeys : (m : Map V) → HasUniqueKeys m → HasUniqueKeys (delete_oldest m)
  unfolding delete_oldest
  delete_oldest-HasUniqueKeys [] u = u
  delete_oldest-HasUniqueKeys ((k, v) ∷ m) u = delete-HasUniqueKeys ((k, v) ∷ m) k u

  -- Dropping the oldest entry adds none.
  pub get-delete_oldest :
      (m : Map V) (j : String) (v : V)
      → HasUniqueKeys m
      → get (delete_oldest m) j ≡ some v
      → get m j ≡ some v
  unfolding delete_oldest
  get-delete_oldest [] j v u h = h
  get-delete_oldest ((k, w) ∷ m) j v u h = ground (arith, get-delete ((k, w) ∷ m) k j u)
