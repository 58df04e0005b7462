-- ===== src/Base/Map.antt =====
-- JavaScript's `Map` with text keys: entries in the order of first insertion.
use Prim.Native.Nat.{suc, ◌≤◌}
use Prim.Native.String.{String}
use mathlib.Core.Path.{◌≡◌, refl, subst}
use mathlib.Core.Logic.{◌≢◌, inl, inr}
use mathlib.Core.Bool.{Bool, true, false}
use mathlib.Core.Option.{Option, none, some}
use mathlib.Core.List.{List, [], ◌∷◌}
use native.Mathlib.Omega.{arith}
use text.Mathlib.Text.{◌==◌}
use text.Mathlib.TextEquality.{eq_iff}
use fieldserviceit_backend.Base.Tests.{if◌then◌else◌, Bool-cases}
use fieldserviceit_backend.Base.Lists.{length, All}

abbrev pub Map {ℓ} : Type ℓ → Type ℓ
Map V = List (String × V)

module _ {ℓ} {V : Type ℓ} where
  unfoldable pub get : Map V → String → Option V
  get [] k = none
  get ((j, v) ∷ m) k = if j == k then some v else get m k

  unfoldable pub has : Map V → String → Bool
  has [] k = false
  has ((j, v) ∷ m) k = if j == k then true else has m k

  -- A known key keeps its place; a new one goes to the end.
  unfoldable pub set : Map V → String → V → Map V
  set [] k v = (k, v) ∷ []
  set ((j, w) ∷ m) k v = if j == k then (j, v) ∷ m else (j, w) ∷ set m k v

  unfoldable pub delete : Map V → String → Map V
  delete [] k = []
  delete ((j, w) ∷ m) k = if j == k then m else (j, w) ∷ delete m k

  -- `map.keys().next().value`.
  abbrev pub first_key : Map V → Option String
  first_key [] = none
  first_key ((k, v) ∷ m) = some k

  -- A `forEach` that deletes the entries which pass the test.
  unfoldable pub delete_where : (String → V → Bool) → Map V → Map V
  delete_where p [] = []
  delete_where p ((k, v) ∷ m) = if p k v then delete_where p m else (k, v) ∷ delete_where p m

  abbrev pub IsAbsent : String → Map V → Type 0
  IsAbsent k m = All (λ e. e.0 ≢ k) m

  -- No key occurs twice, as in every JavaScript map.
  abbrev pub HasUniqueKeys : Map V → Type 0
  HasUniqueKeys [] = Unit
  HasUniqueKeys ((k, v) ∷ m) = IsAbsent k m × HasUniqueKeys m

  pub get-set :
      (m : Map V) (k j : String) (v : V) → get (set m k v) j ≡ (if k == j then some v else get m j)
  unfolding get set
  get-set [] k j v = refl
  get-set ((i, w) ∷ m) k j v = ground (arith, get-set m k j v, eq_iff i k, eq_iff i j, eq_iff k j)

  pub has-set :
      (m : Map V) (k j : String) (v : V) → has (set m k v) j ≡ (if k == j then true else has m j)
  unfolding has set
  has-set [] k j v = refl
  has-set ((i, w) ∷ m) k j v = ground (arith, has-set m k j v, eq_iff i k, eq_iff i j, eq_iff k j)

  pub length-set :
      (m : Map V) (k : String) (v : V)
      → length (set m k v) ≡ (if has m k then length m else suc (length m))
  unfolding has set
  length-set [] k v = refl
  length-set ((i, w) ∷ m) k v = ground (arith, length-set m k v)

  pub get_of_IsAbsent : (m : Map V) (k : String) → IsAbsent k m → get m k ≡ none
  unfolding get
  get_of_IsAbsent [] k h = refl
  get_of_IsAbsent ((i, w) ∷ m) k h = ground (arith, get_of_IsAbsent m k h.1, eq_iff i k)

  pub get-delete :
      (m : Map V) (k j : String)
      → HasUniqueKeys m
      → get (delete m k) j ≡ (if k == j then none else get m j)
  unfolding get delete
  get-delete [] k j h = ground arith
  get-delete ((i, w) ∷ m) k j (a, h) =
      ground (arith, get-delete m k j h, get_of_IsAbsent m i a, eq_iff i k, eq_iff i j, eq_iff k j)

  IsAbsent-set : (m : Map V) (i k : String) (v : V) → i ≢ k → IsAbsent i m → IsAbsent i (set m k v)
  unfolding set
  IsAbsent-set [] i k v n h = (λ e. n (cc), tt)
  IsAbsent-set ((j, w) ∷ m) i k v n h = ground (arith, IsAbsent-set m i k v n h.1)

  IsAbsent-delete : (m : Map V) (i k : String) → IsAbsent i m → IsAbsent i (delete m k)
  unfolding delete
  IsAbsent-delete [] i k h = tt
  IsAbsent-delete ((j, w) ∷ m) i k h = ground (arith, IsAbsent-delete m i k h.1)

  IsAbsent-delete_where :
      (p : String → V → Bool) (m : Map V) (i : String)
      → IsAbsent i m
      → IsAbsent i (delete_where p m)
  unfolding delete_where
  IsAbsent-delete_where p [] i h = tt
  IsAbsent-delete_where p ((j, w) ∷ m) i h = ground (arith, IsAbsent-delete_where p m i h.1)

  pub set-HasUniqueKeys :
      (m : Map V) (k : String) (v : V) → HasUniqueKeys m → HasUniqueKeys (set m k v)
  unfolding set
  set-HasUniqueKeys [] k v h = (tt, tt)
  set-HasUniqueKeys ((j, w) ∷ m) k v (a, h) =
      ground (arith, set-HasUniqueKeys m k v h, IsAbsent-set m j k v, eq_iff j k)

  pub delete-HasUniqueKeys : (m : Map V) (k : String) → HasUniqueKeys m → HasUniqueKeys (delete m k)
  unfolding delete
  delete-HasUniqueKeys [] k h = tt
  delete-HasUniqueKeys ((j, w) ∷ m) k (a, h) =
      ground (arith, delete-HasUniqueKeys m k h, IsAbsent-delete m j k a)

  pub delete_where-HasUniqueKeys :
      (p : String → V → Bool) (m : Map V) → HasUniqueKeys m → HasUniqueKeys (delete_where p m)
  unfolding delete_where
  delete_where-HasUniqueKeys p [] h = tt
  delete_where-HasUniqueKeys p ((j, w) ∷ m) (a, h) =
      ground (arith, delete_where-HasUniqueKeys p m h, IsAbsent-delete_where p m j a)

  pub length-delete : (m : Map V) (k : String) → length (delete m k) ≤ length m
  unfolding delete
  length-delete [] k = omega arith
  length-delete ((j, w) ∷ m) k = ground (arith, length-delete m k)

  -- A present key frees exactly one place.
  pub length-delete_of_has :
      (m : Map V) (k : String) → has m k ≡ true → suc (length (delete m k)) ≡ length m
  unfolding delete has
  length-delete_of_has [] k h = cc
  length-delete_of_has ((j, w) ∷ m) k h = ground (arith, length-delete_of_has m k)

  -- The first key of a map is in it.
  pub has-first_key : (m : Map V) (k : String) → first_key m ≡ some k → has m k ≡ true
  unfolding has
  has-first_key [] k h = cc
  has-first_key ((j, w) ∷ m) k h = ground (arith, eq_iff j k)

  -- What a sweep leaves is what it found and did not delete.
  pub get-delete_where :
      (p : String → V → Bool) (m : Map V) (k : String) (v : V)
      → HasUniqueKeys m
      → get m k ≡ some v
      → get (delete_where p m) k ≡ (if p k v then none else some v)
  unfolding get delete_where
  get-delete_where p [] k v u h = cc
  get-delete_where p ((j, w) ∷ m) k v (a, u) h = ground (
    arith,
    get-delete_where p m k v u,
    eq_iff j k,
    get_of_IsAbsent (delete_where p m) j (IsAbsent-delete_where p m j a),
  )

  pub get-delete_where-none :
      (p : String → V → Bool) (m : Map V) (k : String)
      → get m k ≡ none
      → get (delete_where p m) k ≡ none
  unfolding get delete_where
  get-delete_where-none p [] k h = refl
  get-delete_where-none p ((j, w) ∷ m) k h = ground (arith, get-delete_where-none p m k)

  pub length-delete_where :
      (p : String → V → Bool) (m : Map V) → length (delete_where p m) ≤ length m
  unfolding delete_where
  length-delete_where p [] = omega arith
  length-delete_where p ((k, v) ∷ m) = ground (arith, length-delete_where p m)

  pub get-delete-other :
      (m : Map V) (k j : String) → (k == j) ≡ false → get (delete m k) j ≡ get m j
  unfolding get delete
  get-delete-other [] k j h = refl
  get-delete-other ((i, w) ∷ m) k j h =
      ground (arith, get-delete-other m k j h, eq_iff i k, eq_iff i j, eq_iff k j)

  -- Every value passes a test.
  abbrev pub Every : (V → Bool) → Map V → Type ℓ
  Every test m = (k : String) (v : V) → get m k ≡ some v → test v ≡ true

  pub Every-set :
      (test : V → Bool) (m : Map V) (k : String) (v : V)
      → test v ≡ true
      → Every test m
      → Every test (set m k v)
  Every-set test m k v fine all j w h =
      let stored = get-set m k j v in
      elim (Bool-cases (k == j)) [
        | inl e ↦
            let same : v ≡ w = ground (arith, stored, e, h) in subst (λ x. test x ≡ true) same fine
        | inr e ↦ all j w (ground (arith, stored, e, h))
      ]
