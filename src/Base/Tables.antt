-- ===== src/Base/Tables.antt =====
-- Tables as lists of rows: an UPDATE with its WHERE clause, a COUNT, and ORDER BY.
use Prim.Native.Nat.{ℕ, zero, suc, ◌+◌, ◌≤◌}
use mathlib.Core.Path.{◌≡◌, refl, ap}
use mathlib.Core.Bool.{Bool, true, false, not, ◌&&◌}
use mathlib.Core.List.{List, [], ◌∷◌, Memᴰ}
use mathlib.Core.Option.{none}
use native.Mathlib.Omega.{arith}
use fieldserviceit_backend.Base.Tests.{if◌then◌else◌, leb, is_none}
use fieldserviceit_backend.Base.Lists.{take, drop, select, any, find}

module _ {ℓ} {A : Type ℓ} where
  -- `UPDATE ... SET change WHERE test`.
  abbrev pub update_where : (A → Bool) → (A → A) → List A → List A
  update_where test change [] = []
  update_where test change (x ∷ xs) =
      let rest = update_where test change xs in if test x then change x ∷ rest else x ∷ rest

  -- `SELECT COUNT(*) ... WHERE test`.
  abbrev pub count_where : (A → Bool) → List A → ℕ
  count_where test [] = 0
  count_where test (x ∷ xs) = let rest = count_where test xs in if test x then suc rest else rest

  -- `ORDER BY key DESC`, rows of one key in the order in which they stand.
  abbrev pub insert_desc : (A → ℕ) → A → List A → List A
  insert_desc key x [] = x ∷ []
  insert_desc key x (y ∷ ys) =
      let rest = insert_desc key x ys in if leb (key y) (key x) then x ∷ y ∷ ys else y ∷ rest

  abbrev pub order_by_desc : (A → ℕ) → List A → List A
  order_by_desc key [] = []
  order_by_desc key (x ∷ xs) = insert_desc key x (order_by_desc key xs)

  count-insert_desc :
      (p : A → Bool) (key : A → ℕ) (x : A) (ys : List A)
      → count_where p (insert_desc key x ys) ≡ count_where p (x ∷ ys)
  count-insert_desc p key x [] = refl
  count-insert_desc p key x (y ∷ ys) = ground (arith, count-insert_desc p key x ys)

  -- Sorting keeps how many rows pass a test.
  pub count-order_by_desc :
      (p : A → Bool) (key : A → ℕ) (xs : List A)
      → count_where p (order_by_desc key xs) ≡ count_where p xs
  count-order_by_desc p key [] = refl
  count-order_by_desc p key (x ∷ xs) =
      ground (arith, count-insert_desc p key x (order_by_desc key xs), count-order_by_desc p key xs)

  pub count-take-drop :
      (p : A → Bool) (n : ℕ) (xs : List A)
      → count_where p (take n xs) + count_where p (drop n xs) ≡ count_where p xs
  count-take-drop p zero xs = omega arith
  count-take-drop p (suc n) [] = omega arith
  count-take-drop p (suc n) (x ∷ xs) = ground (arith, count-take-drop p n xs)

  pub count-take : (p : A → Bool) (n : ℕ) (xs : List A) → count_where p (take n xs) ≤ n
  count-take p zero xs = omega arith
  count-take p (suc n) [] = omega arith
  count-take p (suc n) (x ∷ xs) = ground (arith, count-take p n xs)

  pub count-drop :
      (p : A → Bool) (n : ℕ) (xs : List A) → count_where p (drop n xs) ≤ count_where p xs
  count-drop p zero xs = omega arith
  count-drop p (suc n) [] = omega arith
  count-drop p (suc n) (x ∷ xs) = ground (arith, count-drop p n xs)

  -- Counting what a selection passes on.
  pub count-select :
      (p q : A → Bool) (xs : List A)
      → count_where p (select q xs) ≡ count_where (λ x. q x && p x) xs
  count-select p q [] = refl
  count-select p q (x ∷ xs) = ground (arith, count-select p q xs)

  pub any-update_where :
      (p q : A → Bool) (f : A → A) (xs : List A)
      → ((x : A) → q x ≡ true → p (f x) ≡ false)
      → ((x : A) → p x ≡ true → q x ≡ true)
      → any p (update_where q f xs) ≡ false
  any-update_where p q f [] changed covered = refl
  any-update_where p q f (x ∷ xs) changed covered =
      ground (arith, any-update_where p q f xs changed covered, changed x, covered x)

  -- An UPDATE after which no row that it wrote passes the test.
  pub count-update_where :
      (p q : A → Bool) (f : A → A) (xs : List A)
      → ((x : A) → p (f x) ≡ false)
      → count_where p (update_where q f xs) ≡ count_where (λ x. p x && not (q x)) xs
  count-update_where p q f [] cleared = refl
  count-update_where p q f (x ∷ xs) cleared =
      ground (arith, count-update_where p q f xs cleared, cleared x)

  -- A stronger test counts fewer rows.
  pub count_mono :
      (p q : A → Bool) (xs : List A)
      → ((x : A) → Memᴰ x xs → p x ≡ true → q x ≡ true)
      → count_where p xs ≤ count_where q xs
  count_mono p q [] weaker = omega arith
  count_mono p q (x ∷ xs) weaker =
      ground (arith, count_mono p q xs (λ y m. weaker y (Memᴰ.tail m)), weaker x (Memᴰ.head refl))

  pub count_of_any : (p : A → Bool) (xs : List A) → any p xs ≡ false → count_where p xs ≡ 0
  count_of_any p [] h = refl
  count_of_any p (x ∷ xs) h = ground (arith, count_of_any p xs)

  pub any_of_count : (p : A → Bool) (xs : List A) → count_where p xs ≡ 0 → any p xs ≡ false
  any_of_count p [] h = refl
  any_of_count p (x ∷ xs) h = ground (arith, any_of_count p xs)

  pub find_of_any : (p : A → Bool) (xs : List A) → any p xs ≡ false → find p xs ≡ none
  find_of_any p [] h = refl
  find_of_any p (x ∷ xs) h = ground (arith, find_of_any p xs)

  -- What holds of no row of a weaker test.
  pub any_strict :
      (p q : A → Bool) (xs : List A)
      → ((x : A) → p x ≡ true → q x ≡ true)
      → any q xs ≡ false
      → any p xs ≡ false
  any_strict p q [] weaker h = refl
  any_strict p q (x ∷ xs) weaker h = ground (arith, any_strict p q xs weaker, weaker x)

  -- An UPDATE that leaves the tested columns.
  pub any-update_where-same :
      (p q : A → Bool) (f : A → A) (xs : List A)
      → ((x : A) → p (f x) ≡ p x)
      → any p (update_where q f xs) ≡ any p xs
  any-update_where-same p q f [] same = refl
  any-update_where-same p q f (x ∷ xs) same =
      ground (arith, any-update_where-same p q f xs same, same x)

  count-partition :
      (p q : A → Bool) (xs : List A)
      → ((x : A) → q x ≡ true → p x ≡ true)
      → count_where p xs ≡ count_where q xs + count_where (λ x. p x && not (q x)) xs
  count-partition p q [] within = refl
  count-partition p q (x ∷ xs) within = ground (arith, count-partition p q xs within, within x)

  count_pos_of_any : (p : A → Bool) (xs : List A) → any p xs ≡ true → 1 ≤ count_where p xs
  count_pos_of_any p [] h = absurd (cc)
  count_pos_of_any p (x ∷ xs) h = ground (arith, count_pos_of_any p xs)

  -- An UPDATE of the only row of a test takes the test from the table.
  pub any-update_where-only :
      (p q : A → Bool) (f : A → A) (xs : List A)
      → ((x : A) → q x ≡ true → p x ≡ true)
      → ((x : A) → p (f x) ≡ false)
      → count_where p xs ≤ 1
      → any q xs ≡ true
      → any p (update_where q f xs) ≡ false
  any-update_where-only p q f xs within cleared only hit = any_of_count p (update_where q f xs) (
      omega (
        arith,
        count-partition p q xs within,
        count_pos_of_any q xs hit,
        count-update_where p q f xs cleared,
      ))

  pub find_of_mem :
      (p : A → Bool) (x : A) (xs : List A) → Memᴰ x xs → p x ≡ true → is_none (find p xs) ≡ false
  find_of_mem p x [] m t = elim m [ ]
  find_of_mem p x (y ∷ ys) (Memᴰ.head e) t = ground (arith, ap p e, t)
  find_of_mem p x (y ∷ ys) (Memᴰ.tail m) t = ground (arith, find_of_mem p x ys m t)

  pub any_of_mem : (p : A → Bool) (x : A) (xs : List A) → Memᴰ x xs → p x ≡ true → any p xs ≡ true
  any_of_mem p x [] m t = elim m [ ]
  any_of_mem p x (y ∷ ys) (Memᴰ.head e) t = ground (arith, ap p e, t)
  any_of_mem p x (y ∷ ys) (Memᴰ.tail m) t = ground (arith, any_of_mem p x ys m t)

  count-split :
      (p q : A → Bool) (xs : List A)
      → count_where p xs ≡ count_where (λ x. p x && q x) xs + count_where (λ x. p x && not (q x)) xs
  count-split p q [] = refl
  count-split p q (x ∷ xs) = ground (arith, count-split p q xs)

  -- An UPDATE that reaches the only row of a test, and clears the test where it writes.
  pub any-update_where-reached :
      (p q : A → Bool) (f : A → A) (xs : List A)
      → ((x : A) → p (f x) ≡ false)
      → count_where p xs ≤ 1
      → any (λ x. p x && q x) xs ≡ true
      → any p (update_where q f xs) ≡ false
  any-update_where-reached p q f xs cleared only reached = any_of_count p (update_where q f xs) (
      omega (
        arith,
        count-split p q xs,
        count_pos_of_any (λ x. p x && q x) xs reached,
        count-update_where p q f xs cleared,
      ))
