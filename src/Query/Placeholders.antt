-- ===== src/Query/Placeholders.antt =====
-- Clauses of one column and the placeholders that they hold, for the compiler of
-- src/database/database.service.ts.
use fieldserviceit_backend.Base.{
  ℕ, String, ◌≡◌, refl, sym, Bool, true, false, Option, none, some, List, [], ◌∷◌, ◌++◌, append-nil,
  arith, leb, if◌then◌else◌, length, take, drop, Result, ok, throw, ◌>>=◌,
}
use fieldserviceit_backend.Query.{
  Filter, null, object, array, Where, no_item, item, Comparison, Clause, is_null, is_not_null,
  compare, in_list, never, any_of, exists, Clauses, no_clause, clause, one, append,
  escape_sql_identifier, normalize_column, item_list, member, not_clause, plain_or_in,
  escape_clause, operator_clause, column_clause, scalar_entry, equal, like, at_least, at_most,
  different, is_undefined,
}
use fieldserviceit_backend.Query.Conditions.{
  Cond, null_at, not_null_at, test, among, nothing, either, related, Conds, no_cond, cond,
  join_conds, one_cond, different_cond, plain_cond, escape_cond, operator_cond, column_cond,
  scalar_cond,
}

infixl 5 ◌>>?◌
abbrev pub ◌>>?◌ {ℓ κ} : {A : Type ℓ} {B : Type κ} → Option A → (A → Option B) → Option B
none >>? f = none
some a >>? f = f a

-- What a prepared statement does with its placeholders: the next value goes to the next one.
unfoldable mutual
  pub bind : Clause → List Filter → Option (Cond × List Filter)
  bind (is_null c) vs = some (null_at c, vs)
  bind (is_not_null c) vs = some (not_null_at c, vs)
  bind (compare op c) [] = none
  bind (compare op c) (v ∷ vs) = some (test op c v, vs)
  bind (in_list c n) vs = if leb n (length vs) then some (among c (take n vs), drop n vs) else none
  bind never vs = some (nothing, vs)
  bind (any_of cs) vs = bind_all cs vs >>? λ r. some (either r.0, r.1)
  bind (exists k cs) vs = bind_all cs vs >>? λ r. some (related k r.0, r.1)

  pub bind_all : Clauses → List Filter → Option (Conds × List Filter)
  bind_all no_clause vs = some (no_cond, vs)
  bind_all (clause c cs) vs = bind c vs >>? λ d. bind_all cs d.1 >>? λ r. some (cond d.0 r.0, r.1)

pub >>?-eq-some {ℓ κ} :
    {A : Type ℓ} {B : Type κ} (m : Option A) (f : A → Option B) {b : B}
    → (m >>? f) ≡ some b
    → (a : A) × (m ≡ some a) × (f a ≡ some b)
>>?-eq-some none f h = cc
>>?-eq-some (some a) f h = (a, refl, h)

pub bind_all-append :
    (cs ds : Clauses) (vs : List Filter) (a b : Conds) (r q : List Filter)
    → bind_all cs vs ≡ some (a, r)
    → bind_all ds r ≡ some (b, q)
    → bind_all (append cs ds) vs ≡ some (join_conds a b, q)
unfolding bind_all append join_conds
bind_all-append no_clause ds vs a b r q h k = ground (arith, h, k)
bind_all-append (clause c cs) ds vs a b r q h k =
    let (d, bound, rest) = >>?-eq-some (bind c vs) _ h in
    let (t, bound', last) = >>?-eq-some (bind_all cs d.1) _ rest in
    rw (bound, ◌>>?◌)
      (rw (bind_all-append cs ds d.1 t.0 b t.1 q bound' (ground arith), ◌>>?◌) (ground arith))

-- A compiled result is bound to the conditions: both throw the same error, or the new values fill
-- the placeholders whatever values come after them.
abbrev pub Bound : List Filter → Result (Clauses × List Filter) → Result Conds → Type 0
Bound vs (ok r) (ok ds) =
    (us : List Filter) × (r.1 ≡ vs ++ us)
    × ((rest : List Filter) → bind_all r.0 (us ++ rest) ≡ some (ds, rest))
Bound vs (throw e) (throw e') = e ≡ e'
Bound vs _ _ = ⊥

-- A clause of one column, with the values that it takes.
pub data Leaf : Clause → List Filter → Cond → Type 0 where
  null_leaf : (c : String) → Leaf (is_null c) [] (null_at c)
  not_null_leaf : (c : String) → Leaf (is_not_null c) [] (not_null_at c)
  test_leaf :
      (op : Comparison) (c : String) (v : Filter) → Leaf (compare op c) (v ∷ []) (test op c v)
  among_leaf :
      (c : String) (n : ℕ) (xs : List Filter) → n ≡ length xs → Leaf (in_list c n) xs (among c xs)
  never_leaf : Leaf never [] nothing

take-append {ℓ} : {A : Type ℓ} (xs ys : List A) → take (length xs) (xs ++ ys) ≡ xs
take-append [] ys = refl
take-append (x ∷ xs) ys = rw (take-append xs ys)

drop-append {ℓ} : {A : Type ℓ} (xs ys : List A) → drop (length xs) (xs ++ ys) ≡ ys
drop-append [] ys = refl
drop-append (x ∷ xs) ys = drop-append xs ys

leb-append {ℓ} : {A : Type ℓ} (xs ys : List A) → leb (length xs) (length (xs ++ ys)) ≡ true
leb-append [] ys = ground arith
leb-append (x ∷ xs) ys = ground (arith, leb-append xs ys)

bind_in_list :
    (c : String) (n : ℕ) (xs rest : List Filter)
    → n ≡ length xs
    → bind_all (one (in_list c n)) (xs ++ rest) ≡ some (one_cond (among c xs), rest)
unfolding bind_all
bind_in_list c n xs rest h = rw (h, leb-append xs rest, take-append xs rest, drop-append xs rest)

-- Escaping a column throws on both sides, or on neither.
escaped-Bound :
    (r : Result String) (mk : String → Clause) (mk' : String → Cond) (vs us : List Filter)
    → ((x : String) (rest : List Filter)
        → bind_all (one (mk x)) (us ++ rest) ≡ some (one_cond (mk' x), rest))
    → Bound vs
        (r >>= (λ x. ok (mk x)) >>= λ c. ok (one c, vs ++ us))
        (r >>= (λ x. ok (mk' x)) >>= λ d. ok (one_cond d))
escaped-Bound (ok x) mk mk' vs us h = (us, refl, h x)
escaped-Bound (throw e) mk mk' vs us h = refl

escape-Bound :
    {c : Clause} {us : List Filter} {d : Cond} (vs : List Filter)
    → Leaf c us d
    → Bound vs
        (escape_clause c >>= λ c'. ok (one c', vs ++ us))
        (escape_cond d >>= λ d'. ok (one_cond d'))
unfolding escape_clause escape_cond bind_all
escape-Bound vs (null_leaf c) =
    escaped-Bound (escape_sql_identifier c) is_null null_at vs [] (λ x rest. refl)
escape-Bound vs (not_null_leaf c) =
    escaped-Bound (escape_sql_identifier c) is_not_null not_null_at vs [] (λ x rest. refl)
escape-Bound vs (test_leaf op c v) =
    escaped-Bound (escape_sql_identifier c) (compare op) (λ x. test op x v) vs (v ∷ [])
      (λ x rest. refl)
escape-Bound vs (among_leaf c n xs e) =
    escaped-Bound (escape_sql_identifier c) (λ x. in_list x n) (λ x. among x xs) vs xs
      (λ x rest. bind_in_list x n xs rest e)
escape-Bound vs never_leaf = ([], refl, λ rest. refl)

-- What one column compiles to, beside the condition that it stands for.
pub data Fits (vs : List Filter) : Clause × List Filter → Cond → Type 0 where
  fits :
      {c : Clause} {ws : List Filter} {d : Cond} (us : List Filter)
      → ws ≡ vs ++ us
      → Leaf c us d
      → Fits vs (c, ws) d

different-Fits :
    (column : String) (v : Filter) (vs : List Filter)
    → Fits vs (not_clause column v vs) (different_cond column v)
different-Fits column null vs = fits [] (sym (append-nil vs)) (not_null_leaf column)
different-Fits column v vs = (fits _ refl (test_leaf different column _))

plain-Fits :
    (column : String) (w v : Filter) (vs : List Filter)
    → Fits vs (plain_or_in column w v vs) (plain_cond column w v)
plain-Fits column w (array no_item) vs = fits [] (sym (append-nil vs)) never_leaf
plain-Fits column w (array (item x xs)) vs =
    fits (item_list (item x xs)) refl (among_leaf column _ _ refl)
plain-Fits column w v vs = fits (w ∷ []) refl (test_leaf equal column w)

Fits-if :
    {vs : List Filter} {x y : Clause × List Filter} {d e : Cond} (b : Bool)
    → Fits vs x d
    → Fits vs y e
    → Fits vs (if b then x else y) (if b then d else e)
Fits-if true p q = p
Fits-if false p q = q

pub none-Bound : (vs : List Filter) → Bound vs (ok (no_clause, vs)) (ok no_cond)
unfolding bind_all
none-Bound vs = ([], sym (append-nil vs), λ rest. refl)

module _ (to_text : Filter → String) where
  operator-Fits :
      (column : String) (w : Where) (vs : List Filter)
      → Fits vs (operator_clause to_text column w vs) (operator_cond to_text column w)
  unfolding operator_clause operator_cond
  operator-Fits column w vs =
      Fits-if (is_undefined (member w "contains"))
        (Fits-if (is_undefined (member w "gte"))
          (Fits-if (is_undefined (member w "lte"))
            (Fits-if (is_undefined (member w "not"))
              (plain-Fits column (object w) (member w "in") vs)
              (different-Fits column (member w "not") vs))
            (fits _ refl (test_leaf at_most column _)))
          (fits _ refl (test_leaf at_least column _)))
        (fits _ refl (test_leaf like column _))

  column-Fits :
      (column : String) (v : Filter) (vs : List Filter)
      → Fits vs (column_clause to_text column v vs) (column_cond to_text column v)
  unfolding column_clause column_cond
  column-Fits column null vs = fits [] (sym (append-nil vs)) (null_leaf column)
  column-Fits column (object w) vs = operator-Fits column w vs
  column-Fits column v vs = (fits _ refl (test_leaf equal column _))

  pub scalar-Bound :
      (table key : String) (v : Filter) (vs : List Filter)
      → Bound vs (scalar_entry to_text table key v vs) (scalar_cond to_text table key v)
  unfolding scalar_entry scalar_cond
  scalar-Bound table key v vs =
      go (column_clause to_text (normalize_column table key) v vs)
        (column-Fits (normalize_column table key) v vs)
    where
      go :
          (r : Clause × List Filter)
          → Fits vs r (column_cond to_text (normalize_column table key) v)
          → Bound vs (escape_clause r.0 >>= λ c. ok (one c, r.1)) (scalar_cond to_text table key v)
      go (c, ws) (fits us e leaf) = rw e (escape-Bound vs leaf)
