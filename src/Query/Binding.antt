-- ===== src/Query/Binding.antt =====
-- The compiled clauses and the array of values fit together: the placeholders, read from left to
-- right, take the values in order and use them up (src/database/database.service.ts).
use fieldserviceit_backend.Base.{
  ℕ, ◌+◌, String, ◌≡◌, refl, ap, ◌∙◌, Option, none, some, List, [], ◌++◌, append-nil, append_assoc,
  arith, ◌==◌, Result, ok, throw, ◌>>=◌, Bool-cases, inl, inr,
}
use fieldserviceit_backend.Query.{
  Filter, null, undefined, text, number, boolean, object, array, Where, end, entry, Items, no_item,
  item, Relation, Clauses, no_clause, clause, append, relation, target, related_entry, any_entry,
  then_compile, build_where_clauses, build_entries, build_items, build_conditions, build_entry,
}
use fieldserviceit_backend.Query.Conditions.{
  Conds, no_cond, cond, join_conds, join_results, either_result, related_result, conditions_of,
  conditions_of_entries, conditions_of_items, conditions_of_list, conditions_of_entry,
}
use fieldserviceit_backend.Query.Placeholders.{
  >>?-eq-some, bind, bind_all, bind_all-append, Bound, none-Bound, scalar-Bound,
}

Bound-then :
    (vs : List Filter) (first : Result (Clauses × List Filter)) (d : Result Conds)
    (rest : List Filter → Result (Clauses × List Filter)) (e : Result Conds)
    → Bound vs first d
    → ((ws : List Filter) → Bound ws (rest ws) e)
    → Bound vs (then_compile first rest) (join_results d e)
unfolding then_compile join_results
Bound-then vs (throw x) (throw y) rest e h k = h
Bound-then vs (throw x) (ok d) rest e h k = elim h [ ]
Bound-then vs (ok r) (throw y) rest e h k = elim h [ ]
Bound-then vs (ok (c, ws)) (ok d) rest e (us, p, h) k = go (rest ws) e (k ws)
  where
    go :
        (r : Result (Clauses × List Filter)) (e' : Result Conds)
        → Bound ws r e'
        → Bound vs (r >>= λ t. ok (append c t.0, t.1)) (e' >>= λ t. ok (join_conds d t))
    go (throw x) (throw y) b = b
    go (throw x) (ok y) b = elim b [ ]
    go (ok x) (throw y) b = elim b [ ]
    go (ok (c', zs)) (ok d') (us', p', h') = (
      us ++ us',
      p' ∙ (ap (λ l. l ++ us') p ∙ append_assoc vs us us'),
      λ more. rw append_assoc (
          bind_all-append c c' (us ++ (us' ++ more)) d d' (us' ++ more) more (h (us' ++ more))
            (h' more)),
    )

module _ (to_text : Filter → String) where
  related-Bound :
      (vs : List Filter) (o : Option Relation) (f : Relation → Result (Clauses × List Filter))
      (g : Relation → Result Conds) (s : Result (Clauses × List Filter)) (t : Result Conds)
      → ((k : Relation) → Bound [] (f k) (g k))
      → Bound vs s t
      → Bound vs
          (elim o [ some k ↦ related_entry k vs (f k) | none ↦ s ])
          (elim o [ some k ↦ related_result k (g k) | none ↦ t ])
  unfolding related_entry related_result bind_all
  related-Bound vs none f g s t h b = b
  related-Bound vs (some k) f g s t h b = go (f k) (g k) (h k)
    where
      go :
          (r : Result (Clauses × List Filter)) (e : Result Conds)
          → Bound [] r e
          → Bound vs (related_entry k vs r) (related_result k e)
      go (throw x) (throw y) q = q
      go (throw x) (ok y) q = elim q [ ]
      go (ok x) (throw y) q = elim q [ ]
      go (ok (c, ws)) (ok d) (us, p, q) = (us, ap (λ l. vs ++ l) p, λ rest. rw (q rest))

  any-Bound :
      (vs : List Filter) (r : Result (Clauses × List Filter)) (e : Result Conds)
      → Bound vs r e
      → Bound vs (any_entry r) (either_result e)
  unfolding any_entry either_result bind_all
  any-Bound vs (throw x) (throw y) q = q
  any-Bound vs (throw x) (ok y) q = elim q [ ]
  any-Bound vs (ok x) (throw y) q = elim q [ ]
  any-Bound vs (ok (no_clause, ws)) (ok no_cond) q = q
  any-Bound vs (ok (no_clause, ws)) (ok (cond d ds)) (us, p, q) = absurd (ground (arith, q []))
  any-Bound vs (ok (clause c cs, ws)) (ok no_cond) (us, p, q) =
      let (d, _, later) = >>?-eq-some (bind c (us ++ [])) _ (q []) in
      let (t, _, same) = >>?-eq-some (bind_all cs d.1) _ later in absurd (cc)
  any-Bound vs (ok (clause c cs, ws)) (ok (cond d ds)) (us, p, q) = (us, p, λ rest. rw (q rest))

  mutual
    unfolding build_where_clauses conditions_of

    where-Bound :
        (table : String) (f : Filter) (vs : List Filter)
        → Bound vs (build_where_clauses to_text table f vs) (conditions_of to_text table f)
    where-Bound table null vs = refl
    where-Bound table undefined vs = refl
    where-Bound table (text s) vs = elim (Bool-cases (s == "")) [
      | inl e ↦ rw e (none-Bound vs)
      | inr e ↦ rw e refl
    ]
    where-Bound table (number n) vs = none-Bound vs
    where-Bound table (boolean b) vs = none-Bound vs
    where-Bound table (object w) vs = entries-Bound table w vs
    where-Bound table (array xs) vs = items-Bound table 0 xs vs

    entries-Bound :
        (table : String) (w : Where) (vs : List Filter)
        → Bound vs (build_entries to_text table w vs) (conditions_of_entries to_text table w)
    entries-Bound table end vs = none-Bound vs
    entries-Bound table (entry key v more) vs =
        Bound-then vs _ _ _ _ (entry-Bound table key v vs) (λ ws. entries-Bound table more ws)

    items-Bound :
        (table : String) (i : ℕ) (xs : Items) (vs : List Filter)
        → Bound vs (build_items to_text table i xs vs) (conditions_of_items to_text table i xs)
    items-Bound table i no_item vs = none-Bound vs
    items-Bound table i (item v more) vs =
        Bound-then vs _ _ _ _ (entry-Bound table (to_text (number i)) v vs)
          (λ ws. items-Bound table (i + 1) more ws)

    list-Bound :
        (table : String) (xs : Items) (vs : List Filter)
        → Bound vs (build_conditions to_text table xs vs) (conditions_of_list to_text table xs)
    list-Bound table no_item vs = none-Bound vs
    list-Bound table (item v more) vs =
        Bound-then vs _ _ _ _ (where-Bound table v vs) (λ ws. list-Bound table more ws)

    entry-Bound :
        (table key : String) (f : Filter) (vs : List Filter)
        → Bound vs (build_entry to_text table key f vs) (conditions_of_entry to_text table key f)
    entry-Bound table key (object w) vs =
        related-Bound vs (relation table key) _ _ _ _ (λ k. entries-Bound (target k) w [])
          (scalar-Bound to_text table key (object w) vs)
    entry-Bound table key (array xs) vs = elim (Bool-cases (key == "OR")) [
      | inl e ↦ rw e (any-Bound vs _ _ (list-Bound table xs vs))
      | inr e ↦ rw e (
          related-Bound vs (relation table key) _ _ _ _ (λ k. items-Bound (target k) 0 xs [])
            (scalar-Bound to_text table key (array xs) vs))
    ]
    entry-Bound table key null vs = scalar-Bound to_text table key null vs
    entry-Bound table key undefined vs = scalar-Bound to_text table key undefined vs
    entry-Bound table key (text s) vs = scalar-Bound to_text table key (text s) vs
    entry-Bound table key (number n) vs = scalar-Bound to_text table key (number n) vs
    entry-Bound table key (boolean b) vs = scalar-Bound to_text table key (boolean b) vs

  -- When a filter compiles, binding its values to the placeholders in order succeeds, uses up all
  -- of them, and yields the conditions of the filter with each value in its own place.
  pub build_where_clauses-binds :
      (table : String) (f : Filter) (clauses : Clauses) (values : List Filter)
      → build_where_clauses to_text table f [] ≡ ok (clauses, values)
      → (ds : Conds) × (conditions_of to_text table f ≡ ok ds)
        × (bind_all clauses values ≡ some (ds, []))
  build_where_clauses-binds table f clauses values h =
      go (build_where_clauses to_text table f []) (conditions_of to_text table f) h
        (where-Bound table f [])
    where
      go :
          (r : Result (Clauses × List Filter)) (e : Result Conds)
          → r ≡ ok (clauses, values)
          → Bound [] r e
          → (ds : Conds) × (e ≡ ok ds) × (bind_all clauses values ≡ some (ds, []))
      go (throw x) e k b = absurd (cc)
      go (ok x) (throw y) k b = elim b [ ]
      go (ok (c, ws)) (ok ds) k (us, p, q) = (ds, refl, ground (arith, q [], append-nil us))
