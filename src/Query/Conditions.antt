-- ===== src/Query/Conditions.antt =====
-- The reference for the filter compiler of src/database/database.service.ts: the conditions of a
-- filter with each value in its place, with no placeholders and no array of values.
use Prim.Native.String
use fieldserviceit_backend.Base.{
  ℕ, ◌+◌, String, none, some, List, if◌then◌else◌, ◌==◌, Result, ok, throw, bad_request,
  server_error, ◌>>=◌,
}
use fieldserviceit_backend.Query.{
  Filter, null, undefined, text, number, boolean, object, array, Where, end, entry, Items, no_item,
  item, Comparison, Relation, escape_sql_identifier, normalize_column, relation, target, item_list,
  member, equal, like, at_least, at_most, different, is_undefined,
}

-- A condition whose values stand in it.
mutual
  pub data Cond : Type 0 where
    null_at not_null_at : String → Cond
    test : Comparison → String → Filter → Cond
    among : String → List Filter → Cond
    nothing : Cond
    either : Conds → Cond
    related : Relation → Conds → Cond

  pub data Conds : Type 0 where
    no_cond : Conds
    cond : Cond → Conds → Conds

unfoldable pub join_conds : Conds → Conds → Conds
join_conds no_cond es = es
join_conds (cond d ds) es = cond d (join_conds ds es)

-- The filter compiled with each value in its place: no placeholders and no array of values.
abbrev pub either_cond : Conds → Conds
either_cond no_cond = no_cond
either_cond (cond d ds) = cond (either (cond d ds)) no_cond

abbrev pub one_cond : Cond → Conds
one_cond d = cond d no_cond

abbrev pub different_cond : String → Filter → Cond
different_cond column null = not_null_at column
different_cond column value = test different column value

abbrev pub among_cond : String → Items → Cond
among_cond column no_item = nothing
among_cond column (item x xs) = among column (item_list (item x xs))

abbrev pub plain_cond : String → Filter → Filter → Cond
plain_cond column value (array xs) = among_cond column xs
plain_cond column value _ = test equal column value

unfoldable pub escape_cond : Cond → Result Cond
escape_cond (null_at column) = do ok (null_at (← escape_sql_identifier column))
escape_cond (not_null_at column) = do ok (not_null_at (← escape_sql_identifier column))
escape_cond (test op column v) = do ok (test op (← escape_sql_identifier column) v)
escape_cond (among column vs) = do ok (among (← escape_sql_identifier column) vs)
escape_cond nothing = ok nothing
escape_cond (either ds) = ok (either ds)
escape_cond (related k ds) = ok (related k ds)

unfoldable pub join_results : Result Conds → Result Conds → Result Conds
join_results first rest = do ok (join_conds (← first) (← rest))

unfoldable pub either_result : Result Conds → Result Conds
either_result r = do ok (either_cond (← r))

unfoldable pub related_result : Relation → Result Conds → Result Conds
related_result k r = do ok (one_cond (related k (← r)))

module _ (to_text : Filter → String) where
  unfoldable pub operator_cond : String → Where → Cond
  operator_cond column w =
      if is_undefined (member w "contains")
      then (if is_undefined (member w "gte")
          then (if is_undefined (member w "lte")
              then (if is_undefined (member w "not")
                  then plain_cond column (object w) (member w "in")
                  else different_cond column (member w "not"))
              else test at_most column (member w "lte"))
          else test at_least column (member w "gte"))
      else test like column
          (text (String.◌++◌ "%" (String.◌++◌ (to_text (member w "contains")) "%")))

  unfoldable pub column_cond : String → Filter → Cond
  unfolding operator_cond
  column_cond column null = null_at column
  column_cond column (object w) = operator_cond column w
  column_cond column value = test equal column value

  unfoldable pub scalar_cond : String → String → Filter → Result Conds
  scalar_cond table key value = do
    ok (one_cond (← escape_cond (column_cond (normalize_column table key) value)))

  unfoldable mutual
    pub conditions_of : String → Filter → Result Conds
    conditions_of table null = throw (server_error "Cannot convert undefined or null to object")
    conditions_of table undefined =
        throw (server_error "Cannot convert undefined or null to object")
    conditions_of table (text s) =
        if s == "" then ok no_cond else throw (bad_request "Invalid SQL identifier: 0")
    conditions_of table (number n) = ok no_cond
    conditions_of table (boolean b) = ok no_cond
    conditions_of table (object w) = conditions_of_entries table w
    conditions_of table (array xs) = conditions_of_items table 0 xs

    pub conditions_of_entries : String → Where → Result Conds
    conditions_of_entries table end = ok no_cond
    conditions_of_entries table (entry key value more) =
        join_results (conditions_of_entry table key value) (conditions_of_entries table more)

    pub conditions_of_items : String → ℕ → Items → Result Conds
    conditions_of_items table i no_item = ok no_cond
    conditions_of_items table i (item value more) =
        join_results (conditions_of_entry table (to_text (number i)) value)
          (conditions_of_items table (i + 1) more)

    pub conditions_of_list : String → Items → Result Conds
    conditions_of_list table no_item = ok no_cond
    conditions_of_list table (item condition more) =
        join_results (conditions_of table condition) (conditions_of_list table more)

    pub conditions_of_entry : String → String → Filter → Result Conds
    conditions_of_entry table key (object w) = elim (relation table key) [
      | some k ↦ related_result k (conditions_of_entries (target k) w)
      | none ↦ scalar_cond table key (object w)
    ]
    conditions_of_entry table key (array xs) =
        if key == "OR"
        then either_result (conditions_of_list table xs)
        else elim (relation table key) [
          | some k ↦ related_result k (conditions_of_items (target k) 0 xs)
          | none ↦ scalar_cond table key (array xs)
        ]
    conditions_of_entry table key null = scalar_cond table key null
    conditions_of_entry table key undefined = scalar_cond table key undefined
    conditions_of_entry table key (text s) = scalar_cond table key (text s)
    conditions_of_entry table key (number n) = scalar_cond table key (number n)
    conditions_of_entry table key (boolean b) = scalar_cond table key (boolean b)
