-- ===== src/Query.antt =====
-- The filter compiler of src/database/database.service.ts (buildWhereClauses, normalizeColumn,
-- escapeColumn) and src/common/security/sql-identifier.ts. A filter is a JavaScript value; a clause
-- stands for its SQL text, which `clause_text` writes out, and the compiler threads the array of
-- values that are bound to the placeholders.
pub mod Conditions
pub mod Placeholders
pub mod Binding
mod Tests
use Prim.Native.Char.{code}
use Prim.Native.String
use fieldserviceit_backend.Base.{
  ℕ, zero, suc, ◌+◌, String, Bool, true, false, ◌&&◌, ◌||◌, Option, none, some, List, [], ◌∷◌, ◌++◌,
  leb, nat_eq, if◌then◌else◌, ◌==◌, length, Result, ok, throw, Exception, bad_request, server_error,
  ◌>>=◌,
}

mutual
  -- A JavaScript value as a filter holds it.
  pub data Filter : Type 0 where
    null undefined : Filter
    text : String → Filter
    number : ℕ → Filter
    boolean : Bool → Filter
    object : Where → Filter
    array : Items → Filter

  -- The entries of an object, in order.
  pub data Where : Type 0 where
    end : Where
    entry : String → Filter → Where → Where

  pub data Items : Type 0 where
    no_item : Items
    item : Filter → Items → Items

pub data Comparison : Type 0 where
  equal like at_least at_most different : Comparison

-- The two nested filters that become an EXISTS over another table.
pub data Relation : Type 0 where
  ticket_of_timeline creator_of_ticket : Relation

-- One SQL condition with `?` at each place of a value. Columns are escaped.
mutual
  pub data Clause : Type 0 where
    is_null is_not_null : String → Clause
    compare : Comparison → String → Clause
    in_list : String → ℕ → Clause
    never : Clause
    any_of : Clauses → Clause
    exists : Relation → Clauses → Clause

  pub data Clauses : Type 0 where
    no_clause : Clauses
    clause : Clause → Clauses → Clauses

abbrev pub one : Clause → Clauses
one c = clause c no_clause

pub append : Clauses → Clauses → Clauses
append no_clause ds = ds
append (clause c cs) ds = clause c (append cs ds)

abbrev codes : String → List ℕ
codes String.[] = []
codes (String.◌∷◌ c s) = code c ∷ codes s

-- `[a-zA-Z_]` and `[a-zA-Z0-9_]`.
abbrev is_identifier_start : ℕ → Bool
is_identifier_start c = leb b'a' c && leb c b'z' || leb b'A' c && leb c b'Z' || nat_eq c b'_'

abbrev is_identifier_part : ℕ → Bool
is_identifier_part c = is_identifier_start c || leb b'0' c && leb c b'9'

abbrev pub all_parts : List ℕ → Bool
all_parts [] = true
all_parts (c ∷ cs) = is_identifier_part c && all_parts cs

-- `SQL_IDENTIFIER.test(identifier)`.
pub is_sql_identifier : String → Bool
is_sql_identifier String.[] = false
is_sql_identifier (String.◌∷◌ c s) = is_identifier_start (code c) && all_parts (codes s)

unfoldable pub escape_sql_identifier : String → Result String
unfolding is_sql_identifier
escape_sql_identifier identifier =
    if is_sql_identifier identifier
    then ok (String.◌++◌ "`" (String.◌++◌ identifier "`"))
    else throw (bad_request (String.◌++◌ "Invalid SQL identifier: " identifier))

pub normalize_column : String → String → String
normalize_column table col = if table == "Permission" && col == "group" then "grp" else col

-- `value[key]`, undefined where the key is missing.
abbrev pub member : Where → String → Filter
member end key = undefined
member (entry k value more) key = if k == key then value else member more key

abbrev pub is_undefined : Filter → Bool
is_undefined undefined = true
is_undefined _ = false

abbrev pub push : List Filter → Filter → List Filter
push values value = values ++ value ∷ []

abbrev pub item_list : Items → List Filter
item_list no_item = []
item_list (item x xs) = x ∷ item_list xs

pub relation : String → String → Option Relation
relation table key =
    if table == "TicketTimeline" && key == "ticket"
    then some ticket_of_timeline
    else if table == "Ticket" && key == "createdBy"
    then some creator_of_ticket
    else none

abbrev pub target : Relation → String
target ticket_of_timeline = "Ticket"
target creator_of_ticket = "User"

-- `OR` of the collected clauses; an empty one leaves no clause.
abbrev pub any_clause : Clauses → Clauses
any_clause no_clause = no_clause
any_clause (clause c cs) = one (any_of (clause c cs))

abbrev pub not_clause : String → Filter → List Filter → Clause × List Filter
not_clause column null values = (is_not_null column, values)
not_clause column value values = (compare different column, push values value)

abbrev pub in_clause : String → Items → List Filter → Clause × List Filter
in_clause column no_item values = (never, values)
in_clause column (item x xs) values =
    (in_list column (length (item_list (item x xs))), values ++ item_list (item x xs))

-- What follows the tests on an operator object, `value.in` last.
abbrev pub plain_or_in : String → Filter → Filter → List Filter → Clause × List Filter
plain_or_in column value (array xs) values = in_clause column xs values
plain_or_in column value _ values = (compare equal column, push values value)

-- `escapeColumn` in each clause that names its column; `1 = 0` names none.
pub escape_clause : Clause → Result Clause
escape_clause (is_null column) = do ok (is_null (← escape_sql_identifier column))
escape_clause (is_not_null column) = do ok (is_not_null (← escape_sql_identifier column))
escape_clause (compare op column) = do ok (compare op (← escape_sql_identifier column))
escape_clause (in_list column n) = do ok (in_list (← escape_sql_identifier column) n)
escape_clause never = ok never
escape_clause (any_of cs) = ok (any_of cs)
escape_clause (exists r cs) = ok (exists r cs)

-- Wraps what a nested filter compiled to; its values were collected in an array of their own.
pub related_entry :
    Relation → List Filter → Result (Clauses × List Filter) → Result (Clauses × List Filter)
related_entry r values nested = do
  (clauses, nested_values) ← nested
  ok (one (exists r clauses), values ++ nested_values)

pub any_entry : Result (Clauses × List Filter) → Result (Clauses × List Filter)
any_entry compiled = do (or_clauses, values) ← compiled; ok (any_clause or_clauses, values)

pub then_compile :
    Result (Clauses × List Filter)
    → (List Filter → Result (Clauses × List Filter))
    → Result (Clauses × List Filter)
then_compile first rest = do
  (cs, values) ← first
  (ds, values') ← rest values
  ok (append cs ds, values')

-- `String(value)` inside a template is the language's.
module _ (to_text : Filter → String) where
  -- A value that is an object: its operators, tried in the source's order.
  pub operator_clause : String → Where → List Filter → Clause × List Filter
  unfolding normalize_column
  operator_clause column w values =
      if is_undefined (member w "contains")
      then (if is_undefined (member w "gte")
          then (if is_undefined (member w "lte")
              then (if is_undefined (member w "not")
                  then plain_or_in column (object w) (member w "in") values
                  else not_clause column (member w "not") values)
              else (compare at_most column, push values (member w "lte")))
          else (compare at_least column, push values (member w "gte")))
      else (
        compare like column,
        push values (text (String.◌++◌ "%" (String.◌++◌ (to_text (member w "contains")) "%"))),
      )

  -- The clause of one column.
  pub column_clause : String → Filter → List Filter → Clause × List Filter
  unfolding operator_clause
  column_clause column null values = (is_null column, values)
  column_clause column (object w) values = operator_clause column w values
  column_clause column value values = (compare equal column, push values value)

  pub scalar_entry : String → String → Filter → List Filter → Result (Clauses × List Filter)
  unfolding column_clause escape_clause
  scalar_entry table key value values = do
    let (c, values') = column_clause (normalize_column table key) value values
    c' ← escape_clause c
    ok (one c', values')

  unfoldable mutual
    -- `buildWhereClauses(table, where, values)` on the value `where`, by way of `Object.entries`:
    -- a list has its positions for keys, a number has no entries.
    pub build_where_clauses : String → Filter → List Filter → Result (Clauses × List Filter)
    build_where_clauses table null values =
        throw (server_error "Cannot convert undefined or null to object")
    build_where_clauses table undefined values =
        throw (server_error "Cannot convert undefined or null to object")
    build_where_clauses table (text s) values =
        if s == "" then ok (no_clause, values) else throw (bad_request "Invalid SQL identifier: 0")
    build_where_clauses table (number n) values = ok (no_clause, values)
    build_where_clauses table (boolean b) values = ok (no_clause, values)
    build_where_clauses table (object w) values = build_entries table w values
    build_where_clauses table (array xs) values = build_items table 0 xs values

    pub build_entries : String → Where → List Filter → Result (Clauses × List Filter)
    build_entries table end values = ok (no_clause, values)
    build_entries table (entry key value more) values =
        then_compile (build_entry table key value values)
          (λ values'. build_entries table more values')

    pub build_items : String → ℕ → Items → List Filter → Result (Clauses × List Filter)
    build_items table i no_item values = ok (no_clause, values)
    build_items table i (item value more) values =
        then_compile (build_entry table (to_text (number i)) value values)
          (λ values'. build_items table (i + 1) more values')

    -- The conditions of an `OR` list.
    pub build_conditions : String → Items → List Filter → Result (Clauses × List Filter)
    build_conditions table no_item values = ok (no_clause, values)
    build_conditions table (item condition more) values =
        then_compile (build_where_clauses table condition values)
          (λ values'. build_conditions table more values')

    pub build_entry : String → String → Filter → List Filter → Result (Clauses × List Filter)
    build_entry table key (object w) values = elim (relation table key) [
      | some r ↦ related_entry r values (build_entries (target r) w [])
      | none ↦ scalar_entry table key (object w) values
    ]
    build_entry table key (array xs) values =
        if key == "OR"
        then any_entry (build_conditions table xs values)
        else elim (relation table key) [
          | some r ↦ related_entry r values (build_items (target r) 0 xs [])
          | none ↦ scalar_entry table key (array xs) values
        ]
    build_entry table key null values = scalar_entry table key null values
    build_entry table key undefined values = scalar_entry table key undefined values
    build_entry table key (text s) values = scalar_entry table key (text s) values
    build_entry table key (number n) values = scalar_entry table key (number n) values
    build_entry table key (boolean b) values = scalar_entry table key (boolean b) values

pub join : String → List String → String
join separator [] = ""
join separator (s ∷ []) = s
join separator (s ∷ t ∷ more) = String.◌++◌ s (String.◌++◌ separator (join separator (t ∷ more)))

abbrev placeholders : ℕ → List String
placeholders zero = []
placeholders (suc n) = "?" ∷ placeholders n

abbrev sql_operator : Comparison → String
sql_operator equal = " = ?"
sql_operator like = " LIKE ?"
sql_operator at_least = " >= ?"
sql_operator at_most = " <= ?"
sql_operator different = " <> ?"

abbrev exists_prefix : Relation → String
exists_prefix ticket_of_timeline =
    "EXISTS (SELECT 1 FROM Ticket WHERE Ticket.id = TicketTimeline.ticketId AND "
exists_prefix creator_of_ticket =
    "EXISTS (SELECT 1 FROM User WHERE User.id = Ticket.createdById AND "

unfoldable mutual
  pub clause_text : Clause → String
  clause_text (is_null column) = String.◌++◌ column " IS NULL"
  clause_text (is_not_null column) = String.◌++◌ column " IS NOT NULL"
  clause_text (compare op column) = String.◌++◌ column (sql_operator op)
  clause_text (in_list column n) =
      String.◌++◌ column (String.◌++◌ " IN (" (String.◌++◌ (join ", " (placeholders n)) ")"))
  clause_text never = "1 = 0"
  clause_text (any_of cs) = String.◌++◌ "(" (String.◌++◌ (join " OR " (clause_texts cs)) ")")
  clause_text (exists r cs) =
      String.◌++◌ (exists_prefix r) (String.◌++◌ (join " AND " (clause_texts cs)) ")")

  pub clause_texts : Clauses → List String
  clause_texts no_clause = []
  clause_texts (clause c cs) = clause_text c ∷ clause_texts cs
