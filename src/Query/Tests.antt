-- ===== src/Query/Tests.antt =====
-- The filter compiler (src/database/database.service.ts) at sample filters.
use fieldserviceit_backend.Base.{
  String, ◌≡◌, refl, some, List, [], ◌∷◌, Result, ok, throw, bad_request, ◌>>=◌,
}
use fieldserviceit_backend.Query.{
  Filter, null, text, object, array, end, entry, no_item, item, Clauses, clause_texts,
  build_where_clauses, escape_sql_identifier, append, relation, related_entry, any_entry,
  then_compile, scalar_entry, join,
}
use fieldserviceit_backend.Query.Conditions.{Conds, conditions_of}
use fieldserviceit_backend.Query.Placeholders.{bind_all}
use fieldserviceit_backend.Query.Binding.{build_where_clauses-binds}

abbrev plain_text : Filter → String
plain_text (text s) = s
plain_text _ = "0"

-- The scope of a global technician: tickets of no company, or of public users, not deleted.
abbrev global_tech_scope : Filter
global_tech_scope = object (
    entry "deletedAt" null (
      entry "OR"
        (array (
          item (object (entry "companyId" null end)) (
            item (object (entry "createdBy" (object (entry "userType" (text "PUBLIC") end)) end))
              no_item)))
        end))

abbrev texts_of : Result (Clauses × List Filter) → Result (List String × List Filter)
texts_of r = do (clauses, values) ← r; ok (clause_texts clauses, values)

global_tech_sql :
    texts_of (build_where_clauses plain_text "Ticket" global_tech_scope [])
    ≡ ok (
      "`deletedAt` IS NULL"
          ∷ "(`companyId` IS NULL OR EXISTS (SELECT 1 FROM User WHERE User.id = Ticket.createdById AND `userType` = ?))"
          ∷ [],
      text "PUBLIC" ∷ [],
    )
unfolding build_where_clauses clause_texts escape_sql_identifier append relation related_entry
    any_entry then_compile scalar_entry join
global_tech_sql = refl

bad_column :
    build_where_clauses plain_text "Ticket" (object (entry "id; DROP" (text "x") end)) []
    ≡ throw (bad_request "Invalid SQL identifier: id; DROP")
unfolding build_where_clauses escape_sql_identifier then_compile scalar_entry
bad_column = refl

-- Two filters in one search: the values of both fit the placeholders.
abbrev search_filter : Filter
search_filter = object (
    entry "companyId" (text "acme") (
      entry "status"
        (object (entry "in" (array (item (text "OPEN") (item (text "ASSIGNED") no_item))) end))
        (entry "title" (object (entry "contains" (text "printer") end)) end)))

compiled_search :
    (r : Clauses × List Filter) × (build_where_clauses plain_text "Ticket" search_filter []
      ≡ ok (r.0, r.1))
unfolding build_where_clauses escape_sql_identifier append relation then_compile scalar_entry
compiled_search = (_, refl)

build_where_clauses-binds_example :
    (ds : Conds) × (conditions_of plain_text "Ticket" search_filter ≡ ok ds)
    × (bind_all compiled_search.0.0 compiled_search.0.1 ≡ some (ds, []))
build_where_clauses-binds_example =
    build_where_clauses-binds plain_text "Ticket" search_filter compiled_search.0.0
      compiled_search.0.1 compiled_search.1
