-- ===== src/Field/Visits.antt =====
-- The writes of FieldServiceService (src/modules/field-service/services/field-service.service.ts).
-- `upper` stands for toUpperCase.
use fieldserviceit_backend.Base.{
  ℕ, String, Bool, false, not, ◌&&◌, Option, none, some, List, [], ◌∷◌, ◌++◌, ◌==◌, if◌then◌else◌,
  is_none, is_text, includes, length, take, select, Result, ok, throw, bad_request, not_found,
  ensure, ◌>>◌, ◌>>=◌, Outcome, ◌▷◌,
}
use fieldserviceit_backend.Base.Map.{get, set}
use fieldserviceit_backend.Field.{Dispatch, VisitedTicket, Staff, FieldStore}

abbrev pub visit_statuses : List String
visit_statuses = "DISPATCHED" ∷ "EN_ROUTE" ∷ "ON_SITE" ∷ "COMPLETED" ∷ "CANCELLED" ∷ []

-- Write a row and notify the participants of its ticket.
abbrev pub save : String → Dispatch → FieldStore → FieldStore
save id row store = record store {
  dispatches = set store.dispatches id row;
  sent = row.ticket_id ∷ store.sent;
}

unfoldable pub is_ticket_of : String → Option VisitedTicket → Bool
is_ticket_of company_id none = false
is_ticket_of company_id (some ticket) = is_text ticket.company_id company_id

unfoldable pub is_technician_of : String → Option Staff → Bool
is_technician_of company_id none = false
is_technician_of company_id (some user) =
    is_text user.company_id company_id
    && is_none user.deleted_at
    && user.is_active
    && includes ("TECHNICIAN" ∷ "TENANT_ADMIN" ∷ []) user.role

-- `dispatch`; `id` is the drawn id of the new row.
unfoldable pub dispatch : String → String → String → String → FieldStore → Result FieldStore
dispatch id ticket_id technician_id company_id store =
    ensure (is_ticket_of company_id (get store.tickets ticket_id)) (not_found "Ticket not found")
    >> ensure (is_technician_of company_id (get store.staff technician_id))
        (bad_request "Technician must be an active user in the current tenant")
    >> ok (
        save id
          (record {
            ticket_id = ticket_id;
            technician_id = technician_id;
            company_id = company_id;
            status = "DISPATCHED";
            notes = none;
            customer_signature = none;
            photo_urls = [];
            arrived_at = none;
            completed_at = none;
          })
          store)

-- `dispatch.findFirst({ where: { id, companyId } })`.
unfoldable pub find_dispatch : String → String → FieldStore → Result Dispatch
find_dispatch id company_id store = elim (get store.dispatches id) as (λ o. Result Dispatch) [
  | none ↦ throw (not_found "Dispatch not found")
  | some row ↦
      if row.company_id == company_id then ok row else throw (not_found "Dispatch not found")
]

unfoldable pub with_status : ℕ → String → Dispatch → Dispatch
with_status now status row = record row {
  status = status;
  arrived_at = if status == "ON_SITE" then some now else row.arrived_at;
  completed_at = if status == "COMPLETED" then some now else row.completed_at;
}

unfoldable pub update_status :
    (String → String) → ℕ → String → String → String → FieldStore → Result FieldStore
update_status upper now id status company_id store = find_dispatch id company_id store >>= λ row.
    ensure (includes visit_statuses (upper status)) (bad_request "Invalid dispatch status")
    >> ok (save id (with_status now (upper status) row) store)

-- `[...new Set(ids)]`: the first of equal ids stays.
unfoldable pub unique : List String → List String
unique [] = []
unique (x ∷ xs) = x ∷ select (λ y. not (y == x)) (unique xs)

-- The rows that were written before an exception stay written.
abbrev pub attempt_update :
    (String → String) → ℕ → String → String → String → FieldStore → Outcome FieldStore (Unit {0})
attempt_update upper now id status company_id store =
    elim (update_status upper now id status company_id store)
      as (λ o. Outcome FieldStore (Unit {0})) [
        | ok store' ↦ (ok tt, store')
        | throw e ↦ (throw e, store)
      ]

unfoldable pub update_each :
    (String → String)
    → ℕ
    → List String
    → String
    → String
    → FieldStore
    → Outcome FieldStore (Unit {0})
update_each upper now [] status company_id store = (ok tt, store)
update_each upper now (id ∷ ids) status company_id store =
    attempt_update upper now id status company_id store ▷ λ done s.
    update_each upper now ids status company_id s

abbrev pub with_count : ℕ → Unit {0} → FieldStore → Outcome FieldStore ℕ
with_count n done store = (ok n, store)

unfoldable pub bulk_update_status :
    (String → String) → ℕ → List String → String → String → FieldStore → Outcome FieldStore ℕ
bulk_update_status upper now ids status company_id store =
    elim (take 100 (unique ids)) as (λ o. Outcome FieldStore ℕ) [
      | [] ↦ (throw (bad_request "Select at least one dispatch"), store)
      | id ∷ rest ↦
          update_each upper now (id ∷ rest) status company_id store
          ▷ with_count (length (id ∷ rest))
    ]

unfoldable pub add_notes : String → String → String → FieldStore → Result FieldStore
add_notes id notes company_id store = find_dispatch id company_id store >>= λ row.
    ok (save id (record row { notes = some notes }) store)

abbrev pub signed : ℕ → String → Dispatch → Dispatch
signed now signature row = record row {
  customer_signature = some signature;
  status = "COMPLETED";
  completed_at = some now;
}

unfoldable pub add_signature : ℕ → String → String → String → FieldStore → Result FieldStore
add_signature now id signature company_id store =
    find_dispatch id company_id store >>= λ row. ok (save id (signed now signature row) store)

unfoldable pub add_photos : String → List String → String → FieldStore → Result FieldStore
add_photos id photo_urls company_id store = find_dispatch id company_id store >>= λ row.
    ok (save id (record row { photo_urls = row.photo_urls ++ photo_urls }) store)
