-- ===== src/Tickets/Lifecycle.antt =====
-- The status machine of src/modules/tickets/services/tickets.service.ts: validateTransition,
-- assertAssignableUser, and the data that update writes.
use fieldserviceit_backend.Base.{
  ℕ, String, Bool, false, not, ◌&&◌, Option, none, some, List, [], ◌∷◌, if◌then◌else◌, ◌==◌, find,
  includes, truthy, or_else, is_text, same_text, is_none, Result, ok, throw, bad_request,
  server_error, ◌>>◌, ensure,
}
use fieldserviceit_backend.Tickets.{
  Ticket, UpdateTicketDto, Member, Change, keep, clear, put, change, given, from_dto,
}
use fieldserviceit_backend.Tickets.Describe.{◌&◌}

abbrev pub valid_transitions : List (String × List String)
valid_transitions =
    ("OPEN", "ASSIGNED" ∷ "IN_PROGRESS" ∷ "RESOLVED" ∷ [])
    ∷ ("ASSIGNED", "IN_PROGRESS" ∷ "RESOLVED" ∷ "OPEN" ∷ "ON_HOLD" ∷ [])
    ∷ ("IN_PROGRESS", "RESOLVED" ∷ "ASSIGNED" ∷ "OPEN" ∷ "ON_HOLD" ∷ [])
    ∷ ("ON_HOLD", "ASSIGNED" ∷ "IN_PROGRESS" ∷ "RESOLVED" ∷ "OPEN" ∷ [])
    ∷ ("RESOLVED", "CLOSED" ∷ "OPEN" ∷ [])
    ∷ ("CLOSED", "OPEN" ∷ [])
    ∷ []

-- `table[from]?.includes(to)`.
abbrev pub allows : List (String × List String) → String → String → Bool
allows [] from to = false
allows ((state, allowed) ∷ more) from to =
    if state == from then includes allowed to else allows more from to

unfoldable pub validate_transition : String → String → Result (Unit {0})
validate_transition from to =
    if from == to
    then ok tt
    else ensure (allows valid_transitions from to)
        (bad_request ("Invalid status transition from " & from & " to " & to))

-- A null status is no key of the table.
unfoldable pub validate_from : Option String → String → Result (Unit {0})
validate_from none to = throw (bad_request ("Invalid status transition from null to " & to))
validate_from (some from) to = validate_transition from to

-- assertAssignableUser, over the rows of the User table.
abbrev pub is_assignable : String → String → Member → Bool
is_assignable company_id user_id m =
    m.id == user_id && (is_text m.company_id company_id && (is_none m.deleted_at && m.is_active))

unfoldable pub assert_assignable_user : List Member → Option String → String → Result (Unit {0})
assert_assignable_user members company_id user_id =
    if truthy company_id
    then elim company_id [
      | none ↦ throw (bad_request "Ticket has no company context")
      | some company ↦ elim (find (is_assignable company user_id) members) [
        | none ↦ throw (bad_request "Assignee must be an active user in the current tenant")
        | some m ↦
            ensure (includes ("TECHNICIAN" ∷ "TENANT_ADMIN" ∷ []) m.role)
              (bad_request "Assignee must be an active user in the current tenant")
      ]
    ]
    else throw (bad_request "Ticket has no company context")

-- `prisma.user.findUnique({ where: { id } })`.
abbrev pub find_member : List Member → String → Option Member
find_member members user_id = find (λ m. m.id == user_id) members

-- The `data` object of an update.
pub record TicketPatch : Type 0 where
  pub status : Change String
  pub priority : Change String
  pub title : Change String
  pub description : Change String
  pub category : Change String
  pub subcategory : Change String
  pub location : Change String
  pub assigned_to_id : Change String
  pub on_hold_reason : Change String
  pub resolution : Change String
  pub contact_name : Change String
  pub contact_email : Change String
  pub contact_phone : Change String
  pub resolved_at : Change ℕ
  pub resolved_by_id : Change String

abbrev pub or_keep {ℓ} : {A : Type ℓ} → Option A → A → A
or_keep none old = old
or_keep (some a) old = a

-- `prisma.ticket.update({ where: { id }, data })` on the row; `check_title` refuses a null title.
unfoldable pub apply_patch : TicketPatch → Ticket → Ticket
apply_patch p t = record t {
  status = change p.status t.status;
  priority = change p.priority t.priority;
  title = or_keep (given p.title) t.title;
  description = change p.description t.description;
  category = change p.category t.category;
  subcategory = change p.subcategory t.subcategory;
  location = change p.location t.location;
  assigned_to_id = change p.assigned_to_id t.assigned_to_id;
  on_hold_reason = change p.on_hold_reason t.on_hold_reason;
  resolution = change p.resolution t.resolution;
  contact_name = change p.contact_name t.contact_name;
  contact_email = change p.contact_email t.contact_email;
  contact_phone = change p.contact_phone t.contact_phone;
  resolved_at = change p.resolved_at t.resolved_at;
  resolved_by_id = change p.resolved_by_id t.resolved_by_id;
}

abbrev pub patch_of_dto : UpdateTicketDto → TicketPatch
patch_of_dto dto = record {
  status = dto.status;
  priority = dto.priority;
  title = dto.title;
  description = dto.description;
  category = dto.category;
  subcategory = dto.subcategory;
  location = dto.location;
  assigned_to_id = dto.assigned_to_id;
  on_hold_reason = dto.on_hold_reason;
  resolution = dto.resolution;
  contact_name = dto.contact_name;
  contact_email = dto.contact_email;
  contact_phone = dto.contact_phone;
  resolved_at = keep;
  resolved_by_id = keep;
}

-- `newStatus && newStatus !== ticket.status`.
abbrev pub status_changes : Option String → Ticket → Bool
status_changes new_status t = truthy new_status && not (same_text new_status t.status)

-- The checks on the new status.
unfoldable pub check_status : UpdateTicketDto → Ticket → Result (Unit {0})
check_status dto t =
    if status_changes (given dto.status) t
    then (validate_from t.status (or_else (given dto.status) "")
        >> ensure
            (not (is_text (given dto.status) "ON_HOLD" && not (truthy (given dto.on_hold_reason))))
            (bad_request "onHoldReason is required when placing a ticket on hold"))
    else ok tt

-- The column `title` is NOT NULL.
unfoldable pub check_title : UpdateTicketDto → Result (Unit {0})
check_title dto = elim dto.title [
  | clear ↦ throw (server_error "Column 'title' cannot be null")
  | _ ↦ ok tt
]

-- The five adjustments of `data`, in the source's order. `userId` may be undefined, in which case
-- `resolvedById` is not written.
abbrev pub set_assigned : UpdateTicketDto → Ticket → TicketPatch → TicketPatch
set_assigned dto t p =
    if truthy (given dto.assigned_to_id)
      && (not (truthy (given dto.status)) && is_text t.status "OPEN")
    then record p { status = put "ASSIGNED" }
    else p

abbrev pub set_hold : UpdateTicketDto → Ticket → TicketPatch → TicketPatch
set_hold dto t p =
    if truthy (given dto.status)
      && (not (is_text (given dto.status) "ON_HOLD") && is_text t.status "ON_HOLD")
    then record p { on_hold_reason = clear }
    else p

-- `if (!data.resolution) data.resolution = dto.resolution || ''`.
abbrev pub fill_resolution : Change String → Change String
fill_resolution (put s) = if s == "" then put "" else put s
fill_resolution _ = put ""

abbrev pub set_resolved : UpdateTicketDto → Ticket → Option String → ℕ → TicketPatch → TicketPatch
set_resolved dto t user_id now p =
    if is_text (given dto.status) "RESOLVED" && not (is_text t.status "RESOLVED")
    then record p {
      resolved_at = put now;
      resolved_by_id = from_dto user_id;
      resolution = fill_resolution p.resolution;
    }
    else p

abbrev pub set_reopened : UpdateTicketDto → Ticket → TicketPatch → TicketPatch
set_reopened dto t p =
    if truthy (given dto.status)
      && (not (is_text (given dto.status) "RESOLVED") && is_text t.status "RESOLVED")
    then record p { resolved_at = clear; resolved_by_id = clear; resolution = clear }
    else p

unfoldable pub update_patch : UpdateTicketDto → Ticket → Option String → ℕ → TicketPatch
update_patch dto t user_id now =
    set_reopened dto t
      (set_resolved dto t user_id now (set_hold dto t (set_assigned dto t (patch_of_dto dto))))
