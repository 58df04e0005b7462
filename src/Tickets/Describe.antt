-- ===== src/Tickets/Describe.antt =====
-- describeTicketUpdate of src/modules/tickets/services/tickets.service.ts: the text that the
-- participants of a ticket read after an update.
use Prim.Native.Char.{code}
use Prim.Native.String
use fieldserviceit_backend.Base.{
  String, Bool, false, not, ◌&&◌, Option, none, some, List, [], ◌∷◌, ◌++◌, if◌then◌else◌, ◌==◌,
  nat_eq, or_else, truthy, same_text, is_text,
}
use fieldserviceit_backend.Tickets.{Ticket, UpdateTicketDto, keep, clear, put, given}

infixr 66 ◌&◌
abbrev pub ◌&◌ : String → String → String
s & t = String.◌++◌ s t

-- `values.join(separator)`.
unfoldable pub join : String → List String → String
join separator [] = ""
join separator (s ∷ []) = s
join separator (s ∷ t ∷ more) = s & (separator & join separator (t ∷ more))

-- `String(value ?? '')`.
abbrev pub or_empty : Option String → String
or_empty none = ""
or_empty (some s) = s

-- `addChange`: a line for a column whose value changed. Both values come from rows, which hold
-- null and never undefined.
unfoldable pub add_change : String → Option String → Option String → List String → List String
add_change label old_value new_value changes =
    if or_empty old_value == or_empty new_value
    then changes
    else changes
      ++ (label & ": " & or_else old_value "None" & " -> " & or_else new_value "None") ∷ []

-- A text that may be null, in a template.
abbrev pub or_null : Option String → String
or_null none = "null"
or_null (some s) = s

-- `replaceAll('_', ' ')`.
unfoldable pub spaced : String → String
spaced String.[] = ""
spaced (String.◌∷◌ c s) = (if nat_eq (code c) b'_' then " " else String.◌∷◌ c "") & spaced s

-- `[first, last].filter(Boolean).join(' ')`.
unfoldable pub full_name : Option String → Option String → String
full_name first last =
    if truthy first
    then (if truthy last then or_empty first & (" " & or_empty last) else or_empty first)
    else if truthy last
    then or_empty last
    else ""

pub record Description : Type 0 where
  pub action : String
  pub detail : String

-- The lines for the columns, "Status" first.
unfoldable pub column_changes : Ticket → Ticket → List String
unfolding add_change
column_changes ticket updated =
    add_change "Affected user phone" ticket.contact_phone updated.contact_phone (
      add_change "Affected user email" ticket.contact_email updated.contact_email (
        add_change "Affected user" ticket.contact_name updated.contact_name (
          add_change "Location" ticket.location updated.location (
            add_change "Subcategory" ticket.subcategory updated.subcategory (
              add_change "Category" ticket.category updated.category (
                add_change "Description" ticket.description updated.description (
                  add_change "Title" (some ticket.title) (some updated.title) (
                    add_change "Priority" ticket.priority updated.priority
                      (add_change "Status" ticket.status updated.status [])))))))))

-- `dto.field && dto.field !== ticket.field`.
abbrev pub given_and_new : Option String → Option String → Bool
given_and_new value old = truthy value && not (same_text value old)

-- `dto.assignedToId !== undefined && dto.assignedToId !== ticket.assignedToId`.
abbrev pub assignment_changed : UpdateTicketDto → Ticket → Bool
assignment_changed dto ticket = elim dto.assigned_to_id [
  | keep ↦ false
  | clear ↦ not (same_text none ticket.assigned_to_id)
  | put a ↦ not (same_text (some a) ticket.assigned_to_id)
]

unfoldable pub describe_ticket_update :
    Ticket → Ticket → Option String → UpdateTicketDto → Option Description
unfolding column_changes spaced
describe_ticket_update ticket updated assignee_name dto =
    let assignment =
      if assignment_changed dto ticket
      then ("Assignment: " & or_else assignee_name "Unassigned") ∷ []
      else [] in
    let hold =
      if given_and_new (given dto.on_hold_reason) ticket.on_hold_reason
      then ("Hold reason: " & or_empty (given dto.on_hold_reason)) ∷ []
      else [] in
    let resolution =
      if given_and_new (given dto.resolution) ticket.resolution
      then ("Resolution: " & or_empty (given dto.resolution)) ∷ []
      else [] in
    let changes = column_changes ticket updated ++ (assignment ++ (hold ++ resolution)) in
    let action : String =
      if is_text updated.status "RESOLVED" && not (is_text ticket.status "RESOLVED")
      then "Ticket resolved"
      else if is_text updated.status "ON_HOLD" && not (is_text ticket.status "ON_HOLD")
      then "Ticket placed on hold"
      else if not (same_text updated.status ticket.status)
      then "Status changed to " & spaced (or_null updated.status)
      else if assignment_changed dto ticket
      then "Ticket assignment changed"
      else "Ticket details updated" in
    elim changes [
      | [] ↦ none
      | c ∷ cs ↦ some (record { action = action; detail = join "\n" (c ∷ cs) })
    ]
