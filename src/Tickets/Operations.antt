-- ===== src/Tickets/Operations.antt =====
-- The operations on one ticket of src/modules/tickets/services/tickets.service.ts: update, assign,
-- resolve and remove, with the effects of each in order. The ticket is the one that findOne
-- returned; `members` are the rows of the User table and `now` is the clock.
use fieldserviceit_backend.Base.{
  ℕ, String, Bool, not, ◌&&◌, Option, none, some, List, [], ◌∷◌, ◌++◌, if◌then◌else◌, ◌==◌, truthy,
  or_else, Result, ok, ◌>>◌,
}
use fieldserviceit_backend.Tickets.{
  Ticket, UpdateTicketDto, given, Member, Effect, timeline_entry, notification, assignee_email,
  participant_notice, gateway_update,
}
use fieldserviceit_backend.Tickets.Describe.{
  ◌&◌, or_null, full_name, describe_ticket_update, given_and_new,
}
use fieldserviceit_backend.Tickets.Lifecycle.{
  validate_from, check_title, assert_assignable_user, find_member, apply_patch, status_changes,
  check_status, update_patch,
}

-- `if (test) effects`.
abbrev pub when : Bool → List Effect → List Effect
when b effects = if b then effects else []

abbrev pub ticket_title : Ticket → String → String
ticket_title t suffix = "Ticket " & t.ticket_number & suffix

-- The notification and the e-mail to a member who is looked up by id.
abbrev pub notify_member :
    List Member
    → Ticket
    → Option String
    → Option String
    → String
    → Option String
    → String
    → List Effect
notify_member members t company_id user_id suffix body action = elim user_id [
  | none ↦ []
  | some id ↦ elim (find_member members id) [
    | none ↦ []
    | some m ↦ when (truthy company_id) (
        notification m.id (or_else company_id "") (ticket_title t suffix) body "info"
        ∷ when (truthy m.email) (assignee_email m.id action ∷ []))
  ]
]

-- The notification to the requester of a ticket that was resolved.
abbrev pub notify_creator : Ticket → String → List Effect
notify_creator t body = when (not (t.created_by_id == "") && truthy t.company_id) (
    notification t.created_by_id (or_else t.company_id "") (ticket_title t " resolved") (some body)
      "success"
    ∷ [])

abbrev pub status_effects : List Member → Ticket → UpdateTicketDto → Option String → List Effect
status_effects members t dto user_id =
    let to = or_else (given dto.status) "" in
    when (status_changes (given dto.status) t) (
      timeline_entry t.id user_id "STATUS_CHANGED"
        ("Status changed from " & or_null t.status & " to " & to) t.status (some to)
      ∷ (when (to == "ON_HOLD") (
            timeline_entry t.id user_id "HOLD"
              (or_else (given dto.on_hold_reason) "Ticket placed on hold") none none
            ∷ when (truthy t.assigned_to_id) (
                notify_member members t t.company_id t.assigned_to_id " on hold"
                  (given dto.on_hold_reason) "Ticket placed on hold"))
          ++ when (to == "RESOLVED") (
              timeline_entry t.id user_id "RESOLVED"
                (or_else (given dto.resolution) "Ticket resolved") t.status (some "RESOLVED")
              ∷ notify_creator t (or_else (given dto.resolution) "Ticket has been resolved"))))

abbrev pub assignment_effects : List Member → Ticket → UpdateTicketDto → Option String → List Effect
assignment_effects members t dto user_id =
    when (given_and_new (given dto.assigned_to_id) t.assigned_to_id) (
      timeline_entry t.id user_id "ASSIGNED"
        ("Assigned to user " & or_else (given dto.assigned_to_id) "")
        (some (or_else t.assigned_to_id "unassigned")) (given dto.assigned_to_id)
      ∷ notify_member members t t.company_id (given dto.assigned_to_id) " assigned to you"
          (some t.title) "Ticket assigned to you")

abbrev pub gateway : Ticket → String → List Effect
gateway t event =
    when (truthy t.company_id) (gateway_update (or_else t.company_id "") event t.id ∷ [])

-- `updated.assignedTo`, its name.
abbrev pub assignee_name : List Member → Ticket → Option String
assignee_name members t = elim t.assigned_to_id [
  | none ↦ none
  | some id ↦ elim (find_member members id) [
    | none ↦ none
    | some m ↦ some (full_name m.first_name m.last_name)
  ]
]

abbrev pub participant_effects :
    List Member → Ticket → Ticket → UpdateTicketDto → Option String → List Effect
participant_effects members t updated dto user_id =
    elim (describe_ticket_update t updated (assignee_name members updated) dto) [
      | none ↦ []
      | some d ↦ participant_notice t.id d.action d.detail user_id ∷ []
    ]

unfoldable pub update_effects :
    List Member → Ticket → Ticket → UpdateTicketDto → Option String → List Effect
update_effects members t updated dto user_id =
    status_effects members t dto user_id
    ++ (assignment_effects members t dto user_id
        ++ (participant_effects members t updated dto user_id ++ gateway t "ticket:updated"))

unfoldable pub update_ticket :
    List Member → Ticket → UpdateTicketDto → Option String → ℕ → Result (Ticket × List Effect)
update_ticket members t dto user_id now =
    let updated = apply_patch (update_patch dto t user_id now) t in
    check_status dto t
    >> ((if truthy (given dto.assigned_to_id)
          then assert_assignable_user members t.company_id (or_else (given dto.assigned_to_id) "")
          else ok tt)
        >> check_title dto
        >> ok (updated, update_effects members t updated dto user_id))

unfoldable pub assign :
    List Member → Ticket → String → Option String → Result (Ticket × List Effect)
assign members t target_user_id actor_user_id =
    assert_assignable_user members t.company_id target_user_id
    >> (validate_from t.status "ASSIGNED"
        >> ok (
          record t { assigned_to_id = some target_user_id; status = some "ASSIGNED" },
          timeline_entry t.id (some (or_else actor_user_id target_user_id)) "ASSIGNED"
                "Assigned to user" (some (or_else t.assigned_to_id "unassigned"))
                (some target_user_id)
              ∷ (notify_member members t t.company_id (some target_user_id) " assigned to you"
                    (some t.title) "Ticket assigned to you"
                  ++ (participant_notice t.id "Ticket assigned"
                        (assigned_detail members target_user_id) actor_user_id
                      ∷ gateway t "ticket:assigned")),
        ))
  where
    assigned_detail : List Member → String → String
    assigned_detail ms id = elim (find_member ms id) [
      | none ↦ "The ticket assignment changed."
      | some m ↦
          "Assigned to: "
          & or_else (some (full_name m.first_name m.last_name)) (or_else m.email "null")
    ]

unfoldable pub resolve : Ticket → String → Option String → ℕ → Result (Ticket × List Effect)
resolve t resolution user_id now =
    validate_from t.status "RESOLVED"
    >> ok (
      record t {
        status = some "RESOLVED";
        resolution = some resolution;
        resolved_at = some now;
        resolved_by_id = or_old user_id t.resolved_by_id;
      },
      timeline_entry t.id user_id "RESOLVED" (or_else (some resolution) "Ticket resolved") t.status
            (some "RESOLVED")
          ∷ (notify_creator t (or_else (some resolution) "Ticket has been resolved")
              ++ (participant_notice t.id "Ticket resolved"
                    (or_else (some resolution) "The ticket has been resolved.") user_id
                  ∷ gateway t "ticket:resolved")),
    )
  where
    -- An undefined column is not written.
    or_old : Option String → Option String → Option String
    or_old none old = old
    or_old (some u) old = some u

unfoldable pub remove : Ticket → Option String → ℕ → Ticket × List Effect
remove t user_id now = (
  record t { deleted_at = some now },
  participant_notice t.id "Ticket deleted" "The ticket was removed from the active ticket list."
        user_id
      ∷ gateway t "ticket:deleted",
)
