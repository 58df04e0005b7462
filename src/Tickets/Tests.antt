-- ===== src/Tickets/Tests.antt =====
-- The ticket operations (src/modules/tickets/services/tickets.service.ts) at sample rows.
use fieldserviceit_backend.Base.{
  String, ◌≡◌, refl, ◌≢◌, ◌↔◌, ◌⊎◌, true, Option, none, some, List, [], ◌∷◌, arith, eq_iff, truthy,
  ok, throw, bad_request,
}
use mathlib.Core.List.{Memᴰ}
use fieldserviceit_backend.Tickets.{
  Change, keep, clear, put, Ticket, UpdateTicketDto, empty_update, Member, Effect,
}
use fieldserviceit_backend.Tickets.Lifecycle.{
  validate_transition, validate_from, check_title, check_status, apply_patch, update_patch,
  assert_assignable_user,
}
use fieldserviceit_backend.Tickets.Operations.{update_ticket, assign, resolve, update_effects}
use fieldserviceit_backend.Tickets.Transitions.{
  Status, open_status, resolved, closed, status_text, Follows, validate_transition_iff,
  update_ticket-Follows,
}
use fieldserviceit_backend.Tickets.Resolution.{
  IsConsistent, here, next, resolves, Reach-IsConsistent,
}
use fieldserviceit_backend.Tickets.Holds.{assign-tenant}
use fieldserviceit_backend.Tickets.EmptyStatus.{update_ticket-empty_status}

abbrev sample : String → Option String → Ticket
sample status reason = record {
  id = "t1";
  ticket_number = "TKT-ACME-00001";
  title = "Printer";
  description = none;
  contact_name = some "Ann";
  contact_email = some "ann@acme.test";
  contact_phone = none;
  category = none;
  subcategory = none;
  location = none;
  status = some status;
  priority = some "MEDIUM";
  company_id = some "acme";
  created_by_id = "u9";
  assigned_to_id = none;
  on_hold_reason = reason;
  resolution = none;
  resolved_at = none;
  resolved_by_id = none;
  deleted_at = none;
}

abbrev technician : Member
technician = record {
  id = "u1";
  company_id = some "acme";
  role = "TECHNICIAN";
  is_active = true;
  deleted_at = none;
  email = some "tech@acme.test";
  first_name = some "Tess";
  last_name = none;
}

abbrev to_status : String → Change String → UpdateTicketDto
to_status s reason = record empty_update { status = put s; on_hold_reason = reason }

closed_is_final :
    validate_transition "CLOSED" "RESOLVED"
    ≡ throw (bad_request "Invalid status transition from CLOSED to RESOLVED")
unfolding validate_transition
closed_is_final = refl

hold_wants_reason :
    update_ticket [] (sample "ASSIGNED" none) (to_status "ON_HOLD" keep) none 5
    ≡ throw (bad_request "onHoldReason is required when placing a ticket on hold")
unfolding update_ticket check_status check_title validate_from validate_transition
hold_wants_reason = refl

validate_transition_iff_example :
    (validate_transition "RESOLVED" "CLOSED" ≡ ok tt) ↔ Follows resolved closed
validate_transition_iff_example = validate_transition_iff resolved closed

-- The row and the effects of an update by `u1` at time 5.
abbrev after : UpdateTicketDto → Ticket → Ticket
after dto t = apply_patch (update_patch dto t (some "u1") 5) t

abbrev effects_of : List Member → UpdateTicketDto → Ticket → List Effect
effects_of members dto t = update_effects members t (after dto t) dto (some "u1")

keep_not_clear : ◌≢◌ {A = Change String} keep clear
keep_not_clear e = cc

put_not_clear : ◌≢◌ {A = Change String} (put "RESOLVED") clear
put_not_clear e = cc

put_not_put : (a b : String) → a ≢ b → put a ≢ put b
put_not_put a b n e = n (cc)

abbrev resolving : UpdateTicketDto
resolving = to_status "RESOLVED" keep

update_ticket-Follows_example :
    (s' : Status) × ((after resolving (sample "OPEN" none)).status ≡ some (status_text s'))
    × Follows open_status s'
unfolding update_ticket check_status check_title validate_from validate_transition
update_ticket-Follows_example =
    update_ticket-Follows [] (sample "OPEN" none) resolving (some "u1") 5 open_status
      (after resolving (sample "OPEN" none)) (effects_of [] resolving (sample "OPEN" none)) refl
      (put_not_put "RESOLVED" "" (λ q. absurd (ground (arith, eq_iff "RESOLVED" "", q))))
      put_not_clear refl

abbrev holding : UpdateTicketDto
holding = to_status "ON_HOLD" (put "waiting for parts")

abbrev held : Ticket
held = sample "ON_HOLD" (some "waiting for parts")

abbrev assigned_held : Ticket
assigned_held = record held { assigned_to_id = some "u1"; status = some "ASSIGNED" }

abbrev resolved_held : Ticket
resolved_held = record held {
  status = some "RESOLVED";
  resolution = some "fixed";
  resolved_at = some 5;
  resolved_by_id = some "u1";
}

assigns_held :
    (effects : List Effect) × (assign (technician ∷ []) held "u1" (some "u1")
      ≡ ok (assigned_held, effects))
unfolding assign assert_assignable_user validate_from validate_transition
assigns_held = (_, refl)

resolves_held :
    (effects : List Effect) × (resolve held "fixed" (some "u1") 5 ≡ ok (resolved_held, effects))
unfolding resolve validate_from validate_transition
resolves_held = (_, refl)

assign-tenant_example :
    (m : Member) × Memᴰ m (technician ∷ [])
    × (m.id ≡ "u1")
    × (m.company_id ≡ some "acme")
    × (truthy (some "acme") ≡ true)
    × (m.is_active ≡ true)
    × (m.deleted_at ≡ none)
    × ((m.role ≡ "TECHNICIAN") ⊎ (m.role ≡ "TENANT_ADMIN"))
assign-tenant_example =
    assign-tenant (technician ∷ []) held "u1" (some "u1") assigned_held assigns_held.0
      assigns_held.1

Reach-IsConsistent_example : IsConsistent resolved_held
Reach-IsConsistent_example =
    Reach-IsConsistent {members = []} {t = held} {t' = resolved_held} refl
      (next here (resolves "fixed" (some "u1") 5 resolves_held.0 resolves_held.1))

update_ticket-empty_status_example :
    (t' : Ticket) × (effects : List Effect) × (update_ticket [] held (to_status "" keep) none 5
      ≡ ok (t', effects))
    × (t'.status ≡ some "")
    × (validate_from t'.status "OPEN" ≢ ok tt)
update_ticket-empty_status_example =
    update_ticket-empty_status [] held (to_status "" keep) none 5 "OPEN" refl refl keep_not_clear
      (ground (arith, eq_iff "OPEN" ""))
