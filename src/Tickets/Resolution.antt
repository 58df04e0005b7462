-- ===== src/Tickets/Resolution.antt =====
-- The date of a ticket's resolution agrees with its status (update, assign, resolve and remove of
-- src/modules/tickets/services/tickets.service.ts), over every sequence of operations.
use fieldserviceit_backend.Base.{
  ℕ, String, ◌≡◌, sym, subst, ◌≢◌, Bool, true, false, not, ◌&&◌, Option, none, some, List, arith,
  if◌then◌else◌, ◌==◌, eq_iff, truthy, is_text, is_text_iff, refl, ok, >>-eq-ok, Bool-cases, inl,
  inr,
}
use fieldserviceit_backend.Tickets.{
  Ticket, UpdateTicketDto, Member, Effect, Change, keep, clear, put, given,
}
use fieldserviceit_backend.Tickets.Lifecycle.{
  validate_transition, validate_from, apply_patch, update_patch, assert_assignable_user,
}
use fieldserviceit_backend.Tickets.Operations.{update_ticket, assign, resolve, remove}
use fieldserviceit_backend.Tickets.Transitions.{
  update_ticket-eq-ok, update_status, requested_status,
}

abbrev is_dated : Option ℕ → Bool
is_dated none = false
is_dated (some _) = true

-- A date of resolution stands in the row exactly when the status is RESOLVED.
abbrev pub IsConsistent : Ticket → Type 0
IsConsistent t = is_text t.status "RESOLVED" ≡ is_dated t.resolved_at

-- The date that `update` writes.
abbrev requested_date : Option String → Option String → Option ℕ → ℕ → Option ℕ
requested_date asked current date now =
    if truthy asked && (not (is_text asked "RESOLVED") && is_text current "RESOLVED")
    then none
    else if is_text asked "RESOLVED" && not (is_text current "RESOLVED")
    then some now
    else date

update_date :
    (dto : UpdateTicketDto) (t : Ticket) (user_id : Option String) (now : ℕ)
    → (apply_patch (update_patch dto t user_id now) t).resolved_at
      ≡ requested_date (given dto.status) t.status t.resolved_at now
unfolding apply_patch update_patch
update_date dto t user_id now = ground arith

requested-agrees :
    (assignee : Option String) (request : Change String) (current : Option String) (date : Option ℕ)
    (now : ℕ)
    → request ≢ put ""
    → request ≢ clear
    → is_text current "RESOLVED" ≡ is_dated date
    → is_text (requested_status assignee request current) "RESOLVED"
      ≡ is_dated (requested_date (given request) current date now)
requested-agrees assignee keep current date now real named a =
    elim (Bool-cases (truthy assignee && is_text current "OPEN")) [
      | inl e ↦
          let opened : current ≡ some "OPEN" = (is_text_iff current "OPEN").0 (ground (arith, e)) in
          rw e (rw opened at a)
      | inr e ↦ rw e a
    ]
requested-agrees assignee clear current date now real named a = absurd (named refl)
requested-agrees assignee (put x) current date now real named a =
    ground (arith, eq_iff x "RESOLVED", eq_iff x "", eq_iff "" "RESOLVED")

patch-IsConsistent :
    (dto : UpdateTicketDto) (t : Ticket) (user_id : Option String) (now : ℕ)
    → dto.status ≢ put ""
    → dto.status ≢ clear
    → IsConsistent t
    → IsConsistent (apply_patch (update_patch dto t user_id now) t)
patch-IsConsistent dto t user_id now real named c =
    rw (update_status dto t user_id now, update_date dto t user_id now)
      (requested-agrees (given dto.assigned_to_id) dto.status t.status t.resolved_at now real named
        c)

pub update_ticket-IsConsistent :
    (members : List Member) (t : Ticket) (dto : UpdateTicketDto) (user_id : Option String) (now : ℕ)
    (t' : Ticket) (effects : List Effect)
    → dto.status ≢ put ""
    → dto.status ≢ clear
    → IsConsistent t
    → update_ticket members t dto user_id now ≡ ok (t', effects)
    → IsConsistent t'
update_ticket-IsConsistent members t dto user_id now t' effects real named c h =
    let (_, row) = update_ticket-eq-ok members t dto user_id now t' effects h in
    subst IsConsistent (sym row) (patch-IsConsistent dto t user_id now real named c)

-- What a successful resolution and assignment have checked, and the rows that they leave.
pub resolve-eq-ok :
    (t : Ticket) (resolution : String) (user_id : Option String) (now : ℕ) (t' : Ticket)
    (effects : List Effect)
    → resolve t resolution user_id now ≡ ok (t', effects)
    → (validate_from t.status "RESOLVED" ≡ ok tt)
      × (t'.status ≡ some "RESOLVED")
      × (t'.resolved_at ≡ some now)
      × (t'.on_hold_reason ≡ t.on_hold_reason)
unfolding resolve
resolve-eq-ok t resolution user_id now t' effects h =
    let (valid, h') = >>-eq-ok (validate_from t.status "RESOLVED") _ h in
    (valid, ground arith, ground arith, ground arith)

pub assign-eq-ok :
    (members : List Member) (t : Ticket) (target : String) (actor : Option String) (t' : Ticket)
    (effects : List Effect)
    → assign members t target actor ≡ ok (t', effects)
    → (assert_assignable_user members t.company_id target ≡ ok tt)
      × (validate_from t.status "ASSIGNED" ≡ ok tt)
      × (t' ≡ record t { assigned_to_id = some target; status = some "ASSIGNED" })
unfolding assign
assign-eq-ok members t target actor t' effects h =
    let (assignable, h') = >>-eq-ok (assert_assignable_user members t.company_id target) _ h in
    let (valid, h'') = >>-eq-ok (validate_from t.status "ASSIGNED") _ h' in (assignable, valid, cc)

pub resolve-IsConsistent :
    (t : Ticket) (resolution : String) (user_id : Option String) (now : ℕ) (t' : Ticket)
    (effects : List Effect)
    → resolve t resolution user_id now ≡ ok (t', effects)
    → IsConsistent t'
resolve-IsConsistent t resolution user_id now t' effects h =
    let (_, status, date, _) = resolve-eq-ok t resolution user_id now t' effects h in
    rw (status, date)

-- A resolved ticket is not assigned without being reopened first.
resolved_not_assigned :
    (s : Option String) → validate_from s "ASSIGNED" ≡ ok tt → is_text s "RESOLVED" ≡ false
unfolding validate_from validate_transition
resolved_not_assigned none h = refl
resolved_not_assigned (some s) h = elim (Bool-cases (s == "RESOLVED")) [
  | inr e ↦ e
  | inl e ↦
      let same = (eq_iff s "RESOLVED").0 e in
      let h' = subst (λ u. validate_from (some u) "ASSIGNED" ≡ ok tt) same h in absurd (cc)
]

pub assign-IsConsistent :
    (members : List Member) (t : Ticket) (target : String) (actor : Option String) (t' : Ticket)
    (effects : List Effect)
    → IsConsistent t
    → assign members t target actor ≡ ok (t', effects)
    → IsConsistent t'
assign-IsConsistent members t target actor t' effects c h =
    let (_, valid, row) = assign-eq-ok members t target actor t' effects h in
    let free = resolved_not_assigned t.status valid in
    subst IsConsistent (sym row) (ground (arith, free, c))

remove-IsConsistent :
    (t : Ticket) (user_id : Option String) (now : ℕ)
    → IsConsistent t
    → IsConsistent (remove t user_id now).0
unfolding remove
remove-IsConsistent t user_id now c = c

-- One successful operation on a ticket. The body of an update names neither null nor the empty
-- status.
pub data Step (members : List Member) : Ticket → Ticket → Type 0 where
  updates :
      {t t' : Ticket} (dto : UpdateTicketDto) (user_id : Option String) (now : ℕ)
      (effects : List Effect)
      → dto.status ≢ put ""
      → dto.status ≢ clear
      → update_ticket members t dto user_id now ≡ ok (t', effects)
      → Step members t t'
  assigns :
      {t t' : Ticket} (target : String) (actor : Option String) (effects : List Effect)
      → assign members t target actor ≡ ok (t', effects)
      → Step members t t'
  resolves :
      {t t' : Ticket} (resolution : String) (user_id : Option String) (now : ℕ)
      (effects : List Effect)
      → resolve t resolution user_id now ≡ ok (t', effects)
      → Step members t t'
  removes :
      {t t' : Ticket} (user_id : Option String) (now : ℕ)
      → t' ≡ (remove t user_id now).0
      → Step members t t'

pub data Reach (members : List Member) (t : Ticket) : Ticket → Type 0 where
  here : Reach members t t
  next : {u v : Ticket} → Reach members t u → Step members u v → Reach members t v

Step-IsConsistent :
    {members : List Member} {t t' : Ticket} → Step members t t' → IsConsistent t → IsConsistent t'
Step-IsConsistent (updates dto user_id now effects real named h) c =
    update_ticket-IsConsistent _ _ dto user_id now _ effects real named c h
Step-IsConsistent (assigns target actor effects h) c =
    assign-IsConsistent _ _ target actor _ effects c h
Step-IsConsistent (resolves resolution user_id now effects h) c =
    resolve-IsConsistent _ resolution user_id now _ effects h
Step-IsConsistent (removes user_id now e) c =
    subst IsConsistent (sym e) (remove-IsConsistent _ user_id now c)

-- After any sequence of successful updates, assignments, resolutions and removals of a consistent
-- ticket, it has a date of resolution exactly when its status is RESOLVED, as long as no update
-- names null or the empty status.
pub Reach-IsConsistent :
    {members : List Member} {t t' : Ticket} → IsConsistent t → Reach members t t' → IsConsistent t'
Reach-IsConsistent c here = c
Reach-IsConsistent c (next r s) = Step-IsConsistent s (Reach-IsConsistent c r)
