-- ===== src/Tickets/Transitions.antt =====
-- The status diagram of a ticket (src/modules/tickets/services/tickets.service.ts), and that the
-- operations follow it.
use fieldserviceit_backend.Base.{
  ℕ, String, ◌≡◌, refl, ap, ◌∙◌, subst, ◌≢◌, ◌↔◌, ◌⊎◌, inl, inr, true, ◌&&◌, Option, none, some,
  List, arith, if◌then◌else◌, ◌==◌, eq_iff, truthy, or_else, is_text, ok, ◌>>◌, >>-eq-ok,
  Bool-cases,
}
use fieldserviceit_backend.Tickets.{
  Ticket, UpdateTicketDto, Member, Effect, Change, keep, clear, put, given,
}
use fieldserviceit_backend.Tickets.Lifecycle.{
  validate_transition, validate_from, check_title, check_status, status_changes, apply_patch,
  update_patch, assert_assignable_user,
}
use fieldserviceit_backend.Tickets.Operations.{update_ticket}

pub data Status : Type 0 where
  open_status assigned in_progress on_hold resolved closed : Status

abbrev pub status_text : Status → String
status_text open_status = "OPEN"
status_text assigned = "ASSIGNED"
status_text in_progress = "IN_PROGRESS"
status_text on_hold = "ON_HOLD"
status_text resolved = "RESOLVED"
status_text closed = "CLOSED"

-- The edges of the diagram. Work goes on among the first four states; only a resolved ticket
-- closes, and only reopening leaves the last two.
pub data Edge : Status → Status → Type 0 where
  start : Edge open_status in_progress
  take_on : Edge open_status assigned
  settle : Edge open_status resolved
  begin_work : Edge assigned in_progress
  settle_assigned : Edge assigned resolved
  give_back : Edge assigned open_status
  pause_assigned : Edge assigned on_hold
  settle_work : Edge in_progress resolved
  hand_over : Edge in_progress assigned
  stop_work : Edge in_progress open_status
  pause_work : Edge in_progress on_hold
  resume_assigned : Edge on_hold assigned
  resume_work : Edge on_hold in_progress
  settle_held : Edge on_hold resolved
  release : Edge on_hold open_status
  close : Edge resolved closed
  reopen_resolved : Edge resolved open_status
  reopen_closed : Edge closed open_status

ruleset edges = (
  start, take_on, settle, begin_work, settle_assigned, give_back, pause_assigned, settle_work,
  hand_over, stop_work, pause_work, resume_assigned, resume_work, settle_held, release, close,
  reopen_resolved, reopen_closed,
)

abbrev pub Follows : Status → Status → Type 0
Follows s t = (s ≡ t) ⊎ Edge s t

Edge-validates :
    {s t : Status} → Edge s t → validate_transition (status_text s) (status_text t) ≡ ok tt
unfolding validate_transition
Edge-validates start = refl
Edge-validates _ = refl

validates_self : (s : Status) → validate_transition (status_text s) (status_text s) ≡ ok tt
unfolding validate_transition
validates_self open_status = refl
validates_self _ = refl

validates-Follows :
    (s t : Status) → validate_transition (status_text s) (status_text t) ≡ ok tt → Follows s t
unfolding validate_transition
validates-Follows open_status open_status h = inl refl
validates-Follows assigned assigned h = inl refl
validates-Follows in_progress in_progress h = inl refl
validates-Follows on_hold on_hold h = inl refl
validates-Follows resolved resolved h = inl refl
validates-Follows closed closed h = inl refl
validates-Follows s t h = grind (arith, edges)

-- A change of status is accepted exactly when it stays or follows an edge of the diagram.
pub validate_transition_iff :
    (s t : Status) → (validate_transition (status_text s) (status_text t) ≡ ok tt) ↔ Follows s t
validate_transition_iff s t = (
  validates-Follows s t,
  λ f. elim f [
    | inl e ↦
        subst (λ u. validate_transition (status_text s) (status_text u) ≡ ok tt) e
          (validates_self s)
    | inr e ↦ Edge-validates e
  ],
)

parse_status : String → Option Status
parse_status s =
    if s == "OPEN"
    then some open_status
    else if s == "ASSIGNED"
    then some assigned
    else if s == "IN_PROGRESS"
    then some in_progress
    else if s == "ON_HOLD"
    then some on_hold
    else if s == "RESOLVED"
    then some resolved
    else if s == "CLOSED"
    then some closed
    else none

parse_status_sound : (x : String) (t : Status) → parse_status x ≡ some t → x ≡ status_text t
unfolding parse_status
parse_status_sound x t h = ground (
  arith,
  eq_iff x "OPEN",
  eq_iff x "ASSIGNED",
  eq_iff x "IN_PROGRESS",
  eq_iff x "ON_HOLD",
  eq_iff x "RESOLVED",
  eq_iff x "CLOSED",
)

validates-parse :
    (s : Status) (to : String)
    → validate_transition (status_text s) to ≡ ok tt
    → parse_status to ≢ none
unfolding validate_transition parse_status
validates-parse open_status to h = ground (
  arith,
  eq_iff "OPEN" to,
  eq_iff "ASSIGNED" to,
  eq_iff "IN_PROGRESS" to,
  eq_iff "RESOLVED" to,
  eq_iff to "OPEN",
  eq_iff to "ASSIGNED",
  eq_iff to "IN_PROGRESS",
  eq_iff to "RESOLVED",
)
validates-parse _ to h = ground (
  arith,
  eq_iff "OPEN" to,
  eq_iff "ASSIGNED" to,
  eq_iff "IN_PROGRESS" to,
  eq_iff "RESOLVED" to,
  eq_iff "ON_HOLD" to,
  eq_iff "CLOSED" to,
  eq_iff to "OPEN",
  eq_iff to "ASSIGNED",
  eq_iff to "IN_PROGRESS",
  eq_iff to "RESOLVED",
  eq_iff to "ON_HOLD",
  eq_iff to "CLOSED",
)

-- A known status leads to known statuses only.
validates-status :
    (s : Status) (to : String)
    → validate_transition (status_text s) to ≡ ok tt
    → (t : Status) × (to ≡ status_text t) × Follows s t
validates-status s to h = go (parse_status to) refl
  where
    go :
        (o : Option Status)
        → parse_status to ≡ o
        → (t : Status) × (to ≡ status_text t) × Follows s t
    go none e = absurd (validates-parse s to h e)
    go (some t) e =
        let same = parse_status_sound to t e in
        (
          t,
          same,
          validates-Follows s t (subst (λ u. validate_transition (status_text s) u ≡ ok tt) same h),
        )

-- The status that `update` writes, from the body's assignee and status and the row's status.
abbrev pub requested_status : Option String → Change String → Option String → Option String
requested_status assignee keep current =
    if truthy assignee && is_text current "OPEN" then some "ASSIGNED" else current
requested_status assignee clear current =
    if truthy assignee && is_text current "OPEN" then some "ASSIGNED" else none
requested_status assignee (put x) current =
    if truthy assignee && (x == "" && is_text current "OPEN") then some "ASSIGNED" else some x

pub update_status :
    (dto : UpdateTicketDto) (t : Ticket) (user_id : Option String) (now : ℕ)
    → (apply_patch (update_patch dto t user_id now) t).status
      ≡ requested_status (given dto.assigned_to_id) dto.status t.status
unfolding apply_patch update_patch
update_status dto t user_id now = ground arith

assigns_open : (s : Status) → status_text s ≡ "OPEN" → Follows s assigned
assigns_open open_status h = inr take_on
assigns_open assigned h = inl refl
assigns_open in_progress h = inr hand_over
assigns_open on_hold h = inr resume_assigned
assigns_open resolved h = absurd (ground (arith, eq_iff "RESOLVED" "OPEN"))
assigns_open closed h = absurd (ground (arith, eq_iff "CLOSED" "OPEN"))

-- The status that the checks let through.
requested-Follows :
    (s : Status) (assignee : Option String) (request : Change String)
    → request ≢ put ""
    → request ≢ clear
    → ((x : String)
        → request ≡ put x
        → status_text s ≢ x
        → validate_transition (status_text s) x ≡ ok tt)
    → (s' : Status) × (requested_status assignee request (some (status_text s))
        ≡ some (status_text s'))
      × Follows s s'
requested-Follows s assignee keep real named checked =
    elim (Bool-cases (truthy assignee && status_text s == "OPEN")) [
      | inl e ↦
          (assigned, rw e refl, assigns_open s (ground (arith, eq_iff (status_text s) "OPEN")))
      | inr e ↦ (s, rw e refl, inl refl)
    ]
requested-Follows s assignee clear real named checked = absurd (named refl)
requested-Follows s assignee (put x) real named checked = elim (Bool-cases (status_text s == x)) [
  | inl e ↦ (s, ground (arith, eq_iff (status_text s) x, eq_iff x ""), inl refl)
  | inr e ↦
      let (s', same, follows) =
        validates-status s x (checked x refl (λ q. ground (arith, eq_iff (status_text s) x))) in
      (s', ground (arith, eq_iff x ""), follows)
]

check_status-validates :
    (dto : UpdateTicketDto) (t : Ticket) (current : String)
    → t.status ≡ some current
    → dto.status ≢ put ""
    → check_status dto t ≡ ok tt
    → (x : String) → dto.status ≡ put x
    → current ≢ x
    → validate_transition current x ≡ ok tt
unfolding check_status validate_from
check_status-validates dto t current at real checked x e n =
    let asked : given dto.status ≡ some x = ap (λ c. given c) e in
    let changes : status_changes (given dto.status) t ≡ true =
      rw (asked, at) (ground (arith, eq_iff x "", eq_iff x current)) in
    let checks = rw changes at checked in
    let (valid, _) = >>-eq-ok (validate_from t.status (or_else (given dto.status) "")) _ checks in
    let there : validate_from (some current) (or_else (some x) "") ≡ ok tt =
      rw (asked, at) at valid in
    subst (λ y. validate_transition current y ≡ ok tt) (ground (arith, eq_iff x "")) there

-- What a successful update has checked, and the row that it leaves.
pub update_ticket-eq-ok :
    (members : List Member) (t : Ticket) (dto : UpdateTicketDto) (user_id : Option String) (now : ℕ)
    (t' : Ticket) (effects : List Effect)
    → update_ticket members t dto user_id now ≡ ok (t', effects)
    → (check_status dto t ≡ ok tt) × (t' ≡ apply_patch (update_patch dto t user_id now) t)
unfolding update_ticket
update_ticket-eq-ok members t dto user_id now t' effects h =
    let (checked, h') = >>-eq-ok (check_status dto t) _ h in
    let (_, h'') =
      >>-eq-ok
        ((if truthy (given dto.assigned_to_id)
            then assert_assignable_user members t.company_id (or_else (given dto.assigned_to_id) "")
            else ok tt)
          >> check_title dto)
        _ h' in
    (checked, cc)

-- A successful update leaves the status or moves it along an edge, unless the body names null or the
-- empty status.
pub update_ticket-Follows :
    (members : List Member) (t : Ticket) (dto : UpdateTicketDto) (user_id : Option String) (now : ℕ)
    (s : Status) (t' : Ticket) (effects : List Effect)
    → t.status ≡ some (status_text s)
    → dto.status ≢ put ""
    → dto.status ≢ clear
    → update_ticket members t dto user_id now ≡ ok (t', effects)
    → (s' : Status) × (t'.status ≡ some (status_text s')) × Follows s s'
update_ticket-Follows members t dto user_id now s t' effects at real named h =
    let (checked, row) = update_ticket-eq-ok members t dto user_id now t' effects h in
    let (s', same, follows) =
      requested-Follows s (given dto.assigned_to_id) dto.status real named
        (check_status-validates dto t (status_text s) at real checked) in
    let status = update_status dto t user_id now in
    (s', ap (λ (r : Ticket). r.status) row ∙ (status ∙ (rw at same)), follows)
