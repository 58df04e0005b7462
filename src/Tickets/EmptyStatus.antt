-- ===== src/Tickets/EmptyStatus.antt =====
-- A body that names the empty status (src/modules/tickets/services/tickets.service.ts): the tests
-- on `newStatus` take it for no status, and the write does not.
use fieldserviceit_backend.Base.{
  ℕ, String, ◌≡◌, refl, ◌∙◌, ◌≢◌, ◌⊎◌, inl, inr, Option, none, some, List, arith, eq_iff, ok, ◌>>◌,
}
use fieldserviceit_backend.Tickets.{
  Ticket, UpdateTicketDto, Member, Effect, Change, keep, clear, put, given,
}
use fieldserviceit_backend.Tickets.Lifecycle.{
  validate_transition, validate_from, check_title, apply_patch, update_patch, check_status,
}
use fieldserviceit_backend.Tickets.Operations.{update_ticket, update_effects}
use fieldserviceit_backend.Tickets.Transitions.{update_status}

Change-cases : (c : Change String) → (c ≡ keep) ⊎ ((c ≡ clear) ⊎ ((s : String) × (c ≡ put s)))
Change-cases keep = inl refl
Change-cases clear = inr (inl refl)
Change-cases (put s) = inr (inr (s, refl))

empty_status_passes :
    (dto : UpdateTicketDto) (t : Ticket) → dto.status ≡ put "" → check_status dto t ≡ ok tt
unfolding check_status
empty_status_passes dto t e = rw e refl

title_passes : (dto : UpdateTicketDto) → dto.title ≢ clear → check_title dto ≡ ok tt
unfolding check_title
title_passes dto titled = elim (Change-cases dto.title) [
  | inl e ↦ rw e refl
  | inr (inl e) ↦ absurd (titled e)
  | inr (inr (s, e)) ↦ rw e refl
]

stranded : (to : String) → to ≢ "" → validate_from (some "") to ≢ ok tt
unfolding validate_from validate_transition
stranded to real h = ground (arith, eq_iff "" to)

-- An update whose body names the empty status, no assignee and no null title succeeds from every status, leaves
-- the empty status, and from there no change to another status is accepted.
pub update_ticket-empty_status :
    (members : List Member) (t : Ticket) (dto : UpdateTicketDto) (user_id : Option String) (now : ℕ)
    (to : String)
    → dto.status ≡ put ""
    → given dto.assigned_to_id ≡ none
    → dto.title ≢ clear
    → to ≢ ""
    → (t' : Ticket) × (effects : List Effect) × (update_ticket members t dto user_id now
        ≡ ok (t', effects))
      × (t'.status ≡ some "")
      × (validate_from t'.status to ≢ ok tt)
unfolding update_ticket
update_ticket-empty_status members t dto user_id now to e unassigned titled real =
    let status = update_status dto t user_id now ∙ rw (e, unassigned) refl in
    (
      apply_patch (update_patch dto t user_id now) t,
      update_effects members t (apply_patch (update_patch dto t user_id now) t) dto user_id,
      rw (empty_status_passes dto t e, ◌>>◌)
          (rw (unassigned, ◌>>◌) (rw (title_passes dto titled, ◌>>◌) refl)),
      status,
      λ h. stranded to real (rw status at h),
    )
