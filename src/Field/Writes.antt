-- ===== src/Field/Writes.antt =====
-- The writes of field visits as steps (src/modules/field-service/services/field-service.service.ts),
-- and what a success says.
use fieldserviceit_backend.Base.{
  ℕ, String, ◌≡◌, refl, sym, ap, ◌∙◌, subst, Bool, true, not, ◌&&◌, none, some, List, [], ◌++◌,
  arith, ◌==◌, eq_iff, is_none, includes, ok, ensure, bad_request, ◌>>◌, ◌>>=◌, >>-eq-ok, >>=-eq-ok,
  ensure-eq-ok, Bool-cases, Option-cases, inl, inr,
}
use fieldserviceit_backend.Base.Map.{get}
use fieldserviceit_backend.Field.{Dispatch, FieldStore}
use fieldserviceit_backend.Field.Visits.{
  visit_statuses, save, is_ticket_of, is_technician_of, dispatch, find_dispatch, with_status,
  update_status, add_notes, signed, add_signature, add_photos,
}

find_dispatch-eq-ok :
    (id company_id : String) (s : FieldStore) (row : Dispatch)
    → find_dispatch id company_id s ≡ ok row
    → (get s.dispatches id ≡ some row) × (row.company_id ≡ company_id)
unfolding find_dispatch
find_dispatch-eq-ok id company_id s row h = elim (Option-cases (get s.dispatches id)) [
  | inl e ↦ absurd (ground (arith, e, h))
  | inr (r, e) ↦ elim (Bool-cases (r.company_id == company_id)) [
    | inr apart ↦ absurd (ground (arith, e, apart, h))
    | inl own ↦
        let same : r ≡ row = ground (arith, e, own, h) in
        (
          e ∙ ap (λ x. some x) same,
          ap (λ (x : Dispatch). x.company_id) (sym same) ∙ (eq_iff r.company_id company_id).0 own,
        )
  ]
]

-- A chain that finds a row and writes it.
found-eq-ok :
    (id company_id : String) (s s' : FieldStore) (change : Dispatch → Dispatch)
    → ((row : Dispatch) → (change row).company_id ≡ row.company_id)
    → (find_dispatch id company_id s >>= λ row. ok (save id (change row) s)) ≡ ok s'
    → (row : Dispatch) × (get s.dispatches id ≡ some row)
      × (row.company_id ≡ company_id)
      × (save id (change row) s ≡ s')
found-eq-ok id company_id s s' change keeps h =
    let (row, found, written) =
      >>=-eq-ok (find_dispatch id company_id s) (λ row. ok (save id (change row) s)) h in
    let (here, own) = find_dispatch-eq-ok id company_id s row found in (row, here, own, cc)

update_status-eq-ok :
    (upper : String → String) (now : ℕ) (id status company_id : String) (s s' : FieldStore)
    → update_status upper now id status company_id s ≡ ok s'
    → (row : Dispatch) × (get s.dispatches id ≡ some row)
      × (row.company_id ≡ company_id)
      × (includes visit_statuses (upper status) ≡ true)
      × (save id (with_status now (upper status) row) s ≡ s')
unfolding update_status
update_status-eq-ok upper now id status company_id s s' h =
    let valid = includes visit_statuses (upper status) in
    let (row, found, rest) =
      >>=-eq-ok (find_dispatch id company_id s)
        (λ row.
          ensure valid (bad_request "Invalid dispatch status")
          >> ok (save id (with_status now (upper status) row) s))
        h in
    let (passed, written) =
      >>-eq-ok (ensure valid (bad_request "Invalid dispatch status"))
        (ok (save id (with_status now (upper status) row) s)) rest in
    let (here, own) = find_dispatch-eq-ok id company_id s row found in
    (row, here, own, ensure-eq-ok valid (bad_request "Invalid dispatch status") passed, cc)

-- A visit has a known status, a time of arrival on site and a time of completion where it says so.
unfoldable pub is_timely : Dispatch → Bool
is_timely row =
    includes visit_statuses row.status
    && not ((row.status == "ON_SITE") && is_none row.arrived_at)
    && not ((row.status == "COMPLETED") && is_none row.completed_at)

-- One row written: a new one of the company, or one that it has.
pub data Saved (company_id : String) : FieldStore → FieldStore → Type 0 where
  inserted :
      {s : FieldStore} (id : String) (row : Dispatch)
      → get s.dispatches id ≡ none
      → is_timely row ≡ true
      → Saved company_id s (save id row s)
  changed :
      {s : FieldStore} (id : String) (row row' : Dispatch)
      → get s.dispatches id ≡ some row
      → row.company_id ≡ company_id
      → (is_timely row ≡ true → is_timely row' ≡ true)
      → Saved company_id s (save id row' s)

pub data Saves (company_id : String) : FieldStore → FieldStore → Type 0 where
  done : {s : FieldStore} → Saves company_id s s
  more :
      {s s' s'' : FieldStore}
      → Saved company_id s s'
      → Saves company_id s' s''
      → Saves company_id s s''

with_status-timely :
    (now : ℕ) (status : String) (row : Dispatch)
    → includes visit_statuses status ≡ true
    → is_timely (with_status now status row) ≡ true
unfolding with_status is_timely
with_status-timely now status row valid = ground (arith, valid)

pub update_status-Saved :
    (upper : String → String) (now : ℕ) (id status company_id : String) (s s' : FieldStore)
    → update_status upper now id status company_id s ≡ ok s'
    → Saved company_id s s'
update_status-Saved upper now id status company_id s s' h =
    let (row, here, own, valid, written) =
      update_status-eq-ok upper now id status company_id s s' h in
    subst (Saved company_id s) written (
      Saved.changed id row (with_status now (upper status) row) here own
        (λ _. with_status-timely now (upper status) row valid))

pub add_notes-Saved :
    (id notes company_id : String) (s s' : FieldStore)
    → add_notes id notes company_id s ≡ ok s'
    → Saved company_id s s'
unfolding add_notes is_timely
add_notes-Saved id notes company_id s s' h =
    let (row, here, own, written) =
      found-eq-ok id company_id s s' (λ row. record row { notes = some notes }) (λ r. refl) h in
    subst (Saved company_id s) written
      (Saved.changed id row (record row { notes = some notes }) here own (λ t. t))

pub add_photos-Saved :
    (id company_id : String) (urls : List String) (s s' : FieldStore)
    → add_photos id urls company_id s ≡ ok s'
    → Saved company_id s s'
unfolding add_photos is_timely
add_photos-Saved id company_id urls s s' h =
    let (row, here, own, written) =
      found-eq-ok id company_id s s' (λ row. record row { photo_urls = row.photo_urls ++ urls })
        (λ r. refl) h in
    subst (Saved company_id s) written
      (Saved.changed id row (record row { photo_urls = row.photo_urls ++ urls }) here own (λ t. t))

pub add_signature-Saved :
    (now : ℕ) (id signature company_id : String) (s s' : FieldStore)
    → add_signature now id signature company_id s ≡ ok s'
    → Saved company_id s s'
unfolding add_signature is_timely
add_signature-Saved now id signature company_id s s' h =
    let (row, here, own, written) =
      found-eq-ok id company_id s s' (signed now signature) (λ r. refl) h in
    subst (Saved company_id s) written
      (Saved.changed id row (signed now signature row) here own (λ t. refl))

pub dispatch-Saved :
    (id ticket_id technician_id company_id : String) (s s' : FieldStore)
    → get s.dispatches id ≡ none
    → dispatch id ticket_id technician_id company_id s ≡ ok s'
    → Saved company_id s s'
unfolding dispatch is_timely
dispatch-Saved id ticket_id technician_id company_id s s' fresh h =
    let row : Dispatch = record {
      ticket_id = ticket_id;
      technician_id = technician_id;
      company_id = company_id;
      status = "DISPATCHED";
      notes = none;
      customer_signature = none;
      photo_urls = [];
      arrived_at = none;
      completed_at = none;
    } in
    let written : save id row s ≡ s' =
      elim (Bool-cases (is_ticket_of company_id (get s.tickets ticket_id))) [
        | inr e ↦ absurd (ground (arith, e, h))
        | inl e ↦ elim (Bool-cases (is_technician_of company_id (get s.staff technician_id))) [
          | inr f ↦ absurd (ground (arith, e, f, h))
          | inl f ↦ ground (arith, e, f, h)
        ]
      ] in
    subst (Saved company_id s) written (Saved.inserted id row fresh refl)
