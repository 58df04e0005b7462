-- ===== src/Catalog/Lifecycle.antt =====
-- The life of a request of the catalogue over any history of operations
-- (src/modules/catalog-requests/catalog-requests.service.ts).
use fieldserviceit_backend.Base.{
  ℕ, String, ◌≡◌, refl, ap, subst, Bool, true, false, not, ◌&&◌, ◌||◌, Option, none, some, List, [],
  arith, ◌==◌, eq_iff, if◌then◌else◌, is_none, ok, bad_request, forbidden, Bool-cases, inl, inr,
}
use fieldserviceit_backend.Base.Map.{
  get, delete, get-delete, HasUniqueKeys, set-HasUniqueKeys, delete-HasUniqueKeys, Every, Every-set,
}
use fieldserviceit_backend.Access.{User}
use fieldserviceit_backend.Catalog.{CatalogItem, CatalogRequest, CatalogStore, CreateDto, UpdateDto}
use fieldserviceit_backend.Catalog.Requests.{
  request_of, with_request, is_editor, updated, update, remove, approved, rejected, fulfilled,
  decide, approve, reject, fulfill,
}
use fieldserviceit_backend.Catalog.Steps.{Step, guarded-eq-ok, create-eq-ok}

abbrev pub empty_store : List CatalogItem → CatalogStore
empty_store items = record { items = items; requests = [] }

-- The dates and names of a decision stand exactly where the status says that it was taken.
unfoldable pub is_consistent : CatalogRequest → Bool
is_consistent row =
    if row.status == "PENDING"
    then is_none row.approved_by_id && is_none row.fulfilled_at
    else if row.status == "FULFILLED"
    then not (is_none row.approved_by_id) && not (is_none row.fulfilled_at)
    else ((row.status == "APPROVED") || (row.status == "REJECTED"))
      && not (is_none row.approved_by_id)
      && is_none row.fulfilled_at

record IsSound (s : CatalogStore) : Type 0 where
  pub unique : HasUniqueKeys s.requests
  pub sound : Every is_consistent s.requests

IsSound-with_request :
    (s : CatalogStore) (id : String) (row : CatalogRequest)
    → IsSound s
    → is_consistent row ≡ true
    → IsSound (with_request id row s)
IsSound-with_request s id row inv fine = record {
  unique = set-HasUniqueKeys s.requests id row inv.unique;
  sound = Every-set is_consistent s.requests id row fine inv.sound;
}

IsSound-delete :
    (s : CatalogStore) (id : String)
    → IsSound s
    → IsSound (record s { requests = delete s.requests id })
IsSound-delete s id inv = record {
  unique = delete-HasUniqueKeys s.requests id inv.unique;
  sound = λ j r h.
      let left = get-delete s.requests id j inv.unique in
      elim (Bool-cases (id == j)) [
        | inl e ↦ absurd (ground (arith, left, e, h))
        | inr e ↦ inv.sound j r (ground (arith, left, e, h))
      ];
}

abbrev pub KeepsStatus : UpdateDto → Type 0
KeepsStatus dto = dto.status ≡ none

updated-consistent :
    (now : ℕ) (dto : UpdateDto) (row : CatalogRequest)
    → KeepsStatus dto
    → is_consistent row ≡ true
    → is_consistent (updated now dto row) ≡ true
unfolding is_consistent updated
updated-consistent now dto row keeps fine = rw keeps fine

approved-consistent :
    (now : ℕ) (user_id : String) (row : CatalogRequest)
    → (row.status == "PENDING") ≡ true
    → is_consistent row ≡ true
    → is_consistent (approved now user_id row) ≡ true
unfolding is_consistent
approved-consistent now user_id row pending fine = ground (arith, pending, fine)

rejected-consistent :
    (now : ℕ) (user_id reason : String) (row : CatalogRequest)
    → (row.status == "PENDING") ≡ true
    → is_consistent row ≡ true
    → is_consistent (rejected now user_id reason row) ≡ true
unfolding is_consistent
rejected-consistent now user_id reason row pending fine = ground (arith, pending, fine)

fulfilled-consistent :
    (now : ℕ) (row : CatalogRequest)
    → (row.status == "APPROVED") ≡ true
    → is_consistent row ≡ true
    → is_consistent (fulfilled now row) ≡ true
unfolding is_consistent
fulfilled-consistent now row decided fine =
    let status = (eq_iff row.status "APPROVED").0 decided in
    let unpending : (row.status == "PENDING") ≡ false = ap (λ t. t == "PENDING") status in
    let unfulfilled : (row.status == "FULFILLED") ≡ false = ap (λ t. t == "FULFILLED") status in
    ground (arith, unpending, unfulfilled, decided, fine)

decide-IsSound :
    (status refusal : String) (change : CatalogRequest → CatalogRequest) (id : String) (user : User)
    (s s' : CatalogStore)
    → ((row : CatalogRequest)
        → (row.status == status) ≡ true
        → is_consistent row ≡ true
        → is_consistent (change row) ≡ true)
    → decide status refusal change id user s ≡ ok s'
    → IsSound s
    → IsSound s'
decide-IsSound status refusal change id user s s' keeps h inv =
    let (row, found, seen, test, written) =
      guarded-eq-ok id user s s' (λ row. row.status == status) (bad_request refusal)
        (λ row. with_request id (change row) s) h in
    subst IsSound written
      (IsSound-with_request s id (change row) inv (keeps row test (inv.sound id row found)))

request_of-consistent :
    (now : ℕ) (dto : CreateDto) (item : Option CatalogItem) (company_id : Option String)
    (user_id : String)
    → is_consistent (request_of now dto item company_id user_id) ≡ true
unfolding is_consistent request_of
request_of-consistent now dto item company_id user_id = refl

Step-IsSound :
    (user : User) (s s' : CatalogStore) → Step KeepsStatus user s s' → IsSound s → IsSound s'
unfolding update remove approve reject fulfill
Step-IsSound user s s' (Step.creates now id dto company_id fresh h) inv =
    let (item, written) = create-eq-ok now id dto company_id user.id s s' h in
    subst IsSound written (
      IsSound-with_request s id (request_of now dto item company_id user.id) inv
        (request_of-consistent now dto item company_id user.id))
Step-IsSound user s s' (Step.updates now id dto keeps h) inv =
    let (row, found, seen, test, written) =
      guarded-eq-ok id user s s' (is_editor user)
        (forbidden "Not authorized to update this request")
        (λ row. with_request id (updated now dto row) s) h in
    subst IsSound written (
      IsSound-with_request s id (updated now dto row) inv
        (updated-consistent now dto row keeps (inv.sound id row found)))
Step-IsSound user s s' (Step.removes id h) inv =
    let (row, found, seen, test, written) =
      guarded-eq-ok id user s s' (is_editor user)
        (forbidden "Not authorized to delete this request")
        (λ row. record s { requests = delete s.requests id }) h in
    subst IsSound written (IsSound-delete s id inv)
Step-IsSound user s s' (Step.approves now id h) inv =
    decide-IsSound "PENDING" "Only pending requests can be approved" (approved now user.id) id user
      s s' (approved-consistent now user.id) h inv
Step-IsSound user s s' (Step.rejects now id reason h) inv =
    decide-IsSound "PENDING" "Only pending requests can be rejected" (rejected now user.id reason)
      id user s s' (rejected-consistent now user.id reason) h inv
Step-IsSound user s s' (Step.fulfills now id h) inv =
    decide-IsSound "APPROVED" "Only approved requests can be fulfilled" (fulfilled now) id user s s'
      (fulfilled-consistent now) h inv

-- The steps of any users, from a catalogue without requests.
pub data Reach (items : List CatalogItem) : CatalogStore → Type 0 where
  start : Reach items (empty_store items)
  next :
      {s s' : CatalogStore} (user : User)
      → Reach items s
      → Step KeepsStatus user s s'
      → Reach items s'

Reach-IsSound : (items : List CatalogItem) (s : CatalogStore) → Reach items s → IsSound s
unfolding get
Reach-IsSound items s Reach.start = record { unique = tt; sound = λ id row h. absurd (cc) }
Reach-IsSound items s' (Reach.next user before step) =
    Step-IsSound user _ s' step (Reach-IsSound items _ before)

-- After any history of successful creations, removals, decisions and updates that name no status,
-- every request is pending, approved, rejected or fulfilled; it names who decided unless it is
-- pending, and it has a date of fulfilment exactly when it is fulfilled.
pub Reach-is_consistent :
    (items : List CatalogItem) (s : CatalogStore) (id : String) (row : CatalogRequest)
    → Reach items s
    → get s.requests id ≡ some row
    → is_consistent row ≡ true
Reach-is_consistent items s id row reach found = (Reach-IsSound items s reach).sound id row found
