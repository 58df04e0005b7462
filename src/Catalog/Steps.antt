-- ===== src/Catalog/Steps.antt =====
-- The operations on requests of the catalogue as steps
-- (src/modules/catalog-requests/catalog-requests.service.ts), and what a success says.
use fieldserviceit_backend.Base.{
  ℕ, String, ◌≡◌, ap, ◌∙◌, subst, Bool, true, ◌&&◌, Option, none, some, arith, truthy, ok, ensure,
  bad_request, Exception, ◌>>◌, ◌>>=◌, >>-eq-ok, >>=-eq-ok, ensure-eq-ok, Option-cases, inl, inr,
}
use fieldserviceit_backend.Base.Map.{get}
use fieldserviceit_backend.Access.{User}
use fieldserviceit_backend.Catalog.{CatalogItem, CatalogRequest, CatalogStore, CreateDto, UpdateDto}
use fieldserviceit_backend.Catalog.Requests.{
  chosen_item, request_of, with_request, create, check_visible, find_one, update, remove, approve,
  reject, fulfill, or_text, field_of,
}

-- A successful operation of a user; `Edits` says of a body of an update what is asked of it.
pub data Step (Edits : UpdateDto → Type 0) : User → CatalogStore → CatalogStore → Type 0 where
  creates :
      {user : User} {s s' : CatalogStore} (now : ℕ) (id : String) (dto : CreateDto)
      (company_id : Option String)
      → get s.requests id ≡ none
      → create now id dto company_id user.id s ≡ ok s'
      → Step Edits user s s'
  updates :
      {user : User} {s s' : CatalogStore} (now : ℕ) (id : String) (dto : UpdateDto)
      → Edits dto
      → update now id dto user s ≡ ok s'
      → Step Edits user s s'
  removes :
      {user : User} {s s' : CatalogStore} (id : String)
      → remove id user s ≡ ok s'
      → Step Edits user s s'
  approves :
      {user : User} {s s' : CatalogStore} (now : ℕ) (id : String)
      → approve now id user.id user s ≡ ok s'
      → Step Edits user s s'
  rejects :
      {user : User} {s s' : CatalogStore} (now : ℕ) (id reason : String)
      → reject now id reason user s ≡ ok s'
      → Step Edits user s s'
  fulfills :
      {user : User} {s s' : CatalogStore} (now : ℕ) (id : String)
      → fulfill now id user s ≡ ok s'
      → Step Edits user s s'

find_one-eq-ok :
    (id : String) (user : User) (s : CatalogStore) (row : CatalogRequest)
    → find_one id user s ≡ ok row
    → (get s.requests id ≡ some row) × (check_visible user row ≡ ok tt)
unfolding find_one
find_one-eq-ok id user s row h = elim (Option-cases (get s.requests id)) [
  | inl e ↦ absurd (ground (arith, e, h))
  | inr (r, e) ↦
      let chain : (check_visible user r >> ok r) ≡ ok row = ground (arith, e, h) in
      let (seen, same) = >>-eq-ok (check_visible user r) (ok r) chain in
      let rows : r ≡ row = cc in
      (e ∙ ap (λ x. some x) rows, subst (λ x. check_visible user x ≡ ok tt) rows seen)
]

-- A chain that sees a row, checks it and writes.
pub guarded-eq-ok :
    (id : String) (user : User) (s s' : CatalogStore) (test : CatalogRequest → Bool)
    (refusal : Exception) (write : CatalogRequest → CatalogStore)
    → (find_one id user s >>= λ row. ensure (test row) refusal >> ok (write row)) ≡ ok s'
    → (row : CatalogRequest) × (get s.requests id ≡ some row)
      × (check_visible user row ≡ ok tt)
      × (test row ≡ true)
      × (write row ≡ s')
guarded-eq-ok id user s s' test refusal write h =
    let (row, found, rest) =
      >>=-eq-ok (find_one id user s) (λ row. ensure (test row) refusal >> ok (write row)) h in
    let (passed, written) = >>-eq-ok (ensure (test row) refusal) (ok (write row)) rest in
    let (here, seen) = find_one-eq-ok id user s row found in
    (row, here, seen, ensure-eq-ok (test row) refusal passed, cc)

pub create-eq-ok :
    (now : ℕ) (id : String) (dto : CreateDto) (company_id : Option String) (user_id : String)
    (s s' : CatalogStore)
    → create now id dto company_id user_id s ≡ ok s'
    → (item : Option CatalogItem) × (with_request id (request_of now dto item company_id user_id) s
        ≡ s')
unfolding create
create-eq-ok now id dto company_id user_id s s' h =
    let (item, chosen, rest) =
      >>=-eq-ok (chosen_item dto company_id s)
        (λ item.
          ensure
            (truthy (or_text dto.request_type (field_of (λ i. some i.request_type) item))
              && truthy (or_text dto.title (field_of (λ i. some i.name) item)))
            (bad_request "Choose a catalog item or provide a request type and title")
          >> ok (with_request id (request_of now dto item company_id user_id) s))
        h in
    let (_, written) =
      >>-eq-ok
        (ensure
          (truthy (or_text dto.request_type (field_of (λ i. some i.request_type) item))
            && truthy (or_text dto.title (field_of (λ i. some i.name) item)))
          (bad_request "Choose a catalog item or provide a request type and title"))
        (ok (with_request id (request_of now dto item company_id user_id) s)) rest in
    (item, cc)
