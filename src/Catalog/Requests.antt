-- ===== src/Catalog/Requests.antt =====
-- CatalogRequestsService (src/modules/catalog-requests/catalog-requests.service.ts). `now` is the
-- clock, `id` the drawn id of a new row.
use fieldserviceit_backend.Base.{
  ℕ, String, Bool, not, ◌&&◌, ◌||◌, Option, none, some, List, ◌==◌, if◌then◌else◌, is_none, find,
  truthy, or_else, same_text, Result, ok, throw, bad_request, not_found, forbidden, ensure, ◌>>◌,
  ◌>>=◌,
}
use fieldserviceit_backend.Base.Map.{get, set, delete}
use fieldserviceit_backend.Access.{User}
use fieldserviceit_backend.Catalog.{CatalogItem, CatalogRequest, CatalogStore, CreateDto, UpdateDto}

-- `a || b`.
abbrev pub or_text : Option String → Option String → Option String
or_text a b = if truthy a then a else b

abbrev pub field_of {ℓ} : {A : Type ℓ} → (CatalogItem → Option A) → Option CatalogItem → Option A
field_of read none = none
field_of read (some item) = read item

-- What a column becomes: a field that the body leaves out stays.
abbrev pub kept_text : Option String → Option String → Option String
kept_text none old = old
kept_text (some s) old = some s

abbrev pub kept_number : Option ℕ → Option ℕ → Option ℕ
kept_number none old = old
kept_number (some n) old = some n

abbrev pub kept : Option String → String → String
kept none old = old
kept (some s) old = s

-- `findCatalogItemForRequest`: an active item of all companies or of the given one.
unfoldable pub find_catalog_item_for_request :
    String → Option String → List CatalogItem → Result CatalogItem
find_catalog_item_for_request id company_id items =
    let offered = λ (item : CatalogItem).
      (item.id == id)
      && item.is_active
      && (is_none item.company_id || (truthy company_id && same_text item.company_id company_id)) in
    elim (find offered items) as (λ o. Result CatalogItem) [
      | none ↦ throw (not_found "Catalog item not found")
      | some item ↦ ok item
    ]

unfoldable pub chosen_item : CreateDto → Option String → CatalogStore → Result (Option CatalogItem)
chosen_item dto company_id store =
    if truthy dto.catalog_item_id
    then (find_catalog_item_for_request (or_else dto.catalog_item_id "") company_id store.items
        >>= λ item. ok (some item))
    else ok none

-- The row that `create` writes, PENDING by the default of its column.
unfoldable pub request_of :
    ℕ → CreateDto → Option CatalogItem → Option String → String → CatalogRequest
request_of now dto item company_id user_id = record {
  catalog_item_id = or_text (field_of (λ i. some i.id) item) (or_text dto.catalog_item_id none);
  company_id = company_id;
  created_by_id = user_id;
  request_type = or_else (or_text dto.request_type (field_of (λ i. some i.request_type) item)) "";
  title = or_else (or_text dto.title (field_of (λ i. some i.name) item)) "";
  description = or_text dto.description (field_of (λ i. i.description) item);
  status = "PENDING";
  priority = or_else (or_text dto.priority (field_of (λ i. i.default_priority) item)) "MEDIUM";
  item_name = or_text dto.item_name (field_of (λ i. some i.name) item);
  quantity = dto.quantity;
  justification = dto.justification;
  notes = none;
  approved_by_id = none;
  approved_at = none;
  rejection_reason = none;
  fulfilled_at = none;
  updated_at = now;
}

abbrev pub with_request : String → CatalogRequest → CatalogStore → CatalogStore
with_request id row store = record store { requests = set store.requests id row }

unfoldable pub create :
    ℕ → String → CreateDto → Option String → String → CatalogStore → Result CatalogStore
create now id dto company_id user_id store = chosen_item dto company_id store >>= λ item.
    ensure
      (truthy (or_text dto.request_type (field_of (λ i. some i.request_type) item))
        && truthy (or_text dto.title (field_of (λ i. some i.name) item)))
      (bad_request "Choose a catalog item or provide a request type and title")
    >> ok (with_request id (request_of now dto item company_id user_id) store)

-- Whether the row may be seen.
unfoldable pub check_visible : User → CatalogRequest → Result (Unit {0})
check_visible user request =
    let refusal = forbidden "Not authorized to view this request" in
    ensure
      (not (
        not (user.role == "SUPER_ADMIN")
        && truthy user.company_id
        && not (same_text request.company_id user.company_id)))
      refusal
    >> ensure
        (not (
          not (user.user_type == "BUSINESS")
          && not (user.role == "SUPER_ADMIN")
          && not (request.created_by_id == user.id)))
        refusal

unfoldable pub find_one : String → User → CatalogStore → Result CatalogRequest
find_one id user store = elim (get store.requests id) as (λ o. Result CatalogRequest) [
  | none ↦ throw (not_found "Catalog request not found")
  | some request ↦ check_visible user request >> ok request
]

abbrev pub is_editor : User → CatalogRequest → Bool
is_editor user request =
    (request.created_by_id == user.id)
    || (user.role == "SUPER_ADMIN")
    || (user.role == "TENANT_ADMIN")

unfoldable pub updated : ℕ → UpdateDto → CatalogRequest → CatalogRequest
updated now dto row = record row {
  catalog_item_id = kept_text dto.fields.catalog_item_id row.catalog_item_id;
  request_type = kept dto.fields.request_type row.request_type;
  title = kept dto.fields.title row.title;
  description = kept_text dto.fields.description row.description;
  item_name = kept_text dto.fields.item_name row.item_name;
  quantity = kept_number dto.fields.quantity row.quantity;
  justification = kept_text dto.fields.justification row.justification;
  priority = kept dto.fields.priority row.priority;
  status = kept dto.status row.status;
  notes = kept_text dto.notes row.notes;
  rejection_reason = kept_text dto.rejection_reason row.rejection_reason;
  updated_at = now;
}

unfoldable pub update : ℕ → String → UpdateDto → User → CatalogStore → Result CatalogStore
update now id dto user store = find_one id user store >>= λ row.
    ensure (is_editor user row) (forbidden "Not authorized to update this request")
    >> ok (with_request id (updated now dto row) store)

unfoldable pub remove : String → User → CatalogStore → Result CatalogStore
remove id user store = find_one id user store >>= λ row.
    ensure (is_editor user row) (forbidden "Not authorized to delete this request")
    >> ok (record store { requests = delete store.requests id })

abbrev pub approved : ℕ → String → CatalogRequest → CatalogRequest
approved now user_id row = record row {
  status = "APPROVED";
  approved_by_id = some user_id;
  approved_at = some now;
  updated_at = now;
}

abbrev pub rejected : ℕ → String → String → CatalogRequest → CatalogRequest
rejected now user_id reason row = record row {
  status = "REJECTED";
  rejection_reason = some reason;
  approved_by_id = some user_id;
  approved_at = some now;
  updated_at = now;
}

abbrev pub fulfilled : ℕ → CatalogRequest → CatalogRequest
fulfilled now row = record row { status = "FULFILLED"; fulfilled_at = some now; updated_at = now }

-- What the three decisions share: the row is seen, has the status asked for, and is written.
abbrev pub decide :
    String
    → String
    → (CatalogRequest → CatalogRequest)
    → String
    → User
    → CatalogStore
    → Result CatalogStore
decide status refusal change id user store = find_one id user store >>= λ row.
    ensure (row.status == status) (bad_request refusal) >> ok (with_request id (change row) store)

unfoldable pub approve : ℕ → String → String → User → CatalogStore → Result CatalogStore
approve now id user_id user store =
    decide "PENDING" "Only pending requests can be approved" (approved now user_id) id user store

unfoldable pub reject : ℕ → String → String → User → CatalogStore → Result CatalogStore
reject now id reason user store =
    decide "PENDING" "Only pending requests can be rejected" (rejected now user.id reason) id user
      store

unfoldable pub fulfill : ℕ → String → User → CatalogStore → Result CatalogStore
fulfill now id user store =
    decide "APPROVED" "Only approved requests can be fulfilled" (fulfilled now) id user store
