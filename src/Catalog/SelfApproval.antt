-- ===== src/Catalog/SelfApproval.antt =====
-- How a request is fulfilled that nobody approved
-- (src/modules/catalog-requests/catalog-requests.service.ts).
use fieldserviceit_backend.Base.{ℕ, String, ◌≡◌, refl, true, none, some, arith, eq_refl, ok}
use fieldserviceit_backend.Base.Map.{get, get-set}
use fieldserviceit_backend.Access.{User}
use fieldserviceit_backend.Catalog.{CatalogRequest, CatalogStore, CreateDto, UpdateDto}
use fieldserviceit_backend.Catalog.Requests.{
  with_request, check_visible, find_one, is_editor, updated, update, fulfilled, fulfill,
}

abbrev pub no_fields : CreateDto
no_fields = record {
  catalog_item_id = none;
  request_type = none;
  title = none;
  description = none;
  item_name = none;
  quantity = none;
  justification = none;
  priority = none;
}

-- The body `{ "status": "APPROVED" }`.
abbrev pub approval : UpdateDto
approval = record {
  fields = no_fields;
  status = some "APPROVED";
  notes = none;
  rejection_reason = none;
}

visible_after :
    (now : ℕ) (user : User) (row : CatalogRequest)
    → check_visible user row ≡ ok tt
    → check_visible user (updated now approval row) ≡ ok tt
unfolding check_visible updated
visible_after now user row seen = seen

-- Whoever sees a request and has created it can set its status to APPROVED by an update, whatever it
-- was, and have it fulfilled then; who is recorded to have approved it, if anybody, does not change.
pub update-approves :
    (now later : ℕ) (id : String) (user : User) (row : CatalogRequest) (s : CatalogStore)
    → get s.requests id ≡ some row
    → check_visible user row ≡ ok tt
    → row.created_by_id ≡ user.id
    → (s1 : CatalogStore) × (s2 : CatalogStore) × (row1 : CatalogRequest) × (row' : CatalogRequest)
      × (update now id approval user s ≡ ok s1)
      × (get s1.requests id ≡ some row1)
      × (row1.status ≡ "APPROVED")
      × (row1.approved_by_id ≡ row.approved_by_id)
      × (fulfill later id user s1 ≡ ok s2)
      × (get s2.requests id ≡ some row')
      × (row'.status ≡ "FULFILLED")
      × (row'.approved_by_id ≡ row.approved_by_id)
unfolding update fulfill find_one updated
update-approves now later id user row s found seen own =
    let row1 = updated now approval row in
    let s1 = with_request id row1 s in
    let row2 = fulfilled later row1 in
    let at1 : get s1.requests id ≡ some row1 =
      ground (arith, get-set s.requests id id row1, eq_refl id) in
    let at2 : get (with_request id row2 s1).requests id ≡ some row2 =
      ground (arith, get-set s1.requests id id row2, eq_refl id) in
    let seen1 : check_visible user row1 ≡ ok tt = visible_after now user row seen in
    let editor : is_editor user row ≡ true = rw own (ground (arith, eq_refl user.id)) in
    (
      s1,
      with_request id row2 s1,
      row1,
      row2,
      ground (arith, found, seen, editor),
      at1,
      refl,
      refl,
      ground (arith, at1, seen1),
      at2,
      refl,
      refl,
    )
