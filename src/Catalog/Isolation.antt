-- ===== src/Catalog/Isolation.antt =====
-- Requests of other companies (src/modules/catalog-requests/catalog-requests.service.ts).
use fieldserviceit_backend.Base.{
  String, ◌≡◌, ◌≢◌, sym, ap, ◌∙◌, subst, true, false, some, arith, ◌==◌, eq_iff, truthy, same_text,
  same_text_iff, ok, bad_request, forbidden, Bool-cases, inl, inr,
}
use fieldserviceit_backend.Base.Map.{get, delete, get-set, get-delete-other}
use fieldserviceit_backend.Access.{User}
use fieldserviceit_backend.Catalog.{CatalogRequest, CatalogStore}
use fieldserviceit_backend.Catalog.Requests.{
  request_of, with_request, check_visible, is_editor, updated, update, remove, approved, rejected,
  fulfilled, decide, approve, reject, fulfill,
}
use fieldserviceit_backend.Catalog.Steps.{Step, guarded-eq-ok, create-eq-ok}

visible-company :
    (user : User) (row : CatalogRequest) (company_id : String)
    → (user.role == "SUPER_ADMIN") ≡ false
    → user.company_id ≡ some company_id
    → (company_id == "") ≡ false
    → check_visible user row ≡ ok tt
    → row.company_id ≡ some company_id
unfolding check_visible
visible-company user row company_id tenant own given seen =
    elim (Bool-cases (same_text row.company_id user.company_id)) [
      | inl e ↦ (same_text_iff row.company_id user.company_id).0 e ∙ own
      | inr e ↦
          let named : truthy user.company_id ≡ true = ground (arith, own, given) in
          absurd (ground (arith, tenant, e, named, seen))
    ]

module _ (s : CatalogStore) (company_id : String) (id j : String) (row other : CatalogRequest) where
  written-apart :
      (row' : CatalogRequest)
      → get s.requests id ≡ some row
      → row.company_id ≡ some company_id
      → get s.requests j ≡ some other
      → other.company_id ≢ some company_id
      → (get (with_request id row' s).requests j ≡ some other)
        × (get (delete s.requests id) j ≡ some other)
  written-apart row' mine own theirs apart = elim (Bool-cases (id == j)) [
    | inl e ↦
        let same_id = (eq_iff id j).0 e in
        let same : row ≡ other =
          let both = sym mine ∙ ap (λ k. get s.requests k) same_id ∙ theirs in cc in
        absurd (apart (ap (λ (r : CatalogRequest). r.company_id) (sym same) ∙ own))
    | inr e ↦
        let stored = get-set s.requests id j row' in
        (ground (arith, stored, e, theirs), get-delete-other s.requests id j e ∙ theirs)
  ]

decide-other :
    (status refusal : String) (change : CatalogRequest → CatalogRequest) (user : User)
    (c id j : String) (other : CatalogRequest) (s s' : CatalogStore)
    → (user.role == "SUPER_ADMIN") ≡ false
    → user.company_id ≡ some c
    → (c == "") ≡ false
    → decide status refusal change id user s ≡ ok s'
    → get s.requests j ≡ some other
    → other.company_id ≢ some c
    → get s'.requests j ≡ some other
decide-other status refusal change user c id j other s s' tenant own given h theirs apart =
    let (row, found, seen, test, written) =
      guarded-eq-ok id user s s' (λ row. row.status == status) (bad_request refusal)
        (λ row. with_request id (change row) s) h in
    let mine = visible-company user row c tenant own given seen in
    subst (λ (t : CatalogStore). get t.requests j ≡ some other) written
      (written-apart s c id j row other (change row) found mine theirs apart).0

-- A successful operation of a user of a company, who is no super admin, leaves every request of other
-- companies and of none as it is, whatever an update names.
pub Step-other_company :
    (user : User) (company_id j : String) (other : CatalogRequest) (s s' : CatalogStore)
    → (user.role == "SUPER_ADMIN") ≡ false
    → user.company_id ≡ some company_id
    → (company_id == "") ≡ false
    → Step (λ dto. Unit) user s s'
    → get s.requests j ≡ some other
    → other.company_id ≢ some company_id
    → get s'.requests j ≡ some other
unfolding update remove approve reject fulfill
Step-other_company user c j other s s' tenant own given (Step.creates now id dto company_id fresh h)
      theirs apart =
    let (item, written) = create-eq-ok now id dto company_id user.id s s' h in
    let stored = get-set s.requests id j (request_of now dto item company_id user.id) in
    subst (λ (t : CatalogStore). get t.requests j ≡ some other) written
      (elim (Bool-cases (id == j)) [
        | inl e ↦
            let both = sym fresh ∙ ap (λ k. get s.requests k) ((eq_iff id j).0 e) ∙ theirs in
            absurd (cc)
        | inr e ↦ ground (arith, stored, e, theirs)
      ])
Step-other_company user c j other s s' tenant own given (Step.updates now id dto _ h) theirs apart =
    let (row, found, seen, test, written) =
      guarded-eq-ok id user s s' (is_editor user)
        (forbidden "Not authorized to update this request")
        (λ row. with_request id (updated now dto row) s) h in
    let mine = visible-company user row c tenant own given seen in
    subst (λ (t : CatalogStore). get t.requests j ≡ some other) written
      (written-apart s c id j row other (updated now dto row) found mine theirs apart).0
Step-other_company user c j other s s' tenant own given (Step.removes id h) theirs apart =
    let (row, found, seen, test, written) =
      guarded-eq-ok id user s s' (is_editor user)
        (forbidden "Not authorized to delete this request")
        (λ row. record s { requests = delete s.requests id }) h in
    let mine = visible-company user row c tenant own given seen in
    subst (λ (t : CatalogStore). get t.requests j ≡ some other) written
      (written-apart s c id j row other row found mine theirs apart).1
Step-other_company user c j other s s' tenant own given (Step.approves now id h) theirs apart =
    decide-other "PENDING" "Only pending requests can be approved" (approved now user.id) user c id
      j other s s' tenant own given h theirs apart
Step-other_company user c j other s s' tenant own given (Step.rejects now id reason h) theirs
      apart =
    decide-other "PENDING" "Only pending requests can be rejected" (rejected now user.id reason)
      user c id j other s s' tenant own given h theirs apart
Step-other_company user c j other s s' tenant own given (Step.fulfills now id h) theirs apart =
    decide-other "APPROVED" "Only approved requests can be fulfilled" (fulfilled now) user c id j
      other s s' tenant own given h theirs apart
