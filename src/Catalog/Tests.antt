-- ===== src/Catalog/Tests.antt =====
-- A small catalogue on which the properties apply.
use fieldserviceit_backend.Base.{◌≡◌, ◌≢◌, refl, ap, is_text, true, false, none, some, [], ok}
use fieldserviceit_backend.Base.Map.{get, set}
use fieldserviceit_backend.Access.{User}
use fieldserviceit_backend.Catalog.{CatalogRequest, CatalogStore, CreateDto}
use fieldserviceit_backend.Catalog.Requests.{
  chosen_item, request_of, create, check_visible, find_one, update, approve, fulfill, with_request,
  approved,
}
use fieldserviceit_backend.Catalog.Steps.{Step}
use fieldserviceit_backend.Catalog.Lifecycle.{
  empty_store, Reach, is_consistent, Reach-is_consistent,
}
use fieldserviceit_backend.Catalog.Isolation.{Step-other_company}
use fieldserviceit_backend.Catalog.SelfApproval.{no_fields, approval, update-approves}

abbrev bob : User
bob = record {
  id = "bob";
  email = "bob@x";
  role = "CLIENT";
  user_type = "BUSINESS";
  company_id = some "c1";
  effective_company_id = none;
  is_active = true;
  auth_version = none;
  department = none;
  location = none;
  is_impersonating_company = false;
  is_impersonating_user = false;
  impersonation_session_id = none;
  impersonation_actor_id = none;
  impersonation_actor_email = none;
}

abbrev screen : CreateDto
screen = record no_fields { request_type = some "HARDWARE"; title = some "screen" }

abbrev row : CatalogRequest
row = request_of 10 screen none (some "c1") "bob"

abbrev asked : CatalogStore
asked = with_request "r1" row (empty_store [])

abbrev granted : CatalogStore
granted = with_request "r1" (approved 20 "bob" row) asked

asks : Step (λ dto. dto.status ≡ none) bob (empty_store []) asked
unfolding create chosen_item get
asks = Step.creates 10 "r1" screen (some "c1") refl refl

grants : Step (λ dto. dto.status ≡ none) bob asked granted
unfolding approve find_one check_visible get set request_of
grants = Step.approves 20 "r1" refl

Reach-is_consistent_example : is_consistent (approved 20 "bob" row) ≡ true
unfolding get set
Reach-is_consistent_example =
    Reach-is_consistent [] granted "r1" (approved 20 "bob" row)
      (Reach.next bob (Reach.next bob Reach.start asks) grants) refl

-- The same request of another company stands beside it.
abbrev foreign : CatalogRequest
foreign = record row { company_id = some "c2" }

abbrev shared : CatalogStore
shared = with_request "r2" foreign asked

apart : foreign.company_id ≢ some "c1"
unfolding request_of
apart e = let differ : false ≡ true = ap (λ o. is_text o "c1") e in cc

Step-other_company_example :
    get (with_request "r1" (approved 20 "bob" row) shared).requests "r2" ≡ some foreign
unfolding approve find_one check_visible get set request_of
Step-other_company_example =
    Step-other_company bob "c1" "r2" foreign shared
      (with_request "r1" (approved 20 "bob" row) shared) refl refl refl (Step.approves 20 "r1" refl)
      refl apart

update-approves_example :
    (s1 : CatalogStore) × (s2 : CatalogStore) × (row1 : CatalogRequest) × (row' : CatalogRequest)
    × (update 20 "r1" approval bob asked ≡ ok s1)
    × (get s1.requests "r1" ≡ some row1)
    × (row1.status ≡ "APPROVED")
    × (row1.approved_by_id ≡ row.approved_by_id)
    × (fulfill 30 "r1" bob s1 ≡ ok s2)
    × (get s2.requests "r1" ≡ some row')
    × (row'.status ≡ "FULFILLED")
    × (row'.approved_by_id ≡ row.approved_by_id)
unfolding get set check_visible request_of
update-approves_example = update-approves 20 30 "r1" bob row asked refl refl refl
