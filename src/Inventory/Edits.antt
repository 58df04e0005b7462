-- ===== src/Inventory/Edits.antt =====
-- `updatePart` and `createLocation` of InventoryService
-- (src/modules/inventory/inventory.service.ts).
use fieldserviceit_backend.Base.{
  ℕ, String, Option, none, some, List, [], ◌∷◌, ◌==◌, if◌then◌else◌, truthy, or_else, Result, ok,
  bad_request, ensure, ◌>>◌, ◌>>=◌,
}
use fieldserviceit_backend.Base.Map.{set}
use fieldserviceit_backend.Access.{User}
use fieldserviceit_backend.Inventory.{Part, Store}
use fieldserviceit_backend.Inventory.Stock.{
  or_null, resolve_write_company, get_part, normalize_option, assert_location,
}

-- The body of an update: `none` where it has no such key. A location that it has may be null.
pub record EditDto : Type 0 where
  pub company_id : Option String
  pub name : Option String
  pub location_id : Option (Option String)
  pub quantity_on_hand : Option ℕ
  pub reorder_point : Option ℕ

abbrev pub kept_quantity : Option ℕ → ℕ → ℕ
kept_quantity none old = old
kept_quantity (some q) old = q

abbrev pub kept_location : Option (Option String) → Option String → Option String
kept_location none old = old
kept_location (some l) old = or_null l

-- `normalizePart` of an update: the location that the body names is one of the company.
unfoldable pub check_edit : String → EditDto → Store → Result (Unit {0})
check_edit company_id dto store =
    let location_id = kept_location dto.location_id none in
    if truthy location_id then assert_location company_id (or_else location_id "") store else ok tt

-- An empty name is no change.
unfoldable pub edited : EditDto → Part → Part
edited dto part = record part {
  name = or_else dto.name part.name;
  location_id = kept_location dto.location_id part.location_id;
  quantity_on_hand = kept_quantity dto.quantity_on_hand part.quantity_on_hand;
  reorder_point = kept_quantity dto.reorder_point part.reorder_point;
}

-- `UPDATE ... WHERE id = ? AND companyId = ?`: a part of another company, which a super admin sees,
-- stays as it is.
unfoldable pub update_part : User → String → EditDto → Store → Result Store
update_part user id dto store = get_part user id store >>= λ part.
    resolve_write_company user dto.company_id >>= λ company_id.
    check_edit company_id dto store
    >> ok (
        if part.company_id == company_id
        then record store { parts = set store.parts id (edited dto part) }
        else store)

abbrev pub location_types : List String
location_types = "WAREHOUSE" ∷ "VAN" ∷ "CUSTOMER_SITE" ∷ "OTHER" ∷ []

-- The body of a new location.
pub record LocationDto : Type 0 where
  pub company_id : Option String
  pub name : Option String
  pub location_type : Option String

unfoldable pub create_location :
    (String → String) → String → User → LocationDto → Store → Result Store
create_location upper id user dto store =
    resolve_write_company user dto.company_id >>= λ company_id.
    ensure (truthy dto.name) (bad_request "Location name is required")
    >> (normalize_option upper (some (or_else dto.location_type "WAREHOUSE")) location_types
          "Invalid location type"
        >>= λ location_type. ok (record store {
          locations = set store.locations id (record {
            company_id = company_id;
            location_type = location_type;
            name = or_else dto.name "";
          });
        }))
