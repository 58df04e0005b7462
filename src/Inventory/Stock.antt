-- ===== src/Inventory/Stock.antt =====
-- The operations of InventoryService that change stock
-- (src/modules/inventory/inventory.service.ts). Identifiers that the service draws are arguments.
use fieldserviceit_backend.Base.{
  ℕ, ◌+◌, ◌-◌, String, Bool, true, false, not, ◌&&◌, ◌||◌, Option, none, some, List, [], ◌∷◌, ◌==◌,
  if◌then◌else◌, ltb, nat_eq, includes, truthy, or_else, Result, ok, throw, bad_request, forbidden,
  not_found, ensure, ◌>>◌, ◌>>=◌,
}
use fieldserviceit_backend.Base.Map.{Map, get, set}
use fieldserviceit_backend.Access.{User}
use fieldserviceit_backend.Inventory.{Part, Location, Store, PartDto, MovementDto}

abbrev pub movement_types : List String
movement_types =
    "RECEIVE" ∷ "ADJUST" ∷ "TRANSFER_IN" ∷ "TRANSFER_OUT" ∷ "RESERVE" ∷ "USE" ∷ "RETURN" ∷ []

-- `a || null`.
abbrev pub or_null : Option String → Option String
or_null o = if truthy o then o else none

-- The company that reads are confined to; `none` reads every company.
unfoldable pub scope_for : User → Result (Option String)
scope_for user =
    if truthy user.company_id
    then ok user.company_id
    else if user.role == "SUPER_ADMIN"
    then ok (or_null user.effective_company_id)
    else throw (forbidden "Select a company context to manage inventory")

unfoldable pub resolve_write_company : User → Option String → Result String
resolve_write_company user requested =
    let context =
      if truthy user.effective_company_id then user.effective_company_id else requested in
    if truthy user.company_id
    then ok (or_else user.company_id "")
    else if user.role == "SUPER_ADMIN" && truthy context
    then ok (or_else context "")
    else throw (forbidden "Select a company context before creating inventory records")

unfoldable pub in_scope : Option String → String → Bool
in_scope none company_id = true
in_scope (some c) company_id = company_id == c

-- A row that is found within the scope.
unfoldable pub visible : Option String → Option Part → Result Part
visible scope none = throw (not_found "Inventory part not found")
visible scope (some part) =
    if in_scope scope part.company_id then ok part else throw (not_found "Inventory part not found")

unfoldable pub get_part : User → String → Store → Result Part
get_part user id store = scope_for user >>= λ scope. visible scope (get store.parts id)

unfoldable pub normalize_option :
    (String → String) → Option String → List String → String → Result String
normalize_option upper value allowed message =
    let normalized = upper (or_else value "") in
    if includes allowed normalized then ok normalized else throw (bad_request message)

abbrev pub takes_out : String → Bool
takes_out movement_type = includes ("USE" ∷ "TRANSFER_OUT" ∷ []) movement_type

-- `quantityOnHand + signedQuantity(movementType, quantity)`.
unfoldable pub on_hand_after : String → ℕ → ℕ → ℕ
on_hand_after movement_type quantity on_hand =
    if takes_out movement_type
    then on_hand - quantity
    else if movement_type == "RETURN"
    then on_hand
    else if movement_type == "RESERVE"
    then on_hand
    else on_hand + quantity

-- `GREATEST(0, quantityReserved + reservedDelta)`.
unfoldable pub reserved_after : String → ℕ → ℕ → ℕ
reserved_after movement_type quantity reserved =
    if movement_type == "RESERVE"
    then reserved + quantity
    else if movement_type == "USE" || movement_type == "RETURN"
    then reserved - quantity
    else reserved

-- The checks of `createMovement`; `quantity > available` compares signed numbers.
unfoldable pub check_stock : String → ℕ → Part → Result (Unit {0})
check_stock movement_type quantity part =
    let short = ltb part.quantity_on_hand (quantity + part.quantity_reserved) in
    ensure (not (nat_eq quantity 0)) (bad_request "Quantity must be greater than zero")
    >> (ensure (not (takes_out movement_type && short)) (bad_request "Not enough available stock")
        >> (ensure (not (movement_type == "RESERVE" && short))
              (bad_request "Not enough available stock to reserve")
            >> ensure (not (movement_type == "RETURN" && ltb part.quantity_reserved quantity))
                (bad_request "Return quantity exceeds reserved stock")))

abbrev pub moved_part : String → ℕ → Part → Part
moved_part movement_type quantity part = record part {
  quantity_on_hand = on_hand_after movement_type quantity part.quantity_on_hand;
  quantity_reserved = reserved_after movement_type quantity part.quantity_reserved;
}

-- The UPDATE and the INSERT of `createMovement`.
unfoldable pub record_movement : User → MovementDto → String → Part → Store → Store
record_movement user dto movement_type part store = record store {
  parts = set store.parts dto.part_id (moved_part movement_type dto.quantity part);
  transactions =
      record {
        company_id = part.company_id;
        part_id = dto.part_id;
        location_id = if truthy dto.location_id then dto.location_id else part.location_id;
        movement_type = movement_type;
        quantity = dto.quantity;
        ticket_id = or_null dto.ticket_id;
        actor_id = user.id;
      }
      ∷ store.transactions;
}

unfoldable pub create_movement : (String → String) → User → MovementDto → Store → Result Store
create_movement upper user dto store = get_part user dto.part_id store >>= λ part.
    normalize_option upper dto.movement_type movement_types "Invalid movement type"
    >>= λ movement_type.
        check_stock movement_type dto.quantity part
        >> ok (record_movement user dto movement_type part store)

-- The id of a company's first warehouse.
abbrev pub warehouse_of : String → Map Location → Option String
warehouse_of company_id [] = none
warehouse_of company_id ((id, l) ∷ rest) =
    let later = warehouse_of company_id rest in
    if l.company_id == company_id && l.location_type == "WAREHOUSE" then some id else later

-- The company's warehouse, which is made if there is none.
unfoldable pub default_location : String → String → Store → String × Store
default_location new_id company_id store =
    elim (warehouse_of company_id store.locations) as (λ o. String × Store) [
      | some id ↦ (id, store)
      | none ↦ (
        new_id,
        record store {
          locations = set store.locations new_id (record {
            company_id = company_id;
            location_type = "WAREHOUSE";
            name = "Main Warehouse";
          });
        },
      )
    ]

unfoldable pub assert_location : String → String → Store → Result (Unit {0})
assert_location company_id id store =
    let known = elim (get store.locations id) as (λ o. Bool) [
      | none ↦ false
      | some l ↦ l.company_id == company_id
    ] in
    ensure known (bad_request "Inventory location is not available")

-- The INSERT of `createPart`, and the transaction of its initial stock.
unfoldable pub insert_part : User → String → String → Option String → PartDto → Store → Store
insert_part user id company_id location_id dto store = record store {
  parts = set store.parts id (record {
    company_id = company_id;
    name = or_else dto.name "";
    location_id = location_id;
    quantity_on_hand = dto.quantity_on_hand;
    quantity_reserved = 0;
    reorder_point = dto.reorder_point;
  });
  transactions =
      if ltb 0 dto.quantity_on_hand
      then record {
        company_id = company_id;
        part_id = id;
        location_id = location_id;
        movement_type = "RECEIVE";
        quantity = dto.quantity_on_hand;
        ticket_id = none;
        actor_id = user.id;
      }
        ∷ store.transactions
      else store.transactions;
}

-- `createPart` for a body that names a location, and for one that does not.
unfoldable pub create_part : String → String → User → PartDto → Store → Result Store
create_part id new_location_id user dto store =
    resolve_write_company user dto.company_id >>= λ company_id.
    ensure (truthy dto.name) (bad_request "Part name is required") >> elim dto.location_id [
      | some l ↦
          (if l == "" then ok tt else assert_location company_id l store)
          >> ok (insert_part user id company_id (or_null (some l)) dto store)
      | none ↦
          let (l, store') = default_location new_location_id company_id store in
          assert_location company_id l store'
          >> ok (insert_part user id company_id (some l) dto store')
    ]
