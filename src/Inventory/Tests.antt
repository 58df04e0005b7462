-- ===== src/Inventory/Tests.antt =====
-- The stock operations (src/modules/inventory/inventory.service.ts) at a sample company.
use fieldserviceit_backend.Base.{
  ◌+◌, ℕ, String, ◌≡◌, ◌≢◌, refl, true, false, none, some, [], ◌∷◌, arith, eq_iff, Result, ok,
  throw, bad_request,
}
use fieldserviceit_backend.Base.Map.{get, set}
use fieldserviceit_backend.Access.{User}
use fieldserviceit_backend.Inventory.{Part, Store, PartDto, MovementDto}
use fieldserviceit_backend.Inventory.Stock.{
  create_movement, create_part, get_part, scope_for, visible, in_scope, normalize_option,
  on_hand_after, reserved_after, check_stock, record_movement, resolve_write_company,
  default_location, assert_location, insert_part, takes_out,
}
use fieldserviceit_backend.Inventory.Ledger.{puts_in, total, Balance, IsSound}
use fieldserviceit_backend.Inventory.Edits.{EditDto, check_edit, update_part}
use fieldserviceit_backend.Inventory.Unlogged.{update_part-unbalanced}
use fieldserviceit_backend.Inventory.Histories.{
  empty_store, creates, moves, here, next, Reach-IsSound,
}
use fieldserviceit_backend.Inventory.Scope.{create_movement-confined}

abbrev clerk : User
clerk = record {
  id = "u1";
  email = "clerk@acme.test";
  role = "TECHNICIAN";
  user_type = "BUSINESS";
  company_id = some "acme";
  effective_company_id = none;
  is_active = true;
  auth_version = none;
  department = none;
  location = none;
  is_impersonating_company = false;
  is_impersonating_user = false;
  impersonation_session_id = none;
  impersonation_actor_id = none;
  impersonation_actor_email = none;
}

abbrev cable : PartDto
cable = record {
  company_id = none;
  name = some "Cable";
  location_id = none;
  quantity_on_hand = 10;
  reorder_point = 2;
}

abbrev move : String → ℕ → MovementDto
move movement_type quantity = record {
  part_id = "p1";
  movement_type = some movement_type;
  quantity = quantity;
  location_id = none;
  ticket_id = none;
}

abbrev upper : String → String
upper s = s

abbrev after_creation : Result Store
after_creation = create_part "p1" "l1" clerk cable empty_store

-- The store with ten cables, and with four of them reserved.
abbrev row : String → ℕ → ℕ → Part
row company_id on_hand reserved = record {
  company_id = company_id;
  name = "Cable";
  location_id = some "l1";
  quantity_on_hand = on_hand;
  quantity_reserved = reserved;
  reorder_point = 2;
}

abbrev stocked : Store
stocked = record {
  parts = ("p1", row "acme" 10 0) ∷ [];
  locations =
      ("l1", record { company_id = "acme"; location_type = "WAREHOUSE"; name = "Main Warehouse" })
      ∷ [];
  transactions =
      record {
        company_id = "acme";
        part_id = "p1";
        location_id = some "l1";
        movement_type = "RECEIVE";
        quantity = 10;
        ticket_id = none;
        actor_id = "u1";
      }
      ∷ [];
}

abbrev reserved : Store
reserved = record stocked {
  parts = ("p1", row "acme" 10 4) ∷ [];
  transactions =
      record {
        company_id = "acme";
        part_id = "p1";
        location_id = some "l1";
        movement_type = "RESERVE";
        quantity = 4;
        ticket_id = none;
        actor_id = "u1";
      }
      ∷ stocked.transactions;
}

after_creation_row : after_creation ≡ ok stocked
unfolding create_part resolve_write_company default_location assert_location insert_part get set
after_creation_row = refl

after_reservation : create_movement upper clerk (move "RESERVE" 4) stocked ≡ ok reserved
unfolding create_movement get_part scope_for visible in_scope normalize_option on_hand_after
    reserved_after check_stock record_movement get set
after_reservation = refl

-- More than what is left after the reservation cannot be used.
refused_use :
    create_movement upper clerk (move "USE" 7) reserved
    ≡ throw (bad_request "Not enough available stock")
unfolding create_movement get_part scope_for visible in_scope normalize_option check_stock get
refused_use = refl

Reach-IsSound_example :
    Balance
      (get reserved.parts "p1")
      (total puts_in "p1" reserved.transactions)
      (total takes_out "p1" reserved.transactions)
unfolding get
Reach-IsSound_example =
    Reach-IsSound {upper = upper} {store = reserved}
      (next (next here (creates "p1" "l1" clerk cable refl after_creation_row))
        (moves clerk (move "RESERVE" 4) after_reservation))
      "p1"

abbrev shared : Store
shared = record stocked { parts = ("p1", row "acme" 10 0) ∷ ("p2", row "other" 3 1) ∷ [] }

abbrev used : Store
used = record shared {
  parts = ("p1", row "acme" 8 0) ∷ ("p2", row "other" 3 1) ∷ [];
  transactions =
      record {
        company_id = "acme";
        part_id = "p1";
        location_id = some "l1";
        movement_type = "USE";
        quantity = 2;
        ticket_id = none;
        actor_id = "u1";
      }
      ∷ shared.transactions;
}

create_movement-confined_example : get used.parts "p2" ≡ some (row "other" 3 1)
unfolding create_movement get_part scope_for visible in_scope normalize_option on_hand_after
    reserved_after check_stock record_movement get set
create_movement-confined_example =
    create_movement-confined upper clerk (move "USE" 2) shared used "acme" "p2" (row "other" 3 1)
      refl (λ e. absurd (ground (arith, eq_iff "acme" "", e))) refl refl
      (λ e. absurd (ground (arith, eq_iff "other" "acme", e)))

stocked-IsSound : IsSound stocked
unfolding get
stocked-IsSound =
    Reach-IsSound {upper = upper} {store = stocked}
      (next here (creates "p1" "l1" clerk cable refl after_creation_row))

abbrev recount : EditDto
recount = record {
  company_id = none;
  name = none;
  location_id = none;
  quantity_on_hand = some 7;
  reorder_point = none;
}

differs : ◌≢◌ {A = ℕ} 7 10
differs e = omega (arith, e)

update_part-unbalanced_example :
    (store' : Store) × (part' : Part) × (update_part clerk "p1" recount stocked ≡ ok store')
    × (get store'.parts "p1" ≡ some part')
    × (part'.quantity_on_hand ≡ 7)
    × (store'.transactions ≡ stocked.transactions)
    × (7 + total takes_out "p1" store'.transactions ≢ total puts_in "p1" store'.transactions)
unfolding get_part scope_for visible in_scope resolve_write_company check_edit get
update_part-unbalanced_example =
    update_part-unbalanced clerk "p1" "acme" recount (row "acme" 10 0) 7 stocked stocked-IsSound
      refl refl refl refl refl refl differs
