-- ===== src/Inventory.antt =====
-- Stock keeping (src/modules/inventory/inventory.service.ts). Quantities are DECIMAL(12,2) columns,
-- counted in hundredths. Columns that no rule reads are left out,
-- and a row's key is its id. Texts of a request body are given trimmed, numbers parsed and not
-- negative; `upper` stands for toUpperCase.
pub mod Stock
pub mod Edits
mod Ledger
mod Unlogged
mod Histories
mod Scope
mod Tests
use fieldserviceit_backend.Base.{ℕ, String, Option, List}
use fieldserviceit_backend.Base.Map.{Map}

pub record Part : Type 0 where
  pub company_id : String
  pub name : String
  pub location_id : Option String
  pub quantity_on_hand : ℕ
  pub quantity_reserved : ℕ
  pub reorder_point : ℕ

pub record Location : Type 0 where
  pub company_id : String
  pub location_type : String
  pub name : String

pub record Transaction : Type 0 where
  pub company_id : String
  pub part_id : String
  pub location_id : Option String
  pub movement_type : String
  pub quantity : ℕ
  pub ticket_id : Option String
  pub actor_id : String

-- The three tables; the latest transaction is the first.
pub record Store : Type 0 where
  pub parts : Map Part
  pub locations : Map Location
  pub transactions : List Transaction

-- The body of a new part.
pub record PartDto : Type 0 where
  pub company_id : Option String
  pub name : Option String
  pub location_id : Option String
  pub quantity_on_hand : ℕ
  pub reorder_point : ℕ

-- The body of a movement; `movement_type` is `dto.movementType || dto.type`.
pub record MovementDto : Type 0 where
  pub part_id : String
  pub movement_type : Option String
  pub quantity : ℕ
  pub location_id : Option String
  pub ticket_id : Option String
