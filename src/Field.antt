-- ===== src/Field.antt =====
-- Field visits (src/modules/field-service/services/field-service.service.ts): the rows that the
-- service reads and writes.
pub mod Visits
mod Writes
mod Progress
mod Tests
use fieldserviceit_backend.Base.{ℕ, String, Bool, Option, List}
use fieldserviceit_backend.Base.Map.{Map}

-- A row of Dispatch, whose key is its id; the photos are given parsed.
pub record Dispatch : Type 0 where
  pub ticket_id : String
  pub technician_id : String
  pub company_id : String
  pub status : String
  pub notes : Option String
  pub customer_signature : Option String
  pub photo_urls : List String
  pub arrived_at : Option ℕ
  pub completed_at : Option ℕ

-- What the service reads of a ticket and of a user, whose keys are their ids.
pub record VisitedTicket : Type 0 where
  pub company_id : Option String

pub record Staff : Type 0 where
  pub company_id : Option String
  pub role : String
  pub is_active : Bool
  pub deleted_at : Option ℕ

-- `sent` are the ids of the tickets whose participants were notified, the latest first.
pub record FieldStore : Type 0 where
  pub tickets : Map VisitedTicket
  pub staff : Map Staff
  pub dispatches : Map Dispatch
  pub sent : List String
