-- ===== src/Tickets.antt =====
-- The tickets module (src/modules/tickets/services/tickets.service.ts): its rows, its request
-- bodies, and the effects that its operations have outside the ticket table.
pub mod Describe
pub mod Lifecycle
pub mod Operations
pub mod Transitions
pub mod Resolution
pub mod Holds
pub mod EmptyStatus
mod Tests
use fieldserviceit_backend.Base.{ℕ, String, Bool, true, false, Option, none, some, List}

-- A row of the Ticket table (src/database/database.service.ts): the columns that the service reads or
-- writes after creation. The status and the priority may be null.
pub record Ticket : Type 0 where
  pub id : String
  pub ticket_number : String
  pub title : String
  pub description : Option String
  pub contact_name : Option String
  pub contact_email : Option String
  pub contact_phone : Option String
  pub category : Option String
  pub subcategory : Option String
  pub location : Option String
  pub status : Option String
  pub priority : Option String
  pub company_id : Option String
  pub created_by_id : String
  pub assigned_to_id : Option String
  pub on_hold_reason : Option String
  pub resolution : Option String
  pub resolved_at : Option ℕ
  pub resolved_by_id : Option String
  pub deleted_at : Option ℕ

-- A column in an update: undefined, null, or a value.
pub data Change {ℓ} (A : Type ℓ) : Type ℓ where
  keep clear : Change A
  put : A → Change A

abbrev pub change {ℓ} : {A : Type ℓ} → Change A → Option A → Option A
change keep old = old
change clear old = none
change (put a) old = some a

-- The value that a test or a default sees: neither undefined nor null.
abbrev pub given {ℓ} : {A : Type ℓ} → Change A → Option A
given keep = none
given clear = none
given (put a) = some a

-- UpdateTicketDto: every field may be undefined or null.
pub record UpdateTicketDto : Type 0 where
  pub status : Change String
  pub priority : Change String
  pub title : Change String
  pub description : Change String
  pub category : Change String
  pub subcategory : Change String
  pub location : Change String
  pub assigned_to_id : Change String
  pub on_hold_reason : Change String
  pub resolution : Change String
  pub contact_name : Change String
  pub contact_email : Change String
  pub contact_phone : Change String

abbrev pub empty_update : UpdateTicketDto
empty_update = record {
  status = keep;
  priority = keep;
  title = keep;
  description = keep;
  category = keep;
  subcategory = keep;
  location = keep;
  assigned_to_id = keep;
  on_hold_reason = keep;
  resolution = keep;
  contact_name = keep;
  contact_email = keep;
  contact_phone = keep;
}

-- A row of the User table, as far as assignment reads it.
pub record Member : Type 0 where
  pub id : String
  pub company_id : Option String
  pub role : String
  pub is_active : Bool
  pub deleted_at : Option ℕ
  pub email : Option String
  pub first_name : Option String
  pub last_name : Option String

-- A value that may be undefined, whose column is then not written.
abbrev pub from_dto {ℓ} : {A : Type ℓ} → Option A → Change A
from_dto none = keep
from_dto (some a) = put a

-- What an operation does besides the write to the ticket: the calls of the timeline, of the
-- notification and e-mail services, of the participant notifier and of the gateway, in order.
pub data Effect : Type 0 where
  timeline_entry :
      (ticket_id : String) (actor_id : Option String) (action comment : String)
      (old_value new_value : Option String)
      → Effect
  notification : (user_id company_id title : String) (body : Option String) (kind : String) → Effect
  assignee_email : (user_id action : String) → Effect
  participant_notice : (ticket_id action detail : String) (actor_id : Option String) → Effect
  gateway_update : (company_id event ticket_id : String) → Effect
