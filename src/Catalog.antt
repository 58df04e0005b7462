-- ===== src/Catalog.antt =====
-- The catalogue of requests (src/modules/catalog-requests/): the rows of the tables CatalogItem and
-- CatalogRequest, and the bodies of the requests.
pub mod Requests
mod Steps
mod Lifecycle
mod Isolation
mod SelfApproval
mod Tests
use fieldserviceit_backend.Base.{ℕ, String, Bool, Option, List}
use fieldserviceit_backend.Base.Map.{Map}

pub record CatalogItem : Type 0 where
  pub id : String
  pub company_id : Option String
  pub is_active : Bool
  pub request_type : String
  pub name : String
  pub description : Option String
  pub default_priority : Option String

-- A row of CatalogRequest, whose key is its id.
pub record CatalogRequest : Type 0 where
  pub catalog_item_id : Option String
  pub company_id : Option String
  pub created_by_id : String
  pub request_type : String
  pub title : String
  pub description : Option String
  pub status : String
  pub priority : String
  pub item_name : Option String
  pub quantity : Option ℕ
  pub justification : Option String
  pub notes : Option String
  pub approved_by_id : Option String
  pub approved_at : Option ℕ
  pub rejection_reason : Option String
  pub fulfilled_at : Option ℕ
  pub updated_at : ℕ

pub record CatalogStore : Type 0 where
  pub items : List CatalogItem
  pub requests : Map CatalogRequest

-- CreateCatalogRequestDto.
pub record CreateDto : Type 0 where
  pub catalog_item_id : Option String
  pub request_type : Option String
  pub title : Option String
  pub description : Option String
  pub item_name : Option String
  pub quantity : Option ℕ
  pub justification : Option String
  pub priority : Option String

-- UpdateCatalogRequestDto: all that a creation takes, and more.
pub record UpdateDto : Type 0 where
  pub fields : CreateDto
  pub status : Option String
  pub notes : Option String
  pub rejection_reason : Option String
