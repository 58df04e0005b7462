-- ===== src/Access.antt =====
-- The guards that a request passes before its handler (src/common/guards/): the rows and the parts
-- of a request that they read.
pub mod Tenant
pub mod Policies
pub mod Permissions
mod Networks
mod Authority
mod PermissionTests
pub mod Features
pub mod Roles
mod Isolation
mod Entitlements
mod Tests
use fieldserviceit_backend.Base.{ℕ, String, Bool, Option, List}

-- `request.user` (CurrentUser in src/common/types).
pub record User : Type 0 where
  pub id : String
  pub email : String
  pub role : String
  pub user_type : String
  pub company_id : Option String
  pub effective_company_id : Option String
  pub is_active : Bool
  pub auth_version : Option ℕ
  pub department : Option String
  pub location : Option String
  pub is_impersonating_company : Bool
  pub is_impersonating_user : Bool
  pub impersonation_session_id : Option String
  pub impersonation_actor_id : Option String
  pub impersonation_actor_email : Option String

-- A header of a request: missing, given once, or given several times.
pub data Header : Type 0 where
  missing : Header
  single : String → Header
  several : List String → Header

pub record Request : Type 0 where
  pub user : Option User
  pub company_id : Option String
  pub impersonation_session : Header
  pub company_context : Header
  pub param_company_id : Option String
  pub body_company_id : Option String

-- A row of ImpersonationSession joined with its target's row of User.
pub record ImpersonationRow : Type 0 where
  pub id : String
  pub actor_id : String
  pub ended_at : Option ℕ
  pub expires_at : ℕ
  pub target_id : String
  pub email : String
  pub role : String
  pub user_type : String
  pub company_id : Option String
  pub is_active : Bool
  pub deleted_at : Option ℕ
  pub auth_version : Option ℕ
  pub department : Option String
  pub location : Option String

pub record Company : Type 0 where
  pub id : String
  pub is_active : Bool
  pub deleted_at : Option ℕ
