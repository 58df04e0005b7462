-- ===== src/Access/Permissions.antt =====
-- PermissionsGuard without its contextual policies (src/common/guards/permissions.guard.ts), the
-- queries of AuthorizationRepository (src/database/repositories/authorization.repository.ts) and the
-- permissions of a tenant administrator (src/common/authorization/tenant-admin-defaults.ts).
use fieldserviceit_backend.Base.{
  ℕ, String, Bool, false, ◌&&◌, ◌||◌, Option, none, some, List, [], ◌∷◌, ◌++◌, ◌==◌, map,
  if◌then◌else◌, ltb, leb, is_none, is_text, every, includes, select, Result, ok, throw, forbidden,
  ensure, ◌>>◌,
}
use fieldserviceit_backend.Access.Policies.{
  Policy, Sender, RequestContext, enforce_contextual_policies,
}

abbrev pub tenant_admin_default_permissions : List String
tenant_admin_default_permissions =
    "access-requests.create" ∷ "access-requests.manage" ∷ "ai-agent.use" ∷ "assets.create"
    ∷ "assets.delete" ∷ "assets.edit" ∷ "assets.export" ∷ "assets.view" ∷ "audit-logs.view"
    ∷ "authorization-tests.manage" ∷ "billing.approve" ∷ "billing.create" ∷ "billing.edit"
    ∷ "billing.export" ∷ "billing.manage" ∷ "billing.sensitive.view" ∷ "billing.view"
    ∷ "catalog.create" ∷ "catalog.manage" ∷ "catalog.view" ∷ "companies.view"
    ∷ "contextual-access.manage" ∷ "dispatch.create" ∷ "dispatch.edit" ∷ "dispatch.view"
    ∷ "email-operations.manage" ∷ "email-operations.view" ∷ "inventory.manage" ∷ "inventory.view"
    ∷ "invoices.approve" ∷ "invoices.create" ∷ "invoices.edit" ∷ "invoices.export" ∷ "invoices.view"
    ∷ "knowledge-base.manage" ∷ "knowledge-base.view" ∷ "maintenance.manage" ∷ "maintenance.view"
    ∷ "network.actions.run" ∷ "network.config.manage" ∷ "network.credentials.manage"
    ∷ "network.credentials.view" ∷ "network.monitoring.view" ∷ "operations.manage"
    ∷ "operations.view" ∷ "patches.deploy" ∷ "patches.manage" ∷ "patches.view"
    ∷ "permissions.governance.manage" ∷ "permissions.governance.view" ∷ "platform-security.manage"
    ∷ "platform-security.view" ∷ "policy-bundles.manage" ∷ "quotes.approve" ∷ "quotes.create"
    ∷ "quotes.edit" ∷ "quotes.export" ∷ "quotes.view" ∷ "remote-access.launch"
    ∷ "remote-access.manage" ∷ "remote-access.view" ∷ "reports.export" ∷ "reports.view"
    ∷ "roles.manage" ∷ "roles.view" ∷ "security-center.manage" ∷ "security-center.view"
    ∷ "settings.manage" ∷ "settings.view" ∷ "tickets.approve" ∷ "tickets.create" ∷ "tickets.delete"
    ∷ "tickets.edit" ∷ "tickets.export" ∷ "tickets.sensitive.view" ∷ "tickets.view"
    ∷ "topology.manage" ∷ "topology.view" ∷ "users.create" ∷ "users.delete" ∷ "users.manage"
    ∷ "users.view" ∷ "workflows.manage" ∷ "workflows.view" ∷ []

-- A permission of a role of a user, and one of a system role.
pub record RolePermission : Type 0 where
  pub user_id : String
  pub role_id : String
  pub slug : String

pub record SystemRolePermission : Type 0 where
  pub role_id : String
  pub is_system : Bool
  pub role_name : String
  pub role_slug : String
  pub slug : String

pub record TemporaryPermissionGrant : Type 0 where
  pub user_id : String
  pub slug : String
  pub starts_at : ℕ
  pub expires_at : ℕ
  pub revoked_at : Option ℕ

pub record PermissionScope : Type 0 where
  pub permission_slug : String
  pub scope_type : String
  pub scope_values : String
  pub role_id : Option String
  pub user_id : Option String
  pub company_id : Option String

-- What the queries see; `none` where a query fails that the guard catches.
pub record PermissionTables : Type 0 where
  pub role_permissions : List RolePermission
  pub system_role_permissions : Option (List SystemRolePermission)
  pub grants : Option (List TemporaryPermissionGrant)
  pub scopes : Option (List PermissionScope)
  pub policies : Option (List Policy)

-- `request.user`; a service account brings its slugs and scopes with it.
pub record Principal : Type 0 where
  pub id : String
  pub role : String
  pub company_id : Option String
  pub service_account : Bool
  pub permission_slugs : List String
  pub permission_scopes : List PermissionScope
  pub sender : Sender

-- What the guard leaves on the request, and the slugs whose use it records.
pub record Granted : Type 0 where
  pub permission_slugs : List String
  pub permission_scopes : List PermissionScope
  pub used : List String

abbrev pub or_no_rows {ℓ} : {A : Type ℓ} → Option (List A) → List A
or_no_rows none = []
or_no_rows (some rows) = rows

abbrev pub role_slug_of : RolePermission → String
role_slug_of r = r.slug

abbrev pub system_slug_of : SystemRolePermission → String
system_slug_of r = r.slug

abbrev pub grant_slug_of : TemporaryPermissionGrant → String
grant_slug_of g = g.slug

unfoldable pub find_user_role_permissions : String → List RolePermission → List RolePermission
find_user_role_permissions user_id rows = select (λ r. r.user_id == user_id) rows

-- `dashed` stands for toLowerCase and the replacement of underscores by dashes.
unfoldable pub find_system_role_permissions :
    (String → String) → String → List SystemRolePermission → List SystemRolePermission
find_system_role_permissions dashed role rows =
    select (λ r. r.is_system && ((r.role_name == role) || (r.role_slug == dashed role))) rows

abbrev pub is_live_grant : ℕ → String → TemporaryPermissionGrant → Bool
is_live_grant now user_id g =
    (g.user_id == user_id) && is_none g.revoked_at && leb g.starts_at now && ltb now g.expires_at

unfoldable pub temporary_grants :
    ℕ → String → List TemporaryPermissionGrant → List TemporaryPermissionGrant
temporary_grants now user_id rows = select (is_live_grant now user_id) rows

-- The slugs that a user has, from all sources.
unfoldable pub user_permission_slugs :
    (String → String) → ℕ → Principal → PermissionTables → List String
user_permission_slugs dashed now user tables =
    (if user.role == "TENANT_ADMIN" then tenant_admin_default_permissions else [])
    ++ (map role_slug_of (find_user_role_permissions user.id tables.role_permissions)
        ++ (map system_slug_of (
              find_system_role_permissions dashed user.role
                (or_no_rows tables.system_role_permissions))
            ++ map grant_slug_of (temporary_grants now user.id (or_no_rows tables.grants))))

abbrev pub role_id_of : RolePermission → String
role_id_of r = r.role_id

abbrev pub system_role_id_of : SystemRolePermission → String
system_role_id_of r = r.role_id

unfoldable pub effective_role_ids : (String → String) → Principal → PermissionTables → List String
effective_role_ids dashed user tables =
    map role_id_of (find_user_role_permissions user.id tables.role_permissions)
    ++ map system_role_id_of
        (find_system_role_permissions dashed user.role (or_no_rows tables.system_role_permissions))

-- `companyId = ?` with null for no company, which equals nothing.
abbrev pub same_company : Option String → Option String → Bool
same_company none own = false
same_company (some s) own = is_text own s

abbrev pub is_one_of : List String → Option String → Bool
is_one_of xs none = false
is_one_of xs (some s) = includes xs s

unfoldable pub permission_scopes :
    List String → Principal → List PermissionScope → List PermissionScope
permission_scopes role_ids user rows =
    select
      (λ s.
        (is_text s.user_id user.id || is_one_of role_ids s.role_id)
        && (is_none s.company_id || same_company s.company_id user.company_id))
      rows

unfoldable pub has_all : List String → List String → Bool
has_all required slugs = every (λ p. includes slugs p) required

unfoldable pub service_account_guard : List String → Principal → Result Granted
service_account_guard required user =
    ensure (has_all required user.permission_slugs) (forbidden "Insufficient permissions")
    >> ok (record {
      permission_slugs = user.permission_slugs;
      permission_scopes = user.permission_scopes;
      used = required;
    })

unfoldable pub user_guard :
    (String → String)
    → ℕ
    → List String
    → Principal
    → RequestContext
    → PermissionTables
    → Result Granted
user_guard dashed now required user context tables =
    let slugs = user_permission_slugs dashed now user tables in
    ensure (has_all required slugs) (forbidden "Insufficient permissions")
    >> enforce_contextual_policies required user.company_id user.sender context
        (or_no_rows tables.policies)
    >> ok (record {
      permission_slugs = slugs;
      permission_scopes =
          permission_scopes (effective_role_ids dashed user tables) user (or_no_rows tables.scopes);
      used = required;
    })

unfoldable pub permissions_guard :
    (String → String)
    → ℕ
    → List String
    → Option Principal
    → RequestContext
    → PermissionTables
    → Result Granted
permissions_guard dashed now [] user context tables =
    ok (record { permission_slugs = []; permission_scopes = []; used = [] })
permissions_guard dashed now (p ∷ ps) none context tables =
    throw (forbidden "Authentication required")
permissions_guard dashed now (p ∷ ps) (some user) context tables =
    if user.role == "SUPER_ADMIN"
    then ok (record {
      permission_slugs = user.permission_slugs;
      permission_scopes = user.permission_scopes;
      used = p ∷ ps;
    })
    else if user.service_account
    then service_account_guard (p ∷ ps) user
    else user_guard dashed now (p ∷ ps) user context tables
