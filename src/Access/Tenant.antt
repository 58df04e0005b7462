-- ===== src/Access/Tenant.antt =====
-- TenantGuard (src/common/guards/tenant.guard.ts).
use fieldserviceit_backend.Base.{
  ℕ, String, Bool, true, false, not, ◌&&◌, ◌||◌, Option, none, some, List, [], ◌∷◌, ◌==◌,
  if◌then◌else◌, ltb, find, is_none, includes, truthy, or_else, same_text, Result, ok, throw,
  forbidden, ◌>>=◌,
}
use fieldserviceit_backend.Access.{
  User, Header, missing, single, several, Request, ImpersonationRow, Company,
}

abbrev first_text : List String → Option String
first_text [] = none
first_text (x ∷ xs) = if x == "" then none else some x

unfoldable pub get_header : Header → Option String
get_header missing = none
get_header (single x) = if x == "" then none else some x
get_header (several xs) = first_text xs

-- The WHERE clause of the query for a session.
unfoldable pub is_live_session : String → String → ℕ → ImpersonationRow → Bool
is_live_session session_id actor_id now row =
    row.id == session_id
    && row.actor_id == actor_id
    && is_none row.ended_at
    && ltb now row.expires_at
    && row.is_active
    && is_none row.deleted_at

unfoldable pub target_user : User → ImpersonationRow → User
target_user actor session = record {
  id = session.target_id;
  email = session.email;
  role = session.role;
  user_type = session.user_type;
  company_id = session.company_id;
  effective_company_id = none;
  is_active = session.is_active;
  auth_version = session.auth_version;
  department = session.department;
  location = session.location;
  is_impersonating_company = false;
  is_impersonating_user = true;
  impersonation_session_id = some session.id;
  impersonation_actor_id = some actor.id;
  impersonation_actor_email = some actor.email;
}

abbrev pub rows_of : Option (List ImpersonationRow) → List ImpersonationRow
rows_of none = []
rows_of (some rows) = rows

-- The first half of `canActivate`: the user whom the request acts for. `none` for the rows stands
-- for a query that failed.
unfoldable pub impersonate : Request → User → Option (List ImpersonationRow) → ℕ → Result User
impersonate req user sessions now =
    let header = get_header req.impersonation_session in
    if truthy header && includes ("SUPER_ADMIN" ∷ "TENANT_ADMIN" ∷ []) user.role
    then elim (find (is_live_session (or_else header "") user.id now) (rows_of sessions)) [
      | none ↦ throw (forbidden "Impersonation session is invalid or expired")
      | some session ↦ ok (target_user user session)
    ]
    else ok user

unfoldable pub is_available : String → Company → Bool
is_available id company = company.id == id && is_none company.deleted_at && company.is_active

-- The user of a request that has selected a company.
abbrev pub within_company : User → Company → User
within_company user company = record user {
  company_id = some company.id;
  effective_company_id = some company.id;
  is_impersonating_company = true;
}

unfoldable pub select_company : Request → User → List Company → Result Request
select_company req user companies =
    let context = get_header req.company_context in
    if user.role == "GLOBAL_TECH"
    then ok (record req { user = some user; company_id = none })
    else if not (truthy context)
    then ok (record req { user = some user; company_id = none })
    else elim (find (is_available (or_else context "")) companies) [
      | none ↦ throw (forbidden "Selected company context is not available")
      | some company ↦
          ok
            (record req { company_id = some company.id; user = some (within_company user company) })
    ]

-- `request.params?.companyId || request.body?.companyId`.
unfoldable pub requested_company : Request → Option String
requested_company req =
    if truthy req.param_company_id then req.param_company_id else req.body_company_id

-- The second half of `canActivate`.
unfoldable pub assign_company : Request → List Company → User → Result Request
assign_company req companies user =
    if user.role == "SUPER_ADMIN" || user.role == "GLOBAL_TECH"
    then select_company req user companies
    else if user.user_type == "PUBLIC"
    then ok (record req { user = some user; company_id = none })
    else if not (truthy user.company_id)
    then throw (forbidden "No company context available")
    else if truthy (requested_company req)
        && not (same_text (requested_company req) user.company_id)
    then throw (forbidden "Cross-tenant access denied")
    else ok (record req { user = some user; company_id = user.company_id })

-- `canActivate`: the request with which the handler runs.
unfoldable pub tenant_guard :
    Bool → List Company → Option (List ImpersonationRow) → ℕ → Request → Result Request
tenant_guard is_public companies sessions now req = if is_public then ok req else elim req.user [
  | none ↦ throw (forbidden "Authentication required")
  | some user ↦ impersonate req user sessions now >>= assign_company req companies
]
