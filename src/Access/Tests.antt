-- ===== src/Access/Tests.antt =====
-- The guards (src/common/guards/) at sample users, requests and plans.
use fieldserviceit_backend.Base.{
  String, ◌≡◌, ◌↔◌, ◌⊎◌, refl, true, false, Option, none, some, [], ◌∷◌, arith, eq_iff, ok, throw,
  forbidden, server_error,
}
use fieldserviceit_backend.Access.{User, missing, single, Request, ImpersonationRow}
use fieldserviceit_backend.Access.Tenant.{
  tenant_guard, get_header, is_live_session, target_user, rows_of, impersonate, select_company,
  requested_company, assign_company,
}
use fieldserviceit_backend.Access.Isolation.{IsConfined, ActsAs, tenant_guard-IsConfined}
use fieldserviceit_backend.Access.Features.{
  Stored, nothing, object, CompanyPlan, check_feature, parse_feature_map, feature_access_guard,
}
use fieldserviceit_backend.Base.Map.{get}
use fieldserviceit_backend.Access.Entitlements.{IsIncluded, IsEntitled, feature_access_guard_iff}
use fieldserviceit_backend.Access.Roles.{step_up_guard}

abbrev member : String → String → Option String → User
member id role company_id = record {
  id = id;
  email = "user@acme.test";
  role = role;
  user_type = "BUSINESS";
  company_id = company_id;
  effective_company_id = none;
  is_active = true;
  auth_version = some 1;
  department = none;
  location = none;
  is_impersonating_company = false;
  is_impersonating_user = false;
  impersonation_session_id = none;
  impersonation_actor_id = none;
  impersonation_actor_email = none;
}

abbrev session : ImpersonationRow
session = record {
  id = "s1";
  actor_id = "u1";
  ended_at = none;
  expires_at = 900;
  target_id = "u2";
  email = "user@acme.test";
  role = "END_USER";
  user_type = "BUSINESS";
  company_id = some "acme";
  is_active = true;
  deleted_at = none;
  auth_version = some 1;
  department = none;
  location = none;
}

abbrev ask : User → Request
ask user = record {
  user = some user;
  company_id = none;
  impersonation_session = single "s1";
  company_context = missing;
  param_company_id = none;
  body_company_id = some "acme";
}

abbrev impersonating : Request
impersonating = record {
  user = some (record (member "u2" "END_USER" (some "acme")) {
    is_impersonating_user = true;
    impersonation_session_id = some "s1";
    impersonation_actor_id = some "u1";
    impersonation_actor_email = some "user@acme.test";
  });
  company_id = some "acme";
  impersonation_session = single "s1";
  company_context = missing;
  param_company_id = none;
  body_company_id = some "acme";
}

tenant_guard-IsConfined_example :
    (user : User) × (impersonating.user ≡ some user)
    × ActsAs (rows_of (some (session ∷ []))) 800 (member "u1" "TENANT_ADMIN" (some "acme")) user
    × IsConfined (ask (member "u1" "TENANT_ADMIN" (some "acme"))) [] user impersonating
unfolding tenant_guard get_header is_live_session target_user impersonate select_company
    requested_company assign_company
tenant_guard-IsConfined_example =
    tenant_guard-IsConfined [] (some (session ∷ [])) 800
      (ask (member "u1" "TENANT_ADMIN" (some "acme"))) impersonating
      (member "u1" "TENANT_ADMIN" (some "acme")) refl refl

abbrev inventory : String
inventory = "inventory"

abbrev professional : Stored
professional = object (("inventory", some true) ∷ ("reports", some false) ∷ [])

abbrev switched_off : Stored
switched_off = object (("inventory", some false) ∷ [])

abbrev overdue : CompanyPlan
overdue = record {
  status = some "PAST_DUE";
  grace_period_ends_at = some 500;
  plan_features = some professional;
}

feature_access_guard_iff_example :
    (feature_access_guard (some "inventory") (some "acme") (some overdue) nothing nothing 400
      ≡ ok tt)
    ↔ ((inventory ≡ "billing")
        ⊎ (IsEntitled overdue 400 × IsIncluded "inventory" professional nothing nothing))
feature_access_guard_iff_example =
    feature_access_guard_iff "inventory" "acme" overdue professional nothing nothing 400
      (λ e. absurd (ground (arith, eq_iff "inventory" "", e)))
      (λ e. absurd (ground (arith, eq_iff "acme" "", e))) refl

-- A company that has been left without a plan loses billing when it is switched off.
switched_off_billing :
    feature_access_guard
      (some "billing")
      (some "acme")
      none
      (object (("billing", some false) ∷ []))
      nothing
      0
    ≡ throw (forbidden "This function is disabled for this account")
unfolding feature_access_guard check_feature parse_feature_map get
switched_off_billing = refl

-- A step-up check of a session that has ended fails as a fault of the server.
ended_session :
    step_up_guard true (some "s9") "u1" (some []) 5
    ≡ throw (server_error "Cannot read properties of undefined")
unfolding step_up_guard
ended_session = refl
