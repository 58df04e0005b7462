-- ===== src/Access/PermissionTests.antt =====
-- A small set of tables on which the properties of the guard of permissions apply.
use fieldserviceit_backend.Base.{
  ◌-◌, String, ◌≡◌, ◌↔◌, refl, true, false, not, ◌&&◌, none, some, [], ◌∷◌, arith, every,
}
use fieldserviceit_backend.Access.Policies.{
  Address, cidr, Policy, RequestContext, to_number, mask, ip_matches, context_matches,
}
use fieldserviceit_backend.Access.Permissions.{
  PermissionTables, Principal, permissions_guard, or_no_rows,
}
use fieldserviceit_backend.Access.Networks.{without_bits, ip_matches_iff}
use fieldserviceit_backend.Access.Authority.{passes, holds, blocks, permissions_guard-passes}

abbrev office : Address
office = record { text = "10.0.7.9"; octets = 10 ∷ 0 ∷ 7 ∷ 9 ∷ [] }

ip_matches_iff_example : (ip_matches office (cidr (10 ∷ 0 ∷ 4 ∷ 0 ∷ []) 22) ≡ true) ↔ (
    without_bits (32 - 22) (to_number 0 (10 ∷ 0 ∷ 7 ∷ 9 ∷ []))
    ≡ without_bits (32 - 22) (to_number 0 (10 ∷ 0 ∷ 4 ∷ 0 ∷ [])))
ip_matches_iff_example = ip_matches_iff office (10 ∷ 0 ∷ 4 ∷ 0 ∷ []) 22 (omega arith)

office_matches : ip_matches office (cidr (10 ∷ 0 ∷ 4 ∷ 0 ∷ []) 22) ≡ true
unfolding to_number
office_matches = (ip_matches_iff office (10 ∷ 0 ∷ 4 ∷ 0 ∷ []) 22 (omega arith)).1 refl

abbrev dashed : String → String
dashed s = s

abbrev ana : Principal
ana = record {
  id = "ana";
  role = "TECHNICIAN";
  company_id = some "c1";
  service_account = false;
  permission_slugs = [];
  permission_scopes = [];
  sender = record { department = "it"; location = "lyon" };
}

abbrev office_only : Policy
office_only = record {
  name = "office";
  is_active = true;
  target_value = "assets.delete";
  company_id = some "c1";
  denies = false;
  conditions = record {
    ip_addresses = some (cidr (10 ∷ 0 ∷ 4 ∷ 0 ∷ []) 22 ∷ []);
    countries = none;
    department = none;
    location = none;
    trusted_device = false;
    require_mfa = true;
    require_phishing_resistant = false;
    utc_hours = some (8, 18);
  };
}

abbrev tables : PermissionTables
tables = record {
  role_permissions = record { user_id = "ana"; role_id = "r1"; slug = "assets.view" } ∷ [];
  system_role_permissions = none;
  grants = some (
      record {
        user_id = "ana";
        slug = "assets.delete";
        starts_at = 10;
        expires_at = 20;
        revoked_at = none;
      }
      ∷ []);
  scopes = none;
  policies = some (office_only ∷ []);
}

abbrev morning : RequestContext
morning = record { ip = office; country = "FR"; assurance = "mfa"; device_trust = ""; hour = 9 }

permissions_guard-passes_example :
    passes (permissions_guard dashed 15 ("assets.delete" ∷ []) (some ana) morning tables) ≡ (
      every (holds dashed 15 ana tables) ("assets.delete" ∷ [])
      && every
          (λ policy. not (blocks ("assets.delete" ∷ []) ana morning policy))
          (or_no_rows tables.policies))
permissions_guard-passes_example =
    permissions_guard-passes dashed 15 "assets.delete" [] ana morning tables refl refl

held_and_allowed :
    (every (holds dashed 15 ana tables) ("assets.delete" ∷ [])
      && every
          (λ policy. not (blocks ("assets.delete" ∷ []) ana morning policy))
          (or_no_rows tables.policies))
    ≡ true
unfolding context_matches ip_matches to_number mask
held_and_allowed = refl
