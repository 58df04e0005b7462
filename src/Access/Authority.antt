-- ===== src/Access/Authority.antt =====
-- Whom the guard of permissions lets pass (src/common/guards/permissions.guard.ts).
use fieldserviceit_backend.Base.{
  ℕ, String, ◌≡◌, refl, ◌∙◌, Bool, true, false, not, ◌&&◌, ◌||◌, Option, none, some, List, [], ◌∷◌,
  ◌++◌, map, arith, ltb, leb, is_none, ◌==◌, if◌then◌else◌, any, every, includes, select, Result,
  ok, throw, Bool-cases, inl, inr,
}
use fieldserviceit_backend.Access.Policies.{
  Conditions, Sender, Policy, RequestContext, ip_matches, asked, is_asked_text, within,
  context_matches, is_denied, same_owner, applies, check_policies, enforce_contextual_policies,
}
use fieldserviceit_backend.Access.Permissions.{
  RolePermission, SystemRolePermission, TemporaryPermissionGrant, PermissionTables, Principal,
  tenant_admin_default_permissions, or_no_rows, is_live_grant, role_slug_of, system_slug_of,
  grant_slug_of, find_user_role_permissions, find_system_role_permissions, temporary_grants,
  user_permission_slugs, has_all, user_guard, permissions_guard,
}

abbrev pub passes {ℓ} : {A : Type ℓ} → Result A → Bool
passes (ok a) = true
passes (throw e) = false

-- A grant gives a permission to its user from its start until before its end, unless revoked.
abbrev pub gives : ℕ → String → String → TemporaryPermissionGrant → Bool
gives now user_id slug g =
    ((g.user_id == user_id) && is_none g.revoked_at && leb g.starts_at now && ltb now g.expires_at)
    && (g.slug == slug)

-- A user holds a permission as a tenant administrator, by a role of theirs, by the system role of
-- the same name or slug, or by a grant that is neither revoked nor before its start nor over.
abbrev pub holds : (String → String) → ℕ → Principal → PermissionTables → String → Bool
holds dashed now user tables slug =
    ((user.role == "TENANT_ADMIN") && includes tenant_admin_default_permissions slug)
    || (any (λ (r : RolePermission). (r.user_id == user.id) && (r.slug == slug))
          tables.role_permissions
        || (any
              (λ (r : SystemRolePermission).
                (r.is_system && ((r.role_name == user.role) || (r.role_slug == dashed user.role)))
                && (r.slug == slug))
              (or_no_rows tables.system_role_permissions)
            || any (gives now user.id slug) (or_no_rows tables.grants)))

-- The company of a policy, if it has one, is the user's.
abbrev pub concerns : Option String → Option String → Bool
concerns own none = true
concerns none (some company_id) = false
concerns (some own) (some company_id) = own == company_id

-- What a condition asks, if it is set.
abbrev pub permits {ℓ} : {A : Type ℓ} → Option A → (A → Bool) → Bool
permits none test = true
permits (some a) test = test a

-- A request meets the conditions of a policy: its address and country are among those listed, its
-- sender is of the department and at the location, its device is trusted, its sign-in had a second
-- factor or one that resists phishing, and its hour is one of those, as far as the policy asks.
abbrev pub meets : Conditions → Sender → RequestContext → Bool
meets conditions sender context =
    permits conditions.ip_addresses (λ rules. any (λ rule. ip_matches context.ip rule) rules)
    && permits conditions.countries (λ countries. includes countries context.country)
    && permits conditions.department (λ d. (d == "") || (sender.department == d))
    && permits conditions.location (λ l. (l == "") || (sender.location == l))
    && (not conditions.trusted_device || (context.device_trust == "trusted"))
    && (not conditions.require_mfa
        || includes ("mfa" ∷ "phishing-resistant" ∷ []) context.assurance)
    && (not conditions.require_phishing_resistant || (context.assurance == "phishing-resistant"))
    && permits conditions.utc_hours (λ h. leb h.0 context.hour && ltb context.hour h.1)

permits-asked {ℓ} : {A : Type ℓ} (o : Option A) (test : A → Bool) → permits o test ≡ asked test o
permits-asked none test = refl
permits-asked (some a) test = refl

implies : (a b : Bool) → (not a || b) ≡ not (a && not b)
implies true true = refl
implies true false = refl
implies false b = refl

meets-context_matches :
    (conditions : Conditions) (sender : Sender) (context : RequestContext)
    → meets conditions sender context ≡ context_matches conditions sender context
unfolding context_matches
meets-context_matches conditions sender context =
    let address =
      permits-asked conditions.ip_addresses
        (λ rules. any (λ rule. ip_matches context.ip rule) rules) in
    let country =
      permits-asked conditions.countries (λ countries. includes countries context.country) in
    let department = permits-asked conditions.department (is_asked_text sender.department) in
    let location = permits-asked conditions.location (is_asked_text sender.location) in
    let device = implies conditions.trusted_device (context.device_trust == "trusted") in
    let factor =
      implies conditions.require_mfa
        (includes ("mfa" ∷ "phishing-resistant" ∷ []) context.assurance) in
    let resistant =
      implies conditions.require_phishing_resistant (context.assurance == "phishing-resistant") in
    let hours = permits-asked conditions.utc_hours (within context.hour) in
    λ i.
      address i
      && country i
      && department i
      && location i
      && device i
      && factor i
      && resistant i
      && hours i

-- A policy blocks where it is active, is about one of the permissions, is of all companies or the
-- user's, and denies what it matches, or allows only what it does not match.
abbrev pub blocks : List String → Principal → RequestContext → Policy → Bool
blocks required user context policy =
    (policy.is_active
      && includes required policy.target_value
      && concerns user.company_id policy.company_id)
    && ((policy.denies && meets policy.conditions user.sender context)
        || (not policy.denies && not (meets policy.conditions user.sender context)))

concerns-same_owner :
    (own company_id : Option String) → concerns own company_id ≡ same_owner own company_id
concerns-same_owner own none = refl
concerns-same_owner none (some company_id) = refl
concerns-same_owner (some own) (some company_id) = refl

blocks-applies :
    (required : List String) (user : Principal) (context : RequestContext) (policy : Policy)
    → blocks required user context policy
      ≡ (applies required user.company_id policy && is_denied user.sender context policy)
unfolding applies is_denied
blocks-applies required user context policy =
    let matches = meets-context_matches policy.conditions user.sender context in
    let denied : ((policy.denies && context_matches policy.conditions user.sender context)
          || (not policy.denies && not (context_matches policy.conditions user.sender context)))
        ≡ (if policy.denies
            then context_matches policy.conditions user.sender context
            else not (context_matches policy.conditions user.sender context)) =
      elim (Bool-cases policy.denies) [ inl e ↦ ground (arith, e) | inr e ↦ ground (arith, e) ] in
    let owned = concerns-same_owner user.company_id policy.company_id in
    rw (matches, denied, owned) refl

includes-append :
    (xs ys : List String) (s : String) → includes (xs ++ ys) s ≡ (includes xs s || includes ys s)
includes-append [] ys s = refl
includes-append (x ∷ xs) ys s = ground (arith, includes-append xs ys s)

includes-map-select {ℓ} :
    {A : Type ℓ} (f : A → String) (test : A → Bool) (xs : List A) (s : String)
    → includes (map f (select test xs)) s ≡ any (λ x. test x && (f x == s)) xs
includes-map-select f test [] s = refl
includes-map-select f test (x ∷ xs) s = ground (arith, includes-map-select f test xs s)

includes_if :
    (b : Bool) (xs : List String) (s : String)
    → includes (if b then xs else []) s ≡ (b && includes xs s)
includes_if true xs s = refl
includes_if false xs s = refl

includes-user_permission_slugs :
    (dashed : String → String) (now : ℕ) (user : Principal) (tables : PermissionTables)
    (slug : String)
    → includes (user_permission_slugs dashed now user tables) slug
      ≡ holds dashed now user tables slug
unfolding user_permission_slugs find_user_role_permissions find_system_role_permissions
    temporary_grants
includes-user_permission_slugs dashed now user tables slug =
    let defaults = if user.role == "TENANT_ADMIN" then tenant_admin_default_permissions else [] in
    let roles = map role_slug_of (find_user_role_permissions user.id tables.role_permissions) in
    let systems =
      map system_slug_of (
        find_system_role_permissions dashed user.role
          (or_no_rows tables.system_role_permissions)) in
    let granted = map grant_slug_of (temporary_grants now user.id (or_no_rows tables.grants)) in
    let by_roles =
      includes-map-select role_slug_of (λ r. r.user_id == user.id) tables.role_permissions slug in
    let by_systems =
      includes-map-select system_slug_of
        (λ r. r.is_system && ((r.role_name == user.role) || (r.role_slug == dashed user.role)))
        (or_no_rows tables.system_role_permissions) slug in
    let by_grants =
      includes-map-select grant_slug_of (is_live_grant now user.id) (or_no_rows tables.grants)
        slug in
    let by_default =
      includes_if (user.role == "TENANT_ADMIN") tenant_admin_default_permissions slug in
    includes-append defaults (roles ++ (systems ++ granted)) slug ∙ (λ i.
      by_default i
      || (includes-append roles (systems ++ granted) slug ∙ (λ j.
            by_roles j
            || (includes-append systems granted slug ∙ (λ k. by_systems k || by_grants k)) j))
          i)

has_all-every :
    (dashed : String → String) (now : ℕ) (user : Principal) (tables : PermissionTables)
    (required : List String)
    → has_all required (user_permission_slugs dashed now user tables)
      ≡ every (holds dashed now user tables) required
unfolding has_all
has_all-every dashed now user tables [] = refl
has_all-every dashed now user tables (p ∷ ps) =
    let first = includes-user_permission_slugs dashed now user tables p in
    let rest = has_all-every dashed now user tables ps in rw (first, rest) refl

passes-check :
    (required : List String) (user : Principal) (context : RequestContext) (policies : List Policy)
    → passes
        (check_policies user.sender context (select (applies required user.company_id) policies))
      ≡ every (λ p. not (blocks required user context p)) policies
unfolding check_policies
passes-check required user context [] = refl
passes-check required user context (p ∷ ps) =
    let rest = passes-check required user context ps in
    let first = blocks-applies required user context p in
    elim (Bool-cases (applies required user.company_id p)) [
      | inr e ↦ ground (arith, e, first, rest)
      | inl e ↦ elim (Bool-cases (is_denied user.sender context p)) [
        | inl d ↦ ground (arith, e, d, first, rest)
        | inr d ↦ ground (arith, e, d, first, rest)
      ]
    ]

-- A route that asks for permissions lets a user who is no super admin and no service account pass
-- exactly when they hold each of them and no contextual policy about them blocks the request. Where
-- the permissions of system roles, the temporary grants or the policies cannot be read, there are none.
pub permissions_guard-passes :
    (dashed : String → String) (now : ℕ) (p : String) (ps : List String) (user : Principal)
    (context : RequestContext) (tables : PermissionTables)
    → (user.role == "SUPER_ADMIN") ≡ false
    → user.service_account ≡ false
    → passes (permissions_guard dashed now (p ∷ ps) (some user) context tables) ≡ (
        every (holds dashed now user tables) (p ∷ ps)
        && every (λ policy. not (blocks (p ∷ ps) user context policy)) (or_no_rows tables.policies))
unfolding permissions_guard user_guard enforce_contextual_policies
permissions_guard-passes dashed now p ps user context tables tenant person =
    let slugs = has_all-every dashed now user tables (p ∷ ps) in
    let policies = passes-check (p ∷ ps) user context (or_no_rows tables.policies) in
    ground (arith, tenant, person, slugs, policies)
