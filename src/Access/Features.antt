-- ===== src/Access/Features.antt =====
-- The features of an account (src/common/authorization/feature-entitlements.ts) and
-- FeatureAccessGuard (src/common/guards/feature-access.guard.ts). A JSON value is given parsed; the texts of
-- the refusals do not name the feature.
use fieldserviceit_backend.Base.{
  ℕ, String, Bool, true, false, not, ◌&&◌, ◌||◌, Option, none, some, List, [], ◌∷◌, ◌++◌, map, ◌==◌,
  if◌then◌else◌, ltb, includes, truthy, or_else, Result, ok, forbidden, ensure, ◌>>◌,
}
use fieldserviceit_backend.Base.Map.{Map, get, set}

-- A stored value: missing, null or unreadable; an object, whose values are `none` where they are
-- not of type boolean; or a value of another type.
pub data Stored : Type 0 where
  nothing : Stored
  object : Map (Option Bool) → Stored
  other : Stored

abbrev pub FeatureMap : Type 0
FeatureMap = Map Bool

abbrev pub always_available_features : List String
always_available_features = "billing" ∷ []

abbrev pub booleans : Map (Option Bool) → FeatureMap
booleans [] = []
booleans ((k, none) ∷ m) = booleans m
booleans ((k, some b) ∷ m) = (k, b) ∷ booleans m

unfoldable pub parse_feature_map : Stored → FeatureMap
parse_feature_map nothing = []
parse_feature_map (object m) = booleans m
parse_feature_map other = []

abbrev pub is_false : Option Bool → Bool
is_false none = false
is_false (some b) = not b

abbrev pub is_true : Option Bool → Bool
is_true none = false
is_true (some b) = b

abbrev pub keys : FeatureMap → List String
keys m = map (λ e. e.0) m

-- The body of the loop for one feature.
unfoldable pub resolve_feature : FeatureMap → FeatureMap → FeatureMap → String → Bool
resolve_feature plan company user feature =
    if includes always_available_features feature
    then true
    else is_true (get plan feature)
      && not (is_false (get company feature))
      && not (is_false (get user feature))

-- The loop over the features, a repeated one being set again to the same value.
unfoldable pub resolve_features : (String → Bool) → List String → FeatureMap → FeatureMap
resolve_features decide [] resolved = resolved
resolve_features decide (feature ∷ features) resolved =
    resolve_features decide features (set resolved feature (decide feature))

unfoldable pub resolve_feature_map : Stored → Stored → Stored → List String → FeatureMap
resolve_feature_map plan_features company_overrides user_overrides known_features =
    let plan = parse_feature_map plan_features in
    let company = parse_feature_map company_overrides in
    let user = parse_feature_map user_overrides in
    resolve_features (resolve_feature plan company user)
      (known_features ++ (keys plan ++ (keys company ++ keys user))) []

unfoldable pub is_feature_enabled : String → Stored → Stored → Stored → Bool
is_feature_enabled feature plan_features company_overrides user_overrides = is_true (
    get (resolve_feature_map plan_features company_overrides user_overrides (feature ∷ [])) feature)

-- A row of CompanyPlan with the features of its plan, if it has one. A status is in upper case.
pub record CompanyPlan : Type 0 where
  pub status : Option String
  pub grace_period_ends_at : Option ℕ
  pub plan_features : Option Stored

unfoldable pub is_entitled : CompanyPlan → ℕ → Bool
is_entitled plan now =
    let status = or_else plan.status "ACTIVE" in
    includes ("ACTIVE" ∷ "TRIALING" ∷ []) status
    || (status == "PAST_DUE" && ltb now (elim plan.grace_period_ends_at [ none ↦ 0 | some t ↦ t ]))

abbrev stored_flag : Stored → String → Option Bool
stored_flag nothing feature = none
stored_flag (object m) feature = elim (get m feature) [ none ↦ none | some b ↦ b ]
stored_flag other feature = none

-- The checks of `canActivate` for a feature, of a user of a company.
unfoldable pub check_feature : String → Option CompanyPlan → Stored → Stored → ℕ → Result (Unit {0})
check_feature feature none company user now =
    ensure
      (not
        (is_false (get (parse_feature_map user) feature) || is_false (stored_flag company feature)))
      (forbidden "This function is disabled for this account")
check_feature feature (some plan) company user now =
    ensure (is_entitled plan now || feature == "billing")
      (forbidden "Billing access is required to continue using this function")
    >> elim plan.plan_features [
      | none ↦
          ensure
            (not (
              is_false (get (parse_feature_map user) feature)
              || is_false (stored_flag company feature)))
            (forbidden "This function is disabled for this account")
      | some features ↦
          ensure (is_feature_enabled feature features company user)
            (forbidden "This function is not included or is disabled for this account")
    ]

-- `canActivate`: a route without a feature, and a user without a company, pass.
unfoldable pub feature_access_guard :
    Option String → Option String → Option CompanyPlan → Stored → Stored → ℕ → Result (Unit {0})
feature_access_guard feature company_id plan company user now = elim feature [
  | none ↦ ok tt
  | some f ↦
      if f == "" || not (truthy company_id) then ok tt else check_feature f plan company user now
]
