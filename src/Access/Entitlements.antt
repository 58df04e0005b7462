-- ===== src/Access/Entitlements.antt =====
-- Which features an account has (src/common/authorization/feature-entitlements.ts,
-- src/common/guards/feature-access.guard.ts).
use fieldserviceit_backend.Base.{
  ℕ, ◌<◌, String, ◌≡◌, ◌≢◌, ◌⊎◌, ◌↔◌, refl, sym, ap, ◌∙◌, Bool, true, false, ◌||◌, Option, none,
  some, List, [], ◌∷◌, ◌++◌, arith, ◌==◌, eq_iff, eq_refl, if◌then◌else◌, lt→ltb, ltb→lt, includes,
  ok, ensure, ensure-eq-ok, >>-eq-ok, Bool-cases, Option-cases, inl, inr,
}
use fieldserviceit_backend.Base.Map.{get, set, get-set}
use fieldserviceit_backend.Access.Features.{
  Stored, FeatureMap, parse_feature_map, is_false, is_true, keys, resolve_feature, resolve_features,
  resolve_feature_map, is_feature_enabled, CompanyPlan, is_entitled, check_feature,
  feature_access_guard,
}

get-resolve_features :
    (decide : String → Bool) (features : List String) (resolved : FeatureMap) (f : String)
    → get (resolve_features decide features resolved) f
      ≡ (if includes features f then some (decide f) else get resolved f)
unfolding resolve_features
get-resolve_features decide [] resolved f = refl
get-resolve_features decide (g ∷ features) resolved f =
    let later = get-resolve_features decide features (set resolved g (decide g)) f in
    let stored = get-set resolved g f (decide g) in
    elim (Bool-cases (g == f)) [
      | inl e ↦ let same = ap decide ((eq_iff g f).0 e) in ground (arith, later, stored, e, same)
      | inr e ↦ ground (arith, later, stored, e)
    ]

is_true_iff : (o : Option Bool) → (is_true o ≡ true) ↔ (o ≡ some true)
is_true_iff none = (λ h. cc, λ h. cc)
is_true_iff (some b) = (λ h. ap (λ c. some c) h, λ h. cc)

is_false_iff : (o : Option Bool) → (is_false o ≡ false) ↔ (o ≢ some false)
is_false_iff none = (λ h e. absurd (cc), λ h. refl)
is_false_iff (some true) = (λ h e. absurd (cc), λ h. refl)
is_false_iff (some false) = (λ h. absurd (cc), λ h. absurd (h refl))

-- The feature is in the plan, and neither the company nor the user has switched it off.
abbrev pub IsIncluded : String → Stored → Stored → Stored → Type 0
IsIncluded feature plan company user =
    (get (parse_feature_map plan) feature ≡ some true)
    × (get (parse_feature_map company) feature ≢ some false)
    × (get (parse_feature_map user) feature ≢ some false)

resolve_feature_iff :
    (plan company user : FeatureMap) (feature : String)
    → (resolve_feature plan company user feature ≡ true) ↔ (
        (feature ≡ "billing")
        ⊎ ((get plan feature ≡ some true)
            × (get company feature ≢ some false)
            × (get user feature ≢ some false)))
unfolding resolve_feature
resolve_feature_iff plan company user feature = (
  λ h. elim (Bool-cases ("billing" == feature)) [
    | inl e ↦ inl (sym ((eq_iff "billing" feature).0 e))
    | inr e ↦ inr (
      (is_true_iff (get plan feature)).0 (ground (arith, e)),
      (is_false_iff (get company feature)).0 (ground (arith, e)),
      (is_false_iff (get user feature)).0 (ground (arith, e)),
    )
  ],
  λ h. elim h [
    | inl e ↦ ground (arith, eq_iff "billing" feature, e)
    | inr (p, c, u) ↦ ground (
      arith,
      (is_true_iff (get plan feature)).1 p,
      (is_false_iff (get company feature)).1 c,
      (is_false_iff (get user feature)).1 u,
    )
  ],
)

is_feature_enabled-eq :
    (feature : String) (plan company user : Stored)
    → is_feature_enabled feature plan company user
      ≡ resolve_feature
          (parse_feature_map plan)
          (parse_feature_map company)
          (parse_feature_map user)
          feature
unfolding is_feature_enabled resolve_feature_map
is_feature_enabled-eq feature plan company user =
    let p = parse_feature_map plan in
    let c = parse_feature_map company in
    let u = parse_feature_map user in
    ground (
      arith,
      get-resolve_features (resolve_feature p c u)
          ((feature ∷ []) ++ (keys p ++ (keys c ++ keys u))) [] feature,
      eq_refl feature,
    )

-- A feature is enabled exactly when it is always available, or the plan includes it and neither
-- the company nor the user has switched it off.
pub is_feature_enabled_iff :
    (feature : String) (plan company user : Stored)
    → (is_feature_enabled feature plan company user ≡ true)
      ↔ ((feature ≡ "billing") ⊎ IsIncluded feature plan company user)
is_feature_enabled_iff feature plan company user =
    rw (is_feature_enabled-eq feature plan company user) (
      resolve_feature_iff (parse_feature_map plan) (parse_feature_map company)
        (parse_feature_map user) feature)

-- A plan pays for access while it has no status or the empty one, is active or on trial, and when it
-- is past due until its grace period ends.
abbrev pub IsEntitled : CompanyPlan → ℕ → Type 0
IsEntitled plan now =
    ((plan.status ≡ none) ⊎ (plan.status ≡ some ""))
    ⊎ (plan.status ≡ some "ACTIVE")
    ⊎ (plan.status ≡ some "TRIALING")
    ⊎ ((plan.status ≡ some "PAST_DUE")
        × ((t : ℕ) × (plan.grace_period_ends_at ≡ some t) × (now < t)))

IsEntitled-status :
    (plan : CompanyPlan) (now : ℕ) (status : String)
    → plan.status ≡ some status
    → (status == "") ≡ false
    → is_entitled plan now ≡ true
    → IsEntitled plan now
unfolding is_entitled
IsEntitled-status plan now status known real h =
    let named = λ (s : String) (e : status ≡ s). known ∙ ap (λ x. some x) e in
    elim (Bool-cases ("ACTIVE" == status)) [
      | inl e ↦ inr (inl (named "ACTIVE" (sym ((eq_iff "ACTIVE" status).0 e))))
      | inr e ↦ elim (Bool-cases ("TRIALING" == status)) [
        | inl e' ↦ inr (inr (inl (named "TRIALING" (sym ((eq_iff "TRIALING" status).0 e')))))
        | inr e' ↦ elim (Option-cases plan.grace_period_ends_at) [
          | inl none_set ↦ absurd (ground (arith, known, real, e, e', none_set, ltb→lt now 0))
          | inr (t, ends) ↦ inr (
              inr (
                inr (
                  named "PAST_DUE"
                      ((eq_iff status "PAST_DUE").0 (ground (arith, known, real, e, e'))),
                  (t, ends, ltb→lt now t (ground (arith, known, real, e, e', ends))),
                )))
        ]
      ]
    ]

is_entitled_iff :
    (plan : CompanyPlan) (now : ℕ) → (is_entitled plan now ≡ true) ↔ IsEntitled plan now
unfolding is_entitled
is_entitled_iff plan now = (
  λ h. elim (Option-cases plan.status) [
    | inl e ↦ inl (inl e)
    | inr (status, e) ↦ elim (Bool-cases (status == "")) [
      | inl empty ↦ inl (inr (e ∙ ap (λ x. some x) ((eq_iff status "").0 empty)))
      | inr real ↦ IsEntitled-status plan now status e real h
    ]
  ],
  λ h. elim h [
    | inl (inl e) ↦ rw e refl
    | inl (inr e) ↦ rw e refl
    | inr (inl e) ↦ rw e refl
    | inr (inr (inl e)) ↦ rw e refl
    | inr (inr (inr (e, (t, ends, soon)))) ↦ rw (e, ends, lt→ltb now t soon) refl
  ],
)

-- A user of a company that has a plan with features reaches the function of a feature exactly when
-- it is billing, or the plan pays for access and includes the feature and neither the company nor
-- the user has switched it off.
pub feature_access_guard_iff :
    (feature company_id : String) (plan : CompanyPlan) (features company user : Stored) (now : ℕ)
    → feature ≢ ""
    → company_id ≢ ""
    → plan.plan_features ≡ some features
    → (feature_access_guard (some feature) (some company_id) (some plan) company user now ≡ ok tt)
      ↔ ((feature ≡ "billing") ⊎ (IsEntitled plan now × IsIncluded feature features company user))
unfolding feature_access_guard check_feature is_entitled
feature_access_guard_iff feature company_id plan features company user now real home planned =
    let (in_plan, from_plan) = is_feature_enabled_iff feature features company user in
    let (paid, from_paid) = is_entitled_iff plan now in
    let asked : (feature == "") ≡ false = ground (arith, eq_iff feature "") in
    let known : (company_id == "") ≡ false = ground (arith, eq_iff company_id "") in
    (
      λ h.
          let (entitled, included) =
            >>-eq-ok (ensure (is_entitled plan now || feature == "billing") _) _
              (rw (asked, known, planned) at h) in
          elim (Bool-cases (feature == "billing")) [
            | inl e ↦ inl ((eq_iff feature "billing").0 e)
            | inr e ↦ elim (in_plan (ensure-eq-ok _ _ included)) [
              | inl billing ↦ inl billing
              | inr features_included ↦
                  inr (paid (ground (arith, e, ensure-eq-ok _ _ entitled)), features_included)
            ]
          ],
      λ h. elim h [
        | inl e ↦
            ground (arith, asked, known, planned, eq_iff feature "billing", e, from_plan (inl e))
        | inr (p, i) ↦ ground (arith, asked, known, planned, from_paid p, from_plan (inr i))
      ],
    )
