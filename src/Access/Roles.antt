-- ===== src/Access/Roles.antt =====
-- RolesGuard, BusinessOnlyGuard, MonitoringAccessGuard and StepUpGuard
-- (src/common/guards/roles.guard.ts, business-only.guard.ts, monitoring-access.guard.ts,
-- step-up.guard.ts).
use fieldserviceit_backend.Base.{
  ℕ, ◌-◌, String, Bool, true, false, not, ◌&&◌, ◌||◌, Option, none, some, List, [], ◌∷◌, ◌==◌,
  if◌then◌else◌, ltb, find, is_none, includes, truthy, or_else, same_text, Result, ok, throw,
  forbidden, server_error, ensure,
}
use fieldserviceit_backend.Access.{User}

unfoldable pub roles_guard : List String → Option User → Result (Unit {0})
roles_guard [] user = ok tt
roles_guard (r ∷ rs) none = throw (forbidden "Authentication required")
roles_guard (r ∷ rs) (some user) =
    if user.role == "SUPER_ADMIN"
    then ok tt
    else ensure (includes (r ∷ rs) user.role) (forbidden "Insufficient permissions")

unfoldable pub business_only_guard : Bool → Option User → Result (Unit {0})
business_only_guard false user = ok tt
business_only_guard true none =
    throw (forbidden "This feature is only available for business accounts")
business_only_guard true (some user) =
    ensure (user.user_type == "BUSINESS")
      (forbidden "This feature is only available for business accounts")

-- `suppliedKey` is `none` where the header is missing or given several times.
unfoldable pub monitoring_access_guard :
    Option String → Option String → Option User → Result (Unit {0})
monitoring_access_guard configured_key supplied_key user =
    let administrator = elim user as (λ u. Bool) [
      | none ↦ false
      | some u ↦ includes ("SUPER_ADMIN" ∷ "TENANT_ADMIN" ∷ []) u.role
    ] in
    ensure
      (administrator
        || (truthy configured_key
            && not (is_none supplied_key)
            && same_text supplied_key configured_key))
      (forbidden "Monitoring access required")

-- A row of Session.
pub record Session : Type 0 where
  pub id : String
  pub user_id : String
  pub revoked_at : Option ℕ
  pub mfa_verified_at : Option ℕ

abbrev pub step_up_required : String
step_up_required = "Recent MFA verification is required"

unfoldable pub is_open_session : String → String → Session → Bool
is_open_session id user_id session =
    session.id == id && session.user_id == user_id && is_none session.revoked_at

abbrev sessions_of : Option (List Session) → List Session
sessions_of none = []
sessions_of (some rows) = rows

-- `none` for the rows stands for a query that failed. Without a row the guard reads a property of
-- undefined.
unfoldable pub step_up_guard :
    Bool → Option String → String → Option (List Session) → ℕ → Result (Unit {0})
step_up_guard false session_id user_id sessions now = ok tt
step_up_guard true session_id user_id sessions now =
    if not (truthy session_id)
    then throw (forbidden step_up_required)
    else elim (find (is_open_session (or_else session_id "") user_id) (sessions_of sessions)) [
      | none ↦ throw (server_error "Cannot read properties of undefined")
      | some row ↦
          ensure (not (ltb 600000 (now - elim row.mfa_verified_at [ none ↦ 0 | some t ↦ t ])))
            (forbidden step_up_required)
    ]
