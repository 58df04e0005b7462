-- ===== src/Access/Isolation.antt =====
-- What a request that passes the tenant guard may act for.
use mathlib.Core.List.{Memᴰ}
use fieldserviceit_backend.Base.{
  ℕ, ◌<◌, String, ◌≡◌, ◌⊎◌, refl, sym, ap, ◌∙◌, true, false, ◌&&◌, ◌||◌, Option, none, some, List,
  [], ◌∷◌, arith, ◌==◌, eq_iff, ltb→lt, find, find_sound, eq-none_of_is_none, includes, truthy,
  or_else, same_text, same_text_iff, ok, >>=-eq-ok, Bool-cases, Option-cases, inl, inr,
}
use fieldserviceit_backend.Access.{User, Request, ImpersonationRow, Company}
use fieldserviceit_backend.Access.Tenant.{
  get_header, is_live_session, target_user, rows_of, impersonate, is_available, select_company,
  requested_company, assign_company, tenant_guard, within_company,
}

-- A selected company is one that exists, is active and is not deleted, and that a super admin's
-- request names.
abbrev IsSelected : Request → List Company → String → Type 0
IsSelected req companies id =
    (company : Company) × Memᴰ company companies
    × (company.id ≡ id)
    × (company.is_active ≡ true)
    × (company.deleted_at ≡ none)
    × (get_header req.company_context ≡ some id)

-- What the guard grants: no company, to a super admin, a global technician or a public user; a
-- company that a super admin has selected; or the user's own company, where the request names no
-- other one, in its parameters or else in its body.
abbrev pub IsConfined : Request → List Company → User → Request → Type 0
IsConfined req companies user granted =
    ((granted.company_id ≡ none)
      × ((user.role ≡ "SUPER_ADMIN") ⊎ (user.role ≡ "GLOBAL_TECH") ⊎ (user.user_type ≡ "PUBLIC")))
    ⊎ ((id : String) × (granted.company_id ≡ some id)
        × (user.company_id ≡ some id)
        × (((user.role ≡ "SUPER_ADMIN") × IsSelected req companies id)
            ⊎ (truthy (requested_company req) ≡ false)
            ⊎ (requested_company req ≡ some id)))

available_sound :
    (id : String) (company : Company)
    → is_available id company ≡ true
    → (company.id ≡ id) × (company.is_active ≡ true) × (company.deleted_at ≡ none)
unfolding is_available
available_sound id company h = (
  ground (arith, eq_iff company.id id),
  ground arith,
  eq-none_of_is_none company.deleted_at (ground arith),
)

named : (o : Option String) → truthy o ≡ true → o ≡ some (or_else o "")
named none h = cc
named (some x) h = ground arith

select_company-IsConfined :
    (req req' : Request) (user : User) (companies : List Company)
    → (user.role ≡ "SUPER_ADMIN") ⊎ (user.role ≡ "GLOBAL_TECH")
    → select_company req user companies ≡ ok req'
    → (user' : User) × (req'.user ≡ some user')
      × (user'.id ≡ user.id)
      × IsConfined req companies user' req'
unfolding select_company
select_company-IsConfined req req' user companies role h =
    let header = get_header req.company_context in
    elim (Bool-cases (user.role == "GLOBAL_TECH")) [
      | inl e ↦ (
        user,
        ground (arith, e),
        refl,
        inl (ground (arith, e), inr (inl ((eq_iff user.role "GLOBAL_TECH").0 e))),
      )
      | inr e ↦ elim (Bool-cases (truthy header)) [
        | inr unset ↦ (
          user,
          ground (arith, e, unset),
          refl,
          inl (
            ground (arith, e, unset),
            inl (ground (arith, role, e, eq_iff user.role "GLOBAL_TECH")),
          ),
        )
        | inl set ↦ elim (Option-cases (find (is_available (or_else header "")) companies)) [
          | inl missing ↦ absurd (ground (arith, e, set, missing))
          | inr (company, found) ↦
              let (member, available) =
                find_sound (is_available (or_else header "")) companies company found in
              let (same, active, kept) = available_sound (or_else header "") company available in
              let granted : req' ≡ record req {
                company_id = some company.id;
                user = some (within_company user company);
              } =
                ground (arith, e, set, found) in
              (
                within_company user company,
                ap (λ (r : Request). r.user) granted,
                refl,
                inr (
                  company.id,
                  ap (λ (r : Request). r.company_id) granted,
                  refl,
                  inl (
                    ground (arith, role, e, eq_iff user.role "GLOBAL_TECH"),
                    (
                      company,
                      member,
                      refl,
                      active,
                      kept,
                      named header set ∙ ap (λ x. some x) (sym same),
                    ),
                  ),
                ),
              )
        ]
      ]
    ]

assign_company-IsConfined :
    (req req' : Request) (companies : List Company) (user : User)
    → assign_company req companies user ≡ ok req'
    → (user' : User) × (req'.user ≡ some user')
      × (user'.id ≡ user.id)
      × IsConfined req companies user' req'
unfolding assign_company
assign_company-IsConfined req req' companies user h =
    let asked = requested_company req in
    elim (Bool-cases (user.role == "SUPER_ADMIN" || user.role == "GLOBAL_TECH")) [
      | inl e ↦
          select_company-IsConfined req req' user companies
            (ground (arith, e, eq_iff user.role "SUPER_ADMIN", eq_iff user.role "GLOBAL_TECH"))
            (ground (arith, e))
      | inr e ↦ elim (Bool-cases (user.user_type == "PUBLIC")) [
        | inl public ↦ (
          user,
          ground (arith, e, public),
          refl,
          inl (ground (arith, e, public), inr (inr ((eq_iff user.user_type "PUBLIC").0 public))),
        )
        | inr business ↦ elim (Bool-cases (truthy user.company_id)) [
          | inr homeless ↦ absurd (ground (arith, e, business, homeless))
          | inl home ↦
              let own = named user.company_id home in
              let id = or_else user.company_id "" in
              let agrees : (truthy asked ≡ false) ⊎ (same_text asked user.company_id ≡ true) =
                ground (arith, e, business, home) in
              (
                user,
                ground (arith, e, business, home, agrees),
                refl,
                inr (
                  id,
                  ground (arith, e, business, home, agrees, own),
                  own,
                  inr (elim agrees [
                    | inl quiet ↦ inl quiet
                    | inr same ↦ inr ((same_text_iff asked user.company_id).0 same ∙ own)
                  ]),
                ),
              )
        ]
      ]
    ]

-- Who may act as whom: the user as themself, or a super admin or tenant administrator in a live
-- session of theirs as its target, an active user who is not deleted.
abbrev pub ActsAs : List ImpersonationRow → ℕ → User → User → Type 0
ActsAs sessions now actor user =
    (user.id ≡ actor.id)
    ⊎ ((session : ImpersonationRow) × Memᴰ session sessions
        × (session.actor_id ≡ actor.id)
        × (session.target_id ≡ user.id)
        × (session.ended_at ≡ none)
        × (now < session.expires_at)
        × (session.is_active ≡ true)
        × (session.deleted_at ≡ none)
        × ((actor.role ≡ "SUPER_ADMIN") ⊎ (actor.role ≡ "TENANT_ADMIN")))

live_session_sound :
    (id actor_id : String) (now : ℕ) (session : ImpersonationRow)
    → is_live_session id actor_id now session ≡ true
    → (session.actor_id ≡ actor_id)
      × (session.ended_at ≡ none)
      × (now < session.expires_at)
      × (session.is_active ≡ true)
      × (session.deleted_at ≡ none)
unfolding is_live_session
live_session_sound id actor_id now session h = (
  ground (arith, eq_iff session.actor_id actor_id),
  eq-none_of_is_none session.ended_at (ground arith),
  ltb→lt now session.expires_at (ground arith),
  ground arith,
  eq-none_of_is_none session.deleted_at (ground arith),
)

impersonate-ActsAs :
    (req : Request) (user user' : User) (sessions : Option (List ImpersonationRow)) (now : ℕ)
    → impersonate req user sessions now ≡ ok user'
    → ActsAs (rows_of sessions) now user user'
unfolding impersonate target_user
impersonate-ActsAs req user user' sessions now h =
    let header = get_header req.impersonation_session in
    let admin = includes ("SUPER_ADMIN" ∷ "TENANT_ADMIN" ∷ []) user.role in
    let test = is_live_session (or_else header "") user.id now in
    elim (Bool-cases (truthy header && admin)) [
      | inr e ↦ inl (ground (arith, e))
      | inl e ↦ elim (Option-cases (find test (rows_of sessions))) [
        | inl missing ↦ absurd (ground (arith, e, missing))
        | inr (session, found) ↦
            let (member, live) = find_sound test (rows_of sessions) session found in
            let (whose, running, current, active, kept) =
              live_session_sound (or_else header "") user.id now session live in
            let acting : user' ≡ target_user user session = ground (arith, e, found) in
            inr (
              session,
              member,
              whose,
              sym (ap (λ (u : User). u.id) acting),
              running,
              current,
              active,
              kept,
              ground (arith, e, eq_iff "SUPER_ADMIN" user.role, eq_iff "TENANT_ADMIN" user.role),
            )
      ]
    ]

-- A request that passes the guard on a route that is not public acts for the user who sends it, or
-- for the target of a live impersonation session of theirs; and it is confined to no company, to a
-- company that a super admin has selected, or to the company of the user whom it acts for, as
-- IsConfined says.
pub tenant_guard-IsConfined :
    (companies : List Company) (sessions : Option (List ImpersonationRow)) (now : ℕ)
    (req req' : Request) (actor : User)
    → req.user ≡ some actor
    → tenant_guard false companies sessions now req ≡ ok req'
    → (user : User) × (req'.user ≡ some user)
      × ActsAs (rows_of sessions) now actor user
      × IsConfined req companies user req'
unfolding tenant_guard
tenant_guard-IsConfined companies sessions now req req' actor sender h =
    let (acting, impersonated, assigned) =
      >>=-eq-ok (impersonate req actor sessions now) (assign_company req companies)
        (rw sender at h) in
    let (user, granted, same, confined) =
      assign_company-IsConfined req req' companies acting assigned in
    (
      user,
      granted,
      rw same (impersonate-ActsAs req actor acting sessions now impersonated),
      confined,
    )
