-- ===== src/Tickets/Holds.antt =====
-- To whom a ticket is assigned
-- (src/modules/tickets/services/tickets.service.ts).
use fieldserviceit_backend.Base.{
  String, ◌≡◌, refl, ◌⊎◌, inl, inr, true, Option, none, some, List, [], ◌∷◌, arith, ◌==◌, eq_iff,
  truthy, is_text, is_text_iff, ok, throw, Bool-cases, find, find_sound, includes, &&-eq-true,
  is_none, eq-none_of_is_none, ensure, bad_request,
}
use mathlib.Core.List.{Memᴰ}
use fieldserviceit_backend.Tickets.{Ticket, Member, Effect}
use fieldserviceit_backend.Tickets.Lifecycle.{assert_assignable_user, is_assignable}
use fieldserviceit_backend.Tickets.Operations.{assign}
use fieldserviceit_backend.Tickets.Resolution.{assign-eq-ok}

is_assignable-fields :
    (company target : String) (m : Member)
    → is_assignable company target m ≡ true
    → (m.id ≡ target) × (m.company_id ≡ some company) × (m.deleted_at ≡ none) × (m.is_active ≡ true)
is_assignable-fields company target m h =
    let (same, rest) = &&-eq-true (m.id == target) _ h in
    let (tenant, rest') = &&-eq-true (is_text m.company_id company) _ rest in
    let (present, active) = &&-eq-true (is_none m.deleted_at) _ rest' in
    (
      (eq_iff m.id target).0 same,
      (is_text_iff m.company_id company).0 tenant,
      eq-none_of_is_none m.deleted_at present,
      active,
    )

-- What assertAssignableUser has found.
assert_assignable_user-eq-ok :
    (members : List Member) (company_id : Option String) (target : String)
    → assert_assignable_user members company_id target ≡ ok tt
    → (m : Member) × Memᴰ m members
      × (m.id ≡ target)
      × (m.company_id ≡ company_id)
      × (truthy company_id ≡ true)
      × (m.is_active ≡ true)
      × (m.deleted_at ≡ none)
      × ((m.role ≡ "TECHNICIAN") ⊎ (m.role ≡ "TENANT_ADMIN"))
unfolding assert_assignable_user
assert_assignable_user-eq-ok members none target h = absurd (cc)
assert_assignable_user-eq-ok members (some company) target h = elim (Bool-cases (company == "")) [
  | inl e ↦ absurd (ground (arith, e))
  | inr e ↦ go (find (is_assignable company target) members) refl (ground (arith, e))
]
  where
    go :
        (o : Option Member)
        → find (is_assignable company target) members ≡ o
        → (elim o [
          | none ↦ throw (bad_request "Assignee must be an active user in the current tenant")
          | some m ↦
              ensure
                (includes ("TECHNICIAN" ∷ "TENANT_ADMIN" ∷ []) m.role)
                (bad_request "Assignee must be an active user in the current tenant")
        ])
          ≡ ok tt
        → (m : Member) × Memᴰ m members
          × (m.id ≡ target)
          × (m.company_id ≡ some company)
          × (truthy (some company) ≡ true)
          × (m.is_active ≡ true)
          × (m.deleted_at ≡ none)
          × ((m.role ≡ "TECHNICIAN") ⊎ (m.role ≡ "TENANT_ADMIN"))
    go none e k = absurd (cc)
    go (some m) e k =
        let (member, passes) = find_sound (is_assignable company target) members m e in
        let fields = is_assignable-fields company target m passes in
        (
          m,
          member,
          fields.0,
          fields.1,
          ground arith,
          fields.3,
          fields.2,
          ground (arith, eq_iff "TECHNICIAN" m.role, eq_iff "TENANT_ADMIN" m.role),
        )

-- An assignment succeeds only for a ticket of a company, and only to an active user of that
-- company who is not deleted and is a technician or a tenant administrator.
pub assign-tenant :
    (members : List Member) (t : Ticket) (target : String) (actor : Option String) (t' : Ticket)
    (effects : List Effect)
    → assign members t target actor ≡ ok (t', effects)
    → (m : Member) × Memᴰ m members
      × (m.id ≡ target)
      × (m.company_id ≡ t.company_id)
      × (truthy t.company_id ≡ true)
      × (m.is_active ≡ true)
      × (m.deleted_at ≡ none)
      × ((m.role ≡ "TECHNICIAN") ⊎ (m.role ≡ "TENANT_ADMIN"))
assign-tenant members t target actor t' effects h =
    let (assignable, _, _) = assign-eq-ok members t target actor t' effects h in
    assert_assignable_user-eq-ok members t.company_id target assignable
