-- ===== src/Inventory/Scope.antt =====
-- Which parts a movement can change (src/modules/inventory/inventory.service.ts).
use fieldserviceit_backend.Base.{
  String, ◌≡◌, ◌≢◌, sym, ap, ◌∙◌, false, Option, none, some, arith, ◌==◌, eq_iff, ok, Bool-cases,
  inl, inr,
}
use fieldserviceit_backend.Base.Map.{get, get-set}
use fieldserviceit_backend.Access.{User}
use fieldserviceit_backend.Inventory.{Part, Store, MovementDto}
use fieldserviceit_backend.Inventory.Stock.{
  moved_part, record_movement, get_part, scope_for, visible, in_scope, create_movement,
}
use fieldserviceit_backend.Inventory.Ledger.{create_movement-eq-ok}

visible-company :
    (c : String) (row : Option Part) (part : Part)
    → visible (some c) row ≡ ok part
    → part.company_id ≡ c
unfolding visible in_scope
visible-company c none part h = cc
visible-company c (some row) part h = elim (Bool-cases (row.company_id == c)) [
  | inl e ↦
      let same : row ≡ part = ground (arith, e) in
      ap (λ (p : Part). p.company_id) (sym same) ∙ (eq_iff row.company_id c).0 e
  | inr e ↦ absurd (ground (arith, e))
]

get_part-company :
    (user : User) (id c : String) (store : Store) (part : Part)
    → user.company_id ≡ some c
    → c ≢ ""
    → get_part user id store ≡ ok part
    → part.company_id ≡ c
unfolding get_part scope_for
get_part-company user id c store part home real h =
    let known : (c == "") ≡ false = ground (arith, eq_iff c "") in
    visible-company c (get store.parts id) part (rw (home, known) at h)

-- A movement by a user of a company leaves every part of another company as it is.
pub create_movement-confined :
    (upper : String → String) (user : User) (dto : MovementDto) (store store' : Store)
    (c id : String) (part : Part)
    → user.company_id ≡ some c
    → c ≢ ""
    → create_movement upper user dto store ≡ ok store'
    → get store.parts id ≡ some part
    → part.company_id ≢ c
    → get store'.parts id ≡ some part
unfolding record_movement
create_movement-confined upper user dto store store' c id part home real h present foreign =
    let (moved, m, found, row, _, _, written) =
      create_movement-eq-ok upper user dto store store' h in
    let own = get_part-company user dto.part_id c store moved home real found in
    let stored = get-set store.parts dto.part_id id (moved_part m dto.quantity moved) in
    let after = ap (λ (s : Store). get s.parts id) written in
    elim (Bool-cases (dto.part_id == id)) [
      | inr e ↦ after ∙ (rw e at stored) ∙ present
      | inl e ↦
          let same = ap (λ x. get store.parts x) ((eq_iff dto.part_id id).0 e) in
          absurd (foreign (cc))
    ]
