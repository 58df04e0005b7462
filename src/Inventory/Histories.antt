-- ===== src/Inventory/Histories.antt =====
-- What holds of the stock after any sequence of new parts and movements.
use fieldserviceit_backend.Base.{
  String, ◌≡◌, refl, sym, ap, ◌∙◌, subst, Option, none, some, [], arith, ◌==◌, eq_iff,
  if◌then◌else◌, ltb, lt→ltb, truthy, or_else, ok, ensure, >>-eq-ok, >>=-eq-ok, Bool-cases,
  Option-cases, inl, inr,
}
use fieldserviceit_backend.Base.Map.{get, get-set}
use fieldserviceit_backend.Access.{User}
use fieldserviceit_backend.Inventory.{Part, Store, PartDto, MovementDto}
use fieldserviceit_backend.Inventory.Stock.{
  takes_out, create_movement, default_location, assert_location, insert_part, create_part,
  warehouse_of, resolve_write_company, or_null,
}
use fieldserviceit_backend.Inventory.Ledger.{
  puts_in, total, Balance, IsSound, create_movement-eq-ok, record_movement-IsSound,
}

abbrev pub empty_store : Store
empty_store = record { parts = []; locations = []; transactions = [] }

-- A successful new part, with an id that no part has, or a successful movement.
pub data Step : (String → String) → Store → Store → Type 0 where
  creates :
      {upper : String → String} {store store' : Store} (id location_id : String) (user : User)
      (dto : PartDto)
      → get store.parts id ≡ none
      → create_part id location_id user dto store ≡ ok store'
      → Step upper store store'
  moves :
      {upper : String → String} {store store' : Store} (user : User) (dto : MovementDto)
      → create_movement upper user dto store ≡ ok store'
      → Step upper store store'

pub data Reach : (String → String) → Store → Store → Type 0 where
  here : {upper : String → String} {store : Store} → Reach upper store store
  next :
      {upper : String → String} {s s' s'' : Store}
      → Reach upper s s'
      → Step upper s' s''
      → Reach upper s s''

insert_part-IsSound :
    (user : User) (id company_id : String) (location_id : Option String) (dto : PartDto)
    (store : Store)
    → get store.parts id ≡ none
    → IsSound store
    → IsSound (insert_part user id company_id location_id dto store)
unfolding insert_part
insert_part-IsSound user id company_id location_id dto store fresh sound j =
    let put = total puts_in j store.transactions in
    let taken = total takes_out j store.transactions in
    let part : Part = record {
      company_id = company_id;
      name = or_else dto.name "";
      location_id = location_id;
      quantity_on_hand = dto.quantity_on_hand;
      quantity_reserved = 0;
      reorder_point = dto.reorder_point;
    } in
    let stored = get-set store.parts id j part in
    elim (Bool-cases (id == j)) [
      | inr e ↦ elim (Bool-cases (ltb 0 dto.quantity_on_hand)) [
        | inl some_stock ↦ rw (stored, e, some_stock, e) (sound j)
        | inr no_stock ↦ rw (stored, e, no_stock) (sound j)
      ]
      | inl e ↦
          let absent : get store.parts j ≡ none =
            ap (λ x. get store.parts x) (sym ((eq_iff id j).0 e)) ∙ fresh in
          let (nothing_in, nothing_out) = subst (λ o. Balance o put taken) absent (sound j) in
          elim (Bool-cases (ltb 0 dto.quantity_on_hand)) [
            | inl some_stock ↦
                rw (stored, e, some_stock, e) (omega arith, omega (arith, nothing_in, nothing_out))
            | inr no_stock ↦
                let empty : dto.quantity_on_hand ≡ 0 =
                  ground (arith, lt→ltb 0 dto.quantity_on_hand, no_stock) in
                rw (stored, e, no_stock)
                  (omega arith, omega (arith, empty, nothing_in, nothing_out))
          ]
    ]

default_location_kept :
    (new_id company_id : String) (store : Store)
    → ((default_location new_id company_id store).1.parts ≡ store.parts)
      × ((default_location new_id company_id store).1.transactions ≡ store.transactions)
unfolding default_location
default_location_kept new_id company_id store =
    elim (Option-cases (warehouse_of company_id store.locations)) [
      | inl e ↦ (ground (arith, e), ground (arith, e))
      | inr (id, e) ↦ (ground (arith, e), ground (arith, e))
    ]

create_part-IsSound :
    (id location_id : String) (user : User) (dto : PartDto) (store store' : Store)
    → get store.parts id ≡ none
    → create_part id location_id user dto store ≡ ok store'
    → IsSound store
    → IsSound store'
unfolding create_part
create_part-IsSound id location_id user dto store store' fresh h sound =
    let (company_id, writes, h') = >>=-eq-ok (resolve_write_company user dto.company_id) _ h in
    let (name_given, made) = >>-eq-ok (ensure (truthy dto.name) _) _ h' in
    elim (Option-cases dto.location_id) [
      | inr (l, e) ↦
          let (_, written) =
            >>-eq-ok (if l == "" then ok tt else assert_location company_id l store) _
              (rw e at made) in
          let row : insert_part user id company_id (or_null (some l)) dto store ≡ store' = cc in
          subst IsSound row
            (insert_part-IsSound user id company_id (or_null (some l)) dto store fresh sound)
      | inl e ↦
          let place = default_location location_id company_id store in
          let (parts, transactions) = default_location_kept location_id company_id store in
          let (_, written) =
            >>-eq-ok (assert_location company_id place.0 place.1) _ (rw e at made) in
          let row : insert_part user id company_id (some place.0) dto place.1 ≡ store' = cc in
          subst IsSound row (
            insert_part-IsSound user id company_id (some place.0) dto place.1
              (ap (λ ps. get ps id) parts ∙ fresh) (λ j. rw (parts, transactions) (sound j)))
    ]

Step-IsSound :
    (upper : String → String) (store store' : Store)
    → Step upper store store'
    → IsSound store
    → IsSound store'
Step-IsSound upper store store' (creates id location_id user dto fresh h) sound =
    create_part-IsSound id location_id user dto store store' fresh h sound
Step-IsSound upper store store' (moves user dto h) sound =
    let (part, m, _, found, valid, checked, row) =
      create_movement-eq-ok upper user dto store store' h in
    subst IsSound (sym row)
      (record_movement-IsSound user dto m part store found valid checked sound)

-- After any sequence of new parts, each with an id that no part has, and movements from an empty
-- store, a part's stock is the balance of its transactions and covers what is reserved of it.
pub Reach-IsSound :
    {upper : String → String} {store : Store} → Reach upper empty_store store → IsSound store
unfolding get
Reach-IsSound here = λ id. (refl, refl)
Reach-IsSound {upper} {store} (next {s' = s} r step) =
    Step-IsSound upper s store step (Reach-IsSound r)
