-- ===== src/Inventory/Unlogged.antt =====
-- Stock that an update of a part writes (src/modules/inventory/inventory.service.ts).
use fieldserviceit_backend.Base.{ℕ, ◌+◌, String, ◌≡◌, ◌≢◌, subst, some, arith, eq_refl, refl, ok}
use fieldserviceit_backend.Base.Map.{get, set, get-set}
use fieldserviceit_backend.Access.{User}
use fieldserviceit_backend.Inventory.{Part, Store}
use fieldserviceit_backend.Inventory.Stock.{takes_out, resolve_write_company, get_part}
use fieldserviceit_backend.Inventory.Ledger.{puts_in, total, Balance, IsSound}
use fieldserviceit_backend.Inventory.Edits.{EditDto, check_edit, edited, update_part}

-- An update of a part that the user sees, for the company of the part and with a location that passes
-- its check, that names another stock than the part has writes it and no transaction, so that the stock
-- and what the transactions have taken out are not what they have put in any more, where every stock
-- was the balance of its transactions before.
pub update_part-unbalanced :
    (user : User) (id company_id : String) (dto : EditDto) (part : Part) (q : ℕ) (store : Store)
    → IsSound store
    → get store.parts id ≡ some part
    → get_part user id store ≡ ok part
    → resolve_write_company user dto.company_id ≡ ok company_id
    → part.company_id ≡ company_id
    → check_edit company_id dto store ≡ ok tt
    → dto.quantity_on_hand ≡ some q
    → q ≢ part.quantity_on_hand
    → (store' : Store) × (part' : Part) × (update_part user id dto store ≡ ok store')
      × (get store'.parts id ≡ some part')
      × (part'.quantity_on_hand ≡ q)
      × (store'.transactions ≡ store.transactions)
      × (q + total takes_out id store'.transactions ≢ total puts_in id store'.transactions)
unfolding update_part edited
update_part-unbalanced user id company_id dto part q store sound here seen own same checked named
      other =
    let part' = edited dto part in
    let store' = record store { parts = set store.parts id part' } in
    let written : update_part user id dto store ≡ ok store' =
      ground (arith, seen, own, checked, same, eq_refl company_id) in
    let there : get store'.parts id ≡ some part' =
      ground (arith, get-set store.parts id id part', eq_refl id) in
    let put = total puts_in id store.transactions in
    let taken = total takes_out id store.transactions in
    let (_, before) = subst (λ o. Balance o put taken) here (sound id) in
    (
      store',
      part',
      written,
      there,
      ground (arith, named),
      refl,
      λ after. other (omega (arith, before, after)),
    )
