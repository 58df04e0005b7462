-- ===== src/Inventory/Ledger.antt =====
-- Stock against its ledger: what the transactions of a part add up to, and what is reserved of it.
use mathlib.Core.List.{Memᴰ}
use fieldserviceit_backend.Base.{
  ℕ, ◌+◌, ◌≤◌, String, ◌≡◌, refl, sym, ap, ◌∙◌, subst, Bool, true, not, ◌&&◌, ◌||◌, Option, none,
  some, List, [], ◌∷◌, arith, ◌==◌, eq_iff, if◌then◌else◌, ltb, lt→ltb, nat_eq, includes,
  mem_of_includes, or_else, ok, ensure, ensure-eq-ok, >>-eq-ok, >>=-eq-ok, Bool-cases, inl, inr,
}
use fieldserviceit_backend.Base.Map.{get, get-set}
use fieldserviceit_backend.Access.{User}
use fieldserviceit_backend.Inventory.{Part, Transaction, Store, MovementDto}
use fieldserviceit_backend.Inventory.Stock.{
  movement_types, takes_out, on_hand_after, reserved_after, check_stock, moved_part,
  record_movement, get_part, normalize_option, create_movement, scope_for, visible,
}

abbrev pub puts_in : String → Bool
puts_in movement_type =
    not (takes_out movement_type || includes ("RETURN" ∷ "RESERVE" ∷ []) movement_type)

-- What the transactions of a part have put in, and taken out.
abbrev pub total : (String → Bool) → String → List Transaction → ℕ
total counts id [] = 0
total counts id (t ∷ log) =
    let before = total counts id log in
    if t.part_id == id && counts t.movement_type then t.quantity + before else before

-- A part's stock is the balance of its transactions and covers what is reserved; what is no part
-- has no transactions.
abbrev pub Balance : Option Part → ℕ → ℕ → Type 0
Balance none put taken = (put ≡ 0) × (taken ≡ 0)
Balance (some part) put taken =
    (part.quantity_reserved ≤ part.quantity_on_hand) × (part.quantity_on_hand + taken ≡ put)

abbrev pub IsSound : Store → Type 0
IsSound store =
    (id : String)
    → Balance (get store.parts id) (total puts_in id store.transactions)
        (total takes_out id store.transactions)

-- What the checks of a movement give.
check_stock-eq-ok :
    (m : String) (q : ℕ) (part : Part)
    → check_stock m q part ≡ ok tt
    → ((takes_out m || m == "RESERVE") ≡ true)
    → q + part.quantity_reserved ≤ part.quantity_on_hand
unfolding check_stock
check_stock-eq-ok m q part h taken =
    let short = ltb part.quantity_on_hand (q + part.quantity_reserved) in
    let (positive, h') = >>-eq-ok (ensure (not (nat_eq q 0)) _) _ h in
    let (enough, h'') = >>-eq-ok (ensure (not (takes_out m && short)) _) _ h' in
    let (free, _) = >>-eq-ok (ensure (not (m == "RESERVE" && short)) _) _ h'' in
    let a = ensure-eq-ok (not (takes_out m && short)) _ enough in
    let b = ensure-eq-ok (not (m == "RESERVE" && short)) _ free in
    ground (arith, a, b, taken, lt→ltb part.quantity_on_hand (q + part.quantity_reserved))

-- What holds of each type of movement holds of every valid one.
by_movement_type {ℓ} :
    (P : String → Type ℓ)
    → P "RECEIVE"
    → P "ADJUST"
    → P "TRANSFER_IN"
    → P "TRANSFER_OUT"
    → P "RESERVE"
    → P "USE"
    → P "RETURN"
    → (m : String) → includes movement_types m ≡ true
    → P m
by_movement_type P a b c d e f g m valid = elim (mem_of_includes movement_types m valid) [
  | Memᴰ.head is ↦ subst P (sym is) a
  | Memᴰ.tail (Memᴰ.head is) ↦ subst P (sym is) b
  | Memᴰ.tail (Memᴰ.tail (Memᴰ.head is)) ↦ subst P (sym is) c
  | Memᴰ.tail (Memᴰ.tail (Memᴰ.tail (Memᴰ.head is))) ↦ subst P (sym is) d
  | Memᴰ.tail (Memᴰ.tail (Memᴰ.tail (Memᴰ.tail (Memᴰ.head is)))) ↦ subst P (sym is) e
  | Memᴰ.tail (Memᴰ.tail (Memᴰ.tail (Memᴰ.tail (Memᴰ.tail (Memᴰ.head is))))) ↦ subst P (sym is) f
  | Memᴰ.tail (Memᴰ.tail (Memᴰ.tail (Memᴰ.tail (Memᴰ.tail (Memᴰ.tail (Memᴰ.head is)))))) ↦
      subst P (sym is) g
  | Memᴰ.tail (Memᴰ.tail (Memᴰ.tail (Memᴰ.tail (Memᴰ.tail (Memᴰ.tail (Memᴰ.tail beyond)))))) ↦
      elim beyond [ ]
]

abbrev KeepsBalance : ℕ → ℕ → ℕ → Part → String → Type 0
KeepsBalance q put taken part m =
    check_stock m q part ≡ ok tt
    → Balance (some part) put taken
    → Balance (some (moved_part m q part)) (if puts_in m then q + put else put)
        (if takes_out m then q + taken else taken)

-- A checked movement keeps the balance of its part.
moved_part-Balance :
    (q put taken : ℕ) (part : Part) (m : String)
    → includes movement_types m ≡ true
    → KeepsBalance q put taken part m
unfolding on_hand_after reserved_after
moved_part-Balance q put taken part =
    by_movement_type (KeepsBalance q put taken part) (λ h b. omega (arith, b.0, b.1))
      (λ h b. omega (arith, b.0, b.1)) (λ h b. omega (arith, b.0, b.1))
      (λ h b. omega (arith, b.0, b.1, check_stock-eq-ok "TRANSFER_OUT" q part h refl))
      (λ h b. omega (arith, b.0, b.1, check_stock-eq-ok "RESERVE" q part h refl))
      (λ h b. omega (arith, b.0, b.1, check_stock-eq-ok "USE" q part h refl))
      (λ h b. omega (arith, b.0, b.1))

visible-eq-ok :
    (scope : Option String) (row : Option Part) (part : Part)
    → visible scope row ≡ ok part
    → row ≡ some part
unfolding visible
visible-eq-ok scope none part h = cc
visible-eq-ok scope (some row) part h = ground arith

normalize_option-eq-ok :
    (upper : String → String) (value : Option String) (allowed : List String) (message m : String)
    → normalize_option upper value allowed message ≡ ok m
    → includes allowed m ≡ true
unfolding normalize_option
normalize_option-eq-ok upper value allowed message m h =
    elim (Bool-cases (includes allowed (upper (or_else value "")))) [
      | inl e ↦
          let same : upper (or_else value "") ≡ m = ground (arith, e) in
          subst (λ x. includes allowed x ≡ true) same e
      | inr e ↦ absurd (ground (arith, e))
    ]

-- A movement that returned found its part and passed its checks.
pub create_movement-eq-ok :
    (upper : String → String) (user : User) (dto : MovementDto) (store store' : Store)
    → create_movement upper user dto store ≡ ok store'
    → (part : Part) × (m : String) × (get_part user dto.part_id store ≡ ok part)
      × (get store.parts dto.part_id ≡ some part)
      × (includes movement_types m ≡ true)
      × (check_stock m dto.quantity part ≡ ok tt)
      × (store' ≡ record_movement user dto m part store)
unfolding create_movement get_part
create_movement-eq-ok upper user dto store store' h =
    let (part, found, h') = >>=-eq-ok (get_part user dto.part_id store) _ h in
    let (m, valid, h'') =
      >>=-eq-ok (normalize_option upper dto.movement_type movement_types "Invalid movement type") _
        h' in
    let (checked, written) = >>-eq-ok (check_stock m dto.quantity part) _ h'' in
    let (scope, scoped, seen) = >>=-eq-ok (scope_for user) _ found in
    (
      part,
      m,
      found,
      visible-eq-ok scope (get store.parts dto.part_id) part seen,
      normalize_option-eq-ok upper dto.movement_type movement_types "Invalid movement type" m valid,
      checked,
      cc,
    )

pub record_movement-IsSound :
    (user : User) (dto : MovementDto) (m : String) (part : Part) (store : Store)
    → get store.parts dto.part_id ≡ some part
    → includes movement_types m ≡ true
    → check_stock m dto.quantity part ≡ ok tt
    → IsSound store
    → IsSound (record_movement user dto m part store)
unfolding record_movement
record_movement-IsSound user dto m part store found valid checked sound id =
    let put = total puts_in id store.transactions in
    let taken = total takes_out id store.transactions in
    let stored = get-set store.parts dto.part_id id (moved_part m dto.quantity part) in
    elim (Bool-cases (dto.part_id == id)) [
      | inr e ↦ rw (stored, e) (sound id)
      | inl e ↦
          let here : get store.parts id ≡ some part =
            ap (λ x. get store.parts x) (sym ((eq_iff dto.part_id id).0 e)) ∙ found in
          let before : Balance (some part) put taken =
            subst (λ o. Balance o put taken) here (sound id) in
          rw (stored, e) (moved_part-Balance dto.quantity put taken part m valid checked before)
    ]
