-- ===== src/Invoices/Payment.antt =====
-- What a payment leaves of an invoice (src/modules/quotes-invoices/quotes-invoices.service.ts).
use fieldserviceit_backend.Base.{
  ℕ, ◌-◌, ◌≤◌, String, ◌≡◌, refl, sym, ap, ◌∙◌, subst, Option, none, some, arith, if◌then◌else◌,
  ltb, lt→ltb, ltb→lt, Result, ok, >>=-eq-ok, eq_refl,
}
use fieldserviceit_backend.Base.Map.{get, set, get-set}
use fieldserviceit_backend.Access.{User}
use fieldserviceit_backend.Invoices.{Amounts, Invoice, InvoiceDto, DocumentStore}
use fieldserviceit_backend.Invoices.Conversion.{in_company-eq-ok, get_invoice_found}
use fieldserviceit_backend.Invoices.Operations.{
  with_status, with_payment, with_texts, updated_invoice, document_scope, within, get_invoice,
  checked_status, update_invoice,
}

ok_row :
    (row invoice : Invoice) (store store' : DocumentStore)
    → ◌≡◌ {A = Result (Invoice × DocumentStore)} (ok (row, store)) (ok (invoice, store'))
    → row ≡ invoice
ok_row row invoice store store' h = cc

total_kept : (now : ℕ) (s : String) (row : Invoice) → (with_status now s row).amounts ≡ row.amounts
unfolding with_status
total_kept now s row = ground arith

moved_total :
    (status : Option String) (now : ℕ) (row : Invoice)
    → (elim status as (λ s. Invoice) [ none ↦ row | some s ↦ with_status now s row ]).amounts
      ≡ row.amounts
moved_total none now row = refl
moved_total (some s) now row = total_kept now s row

with_payment-eq :
    (now paid : ℕ) (row : Invoice)
    → 1 ≤ paid
    → ((with_payment now paid row).amount_paid ≡ paid)
      × ((with_payment now paid row).balance_due ≡ row.amounts.total - paid)
      × ((with_payment now paid row).status
          ≡ (if ltb paid row.amounts.total then "PARTIAL" else "PAID"))
unfolding with_payment
with_payment-eq now paid row some_paid = (
  ground arith,
  ground arith,
  ground (arith, lt→ltb paid row.amounts.total, ltb→lt paid row.amounts.total, lt→ltb 0 paid),
)

updated_invoice-paid :
    (dto : InvoiceDto) (status : Option String) (now paid : ℕ) (row : Invoice)
    → dto.amount_paid ≡ some paid
    → 1 ≤ paid
    → ((updated_invoice dto status now row).amount_paid ≡ paid)
      × ((updated_invoice dto status now row).balance_due ≡ row.amounts.total - paid)
      × ((updated_invoice dto status now row).status
          ≡ (if ltb paid row.amounts.total then "PARTIAL" else "PAID"))
unfolding updated_invoice with_texts
updated_invoice-paid dto status now paid row named some_paid =
    let moved = elim status as (λ s. Invoice) [
      | none ↦ with_texts dto row
      | some s ↦ with_status now s (with_texts dto row)
    ] in
    let same = ap (λ (a : Amounts). a.total) (moved_total status now (with_texts dto row)) in
    let (amount, balance, settled) = with_payment-eq now paid moved some_paid in
    rw named (
      amount,
      balance ∙ ap (λ t. t - paid) same,
      settled ∙ ap (λ t. if ltb paid t then "PARTIAL" else "PAID") same,
    )

updated_company :
    (dto : InvoiceDto) (status : Option String) (now : ℕ) (row : Invoice)
    → (updated_invoice dto status now row).company_id ≡ row.company_id
unfolding updated_invoice with_status with_payment with_texts
updated_company dto none now row = ground arith
updated_company dto (some s) now row = ground arith

-- An update that returns has found the invoice, and returns it with its changes.
update_invoice-eq-ok :
    (upper : String → String) (user : User) (id : String) (dto : InvoiceDto) (now : ℕ)
    (store store' : DocumentStore) (invoice : Invoice)
    → update_invoice upper user id dto now store ≡ ok (invoice, store')
    → (existing : Invoice) × (status : Option String) × (get_invoice user id store ≡ ok existing)
      × (checked_status upper dto.status ≡ ok status)
      × (invoice ≡ updated_invoice dto status now existing)
unfolding update_invoice get_invoice
update_invoice-eq-ok upper user id dto now store store' invoice h =
    let (existing, found, h') = >>=-eq-ok (get_invoice user id store) _ h in
    let (status, checked, h'') = >>=-eq-ok (checked_status upper dto.status) _ h' in
    let row = updated_invoice dto status now existing in
    let written : DocumentStore = record store { invoices = set store.invoices id row } in
    let (scope, scoped, seen) = >>=-eq-ok (document_scope user) _ found in
    let (_, inside) =
      in_company-eq-ok (λ (i : Invoice). i.company_id) "Invoice not found" scope
        (get store.invoices id) existing seen in
    let read =
      get_invoice_found user id written row scope scoped
        (get-set store.invoices id id row ∙ ground (arith, eq_refl id))
        (ap (within scope) (updated_company dto status now existing) ∙ inside) in
    let (again, found', answer) = >>=-eq-ok (get_invoice user id written) _ h'' in
    let same : again ≡ row = cc in
    (existing, status, found, checked, sym (ok_row again invoice written store' answer) ∙ same)

-- An update that returns and that names an amount paid, not zero, returns the invoice with that
-- amount and with what is left of its total, PAID when nothing is left and PARTIAL otherwise,
-- whatever its status was and whatever status the body names.
pub update_invoice-paid :
    (upper : String → String) (user : User) (id : String) (dto : InvoiceDto) (now paid : ℕ)
    (store store' : DocumentStore) (existing invoice : Invoice)
    → get_invoice user id store ≡ ok existing
    → dto.amount_paid ≡ some paid
    → 1 ≤ paid
    → update_invoice upper user id dto now store ≡ ok (invoice, store')
    → (invoice.amount_paid ≡ paid)
      × (invoice.balance_due ≡ existing.amounts.total - paid)
      × (invoice.status ≡ (if ltb paid existing.amounts.total then "PARTIAL" else "PAID"))
update_invoice-paid upper user id dto now paid store store' existing invoice found named some_paid
      h =
    let (existing', status, found', _, row) =
      update_invoice-eq-ok upper user id dto now store store' invoice h in
    let same : existing' ≡ existing = cc in
    subst
      (λ (e : Invoice).
        (invoice.amount_paid ≡ paid)
        × (invoice.balance_due ≡ e.amounts.total - paid)
        × (invoice.status ≡ (if ltb paid e.amounts.total then "PARTIAL" else "PAID")))
      same (rw row (updated_invoice-paid dto status now paid existing' named some_paid))
