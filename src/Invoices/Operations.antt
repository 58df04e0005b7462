-- ===== src/Invoices/Operations.antt =====
-- `getQuote`, `getInvoice`, `convertQuoteToInvoice` and `updateInvoice` of QuotesInvoicesService
-- (src/modules/quotes-invoices/quotes-invoices.service.ts). The drawn id and the clock's reading are
-- arguments, `upper` stands for toUpperCase.
use fieldserviceit_backend.Base.{
  ℕ, ◌-◌, String, Bool, true, not, Option, none, some, List, [], ◌∷◌, ◌==◌, if◌then◌else◌, ltb,
  nat_eq, length, includes, truthy, or_else, Result, ok, throw, bad_request, forbidden, not_found,
  ensure, ◌>>◌, ◌>>=◌,
}
use fieldserviceit_backend.Base.Map.{get, set}
use fieldserviceit_backend.Access.{User}
use fieldserviceit_backend.Invoices.{Quote, Invoice, DocumentStore, ConvertDto, InvoiceDto}

abbrev pub invoice_statuses : List String
invoice_statuses = "DRAFT" ∷ "SENT" ∷ "PARTIAL" ∷ "PAID" ∷ "VOID" ∷ "OVERDUE" ∷ []

unfoldable pub document_scope : User → Result (Option String)
document_scope user =
    if truthy user.company_id
    then ok user.company_id
    else if user.role == "SUPER_ADMIN"
    then ok (if truthy user.effective_company_id then user.effective_company_id else none)
    else throw (forbidden "Select a company context to manage quotes and invoices")

abbrev pub within : Option String → String → Bool
within none company_id = true
within (some c) company_id = company_id == c

-- The row of a query by id, within a scope.
unfoldable pub in_company {ℓ} :
    {A : Type ℓ} → (A → String) → String → Option String → Option A → Result A
in_company company message scope none = throw (not_found message)
in_company company message scope (some row) =
    if within scope (company row) then ok row else throw (not_found message)

unfoldable pub get_quote : User → String → DocumentStore → Result Quote
get_quote user id store = document_scope user >>= λ scope.
    in_company (λ (q : Quote). q.company_id) "Quote not found" scope (get store.quotes id)

unfoldable pub get_invoice : User → String → DocumentStore → Result Invoice
get_invoice user id store = document_scope user >>= λ scope.
    in_company (λ (i : Invoice). i.company_id) "Invoice not found" scope (get store.invoices id)

-- `a || b`.
abbrev pub or_other : Option String → Option String → Option String
or_other a b = if truthy a then a else b

-- The row that a conversion inserts, with the quote's lines.
unfoldable pub invoice_of : String → Quote → ConvertDto → Invoice
invoice_of quote_id quote dto = record {
  company_id = quote.company_id;
  quote_id = some quote_id;
  title = or_other dto.title (some quote.title);
  status = "DRAFT";
  amounts = quote.amounts;
  amount_paid = 0;
  balance_due = quote.amounts.total;
  notes = or_other dto.notes quote.notes;
  terms = or_other dto.terms quote.terms;
  due_at = dto.due_at;
  sent_at = none;
  paid_at = none;
  lines = quote.lines;
}

abbrev pub converted : String → Quote → Quote
converted invoice_id quote = record quote {
  status = "CONVERTED";
  converted_invoice_id = some invoice_id;
}

-- The writes of a conversion.
unfoldable pub insert_invoice : String → Quote → String → ConvertDto → DocumentStore → DocumentStore
insert_invoice id quote invoice_id dto store = record {
  quotes = set store.quotes id (converted invoice_id quote);
  invoices = set store.invoices invoice_id (invoice_of id quote dto);
}

abbrev pub read_invoice : User → String → DocumentStore → Result (Invoice × DocumentStore)
read_invoice user id store = get_invoice user id store >>= λ invoice. ok (invoice, store)

unfoldable pub convert_quote_to_invoice :
    User → String → ConvertDto → String → DocumentStore → Result (Invoice × DocumentStore)
convert_quote_to_invoice user id dto invoice_id store = get_quote user id store >>= λ quote.
    (if truthy quote.converted_invoice_id
      then read_invoice user (or_else quote.converted_invoice_id "") store
      else (ensure (not (nat_eq (length quote.lines) 0))
            (bad_request "Quote needs at least one line item before conversion")
          >> read_invoice user invoice_id (insert_invoice id quote invoice_id dto store)))

abbrev pub or_keep {ℓ} : {A : Type ℓ} → Option A → A → A
or_keep none old = old
or_keep (some new) old = new

-- The columns that a new status writes.
unfoldable pub with_status : ℕ → String → Invoice → Invoice
with_status now status invoice =
    let row = record invoice { status = status } in
    if status == "SENT"
    then record row { sent_at = some now }
    else if status == "PAID"
    then record row { paid_at = some now; balance_due = 0 }
    else if status == "VOID"
    then record row { balance_due = 0 }
    else row

-- The columns that an amount paid writes.
unfoldable pub with_payment : ℕ → ℕ → Invoice → Invoice
with_payment now paid invoice =
    let balance = invoice.amounts.total - paid in
    let row = record invoice { amount_paid = paid; balance_due = balance } in
    if nat_eq balance 0
    then record row { status = "PAID"; paid_at = some now }
    else if ltb 0 paid
    then record row { status = "PARTIAL" }
    else row

unfoldable pub with_texts : InvoiceDto → Invoice → Invoice
with_texts dto invoice = record invoice {
  title = or_keep dto.title invoice.title;
  notes = or_keep dto.notes invoice.notes;
  terms = or_keep dto.terms invoice.terms;
  due_at = or_keep dto.due_at invoice.due_at;
}

-- `normalizeOption` of `dto.status`, where the body has one.
unfoldable pub checked_status : (String → String) → Option String → Result (Option String)
checked_status upper status =
    if truthy status
    then (if includes invoice_statuses (upper (or_else status ""))
        then ok (some (upper (or_else status "")))
        else throw (bad_request "Invalid invoice status"))
    else ok none

unfoldable pub updated_invoice : InvoiceDto → Option String → ℕ → Invoice → Invoice
updated_invoice dto status now invoice =
    let row = with_texts dto invoice in
    let moved = elim status as (λ s. Invoice) [ none ↦ row | some s ↦ with_status now s row ] in
    elim dto.amount_paid as (λ p. Invoice) [ none ↦ moved | some p ↦ with_payment now p moved ]

unfoldable pub update_invoice :
    (String → String)
    → User
    → String
    → InvoiceDto
    → ℕ
    → DocumentStore
    → Result (Invoice × DocumentStore)
update_invoice upper user id dto now store = get_invoice user id store >>= λ existing.
    checked_status upper dto.status >>= λ status.
    read_invoice user id
      (record store { invoices = set store.invoices id (updated_invoice dto status now existing) })
