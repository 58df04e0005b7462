-- ===== src/Invoices/Conversion.antt =====
-- What the conversion of a quote leaves (src/modules/quotes-invoices/quotes-invoices.service.ts).
use fieldserviceit_backend.Base.{
  ◌<◌, if◌then◌else◌, String, ◌≡◌, ◌≢◌, refl, sym, ap, ◌∙◌, subst, true, false, not, Option, none,
  some, arith, ◌==◌, eq_iff, eq_refl, nat_eq, length, truthy, or_else, Result, ok, bad_request,
  ensure, ensure-eq-ok, ◌>>◌, >>=-eq-ok, >>-eq-ok, Bool-cases, inl, inr,
}
use fieldserviceit_backend.Base.Map.{get, get-set}
use fieldserviceit_backend.Access.{User}
use fieldserviceit_backend.Invoices.{Quote, Invoice, DocumentStore, ConvertDto}
use fieldserviceit_backend.Invoices.Operations.{
  document_scope, within, in_company, get_quote, get_invoice, invoice_of, converted, insert_invoice,
  read_invoice, convert_quote_to_invoice,
}

pub in_company-eq-ok {ℓ} :
    {A : Type ℓ} (company : A → String) (message : String) (scope : Option String) (row : Option A)
    (a : A)
    → in_company company message scope row ≡ ok a
    → (row ≡ some a) × (within scope (company a) ≡ true)
unfolding in_company
in_company-eq-ok company message scope none a h = absurd (cc)
in_company-eq-ok company message scope (some row) a h =
    elim (Bool-cases (within scope (company row))) [
      | inl e ↦
          let same : row ≡ a = ground (arith, e) in
          (ap (λ x. some x) same, subst (λ x. within scope (company x) ≡ true) same e)
      | inr e ↦ absurd (ground (arith, e))
    ]

get_quote-eq-ok :
    (user : User) (id : String) (store : DocumentStore) (quote : Quote)
    → get_quote user id store ≡ ok quote
    → (scope : Option String) × (document_scope user ≡ ok scope)
      × (get store.quotes id ≡ some quote)
      × (within scope quote.company_id ≡ true)
unfolding get_quote
get_quote-eq-ok user id store quote h =
    let (scope, scoped, seen) = >>=-eq-ok (document_scope user) _ h in
    let (row, inside) =
      in_company-eq-ok (λ (q : Quote). q.company_id) "Quote not found" scope (get store.quotes id)
        quote seen in
    (scope, scoped, row, inside)

-- Rows in the scope are found.
get_quote_found :
    (user : User) (id : String) (store : DocumentStore) (quote : Quote) (scope : Option String)
    → document_scope user ≡ ok scope
    → get store.quotes id ≡ some quote
    → within scope quote.company_id ≡ true
    → get_quote user id store ≡ ok quote
unfolding get_quote in_company
get_quote_found user id store quote scope scoped row inside = rw (scoped, row, inside) refl

pub get_invoice_found :
    (user : User) (id : String) (store : DocumentStore) (invoice : Invoice) (scope : Option String)
    → document_scope user ≡ ok scope
    → get store.invoices id ≡ some invoice
    → within scope invoice.company_id ≡ true
    → get_invoice user id store ≡ ok invoice
unfolding get_invoice in_company
get_invoice_found user id store invoice scope scoped row inside = rw (scoped, row, inside) refl

convert_converted :
    (user : User) (id : String) (dto : ConvertDto) (invoice_id : String) (store : DocumentStore)
    (quote : Quote)
    → get_quote user id store ≡ ok quote
    → truthy quote.converted_invoice_id ≡ true
    → convert_quote_to_invoice user id dto invoice_id store
      ≡ read_invoice user (or_else quote.converted_invoice_id "") store
unfolding convert_quote_to_invoice
convert_converted user id dto invoice_id store quote found done = rw (found, done) refl

convert_open :
    (user : User) (id : String) (dto : ConvertDto) (invoice_id : String) (store : DocumentStore)
    (quote : Quote)
    → get_quote user id store ≡ ok quote
    → truthy quote.converted_invoice_id ≡ false
    → convert_quote_to_invoice user id dto invoice_id store ≡ (
        ensure
          (not (nat_eq (length quote.lines) 0))
          (bad_request "Quote needs at least one line item before conversion")
        >> read_invoice user invoice_id (insert_invoice id quote invoice_id dto store))
unfolding convert_quote_to_invoice
convert_open user id dto invoice_id store quote found unset = rw (found, unset) refl

invoice_within :
    (id : String) (quote : Quote) (dto : ConvertDto) (scope : Option String)
    → within scope quote.company_id ≡ true
    → within scope (invoice_of id quote dto).company_id ≡ true
unfolding invoice_of
invoice_within id quote dto scope inside = inside

quote_of_conversion :
    (user : User) (id : String) (dto : ConvertDto) (invoice_id : String) (store : DocumentStore)
    (answer : Invoice × DocumentStore)
    → convert_quote_to_invoice user id dto invoice_id store ≡ ok answer
    → (quote : Quote) × (get_quote user id store ≡ ok quote)
unfolding convert_quote_to_invoice
quote_of_conversion user id dto invoice_id store answer h =
    let (quote, found, _) = >>=-eq-ok (get_quote user id store) _ h in (quote, found)

-- What the writes of a conversion leave to be read.
inserted :
    (user : User) (id : String) (dto : ConvertDto) (invoice_id : String) (store : DocumentStore)
    (quote : Quote)
    → get_quote user id store ≡ ok quote
    → (get_quote user id (insert_invoice id quote invoice_id dto store)
        ≡ ok (converted invoice_id quote))
      × (get_invoice user invoice_id (insert_invoice id quote invoice_id dto store)
          ≡ ok (invoice_of id quote dto))
unfolding insert_invoice
inserted user id dto invoice_id store quote found =
    let (scope, scoped, row, inside) = get_quote-eq-ok user id store quote found in
    let store' = insert_invoice id quote invoice_id dto store in
    let quote' = get-set store.quotes id id (converted invoice_id quote) in
    let invoice' = get-set store.invoices invoice_id invoice_id (invoice_of id quote dto) in
    (
      get_quote_found user id store' (converted invoice_id quote) scope scoped
          (rw (quote', eq_refl id) refl) inside,
      get_invoice_found user invoice_id store' (invoice_of id quote dto) scope scoped
          (rw (invoice', eq_refl invoice_id) refl) (invoice_within id quote dto scope inside),
    )

pub ok_store :
    (row invoice : Invoice) (store store' : DocumentStore)
    → ◌≡◌ {A = Result (Invoice × DocumentStore)} (ok (row, store)) (ok (invoice, store'))
    → store ≡ store'
ok_store row invoice store store' h = cc

read_invoice_same :
    (user : User) (id : String) (store store' : DocumentStore) (invoice : Invoice)
    → read_invoice user id store ≡ ok (invoice, store')
    → store ≡ store'
read_invoice_same user id store store' invoice h =
    let (row, read, answer) = >>=-eq-ok (get_invoice user id store) _ h in
    ok_store row invoice store store' answer

-- What the first conversion of a quote returns and writes.
converted_first :
    (user : User) (id : String) (dto : ConvertDto) (invoice_id : String)
    (store store' : DocumentStore) (quote : Quote) (invoice : Invoice)
    → get_quote user id store ≡ ok quote
    → truthy quote.converted_invoice_id ≡ false
    → convert_quote_to_invoice user id dto invoice_id store ≡ ok (invoice, store')
    → (invoice ≡ invoice_of id quote dto)
      × (store' ≡ insert_invoice id quote invoice_id dto store)
      × (get_quote user id store' ≡ ok (converted invoice_id quote))
      × (nat_eq (length quote.lines) 0 ≡ false)
converted_first user id dto invoice_id store store' quote invoice found unset h =
    let written = insert_invoice id quote invoice_id dto store in
    let (quote', invoice') = inserted user id dto invoice_id store quote found in
    let (nonempty, read) =
      >>-eq-ok (ensure (not (nat_eq (length quote.lines) 0)) _)
        (read_invoice user invoice_id written)
        (sym (convert_open user id dto invoice_id store quote found unset) ∙ h) in
    let answer : ◌≡◌ {A = Result (Invoice × DocumentStore)} (ok (invoice_of id quote dto, written))
        (ok (invoice, store')) =
      rw invoice' at read in
    let store_same : written ≡ store' = cc in
    (
      cc,
      sym store_same,
      subst (λ s. get_quote user id s ≡ ok (converted invoice_id quote)) store_same quote',
      ground (arith, ensure-eq-ok _ _ nonempty),
    )

-- The first conversion of a quote, which has lines, returns a draft of its amounts and lines with
-- nothing paid and the total due, stores it under the drawn id, and marks the stored quote as converted
-- to that id.
pub convert_quote_to_invoice-first :
    (user : User) (id : String) (dto : ConvertDto) (invoice_id : String)
    (store store' : DocumentStore) (quote : Quote) (invoice : Invoice)
    → get_quote user id store ≡ ok quote
    → truthy quote.converted_invoice_id ≡ false
    → convert_quote_to_invoice user id dto invoice_id store ≡ ok (invoice, store')
    → (invoice ≡ record {
      company_id = quote.company_id;
      quote_id = some id;
      title = if truthy dto.title then dto.title else some quote.title;
      status = "DRAFT";
      amounts = quote.amounts;
      amount_paid = 0;
      balance_due = quote.amounts.total;
      notes = if truthy dto.notes then dto.notes else quote.notes;
      terms = if truthy dto.terms then dto.terms else quote.terms;
      due_at = dto.due_at;
      sent_at = none;
      paid_at = none;
      lines = quote.lines;
    })
      × (get store'.invoices invoice_id ≡ some invoice)
      × (get store'.quotes id
          ≡ some (record quote { status = "CONVERTED"; converted_invoice_id = some invoice_id }))
      × (0 < length quote.lines)
unfolding invoice_of insert_invoice
convert_quote_to_invoice-first user id dto invoice_id store store' quote invoice found unset h =
    let (row, written, _, lines) =
      converted_first user id dto invoice_id store store' quote invoice found unset h in
    let stored = get-set store.invoices invoice_id invoice_id (invoice_of id quote dto) in
    let marked = get-set store.quotes id id (converted invoice_id quote) in
    let invoices = ap (λ (s : DocumentStore). get s.invoices invoice_id) written in
    let quotes = ap (λ (s : DocumentStore). get s.quotes id) written in
    (
      row,
      invoices ∙ rw (stored, eq_refl invoice_id) (ap (λ (i : Invoice). some i) (sym row)),
      quotes ∙ rw (marked, eq_refl id) refl,
      ground (arith, lines),
    )

-- Once a quote has been converted, converting it again, with any body and any new id, returns the
-- same invoice and writes nothing.
pub convert_quote_to_invoice-again :
    (user : User) (id : String) (dto dto' : ConvertDto) (invoice_id invoice_id' : String)
    (store store' : DocumentStore) (invoice : Invoice)
    → invoice_id ≢ ""
    → convert_quote_to_invoice user id dto invoice_id store ≡ ok (invoice, store')
    → convert_quote_to_invoice user id dto' invoice_id' store' ≡ ok (invoice, store')
convert_quote_to_invoice-again user id dto dto' invoice_id invoice_id' store store' invoice real h =
    let (quote, found) = quote_of_conversion user id dto invoice_id store (invoice, store') h in
    elim (Bool-cases (truthy quote.converted_invoice_id)) [
      | inl done ↦
          let read = sym (convert_converted user id dto invoice_id store quote found done) ∙ h in
          let same =
            read_invoice_same user (or_else quote.converted_invoice_id "") store store' invoice
              read in
          subst (λ s. convert_quote_to_invoice user id dto' invoice_id' s ≡ ok (invoice, store'))
            same (convert_converted user id dto' invoice_id' store quote found done ∙ read)
      | inr unset ↦
          let (row, written, quote', _) =
            converted_first user id dto invoice_id store store' quote invoice found unset h in
          let (_, invoice') = inserted user id dto invoice_id store quote found in
          let known : (invoice_id == "") ≡ false = ground (arith, eq_iff invoice_id "") in
          let again =
            convert_converted user id dto' invoice_id' store' (converted invoice_id quote) quote'
              (rw known refl) in
          let stored : get_invoice user invoice_id store' ≡ ok invoice =
            rw (written, row) invoice' in
          (rw known at again) ∙ rw stored refl
    ]
