-- ===== src/Invoices/Tests.antt =====
-- Quotes and invoices (src/modules/quotes-invoices/quotes-invoices.service.ts) at a sample company.
use fieldserviceit_backend.Base.{
  ℕ, ◌-◌, ◌<◌, truthy, String, ◌≡◌, refl, true, false, Option, none, some, [], ◌∷◌, arith, eq_iff,
  ok, length, if◌then◌else◌, ltb,
}
use fieldserviceit_backend.Base.Map.{get, set}
use fieldserviceit_backend.Access.{User}
use fieldserviceit_backend.Invoices.{Quote, Invoice, DocumentStore, ConvertDto, InvoiceDto}
use fieldserviceit_backend.Invoices.Operations.{
  document_scope, in_company, get_quote, get_invoice, invoice_of, converted, insert_invoice,
  convert_quote_to_invoice, with_status, with_payment, with_texts, checked_status, updated_invoice,
  update_invoice,
}
use fieldserviceit_backend.Invoices.Conversion.{
  convert_quote_to_invoice-first, convert_quote_to_invoice-again,
}
use fieldserviceit_backend.Invoices.Payment.{update_invoice-paid}

abbrev clerk : User
clerk = record {
  id = "u1";
  email = "clerk@acme.test";
  role = "TENANT_ADMIN";
  user_type = "BUSINESS";
  company_id = some "acme";
  effective_company_id = none;
  is_active = true;
  auth_version = none;
  department = none;
  location = none;
  is_impersonating_company = false;
  is_impersonating_user = false;
  impersonation_session_id = none;
  impersonation_actor_id = none;
  impersonation_actor_email = none;
}

abbrev repair : Quote
repair = record {
  company_id = "acme";
  title = "Repair";
  status = "APPROVED";
  amounts = record {
    subtotal = 10000;
    tax_rate = 800;
    tax_total = 800;
    discount_total = 0;
    total = 10800;
  };
  notes = none;
  terms = some "30 days";
  converted_invoice_id = none;
  lines =
      record {
        description = "Labour";
        quantity = 200;
        unit_price = 5000;
        taxable = true;
        total = 10000;
      }
      ∷ [];
}

abbrev body : ConvertDto
body = record { title = none; notes = none; terms = none; due_at = some 90 }

abbrev other_body : ConvertDto
other_body = record { title = some "Other"; notes = none; terms = none; due_at = none }

abbrev quoted : DocumentStore
quoted = record { quotes = ("q1", repair) ∷ []; invoices = [] }

abbrev draft : Invoice
draft = record {
  company_id = "acme";
  quote_id = some "q1";
  title = some "Repair";
  status = "DRAFT";
  amounts = repair.amounts;
  amount_paid = 0;
  balance_due = 10800;
  notes = none;
  terms = some "30 days";
  due_at = some 90;
  sent_at = none;
  paid_at = none;
  lines = repair.lines;
}

abbrev invoiced : DocumentStore
invoiced = record { quotes = ("q1", converted "i1" repair) ∷ []; invoices = ("i1", draft) ∷ [] }

conversion : convert_quote_to_invoice clerk "q1" body "i1" quoted ≡ ok (draft, invoiced)
unfolding convert_quote_to_invoice get_quote get_invoice document_scope in_company invoice_of
    insert_invoice get set
conversion = refl

convert_quote_to_invoice-first_example :
    (draft ≡ record {
      company_id = "acme";
      quote_id = some "q1";
      title = if truthy body.title then body.title else some "Repair";
      status = "DRAFT";
      amounts = repair.amounts;
      amount_paid = 0;
      balance_due = 10800;
      notes = if truthy body.notes then body.notes else repair.notes;
      terms = if truthy body.terms then body.terms else repair.terms;
      due_at = body.due_at;
      sent_at = none;
      paid_at = none;
      lines = repair.lines;
    })
    × (get invoiced.invoices "i1" ≡ some draft)
    × (get invoiced.quotes "q1"
        ≡ some (record repair { status = "CONVERTED"; converted_invoice_id = some "i1" }))
    × (0 < length repair.lines)
unfolding get_quote document_scope in_company get
convert_quote_to_invoice-first_example =
    convert_quote_to_invoice-first clerk "q1" body "i1" quoted invoiced repair draft refl refl
      conversion

convert_quote_to_invoice-again_example :
    convert_quote_to_invoice clerk "q1" other_body "i2" invoiced ≡ ok (draft, invoiced)
convert_quote_to_invoice-again_example =
    convert_quote_to_invoice-again clerk "q1" body other_body "i1" "i2" quoted invoiced draft
      (λ e. absurd (ground (arith, eq_iff "i1" "", e))) conversion

abbrev pays : Option String → ℕ → InvoiceDto
pays status amount = record {
  title = none;
  notes = none;
  terms = none;
  status = status;
  due_at = none;
  amount_paid = some amount;
}

abbrev upper : String → String
upper s = s

abbrev partly_paid : Invoice
partly_paid = record draft { status = "PARTIAL"; amount_paid = 800; balance_due = 10000 }

abbrev after_payment : DocumentStore
after_payment = record invoiced { invoices = ("i1", partly_paid) ∷ [] }

update_invoice-paid_example :
    (partly_paid.amount_paid ≡ 800)
    × (partly_paid.balance_due ≡ draft.amounts.total - 800)
    × (partly_paid.status ≡ (if ltb 800 draft.amounts.total then "PARTIAL" else "PAID"))
unfolding update_invoice get_invoice document_scope in_company with_status with_payment with_texts
    checked_status updated_invoice get set
update_invoice-paid_example =
    update_invoice-paid upper clerk "i1" (pays none 800) 7 800 invoiced after_payment draft
      partly_paid refl refl (omega arith) refl
