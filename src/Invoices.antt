-- ===== src/Invoices.antt =====
-- Quotes and invoices (src/modules/quotes-invoices/quotes-invoices.service.ts). Amounts are
-- DECIMAL(12,2) columns, counted in hundredths. Columns that no rule reads are left out, and a row's
-- key is its id; a document holds its lines. Texts of a body are given trimmed.
pub mod Operations
mod Conversion
mod Payment
mod Tests
use fieldserviceit_backend.Base.{ℕ, String, Bool, Option, List}
use fieldserviceit_backend.Base.Map.{Map}

pub record Line : Type 0 where
  pub description : String
  pub quantity : ℕ
  pub unit_price : ℕ
  pub taxable : Bool
  pub total : ℕ

pub record Amounts : Type 0 where
  pub subtotal : ℕ
  pub tax_rate : ℕ
  pub tax_total : ℕ
  pub discount_total : ℕ
  pub total : ℕ

pub record Quote : Type 0 where
  pub company_id : String
  pub title : String
  pub status : String
  pub amounts : Amounts
  pub notes : Option String
  pub terms : Option String
  pub converted_invoice_id : Option String
  pub lines : List Line

pub record Invoice : Type 0 where
  pub company_id : String
  pub quote_id : Option String
  pub title : Option String
  pub status : String
  pub amounts : Amounts
  pub amount_paid : ℕ
  pub balance_due : ℕ
  pub notes : Option String
  pub terms : Option String
  pub due_at : Option ℕ
  pub sent_at : Option ℕ
  pub paid_at : Option ℕ
  pub lines : List Line

pub record DocumentStore : Type 0 where
  pub quotes : Map Quote
  pub invoices : Map Invoice

-- The body of a conversion.
pub record ConvertDto : Type 0 where
  pub title : Option String
  pub notes : Option String
  pub terms : Option String
  pub due_at : Option ℕ

-- The body of an update of an invoice; `none` is a key that the body does not have.
pub record InvoiceDto : Type 0 where
  pub title : Option (Option String)
  pub notes : Option (Option String)
  pub terms : Option (Option String)
  pub status : Option String
  pub due_at : Option (Option ℕ)
  pub amount_paid : Option ℕ
