-- ===== src/Matching.antt =====
-- backend/app/services/reconciliation_service.py, with the tables of
-- backend/app/models/reconciliation.py: the upload of supplier records, the runs of a
-- reconciliation and their stored results. Times of creation are left out.
pub mod Upload
pub mod Service
pub mod Imports
pub mod Agreement
pub mod Runs
mod Tests
use gst_ai_copilot.Base.{ℕ, Option, List, Text, Decimal}
use gst_ai_copilot.Filing.{InvoiceDirection, InvoiceStatus, FilingError}
use gst_ai_copilot.Reconciliation.{MatchStatus, Reason}

-- `ReconciliationSource`
pub data Source : Type 0 where
  gstr2a gstr2b : Source

pub record Gstr2bRecord : Type 0 where
  pub id : ℕ
  pub organization_id : ℕ
  pub period : Text
  pub source : Source
  pub row_number : ℕ
  pub supplier_gstin : Option Text
  pub supplier_name : Option Text
  pub invoice_number : Option Text
  pub invoice_date : Option Text
  pub taxable_value : Decimal
  pub igst : Decimal
  pub cgst : Decimal
  pub sgst : Decimal
  pub cess : Decimal
  pub uploaded_by : Option ℕ

pub record ReconciliationRun : Type 0 where
  pub id : ℕ
  pub organization_id : ℕ
  pub period : Text
  pub source : Source
  pub book_invoice_count : ℕ
  pub return_record_count : ℕ
  pub matched_count : ℕ
  pub mismatch_count : ℕ
  pub missing_in_return_count : ℕ
  pub missing_in_books_count : ℕ
  pub itc_at_risk : Decimal
  pub potential_unclaimed_itc : Decimal
  pub run_by : Option ℕ

pub record ReconciliationMatch : Type 0 where
  pub organization_id : ℕ
  pub run_id : ℕ
  pub status : MatchStatus
  pub invoice_id : Option ℕ
  pub gstr2b_record_id : Option ℕ
  pub supplier_gstin : Option Text
  pub invoice_number : Option Text
  pub invoice_date : Option Text
  pub book_taxable_value : Option Decimal
  pub book_tax : Option Decimal
  pub return_taxable_value : Option Decimal
  pub return_tax : Option Decimal
  pub taxable_value_difference : Decimal
  pub tax_difference : Decimal
  pub itc_at_risk : Decimal
  pub reasons : List Reason

-- The columns of an invoice that a run reads.
pub record PurchaseInvoice : Type 0 where
  pub id : ℕ
  pub organization_id : ℕ
  pub direction : InvoiceDirection
  pub status : InvoiceStatus
  pub supplier_gstin : Option Text
  pub invoice_number : Option Text
  pub invoice_date : Option Text
  pub taxable_value : Option Decimal
  pub total_tax : Option Decimal

pub record Db : Type 0 where
  pub invoices : List PurchaseInvoice
  pub records : List Gstr2bRecord
  pub runs : List ReconciliationRun
  pub matches : List ReconciliationMatch
  pub next_id : ℕ

-- The logical columns of an upload, in the order of `_COLUMN_ALIASES`.
pub data Column : Type 0 where
  supplier_gstin_column supplier_name_column invoice_number_column : Column
  invoice_date_column taxable_value_column igst_column cgst_column sgst_column : Column
  cess_column : Column

pub data ServiceError : Type 0 where
  not_utf8 empty_file no_data_rows nothing_uploaded run_not_found malformed_id : ServiceError
  missing_columns : List Column → ServiceError
  bad_period : FilingError → ServiceError
