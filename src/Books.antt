-- ===== src/Books.antt =====
-- backend/app/services/accounting_service.py: ledgers, vouchers and the posting of invoices, with the
-- tables of backend/app/models/accounting.py: its chart of accounts, its writes and its reports.
pub mod Chart
pub mod Charted
pub mod Vouchers
pub mod Balanced
pub mod Runs
pub mod DayBook
pub mod Reports
pub mod Sound
pub mod Tied
pub mod Posting
pub mod Statements
mod Tests
use gst_ai_copilot.Base.{
  ℕ, suc, ◌+◌, zero, ◌==◌, ltb, leb, Bool, true, false, not, ◌&&◌, ◌||◌, Option, none, some, List,
  [], ◌∷◌, ◌++◌, map, select, any, length, find, Text, codes, text_eq, strip, lower, is_empty,
  Decimal, pos, ◌+ℤ◌, ltb_ℤ, leb_ℤ, sum, Result, ok, err, ◌>>=◌, ◌>>◌, raise_if, if◌then◌else◌,
}
use gst_ai_copilot.Accounting.Voucher.{
  Side, debit, credit, is_debit, EntryInput, VoucherError, validate_balanced,
}
use gst_ai_copilot.Accounting.Lines.{Nature}
use gst_ai_copilot.Filing.{InvoiceDirection, sales, purchase}
use gst_ai_copilot.Returns.{ReturnLine}

pub data VoucherType : Type 0 where
  sales_voucher purchase_voucher receipt payment contra journal debit_note credit_note : VoucherType

pub record LedgerGroup : Type 0 where
  pub id : ℕ
  pub organization_id : ℕ
  pub name : Text
  pub nature : Nature
  pub classification : Text
  pub is_system : Bool
  pub sort_order : ℕ

pub record Ledger : Type 0 where
  pub id : ℕ
  pub organization_id : ℕ
  pub name : Text
  pub group_id : ℕ
  pub opening_balance : Decimal
  pub opening_side : Side
  pub gstin : Option Text
  pub is_system : Bool
  pub party_type : Option Text
  pub party_id : Option ℕ
  pub notes : Option Text

-- An `EntryDraft`; a `VoucherEntry` is one with its place in the list.
pub record EntryDraft : Type 0 where
  pub ledger_id : ℕ
  pub side : Side
  pub amount : Decimal
  pub narration : Option Text

-- The number is the count behind the type's prefix, before it is written with four digits.
pub record Voucher : Type 0 where
  pub id : ℕ
  pub organization_id : ℕ
  pub voucher_type : VoucherType
  pub voucher_number : ℕ
  pub date : Text
  pub narration : Option Text
  pub reference : Option Text
  pub total_amount : Decimal
  pub source_invoice_id : Option ℕ
  pub is_auto_generated : Bool
  pub created_by : ℕ
  pub entries : List EntryDraft

pub record Db : Type 0 where
  pub groups : List LedgerGroup
  pub ledgers : List Ledger
  pub vouchers : List Voucher
  pub next_id : ℕ

-- The columns of an invoice that a posting reads.
pub record PostedInvoice : Type 0 where
  pub id : ℕ
  pub direction : InvoiceDirection
  pub invoice_number : Option Text
  pub invoice_date : Option Text
  pub buyer_name : Option Text
  pub supplier_name : Option Text
  pub buyer_gstin : Option Text
  pub supplier_gstin : Option Text
  pub customer_id : Option ℕ
  pub vendor_id : Option ℕ
  pub items : List ReturnLine

pub data BooksError : Type 0 where
  unknown_group ledger_exists no_chart foreign_ledger already_posted nothing_to_post : BooksError
  -- A row that a unique constraint refuses, and a name or a row that is not there.
  integrity_error no_group no_ledger no_voucher : BooksError
  -- `MultipleResultsFound`, where a query for one row at most finds more.
  many_rows : BooksError
  key_error : Text → BooksError
  system_ledger_missing : Text → BooksError
  bad_voucher : VoucherError → BooksError
