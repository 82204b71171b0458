-- ===== src/Matching/Service.antt =====
-- backend/app/services/reconciliation_service.py: `run` and what reads its results.
pub mod Reads
use gst_ai_copilot.Base.{
  ℕ, suc, ◌==◌, Bool, true, false, not, ◌&&◌, Option, none, some, List, [], ◌∷◌, ◌++◌, map, select,
  find, change, Text, text_eq, is_empty, Decimal, pos, ◌+ℤ◌, Result, ok, err, raise_if, ◌>>=◌, ◌>>◌,
  if◌then◌else◌,
}
use gst_ai_copilot.Filing.{InvoiceDirection, sales, purchase}
use gst_ai_copilot.Filing.Prepare.Inputs.{is_included, is_in_period}
use gst_ai_copilot.Reconciliation.{
  BookInvoice, ReturnRecord, ReconciliationResult, ReconciliationSummary, default_tolerances,
  reconcile, summarize,
}
use gst_ai_copilot.Matching.{
  Source, Gstr2bRecord, ReconciliationRun, ReconciliationMatch, PurchaseInvoice, Db, ServiceError,
  nothing_uploaded, malformed_id,
}
use gst_ai_copilot.Matching.Upload.{check_period, is_upload}

-- The texts of ids: `str(id)` and `uuid.UUID(text)`.
pub record IdText : Type 0 where
  pub show : ℕ → Text
  pub parse : Text → Option ℕ

abbrev is_purchase : InvoiceDirection → Bool
is_purchase purchase = true
is_purchase sales = false

-- `_load_purchase_invoices`
unfoldable pub load_purchase_invoices : ℕ → Text → Db → List PurchaseInvoice
load_purchase_invoices org period db =
    select
      (λ inv.
        (inv.organization_id == org)
        && (is_purchase inv.direction
            && (is_in_period period inv.invoice_date && is_included inv.status)))
      db.invoices

-- `_load_records`
unfoldable pub load_records : ℕ → Text → Source → Db → List Gstr2bRecord
load_records org period source db = select (is_upload org period source) db.records

abbrev or_zero : Option Decimal → Decimal
or_zero none = pos 0
or_zero (some d) = d

unfoldable pub book_input : IdText → PurchaseInvoice → BookInvoice
book_input ids inv = record {
  invoice_id = ids.show inv.id;
  supplier_gstin = inv.supplier_gstin;
  invoice_number = inv.invoice_number;
  invoice_date = inv.invoice_date;
  taxable_value = or_zero inv.taxable_value;
  total_tax = or_zero inv.total_tax;
}

unfoldable pub return_input : IdText → Gstr2bRecord → ReturnRecord
return_input ids rec = record {
  record_id = ids.show rec.id;
  supplier_gstin = rec.supplier_gstin;
  supplier_name = rec.supplier_name;
  invoice_number = rec.invoice_number;
  invoice_date = rec.invoice_date;
  taxable_value = rec.taxable_value;
  total_tax = rec.igst +ℤ rec.cgst +ℤ rec.sgst +ℤ rec.cess;
}

-- `uuid.UUID(text) if text else None`
unfoldable pub parse_id : IdText → Option Text → Result ServiceError (Option ℕ)
parse_id ids none = ok none
parse_id ids (some t) =
    if is_empty t
    then ok none
    else elim (ids.parse t) [ none ↦ err malformed_id | some i ↦ ok (some i) ]

unfoldable pub match_of :
    IdText → ℕ → ℕ → ReconciliationResult → Result ServiceError ReconciliationMatch
match_of ids org run_id r = do
  invoice_id ← parse_id ids r.book_invoice_id
  record_id ← parse_id ids r.return_record_id
  ok (record {
    organization_id = org;
    run_id = run_id;
    status = r.status;
    invoice_id = invoice_id;
    gstr2b_record_id = record_id;
    supplier_gstin = r.supplier_gstin;
    invoice_number = r.invoice_number;
    invoice_date = r.invoice_date;
    book_taxable_value = r.book_taxable_value;
    book_tax = r.book_tax;
    return_taxable_value = r.return_taxable_value;
    return_tax = r.return_tax;
    taxable_value_difference = r.taxable_value_difference;
    tax_difference = r.tax_difference;
    itc_at_risk = r.itc_at_risk;
    reasons = r.reasons;
  })

-- The loop over the results.
unfoldable pub matches_of :
    IdText → ℕ → ℕ → List ReconciliationResult → Result ServiceError (List ReconciliationMatch)
matches_of ids org run_id [] = ok []
matches_of ids org run_id (r ∷ rs) = do
  first ← match_of ids org run_id r
  rest ← matches_of ids org run_id rs
  ok (first ∷ rest)

abbrev pub is_run_of : ℕ → Text → ReconciliationRun → Bool
is_run_of org period r = (r.organization_id == org) && text_eq r.period period

-- The columns that a run writes, those of a new row and of one that is there.
unfoldable pub with_summary :
    Source → ReconciliationSummary → ℕ → ReconciliationRun → ReconciliationRun
with_summary source s user r = record r {
  source = source;
  book_invoice_count = s.total_book_invoices;
  return_record_count = s.total_return_records;
  matched_count = s.matched;
  mismatch_count = s.mismatch;
  missing_in_return_count = s.missing_in_return;
  missing_in_books_count = s.missing_in_books;
  itc_at_risk = s.itc_at_risk;
  potential_unclaimed_itc = s.potential_unclaimed_itc;
  run_by = some user;
}

abbrev pub blank_run : ℕ → ℕ → Text → Source → ReconciliationRun
blank_run id org period source = record {
  id = id;
  organization_id = org;
  period = period;
  source = source;
  book_invoice_count = 0;
  return_record_count = 0;
  matched_count = 0;
  mismatch_count = 0;
  missing_in_return_count = 0;
  missing_in_books_count = 0;
  itc_at_risk = pos 0;
  potential_unclaimed_itc = pos 0;
  run_by = none;
}

-- A new row, and its results.
unfoldable pub store_new :
    IdText
    → ℕ
    → ℕ
    → Text
    → Source
    → List ReconciliationResult
    → Db
    → Result ServiceError (Db × ReconciliationRun)
store_new ids org user period source results db = do
  let run_row =
      with_summary source (summarize results) user (blank_run db.next_id org period source)
  matches ← matches_of ids org db.next_id results
  ok (
    record db {
      runs = db.runs ++ (run_row ∷ []);
      matches = db.matches ++ matches;
      next_id = suc db.next_id;
    },
    run_row,
  )

-- The row that is there, without its old results, and the new ones.
unfoldable pub store_again :
    IdText
    → ℕ
    → ℕ
    → Text
    → Source
    → List ReconciliationResult
    → ReconciliationRun
    → Db
    → Result ServiceError (Db × ReconciliationRun)
store_again ids org user period source results old db = do
  matches ← matches_of ids org old.id results
  ok (
    record db {
      runs = change (is_run_of org period) (with_summary source (summarize results) user) db.runs;
      matches = select (λ m. not (m.run_id == old.id)) db.matches ++ matches;
    },
    with_summary source (summarize results) user old,
  )

unfoldable pub store_results :
    IdText
    → ℕ
    → ℕ
    → Text
    → Source
    → List ReconciliationResult
    → Db
    → Result ServiceError (Db × ReconciliationRun)
store_results ids org user period source results db = elim (find (is_run_of org period) db.runs) [
  | none ↦ store_new ids org user period source results db
  | some old ↦ store_again ids org user period source results old db
]

-- `run`; the audit entry is left out.
unfoldable pub run :
    IdText → ℕ → ℕ → Text → Source → Db → Result ServiceError (Db × ReconciliationRun)
run ids org user period source db = do
  check_period period
  let invoices = load_purchase_invoices org period db
  let records = load_records org period source db
  raise_if (is_empty records) nothing_uploaded
  let results =
      reconcile default_tolerances (map (book_input ids) invoices) (map (return_input ids) records)
  store_results ids org user period source results db
