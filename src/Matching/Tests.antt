-- ===== src/Matching/Tests.antt =====
-- An upload and a run on it.
use gst_ai_copilot.Filing.Prepare.Inputs.{month_of}
use gst_ai_copilot.Base.{
  map, is_unicode_digit, decimal_value, ℕ, ◌≡◌, refl, Option, none, some, List, [], ◌∷◌, Text,
  codes, text_eq, Decimal, pos, Result, ok, err, strip, lstrip, is_space, lower, to_lower, upper,
  to_upper, find, change, ◌+ℤ◌, ◌-ℤ◌, if◌then◌else◌,
}
use gst_ai_copilot.Filing.{purchase, extracted}
use gst_ai_copilot.Filing.Prepare.Inputs.{validate_period, starts_with}
use gst_ai_copilot.Matching.{
  gstr2b, PurchaseInvoice, ReconciliationRun, Db, ServiceError, missing_columns,
}
use gst_ai_copilot.Matching.{supplier_gstin_column, invoice_number_column, taxable_value_column}
use gst_ai_copilot.Matching.Upload.{
  UploadRow, parse_csv, build_column_map, map_columns, first_alias, cell_of, aliases, get_cell,
  read_rows, read_row, place_of, cell_at, check_period, decimal_of, new_record, new_records,
  import_records,
}
use gst_ai_copilot.Matching.Service.{
  IdText, load_records, run, blank_run, store_results, store_new, matches_of,
  load_purchase_invoices, book_input, match_of, parse_id, return_input, store_again, with_summary,
}
use gst_ai_copilot.Reconciliation.{
  reconcile, group_by_key, group_from, group_step, append_to, compare_pair, compare_pairs,
  get_group, has_key, leftover_records, match_books, match_key, normalize_gstin,
  normalize_invoice_number, reconcile_group, summarize, summarize_from, summary_step,
}
use gst_ai_copilot.Matching.Runs.{done, more, imports, runs, Steps-IsConsistent}
use gst_ai_copilot.Matching.Runs.Stored.{IsConsistent}

abbrev read : Text → Option Decimal
read s = if text_eq s (codes "100") then some (pos 1_000_000) else none

abbrev ids : IdText
ids = record { show = λ i. i ∷ []; parse = λ t. first t }
  where
    first : Text → Option ℕ
    first [] = none
    first (c ∷ t) = some c

abbrev header : List Text
header = codes " GSTIN " ∷ codes "Invoice No." ∷ codes "Taxable Value" ∷ []

abbrev cells : List Text
cells = codes " 27aapfu0939f1zv" ∷ codes "A-1" ∷ codes "₹100" ∷ []

abbrev blank_cells : List Text
blank_cells = codes "  " ∷ []

abbrev or_no_rows : Result ServiceError (List UploadRow) → List UploadRow
or_no_rows (ok rows) = rows
or_no_rows (err e) = []

abbrev rows : List UploadRow
rows =
    ((supplier_gstin_column, codes " 27aapfu0939f1zv")
      ∷ (invoice_number_column, codes "A-1")
      ∷ (taxable_value_column, codes "₹100")
      ∷ [])
    ∷ []

-- Blank rows are passed over.
parsed : parse_csv (some (header ∷ blank_cells ∷ cells ∷ [])) ≡ ok rows
unfolding parse_csv build_column_map map_columns first_alias cell_of aliases get_cell read_rows
    read_row place_of cell_at strip lstrip is_space lower to_lower text_eq
parsed = refl

no_number :
    parse_csv (some ((codes "gstin" ∷ codes "taxable value" ∷ []) ∷ cells ∷ []))
    ≡ err (missing_columns (invoice_number_column ∷ []))
unfolding parse_csv build_column_map map_columns first_alias cell_of aliases get_cell strip lstrip
    is_space lower to_lower text_eq
no_number = refl

abbrev january : Text
january = codes "2026-01"

abbrev bill : PurchaseInvoice
bill = record {
  id = 5;
  organization_id = 7;
  direction = purchase;
  status = extracted;
  supplier_gstin = some (codes "27AAPFU0939F1ZV");
  invoice_number = some (codes "a1");
  invoice_date = some (codes "2026-01-09");
  taxable_value = some (pos 1_000_000);
  total_tax = some (pos 180_000);
}

abbrev start : Db
start = record { invoices = bill ∷ []; records = []; runs = []; matches = []; next_id = 10 }

abbrev db_of : {A : Type 0} → Result ServiceError (Db × A) → Db
db_of (ok (db, a)) = db
db_of (err e) = start

abbrev first_import : Result ServiceError (Db × ℕ)
first_import = import_records read 7 3 january gstr2b rows start

imported : first_import ≡ ok (db_of first_import, 1)
unfolding import_records check_period validate_period month_of is_unicode_digit decimal_value
imported = refl

abbrev first_run : Result ServiceError (Db × ReconciliationRun)
first_run = run ids 7 3 january gstr2b (db_of first_import)

start-IsConsistent : IsConsistent start
start-IsConsistent = record { distinct = tt; runs_below = tt; results_below = tt; agree = tt }

abbrev row_of : Result ServiceError (Db × ReconciliationRun) → ReconciliationRun
row_of (ok (db, r)) = r
row_of (err e) = blank_run 0 7 january gstr2b

ran : first_run ≡ ok (db_of first_run, row_of first_run)
unfolding run check_period validate_period month_of is_unicode_digit decimal_value load_records
    import_records new_records new_record text_eq store_results find store_new matches_of reconcile
    group_by_key group_from group_step load_purchase_invoices starts_with ◌+ℤ◌ ◌-ℤ◌ change is_space
    lstrip strip to_upper upper book_input match_of parse_id return_input store_again with_summary
    decimal_of get_cell append_to compare_pair compare_pairs get_group has_key leftover_records
    match_books match_key normalize_gstin normalize_invoice_number reconcile_group summarize
    summarize_from summary_step
ran = refl

-- A second upload deletes the record that a stored result names, which then names none.
forgotten :
    map
      (λ m. m.gstr2b_record_id)
      (db_of (import_records read 7 3 january gstr2b rows (db_of first_run))).matches
    ≡ none ∷ []
unfolding run check_period validate_period month_of is_unicode_digit decimal_value load_records
    import_records new_records new_record text_eq store_results find store_new matches_of reconcile
    group_by_key group_from group_step load_purchase_invoices starts_with ◌+ℤ◌ ◌-ℤ◌ change is_space
    lstrip strip to_upper upper book_input match_of parse_id return_input store_again with_summary
    decimal_of get_cell append_to compare_pair compare_pairs get_group has_key leftover_records
    match_books match_key normalize_gstin normalize_invoice_number reconcile_group summarize
    summarize_from summary_step
forgotten = refl

Steps-IsConsistent_example : IsConsistent (db_of first_run)
Steps-IsConsistent_example =
    Steps-IsConsistent read ids
      (more (more (done start) (imports 7 3 january gstr2b rows start _ 1 imported))
        (runs 7 3 january gstr2b _ _ _ ran))
      start-IsConsistent
