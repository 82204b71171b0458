-- ===== src/Matching/Service/Reads.antt =====
-- Reading and exporting what a run has stored: list_runs, get_run, list_matches and export in backend/app/services/reconciliation_service.py.
use gst_ai_copilot.Base.{
  ◌>>=◌, ℕ, ◌==◌, Bool, true, false, not, ◌&&◌, ◌||◌, Option, none, some, List, [], ◌++◌, map,
  select, find, sorted_by, Text, codes, text_ltb, Decimal, Result, ok, err,
}
use gst_ai_copilot.Reconciliation.{
  MatchStatus, matched, mismatch, missing_in_return, missing_in_books, Reason,
}
use gst_ai_copilot.Matching.{
  ReconciliationRun, ReconciliationMatch, Db, ServiceError, run_not_found,
}

-- `list_runs`, `get_run` and `list_matches`
unfoldable pub list_runs : ℕ → Db → List ReconciliationRun
list_runs org db =
    sorted_by (λ a b. text_ltb b.period a.period) (select (λ r. r.organization_id == org) db.runs)

unfoldable pub get_run : ℕ → ℕ → Db → Result ServiceError ReconciliationRun
get_run org i db = elim (find (λ r. (r.id == i) && (r.organization_id == org)) db.runs) [
  | none ↦ err run_not_found
  | some r ↦ ok r
]

abbrev pub same_status : MatchStatus → MatchStatus → Bool
same_status matched matched = true
same_status mismatch mismatch = true
same_status missing_in_return missing_in_return = true
same_status missing_in_books missing_in_books = true
same_status _ _ = false

abbrev has_status : Option MatchStatus → ReconciliationMatch → Bool
has_status none m = true
has_status (some s) m = same_status m.status s

-- A column that may be null sorts its nulls last.
abbrev pub null_ltb : Option Text → Option Text → Bool
null_ltb none b = false
null_ltb (some a) none = true
null_ltb (some a) (some b) = text_ltb a b

abbrev match_before : ReconciliationMatch → ReconciliationMatch → Bool
match_before a b =
    null_ltb a.invoice_date b.invoice_date
    || (not (null_ltb b.invoice_date a.invoice_date) && null_ltb a.invoice_number b.invoice_number)

unfoldable pub list_matches :
    ℕ → ℕ → Option MatchStatus → Db → Result ServiceError (List ReconciliationMatch)
list_matches org i status db = do
  found ← get_run org i db
  ok (
      sorted_by match_before (
        select (λ m. (m.run_id == i) && ((m.organization_id == org) && has_status status m))
          db.matches))

-- `m.status.value`
unfoldable pub status_value : MatchStatus → Text
status_value matched = codes "matched"
status_value mismatch = codes "mismatch"
status_value missing_in_return = codes "missing_in_return"
status_value missing_in_books = codes "missing_in_books"

abbrev or_blank : Option Text → Text
or_blank none = []
or_blank (some s) = s

-- A row of `build_csv`; an amount that is missing is an empty cell, and the reasons are joined by
-- the writer.
pub record ExportRow : Type 0 where
  pub status : Text
  pub supplier_gstin : Text
  pub invoice_number : Text
  pub invoice_date : Text
  pub book_taxable_value : Option Decimal
  pub book_tax : Option Decimal
  pub return_taxable_value : Option Decimal
  pub return_tax : Option Decimal
  pub taxable_value_difference : Decimal
  pub tax_difference : Decimal
  pub itc_at_risk : Decimal
  pub reasons : List Reason

unfoldable pub export_row : ReconciliationMatch → ExportRow
export_row m = record {
  status = status_value m.status;
  supplier_gstin = or_blank m.supplier_gstin;
  invoice_number = or_blank m.invoice_number;
  invoice_date = or_blank m.invoice_date;
  book_taxable_value = m.book_taxable_value;
  book_tax = m.book_tax;
  return_taxable_value = m.return_taxable_value;
  return_tax = m.return_tax;
  taxable_value_difference = m.taxable_value_difference;
  tax_difference = m.tax_difference;
  itc_at_risk = m.itc_at_risk;
  reasons = m.reasons;
}

-- `export`: the run, the name of the file and its rows.
unfoldable pub export_run :
    ℕ → ℕ → Db → Result ServiceError (ReconciliationRun × Text × List ExportRow)
export_run org i db = do
  run_row ← get_run org i db
  matches ← list_matches org i none db
  ok (run_row, codes "reconciliation_" ++ run_row.period ++ codes ".csv", map export_row matches)
