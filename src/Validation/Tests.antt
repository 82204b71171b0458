-- ===== src/Validation/Tests.antt =====
-- An invoice that passes, and one with three faults (see backend/tests/unit/test_invoice_validation.py).
use gst_ai_copilot.Base.{
  ◌≤◌, ◌≡◌, refl, ◌↔◌, none, some, true, false, [], ◌∷◌, pos, codes, strip, lstrip, is_space, upper,
  to_upper,
}
use gst_ai_copilot.Gst.{intra_state}
use gst_ai_copilot.Gstin.{
  validate_gstin, validate_cleaned, match_gstin, is_state_code, compute_checksum, checksum_total,
  digit_of, char_of, but_last, last_char,
}
use gst_ai_copilot.Validation.{
  InvoiceInput, InvoiceLineItem, validate_invoice, passed, failed, all_rules, rule_gstin,
  rule_invoice_number, rule_no_duplicate, rule_invoice_date, rule_place_of_supply, rule_line_items,
  rule_hsn_sac, rule_tax_arithmetic, rule_totals, missing_hsn, tax_issues, tax_differs, issues_of,
  passed_of, penalty, status_of,
}
use gst_ai_copilot.Validation.Score.{IsScoredAs}
use gst_ai_copilot.Validation.Laws.{validate_invoice-IsScoredAs}
use gst_ai_copilot.Validation.Clean.{IsClean, validate_invoice_passes_iff}

abbrev item : InvoiceLineItem
item = record {
  description = none;
  hsn_sac = some (codes "8471");
  taxable_value = pos 10_000_000;
  gst_rate = pos 180_000;
  cgst = pos 900_000;
  sgst = pos 900_000;
  igst = pos 0;
  cess = pos 0;
}

abbrev invoice : InvoiceInput
invoice = record {
  invoice_number = some (codes "INV-001");
  invoice_date = some (codes "2026-01-15");
  supplier_gstin = some (codes "27AAPFU0939F1ZV");
  buyer_gstin = some (codes "29AAPFU0939F1ZR");
  place_of_supply = some (codes "27");
  transaction_scope = some intra_state;
  items = item ∷ [];
  declared_taxable_value = some (pos 10_005_000);
  declared_total_tax = none;
  declared_grand_total = none;
  is_duplicate_invoice_number = false;
}

-- No buyer, a second line without a code, and a repeated number.
abbrev faulty : InvoiceInput
faulty = record invoice {
  buyer_gstin = none;
  items = item ∷ (record item { hsn_sac = none }) ∷ [];
  transaction_scope = none;
  declared_taxable_value = none;
  is_duplicate_invoice_number = true;
}

faulty_run :
    ((validate_invoice (codes "2026.01") faulty).status ≡ failed)
    × ((validate_invoice (codes "2026.01") faulty).score ≡ 47)
unfolding validate_invoice all_rules rule_gstin rule_invoice_number rule_no_duplicate
    rule_invoice_date rule_place_of_supply rule_line_items rule_hsn_sac rule_tax_arithmetic
    rule_totals missing_hsn tax_issues tax_differs issues_of passed_of penalty status_of
    validate_gstin validate_cleaned strip lstrip is_space upper to_upper match_gstin is_state_code
    compute_checksum checksum_total digit_of char_of but_last last_char
faulty_run = (refl, refl)

validate_invoice-IsScoredAs_example :
    let r = validate_invoice (codes "2026.01") faulty in
    IsScoredAs r.status r.score
    × ((r.status ≡ passed) ↔ (r.passed_checks ≡ r.total_checks))
    × (r.passed_checks ≤ r.total_checks)
validate_invoice-IsScoredAs_example = validate_invoice-IsScoredAs (codes "2026.01") faulty

validate_invoice_passes_iff_example :
    ((validate_invoice (codes "2026.01") invoice).status ≡ passed)
    ↔ IsClean (codes "2026.01") invoice
validate_invoice_passes_iff_example = validate_invoice_passes_iff (codes "2026.01") invoice
