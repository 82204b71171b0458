-- ===== src/Reconciliation/Tests.antt =====
-- A reconciliation with every kind of result (see backend/tests/unit/test_gstr_reconciliation.py).
use mathlib.Core.List.{Mem}
use gst_ai_copilot.Base.{
  ℕ, ◌+◌, ◌≡◌, refl, none, some, List, [], ◌∷◌, map, length, All, pos, Text, codes, text_eq, strip,
  upper, ◌-ℤ◌,
}
use gst_ai_copilot.Reconciliation.{
  matched, mismatch, missing_in_return, missing_in_books, BookInvoice, ReturnRecord,
  default_tolerances, reconcile, summarize, get_group, append_to, group_by_key, match_books,
  leftover_records, compare_pair, compare_pairs, reconcile_group, normalize_gstin,
  normalize_invoice_number, match_key, group_step, group_from, has_key,
}
use gst_ai_copilot.Reconciliation.Coverage.{
  reconcile_reports_all, reports_of_book, reports_of_record, books_with_id, records_with_id,
}
use gst_ai_copilot.Reconciliation.Pairing.{Reported, reconcile_sound}
use gst_ai_copilot.Reconciliation.Summary.{summary_counts}

abbrev book : Text → Text → ℕ → BookInvoice
book i number tax = record {
  invoice_id = i;
  supplier_gstin = some (codes "27aapfu0939f1zv");
  invoice_number = some number;
  invoice_date = none;
  taxable_value = pos 1_000_000;
  total_tax = pos tax;
}

abbrev row : Text → Text → ℕ → ReturnRecord
row i number tax = record {
  record_id = i;
  supplier_gstin = some (codes "27AAPFU0939F1ZV ");
  supplier_name = none;
  invoice_number = some number;
  invoice_date = none;
  taxable_value = pos 1_000_000;
  total_tax = pos tax;
}

-- One match, one mismatch, a repeated number, a blank one and a number on one side only.
abbrev books : List BookInvoice
books =
    book (codes "b1") (codes "INV-1") 180_000
    ∷ book (codes "b2") (codes "inv 2") 200_000
    ∷ book (codes "b3") (codes "INV-2") 50_000
    ∷ book (codes "b4") (codes " - ") 70_000
    ∷ []

abbrev rows : List ReturnRecord
rows =
    row (codes "r1") (codes "inv/1") 180_000
    ∷ row (codes "r2") (codes "INV2") 180_000
    ∷ row (codes "r3") (codes "INV-9") 90_000
    ∷ []

statuses :
    map (λ r. r.status) (reconcile default_tolerances books rows)
    ≡ missing_in_return ∷ matched ∷ mismatch ∷ missing_in_return ∷ missing_in_books ∷ []
unfolding reconcile group_by_key group_from group_step append_to get_group match_books
    leftover_records reconcile_group compare_pairs compare_pair normalize_gstin
    normalize_invoice_number match_key has_key text_eq strip upper ◌-ℤ◌
statuses = refl

reconcile_reports_all_example :
    (reports_of_book (codes "b2") (reconcile default_tolerances books rows)
      ≡ books_with_id (codes "b2") books)
    × (reports_of_record (codes "b2") (reconcile default_tolerances books rows)
        ≡ records_with_id (codes "b2") rows)
reconcile_reports_all_example = reconcile_reports_all (codes "b2") default_tolerances books rows

reconcile_sound_example :
    All
      (Reported default_tolerances (λ inv. Mem inv books) (λ rec. Mem rec rows))
      (reconcile default_tolerances books rows)
reconcile_sound_example = reconcile_sound default_tolerances books rows

summary_counts_example :
    let s = summarize (reconcile default_tolerances books rows) in
    (s.total_book_invoices ≡ length books)
    × (s.total_return_records ≡ length rows)
    × (s.matched + s.mismatch + s.missing_in_return ≡ length books)
    × (s.matched + s.mismatch + s.missing_in_books ≡ length rows)
summary_counts_example = summary_counts default_tolerances books rows
