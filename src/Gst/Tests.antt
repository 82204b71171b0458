-- ===== src/Gst/Tests.antt =====
-- Runs of the calculator on small inputs (see also backend/tests/unit/test_gst_calculator.py), and
-- the theorems at them.
use gst_ai_copilot.Base.{
  ℕ, Option, ◌+◌, ◌*◌, ◌≤◌, ◌<◌, ◌≡◌, refl, ◌↔◌, some, pos, negsuc, ◌-ℤ◌, ◌+ℤ◌, ◌*ℤ◌, ◌≤ℤ◌, abs,
  sum, Text, codes, text_eq, ok, err, List, [], ◌∷◌, length, All, is_empty, false, true,
}
use gst_ai_copilot.Gst.{
  TransactionType, parse_transaction_type, Numeric, number, unreadable, CalcError, FieldName,
  GstCalculation, Warning, LineItem, calculate, calculate_each, calculate_line_items, invoice_total,
  tax_split, warnings_for, round, round_half_up,
}
use gst_ai_copilot.Gst.Laws.{
  calculate_ok_iff, IsAcceptable, is_ok, intra, inter, intra-inter_agree, inter_rounding,
}
use gst_ai_copilot.Gst.Lines.{AddsUp, calculate_line_items-AddsUp}

abbrev version : Text
version = codes "2026.01"

-- ₹33.33 at 18 %: 3.00 within the state twice, and 6.00 between states.
abbrev value : Numeric
value = number (pos 333_300)

abbrev eighteen : Numeric
eighteen = number (pos 180_000)

abbrev nothing : Numeric
nothing = number (pos 0)

abbrev local_bill : GstCalculation
local_bill = record {
  rules_version = version;
  transaction_type = TransactionType.intra_state;
  taxable_value = pos 333_300;
  gst_rate = pos 180_000;
  cess_rate = pos 0;
  cgst = pos 30_000;
  sgst = pos 30_000;
  igst = pos 0;
  cess = pos 0;
  total_tax = pos 60_000;
  grand_total = pos 393_300;
  warnings = [];
}

abbrev far_bill : GstCalculation
far_bill = record local_bill {
  transaction_type = TransactionType.inter_state;
  cgst = pos 0;
  sgst = pos 0;
  igst = pos 60_000;
}

local_run : calculate version value eighteen intra nothing ≡ ok local_bill
unfolding calculate parse_transaction_type text_eq tax_split warnings_for round round_half_up ◌*ℤ◌
    ◌+ℤ◌
local_run = refl

far_run : calculate version value eighteen inter nothing ≡ ok far_bill
unfolding calculate parse_transaction_type text_eq tax_split warnings_for round round_half_up ◌*ℤ◌
    ◌+ℤ◌
far_run = refl

negative_run :
    calculate version (number (negsuc 0)) eighteen intra nothing ≡ err CalcError.negative_taxable
unfolding calculate parse_transaction_type text_eq
negative_run = refl

unreadable_run :
    calculate version unreadable eighteen intra nothing
    ≡ err (CalcError.invalid_numeric FieldName.taxable_value_field)
unfolding calculate
unreadable_run = refl

calculate_ok_iff_example :
    (is_ok (calculate version value eighteen inter nothing) ≡ true)
    ↔ IsAcceptable value eighteen inter nothing
calculate_ok_iff_example = calculate_ok_iff version value eighteen inter nothing

intra-inter_agree_example :
    (local_bill.cgst ≡ local_bill.sgst)
    × (local_bill.igst ≡ pos 0)
    × (abs (local_bill.total_tax -ℤ far_bill.total_tax) ≤ℤ pos 100)
intra-inter_agree_example = intra-inter_agree version value eighteen nothing local_run far_run

inter_rounding_example :
    (i : ℕ) × (far_bill.igst ≡ pos (i * 100))
    × (i * 10_000_000_000 ≤ 333_300 * 180_000 * 100 + 5_000_000_000)
    × (333_300 * 180_000 * 100 + 5_000_000_000 < i * 10_000_000_000 + 10_000_000_000)
    × (far_bill.igst ≤ℤ far_bill.taxable_value)
inter_rounding_example = inter_rounding version 333_300 180_000 nothing far_run

abbrev export_bill : GstCalculation
export_bill = record far_bill {
  transaction_type = TransactionType.export;
  igst = pos 0;
  total_tax = pos 0;
  grand_total = pos 333_300;
  warnings = Warning.rate_ignored (pos 180_000) TransactionType.export ∷ [];
}

export_known : parse_transaction_type (codes "export") ≡ some TransactionType.export
unfolding parse_transaction_type text_eq
export_known = refl

export_run : calculate version value eighteen (codes "export") nothing ≡ ok export_bill
unfolding calculate parse_transaction_type text_eq tax_split warnings_for round round_half_up ◌*ℤ◌
    ◌+ℤ◌
export_run = refl

abbrev line_item : LineItem
line_item = record { taxable_value = value; gst_rate = eighteen; cess_rate = Option.none }

abbrev two_lines : List LineItem
two_lines = line_item ∷ line_item ∷ []

abbrev two_bills : List GstCalculation
two_bills = far_bill ∷ far_bill ∷ []

abbrev bill_total : GstCalculation
bill_total = invoice_total version TransactionType.inter_state two_bills

lines_run : calculate_line_items version two_lines inter ≡ ok (two_bills, bill_total)
unfolding calculate_line_items calculate_each calculate parse_transaction_type text_eq tax_split
    warnings_for round round_half_up ◌*ℤ◌ ◌+ℤ◌
lines_run = refl

bill_total_run : bill_total.grand_total ≡ pos 786_600
unfolding invoice_total sum ◌+ℤ◌
bill_total_run = refl

calculate_line_items-AddsUp_example :
    (length two_bills ≡ length two_lines)
    × (is_empty two_bills ≡ false)
    × All AddsUp two_bills
    × AddsUp bill_total
calculate_line_items-AddsUp_example = calculate_line_items-AddsUp version two_lines inter lines_run
