-- ===== src/Filing/Prepare/Csv.antt =====
-- backend/app/services/return_service.py: the rows of the file that an export writes.
use gst_ai_copilot.Base.{Option, none, some, List, [], ◌∷◌, ◌++◌, Text, codes, Decimal}
use gst_ai_copilot.Returns.{TaxTotals, NetTax, CsvRow, gstr1_to_csv_rows, total_tax}
use gst_ai_copilot.Filing.{
  GstReturn, ReturnType, gstr1, gstr3b, Summary, no_summary, of_gstr1, of_gstr3b,
}

-- A row of the CSV of a GSTR-3B; a key that a block lacks is an empty cell.
pub record BlockRow : Type 0 where
  pub label : Text
  pub taxable_value : Option Decimal
  pub igst : Option Decimal
  pub cgst : Option Decimal
  pub sgst : Option Decimal
  pub cess : Option Decimal
  pub total_tax : Option Decimal

pub data CsvFile : Type 0 where
  gstr1_rows : List CsvRow → CsvFile
  gstr3b_rows : List BlockRow → CsvFile

abbrev totals_row : Text → TaxTotals → BlockRow
totals_row label t = record {
  label = label;
  taxable_value = some t.taxable_value;
  igst = some t.igst;
  cgst = some t.cgst;
  sgst = some t.sgst;
  cess = some t.cess;
  total_tax = some (total_tax t);
}

abbrev net_row : Text → NetTax → BlockRow
net_row label n = record {
  label = label;
  taxable_value = none;
  igst = some n.igst;
  cgst = some n.cgst;
  sgst = some n.sgst;
  cess = some n.cess;
  total_tax = some n.total_tax;
}

abbrev blank_row : Text → BlockRow
blank_row label = record {
  label = label;
  taxable_value = none;
  igst = none;
  cgst = none;
  sgst = none;
  cess = none;
  total_tax = none;
}

abbrev outward_label : Text
outward_label = codes "Outward taxable supplies"

abbrev itc_label : Text
itc_label = codes "Eligible ITC"

abbrev net_label : Text
net_label = codes "Net tax payable"

abbrev blank_rows : List BlockRow
blank_rows = blank_row outward_label ∷ blank_row itc_label ∷ blank_row net_label ∷ []

-- `ReturnService.build_csv`: the rows below the header, before `csv.writer` quotes them.
unfoldable pub csv_of : ReturnType → Summary → CsvFile
csv_of gstr1 (of_gstr1 s) = gstr1_rows (gstr1_to_csv_rows s)
csv_of gstr1 (of_gstr3b s) = gstr1_rows []
csv_of gstr1 no_summary = gstr1_rows []
csv_of gstr3b (of_gstr3b s) = gstr3b_rows (
    totals_row outward_label s.outward_taxable
    ∷ totals_row itc_label s.inward_itc
    ∷ net_row net_label s.net_tax_payable
    ∷ [])
csv_of gstr3b (of_gstr1 s) = gstr3b_rows blank_rows
csv_of gstr3b no_summary = gstr3b_rows blank_rows

abbrev type_text : ReturnType → Text
type_text gstr1 = codes "gstr1"
type_text gstr3b = codes "gstr3b"

abbrev pub filename : GstReturn → Text
filename r = type_text r.return_type ++ codes "_" ++ r.period ++ codes ".csv"
