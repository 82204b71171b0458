-- ===== src/Matching/Imports.antt =====
-- What an upload leaves in the table of the supplier records.
use gst_ai_copilot.Base.{
  ℕ, suc, ◌==◌, ◌≡◌, some, upper, strip, Bool, not, ◌&&◌, Option, List, [], ◌∷◌, ◌++◌, select,
  length, Text, text_eq, Decimal,
}
use gst_ai_copilot.Matching.{
  Source, Gstr2bRecord, Db, supplier_gstin_column, supplier_name_column, invoice_number_column,
  invoice_date_column, taxable_value_column, igst_column, cgst_column, sgst_column, cess_column,
}
use gst_ai_copilot.Matching.Upload.{
  or_none, or_blank, decimal_of, get_cell, UploadRow, same_source, is_upload, new_records,
}

-- The two keys are the same.
abbrev pub same_key : ℕ → Text → Source → ℕ → Text → Source → Bool
same_key o p s org period source = (org == o) && (text_eq period p && same_source source s)

-- What an upload returns, once its period is accepted and it has rows.
record Imported (read : Text → Option Decimal) (org user : ℕ) (period : Text) (source : Source)
    (rows : List UploadRow) (db db' : Db) (n : ℕ) : Type 0 where
  count : n ≡ length rows
  stored :
      db'.records
      ≡ select (λ r. not (is_upload org period source r)) db.records
        ++ new_records read org user period source 0 db.next_id rows

-- A record holds the cells of a row, stripped; a missing or blank one is none or zero.
pub record IsRow (read : Text → Option Decimal) (org user : ℕ) (period : Text) (source : Source)
    (i : ℕ) (row : UploadRow) (r : Gstr2bRecord) : Type 0 where
  pub of_org : r.organization_id ≡ org
  pub of_period : r.period ≡ period
  pub of_source : r.source ≡ source
  pub place : r.row_number ≡ i
  pub by_user : r.uploaded_by ≡ some user
  pub gstin :
      r.supplier_gstin ≡ or_none (upper (strip (or_blank (get_cell supplier_gstin_column row))))
  pub name : r.supplier_name ≡ or_none (strip (or_blank (get_cell supplier_name_column row)))
  pub number : r.invoice_number ≡ or_none (strip (or_blank (get_cell invoice_number_column row)))
  pub date : r.invoice_date ≡ or_none (strip (or_blank (get_cell invoice_date_column row)))
  pub taxable_value : r.taxable_value ≡ decimal_of read (get_cell taxable_value_column row)
  pub igst : r.igst ≡ decimal_of read (get_cell igst_column row)
  pub cgst : r.cgst ≡ decimal_of read (get_cell cgst_column row)
  pub sgst : r.sgst ≡ decimal_of read (get_cell sgst_column row)
  pub cess : r.cess ≡ decimal_of read (get_cell cess_column row)

-- One record for each row, in the order of the rows.
abbrev pub AreRows :
    (Text → Option Decimal)
    → ℕ
    → ℕ
    → Text
    → Source
    → ℕ
    → List UploadRow
    → List Gstr2bRecord
    → Type 0
AreRows read org user period source i [] [] = Unit {0}
AreRows read org user period source i [] (r ∷ rs) = ⊥
AreRows read org user period source i (row ∷ rows) [] = ⊥
AreRows read org user period source i (row ∷ rows) (r ∷ rs) =
    IsRow read org user period source i row r × AreRows read org user period source (suc i) rows rs
