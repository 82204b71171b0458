-- ===== src/Matching/Upload.antt =====
-- backend/app/services/reconciliation_service.py: `parse_csv` and `import_records`. A file is the
-- rows that `csv.reader` makes of it, or none where it is not UTF-8.
use gst_ai_copilot.Base.{
  ℕ, suc, zero, ◌+◌, ◌==◌, Bool, true, false, not, ◌&&◌, Option, none, some, List, [], ◌∷◌, ◌++◌,
  map, select, any, length, Text, codes, text_eq, strip, lower, upper, is_empty, Decimal, pos,
  Result, ok, err, ◌>>◌, raise_if, if◌then◌else◌,
}
use gst_ai_copilot.Filing.Prepare.Inputs.{validate_period}
use gst_ai_copilot.Matching.{
  Source, gstr2a, gstr2b, Gstr2bRecord, ReconciliationMatch, Db, Column, supplier_gstin_column,
  supplier_name_column, invoice_number_column, invoice_date_column, taxable_value_column,
  igst_column, cgst_column, sgst_column, cess_column, ServiceError, not_utf8, empty_file,
  no_data_rows, missing_columns, bad_period,
}

-- `_COLUMN_ALIASES`
unfoldable pub aliases : Column → List Text
aliases supplier_gstin_column =
    codes "supplier_gstin" ∷ codes "gstin of supplier" ∷ codes "gstin" ∷ codes "supplier gstin" ∷ []
aliases supplier_name_column =
    codes "supplier_name" ∷ codes "trade/legal name" ∷ codes "supplier name" ∷ []
aliases invoice_number_column =
    codes "invoice_number" ∷ codes "invoice number" ∷ codes "invoice no" ∷ codes "invoice no." ∷ []
aliases invoice_date_column = codes "invoice_date" ∷ codes "invoice date" ∷ []
aliases taxable_value_column =
    codes "taxable_value" ∷ codes "taxable value (₹)" ∷ codes "taxable value" ∷ []
aliases igst_column =
    codes "igst" ∷ codes "integrated tax(₹)" ∷ codes "integrated tax" ∷ codes "igst amount" ∷ []
aliases cgst_column =
    codes "cgst" ∷ codes "central tax(₹)" ∷ codes "central tax" ∷ codes "cgst amount" ∷ []
aliases sgst_column =
    codes "sgst"
    ∷ codes "state/ut tax(₹)"
    ∷ codes "state/ut tax"
    ∷ codes "state tax"
    ∷ codes "sgst amount"
    ∷ []
aliases cess_column = codes "cess" ∷ codes "cess(₹)" ∷ codes "cess amount" ∷ []

abbrev pub columns : List Column
columns =
    supplier_gstin_column ∷ supplier_name_column ∷ invoice_number_column ∷ invoice_date_column
    ∷ taxable_value_column ∷ igst_column ∷ cgst_column ∷ sgst_column ∷ cess_column ∷ []

-- `_REQUIRED_COLUMNS`, in the order of their names.
abbrev pub required_columns : List Column
required_columns = invoice_number_column ∷ supplier_gstin_column ∷ taxable_value_column ∷ []

abbrev pub normalized : Text → Text
normalized cell = lower (strip cell)

-- `normalized[alias]`: the last cell of the header with that text.
unfoldable pub cell_of : Text → List Text → Option Text
cell_of alias [] = none
cell_of alias (cell ∷ cells) = elim (cell_of alias cells) [
  | some c ↦ some c
  | none ↦ if text_eq (normalized cell) alias then some cell else none
]

-- The loop over the aliases of a column.
unfoldable pub first_alias : List Text → List Text → Option Text
first_alias [] header = none
first_alias (alias ∷ rest) header = elim (cell_of alias header) [
  | some cell ↦ some cell
  | none ↦ first_alias rest header
]

unfoldable pub map_columns : List Column → List Text → List (Column × Text)
map_columns [] header = []
map_columns (c ∷ cs) header = elim (first_alias (aliases c) header) [
  | some cell ↦ (c, cell) ∷ map_columns cs header
  | none ↦ map_columns cs header
]

-- `_build_column_map`
unfoldable pub build_column_map : List Text → List (Column × Text)
build_column_map header = map_columns columns header

abbrev pub column_index : Column → ℕ
column_index supplier_gstin_column = 0
column_index supplier_name_column = 1
column_index invoice_number_column = 2
column_index invoice_date_column = 3
column_index taxable_value_column = 4
column_index igst_column = 5
column_index cgst_column = 6
column_index sgst_column = 7
column_index cess_column = 8

abbrev pub same_column : Column → Column → Bool
same_column a b = column_index a == column_index b

-- A dictionary by columns: `d.get(c)`.
unfoldable pub get_cell {ℓ} : {A : Type ℓ} → Column → List (Column × A) → Option A
get_cell c [] = none
get_cell c ((d, x) ∷ cells) = if same_column d c then some x else get_cell c cells

abbrev pub is_missing : List (Column × Text) → Column → Bool
is_missing column_map c = elim (get_cell c column_map) [ none ↦ true | some x ↦ false ]

-- `column_index[cell]`: the place of the last cell of that text.
unfoldable pub place_of : Text → List Text → Option ℕ
place_of cell [] = none
place_of cell (x ∷ xs) = elim (place_of cell xs) [
  | some i ↦ some (suc i)
  | none ↦ if text_eq x cell then some 0 else none
]

-- `row[i] if i < len(row) else ""`
unfoldable pub cell_at : ℕ → List Text → Text
cell_at i [] = []
cell_at zero (x ∷ xs) = x
cell_at (suc i) (x ∷ xs) = cell_at i xs

abbrev pub UploadRow : Type 0
UploadRow = List (Column × Text)

abbrev read_place : Option ℕ → List Text → Text
read_place none row = []
read_place (some i) row = cell_at i row

unfoldable pub read_row : List Text → List (Column × Text) → List Text → UploadRow
read_row header [] row = []
read_row header ((c, cell) ∷ column_map) row =
    (c, read_place (place_of cell header) row) ∷ read_row header column_map row

-- The loop over the rows, which skips blank ones.
unfoldable pub read_rows : List Text → List (Column × Text) → List (List Text) → List UploadRow
read_rows header column_map [] = []
read_rows header column_map (row ∷ rows) =
    let rest = read_rows header column_map rows in
    if not (any (λ cell. not (is_empty (strip cell))) row)
    then rest
    else read_row header column_map row ∷ rest

-- `parse_csv`
unfoldable pub parse_csv : Option (List (List Text)) → Result ServiceError (List UploadRow)
parse_csv none = err not_utf8
parse_csv (some []) = err empty_file
parse_csv (some (header ∷ data_rows)) = do
  let column_map = build_column_map header
  let missing = select (is_missing column_map) required_columns
  raise_if (not (is_empty missing)) (missing_columns missing)
  let parsed = read_rows header column_map data_rows
  raise_if (is_empty parsed) no_data_rows
  ok parsed

-- `_validate_period`, which is the function of that name of the return service.
unfoldable pub check_period : Text → Result ServiceError (Unit {0})
check_period period = elim (validate_period period) [ ok u ↦ ok u | err e ↦ err (bad_period e) ]

-- `raw.replace(c, "")`
abbrev without : ℕ → Text → Text
without c s = select (λ d. not (d == c)) s

abbrev or_zero : Option Decimal → Decimal
or_zero none = pos 0
or_zero (some d) = d

-- `_decimal`; `read` is the constructor of `Decimal` on a text, none where it raises.
unfoldable pub decimal_of : (Text → Option Decimal) → Option Text → Decimal
decimal_of read none = pos 0
decimal_of read (some raw) =
    if is_empty (strip raw)
    then pos 0
    else or_zero (read (strip (without 0x20b9 (without b',' raw))))

abbrev pub or_none : Text → Option Text
or_none s = if is_empty s then none else some s

abbrev pub or_blank : Option Text → Text
or_blank none = []
or_blank (some s) = s

abbrev pub same_source : Source → Source → Bool
same_source gstr2a gstr2a = true
same_source gstr2b gstr2b = true
same_source gstr2a gstr2b = false
same_source gstr2b gstr2a = false

-- The records of a period and a source.
abbrev pub is_upload : ℕ → Text → Source → Gstr2bRecord → Bool
is_upload org period source r =
    (r.organization_id == org) && (text_eq r.period period && same_source r.source source)

unfoldable pub new_record :
    (Text → Option Decimal) → ℕ → ℕ → Text → Source → ℕ → ℕ → UploadRow → Gstr2bRecord
new_record read org user period source i id row = record {
  id = id;
  organization_id = org;
  period = period;
  source = source;
  row_number = i;
  supplier_gstin = or_none (upper (strip (or_blank (get_cell supplier_gstin_column row))));
  supplier_name = or_none (strip (or_blank (get_cell supplier_name_column row)));
  invoice_number = or_none (strip (or_blank (get_cell invoice_number_column row)));
  invoice_date = or_none (strip (or_blank (get_cell invoice_date_column row)));
  taxable_value = decimal_of read (get_cell taxable_value_column row);
  igst = decimal_of read (get_cell igst_column row);
  cgst = decimal_of read (get_cell cgst_column row);
  sgst = decimal_of read (get_cell sgst_column row);
  cess = decimal_of read (get_cell cess_column row);
  uploaded_by = some user;
}

-- `for i, row in enumerate(rows)`, from row `i` on.
unfoldable pub new_records :
    (Text → Option Decimal) → ℕ → ℕ → Text → Source → ℕ → ℕ → List UploadRow → List Gstr2bRecord
new_records read org user period source i id [] = []
new_records read org user period source i id (row ∷ rows) =
    new_record read org user period source i id row
    ∷ new_records read org user period source (suc i) (suc id) rows

-- `gstr2b_record_id` is set to null where its record is deleted.
abbrev pub forget : List Gstr2bRecord → ReconciliationMatch → ReconciliationMatch
forget gone m = record m {
  gstr2b_record_id = elim m.gstr2b_record_id [
    | none ↦ none
    | some i ↦ if any (λ r. r.id == i) gone then none else some i
  ];
}

-- `import_records`; the audit entry is left out.
unfoldable pub import_records :
    (Text → Option Decimal)
    → ℕ
    → ℕ
    → Text
    → Source
    → List UploadRow
    → Db
    → Result ServiceError (Db × ℕ)
import_records read org user period source rows db = do
  check_period period
  raise_if (is_empty rows) no_data_rows
  ok (
    record db {
      records =
          select (λ r. not (is_upload org period source r)) db.records
          ++ new_records read org user period source 0 db.next_id rows;
      matches = map (forget (select (is_upload org period source) db.records)) db.matches;
      next_id = db.next_id + length rows;
    },
    length rows,
  )
