-- ===== src/Books/Statements.antt =====
-- backend/app/services/accounting_service.py: vouchers and groups read back, the statement of one
-- ledger, the financial year and the files of the reports.
pub mod Closing
use gst_ai_copilot.Base.{
  digits, ℕ, suc, zero, ◌+◌, ◌-◌, ◌/◌, ◌%◌, ◌==◌, ltb, leb, Bool, true, false, not, ◌&&◌, ◌||◌,
  Option, none, some, List, [], ◌∷◌, ◌++◌, map, select, find, length, Text, codes, text_eq,
  text_ltb, is_empty, Decimal, pos, ◌+ℤ◌, Result, ok, err, ◌>>=◌, sorted_by, if◌then◌else◌,
}
use gst_ai_copilot.Accounting.Voucher.{Side, debit, credit, opening_net}
use gst_ai_copilot.Accounting.Lines.{StatementLine}
use gst_ai_copilot.Accounting.TrialBalance.{TrialBalance, TrialBalanceRow}
use gst_ai_copilot.Accounting.ProfitLoss.{ProfitAndLoss}
use gst_ai_copilot.Accounting.BalanceSheet.{BalanceSheet}
use gst_ai_copilot.Accounting.Statement.{LedgerTxn, LedgerStatement, ledger_statement}
use gst_ai_copilot.Books.{
  VoucherType, sales_voucher, purchase_voucher, receipt, payment, contra, journal, debit_note,
  credit_note, LedgerGroup, Ledger, EntryDraft, Voucher, Db, BooksError, no_voucher,
}
use gst_ai_copilot.Books.Vouchers.{same_voucher_type}
use gst_ai_copilot.Books.Reports.{
  GroupedRow, group_entries, entries_of, is_before, is_within, signed, same_side, get_ledger,
  far_future, date_or,
}

-- `list_groups`
abbrev group_before : LedgerGroup → LedgerGroup → Bool
group_before a b =
    ltb a.sort_order b.sort_order || ((a.sort_order == b.sort_order) && text_ltb a.name b.name)

unfoldable pub list_groups : ℕ → Db → List LedgerGroup
list_groups org db = sorted_by group_before (select (λ g. g.organization_id == org) db.groups)

-- `get_voucher`
unfoldable pub get_voucher : ℕ → ℕ → Db → Result BooksError Voucher
get_voucher org i db = elim (find (λ v. (v.id == i) && (v.organization_id == org)) db.vouchers) [
  | none ↦ err no_voucher
  | some v ↦ ok v
]

abbrev if_given : Option Text → (Text → Bool) → Bool
if_given none p = true
if_given (some d) p = is_empty d || p d

abbrev of_type : Option VoucherType → Voucher → Bool
of_type none v = true
of_type (some ty) v = same_voucher_type v.voucher_type ty

abbrev pub take_first : {A : Type 0} → ℕ → List A → List A
take_first zero xs = []
take_first (suc n) [] = []
take_first (suc n) (x ∷ xs) = x ∷ take_first n xs

-- The order `date.desc(), created_at.desc()`: later vouchers are made later.
abbrev newer : Voucher → Voucher → Bool
newer a b = text_ltb b.date a.date || (text_eq a.date b.date && ltb b.id a.id)

-- `list_vouchers`, which is `day_book` too
unfoldable pub list_vouchers :
    ℕ → Option VoucherType → Option Text → Option Text → ℕ → Db → List Voucher
list_vouchers org ty date_from date_to limit db = take_first limit (
    sorted_by newer (
      select
        (λ v.
          (v.organization_id == org)
          && (of_type ty v
              && (if_given date_from (λ d. not (text_ltb v.date d))
                  && if_given date_to (λ d. not (text_ltb d v.date)))))
        db.vouchers))

-- The value of a voucher's type, and `_VOUCHER_PREFIX`.
unfoldable pub type_value : VoucherType → Text
type_value sales_voucher = codes "sales"
type_value purchase_voucher = codes "purchase"
type_value receipt = codes "receipt"
type_value payment = codes "payment"
type_value contra = codes "contra"
type_value journal = codes "journal"
type_value debit_note = codes "debit_note"
type_value credit_note = codes "credit_note"

unfoldable pub voucher_prefix : VoucherType → Text
voucher_prefix sales_voucher = codes "SAL"
voucher_prefix purchase_voucher = codes "PUR"
voucher_prefix receipt = codes "RCT"
voucher_prefix payment = codes "PMT"
voucher_prefix contra = codes "CTR"
voucher_prefix journal = codes "JV"
voucher_prefix debit_note = codes "DN"
voucher_prefix credit_note = codes "CN"

abbrev pub zeros : ℕ → Text
zeros zero = []
zeros (suc n) = b'0' ∷ zeros n

-- `{n:04d}`
unfoldable pub four_digits : ℕ → Text
four_digits n = let s = digits (suc n) n [] in zeros (4 - length s) ++ s

-- The text of `_next_voucher_number`.
unfoldable pub number_text : VoucherType → ℕ → Text
number_text ty n = voucher_prefix ty ++ (codes "-" ++ four_digits n)

abbrev pub or_else : Option Text → Option Text → Option Text
or_else none e = e
or_else (some t) e = if is_empty t then e else some t

abbrev pub on_side : Side → EntryDraft → Decimal
on_side s e = if same_side e.side s then e.amount else pos 0

abbrev pub txn_of : Voucher → EntryDraft → LedgerTxn
txn_of v e = record {
  date = v.date;
  voucher_type = type_value v.voucher_type;
  voucher_number = number_text v.voucher_type v.voucher_number;
  narration = or_else e.narration v.narration;
  debit = on_side debit e;
  credit = on_side credit e;
  running_net = pos 0;
}

-- The rows of the join, in the order of the dates and, within a day, as they were created.
unfoldable pub txns_of : ℕ → List Voucher → List LedgerTxn
txns_of i [] = []
txns_of i (v ∷ vs) = map (txn_of v) (select (λ e. e.ledger_id == i) v.entries) ++ txns_of i vs

-- The loop over `opening_delta`.
unfoldable pub add_deltas : Decimal → List GroupedRow → Decimal
add_deltas net [] = net
add_deltas net (r ∷ rs) = add_deltas (net +ℤ signed r.side r.amount) rs

-- `ledger_statement`; `fy_from` is the first day of the financial year around today.
unfoldable pub statement_report :
    Text
    → ℕ
    → ℕ
    → Option Text
    → Option Text
    → Db
    → Result BooksError (ℕ × Text × Text × LedgerStatement)
statement_report fy_from org i date_from date_to db = do
  l ← get_ledger org i db
  let first = date_or date_from fy_from
  let last = date_or date_to far_future
  let earlier = select (λ e. e.ledger_id == i) (entries_of (is_before org first) db.vouchers)
  let opening = add_deltas (opening_net l.opening_balance l.opening_side) (group_entries [] earlier)
  let vouchers =
      sorted_by (λ a b. text_ltb a.date b.date) (select (is_within org first last) db.vouchers)
  ok (l.id, first, last, ledger_statement l.name opening (txns_of i vouchers))

-- `current_fy_range` for a day of a year and month; years have four digits.
unfoldable pub current_fy_range : ℕ → ℕ → Text × Text
current_fy_range year month =
    let start = if leb 4 month then year else year - 1 in
    (digits 5 start [] ++ codes "-04-01", digits 5 (start + 1) [] ++ codes "-03-31")

-- The payload of a report, by the name it is asked for with.
pub data Payload : Type 0 where
  of_trial_balance : TrialBalance → Payload
  of_profit_loss : ProfitAndLoss → Payload
  of_balance_sheet : BalanceSheet → Payload

pub data Cell : Type 0 where
  text_cell : Text → Cell
  amount_cell : Decimal → Cell

abbrev pub Row : Type 0
Row = List Cell

abbrev header : List Text → Row
header names = map text_cell names

abbrev pub tb_row : TrialBalanceRow → Row
tb_row r =
    text_cell r.name ∷ text_cell r.group_name ∷ amount_cell r.debit ∷ amount_cell r.credit ∷ []

abbrev pub section_row : Text → StatementLine → Row
section_row section l =
    text_cell section ∷ text_cell l.name ∷ text_cell l.group_name ∷ amount_cell l.amount ∷ []

abbrev total_row : Text → Decimal → Row
total_row label amount = text_cell [] ∷ text_cell [] ∷ text_cell label ∷ amount_cell amount ∷ []

-- The rows that `report_to_csv` writes.
unfoldable pub report_rows : Payload → List Row
report_rows (of_trial_balance tb) =
    header (codes "Ledger" ∷ codes "Group" ∷ codes "Debit" ∷ codes "Credit" ∷ [])
    ∷ (map tb_row tb.rows
        ++ ((text_cell (codes "TOTAL")
              ∷ text_cell []
              ∷ amount_cell tb.total_debit
              ∷ amount_cell tb.total_credit
              ∷ [])
            ∷ []))
report_rows (of_profit_loss p) =
    header (codes "Section" ∷ codes "Ledger" ∷ codes "Group" ∷ codes "Amount" ∷ [])
    ∷ (map (section_row (codes "direct_income")) p.direct_income
        ++ (map (section_row (codes "direct_expense")) p.direct_expense
            ++ (map (section_row (codes "indirect_income")) p.indirect_income
                ++ (map (section_row (codes "indirect_expense")) p.indirect_expense
                    ++ (total_row (codes "Gross Profit") p.gross_profit
                        ∷ total_row (codes "Net Profit") p.net_profit
                        ∷ [])))))
report_rows (of_balance_sheet b) =
    header (codes "Side" ∷ codes "Ledger" ∷ codes "Group" ∷ codes "Amount" ∷ [])
    ∷ (map (section_row (codes "Liabilities")) b.liabilities
        ++ ((text_cell (codes "Liabilities")
              ∷ text_cell (codes "Net Profit")
              ∷ text_cell (codes "Profit & Loss A/c")
              ∷ amount_cell b.net_profit
              ∷ [])
            ∷ (map (section_row (codes "Assets")) b.assets
                ++ (total_row (codes "Total Liabilities") b.total_liabilities
                    ∷ total_row (codes "Total Assets") b.total_assets
                    ∷ []))))
