-- ===== src/Books/Reports.antt =====
-- backend/app/services/accounting_service.py: `_ledger_lines` and the reports made from it.
pub mod Grouped
pub mod Sums
pub mod Ties
use gst_ai_copilot.Base.{
  ℕ, ◌==◌, Bool, true, false, not, ◌&&◌, Option, none, some, List, [], ◌∷◌, ◌++◌, map, select, find,
  Text, codes, text_eq, text_ltb, is_empty, Decimal, pos, ◌+ℤ◌, ◌-ℤ◌, leb_ℤ, ltb_ℤ, negate, Result,
  ok, err, ◌>>=◌, ◌>>◌, sorted_by, if◌then◌else◌,
}
use gst_ai_copilot.Accounting.Voucher.{Side, debit, credit, is_debit, opening_net}
use gst_ai_copilot.Accounting.Lines.{LedgerLine, debit_balance, credit_balance}
use gst_ai_copilot.Accounting.TrialBalance.{TrialBalance, trial_balance}
use gst_ai_copilot.Accounting.ProfitLoss.{ProfitAndLoss, profit_and_loss}
use gst_ai_copilot.Accounting.BalanceSheet.{BalanceSheet, balance_sheet}
use gst_ai_copilot.Accounting.Statement.{LedgerTxn, LedgerStatement, ledger_statement}
use gst_ai_copilot.Books.{
  LedgerGroup, Ledger, EntryDraft, Voucher, Db, BooksError, no_group, no_ledger,
}

-- `list_ledgers` and `get_ledger`
unfoldable pub list_ledgers : ℕ → Db → List Ledger
list_ledgers org db =
    sorted_by (λ a b. text_ltb a.name b.name) (select (λ l. l.organization_id == org) db.ledgers)

unfoldable pub get_ledger : ℕ → ℕ → Db → Result BooksError Ledger
get_ledger org i db = elim (find (λ l. (l.id == i) && (l.organization_id == org)) db.ledgers) [
  | none ↦ err no_ledger
  | some l ↦ ok l
]

-- The entries of the vouchers that a join selects.
unfoldable pub entries_of : (Voucher → Bool) → List Voucher → List EntryDraft
entries_of p [] = []
entries_of p (v ∷ vs) = (if p v then v.entries else []) ++ entries_of p vs

-- `Voucher.date < date_from`, and `Voucher.date >= date_from` with `Voucher.date <= date_to`.
abbrev pub is_before : ℕ → Text → Voucher → Bool
is_before org date_from v = (v.organization_id == org) && text_ltb v.date date_from

abbrev pub is_within : ℕ → Text → Text → Voucher → Bool
is_within org date_from date_to v =
    (v.organization_id == org) && (not (text_ltb v.date date_from) && not (text_ltb date_to v.date))

-- A row of the queries: `group_by(ledger_id, side)` with the sum of the amounts.
pub record GroupedRow : Type 0 where
  pub ledger_id : ℕ
  pub side : Side
  pub amount : Decimal

abbrev pub same_side : Side → Side → Bool
same_side debit debit = true
same_side debit credit = false
same_side credit debit = false
same_side credit credit = true

unfoldable pub group_entry : EntryDraft → List GroupedRow → List GroupedRow
group_entry e [] = record { ledger_id = e.ledger_id; side = e.side; amount = e.amount } ∷ []
group_entry e (r ∷ rs) =
    let rest = group_entry e rs in
    if (r.ledger_id == e.ledger_id) && same_side r.side e.side
    then record r { amount = r.amount +ℤ e.amount } ∷ rs
    else r ∷ rest

unfoldable pub group_entries : List GroupedRow → List EntryDraft → List GroupedRow
group_entries rows [] = rows
group_entries rows (e ∷ es) = group_entries (group_entry e rows) es

abbrev pub signed : Side → Decimal → Decimal
signed debit amount = amount
signed credit amount = negate amount

-- A dictionary from ledgers to nets, and `d[i] = d.get(i, 0) + delta`.
unfoldable pub net_at : ℕ → List (ℕ × Decimal) → Decimal
net_at i [] = pos 0
net_at i ((j, net) ∷ nets) = if j == i then net else net_at i nets

unfoldable pub add_net : ℕ → Decimal → List (ℕ × Decimal) → List (ℕ × Decimal)
add_net i delta [] = (i, pos 0 +ℤ delta) ∷ []
add_net i delta ((j, net) ∷ nets) =
    let rest = add_net i delta nets in if j == i then (j, net +ℤ delta) ∷ nets else (j, net) ∷ rest

-- The loop that fills `opening_by_ledger`.
unfoldable pub opening_by_ledger : List (ℕ × Decimal) → List GroupedRow → List (ℕ × Decimal)
opening_by_ledger nets [] = nets
opening_by_ledger nets (r ∷ rs) =
    opening_by_ledger (add_net r.ledger_id (signed r.side r.amount) nets) rs

-- A slot of `period_by_ledger`: debits and credits.
abbrev pub Slot : Type 0
Slot = Decimal × Decimal

abbrev pub add_to_slot : Side → Decimal → Slot → Slot
add_to_slot debit amount (dr, cr) = (dr +ℤ amount, cr)
add_to_slot credit amount (dr, cr) = (dr, cr +ℤ amount)

unfoldable pub slot_at : ℕ → List (ℕ × Slot) → Slot
slot_at i [] = (pos 0, pos 0)
slot_at i ((j, slot) ∷ slots) = if j == i then slot else slot_at i slots

-- `setdefault` and the addition to the slot.
unfoldable pub add_slot : ℕ → Side → Decimal → List (ℕ × Slot) → List (ℕ × Slot)
add_slot i side amount [] = (i, add_to_slot side amount (pos 0, pos 0)) ∷ []
add_slot i side amount ((j, slot) ∷ slots) =
    let rest = add_slot i side amount slots in
    if j == i then (j, add_to_slot side amount slot) ∷ slots else (j, slot) ∷ rest

unfoldable pub period_by_ledger : List (ℕ × Slot) → List GroupedRow → List (ℕ × Slot)
period_by_ledger slots [] = slots
period_by_ledger slots (r ∷ rs) = period_by_ledger (add_slot r.ledger_id r.side r.amount slots) rs

abbrev pub line_with :
    (ℕ → Text) → Bool → List (ℕ × Decimal) → List (ℕ × Slot) → LedgerGroup → Ledger → LedgerLine
line_with show include_opening nets slots g l =
    let manual = if include_opening then opening_net l.opening_balance l.opening_side else pos 0 in
    let earlier = if include_opening then net_at l.id nets else pos 0 in
    let slot = slot_at l.id slots in
    record {
      ledger_id = show l.id;
      name = l.name;
      group_name = g.name;
      nature = g.nature;
      classification = g.classification;
      opening = manual +ℤ earlier;
      debit_total = slot.0;
      credit_total = slot.1;
    }

-- The line of one ledger. A ledger without its group is an error; the foreign key forbids it.
unfoldable pub line_of :
    (ℕ → Text)
    → Bool
    → List LedgerGroup
    → List (ℕ × Decimal)
    → List (ℕ × Slot)
    → Ledger
    → Result BooksError LedgerLine
line_of show include_opening groups nets slots l = elim (find (λ g. g.id == l.group_id) groups) [
  | none ↦ err no_group
  | some g ↦ ok (line_with show include_opening nets slots g l)
]

unfoldable pub lines_of :
    (Ledger → Result BooksError LedgerLine) → List Ledger → Result BooksError (List LedgerLine)
lines_of f [] = ok []
lines_of f (l ∷ ls) = do line ← f l; rest ← lines_of f ls; ok (line ∷ rest)

-- `_ledger_lines`
unfoldable pub ledger_lines :
    (ℕ → Text) → ℕ → Text → Text → Bool → Db → Result BooksError (List LedgerLine)
ledger_lines show org date_from date_to include_opening db =
    let opening_rows = group_entries [] (entries_of (is_before org date_from) db.vouchers) in
    let period_rows = group_entries [] (entries_of (is_within org date_from date_to) db.vouchers) in
    lines_of
      (line_of show include_opening db.groups (opening_by_ledger [] opening_rows)
        (period_by_ledger [] period_rows))
      (list_ledgers org db)

abbrev pub epoch : Text
epoch = codes "1900-01-01"

abbrev pub far_future : Text
far_future = codes "9999-12-31"

-- `or` on a date that may be missing or empty.
abbrev pub date_or : Option Text → Text → Text
date_or none default = default
date_or (some d) default = if is_empty d then default else d

-- The service's reports; `today` is the day of the call, `fy_from` and `fy_to` are the financial
-- year around it.
unfoldable pub trial_balance_report :
    (ℕ → Text) → Text → ℕ → Option Text → Db → Result BooksError (Text × TrialBalance)
trial_balance_report show today org as_on db = do
  let day = date_or as_on today
  lines ← ledger_lines show org epoch day true db
  ok (day, trial_balance lines)

unfoldable pub profit_and_loss_report :
    (ℕ → Text)
    → Text × Text
    → ℕ
    → Option Text
    → Option Text
    → Db
    → Result BooksError (Text × Text × ProfitAndLoss)
profit_and_loss_report show fy org date_from date_to db = do
  let first = date_or date_from fy.0
  let last = date_or date_to fy.1
  lines ← ledger_lines show org first last false db
  ok (first, last, profit_and_loss lines)

unfoldable pub balance_sheet_report :
    (ℕ → Text) → Text → Text × Text → ℕ → Option Text → Db → Result BooksError (Text × BalanceSheet)
balance_sheet_report show today fy org as_on db = do
  let day = date_or as_on today
  profit_lines ← ledger_lines show org fy.0 day false db
  lines ← ledger_lines show org epoch day true db
  ok (day, balance_sheet lines (profit_and_loss profit_lines).net_profit)

-- A row of `outstanding`.
pub record OutstandingRow : Type 0 where
  pub ledger_id : Text
  pub name : Text
  pub balance : Decimal

abbrev pub owed_balance : Bool → LedgerLine → Decimal
owed_balance receivable l = if receivable then debit_balance l else credit_balance l

unfoldable pub outstanding_rows :
    Bool → Text → List LedgerLine → List OutstandingRow × Decimal → List OutstandingRow × Decimal
outstanding_rows receivable classification [] found = found
outstanding_rows receivable classification (l ∷ ls) (rows, total) =
    let balance = owed_balance receivable l in
    outstanding_rows receivable classification ls (
      if not (text_eq l.classification classification)
      then (rows, total)
      else if leb_ℤ balance (pos 0)
      then (rows, total)
      else (
        rows ++ (record { ledger_id = l.ledger_id; name = l.name; balance = balance } ∷ []),
        total +ℤ balance,
      ))

-- `outstanding`; the rows with the largest balance first.
unfoldable pub outstanding :
    (ℕ → Text) → ℕ → Text → Db → Result BooksError (Text × List OutstandingRow × Decimal)
outstanding show org kind db = do
  let receivable = text_eq kind (codes "receivable")
  let classification = if receivable then codes "receivable" else codes "payable"
  lines ← ledger_lines show org epoch far_future true db
  let found = outstanding_rows receivable classification lines ([], pos 0)
  ok (kind, sorted_by (λ a b. ltb_ℤ b.balance a.balance) found.0, found.1)
