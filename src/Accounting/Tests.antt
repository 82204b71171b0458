-- ===== src/Accounting/Tests.antt =====
-- A small set of books, and the theorems at it (see backend/tests/unit/test_accounting_engine.py).
use gst_ai_copilot.Base.{
  ℕ, ◌≤◌, ◌≡◌, refl, ◌↔◌, none, List, [], ◌∷◌, ◌++◌, length, All, ℤ, pos, negsuc, ◌+ℤ◌, ◌-ℤ◌, ◌≤ℤ◌,
  abs, sum, sorted_by, text_ltb, text_eq, Text, codes, ok, err,
}
use gst_ai_copilot.Accounting.Voucher.{
  Side, debit, credit, is_debit, is_credit, EntryInput, IsPositive, tolerance, side_total,
  validate_balanced, unbalanced, too_few_entries, validate_balanced_iff,
}
use gst_ai_copilot.Accounting.Lines.{
  Nature, asset, liability, income, expense, LedgerLine, closing_net, debit_balance, credit_balance,
  is_direct,
}
use gst_ai_copilot.Accounting.TrialBalance
use gst_ai_copilot.Accounting.TrialBalance.{
  trial_balance, total_net, trial_rows, key_before, trial_balance_difference, IsOneSided,
  trial_balance-IsOneSided,
}
use gst_ai_copilot.Accounting.ProfitLoss.{
  profit_and_loss, sections_from, section_step, add_income, add_expense,
}
use gst_ai_copilot.Accounting.BalanceSheet
use gst_ai_copilot.Accounting.BalanceSheet.{balance_sheet, sides_from, side_step}
use gst_ai_copilot.Accounting.Equation.{reports_agree}
use gst_ai_copilot.Accounting.Statement.{
  LedgerTxn, ledger_statement, run_balance, net_movement, ledger_statement_running,
}

abbrev entry : Side → ℕ → EntryInput
entry s n = record { side = s; amount = pos n }

abbrev sale : List EntryInput
sale = entry debit 1_180_000 ∷ entry credit 1_000_000 ∷ entry credit 180_000 ∷ []

lopsided : validate_balanced (entry debit 1_000 ∷ entry credit 1_200 ∷ []) ≡ err unbalanced
unfolding validate_balanced side_total sum ◌+ℤ◌ ◌-ℤ◌
lopsided = refl

alone : validate_balanced (entry debit 1_000 ∷ []) ≡ err too_few_entries
unfolding validate_balanced
alone = refl

validate_balanced_iff_example : (validate_balanced sale ≡ ok tt) ↔ (
    (2 ≤ length sale)
    × All IsPositive sale
    × (abs (side_total is_debit sale -ℤ side_total is_credit sale) ≤ℤ tolerance))
validate_balanced_iff_example = validate_balanced_iff sale

abbrev line : Text → Nature → Text → ℤ → ℤ → LedgerLine
line name nature classification dr cr = record {
  ledger_id = name;
  name = name;
  group_name = classification;
  nature = nature;
  classification = classification;
  opening = pos 0;
  debit_total = dr;
  credit_total = cr;
}

abbrev books : List LedgerLine
books =
    line (codes "Sales") income (codes "sales") (pos 0) (pos 1_000_000)
    ∷ line (codes "Output CGST") liability (codes "duties_taxes") (pos 0) (pos 180_000)
    ∷ line (codes "Rent") expense (codes "indirect_expense") (pos 200_000) (pos 0)
    ∷ line (codes "Cash") asset (codes "cash") (pos 0) (pos 200_000)
    ∷ line (codes "Bank Account") asset (codes "bank") (pos 0) (pos 0)
    ∷ line (codes "Asha Traders") asset (codes "receivable") (pos 1_180_000) (pos 0)
    ∷ []

trial_run :
    ((trial_balance books).total_debit ≡ pos 1_380_000)
    × ((trial_balance books).total_credit ≡ pos 1_380_000)
    × (length (trial_balance books).rows ≡ 5)
unfolding trial_balance trial_rows sorted_by key_before text_ltb text_eq sum debit_balance
    credit_balance closing_net ◌+ℤ◌ ◌-ℤ◌
trial_run = (refl, refl, refl)

profit_run :
    ((profit_and_loss books).net_profit ≡ pos 800_000)
    × ((profit_and_loss books).gross_profit ≡ pos 1_000_000)
unfolding profit_and_loss sections_from section_step add_income add_expense is_direct text_eq sum
    closing_net ◌+ℤ◌ ◌-ℤ◌
profit_run = (refl, refl)

reports_agree_example :
    let tb = trial_balance books in
    let bs = balance_sheet books (profit_and_loss books).net_profit in
    (bs.total_assets -ℤ bs.total_liabilities ≡ tb.total_debit -ℤ tb.total_credit)
    × (BalanceSheet.is_balanced bs ≡ TrialBalance.is_balanced tb)
reports_agree_example = reports_agree books

abbrev txn : ℕ → ℕ → LedgerTxn
txn dr cr = record {
  date = codes "2026-04-01";
  voucher_type = codes "receipt";
  voucher_number = codes "RCT-0001";
  narration = none;
  debit = pos dr;
  credit = pos cr;
  running_net = pos 0;
}

ledger_statement_running_example :
    let s = ledger_statement (codes "Cash") (pos 500) (txn 300 0 ∷ txn 0 900 ∷ txn 10 0 ∷ []) in
    let r = pos 500 +ℤ net_movement (txn 300 0 ∷ txn 0 900 ∷ []) in
    (s.closing_net ≡ pos 500 +ℤ net_movement (txn 300 0 ∷ txn 0 900 ∷ txn 10 0 ∷ []))
    × (s.txns
        ≡ (ledger_statement (codes "Cash") (pos 500) (txn 300 0 ∷ [])).txns
          ++ (record (txn 0 900) { running_net = r }
              ∷ (ledger_statement (codes "Cash") r (txn 10 0 ∷ [])).txns))
ledger_statement_running_example =
    ledger_statement_running (codes "Cash") (pos 500) (txn 300 0 ∷ []) (txn 0 900) (txn 10 0 ∷ [])

overdrawn :
    (ledger_statement (codes "Cash") (pos 500) (txn 300 0 ∷ txn 0 900 ∷ [])).closing_net ≡ negsuc 99
unfolding ledger_statement run_balance ◌+ℤ◌ ◌-ℤ◌
overdrawn = refl
