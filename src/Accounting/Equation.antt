-- ===== src/Accounting/Equation.antt =====
-- The accounting equation: what one set of ledger lines says in the three reports.
use gst_ai_copilot.Base.{
  ◌≡◌, refl, List, [], ◌∷◌, map, ◌+ℤ◌, ◌-ℤ◌, sum, sum-nil, sum-cons, int_laws,
}
use gst_ai_copilot.Accounting.Lines.{
  Nature, asset, liability, income, expense, LedgerLine, closing_net,
}
use gst_ai_copilot.Accounting.TrialBalance
use gst_ai_copilot.Accounting.TrialBalance.{trial_balance, total_net, trial_balance_difference}
use gst_ai_copilot.Accounting.ProfitLoss.{profit_and_loss, nominal, nominal_of, net_profit-eq}
use gst_ai_copilot.Accounting.BalanceSheet
use gst_ai_copilot.Accounting.BalanceSheet.{balance_sheet, real, real_of, balance_sheet_difference}

nominal-real : (k : Nature) (l : LedgerLine) → nominal_of k l +ℤ real_of k l ≡ closing_net l
nominal-real asset l = omega int_laws
nominal-real liability l = omega int_laws
nominal-real income l = omega int_laws
nominal-real expense l = omega int_laws

sum-nominal-real : (ls : List LedgerLine) → sum (map nominal ls) +ℤ sum (map real ls) ≡ total_net ls
sum-nominal-real [] = rw sum-nil (omega int_laws)
sum-nominal-real (l ∷ ls) =
    rw
      (
        sum-cons (nominal l) (map nominal ls),
        sum-cons (real l) (map real ls),
        sum-cons (closing_net l) (map closing_net ls),
        ← sum-nominal-real ls,
        ← nominal-real l.nature l,
      )
      (omega int_laws)

-- With the profit of the same lines, the balance sheet is off by exactly as much as the trial
-- balance: assets less liabilities and profit are debits less credits, so one report ties when and
-- only when the other does.
pub reports_agree :
    (lines : List LedgerLine)
    → let tb = trial_balance lines in
      let bs = balance_sheet lines (profit_and_loss lines).net_profit in
      (bs.total_assets -ℤ bs.total_liabilities ≡ tb.total_debit -ℤ tb.total_credit)
      × (BalanceSheet.is_balanced bs ≡ TrialBalance.is_balanced tb)
unfolding BalanceSheet.is_balanced TrialBalance.is_balanced
reports_agree lines = (same, rw same refl)
  where
    same :
        let tb = trial_balance lines in
        let bs = balance_sheet lines (profit_and_loss lines).net_profit in
        bs.total_assets -ℤ bs.total_liabilities ≡ tb.total_debit -ℤ tb.total_credit
    same =
        rw
          (
            balance_sheet_difference lines (profit_and_loss lines).net_profit,
            net_profit-eq lines,
            trial_balance_difference lines,
            ← sum-nominal-real lines,
          )
          (omega int_laws)
