-- ===== src/Accounting/BalanceSheet.antt =====
-- `balance_sheet`: assets against liabilities and the profit of the period.
use gst_ai_copilot.Base.{
  ◌≡◌, ap, ◌∙◌, Bool, List, [], ◌∷◌, ◌++◌, map, inl, inr, Bool-cases, pos, Decimal, ◌+ℤ◌, ◌-ℤ◌,
  leb_ℤ, eqb_ℤ, negate, abs, sum, sum-nil, sum-cons, if◌then◌else◌, int_laws,
}
use gst_ai_copilot.Accounting.Voucher.{tolerance}
use gst_ai_copilot.Accounting.Lines.{
  Nature, asset, liability, income, expense, LedgerLine, closing_net, StatementLine, total,
}
use gst_ai_copilot.Accounting.ProfitLoss.{statement_line, total-snoc}

pub record BalanceSheet : Type 0 where
  pub assets : List StatementLine
  pub liabilities : List StatementLine
  pub net_profit : Decimal
  pub total_assets : Decimal
  pub total_liabilities : Decimal

-- The lists of the loop.
pub record Sides : Type 0 where
  pub assets : List StatementLine
  pub liabilities : List StatementLine

unfoldable pub side_step : Nature → LedgerLine → Sides → Sides
side_step asset l s =
    let amt = closing_net l in
    if eqb_ℤ amt (pos 0) then s else record s { assets = s.assets ++ (statement_line l amt ∷ []) }
side_step liability l s =
    let amt = negate (closing_net l) in
    if eqb_ℤ amt (pos 0)
    then s
    else record s { liabilities = s.liabilities ++ (statement_line l amt ∷ []) }
side_step income l s = s
side_step expense l s = s

unfoldable pub sides_from : Sides → List LedgerLine → Sides
sides_from s [] = s
sides_from s (l ∷ ls) = sides_from (side_step l.nature l s) ls

abbrev no_sides : Sides
no_sides = record { assets = []; liabilities = [] }

unfoldable pub balance_sheet : List LedgerLine → Decimal → BalanceSheet
balance_sheet lines net_profit =
    let s = sides_from no_sides lines in
    record {
      assets = s.assets;
      liabilities = s.liabilities;
      net_profit = net_profit;
      total_assets = total s.assets;
      total_liabilities = total s.liabilities +ℤ net_profit;
    }

-- `BalanceSheet.is_balanced`
unfoldable pub is_balanced : BalanceSheet → Bool
is_balanced bs = leb_ℤ (abs (bs.total_assets -ℤ bs.total_liabilities)) tolerance

-- The net of a ledger that stands on the balance sheet.
abbrev pub real_of : Nature → LedgerLine → Decimal
real_of asset l = closing_net l
real_of liability l = closing_net l
real_of income l = pos 0
real_of expense l = pos 0

abbrev pub real : LedgerLine → Decimal
real l = real_of l.nature l

abbrev worth : Sides → Decimal
worth s = total s.assets -ℤ total s.liabilities

worth-step :
    (k : Nature) (l : LedgerLine) (s : Sides) → worth (side_step k l s) ≡ worth s +ℤ real_of k l
unfolding side_step
worth-step asset l s = elim (Bool-cases (eqb_ℤ (closing_net l) (pos 0))) [
  | inl none_left ↦ rw none_left (grind int_laws)
  | inr some_left ↦ rw some_left (simp total-snoc (omega int_laws))
]
worth-step liability l s = elim (Bool-cases (eqb_ℤ (negate (closing_net l)) (pos 0))) [
  | inl none_left ↦ rw none_left (grind int_laws)
  | inr some_left ↦ rw some_left (simp total-snoc (omega int_laws))
]
worth-step income l s = omega int_laws
worth-step expense l s = omega int_laws

worth-sides_from :
    (ls : List LedgerLine) (s : Sides) → worth (sides_from s ls) ≡ worth s +ℤ sum (map real ls)
unfolding sides_from
worth-sides_from [] s = rw sum-nil (omega int_laws)
worth-sides_from (l ∷ ls) s =
    rw
      (
        worth-sides_from ls (side_step l.nature l s),
        worth-step l.nature l s,
        sum-cons (real l) (map real ls),
      )
      (omega int_laws)

sub-add : (x y n : Decimal) → x -ℤ (y +ℤ n) ≡ x -ℤ y -ℤ n
sub-add x y n = omega int_laws

-- Assets less liabilities are the nets of the asset and liability ledgers less the profit.
pub balance_sheet_difference :
    (lines : List LedgerLine) (net_profit : Decimal)
    → let bs = balance_sheet lines net_profit in
      bs.total_assets -ℤ bs.total_liabilities ≡ sum (map real lines) -ℤ net_profit
unfolding balance_sheet
balance_sheet_difference lines net_profit =
    sub-add _ _ net_profit
    ∙ ap (λ z. z -ℤ net_profit) (worth-sides_from lines no_sides ∙ rw sum-nil (omega int_laws))
