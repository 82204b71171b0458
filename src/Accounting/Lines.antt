-- ===== src/Accounting/Lines.antt =====
-- `LedgerLine` with its balances, and the rows of the statements.
use gst_ai_copilot.Base.{
  ◌≡◌, Bool, ◌||◌, List, map, pos, Decimal, ◌+ℤ◌, ◌-ℤ◌, ltb_ℤ, negate, sum, Text, codes, text_eq,
  if◌then◌else◌, int_laws,
}

pub data Nature : Type 0 where
  asset liability income expense : Nature

-- The enum's values.
abbrev pub nature_value : Nature → Text
nature_value asset = codes "asset"
nature_value liability = codes "liability"
nature_value income = codes "income"
nature_value expense = codes "expense"

pub record LedgerLine : Type 0 where
  pub ledger_id : Text
  pub name : Text
  pub group_name : Text
  pub nature : Nature
  pub classification : Text
  pub opening : Decimal
  pub debit_total : Decimal
  pub credit_total : Decimal

-- `LedgerLine.closing_net`
unfoldable pub closing_net : LedgerLine → Decimal
closing_net l = l.opening +ℤ l.debit_total -ℤ l.credit_total

unfoldable pub debit_balance : LedgerLine → Decimal
debit_balance l = let n = closing_net l in if ltb_ℤ (pos 0) n then n else pos 0

unfoldable pub credit_balance : LedgerLine → Decimal
credit_balance l = let n = closing_net l in if ltb_ℤ n (pos 0) then negate n else pos 0

pub balances-closing_net : (l : LedgerLine) → debit_balance l -ℤ credit_balance l ≡ closing_net l
unfolding debit_balance credit_balance
balances-closing_net l = grind int_laws

pub record StatementLine : Type 0 where
  pub name : Text
  pub group_name : Text
  pub amount : Decimal

abbrev pub total : List StatementLine → Decimal
total ls = sum (map (λ l. l.amount) ls)

-- `line.classification in _DIRECT_CLASSIFICATIONS`
unfoldable pub is_direct : Text → Bool
is_direct c =
    text_eq c (codes "sales")
    || text_eq c (codes "purchase")
    || text_eq c (codes "direct_income")
    || text_eq c (codes "direct_expense")
    || text_eq c (codes "stock")
