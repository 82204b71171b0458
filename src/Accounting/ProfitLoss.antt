-- ===== src/Accounting/ProfitLoss.antt =====
-- `profit_and_loss`: income and expense ledgers, direct and indirect.
use gst_ai_copilot.Base.{
  ◌≡◌, ◌∙◌, List, [], ◌∷◌, ◌++◌, map, pos, Decimal, ◌+ℤ◌, ◌-ℤ◌, eqb_ℤ, negate, sum, sum-nil,
  sum-cons, inl, inr, Bool-cases, if◌then◌else◌, int_laws,
}
use gst_ai_copilot.Accounting.Lines.{
  Nature, asset, liability, income, expense, LedgerLine, closing_net, StatementLine, total,
  is_direct,
}

pub record ProfitAndLoss : Type 0 where
  pub direct_income : List StatementLine
  pub direct_expense : List StatementLine
  pub indirect_income : List StatementLine
  pub indirect_expense : List StatementLine
  pub gross_profit : Decimal
  pub net_profit : Decimal

-- The lists `di`, `de`, `ii` and `ie` of the loop.
pub record Sections : Type 0 where
  pub di : List StatementLine
  pub de : List StatementLine
  pub ii : List StatementLine
  pub ie : List StatementLine

abbrev pub statement_line : LedgerLine → Decimal → StatementLine
statement_line l amount = record { name = l.name; group_name = l.group_name; amount = amount }

-- `_income_amount` and `_expense_amount`
abbrev pub income_amount : LedgerLine → Decimal
income_amount l = negate (closing_net l)

abbrev pub expense_amount : LedgerLine → Decimal
expense_amount l = closing_net l

unfoldable pub add_income : LedgerLine → Sections → Sections
add_income l s =
    let amt = income_amount l in
    if eqb_ℤ amt (pos 0)
    then s
    else if is_direct l.classification
    then record s { di = s.di ++ (statement_line l amt ∷ []) }
    else record s { ii = s.ii ++ (statement_line l amt ∷ []) }

unfoldable pub add_expense : LedgerLine → Sections → Sections
add_expense l s =
    let amt = expense_amount l in
    if eqb_ℤ amt (pos 0)
    then s
    else if is_direct l.classification
    then record s { de = s.de ++ (statement_line l amt ∷ []) }
    else record s { ie = s.ie ++ (statement_line l amt ∷ []) }

-- One round of the loop, by the ledger's nature.
unfoldable pub section_step : Nature → LedgerLine → Sections → Sections
section_step income l s = add_income l s
section_step expense l s = add_expense l s
section_step asset l s = s
section_step liability l s = s

unfoldable pub sections_from : Sections → List LedgerLine → Sections
sections_from s [] = s
sections_from s (l ∷ ls) = sections_from (section_step l.nature l s) ls

abbrev no_sections : Sections
no_sections = record { di = []; de = []; ii = []; ie = [] }

unfoldable pub profit_and_loss : List LedgerLine → ProfitAndLoss
profit_and_loss lines =
    let s = sections_from no_sections lines in
    let gross = total s.di -ℤ total s.de in
    record {
      direct_income = s.di;
      direct_expense = s.de;
      indirect_income = s.ii;
      indirect_expense = s.ie;
      gross_profit = gross;
      net_profit = gross +ℤ total s.ii -ℤ total s.ie;
    }

-- What a ledger has to do with the profit: its net, if it is an income or an expense.
abbrev pub nominal_of : Nature → LedgerLine → Decimal
nominal_of income l = closing_net l
nominal_of expense l = closing_net l
nominal_of asset l = pos 0
nominal_of liability l = pos 0

abbrev pub nominal : LedgerLine → Decimal
nominal l = nominal_of l.nature l

abbrev profit_of : Sections → Decimal
profit_of s = total s.di -ℤ total s.de +ℤ total s.ii -ℤ total s.ie

pub total-snoc :
    (ls : List StatementLine) (l : StatementLine) → total (ls ++ (l ∷ [])) ≡ total ls +ℤ l.amount
total-snoc [] l = rw (sum-cons l.amount [], sum-nil) (omega int_laws)
total-snoc (x ∷ ls) l =
    rw
      (
        sum-cons x.amount (map (λ k. k.amount) (ls ++ (l ∷ []))),
        total-snoc ls l,
        sum-cons x.amount (map (λ k. k.amount) ls),
      )
      (omega int_laws)

profit_of-add_income :
    (l : LedgerLine) (s : Sections) → profit_of (add_income l s) ≡ profit_of s -ℤ closing_net l
unfolding add_income
profit_of-add_income l s = elim (Bool-cases (eqb_ℤ (income_amount l) (pos 0))) [
  | inl none_left ↦ rw none_left (grind int_laws)
  | inr some_left ↦ elim (Bool-cases (is_direct l.classification)) [
    | inl d ↦ rw (some_left, d) (simp total-snoc (omega int_laws))
    | inr d ↦ rw (some_left, d) (simp total-snoc (omega int_laws))
  ]
]

profit_of-add_expense :
    (l : LedgerLine) (s : Sections) → profit_of (add_expense l s) ≡ profit_of s -ℤ closing_net l
unfolding add_expense
profit_of-add_expense l s = elim (Bool-cases (eqb_ℤ (expense_amount l) (pos 0))) [
  | inl none_left ↦ rw none_left (grind int_laws)
  | inr some_left ↦ elim (Bool-cases (is_direct l.classification)) [
    | inl d ↦ rw (some_left, d) (simp total-snoc (omega int_laws))
    | inr d ↦ rw (some_left, d) (simp total-snoc (omega int_laws))
  ]
]

profit_of-step :
    (k : Nature) (l : LedgerLine) (s : Sections)
    → profit_of (section_step k l s) ≡ profit_of s -ℤ nominal_of k l
unfolding section_step
profit_of-step income l s = profit_of-add_income l s
profit_of-step expense l s = profit_of-add_expense l s
profit_of-step asset l s = omega int_laws
profit_of-step liability l s = omega int_laws

profit_of-sections_from :
    (ls : List LedgerLine) (s : Sections)
    → profit_of (sections_from s ls) ≡ profit_of s -ℤ sum (map nominal ls)
unfolding sections_from
profit_of-sections_from [] s = rw sum-nil (omega int_laws)
profit_of-sections_from (l ∷ ls) s =
    rw
      (
        profit_of-sections_from ls (section_step l.nature l s),
        profit_of-step l.nature l s,
        sum-cons (nominal l) (map nominal ls),
      )
      (omega int_laws)

-- The net profit is the credit balance of all income and expense ledgers together, whatever their
-- classification puts them under.
pub net_profit-eq :
    (lines : List LedgerLine)
    → (profit_and_loss lines).net_profit ≡ negate (sum (map nominal lines))
unfolding profit_and_loss
net_profit-eq lines = profit_of-sections_from lines no_sections ∙ (rw sum-nil (omega int_laws))
