-- ===== src/Accounting/TrialBalance.antt =====
-- `trial_balance`: one row for each ledger with a balance, in the order of nature, group and name.
use gst_ai_copilot.Base.{
  ◌≡◌, ◌∙◌, ◌⊎◌, inl, inr, Bool, true, false, ◌&&◌, ◌||◌, List, [], ◌∷◌, map, arith, pos, Decimal,
  ◌-ℤ◌, ◌≤ℤ◌, leb_ℤ, eqb_ℤ, abs, sum, sum-nil, sum-cons, sum-sorted_by, sorted_by, Text, text_eq,
  text_ltb, if◌then◌else◌, int_laws, All, Bool-cases,
}
use gst_ai_copilot.Accounting.Voucher.{tolerance}
use gst_ai_copilot.Accounting.Lines.{
  LedgerLine, nature_value, closing_net, debit_balance, credit_balance, balances-closing_net,
}

pub record TrialBalanceRow : Type 0 where
  pub ledger_id : Text
  pub name : Text
  pub group_name : Text
  pub debit : Decimal
  pub credit : Decimal

pub record TrialBalance : Type 0 where
  pub rows : List TrialBalanceRow
  pub total_debit : Decimal
  pub total_credit : Decimal

-- The key `(x.nature.value, x.group_name, x.name)`, compared part by part.
unfoldable pub key_before : LedgerLine → LedgerLine → Bool
key_before x y =
    text_ltb (nature_value x.nature) (nature_value y.nature)
    || (text_eq (nature_value x.nature) (nature_value y.nature)
        && (text_ltb x.group_name y.group_name
            || (text_eq x.group_name y.group_name && text_ltb x.name y.name)))

abbrev pub row_of : LedgerLine → TrialBalanceRow
row_of l = record {
  ledger_id = l.ledger_id;
  name = l.name;
  group_name = l.group_name;
  debit = debit_balance l;
  credit = credit_balance l;
}

-- The loop over the sorted lines; a line without a balance is passed over.
unfoldable pub trial_rows : List LedgerLine → List TrialBalanceRow
trial_rows [] = []
trial_rows (l ∷ ls) =
    if eqb_ℤ (debit_balance l) (pos 0) && eqb_ℤ (credit_balance l) (pos 0)
    then trial_rows ls
    else row_of l ∷ trial_rows ls

abbrev pub debits : List TrialBalanceRow → List Decimal
debits rows = map (λ r. r.debit) rows

abbrev pub credits : List TrialBalanceRow → List Decimal
credits rows = map (λ r. r.credit) rows

unfoldable pub trial_balance : List LedgerLine → TrialBalance
trial_balance lines =
    let rows = trial_rows (sorted_by key_before lines) in
    record { rows = rows; total_debit = sum (debits rows); total_credit = sum (credits rows) }

-- `TrialBalance.is_balanced`
unfoldable pub is_balanced : TrialBalance → Bool
is_balanced tb = leb_ℤ (abs (tb.total_debit -ℤ tb.total_credit)) tolerance

abbrev pub total_net : List LedgerLine → Decimal
total_net lines = sum (map closing_net lines)

abbrev has_no_balance : LedgerLine → Bool
has_no_balance l = eqb_ℤ (debit_balance l) (pos 0) && eqb_ℤ (credit_balance l) (pos 0)

no_balance-closing_net : (l : LedgerLine) → has_no_balance l ≡ true → closing_net l ≡ pos 0
no_balance-closing_net l h = grind (int_laws, balances-closing_net l)

trial_rows_difference :
    (ls : List LedgerLine)
    → sum (debits (trial_rows ls)) -ℤ sum (credits (trial_rows ls)) ≡ total_net ls
unfolding trial_rows
trial_rows_difference [] = rw sum-nil (omega int_laws)
trial_rows_difference (l ∷ ls) = elim (Bool-cases (has_no_balance l)) [
  | inl t ↦ rw t (
      rw
        (
          trial_rows_difference ls,
          sum-cons (closing_net l) (map closing_net ls),
          no_balance-closing_net l t,
        )
        (omega int_laws))
  | inr t ↦ rw t (
      rw
        (
          sum-cons (debit_balance l) (debits (trial_rows ls)),
          sum-cons (credit_balance l) (credits (trial_rows ls)),
          sum-cons (closing_net l) (map closing_net ls),
          ← trial_rows_difference ls,
          ← balances-closing_net l,
        )
        (omega int_laws))
]

-- The debit total exceeds the credit total by the sum of all closing nets, the ledgers in any order
-- and those without a row counted.
pub trial_balance_difference :
    (lines : List LedgerLine)
    → (trial_balance lines).total_debit -ℤ (trial_balance lines).total_credit ≡ total_net lines
unfolding trial_balance
trial_balance_difference lines =
    trial_rows_difference (sorted_by key_before lines) ∙ sum-sorted_by key_before closing_net lines

-- A row carries one balance: either a debit and no credit or a credit and no debit.
abbrev pub IsOneSided : TrialBalanceRow → Type 0
IsOneSided r = ((pos 1 ≤ℤ r.debit) × (r.credit ≡ pos 0)) ⊎ ((r.debit ≡ pos 0) × (pos 1 ≤ℤ r.credit))

row_of-IsOneSided : (l : LedgerLine) → has_no_balance l ≡ false → IsOneSided (row_of l)
unfolding debit_balance credit_balance ◌-ℤ◌
row_of-IsOneSided l t = ground arith

trial_rows-IsOneSided : (ls : List LedgerLine) → All IsOneSided (trial_rows ls)
unfolding trial_rows
trial_rows-IsOneSided [] = tt
trial_rows-IsOneSided (l ∷ ls) = elim (Bool-cases (has_no_balance l)) [
  | inl t ↦ rw t (trial_rows-IsOneSided ls)
  | inr t ↦ rw t (row_of-IsOneSided l t, trial_rows-IsOneSided ls)
]

-- Each row of a trial balance has either a debit of more than zero or a credit of more than zero.
pub trial_balance-IsOneSided : (lines : List LedgerLine) → All IsOneSided (trial_balance lines).rows
unfolding trial_balance
trial_balance-IsOneSided lines = trial_rows-IsOneSided (sorted_by key_before lines)
