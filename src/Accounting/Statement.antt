-- ===== src/Accounting/Statement.antt =====
-- `ledger_statement`: the transactions of one ledger with the running balance.
use gst_ai_copilot.Base.{
  ◌≡◌, refl, sym, ◌∙◌, ap, Option, List, [], ◌∷◌, ◌++◌, map, arith, pos, Decimal, ◌+ℤ◌, ◌-ℤ◌, leb_ℤ,
  abs, sum, sum-nil, sum-cons, Text, if◌then◌else◌, int_laws,
}
use gst_ai_copilot.Accounting.Voucher.{Side, debit, credit, opening_net}

pub record LedgerTxn : Type 0 where
  pub date : Text
  pub voucher_type : Text
  pub voucher_number : Text
  pub narration : Option Text
  pub debit : Decimal
  pub credit : Decimal
  pub running_net : Decimal

pub record LedgerStatement : Type 0 where
  pub ledger_name : Text
  pub opening_net : Decimal
  pub txns : List LedgerTxn
  pub closing_net : Decimal

-- The loop, which writes the running balance into each transaction; the last one is returned too.
unfoldable pub run_balance : Decimal → List LedgerTxn → List LedgerTxn × Decimal
run_balance running [] = ([], running)
run_balance running (t ∷ ts) =
    let now = running +ℤ t.debit -ℤ t.credit in
    let (rest, last) = run_balance now ts in (record t { running_net = now } ∷ rest, last)

unfoldable pub ledger_statement : Text → Decimal → List LedgerTxn → LedgerStatement
ledger_statement name opening txns =
    let (done, last) = run_balance opening txns in
    record { ledger_name = name; opening_net = opening; txns = done; closing_net = last }

-- `as_dict` shows a net as its size and the side it stands on.
unfoldable pub balance_side : Decimal → Side
balance_side net = if leb_ℤ (pos 0) net then debit else credit

abbrev pub net_movement : List LedgerTxn → Decimal
net_movement ts = sum (map (λ t. t.debit) ts) -ℤ sum (map (λ t. t.credit) ts)

run_balance-last : (ts : List LedgerTxn) (r : Decimal) → (run_balance r ts).1 ≡ r +ℤ net_movement ts
unfolding run_balance
run_balance-last [] r = rw sum-nil (omega int_laws)
run_balance-last (t ∷ ts) r =
    rw
      (
        run_balance-last ts (r +ℤ t.debit -ℤ t.credit),
        sum-cons t.debit (map (λ k. k.debit) ts),
        sum-cons t.credit (map (λ k. k.credit) ts),
      )
      (omega int_laws)

run_balance-append :
    (ts us : List LedgerTxn) (r : Decimal)
    → run_balance r (ts ++ us) ≡ (
      (run_balance r ts).0 ++ (run_balance (run_balance r ts).1 us).0,
      (run_balance (run_balance r ts).1 us).1,
    )
unfolding run_balance
run_balance-append [] us r = refl
run_balance-append (t ∷ ts) us r = rw (run_balance-append ts us (r +ℤ t.debit -ℤ t.credit))

balance_at :
    (opening : Decimal) (ts : List LedgerTxn) (t : LedgerTxn)
    → (run_balance opening ts).1 +ℤ t.debit -ℤ t.credit ≡ opening +ℤ net_movement (ts ++ (t ∷ []))
unfolding run_balance
balance_at opening ts t =
    sym (ap (λ p. p.1) (run_balance-append ts (t ∷ []) opening))
    ∙ run_balance-last (ts ++ (t ∷ [])) opening

-- The closing balance is the opening one moved by all debits and credits, and the balance beside
-- any transaction is the closing balance of the statement that ends with it.
pub ledger_statement_running :
    (name : Text) (opening : Decimal) (ts : List LedgerTxn) (t : LedgerTxn) (us : List LedgerTxn)
    → let s = ledger_statement name opening (ts ++ (t ∷ us)) in
      let r = opening +ℤ net_movement (ts ++ (t ∷ [])) in
      (s.closing_net ≡ opening +ℤ net_movement (ts ++ (t ∷ us)))
      × (s.txns
          ≡ (ledger_statement name opening ts).txns
            ++ (record t { running_net = r } ∷ (ledger_statement name r us).txns))
unfolding ledger_statement run_balance
ledger_statement_running name opening ts t us = (
  run_balance-last (ts ++ (t ∷ us)) opening,
  rw (← balance_at opening ts t) (ap (λ p. p.0) (run_balance-append ts (t ∷ us) opening)),
)

pub ledger_statement-closing_net :
    (name : Text) (opening : Decimal) (ts : List LedgerTxn)
    → (ledger_statement name opening ts).closing_net ≡ opening +ℤ net_movement ts
unfolding ledger_statement
ledger_statement-closing_net name opening ts = run_balance-last ts opening

-- The size and side that a statement shows for a net give the net back.
pub opening_net-abs : (net : Decimal) → opening_net (abs net) (balance_side net) ≡ net
unfolding opening_net balance_side ◌-ℤ◌
opening_net-abs net = ground arith
