-- ===== src/Books/Reports/Sums.antt =====
-- The lines of `_ledger_lines` against the entries of the vouchers, and the trial balance of the
-- books.
use gst_ai_copilot.Base.{
  ℕ, ◌==◌, ◌≡◌, refl, sym, ap, subst, ◌∙◌, inl, inr, Bool, true, false, Option-cases, List, [], ◌∷◌,
  find, Text, Decimal, pos, ◌+ℤ◌, ◌-ℤ◌, sum-nil, int_laws, arith, if◌then◌else◌, Result, ok,
  >>=-eq-ok, ok-inj,
}
use gst_ai_copilot.Accounting.Voucher.{Side, debit, credit, opening_net}
use gst_ai_copilot.Accounting.Lines.{LedgerLine}
use gst_ai_copilot.Books.{LedgerGroup, Ledger, EntryDraft, Db, BooksError}
use gst_ai_copilot.Books.Reports.{
  list_ledgers, entries_of, is_before, is_within, group_entries, net_at, opening_by_ledger, slot_at,
  period_by_ledger, line_with, line_of, lines_of, ledger_lines,
}
use gst_ai_copilot.Books.Reports.Grouped.{
  side_sum, group_entries-sum, net_at-opening_by_ledger, slot_side, slot_at-period_by_ledger,
}

-- Debits less credits of a ledger among the entries.
abbrev pub movement : ℕ → List EntryDraft → Decimal
movement i es = side_sum debit i es -ℤ side_sum credit i es

-- What a line says of its ledger: the opening balance with what was booked before the first day,
-- unless it is left out, and the debits and credits of the period.
pub record IsLine (show : ℕ → Text) (include_opening : Bool) (earlier period : List EntryDraft)
    (l : Ledger) (line : LedgerLine) : Type 0 where
  pub id : line.ledger_id ≡ show l.id
  pub name : line.name ≡ l.name
  pub opening : line.opening ≡ (
      if include_opening
      then opening_net l.opening_balance l.opening_side +ℤ movement l.id earlier
      else pos 0)
  pub debits : line.debit_total ≡ side_sum debit l.id period
  pub credits : line.credit_total ≡ side_sum credit l.id period

-- One line for each ledger, in the order of the ledgers.
abbrev pub AreLines :
    (ℕ → Text) → Bool → List EntryDraft → List EntryDraft → List Ledger → List LedgerLine → Type 0
AreLines show incl earlier period [] [] = Unit {0}
AreLines show incl earlier period [] (x ∷ xs) = ⊥
AreLines show incl earlier period (l ∷ ls) [] = ⊥
AreLines show incl earlier period (l ∷ ls) (x ∷ xs) =
    IsLine show incl earlier period l x × AreLines show incl earlier period ls xs

zero-add : (x : Decimal) → pos 0 +ℤ x ≡ x
zero-add x = omega int_laws

net_at-movement :
    (i : ℕ) (es : List EntryDraft)
    → net_at i (opening_by_ledger [] (group_entries [] es)) ≡ movement i es
unfolding net_at
net_at-movement i es =
    rw
      (
        net_at-opening_by_ledger i (group_entries [] es) [],
        group_entries-sum debit i es [],
        group_entries-sum credit i es [],
        sum-nil,
      )
      (omega int_laws)

slot_at-side_sum :
    (s : Side) (i : ℕ) (es : List EntryDraft)
    → slot_side s (slot_at i (period_by_ledger [] (group_entries [] es))) ≡ side_sum s i es
unfolding slot_at
slot_at-side_sum debit i es =
    rw
      (
        slot_at-period_by_ledger debit i (group_entries [] es) [],
        group_entries-sum debit i es [],
        sum-nil,
      )
      (omega int_laws)
slot_at-side_sum credit i es =
    rw
      (
        slot_at-period_by_ledger credit i (group_entries [] es) [],
        group_entries-sum credit i es [],
        sum-nil,
      )
      (omega int_laws)

opening-eq :
    (incl : Bool) (m e z : Decimal)
    → e ≡ z
    → (if incl then m else pos 0) +ℤ (if incl then e else pos 0) ≡ (if incl then m +ℤ z else pos 0)
opening-eq true m e z h = ap (λ k. m +ℤ k) h
opening-eq false m e z h = omega int_laws

line_with-IsLine :
    (show : ℕ → Text) (incl : Bool) (earlier period : List EntryDraft) (g : LedgerGroup)
    (l : Ledger)
    → IsLine show incl earlier period l (
        line_with show incl
          (opening_by_ledger [] (group_entries [] earlier))
          (period_by_ledger [] (group_entries [] period))
          g
          l)
line_with-IsLine show incl earlier period g l = record {
  id = refl;
  name = refl;
  opening = opening-eq incl _ _ _ (net_at-movement l.id earlier);
  debits = slot_at-side_sum debit l.id period;
  credits = slot_at-side_sum credit l.id period;
}

module _ (show : ℕ → Text) (incl : Bool) (groups : List LedgerGroup) where
  abbrev reader : List EntryDraft → List EntryDraft → Ledger → Result BooksError LedgerLine
  reader earlier period =
      line_of show incl groups (opening_by_ledger [] (group_entries [] earlier))
        (period_by_ledger [] (group_entries [] period))

  reader-IsLine :
      (earlier period : List EntryDraft) (l : Ledger) {line : LedgerLine}
      → reader earlier period l ≡ ok line
      → IsLine show incl earlier period l line
  unfolding line_of
  reader-IsLine earlier period l {line} e =
      elim (Option-cases (find (λ g. g.id == l.group_id) groups)) [
        | inl missing ↦ absurd (ground arith)
        | inr (g, there) ↦
            subst (IsLine show incl earlier period l) (ok-inj (sym (rw (line_of, there) refl) ∙ e))
              (line_with-IsLine show incl earlier period g l)
      ]

  lines_of-AreLines :
      (earlier period : List EntryDraft) (ls : List Ledger) {lines : List LedgerLine}
      → lines_of (reader earlier period) ls ≡ ok lines
      → AreLines show incl earlier period ls lines
  unfolding lines_of
  lines_of-AreLines earlier period [] e = subst (AreLines show incl earlier period []) (ok-inj e) tt
  lines_of-AreLines earlier period (l ∷ ls) e =
      let (line, first, e1) = >>=-eq-ok (reader earlier period l) _ e in
      let (rest, others, e2) = >>=-eq-ok (lines_of (reader earlier period) ls) _ e1 in
      subst (AreLines show incl earlier period (l ∷ ls)) (ok-inj e2)
        (reader-IsLine earlier period l first, lines_of-AreLines earlier period ls others)

-- Each line of `_ledger_lines` shows its ledger with the plain sums over the entries of the
-- organization's vouchers: debits and credits between the two days, and, where it is asked for, the
-- opening balance with all that was booked before the first day. The lines are those of the
-- organization's ledgers, one each, in the order of their names.
pub ledger_lines-AreLines :
    (show : ℕ → Text) (org : ℕ) (date_from date_to : Text) (incl : Bool) (db : Db)
    {lines : List LedgerLine}
    → ledger_lines show org date_from date_to incl db ≡ ok lines
    → AreLines show incl
        (entries_of (is_before org date_from) db.vouchers)
        (entries_of (is_within org date_from date_to) db.vouchers)
        (list_ledgers org db)
        lines
unfolding ledger_lines
ledger_lines-AreLines show org date_from date_to incl db e =
    lines_of-AreLines show incl db.groups _ _ (list_ledgers org db) e
