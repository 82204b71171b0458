-- ===== src/Books/Statements/Closing.antt =====
-- The closing balance of a ledger's statement, and the line of the ledger in the other reports.
pub mod Movements
pub mod Deltas
use gst_ai_copilot.Base.{
  ℕ, ◌==◌, ◌≡◌, refl, sym, ap, subst, ◌∙◌, inl, inr, Bool, true, false, not, Bool-cases, ◌&&◌, ◌||◌,
  Option, List, [], ◌∷◌, map, select, Text, text_ltb, text_ltb_trans, Decimal, ◌+ℤ◌, ◌-ℤ◌, sum,
  sum-nil, sum-sorted_by, sorted_by, int_laws, arith, Result, ok, ok-inj, >>=-eq-ok, In, In-select,
  sorted_by-In, find, find-In, find-true, some, Option-cases,
}
use gst_ai_copilot.Accounting.Voucher.{opening_net}
use gst_ai_copilot.Accounting.Lines.{LedgerLine, closing_net}
use gst_ai_copilot.Accounting.Statement.{
  LedgerStatement, ledger_statement, ledger_statement-closing_net,
}
use gst_ai_copilot.Books.{Ledger, Voucher, EntryDraft, Db, BooksError}
use gst_ai_copilot.Books.Reports.{
  group_entries, list_ledgers, ledger_lines, entries_of, is_before, is_within, get_ledger,
  far_future, date_or, epoch,
}
use gst_ai_copilot.Books.Reports.Sums.{IsLine, AreLines, ledger_lines-AreLines}
use gst_ai_copilot.Books.Reports.Ties.{opening_of, select-apart}
use gst_ai_copilot.Books.Statements.{txns_of, add_deltas, statement_report}
use gst_ai_copilot.Books.Statements.Closing.Movements.{
  moved, movement-entries_of, net_movement-txns_of,
}
use gst_ai_copilot.Books.Statements.Closing.Deltas.{add_deltas-eq, group_entries-deltas}

-- The vouchers up to a day.
abbrev pub is_upto : ℕ → Text → Voucher → Bool
is_upto org last v = (v.organization_id == org) && not (text_ltb last v.date)

select-cong :
    (p q : Voucher → Bool) (vs : List Voucher)
    → ((v : Voucher) → p v ≡ q v)
    → select p vs ≡ select q vs
select-cong p q [] h = refl
select-cong p q (v ∷ vs) h = elim (Bool-cases (q v)) [
  | inl t ↦ rw (h v, t) (ap (λ k. v ∷ k) (select-cong p q vs h))
  | inr t ↦ rw (h v, t) (select-cong p q vs h)
]

-- What comes before the first day and what lies between the days is all up to the last one.
upto-eq :
    (org : ℕ) (first last : Text) (v : Voucher)
    → text_ltb last first ≡ false
    → (is_before org first v || is_within org first last v) ≡ is_upto org last v
upto-eq org first last v h = elim (Bool-cases (text_ltb v.date first)) [
  | inl t ↦ rw (t, text_ltb_trans v.date first last t h) (both (v.organization_id == org))
  | inr t ↦ rw t (neither (v.organization_id == org) (text_ltb last v.date))
]
  where
    both : (b : Bool) → ((b && true) || (b && (false && true))) ≡ (b && true)
    both b = ground arith

    neither : (b c : Bool) → ((b && false) || (b && (true && not c))) ≡ (b && not c)
    neither b c = ground arith

-- Two ranges that meet.
ranges-add :
    (i org : ℕ) (first last : Text) (vs : List Voucher)
    → text_ltb last first ≡ false
    → sum (map (moved i) (select (is_before org first) vs))
        +ℤ sum (map (moved i) (select (is_within org first last) vs))
      ≡ sum (map (moved i) (select (is_upto org last) vs))
ranges-add i org first last vs h =
    select-apart (is_before org first) (is_within org first last) (moved i) vs (λ v t. ground arith)
    ∙ ap (λ k. sum (map (moved i) k))
        (select-cong (λ v. is_before org first v || is_within org first last v) (is_upto org last)
          vs (λ v. upto-eq org first last v h))

-- The statement as it is made for its ledger.
module _ (org i : ℕ) (db : Db) where
  abbrev opening_at : Ledger → Text → Decimal
  opening_at l first = add_deltas (opening_net l.opening_balance l.opening_side) (
      group_entries []
        (select (λ e. e.ledger_id == i) (entries_of (is_before org first) db.vouchers)))

  abbrev statement_for : Ledger → Text → Text → LedgerStatement
  statement_for l first last = ledger_statement l.name (opening_at l first) (
      txns_of i
        (sorted_by (λ a b. text_ltb a.date b.date) (select (is_within org first last) db.vouchers)))

  statement_for-closing :
      (l : Ledger) (first last : Text)
      → text_ltb last first ≡ false
      → (statement_for l first last).closing_net
        ≡ opening_of l +ℤ sum (map (moved i) (select (is_upto org last) db.vouchers))
  statement_for-closing l first last h =
      ledger_statement-closing_net l.name (opening_at l first) _
      ∙ rw
          (
            net_movement-txns_of i (
                sorted_by (λ a b. text_ltb a.date b.date)
                  (select (is_within org first last) db.vouchers)),
            sum-sorted_by (λ a b. text_ltb a.date b.date) (moved i)
                (select (is_within org first last) db.vouchers),
            add_deltas-eq (opening_net l.opening_balance l.opening_side) (
                group_entries []
                  (select (λ e. e.ledger_id == i) (entries_of (is_before org first) db.vouchers))),
            group_entries-deltas i (entries_of (is_before org first) db.vouchers) [],
            movement-entries_of i (is_before org first) db.vouchers,
            sum-nil,
            ← ranges-add i org first last db.vouchers h,
          )
          (omega int_laws)

  pub line-closing :
      (show : ℕ → Text) (l : Ledger) (last : Text) (line : LedgerLine)
      → l.id ≡ i
      → text_ltb last epoch ≡ false
      → IsLine show true
          (entries_of (is_before org epoch) db.vouchers)
          (entries_of (is_within org epoch last) db.vouchers)
          l
          line
      → closing_net line
        ≡ opening_of l +ℤ sum (map (moved i) (select (is_upto org last) db.vouchers))
  unfolding closing_net
  line-closing show l last line same h r =
      rw (r.opening, r.debits, r.credits, same)
        (sums-closing (opening_of l) _ _ _
          ∙ ap (λ z. opening_of l +ℤ z)
              (rw
                (
                  movement-entries_of i (is_before org epoch) db.vouchers,
                  movement-entries_of i (is_within org epoch last) db.vouchers,
                )
                (ranges-add i org epoch last db.vouchers h)))
    where
      sums-closing : (o b d c : Decimal) → o +ℤ b +ℤ d -ℤ c ≡ o +ℤ (b +ℤ (d -ℤ c))
      sums-closing o b d c = omega int_laws

statement_report-line :
    (show : ℕ → Text) (fy_from : Text) (org i : ℕ) (date_from date_to : Option Text) (db : Db)
    {l : Ledger} {j : ℕ} {first last : Text} {st : LedgerStatement} (line : LedgerLine)
    → get_ledger org i db ≡ ok l
    → l.id ≡ i
    → statement_report fy_from org i date_from date_to db ≡ ok (j, first, last, st)
    → text_ltb last first ≡ false
    → text_ltb last epoch ≡ false
    → IsLine show true
        (entries_of (is_before org epoch) db.vouchers)
        (entries_of (is_within org epoch last) db.vouchers)
        l
        line
    → st.closing_net ≡ closing_net line
unfolding statement_report
statement_report-line show fy_from org i date_from date_to db {l} {j} {first} {last} {st} line there
      same e h k r =
    let (l2, there2, e2) = >>=-eq-ok (get_ledger org i db) _ e in
    let found : l2 ≡ l = ok-inj (sym there2 ∙ there) in
    let first0 = date_or date_from fy_from in
    let last0 = date_or date_to far_future in
    let made : (l.id, first0, last0, statement_for org i db l first0 last0) ≡ (j, first, last, st) =
      ok-inj (
        subst
          (λ x.
            ◌≡◌ {A = Result BooksError (ℕ × Text × Text × LedgerStatement)}
              (ok (x.id, first0, last0, statement_for org i db x first0 last0))
              (ok (j, first, last, st)))
          found e2) in
    subst
      (λ x.
        text_ltb x.2 x.1 ≡ false
        → text_ltb x.2 epoch ≡ false
        → IsLine show true (entries_of (is_before org epoch) db.vouchers)
            (entries_of (is_within org epoch x.2) db.vouchers) l line
        → x.3.closing_net ≡ closing_net line)
      made
      (λ h k r.
        statement_for-closing org i db l first0 last0 h
        ∙ sym (line-closing org i db show l last0 line same k r))
      h k r

AreLines-In :
    (show : ℕ → Text) (incl : Bool) (earlier period : List EntryDraft) (ls : List Ledger)
    (lines : List LedgerLine) (l : Ledger)
    → AreLines show incl earlier period ls lines
    → In l ls
    → (line : LedgerLine) × In line lines × IsLine show incl earlier period l line
AreLines-In show incl earlier period [] lines l h m = absurd m
AreLines-In show incl earlier period (k ∷ ls) [] l h m = absurd h
AreLines-In show incl earlier period (k ∷ ls) (x ∷ lines) l h (inl e) =
    (x, inl refl, subst (λ z. IsLine show incl earlier period z x) (sym e) h.0)
AreLines-In show incl earlier period (k ∷ ls) (x ∷ lines) l h (inr m) =
    let (line, there, is_line) = AreLines-In show incl earlier period ls lines l h.1 m in
    (line, inr there, is_line)

-- The ledger of a request is one of those that are listed.
get_ledger-listed :
    (org i : ℕ) (db : Db) {l : Ledger}
    → get_ledger org i db ≡ ok l
    → (l.id ≡ i) × In l (list_ledgers org db)
unfolding get_ledger list_ledgers
get_ledger-listed org i db {l} h =
    let p = λ (k : Ledger). (k.id == i) && (k.organization_id == org) in
    elim (Option-cases (find p db.ledgers)) [
      | inl missing ↦ absurd (ground arith)
      | inr (k, there) ↦
          let same : k ≡ l = ground arith in
          let found : find p db.ledgers ≡ some l = there ∙ ap some same in
          let true_of : p l ≡ true = find-true p (λ x. x) db.ledgers found in
          (
            ground arith,
            sorted_by-In (λ a b. text_ltb a.name b.name) l _
                (In-select (λ x. x.organization_id == org) db.ledgers l
                  (find-In p (λ x. x) db.ledgers found) (ground arith)),
          )
    ]

-- The statement of a ledger, from whatever day it starts, closes at the balance of a line of that
-- ledger's among the lines of the trial balance of the statement's last day (all that was booked
-- from 1900 on, with the opening balances), where that day is not before the first one nor before
-- 1900.
pub statement_report-closing_net :
    (show : ℕ → Text) (fy_from : Text) (org i : ℕ) (date_from date_to : Option Text) (db : Db)
    {j : ℕ} {first last : Text} {st : LedgerStatement} {lines : List LedgerLine}
    → statement_report fy_from org i date_from date_to db ≡ ok (j, first, last, st)
    → ledger_lines show org epoch last true db ≡ ok lines
    → text_ltb last first ≡ false
    → text_ltb last epoch ≡ false
    → (line : LedgerLine) × In line lines
      × (line.ledger_id ≡ show i)
      × (st.closing_net ≡ closing_net line)
unfolding statement_report
statement_report-closing_net show fy_from org i date_from date_to db {j} {first} {last} {st} {lines}
      made listed h k =
    let (l, there, rest) = >>=-eq-ok (get_ledger org i db) _ made in
    let (same, member) = get_ledger-listed org i db there in
    let (line, among, is_line) =
      AreLines-In show true _ _ (list_ledgers org db) lines l
        (ledger_lines-AreLines show org epoch last true db listed) member in
    (
      line,
      among,
      is_line.id ∙ ap show same,
      statement_report-line show fy_from org i date_from date_to db line there same made h k
          is_line,
    )
