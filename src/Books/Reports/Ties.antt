-- ===== src/Books/Reports/Ties.antt =====
-- The trial balance of the books: by how much its two totals differ.
use gst_ai_copilot.Base.{
  ℕ, zero, suc, ◌==◌, ◌≡◌, refl, sym, ap, subst, ◌∙◌, inl, inr, Bool, true, false, Bool-cases, ◌&&◌,
  ◌||◌, List, [], ◌∷◌, ◌++◌, map, select, length, Text, Option, Decimal, pos, ◌+ℤ◌, ◌-ℤ◌, sum,
  sum-nil, sum-cons, sum-map-add, sum-map-cong, sum-map-sub, sum-zeros, sum-sorted_by, int_laws,
  arith, if◌then◌else◌, ok, ok-inj, >>=-eq-ok, All, All-append,
}
use gst_ai_copilot.Accounting.Voucher.{Side, debit, credit, opening_net}
use gst_ai_copilot.Accounting.Lines.{LedgerLine, closing_net}
use gst_ai_copilot.Accounting.TrialBalance.{TrialBalance, total_net, trial_balance_difference}
use gst_ai_copilot.Books.{Ledger, EntryDraft, Voucher, Db}
use gst_ai_copilot.Books.Reports.{
  list_ledgers, entries_of, is_before, is_within, same_side, ledger_lines, epoch, date_or,
  trial_balance_report,
}
use gst_ai_copilot.Books.Reports.Grouped.{part, side_sum}
use gst_ai_copilot.Books.Reports.Sums.{movement, IsLine, AreLines, ledger_lines-AreLines}

-- The ledgers of the organization with an id.
abbrev pub owners : ℕ → ℕ → List Ledger → ℕ
owners org i ls = length (select (λ l. (l.organization_id == org) && (l.id == i)) ls)

abbrev on_side : Side → EntryDraft → Decimal
on_side s e = if same_side e.side s then e.amount else pos 0

abbrev pub total_on : Side → List EntryDraft → Decimal
total_on s es = sum (map (on_side s) es)

-- Debits less credits of a voucher.
abbrev pub imbalance : Voucher → Decimal
imbalance v = total_on debit v.entries -ℤ total_on credit v.entries

abbrev times : ℕ → Decimal → Decimal
times zero x = pos 0
times (suc n) x = x +ℤ times n x

abbrev pub of_org : ℕ → List Ledger → List Ledger
of_org org ls = select (λ l. l.organization_id == org) ls

same_order : (i j : ℕ) → (i == j) ≡ (j == i)
same_order i j = ground arith

part-here :
    (s : Side) (i j : ℕ) (t : Side) (a : Decimal)
    → (i == j) ≡ true
    → part s i j t a ≡ (if same_side t s then a else pos 0)
part-here s i j t a h = rw (same_order j i, h) refl

part-not_here :
    (s : Side) (i j : ℕ) (t : Side) (a : Decimal) → (i == j) ≡ false → part s i j t a ≡ pos 0
part-not_here s i j t a h = rw (same_order j i, h) refl

parts-owners :
    (s : Side) (org j : ℕ) (t : Side) (a : Decimal) (ls : List Ledger)
    → sum (map (λ l. part s l.id j t a) (of_org org ls))
      ≡ times (owners org j ls) (if same_side t s then a else pos 0)
parts-owners s org j t a [] = sum-nil
parts-owners s org j t a (l ∷ ls) = elim (Bool-cases (l.organization_id == org)) [
  | inr other ↦ rw other (parts-owners s org j t a ls)
  | inl own ↦ rw own (
      sum-cons (part s l.id j t a) (map (λ k. part s k.id j t a) (of_org org ls))
      ∙ (elim (Bool-cases (l.id == j)) [
        | inl here ↦ rw (here, part-here s l.id j t a here, parts-owners s org j t a ls) refl
        | inr away ↦
            rw (away, part-not_here s l.id j t a away, parts-owners s org j t a ls) (omega int_laws)
      ]))
]

abbrev pub AreOwned : ℕ → List Ledger → List EntryDraft → Type 0
AreOwned org ls es = All (λ e. owners org e.ledger_id ls ≡ 1) es

-- The sums of all ledgers together are the sum over all entries.
side_sum-total_on :
    (s : Side) (org : ℕ) (ls : List Ledger) (es : List EntryDraft)
    → AreOwned org ls es
    → sum (map (λ l. side_sum s l.id es) (of_org org ls)) ≡ total_on s es
side_sum-total_on s org ls [] h =
    sum-map-cong (λ l. side_sum s l.id []) (λ l. pos 0) (of_org org ls) (λ l. sum-nil)
    ∙ sum-zeros (of_org org ls)
    ∙ sym sum-nil
side_sum-total_on s org ls (e ∷ es) h =
    sum-map-cong (λ l. side_sum s l.id (e ∷ es))
      (λ l. part s l.id e.ledger_id e.side e.amount +ℤ side_sum s l.id es) (of_org org ls)
      (λ l. sum-cons (part s l.id e.ledger_id e.side e.amount) _)
    ∙ sum-map-add (λ l. part s l.id e.ledger_id e.side e.amount) (λ l. side_sum s l.id es)
        (of_org org ls)
    ∙ rw
        (
          parts-owners s org e.ledger_id e.side e.amount ls,
          h.0,
          side_sum-total_on s org ls es h.1,
          sum-cons (on_side s e) (map (on_side s) es),
        )
        (omega int_laws)

movement-imbalance :
    (org : ℕ) (ls : List Ledger) (es : List EntryDraft)
    → AreOwned org ls es
    → sum (map (λ l. movement l.id es) (of_org org ls)) ≡ total_on debit es -ℤ total_on credit es
movement-imbalance org ls es h =
    sum-map-sub (λ l. side_sum debit l.id es) (λ l. side_sum credit l.id es) (of_org org ls)
    ∙ rw (side_sum-total_on debit org ls es h, side_sum-total_on credit org ls es h) refl

total_on-append :
    (s : Side) (es fs : List EntryDraft) → total_on s (es ++ fs) ≡ total_on s es +ℤ total_on s fs
total_on-append s [] fs = rw sum-nil (omega int_laws)
total_on-append s (e ∷ es) fs =
    rw
      (
        sum-cons (on_side s e) (map (on_side s) (es ++ fs)),
        sum-cons (on_side s e) (map (on_side s) es),
        total_on-append s es fs,
      )
      (omega int_laws)

entries_of-imbalance :
    (p : Voucher → Bool) (vs : List Voucher)
    → total_on debit (entries_of p vs) -ℤ total_on credit (entries_of p vs)
      ≡ sum (map imbalance (select p vs))
unfolding entries_of
entries_of-imbalance p [] = rw sum-nil (omega int_laws)
entries_of-imbalance p (v ∷ vs) = elim (Bool-cases (p v)) [
  | inr out ↦ rw out (entries_of-imbalance p vs)
  | inl taken ↦ rw taken (
      rw
        (
          total_on-append debit v.entries (entries_of p vs),
          total_on-append credit v.entries (entries_of p vs),
          sum-cons (imbalance v) (map imbalance (select p vs)),
          ← entries_of-imbalance p vs,
        )
        (omega int_laws))
]

-- Every entry of the voucher is on one ledger of its organization.
abbrev pub IsOwned : List Ledger → Voucher → Type 0
IsOwned ls v = AreOwned v.organization_id ls v.entries

entries_of-AreOwned :
    (org : ℕ) (p : Voucher → Bool) (ls : List Ledger) (vs : List Voucher)
    → ((v : Voucher) → p v ≡ true → v.organization_id ≡ org)
    → All (IsOwned ls) vs
    → AreOwned org ls (entries_of p vs)
unfolding entries_of
entries_of-AreOwned org p ls [] own h = tt
entries_of-AreOwned org p ls (v ∷ vs) own h = elim (Bool-cases (p v)) [
  | inr out ↦ rw out (entries_of-AreOwned org p ls vs own h.1)
  | inl taken ↦ rw taken (
      All-append (λ e. owners org e.ledger_id ls ≡ 1) v.entries (entries_of p vs)
        (subst (λ k. AreOwned k ls v.entries) (own v taken) h.0)
        (entries_of-AreOwned org p ls vs own h.1))
]

-- Two tests that no voucher passes both.
pub select-apart :
    (p q : Voucher → Bool) (f : Voucher → Decimal) (vs : List Voucher)
    → ((v : Voucher) → p v ≡ true → q v ≡ false)
    → sum (map f (select p vs)) +ℤ sum (map f (select q vs))
      ≡ sum (map f (select (λ v. p v || q v) vs))
select-apart p q f [] apart = rw sum-nil (omega int_laws)
select-apart p q f (v ∷ vs) apart = elim (Bool-cases (p v)) [
  | inl t ↦
      rw (t, apart v t)
        (rw
          (
            sum-cons (f v) (map f (select p vs)),
            sum-cons (f v) (map f (select (λ k. p k || q k) vs)),
            ← select-apart p q f vs apart,
          )
          (omega int_laws))
  | inr t ↦ elim (Bool-cases (q v)) [
    | inr u ↦ rw (t, u) (select-apart p q f vs apart)
    | inl u ↦
        rw (t, u)
          (rw
            (
              sum-cons (f v) (map f (select q vs)),
              sum-cons (f v) (map f (select (λ k. p k || q k) vs)),
              ← select-apart p q f vs apart,
            )
            (omega int_laws))
  ]
]

abbrev pub opening_of : Ledger → Decimal
opening_of l = opening_net l.opening_balance l.opening_side

-- What the closing balance of a ledger's line is made of.
abbrev closing_of : List EntryDraft → List EntryDraft → Ledger → Decimal
closing_of earlier period l = opening_of l +ℤ movement l.id earlier +ℤ movement l.id period

IsLine-closing_net :
    (show : ℕ → Text) (earlier period : List EntryDraft) (l : Ledger) (x : LedgerLine)
    → IsLine show true earlier period l x
    → closing_net x ≡ closing_of earlier period l
unfolding closing_net
IsLine-closing_net show earlier period l x h = rw (h.opening, h.debits, h.credits) (omega int_laws)

AreLines-total_net :
    (show : ℕ → Text) (earlier period : List EntryDraft) (ls : List Ledger) (xs : List LedgerLine)
    → AreLines show true earlier period ls xs
    → total_net xs ≡ sum (map (closing_of earlier period) ls)
AreLines-total_net show earlier period [] [] h = refl
AreLines-total_net show earlier period [] (x ∷ xs) h = absurd h
AreLines-total_net show earlier period (l ∷ ls) [] h = absurd h
AreLines-total_net show earlier period (l ∷ ls) (x ∷ xs) h =
    rw
      (
        sum-cons (closing_net x) (map closing_net xs),
        sum-cons (closing_of earlier period l) (map (closing_of earlier period) ls),
        IsLine-closing_net show earlier period l x h.0,
        AreLines-total_net show earlier period ls xs h.1,
      )
      refl

-- The vouchers that a trial balance counts: those up to the day, and any from before 1900.
abbrev pub is_counted : ℕ → Text → Voucher → Bool
is_counted org day v = is_before org epoch v || is_within org epoch day v

lines-total_net :
    (show : ℕ → Text) (org : ℕ) (day : Text) (db : Db) {lines : List LedgerLine}
    → All (IsOwned db.ledgers) db.vouchers
    → ledger_lines show org epoch day true db ≡ ok lines
    → total_net lines
      ≡ sum (map opening_of (of_org org db.ledgers))
        +ℤ sum (map imbalance (select (is_counted org day) db.vouchers))
unfolding list_ledgers
lines-total_net show org day db {lines} owned e =
    let vs = db.vouchers in
    let ls = db.ledgers in
    let before = is_before org epoch in
    let within = is_within org epoch day in
    let earlier = entries_of before vs in
    let period = entries_of within vs in
    let own1 = entries_of-AreOwned org before ls vs (λ v t. ground arith) owned in
    let own2 = entries_of-AreOwned org within ls vs (λ v t. ground arith) owned in
    AreLines-total_net show earlier period (list_ledgers org db) lines
      (ledger_lines-AreLines show org epoch day true db e)
    ∙ sum-sorted_by _ (closing_of earlier period) (of_org org ls)
    ∙ sum-map-add (λ l. opening_of l +ℤ movement l.id earlier) (λ l. movement l.id period)
        (of_org org ls)
    ∙ ap (λ k. k +ℤ sum (map (λ l. movement l.id period) (of_org org ls)))
        (sum-map-add opening_of (λ l. movement l.id earlier) (of_org org ls))
    ∙ rw
        (
          movement-imbalance org ls earlier own1,
          movement-imbalance org ls period own2,
          entries_of-imbalance before vs,
          entries_of-imbalance within vs,
          ← select-apart before within imbalance vs (λ v t. ground arith),
        )
        (omega int_laws)

-- The trial balance of the service is off by the opening balances of the organization's ledgers
-- together, plus what the vouchers up to its day are off by, each one's debits less its credits.
pub trial_balance_report_difference :
    (show : ℕ → Text) (today : Text) (org : ℕ) (as_on : Option Text) (db : Db) {day : Text}
    {tb : TrialBalance}
    → All (IsOwned db.ledgers) db.vouchers
    → trial_balance_report show today org as_on db ≡ ok (day, tb)
    → tb.total_debit -ℤ tb.total_credit
      ≡ sum (map opening_of (of_org org db.ledgers))
        +ℤ sum (map imbalance (select (is_counted org day) db.vouchers))
unfolding trial_balance_report
trial_balance_report_difference show today org as_on db {day} {tb} owned e =
    let (lines, made, last) =
      >>=-eq-ok (ledger_lines show org epoch (date_or as_on today) true db) _ e in
    let same = ok-inj last in
    subst
      (λ r.
        r.1.total_debit -ℤ r.1.total_credit
        ≡ sum (map opening_of (of_org org db.ledgers))
          +ℤ sum (map imbalance (select (is_counted org r.0) db.vouchers)))
      same
      (trial_balance_difference lines
        ∙ lines-total_net show org (date_or as_on today) db owned made)
