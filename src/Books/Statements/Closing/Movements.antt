-- ===== src/Books/Statements/Closing/Movements.antt =====
-- The movement of a ledger in the vouchers of a date range, and in its statement (_period_by_ledger and statement_report in backend/app/services/accounting_service.py).
use gst_ai_copilot.Base.{
  ℕ, ◌==◌, ◌≡◌, refl, ap, ◌∙◌, inl, inr, Bool, true, false, Bool-cases, List, [], ◌∷◌, ◌++◌, map,
  select, Decimal, pos, ◌+ℤ◌, ◌-ℤ◌, sum, sum-nil, sum-cons, int_laws,
}
use gst_ai_copilot.Accounting.Voucher.{Side, debit, credit}
use gst_ai_copilot.Accounting.Statement.{LedgerTxn, net_movement}
use gst_ai_copilot.Books.{EntryDraft, Voucher}
use gst_ai_copilot.Books.Reports.{entries_of}
use gst_ai_copilot.Books.Reports.Grouped.{part}
use gst_ai_copilot.Books.Reports.Sums.{movement}
use gst_ai_copilot.Books.Statements.{on_side, txn_of, txns_of}

-- What an entry adds to the balance of ledger `i`.
abbrev pub change_of : ℕ → EntryDraft → Decimal
change_of i e =
    part debit i e.ledger_id e.side e.amount -ℤ part credit i e.ledger_id e.side e.amount

pub movement-cons :
    (i : ℕ) (e : EntryDraft) (es : List EntryDraft)
    → movement i (e ∷ es) ≡ change_of i e +ℤ movement i es
movement-cons i e es =
    rw
      (
        sum-cons (part debit i e.ledger_id e.side e.amount)
            (map (λ k. part debit i k.ledger_id k.side k.amount) es),
        sum-cons (part credit i e.ledger_id e.side e.amount)
            (map (λ k. part credit i k.ledger_id k.side k.amount) es),
      )
      (omega int_laws)

movement-append :
    (i : ℕ) (es fs : List EntryDraft) → movement i (es ++ fs) ≡ movement i es +ℤ movement i fs
movement-append i [] fs = rw sum-nil (omega int_laws)
movement-append i (e ∷ es) fs =
    rw (movement-cons i e (es ++ fs), movement-cons i e es, movement-append i es fs)
      (omega int_laws)

abbrev pub moved : ℕ → Voucher → Decimal
moved i v = movement i v.entries

pub movement-entries_of :
    (i : ℕ) (p : Voucher → Bool) (vs : List Voucher)
    → movement i (entries_of p vs) ≡ sum (map (moved i) (select p vs))
unfolding entries_of
movement-entries_of i p [] = rw sum-nil (omega int_laws)
movement-entries_of i p (v ∷ vs) = elim (Bool-cases (p v)) [
  | inr out ↦ rw out (movement-entries_of i p vs)
  | inl taken ↦ rw taken (
      rw
        (
          movement-append i v.entries (entries_of p vs),
          sum-cons (moved i v) (map (moved i) (select p vs)),
          movement-entries_of i p vs,
        )
        refl)
]

net_movement-cons :
    (t : LedgerTxn) (ts : List LedgerTxn)
    → net_movement (t ∷ ts) ≡ t.debit -ℤ t.credit +ℤ net_movement ts
net_movement-cons t ts =
    rw (sum-cons t.debit (map (λ k. k.debit) ts), sum-cons t.credit (map (λ k. k.credit) ts))
      (omega int_laws)

net_movement-append :
    (ts us : List LedgerTxn) → net_movement (ts ++ us) ≡ net_movement ts +ℤ net_movement us
net_movement-append [] us = rw sum-nil (omega int_laws)
net_movement-append (t ∷ ts) us =
    net_movement-cons t (ts ++ us)
    ∙ rw (net_movement-append ts us, net_movement-cons t ts) (omega int_laws)

pub part-here :
    (s : Side) (i : ℕ) (e : EntryDraft)
    → (e.ledger_id == i) ≡ true
    → part s i e.ledger_id e.side e.amount ≡ on_side s e
part-here s i e h = rw h refl

pub part-away :
    (s : Side) (i : ℕ) (e : EntryDraft)
    → (e.ledger_id == i) ≡ false
    → part s i e.ledger_id e.side e.amount ≡ pos 0
part-away s i e h = rw h refl

voucher-txns :
    (i : ℕ) (v : Voucher) (es : List EntryDraft)
    → net_movement (map (txn_of v) (select (λ e. e.ledger_id == i) es)) ≡ movement i es
voucher-txns i v [] = refl
voucher-txns i v (e ∷ es) = elim (Bool-cases (e.ledger_id == i)) [
  | inl here ↦
      rw (movement-cons i e es, part-here debit i e here, part-here credit i e here, here)
        (net_movement-cons (txn_of v e) (map (txn_of v) (select (λ k. k.ledger_id == i) es))
          ∙ ap (λ z. on_side debit e -ℤ on_side credit e +ℤ z) (voucher-txns i v es))
  | inr away ↦
      rw (movement-cons i e es, part-away debit i e away, part-away credit i e away, away)
        (voucher-txns i v es ∙ omega int_laws)
]

pub net_movement-txns_of :
    (i : ℕ) (vs : List Voucher) → net_movement (txns_of i vs) ≡ sum (map (moved i) vs)
unfolding txns_of
net_movement-txns_of i [] = rw sum-nil (omega int_laws)
net_movement-txns_of i (v ∷ vs) =
    rw
      (
        net_movement-append (map (txn_of v) (select (λ e. e.ledger_id == i) v.entries))
            (txns_of i vs),
        voucher-txns i v v.entries,
        net_movement-txns_of i vs,
        sum-cons (moved i v) (map (moved i) vs),
      )
      refl
