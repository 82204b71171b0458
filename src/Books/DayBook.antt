-- ===== src/Books/DayBook.antt =====
-- What the vouchers of backend/app/services/accounting_service.py promise: a day book, to which
-- transactions that balance to within a paisa are written and from which none is taken. Charts, numbers, dates and texts
-- are forgotten.
use gst_ai_copilot.Base.{
  ℕ, ◌==◌, ◌≤◌, ◌≡◌, Bool, false, ◌&&◌, Option, none, some, List, [], ◌∷◌, ◌++◌, map, any, length,
  Decimal, ◌≤ℤ◌, abs, sum,
}
use gst_ai_copilot.Accounting.Voucher.{tolerance, opening_net}
use gst_ai_copilot.Books.{EntryDraft, Voucher, Db}

-- The flows are on ledgers, above zero on the debit side.
pub record Transaction : Type 0 where
  pub organization_id : ℕ
  pub invoice : Option ℕ
  pub flows : List (ℕ × Decimal)

abbrev pub is_behind : ℕ → ℕ → Transaction → Bool
is_behind org i t = (t.organization_id == org) && elim t.invoice [ none ↦ false | some j ↦ j == i ]

-- Two flows or more, whose sum is a paisa at most.
pub record MayBeWritten (t : Transaction) (book : List Transaction) : Type 0 where
  pub two_sided : 2 ≤ length t.flows
  pub cancels : abs (sum (map (λ f. f.1) t.flows)) ≤ℤ tolerance
  pub is_first : (i : ℕ) → t.invoice ≡ some i → any (is_behind t.organization_id i) book ≡ false

-- The only things that happen to a day book.
pub data Written : List Transaction → List Transaction → Type 0 where
  nothing : (book : List Transaction) → Written book book
  one_more :
      {book later : List Transaction} (t : Transaction)
      → Written book later
      → MayBeWritten t later
      → Written book (later ++ (t ∷ []))

abbrev pub flow_of : EntryDraft → ℕ × Decimal
flow_of e = (e.ledger_id, opening_net e.amount e.side)

abbrev pub transaction_of : Voucher → Transaction
transaction_of v = record {
  organization_id = v.organization_id;
  invoice = v.source_invoice_id;
  flows = map flow_of v.entries;
}

-- The day book of the tables.
abbrev pub day_book : Db → List Transaction
day_book db = map transaction_of db.vouchers
