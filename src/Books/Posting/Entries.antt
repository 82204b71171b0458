-- ===== src/Books/Posting/Entries.antt =====
-- The entries of an invoice and their voucher, on a chart that has the ledgers, in backend/app/services/accounting_service.py.
use gst_ai_copilot.Base.{
  ℕ, suc, ◌==◌, ◌≡◌, refl, inl, inr, Bool, true, false, not, Bool-cases, ◌&&◌, Option, none, some,
  List, [], ◌∷◌, ◌++◌, map, any, any-of-find, find, find-true, find-of-any, Text, codes, text_eq,
  Decimal, pos, ltb_ℤ, arith, ok, All,
}
use gst_ai_copilot.Accounting.Voucher.{Side, validate_balanced}
use gst_ai_copilot.Filing.{InvoiceDirection, sales, purchase}
use gst_ai_copilot.Books.{VoucherType, Ledger, EntryDraft, Db}
use gst_ai_copilot.Books.Chart.{default_ledgers, has_name}
use gst_ai_copilot.Books.Charted.{HasLedger}
use gst_ai_copilot.Books.Vouchers.{
  input_of, is_owned, new_voucher, create_voucher, ledger_by_name, tax_legs, leg, party_side,
  grand_total, leg_side, either, tax_map, PostedTotals, invoice_entries,
}

-- The ledger is one of the organization's.
abbrev pub IsOurs : ℕ → Db → ℕ → Type 0
IsOurs org db i = is_owned org db.ledgers i ≡ true

-- A system ledger that is there is found.
record Found (org : ℕ) (name : Text) (db : Db) : Type 0 where
  ledger : Ledger
  ran : ledger_by_name org name db ≡ ok ledger
  ours : IsOurs org db ledger.id

pub found-ours :
    (org : ℕ) (p : Ledger → Bool) (ls : List Ledger) {l : Ledger}
    → find p ls ≡ some l
    → (l.organization_id == org) ≡ true
    → is_owned org ls l.id ≡ true
unfolding is_owned
found-ours org p ls {l} e own =
    any-of-find p (λ k. k) (λ k. (k.organization_id == org) && (k.id == l.id)) ls e (ground arith)

pub and-left : {a : Bool} (b : Bool) → (a && b) ≡ true → a ≡ true
and-left {a} b h = ground arith

ledger_by_name-Found : (org : ℕ) (name : Text) (db : Db) → HasLedger org name db → Found org name db
unfolding ledger_by_name
ledger_by_name-Found org name db h =
    let (l, there) = find-of-any (has_name org name) db.ledgers h in
    record {
      ledger = l;
      ran = rw (ledger_by_name, there) refl;
      ours = found-ours org (has_name org name) db.ledgers there (
          and-left (text_eq l.name name) (find-true (has_name org name) (λ k. k) db.ledgers there));
    }

-- Legs for the taxes whose ledgers are there.
record AreMade (org : ℕ) (side : Side) (ts : List (Text × Decimal)) (db : Db) : Type 0 where
  legs : List EntryDraft
  ran : tax_legs org side ts db ≡ ok legs
  ours : All (λ e. IsOurs org db e.ledger_id) legs

tax_legs-AreMade :
    (org : ℕ) (side : Side) (ts : List (Text × Decimal)) (db : Db)
    → All (λ t. HasLedger org t.0 db) ts
    → AreMade org side ts db
unfolding tax_legs
tax_legs-AreMade org side [] db h = record { legs = []; ran = refl; ours = tt }
tax_legs-AreMade org side ((name, amount) ∷ ts) db h =
    let rest = tax_legs-AreMade org side ts db h.1 in
    elim (Bool-cases (ltb_ℤ (pos 0) amount)) [
      | inr low ↦ record { legs = rest.legs; ran = rw (tax_legs, low) rest.ran; ours = rest.ours }
      | inl above ↦
          let f = ledger_by_name-Found org name db h.0 in
          record {
            legs = leg f.ledger.id side amount none ∷ rest.legs;
            ran = rw (tax_legs, above, f.ran, rest.ran) refl;
            ours = (f.ours, rest.ours);
          }
    ]

-- The entries of an invoice, on ledgers of the organization.
pub record AreBooked (org : ℕ) (d : InvoiceDirection) (t : PostedTotals) (party : ℕ) (db : Db)
    : Type 0 where
  pub entries : List EntryDraft
  pub ran : invoice_entries org d t party db ≡ ok entries
  pub ours : All (λ e. IsOurs org db e.ledger_id) entries

abbrev pub HasAll : ℕ → Db → Type 0
HasAll org db = All (λ d. HasLedger org d.0 db) default_ledgers

base-HasLedger :
    (org : ℕ) (d : InvoiceDirection) (db : Db)
    → HasAll org db
    → HasLedger org (either d (codes "Sales") (codes "Purchase")) db
base-HasLedger org sales db h = h.1.1.0
base-HasLedger org purchase db h = h.1.1.1.0

taxes-HasLedger :
    (org : ℕ) (d : InvoiceDirection) (t : PostedTotals) (db : Db)
    → HasAll org db
    → All (λ k. HasLedger org k.0 db) (tax_map d t)
taxes-HasLedger org sales t db h = let r = h.1.1.1.1 in (r.0, (r.1.0, (r.1.1.0, (r.1.1.1.0, tt))))
taxes-HasLedger org purchase t db h =
    let r = h.1.1.1.1.1.1.1.1 in (r.0, (r.1.0, (r.1.1.0, (r.1.1.1.0, tt))))

pub invoice_entries-AreBooked :
    (org : ℕ) (d : InvoiceDirection) (t : PostedTotals) (party : ℕ) (db : Db)
    → HasAll org db
    → IsOurs org db party
    → AreBooked org d t party db
unfolding invoice_entries
invoice_entries-AreBooked org d t party db h own =
    let base =
      ledger_by_name-Found org (either d (codes "Sales") (codes "Purchase")) db
        (base-HasLedger org d db h) in
    let taxes = tax_legs-AreMade org (leg_side d) (tax_map d t) db (taxes-HasLedger org d t db h) in
    record {
      entries =
          leg party (party_side d) (grand_total t) (some (codes "Being invoice booked"))
          ∷ leg base.ledger.id (leg_side d) t.taxable none
          ∷ taxes.legs;
      ran = rw (base.ran, taxes.ran) refl;
      ours = (own, (base.ours, taxes.ours));
    }

none_foreign :
    (org : ℕ) (db : Db) (es : List EntryDraft)
    → All (λ e. IsOurs org db e.ledger_id) es
    → any (λ e. not (is_owned org db.ledgers e.ledger_id)) es ≡ false
none_foreign org db [] h = refl
none_foreign org db (e ∷ es) h = rw h.0 (none_foreign org db es h.1)

pub create_voucher-ok :
    (org user : ℕ) (ty : VoucherType) (date : Text) (entries : List EntryDraft)
    (narration reference : Option Text) (source : Option ℕ) (is_auto : Bool) (db : Db)
    → validate_balanced (map input_of entries) ≡ ok tt
    → All (λ e. IsOurs org db e.ledger_id) entries
    → create_voucher org user ty date entries narration reference source is_auto db
      ≡ ok (record db {
        vouchers =
            db.vouchers
            ++ (new_voucher org user ty date entries narration reference source is_auto db ∷ []);
        next_id = suc db.next_id;
      })
unfolding create_voucher
create_voucher-ok org user ty date entries narration reference source is_auto db good own =
    let here = none_foreign org db entries own in ground arith
