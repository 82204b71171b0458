-- ===== src/Books/Vouchers.antt =====
-- backend/app/services/accounting_service.py: the methods that write ledgers and vouchers.
use gst_ai_copilot.Base.{
  ltb, ℕ, suc, ◌+◌, zero, ◌==◌, Bool, true, false, not, ◌&&◌, Option, none, some, List, [], ◌∷◌,
  ◌++◌, map, select, any, length, find, Text, codes, text_eq, strip, lower, is_empty, Decimal, pos,
  ◌+ℤ◌, ltb_ℤ, leb_ℤ, sum, Result, ok, err, ◌>>=◌, ◌>>◌, raise_if, if◌then◌else◌,
}
use gst_ai_copilot.Accounting.Voucher.{
  Side, debit, credit, is_debit, EntryInput, validate_balanced, side_total,
}
use gst_ai_copilot.Books.Chart.{add_ledger, has_name, ensure_chart_of_accounts}
use gst_ai_copilot.Filing.{InvoiceDirection, sales, purchase}
use gst_ai_copilot.Returns.{ReturnLine}
use gst_ai_copilot.Books.{
  VoucherType, sales_voucher, purchase_voucher, receipt, payment, contra, journal, debit_note,
  credit_note, LedgerGroup, Ledger, EntryDraft, Voucher, Db, PostedInvoice, BooksError,
  unknown_group, ledger_exists, no_chart, foreign_ledger, already_posted, nothing_to_post,
  system_ledger_missing, bad_voucher, many_rows, integrity_error,
}

abbrev pub same_name : ℕ → Text → Ledger → Bool
same_name org name l = (l.organization_id == org) && text_eq (lower l.name) (lower name)

-- `scalar_one_or_none` on the ledgers of a name raises where there are more, which differ in case.
abbrev pub is_ambiguous : ℕ → Text → List Ledger → Bool
is_ambiguous org name ledgers = ltb 1 (length (select (same_name org name) ledgers))

-- `create_ledger`; the constraint `uq_ledger_org_name` is on the name as it is stored.
unfoldable pub create_ledger :
    ℕ → Text → ℕ → Decimal → Side → Option Text → Option Text → Db → Result BooksError Db
create_ledger org name group_id opening_balance opening_side gstin notes db =
    elim (find (λ g. (g.id == group_id) && (g.organization_id == org)) db.groups) [
      | none ↦ err unknown_group
      | some g ↦
          raise_if (is_ambiguous org name db.ledgers) many_rows
          >> elim (find (same_name org name) db.ledgers) [
            | some l ↦ err ledger_exists
            | none ↦ do
              raise_if (any (has_name org (strip name)) db.ledgers) integrity_error
              ok (
                  add_ledger
                    (record {
                      id = db.next_id;
                      organization_id = org;
                      name = strip name;
                      group_id = group_id;
                      opening_balance = opening_balance;
                      opening_side = opening_side;
                      gstin = gstin;
                      is_system = false;
                      party_type = none;
                      party_id = none;
                      notes = notes;
                    })
                    db)
          ]
    ]

-- `text[:n]`
abbrev pub first_chars : ℕ → Text → Text
first_chars zero s = []
first_chars (suc n) [] = []
first_chars (suc n) (c ∷ s) = c ∷ first_chars n s

abbrev pub of_class : ℕ → Text → LedgerGroup → Bool
of_class org classification g =
    (g.organization_id == org) && text_eq g.classification classification

abbrev pub new_party : ℕ → ℕ → Text → ℕ → Text → Option ℕ → Option Text → Ledger
new_party i org name group_id party_type party_id gstin = record {
  id = i;
  organization_id = org;
  name = name;
  group_id = group_id;
  opening_balance = pos 0;
  opening_side = debit;
  gstin = gstin;
  is_system = false;
  party_type = some party_type;
  party_id = party_id;
  notes = none;
}

-- The ledger of a clean name.
unfoldable pub named_party :
    ℕ → Text → Text → Text → Option ℕ → Option Text → Db → Result BooksError (Db × Ledger)
named_party org clean classification party_type party_id gstin db =
    raise_if (is_ambiguous org clean db.ledgers) many_rows
    >> elim (find (same_name org clean) db.ledgers) [
      | some l ↦ ok (db, l)
      | none ↦ elim (find (of_class org classification) db.groups) [
        | none ↦ err no_chart
        | some g ↦
            let l = new_party db.next_id org clean g.id party_type party_id gstin in
            ok (add_ledger l db, l)
      ]
    ]

-- `_get_or_create_party_ledger`
unfoldable pub party_ledger :
    ℕ → Text → Text → Text → Option ℕ → Option Text → Db → Result BooksError (Db × Ledger)
party_ledger org name classification party_type party_id gstin db =
    named_party org
      (first_chars 200 (strip (if is_empty name then codes "Unknown Party" else name)))
      classification party_type party_id gstin db

abbrev pub same_voucher_type : VoucherType → VoucherType → Bool
same_voucher_type sales_voucher sales_voucher = true
same_voucher_type purchase_voucher purchase_voucher = true
same_voucher_type receipt receipt = true
same_voucher_type payment payment = true
same_voucher_type contra contra = true
same_voucher_type journal journal = true
same_voucher_type debit_note debit_note = true
same_voucher_type credit_note credit_note = true
same_voucher_type _ _ = false

-- `_next_voucher_number`
unfoldable pub next_voucher_number : ℕ → VoucherType → Db → ℕ
next_voucher_number org ty db =
    length
      (select (λ v. (v.organization_id == org) && same_voucher_type v.voucher_type ty) db.vouchers)
    + 1

abbrev pub input_of : EntryDraft → EntryInput
input_of e = record { side = e.side; amount = e.amount }

-- The id is that of a ledger of the organization.
unfoldable pub is_owned : ℕ → List Ledger → ℕ → Bool
is_owned org ledgers i = any (λ l. (l.organization_id == org) && (l.id == i)) ledgers

abbrev voucher_check : List EntryDraft → Result BooksError (Unit {0})
voucher_check entries = elim (validate_balanced (map input_of entries)) [
  | ok u ↦ ok tt
  | err e ↦ err (bad_voucher e)
]

unfoldable pub new_voucher :
    ℕ
    → ℕ
    → VoucherType
    → Text
    → List EntryDraft
    → Option Text
    → Option Text
    → Option ℕ
    → Bool
    → Db
    → Voucher
new_voucher org user ty date entries narration reference source is_auto db = record {
  id = db.next_id;
  organization_id = org;
  voucher_type = ty;
  voucher_number = next_voucher_number org ty db;
  date = date;
  narration = narration;
  reference = reference;
  total_amount = side_total is_debit (map input_of entries);
  source_invoice_id = source;
  is_auto_generated = is_auto;
  created_by = user;
  entries = entries;
}

-- `create_voucher`; the audit entry is left out.
unfoldable pub create_voucher :
    ℕ
    → ℕ
    → VoucherType
    → Text
    → List EntryDraft
    → Option Text
    → Option Text
    → Option ℕ
    → Bool
    → Db
    → Result BooksError Db
create_voucher org user ty date entries narration reference source is_auto db = do
  voucher_check entries
  raise_if (any (λ e. not (is_owned org db.ledgers e.ledger_id)) entries) foreign_ledger
  ok (record db {
    vouchers =
        db.vouchers
        ++ (new_voucher org user ty date entries narration reference source is_auto db ∷ []);
    next_id = suc db.next_id;
  })

-- `_ledger_by_name`
unfoldable pub ledger_by_name : ℕ → Text → Db → Result BooksError Ledger
ledger_by_name org name db = elim (find (has_name org name) db.ledgers) [
  | none ↦ err (system_ledger_missing name)
  | some l ↦ ok l
]

abbrev pub is_sales : InvoiceDirection → Bool
is_sales sales = true
is_sales purchase = false

abbrev pub party_side : InvoiceDirection → Side
party_side sales = debit
party_side purchase = credit

abbrev pub leg_side : InvoiceDirection → Side
leg_side sales = credit
leg_side purchase = debit

abbrev pub leg : ℕ → Side → Decimal → Option Text → EntryDraft
leg i side amount narration = record {
  ledger_id = i;
  side = side;
  amount = amount;
  narration = narration;
}

-- The loop over `tax_map`: a leg for each amount above zero.
unfoldable pub tax_legs :
    ℕ → Side → List (Text × Decimal) → Db → Result BooksError (List EntryDraft)
tax_legs org side [] db = ok []
tax_legs org side ((name, amount) ∷ taxes) db = elim (ltb_ℤ (pos 0) amount) [
  | false ↦ tax_legs org side taxes db
  | true ↦ do
    l ← ledger_by_name org name db
    rest ← tax_legs org side taxes db
    ok (leg l.id side amount none ∷ rest)
]

-- The sums over the items.
pub record PostedTotals : Type 0 where
  pub taxable : Decimal
  pub cgst : Decimal
  pub sgst : Decimal
  pub igst : Decimal
  pub cess : Decimal

abbrev pub totals_of : List ReturnLine → PostedTotals
totals_of items = record {
  taxable = sum (map (λ i. i.taxable_value) items);
  cgst = sum (map (λ i. i.cgst) items);
  sgst = sum (map (λ i. i.sgst) items);
  igst = sum (map (λ i. i.igst) items);
  cess = sum (map (λ i. i.cess) items);
}

abbrev pub grand_total : PostedTotals → Decimal
grand_total t = t.taxable +ℤ t.cgst +ℤ t.sgst +ℤ t.igst +ℤ t.cess

abbrev pub either : {A : Type 0} → InvoiceDirection → A → A → A
either sales s p = s
either purchase s p = p

abbrev pub tax_map : InvoiceDirection → PostedTotals → List (Text × Decimal)
tax_map d t =
    let prefix = either d (codes "Output ") (codes "Input ") in
    (prefix ++ codes "CGST", t.cgst)
    ∷ (prefix ++ codes "SGST", t.sgst)
    ∷ (prefix ++ codes "IGST", t.igst)
    ∷ (prefix ++ codes "CESS", t.cess)
    ∷ []

-- The entries of a posting.
unfoldable pub invoice_entries :
    ℕ → InvoiceDirection → PostedTotals → ℕ → Db → Result BooksError (List EntryDraft)
invoice_entries org d t party db = do
  base ← ledger_by_name org (either d (codes "Sales") (codes "Purchase")) db
  legs ← tax_legs org (leg_side d) (tax_map d t) db
  ok (
      leg party (party_side d) (grand_total t) (some (codes "Being invoice booked"))
      ∷ leg base.id (leg_side d) t.taxable none
      ∷ legs)

abbrev pub is_source : ℕ → ℕ → Voucher → Bool
is_source org i v =
    (v.organization_id == org) && elim v.source_invoice_id [ none ↦ false | some j ↦ j == i ]

abbrev pub or_text : Option Text → Text → Text
or_text none d = d
or_text (some t) d = if is_empty t then d else t

-- `post_invoice` after the chart of accounts was set up; `show` is the text of an id.
unfoldable pub post_on_chart : (ℕ → Text) → Text → ℕ → ℕ → PostedInvoice → Db → Result BooksError Db
post_on_chart show today org user inv db = do
  raise_if (any (is_source org inv.id) db.vouchers) already_posted
  let d = inv.direction
  let t = totals_of inv.items
  raise_if (leb_ℤ t.taxable (pos 0)) nothing_to_post
  found ←
      party_ledger org (or_text (either d inv.buyer_name inv.supplier_name) (codes "Unknown Party"))
        (either d (codes "receivable") (codes "payable"))
        (either d (codes "customer") (codes "vendor")) (either d inv.customer_id inv.vendor_id)
        (either d inv.buyer_gstin inv.supplier_gstin) db
  entries ← invoice_entries org d t found.1.id found.0
  create_voucher org user (either d sales_voucher purchase_voucher) (or_text inv.invoice_date today)
      entries
      (some (
        either d (codes "Sales") (codes "Purchase")
        ++ codes " invoice "
        ++ or_text inv.invoice_number (show inv.id)
        ++ codes " — "
        ++ found.1.name))
      inv.invoice_number (some inv.id) true found.0

-- `post_invoice`
unfoldable pub post_invoice : (ℕ → Text) → Text → ℕ → ℕ → PostedInvoice → Db → Result BooksError Db
post_invoice show today org user inv before = do
  db ← ensure_chart_of_accounts org before
  post_on_chart show today org user inv db
