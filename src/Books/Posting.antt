-- ===== src/Books/Posting.antt =====
-- An invoice that can be posted is posted: `post_invoice` of accounting_service.py.
mod Entries
mod Classes
use gst_ai_copilot.Base.{
  ℕ, ◌≤◌, length, select, ok-inj, ◌≡◌, refl, sym, subst, ◌∙◌, Bool, true, false, some, [], ◌∷◌,
  ◌++◌, any, Text, codes, strip, is_empty, Decimal, pos, ◌≤ℤ◌, leb_ℤ, arith, ok, All, All-mono,
  if◌then◌else◌,
}
use gst_ai_copilot.Books.{sales_voucher, purchase_voucher, Ledger, Db, PostedInvoice}
use gst_ai_copilot.Books.Chart.{ensure_chart_of_accounts, default_ledgers, has_name}
use gst_ai_copilot.Books.Charted.{HasLedger, ensure_chart_of_accounts-IsSetUp}
use gst_ai_copilot.Books.Vouchers.{
  first_chars, same_name, party_ledger, create_voucher, either, or_text, totals_of, is_source,
  post_on_chart, post_invoice,
}
use gst_ai_copilot.Books.Runs.{ensure-vouchers}
use gst_ai_copilot.Books.Balanced.{invoice_entries-IsEven}
use gst_ai_copilot.Books.Posting.Entries.{HasAll, invoice_entries-AreBooked, create_voucher-ok}
use gst_ai_copilot.Books.Posting.Classes.{
  HasClass, is_classed, party_group, party_class, named_party-IsHeld, party-HasClass,
}

kept-HasAll :
    (org : ℕ) (db db' : Db)
    → ((p : Ledger → Bool) → any p db.ledgers ≡ true → any p db'.ledgers ≡ true)
    → HasAll org db
    → HasAll org db'
kept-HasAll org db db' kept h =
    All-mono (λ d. HasLedger org d.0 db) (λ d. HasLedger org d.0 db')
      (λ d k. kept (has_name org d.0) k) default_ledgers h

above-leb : (x : Decimal) → pos 1 ≤ℤ x → leb_ℤ x (pos 0) ≡ false
above-leb x h = ground arith

-- The name that the party's ledger is looked for with.
abbrev pub party_name : PostedInvoice → Text
party_name inv =
    let d = inv.direction in
    let name = or_text (either d inv.buyer_name inv.supplier_name) (codes "Unknown Party") in
    first_chars 200 (strip (if is_empty name then codes "Unknown Party" else name))

-- On a chart with its ledgers and the class of the party, the posting goes through.
on_chart :
    (show : ℕ → Text) (today : Text) (org user : ℕ) (inv : PostedInvoice) (db : Db)
    → any (is_source org inv.id) db.vouchers ≡ false
    → pos 1 ≤ℤ (totals_of inv.items).taxable
    → (let t = totals_of inv.items in
        All (λ x. pos 0 ≤ℤ x) (t.cgst ∷ t.sgst ∷ t.igst ∷ t.cess ∷ []))
    → length (select (same_name org (party_name inv)) db.ledgers) ≤ 1
    → HasAll org db
    → HasClass org (party_class inv.direction) db
    → (db' : Db) × (post_on_chart show today org user inv db ≡ ok db')
unfolding post_on_chart party_ledger
on_chart show today org user inv db fresh above taxes few has_all class =
    let d = inv.direction in
    let t = totals_of inv.items in
    let party =
      named_party-IsHeld org (party_name inv) (party_class d)
        (either d (codes "customer") (codes "vendor")) (either d inv.customer_id inv.vendor_id)
        (either d inv.buyer_gstin inv.supplier_gstin) db few class in
    let entries =
      invoice_entries-AreBooked org d t party.found.1.id party.found.0
        (kept-HasAll org db party.found.0 party.kept has_all) party.ours in
    let even =
      invoice_entries-IsEven org d t party.found.1.id party.found.0 above taxes entries.ran in
    let made =
      create_voucher-ok org user _ _ entries.entries _ _ (some inv.id) true party.found.0
        even.accepted entries.ours in
    let written : post_on_chart show today org user inv db
        ≡ create_voucher org user (either d sales_voucher purchase_voucher)
            (or_text inv.invoice_date today) entries.entries
            (some (
              either d (codes "Sales") (codes "Purchase")
              ++ codes " invoice "
              ++ or_text inv.invoice_number (show inv.id)
              ++ codes " — "
              ++ party.found.1.name))
            inv.invoice_number (some inv.id) true party.found.0 =
      rw (fresh, above-leb t.taxable above, party.ran, entries.ran) refl in
    (_, written ∙ made)

-- An invoice that has no voucher, a taxable value above zero and no negative tax is posted without
-- an error, whatever the organization's chart of accounts holds, on two conditions. A group that is
-- already called Sundry Debtors (Sundry Creditors for a purchase) comes with one of that class. And
-- in the chart, once it is set up, one ledger at most has the party's name, but for case.
pub post_invoice-ok :
    (show : ℕ → Text) (today : Text) (org user : ℕ) (inv : PostedInvoice) (db : Db) {chart : Db}
    → any (is_source org inv.id) db.vouchers ≡ false
    → pos 1 ≤ℤ (totals_of inv.items).taxable
    → (let t = totals_of inv.items in
        All (λ x. pos 0 ≤ℤ x) (t.cgst ∷ t.sgst ∷ t.igst ∷ t.cess ∷ []))
    → is_classed org (party_group inv.direction) (party_class inv.direction) db ≡ true
    → ensure_chart_of_accounts org db ≡ ok chart
    → length (select (same_name org (party_name inv)) chart.ledgers) ≤ 1
    → (db' : Db) × (post_invoice show today org user inv db ≡ ok db')
unfolding post_invoice
post_invoice-ok show today org user inv db {chart} fresh above taxes classed ran few =
    let (after, set_up) = ensure_chart_of_accounts-IsSetUp org db in
    let same = ensure-vouchers org db set_up.ran in
    let (db', e) =
      on_chart show today org user inv after
        (subst (λ vs. any (is_source org inv.id) vs ≡ false) (sym same) fresh) above taxes
        (subst (λ c. length (select (same_name org (party_name inv)) c.ledgers) ≤ 1)
          (ok-inj (sym ran ∙ set_up.ran)) few)
        set_up.ledgers_there (party-HasClass org inv.direction db after classed set_up) in
    (db', rw set_up.ran e)
