-- ===== src/Gst/Lines.antt =====
-- The totals of an invoice over its lines (`calculate_line_items`).
use gst_ai_copilot.Base.{
  ◌≡◌, refl, ap, ◌+ℤ◌, Text, ok, List, [], ◌∷◌, length, All, sum-nil, sum-cons, int_laws, >>=-eq-ok,
  ok-inj, suc, is_empty, not_empty, false, Decimal,
}
use gst_ai_copilot.Gst.{
  TransactionType, GstCalculation, build, calculate, LineItem, Numeric, cess_or_zero,
  to_transaction_type, calculate_each, calculate_line_items, invoice_total,
}
use gst_ai_copilot.Gst.Guards.{calculate-Accepted}

-- The parts of a result add up to its totals.
pub record AddsUp (g : GstCalculation) : Type 0 where
  pub tax : g.total_tax ≡ g.cgst +ℤ g.sgst +ℤ g.igst +ℤ g.cess
  pub grand : g.grand_total ≡ g.taxable_value +ℤ g.total_tax

build-AddsUp : (v : Text) (ty : TransactionType) (t r c : Decimal) → AddsUp (build v ty t r c)
unfolding build
build-AddsUp v ty t r c = record { tax = refl; grand = refl }

calculate-AddsUp :
    (v : Text) (taxable rate : Numeric) (txn : Text) (cess : Numeric) {g : GstCalculation}
    → calculate v taxable rate txn cess ≡ ok g
    → AddsUp g
calculate-AddsUp v taxable rate txn cess h =
    let a = calculate-Accepted v taxable rate txn cess h in rw a.result (build-AddsUp v a.ty _ _ _)

calculate_each-AddsUp :
    (v txn : Text) (items : List LineItem) {rs : List GstCalculation}
    → calculate_each v txn items ≡ ok rs
    → All AddsUp rs × (length rs ≡ length items)
unfolding calculate_each
calculate_each-AddsUp v txn [] {rs} h = let e : [] ≡ rs = ok-inj h in rw (← e) (tt, refl)
calculate_each-AddsUp v txn (i ∷ items) {rs} h =
    let (r, er, h') =
      >>=-eq-ok (calculate v i.taxable_value i.gst_rate txn (cess_or_zero i.cess_rate)) _ h in
    let (rest, erest, h'') = >>=-eq-ok (calculate_each v txn items) _ h' in
    let e : r ∷ rest ≡ rs = ok-inj h'' in
    let (all, same) = calculate_each-AddsUp v txn items erest in
    rw (← e) ((calculate-AddsUp v _ _ txn _ er, all), ap suc same)

invoice_total-AddsUp :
    (v : Text) (ty : TransactionType) (rs : List GstCalculation)
    → All AddsUp rs
    → AddsUp (invoice_total v ty rs)
unfolding invoice_total
invoice_total-AddsUp v ty [] h = record {
  tax = rw sum-nil (omega int_laws);
  grand = rw sum-nil (omega int_laws);
}
invoice_total-AddsUp v ty (g ∷ rs) (a, h) =
    let ih = invoice_total-AddsUp v ty rs h in
    record {
      tax = simp sum-cons (rw (a.tax, ih.tax) (omega int_laws));
      grand = simp sum-cons (rw (a.grand, ih.grand) (omega int_laws));
    }

-- A successful invoice has one result for each of its lines, at least one, each result adds up, and
-- so do the invoice's totals: the tax is the sum of its four parts and the grand total that of value and tax.
pub calculate_line_items-AddsUp :
    (v : Text) (items : List LineItem) (txn : Text) {rs : List GstCalculation} {g : GstCalculation}
    → calculate_line_items v items txn ≡ ok (rs, g)
    → (length rs ≡ length items) × (is_empty rs ≡ false) × All AddsUp rs × AddsUp g
unfolding calculate_line_items
calculate_line_items-AddsUp v [] txn h = cc
calculate_line_items-AddsUp v (i ∷ items) txn {rs} {g} h =
    let (all, e, h') = >>=-eq-ok (calculate_each v txn (i ∷ items)) _ h in
    let (ty, ety, h'') = >>=-eq-ok (to_transaction_type txn) _ h' in
    let e' : (all, invoice_total v ty all) ≡ (rs, g) = ok-inj h'' in
    let (adds, same) = calculate_each-AddsUp v txn (i ∷ items) e in
    let total = invoice_total-AddsUp v ty all adds in
    (
      rw (← ap (λ p. p.0) e') same,
      rw (← ap (λ p. p.0) e') (not_empty all same),
      rw (← ap (λ p. p.0) e') adds,
      rw (← ap (λ p. p.1) e') total,
    )
