-- ===== src/Validation/Clean.antt =====
-- The invoices that pass every check.
use gst_ai_copilot.Base.{
  ℕ, suc, ◌≡◌, refl, sym, subst, ◌∙◌, ◌↔◌, inl, inr, Bool, true, false, Bool-cases, Option, none,
  some, Option-cases, List, [], ◌∷◌, map, arith, is_empty, All, length, if◌then◌else◌, Text, strip,
  Decimal, pos, ◌+ℤ◌, ◌-ℤ◌, ◌≤ℤ◌, ltb_ℤ, abs, sum, ok, err, Result,
}
use gst_ai_copilot.Gst.{CalcError, TransactionType, GstCalculation, number, calculate}
use gst_ai_copilot.Gstin.{validate_gstin, clean}
use gst_ai_copilot.Gstin.Structure.{IsWellFormed, validate_gstin_iff}
use gst_ai_copilot.Validation.{
  RuleCode, IssueSeverity, invoice_number_missing, duplicate_invoice_number, invoice_date_missing,
  place_of_supply_missing, no_line_items, taxable_value_mismatch, taxable_value_field, critical,
  high, medium, invoice_number_field, invoice_date_field, place_of_supply_field, items_field,
  InvoiceInput, InvoiceLineItem, passed, Outcome, Field, fail, pass, supplier_gstin_field,
  buyer_gstin_field, rule_gstin, rule_invoice_number, rule_no_duplicate, rule_invoice_date,
  rule_place_of_supply, rule_line_items, rule_hsn_sac, rule_tax_arithmetic, rule_totals, tax_gap,
  differs_from, missing_hsn, tax_differs, tax_issues, scope_value, all_rules, passed_of,
  validate_invoice, tolerance, is_blank, has_no_number,
}
use gst_ai_copilot.Validation.Score.{passed-le}
use gst_ai_copilot.Validation.Laws.{validate_invoice-IsScoredAs}

passed_each_iff :
    (os : List Outcome) → (passed_of os ≡ length os) ↔ All (λ o. o.is_passed ≡ true) os
unfolding passed_of
passed_each_iff [] = (λ e. tt, λ e. refl)
passed_each_iff (o ∷ os) =
    let rest = passed_each_iff os in
    elim (Bool-cases o.is_passed) [
      | inl t ↦ rw t (λ e. (refl, rest.0 (omega arith)), λ h. omega (arith, rest.1 h.1))
      | inr t ↦ rw t (λ e. absurd (omega (arith, passed-le os)), λ h. cc)
    ]

-- There is a text, and it is not empty.
abbrev pub IsGiven : Option Text → Type 0
IsGiven o = (c : ℕ) × (s : Text) × (o ≡ some (c ∷ s))

abbrev pub IsValidGstin : Option Text → Type 0
IsValidGstin o = (c : ℕ) × (s : Text) × (o ≡ some (c ∷ s)) × IsWellFormed (clean (c ∷ s))

abbrev pub value_gap : List InvoiceLineItem → Decimal → Decimal
value_gap items declared = abs (sum (map (λ i. i.taxable_value) items) -ℤ declared)

-- The declared CGST, SGST and IGST of a line are together within a rupee of the calculator's, if it
-- gives them.
abbrev pub IsNear : InvoiceLineItem → Result CalcError GstCalculation → Type 0
IsNear i (err e) = Unit
IsNear i (ok g) = abs ((i.cgst +ℤ i.sgst +ℤ i.igst) -ℤ (g.cgst +ℤ g.sgst +ℤ g.igst)) ≤ℤ pos 10_000

abbrev pub IsTaxedRight : Text → TransactionType → InvoiceLineItem → Type 0
IsTaxedRight v scope i =
    IsNear i (
      calculate v (number i.taxable_value) (number i.gst_rate) (scope_value scope) (number (pos 0)))

abbrev pub AreTaxedRight : Text → Option TransactionType → List InvoiceLineItem → Type 0
AreTaxedRight v none items = Unit
AreTaxedRight v (some scope) items = All (IsTaxedRight v scope) items

-- The lines sum to within a rupee of the declared value, if there is one.
abbrev pub IsTotalled : List InvoiceLineItem → Option Decimal → Type 0
IsTotalled items none = Unit
IsTotalled items (some d) = value_gap items d ≤ℤ pos 10_000

pub record IsClean (v : Text) (inv : InvoiceInput) : Type 0 where
  pub supplier : IsValidGstin inv.supplier_gstin
  pub buyer : IsValidGstin inv.buyer_gstin
  pub numbered : (t : Text) × (inv.invoice_number ≡ some t) × (is_empty (strip t) ≡ false)
  pub fresh : inv.is_duplicate_invoice_number ≡ false
  pub dated : IsGiven inv.invoice_date
  pub placed : IsGiven inv.place_of_supply
  pub has_items : is_empty inv.items ≡ false
  pub coded : All (λ i. IsGiven i.hsn_sac) inv.items
  pub taxed : AreTaxedRight v inv.transaction_scope inv.items
  pub totals : IsTotalled inv.items inv.declared_taxable_value

gstin_iff : (f : Field) (o : Option Text) → ((rule_gstin f o).is_passed ≡ true) ↔ IsValidGstin o
unfolding rule_gstin
gstin_iff f none = (λ e. cc, λ h. cc)
gstin_iff f (some []) = (λ e. cc, λ h. ground arith)
gstin_iff f (some (c ∷ s)) = elim (Bool-cases (validate_gstin (some (c ∷ s))).is_valid) [
  | inl t ↦ rw t (λ e. (c, s, refl, (validate_gstin_iff c s).0 t), λ h. refl)
  | inr t ↦ rw t (
    λ e. cc,
    λ h.
        sym t
        ∙ subst (λ k. (validate_gstin k).is_valid ≡ true) (sym h.2)
            ((validate_gstin_iff h.0 h.1).1 h.3),
  )
]

IsGiven-iff : (o : Option Text) → (is_blank o ≡ false) ↔ IsGiven o
IsGiven-iff none = (λ e. cc, λ h. ground arith)
IsGiven-iff (some []) = (λ e. cc, λ h. ground arith)
IsGiven-iff (some (c ∷ s)) = (λ e. (c, s, refl), λ h. refl)

strip-nil : is_empty (strip []) ≡ true
unfolding strip
strip-nil = refl

numbered_iff :
    (o : Option Text)
    → (has_no_number o ≡ false) ↔ ((t : Text) × (o ≡ some t) × (is_empty (strip t) ≡ false))
numbered_iff none = (λ e. cc, λ h. ground arith)
numbered_iff (some []) = (λ e. cc, λ h. ground (arith, strip-nil))
numbered_iff (some (c ∷ s)) = (λ e. (c ∷ s, refl, e), λ h. ground arith)

coded_iff :
    (n : ℕ) (items : List InvoiceLineItem)
    → (is_empty (missing_hsn n items) ≡ true) ↔ All (λ i. IsGiven i.hsn_sac) items
unfolding missing_hsn
coded_iff n [] = (λ e. tt, λ h. refl)
coded_iff n (i ∷ items) =
    let rest = coded_iff (suc n) items in
    let this = IsGiven-iff i.hsn_sac in
    elim (Bool-cases (is_blank i.hsn_sac)) [
      | inl t ↦ rw t (λ e. cc, λ h. let k = this.1 h.0 in ground arith)
      | inr t ↦ rw t (λ e. (this.0 t, rest.0 e), λ h. rest.1 h.1)
    ]

not_above : (a b : Decimal) → ltb_ℤ b a ≡ false → a ≤ℤ b
not_above a b h = ground arith

above_not : (a b : Decimal) → a ≤ℤ b → ltb_ℤ b a ≡ false
above_not a b h = ground arith

differs_from_iff :
    (i : InvoiceLineItem) (m : Result CalcError GstCalculation)
    → (differs_from i m ≡ false) ↔ IsNear i m
differs_from_iff i (err e) = (λ p. tt, λ h. refl)
differs_from_iff i (ok g) = (not_above (tax_gap i g) tolerance, above_not (tax_gap i g) tolerance)

differs_iff :
    (v : Text) (scope : TransactionType) (i : InvoiceLineItem)
    → (tax_differs v scope i ≡ false) ↔ IsTaxedRight v scope i
unfolding tax_differs
differs_iff v scope i = differs_from_iff i _

taxed_iff :
    (v : Text) (scope : TransactionType) (n : ℕ) (items : List InvoiceLineItem)
    → (is_empty (tax_issues v scope n items) ≡ true) ↔ All (IsTaxedRight v scope) items
unfolding tax_issues
taxed_iff v scope n [] = (λ e. tt, λ h. refl)
taxed_iff v scope n (i ∷ items) =
    let rest = taxed_iff v scope (suc n) items in
    let this = differs_iff v scope i in
    elim (Bool-cases (tax_differs v scope i)) [
      | inl t ↦ rw t (λ e. cc, λ h. let k = this.1 h.0 in ground arith)
      | inr t ↦ rw t (λ e. (this.0 t, rest.0 e), λ h. rest.1 h.1)
    ]

fail_if :
    (b : Bool) (c : RuleCode) (s : IssueSeverity) (f : Field)
    → ((if b then fail c s f else pass).is_passed ≡ true) ↔ (b ≡ false)
fail_if true c s f = (λ e. cc, λ e. cc)
fail_if false c s f = (λ e. refl, λ e. refl)

tax_iff :
    (v : Text) (inv : InvoiceInput)
    → ((rule_tax_arithmetic v inv).is_passed ≡ true)
      ↔ AreTaxedRight v inv.transaction_scope inv.items
unfolding rule_tax_arithmetic
tax_iff v inv = elim (Option-cases inv.transaction_scope) [
  | inl e ↦ rw e (λ p. tt, λ h. refl)
  | inr (s, e) ↦ rw e (taxed_iff v s 1 inv.items)
]

totals_iff :
    (inv : InvoiceInput)
    → is_empty inv.items ≡ false
    → ((rule_totals inv).is_passed ≡ true) ↔ IsTotalled inv.items inv.declared_taxable_value
unfolding rule_totals
totals_iff inv full = elim (Option-cases inv.declared_taxable_value) [
  | inl e ↦ rw e (λ p. tt, λ h. refl)
  | inr (x, e) ↦
      let gap = value_gap inv.items x in
      let k = fail_if (ltb_ℤ tolerance gap) taxable_value_mismatch high taxable_value_field in
      rw (e, full) (λ p. not_above gap tolerance (k.0 p), λ h. k.1 (above_not gap tolerance h))
]

hsn_iff :
    (inv : InvoiceInput)
    → ((rule_hsn_sac inv).is_passed ≡ true) ↔ (is_empty (missing_hsn 1 inv.items) ≡ true)
unfolding rule_hsn_sac
hsn_iff inv = elim (Bool-cases (is_empty (missing_hsn 1 inv.items))) [
  | inl t ↦ rw t (λ e. refl, λ e. refl)
  | inr t ↦ rw t (λ e. cc, λ e. cc)
]

-- An invoice passes exactly when both GSTINs are valid, it has a number that was not used before, a
-- date, a place of supply and lines with HSN or SAC codes, and two more hold. Where the kind of the
-- transaction is known, the CGST, SGST and IGST of each line that the calculator does not refuse are
-- together within a rupee of the calculator's. Where a taxable value is declared, the lines sum to
-- within a rupee of it.
pub validate_invoice_passes_iff :
    (v : Text) (inv : InvoiceInput) → ((validate_invoice v inv).status ≡ passed) ↔ IsClean v inv
unfolding validate_invoice all_rules rule_invoice_number rule_no_duplicate rule_invoice_date
    rule_place_of_supply rule_line_items
validate_invoice_passes_iff v inv =
    let count = (validate_invoice-IsScoredAs v inv).1 in
    let each = passed_each_iff (all_rules v inv) in
    (λ e. to (each.0 (count.0 e)), λ c. count.1 (each.1 (from c)))
  where
    to : All (λ o. o.is_passed ≡ true) (all_rules v inv) → IsClean v inv
    to
          (
            supplier,
            (buyer, (numbered, (fresh, (date, (place, (items, (hsn, (tax, (totals, end))))))))),
          ) =
        let full = (fail_if _ no_line_items critical items_field).0 items in
        record {
          supplier = (gstin_iff supplier_gstin_field inv.supplier_gstin).0 supplier;
          buyer = (gstin_iff buyer_gstin_field inv.buyer_gstin).0 buyer;
          numbered =
              (numbered_iff inv.invoice_number).0
                ((fail_if _ invoice_number_missing high invoice_number_field).0 numbered);
          fresh = (fail_if _ duplicate_invoice_number high invoice_number_field).0 fresh;
          dated =
              (IsGiven-iff inv.invoice_date).0
                ((fail_if _ invoice_date_missing medium invoice_date_field).0 date);
          placed =
              (IsGiven-iff inv.place_of_supply).0
                ((fail_if _ place_of_supply_missing medium place_of_supply_field).0 place);
          has_items = full;
          coded = (coded_iff 1 inv.items).0 ((hsn_iff inv).0 hsn);
          taxed = (tax_iff v inv).0 tax;
          totals = (totals_iff inv full).0 totals;
        }

    from : IsClean v inv → All (λ o. o.is_passed ≡ true) (all_rules v inv)
    from c = (
      (gstin_iff supplier_gstin_field inv.supplier_gstin).1 c.supplier,
      (
        (gstin_iff buyer_gstin_field inv.buyer_gstin).1 c.buyer,
        (
          (fail_if (has_no_number inv.invoice_number) invoice_number_missing high
                invoice_number_field).1
              ((numbered_iff inv.invoice_number).1 c.numbered),
          (
            (fail_if inv.is_duplicate_invoice_number duplicate_invoice_number high
                  invoice_number_field).1
                c.fresh,
            (
              (fail_if (is_blank inv.invoice_date) invoice_date_missing medium invoice_date_field).1
                  ((IsGiven-iff inv.invoice_date).1 c.dated),
              (
                (fail_if (is_blank inv.place_of_supply) place_of_supply_missing medium
                      place_of_supply_field).1
                    ((IsGiven-iff inv.place_of_supply).1 c.placed),
                (
                  (fail_if (is_empty inv.items) no_line_items critical items_field).1 c.has_items,
                  (
                    (hsn_iff inv).1 ((coded_iff 1 inv.items).1 c.coded),
                    ((tax_iff v inv).1 c.taxed, ((totals_iff inv c.has_items).1 c.totals, tt)),
                  ),
                ),
              ),
            ),
          ),
        ),
      ),
    )
