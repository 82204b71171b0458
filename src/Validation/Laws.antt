-- ===== src/Validation/Laws.antt =====
-- What the report of an invoice says: which invoices pass, and how status, score and count agree.
use gst_ai_copilot.Base.{
  ℕ, suc, ◌≤◌, ◌≡◌, refl, ◌↔◌, inl, inr, Bool, true, false, Bool-cases, Option, Option-cases, List,
  [], ◌∷◌, arith, is_empty, any, All, if◌then◌else◌, Text,
}
use gst_ai_copilot.Gst.{TransactionType}
use gst_ai_copilot.Gstin.{validate_gstin}
use gst_ai_copilot.Validation.{
  RuleCode, IssueSeverity, ValidationIssue, invoice_number_missing, duplicate_invoice_number,
  invoice_date_missing, place_of_supply_missing, no_line_items, taxable_value_mismatch,
  gstin_missing, gstin_invalid_format, hsn_sac_missing, hsn_sac_field, taxable_value_field,
  critical, high, medium, invoice_number_field, invoice_date_field, place_of_supply_field,
  items_field, penalty_of, InvoiceInput, InvoiceLineItem, passed, Outcome, Field, fail, pass,
  supplier_gstin_field, buyer_gstin_field, rule_gstin, rule_invoice_number, rule_no_duplicate,
  rule_invoice_date, rule_place_of_supply, rule_line_items, rule_hsn_sac, rule_tax_arithmetic,
  rule_totals, missing_hsn, tax_differs, tax_issues, all_rules, issues_of, status_of,
  validate_invoice, is_blank, is_critical,
}
use gst_ai_copilot.Validation.Score.{
  IsFair, IsWeighty, IsScoredAs, passed_count_iff, issues-IsWeighty, status-IsScoredAs, passed-le,
}

tax_issues-IsWeighty :
    (v : Text) (s : TransactionType) (n : ℕ) (items : List InvoiceLineItem)
    → All IsWeighty (tax_issues v s n items)
unfolding tax_issues
tax_issues-IsWeighty v s n [] = tt
tax_issues-IsWeighty v s n (i ∷ items) = elim (Bool-cases (tax_differs v s i)) [
  | inl t ↦ rw t (omega arith, tax_issues-IsWeighty v s (suc n) items)
  | inr t ↦ rw t (tax_issues-IsWeighty v s (suc n) items)
]

IsFair-pass : IsFair pass
IsFair-pass = record { passed_eq = refl; weighty = tt }

fail-IsFair :
    (c : RuleCode) (s : IssueSeverity) (f : Field) → 8 ≤ penalty_of s → IsFair (fail c s f)
fail-IsFair c s f w = record { passed_eq = refl; weighty = (w, tt) }

choice-IsFair : (b : Bool) (o p : Outcome) → IsFair o → IsFair p → IsFair (if b then o else p)
choice-IsFair true o p h k = h
choice-IsFair false o p h k = k

rule_gstin-IsFair : (f : Field) (g : Option Text) → IsFair (rule_gstin f g)
unfolding rule_gstin
rule_gstin-IsFair f g =
    choice-IsFair (is_blank g) _ _ (fail-IsFair gstin_missing critical f (omega arith)) (
      choice-IsFair (validate_gstin g).is_valid _ _ IsFair-pass
        (fail-IsFair gstin_invalid_format critical f (omega arith)))

rule_tax_arithmetic-IsFair : (v : Text) (inv : InvoiceInput) → IsFair (rule_tax_arithmetic v inv)
unfolding rule_tax_arithmetic
rule_tax_arithmetic-IsFair v inv = elim (Option-cases inv.transaction_scope) [
  | inl e ↦ rw e IsFair-pass
  | inr (s, e) ↦ rw e (record { passed_eq = refl; weighty = tax_issues-IsWeighty v s 1 inv.items })
]

rule_totals-IsFair : (inv : InvoiceInput) → IsFair (rule_totals inv)
unfolding rule_totals
rule_totals-IsFair inv = elim (Option-cases inv.declared_taxable_value) [
  | inl e ↦ rw e IsFair-pass
  | inr (d, e) ↦ rw e (
      choice-IsFair (is_empty inv.items) _ _ IsFair-pass (
        choice-IsFair _ _ _
          (fail-IsFair taxable_value_mismatch high taxable_value_field (omega arith)) IsFair-pass))
]

rule_hsn_sac-IsFair : (inv : InvoiceInput) → IsFair (rule_hsn_sac inv)
unfolding rule_hsn_sac
rule_hsn_sac-IsFair inv =
    choice-IsFair (is_empty (missing_hsn 1 inv.items)) _ _ IsFair-pass
      (fail-IsFair hsn_sac_missing medium (hsn_sac_field (missing_hsn 1 inv.items)) (omega arith))

pub all_rules-IsFair : (v : Text) (inv : InvoiceInput) → All IsFair (all_rules v inv)
unfolding all_rules rule_invoice_number rule_no_duplicate rule_invoice_date rule_place_of_supply
    rule_line_items
all_rules-IsFair v inv = (
  rule_gstin-IsFair supplier_gstin_field inv.supplier_gstin,
  (
    rule_gstin-IsFair buyer_gstin_field inv.buyer_gstin,
    (
      choice-IsFair _ _ _
          (fail-IsFair invoice_number_missing high invoice_number_field (omega arith)) IsFair-pass,
      (
        choice-IsFair _ _ _
            (fail-IsFair duplicate_invoice_number high invoice_number_field (omega arith))
            IsFair-pass,
        (
          choice-IsFair _ _ _
              (fail-IsFair invoice_date_missing medium invoice_date_field (omega arith))
              IsFair-pass,
          (
            choice-IsFair _ _ _
                (fail-IsFair place_of_supply_missing medium place_of_supply_field (omega arith))
                IsFair-pass,
            (
              choice-IsFair _ _ _ (fail-IsFair no_line_items critical items_field (omega arith))
                  IsFair-pass,
              (
                rule_hsn_sac-IsFair inv,
                (rule_tax_arithmetic-IsFair v inv, (rule_totals-IsFair inv, tt)),
              ),
            ),
          ),
        ),
      ),
    ),
  ),
)

status-passed_iff : (is : List ValidationIssue) → (status_of is ≡ passed) ↔ (is_empty is ≡ true)
unfolding status_of
status-passed_iff [] = (λ e. refl, λ e. refl)
status-passed_iff (i ∷ is) = elim (Bool-cases (any is_critical (i ∷ is))) [
  | inl t ↦ rw t (λ e. cc, λ e. cc)
  | inr t ↦ rw t (λ e. cc, λ e. cc)
]

-- The status, the score and the count of an invoice's report agree: an invoice that has passed
-- scores 100, a warning 92 at most and a failure 70 at most; it has passed exactly when all ten
-- checks did.
pub validate_invoice-IsScoredAs :
    (v : Text) (inv : InvoiceInput)
    → let r = validate_invoice v inv in
      IsScoredAs r.status r.score
      × ((r.status ≡ passed) ↔ (r.passed_checks ≡ r.total_checks))
      × (r.passed_checks ≤ r.total_checks)
unfolding validate_invoice all_rules
validate_invoice-IsScoredAs v inv =
    let fair = all_rules-IsFair v inv in
    let p = status-passed_iff (issues_of (all_rules v inv)) in
    let q = passed_count_iff (all_rules v inv) fair in
    (
      status-IsScoredAs (issues_of (all_rules v inv)) (issues-IsWeighty (all_rules v inv) fair),
      (λ e. q.1 (p.0 e), λ e. p.1 (q.0 e)),
      passed-le (all_rules v inv),
    )
