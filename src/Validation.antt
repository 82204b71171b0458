-- ===== src/Validation.antt =====
-- backend/app/rules/invoice_validation.py: the ten rules, the score and the status of an invoice.
-- A rule returns whether it passed, with the issues that it appends.
pub mod Score
pub mod Laws
pub mod Clean
mod Tests
use gst_ai_copilot.Base.{
  ℕ, zero, suc, ◌+◌, ◌-◌, Bool, true, false, not, Option, none, some, List, [], ◌∷◌, ◌++◌, map,
  Decimal, pos, ◌+ℤ◌, ◌-ℤ◌, ltb_ℤ, abs, sum, Text, codes, strip, is_empty, any, Result, ok, err,
  if◌then◌else◌,
}
use gst_ai_copilot.Gst.{
  TransactionType, intra_state, inter_state, export, sez_supply, exempt, nil_rated, number,
  GstCalculation, CalcError, calculate,
}
use gst_ai_copilot.Gstin.{validate_gstin}

pub data IssueSeverity : Type 0 where
  critical high medium low info : IssueSeverity

pub data RuleCode : Type 0 where
  gstin_missing gstin_invalid_format invoice_number_missing duplicate_invoice_number
        invoice_date_missing :
      RuleCode
  place_of_supply_missing no_line_items hsn_sac_missing tax_arithmetic_mismatch
        taxable_value_mismatch :
      RuleCode

-- Where an issue stands; the line items it names are numbered from 1.
pub data Field : Type 0 where
  supplier_gstin_field buyer_gstin_field invoice_number_field invoice_date_field : Field
  place_of_supply_field items_field taxable_value_field : Field
  hsn_sac_field : List ℕ → Field
  item_field : ℕ → Field

pub record ValidationIssue : Type 0 where
  pub rule_code : RuleCode
  pub severity : IssueSeverity
  pub at : Field

pub record InvoiceLineItem : Type 0 where
  pub description : Option Text
  pub hsn_sac : Option Text
  pub taxable_value : Decimal
  pub gst_rate : Decimal
  pub cgst : Decimal
  pub sgst : Decimal
  pub igst : Decimal
  pub cess : Decimal

pub record InvoiceInput : Type 0 where
  pub invoice_number : Option Text
  pub invoice_date : Option Text
  pub supplier_gstin : Option Text
  pub buyer_gstin : Option Text
  pub place_of_supply : Option Text
  pub transaction_scope : Option TransactionType
  pub items : List InvoiceLineItem
  pub declared_taxable_value : Option Decimal
  pub declared_total_tax : Option Decimal
  pub declared_grand_total : Option Decimal
  pub is_duplicate_invoice_number : Bool

pub data ReportStatus : Type 0 where
  passed warning failed : ReportStatus

pub record ValidationReport : Type 0 where
  pub status : ReportStatus
  pub score : ℕ
  pub passed_checks : ℕ
  pub total_checks : ℕ
  pub issues : List ValidationIssue

-- `_SEVERITY_PENALTY`
abbrev pub penalty_of : IssueSeverity → ℕ
penalty_of critical = 30
penalty_of high = 15
penalty_of medium = 8
penalty_of low = 3
penalty_of info = 0

-- `_TOLERANCE`: one rupee.
abbrev pub tolerance : Decimal
tolerance = pos 10_000

pub record Outcome : Type 0 where
  pub is_passed : Bool
  pub found : List ValidationIssue

abbrev pub pass : Outcome
pass = record { is_passed = true; found = [] }

abbrev pub issue : RuleCode → IssueSeverity → Field → ValidationIssue
issue c s f = record { rule_code = c; severity = s; at = f }

abbrev pub fail : RuleCode → IssueSeverity → Field → Outcome
fail c s f = record { is_passed = false; found = issue c s f ∷ [] }

-- `not text`, of an optional text.
abbrev pub is_blank : Option Text → Bool
is_blank none = true
is_blank (some t) = is_empty t

-- `_rule_gstin_present_and_valid`
unfoldable pub rule_gstin : Field → Option Text → Outcome
rule_gstin at gstin =
    if is_blank gstin
    then fail gstin_missing critical at
    else if (validate_gstin gstin).is_valid
    then pass
    else fail gstin_invalid_format critical at

abbrev pub has_no_number : Option Text → Bool
has_no_number none = true
has_no_number (some t) = if is_empty t then true else is_empty (strip t)

-- `_rule_invoice_number_present`
unfoldable pub rule_invoice_number : InvoiceInput → Outcome
rule_invoice_number inv =
    if has_no_number inv.invoice_number
    then fail invoice_number_missing high invoice_number_field
    else pass

-- `_rule_no_duplicate_invoice_number`
unfoldable pub rule_no_duplicate : InvoiceInput → Outcome
rule_no_duplicate inv =
    if inv.is_duplicate_invoice_number
    then fail duplicate_invoice_number high invoice_number_field
    else pass

-- `_rule_invoice_date_present`
unfoldable pub rule_invoice_date : InvoiceInput → Outcome
rule_invoice_date inv =
    if is_blank inv.invoice_date then fail invoice_date_missing medium invoice_date_field else pass

-- `_rule_place_of_supply_present`
unfoldable pub rule_place_of_supply : InvoiceInput → Outcome
rule_place_of_supply inv =
    if is_blank inv.place_of_supply
    then fail place_of_supply_missing medium place_of_supply_field
    else pass

-- `_rule_line_items_present`
unfoldable pub rule_line_items : InvoiceInput → Outcome
rule_line_items inv = if is_empty inv.items then fail no_line_items critical items_field else pass

-- `[i for i, item in enumerate(items, start=i) if not item.hsn_sac]`
unfoldable pub missing_hsn : ℕ → List InvoiceLineItem → List ℕ
missing_hsn i [] = []
missing_hsn i (item ∷ items) =
    if is_blank item.hsn_sac then i ∷ missing_hsn (suc i) items else missing_hsn (suc i) items

-- `_rule_hsn_sac_present`
unfoldable pub rule_hsn_sac : InvoiceInput → Outcome
rule_hsn_sac inv =
    let missing = missing_hsn 1 inv.items in
    if is_empty missing then pass else fail hsn_sac_missing medium (hsn_sac_field missing)

-- `TransactionType(scope.value)`: the scopes and the transaction types have the same values.
abbrev pub scope_value : TransactionType → Text
scope_value intra_state = codes "intra_state"
scope_value inter_state = codes "inter_state"
scope_value export = codes "export"
scope_value sez_supply = codes "sez_supply"
scope_value exempt = codes "exempt"
scope_value nil_rated = codes "nil_rated"

-- The tax of a line is further than the tolerance from the tax of its rate; a line that the
-- calculator refuses is passed over.
abbrev pub tax_gap : InvoiceLineItem → GstCalculation → Decimal
tax_gap i g = abs ((i.cgst +ℤ i.sgst +ℤ i.igst) -ℤ (g.cgst +ℤ g.sgst +ℤ g.igst))

abbrev pub differs_from : InvoiceLineItem → Result CalcError GstCalculation → Bool
differs_from item (err e) = false
differs_from item (ok expected) = ltb_ℤ tolerance (tax_gap item expected)

unfoldable pub tax_differs : Text → TransactionType → InvoiceLineItem → Bool
tax_differs version scope item = differs_from item (
    calculate version (number item.taxable_value) (number item.gst_rate) (scope_value scope)
      (number (pos 0)))

unfoldable pub tax_issues : Text → TransactionType → ℕ → List InvoiceLineItem → List ValidationIssue
tax_issues version scope idx [] = []
tax_issues version scope idx (item ∷ items) =
    if tax_differs version scope item
    then issue tax_arithmetic_mismatch high (item_field idx)
      ∷ tax_issues version scope (suc idx) items
    else tax_issues version scope (suc idx) items

-- `_rule_tax_arithmetic_matches_declared_rate`
unfoldable pub rule_tax_arithmetic : Text → InvoiceInput → Outcome
rule_tax_arithmetic version inv = elim inv.transaction_scope [
  | none ↦ pass
  | some scope ↦
      let issues = tax_issues version scope 1 inv.items in
      record { is_passed = is_empty issues; found = issues }
]

-- `_rule_invoice_totals_consistent`
unfoldable pub rule_totals : InvoiceInput → Outcome
rule_totals inv = elim inv.declared_taxable_value [
  | none ↦ pass
  | some declared ↦
      if is_empty inv.items
      then pass
      else if ltb_ℤ tolerance (abs (sum (map (λ i. i.taxable_value) inv.items) -ℤ declared))
      then fail taxable_value_mismatch high taxable_value_field
      else pass
]

-- `_ALL_RULES`, each on the invoice. `version` is the calculator's default of its rules.
unfoldable pub all_rules : Text → InvoiceInput → List Outcome
all_rules version inv =
    rule_gstin supplier_gstin_field inv.supplier_gstin
    ∷ rule_gstin buyer_gstin_field inv.buyer_gstin
    ∷ rule_invoice_number inv
    ∷ rule_no_duplicate inv
    ∷ rule_invoice_date inv
    ∷ rule_place_of_supply inv
    ∷ rule_line_items inv
    ∷ rule_hsn_sac inv
    ∷ rule_tax_arithmetic version inv
    ∷ rule_totals inv
    ∷ []

-- The loop over the rules: the issues and the number that passed.
unfoldable pub issues_of : List Outcome → List ValidationIssue
issues_of [] = []
issues_of (o ∷ os) = o.found ++ issues_of os

unfoldable pub passed_of : List Outcome → ℕ
passed_of [] = 0
passed_of (o ∷ os) = if o.is_passed then suc (passed_of os) else passed_of os

unfoldable pub penalty : List ValidationIssue → ℕ
penalty [] = 0
penalty (i ∷ is) = penalty_of i.severity + penalty is

abbrev pub is_critical : ValidationIssue → Bool
is_critical i = elim i.severity [ critical ↦ true | _ ↦ false ]

unfoldable pub status_of : List ValidationIssue → ReportStatus
status_of issues =
    if any is_critical issues then failed else if not (is_empty issues) then warning else passed

-- `validate_invoice`
unfoldable pub validate_invoice : Text → InvoiceInput → ValidationReport
validate_invoice version inv =
    let outcomes = all_rules version inv in
    let issues = issues_of outcomes in
    record {
      status = status_of issues;
      score = 100 - penalty issues;
      passed_checks = passed_of outcomes;
      total_checks = 10;
      issues = issues;
    }
