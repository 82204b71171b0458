-- ===== src/Gst.antt =====
-- backend/app/rules/gst_calculator.py: tax of one taxable value, and of the lines of an invoice.
-- Amounts and rates are in ten-thousandths; a product or quotient of them is an exact fraction
-- until `round` brings it back to whole paise.
pub mod Rounding
pub mod Guards
pub mod Laws
pub mod Lines
mod Tests
use gst_ai_copilot.Base.{
  ℕ, ◌+◌, ◌*◌, ◌/◌, suc, Bool, true, false, ◌||◌, not, Option, none, some, List, [], ◌∷◌, ◌++◌, map,
  ℤ, pos, negsuc, Decimal, ◌+ℤ◌, ◌*ℤ◌, ltb_ℤ, eqb_ℤ, negate, sum, Text, codes, text_eq, Result, ok,
  err, ◌>>=◌, ◌>>◌, raise_if, is_empty, if◌then◌else◌,
}

pub data TransactionType : Type 0 where
  intra_state inter_state export sez_supply exempt nil_rated : TransactionType

-- `TransactionType(transaction_type)`, by the enum's value; `none` is a `ValueError`.
pub parse_transaction_type : Text → Option TransactionType
parse_transaction_type t =
    if text_eq t (codes "intra_state")
    then some intra_state
    else if text_eq t (codes "inter_state")
    then some inter_state
    else if text_eq t (codes "export")
    then some export
    else if text_eq t (codes "sez_supply")
    then some sez_supply
    else if text_eq t (codes "exempt")
    then some exempt
    else if text_eq t (codes "nil_rated")
    then some nil_rated
    else none

-- `txn_type in ZERO_TAX_TRANSACTION_TYPES`
abbrev pub is_zero_tax : TransactionType → Bool
is_zero_tax intra_state = false
is_zero_tax inter_state = false
is_zero_tax export = true
is_zero_tax sez_supply = true
is_zero_tax exempt = true
is_zero_tax nil_rated = true

-- An exact quotient of decimals, before it is rounded.
pub record Exact : Type 0 where
  pub num : ℤ
  pub den : ℕ

abbrev pub scale : ℕ
scale = 10_000

abbrev pub of_decimal : Decimal → Exact
of_decimal d = record { num = d; den = scale }

abbrev pub times : Exact → Exact → Exact
times x y = record { num = x.num *ℤ y.num; den = x.den * y.den }

abbrev pub over : Exact → ℕ → Exact
over x k = record { num = x.num; den = x.den * k }

-- The nearest integer to a quotient; a tie goes away from zero.
unfoldable pub round_half_up : ℤ → ℕ → ℤ
round_half_up (pos n) d = pos ((2 * n + d) / (2 * d))
round_half_up (negsuc n) d = negate (pos ((2 * suc n + d) / (2 * d)))

-- `value.quantize(TWO_PLACES, rounding=ROUND_HALF_UP)`
unfoldable pub round : Exact → Decimal
round x = round_half_up (x.num *ℤ pos 100) x.den *ℤ pos 100

-- What `Decimal(str(value))` reads: a finite number, or no number at all.
pub data Numeric : Type 0 where
  number : Decimal → Numeric
  unreadable : Numeric

pub data FieldName : Type 0 where
  taxable_value_field gst_rate_field cess_rate_field : FieldName

pub data CalcError : Type 0 where
  invalid_numeric : FieldName → CalcError
  unknown_transaction_type negative_taxable rate_out_of_range negative_cess no_line_items :
      CalcError

-- `_to_decimal`
pub to_decimal : Numeric → FieldName → Result CalcError Decimal
to_decimal (number d) f = ok d
to_decimal unreadable f = err (CalcError.invalid_numeric f)

abbrev pub to_transaction_type : Text → Result CalcError TransactionType
to_transaction_type t = elim (parse_transaction_type t) [
  | none ↦ err CalcError.unknown_transaction_type
  | some ty ↦ ok ty
]

pub data Warning : Type 0 where
  rate_ignored : Decimal → TransactionType → Warning

pub record GstCalculation : Type 0 where
  pub rules_version : Text
  pub transaction_type : TransactionType
  pub taxable_value : Decimal
  pub gst_rate : Decimal
  pub cess_rate : Decimal
  pub cgst : Decimal
  pub sgst : Decimal
  pub igst : Decimal
  pub cess : Decimal
  pub total_tax : Decimal
  pub grand_total : Decimal
  pub warnings : List Warning

pub record TaxSplit : Type 0 where
  pub cgst : Decimal
  pub sgst : Decimal
  pub igst : Decimal
  pub cess : Decimal

abbrev pub half_tax : Decimal → Decimal → Decimal
half_tax taxable rate =
    let half_rate = over (of_decimal rate) 2 in
    round (over (times (of_decimal taxable) half_rate) 100)

abbrev pub full_tax : Decimal → Decimal → Decimal
full_tax taxable rate = round (over (times (of_decimal taxable) (of_decimal rate)) 100)

abbrev zero_split : TaxSplit
zero_split = record { cgst = pos 0; sgst = pos 0; igst = pos 0; cess = pos 0 }

-- The branches of `calculate` over the transaction type.
pub tax_split : TransactionType → Decimal → Decimal → Decimal → TaxSplit
tax_split intra_state taxable rate cess = record {
  cgst = half_tax taxable rate;
  sgst = half_tax taxable rate;
  igst = pos 0;
  cess = full_tax taxable cess;
}
tax_split inter_state taxable rate cess = record {
  cgst = pos 0;
  sgst = pos 0;
  igst = full_tax taxable rate;
  cess = full_tax taxable cess;
}
tax_split export taxable rate cess = zero_split
tax_split sez_supply taxable rate cess = zero_split
tax_split exempt taxable rate cess = zero_split
tax_split nil_rated taxable rate cess = zero_split

pub warnings_for : TransactionType → Decimal → List Warning
warnings_for ty rate =
    if is_zero_tax ty
    then (if not (eqb_ℤ rate (pos 0)) then Warning.rate_ignored rate ty ∷ [] else [])
    else []

pub build : Text → TransactionType → Decimal → Decimal → Decimal → GstCalculation
build version ty taxable rate cess_rate =
    let s = tax_split ty taxable rate cess_rate in
    let total_tax = s.cgst +ℤ s.sgst +ℤ s.igst +ℤ s.cess in
    record {
      rules_version = version;
      transaction_type = ty;
      taxable_value = round (of_decimal taxable);
      gst_rate = rate;
      cess_rate = cess_rate;
      cgst = s.cgst;
      sgst = s.sgst;
      igst = s.igst;
      cess = s.cess;
      total_tax = total_tax;
      grand_total = round (of_decimal taxable) +ℤ total_tax;
      warnings = warnings_for ty rate;
    }

abbrev pub hundred : Decimal
hundred = pos 1_000_000

-- `GSTCalculator.calculate`
pub calculate : Text → Numeric → Numeric → Text → Numeric → Result CalcError GstCalculation
unfolding to_decimal build
calculate version taxable_value gst_rate transaction_type cess_rate = do
  taxable ← to_decimal taxable_value FieldName.taxable_value_field
  rate ← to_decimal gst_rate FieldName.gst_rate_field
  cess ← to_decimal cess_rate FieldName.cess_rate_field
  ty ← to_transaction_type transaction_type
  raise_if (ltb_ℤ taxable (pos 0)) CalcError.negative_taxable
  raise_if (ltb_ℤ rate (pos 0) || ltb_ℤ hundred rate) CalcError.rate_out_of_range
  raise_if (ltb_ℤ cess (pos 0)) CalcError.negative_cess
  ok (build version ty taxable rate cess)

-- The keys of an item: `item["taxable_value"]`, `item["gst_rate"]`, `item.get("cess_rate", 0)`.
pub record LineItem : Type 0 where
  pub taxable_value : Numeric
  pub gst_rate : Numeric
  pub cess_rate : Option Numeric

abbrev pub cess_or_zero : Option Numeric → Numeric
cess_or_zero none = number (pos 0)
cess_or_zero (some c) = c

pub calculate_each : Text → Text → List LineItem → Result CalcError (List GstCalculation)
calculate_each version ty [] = ok []
calculate_each version ty (i ∷ items) = do
  r ← calculate version i.taxable_value i.gst_rate ty (cess_or_zero i.cess_rate)
  rs ← calculate_each version ty items
  ok (r ∷ rs)

pub collect_warnings : List GstCalculation → List Warning
collect_warnings [] = []
collect_warnings (r ∷ rs) = r.warnings ++ collect_warnings rs

pub invoice_total : Text → TransactionType → List GstCalculation → GstCalculation
invoice_total version ty rs = record {
  rules_version = version;
  transaction_type = ty;
  taxable_value = sum (map (λ r. r.taxable_value) rs);
  gst_rate = pos 0;
  cess_rate = pos 0;
  cgst = sum (map (λ r. r.cgst) rs);
  sgst = sum (map (λ r. r.sgst) rs);
  igst = sum (map (λ r. r.igst) rs);
  cess = sum (map (λ r. r.cess) rs);
  total_tax = sum (map (λ r. r.total_tax) rs);
  grand_total = sum (map (λ r. r.grand_total) rs);
  warnings = collect_warnings rs;
}

-- `GSTCalculator.calculate_line_items`
pub calculate_line_items :
    Text → List LineItem → Text → Result CalcError (List GstCalculation × GstCalculation)
calculate_line_items version items transaction_type = do
  raise_if (is_empty items) CalcError.no_line_items
  results ← calculate_each version transaction_type items
  ty ← to_transaction_type transaction_type
  ok (results, invoice_total version ty results)
