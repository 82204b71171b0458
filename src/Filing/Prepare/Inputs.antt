-- ===== src/Filing/Prepare/Inputs.antt =====
-- backend/app/services/return_service.py: the period, its invoices and the figures made of them.
use gst_ai_copilot.Base.{
  ℕ, ◌+◌, ◌*◌, ◌==◌, leb, Bool, true, false, not, Option, none, some, List, [], ◌∷◌, ◌++◌, Text,
  codes, any, is_unicode_digit, decimal_value, Decimal, Result, err, ◌>>◌, raise_if, select, length,
  ◌&&◌,
}
use gst_ai_copilot.Returns.{ReturnInvoice, build_gstr1, build_gstr3b, total_tax, sales_of}
use gst_ai_copilot.Filing.{
  Uuid, ReturnType, gstr1, gstr3b, Summary, of_gstr1, of_gstr3b, Invoice, InvoiceDirection, sales,
  purchase, InvoiceStatus, invoice_rejected, invoice_failed, uploaded, processing, extracted,
  validated, needs_review, invoice_approved, Db, FilingError, bad_period_format, bad_month,
  no_integer,
}

abbrev two_digits : Option ℕ → Option ℕ → Option ℕ
two_digits none u = none
two_digits (some tens) none = none
two_digits (some tens) (some units) = some (tens * 10 + units)

-- `int(month)`
unfoldable pub month_of : ℕ → ℕ → Option ℕ
month_of m1 m2 = two_digits (decimal_value m1) (decimal_value m2)

abbrev pub are_digits : List ℕ → Bool
are_digits cs = not (any (λ c. not (is_unicode_digit c)) cs)

abbrev pub check_month : Option ℕ → Result FilingError (Unit {0})
check_month none = err no_integer
check_month (some n) = raise_if (not (leb 1 n && leb n 12)) bad_month

-- `_validate_period`
unfoldable pub validate_period : Text → Result FilingError (Unit {0})
validate_period (y1 ∷ y2 ∷ y3 ∷ y4 ∷ dash ∷ m1 ∷ m2 ∷ []) = do
  raise_if (not (dash == b'-')) bad_period_format
  raise_if (not (are_digits (y1 ∷ y2 ∷ y3 ∷ y4 ∷ m1 ∷ m2 ∷ []))) bad_month
  check_month (month_of m1 m2)
validate_period _ = err bad_period_format

-- `status not in _EXCLUDED_STATUSES`
abbrev pub is_included : InvoiceStatus → Bool
is_included invoice_failed = false
is_included invoice_rejected = false
is_included uploaded = true
is_included processing = true
is_included extracted = true
is_included validated = true
is_included needs_review = true
is_included invoice_approved = true

-- `LIKE 'prefix%'`
unfoldable pub starts_with : Text → Text → Bool
starts_with [] s = true
starts_with (c ∷ p) [] = false
starts_with (c ∷ p) (d ∷ s) = (c == d) && starts_with p s

abbrev pub is_in_period : Text → Option Text → Bool
is_in_period period none = false
is_in_period period (some date) = starts_with (period ++ codes "-") date

-- `_load_period_invoices`
unfoldable pub load_period_invoices : Uuid → Text → Db → List Invoice
load_period_invoices org period db =
    select
      (λ inv.
        (org == inv.organization_id)
        && is_in_period period inv.invoice_date
        && is_included inv.status)
      db.invoices

abbrev pub direction_text : InvoiceDirection → Text
direction_text sales = codes "sales"
direction_text purchase = codes "purchase"

abbrev counterparty : InvoiceDirection → Option Text → Option Text → Option Text
counterparty sales buyer supplier = buyer
counterparty purchase buyer supplier = supplier

-- `_to_inputs`, of one invoice.
unfoldable pub to_input : Invoice → ReturnInvoice
to_input inv = record {
  direction = direction_text inv.direction;
  invoice_number = inv.invoice_number;
  invoice_date = inv.invoice_date;
  counterparty_name = counterparty inv.direction inv.buyer_name inv.supplier_name;
  counterparty_gstin = counterparty inv.direction inv.buyer_gstin inv.supplier_gstin;
  place_of_supply = inv.place_of_supply;
  lines = inv.items;
}

-- The figures that a summary puts on the return.
pub record Figures : Type 0 where
  pub count : ℕ
  pub taxable : Decimal
  pub tax : Decimal
  pub stored : Summary

unfoldable pub summarize_return : ReturnType → Text → List ReturnInvoice → Figures
summarize_return gstr1 period inputs =
    let s = build_gstr1 period inputs in
    record {
      count = length (sales_of inputs);
      taxable = s.totals.taxable_value;
      tax = total_tax s.totals;
      stored = of_gstr1 s;
    }
summarize_return gstr3b period inputs =
    let s = build_gstr3b period inputs in
    record {
      count = length inputs;
      taxable = s.outward_taxable.taxable_value;
      tax = s.net_tax_payable.total_tax;
      stored = of_gstr3b s;
    }
