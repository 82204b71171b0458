-- ===== src/Returns.antt =====
-- backend/app/rules/return_aggregation.py: the figures of GSTR-1 and GSTR-3B from the invoices of a
-- period. Where `as_dict` renders a figure as text, the model keeps the figure.
pub mod Totals
pub mod Buckets
pub mod Groups
pub mod Summaries
mod Tests
use gst_ai_copilot.Base.{
  ℕ, ◌+◌, suc, Bool, true, false, not, Option, none, some, List, [], ◌∷◌, ◌++◌, map, ℤ, pos,
  Decimal, ◌+ℤ◌, ◌-ℤ◌, ltb_ℤ, eqb_ℤ, max_ℤ, sum, Text, codes, text_eq, is_empty, select, length,
  sorted_by, if◌then◌else◌,
}

pub record ReturnLine : Type 0 where
  pub taxable_value : Decimal
  pub gst_rate : Decimal
  pub cgst : Decimal
  pub sgst : Decimal
  pub igst : Decimal
  pub cess : Decimal

pub record ReturnInvoice : Type 0 where
  pub direction : Text
  pub invoice_number : Option Text
  pub invoice_date : Option Text
  pub counterparty_name : Option Text
  pub counterparty_gstin : Option Text
  pub place_of_supply : Option Text
  pub lines : List ReturnLine

pub record TaxTotals : Type 0 where
  pub taxable_value : Decimal
  pub cgst : Decimal
  pub sgst : Decimal
  pub igst : Decimal
  pub cess : Decimal

abbrev pub zero_totals : TaxTotals
zero_totals = record {
  taxable_value = pos 0;
  cgst = pos 0;
  sgst = pos 0;
  igst = pos 0;
  cess = pos 0;
}

-- `TaxTotals.total_tax`
unfoldable pub total_tax : TaxTotals → Decimal
total_tax t = t.cgst +ℤ t.sgst +ℤ t.igst +ℤ t.cess

-- `TaxTotals.add_line`
unfoldable pub add_line : TaxTotals → ReturnLine → TaxTotals
add_line t l = record {
  taxable_value = t.taxable_value +ℤ l.taxable_value;
  cgst = t.cgst +ℤ l.cgst;
  sgst = t.sgst +ℤ l.sgst;
  igst = t.igst +ℤ l.igst;
  cess = t.cess +ℤ l.cess;
}

unfoldable pub add_lines : TaxTotals → List ReturnLine → TaxTotals
add_lines t [] = t
add_lines t (l ∷ ls) = add_lines (add_line t l) ls

pub record RateBucket : Type 0 where
  pub gst_rate : Decimal
  pub totals : TaxTotals

-- `by_rate.setdefault(line.gst_rate, RateBucket(...)).totals.add_line(line)`
unfoldable pub add_to_bucket : ReturnLine → List RateBucket → List RateBucket
add_to_bucket l [] = record { gst_rate = l.gst_rate; totals = add_line zero_totals l } ∷ []
add_to_bucket l (b ∷ bs) =
    if eqb_ℤ l.gst_rate b.gst_rate
    then record b { totals = add_line b.totals l } ∷ bs
    else b ∷ add_to_bucket l bs

unfoldable pub fill_buckets : List RateBucket → List ReturnLine → List RateBucket
fill_buckets bs [] = bs
fill_buckets bs (l ∷ ls) = fill_buckets (add_to_bucket l bs) ls

abbrev pub lower_rate : RateBucket → RateBucket → Bool
lower_rate a b = ltb_ℤ a.gst_rate b.gst_rate

-- `_bucket_by_rate`
unfoldable pub bucket_by_rate : List ReturnLine → List RateBucket
bucket_by_rate ls = sorted_by lower_rate (fill_buckets [] ls)

-- The value of a key of `grouped`: the invoices in order, the first one apart.
pub record Counterparty : Type 0 where
  pub key : Text
  pub first : ReturnInvoice
  pub rest : List ReturnInvoice

-- `bool(inv.counterparty_gstin)`, and `or` between texts.
abbrev pub is_given : Option Text → Bool
is_given none = false
is_given (some t) = not (is_empty t)

abbrev pub text_or : Option Text → Text → Text
text_or none d = d
text_or (some t) d = if is_empty t then d else t

abbrev pub counterparty_key : ReturnInvoice → Text
counterparty_key inv =
    text_or inv.counterparty_gstin (text_or inv.place_of_supply (codes "unregistered"))

-- `grouped[key].append(inv)`
unfoldable pub add_to_group : Text → ReturnInvoice → List Counterparty → List Counterparty
add_to_group k inv [] = record { key = k; first = inv; rest = [] } ∷ []
add_to_group k inv (c ∷ cs) =
    if text_eq k c.key
    then record c { rest = c.rest ++ (inv ∷ []) } ∷ cs
    else c ∷ add_to_group k inv cs

abbrev same_bool : Bool → Bool → Bool
same_bool true b = b
same_bool false b = not b

unfoldable pub group_invoices : Bool → List Counterparty → List ReturnInvoice → List Counterparty
group_invoices with_gstin cs [] = cs
group_invoices with_gstin cs (inv ∷ invs) =
    group_invoices with_gstin
      (if same_bool (is_given inv.counterparty_gstin) with_gstin
        then add_to_group (counterparty_key inv) inv cs
        else cs)
      invs

abbrev pub all_lines : List ReturnInvoice → List ReturnLine
all_lines [] = []
all_lines (inv ∷ invs) = inv.lines ++ all_lines invs

pub record CounterpartyGroup : Type 0 where
  pub gstin : Option Text
  pub name : Text
  pub invoice_count : ℕ
  pub totals : TaxTotals
  pub rate_buckets : List RateBucket

unfoldable pub group_of : Counterparty → CounterpartyGroup
group_of c =
    let lines = all_lines (c.first ∷ c.rest) in
    record {
      gstin = c.first.counterparty_gstin;
      name = text_or c.first.counterparty_name c.key;
      invoice_count = length (c.first ∷ c.rest);
      totals = add_lines zero_totals lines;
      rate_buckets = bucket_by_rate lines;
    }

-- The key of the sort, from the largest value down.
abbrev pub larger_group : CounterpartyGroup → CounterpartyGroup → Bool
larger_group a b = ltb_ℤ b.totals.taxable_value a.totals.taxable_value

-- `_group_counterparties`
unfoldable pub group_counterparties : List ReturnInvoice → Bool → List CounterpartyGroup
group_counterparties invs with_gstin =
    sorted_by larger_group (map group_of (group_invoices with_gstin [] invs))

-- `_totals_for`
unfoldable pub totals_for : TaxTotals → List ReturnInvoice → TaxTotals
totals_for t [] = t
totals_for t (inv ∷ invs) = totals_for (add_lines t inv.lines) invs

pub record Gstr1Summary : Type 0 where
  pub period : Text
  pub b2b : List CounterpartyGroup
  pub b2c : List CounterpartyGroup
  pub rate_wise : List RateBucket
  pub totals : TaxTotals

abbrev pub has_direction : Text → ReturnInvoice → Bool
has_direction d inv = text_eq inv.direction d

abbrev pub sales_of : List ReturnInvoice → List ReturnInvoice
sales_of invs = select (has_direction (codes "sales")) invs

abbrev pub purchases_of : List ReturnInvoice → List ReturnInvoice
purchases_of invs = select (has_direction (codes "purchase")) invs

unfoldable pub build_gstr1 : Text → List ReturnInvoice → Gstr1Summary
build_gstr1 period invs =
    let sales = sales_of invs in
    record {
      period = period;
      b2b = group_counterparties sales true;
      b2c = group_counterparties sales false;
      rate_wise = bucket_by_rate (all_lines sales);
      totals = totals_for zero_totals sales;
    }

pub record NetTax : Type 0 where
  pub cgst : Decimal
  pub sgst : Decimal
  pub igst : Decimal
  pub cess : Decimal
  pub total_tax : Decimal

pub record Gstr3bSummary : Type 0 where
  pub period : Text
  pub outward_taxable : TaxTotals
  pub inward_itc : TaxTotals
  pub net_tax_payable : NetTax

unfoldable pub build_gstr3b : Text → List ReturnInvoice → Gstr3bSummary
build_gstr3b period invs =
    let outward = totals_for zero_totals (sales_of invs) in
    let itc = totals_for zero_totals (purchases_of invs) in
    let net_cgst = max_ℤ (outward.cgst -ℤ itc.cgst) (pos 0) in
    let net_sgst = max_ℤ (outward.sgst -ℤ itc.sgst) (pos 0) in
    let net_igst = max_ℤ (outward.igst -ℤ itc.igst) (pos 0) in
    let net_cess = max_ℤ (outward.cess -ℤ itc.cess) (pos 0) in
    record {
      period = period;
      outward_taxable = outward;
      inward_itc = itc;
      net_tax_payable = record {
        cgst = net_cgst;
        sgst = net_sgst;
        igst = net_igst;
        cess = net_cess;
        total_tax = net_cgst +ℤ net_sgst +ℤ net_igst +ℤ net_cess;
      };
    }

-- A data row of the CSV, below its header.
pub record CsvRow : Type 0 where
  pub section : Text
  pub counterparty_gstin : Text
  pub counterparty_name : Text
  pub bucket : RateBucket

unfoldable pub group_rows : Text → CounterpartyGroup → List RateBucket → List CsvRow
group_rows section g [] = []
group_rows section g (b ∷ bs) =
    record {
      section = section;
      counterparty_gstin = text_or g.gstin [];
      counterparty_name = g.name;
      bucket = b;
    }
    ∷ group_rows section g bs

unfoldable pub section_rows : Text → List CounterpartyGroup → List CsvRow
section_rows section [] = []
section_rows section (g ∷ gs) = group_rows section g g.rate_buckets ++ section_rows section gs

-- `gstr1_to_csv_rows`
unfoldable pub gstr1_to_csv_rows : Gstr1Summary → List CsvRow
gstr1_to_csv_rows s = section_rows (codes "B2B") s.b2b ++ section_rows (codes "B2C") s.b2c
