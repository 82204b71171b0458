-- ===== src/Reconciliation.antt =====
-- backend/app/rules/gstr_reconciliation.py: purchase invoices against the rows of a GSTR-2A/2B
-- extract. A Python dict is an association list in the order of insertion.
pub mod Groups
mod Weights
pub mod Coverage
pub mod Pairing
pub mod Summary
mod Tests
use gst_ai_copilot.Base.{
  ℕ, ◌+◌, Bool, true, false, ◌&&◌, ◌||◌, not, Option, none, some, List, [], ◌∷◌, ◌++◌, map, ℤ, pos,
  Decimal, ◌+ℤ◌, ◌-ℤ◌, ltb_ℤ, leb_ℤ, abs, max_ℤ, Text, text_eq, strip, upper, is_digit, is_upper,
  is_empty, select, length, drop, if◌then◌else◌,
}

pub data MatchStatus : Type 0 where
  matched mismatch missing_in_return missing_in_books : MatchStatus

abbrev pub or_empty : Option Text → Text
or_empty none = []
or_empty (some s) = s

-- `_normalize_gstin`
unfoldable pub normalize_gstin : Option Text → Text
normalize_gstin g = upper (strip (or_empty g))

-- `_normalize_invoice_number`
unfoldable pub normalize_invoice_number : Option Text → Text
normalize_invoice_number n = select (λ c. is_upper c || is_digit c) (upper (strip (or_empty n)))

abbrev pub Key : Type 0
Key = Text × Text

-- `_match_key`
unfoldable pub match_key : Option Text → Option Text → Key
match_key gstin number = (normalize_gstin gstin, normalize_invoice_number number)

abbrev pub key_eq : Key → Key → Bool
key_eq j k = text_eq j.0 k.0 && text_eq j.1 k.1

pub record BookInvoice : Type 0 where
  pub invoice_id : Text
  pub supplier_gstin : Option Text
  pub invoice_number : Option Text
  pub invoice_date : Option Text
  pub taxable_value : Decimal
  pub total_tax : Decimal

pub record ReturnRecord : Type 0 where
  pub record_id : Text
  pub supplier_gstin : Option Text
  pub supplier_name : Option Text
  pub invoice_number : Option Text
  pub invoice_date : Option Text
  pub taxable_value : Decimal
  pub total_tax : Decimal

-- The sentences of `reasons`, with the amounts that they quote.
pub data Reason : Type 0 where
  book_without_number record_without_number not_in_return not_in_books : Reason
  duplicate_book duplicate_record : Reason
  taxable_differs tax_differs : Decimal → Decimal → Reason

pub record ReconciliationResult : Type 0 where
  pub status : MatchStatus
  pub supplier_gstin : Option Text
  pub invoice_number : Option Text
  pub invoice_date : Option Text
  pub book_invoice_id : Option Text
  pub return_record_id : Option Text
  pub book_taxable_value : Option Decimal
  pub book_tax : Option Decimal
  pub return_taxable_value : Option Decimal
  pub return_tax : Option Decimal
  pub taxable_value_difference : Decimal
  pub tax_difference : Decimal
  pub itc_at_risk : Decimal
  pub reasons : List Reason

-- `_missing_in_return`
abbrev pub report_missing_in_return : Reason → BookInvoice → ReconciliationResult
report_missing_in_return reason inv = record {
  status = missing_in_return;
  supplier_gstin = inv.supplier_gstin;
  invoice_number = inv.invoice_number;
  invoice_date = inv.invoice_date;
  book_invoice_id = some inv.invoice_id;
  return_record_id = none;
  book_taxable_value = some inv.taxable_value;
  book_tax = some inv.total_tax;
  return_taxable_value = none;
  return_tax = none;
  taxable_value_difference = inv.taxable_value;
  tax_difference = inv.total_tax;
  itc_at_risk = inv.total_tax;
  reasons = reason ∷ [];
}

-- `_missing_in_books`
abbrev pub report_missing_in_books : Reason → ReturnRecord → ReconciliationResult
report_missing_in_books reason rec = record {
  status = missing_in_books;
  supplier_gstin = rec.supplier_gstin;
  invoice_number = rec.invoice_number;
  invoice_date = rec.invoice_date;
  book_invoice_id = none;
  return_record_id = some rec.record_id;
  book_taxable_value = none;
  book_tax = none;
  return_taxable_value = some rec.taxable_value;
  return_tax = some rec.total_tax;
  taxable_value_difference = rec.taxable_value;
  tax_difference = rec.total_tax;
  itc_at_risk = pos 0;
  reasons = reason ∷ [];
}

-- The two tolerances of `reconcile`.
pub record Tolerances : Type 0 where
  pub taxable_value : Decimal
  pub tax : Decimal

abbrev pub default_tolerances : Tolerances
default_tolerances = record { taxable_value = pos 10_000; tax = pos 10_000 }

abbrev differing : Tolerances → BookInvoice → ReturnRecord → List Reason
differing tol inv rec =
    (if ltb_ℤ tol.taxable_value (abs (inv.taxable_value -ℤ rec.taxable_value))
      then taxable_differs inv.taxable_value rec.taxable_value ∷ []
      else [])
    ++ (if ltb_ℤ tol.tax (abs (inv.total_tax -ℤ rec.total_tax))
        then tax_differs inv.total_tax rec.total_tax ∷ []
        else [])

-- The body of the loop over an invoice and the record of the same place.
unfoldable pub compare_pair : Tolerances → BookInvoice → ReturnRecord → ReconciliationResult
compare_pair tol inv rec =
    let taxable_diff = abs (inv.taxable_value -ℤ rec.taxable_value) in
    let tax_diff = abs (inv.total_tax -ℤ rec.total_tax) in
    let within = leb_ℤ taxable_diff tol.taxable_value && leb_ℤ tax_diff tol.tax in
    record {
      status = if within then matched else mismatch;
      supplier_gstin = inv.supplier_gstin;
      invoice_number = inv.invoice_number;
      invoice_date = inv.invoice_date;
      book_invoice_id = some inv.invoice_id;
      return_record_id = some rec.record_id;
      book_taxable_value = some inv.taxable_value;
      book_tax = some inv.total_tax;
      return_taxable_value = some rec.taxable_value;
      return_tax = some rec.total_tax;
      taxable_value_difference = taxable_diff;
      tax_difference = tax_diff;
      itc_at_risk = if within then pos 0 else max_ℤ (inv.total_tax -ℤ rec.total_tax) (pos 0);
      reasons = if within then [] else differing tol inv rec;
    }

-- The dict and the list that a grouping loop fills.
pub record Grouped (A : Type 0) : Type 0 where
  pub by_key : List (Key × List A)
  pub unmatchable : List A

module _ {A : Type 0} where
  -- `groups.get(key)`
  unfoldable pub get_group : Key → List (Key × List A) → Option (List A)
  get_group k [] = none
  get_group k ((j, xs) ∷ d) = if key_eq k j then some xs else get_group k d

  -- `groups.setdefault(key, []).append(x)`
  unfoldable pub append_to : Key → A → List (Key × List A) → List (Key × List A)
  append_to k x [] = (k, x ∷ []) ∷ []
  append_to k x ((j, xs) ∷ d) =
      if key_eq k j then (j, xs ++ (x ∷ [])) ∷ d else (j, xs) ∷ append_to k x d

  -- One round of the grouping loops: a blank invoice number cannot be matched.
  unfoldable pub group_step : (A → Key) → A → Grouped A → Grouped A
  group_step key_of x g =
      if is_empty (key_of x).1
      then record g { unmatchable = g.unmatchable ++ (x ∷ []) }
      else record g { by_key = append_to (key_of x) x g.by_key }

  unfoldable pub group_from : (A → Key) → Grouped A → List A → Grouped A
  group_from key_of g [] = g
  group_from key_of g (x ∷ xs) = group_from key_of (group_step key_of x g) xs

  unfoldable pub group_by_key : (A → Key) → List A → Grouped A
  group_by_key key_of xs = group_from key_of (record { by_key = []; unmatchable = [] }) xs

abbrev pub book_key : BookInvoice → Key
book_key inv = match_key inv.supplier_gstin inv.invoice_number

abbrev pub record_key : ReturnRecord → Key
record_key rec = match_key rec.supplier_gstin rec.invoice_number

-- `for inv, rec in zip(invs, recs)`
unfoldable pub compare_pairs :
    Tolerances → List BookInvoice → List ReturnRecord → List ReconciliationResult
compare_pairs tol [] recs = []
compare_pairs tol (inv ∷ invs) [] = []
compare_pairs tol (inv ∷ invs) (rec ∷ recs) = compare_pair tol inv rec ∷ compare_pairs tol invs recs

-- The rows of one key that both sides have.
unfoldable pub reconcile_group :
    Tolerances → List BookInvoice → List ReturnRecord → List ReconciliationResult
reconcile_group tol invs recs =
    compare_pairs tol invs recs
    ++ (map (report_missing_in_return duplicate_book) (drop (length recs) invs)
        ++ map (report_missing_in_books duplicate_record) (drop (length invs) recs))

abbrev pub or_nil : {A : Type 0} → Option (List A) → List A
or_nil none = []
or_nil (some xs) = xs

-- The loop over `books_by_key`: its results, and the keys that it adds to `matched_keys`.
unfoldable pub match_books :
    Tolerances
    → List (Key × List ReturnRecord)
    → List (Key × List BookInvoice)
    → List ReconciliationResult × List Key
match_books tol records [] = ([], [])
match_books tol records ((k, invs) ∷ books) =
    let (rest, keys) = match_books tol records books in
    let recs = or_nil (get_group k records) in
    if is_empty recs
    then (map (report_missing_in_return not_in_return) invs ++ rest, keys)
    else (reconcile_group tol invs recs ++ rest, k ∷ keys)

-- `key in matched_keys`
unfoldable pub has_key : Key → List Key → Bool
has_key k [] = false
has_key k (j ∷ keys) = key_eq k j || has_key k keys

-- The loop over `records_by_key` for the keys that were not matched.
unfoldable pub leftover_records :
    List Key → List (Key × List ReturnRecord) → List ReconciliationResult
leftover_records keys [] = []
leftover_records keys ((k, recs) ∷ records) =
    if has_key k keys
    then leftover_records keys records
    else map (report_missing_in_books not_in_books) recs ++ leftover_records keys records

unfoldable pub reconcile :
    Tolerances → List BookInvoice → List ReturnRecord → List ReconciliationResult
reconcile tol book_invoices return_records =
    let books = group_by_key book_key book_invoices in
    let records = group_by_key record_key return_records in
    let (matching, keys) = match_books tol records.by_key books.by_key in
    map (report_missing_in_return book_without_number) books.unmatchable
    ++ (map (report_missing_in_books record_without_number) records.unmatchable
        ++ (matching ++ leftover_records keys records.by_key))

pub record ReconciliationSummary : Type 0 where
  pub total_book_invoices : ℕ
  pub total_return_records : ℕ
  pub matched : ℕ
  pub mismatch : ℕ
  pub missing_in_return : ℕ
  pub missing_in_books : ℕ
  pub itc_at_risk : Decimal
  pub potential_unclaimed_itc : Decimal

-- `counts[r.status] += 1`
abbrev count_status : MatchStatus → ReconciliationSummary → ReconciliationSummary
count_status MatchStatus.matched s = record s { matched = s.matched + 1 }
count_status MatchStatus.mismatch s = record s { mismatch = s.mismatch + 1 }
count_status MatchStatus.missing_in_return s = record s {
  missing_in_return = s.missing_in_return + 1;
}
count_status MatchStatus.missing_in_books s = record s { missing_in_books = s.missing_in_books + 1 }

abbrev or_zero : Option Decimal → Decimal
or_zero none = pos 0
or_zero (some d) = d

abbrev is_there : Option Text → ℕ
is_there none = 0
is_there (some t) = 1

abbrev unclaimed : MatchStatus → Option Decimal → Decimal
unclaimed MatchStatus.missing_in_books tax = or_zero tax
unclaimed _ tax = pos 0

-- One round of the loop of `summarize`.
unfoldable pub summary_step : ReconciliationResult → ReconciliationSummary → ReconciliationSummary
summary_step r s =
    let c = count_status r.status s in
    record c {
      total_book_invoices = s.total_book_invoices + is_there r.book_invoice_id;
      total_return_records = s.total_return_records + is_there r.return_record_id;
      itc_at_risk = s.itc_at_risk +ℤ r.itc_at_risk;
      potential_unclaimed_itc = s.potential_unclaimed_itc +ℤ unclaimed r.status r.return_tax;
    }

unfoldable pub summarize_from :
    ReconciliationSummary → List ReconciliationResult → ReconciliationSummary
summarize_from s [] = s
summarize_from s (r ∷ rs) = summarize_from (summary_step r s) rs

abbrev pub no_results : ReconciliationSummary
no_results = record {
  total_book_invoices = 0;
  total_return_records = 0;
  matched = 0;
  mismatch = 0;
  missing_in_return = 0;
  missing_in_books = 0;
  itc_at_risk = pos 0;
  potential_unclaimed_itc = pos 0;
}

unfoldable pub summarize : List ReconciliationResult → ReconciliationSummary
summarize rs = summarize_from no_results rs
