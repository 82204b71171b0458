-- ===== src/Books/Tests.antt =====
-- A sale of 100 rupees with two taxes is posted to a small chart of accounts.
use gst_ai_copilot.Base.{
  length, select, sorted_by, text_ltb, ℕ, ◌≤◌, ◌≤ℤ◌, ◌≡◌, refl, none, some, true, false, List, [],
  ◌∷◌, find, Text, codes, text_eq, strip, lstrip, is_space, lower, to_lower, pos, Result, ok, err,
  All, arith, sum, ◌+ℤ◌, ◌-ℤ◌, In,
}
use gst_ai_copilot.Accounting.Voucher.{Side, debit, credit, validate_balanced, side_total}
use gst_ai_copilot.Accounting.Lines.{
  Nature, asset, liability, income, expense, LedgerLine, closing_net,
}
use gst_ai_copilot.Filing.{sales}
use gst_ai_copilot.Books.{
  LedgerGroup, Ledger, Voucher, journal, Db, PostedInvoice, EntryDraft, BooksError, already_posted,
  integrity_error, many_rows,
}
use gst_ai_copilot.Books.Chart.{ensure_chart_of_accounts, add_groups, add_ledgers}
use gst_ai_copilot.Books.Charted.{IsSetUp, ensure_chart_of_accounts-IsSetUp}
use gst_ai_copilot.Books.Posting.{party_name, post_invoice-ok}
use gst_ai_copilot.Books.Tied.{new_books}
use gst_ai_copilot.Books.Reports.{
  ledger_lines, lines_of, line_of, list_ledgers, entries_of, is_before, is_within, get_ledger,
  epoch,
}
use gst_ai_copilot.Books.Reports.Sums.{AreLines, ledger_lines-AreLines}
use gst_ai_copilot.Books.Statements.{statement_report}
use gst_ai_copilot.Books.Statements.Closing.{statement_report-closing_net}
use gst_ai_copilot.Accounting.TrialBalance.{TrialBalance}
use gst_ai_copilot.Accounting.Statement.{LedgerStatement}
use gst_ai_copilot.Books.Vouchers.{
  new_party, same_name, create_ledger, party_ledger, named_party, post_invoice, post_on_chart,
  invoice_entries, ledger_by_name, tax_legs, totals_of, grand_total, create_voucher, new_voucher,
  is_owned,
}
use gst_ai_copilot.Books.Balanced.{IsEven, invoice_entries-IsEven}
use gst_ai_copilot.Books.Runs.{Steps, done, more, posts, postings, posted_once}

abbrev group : ℕ → Text → Nature → Text → ℕ → LedgerGroup
group i name nature classification sort_order = record {
  id = i;
  organization_id = 7;
  name = name;
  nature = nature;
  classification = classification;
  is_system = true;
  sort_order = sort_order;
}

abbrev ledger : ℕ → Text → ℕ → Ledger
ledger i name group_id = record {
  id = i;
  organization_id = 7;
  name = name;
  group_id = group_id;
  opening_balance = pos 0;
  opening_side = debit;
  gstin = none;
  is_system = true;
  party_type = none;
  party_id = none;
  notes = none;
}

abbrev empty_books : Db
empty_books = new_books

abbrev chart_db : Db
chart_db = record {
  groups =
      group 0 (codes "Capital Account") liability (codes "capital") 10
      ∷ group 1 (codes "Current Liabilities") liability (codes "current_liability") 20
      ∷ group 2 (codes "Sundry Creditors") liability (codes "payable") 21
      ∷ group 3 (codes "Duties & Taxes") liability (codes "duties_taxes") 22
      ∷ group 4 (codes "Loans (Liability)") liability (codes "current_liability") 25
      ∷ group 5 (codes "Fixed Assets") asset (codes "fixed_asset") 40
      ∷ group 6 (codes "Current Assets") asset (codes "current_asset") 50
      ∷ group 7 (codes "Bank Accounts") asset (codes "bank") 51
      ∷ group 8 (codes "Cash-in-hand") asset (codes "cash") 52
      ∷ group 9 (codes "Sundry Debtors") asset (codes "receivable") 53
      ∷ group 10 (codes "Sales Accounts") income (codes "sales") 60
      ∷ group 11 (codes "Direct Incomes") income (codes "direct_income") 61
      ∷ group 12 (codes "Indirect Incomes") income (codes "indirect_income") 62
      ∷ group 13 (codes "Purchase Accounts") expense (codes "purchase") 70
      ∷ group 14 (codes "Direct Expenses") expense (codes "direct_expense") 71
      ∷ group 15 (codes "Indirect Expenses") expense (codes "indirect_expense") 72
      ∷ [];
  ledgers =
      ledger 16 (codes "Cash") 8
      ∷ ledger 17 (codes "Bank Account") 7
      ∷ ledger 18 (codes "Sales") 10
      ∷ ledger 19 (codes "Purchase") 13
      ∷ ledger 20 (codes "Output CGST") 3
      ∷ ledger 21 (codes "Output SGST") 3
      ∷ ledger 22 (codes "Output IGST") 3
      ∷ ledger 23 (codes "Output CESS") 3
      ∷ ledger 24 (codes "Input CGST") 3
      ∷ ledger 25 (codes "Input SGST") 3
      ∷ ledger 26 (codes "Input IGST") 3
      ∷ ledger 27 (codes "Input CESS") 3
      ∷ ledger 28 (codes "Round Off") 15
      ∷ ledger 29 (codes "Opening Balance Equity") 0
      ∷ [];
  vouchers = [];
  next_id = 30;
}

charted : ensure_chart_of_accounts 7 empty_books ≡ ok chart_db
unfolding ensure_chart_of_accounts add_groups add_ledgers find text_eq
charted = refl

abbrev sale : PostedInvoice
sale = record {
  id = 99;
  direction = sales;
  invoice_number = some (codes "INV-1");
  invoice_date = some (codes "2026-03-05");
  buyer_name = some (codes " Asha Traders ");
  supplier_name = none;
  buyer_gstin = none;
  supplier_gstin = none;
  customer_id = none;
  vendor_id = none;
  items =
      record {
        taxable_value = pos 1_000_000;
        gst_rate = pos 180_000;
        cgst = pos 90_000;
        sgst = pos 90_000;
        igst = pos 0;
        cess = pos 0;
      }
      ∷ [];
}

abbrev show : ℕ → Text
show i = i ∷ []

abbrev today : Text
today = codes "2026-03-31"

abbrev or_chart : Result BooksError Db → Db
or_chart (ok db) = db
or_chart (err e) = chart_db

abbrev db1 : Db
db1 = or_chart (post_on_chart show today 7 3 sale chart_db)

posted_on_chart : post_on_chart show today 7 3 sale chart_db ≡ ok db1
unfolding post_on_chart party_ledger named_party invoice_entries ledger_by_name tax_legs
    create_voucher validate_balanced is_owned side_total sum find strip lstrip is_space lower
    to_lower text_eq ◌+ℤ◌ ◌-ℤ◌
posted_on_chart = refl

posted : post_invoice show today 7 3 sale empty_books ≡ ok db1
unfolding post_invoice
posted = rw charted posted_on_chart

posted_again : post_on_chart show today 7 3 sale db1 ≡ err already_posted
unfolding post_on_chart party_ledger named_party invoice_entries ledger_by_name tax_legs
    create_voucher new_voucher validate_balanced is_owned side_total sum find strip lstrip is_space
    lower to_lower text_eq ◌+ℤ◌ ◌-ℤ◌
posted_again = refl

sale-Steps : Steps show today empty_books db1
sale-Steps = more (done empty_books) (posts 7 3 sale empty_books db1 posted)

none_before : postings 7 99 empty_books.vouchers ≤ 1
none_before = omega arith

posted_once_example : postings 7 99 db1.vouchers ≤ 1
posted_once_example = posted_once show today 7 99 sale-Steps none_before

abbrev or_nil : Result BooksError (List EntryDraft) → List EntryDraft
or_nil (ok es) = es
or_nil (err e) = []

abbrev sale_entries : List EntryDraft
sale_entries = or_nil (invoice_entries 7 sales (totals_of sale.items) 30 chart_db)

entries_made : invoice_entries 7 sales (totals_of sale.items) 30 chart_db ≡ ok sale_entries
unfolding invoice_entries ledger_by_name tax_legs sum find text_eq ◌+ℤ◌
entries_made = refl

value_above : pos 1 ≤ℤ (totals_of sale.items).taxable
unfolding sum ◌+ℤ◌
value_above = omega arith

taxes_above :
    let t = totals_of sale.items in All (λ x. pos 0 ≤ℤ x) (t.cgst ∷ t.sgst ∷ t.igst ∷ t.cess ∷ [])
unfolding sum ◌+ℤ◌
taxes_above = (omega arith, (omega arith, (omega arith, (omega arith, tt))))

invoice_entries-IsEven_example : IsEven (grand_total (totals_of sale.items)) sale_entries
invoice_entries-IsEven_example =
    invoice_entries-IsEven 7 sales (totals_of sale.items) 30 chart_db value_above taxes_above
      entries_made

-- A name with blanks around it passes the check for duplicates and is then refused by the table.
refused_by_table :
    create_ledger 7 (codes " Sales ") 10 (pos 0) debit none none chart_db ≡ err integrity_error
unfolding create_ledger find strip lstrip is_space lower to_lower text_eq
refused_by_table = refl

ensure_chart_of_accounts-IsSetUp_example : (db : Db) × IsSetUp 7 empty_books db
ensure_chart_of_accounts-IsSetUp_example = ensure_chart_of_accounts-IsSetUp 7 empty_books

-- Two ledgers that differ in case only: the query for one row at most raises.
ambiguous_party :
    named_party 7
      (codes "acme")
      (codes "receivable")
      (codes "customer")
      none
      none
      (record chart_db {
        ledgers =
            new_party 101 7 (codes "Acme") 10 (codes "customer") none none
            ∷ new_party 102 7 (codes "ACME") 10 (codes "customer") none none
            ∷ [];
      })
    ≡ err many_rows
unfolding named_party lower to_lower text_eq find
ambiguous_party = refl

no_such_party : length (select (same_name 7 (party_name sale)) chart_db.ledgers) ≤ 1
unfolding lower to_lower text_eq strip lstrip is_space
no_such_party = omega arith

post_invoice-ok_example : (db : Db) × (post_invoice show today 7 3 sale empty_books ≡ ok db)
post_invoice-ok_example =
    post_invoice-ok show today 7 3 sale empty_books refl value_above taxes_above refl charted
      no_such_party

-- Two ledgers and two vouchers, one before the year and one in it.
abbrev entry : ℕ → Side → ℕ → EntryDraft
entry i side amount = record { ledger_id = i; side = side; amount = pos amount; narration = none }

abbrev voucher : ℕ → Text → List EntryDraft → Voucher
voucher i date entries = record {
  id = i;
  organization_id = 7;
  voucher_type = journal;
  voucher_number = i;
  date = date;
  narration = none;
  reference = none;
  total_amount = pos 0;
  source_invoice_id = none;
  is_auto_generated = false;
  created_by = 3;
  entries = entries;
}

abbrev small_db : Db
small_db = record {
  groups =
      group 1 (codes "Cash-in-hand") asset (codes "cash") 52
      ∷ group 2 (codes "Sales Accounts") income (codes "sales") 60
      ∷ [];
  ledgers = ledger 11 (codes "Sales") 2 ∷ ledger 12 (codes "Cash") 1 ∷ [];
  vouchers =
      voucher 21 (codes "2025-03-01") (entry 12 debit 500 ∷ entry 11 credit 500 ∷ [])
      ∷ voucher 22 (codes "2025-05-01")
          (entry 12 debit 300 ∷ entry 12 debit 40 ∷ entry 11 credit 340 ∷ [])
      ∷ [];
  next_id = 30;
}

abbrev or_no_lines : Result BooksError (List LedgerLine) → List LedgerLine
or_no_lines (ok ls) = ls
or_no_lines (err e) = []

abbrev lines_of_year : Result BooksError (List LedgerLine)
lines_of_year = ledger_lines show 7 (codes "2025-04-01") (codes "2026-03-31") true small_db

lines_made : lines_of_year ≡ ok (or_no_lines lines_of_year)
unfolding ledger_lines lines_of list_ledgers sorted_by text_ltb line_of find
lines_made = refl

ledger_lines-AreLines_example :
    AreLines show true
      (entries_of (is_before 7 (codes "2025-04-01")) small_db.vouchers)
      (entries_of (is_within 7 (codes "2025-04-01") (codes "2026-03-31")) small_db.vouchers)
      (list_ledgers 7 small_db)
      (or_no_lines lines_of_year)
ledger_lines-AreLines_example =
    ledger_lines-AreLines show 7 (codes "2025-04-01") (codes "2026-03-31") true small_db lines_made

abbrev cash : Ledger
cash = ledger 12 (codes "Cash") 1

abbrev all_lines : Result BooksError (List LedgerLine)
all_lines = ledger_lines show 7 epoch (codes "2026-03-31") true small_db

all_made : all_lines ≡ ok (or_no_lines all_lines)
unfolding ledger_lines lines_of list_ledgers sorted_by text_ltb line_of find
all_made = refl

abbrev year_statement : Result BooksError (ℕ × Text × Text × LedgerStatement)
year_statement =
    statement_report (codes "2025-04-01") 7 12 none (some (codes "2026-03-31")) small_db

abbrev statement_or_empty : Result BooksError (ℕ × Text × Text × LedgerStatement) → LedgerStatement
statement_or_empty (ok (i, first, last, st)) = st
statement_or_empty (err e) = record {
  ledger_name = [];
  opening_net = pos 0;
  txns = [];
  closing_net = pos 0;
}

statement_made :
    year_statement
    ≡ ok (12, codes "2025-04-01", codes "2026-03-31", statement_or_empty year_statement)
unfolding statement_report get_ledger find
statement_made = refl

days_in_order : text_ltb (codes "2026-03-31") (codes "2025-04-01") ≡ false
unfolding text_ltb
days_in_order = refl

days_after_epoch : text_ltb (codes "2026-03-31") epoch ≡ false
unfolding text_ltb
days_after_epoch = refl

statement_report-closing_net_example :
    (line : LedgerLine) × In line (or_no_lines all_lines)
    × (line.ledger_id ≡ show 12)
    × ((statement_or_empty year_statement).closing_net ≡ closing_net line)
statement_report-closing_net_example =
    statement_report-closing_net show (codes "2025-04-01") 7 12 none (some (codes "2026-03-31"))
      small_db statement_made all_made days_in_order days_after_epoch
