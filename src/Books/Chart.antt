-- ===== src/Books/Chart.antt =====
-- backend/app/services/accounting_service.py: `ensure_chart_of_accounts` and the default chart.
use gst_ai_copilot.Base.{
  ℕ, suc, ◌==◌, Bool, true, false, ◌&&◌, none, some, List, [], ◌∷◌, ◌++◌, any, find, Text, codes,
  text_eq, pos, Result, ok, err, if◌then◌else◌,
}
use gst_ai_copilot.Accounting.Voucher.{debit}
use gst_ai_copilot.Accounting.Lines.{Nature, asset, liability, income, expense}
use gst_ai_copilot.Books.{LedgerGroup, Ledger, Db, BooksError, key_error}

-- A row of `_DEFAULT_GROUPS`.
pub record GroupRow : Type 0 where
  pub name : Text
  pub nature : Nature
  pub classification : Text
  pub sort_order : ℕ

abbrev pub group_row : Text → Nature → Text → ℕ → GroupRow
group_row name nature classification sort_order = record {
  name = name;
  nature = nature;
  classification = classification;
  sort_order = sort_order;
}

abbrev pub default_groups : List GroupRow
default_groups =
    group_row (codes "Capital Account") liability (codes "capital") 10
    ∷ group_row (codes "Current Liabilities") liability (codes "current_liability") 20
    ∷ group_row (codes "Sundry Creditors") liability (codes "payable") 21
    ∷ group_row (codes "Duties & Taxes") liability (codes "duties_taxes") 22
    ∷ group_row (codes "Loans (Liability)") liability (codes "current_liability") 25
    ∷ group_row (codes "Fixed Assets") asset (codes "fixed_asset") 40
    ∷ group_row (codes "Current Assets") asset (codes "current_asset") 50
    ∷ group_row (codes "Bank Accounts") asset (codes "bank") 51
    ∷ group_row (codes "Cash-in-hand") asset (codes "cash") 52
    ∷ group_row (codes "Sundry Debtors") asset (codes "receivable") 53
    ∷ group_row (codes "Sales Accounts") income (codes "sales") 60
    ∷ group_row (codes "Direct Incomes") income (codes "direct_income") 61
    ∷ group_row (codes "Indirect Incomes") income (codes "indirect_income") 62
    ∷ group_row (codes "Purchase Accounts") expense (codes "purchase") 70
    ∷ group_row (codes "Direct Expenses") expense (codes "direct_expense") 71
    ∷ group_row (codes "Indirect Expenses") expense (codes "indirect_expense") 72
    ∷ []

-- The name of a ledger and of its group.
abbrev pub default_ledgers : List (Text × Text)
default_ledgers =
    (codes "Cash", codes "Cash-in-hand")
    ∷ (codes "Bank Account", codes "Bank Accounts")
    ∷ (codes "Sales", codes "Sales Accounts")
    ∷ (codes "Purchase", codes "Purchase Accounts")
    ∷ (codes "Output CGST", codes "Duties & Taxes")
    ∷ (codes "Output SGST", codes "Duties & Taxes")
    ∷ (codes "Output IGST", codes "Duties & Taxes")
    ∷ (codes "Output CESS", codes "Duties & Taxes")
    ∷ (codes "Input CGST", codes "Duties & Taxes")
    ∷ (codes "Input SGST", codes "Duties & Taxes")
    ∷ (codes "Input IGST", codes "Duties & Taxes")
    ∷ (codes "Input CESS", codes "Duties & Taxes")
    ∷ (codes "Round Off", codes "Indirect Expenses")
    ∷ (codes "Opening Balance Equity", codes "Capital Account")
    ∷ []

abbrev pub has_name : ℕ → Text → Ledger → Bool
has_name org name l = (l.organization_id == org) && text_eq l.name name

abbrev pub is_group : ℕ → Text → LedgerGroup → Bool
is_group org name g = (g.organization_id == org) && text_eq g.name name

abbrev pub add_ledger : Ledger → Db → Db
add_ledger l db = record db { ledgers = db.ledgers ++ (l ∷ []); next_id = suc db.next_id }

abbrev pub add_group : ℕ → GroupRow → Db → Db
add_group org d db = record db {
  groups =
      db.groups
      ++ (record {
        id = db.next_id;
        organization_id = org;
        name = d.name;
        nature = d.nature;
        classification = d.classification;
        is_system = true;
        sort_order = d.sort_order;
      }
          ∷ []);
  next_id = suc db.next_id;
}

-- The loop over `_DEFAULT_GROUPS`. A group that is added joins `existing_groups`.
unfoldable pub add_groups : ℕ → List GroupRow → Db → Db
add_groups org [] db = db
add_groups org (d ∷ ds) db =
    add_groups org ds (if any (is_group org d.name) db.groups then db else add_group org d db)

abbrev pub system_ledger : ℕ → Text → ℕ → ℕ → Ledger
system_ledger i name group_id org = record {
  id = i;
  organization_id = org;
  name = name;
  group_id = group_id;
  opening_balance = pos 0;
  opening_side = debit;
  gstin = none;
  is_system = true;
  party_type = none;
  party_id = none;
  notes = none;
}

-- The loop over `_DEFAULT_LEDGERS`; `existing` is what was there before it.
unfoldable pub add_ledgers : ℕ → List Ledger → List (Text × Text) → Db → Result BooksError Db
add_ledgers org existing [] db = ok db
add_ledgers org existing ((name, group_name) ∷ ds) db = elim (any (has_name org name) existing) [
  | true ↦ add_ledgers org existing ds db
  | false ↦ elim (find (is_group org group_name) db.groups) [
    | none ↦ err (key_error group_name)
    | some g ↦ add_ledgers org existing ds (add_ledger (system_ledger db.next_id name g.id org) db)
  ]
]

-- `ensure_chart_of_accounts`
unfoldable pub ensure_chart_of_accounts : ℕ → Db → Result BooksError Db
ensure_chart_of_accounts org before =
    let db = add_groups org default_groups before in add_ledgers org db.ledgers default_ledgers db
