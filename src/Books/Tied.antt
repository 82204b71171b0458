-- ===== src/Books/Tied.antt =====
-- The trial balance that the service reports on books that its own calls made.
use gst_ai_copilot.Base.{
  ℕ, ◌*◌, ◌≡◌, [], map, select, length, Text, Decimal, pos, ◌+ℤ◌, ◌-ℤ◌, ◌≤ℤ◌, abs, sum,
}
use gst_ai_copilot.Accounting.TrialBalance.{TrialBalance}
use gst_ai_copilot.Books.{Voucher, Db}
use gst_ai_copilot.Books.Reports.Ties.{opening_of, of_org, is_counted}

-- Books with nothing in them.
abbrev pub new_books : Db
new_books = record { groups = []; ledgers = []; vouchers = []; next_id = 0 }

-- What the trial balance of a day is off by: the opening balances, and a paisa at most for each
-- voucher.
pub record IsTied (org : ℕ) (db : Db) (day : Text) (tb : TrialBalance) : Type 0 where
  pub rest : Decimal
  pub difference :
      tb.total_debit -ℤ tb.total_credit ≡ sum (map opening_of (of_org org db.ledgers)) +ℤ rest
  pub small : abs rest ≤ℤ pos (100 * length (select (is_counted org day) db.vouchers))
