-- ===== src/Accounting/Voucher.antt =====
-- `EntryInput`, `validate_balanced` and `opening_net`.
use gst_ai_copilot.Base.{
  ◌≤◌, ◌≡◌, ◌↔◌, Bool, true, false, List, [], ◌∷◌, map, arith, ltb, length, select, any, All, pos,
  Decimal, ◌-ℤ◌, ◌≤ℤ◌, ltb_ℤ, leb_ℤ, negate, abs, sum, Result, ok, ◌>>◌, raise_if, refl,
}

pub data Side : Type 0 where
  debit credit : Side

abbrev pub is_debit : Side → Bool
is_debit debit = true
is_debit credit = false

abbrev pub is_credit : Side → Bool
is_credit debit = false
is_credit credit = true

pub record EntryInput : Type 0 where
  pub side : Side
  pub amount : Decimal

pub data VoucherError : Type 0 where
  too_few_entries not_positive unbalanced : VoucherError

-- One paisa, `_TOLERANCE`.
abbrev pub tolerance : Decimal
tolerance = pos 100

abbrev pub amounts : List EntryInput → List Decimal
amounts es = map (λ e. e.amount) es

-- Σ of the entries of one side.
unfoldable pub side_total : (Side → Bool) → List EntryInput → Decimal
side_total p es = sum (amounts (select (λ e. p e.side) es))

unfoldable pub validate_balanced : List EntryInput → Result VoucherError (Unit {0})
validate_balanced es = do
  raise_if (ltb (length es) 2) too_few_entries
  raise_if (any (λ e. leb_ℤ e.amount (pos 0)) es) not_positive
  raise_if (ltb_ℤ tolerance (abs (side_total is_debit es -ℤ side_total is_credit es))) unbalanced

-- The amount of a balance as a net: positive on the debit side.
unfoldable pub opening_net : Decimal → Side → Decimal
opening_net amount debit = amount
opening_net amount credit = negate amount

abbrev pub IsPositive : EntryInput → Type 0
IsPositive e = pos 1 ≤ℤ e.amount

IsPositive-iff :
    (es : List EntryInput) → (any (λ e. leb_ℤ e.amount (pos 0)) es ≡ false) ↔ All IsPositive es
IsPositive-iff [] = ((λ h. tt), (λ h. refl))
IsPositive-iff (e ∷ es) =
    ((λ h. ground (arith, (IsPositive-iff es).0)), (λ h. ground (arith, (IsPositive-iff es).1 h.1)))

-- A voucher is accepted exactly when it has two entries or more, all of them positive, and its
-- debits and credits differ by a paisa at most.
pub validate_balanced_iff :
    (es : List EntryInput)
    → (validate_balanced es ≡ ok tt) ↔ (
        (2 ≤ length es)
        × All IsPositive es
        × (abs (side_total is_debit es -ℤ side_total is_credit es) ≤ℤ tolerance))
unfolding validate_balanced
validate_balanced_iff es =
    ((λ h. ground (arith, (IsPositive-iff es).0)), (λ h. ground (arith, (IsPositive-iff es).1 h.1)))
