-- ===== src/Returns/Totals.antt =====
-- Every figure of the totals is a sum over the lines.
use gst_ai_copilot.Base.{
  ◌≡◌, refl, List, [], ◌∷◌, ◌++◌, map, pos, Decimal, ◌+ℤ◌, sum, sum-nil, sum-cons, int_laws,
}
use gst_ai_copilot.Returns.{
  ReturnLine, ReturnInvoice, TaxTotals, add_line, add_lines, all_lines, totals_for, zero_totals,
}

-- The five figures that a line and the totals have in common.
pub data Figure : Type 0 where
  taxable_value cgst sgst igst cess : Figure

abbrev pub of_line : Figure → ReturnLine → Decimal
of_line taxable_value l = l.taxable_value
of_line cgst l = l.cgst
of_line sgst l = l.sgst
of_line igst l = l.igst
of_line cess l = l.cess

abbrev pub of_totals : Figure → TaxTotals → Decimal
of_totals taxable_value t = t.taxable_value
of_totals cgst t = t.cgst
of_totals sgst t = t.sgst
of_totals igst t = t.igst
of_totals cess t = t.cess

abbrev pub line_sum : Figure → List ReturnLine → Decimal
line_sum f ls = sum (map (of_line f) ls)

pub of_zero_totals : (f : Figure) → of_totals f zero_totals ≡ pos 0
of_zero_totals taxable_value = refl
of_zero_totals cgst = refl
of_zero_totals sgst = refl
of_zero_totals igst = refl
of_zero_totals cess = refl

pub of_add_line :
    (f : Figure) (t : TaxTotals) (l : ReturnLine)
    → of_totals f (add_line t l) ≡ of_totals f t +ℤ of_line f l
unfolding add_line
of_add_line taxable_value t l = refl
of_add_line cgst t l = refl
of_add_line sgst t l = refl
of_add_line igst t l = refl
of_add_line cess t l = refl

pub of_add_lines :
    (f : Figure) (t : TaxTotals) (ls : List ReturnLine)
    → of_totals f (add_lines t ls) ≡ of_totals f t +ℤ line_sum f ls
unfolding add_lines
of_add_lines f t [] = rw sum-nil (omega int_laws)
of_add_lines f t (l ∷ ls) =
    rw
      (
        of_add_lines f (add_line t l) ls,
        of_add_line f t l,
        sum-cons (of_line f l) (map (of_line f) ls),
      )
      (omega int_laws)

pub line_sum-append :
    (f : Figure) (ls ms : List ReturnLine) → line_sum f (ls ++ ms) ≡ line_sum f ls +ℤ line_sum f ms
line_sum-append f [] ms = rw sum-nil (omega int_laws)
line_sum-append f (l ∷ ls) ms =
    rw
      (
        sum-cons (of_line f l) (map (of_line f) (ls ++ ms)),
        sum-cons (of_line f l) (map (of_line f) ls),
        line_sum-append f ls ms,
      )
      (omega int_laws)

pub of_totals_for :
    (f : Figure) (t : TaxTotals) (invs : List ReturnInvoice)
    → of_totals f (totals_for t invs) ≡ of_totals f t +ℤ line_sum f (all_lines invs)
unfolding totals_for
of_totals_for f t [] = rw sum-nil (omega int_laws)
of_totals_for f t (inv ∷ invs) =
    rw
      (
        of_totals_for f (add_lines t inv.lines) invs,
        of_add_lines f t inv.lines,
        line_sum-append f inv.lines (all_lines invs),
      )
      (omega int_laws)
