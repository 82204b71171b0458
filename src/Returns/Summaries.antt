-- ===== src/Returns/Summaries.antt =====
-- GSTR-1 and GSTR-3B: their sections add up, and so does the CSV.
use gst_ai_copilot.Base.{
  ◌≡◌, refl, sym, ◌∙◌, ◌⊎◌, inl, inr, true, false, Bool-cases, List, [], ◌∷◌, ◌++◌, map, pos,
  Decimal, ◌+ℤ◌, ◌-ℤ◌, ◌≤ℤ◌, ltb_ℤ, max_ℤ, sum, sum-nil, sum-cons, sorted_by, insert_sorted,
  int_laws, Text, codes, All,
}
use gst_ai_copilot.Returns.{
  ReturnInvoice, RateBucket, CounterpartyGroup, Counterparty, CsvRow, build_gstr1, build_gstr3b,
  gstr1_to_csv_rows, section_rows, group_rows, group_counterparties, group_of, larger_group,
  totals_for, zero_totals, sales_of, purchases_of, all_lines,
}
use mathlib.Core.Path.{ap₂, subst₂}
use gst_ai_copilot.Returns.Totals.{Figure, of_totals, line_sum, of_totals_for, of_zero_totals}
use gst_ai_copilot.Returns.Buckets.{bucket_sum, in_bucket, bucket_sum-bucket_by_rate}
use gst_ai_copilot.Returns.Groups.{
  group_sum, in_group, group_sum-group_counterparties, taken_both, AgreesWithBuckets,
  group_of-AgreesWithBuckets,
}

-- In a GSTR-1 the registered and the unregistered counterparties together, and the rates together,
-- make up each figure of the totals, which is its sum over the lines of the sales invoices.
pub build_gstr1_adds_up :
    (period : Text) (invs : List ReturnInvoice) (f : Figure)
    → let s = build_gstr1 period invs in
      (group_sum f s.b2b +ℤ group_sum f s.b2c ≡ of_totals f s.totals)
      × (bucket_sum f s.rate_wise ≡ of_totals f s.totals)
      × (of_totals f s.totals ≡ line_sum f (all_lines (sales_of invs)))
unfolding build_gstr1
build_gstr1_adds_up period invs f = (
  rw
      (
        group_sum-group_counterparties f true sales,
        group_sum-group_counterparties f false sales,
        taken_both f sales,
      )
      (sym totals),
  bucket_sum-bucket_by_rate f (all_lines sales) ∙ sym totals,
  totals,
)
  where
    sales : List ReturnInvoice
    sales = sales_of invs

    totals : of_totals f (totals_for zero_totals sales) ≡ line_sum f (all_lines sales)
    totals = of_totals_for f zero_totals sales ∙ rw (of_zero_totals f) (omega int_laws)

insert-All :
    (P : CounterpartyGroup → Type 0) (g : CounterpartyGroup) (gs : List CounterpartyGroup)
    → P g
    → All P gs
    → All P (insert_sorted larger_group g gs)
unfolding insert_sorted
insert-All P g [] p h = (p, tt)
insert-All P g (k ∷ gs) p h = elim (Bool-cases (larger_group k g)) [
  | inl t ↦ rw t (h.0, insert-All P g gs p h.1)
  | inr t ↦ rw t (p, h)
]

sorted_groups-AgreesWithBuckets :
    (cs : List Counterparty) → All AgreesWithBuckets (sorted_by larger_group (map group_of cs))
unfolding sorted_by
sorted_groups-AgreesWithBuckets [] = tt
sorted_groups-AgreesWithBuckets (c ∷ cs) =
    insert-All AgreesWithBuckets (group_of c) (sorted_by larger_group (map group_of cs))
      (group_of-AgreesWithBuckets c) (sorted_groups-AgreesWithBuckets cs)

abbrev pub row_sum : Figure → List CsvRow → Decimal
row_sum f rows = sum (map (λ r. in_bucket f r.bucket) rows)

row_sum-append :
    (f : Figure) (rs qs : List CsvRow) → row_sum f (rs ++ qs) ≡ row_sum f rs +ℤ row_sum f qs
row_sum-append f [] qs = rw sum-nil (omega int_laws)
row_sum-append f (r ∷ rs) qs =
    rw
      (
        sum-cons (in_bucket f r.bucket) (map (λ k. in_bucket f k.bucket) (rs ++ qs)),
        row_sum-append f rs qs,
        sum-cons (in_bucket f r.bucket) (map (λ k. in_bucket f k.bucket) rs),
      )
      (omega int_laws)

row_sum-group_rows :
    (f : Figure) (section : Text) (g : CounterpartyGroup) (bs : List RateBucket)
    → row_sum f (group_rows section g bs) ≡ bucket_sum f bs
unfolding group_rows
row_sum-group_rows f section g [] = refl
row_sum-group_rows f section g (b ∷ bs) =
    rw
      (
        sum-cons (in_bucket f b) (map (λ k. in_bucket f k.bucket) (group_rows section g bs)),
        row_sum-group_rows f section g bs,
        sum-cons (in_bucket f b) (map (in_bucket f) bs),
      )
      refl

row_sum-section_rows :
    (f : Figure) (section : Text) (gs : List CounterpartyGroup)
    → All AgreesWithBuckets gs
    → row_sum f (section_rows section gs) ≡ group_sum f gs
unfolding section_rows
row_sum-section_rows f section [] h = refl
row_sum-section_rows f section (g ∷ gs) h =
    rw
      (
        row_sum-append f (group_rows section g g.rate_buckets) (section_rows section gs),
        row_sum-group_rows f section g g.rate_buckets,
        h.0 f,
        row_sum-section_rows f section gs h.1,
        sum-cons (in_group f g) (map (in_group f) gs),
      )
      refl

-- The rows of the CSV of a GSTR-1 add up, in each figure, to the totals of the return.
pub csv_adds_up :
    (period : Text) (invs : List ReturnInvoice) (f : Figure)
    → let s = build_gstr1 period invs in row_sum f (gstr1_to_csv_rows s) ≡ of_totals f s.totals
unfolding gstr1_to_csv_rows build_gstr1 group_counterparties
csv_adds_up period invs f =
    let s = build_gstr1 period invs in
    row_sum-append f (section_rows (codes "B2B") s.b2b) (section_rows (codes "B2C") s.b2c)
    ∙ (ap₂ (λ x y. x +ℤ y)
          (row_sum-section_rows f (codes "B2B") s.b2b (sorted_groups-AgreesWithBuckets _))
          (row_sum-section_rows f (codes "B2C") s.b2c (sorted_groups-AgreesWithBuckets _))
        ∙ (build_gstr1_adds_up period invs f).0)

-- One head of tax: what is payable is never negative, it is what exceeds the credit, and credit
-- beyond the outward tax is not paid out.
abbrev pub IsNetOf : Decimal → Decimal → Decimal → Type 0
IsNetOf net outward itc =
    (pos 0 ≤ℤ net) × (outward ≤ℤ net +ℤ itc) × ((net ≡ pos 0) ⊎ (net +ℤ itc ≡ outward))

max-IsNetOf : (outward itc : Decimal) → IsNetOf (max_ℤ (outward -ℤ itc) (pos 0)) outward itc
max-IsNetOf outward itc = elim (Bool-cases (ltb_ℤ (outward -ℤ itc) (pos 0))) [
  | inl less ↦ rw less (omega int_laws, grind int_laws, inl refl)
  | inr more ↦ rw more (grind int_laws, omega int_laws, inr (omega int_laws))
]

-- A GSTR-3B sets the credit of the purchases against the tax of the sales under each head by itself:
-- the four nets are the excess where there is one and zero elsewhere, and their sum is the total.
pub build_gstr3b_net :
    (period : Text) (invs : List ReturnInvoice)
    → let s = build_gstr3b period invs in
      let n = s.net_tax_payable in
      let out = λ (f : Figure). line_sum f (all_lines (sales_of invs)) in
      let itc = λ (f : Figure). line_sum f (all_lines (purchases_of invs)) in
      IsNetOf n.cgst (out Figure.cgst) (itc Figure.cgst)
      × IsNetOf n.sgst (out Figure.sgst) (itc Figure.sgst)
      × IsNetOf n.igst (out Figure.igst) (itc Figure.igst)
      × IsNetOf n.cess (out Figure.cess) (itc Figure.cess)
      × (n.total_tax ≡ n.cgst +ℤ n.sgst +ℤ n.igst +ℤ n.cess)
unfolding build_gstr3b
build_gstr3b_net period invs =
    (head Figure.cgst, head Figure.sgst, head Figure.igst, head Figure.cess, refl)
  where
    figure :
        (f : Figure) (is : List ReturnInvoice)
        → of_totals f (totals_for zero_totals is) ≡ line_sum f (all_lines is)
    figure f is = of_totals_for f zero_totals is ∙ rw (of_zero_totals f) (omega int_laws)

    head :
        (f : Figure)
        → IsNetOf
            (max_ℤ
              (of_totals f (totals_for zero_totals (sales_of invs))
                -ℤ of_totals f (totals_for zero_totals (purchases_of invs)))
              (pos 0))
            (line_sum f (all_lines (sales_of invs)))
            (line_sum f (all_lines (purchases_of invs)))
    head f =
        subst₂
          (λ o c.
            IsNetOf
              (max_ℤ
                (of_totals f (totals_for zero_totals (sales_of invs))
                  -ℤ of_totals f (totals_for zero_totals (purchases_of invs)))
                (pos 0))
              o c)
          (figure f (sales_of invs)) (figure f (purchases_of invs)) (max-IsNetOf _ _)
