-- ===== src/Returns/Groups.antt =====
-- The counterparty groups: their totals are those of the invoices that they were made from.
use gst_ai_copilot.Base.{
  ◌≡◌, refl, sym, ◌∙◌, Bool, true, false, inl, inr, Bool-cases, List, [], ◌∷◌, ◌++◌, map, Decimal,
  ◌+ℤ◌, sum, sum-nil, sum-cons, sum-sorted_by, int_laws, Text, text_eq, select,
}
use gst_ai_copilot.Returns.{
  ReturnInvoice, Counterparty, CounterpartyGroup, add_lines, all_lines, add_to_group,
  group_invoices, group_of, group_counterparties, is_given, same_bool, counterparty_key,
  larger_group, zero_totals,
}
use gst_ai_copilot.Returns.Totals.{
  Figure, of_totals, line_sum, line_sum-append, of_add_lines, of_zero_totals,
}
use gst_ai_copilot.Returns.Buckets.{bucket_sum, bucket_sum-bucket_by_rate}

abbrev pub in_group : Figure → CounterpartyGroup → Decimal
in_group f g = of_totals f g.totals

abbrev pub group_sum : Figure → List CounterpartyGroup → Decimal
group_sum f gs = sum (map (in_group f) gs)

abbrev invoices_of : Counterparty → List ReturnInvoice
invoices_of c = c.first ∷ c.rest

abbrev in_counterparty : Figure → Counterparty → Decimal
in_counterparty f c = line_sum f (all_lines (invoices_of c))

abbrev counterparty_sum : Figure → List Counterparty → Decimal
counterparty_sum f cs = sum (map (in_counterparty f) cs)

all_lines-snoc :
    (f : Figure) (invs : List ReturnInvoice) (inv : ReturnInvoice)
    → line_sum f (all_lines (invs ++ (inv ∷ [])))
      ≡ line_sum f (all_lines invs) +ℤ line_sum f inv.lines
all_lines-snoc f [] inv = rw (line_sum-append f inv.lines [], sum-nil) (omega int_laws)
all_lines-snoc f (i ∷ invs) inv =
    rw
      (
        line_sum-append f i.lines (all_lines (invs ++ (inv ∷ []))),
        all_lines-snoc f invs inv,
        line_sum-append f i.lines (all_lines invs),
      )
      (omega int_laws)

counterparty_sum-add :
    (f : Figure) (k : Text) (inv : ReturnInvoice) (cs : List Counterparty)
    → counterparty_sum f (add_to_group k inv cs) ≡ counterparty_sum f cs +ℤ line_sum f inv.lines
unfolding add_to_group
counterparty_sum-add f k inv [] =
    rw (sum-cons (line_sum f (inv.lines ++ [])) [], line_sum-append f inv.lines [], sum-nil)
      (omega int_laws)
counterparty_sum-add f k inv (c ∷ cs) = elim (Bool-cases (text_eq k c.key)) [
  | inl same ↦
      let more = in_counterparty f (record c { rest = c.rest ++ (inv ∷ []) }) in
      rw same (
        rw
          (
            sum-cons more (map (in_counterparty f) cs),
            all_lines-snoc f (c.first ∷ c.rest) inv,
            sum-cons (in_counterparty f c) (map (in_counterparty f) cs),
          )
          (omega int_laws))
  | inr other ↦ rw other (
      rw
        (
          sum-cons (in_counterparty f c) (map (in_counterparty f) (add_to_group k inv cs)),
          counterparty_sum-add f k inv cs,
          sum-cons (in_counterparty f c) (map (in_counterparty f) cs),
        )
        (omega int_laws))
]

-- The invoices that a grouping takes.
abbrev pub taken : Bool → List ReturnInvoice → List ReturnInvoice
taken with_gstin invs = select (λ inv. same_bool (is_given inv.counterparty_gstin) with_gstin) invs

counterparty_sum-group :
    (f : Figure) (g : Bool) (invs : List ReturnInvoice) (cs : List Counterparty)
    → counterparty_sum f (group_invoices g cs invs)
      ≡ counterparty_sum f cs +ℤ line_sum f (all_lines (taken g invs))
unfolding group_invoices
counterparty_sum-group f g [] cs = rw sum-nil (omega int_laws)
counterparty_sum-group f g (inv ∷ invs) cs =
    elim (Bool-cases (same_bool (is_given inv.counterparty_gstin) g)) [
      | inl t ↦ rw t (
          rw
            (
              counterparty_sum-group f g invs (add_to_group (counterparty_key inv) inv cs),
              counterparty_sum-add f (counterparty_key inv) inv cs,
              line_sum-append f inv.lines (all_lines (taken g invs)),
            )
            (omega int_laws))
      | inr t ↦ rw t (counterparty_sum-group f g invs cs)
    ]

group_sum-map :
    (f : Figure) (cs : List Counterparty) → group_sum f (map group_of cs) ≡ counterparty_sum f cs
unfolding group_of
group_sum-map f [] = refl
group_sum-map f (c ∷ cs) =
    rw
      (
        sum-cons (of_totals f (add_lines zero_totals (all_lines (invoices_of c))))
            (map (in_group f) (map group_of cs)),
        of_add_lines f zero_totals (all_lines (invoices_of c)),
        of_zero_totals f,
        group_sum-map f cs,
        sum-cons (in_counterparty f c) (map (in_counterparty f) cs),
      )
      (omega int_laws)

pub group_sum-group_counterparties :
    (f : Figure) (g : Bool) (invs : List ReturnInvoice)
    → group_sum f (group_counterparties invs g) ≡ line_sum f (all_lines (taken g invs))
unfolding group_counterparties
group_sum-group_counterparties f g invs =
    sum-sorted_by larger_group (in_group f) (map group_of (group_invoices g [] invs))
    ∙ (group_sum-map f (group_invoices g [] invs)
        ∙ (counterparty_sum-group f g invs [] ∙ rw sum-nil (omega int_laws)))

-- With and without a GSTIN are all invoices.
pub taken_both :
    (f : Figure) (invs : List ReturnInvoice)
    → line_sum f (all_lines (taken true invs)) +ℤ line_sum f (all_lines (taken false invs))
      ≡ line_sum f (all_lines invs)
taken_both f [] = rw sum-nil (omega int_laws)
taken_both f (inv ∷ invs) = elim (Bool-cases (is_given inv.counterparty_gstin)) [
  | inl t ↦ rw t (
      rw
        (
          line_sum-append f inv.lines (all_lines (taken true invs)),
          line_sum-append f inv.lines (all_lines invs),
          ← taken_both f invs,
        )
        (omega int_laws))
  | inr t ↦ rw t (
      rw
        (
          line_sum-append f inv.lines (all_lines (taken false invs)),
          line_sum-append f inv.lines (all_lines invs),
          ← taken_both f invs,
        )
        (omega int_laws))
]

-- The buckets of a group hold what the group's totals hold.
abbrev pub AgreesWithBuckets : CounterpartyGroup → Type 0
AgreesWithBuckets g = (f : Figure) → bucket_sum f g.rate_buckets ≡ in_group f g

pub group_of-AgreesWithBuckets : (c : Counterparty) → AgreesWithBuckets (group_of c)
unfolding group_of
group_of-AgreesWithBuckets c f =
    bucket_sum-bucket_by_rate f (all_lines (invoices_of c))
    ∙ sym (
        of_add_lines f zero_totals (all_lines (invoices_of c))
        ∙ rw (of_zero_totals f) (omega int_laws))
