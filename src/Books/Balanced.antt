-- ===== src/Books/Balanced.antt =====
-- A posting balances to the last digit, and every voucher of the books is balanced.
use gst_ai_copilot.Base.{
  codes, All-map, ◌>>=◌, ℕ, ◌≤◌, ◌≡◌, refl, subst, ◌∙◌, inl, inr, Bool, true, false, Bool-cases,
  none, List, [], ◌∷◌, map, select, length, Text, Decimal, pos, ◌+ℤ◌, ◌≤ℤ◌, ltb_ℤ, sum, sum-nil,
  sum-cons, int_laws, arith, ok, >>=-eq-ok, ok-inj, All,
}
use gst_ai_copilot.Accounting.Voucher.{
  Side, debit, credit, is_debit, is_credit, IsPositive, validate_balanced, validate_balanced_iff,
  side_total, amounts,
}
use gst_ai_copilot.Filing.{InvoiceDirection, sales, purchase}
use gst_ai_copilot.Books.{EntryDraft, Db}
use gst_ai_copilot.Books.Vouchers.{
  either, input_of, party_side, leg_side, leg, ledger_by_name, tax_legs, PostedTotals, grand_total,
  tax_map, invoice_entries,
}

abbrev taxes_sum : List (Text × Decimal) → Decimal
taxes_sum ts = sum (map (λ t. t.1) ts)

-- Legs on one side: all above zero, with the sum of the taxes.
pub record AreLegs (side : Side) (total : Decimal) (es : List EntryDraft) : Type 0 where
  pub on_side : All (λ e. e.side ≡ side) es
  pub positive : All (λ e. IsPositive (input_of e)) es
  pub adds_up : sum (map (λ e. e.amount) es) ≡ total

tax_legs-AreLegs :
    (org : ℕ) (side : Side) (ts : List (Text × Decimal)) (db : Db) {es : List EntryDraft}
    → All (λ t. pos 0 ≤ℤ t.1) ts
    → tax_legs org side ts db ≡ ok es
    → AreLegs side (taxes_sum ts) es
unfolding tax_legs
tax_legs-AreLegs org side [] db h e =
    subst (AreLegs side (taxes_sum [])) (ok-inj e)
      (record { on_side = tt; positive = tt; adds_up = refl })
tax_legs-AreLegs org side ((name, amount) ∷ ts) db {es} h e =
    elim (Bool-cases (ltb_ℤ (pos 0) amount)) [
      | inr low ↦
          let skipped : tax_legs org side ts db ≡ ok es = ground arith in
          let rest = tax_legs-AreLegs org side ts db h.1 skipped in
          let not_below = h.0 in
          let zero_tax : amount ≡ pos 0 = ground arith in
          record {
            on_side = rest.on_side;
            positive = rest.positive;
            adds_up =
                rw (sum-cons amount (map (λ t. t.1) ts), zero_tax) (rest.adds_up ∙ omega int_laws);
          }
      | inl above ↦
          let taken : (ledger_by_name org name db >>= λ l.
          tax_legs org side ts db >>= λ r. ok (leg l.id side amount none ∷ r))
              ≡ ok es =
            ground arith in
          let (l, found, next) = >>=-eq-ok (ledger_by_name org name db) _ taken in
          let (r, legs, last) = >>=-eq-ok (tax_legs org side ts db) _ next in
          let rest = tax_legs-AreLegs org side ts db h.1 legs in
          subst (AreLegs side (taxes_sum ((name, amount) ∷ ts))) (ok-inj last) (record {
            on_side = (refl, rest.on_side);
            positive = (ground arith, rest.positive);
            adds_up =
                rw
                  (
                    sum-cons amount (map (λ t. t.1) ts),
                    sum-cons amount (map (λ k. k.amount) r),
                    rest.adds_up,
                  )
                  refl;
          })
    ]

-- The total of a side over legs of that side, and over legs of the other.
side_total-same :
    (p : Side → Bool) (s : Side) (es : List EntryDraft)
    → p s ≡ true
    → All (λ e. e.side ≡ s) es
    → side_total p (map input_of es) ≡ sum (map (λ e. e.amount) es)
unfolding side_total
side_total-same p s [] t h = refl
side_total-same p s (e ∷ es) t h =
    rw (h.0, t)
      (rw
        (
          sum-cons e.amount (amounts (select (λ k. p k.side) (map input_of es))),
          side_total-same p s es t h.1,
          sum-cons e.amount (map (λ k. k.amount) es),
        )
        refl)

side_total-other :
    (p : Side → Bool) (s : Side) (es : List EntryDraft)
    → p s ≡ false
    → All (λ e. e.side ≡ s) es
    → side_total p (map input_of es) ≡ pos 0
unfolding side_total
side_total-other p s [] t h = sum-nil
side_total-other p s (e ∷ es) t h = rw (h.0, t) (side_total-other p s es t h.1)

inputs-IsPositive :
    (es : List EntryDraft)
    → All (λ e. IsPositive (input_of e)) es
    → All IsPositive (map input_of es)
inputs-IsPositive es h = All-map IsPositive input_of es h

-- A leg of the total on one side against legs on the other.
pub record IsEven (total : Decimal) (es : List EntryDraft) : Type 0 where
  pub accepted : validate_balanced (map input_of es) ≡ ok tt
  pub debits : side_total is_debit (map input_of es) ≡ total
  pub credits : side_total is_credit (map input_of es) ≡ total

IsEven-from :
    (total : Decimal) (es : List EntryDraft)
    → 2 ≤ length (map input_of es)
    → All IsPositive (map input_of es)
    → side_total is_debit (map input_of es) ≡ total
    → side_total is_credit (map input_of es) ≡ total
    → IsEven total es
IsEven-from total es two positive dr cr = record {
  accepted =
      (validate_balanced_iff (map input_of es)).1 (two, positive, rw (dr, cr) (grind int_laws));
  debits = dr;
  credits = cr;
}

legs-IsEven :
    (d : InvoiceDirection) (total : Decimal) (e : EntryDraft) (es : List EntryDraft)
    → pos 1 ≤ℤ total
    → e.side ≡ party_side d
    → e.amount ≡ total
    → 1 ≤ length (map input_of es)
    → AreLegs (leg_side d) total es
    → IsEven total (e ∷ es)
unfolding side_total
legs-IsEven sales total e es above es_side es_amount some_leg legs =
    IsEven-from total (e ∷ es) (omega arith)
      (rw es_amount above, inputs-IsPositive es legs.positive)
      (rw es_side (
        rw (sum-cons e.amount (amounts (select (λ k. is_debit k.side) (map input_of es))))
          (rw (es_amount, side_total-other is_debit credit es refl legs.on_side) (omega int_laws))))
      (rw es_side (side_total-same is_credit credit es refl legs.on_side ∙ legs.adds_up))
legs-IsEven purchase total e es above es_side es_amount some_leg legs =
    IsEven-from total (e ∷ es) (omega arith)
      (rw es_amount above, inputs-IsPositive es legs.positive)
      (rw es_side (side_total-same is_debit debit es refl legs.on_side ∙ legs.adds_up))
      (rw es_side (
        rw (sum-cons e.amount (amounts (select (λ k. is_credit k.side) (map input_of es))))
          (rw (es_amount, side_total-other is_credit debit es refl legs.on_side) (omega int_laws))))

grand_total-above :
    (t : PostedTotals)
    → pos 1 ≤ℤ t.taxable
    → All (λ x. pos 0 ≤ℤ x) (t.cgst ∷ t.sgst ∷ t.igst ∷ t.cess ∷ [])
    → pos 1 ≤ℤ grand_total t
grand_total-above t above (a, (b, (c, (d, _)))) = omega int_laws

sum-taxes :
    (t : PostedTotals) (d : InvoiceDirection) → t.taxable +ℤ taxes_sum (tax_map d t) ≡ grand_total t
sum-taxes t d =
    rw
      (
        sum-cons t.cgst (t.sgst ∷ t.igst ∷ t.cess ∷ []),
        sum-cons t.sgst (t.igst ∷ t.cess ∷ []),
        sum-cons t.igst (t.cess ∷ []),
        sum-cons t.cess [],
        sum-nil,
      )
      (omega int_laws)

-- The entries of an invoice with a taxable value above zero and no negative tax are accepted as a
-- voucher, and their debits and their credits are the invoice's total, to the last digit.
pub invoice_entries-IsEven :
    (org : ℕ) (d : InvoiceDirection) (t : PostedTotals) (party : ℕ) (db : Db) {es : List EntryDraft}
    → pos 1 ≤ℤ t.taxable
    → All (λ x. pos 0 ≤ℤ x) (t.cgst ∷ t.sgst ∷ t.igst ∷ t.cess ∷ [])
    → invoice_entries org d t party db ≡ ok es
    → IsEven (grand_total t) es
unfolding invoice_entries
invoice_entries-IsEven org d t party db {es} above taxes e =
    let (base, found, next) =
      >>=-eq-ok (ledger_by_name org (either d (codes "Sales") (codes "Purchase")) db) _ e in
    let (legs, taken, last) = >>=-eq-ok (tax_legs org (leg_side d) (tax_map d t) db) _ next in
    let rest = tax_legs-AreLegs org (leg_side d) (tax_map d t) db taxes taken in
    let more : pos 1 ≤ℤ grand_total t = grand_total-above t above taxes in
    subst (IsEven (grand_total t)) (ok-inj last) (
      legs-IsEven d (grand_total t) _ (leg base.id (leg_side d) t.taxable none ∷ legs) more refl
        refl (omega arith)
        (record {
          on_side = (refl, rest.on_side);
          positive = (above, rest.positive);
          adds_up =
              rw (sum-cons t.taxable (map (λ k. k.amount) legs), rest.adds_up) (sum-taxes t d);
        }))
