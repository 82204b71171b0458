-- ===== src/Books/Statements/Closing/Deltas.antt =====
-- The changes of the rows that are grouped by side, as _period_by_ledger in backend/app/services/accounting_service.py adds them.
use gst_ai_copilot.Base.{
  ℕ, ◌==◌, ◌≡◌, refl, ◌∙◌, inl, inr, Bool, true, Bool-cases, ◌&&◌, List, [], ◌∷◌, map, select,
  Decimal, pos, ◌+ℤ◌, ◌-ℤ◌, sum, sum-nil, sum-cons, int_laws, arith, if◌then◌else◌,
}
use gst_ai_copilot.Accounting.Voucher.{Side, debit, credit}
use gst_ai_copilot.Books.{EntryDraft}
use gst_ai_copilot.Books.Reports.{GroupedRow, group_entry, group_entries, signed, same_side}
use gst_ai_copilot.Books.Reports.Sums.{movement}
use gst_ai_copilot.Books.Statements.{add_deltas}
use gst_ai_copilot.Books.Statements.Closing.Movements.{
  change_of, movement-cons, part-here, part-away,
}

abbrev deltas : List GroupedRow → Decimal
deltas rows = sum (map (λ r. signed r.side r.amount) rows)

pub add_deltas-eq :
    (net : Decimal) (rows : List GroupedRow) → add_deltas net rows ≡ net +ℤ deltas rows
unfolding add_deltas
add_deltas-eq net [] = rw sum-nil (omega int_laws)
add_deltas-eq net (r ∷ rs) =
    rw
      (
        add_deltas-eq (net +ℤ signed r.side r.amount) rs,
        sum-cons (signed r.side r.amount) (map (λ k. signed k.side k.amount) rs),
      )
      (omega int_laws)

signed-add :
    (s t : Side) (a b : Decimal)
    → same_side s t ≡ true
    → signed s (a +ℤ b) ≡ signed s a +ℤ signed t b
signed-add debit debit a b h = refl
signed-add debit credit a b h = cc
signed-add credit debit a b h = cc
signed-add credit credit a b h = omega int_laws

group_entry-deltas :
    (e : EntryDraft) (rows : List GroupedRow)
    → deltas (group_entry e rows) ≡ deltas rows +ℤ signed e.side e.amount
unfolding group_entry
group_entry-deltas e [] = rw (sum-cons (signed e.side e.amount) [], sum-nil) (omega int_laws)
group_entry-deltas e (r ∷ rs) =
    elim (Bool-cases ((r.ledger_id == e.ledger_id) && same_side r.side e.side)) [
      | inl t ↦ rw t (
          rw
            (
              sum-cons (signed r.side (r.amount +ℤ e.amount))
                  (map (λ k. signed k.side k.amount) rs),
              sum-cons (signed r.side r.amount) (map (λ k. signed k.side k.amount) rs),
              signed-add r.side e.side r.amount e.amount
                  (and-right (r.ledger_id == e.ledger_id) (same_side r.side e.side) t),
            )
            (omega int_laws))
      | inr t ↦ rw t (
          rw
            (
              sum-cons (signed r.side r.amount)
                  (map (λ k. signed k.side k.amount) (group_entry e rs)),
              sum-cons (signed r.side r.amount) (map (λ k. signed k.side k.amount) rs),
              group_entry-deltas e rs,
            )
            (omega int_laws))
    ]
  where
    and-right : (a b : Bool) → (a && b) ≡ true → b ≡ true
    and-right a b h = ground arith

signed-change_of :
    (i : ℕ) (e : EntryDraft) → (e.ledger_id == i) ≡ true → signed e.side e.amount ≡ change_of i e
signed-change_of i e h =
    rw (part-here debit i e h, part-here credit i e h) (by_side e.side e.amount)
  where
    by_side :
        (s : Side) (a : Decimal)
        → signed s a
          ≡ (if same_side s debit then a else pos 0) -ℤ (if same_side s credit then a else pos 0)
    by_side debit a = omega int_laws
    by_side credit a = omega int_laws

pub group_entries-deltas :
    (i : ℕ) (es : List EntryDraft) (rows : List GroupedRow)
    → deltas (group_entries rows (select (λ e. e.ledger_id == i) es)) ≡ deltas rows +ℤ movement i es
unfolding group_entries
group_entries-deltas i [] rows = rw sum-nil (omega int_laws)
group_entries-deltas i (e ∷ es) rows = elim (Bool-cases (e.ledger_id == i)) [
  | inl here ↦
      rw (movement-cons i e es, ← signed-change_of i e here, here)
        (group_entries-deltas i es (group_entry e rows)
          ∙ rw (group_entry-deltas e rows) (omega int_laws))
  | inr away ↦
      rw (movement-cons i e es, part-away debit i e away, part-away credit i e away, away)
        (group_entries-deltas i es rows ∙ omega int_laws)
]
