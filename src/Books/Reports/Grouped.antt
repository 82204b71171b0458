-- ===== src/Books/Reports/Grouped.antt =====
-- The grouped queries and the dictionaries of `_ledger_lines` against plain sums over the entries.
use gst_ai_copilot.Base.{
  ℕ, ◌==◌, ◌≡◌, refl, sym, ap, ◌∙◌, inl, inr, Bool, true, false, Bool-cases, ◌&&◌, List, [], ◌∷◌,
  map, Decimal, pos, ◌+ℤ◌, ◌-ℤ◌, sum, sum-nil, sum-cons, int_laws, arith, if◌then◌else◌,
}
use gst_ai_copilot.Accounting.Voucher.{Side, debit, credit}
use gst_ai_copilot.Books.{EntryDraft}
use gst_ai_copilot.Books.Reports.{
  GroupedRow, same_side, group_entry, group_entries, signed, net_at, add_net, opening_by_ledger,
  Slot, add_to_slot, slot_at, add_slot, period_by_ledger,
}

-- An amount, if it stands on side `s` of ledger `i`.
abbrev pub part : Side → ℕ → ℕ → Side → Decimal → Decimal
part s i j t a = if (j == i) && same_side t s then a else pos 0

abbrev pub rows_sum : Side → ℕ → List GroupedRow → Decimal
rows_sum s i rows = sum (map (λ r. part s i r.ledger_id r.side r.amount) rows)

-- The amounts on side `s` of ledger `i` among the entries.
abbrev pub side_sum : Side → ℕ → List EntryDraft → Decimal
side_sum s i es = sum (map (λ e. part s i e.ledger_id e.side e.amount) es)

if-add :
    (b : Bool) (x y : Decimal)
    → (if b then x +ℤ y else pos 0) ≡ (if b then x else pos 0) +ℤ (if b then y else pos 0)
if-add true x y = refl
if-add false x y = omega int_laws

same_key :
    (s : Side) (i j k : ℕ) (t u : Side)
    → ((j == k) && same_side t u) ≡ true
    → ((j == i) && same_side t s) ≡ ((k == i) && same_side u s)
same_key s i j k debit debit h = ground arith
same_key s i j k credit credit h = ground arith
same_key s i j k debit credit h = ground arith
same_key s i j k credit debit h = ground arith

part-add :
    (s : Side) (i j k : ℕ) (t u : Side) (a b : Decimal)
    → ((j == k) && same_side t u) ≡ true
    → part s i j t (a +ℤ b) ≡ part s i j t a +ℤ part s i k u b
part-add s i j k t u a b h =
    if-add ((j == i) && same_side t s) a b
    ∙ ap (λ c. part s i j t a +ℤ (if c then b else pos 0)) (same_key s i j k t u h)

group_entry-sum :
    (s : Side) (i : ℕ) (e : EntryDraft) (rows : List GroupedRow)
    → rows_sum s i (group_entry e rows) ≡ rows_sum s i rows +ℤ part s i e.ledger_id e.side e.amount
unfolding group_entry
group_entry-sum s i e [] =
    rw (sum-cons (part s i e.ledger_id e.side e.amount) [], sum-nil) (omega int_laws)
group_entry-sum s i e (r ∷ rs) =
    elim (Bool-cases ((r.ledger_id == e.ledger_id) && same_side r.side e.side)) [
      | inl t ↦ rw t (
          rw
            (
              sum-cons (part s i r.ledger_id r.side (r.amount +ℤ e.amount))
                  (map (λ k. part s i k.ledger_id k.side k.amount) rs),
              sum-cons (part s i r.ledger_id r.side r.amount)
                  (map (λ k. part s i k.ledger_id k.side k.amount) rs),
              part-add s i r.ledger_id e.ledger_id r.side e.side r.amount e.amount t,
            )
            (omega int_laws))
      | inr t ↦ rw t (
          rw
            (
              sum-cons (part s i r.ledger_id r.side r.amount)
                  (map (λ k. part s i k.ledger_id k.side k.amount) (group_entry e rs)),
              sum-cons (part s i r.ledger_id r.side r.amount)
                  (map (λ k. part s i k.ledger_id k.side k.amount) rs),
              group_entry-sum s i e rs,
            )
            (omega int_laws))
    ]

-- Grouping keeps the sums of every ledger and side.
pub group_entries-sum :
    (s : Side) (i : ℕ) (es : List EntryDraft) (rows : List GroupedRow)
    → rows_sum s i (group_entries rows es) ≡ rows_sum s i rows +ℤ side_sum s i es
unfolding group_entries
group_entries-sum s i [] rows = rw sum-nil (omega int_laws)
group_entries-sum s i (e ∷ es) rows =
    rw
      (
        group_entries-sum s i es (group_entry e rows),
        group_entry-sum s i e rows,
        sum-cons (part s i e.ledger_id e.side e.amount)
            (map (λ k. part s i k.ledger_id k.side k.amount) es),
      )
      (omega int_laws)

pick-add :
    (b : Bool) (x y d : Decimal)
    → (if b then x +ℤ d else y) ≡ (if b then x else y) +ℤ (if b then d else pos 0)
pick-add true x y d = refl
pick-add false x y d = omega int_laws

add-zero : (x : Decimal) → x ≡ x +ℤ pos 0
add-zero x = omega int_laws

same_number : (i j k : ℕ) → (k == j) ≡ true → (k == i) ≡ (j == i)
same_number i j k h = ground arith

other_number : (i j k : ℕ) → (k == j) ≡ false → (k == i) ≡ true → (j == i) ≡ false
other_number i j k h g = ground arith

net_at-add_net :
    (i j : ℕ) (d : Decimal) (nets : List (ℕ × Decimal))
    → net_at i (add_net j d nets) ≡ net_at i nets +ℤ (if j == i then d else pos 0)
unfolding net_at add_net
net_at-add_net i j d [] =
    pick-add (j == i) (pos 0) (pos 0) d
    ∙ ap (λ z. z +ℤ (if j == i then d else pos 0)) (if-zero (j == i))
  where
    if-zero : (b : Bool) → (if b then pos 0 else pos 0) ≡ pos 0
    if-zero true = refl
    if-zero false = refl
net_at-add_net i j d ((k, net) ∷ nets) = elim (Bool-cases (k == j)) [
  | inl t ↦ rw t (rw (← same_number i j k t) (pick-add (k == i) net (net_at i nets) d))
  | inr t ↦ rw t (elim (Bool-cases (k == i)) [
    | inl here ↦ rw (here, other_number i j k t here) (add-zero net)
    | inr later ↦ rw later (net_at-add_net i j d nets)
  ])
]

signed-part :
    (i j : ℕ) (t : Side) (a : Decimal)
    → (if j == i then signed t a else pos 0) ≡ part debit i j t a -ℤ part credit i j t a
signed-part i j debit a = elim (Bool-cases (j == i)) [
  | inl h ↦ rw h (omega int_laws)
  | inr h ↦ rw h (omega int_laws)
]
signed-part i j credit a = elim (Bool-cases (j == i)) [
  | inl h ↦ rw h (omega int_laws)
  | inr h ↦ rw h (omega int_laws)
]

rows_sum-cons :
    (s : Side) (i : ℕ) (r : GroupedRow) (rs : List GroupedRow)
    → rows_sum s i (r ∷ rs) ≡ part s i r.ledger_id r.side r.amount +ℤ rows_sum s i rs
rows_sum-cons s i r rs = sum-cons _ (map (λ k. part s i k.ledger_id k.side k.amount) rs)

-- The dictionary of nets holds debits less credits.
pub net_at-opening_by_ledger :
    (i : ℕ) (rows : List GroupedRow) (nets : List (ℕ × Decimal))
    → net_at i (opening_by_ledger nets rows)
      ≡ net_at i nets +ℤ (rows_sum debit i rows -ℤ rows_sum credit i rows)
unfolding opening_by_ledger
net_at-opening_by_ledger i [] nets = rw sum-nil (omega int_laws)
net_at-opening_by_ledger i (r ∷ rs) nets =
    rw
      (
        net_at-opening_by_ledger i rs (add_net r.ledger_id (signed r.side r.amount) nets),
        net_at-add_net i r.ledger_id (signed r.side r.amount) nets,
        signed-part i r.ledger_id r.side r.amount,
        rows_sum-cons debit i r rs,
        rows_sum-cons credit i r rs,
      )
      (omega int_laws)

abbrev pub slot_side : Side → Slot → Decimal
slot_side debit slot = slot.0
slot_side credit slot = slot.1

slot_side-add_to_slot :
    (s t : Side) (a : Decimal) (slot : Slot)
    → slot_side s (add_to_slot t a slot) ≡ slot_side s slot +ℤ (if same_side t s then a else pos 0)
slot_side-add_to_slot debit debit a slot = refl
slot_side-add_to_slot debit credit a slot = add-zero slot.0
slot_side-add_to_slot credit debit a slot = add-zero slot.1
slot_side-add_to_slot credit credit a slot = refl

part-there :
    (s : Side) (i j : ℕ) (t : Side) (a : Decimal)
    → (j == i) ≡ true
    → part s i j t a ≡ (if same_side t s then a else pos 0)
part-there s i j t a h = rw h refl

part-elsewhere :
    (s : Side) (i j : ℕ) (t : Side) (a : Decimal) → (j == i) ≡ false → part s i j t a ≡ pos 0
part-elsewhere s i j t a h = rw h refl

slot_at-add_slot :
    (s : Side) (i j : ℕ) (t : Side) (a : Decimal) (slots : List (ℕ × Slot))
    → slot_side s (slot_at i (add_slot j t a slots))
      ≡ slot_side s (slot_at i slots) +ℤ part s i j t a
unfolding slot_at add_slot
slot_at-add_slot s i j t a [] = elim (Bool-cases (j == i)) [
  | inl h ↦ rw (h) (slot_side-add_to_slot s t a (pos 0, pos 0))
  | inr h ↦ rw (h) (add-zero (slot_side s (pos 0, pos 0)))
]
slot_at-add_slot s i j t a ((k, slot) ∷ slots) = elim (Bool-cases (k == j)) [
  | inl h ↦ rw h (elim (Bool-cases (k == i)) [
    | inl here ↦
        rw (here, part-there s i j t a (sym (same_number i j k h) ∙ here))
          (slot_side-add_to_slot s t a slot)
    | inr later ↦
        rw (later, part-elsewhere s i j t a (sym (same_number i j k h) ∙ later)) (add-zero _)
  ])
  | inr h ↦ rw h (elim (Bool-cases (k == i)) [
    | inl here ↦ rw (here, part-elsewhere s i j t a (other_number i j k h here)) (add-zero _)
    | inr later ↦ rw later (slot_at-add_slot s i j t a slots)
  ])
]

-- A slot of the dictionary holds the debits and the credits.
pub slot_at-period_by_ledger :
    (s : Side) (i : ℕ) (rows : List GroupedRow) (slots : List (ℕ × Slot))
    → slot_side s (slot_at i (period_by_ledger slots rows))
      ≡ slot_side s (slot_at i slots) +ℤ rows_sum s i rows
unfolding period_by_ledger
slot_at-period_by_ledger s i [] slots = rw sum-nil (add-zero _)
slot_at-period_by_ledger s i (r ∷ rs) slots =
    rw
      (
        slot_at-period_by_ledger s i rs (add_slot r.ledger_id r.side r.amount slots),
        slot_at-add_slot s i r.ledger_id r.side r.amount slots,
        rows_sum-cons s i r rs,
      )
      (omega int_laws)
