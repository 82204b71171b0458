-- ===== src/Gst/Laws.antt =====
-- What `calculate` computes: the split of the tax, its rounding, its bounds and its growth.
use gst_ai_copilot.Base.{
  ℕ, ◌+◌, ◌*◌, ◌/◌, ◌≤◌, ◌<◌, ◌≡◌, refl, ◌↔◌, some, arith, pos, sym, ◌∙◌, Text, codes, ok, err,
  Bool, true, false, Result, ◌-ℤ◌, ◌≤ℤ◌, abs, int_laws, text_eq, [], pos-+ℤ-pos, abs-sub-le,
}
use native.Mathlib.Nat.{mul-le-mul, le_refl}
use gst_ai_copilot.Gst.{
  TransactionType, parse_transaction_type, Numeric, number, GstCalculation, build, calculate,
  tax_split, warnings_for, is_zero_tax, full_tax, half_tax, round, of_decimal,
}
use gst_ai_copilot.Gst.Rounding.{round-of_decimal, full_tax_pos, half_tax_pos}
use gst_ai_copilot.Gst.Guards.{calculate-Accepted, calculate-eq-ok, calculate_known}

abbrev pub is_ok : {E A : Type 0} → Result E A → Bool
is_ok (ok a) = true
is_ok (err e) = false

-- Three readable numbers, none negative, a rate of at most 100 and a known transaction type.
pub record IsAcceptable (taxable rate : Numeric) (txn : Text) (cess : Numeric) : Type 0 where
  pub t : ℕ
  pub r : ℕ
  pub c : ℕ
  pub ty : TransactionType
  pub taxable_eq : taxable ≡ number (pos t)
  pub rate_eq : rate ≡ number (pos r)
  pub cess_eq : cess ≡ number (pos c)
  pub known : parse_transaction_type txn ≡ some ty
  pub small : r ≤ 1_000_000

is_ok_cases : {E A : Type 0} (m : Result E A) → is_ok m ≡ true → (a : A) × (m ≡ ok a)
is_ok_cases (ok a) h = (a, refl)
is_ok_cases (err e) h = cc

-- `calculate` succeeds exactly when its three numbers are readable and not negative, the rate is at
-- most 100 and the transaction type is known.
pub calculate_ok_iff :
    (v : Text) (taxable rate : Numeric) (txn : Text) (cess : Numeric)
    → (is_ok (calculate v taxable rate txn cess) ≡ true) ↔ IsAcceptable taxable rate txn cess
calculate_ok_iff v taxable rate txn cess = (to, from)
  where
    to : is_ok (calculate v taxable rate txn cess) ≡ true → IsAcceptable taxable rate txn cess
    to h =
        let (g, e) = is_ok_cases (calculate v taxable rate txn cess) h in
        let a = calculate-Accepted v taxable rate txn cess e in
        record {
          t = a.t;
          r = a.r;
          c = a.c;
          ty = a.ty;
          taxable_eq = a.taxable_eq;
          rate_eq = a.rate_eq;
          cess_eq = a.cess_eq;
          known = a.known;
          small = a.small;
        }

    from : IsAcceptable taxable rate txn cess → is_ok (calculate v taxable rate txn cess) ≡ true
    from a =
        rw (a.taxable_eq, a.rate_eq, a.cess_eq)
          (rw (calculate-eq-ok v a.t a.r a.c txn a.known a.small) refl)

abbrev pub intra : Text
intra = codes "intra_state"

abbrev pub inter : Text
inter = codes "inter_state"

parse-intra : parse_transaction_type intra ≡ some TransactionType.intra_state
unfolding parse_transaction_type text_eq
parse-intra = refl

parse-inter : parse_transaction_type inter ≡ some TransactionType.inter_state
unfolding parse_transaction_type text_eq
parse-inter = refl

-- The two halves of the tax and the whole one: each a rounding of the same product.
halves_near_whole :
    (n : ℕ)
    → let half = (2 * n + 20_000_000_000) / 40_000_000_000 in
      let whole = (2 * n + 10_000_000_000) / 20_000_000_000 in
      (half + half ≤ whole + 1) × (whole ≤ half + half + 1)
halves_near_whole n = omega arith

build_agree :
    (v : Text) (t r c : ℕ)
    → let g = build v TransactionType.intra_state (pos t) (pos r) (pos c) in
      let h = build v TransactionType.inter_state (pos t) (pos r) (pos c) in
      (g.cgst ≡ g.sgst) × (g.igst ≡ pos 0) × (abs (g.total_tax -ℤ h.total_tax) ≤ℤ pos 100)
unfolding build tax_split
build_agree v t r c =
    let near = halves_near_whole (t * r * 100) in
    (
      refl,
      refl,
      abs-sub-le _ _ 100
          (rw (full_tax_pos t r, half_tax_pos t r, full_tax_pos t c)
            (simp pos-+ℤ-pos (omega arith)))
          (rw (full_tax_pos t r, half_tax_pos t r, full_tax_pos t c)
            (simp pos-+ℤ-pos (omega arith))),
    )

number-inj : {a b : ℕ} → number (pos a) ≡ number (pos b) → a ≡ b
number-inj e = ground arith

-- For one taxable value and rate, within a state the tax is split into two equal halves and no
-- integrated tax, and the total differs from that of an inter-state supply by a paisa at most.
pub intra-inter_agree :
    (v : Text) (taxable rate cess : Numeric) {g h : GstCalculation}
    → calculate v taxable rate intra cess ≡ ok g
    → calculate v taxable rate inter cess ≡ ok h
    → (g.cgst ≡ g.sgst) × (g.igst ≡ pos 0) × (abs (g.total_tax -ℤ h.total_tax) ≤ℤ pos 100)
intra-inter_agree v taxable rate cess {g} {h} p q =
    let (t, r, c, et, er, ec, small, eg) =
      calculate_known v taxable rate intra cess parse-intra p in
    let (t', r', c', et', er', ec', small', eh) =
      calculate_known v taxable rate inter cess parse-inter q in
    let st : t' ≡ t = number-inj (sym et' ∙ et) in
    let sr : r' ≡ r = number-inj (sym er' ∙ er) in
    let sc : c' ≡ c = number-inj (sym ec' ∙ ec) in rw (eg, eh, st, sr, sc) (build_agree v t r c)

-- The tax of an inter-state supply is a whole number of paise, the nearest one to the exact
-- product of value and rate, and half a paisa is rounded up; it is at most the rounded value.
pub inter_rounding :
    (v : Text) (t r : ℕ) (cess : Numeric) {g : GstCalculation}
    → calculate v (number (pos t)) (number (pos r)) inter cess ≡ ok g
    → (i : ℕ) × (g.igst ≡ pos (i * 100))
      × (i * 10_000_000_000 ≤ t * r * 100 + 5_000_000_000)
      × (t * r * 100 + 5_000_000_000 < i * 10_000_000_000 + 10_000_000_000)
      × (g.igst ≤ℤ g.taxable_value)
unfolding build tax_split
inter_rounding v t r cess p =
    let (t', r', c, et, er, ec, small, eg) =
      calculate_known v (number (pos t)) (number (pos r)) inter cess parse-inter p in
    let st : t' ≡ t = number-inj (sym et) in
    let sr : r' ≡ r = number-inj (sym er) in
    let le : t * r ≤ t * 1_000_000 = mul-le-mul (le_refl t) (rw (← sr) small) in
    (
      (2 * (t * r * 100) + 10_000_000_000) / 20_000_000_000,
      rw (eg, st, sr) (full_tax_pos t r),
      omega arith,
      omega arith,
      rw (eg, st, sr) (rw (full_tax_pos t r, round-of_decimal t) (omega arith)),
    )

round-mono : (t t' : ℕ) → t ≤ t' → round (of_decimal (pos t)) ≤ℤ round (of_decimal (pos t'))
round-mono t t' le = rw (round-of_decimal t, round-of_decimal t') (omega arith)

full_tax-mono : (t t' r : ℕ) → t ≤ t' → full_tax (pos t) (pos r) ≤ℤ full_tax (pos t') (pos r)
full_tax-mono t t' r le =
    let more : t * r ≤ t' * r = mul-le-mul le (le_refl r) in
    rw (full_tax_pos t r, full_tax_pos t' r) (omega arith)

half_tax-mono : (t t' r : ℕ) → t ≤ t' → half_tax (pos t) (pos r) ≤ℤ half_tax (pos t') (pos r)
half_tax-mono t t' r le =
    let more : t * r ≤ t' * r = mul-le-mul le (le_refl r) in
    rw (half_tax_pos t r, half_tax_pos t' r) (omega arith)

build_mono :
    (v : Text) (ty : TransactionType) (t t' r c : ℕ)
    → t ≤ t'
    → let g = build v ty (pos t) (pos r) (pos c) in
      let h = build v ty (pos t') (pos r) (pos c) in
      (g.taxable_value ≤ℤ h.taxable_value)
      × (g.total_tax ≤ℤ h.total_tax)
      × (g.grand_total ≤ℤ h.grand_total)
unfolding build tax_split
build_mono v TransactionType.intra_state t t' r c le =
    omega (int_laws, half_tax-mono t t' r le, full_tax-mono t t' c le, round-mono t t' le)
build_mono v TransactionType.inter_state t t' r c le =
    omega (int_laws, full_tax-mono t t' r le, full_tax-mono t t' c le, round-mono t t' le)
build_mono v _ t t' r c le = omega (int_laws, round-mono t t' le)

-- Between two intra- or inter-state supplies, or any others of one type, that differ in the value
-- only, the larger value has the larger rounded value, tax and grand total.
pub calculate_mono :
    (v : Text) (t t' : ℕ) (rate : Numeric) (txn : Text) (cess : Numeric) {g h : GstCalculation}
    → t ≤ t'
    → calculate v (number (pos t)) rate txn cess ≡ ok g
    → calculate v (number (pos t')) rate txn cess ≡ ok h
    → (g.taxable_value ≤ℤ h.taxable_value)
      × (g.total_tax ≤ℤ h.total_tax)
      × (g.grand_total ≤ℤ h.grand_total)
calculate_mono v t t' rate txn cess le p q =
    let a = calculate-Accepted v (number (pos t)) rate txn cess p in
    let (u, r, c, et, er, ec, small, eh) =
      calculate_known v (number (pos t')) rate txn cess a.known q in
    let st : a.t ≡ t = number-inj (sym a.taxable_eq) in
    let su : u ≡ t' = number-inj (sym et) in
    let sr : r ≡ a.r = number-inj (sym er ∙ a.rate_eq) in
    let sc : c ≡ a.c = number-inj (sym ec ∙ a.cess_eq) in
    rw (a.result, eh, st, su, sr, sc) (build_mono v a.ty t t' a.r a.c le)

build_zero_tax :
    (v : Text) (ty : TransactionType) (t r c : ℕ)
    → is_zero_tax ty ≡ true
    → let g = build v ty (pos t) (pos r) (pos c) in
      (g.total_tax ≡ pos 0)
      × (g.grand_total ≡ g.taxable_value)
      × ((g.warnings ≡ []) ↔ (g.gst_rate ≡ pos 0))
unfolding build tax_split warnings_for
build_zero_tax v TransactionType.intra_state t r c zero = cc
build_zero_tax v TransactionType.inter_state t r c zero = cc
build_zero_tax v _ t r c zero = (
  omega int_laws,
  rw (round-of_decimal t) (omega int_laws),
  ((λ h. ground arith), (λ h. ground arith)),
)

-- A zero-rated, exempt or nil-rated supply bears no tax: its grand total is the rounded value, and
-- a warning is given exactly when a rate other than zero was passed.
pub calculate_zero_tax :
    (v : Text) (taxable rate : Numeric) (txn : Text) (cess : Numeric) {ty : TransactionType}
    {g : GstCalculation}
    → parse_transaction_type txn ≡ some ty
    → is_zero_tax ty ≡ true
    → calculate v taxable rate txn cess ≡ ok g
    → (g.total_tax ≡ pos 0)
      × (g.grand_total ≡ g.taxable_value)
      × ((g.warnings ≡ []) ↔ (g.gst_rate ≡ pos 0))
calculate_zero_tax v taxable rate txn cess {ty} known zero p =
    let (t, r, c, et, er, ec, small, eg) = calculate_known v taxable rate txn cess known p in
    rw eg (build_zero_tax v ty t r c zero)
