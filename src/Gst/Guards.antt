-- ===== src/Gst/Guards.antt =====
-- Which calls of `calculate` succeed, and with what.
use gst_ai_copilot.Base.{
  ℕ, ◌≤◌, ◌≡◌, refl, sym, ◌∙◌, ap, inl, inr, Option, some, arith, pos, negsuc, Text, ok,
  Option-cases,
}
use gst_ai_copilot.Gst.{
  TransactionType, parse_transaction_type, Numeric, number, unreadable, to_decimal, GstCalculation,
  build, calculate,
}

pub calculate-eq-ok :
    (v : Text) (t r c : ℕ) (txn : Text) {ty : TransactionType}
    → parse_transaction_type txn ≡ some ty
    → r ≤ 1_000_000
    → calculate v (number (pos t)) (number (pos r)) txn (number (pos c))
      ≡ ok (build v ty (pos t) (pos r) (pos c))
unfolding calculate to_decimal
calculate-eq-ok v t r c txn known small = ground arith

-- What a successful call of `calculate` was given, and what it returned.
pub record Accepted (v : Text) (taxable rate : Numeric) (txn : Text) (cess : Numeric)
    (g : GstCalculation) : Type 0 where
  pub t : ℕ
  pub r : ℕ
  pub c : ℕ
  pub ty : TransactionType
  pub taxable_eq : taxable ≡ number (pos t)
  pub rate_eq : rate ≡ number (pos r)
  pub cess_eq : cess ≡ number (pos c)
  pub known : parse_transaction_type txn ≡ some ty
  pub small : r ≤ 1_000_000
  pub result : g ≡ build v ty (pos t) (pos r) (pos c)

pub calculate-Accepted :
    (v : Text) (taxable rate : Numeric) (txn : Text) (cess : Numeric) {g : GstCalculation}
    → calculate v taxable rate txn cess ≡ ok g
    → Accepted v taxable rate txn cess g
unfolding calculate to_decimal
calculate-Accepted v (number (pos t)) (number (pos r)) txn (number (pos c)) h =
    elim (Option-cases (parse_transaction_type txn)) [
      | inl unknown ↦ absurd (ground arith)
      | inr (ty', e) ↦ record {
        t = t;
        r = r;
        c = c;
        ty = ty';
        taxable_eq = refl;
        rate_eq = refl;
        cess_eq = refl;
        known = e;
        small = ground arith;
        result = ground arith;
      }
    ]
calculate-Accepted v (number (negsuc t)) (number _) txn (number _) h = absurd (ground arith)
calculate-Accepted v (number (pos t)) (number (negsuc r)) txn (number _) h = absurd (ground arith)
calculate-Accepted v (number (pos t)) (number (pos r)) txn (number (negsuc c)) h =
    absurd (ground arith)
calculate-Accepted v unreadable _ txn _ h = cc
calculate-Accepted v (number _) unreadable txn _ h = cc
calculate-Accepted v (number _) (number _) txn unreadable h = cc

some-inj : {a b : TransactionType} → ◌≡◌ {A = Option TransactionType} (some a) (some b) → a ≡ b
some-inj e = ground arith

-- The same when the transaction type is known.
pub calculate_known :
    (v : Text) (taxable rate : Numeric) (txn : Text) (cess : Numeric) {g : GstCalculation}
    {ty : TransactionType}
    → parse_transaction_type txn ≡ some ty
    → calculate v taxable rate txn cess ≡ ok g
    → (t r c : ℕ) × (taxable ≡ number (pos t))
      × (rate ≡ number (pos r))
      × (cess ≡ number (pos c))
      × (r ≤ 1_000_000)
      × (g ≡ build v ty (pos t) (pos r) (pos c))
calculate_known v taxable rate txn cess {g} {ty} known h =
    let a = calculate-Accepted v taxable rate txn cess h in
    let e : a.ty ≡ ty = some-inj (sym a.known ∙ known) in
    (
      a.t,
      a.r,
      a.c,
      a.taxable_eq,
      a.rate_eq,
      a.cess_eq,
      a.small,
      (a.result ∙ ap (λ k. build v k (pos a.t) (pos a.r) (pos a.c)) e),
    )
