-- ===== src/Filing/Periods.antt =====
-- Which calls of `generate` succeed.
use gst_ai_copilot.Base.{
  true-false, find, ℕ, ◌+◌, ◌*◌, ◌≤◌, ◌==◌, ==_iff, ◌≡◌, ◌≢◌, refl, ap, ◌↔◌, ◌⊎◌, inl, inr, false,
  Bool-cases, Option-cases, none, some, true, not, ◌&&◌, leb, raise_if, is_unicode_digit,
  decimal_value, decimal-is_digit, [], ◌∷◌, Text, arith, All, Result-cases, ok,
}
use gst_ai_copilot.Filing.{
  Uuid, UuidText, Db, GstReturn, ReturnType, ReturnStatus, approved_return, exported, draft,
  generated, under_review, filed_externally, bad_month,
}
use gst_ai_copilot.Filing.Prepare.{
  validate_period, are_digits, month_of, check_month, is_for, is_closed, generate, figures_for,
  add_return, renew_return,
}
use gst_ai_copilot.Filing.Results.{Generation, adds, renews, generate-eq-ok}

-- Four digits of a year, a dash and two digits that read as a number from 1 to 12. A year may have
-- any digits of Unicode, a month those that are decimals.
pub record IsMonth (period : Text) : Type 0 where
  pub y1 : ℕ
  pub y2 : ℕ
  pub y3 : ℕ
  pub y4 : ℕ
  pub m1 : ℕ
  pub m2 : ℕ
  pub shape : period ≡ y1 ∷ y2 ∷ y3 ∷ y4 ∷ b'-' ∷ m1 ∷ m2 ∷ []
  pub year : All (λ c. is_unicode_digit c ≡ true) (y1 ∷ y2 ∷ y3 ∷ y4 ∷ [])
  pub tens : ℕ
  pub units : ℕ
  pub tens_eq : decimal_value m1 ≡ some tens
  pub units_eq : decimal_value m2 ≡ some units
  pub from_january : 1 ≤ tens * 10 + units
  pub to_december : tens * 10 + units ≤ 12

check_month_ok :
    (m1 m2 : ℕ)
    → check_month (month_of m1 m2) ≡ ok tt
    → (tens units : ℕ) × (decimal_value m1 ≡ some tens)
      × (decimal_value m2 ≡ some units)
      × (1 ≤ tens * 10 + units)
      × (tens * 10 + units ≤ 12)
unfolding month_of
check_month_ok m1 m2 h = elim (Option-cases (decimal_value m1)) [
  | inl e ↦ absurd (ground arith)
  | inr (t, et) ↦ elim (Option-cases (decimal_value m2)) [
    | inl e ↦ absurd (ground arith)
    | inr (u, eu) ↦ (t, u, et, eu, ground arith, ground arith)
  ]
]

validate_period-IsMonth : (period : Text) → validate_period period ≡ ok tt → IsMonth period
unfolding validate_period
validate_period-IsMonth (y1 ∷ y2 ∷ y3 ∷ y4 ∷ dash ∷ m1 ∷ m2 ∷ []) h =
    elim (Bool-cases (dash == b'-')) [
      | inr other ↦ absurd (ground arith)
      | inl same ↦ elim (Bool-cases (are_digits (y1 ∷ y2 ∷ y3 ∷ y4 ∷ m1 ∷ m2 ∷ []))) [
        | inr bad ↦ absurd (ground arith)
        | inl digits ↦
            let month : check_month (month_of m1 m2) ≡ ok tt = ground arith in
            let (tens, units, et, eu, low, high) = check_month_ok m1 m2 month in
            record {
              y1 = y1;
              y2 = y2;
              y3 = y3;
              y4 = y4;
              m1 = m1;
              m2 = m2;
              shape = ap (λ d. y1 ∷ y2 ∷ y3 ∷ y4 ∷ d ∷ m1 ∷ m2 ∷ []) ((==_iff dash b'-').0 same);
              year = ground arith;
              tens = tens;
              units = units;
              tens_eq = et;
              units_eq = eu;
              from_january = low;
              to_december = high;
            }
      ]
    ]
validate_period-IsMonth _ h = cc

IsMonth-validate_period : (period : Text) → IsMonth period → validate_period period ≡ ok tt
unfolding validate_period month_of
IsMonth-validate_period period m =
    let (d1, (d2, (d3, (d4, _)))) = m.year in
    let d5 = decimal-is_digit m.m1 m.tens_eq in
    let d6 = decimal-is_digit m.m2 m.units_eq in
    rw (m.shape) (
      rw (validate_period, d1, d2, d3, d4, d5, d6, month_of, m.tens_eq, m.units_eq)
        (checked (m.tens * 10 + m.units) m.from_january m.to_december))
  where
    checked : (n : ℕ) → 1 ≤ n → n ≤ 12 → raise_if (not (leb 1 n && leb n 12)) bad_month ≡ ok tt
    checked n low high = ground arith

-- There is no return of the period, or it is not approved and not filed.
abbrev pub IsOpen : Uuid → ReturnType → Text → Db → Type 0
IsOpen org ty period db =
    (find (is_for org ty period) db.returns ≡ none)
    ⊎ ((r : GstReturn) × (find (is_for org ty period) db.returns ≡ some r)
        × (r.status ≢ approved_return)
        × (r.status ≢ filed_externally))

generates-valid :
    (texts : UuidText) (version : Text) (org user : Uuid) (ty : ReturnType) (period : Text)
    (db : Db) {db' : Db}
    → generate texts version org user ty period db ≡ ok db'
    → validate_period period ≡ ok tt
unfolding generate
generates-valid texts version org user ty period db e =
    elim (Result-cases (validate_period period)) [
      | inr (x, bad) ↦ absurd (ground arith)
      | inl (u, good) ↦ good
    ]

closed_iff :
    (s : ReturnStatus) → (is_closed s ≡ false) ↔ ((s ≢ approved_return) × (s ≢ filed_externally))
closed_iff draft = (λ e. (λ k. cc, λ k. cc), λ h. refl)
closed_iff generated = (λ e. (λ k. cc, λ k. cc), λ h. refl)
closed_iff under_review = (λ e. (λ k. cc, λ k. cc), λ h. refl)
closed_iff exported = (λ e. (λ k. cc, λ k. cc), λ h. refl)
closed_iff approved_return = (λ e. absurd (true-false e), λ h. absurd (h.0 refl))
closed_iff filed_externally = (λ e. absurd (true-false e), λ h. absurd (h.1 refl))

Generation-IsOpen :
    (texts : UuidText) (version : Text) (org user : Uuid) (ty : ReturnType) (period : Text)
    (db : Db) {db' : Db}
    → Generation texts version org user ty period db db'
    → IsOpen org ty period db
Generation-IsOpen texts version org user ty period db (adds missing e) = inl missing
Generation-IsOpen texts version org user ty period db (renews r there unlocked e) =
    let (a, f) = (closed_iff r.status).0 unlocked in inr (r, there, a, f)

open-generates :
    (texts : UuidText) (version : Text) (org user : Uuid) (ty : ReturnType) (period : Text)
    (db : Db)
    → validate_period period ≡ ok tt
    → IsOpen org ty period db
    → (db' : Db) × (generate texts version org user ty period db ≡ ok db')
unfolding generate
open-generates texts version org user ty period db good (inl missing) =
    (add_return version org user ty period (figures_for org ty period db) db, ground arith)
open-generates texts version org user ty period db good (inr (r, there, a, f)) =
    let unlocked = (closed_iff r.status).1 (a, f) in
    (renew_return texts org user ty period (figures_for org ty period db) r db, ground arith)

-- `generate` succeeds exactly for a calendar month, in digits of any script, whose return, if there is one, has neither the
-- status approved nor the status filed; the status exported does not stand in the way.
pub generate_ok_iff :
    (texts : UuidText) (version : Text) (org user : Uuid) (ty : ReturnType) (period : Text)
    (db : Db)
    → ((db' : Db) × (generate texts version org user ty period db ≡ ok db'))
      ↔ (IsMonth period × IsOpen org ty period db)
generate_ok_iff texts version org user ty period db = (
  λ (db', e). (
    validate_period-IsMonth period (generates-valid texts version org user ty period db e),
    Generation-IsOpen texts version org user ty period db
        (generate-eq-ok texts version org user ty period db e),
  ),
  λ (m, o). open-generates texts version org user ty period db (IsMonth-validate_period period m) o,
)
