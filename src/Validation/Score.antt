-- ===== src/Validation/Score.antt =====
-- From the outcomes of rules to the count, the penalty and the status.
use gst_ai_copilot.Base.{
  ℕ, ◌-◌, ◌≤◌, ◌≡◌, refl, sym, ◌∙◌, ◌↔◌, inl, inr, true, Bool-cases, List, [], ◌∷◌, ◌++◌, arith,
  is_empty, any, All, All-append, length,
}
use gst_ai_copilot.Validation.{
  passed, warning, failed, ValidationIssue, penalty_of, Outcome, issues_of, passed_of, penalty,
  is_critical, status_of, ReportStatus, passed, failed,
}

abbrev pub IsWeighty : ValidationIssue → Type 0
IsWeighty i = 8 ≤ penalty_of i.severity

-- A rule passes when and only when it appends nothing, and all that it appends costs points.
pub record IsFair (o : Outcome) : Type 0 where
  pub passed_eq : o.is_passed ≡ is_empty o.found
  pub weighty : All IsWeighty o.found

pub passed-le : (os : List Outcome) → passed_of os ≤ length os
unfolding passed_of
passed-le [] = omega arith
passed-le (o ∷ os) = elim (Bool-cases o.is_passed) [
  | inl t ↦ rw t (omega (arith, passed-le os))
  | inr t ↦ rw t (omega (arith, passed-le os))
]

is_empty-append :
    {A : Type 0} (xs ys : List A)
    → (is_empty (xs ++ ys) ≡ true) ↔ ((is_empty xs ≡ true) × (is_empty ys ≡ true))
is_empty-append [] ys = (λ h. (refl, h), λ h. h.1)
is_empty-append (x ∷ xs) ys = (λ h. cc, λ h. cc)

pub passed_count_iff :
    (os : List Outcome)
    → All IsFair os
    → (passed_of os ≡ length os) ↔ (is_empty (issues_of os) ≡ true)
unfolding passed_of issues_of
passed_count_iff [] h = (λ e. refl, λ e. refl)
passed_count_iff (o ∷ os) h =
    let both = is_empty-append o.found (issues_of os) in
    let rest = passed_count_iff os h.1 in
    elim (Bool-cases o.is_passed) [
      | inl t ↦ rw t (
        λ e. both.1 (sym h.0.passed_eq ∙ t, rest.0 (omega arith)),
        λ e. omega (arith, rest.1 (both.0 e).1),
      )
      | inr t ↦ rw t (
        λ e. absurd (omega (arith, passed-le os)),
        λ e. let p = (both.0 e).0 in let q = h.0.passed_eq in absurd (ground arith),
      )
    ]

pub issues-IsWeighty : (os : List Outcome) → All IsFair os → All IsWeighty (issues_of os)
unfolding issues_of
issues-IsWeighty [] h = tt
issues-IsWeighty (o ∷ os) h =
    All-append IsWeighty o.found (issues_of os) h.0.weighty (issues-IsWeighty os h.1)

critical-penalty : (is : List ValidationIssue) → any is_critical is ≡ true → 30 ≤ penalty is
unfolding penalty
critical-penalty [] h = cc
critical-penalty (i ∷ is) h = elim (Bool-cases (is_critical i)) [
  | inl t ↦ let le = critical_weight i t in omega arith
  | inr t ↦ let le = critical-penalty is (sym (rw t refl) ∙ h) in omega arith
]
  where
    critical_weight : (k : ValidationIssue) → is_critical k ≡ true → 30 ≤ penalty_of k.severity
    critical_weight k e = ground arith

-- How the score follows the status.
abbrev pub IsScoredAs : ReportStatus → ℕ → Type 0
IsScoredAs passed score = score ≡ 100
IsScoredAs warning score = score ≤ 92
IsScoredAs failed score = score ≤ 70

pub status-IsScoredAs :
    (is : List ValidationIssue) → All IsWeighty is → IsScoredAs (status_of is) (100 - penalty is)
unfolding status_of penalty
status-IsScoredAs [] h = refl
status-IsScoredAs (i ∷ is) h = elim (Bool-cases (any is_critical (i ∷ is))) [
  | inl t ↦ let heavy = critical-penalty (i ∷ is) t in rw t (omega arith)
  | inr t ↦ let w = h.0 in rw t (omega arith)
]
