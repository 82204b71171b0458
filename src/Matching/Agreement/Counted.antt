-- ===== src/Matching/Agreement/Counted.antt =====
-- The counts of a summary, against the results that they count (summarize in backend/app/rules/gstr_reconciliation.py).
use gst_ai_copilot.Base.{
  ℕ, ◌+◌, ◌≡◌, refl, ◌∙◌, inl, inr, Bool-cases, List, [], ◌∷◌, map, select, length, Decimal, ◌+ℤ◌,
  sum, sum-nil, sum-cons, int_laws, arith, if◌then◌else◌,
}
use gst_ai_copilot.Reconciliation.{
  MatchStatus, matched, mismatch, missing_in_return, missing_in_books, ReconciliationResult,
  ReconciliationSummary, summary_step, summarize_from,
}
use gst_ai_copilot.Matching.Service.Reads.{same_status}

abbrev pub count_of : MatchStatus → ReconciliationSummary → ℕ
count_of matched s = s.matched
count_of mismatch s = s.mismatch
count_of missing_in_return s = s.missing_in_return
count_of missing_in_books s = s.missing_in_books

abbrev pub results_of : MatchStatus → List ReconciliationResult → ℕ
results_of st rs = length (select (λ r. same_status r.status st) rs)

abbrev pub risk_of : List ReconciliationResult → Decimal
risk_of rs = sum (map (λ r. r.itc_at_risk) rs)

step-count :
    (t st : MatchStatus) (r : ReconciliationResult) (s : ReconciliationSummary)
    → r.status ≡ t
    → count_of st (summary_step r s) ≡ count_of st s + (if same_status t st then 1 else 0)
unfolding summary_step
step-count matched matched r s h = rw h refl
step-count matched mismatch r s h = rw h (omega arith)
step-count matched missing_in_return r s h = rw h (omega arith)
step-count matched missing_in_books r s h = rw h (omega arith)
step-count mismatch matched r s h = rw h (omega arith)
step-count mismatch mismatch r s h = rw h refl
step-count mismatch missing_in_return r s h = rw h (omega arith)
step-count mismatch missing_in_books r s h = rw h (omega arith)
step-count missing_in_return matched r s h = rw h (omega arith)
step-count missing_in_return mismatch r s h = rw h (omega arith)
step-count missing_in_return missing_in_return r s h = rw h refl
step-count missing_in_return missing_in_books r s h = rw h (omega arith)
step-count missing_in_books matched r s h = rw h (omega arith)
step-count missing_in_books mismatch r s h = rw h (omega arith)
step-count missing_in_books missing_in_return r s h = rw h (omega arith)
step-count missing_in_books missing_in_books r s h = rw h refl

pub summarize_from-count :
    (st : MatchStatus) (rs : List ReconciliationResult) (s : ReconciliationSummary)
    → count_of st (summarize_from s rs) ≡ count_of st s + results_of st rs
unfolding summarize_from
summarize_from-count st [] s = omega arith
summarize_from-count st (r ∷ rs) s =
    let rest = summarize_from-count st rs (summary_step r s) in
    let now = step-count r.status st r s refl in
    elim (Bool-cases (same_status r.status st)) [
      | inl t ↦ rw t (
          let one : count_of st (summary_step r s) ≡ count_of st s + 1 = now ∙ rw t refl in
          omega arith)
      | inr t ↦ rw t (
          let none_new : count_of st (summary_step r s) ≡ count_of st s + 0 = now ∙ rw t refl in
          omega arith)
    ]

step-risk :
    (r : ReconciliationResult) (s : ReconciliationSummary)
    → (summary_step r s).itc_at_risk ≡ s.itc_at_risk +ℤ r.itc_at_risk
unfolding summary_step
step-risk r s = refl

pub summarize_from-risk :
    (rs : List ReconciliationResult) (s : ReconciliationSummary)
    → (summarize_from s rs).itc_at_risk ≡ s.itc_at_risk +ℤ risk_of rs
unfolding summarize_from
summarize_from-risk [] s = rw sum-nil (omega int_laws)
summarize_from-risk (r ∷ rs) s =
    rw
      (
        summarize_from-risk rs (summary_step r s),
        step-risk r s,
        sum-cons r.itc_at_risk (map (λ k. k.itc_at_risk) rs),
      )
      (omega int_laws)
