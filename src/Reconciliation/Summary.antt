-- ===== src/Reconciliation/Summary.antt =====
-- The counts of `summarize` over the results of a reconciliation.
use gst_ai_copilot.Base.{
  ℕ, ◌+◌, ◌≡◌, refl, sym, subst, ◌⊎◌, some, List, [], ◌∷◌, arith, Text, length, All,
}
use gst_ai_copilot.Reconciliation.{
  matched, mismatch, BookInvoice, ReturnRecord, ReconciliationResult, ReconciliationSummary,
  Tolerances, reconcile, summary_step, summarize_from, summarize, compare_pair, no_results,
}
use gst_ai_copilot.Reconciliation.Groups.{weigh}
use gst_ai_copilot.Reconciliation.Weights.{book_weight, record_weight}
use gst_ai_copilot.Reconciliation.Coverage.{reconcile_weights}
use gst_ai_copilot.Reconciliation.Pairing.{Reported, lone_book, lone_record, pair, reconcile_sound}

abbrev one : Text → ℕ
one i = 1

weigh-one : {A : Type 0} (xs : List A) → weigh (λ x. 1) xs ≡ length xs
unfolding weigh
weigh-one [] = refl
weigh-one (x ∷ xs) = omega (arith, weigh-one xs)

-- The results of the three statuses that have an invoice, and of the three that have a record.
abbrev with_book : ReconciliationSummary → ℕ
with_book s = s.matched + s.mismatch + s.missing_in_return

abbrev with_record : ReconciliationSummary → ℕ
with_record s = s.matched + s.mismatch + s.missing_in_books

-- What a run of the loop has added to the counts.
abbrev Adds : ReconciliationSummary → ReconciliationSummary → ℕ → ℕ → Type 0
Adds s t books records =
    (t.total_book_invoices ≡ s.total_book_invoices + books)
    × (t.total_return_records ≡ s.total_return_records + records)
    × (with_book t ≡ with_book s + books)
    × (with_record t ≡ with_record s + records)

compare_pair-status :
    (tol : Tolerances) (inv : BookInvoice) (rec : ReturnRecord)
    → ((compare_pair tol inv rec).status ≡ matched) ⊎ ((compare_pair tol inv rec).status ≡ mismatch)
unfolding compare_pair
compare_pair-status tol inv rec = ground arith

step-matched :
    (r : ReconciliationResult) (s : ReconciliationSummary)
    → (r.status ≡ matched) ⊎ (r.status ≡ mismatch)
    → {i j : Text} → r.book_invoice_id ≡ some i
    → r.return_record_id ≡ some j
    → Adds s (summary_step r s) 1 1
unfolding summary_step
step-matched r s k eb er = ground arith

summary_step-Adds :
    (tol : Tolerances) (P : BookInvoice → Type 0) (Q : ReturnRecord → Type 0)
    (r : ReconciliationResult) (s : ReconciliationSummary)
    → Reported tol P Q r
    → Adds s (summary_step r s) (book_weight one r) (record_weight one r)
unfolding summary_step
summary_step-Adds tol P Q r s (lone_book inv reason p e) = rw e (omega arith)
summary_step-Adds tol P Q r s (lone_record rec reason q e) = rw e (omega arith)
summary_step-Adds tol P Q r s (pair inv rec p q e number f g) =
    subst (λ k. Adds s (summary_step k s) (book_weight one k) (record_weight one k)) (sym g)
      (unfold compare_pair in
        step-matched (compare_pair tol inv rec) s (compare_pair-status tol inv rec) refl refl)

summarize_from-Adds :
    (tol : Tolerances) (P : BookInvoice → Type 0) (Q : ReturnRecord → Type 0)
    (rs : List ReconciliationResult) (s : ReconciliationSummary)
    → All (Reported tol P Q) rs
    → Adds s (summarize_from s rs) (weigh (book_weight one) rs) (weigh (record_weight one) rs)
unfolding summarize_from weigh
summarize_from-Adds tol P Q [] s h = omega arith
summarize_from-Adds tol P Q (r ∷ rs) s h = omega (
  arith,
  summarize_from-Adds tol P Q rs (summary_step r s) h.1,
  summary_step-Adds tol P Q r s h.0,
)

-- The counts of a reconciliation's summary add up: it counts each purchase invoice once, as matched,
-- mismatched or missing in the return, and each record once, as matched, mismatched or missing in
-- the books.
pub summary_counts :
    (tol : Tolerances) (books : List BookInvoice) (records : List ReturnRecord)
    → let s = summarize (reconcile tol books records) in
      (s.total_book_invoices ≡ length books)
      × (s.total_return_records ≡ length records)
      × (s.matched + s.mismatch + s.missing_in_return ≡ length books)
      × (s.matched + s.mismatch + s.missing_in_books ≡ length records)
unfolding summarize
summary_counts tol books records =
    let adds =
      summarize_from-Adds tol _ _ (reconcile tol books records) no_results
        (reconcile_sound tol books records) in
    let (b, r) = reconcile_weights one tol books records in
    omega (arith, adds, b, r, weigh-one books, weigh-one records)
