-- ===== src/Reconciliation/Weights.antt =====
-- The weight of the ids that the rows of one group report.
use gst_ai_copilot.Base.{
  ℕ, ◌+◌, ◌≡◌, refl, Option, none, some, List, [], ◌∷◌, map, arith, Text, length, drop,
}
use gst_ai_copilot.Reconciliation.{
  BookInvoice, ReturnRecord, ReconciliationResult, Reason, report_missing_in_return,
  report_missing_in_books, Tolerances, compare_pair, compare_pairs, reconcile_group, duplicate_book,
  duplicate_record,
}
use gst_ai_copilot.Reconciliation.Groups.{weigh, weigh-append}

abbrev pub weigh_id : (Text → ℕ) → Option Text → ℕ
weigh_id w none = 0
weigh_id w (some t) = w t

abbrev pub book_weight : (Text → ℕ) → ReconciliationResult → ℕ
book_weight w r = weigh_id w r.book_invoice_id

abbrev pub record_weight : (Text → ℕ) → ReconciliationResult → ℕ
record_weight w r = weigh_id w r.return_record_id

abbrev pub of_book : (Text → ℕ) → BookInvoice → ℕ
of_book w inv = w inv.invoice_id

abbrev pub of_record : (Text → ℕ) → ReturnRecord → ℕ
of_record w rec = w rec.record_id

module _ (w : Text → ℕ) where
  pub book-missing_in_return :
      (reason : Reason) (invs : List BookInvoice)
      → weigh (book_weight w) (map (report_missing_in_return reason) invs) ≡ weigh (of_book w) invs
  unfolding weigh
  book-missing_in_return reason [] = refl
  book-missing_in_return reason (inv ∷ invs) = omega (arith, book-missing_in_return reason invs)

  pub book-missing_in_books :
      (reason : Reason) (recs : List ReturnRecord)
      → weigh (book_weight w) (map (report_missing_in_books reason) recs) ≡ 0
  unfolding weigh
  book-missing_in_books reason [] = refl
  book-missing_in_books reason (rec ∷ recs) = omega (arith, book-missing_in_books reason recs)

  pub record-missing_in_return :
      (reason : Reason) (invs : List BookInvoice)
      → weigh (record_weight w) (map (report_missing_in_return reason) invs) ≡ 0
  unfolding weigh
  record-missing_in_return reason [] = refl
  record-missing_in_return reason (inv ∷ invs) = omega (arith, record-missing_in_return reason invs)

  pub record-missing_in_books :
      (reason : Reason) (recs : List ReturnRecord)
      → weigh (record_weight w) (map (report_missing_in_books reason) recs)
        ≡ weigh (of_record w) recs
  unfolding weigh
  record-missing_in_books reason [] = refl
  record-missing_in_books reason (rec ∷ recs) = omega (arith, record-missing_in_books reason recs)

  -- The pairs of a group and what is left of the longer side are the whole group.
  book-pairs :
      (tol : Tolerances) (invs : List BookInvoice) (recs : List ReturnRecord)
      → weigh (book_weight w) (compare_pairs tol invs recs)
          + weigh (of_book w) (drop (length recs) invs)
        ≡ weigh (of_book w) invs
  unfolding compare_pairs compare_pair weigh
  book-pairs tol [] [] = refl
  book-pairs tol [] (rec ∷ recs) = refl
  book-pairs tol (inv ∷ invs) [] = omega arith
  book-pairs tol (inv ∷ invs) (rec ∷ recs) = omega (arith, book-pairs tol invs recs)

  record-pairs :
      (tol : Tolerances) (invs : List BookInvoice) (recs : List ReturnRecord)
      → weigh (record_weight w) (compare_pairs tol invs recs)
          + weigh (of_record w) (drop (length invs) recs)
        ≡ weigh (of_record w) recs
  unfolding compare_pairs compare_pair weigh
  record-pairs tol [] recs = omega arith
  record-pairs tol (inv ∷ invs) [] = refl
  record-pairs tol (inv ∷ invs) (rec ∷ recs) = omega (arith, record-pairs tol invs recs)

  pub book-reconcile_group :
      (tol : Tolerances) (invs : List BookInvoice) (recs : List ReturnRecord)
      → weigh (book_weight w) (reconcile_group tol invs recs) ≡ weigh (of_book w) invs
  unfolding reconcile_group
  book-reconcile_group tol invs recs =
      rw (weigh-append, weigh-append)
        (omega (
          arith,
          book-pairs tol invs recs,
          book-missing_in_return duplicate_book (drop (length recs) invs),
          book-missing_in_books duplicate_record (drop (length invs) recs),
        ))

  pub record-reconcile_group :
      (tol : Tolerances) (invs : List BookInvoice) (recs : List ReturnRecord)
      → weigh (record_weight w) (reconcile_group tol invs recs) ≡ weigh (of_record w) recs
  unfolding reconcile_group
  record-reconcile_group tol invs recs =
      rw (weigh-append, weigh-append)
        (omega (
          arith,
          record-pairs tol invs recs,
          record-missing_in_return duplicate_book (drop (length recs) invs),
          record-missing_in_books duplicate_record (drop (length invs) recs),
        ))
