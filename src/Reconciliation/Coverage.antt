-- ===== src/Reconciliation/Coverage.antt =====
-- Every invoice and every record is reported exactly as often as it was given.
use gst_ai_copilot.Base.{
  ℕ, ◌+◌, ◌≡◌, refl, sym, ◌∙◌, ap, subst, inl, inr, true, false, none, List, [], ◌∷◌, arith, Text,
  text_eq, is_empty, Bool-cases, if◌then◌else◌,
}
use gst_ai_copilot.Reconciliation.{
  Key, key_eq, get_group, group_by_key, has_key, or_nil, BookInvoice, ReturnRecord,
  ReconciliationResult, Tolerances, match_books, leftover_records, reconcile, book_key, record_key,
  not_in_return, not_in_books, book_without_number, record_without_number,
}
use gst_ai_copilot.Reconciliation.Groups.{
  key_eq_iff, weigh, weigh-append, weigh_groups, weigh-group_by_key, KeysApart,
  group_by_key-KeysApart,
}
use gst_ai_copilot.Reconciliation.Weights.{
  book_weight, record_weight, of_book, of_record, book-missing_in_return, book-missing_in_books,
  record-missing_in_return, record-missing_in_books, book-reconcile_group, record-reconcile_group,
}

-- The keys of the books for which there are records: `matched_keys` after the loop.
abbrev BooksByKey : Type 0
BooksByKey = List (Key × List BookInvoice)

abbrev RecordsByKey : Type 0
RecordsByKey = List (Key × List ReturnRecord)

module _ (w : Text → ℕ) (tol : Tolerances) where
  book-match_books :
      (records : RecordsByKey) (books : BooksByKey)
      → weigh (book_weight w) (match_books tol records books).0 ≡ weigh_groups (of_book w) books
  unfolding match_books weigh weigh_groups
  book-match_books records [] = refl
  book-match_books records ((k, invs) ∷ books) =
      let ih = book-match_books records books in
      elim (Bool-cases (is_empty (or_nil (get_group k records)))) [
        | inl absent ↦
            rw absent
              (rw weigh-append (omega (arith, ih, book-missing_in_return w not_in_return invs)))
        | inr present ↦ rw present (
            rw weigh-append
              (omega (arith, ih, book-reconcile_group w tol invs (or_nil (get_group k records)))))
      ]

  book-leftover_records :
      (keys : List Key) (records : RecordsByKey)
      → weigh (book_weight w) (leftover_records keys records) ≡ 0
  unfolding leftover_records weigh
  book-leftover_records keys [] = refl
  book-leftover_records keys ((k, recs) ∷ records) =
      let ih = book-leftover_records keys records in
      elim (Bool-cases (has_key k keys)) [
        | inl old ↦ rw old ih
        | inr new ↦
            rw new (rw weigh-append (omega (arith, ih, book-missing_in_books w not_in_books recs)))
      ]

  -- The records of a key, if any.
  abbrev found : Key → RecordsByKey → ℕ
  found k records = weigh (of_record w) (or_nil (get_group k records))

  -- The records that the first loop reports.
  unfoldable found_all : RecordsByKey → BooksByKey → ℕ
  found_all records [] = 0
  found_all records ((k, invs) ∷ books) = found k records + found_all records books

  weigh-is_empty : {A : Type 0} (v : A → ℕ) (xs : List A) → is_empty xs ≡ true → weigh v xs ≡ 0
  unfolding weigh
  weigh-is_empty v [] e = refl
  weigh-is_empty v (x ∷ xs) e = cc

  found-absent :
      (k : Key) (records : RecordsByKey) → get_group k records ≡ none → found k records ≡ 0
  unfolding weigh
  found-absent k records e = rw e refl

  record-match_books :
      (records : RecordsByKey) (books : BooksByKey)
      → weigh (record_weight w) (match_books tol records books).0 ≡ found_all records books
  unfolding match_books found_all weigh
  record-match_books records [] = refl
  record-match_books records ((k, invs) ∷ books) =
      let ih = record-match_books records books in
      let recs = or_nil (get_group k records) in
      elim (Bool-cases (is_empty recs)) [
        | inl absent ↦ rw absent (
            rw weigh-append (
              omega (
                arith,
                ih,
                record-missing_in_return w not_in_return invs,
                weigh-is_empty (of_record w) recs absent,
              )))
        | inr present ↦
            rw present (rw weigh-append (omega (arith, ih, record-reconcile_group w tol invs recs)))
      ]

  -- The records that the last loop reports.
  unfoldable left_all : List Key → RecordsByKey → ℕ
  left_all keys [] = 0
  left_all keys ((k, recs) ∷ records) =
      (if has_key k keys then 0 else weigh (of_record w) recs) + left_all keys records

  record-leftover_records :
      (keys : List Key) (records : RecordsByKey)
      → weigh (record_weight w) (leftover_records keys records) ≡ left_all keys records
  unfolding leftover_records left_all weigh
  record-leftover_records keys [] = refl
  record-leftover_records keys ((k, recs) ∷ records) =
      let ih = record-leftover_records keys records in
      elim (Bool-cases (has_key k keys)) [
        | inl old ↦ rw old (omega (arith, ih))
        | inr new ↦
            rw new
              (rw weigh-append (omega (arith, ih, record-missing_in_books w not_in_books recs)))
      ]

  -- A key that the books do not hold is not among the matched ones.
  matched_new :
      (records : RecordsByKey) (k : Key) (books : BooksByKey)
      → get_group k books ≡ none
      → has_key k (match_books tol records books).1 ≡ false
  unfolding match_books has_key get_group
  matched_new records k [] e = refl
  matched_new records k ((j, invs) ∷ books) e = ground (arith, matched_new records k books)

  left_all-nil : (records : RecordsByKey) → left_all [] records ≡ weigh_groups (of_record w) records
  unfolding left_all weigh_groups has_key
  left_all-nil [] = refl
  left_all-nil ((k, recs) ∷ records) = omega (arith, left_all-nil records)

  -- A key that joins the matched ones takes its records from the last loop.
  left_all-cons :
      (j : Key) (keys : List Key) (records : RecordsByKey)
      → has_key j keys ≡ false
      → KeysApart records
      → found j records + left_all (j ∷ keys) records ≡ left_all keys records
  unfolding left_all get_group has_key weigh
  left_all-cons j keys [] new apart = refl
  left_all-cons j keys ((k, recs) ∷ records) new apart =
      let ih = left_all-cons j keys records new apart.1 in
      elim (Bool-cases (key_eq j k)) [
        | inl same ↦
            let e : j ≡ k = (key_eq_iff j k).0 same in
            let none_left : found j records ≡ 0 =
              found-absent j records (ap (λ i. get_group i records) e ∙ apart.0) in
            let new' : has_key k keys ≡ false = subst (λ i. has_key i keys ≡ false) e new in
            let same' : key_eq k j ≡ true = (key_eq_iff k j).1 (sym e) in
            rw (same, same', new') (omega arith)
        | inr other ↦
            let other' : key_eq k j ≡ false = ground (arith, key_eq_iff j k, key_eq_iff k j) in
            rw (other, other') (omega arith)
      ]

  -- Both loops together report all records.
  all_found :
      (records : RecordsByKey) (books : BooksByKey)
      → KeysApart records
      → KeysApart books
      → found_all records books + left_all (match_books tol records books).1 records
        ≡ weigh_groups (of_record w) records
  unfolding found_all match_books
  all_found records [] ra ba = omega (arith, left_all-nil records)
  all_found records ((k, invs) ∷ books) ra ba =
      let ih = all_found records books ra ba.1 in
      let recs = or_nil (get_group k records) in
      let keys = (match_books tol records books).1 in
      elim (Bool-cases (is_empty recs)) [
        | inl absent ↦ rw absent (omega (arith, ih, weigh-is_empty (of_record w) recs absent))
        | inr present ↦
            rw present (
              omega (arith, ih, left_all-cons k keys records (matched_new records k books ba.0) ra))
      ]

-- Whatever the weights of the ids, the results weigh as much as the invoices by the ids of the books,
-- and as much as the records by the ids of the records.
pub reconcile_weights :
    (w : Text → ℕ) (tol : Tolerances) (books : List BookInvoice) (records : List ReturnRecord)
    → (weigh (book_weight w) (reconcile tol books records) ≡ weigh (of_book w) books)
      × (weigh (record_weight w) (reconcile tol books records) ≡ weigh (of_record w) records)
unfolding reconcile
reconcile_weights w tol books records =
    let b = group_by_key book_key books in
    let r = group_by_key record_key records in
    let keys = (match_books tol r.by_key b.by_key).1 in
    (
      rw (weigh-append, weigh-append, weigh-append)
          (omega (
            arith,
            book-missing_in_return w book_without_number b.unmatchable,
            book-missing_in_books w record_without_number r.unmatchable,
            book-match_books w tol r.by_key b.by_key,
            book-leftover_records w tol keys r.by_key,
            weigh-group_by_key (of_book w) book_key books,
          )),
      rw (weigh-append, weigh-append, weigh-append)
          (omega (
            arith,
            record-missing_in_return w book_without_number b.unmatchable,
            record-missing_in_books w record_without_number r.unmatchable,
            record-match_books w tol r.by_key b.by_key,
            record-leftover_records w tol keys r.by_key,
            all_found w tol r.by_key b.by_key (group_by_key-KeysApart record_key records)
                (group_by_key-KeysApart book_key books),
            weigh-group_by_key (of_record w) record_key records,
          )),
    )

-- How often an id occurs.
abbrev pub is_id : Text → Text → ℕ
is_id i j = if text_eq i j then 1 else 0

abbrev pub reports_of_book : Text → List ReconciliationResult → ℕ
reports_of_book i results = weigh (book_weight (is_id i)) results

abbrev pub reports_of_record : Text → List ReconciliationResult → ℕ
reports_of_record i results = weigh (record_weight (is_id i)) results

abbrev pub books_with_id : Text → List BookInvoice → ℕ
books_with_id i books = weigh (of_book (is_id i)) books

abbrev pub records_with_id : Text → List ReturnRecord → ℕ
records_with_id i records = weigh (of_record (is_id i)) records

-- Nothing is dropped or reported twice: each id stands in the results as often as among the purchase
-- invoices, and each record's id as often as among the records, blank and repeated numbers included.
pub reconcile_reports_all :
    (i : Text) (tol : Tolerances) (books : List BookInvoice) (records : List ReturnRecord)
    → (reports_of_book i (reconcile tol books records) ≡ books_with_id i books)
      × (reports_of_record i (reconcile tol books records) ≡ records_with_id i records)
reconcile_reports_all i tol books records = reconcile_weights (is_id i) tol books records
