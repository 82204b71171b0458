-- ===== src/Reconciliation/Pairing.antt =====
-- What each result of `reconcile` stands for.
use mathlib.Core.List.{Mem}
use gst_ai_copilot.Base.{
  ◌≡◌, refl, sym, ◌∙◌, subst, ◌⊎◌, inl, inr, false, none, some, List, [], ◌∷◌, map, is_empty,
  Bool-cases, All, All-append, All-map, All-mono, All-drop, All-Mem, length, drop, pos, ◌-ℤ◌, ap,
  Option, Text, upper, strip, select, is_upper, is_digit, ◌||◌, ◌≤ℤ◌, abs, Decimal,
}
use gst_ai_copilot.Reconciliation.{
  MatchStatus, matched, mismatch, missing_in_return, missing_in_books, Key, key_eq, get_group,
  group_by_key, has_key, or_nil, BookInvoice, ReturnRecord, ReconciliationResult, Reason,
  Tolerances, compare_pair, compare_pairs, reconcile_group, match_books, leftover_records,
  reconcile, book_key, record_key, not_in_return, not_in_books, book_without_number,
  record_without_number, report_missing_in_return, report_missing_in_books, duplicate_book,
  duplicate_record, or_empty, match_key, normalize_gstin, normalize_invoice_number,
}
use gst_ai_copilot.Reconciliation.Groups.{
  key_eq_iff, GroupsOf, group_by_key-GroupsOf, unmatchable-All,
}

-- A GSTIN but for blanks around it and case, and the letters and digits of a number; what is missing
-- is the empty text.
abbrev pub plain_gstin : Option Text → Text
plain_gstin g = upper (strip (or_empty g))

abbrev pub plain_number : Option Text → Text
plain_number n = select (λ c. is_upper c || is_digit c) (upper (strip (or_empty n)))

-- A result is about one invoice alone, one record alone, or an invoice and a record with the same
-- GSTIN and the same number, which is not blank.
pub data Reported (tol : Tolerances) (P : BookInvoice → Type 0) (Q : ReturnRecord → Type 0)
    (r : ReconciliationResult) : Type 0 where
  lone_book :
      (inv : BookInvoice) (reason : Reason)
      → P inv
      → r ≡ report_missing_in_return reason inv
      → Reported tol P Q r
  lone_record :
      (rec : ReturnRecord) (reason : Reason)
      → Q rec
      → r ≡ report_missing_in_books reason rec
      → Reported tol P Q r
  pair :
      (inv : BookInvoice) (rec : ReturnRecord)
      → P inv
      → Q rec
      → plain_gstin inv.supplier_gstin ≡ plain_gstin rec.supplier_gstin
      → plain_number inv.invoice_number ≡ plain_number rec.invoice_number
      → is_empty (plain_number inv.invoice_number) ≡ false
      → r ≡ compare_pair tol inv rec
      → Reported tol P Q r

module _ (tol : Tolerances) (P : BookInvoice → Type 0) (Q : ReturnRecord → Type 0) where
  abbrev Fine : List ReconciliationResult → Type 0
  Fine rs = All (Reported tol P Q) rs

  abbrev BookAt : Key → BookInvoice → Type 0
  BookAt k inv = (book_key inv ≡ k) × (is_empty (book_key inv).1 ≡ false) × P inv

  abbrev RecordAt : Key → ReturnRecord → Type 0
  RecordAt k rec = (record_key rec ≡ k) × (is_empty (record_key rec).1 ≡ false) × Q rec

  lone_books :
      (reason : Reason) (invs : List BookInvoice)
      → All P invs
      → Fine (map (report_missing_in_return reason) invs)
  lone_books reason invs h =
      All-map (Reported tol P Q) (report_missing_in_return reason) invs
        (All-mono P _ (λ inv p. lone_book inv reason p refl) invs h)

  lone_records :
      (reason : Reason) (recs : List ReturnRecord)
      → All Q recs
      → Fine (map (report_missing_in_books reason) recs)
  lone_records reason recs h =
      All-map (Reported tol P Q) (report_missing_in_books reason) recs
        (All-mono Q _ (λ rec q. lone_record rec reason q refl) recs h)

  books_at : (k : Key) (invs : List BookInvoice) → All (BookAt k) invs → All P invs
  books_at k invs h = All-mono (BookAt k) P (λ inv b. b.2) invs h

  records_at : (k : Key) (recs : List ReturnRecord) → All (RecordAt k) recs → All Q recs
  records_at k recs h = All-mono (RecordAt k) Q (λ rec b. b.2) recs h

  pairs-Fine :
      (k : Key) (invs : List BookInvoice) (recs : List ReturnRecord)
      → All (BookAt k) invs
      → All (RecordAt k) recs
      → Fine (compare_pairs tol invs recs)
  unfolding compare_pairs match_key normalize_gstin normalize_invoice_number
  pairs-Fine k [] recs b r = tt
  pairs-Fine k (inv ∷ invs) [] b r = tt
  pairs-Fine k (inv ∷ invs) (rec ∷ recs) ((eb, nb, p), b) ((er, nr, q), r) = (
    pair inv rec p q (ap (λ j. j.0) (eb ∙ sym er)) (ap (λ j. j.1) (eb ∙ sym er)) nb refl,
    pairs-Fine k invs recs b r,
  )

  group-Fine :
      (k : Key) (invs : List BookInvoice) (recs : List ReturnRecord)
      → All (BookAt k) invs
      → All (RecordAt k) recs
      → Fine (reconcile_group tol invs recs)
  unfolding reconcile_group
  group-Fine k invs recs b r =
      All-append (Reported tol P Q) (compare_pairs tol invs recs) _ (pairs-Fine k invs recs b r) (
        All-append (Reported tol P Q)
          (map (report_missing_in_return duplicate_book) (drop (length recs) invs)) _
          (lone_books duplicate_book _ (All-drop P (length recs) invs (books_at k invs b)))
          (lone_records duplicate_record _ (All-drop Q (length invs) recs (records_at k recs r))))

  get_group_at :
      (k : Key) (records : List (Key × List ReturnRecord))
      → GroupsOf Q record_key records
      → All (RecordAt k) (or_nil (get_group k records))
  unfolding get_group
  get_group_at k [] h = tt
  get_group_at k ((j, recs) ∷ records) h = elim (Bool-cases (key_eq k j)) [
    | inl same ↦ rw same (subst (λ i. All (RecordAt i) recs) (sym ((key_eq_iff k j).0 same)) h.0)
    | inr other ↦ rw other (get_group_at k records h.1)
  ]

  match_books-Fine :
      (records : List (Key × List ReturnRecord)) (books : List (Key × List BookInvoice))
      → GroupsOf Q record_key records
      → GroupsOf P book_key books
      → Fine (match_books tol records books).0
  unfolding match_books
  match_books-Fine records [] hr hb = tt
  match_books-Fine records ((k, invs) ∷ books) hr hb =
      let rest = match_books-Fine records books hr hb.1 in
      elim (Bool-cases (is_empty (or_nil (get_group k records)))) [
        | inl absent ↦ rw absent (
            All-append (Reported tol P Q) _ _ (lone_books not_in_return invs (books_at k invs hb.0))
              rest)
        | inr present ↦ rw present (
            All-append (Reported tol P Q) _ _
              (group-Fine k invs (or_nil (get_group k records)) hb.0 (get_group_at k records hr))
              rest)
      ]

  leftover-Fine :
      (keys : List Key) (records : List (Key × List ReturnRecord))
      → GroupsOf Q record_key records
      → Fine (leftover_records keys records)
  unfolding leftover_records
  leftover-Fine keys [] h = tt
  leftover-Fine keys ((k, recs) ∷ records) h = elim (Bool-cases (has_key k keys)) [
    | inl old ↦ rw old (leftover-Fine keys records h.1)
    | inr new ↦ rw new (
        All-append (Reported tol P Q) _ _ (lone_records not_in_books recs (records_at k recs h.0))
          (leftover-Fine keys records h.1))
  ]

-- Every result is about one given invoice, one given record, or a given invoice and a given record.
-- The two have the same supplier GSTIN but for blanks around it and case, where a missing one is the
-- empty text, and the same invoice number but for case and all that is not a letter or a digit; of
-- such letters and digits there is one at least.
pub reconcile_sound :
    (tol : Tolerances) (books : List BookInvoice) (records : List ReturnRecord)
    → All
        (Reported tol (λ inv. Mem inv books) (λ rec. Mem rec records))
        (reconcile tol books records)
unfolding reconcile
reconcile_sound tol books records =
    let P = λ (inv : BookInvoice). Mem inv books in
    let Q = λ (rec : ReturnRecord). Mem rec records in
    let b = group_by_key book_key books in
    let r = group_by_key record_key records in
    let hb = group_by_key-GroupsOf P book_key books (All-Mem books) in
    let hr = group_by_key-GroupsOf Q record_key records (All-Mem records) in
    All-append (Reported tol P Q) _ _
      (lone_books tol P Q book_without_number b.unmatchable
        (unmatchable-All P book_key books (All-Mem books)))
      (All-append (Reported tol P Q) _ _
        (lone_records tol P Q record_without_number r.unmatchable
          (unmatchable-All Q record_key records (All-Mem records)))
        (All-append (Reported tol P Q) _ _ (match_books-Fine tol P Q r.by_key b.by_key hr hb)
          (leftover-Fine tol P Q (match_books tol r.by_key b.by_key).1 r.by_key hr)))

-- The two differences of a result are those of its amounts.
pub record Compared (r : ReconciliationResult) (book_tax return_tax : Decimal) : Type 0 where
  pub book_value : Decimal
  pub return_value : Decimal
  pub on_book : r.book_taxable_value ≡ some book_value
  pub on_return : r.return_taxable_value ≡ some return_value
  pub book_tax_eq : r.book_tax ≡ some book_tax
  pub return_tax_eq : r.return_tax ≡ some return_tax
  pub values_apart : r.taxable_value_difference ≡ abs (book_value -ℤ return_value)
  pub taxes_apart : r.tax_difference ≡ abs (book_tax -ℤ return_tax)

-- What a result's status says of its amounts.
abbrev pub StatusClaim : Tolerances → MatchStatus → ReconciliationResult → Type 0
StatusClaim tol matched r =
    (bt rt : Decimal) × Compared r bt rt
    × (r.taxable_value_difference ≤ℤ tol.taxable_value)
    × (r.tax_difference ≤ℤ tol.tax)
    × (r.itc_at_risk ≡ pos 0)
StatusClaim tol mismatch r =
    (bt rt : Decimal) × Compared r bt rt
    × (¬ (r.taxable_value_difference ≤ℤ tol.taxable_value) ⊎ ¬ (r.tax_difference ≤ℤ tol.tax))
    × (pos 0 ≤ℤ r.itc_at_risk)
    × (bt -ℤ rt ≤ℤ r.itc_at_risk)
    × ((r.itc_at_risk ≡ pos 0) ⊎ (r.itc_at_risk ≡ bt -ℤ rt))
StatusClaim tol missing_in_return r =
    (r.return_record_id ≡ none)
    × (r.book_tax ≡ some r.itc_at_risk)
    × (r.book_tax ≡ some r.tax_difference)
    × (r.book_taxable_value ≡ some r.taxable_value_difference)
StatusClaim tol missing_in_books r =
    (r.book_invoice_id ≡ none)
    × (r.itc_at_risk ≡ pos 0)
    × (r.return_tax ≡ some r.tax_difference)
    × (r.return_taxable_value ≡ some r.taxable_value_difference)
