-- ===== src/Matching/Agreement.antt =====
-- The counts of a stored run against its stored results, over any number of uploads and runs.
pub mod Counted
use gst_ai_copilot.Base.{
  ℕ, suc, ◌+◌, ◌==◌, ==_iff, ◌≡◌, ◌≢◌, refl, sym, ap, subst, ◌∙◌, inl, inr, true, false, not,
  Bool-cases, ◌&&◌, List, [], ◌∷◌, ◌++◌, map, map-append, select, select-append, length,
  length-append, Decimal, pos, ◌+ℤ◌, sum, sum-nil, sum-cons, sum-append, int_laws, arith, ok,
  >>=-eq-ok, ok-inj, All,
}
use gst_ai_copilot.Reconciliation.{
  MatchStatus, matched, mismatch, missing_in_return, missing_in_books, ReconciliationResult,
  summarize_from, summarize, no_results,
}
use gst_ai_copilot.Matching.Upload.{forget}
use gst_ai_copilot.Matching.{Gstr2bRecord, Source, ReconciliationRun, ReconciliationMatch}
use gst_ai_copilot.Matching.Service.{IdText, parse_id, match_of, matches_of, with_summary}
use gst_ai_copilot.Matching.Service.Reads.{same_status}
use gst_ai_copilot.Matching.Agreement.Counted.{
  results_of, risk_of, summarize_from-count, summarize_from-risk,
}

-- The stored results of a run, by status, and their tax at risk.
abbrev pub stored : ℕ → MatchStatus → List ReconciliationMatch → ℕ
stored i st ms = length (select (λ m. (m.run_id == i) && same_status m.status st) ms)

abbrev pub stored_risk : ℕ → List ReconciliationMatch → Decimal
stored_risk i ms = sum (map (λ m. m.itc_at_risk) (select (λ m. m.run_id == i) ms))

-- What is written for a list of results.
pub record AreResults (j : ℕ) (rs : List ReconciliationResult) (ms : List ReconciliationMatch)
    : Type 0 where
  pub of_run : All (λ m. m.run_id ≡ j) ms
  pub counts : (st : MatchStatus) → stored j st ms ≡ results_of st rs
  pub risk : stored_risk j ms ≡ risk_of rs

match_of-fields :
    (ids : IdText) (org j : ℕ) (r : ReconciliationResult) {m : ReconciliationMatch}
    → match_of ids org j r ≡ ok m
    → (m.run_id ≡ j) × (m.status ≡ r.status) × (m.itc_at_risk ≡ r.itc_at_risk)
unfolding match_of
match_of-fields ids org j r h =
    let (a, parsed, h1) = >>=-eq-ok (parse_id ids r.book_invoice_id) _ h in
    let (b, parsed2, h2) = >>=-eq-ok (parse_id ids r.return_record_id) _ h1 in
    let same = ok-inj h2 in
    (
      sym (ap (λ m. m.run_id) same),
      sym (ap (λ m. m.status) same),
      sym (ap (λ m. m.itc_at_risk) same),
    )

pub matches_of-AreResults :
    (ids : IdText) (org j : ℕ) (rs : List ReconciliationResult) {ms : List ReconciliationMatch}
    → matches_of ids org j rs ≡ ok ms
    → AreResults j rs ms
unfolding matches_of
matches_of-AreResults ids org j [] h =
    subst (AreResults j []) (ok-inj h) (record { of_run = tt; counts = λ st. refl; risk = refl })
matches_of-AreResults ids org j (r ∷ rs) h =
    let (m, first, h1) = >>=-eq-ok (match_of ids org j r) _ h in
    let (ms, others, h2) = >>=-eq-ok (matches_of ids org j rs) _ h1 in
    let (own, status, risk) = match_of-fields ids org j r first in
    let rest = matches_of-AreResults ids org j rs others in
    let here : (m.run_id == j) ≡ true = (==_iff m.run_id j).1 own in
    subst (AreResults j (r ∷ rs)) (ok-inj h2) (record {
      of_run = (own, rest.of_run);
      counts = λ st. elim (Bool-cases (same_status r.status st)) [
        | inl t ↦ rw (here, status, t) (ap suc (rest.counts st))
        | inr t ↦ rw (here, status, t) (rest.counts st)
      ];
      risk = rw here (
          rw
            (
              sum-cons m.itc_at_risk (map (λ k. k.itc_at_risk) (select (λ k. k.run_id == j) ms)),
              rest.risk,
              risk,
              sum-cons r.itc_at_risk (map (λ k. k.itc_at_risk) rs),
            )
            refl);
    })

-- Results that belong to other runs do not count.
pub stored-other :
    (i j : ℕ) (st : MatchStatus) (ms : List ReconciliationMatch)
    → i ≢ j
    → All (λ m. m.run_id ≡ j) ms
    → (stored i st ms ≡ 0) × (stored_risk i ms ≡ pos 0)
stored-other i j st [] ne h = (refl, sum-nil)
stored-other i j st (m ∷ ms) ne h =
    let away : (m.run_id == i) ≡ false = other m.run_id h.0 in
    rw away (stored-other i j st ms ne h.1)
  where
    other : (k : ℕ) → k ≡ j → (k == i) ≡ false
    other k e = elim (Bool-cases (k == i)) [
      | inl t ↦ absurd (ne (sym ((==_iff k i).0 t) ∙ e))
      | inr t ↦ t
    ]

stored-append :
    (i : ℕ) (st : MatchStatus) (ms ns : List ReconciliationMatch)
    → (stored i st (ms ++ ns) ≡ stored i st ms + stored i st ns)
      × (stored_risk i (ms ++ ns) ≡ stored_risk i ms +ℤ stored_risk i ns)
stored-append i st ms ns = (
  rw (select-append (λ m. (m.run_id == i) && same_status m.status st) ms ns)
      (length-append (select (λ m. (m.run_id == i) && same_status m.status st) ms) _),
  rw
      (
        select-append (λ m. m.run_id == i) ms ns,
        map-append (λ m. m.itc_at_risk) (select (λ m. m.run_id == i) ms)
            (select (λ m. m.run_id == i) ns),
      )
      (sum-append (map (λ m. m.itc_at_risk) (select (λ m. m.run_id == i) ms)) _),
)

-- The results of a run are deleted.
abbrev pub without_run : ℕ → List ReconciliationMatch → List ReconciliationMatch
without_run j ms = select (λ m. not (m.run_id == j)) ms

elsewhere : (k i j : ℕ) → i ≢ j → (k == j) ≡ true → (k == i) ≡ false
elsewhere k i j ne h = elim (Bool-cases (k == i)) [
  | inl t ↦ absurd (ne (sym ((==_iff k i).0 t) ∙ (==_iff k j).0 h))
  | inr t ↦ t
]

stored-kept :
    (i j : ℕ) (st : MatchStatus) (ms : List ReconciliationMatch)
    → i ≢ j
    → (stored i st (without_run j ms) ≡ stored i st ms)
      × (stored_risk i (without_run j ms) ≡ stored_risk i ms)
stored-kept i j st [] ne = (refl, refl)
stored-kept i j st (m ∷ ms) ne =
    let rest = stored-kept i j st ms ne in
    elim (Bool-cases (m.run_id == j)) [
      | inl gone ↦ rw (gone, elsewhere m.run_id i j ne gone) rest
      | inr here ↦ elim (Bool-cases (m.run_id == i)) [
        | inr away ↦ rw (here, away) rest
        | inl own ↦ elim (Bool-cases (same_status m.status st)) [
          | inl t ↦ rw (here, own, t) (ap suc rest.0, same_head m.itc_at_risk _ _ rest.1)
          | inr t ↦ rw (here, own, t) (rest.0, same_head m.itc_at_risk _ _ rest.1)
        ]
      ]
    ]
  where
    same_head : (x : Decimal) (xs ys : List Decimal) → sum xs ≡ sum ys → sum (x ∷ xs) ≡ sum (x ∷ ys)
    same_head x xs ys e = sum-cons x xs ∙ ap (λ z. x +ℤ z) e ∙ sym (sum-cons x ys)

pub stored-deleted :
    (j : ℕ) (st : MatchStatus) (ms : List ReconciliationMatch)
    → (stored j st (without_run j ms) ≡ 0) × (stored_risk j (without_run j ms) ≡ pos 0)
stored-deleted j st [] = (refl, sum-nil)
stored-deleted j st (m ∷ ms) = elim (Bool-cases (m.run_id == j)) [
  | inl gone ↦ rw gone (stored-deleted j st ms)
  | inr here ↦ rw here (rw here (stored-deleted j st ms))
]

-- The counts on the row are those of the stored results; the invoices are counted by the three
-- statuses that have one, the records by the three that have one.
pub record Agrees (ms : List ReconciliationMatch) (r : ReconciliationRun) : Type 0 where
  pub book_invoice_count :
      r.book_invoice_count ≡ r.matched_count + r.mismatch_count + r.missing_in_return_count
  pub return_record_count :
      r.return_record_count ≡ r.matched_count + r.mismatch_count + r.missing_in_books_count
  pub matched_count : r.matched_count ≡ stored r.id matched ms
  pub mismatch_count : r.mismatch_count ≡ stored r.id mismatch ms
  pub missing_in_return_count : r.missing_in_return_count ≡ stored r.id missing_in_return ms
  pub missing_in_books_count : r.missing_in_books_count ≡ stored r.id missing_in_books ms
  pub itc_at_risk : r.itc_at_risk ≡ stored_risk r.id ms

-- What an agreement says, by the status.
abbrev run_count : MatchStatus → ReconciliationRun → ℕ
run_count matched r = r.matched_count
run_count mismatch r = r.mismatch_count
run_count missing_in_return r = r.missing_in_return_count
run_count missing_in_books r = r.missing_in_books_count

abbrev IsCounted : ReconciliationRun → Type 0
IsCounted r =
    (r.book_invoice_count ≡ r.matched_count + r.mismatch_count + r.missing_in_return_count)
    × (r.return_record_count ≡ r.matched_count + r.mismatch_count + r.missing_in_books_count)

-- The totals of a summary are those of its statuses.
abbrev pub AreCounted : List ReconciliationResult → Type 0
AreCounted rs =
    let s = summarize rs in
    (s.total_book_invoices ≡ s.matched + s.mismatch + s.missing_in_return)
    × (s.total_return_records ≡ s.matched + s.mismatch + s.missing_in_books)

Agrees-from :
    (ms : List ReconciliationMatch) (r : ReconciliationRun)
    → ((st : MatchStatus) → run_count st r ≡ stored r.id st ms)
    → r.itc_at_risk ≡ stored_risk r.id ms
    → IsCounted r
    → Agrees ms r
Agrees-from ms r h k c = record {
  book_invoice_count = c.0;
  return_record_count = c.1;
  matched_count = h matched;
  mismatch_count = h mismatch;
  missing_in_return_count = h missing_in_return;
  missing_in_books_count = h missing_in_books;
  itc_at_risk = k;
}

Agrees-count :
    (ms : List ReconciliationMatch) (r : ReconciliationRun)
    → Agrees ms r
    → (st : MatchStatus) → run_count st r ≡ stored r.id st ms
Agrees-count ms r a matched = a.matched_count
Agrees-count ms r a mismatch = a.mismatch_count
Agrees-count ms r a missing_in_return = a.missing_in_return_count
Agrees-count ms r a missing_in_books = a.missing_in_books_count

-- New results of another run leave an agreement as it is.
pub Agrees-append :
    (j : ℕ) (ms ns : List ReconciliationMatch) (r : ReconciliationRun)
    → r.id ≢ j
    → All (λ m. m.run_id ≡ j) ns
    → Agrees ms r
    → Agrees (ms ++ ns) r
Agrees-append j ms ns r ne own a =
    Agrees-from (ms ++ ns) r
      (λ st.
        Agrees-count ms r a st
        ∙ sym (
            (stored-append r.id st ms ns).0
            ∙ rw ((stored-other r.id j st ns ne own).0) (omega arith)))
      (a.itc_at_risk
        ∙ sym (
            (stored-append r.id matched ms ns).1
            ∙ rw ((stored-other r.id j matched ns ne own).1) (omega int_laws)))
      (a.book_invoice_count, a.return_record_count)

pub Agrees-without_run :
    (j : ℕ) (ms : List ReconciliationMatch) (r : ReconciliationRun)
    → r.id ≢ j
    → Agrees ms r
    → Agrees (without_run j ms) r
Agrees-without_run j ms r ne a =
    Agrees-from (without_run j ms) r
      (λ st. Agrees-count ms r a st ∙ sym (stored-kept r.id j st ms ne).0)
      (a.itc_at_risk ∙ sym (stored-kept r.id j matched ms ne).1)
      (a.book_invoice_count, a.return_record_count)

-- A deleted record is forgotten by the results.
stored-forget :
    (gone : List Gstr2bRecord) (i : ℕ) (st : MatchStatus) (ms : List ReconciliationMatch)
    → (stored i st (map (forget gone) ms) ≡ stored i st ms)
      × (stored_risk i (map (forget gone) ms) ≡ stored_risk i ms)
stored-forget gone i st [] = (refl, refl)
stored-forget gone i st (m ∷ ms) =
    let rest = stored-forget gone i st ms in
    elim (Bool-cases (m.run_id == i)) [
      | inr away ↦ rw away rest
      | inl own ↦
          let risk =
            sum-cons m.itc_at_risk _
            ∙ ap (λ z. m.itc_at_risk +ℤ z) rest.1
            ∙ sym (sum-cons m.itc_at_risk _) in
          elim (Bool-cases (same_status m.status st)) [
            | inl t ↦ rw (own, t) (ap suc rest.0, risk)
            | inr t ↦ rw (own, t) (rest.0, risk)
          ]
    ]

pub Agrees-forget :
    (gone : List Gstr2bRecord) (ms : List ReconciliationMatch) (r : ReconciliationRun)
    → Agrees ms r
    → Agrees (map (forget gone) ms) r
Agrees-forget gone ms r a =
    Agrees-from (map (forget gone) ms) r
      (λ st. Agrees-count ms r a st ∙ sym (stored-forget gone r.id st ms).0)
      (a.itc_at_risk ∙ sym (stored-forget gone r.id matched ms).1)
      (a.book_invoice_count, a.return_record_count)

-- The row and the results of one run agree, where no other results are under its id.
pub Agrees-new :
    (source : Source) (user : ℕ) (r : ReconciliationRun) (rs : List ReconciliationResult)
    (ms ns : List ReconciliationMatch)
    → ((st : MatchStatus) → stored r.id st ms ≡ 0)
    → stored_risk r.id ms ≡ pos 0
    → AreResults r.id rs ns
    → AreCounted rs
    → Agrees (ms ++ ns) (with_summary source (summarize rs) user r)
unfolding with_summary summarize
Agrees-new source user r rs ms ns empty no_risk made counts =
    Agrees-from (ms ++ ns) _ (λ st. by_status st ∙ sym (counted st)) (risk ∙ sym at_risk) counts
  where
    counted : (st : MatchStatus) → stored r.id st (ms ++ ns) ≡ results_of st rs
    counted st = (stored-append r.id st ms ns).0 ∙ rw (empty st, made.counts st) (omega arith)

    at_risk : stored_risk r.id (ms ++ ns) ≡ risk_of rs
    at_risk = (stored-append r.id matched ms ns).1 ∙ rw (no_risk, made.risk) (omega int_laws)

    by_status :
        (st : MatchStatus)
        → run_count st (with_summary source (summarize_from no_results rs) user r)
          ≡ results_of st rs
    by_status matched = summarize_from-count matched rs no_results ∙ omega arith
    by_status mismatch = summarize_from-count mismatch rs no_results ∙ omega arith
    by_status missing_in_return = summarize_from-count missing_in_return rs no_results ∙ omega arith
    by_status missing_in_books = summarize_from-count missing_in_books rs no_results ∙ omega arith

    risk : (summarize_from no_results rs).itc_at_risk ≡ risk_of rs
    risk = summarize_from-risk rs no_results ∙ omega int_laws
