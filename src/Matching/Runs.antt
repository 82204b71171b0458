-- ===== src/Matching/Runs.antt =====
-- The stored runs after any number of uploads and runs.
pub mod Stored
use gst_ai_copilot.Base.{
  ℕ, ◌+◌, ◌<◌, ◌≡◌, refl, sym, subst, ◌∙◌, inl, inr, Option, Option-cases, List, length, find, Text,
  Decimal, arith, ok, >>=-eq-ok, ok-inj, raise_if, is_empty, All-mono, All-map, map, select,
}
use gst_ai_copilot.Reconciliation.{
  ReconciliationResult, Tolerances, BookInvoice, ReturnRecord, reconcile,
}
use gst_ai_copilot.Reconciliation.Summary.{summary_counts}
use gst_ai_copilot.Matching.Agreement.{AreCounted, Agrees, Agrees-forget}
use gst_ai_copilot.Matching.{Source, ReconciliationRun, Db, nothing_uploaded, no_data_rows}
use gst_ai_copilot.Matching.Upload.{UploadRow, check_period, is_upload, forget, import_records}
use gst_ai_copilot.Matching.Service.{IdText, is_run_of, store_results, run, load_records}
use gst_ai_copilot.Matching.Runs.Stored.{
  IsConsistent, store_new-IsConsistent, store_again-IsConsistent,
}

store_results-IsConsistent :
    (ids : IdText) (org user : ℕ) (period : Text) (source : Source)
    (results : List ReconciliationResult) (db : Db) {done : Db × ReconciliationRun}
    → store_results ids org user period source results db ≡ ok done
    → AreCounted results
    → IsConsistent db
    → IsConsistent done.0
unfolding store_results
store_results-IsConsistent ids org user period source results db {done} h counts c =
    elim (Option-cases (find (is_run_of org period) db.runs)) [
      | inl missing ↦
          store_new-IsConsistent ids org user period source results db
            (sym (rw (store_results, missing) refl) ∙ h) counts c
      | inr (old, there) ↦
          store_again-IsConsistent ids org user period source results old db
            (sym (rw (store_results, there) refl) ∙ h) there counts c
    ]

reconcile-AreCounted :
    (tol : Tolerances) (books : List BookInvoice) (records : List ReturnRecord)
    → AreCounted (reconcile tol books records)
reconcile-AreCounted tol books records =
    let (b, r, bs, rs) = summary_counts tol books records in (b ∙ sym bs, r ∙ sym rs)

run-IsConsistent :
    (ids : IdText) (org user : ℕ) (period : Text) (source : Source) (db : Db)
    {done : Db × ReconciliationRun}
    → run ids org user period source db ≡ ok done
    → IsConsistent db
    → IsConsistent done.0
unfolding run
run-IsConsistent ids org user period source db {done} h c =
    let (u, checked, h1) = >>=-eq-ok (check_period period) _ h in
    let (w, some_there, h2) =
      >>=-eq-ok (raise_if (is_empty (load_records org period source db)) nothing_uploaded) _ h1 in
    store_results-IsConsistent ids org user period source _ db h2 (reconcile-AreCounted _ _ _) c

import-IsConsistent :
    (read : Text → Option Decimal) (org user : ℕ) (period : Text) (source : Source)
    (rows : List UploadRow) (db : Db) {done : Db × ℕ}
    → import_records read org user period source rows db ≡ ok done
    → IsConsistent db
    → IsConsistent done.0
unfolding import_records
import-IsConsistent read org user period source rows db {done} h c =
    let (u, checked, h1) = >>=-eq-ok (check_period period) _ h in
    let (w, some_rows, h2) = >>=-eq-ok (raise_if (is_empty rows) no_data_rows) _ h1 in
    let gone = select (is_upload org period source) db.records in
    subst (λ k. IsConsistent k.0) (ok-inj h2)
      (record {
        distinct = c.distinct;
        runs_below =
            All-mono (λ r. r.id < db.next_id) (λ r. r.id < db.next_id + length rows)
              (λ r k. omega arith) db.runs c.runs_below;
        results_below =
            All-mono (λ m. m.run_id < db.next_id) (λ m. m.run_id < db.next_id + length rows)
              (λ m k. omega arith) (map (forget gone) db.matches)
              (All-map (λ m. m.run_id < db.next_id) (forget gone) db.matches c.results_below);
        agree =
            All-mono (Agrees db.matches) (Agrees (map (forget gone) db.matches))
              (λ r a. Agrees-forget gone db.matches r a) db.runs c.agree;
      })

-- A call that succeeds: an upload, or a run.
pub data Step (read : Text → Option Decimal) (ids : IdText) : Db → Db → Type 0 where
  imports :
      (org user : ℕ) (period : Text) (source : Source) (rows : List UploadRow) (db db' : Db) (n : ℕ)
      → import_records read org user period source rows db ≡ ok (db', n)
      → Step read ids db db'
  runs :
      (org user : ℕ) (period : Text) (source : Source) (db db' : Db) (r : ReconciliationRun)
      → run ids org user period source db ≡ ok (db', r)
      → Step read ids db db'

pub data Steps (read : Text → Option Decimal) (ids : IdText) : Db → Db → Type 0 where
  done : (db : Db) → Steps read ids db db
  more : {a b c : Db} → Steps read ids a b → Step read ids b c → Steps read ids a c

Step-IsConsistent :
    (read : Text → Option Decimal) (ids : IdText) {db db' : Db}
    → Step read ids db db'
    → IsConsistent db
    → IsConsistent db'
Step-IsConsistent read ids (imports org user period source rows db db' n e) c =
    import-IsConsistent read org user period source rows db e c
Step-IsConsistent read ids (runs org user period source db db' r e) c =
    run-IsConsistent ids org user period source db e c

-- If the counts of every stored run, and its tax at risk, are those of the results stored with it,
-- and the ids of runs are distinct and below the next id, this stays so under any number of uploads
-- and runs. The results are counted by their status, the invoices and the records of a run by the
-- statuses that have one.
pub Steps-IsConsistent :
    (read : Text → Option Decimal) (ids : IdText) {db db' : Db}
    → Steps read ids db db'
    → IsConsistent db
    → IsConsistent db'
Steps-IsConsistent read ids (done db) c = c
Steps-IsConsistent read ids (more before last) c =
    Step-IsConsistent read ids last (Steps-IsConsistent read ids before c)
