-- ===== src/Filing/Results.antt =====
-- What a call of the return service that succeeds has found, and what it leaves.
use gst_ai_copilot.Base.{
  find, ℕ, ◌≡◌, inl, inr, true, false, none, some, Option-cases, Result-cases, ok, Text, arith,
}
use gst_ai_copilot.Filing.{Uuid, UuidText, GstReturn, ReturnType, Db, is_return}
use gst_ai_copilot.Filing.Prepare.{
  validate_period, is_for, is_closed, is_submittable, figures_for, add_return, renew_return,
  generate, get_return, send_to_review, submit_for_review, record_export, export, csv_of, CsvFile,
  Storage,
}

-- The return of the period is open: there is none, or it was not approved or filed.
pub data Generation (texts : UuidText) (version : Text) (org user : Uuid) (ty : ReturnType)
    (period : Text) (db db' : Db) : Type 0 where
  adds :
      find (is_for org ty period) db.returns ≡ none
      → db' ≡ add_return version org user ty period (figures_for org ty period db) db
      → Generation texts version org user ty period db db'
  renews :
      (r : GstReturn)
      → find (is_for org ty period) db.returns ≡ some r
      → is_closed r.status ≡ false
      → db' ≡ renew_return texts org user ty period (figures_for org ty period db) r db
      → Generation texts version org user ty period db db'

pub generate-eq-ok :
    (texts : UuidText) (version : Text) (org user : Uuid) (ty : ReturnType) (period : Text)
    (db : Db) {db' : Db}
    → generate texts version org user ty period db ≡ ok db'
    → Generation texts version org user ty period db db'
unfolding generate
generate-eq-ok texts version org user ty period db h =
    elim (Result-cases (validate_period period)) [
      | inr (e, bad) ↦ absurd (ground arith)
      | inl (u, good) ↦ elim (Option-cases (find (is_for org ty period) db.returns)) [
        | inl missing ↦ adds missing (ground arith)
        | inr (r, there) ↦ renews r there (ground arith) (ground arith)
      ]
    ]

pub record Submission (texts : UuidText) (org user i : Uuid) (now : ℕ) (db db' : Db) : Type 0 where
  pub found : GstReturn
  pub found_eq : find (is_return org i) db.returns ≡ some found
  pub was_open : is_submittable found.status ≡ true
  pub result : db' ≡ send_to_review texts org user i found now db

pub submit-eq-ok :
    (texts : UuidText) (org user i : Uuid) (now : ℕ) (db : Db) {db' : Db}
    → submit_for_review texts org user i now db ≡ ok db'
    → Submission texts org user i now db db'
unfolding submit_for_review get_return
submit-eq-ok texts org user i now db h = elim (Option-cases (find (is_return org i) db.returns)) [
  | inl missing ↦ absurd (ground arith)
  | inr (r, e) ↦ record { found = r; found_eq = e; was_open = ground arith; result = ground arith }
]

pub record Export (texts : UuidText) (storage : Storage) (org user i : Uuid) (db db' : Db)
    (file : CsvFile) : Type 0 where
  pub found : GstReturn
  pub found_eq : find (is_return org i) db.returns ≡ some found
  pub result : db' ≡ record_export texts storage org user i found db
  pub file_eq : file ≡ csv_of found.return_type found.summary

pub export-eq-ok :
    (texts : UuidText) (storage : Storage) (org user i : Uuid) (db : Db) {db' : Db} {file : CsvFile}
    → export texts storage org user i db ≡ ok (db', file)
    → Export texts storage org user i db db' file
unfolding export get_return
export-eq-ok texts storage org user i db h =
    elim (Option-cases (find (is_return org i) db.returns)) [
      | inl missing ↦ absurd (ground arith)
      | inr (r, e) ↦ record {
        found = r;
        found_eq = e;
        result = ground arith;
        file_eq = ground arith;
      }
    ]
