-- ===== src/Filing/Steps.antt =====
-- The runs of the two services on one database, and what a query and a change have in common.
use gst_ai_copilot.Base.{
  find, ℕ, ◌≡◌, inl, inr, true, false, Option, some, Option-cases, List, [], Text, Decimal, ok,
  ◌&&◌, arith,
}
use gst_ai_copilot.Filing.{
  Uuid, Json, UuidText, Approval, ApprovalType, ApprovalRisk, ApprovalStatus, ReturnType, Invoice,
  Db, is_task,
}
use gst_ai_copilot.Filing.Approvals.{
  create, decide, get, decision_status, is_pending, is_modified, no_payload, record_decision,
}
use gst_ai_copilot.Filing.Prepare.{generate, submit_for_review, export, Storage, CsvFile}

-- One call that succeeds; other services change the invoices.
pub data Step (texts : UuidText) (version : Text) (storage : Storage) : Db → Db → Type 0 where
  creates :
      (org : Uuid) (ty : ApprovalType) (risk : ApprovalRisk) (entity_type entity_id : Text)
      (rec : Json) (evidence : Option (List Text)) (confidence : Option Decimal)
      (assigned_to : Option Uuid) (now : ℕ) (db : Db)
      → Step texts version storage db
          (create org ty risk entity_type entity_id rec evidence confidence assigned_to now db)
  decides :
      (org user task : Uuid) (decision : Text) (notes : Option Text) (payload : Option Json)
      (now : ℕ) (db db' : Db)
      → decide texts org user task decision notes payload now db ≡ ok db'
      → Step texts version storage db db'
  generates :
      (org user : Uuid) (ty : ReturnType) (period : Text) (db db' : Db)
      → generate texts version org user ty period db ≡ ok db'
      → Step texts version storage db db'
  submits :
      (org user i : Uuid) (now : ℕ) (db db' : Db)
      → submit_for_review texts org user i now db ≡ ok db'
      → Step texts version storage db db'
  exports :
      (org user i : Uuid) (db db' : Db) (file : CsvFile)
      → export texts storage org user i db ≡ ok (db', file)
      → Step texts version storage db db'
  changes_invoices :
      (invs : List Invoice) (db : Db)
      → Step texts version storage db (record db { invoices = invs })

-- Any number of steps.
pub data Steps (texts : UuidText) (version : Text) (storage : Storage) : Db → Db → Type 0 where
  done : (db : Db) → Steps texts version storage db db
  more :
      {db db' db'' : Db}
      → Steps texts version storage db db'
      → Step texts version storage db' db''
      → Steps texts version storage db db''

abbrev pub empty_db : Db
empty_db = record { approvals = []; returns = []; invoices = []; audit = []; next_id = 0 }

-- What a decision that succeeds has found, and what it leaves.
pub record Decision (texts : UuidText) (org user task : Uuid) (decision : Text)
    (notes : Option Text) (payload : Option Json) (now : ℕ) (db db' : Db) : Type 0 where
  pub status : ApprovalStatus
  pub known : decision_status decision ≡ some status
  pub found : Approval
  pub found_eq : find (is_task org task) db.approvals ≡ some found
  pub was_pending : is_pending found.status ≡ true
  pub has_payload : (is_modified status && no_payload payload) ≡ false
  pub result : db' ≡ record_decision texts org user task found decision status notes payload now db

pub decide-eq-ok :
    (texts : UuidText) (org user task : Uuid) (decision : Text) (notes : Option Text)
    (payload : Option Json) (now : ℕ) (db : Db) {db' : Db}
    → decide texts org user task decision notes payload now db ≡ ok db'
    → Decision texts org user task decision notes payload now db db'
unfolding decide get
decide-eq-ok texts org user task decision notes payload now db h =
    elim (Option-cases (decision_status decision)) [
      | inl unknown ↦ absurd (ground arith)
      | inr (s, es) ↦ elim (Option-cases (find (is_task org task) db.approvals)) [
        | inl missing ↦ absurd (ground arith)
        | inr (a, ea) ↦ record {
          status = s;
          known = es;
          found = a;
          found_eq = ea;
          was_pending = ground arith;
          has_payload = ground arith;
          result = ground arith;
        }
      ]
    ]
