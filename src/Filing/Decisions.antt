-- ===== src/Filing/Decisions.antt =====
-- A decision is taken once: which decisions succeed, and that they stay.
use gst_ai_copilot.Base.{
  true-false, In-change, change, find, find-change, find-true, ℕ, ◌≡◌, refl, sym, ◌∙◌, ap, subst,
  ◌↔◌, inl, inr, true, false, Bool-cases, Option, some, Option-cases, Text, ok, ◌&&◌, arith, In,
  In-append,
}
use gst_ai_copilot.Filing.{Uuid, Json, UuidText, Approval, ApprovalStatus, Db, is_task, ReturnType}
use gst_ai_copilot.Filing.Approvals.{
  create, decide, get, decision_status, is_pending, is_modified, no_payload, record_decision,
  decided, propagate, is_return_preparation,
}
use gst_ai_copilot.Filing.Prepare.{
  add_return, renew_return, send_to_review, record_export, Storage, CsvFile,
}
use gst_ai_copilot.Filing.Results.{
  Generation, adds, renews, generate-eq-ok, Submission, submit-eq-ok, Export, export-eq-ok,
}
use gst_ai_copilot.Filing.Steps.{
  Step, Steps, done, more, Decision, decide-eq-ok, creates, decides, generates, submits, exports,
  changes_invoices,
}

pub propagate-approvals :
    (texts : UuidText) (a : Approval) (s : ApprovalStatus) (notes : Option Text) (user : Uuid)
    (db : Db)
    → (propagate texts a s notes user db).approvals ≡ db.approvals
unfolding propagate
propagate-approvals texts a s notes user db =
    elim (Bool-cases (is_return_preparation a.approval_type)) [
      | inl t ↦ elim (Option-cases (texts.parse a.entity_id)) [
        | inl e ↦ rw (t, e) refl
        | inr (i, e) ↦ rw (t, e) refl
      ]
      | inr t ↦ rw t refl
    ]

pub record_decision-approvals :
    (texts : UuidText) (org user task : Uuid) (a : Approval) (decision : Text) (s : ApprovalStatus)
    (notes : Option Text) (payload : Option Json) (now : ℕ) (db : Db)
    → (record_decision texts org user task a decision s notes payload now db).approvals
      ≡ change (is_task org task) (decided s notes payload user now) db.approvals
unfolding record_decision
record_decision-approvals texts org user task a decision s notes payload now db =
    propagate-approvals texts a s notes user _

-- All tasks that are not pending are kept.
abbrev pub KeepsDecided : Db → Db → Type 0
KeepsDecided db db' =
    (a : Approval) → is_pending a.status ≡ false → In a db.approvals → In a db'.approvals

pub decide-KeepsDecided :
    (texts : UuidText) (org user task : Uuid) (decision : Text) (notes : Option Text)
    (payload : Option Json) (now : ℕ) (db : Db) {db' : Db}
    → Decision texts org user task decision notes payload now db db'
    → KeepsDecided db db'
decide-KeepsDecided texts org user task decision notes payload now db d a closed m =
    elim (In-change (is_task org task) (decided d.status notes payload user now) db.approvals
      d.found_eq m) [
        | inl same ↦
            absurd
              (true-false (sym d.was_pending ∙ (ap (λ k. is_pending k.status) (sym same) ∙ closed)))
        | inr kept ↦
            subst (λ k. In a k.approvals) (sym d.result)
              (subst (In a)
                (sym (
                  record_decision-approvals texts org user task d.found decision d.status notes
                    payload now db))
                kept)
      ]

-- No step of the return service touches a task that is there.
pub renewed-approvals :
    (texts : UuidText) (version : Text) (org user : Uuid) (ty : ReturnType) (period : Text)
    (db : Db) {db' : Db}
    → Generation texts version org user ty period db db'
    → db'.approvals ≡ db.approvals
unfolding add_return renew_return
renewed-approvals texts version org user ty period db (adds missing e) = ap (λ k. k.approvals) e
renewed-approvals texts version org user ty period db (renews r there unlocked e) =
    ap (λ k. k.approvals) e

pub submit-keeps :
    (texts : UuidText) (org user i : Uuid) (now : ℕ) (db : Db) {db' : Db}
    → Submission texts org user i now db db'
    → (a : Approval) → In a db.approvals
    → In a db'.approvals
unfolding send_to_review
submit-keeps texts org user i now db s a m =
    subst (λ k. In a k.approvals) (sym s.result) (In-append a db.approvals _ m)

pub exported-approvals :
    (texts : UuidText) (storage : Storage) (org user i : Uuid) (db : Db) {db' : Db} {file : CsvFile}
    → Export texts storage org user i db db' file
    → db'.approvals ≡ db.approvals
unfolding record_export
exported-approvals texts storage org user i db e = ap (λ k. k.approvals) e.result

Step-KeepsDecided :
    (texts : UuidText) (version : Text) (storage : Storage) {db db' : Db}
    → Step texts version storage db db'
    → KeepsDecided db db'
unfolding create
Step-KeepsDecided texts version storage
      (creates org ty risk entity_type entity_id rec evidence confidence assigned_to now db) a
      closed m =
    In-append a db.approvals _ m
Step-KeepsDecided texts version storage (decides org user task decision notes payload now db db' h)
      a closed m =
    decide-KeepsDecided texts org user task decision notes payload now db
      (decide-eq-ok texts org user task decision notes payload now db h) a closed m
Step-KeepsDecided texts version storage (generates org user ty period db db' h) a closed m =
    subst (In a)
      (sym (
        renewed-approvals texts version org user ty period db
          (generate-eq-ok texts version org user ty period db h)))
      m
Step-KeepsDecided texts version storage (submits org user i now db db' h) a closed m =
    submit-keeps texts org user i now db (submit-eq-ok texts org user i now db h) a m
Step-KeepsDecided texts version storage (exports org user i db db' file h) a closed m =
    subst (In a)
      (sym (
        exported-approvals texts storage org user i db
          (export-eq-ok texts storage org user i db h)))
      m
Step-KeepsDecided texts version storage (changes_invoices invs db) a closed m = m

-- A decision is final: a task that is not pending is there after any number of steps, with its
-- status, its decider, its notes and its payload unchanged.
pub decided_forever :
    (texts : UuidText) (version : Text) (storage : Storage) {db db' : Db}
    → Steps texts version storage db db'
    → (a : Approval) → is_pending a.status ≡ false
    → In a db.approvals
    → In a db'.approvals
decided_forever texts version storage (done db) a closed m = m
decided_forever texts version storage (more before last) a closed m =
    Step-KeepsDecided texts version storage last a closed
      (decided_forever texts version storage before a closed m)

-- The task is in the queue of the organization and pending, the decision is known, and a
-- modification has a payload.
pub record IsDecidable (org task : Uuid) (decision : Text) (payload : Option Json) (db : Db)
    : Type 0 where
  pub status : ApprovalStatus
  pub known : decision_status decision ≡ some status
  pub found : Approval
  pub found_eq : find (is_task org task) db.approvals ≡ some found
  pub is_open : is_pending found.status ≡ true
  pub has_payload : (is_modified status && no_payload payload) ≡ false

-- The call succeeds, and then the task has the decision's status, the decider, notes and payload.
abbrev pub TakesDecision :
    UuidText → Uuid → Uuid → Uuid → Text → Option Text → Option Json → ℕ → Db → Type 0
TakesDecision texts org user task decision notes payload now db =
    (db' : Db) × (a : Approval) × (decide texts org user task decision notes payload now db
      ≡ ok db')
    × In a db'.approvals
    × (a.id ≡ task)
    × (decision_status decision ≡ some a.status)
    × (a.decided_by ≡ some user)
    × (a.decision_notes ≡ notes)
    × (a.final_payload ≡ payload)

is_task-id : (org i : Uuid) (a : Approval) → is_task org i a ≡ true → a.id ≡ i
is_task-id org i a h = ground arith

decidable-ok :
    (texts : UuidText) (org user task : Uuid) (decision : Text) (notes : Option Text)
    (payload : Option Json) (now : ℕ) (db : Db) (d : IsDecidable org task decision payload db)
    → decide texts org user task decision notes payload now db
      ≡ ok (record_decision texts org user task d.found decision d.status notes payload now db)
unfolding decide get
decidable-ok texts org user task decision notes payload now db d = ground arith

-- `decide` succeeds exactly on a pending task of the organization, with a known decision and, when
-- it modifies, a payload; the task then has the decision's status, its decider, notes and payload.
pub decide_ok_iff :
    (texts : UuidText) (org user task : Uuid) (decision : Text) (notes : Option Text)
    (payload : Option Json) (now : ℕ) (db : Db)
    → TakesDecision texts org user task decision notes payload now db
      ↔ IsDecidable org task decision payload db
decide_ok_iff texts org user task decision notes payload now db = (to, from)
  where
    to :
        TakesDecision texts org user task decision notes payload now db
        → IsDecidable org task decision payload db
    to t =
        let d = decide-eq-ok texts org user task decision notes payload now db t.2 in
        record {
          status = d.status;
          known = d.known;
          found = d.found;
          found_eq = d.found_eq;
          is_open = d.was_pending;
          has_payload = d.has_payload;
        }

    from :
        IsDecidable org task decision payload db
        → TakesDecision texts org user task decision notes payload now db
    from d = (
      record_decision texts org user task d.found decision d.status notes payload now db,
      decided d.status notes payload user now d.found,
      decidable-ok texts org user task decision notes payload now db d,
      subst (In (decided d.status notes payload user now d.found))
          (sym (
            record_decision-approvals texts org user task d.found decision d.status notes payload
              now db))
          (find-change (is_task org task) (decided d.status notes payload user now) db.approvals
            d.found_eq),
      is_task-id org task d.found (
          find-true (is_task org task) (decided d.status notes payload user now) db.approvals
            d.found_eq),
      d.known,
      refl,
      refl,
      refl,
    )
