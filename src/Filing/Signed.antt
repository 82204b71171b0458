-- ===== src/Filing/Signed.antt =====
-- No return is approved or exported without a decision of record.
use gst_ai_copilot.Base.{
  true-false, All-In, All-change, change, find-change, ℕ, ◌≡◌, refl, sym, ◌∙◌, ap, subst, inl, inr,
  Bool, true, false, Bool-cases, Option, some, Option-cases, List, Text, arith, In, In-append, All,
  All-mono, All-append,
}
use gst_ai_copilot.Filing.{
  Uuid, Json, UuidText, Approval, ApprovalStatus, pending, approved, rejected, modified, Db,
  is_task, is_return, GstReturn, ReturnType, ReturnStatus, approved_return, exported, draft,
  generated, under_review, filed_externally,
}
use gst_ai_copilot.Filing.Approvals.{
  create, is_pending, record_decision, decided, propagate, is_return_preparation, move_return,
}
use gst_ai_copilot.Filing.Prepare.{
  add_return, renew_return, regenerated, is_for, figures_for, send_to_review, set_status,
  record_export, mark_exported, export_status, Storage, CsvFile,
}
use gst_ai_copilot.Filing.Steps.{
  Step, Steps, done, more, empty_db, Decision, decide-eq-ok, creates, decides, generates, submits,
  exports, changes_invoices,
}
use gst_ai_copilot.Filing.Results.{
  Generation, adds, renews, generate-eq-ok, Submission, submit-eq-ok, Export, export-eq-ok,
}
use gst_ai_copilot.Filing.Decisions.{decide-KeepsDecided, record_decision-approvals}

-- The statuses that a return has only behind its approval.
abbrev pub is_released : ReturnStatus → Bool
is_released approved_return = true
is_released exported = true
is_released draft = false
is_released generated = false
is_released under_review = false
is_released filed_externally = false

-- A task of the queue that approved the return, taken by the user whom the return names.
pub record Backing (texts : UuidText) (tasks : List Approval) (r : GstReturn) : Type 0 where
  pub task : Approval
  pub queued : In task tasks
  pub was_approved : task.status ≡ approved
  pub for_return : is_return_preparation task.approval_type ≡ true
  pub names : texts.parse task.entity_id ≡ some r.id
  pub same_organization : task.organization_id ≡ r.organization_id
  pub decider : Uuid
  pub decided_by : task.decided_by ≡ some decider
  pub approved_by : r.approved_by ≡ some decider

abbrev pub IsBacked : UuidText → List Approval → GstReturn → Type 0
IsBacked texts tasks r = is_released r.status ≡ true → Backing texts tasks r

abbrev pub AreBacked : UuidText → Db → Type 0
AreBacked texts db = All (IsBacked texts db.approvals) db.returns

-- What a backing needs of a return is its id, its organization and its approver, and what it needs
-- of the queue is its decided tasks.
abbrev pub KeepsClosed : List Approval → List Approval → Type 0
KeepsClosed tasks tasks' = (a : Approval) → is_pending a.status ≡ false → In a tasks → In a tasks'

Backing-carry :
    (texts : UuidText) (tasks tasks' : List Approval) (r r' : GstReturn)
    → KeepsClosed tasks tasks'
    → r.id ≡ r'.id
    → r.organization_id ≡ r'.organization_id
    → r'.approved_by ≡ r.approved_by
    → Backing texts tasks r
    → Backing texts tasks' r'
Backing-carry texts tasks tasks' r r' keeps same_id same_org same_approver b = record {
  task = b.task;
  queued = keeps b.task (ap is_pending b.was_approved) b.queued;
  was_approved = b.was_approved;
  for_return = b.for_return;
  names = b.names ∙ ap (λ k. some k) same_id;
  same_organization = b.same_organization ∙ same_org;
  decider = b.decider;
  decided_by = b.decided_by;
  approved_by = same_approver ∙ b.approved_by;
}

AreBacked-keep :
    (texts : UuidText) (tasks tasks' : List Approval) (rs : List GstReturn)
    → KeepsClosed tasks tasks'
    → All (IsBacked texts tasks) rs
    → All (IsBacked texts tasks') rs
AreBacked-keep texts tasks tasks' rs keeps h =
    All-mono (IsBacked texts tasks) (IsBacked texts tasks')
      (λ r b released. Backing-carry texts tasks tasks' r r keeps refl refl refl (b released)) rs h

is_return-id :
    (org i : Uuid) (r : GstReturn)
    → is_return org i r ≡ true
    → (i ≡ r.id) × (org ≡ r.organization_id)
is_return-id org i r h = ground arith

-- The decision's own return, behind the task as it is after the decision.
move_return-IsBacked :
    (texts : UuidText) (tasks : List Approval) (a : Approval) (s : ApprovalStatus)
    (notes : Option Text) (payload : Option Json) (user : Uuid) (now : ℕ) (i : Uuid) (r : GstReturn)
    → In (decided s notes payload user now a) tasks
    → is_return_preparation a.approval_type ≡ true
    → texts.parse a.entity_id ≡ some i
    → is_return a.organization_id i r ≡ true
    → IsBacked texts tasks r
    → IsBacked texts tasks (move_return s notes user r)
unfolding move_return
move_return-IsBacked texts tasks a approved notes payload user now i r m prep e hit h released =
    let (same_id, same_org) = is_return-id a.organization_id i r hit in
    record {
      task = decided approved notes payload user now a;
      queued = m;
      was_approved = refl;
      for_return = prep;
      names = e ∙ ap (λ k. some k) same_id;
      same_organization = same_org;
      decider = user;
      decided_by = refl;
      approved_by = refl;
    }
move_return-IsBacked texts tasks a rejected notes payload user now i r m prep e hit h released =
    absurd (true-false (sym released))
move_return-IsBacked texts tasks a modified notes payload user now i r m prep e hit h released =
    Backing-carry texts tasks tasks r (move_return modified notes user r) (λ a closed k. k) refl
      refl refl (h released)
move_return-IsBacked texts tasks a pending notes payload user now i r m prep e hit h released =
    Backing-carry texts tasks tasks r (move_return pending notes user r) (λ a closed k. k) refl refl
      refl (h released)

propagate-AreBacked :
    (texts : UuidText) (tasks : List Approval) (a : Approval) (s : ApprovalStatus)
    (notes : Option Text) (payload : Option Json) (user : Uuid) (now : ℕ) (db : Db)
    → In (decided s notes payload user now a) tasks
    → All (IsBacked texts tasks) db.returns
    → All (IsBacked texts tasks) (propagate texts a s notes user db).returns
unfolding propagate
propagate-AreBacked texts tasks a s notes payload user now db m h =
    elim (Bool-cases (is_return_preparation a.approval_type)) [
      | inl t ↦ elim (Option-cases (texts.parse a.entity_id)) [
        | inl e ↦ rw (t, e) h
        | inr (i, e) ↦
            rw (t, e)
              (All-change (is_return a.organization_id i) (move_return s notes user)
                (IsBacked texts tasks) (IsBacked texts tasks)
                (λ r hit b.
                  move_return-IsBacked texts tasks a s notes payload user now i r m t e hit b)
                (λ r b. b) db.returns h)
      ]
      | inr t ↦ rw t h
    ]

decide-AreBacked :
    (texts : UuidText) (org user task : Uuid) (decision : Text) (notes : Option Text)
    (payload : Option Json) (now : ℕ) (db : Db) {db' : Db}
    → Decision texts org user task decision notes payload now db db'
    → AreBacked texts db
    → AreBacked texts db'
unfolding record_decision
decide-AreBacked texts org user task decision notes payload now db {db'} d h =
    let tasks = change (is_task org task) (decided d.status notes payload user now) db.approvals in
    let after =
      record_decision texts org user task d.found decision d.status notes payload now db in
    let eq : after.approvals ≡ tasks =
      record_decision-approvals texts org user task d.found decision d.status notes payload now
        db in
    let keeps : KeepsClosed db.approvals tasks = λ a closed m.
      subst (In a) (ap (λ k. k.approvals) d.result ∙ eq)
        (decide-KeepsDecided texts org user task decision notes payload now db d a closed m) in
    subst (AreBacked texts) (sym d.result) (
      subst (λ ts. All (IsBacked texts ts) after.returns) (sym eq)
        (propagate-AreBacked texts tasks d.found d.status notes payload user now
          (record db { approvals = tasks })
          (find-change (is_task org task) (decided d.status notes payload user now) db.approvals
            d.found_eq)
          (AreBacked-keep texts db.approvals tasks db.returns keeps h)))

generate-AreBacked :
    (texts : UuidText) (version : Text) (org user : Uuid) (ty : ReturnType) (period : Text)
    (db : Db) {db' : Db}
    → Generation texts version org user ty period db db'
    → AreBacked texts db
    → AreBacked texts db'
unfolding add_return renew_return regenerated
generate-AreBacked texts version org user ty period db (adds missing e) h =
    subst (AreBacked texts) (sym e) (
      All-append (IsBacked texts db.approvals) db.returns _ h
        ((λ released. absurd (true-false (sym released))), tt))
generate-AreBacked texts version org user ty period db (renews r there unlocked e) h =
    subst (AreBacked texts) (sym e) (
      All-change (is_for org ty period) (regenerated (figures_for org ty period db) user)
        (IsBacked texts db.approvals) (IsBacked texts db.approvals)
        (λ x hit b released. absurd (true-false (sym released))) (λ x b. b) db.returns h)

submit-AreBacked :
    (texts : UuidText) (org user i : Uuid) (now : ℕ) (db : Db) {db' : Db}
    → Submission texts org user i now db db'
    → AreBacked texts db
    → AreBacked texts db'
unfolding send_to_review
submit-AreBacked texts org user i now db {db'} s h =
    let after = send_to_review texts org user i s.found now db in
    subst (AreBacked texts) (sym s.result) (
      AreBacked-keep texts db.approvals after.approvals after.returns
        (λ a closed m. In-append a db.approvals _ m)
        (All-change (is_return org i) (set_status under_review) (IsBacked texts db.approvals)
          (IsBacked texts db.approvals) (λ x hit b released. absurd (true-false (sym released)))
          (λ x b. b) db.returns h))

mark_exported-same :
    (texts : UuidText) (storage : Storage) (org i : Uuid) (r : GstReturn)
    → let r' = mark_exported texts storage org i r in
      (r.id ≡ r'.id)
      × (r.organization_id ≡ r'.organization_id)
      × (r'.approved_by ≡ r.approved_by)
      × (is_released r'.status ≡ is_released r.status)
unfolding mark_exported
mark_exported-same texts storage org i r = (refl, refl, refl, released r.status)
  where
    released : (k : ReturnStatus) → is_released (export_status k) ≡ is_released k
    released draft = refl
    released generated = refl
    released under_review = refl
    released approved_return = refl
    released exported = refl
    released filed_externally = refl

Export-AreBacked :
    (texts : UuidText) (storage : Storage) (org user i : Uuid) (db : Db) {db' : Db} {file : CsvFile}
    → Export texts storage org user i db db' file
    → AreBacked texts db
    → AreBacked texts db'
unfolding record_export
Export-AreBacked texts storage org user i db e h = subst (AreBacked texts) (sym e.result) (
    All-change (is_return org i) (mark_exported texts storage org i) (IsBacked texts db.approvals)
      (IsBacked texts db.approvals)
      (λ x hit b released.
        let (same_id, same_org, same_approver, same_release) =
          mark_exported-same texts storage org i x in
        Backing-carry texts db.approvals db.approvals x (mark_exported texts storage org i x)
          (λ a closed k. k) same_id same_org same_approver (b (sym same_release ∙ released)))
      (λ x b. b) db.returns h)

Step-AreBacked :
    (texts : UuidText) (version : Text) (storage : Storage) {db db' : Db}
    → Step texts version storage db db'
    → AreBacked texts db
    → AreBacked texts db'
unfolding create
Step-AreBacked texts version storage
      (creates org ty risk entity_type entity_id rec evidence confidence assigned_to now db) h =
    AreBacked-keep texts db.approvals _ db.returns (λ a closed m. In-append a db.approvals _ m) h
Step-AreBacked texts version storage (decides org user task decision notes payload now db db' e) h =
    decide-AreBacked texts org user task decision notes payload now db
      (decide-eq-ok texts org user task decision notes payload now db e) h
Step-AreBacked texts version storage (generates org user ty period db db' e) h =
    generate-AreBacked texts version org user ty period db
      (generate-eq-ok texts version org user ty period db e) h
Step-AreBacked texts version storage (submits org user i now db db' e) h =
    submit-AreBacked texts org user i now db (submit-eq-ok texts org user i now db e) h
Step-AreBacked texts version storage (exports org user i db db' file e) h =
    Export-AreBacked texts storage org user i db (export-eq-ok texts storage org user i db e) h
Step-AreBacked texts version storage (changes_invoices invs db) h = h

Steps-AreBacked :
    (texts : UuidText) (version : Text) (storage : Storage) {db db' : Db}
    → Steps texts version storage db db'
    → AreBacked texts db
    → AreBacked texts db'
Steps-AreBacked texts version storage (done db) h = h
Steps-AreBacked texts version storage (more before last) h =
    Step-AreBacked texts version storage last (Steps-AreBacked texts version storage before h)

-- After any number of steps from an empty database, a return that is approved or exported has in the
-- queue a task for it that was approved, by the user whom the return names as its approver.
pub released_return-Backing :
    (texts : UuidText) (version : Text) (storage : Storage) {db : Db}
    → Steps texts version storage empty_db db
    → (r : GstReturn) → In r db.returns
    → is_released r.status ≡ true
    → Backing texts db.approvals r
released_return-Backing texts version storage {db} steps r m released =
    All-In (IsBacked texts db.approvals) db.returns (Steps-AreBacked texts version storage steps tt)
      r m released
