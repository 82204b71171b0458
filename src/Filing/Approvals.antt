-- ===== src/Filing/Approvals.antt =====
-- backend/app/services/approval_service.py: the queue of tasks and the decision on one.
use gst_ai_copilot.Base.{
  change, find, ℕ, suc, Bool, true, false, not, Option, none, some, List, [], ◌∷◌, ◌++◌, Text,
  codes, text_eq, Decimal, Result, ok, err, ◌>>=◌, ◌>>◌, raise_if, is_empty, if◌then◌else◌, ◌&&◌,
}
use gst_ai_copilot.Filing.{
  Uuid, Json, UuidText, Approval, ApprovalType, ApprovalRisk, ApprovalStatus, pending, approved,
  rejected, modified, return_preparation, invoice_extraction, compliance_exception, itc_assessment,
  gst_research_answer, other, GstReturn, approved_return, generated, Db, FilingError,
  unknown_decision, already_decided, payload_required, task_not_found, is_task, is_return,
}

abbrev pub insert_approval : Approval → Db → Db
insert_approval a db = record db { approvals = db.approvals ++ (a ∷ []); next_id = suc db.next_id }

abbrev pub log_audit : Uuid → Uuid → Text → Text → Text → Db → Db
log_audit org user action entity_type entity_id db = record db {
  audit =
      db.audit
      ++ (record {
        organization_id = org;
        actor_user_id = user;
        action = action;
        entity_type = entity_type;
        entity_id = entity_id;
      }
          ∷ []);
}

abbrev or_empty : Option (List Text) → List Text
or_empty none = []
or_empty (some xs) = xs

-- `ApprovalService.create`
unfoldable pub create :
    Uuid
    → ApprovalType
    → ApprovalRisk
    → Text
    → Text
    → Json
    → Option (List Text)
    → Option Decimal
    → Option Uuid
    → ℕ
    → Db
    → Db
create org approval_type risk entity_type entity_id recommendation evidence confidence assigned_to
      now db =
    insert_approval
      (record {
        id = db.next_id;
        organization_id = org;
        approval_type = approval_type;
        risk = risk;
        status = pending;
        entity_type = entity_type;
        entity_id = entity_id;
        ai_recommendation = recommendation;
        evidence = or_empty evidence;
        confidence = confidence;
        assigned_to = assigned_to;
        decided_by = none;
        decision_notes = none;
        final_payload = none;
        updated_at = now;
      })
      db

-- `ApprovalService.get`
unfoldable pub get : Uuid → Uuid → Db → Result FilingError Approval
get org i db = elim (find (is_task org i) db.approvals) [
  | none ↦ err task_not_found
  | some a ↦ ok a
]

-- `_DECISION_STATUS`
unfoldable pub decision_status : Text → Option ApprovalStatus
decision_status d =
    if text_eq d (codes "approve")
    then some approved
    else if text_eq d (codes "reject")
    then some rejected
    else if text_eq d (codes "modify")
    then some modified
    else none

abbrev pub is_pending : ApprovalStatus → Bool
is_pending pending = true
is_pending approved = false
is_pending rejected = false
is_pending modified = false

-- `not final_payload`
abbrev pub no_payload : Option Json → Bool
no_payload none = true
no_payload (some j) = is_empty j

abbrev pub is_return_preparation : ApprovalType → Bool
is_return_preparation return_preparation = true
is_return_preparation invoice_extraction = false
is_return_preparation compliance_exception = false
is_return_preparation itc_assessment = false
is_return_preparation gst_research_answer = false
is_return_preparation other = false

-- What a decision does to the linked return.
unfoldable pub move_return : ApprovalStatus → Option Text → Uuid → GstReturn → GstReturn
move_return approved notes user r = record r {
  status = approved_return;
  approved_by = some user;
  review_notes = notes;
}
move_return rejected notes user r = record r { status = generated; review_notes = notes }
move_return modified notes user r = record r { review_notes = notes }
move_return pending notes user r = record r { review_notes = notes }

-- `_propagate_return_decision`
unfoldable pub propagate : UuidText → Approval → ApprovalStatus → Option Text → Uuid → Db → Db
propagate texts a decision notes user db =
    if is_return_preparation a.approval_type
    then elim (texts.parse a.entity_id) [
      | none ↦ db
      | some i ↦ record db {
        returns =
            change (is_return a.organization_id i) (move_return decision notes user) db.returns;
      }
    ]
    else db

-- The columns that a decision sets.
abbrev pub decided : ApprovalStatus → Option Text → Option Json → Uuid → ℕ → Approval → Approval
decided status notes payload user now a = record a {
  status = status;
  decided_by = some user;
  decision_notes = notes;
  final_payload = payload;
  updated_at = now;
}

abbrev to_decision : Text → Result FilingError ApprovalStatus
to_decision d = elim (decision_status d) [ none ↦ err unknown_decision | some s ↦ ok s ]

abbrev pub is_modified : ApprovalStatus → Bool
is_modified modified = true
is_modified approved = false
is_modified rejected = false
is_modified pending = false

-- The changes of `ApprovalService.decide`, behind its guards. The metadata of audit entries is left out.
unfoldable pub record_decision :
    UuidText
    → Uuid
    → Uuid
    → Uuid
    → Approval
    → Text
    → ApprovalStatus
    → Option Text
    → Option Json
    → ℕ
    → Db
    → Db
record_decision texts org user task a decision status notes payload now db =
    log_audit org user (codes "approval." ++ decision) a.entity_type a.entity_id (
      propagate texts a status notes user (record db {
        approvals = change (is_task org task) (decided status notes payload user now) db.approvals;
      }))

-- `ApprovalService.decide`
unfoldable pub decide :
    UuidText
    → Uuid
    → Uuid
    → Uuid
    → Text
    → Option Text
    → Option Json
    → ℕ
    → Db
    → Result FilingError Db
decide texts org user task decision notes payload now db = do
  status ← to_decision decision
  a ← get org task db
  raise_if (not (is_pending a.status)) already_decided
  raise_if (is_modified status && no_payload payload) payload_required
  ok (record_decision texts org user task a decision status notes payload now db)
