-- ===== src/Filing.antt =====
-- backend/app/services/approval_service.py and return_service.py, with their tables of
-- backend/app/models/approval.py and gst_return.py: the database that they share.
-- Times of creation are left out. A row's id is a number; a JSON object is its keys with the
-- text of their values.
pub mod Approvals
pub mod Prepare
pub mod Steps
pub mod Results
pub mod Signed
pub mod Decisions
pub mod Figures
pub mod Periods
mod Tests
use gst_ai_copilot.Base.{
  ℕ, suc, ◌==◌, Bool, true, false, Option, none, some, List, [], ◌∷◌, Text, Decimal, pos, Result,
  ok, err, if◌then◌else◌, codes,
}
use gst_ai_copilot.Returns.{ReturnInvoice, ReturnLine, Gstr1Summary, Gstr3bSummary}

abbrev pub Uuid : Type 0
Uuid = ℕ

abbrev pub Json : Type 0
Json = List (Text × Text)

pub data ApprovalType : Type 0 where
  invoice_extraction compliance_exception itc_assessment return_preparation gst_research_answer
        other :
      ApprovalType

pub data ApprovalRisk : Type 0 where
  low_risk medium_risk high_risk : ApprovalRisk

pub data ApprovalStatus : Type 0 where
  pending approved rejected modified : ApprovalStatus

pub record Approval : Type 0 where
  pub id : Uuid
  pub organization_id : Uuid
  pub approval_type : ApprovalType
  pub risk : ApprovalRisk
  pub status : ApprovalStatus
  pub entity_type : Text
  pub entity_id : Text
  pub ai_recommendation : Json
  pub evidence : List Text
  pub confidence : Option Decimal
  pub assigned_to : Option Uuid
  pub decided_by : Option Uuid
  pub decision_notes : Option Text
  pub final_payload : Option Json
  pub updated_at : ℕ

pub data ReturnType : Type 0 where
  gstr1 gstr3b : ReturnType

pub data ReturnStatus : Type 0 where
  draft generated under_review approved_return exported filed_externally : ReturnStatus

-- `summary`: the empty default, or what `generate` stored.
pub data Summary : Type 0 where
  no_summary : Summary
  of_gstr1 : Gstr1Summary → Summary
  of_gstr3b : Gstr3bSummary → Summary

pub record GstReturn : Type 0 where
  pub id : Uuid
  pub organization_id : Uuid
  pub return_type : ReturnType
  pub period : Text
  pub status : ReturnStatus
  pub invoice_count : ℕ
  pub total_taxable_value : Decimal
  pub total_tax : Decimal
  pub summary : Summary
  pub rules_version : Text
  pub generated_by : Option Uuid
  pub approved_by : Option Uuid
  pub review_notes : Option Text
  pub export_storage_key : Option Text

pub data InvoiceDirection : Type 0 where
  sales purchase : InvoiceDirection

pub data InvoiceStatus : Type 0 where
  uploaded processing extracted validated needs_review invoice_approved invoice_rejected
        invoice_failed :
      InvoiceStatus

-- The columns of an invoice and of its items that a return reads.
pub record Invoice : Type 0 where
  pub organization_id : Uuid
  pub direction : InvoiceDirection
  pub status : InvoiceStatus
  pub invoice_number : Option Text
  pub invoice_date : Option Text
  pub supplier_name : Option Text
  pub supplier_gstin : Option Text
  pub buyer_name : Option Text
  pub buyer_gstin : Option Text
  pub place_of_supply : Option Text
  pub items : List ReturnLine

pub record AuditEntry : Type 0 where
  pub organization_id : Uuid
  pub actor_user_id : Uuid
  pub action : Text
  pub entity_type : Text
  pub entity_id : Text

-- The rows in the order of their insertion; `next_id` is the id that the next row gets.
pub record Db : Type 0 where
  pub approvals : List Approval
  pub returns : List GstReturn
  pub invoices : List Invoice
  pub audit : List AuditEntry
  pub next_id : Uuid

pub data FilingError : Type 0 where
  unknown_decision already_decided payload_required task_not_found return_not_found : FilingError
  bad_period_format bad_month already_approved : FilingError
  -- The `ValueError` of `int` on a digit that is no decimal, such as a superscript.
  no_integer : FilingError
  not_submittable : ReturnStatus → FilingError

-- The texts of ids: `str(id)` and `uuid.UUID(text)`, where `none` is a `ValueError`.
pub record UuidText : Type 0 where
  pub show : Uuid → Text
  pub parse : Text → Option Uuid

-- `.where(Approval.id == i, Approval.organization_id == org)`, and the same for returns.
abbrev pub is_task : Uuid → Uuid → Approval → Bool
is_task org i a = if i == a.id then org == a.organization_id else false

abbrev pub is_return : Uuid → Uuid → GstReturn → Bool
is_return org i r = if i == r.id then org == r.organization_id else false
