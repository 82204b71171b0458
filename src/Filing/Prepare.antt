-- ===== src/Filing/Prepare.antt =====
-- backend/app/services/return_service.py: a return is generated, submitted and exported.
pub mod Inputs
mod Csv
unfoldable pub use Inputs.*
unfoldable pub use Csv.*
use gst_ai_copilot.Base.{
  change, find, ℕ, suc, ◌+◌, ◌-◌, ◌*◌, ◌==◌, leb, Bool, true, false, not, Option, none, some, List,
  [], ◌∷◌, ◌++◌, map, Text, codes, text_eq, is_digit, Decimal, pos, Result, ok, err, ◌>>=◌, ◌>>◌,
  raise_if, select, length, if◌then◌else◌, ◌&&◌,
}
use gst_ai_copilot.Returns.{
  ReturnInvoice, TaxTotals, NetTax, CsvRow, build_gstr1, build_gstr3b, gstr1_to_csv_rows, total_tax,
  sales_of,
}
use gst_ai_copilot.Filing.{
  Uuid, UuidText, return_preparation, high_risk, pending, GstReturn, ReturnType, gstr1, gstr3b,
  ReturnStatus, draft, generated, under_review, approved_return, exported, filed_externally,
  Summary, no_summary, of_gstr1, of_gstr3b, Invoice, InvoiceDirection, sales, purchase,
  InvoiceStatus, invoice_rejected, invoice_failed, uploaded, processing, extracted, validated,
  needs_review, invoice_approved, Db, FilingError, bad_period_format, bad_month, already_approved,
  not_submittable, return_not_found, is_return,
}
use gst_ai_copilot.Filing.Approvals.{insert_approval, log_audit}

abbrev pub same_type : ReturnType → ReturnType → Bool
same_type gstr1 gstr1 = true
same_type gstr3b gstr3b = true
same_type _ _ = false

-- The query for the return of a period.
abbrev pub is_for : Uuid → ReturnType → Text → GstReturn → Bool
is_for org ty period r =
    if org == r.organization_id
    then same_type ty r.return_type && text_eq period r.period
    else false

-- The statuses that `generate` refuses.
abbrev pub is_closed : ReturnStatus → Bool
is_closed approved_return = true
is_closed filed_externally = true
is_closed draft = false
is_closed generated = false
is_closed under_review = false
is_closed exported = false

abbrev pub new_return : Uuid → Uuid → ReturnType → Text → Text → GstReturn
new_return i org ty period version = record {
  id = i;
  organization_id = org;
  return_type = ty;
  period = period;
  status = generated;
  invoice_count = 0;
  total_taxable_value = pos 0;
  total_tax = pos 0;
  summary = no_summary;
  rules_version = version;
  generated_by = none;
  approved_by = none;
  review_notes = none;
  export_storage_key = none;
}

-- The columns that `generate` sets.
unfoldable pub regenerated : Figures → Uuid → GstReturn → GstReturn
regenerated f user r = record r {
  status = generated;
  invoice_count = f.count;
  total_taxable_value = f.taxable;
  total_tax = f.tax;
  summary = f.stored;
  generated_by = some user;
  approved_by = none;
  review_notes = none;
  export_storage_key = none;
}

-- The id of a new row is given when the row is written, which is after the audit entry was made.
abbrev unwritten_id : Text
unwritten_id = codes "None"

-- The branches of `generate`: there is no return of the period, or there is one.
unfoldable pub add_return : Text → Uuid → Uuid → ReturnType → Text → Figures → Db → Db
add_return version org user ty period figures db =
    log_audit org user (codes "return.generate") (codes "gst_return") unwritten_id (record db {
      returns =
          db.returns
          ++ (regenerated figures user (new_return db.next_id org ty period version) ∷ []);
      next_id = suc db.next_id;
    })

unfoldable pub renew_return :
    UuidText → Uuid → Uuid → ReturnType → Text → Figures → GstReturn → Db → Db
renew_return texts org user ty period figures r db =
    log_audit org user (codes "return.generate") (codes "gst_return") (texts.show r.id)
      (record db { returns = change (is_for org ty period) (regenerated figures user) db.returns })

abbrev pub figures_for : Uuid → ReturnType → Text → Db → Figures
figures_for org ty period db =
    summarize_return ty period (map to_input (load_period_invoices org period db))

-- `ReturnService.generate`; `version` is the setting `gst_rules_version`.
unfoldable pub generate :
    UuidText → Text → Uuid → Uuid → ReturnType → Text → Db → Result FilingError Db
generate texts version org user ty period db = do
  validate_period period
  let figures = figures_for org ty period db
  elim (find (is_for org ty period) db.returns) [
    | none ↦ ok (add_return version org user ty period figures db)
    | some r ↦ do
      raise_if (is_closed r.status) already_approved
      ok (renew_return texts org user ty period figures r db)
  ]

-- `ReturnService.get`
unfoldable pub get_return : Uuid → Uuid → Db → Result FilingError GstReturn
get_return org i db = elim (find (is_return org i) db.returns) [
  | none ↦ err return_not_found
  | some r ↦ ok r
]

abbrev pub is_submittable : ReturnStatus → Bool
is_submittable generated = true
is_submittable draft = true
is_submittable under_review = false
is_submittable approved_return = false
is_submittable exported = false
is_submittable filed_externally = false

abbrev pub set_status : ReturnStatus → GstReturn → GstReturn
set_status s r = record r { status = s }

-- The changes of `submit_for_review`; the keys of the recommendation are left out.
unfoldable pub send_to_review : UuidText → Uuid → Uuid → Uuid → GstReturn → ℕ → Db → Db
send_to_review texts org user i r now db =
    log_audit org user (codes "return.submit_for_review") (codes "gst_return") (texts.show r.id) (
      insert_approval
        (record {
          id = db.next_id;
          organization_id = org;
          approval_type = return_preparation;
          risk = high_risk;
          status = pending;
          entity_type = codes "gst_return";
          entity_id = texts.show r.id;
          ai_recommendation = [];
          evidence = [];
          confidence = none;
          assigned_to = none;
          decided_by = none;
          decision_notes = none;
          final_payload = none;
          updated_at = now;
        })
        (record db { returns = change (is_return org i) (set_status under_review) db.returns }))

-- `ReturnService.submit_for_review`
unfoldable pub submit_for_review : UuidText → Uuid → Uuid → Uuid → ℕ → Db → Result FilingError Db
submit_for_review texts org user i now db = do
  r ← get_return org i db
  raise_if (not (is_submittable r.status)) (not_submittable r.status)
  ok (send_to_review texts org user i r now db)

-- The object storage: whether the upload of a file under a key succeeds.
abbrev pub Storage : Type 0
Storage = Option (Text → CsvFile → Bool)

abbrev export_key : UuidText → Uuid → Uuid → GstReturn → Text
export_key texts org i r =
    codes "returns/" ++ texts.show org ++ codes "/" ++ texts.show i ++ codes "/" ++ filename r

-- The export marker, which is the old one when there is no storage or the upload fails.
abbrev stored_key : UuidText → Storage → Uuid → Uuid → GstReturn → Option Text
stored_key texts none org i r = r.export_storage_key
stored_key texts (some upload) org i r =
    if upload (export_key texts org i r) (csv_of r.return_type r.summary)
    then some (export_key texts org i r)
    else r.export_storage_key

abbrev pub export_status : ReturnStatus → ReturnStatus
export_status approved_return = exported
export_status draft = draft
export_status generated = generated
export_status under_review = under_review
export_status exported = exported
export_status filed_externally = filed_externally

unfoldable pub mark_exported : UuidText → Storage → Uuid → Uuid → GstReturn → GstReturn
mark_exported texts storage org i r = record r {
  export_storage_key = stored_key texts storage org i r;
  status = export_status r.status;
}

unfoldable pub record_export : UuidText → Storage → Uuid → Uuid → Uuid → GstReturn → Db → Db
record_export texts storage org user i r db =
    log_audit org user (codes "return.export") (codes "gst_return") (texts.show r.id) (record db {
      returns = change (is_return org i) (mark_exported texts storage org i) db.returns;
    })

-- `ReturnService.export`, with the file that it returns.
unfoldable pub export :
    UuidText → Storage → Uuid → Uuid → Uuid → Db → Result FilingError (Db × CsvFile)
export texts storage org user i db = do
  r ← get_return org i db
  ok (record_export texts storage org user i r db, csv_of r.return_type r.summary)
