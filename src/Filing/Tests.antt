-- ===== src/Filing/Tests.antt =====
-- A return of March is generated, sent to review, approved and exported.
use gst_ai_copilot.Base.{
  ◌++◌, is_unicode_digit, decimal_value, List, true, change, find, ◌≡◌, refl, ◌↔◌, Option, none,
  some, [], ◌∷◌, map, pos, Text, codes, text_eq, Result, ok, err, In, inl,
}
use gst_ai_copilot.Filing.{
  no_integer, return_preparation, high_risk, Uuid, UuidText, Approval, approved, Db, Invoice, sales,
  extracted, GstReturn, gstr1, generated, approved_return, exported, is_return, FilingError,
  already_approved,
}
use gst_ai_copilot.Filing.Approvals.{
  decide, get, decision_status, record_decision, propagate, move_return,
}
use gst_ai_copilot.Filing.Prepare.{
  month_of, new_return, generate, validate_period, load_period_invoices, starts_with, regenerated,
  add_return, renew_return, submit_for_review, send_to_review, get_return, export, record_export,
  mark_exported, CsvFile, Storage,
}
use gst_ai_copilot.Filing.Steps.{
  Steps, done, more, empty_db, generates, submits, decides, exports, changes_invoices,
}
use gst_ai_copilot.Filing.Decisions.{decided_forever, decide_ok_iff, TakesDecision, IsDecidable}
use gst_ai_copilot.Filing.Signed.{Backing, is_released, released_return-Backing}
use gst_ai_copilot.Filing.Figures.{Agrees, exported_file-Agrees}
use gst_ai_copilot.Filing.Periods.{generate_ok_iff, IsMonth, IsOpen}

-- An id is written as one character.
abbrev texts : UuidText
texts = record { show = λ i. i ∷ []; parse = parse_one }
  where
    parse_one : Text → Option Uuid
    parse_one (i ∷ []) = some i
    parse_one _ = none

abbrev march : Text
march = codes "2026-03"

abbrev version : Text
version = codes "2026.01"

abbrev no_storage : Storage
no_storage = none

abbrev sale : Invoice
sale = record {
  organization_id = 7;
  direction = sales;
  status = extracted;
  invoice_number = some (codes "INV-1");
  invoice_date = some (codes "2026-03-05");
  supplier_name = none;
  supplier_gstin = none;
  buyer_name = none;
  buyer_gstin = some (codes "27AAPFU0939F1ZV");
  place_of_supply = none;
  items =
      record {
        taxable_value = pos 1_000_000;
        gst_rate = pos 180_000;
        cgst = pos 90_000;
        sgst = pos 90_000;
        igst = pos 0;
        cess = pos 0;
      }
      ∷ [];
}

abbrev db0 : Db
db0 = record empty_db { invoices = sale ∷ [] }

abbrev or_empty : Result FilingError Db → Db
or_empty (ok db) = db
or_empty (err e) = empty_db

abbrev db1 : Db
db1 = or_empty (generate texts version 7 3 gstr1 march db0)

abbrev db2 : Db
db2 = or_empty (submit_for_review texts 7 3 0 100 db1)

abbrev db3 : Db
db3 = or_empty (decide texts 7 5 1 (codes "approve") none none 200 db2)

generated_run : map (λ r. r.status) db1.returns ≡ generated ∷ []
unfolding generate validate_period month_of is_unicode_digit decimal_value load_period_invoices
    starts_with text_eq find change add_return regenerated
generated_run = refl

abbrev task : Approval
task = record {
  id = 1;
  organization_id = 7;
  approval_type = return_preparation;
  risk = high_risk;
  status = approved;
  entity_type = codes "gst_return";
  entity_id = 0 ∷ [];
  ai_recommendation = [];
  evidence = [];
  confidence = none;
  assigned_to = none;
  decided_by = some 5;
  decision_notes = none;
  final_payload = none;
  updated_at = 200;
}

abbrev exported_db : Result FilingError (Db × CsvFile) → Db
exported_db (ok p) = p.0
exported_db (err e) = empty_db

abbrev exported_file : Result FilingError (Db × CsvFile) → CsvFile
exported_file (ok p) = p.1
exported_file (err e) = CsvFile.gstr1_rows []

abbrev db4 : Db
db4 = exported_db (export texts no_storage 7 5 0 db3)

abbrev file : CsvFile
file = exported_file (export texts no_storage 7 5 0 db3)

generates_march : generate texts version 7 3 gstr1 march db0 ≡ ok db1
unfolding generate validate_period month_of is_unicode_digit decimal_value load_period_invoices
    starts_with text_eq find
generates_march = refl

submits_march : submit_for_review texts 7 3 0 100 db1 ≡ ok db2
unfolding submit_for_review get_return generate validate_period month_of is_unicode_digit
    decimal_value load_period_invoices starts_with text_eq find add_return regenerated
submits_march = refl

approves_march : decide texts 7 5 1 (codes "approve") none none 200 db2 ≡ ok db3
unfolding decide get decision_status submit_for_review get_return generate validate_period month_of
    is_unicode_digit decimal_value load_period_invoices starts_with text_eq find add_return
    regenerated send_to_review
approves_march = refl

exports_march : export texts no_storage 7 5 0 db3 ≡ ok (db4, file)
unfolding export decide get decision_status record_decision propagate move_return submit_for_review
    get_return generate validate_period month_of is_unicode_digit decimal_value load_period_invoices
    starts_with text_eq find change add_return regenerated send_to_review
exports_march = refl

march-Steps : Steps texts version no_storage empty_db db3
march-Steps =
    more
      (more
        (more (more (done empty_db) (changes_invoices (sale ∷ []) empty_db))
          (generates 7 3 gstr1 march db0 db1 generates_march))
        (submits 7 3 0 100 db1 db2 submits_march))
      (decides 7 5 1 (codes "approve") none none 200 db2 db3 approves_march)

task_queued : In task db3.approvals
unfolding decide get decision_status record_decision propagate move_return submit_for_review
    get_return generate validate_period month_of is_unicode_digit decimal_value load_period_invoices
    starts_with text_eq find change add_return regenerated send_to_review
task_queued = inl refl

-- The return is approved, then exported, and then generated anew.
reopened_run :
    (map (λ r. r.status) db3.returns ≡ approved_return ∷ [])
    × (map (λ r. r.status) db4.returns ≡ exported ∷ [])
    × (map (λ r. r.status) (or_empty (generate texts version 7 3 gstr1 march db4)).returns
        ≡ generated ∷ [])
    × (generate texts version 7 3 gstr1 march db3 ≡ err already_approved)
unfolding export record_export mark_exported decide get decision_status record_decision propagate
    move_return submit_for_review get_return generate validate_period month_of is_unicode_digit
    decimal_value load_period_invoices starts_with text_eq find change add_return renew_return
    regenerated send_to_review
reopened_run = (refl, refl, refl, refl)

abbrev first_return : List GstReturn → GstReturn
first_return [] = new_return 0 7 gstr1 march version
first_return (r ∷ rs) = r

abbrev march_return : GstReturn
march_return = first_return db3.returns

march_released : In march_return db3.returns × (is_released march_return.status ≡ true)
unfolding decide get decision_status record_decision propagate move_return submit_for_review
    get_return generate validate_period month_of is_unicode_digit decimal_value load_period_invoices
    starts_with text_eq find change add_return regenerated send_to_review
march_released = (inl refl, refl)

released_return-Backing_example : Backing texts db3.approvals march_return
released_return-Backing_example =
    released_return-Backing texts version no_storage march-Steps march_return march_released.0
      march_released.1

exported_file-Agrees_example :
    (r : GstReturn) × (find (is_return 7 0) db3.returns ≡ some r) × Agrees r file r.return_type
exported_file-Agrees_example =
    exported_file-Agrees texts version no_storage 7 5 0 march-Steps exports_march

decided_forever_example : In task db4.approvals
decided_forever_example =
    decided_forever texts version no_storage
      (more (done db3) (exports 7 5 0 db3 db4 file exports_march)) task refl task_queued

decide_ok_iff_example :
    TakesDecision texts 7 5 1 (codes "approve") none none 200 db2
    ↔ IsDecidable 7 1 (codes "approve") none db2
decide_ok_iff_example = decide_ok_iff texts 7 5 1 (codes "approve") none none 200 db2

generate_ok_iff_example :
    ((db' : Db) × (generate texts version 7 3 gstr1 march db4 ≡ ok db'))
    ↔ (IsMonth march × IsOpen 7 gstr1 march db4)
generate_ok_iff_example = generate_ok_iff texts version 7 3 gstr1 march db4

-- `str.isdigit` is true of digits of other scripts and of superscripts; `int` refuses the latter.
fullwidth_month :
    validate_period (0xff12 ∷ 0xff10 ∷ 0xff12 ∷ 0xff16 ∷ b'-' ∷ 0xff10 ∷ 0xff11 ∷ []) ≡ ok tt
unfolding validate_period month_of is_unicode_digit decimal_value
fullwidth_month = refl

superscript_month : validate_period (codes "2026-0" ++ (0xb2 ∷ [])) ≡ err no_integer
unfolding validate_period month_of is_unicode_digit decimal_value
superscript_month = refl
