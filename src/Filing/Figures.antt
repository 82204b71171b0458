-- ===== src/Filing/Figures.antt =====
-- The figures on a return are those of the file that its export writes.
use gst_ai_copilot.Base.{
  All-change, find, ◌≡◌, refl, sym, ◌∙◌, ap, subst, Bool, true, Option, some, List, [], ◌∷◌, map,
  Option-cases, Bool-cases, inl, inr, Text, text_eq, text_eq_iff, text_eq_refl, some-inj, ok, arith,
  All, All-append, ◌+ℤ◌, codes,
}
use mathlib.Core.Path.{ap₂}
use gst_ai_copilot.Returns.{
  ReturnInvoice, CsvRow, total_tax, build_gstr1, build_gstr3b, gstr1_to_csv_rows,
}
use gst_ai_copilot.Returns.Totals.{Figure}
use gst_ai_copilot.Returns.Summaries.{row_sum, csv_adds_up}
use gst_ai_copilot.Filing.{
  Uuid, UuidText, Approval, ApprovalStatus, approved, rejected, modified, pending, Db, is_return,
  GstReturn, ReturnType, gstr1, gstr3b, under_review,
}
use gst_ai_copilot.Filing.Approvals.{
  create, record_decision, propagate, move_return, is_return_preparation,
}
use gst_ai_copilot.Filing.Prepare.{
  new_return, summarize_return, add_return, renew_return, regenerated, same_type, is_for, to_input,
  load_period_invoices, figures_for, send_to_review, set_status, record_export, export,
  mark_exported, csv_of, gstr1_rows, gstr3b_rows, BlockRow, Storage, CsvFile,
}
use gst_ai_copilot.Filing.Steps.{
  Step, Steps, done, more, empty_db, decide-eq-ok, creates, decides, generates, submits, exports,
  changes_invoices,
}
use gst_ai_copilot.Filing.Results.{
  Generation, adds, renews, generate-eq-ok, submit-eq-ok, export-eq-ok,
}

-- The return holds what the aggregation makes of some invoices.
pub record IsPrepared (r : GstReturn) : Type 0 where
  pub inputs : List ReturnInvoice
  pub taxable : r.total_taxable_value ≡ (summarize_return r.return_type r.period inputs).taxable
  pub tax : r.total_tax ≡ (summarize_return r.return_type r.period inputs).tax
  pub stored : r.summary ≡ (summarize_return r.return_type r.period inputs).stored

same_type-eq : (s t : ReturnType) → same_type s t ≡ true → s ≡ t
same_type-eq gstr1 gstr1 h = refl
same_type-eq gstr1 gstr3b h = cc
same_type-eq gstr3b gstr1 h = cc
same_type-eq gstr3b gstr3b h = refl

is_for-same :
    (org : Uuid) (ty : ReturnType) (period : Text) (r : GstReturn)
    → is_for org ty period r ≡ true
    → (ty ≡ r.return_type) × (period ≡ r.period)
is_for-same org ty period r h =
    let t : same_type ty r.return_type ≡ true = ground arith in
    let p : text_eq period r.period ≡ true = ground arith in
    (same_type-eq ty r.return_type t, (text_eq_iff period r.period).0 p)

regenerated-IsPrepared :
    (org user : Uuid) (ty : ReturnType) (period : Text) (db : Db) (r : GstReturn)
    → is_for org ty period r ≡ true
    → IsPrepared (regenerated (figures_for org ty period db) user r)
unfolding regenerated
regenerated-IsPrepared org user ty period db r h =
    let (t, p) = is_for-same org ty period r h in
    rw (t, p)
      (record {
        inputs = map to_input (load_period_invoices org r.period db);
        taxable = refl;
        tax = refl;
        stored = refl;
      })

abbrev ArePrepared : Db → Type 0
ArePrepared db = All IsPrepared db.returns

-- A change of other columns.
IsPrepared-carry :
    (r r' : GstReturn)
    → r'.return_type ≡ r.return_type
    → r'.period ≡ r.period
    → r'.total_taxable_value ≡ r.total_taxable_value
    → r'.total_tax ≡ r.total_tax
    → r'.summary ≡ r.summary
    → IsPrepared r
    → IsPrepared r'
IsPrepared-carry r r' ty period taxable tax stored p = record {
  inputs = p.inputs;
  taxable = rw (ty, period) (taxable ∙ p.taxable);
  tax = rw (ty, period) (tax ∙ p.tax);
  stored = rw (ty, period) (stored ∙ p.stored);
}

move_return-IsPrepared :
    (s : ApprovalStatus) (notes : Option Text) (user : Uuid) (r : GstReturn)
    → IsPrepared r
    → IsPrepared (move_return s notes user r)
unfolding move_return
move_return-IsPrepared approved notes user r p = IsPrepared-carry r _ refl refl refl refl refl p
move_return-IsPrepared rejected notes user r p = IsPrepared-carry r _ refl refl refl refl refl p
move_return-IsPrepared modified notes user r p = IsPrepared-carry r _ refl refl refl refl refl p
move_return-IsPrepared pending notes user r p = IsPrepared-carry r _ refl refl refl refl refl p

propagate-ArePrepared :
    (texts : UuidText) (a : Approval) (s : ApprovalStatus) (notes : Option Text) (user : Uuid)
    (db : Db)
    → ArePrepared db
    → ArePrepared (propagate texts a s notes user db)
unfolding propagate
propagate-ArePrepared texts a s notes user db h =
    elim (Bool-cases (is_return_preparation a.approval_type)) [
      | inl t ↦ elim (Option-cases (texts.parse a.entity_id)) [
        | inl e ↦ rw (t, e) h
        | inr (i, e) ↦
            rw (t, e)
              (All-change (is_return a.organization_id i) (move_return s notes user) IsPrepared
                IsPrepared (λ r hit p. move_return-IsPrepared s notes user r p) (λ r p. p)
                db.returns h)
      ]
      | inr t ↦ rw t h
    ]

is_for-new :
    (org : Uuid) (ty : ReturnType) (period : Text) (db : Db) (version : Text)
    → is_for org ty period (new_return db.next_id org ty period version) ≡ true
is_for-new org gstr1 period db version = ground (arith, text_eq_refl period)
is_for-new org gstr3b period db version = ground (arith, text_eq_refl period)

generate-ArePrepared :
    (texts : UuidText) (version : Text) (org user : Uuid) (ty : ReturnType) (period : Text)
    (db : Db) {db' : Db}
    → Generation texts version org user ty period db db'
    → ArePrepared db
    → ArePrepared db'
unfolding add_return renew_return
generate-ArePrepared texts version org user ty period db (adds missing e) h =
    subst ArePrepared (sym e) (
      All-append IsPrepared db.returns _ h
        (regenerated-IsPrepared org user ty period db _ (is_for-new org ty period db version), tt))
generate-ArePrepared texts version org user ty period db (renews r there unlocked e) h =
    subst ArePrepared (sym e) (
      All-change (is_for org ty period) (regenerated (figures_for org ty period db) user) IsPrepared
        IsPrepared (λ x hit p. regenerated-IsPrepared org user ty period db x hit) (λ x p. p)
        db.returns h)

Step-ArePrepared :
    (texts : UuidText) (version : Text) (storage : Storage) {db db' : Db}
    → Step texts version storage db db'
    → ArePrepared db
    → ArePrepared db'
unfolding create record_decision send_to_review record_export mark_exported
Step-ArePrepared texts version storage
      (creates org ty risk entity_type entity_id rec evidence confidence assigned_to now db) h =
    h
Step-ArePrepared texts version storage (decides org user task decision notes payload now db db' e)
      h =
    let d = decide-eq-ok texts org user task decision notes payload now db e in
    subst ArePrepared (sym d.result) (propagate-ArePrepared texts d.found d.status notes user _ h)
Step-ArePrepared texts version storage (generates org user ty period db db' e) h =
    generate-ArePrepared texts version org user ty period db
      (generate-eq-ok texts version org user ty period db e) h
Step-ArePrepared texts version storage (submits org user i now db db' e) h =
    subst ArePrepared (sym (submit-eq-ok texts org user i now db e).result) (
      All-change (is_return org i) (set_status under_review) IsPrepared IsPrepared
        (λ x hit p. IsPrepared-carry x _ refl refl refl refl refl p) (λ x p. p) db.returns h)
Step-ArePrepared texts version storage (exports org user i db db' file e) h =
    subst ArePrepared (sym (export-eq-ok texts storage org user i db e).result) (
      All-change (is_return org i) (mark_exported texts storage org i) IsPrepared IsPrepared
        (λ x hit p. IsPrepared-carry x _ refl refl refl refl refl p) (λ x p. p) db.returns h)
Step-ArePrepared texts version storage (changes_invoices invs db) h = h

Steps-ArePrepared :
    (texts : UuidText) (version : Text) (storage : Storage) {db db' : Db}
    → Steps texts version storage db db'
    → ArePrepared db
    → ArePrepared db'
Steps-ArePrepared texts version storage (done db) h = h
Steps-ArePrepared texts version storage (more before last) h =
    Step-ArePrepared texts version storage last (Steps-ArePrepared texts version storage before h)

-- The file of a return: its rows, in each figure, or its net tax make up what stands on the return.
abbrev pub Agrees : GstReturn → CsvFile → ReturnType → Type 0
Agrees r file gstr1 =
    (rows : List CsvRow) × (file ≡ gstr1_rows rows)
    × (row_sum Figure.taxable_value rows ≡ r.total_taxable_value)
    × (row_sum Figure.cgst rows
          +ℤ row_sum Figure.sgst rows
          +ℤ row_sum Figure.igst rows
          +ℤ row_sum Figure.cess rows
        ≡ r.total_tax)
Agrees r file gstr3b =
    (outward credit net : BlockRow) × (file ≡ gstr3b_rows (outward ∷ credit ∷ net ∷ []))
    × (outward.label ≡ codes "Outward taxable supplies")
    × (outward.taxable_value ≡ some r.total_taxable_value)
    × (net.label ≡ codes "Net tax payable")
    × (net.total_tax ≡ some r.total_tax)

prepared-Agrees :
    (r : GstReturn) (ty : ReturnType)
    → r.return_type ≡ ty
    → IsPrepared r
    → Agrees r (csv_of r.return_type r.summary) ty
unfolding summarize_return csv_of total_tax
prepared-Agrees r gstr1 e p =
    let s = build_gstr1 r.period p.inputs in
    let at = λ (f : Figure). csv_adds_up r.period p.inputs f in
    let rows = gstr1_to_csv_rows s in
    (
      rows,
      ap₂ csv_of e (p.stored ∙ ap (λ t. (summarize_return t r.period p.inputs).stored) e),
      at Figure.taxable_value
          ∙ sym (p.taxable ∙ ap (λ t. (summarize_return t r.period p.inputs).taxable) e),
      ap₂ (λ x y. x +ℤ y)
            (ap₂ (λ x y. x +ℤ y) (ap₂ (λ x y. x +ℤ y) (at Figure.cgst) (at Figure.sgst))
              (at Figure.igst))
            (at Figure.cess)
          ∙ sym (p.tax ∙ ap (λ t. (summarize_return t r.period p.inputs).tax) e),
    )
prepared-Agrees r gstr3b e p =
    let s = build_gstr3b r.period p.inputs in
    (
      _,
      _,
      _,
      ap₂ csv_of e (p.stored ∙ ap (λ t. (summarize_return t r.period p.inputs).stored) e),
      refl,
      ap some (sym (p.taxable ∙ ap (λ t. (summarize_return t r.period p.inputs).taxable) e)),
      refl,
      ap some (sym (p.tax ∙ ap (λ t. (summarize_return t r.period p.inputs).tax) e)),
    )

find-All :
    {A : Type 0} (P : A → Type 0) (q : A → Bool) (xs : List A) {x : A}
    → find q xs ≡ some x
    → All P xs
    → P x
unfolding find
find-All P q [] e h = cc
find-All P q (y ∷ ys) {x} e h = elim (Bool-cases (q y)) [
  | inl t ↦ subst P (some-inj (sym (rw t refl) ∙ e)) h.0
  | inr t ↦ find-All P q ys (sym (rw t refl) ∙ e) h.1
]

-- From an empty database, after any number of steps, the file that an export returns agrees with
-- the return: the rows of a GSTR-1 add up to its taxable value and its tax, and a GSTR-3B has three
-- rows, the first for outward supplies with the return's taxable value and the last for the net tax
-- with the return's tax as its total.
pub exported_file-Agrees :
    (texts : UuidText) (version : Text) (storage : Storage) {db db' : Db} (org user i : Uuid)
    {file : CsvFile}
    → Steps texts version storage empty_db db
    → export texts storage org user i db ≡ ok (db', file)
    → (r : GstReturn) × (find (is_return org i) db.returns ≡ some r) × Agrees r file r.return_type
exported_file-Agrees texts version storage {db} org user i steps e =
    let x = export-eq-ok texts storage org user i db e in
    let p : IsPrepared x.found =
      find-All IsPrepared (is_return org i) db.returns x.found_eq
        (Steps-ArePrepared texts version storage steps tt) in
    (
      x.found,
      x.found_eq,
      subst (λ k. Agrees x.found k x.found.return_type) (sym x.file_eq)
          (prepared-Agrees x.found x.found.return_type refl p),
    )
