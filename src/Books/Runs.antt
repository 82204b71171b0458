-- ===== src/Books/Runs.antt =====
-- The runs of the service: what holds of every voucher, and that an invoice is posted once.
use gst_ai_copilot.Base.{
  raise_if, length-append, ℕ, ◌+◌, ◌≤◌, ◌≡◌, refl, sym, ap, subst, ◌∙◌, inl, inr, Bool, true, false,
  Bool-cases, Option, none, some, Option-cases, List, [], ◌∷◌, ◌++◌, map, select, select-append,
  any, length, find, Text, Decimal, pos, leb_ℤ, arith, Result-cases, ok, >>=-eq-ok, All, All-append,
}
use gst_ai_copilot.Accounting.Voucher.{Side, validate_balanced}
use gst_ai_copilot.Books.{
  VoucherType, EntryDraft, Ledger, Voucher, Db, already_posted, nothing_to_post, PostedInvoice,
}
use gst_ai_copilot.Books.Chart.{ensure_chart_of_accounts}
use gst_ai_copilot.Books.Charted.{ensure-induction}
use gst_ai_copilot.Books.Vouchers.{
  same_name, of_class, named_party, input_of, new_voucher, create_voucher, create_ledger,
  party_ledger, post_invoice, post_on_chart, invoice_entries, is_source, totals_of,
}

-- What a voucher that was created has passed, and what was added.
pub record Creation (org : ℕ) (source : Option ℕ) (db db' : Db) : Type 0 where
  pub voucher : Voucher
  pub of_org : voucher.organization_id ≡ org
  pub has_source : voucher.source_invoice_id ≡ source
  pub accepted : validate_balanced (map input_of voucher.entries) ≡ ok tt
  pub added : db'.vouchers ≡ db.vouchers ++ (voucher ∷ [])

unit_eq : (u : Unit {0}) → u ≡ tt
unit_eq tt = refl

pub create-eq-ok :
    (org user : ℕ) (ty : VoucherType) (date : Text) (entries : List EntryDraft)
    (narration reference : Option Text) (source : Option ℕ) (is_auto : Bool) (db : Db) {db' : Db}
    → create_voucher org user ty date entries narration reference source is_auto db ≡ ok db'
    → Creation org source db db'
unfolding create_voucher new_voucher
create-eq-ok org user ty date entries narration reference source is_auto db h =
    elim (Result-cases (validate_balanced (map input_of entries))) [
      | inr (e, bad) ↦ absurd (ground arith)
      | inl (u, good) ↦ record {
        voucher = new_voucher org user ty date entries narration reference source is_auto db;
        of_org = refl;
        has_source = refl;
        accepted = good ∙ ap (λ k. ok k) (unit_eq u);
        added = ground arith;
      }
    ]

named-vouchers :
    (org : ℕ) (clean classification party_type : Text) (party_id : Option ℕ) (gstin : Option Text)
    (db : Db) {found : Db × Ledger}
    → named_party org clean classification party_type party_id gstin db ≡ ok found
    → found.0.vouchers ≡ db.vouchers
unfolding named_party
named-vouchers org clean classification party_type party_id gstin db h =
    elim (Option-cases (find (same_name org clean) db.ledgers)) [
      | inr (l, there) ↦ ground arith
      | inl missing ↦ elim (Option-cases (find (of_class org classification) db.groups)) [
        | inl no_group ↦ absurd (ground arith)
        | inr (g, there) ↦ ground arith
      ]
    ]

-- One call that succeeds; a voucher by hand has no invoice behind it.
pub data Step (show : ℕ → Text) (today : Text) : Db → Db → Type 0 where
  sets_up :
      (org : ℕ) (db db' : Db) → ensure_chart_of_accounts org db ≡ ok db' → Step show today db db'
  opens :
      (org : ℕ) (name : Text) (group_id : ℕ) (opening : Decimal) (side : Side)
      (gstin notes : Option Text) (db db' : Db)
      → create_ledger org name group_id opening side gstin notes db ≡ ok db'
      → Step show today db db'
  enters :
      (org user : ℕ) (ty : VoucherType) (date : Text) (entries : List EntryDraft)
      (narration reference : Option Text) (db db' : Db)
      → create_voucher org user ty date entries narration reference none false db ≡ ok db'
      → Step show today db db'
  posts :
      (org user : ℕ) (inv : PostedInvoice) (db db' : Db)
      → post_invoice show today org user inv db ≡ ok db'
      → Step show today db db'

pub data Steps (show : ℕ → Text) (today : Text) : Db → Db → Type 0 where
  done : (db : Db) → Steps show today db db
  more : {a b c : Db} → Steps show today a b → Step show today b c → Steps show today a c

-- What a posting adds: one voucher, for an invoice that had none.
pub record Posting (org i : ℕ) (db db' : Db) : Type 0 where
  pub voucher : Voucher
  pub of_org : voucher.organization_id ≡ org
  pub source : voucher.source_invoice_id ≡ some i
  pub fresh : any (is_source org i) db.vouchers ≡ false
  pub accepted : validate_balanced (map input_of voucher.entries) ≡ ok tt
  pub added : db'.vouchers ≡ db.vouchers ++ (voucher ∷ [])

pub ensure-vouchers :
    (org : ℕ) (db : Db) {db' : Db}
    → ensure_chart_of_accounts org db ≡ ok db'
    → db'.vouchers ≡ db.vouchers
ensure-vouchers org db e =
    ensure-induction (λ d. d.vouchers ≡ db.vouchers) (λ o g d h. h) (λ l d same grouped h. h) org db
      e refl

chart-Posting :
    (show : ℕ → Text) (today : Text) (org user : ℕ) (inv : PostedInvoice) (db : Db) {db' : Db}
    → post_on_chart show today org user inv db ≡ ok db'
    → Posting org inv.id db db'
unfolding post_on_chart party_ledger new_voucher
chart-Posting show today org user inv db {db'} h =
    let (a, fresh, h1) =
      >>=-eq-ok (raise_if (any (is_source org inv.id) db.vouchers) already_posted) _ h in
    let (b, above, h2) =
      >>=-eq-ok (raise_if (leb_ℤ (totals_of inv.items).taxable (pos 0)) nothing_to_post) _ h1 in
    let (found, party, h3) = >>=-eq-ok _ _ h2 in
    let (entries, legs, h4) =
      >>=-eq-ok (invoice_entries org inv.direction (totals_of inv.items) found.1.id found.0) _ h3 in
    let made = create-eq-ok org user _ _ entries _ _ (some inv.id) true found.0 h4 in
    let kept = named-vouchers org _ _ _ _ _ db party in
    record {
      voucher = made.voucher;
      of_org = made.of_org;
      source = made.has_source;
      fresh = not_raised _ fresh;
      accepted = made.accepted;
      added = made.added ∙ ap (λ vs. vs ++ (made.voucher ∷ [])) kept;
    }
  where
    not_raised : (b : Bool) {u : Unit {0}} → raise_if b already_posted ≡ ok u → b ≡ false
    not_raised true e = cc
    not_raised false e = refl

pub posts-Posting :
    (show : ℕ → Text) (today : Text) (org user : ℕ) (inv : PostedInvoice) (db : Db) {db' : Db}
    → post_invoice show today org user inv db ≡ ok db'
    → Posting org inv.id db db'
unfolding post_invoice
posts-Posting show today org user inv db {db'} h =
    let (chart, set_up, posted) = >>=-eq-ok (ensure_chart_of_accounts org db) _ h in
    let p = chart-Posting show today org user inv chart posted in
    let same = ensure-vouchers org db set_up in
    record {
      voucher = p.voucher;
      of_org = p.of_org;
      source = p.source;
      fresh = subst (λ vs. any (is_source org inv.id) vs ≡ false) same p.fresh;
      accepted = p.accepted;
      added = p.added ∙ ap (λ vs. vs ++ (p.voucher ∷ [])) same;
    }

pub opens-vouchers :
    (org : ℕ) (name : Text) (group_id : ℕ) (opening : Decimal) (side : Side)
    (gstin notes : Option Text) (db : Db) {db' : Db}
    → create_ledger org name group_id opening side gstin notes db ≡ ok db'
    → db'.vouchers ≡ db.vouchers
unfolding create_ledger
opens-vouchers org name group_id opening side gstin notes db h = ground arith

-- The vouchers of an invoice.
abbrev pub postings : ℕ → ℕ → List Voucher → ℕ
postings org i vs = length (select (is_source org i) vs)

postings-append :
    (org i : ℕ) (vs : List Voucher) (v : Voucher)
    → postings org i (vs ++ (v ∷ [])) ≡ postings org i vs + postings org i (v ∷ [])
postings-append org i vs v =
    rw
      (
        select-append (is_source org i) vs (v ∷ []),
        length-append (select (is_source org i) vs) (select (is_source org i) (v ∷ [])),
      )
      refl

none-postings :
    (org i : ℕ) (vs : List Voucher) → any (is_source org i) vs ≡ false → postings org i vs ≡ 0
none-postings org i [] h = refl
none-postings org i (v ∷ vs) h = ground (arith, none-postings org i vs)

one-posting : (org i : ℕ) (v : Voucher) → postings org i (v ∷ []) ≤ 1
one-posting org i v = elim (Bool-cases (is_source org i v)) [
  | inl t ↦ rw t (omega arith)
  | inr t ↦ rw t (omega arith)
]

source-ids :
    (org i o j : ℕ) (v : Voucher)
    → v.organization_id ≡ o
    → v.source_invoice_id ≡ some j
    → is_source org i v ≡ true
    → (o ≡ org) × (j ≡ i)
source-ids org i o j v eo ej t = ground arith

Posting-postings :
    (org i o j : ℕ) (db : Db) {db' : Db}
    → Posting o j db db'
    → postings org i db.vouchers ≤ 1
    → postings org i db'.vouchers ≤ 1
Posting-postings org i o j db p h = elim (Bool-cases (is_source org i p.voucher)) [
  | inl t ↦
      let same : (o ≡ org) × (j ≡ i) = source-ids org i o j p.voucher p.of_org p.source t in
      rw (p.added) (
        rw (postings-append org i db.vouchers p.voucher) (
          let none_yet = none-postings org i db.vouchers (
            subst (λ k. any (is_source k i) db.vouchers ≡ false) same.0
              (subst (λ k. any (is_source o k) db.vouchers ≡ false) same.1 p.fresh)) in
          let one = one-posting org i p.voucher in omega arith))
  | inr t ↦ rw (p.added) (rw (postings-append org i db.vouchers p.voucher) (rw t (omega arith)))
]

Step-postings :
    (show : ℕ → Text) (today : Text) (org i : ℕ) {db db' : Db}
    → Step show today db db'
    → postings org i db.vouchers ≤ 1
    → postings org i db'.vouchers ≤ 1
Step-postings show today org i (sets_up o db db' e) h = rw (ensure-vouchers o db e) h
Step-postings show today org i (opens o name group_id opening side gstin notes db db' e) h =
    rw (opens-vouchers o name group_id opening side gstin notes db e) h
Step-postings show today org i (enters o user ty date entries narration reference db db' e) h =
    let made = create-eq-ok o user ty date entries narration reference none false db e in
    let no_source : is_source org i made.voucher ≡ false = ground arith in
    rw made.added (rw (postings-append org i db.vouchers made.voucher) (rw no_source (omega arith)))
Step-postings show today org i (posts o user inv db db' e) h =
    Posting-postings org i o inv.id db (posts-Posting show today o user inv db e) h

-- An invoice that stands behind one voucher of the organization at most does so after any number of
-- calls, where a voucher entered by hand names no invoice: however often it is posted, the books
-- hold it once.
pub posted_once :
    (show : ℕ → Text) (today : Text) (org i : ℕ) {db db' : Db}
    → Steps show today db db'
    → postings org i db.vouchers ≤ 1
    → postings org i db'.vouchers ≤ 1
posted_once show today org i (done db) h = h
posted_once show today org i (more before last) h =
    Step-postings show today org i last (posted_once show today org i before h)

-- The rules accept the entries of the voucher.
abbrev pub IsAccepted : Voucher → Type 0
IsAccepted v = validate_balanced (map input_of v.entries) ≡ ok tt

Step-IsAccepted :
    (show : ℕ → Text) (today : Text) {db db' : Db}
    → Step show today db db'
    → All IsAccepted db.vouchers
    → All IsAccepted db'.vouchers
Step-IsAccepted show today (sets_up o db db' e) h =
    subst (All IsAccepted) (sym (ensure-vouchers o db e)) h
Step-IsAccepted show today (opens o name group_id opening side gstin notes db db' e) h =
    subst (All IsAccepted) (sym (opens-vouchers o name group_id opening side gstin notes db e)) h
Step-IsAccepted show today (enters o user ty date entries narration reference db db' e) h =
    let made = create-eq-ok o user ty date entries narration reference none false db e in
    subst (All IsAccepted) (sym made.added)
      (All-append IsAccepted db.vouchers _ h (made.accepted, tt))
Step-IsAccepted show today (posts o user inv db db' e) h =
    let made = posts-Posting show today o user inv db e in
    subst (All IsAccepted) (sym made.added)
      (All-append IsAccepted db.vouchers _ h (made.accepted, tt))

-- If the balance check accepts every voucher of the books, it does so after any number of calls.
pub vouchers-IsAccepted :
    (show : ℕ → Text) (today : Text) {db db' : Db}
    → Steps show today db db'
    → All IsAccepted db.vouchers
    → All IsAccepted db'.vouchers
vouchers-IsAccepted show today (done db) h = h
vouchers-IsAccepted show today (more before last) h =
    Step-IsAccepted show today last (vouchers-IsAccepted show today before h)
