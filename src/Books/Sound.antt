-- ===== src/Books/Sound.antt =====
-- What the tables of the books promise each other, and that every call keeps it.
pub mod Ledgers
use gst_ai_copilot.Base.{
  ℕ, suc, ◌==◌, ◌≤◌, ◌<◌, ◌≡◌, refl, sym, subst, ◌∙◌, inl, inr, Bool, true, false, not, Bool-cases,
  ◌&&◌, Option, none, some, Option-cases, Result-cases, List, [], ◌∷◌, ◌++◌, map, any, find,
  find-true, any-of-find, Text, strip, Decimal, pos, arith, ok, >>=-eq-ok, raise_if, leb_ℤ,
  All-append, All-mono, true-false,
}
use gst_ai_copilot.Accounting.Voucher.{Side, validate_balanced}
use gst_ai_copilot.Books.{
  VoucherType, LedgerGroup, Ledger, EntryDraft, Voucher, Db, PostedInvoice, already_posted,
  nothing_to_post,
}
use gst_ai_copilot.Books.Chart.{add_ledger, ensure_chart_of_accounts}
use gst_ai_copilot.Books.Charted.{in_group, ensure-induction}
use gst_ai_copilot.Books.Vouchers.{
  same_name, of_class, new_party, named_party, party_ledger, input_of, is_owned, new_voucher,
  create_voucher, create_ledger, invoice_entries, is_source, totals_of, post_on_chart, post_invoice,
}
use gst_ai_copilot.Books.Runs.{Step, sets_up, opens, enters, posts, Steps, done, more}
use gst_ai_copilot.Books.Reports.Ties.{owners, AreOwned, IsOwned}
use gst_ai_copilot.Books.Sound.Ledgers.{IsSound, add_ledger-IsSound, add_group-IsSound}

is_owned-owners : (org i : ℕ) (ls : List Ledger) → is_owned org ls i ≡ true → 1 ≤ owners org i ls
unfolding is_owned
is_owned-owners org i [] h = absurd (true-false (sym h))
is_owned-owners org i (l ∷ ls) h = elim (Bool-cases ((l.organization_id == org) && (l.id == i))) [
  | inl t ↦ rw t (omega arith)
  | inr t ↦ rw t (is_owned-owners org i ls (sym (rw t refl) ∙ h))
]

not_foreign :
    (org : ℕ) (db : Db) (es : List EntryDraft)
    → IsSound db
    → any (λ e. not (is_owned org db.ledgers e.ledger_id)) es ≡ false
    → AreOwned org db.ledgers es
not_foreign org db [] s h = tt
not_foreign org db (e ∷ es) s h = elim (Bool-cases (is_owned org db.ledgers e.ledger_id)) [
  | inr t ↦ absurd (true-false (sym (rw t refl) ∙ h))
  | inl t ↦
      let some_owner = is_owned-owners org e.ledger_id db.ledgers t in
      let at_most = s.unique org e.ledger_id in
      (omega arith, not_foreign org db es s (sym (rw t refl) ∙ h))
]

-- The ledgers of the entries are there, and nothing but the voucher is new.
record Written (org : ℕ) (entries : List EntryDraft) (db db' : Db) : Type 0 where
  voucher : Voucher
  of_org : voucher.organization_id ≡ org
  has_entries : voucher.entries ≡ entries
  found : any (λ e. not (is_owned org db.ledgers e.ledger_id)) entries ≡ false
  written : db' ≡ record db { vouchers = db.vouchers ++ (voucher ∷ []); next_id = suc db.next_id }

create-Written :
    (org user : ℕ) (ty : VoucherType) (date : Text) (entries : List EntryDraft)
    (narration reference : Option Text) (source : Option ℕ) (is_auto : Bool) (db : Db) {db' : Db}
    → create_voucher org user ty date entries narration reference source is_auto db ≡ ok db'
    → Written org entries db db'
unfolding create_voucher new_voucher
create-Written org user ty date entries narration reference source is_auto db {db'} h =
    elim (Result-cases (validate_balanced (map input_of entries))) [
      | inr (e, bad) ↦ absurd (ground arith)
      | inl (u, good) ↦ record {
        voucher = new_voucher org user ty date entries narration reference source is_auto db;
        of_org = refl;
        has_entries = refl;
        found = ground arith;
        written = ground arith;
      }
    ]

create-IsSound :
    (org user : ℕ) (ty : VoucherType) (date : Text) (entries : List EntryDraft)
    (narration reference : Option Text) (source : Option ℕ) (is_auto : Bool) (db : Db) {db' : Db}
    → create_voucher org user ty date entries narration reference source is_auto db ≡ ok db'
    → IsSound db
    → IsSound db'
create-IsSound org user ty date entries narration reference source is_auto db {db'} h s =
    let w = create-Written org user ty date entries narration reference source is_auto db h in
    let owned : IsOwned db.ledgers w.voucher =
      subst (λ es. AreOwned w.voucher.organization_id db.ledgers es) (sym w.has_entries)
        (subst (λ o. AreOwned o db.ledgers entries) (sym w.of_org)
          (not_foreign org db entries s w.found)) in
    subst IsSound (sym w.written) (record {
      grouped = s.grouped;
      fresh =
          All-mono (λ l. l.id < db.next_id) (λ l. l.id < suc db.next_id) (λ l k. omega arith)
            db.ledgers s.fresh;
      unique = s.unique;
      owned = All-append (IsOwned db.ledgers) db.vouchers (w.voucher ∷ []) s.owned (owned, tt);
    })

named-IsSound :
    (org : ℕ) (clean classification party_type : Text) (party_id : Option ℕ) (gstin : Option Text)
    (db : Db) {found : Db × Ledger}
    → named_party org clean classification party_type party_id gstin db ≡ ok found
    → IsSound db
    → IsSound found.0
unfolding named_party
named-IsSound org clean classification party_type party_id gstin db {found} h s =
    elim (Option-cases (find (same_name org clean) db.ledgers)) [
      | inr (l, there) ↦ subst IsSound (there_already l there) s
      | inl missing ↦ elim (Option-cases (find (of_class org classification) db.groups)) [
        | inl no_group ↦ absurd (ground arith)
        | inr (g, there) ↦ subst IsSound (made_new g missing there) (
            add_ledger-IsSound (new_party db.next_id org clean g.id party_type party_id gstin) db
              refl (in_group _ db.groups there) s)
      ]
    ]
  where
    there_already : (l : Ledger) → find (same_name org clean) db.ledgers ≡ some l → db ≡ found.0
    there_already l there = ground arith

    made_new :
        (g : LedgerGroup)
        → find (same_name org clean) db.ledgers ≡ none
        → find (of_class org classification) db.groups ≡ some g
        → add_ledger (new_party db.next_id org clean g.id party_type party_id gstin) db ≡ found.0
    made_new g missing there = ground arith

and-left : {a : Bool} (b : Bool) → (a && b) ≡ true → a ≡ true
and-left {a} b h = ground arith

opens-IsSound :
    (org : ℕ) (name : Text) (group_id : ℕ) (opening : Decimal) (side : Side)
    (gstin notes : Option Text) (db : Db) {db' : Db}
    → create_ledger org name group_id opening side gstin notes db ≡ ok db'
    → IsSound db
    → IsSound db'
unfolding create_ledger
opens-IsSound org name group_id opening side gstin notes db {db'} h s =
    elim (Option-cases (find (λ g. (g.id == group_id) && (g.organization_id == org)) db.groups)) [
      | inl unknown ↦ absurd (ground arith)
      | inr (g, there) ↦
          let in_place : any (λ k. k.id == group_id) db.groups ≡ true =
            any-of-find _ (λ k. k) (λ k. k.id == group_id) db.groups there
              (and-left (g.organization_id == org) (find-true _ (λ k. k) db.groups there)) in
          subst IsSound (made g there) (add_ledger-IsSound _ db refl in_place s)
    ]
  where
    made :
        (g : LedgerGroup)
        → find (λ g. (g.id == group_id) && (g.organization_id == org)) db.groups ≡ some g
        → add_ledger
            (record {
              id = db.next_id;
              organization_id = org;
              name = strip name;
              group_id = group_id;
              opening_balance = opening;
              opening_side = side;
              gstin = gstin;
              is_system = false;
              party_type = none;
              party_id = none;
              notes = notes;
            })
            db
          ≡ db'
    made g there = ground arith

posts-IsSound :
    (show : ℕ → Text) (today : Text) (org user : ℕ) (inv : PostedInvoice) (db : Db) {db' : Db}
    → post_on_chart show today org user inv db ≡ ok db'
    → IsSound db
    → IsSound db'
unfolding post_on_chart party_ledger
posts-IsSound show today org user inv db {db'} h s =
    let (a, fresh, h1) =
      >>=-eq-ok (raise_if (any (is_source org inv.id) db.vouchers) already_posted) _ h in
    let (b, above, h2) =
      >>=-eq-ok (raise_if (leb_ℤ (totals_of inv.items).taxable (pos 0)) nothing_to_post) _ h1 in
    let (found, party, h3) = >>=-eq-ok _ _ h2 in
    let (entries, legs, h4) =
      >>=-eq-ok (invoice_entries org inv.direction (totals_of inv.items) found.1.id found.0) _ h3 in
    create-IsSound org user _ _ entries _ _ (some inv.id) true found.0 h4
      (named-IsSound org _ _ _ _ _ db party s)

Step-IsSound :
    (show : ℕ → Text) (today : Text) {db db' : Db}
    → Step show today db db'
    → IsSound db
    → IsSound db'
unfolding post_invoice
Step-IsSound show today (sets_up org db db' e) s =
    ensure-induction IsSound add_group-IsSound add_ledger-IsSound org db e s
Step-IsSound show today (opens org name group_id opening side gstin notes db db' e) s =
    opens-IsSound org name group_id opening side gstin notes db e s
Step-IsSound show today (enters org user ty date entries narration reference db db' e) s =
    create-IsSound org user ty date entries narration reference none false db e s
Step-IsSound show today (posts org user inv db db' e) s =
    let (chart, set_up, posted) = >>=-eq-ok (ensure_chart_of_accounts org db) _ e in
    posts-IsSound show today org user inv chart posted
      (ensure-induction IsSound add_group-IsSound add_ledger-IsSound org db set_up s)

-- Sound books stay sound under any number of calls: every ledger has its group, no id is given
-- twice, and every entry of a voucher is on exactly one ledger of the voucher's organization.
pub Steps-IsSound :
    (show : ℕ → Text) (today : Text) {db db' : Db}
    → Steps show today db db'
    → IsSound db
    → IsSound db'
Steps-IsSound show today (done db) s = s
Steps-IsSound show today (more before last) s =
    Step-IsSound show today last (Steps-IsSound show today before s)
