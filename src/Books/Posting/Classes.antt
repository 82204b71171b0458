-- ===== src/Books/Posting/Classes.antt =====
-- The ledger of a party, and the class of its group in the chart of accounts, in backend/app/services/accounting_service.py.
use gst_ai_copilot.Base.{
  false, arith, length, select, ◌≤◌, ℕ, ◌==◌, ◌≡◌, refl, sym, ◌∙◌, inl, inr, Bool, true, not,
  Bool-cases, ◌&&◌, ◌||◌, Option, Option-cases, List, [], ◌∷◌, any, any-more, any-last, any-append,
  find, find-true, find-of-any, Text, codes, text_eq, arith, ok, All, lower,
}
use gst_ai_copilot.Filing.{InvoiceDirection, sales, purchase}
use gst_ai_copilot.Books.{Ledger, Db}
use gst_ai_copilot.Books.Chart.{
  GroupRow, default_groups, default_ledgers, is_group, add_ledger, add_group, add_groups,
  add_ledgers, ensure_chart_of_accounts,
}
use gst_ai_copilot.Books.Charted.{add_ledgers-induction, HasGroup, IsSetUp}
use gst_ai_copilot.Books.Vouchers.{
  same_name, is_ambiguous, of_class, new_party, named_party, is_owned, either,
}
use gst_ai_copilot.Books.Posting.Entries.{IsOurs, found-ours, and-left}

-- The party's ledger is there or made, and what was there stays.
pub record IsHeld (org : ℕ) (clean classification party_type : Text) (party_id : Option ℕ)
    (gstin : Option Text) (db : Db) : Type 0 where
  pub found : Db × Ledger
  pub ran : named_party org clean classification party_type party_id gstin db ≡ ok found
  pub ours : IsOurs org found.0 found.1.id
  pub kept : (p : Ledger → Bool) → any p db.ledgers ≡ true → any p found.0.ledgers ≡ true

abbrev pub HasClass : ℕ → Text → Db → Type 0
HasClass org classification db = any (of_class org classification) db.groups ≡ true

pub named_party-IsHeld :
    (org : ℕ) (clean classification party_type : Text) (party_id : Option ℕ) (gstin : Option Text)
    (db : Db)
    → length (select (same_name org clean) db.ledgers) ≤ 1
    → HasClass org classification db
    → IsHeld org clean classification party_type party_id gstin db
unfolding named_party is_owned
named_party-IsHeld org clean classification party_type party_id gstin db few h =
    let one : is_ambiguous org clean db.ledgers ≡ false = ground arith in
    elim (Option-cases (find (same_name org clean) db.ledgers)) [
      | inr (l, there) ↦ record {
        found = (db, l);
        ran = rw (named_party, one, there) refl;
        ours = found-ours org (same_name org clean) db.ledgers there (
            and-left (text_eq (lower l.name) (lower clean))
              (find-true (same_name org clean) (λ k. k) db.ledgers there));
        kept = λ p k. k;
      }
      | inl missing ↦
          let (g, there) = find-of-any (of_class org classification) db.groups h in
          let l = new_party db.next_id org clean g.id party_type party_id gstin in
          record {
            found = (add_ledger l db, l);
            ran = rw (named_party, one, missing, there) refl;
            ours =
                any-last (λ k. (k.organization_id == org) && (k.id == l.id)) db.ledgers l
                  (ground arith);
            kept = λ p k. any-more p db.ledgers (l ∷ []) k;
          }
    ]

-- The group of a name has the class of the parties, if the name is taken.
abbrev pub is_classed : ℕ → Text → Text → Db → Bool
is_classed org name classification db =
    not (any (is_group org name) db.groups) || any (of_class org classification) db.groups

abbrev IsRow : Text → Text → GroupRow → Type 0
IsRow name classification d =
    (not (text_eq d.name name) || text_eq d.classification classification) ≡ true

add_group-is_classed :
    (org : ℕ) (name classification : Text) (d : GroupRow) (db : Db)
    → IsRow name classification d
    → is_classed org name classification db ≡ true
    → is_classed org name classification (add_group org d db) ≡ true
add_group-is_classed org name classification d db row h =
    rw
      (
        any-append (is_group org name) db.groups _,
        any-append (of_class org classification) db.groups _,
      )
      (ground arith)

add_groups-is_classed :
    (org : ℕ) (name classification : Text) (ds : List GroupRow) (db : Db)
    → All (IsRow name classification) ds
    → is_classed org name classification db ≡ true
    → is_classed org name classification (add_groups org ds db) ≡ true
unfolding add_groups
add_groups-is_classed org name classification [] db rows h = h
add_groups-is_classed org name classification (d ∷ ds) db rows h =
    add_groups-is_classed org name classification ds _ rows.1
      (elim (Bool-cases (any (is_group org d.name) db.groups)) [
        | inl t ↦ rw t h
        | inr t ↦ rw t (add_group-is_classed org name classification d db rows.0 h)
      ])

add_ledgers-is_classed :
    (org : ℕ) (name classification : Text) (existing : List Ledger) (ds : List (Text × Text))
    (db : Db) {db' : Db}
    → is_classed org name classification db ≡ true
    → add_ledgers org existing ds db ≡ ok db'
    → is_classed org name classification db' ≡ true
add_ledgers-is_classed org name classification existing ds db h e =
    add_ledgers-induction (λ k. is_classed org name classification k ≡ true)
      (λ l k same grouped g. g) org existing ds db h e

ensure-HasClass :
    (org : ℕ) (name classification : Text) (before db : Db)
    → All (IsRow name classification) default_groups
    → is_classed org name classification before ≡ true
    → ensure_chart_of_accounts org before ≡ ok db
    → HasGroup org name db
    → HasClass org classification db
unfolding ensure_chart_of_accounts
ensure-HasClass org name classification before db rows h e named =
    let grouped = add_groups-is_classed org name classification default_groups before rows h in
    let still = add_ledgers-is_classed org name classification _ default_ledgers _ grouped e in
    sym (rw named refl) ∙ still

debtors-IsRow : All (IsRow (codes "Sundry Debtors") (codes "receivable")) default_groups
unfolding text_eq
debtors-IsRow = (
  refl,
  (
    refl,
    (
      refl,
      (
        refl,
        (
          refl,
          (
            refl,
            (refl, (refl, (refl, (refl, (refl, (refl, (refl, (refl, (refl, (refl, tt)))))))))),
          ),
        ),
      ),
    ),
  ),
)

creditors-IsRow : All (IsRow (codes "Sundry Creditors") (codes "payable")) default_groups
unfolding text_eq
creditors-IsRow = (
  refl,
  (
    refl,
    (
      refl,
      (
        refl,
        (
          refl,
          (
            refl,
            (refl, (refl, (refl, (refl, (refl, (refl, (refl, (refl, (refl, (refl, tt)))))))))),
          ),
        ),
      ),
    ),
  ),
)

-- The group of the parties of a direction and its class.
abbrev pub party_group : InvoiceDirection → Text
party_group d = either d (codes "Sundry Debtors") (codes "Sundry Creditors")

abbrev pub party_class : InvoiceDirection → Text
party_class d = either d (codes "receivable") (codes "payable")

pub party-HasClass :
    (org : ℕ) (d : InvoiceDirection) (before db : Db)
    → is_classed org (party_group d) (party_class d) before ≡ true
    → IsSetUp org before db
    → HasClass org (party_class d) db
party-HasClass org sales before db h set_up =
    let g = set_up.groups_there in
    ensure-HasClass org (codes "Sundry Debtors") (codes "receivable") before db debtors-IsRow h
      set_up.ran g.1.1.1.1.1.1.1.1.1.0
party-HasClass org purchase before db h set_up =
    let g = set_up.groups_there in
    ensure-HasClass org (codes "Sundry Creditors") (codes "payable") before db creditors-IsRow h
      set_up.ran g.1.1.0
