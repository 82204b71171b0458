-- ===== src/Books/Charted.antt =====
-- What setting up the chart of accounts gives: it cannot fail, every default group and ledger is
-- there afterwards, and a second run changes nothing.
use gst_ai_copilot.Base.{
  ℕ, ◌≡◌, refl, sym, subst, ◌∙◌, inl, inr, Bool, true, false, Bool-cases, List, [], ◌∷◌,
  if◌then◌else◌, Option-cases, some, any, any-more, any-last, find, find-of-any, any-of-find, ◌==◌,
  Text, text_eq, text_eq_refl, text_eq_iff, Result, ok, err, arith, All, All-mono, ok-inj,
  true-false,
}
use gst_ai_copilot.Books.{LedgerGroup, Ledger, Db, key_error}
use gst_ai_copilot.Books.Chart.{
  GroupRow, default_groups, default_ledgers, has_name, is_group, add_ledger, add_group, add_groups,
  system_ledger, add_ledgers, ensure_chart_of_accounts,
}

err-ok : {A E : Type 0} {e : E} {a : A} → ◌≡◌ {A = Result E A} (err e) (ok a) → ⊥
err-ok e = cc

abbrev pub HasGroup : ℕ → Text → Db → Type 0
HasGroup org name db = any (is_group org name) db.groups ≡ true

abbrev pub HasLedger : ℕ → Text → Db → Type 0
HasLedger org name db = any (has_name org name) db.ledgers ≡ true

-- The group of the ledger is there.
abbrev pub IsGrouped : Db → Ledger → Type 0
IsGrouped db l = any (λ g. g.id == l.group_id) db.groups ≡ true

pub in_group :
    (p : LedgerGroup → Bool) (gs : List LedgerGroup) {g : LedgerGroup}
    → find p gs ≡ some g
    → any (λ k. k.id == g.id) gs ≡ true
in_group p gs {g} e = any-of-find p (λ k. k) (λ k. k.id == g.id) gs e (ground arith)

ledger_there :
    (org : ℕ) (existing : List Ledger) (name group_name : Text) (ds : List (Text × Text)) (db : Db)
    → any (has_name org name) existing ≡ true
    → add_ledgers org existing ((name, group_name) ∷ ds) db ≡ add_ledgers org existing ds db
unfolding add_ledgers
ledger_there org existing name group_name ds db t = rw (add_ledgers, t) refl

ledger_new :
    (org : ℕ) (existing : List Ledger) (name group_name : Text) (ds : List (Text × Text)) (db : Db)
    (g : LedgerGroup)
    → any (has_name org name) existing ≡ false
    → find (is_group org group_name) db.groups ≡ some g
    → add_ledgers org existing ((name, group_name) ∷ ds) db
      ≡ add_ledgers org existing ds (add_ledger (system_ledger db.next_id name g.id org) db)
unfolding add_ledgers
ledger_new org existing name group_name ds db g t there = rw (add_ledgers, t, there) refl

-- What a new group leaves true, the loop over the default groups does.
module _ (P : Db → Type 0)
    (group_in : (org : ℕ) (d : GroupRow) (db : Db) → P db → P (add_group org d db)) where
  group_step :
      (org : ℕ) (d : GroupRow) (db : Db) (b : Bool)
      → P db
      → P (if b then db else add_group org d db)
  group_step org d db true h = h
  group_step org d db false h = group_in org d db h

  pub add_groups-induction :
      (org : ℕ) (ds : List GroupRow) (db : Db) → P db → P (add_groups org ds db)
  unfolding add_groups
  add_groups-induction org [] db h = h
  add_groups-induction org (d ∷ ds) db h =
      add_groups-induction org ds _ (group_step org d db (any (is_group org d.name) db.groups) h)

-- What a new ledger leaves true, the loop over the default ledgers does.
module _ (P : Db → Type 0)
    (ledger_in : (l : Ledger) (db : Db)
      → l.id ≡ db.next_id
      → IsGrouped db l
      → P db
      → P (add_ledger l db)) where
  pub add_ledgers-induction :
      (org : ℕ) (existing : List Ledger) (ds : List (Text × Text)) (db : Db) {db' : Db}
      → P db
      → add_ledgers org existing ds db ≡ ok db'
      → P db'
  unfolding add_ledgers
  add_ledgers-induction org existing [] db h e = subst P (ok-inj e) h
  add_ledgers-induction org existing ((name, group_name) ∷ ds) db {db'} h e =
      elim (Bool-cases (any (has_name org name) existing)) [
        | inl t ↦
            let skipped : add_ledgers org existing ds db ≡ ok db' =
              sym (ledger_there org existing name group_name ds db t) ∙ e in
            add_ledgers-induction org existing ds db h skipped
        | inr t ↦ elim (Option-cases (find (is_group org group_name) db.groups)) [
          | inl missing ↦
              absurd
                (err-ok {e = key_error group_name} (sym (rw (add_ledgers, t, missing) refl) ∙ e))
          | inr (g, there) ↦
              let l = system_ledger db.next_id name g.id org in
              let added : add_ledgers org existing ds (add_ledger l db) ≡ ok db' =
                sym (ledger_new org existing name group_name ds db g t there) ∙ e in
              add_ledgers-induction org existing ds (add_ledger l db)
                (ledger_in l db refl (in_group _ db.groups there) h) added
        ]
      ]

-- What both leave true, the whole set-up does.
pub ensure-induction :
    (P : Db → Type 0)
    → ((org : ℕ) (d : GroupRow) (db : Db) → P db → P (add_group org d db))
    → ((l : Ledger) (db : Db) → l.id ≡ db.next_id → IsGrouped db l → P db → P (add_ledger l db))
    → (org : ℕ) (db : Db) {db' : Db} → ensure_chart_of_accounts org db ≡ ok db'
    → P db
    → P db'
unfolding ensure_chart_of_accounts
ensure-induction P group_in ledger_in org db e h =
    add_ledgers-induction P ledger_in org _ default_ledgers _
      (add_groups-induction P group_in org default_groups db h) e

-- The name of a ledger's group is among the groups of the chart.
abbrev HasRow : List GroupRow → Text × Text → Type 0
HasRow ds l = any (λ d. text_eq d.name l.1) ds ≡ true

default_ledgers-HasRow : All (HasRow default_groups) default_ledgers
unfolding text_eq
default_ledgers-HasRow = (
  refl,
  (
    refl,
    (
      refl,
      (refl, (refl, (refl, (refl, (refl, (refl, (refl, (refl, (refl, (refl, (refl, tt))))))))))),
    ),
  ),
)

group_kept :
    (org : ℕ) (name : Text) (o : ℕ) (d : GroupRow) (db : Db)
    → HasGroup org name db
    → HasGroup org name (add_group o d db)
group_kept org name o d db h = any-more (is_group org name) db.groups _ h

add_groups-HasGroup :
    (org : ℕ) (ds : List GroupRow) (db : Db)
    → All (λ d. HasGroup org d.name (add_groups org ds db)) ds
unfolding add_groups
add_groups-HasGroup org [] db = tt
add_groups-HasGroup org (d ∷ ds) db = (
  add_groups-induction (HasGroup org d.name) (group_kept org d.name) org ds _ (there db),
  add_groups-HasGroup org ds _,
)
  where
    there :
        (db : Db)
        → HasGroup org d.name
            (if any (is_group org d.name) db.groups then db else add_group org d db)
    there db = elim (Bool-cases (any (is_group org d.name) db.groups)) [
      | inl t ↦ rw t t
      | inr t ↦
          rw t (any-last (is_group org d.name) db.groups _ (ground (arith, text_eq_refl d.name)))
    ]

all_there :
    (org : ℕ) (ds : List GroupRow) (db : Db)
    → All (λ d. HasGroup org d.name db) ds
    → add_groups org ds db ≡ db
unfolding add_groups
all_there org [] db h = refl
all_there org (d ∷ ds) db h = rw h.0 (all_there org ds db h.1)

HasRow-HasGroup :
    (org : ℕ) (ds : List GroupRow) (db : Db) (l : Text × Text)
    → All (λ d. HasGroup org d.name db) ds
    → HasRow ds l
    → HasGroup org l.1 db
HasRow-HasGroup org [] db l h r = absurd (true-false (sym r))
HasRow-HasGroup org (d ∷ ds) db l h r = elim (Bool-cases (text_eq d.name l.1)) [
  | inl t ↦ subst (λ k. HasGroup org k db) ((text_eq_iff d.name l.1).0 t) h.0
  | inr t ↦ HasRow-HasGroup org ds db l h.1 (sym (rw t refl) ∙ r)
]

-- The ledgers of a chart are made, each with its group.
record Filled (org : ℕ) (existing : List Ledger) (ds : List (Text × Text)) (db : Db) : Type 0 where
  filled : Db
  ran : add_ledgers org existing ds db ≡ ok filled
  named : All (λ d. HasLedger org d.0 filled) ds

ledger_kept :
    (org : ℕ) (name : Text) (l : Ledger) (db : Db)
    → l.id ≡ db.next_id
    → IsGrouped db l
    → HasLedger org name db
    → HasLedger org name (add_ledger l db)
ledger_kept org name l db same grouped h = any-more (has_name org name) db.ledgers _ h

add_ledgers-HasLedger :
    (org o : ℕ) (name : Text) (existing : List Ledger) (ds : List (Text × Text)) (db : Db)
    {db' : Db}
    → HasLedger o name db
    → add_ledgers org existing ds db ≡ ok db'
    → HasLedger o name db'
add_ledgers-HasLedger org o name existing ds db h e =
    add_ledgers-induction (HasLedger o name) (ledger_kept o name) org existing ds db h e

add_ledgers-Filled :
    (org : ℕ) (existing : List Ledger) (ds : List (Text × Text)) (db : Db)
    → ((name : Text) → any (has_name org name) existing ≡ true → HasLedger org name db)
    → All (λ l. HasGroup org l.1 db) ds
    → Filled org existing ds db
unfolding add_ledgers
add_ledgers-Filled org existing [] db seen h = record { filled = db; ran = refl; named = tt }
add_ledgers-Filled org existing ((name, group_name) ∷ ds) db seen h =
    elim (Bool-cases (any (has_name org name) existing)) [
      | inl t ↦
          let rest = add_ledgers-Filled org existing ds db seen h.1 in
          record {
            filled = rest.filled;
            ran = ledger_there org existing name group_name ds db t ∙ rest.ran;
            named = (
              add_ledgers-HasLedger org org name existing ds db (seen name t) rest.ran,
              rest.named,
            );
          }
      | inr t ↦
          let (g, there) = find-of-any (is_group org group_name) db.groups h.0 in
          let l = system_ledger db.next_id name g.id org in
          let rest =
            add_ledgers-Filled org existing ds (add_ledger l db)
              (λ n s. ledger_kept org n l db refl (in_group _ db.groups there) (seen n s)) h.1 in
          record {
            filled = rest.filled;
            ran = ledger_new org existing name group_name ds db g t there ∙ rest.ran;
            named = (
              add_ledgers-HasLedger org org name existing ds (add_ledger l db)
                  (any-last (has_name org name) db.ledgers l (ground (arith, text_eq_refl name)))
                  rest.ran,
              rest.named,
            );
          }
    ]

all_named :
    (org : ℕ) (existing : List Ledger) (ds : List (Text × Text)) (db : Db)
    → All (λ d. any (has_name org d.0) existing ≡ true) ds
    → add_ledgers org existing ds db ≡ ok db
unfolding add_ledgers
all_named org existing [] db h = refl
all_named org existing (d ∷ ds) db h =
    ledger_there org existing d.0 d.1 ds db h.0 ∙ all_named org existing ds db h.1

-- A chart that was set up: the run returned it, the default groups and ledgers are in it, and the
-- next run returns it as it is.
pub record IsSetUp (org : ℕ) (before db : Db) : Type 0 where
  pub ran : ensure_chart_of_accounts org before ≡ ok db
  pub groups_there : All (λ d. HasGroup org d.name db) default_groups
  pub ledgers_there : All (λ d. HasLedger org d.0 db) default_ledgers
  pub again : ensure_chart_of_accounts org db ≡ ok db

-- Whatever the organization has, setting up its chart of accounts succeeds: afterwards there is a
-- group for each default group and a ledger for each default ledger, and setting up once more
-- changes nothing.
pub ensure_chart_of_accounts-IsSetUp : (org : ℕ) (before : Db) → (db : Db) × IsSetUp org before db
unfolding ensure_chart_of_accounts
ensure_chart_of_accounts-IsSetUp org before =
    let grouped = add_groups org default_groups before in
    let there = add_groups-HasGroup org default_groups before in
    let rows =
      All-mono (HasRow default_groups) (λ l. HasGroup org l.1 grouped)
        (λ l r. HasRow-HasGroup org default_groups grouped l there r) default_ledgers
        default_ledgers-HasRow in
    let full = add_ledgers-Filled org grouped.ledgers default_ledgers grouped (λ n s. s) rows in
    let kept : All (λ d. HasGroup org d.name full.filled) default_groups =
      All-mono (λ d. HasGroup org d.name grouped) (λ d. HasGroup org d.name full.filled)
        (λ d h.
          add_ledgers-induction (HasGroup org d.name) (λ l db same grouped k. k) org grouped.ledgers
            default_ledgers grouped h full.ran)
        default_groups there in
    (
      full.filled,
      record {
        ran = full.ran;
        groups_there = kept;
        ledgers_there = full.named;
        again =
            rw (all_there org default_groups full.filled kept)
              (all_named org full.filled.ledgers default_ledgers full.filled full.named);
      },
    )
