-- ===== src/Books/Sound/Ledgers.antt =====
-- Sound books, and the new ledgers and groups of backend/app/services/accounting_service.py.
use gst_ai_copilot.Base.{
  ℕ, suc, ◌+◌, ◌==◌, ◌≤◌, ◌<◌, ◌≡◌, ◌⊎◌, refl, ◌∙◌, inl, inr, false, Bool-cases, ◌&&◌, List, [],
  ◌∷◌, ◌++◌, select, select-append, any-more, length-append, arith, All, All-append, All-mono,
}
use gst_ai_copilot.Books.{Ledger, Db}
use gst_ai_copilot.Books.Chart.{GroupRow, add_ledger, add_group}
use gst_ai_copilot.Books.Charted.{IsGrouped}
use gst_ai_copilot.Books.Reports.Ties.{owners, IsOwned}

-- Every ledger has its group, ids are below the next one, an id is that of one ledger at most, and
-- every entry is on one ledger of its voucher's organization.
pub record IsSound (db : Db) : Type 0 where
  pub grouped : All (IsGrouped db) db.ledgers
  pub fresh : All (λ l. l.id < db.next_id) db.ledgers
  pub unique : (org i : ℕ) → owners org i db.ledgers ≤ 1
  pub owned : All (IsOwned db.ledgers) db.vouchers

owners-append :
    (org i : ℕ) (ls : List Ledger) (l : Ledger)
    → owners org i (ls ++ (l ∷ [])) ≡ owners org i ls + owners org i (l ∷ [])
owners-append org i ls l =
    rw (select-append (λ k. (k.organization_id == org) && (k.id == i)) ls (l ∷ []))
      (length-append (select (λ k. (k.organization_id == org) && (k.id == i)) ls) _)

-- An id that no ledger has.
fresh-owners :
    (org i n : ℕ) (ls : List Ledger) → All (λ l. l.id < n) ls → n ≤ i → owners org i ls ≡ 0
fresh-owners org i n [] h le = refl
fresh-owners org i n (l ∷ ls) h le =
    let other : ((l.organization_id == org) && (l.id == i)) ≡ false = ground (arith, h.0) in
    rw other (fresh-owners org i n ls h.1 le)

one_more :
    (org i : ℕ) (l : Ledger)
    → (owners org i (l ∷ []) ≡ 0) ⊎ ((owners org i (l ∷ []) ≡ 1) × (l.id ≡ i))
one_more org i l = elim (Bool-cases ((l.organization_id == org) && (l.id == i))) [
  | inl t ↦ inr (rw t refl, ground arith)
  | inr t ↦ inl (rw t refl)
]

-- A new ledger is of an id that none had.
grown :
    (org i : ℕ) (l : Ledger) (db : Db)
    → l.id ≡ db.next_id
    → IsSound db
    → (owners org i (db.ledgers ++ (l ∷ [])) ≡ owners org i db.ledgers)
      ⊎ ((owners org i db.ledgers ≡ 0) × (owners org i (db.ledgers ++ (l ∷ [])) ≡ 1))
grown org i l db same s =
    let whole = owners-append org i db.ledgers l in
    elim (one_more org i l) [
      | inl none_new ↦ inl (omega arith)
      | inr (one_new, here) ↦
          let before = fresh-owners org i db.next_id db.ledgers s.fresh (omega arith) in
          inr (before, omega arith)
    ]

still_owned :
    (org i : ℕ) (l : Ledger) (db : Db)
    → l.id ≡ db.next_id
    → IsSound db
    → owners org i db.ledgers ≡ 1
    → owners org i (db.ledgers ++ (l ∷ [])) ≡ 1
still_owned org i l db same s h = elim (grown org i l db same s) [
  | inl kept ↦ kept ∙ h
  | inr (nothing, one) ↦ one
]

still_unique :
    (org i : ℕ) (l : Ledger) (db : Db)
    → l.id ≡ db.next_id
    → IsSound db
    → owners org i (db.ledgers ++ (l ∷ [])) ≤ 1
still_unique org i l db same s =
    let now = s.unique org i in
    elim (grown org i l db same s) [ inl kept ↦ omega arith | inr (nothing, one) ↦ omega arith ]

pub add_ledger-IsSound :
    (l : Ledger) (db : Db)
    → l.id ≡ db.next_id
    → IsGrouped db l
    → IsSound db
    → IsSound (add_ledger l db)
add_ledger-IsSound l db same in_place s = record {
  grouped = All-append (IsGrouped db) db.ledgers (l ∷ []) s.grouped (in_place, tt);
  fresh =
      All-append (λ k. k.id < suc db.next_id) db.ledgers (l ∷ [])
        (All-mono (λ k. k.id < db.next_id) (λ k. k.id < suc db.next_id) (λ k h. omega arith)
          db.ledgers s.fresh)
        (omega arith, tt);
  unique = λ org i. still_unique org i l db same s;
  owned =
      All-mono (IsOwned db.ledgers) (IsOwned (db.ledgers ++ (l ∷ [])))
        (λ v h.
          All-mono (λ e. owners v.organization_id e.ledger_id db.ledgers ≡ 1)
            (λ e. owners v.organization_id e.ledger_id (db.ledgers ++ (l ∷ [])) ≡ 1)
            (λ e k. still_owned v.organization_id e.ledger_id l db same s k) v.entries h)
        db.vouchers s.owned;
}

pub add_group-IsSound :
    (org : ℕ) (d : GroupRow) (db : Db) → IsSound db → IsSound (add_group org d db)
add_group-IsSound org d db s = record {
  grouped =
      All-mono (IsGrouped db) (IsGrouped (add_group org d db))
        (λ l h. any-more (λ g. g.id == l.group_id) db.groups _ h) db.ledgers s.grouped;
  fresh =
      All-mono (λ l. l.id < db.next_id) (λ l. l.id < suc db.next_id) (λ l h. omega arith) db.ledgers
        s.fresh;
  unique = s.unique;
  owned = s.owned;
}
