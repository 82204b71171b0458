-- ===== src/Matching/Runs/Stored.antt =====
-- The tables that a run leaves in backend/app/services/reconciliation_service.py are consistent.
use gst_ai_copilot.Base.{
  ℕ, suc, ◌==◌, ◌<◌, ◌≡◌, ◌≢◌, refl, sym, ap, subst, ◌∙◌, inl, inr, Bool, false, Bool-cases, not,
  some, List, [], ◌∷◌, ◌++◌, find, change, Text, pos, sum-nil, arith, ok, >>=-eq-ok, ok-inj,
  some-inj, All, All-append, All-change, All-mono, All-select,
}
use gst_ai_copilot.Reconciliation.{MatchStatus, matched, ReconciliationResult, summarize}
use gst_ai_copilot.Matching.{Source, ReconciliationRun, ReconciliationMatch, Db}
use gst_ai_copilot.Matching.Service.{
  IdText, matches_of, is_run_of, with_summary, blank_run, store_new, store_again,
}
use gst_ai_copilot.Matching.Agreement.{
  AreCounted, Agrees, matches_of-AreResults, Agrees-append, Agrees-without_run, Agrees-new, stored,
  stored_risk, stored-deleted, without_run,
}

-- No two runs have the same id.
abbrev pub AreDistinct : List ReconciliationRun → Type 0
AreDistinct [] = Unit {0}
AreDistinct (r ∷ rs) = All (λ k. k.id ≢ r.id) rs × AreDistinct rs

-- Runs and results have ids below the next one, no two runs share one, and the counts of every run
-- are those of its stored results.
pub record IsConsistent (db : Db) : Type 0 where
  pub distinct : AreDistinct db.runs
  pub runs_below : All (λ r. r.id < db.next_id) db.runs
  pub results_below : All (λ m. m.run_id < db.next_id) db.matches
  pub agree : All (Agrees db.matches) db.runs

snoc-AreDistinct :
    (rs : List ReconciliationRun) (r : ReconciliationRun)
    → AreDistinct rs
    → All (λ k. k.id < r.id) rs
    → AreDistinct (rs ++ (r ∷ []))
snoc-AreDistinct [] r d h = (tt, tt)
snoc-AreDistinct (k ∷ rs) r d h = (
  All-append (λ x. x.id ≢ k.id) rs (r ∷ []) d.0 ((λ e. let low = h.0 in omega arith), tt),
  snoc-AreDistinct rs r d.1 h.1,
)

-- The results under the next id are none.
none-stored :
    (n : ℕ) (st : MatchStatus) (ms : List ReconciliationMatch)
    → All (λ m. m.run_id < n) ms
    → (stored n st ms ≡ 0) × (stored_risk n ms ≡ pos 0)
none-stored n st [] h = (refl, sum-nil)
none-stored n st (m ∷ ms) h =
    let away : (m.run_id == n) ≡ false = ground (arith, h.0) in rw away (none-stored n st ms h.1)

module _ (source : Source) (user : ℕ) (results : List ReconciliationResult) where
  abbrev fresh : ReconciliationRun → ReconciliationRun
  fresh r = with_summary source (summarize results) user r

  fresh-id : (r : ReconciliationRun) → (fresh r).id ≡ r.id
  unfolding with_summary
  fresh-id r = refl

  -- The change of one run in its place, where the results of that run alone are new.
  changed-Agrees :
      (p : ReconciliationRun → Bool) (rs : List ReconciliationRun)
      (ms ms' : List ReconciliationMatch) {old : ReconciliationRun}
      → find p rs ≡ some old
      → AreDistinct rs
      → Agrees ms' (fresh old)
      → ((r : ReconciliationRun) → r.id ≢ old.id → Agrees ms r → Agrees ms' r)
      → All (Agrees ms) rs
      → All (Agrees ms') (change p fresh rs)
  unfolding find change
  changed-Agrees p [] ms ms' h d hit miss a = tt
  changed-Agrees p (r ∷ rs) ms ms' {old} h d hit miss a = elim (Bool-cases (p r)) [
    | inl t ↦
        let same : r ≡ old = some-inj (sym (rw t refl) ∙ h) in
        rw t (subst (λ k. Agrees ms' (fresh k)) (sym same) hit, others rs d.0 same a.1)
    | inr t ↦
        let later : find p rs ≡ some old = sym (rw t refl) ∙ h in
        let apart : r.id ≢ old.id = λ e. found_apart rs r d.0 later (sym e) in
        rw t (miss r apart a.0, changed-Agrees p rs ms ms' later d.1 hit miss a.1)
  ]
    where
      others :
          (ks : List ReconciliationRun)
          → All (λ k. k.id ≢ r.id) ks
          → r ≡ old
          → All (Agrees ms) ks
          → All (Agrees ms') ks
      others [] ne e b = tt
      others (k ∷ ks) ne e b =
          (miss k (λ q. ne.0 (q ∙ ap (λ x. x.id) (sym e))) b.0, others ks ne.1 e b.1)

      none_found : find p [] ≡ some old → ⊥
      none_found f = cc

      found_apart :
          (ks : List ReconciliationRun) (r : ReconciliationRun)
          → All (λ k. k.id ≢ r.id) ks
          → find p ks ≡ some old
          → old.id ≢ r.id
      found_apart [] r ne f = λ e. none_found f
      found_apart (k ∷ ks) r ne f = elim (Bool-cases (p k)) [
        | inl t ↦
            let same : k ≡ old = some-inj (sym (rw t refl) ∙ f) in
            subst (λ x. x.id ≢ r.id) same ne.0
        | inr t ↦ found_apart ks r ne.1 (sym (rw t refl) ∙ f)
      ]

  change-All-id :
      (P : ℕ → Type 0) (p : ReconciliationRun → Bool) (rs : List ReconciliationRun)
      → All (λ r. P r.id) rs
      → All (λ r. P r.id) (change p fresh rs)
  change-All-id P p rs h =
      All-change p fresh (λ r. P r.id) (λ r. P r.id) (λ r t k. subst P (sym (fresh-id r)) k)
        (λ r k. k) rs h

  change-AreDistinct :
      (p : ReconciliationRun → Bool) (rs : List ReconciliationRun)
      → AreDistinct rs
      → AreDistinct (change p fresh rs)
  unfolding change
  change-AreDistinct p [] d = tt
  change-AreDistinct p (r ∷ rs) d = elim (Bool-cases (p r)) [
    | inl t ↦ rw t (subst (λ i. All (λ k. k.id ≢ i) rs) (sym (fresh-id r)) d.0, d.1)
    | inr t ↦ rw t (change-All-id (λ i. i ≢ r.id) p rs d.0, change-AreDistinct p rs d.1)
  ]

found-below :
    (p : ReconciliationRun → Bool) (n : ℕ) (rs : List ReconciliationRun) {old : ReconciliationRun}
    → find p rs ≡ some old
    → All (λ r. r.id < n) rs
    → old.id < n
unfolding find
found-below p n [] h b = absurd (none_found h)
  where
    none_found : {x : ReconciliationRun} → find p [] ≡ some x → ⊥
    none_found f = cc
found-below p n (r ∷ rs) {old} h b = elim (Bool-cases (p r)) [
  | inl t ↦ let same : r ≡ old = some-inj (sym (rw t refl) ∙ h) in subst (λ k. k.id < n) same b.0
  | inr t ↦ found-below p n rs (sym (rw t refl) ∙ h) b.1
]

all_below :
    (n j : ℕ) (ms : List ReconciliationMatch)
    → j < n
    → All (λ m. m.run_id ≡ j) ms
    → All (λ m. m.run_id < n) ms
all_below n j ms low h = All-mono (λ m. m.run_id ≡ j) (λ m. m.run_id < n) (λ m e. omega arith) ms h

one_up :
    (n : ℕ) (ms : List ReconciliationMatch)
    → All (λ m. m.run_id < n) ms
    → All (λ m. m.run_id < suc n) ms
one_up n ms h = All-mono (λ m. m.run_id < n) (λ m. m.run_id < suc n) (λ m k. omega arith) ms h

pub store_new-IsConsistent :
    (ids : IdText) (org user : ℕ) (period : Text) (source : Source)
    (results : List ReconciliationResult) (db : Db) {done : Db × ReconciliationRun}
    → store_new ids org user period source results db ≡ ok done
    → AreCounted results
    → IsConsistent db
    → IsConsistent done.0
unfolding store_new
store_new-IsConsistent ids org user period source results db {done} h counts c =
    let n = db.next_id in
    let row = fresh source user results (blank_run n org period source) in
    let (ms, made, last) = >>=-eq-ok (matches_of ids org n results) _ h in
    let are = matches_of-AreResults ids org n results made in
    let same : row.id ≡ n = fresh-id source user results (blank_run n org period source) in
    let low : row.id < suc n = omega arith in
    subst (λ k. IsConsistent k.0) (ok-inj last)
      (record {
        distinct =
            snoc-AreDistinct db.runs row c.distinct
              (subst (λ i. All (λ k. k.id < i) db.runs) (sym same) c.runs_below);
        runs_below =
            All-append (λ r. r.id < suc n) db.runs (row ∷ [])
              (All-mono (λ r. r.id < n) (λ r. r.id < suc n) (λ r k. omega arith) db.runs
                c.runs_below)
              (low, tt);
        results_below =
            All-append (λ m. m.run_id < suc n) db.matches ms (one_up n db.matches c.results_below)
              (all_below (suc n) n ms (omega arith) are.of_run);
        agree =
            All-append (Agrees (db.matches ++ ms)) db.runs (row ∷ [])
              (old_runs n ms are.of_run db.runs c.runs_below c.agree)
              (
                Agrees-new source user (blank_run n org period source) results db.matches ms
                    (λ st. (none-stored n st db.matches c.results_below).0)
                    (none-stored n matched db.matches c.results_below).1 are counts,
                tt,
              );
      })
  where
    old_runs :
        (n : ℕ) (ms : List ReconciliationMatch)
        → All (λ m. m.run_id ≡ n) ms
        → (rs : List ReconciliationRun) → All (λ r. r.id < n) rs
        → All (Agrees db.matches) rs
        → All (Agrees (db.matches ++ ms)) rs
    old_runs n ms own [] low a = tt
    old_runs n ms own (r ∷ rs) low a = (
      Agrees-append n db.matches ms r (λ e. let l = low.0 in omega arith) own a.0,
      old_runs n ms own rs low.1 a.1,
    )

pub store_again-IsConsistent :
    (ids : IdText) (org user : ℕ) (period : Text) (source : Source)
    (results : List ReconciliationResult) (old : ReconciliationRun) (db : Db)
    {done : Db × ReconciliationRun}
    → store_again ids org user period source results old db ≡ ok done
    → find (is_run_of org period) db.runs ≡ some old
    → AreCounted results
    → IsConsistent db
    → IsConsistent done.0
unfolding store_again
store_again-IsConsistent ids org user period source results old db {done} h there counts c =
    let p = is_run_of org period in
    let kept = without_run old.id db.matches in
    let (ms, made, last) = >>=-eq-ok (matches_of ids org old.id results) _ h in
    let are = matches_of-AreResults ids org old.id results made in
    let low = found-below p db.next_id db.runs there c.runs_below in
    let hit : Agrees (kept ++ ms) (fresh source user results old) =
      Agrees-new source user old results kept ms (λ st. (stored-deleted old.id st db.matches).0)
        (stored-deleted old.id matched db.matches).1 are counts in
    subst (λ k. IsConsistent k.0) (ok-inj last)
      (record {
        distinct = change-AreDistinct source user results p db.runs c.distinct;
        runs_below = change-All-id source user results (λ i. i < db.next_id) p db.runs c.runs_below;
        results_below =
            All-append (λ m. m.run_id < db.next_id) kept ms
              (All-select (λ m. m.run_id < db.next_id) (λ m. not (m.run_id == old.id)) db.matches
                c.results_below)
              (all_below db.next_id old.id ms low are.of_run);
        agree =
            changed-Agrees source user results p db.runs db.matches (kept ++ ms) there c.distinct
              hit
              (λ r ne a.
                Agrees-append old.id kept ms r ne are.of_run
                  (Agrees-without_run old.id db.matches r ne a))
              c.agree;
      })
