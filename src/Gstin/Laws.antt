-- ===== src/Gstin/Laws.antt =====
-- What a valid GSTIN is, and which slips the validator catches.
use gst_ai_copilot.Base.{
  ℕ, ◌%◌, ◌≡◌, ◌≢◌, refl, sym, ap, subst, ◌∙◌, ◌⊎◌, inl, inr, ◌↔◌, true, false, some, [], ◌∷◌, ◌++◌,
  arith, Text, Option-cases, Bool-cases, length,
}
use gst_ai_copilot.Gstin.{
  Match, match_gstin, is_state_code, but_last, last_char, compute_checksum, checksum_total,
  check_char, validate_cleaned, validate_gstin, clean,
}
use gst_ai_copilot.Gstin.Checksum.{
  total_sees_change, total_sees_swap, check_char-inj, some_eq, IsBlindPair,
}

-- The text has the structure, a known state and the right check digit.
pub record IsChecked (cleaned : Text) : Type 0 where
  pub parts : Match
  pub structure : match_gstin cleaned ≡ some parts
  pub state : is_state_code parts.state_code ≡ true
  pub total : ℕ
  pub checked : checksum_total 1 0 (but_last cleaned) ≡ some total
  pub digit : last_char cleaned ≡ some (check_char total)

match_gstin-length : (s : Text) {m : Match} → match_gstin s ≡ some m → length s ≡ 15
unfolding match_gstin
match_gstin-length (s1 ∷ s2 ∷ a ∷ b ∷ c ∷ d ∷ e ∷ n1 ∷ n2 ∷ n3 ∷ n4 ∷ f ∷ k ∷ z ∷ x ∷ []) h = refl
match_gstin-length _ h = cc

valid-IsChecked : (s : Text) → (validate_cleaned s).is_valid ≡ true → IsChecked s
unfolding validate_cleaned compute_checksum
valid-IsChecked s h = elim (Option-cases (match_gstin s)) [
  | inl none_there ↦ absurd (ground arith)
  | inr (m, em) ↦ elim (Option-cases (checksum_total 1 0 (but_last s))) [
    | inl no_total ↦ absurd (ground arith)
    | inr (n, en) ↦ elim (Option-cases (last_char s)) [
      | inl no_last ↦ absurd (ground arith)
      | inr (x, ex) ↦ record {
        parts = m;
        structure = em;
        state = ground arith;
        total = n;
        checked = en;
        digit = ground arith;
      }
    ]
  ]
]

IsChecked-valid : (s : Text) → IsChecked s → (validate_cleaned s).is_valid ≡ true
unfolding validate_cleaned compute_checksum
IsChecked-valid s w = ground (arith, match_gstin-length s w.structure)

but_last-append :
    (pre : Text) (x : ℕ) (post : Text) → but_last (pre ++ (x ∷ post)) ≡ pre ++ but_last (x ∷ post)
unfolding but_last
but_last-append [] x post = refl
but_last-append (c ∷ []) x post = refl
but_last-append (c ∷ d ∷ pre) x post = ap (λ r. c ∷ r) (but_last-append (d ∷ pre) x post)

last_char-append :
    (pre : Text) (x : ℕ) (post : Text) → last_char (pre ++ (x ∷ post)) ≡ last_char (x ∷ post)
unfolding last_char
last_char-append [] x post = refl
last_char-append (c ∷ []) x post = refl
last_char-append (c ∷ d ∷ pre) x post = last_char-append (d ∷ pre) x post

-- The checks of the validator, in one record.
pub validate_gstin-IsChecked :
    (c : ℕ) (s : Text)
    → ((validate_gstin (some (c ∷ s))).is_valid ≡ true) ↔ IsChecked (clean (c ∷ s))
unfolding validate_gstin
validate_gstin-IsChecked c s = (valid-IsChecked _, IsChecked-valid _)

same_totals :
    {s t : Text} (w : IsChecked s) (v : IsChecked t)
    → last_char s ≡ last_char t
    → w.total % 36 ≡ v.total % 36
same_totals w v e = check_char-inj w.total v.total (some_eq (sym w.digit ∙ (e ∙ v.digit)))

last_char-snoc : (pre : Text) (a : ℕ) → last_char (pre ++ (a ∷ [])) ≡ some a
unfolding last_char
last_char-snoc pre a = last_char-append pre a []

but_last-snoc : (pre : Text) (a b : ℕ) → but_last (pre ++ (a ∷ [])) ≡ but_last (pre ++ (b ∷ []))
unfolding but_last
but_last-snoc pre a b = but_last-append pre a [] ∙ sym (but_last-append pre b [])

change_caught :
    (pre : Text) (a b : ℕ) (post : Text)
    → IsChecked (pre ++ (a ∷ post))
    → IsChecked (pre ++ (b ∷ post))
    → a ≡ b
unfolding but_last last_char
change_caught pre a b [] w v =
    let totals : w.total ≡ v.total =
      some_eq (sym w.checked ∙ (ap (checksum_total 1 0) (but_last-snoc pre a b) ∙ v.checked)) in
    let ea : a ≡ check_char w.total = some_eq (sym (last_char-snoc pre a) ∙ w.digit) in
    let eb : b ≡ check_char v.total = some_eq (sym (last_char-snoc pre b) ∙ v.digit) in
    ea ∙ (ap check_char totals ∙ sym eb)
change_caught pre a b (c ∷ post) w v =
    let same : last_char (pre ++ (a ∷ c ∷ post)) ≡ last_char (pre ++ (b ∷ c ∷ post)) =
      last_char-append pre a (c ∷ post) ∙ sym (last_char-append pre b (c ∷ post)) in
    total_sees_change pre 1 0 a b (but_last (c ∷ post)) (inl refl)
      (ap (checksum_total 1 0) (sym (but_last-append pre a (c ∷ post))) ∙ w.checked)
      (ap (checksum_total 1 0) (sym (but_last-append pre b (c ∷ post))) ∙ v.checked)
      (same_totals w v same)

swap_caught :
    (pre : Text) (a b c : ℕ) (post : Text)
    → IsChecked (pre ++ (a ∷ b ∷ c ∷ post))
    → IsChecked (pre ++ (b ∷ a ∷ c ∷ post))
    → (a ≡ b) ⊎ IsBlindPair a b
unfolding but_last last_char
swap_caught pre a b c post w v =
    let same : last_char (pre ++ (a ∷ b ∷ c ∷ post)) ≡ last_char (pre ++ (b ∷ a ∷ c ∷ post)) =
      last_char-append pre a (b ∷ c ∷ post) ∙ sym (last_char-append pre b (a ∷ c ∷ post)) in
    total_sees_swap pre 1 0 a b (but_last (c ∷ post)) (inl refl)
      (ap (checksum_total 1 0) (sym (but_last-append pre a (b ∷ c ∷ post))) ∙ w.checked)
      (ap (checksum_total 1 0) (sym (but_last-append pre b (a ∷ c ∷ post))) ∙ v.checked)
      (same_totals w v same)

-- The validity of a text, by its cleaned form.
valid_of :
    (s cleaned : Text)
    → clean s ≡ cleaned
    → (validate_gstin (some s)).is_valid ≡ true
    → IsChecked cleaned
unfolding validate_gstin
valid_of [] cleaned e h = cc
valid_of (c ∷ s) cleaned e h = subst IsChecked e (valid-IsChecked (clean (c ∷ s)) h)

-- No single slip goes through: of two texts whose cleaned forms differ in exactly one character, in
-- any place, one at most is a valid GSTIN.
pub single_change_caught :
    (s t pre : Text) (a b : ℕ) (post : Text)
    → clean s ≡ pre ++ (a ∷ post)
    → clean t ≡ pre ++ (b ∷ post)
    → a ≢ b
    → (validate_gstin (some s)).is_valid ≡ true
    → (validate_gstin (some t)).is_valid ≡ false
single_change_caught s t pre a b post es et ne h =
    elim (Bool-cases (validate_gstin (some t)).is_valid) [
      | inl valid ↦
          absurd (ne (change_caught pre a b post (valid_of s _ es h) (valid_of t _ et valid)))
      | inr invalid ↦ invalid
    ]

-- Two neighbours that differ, before the check digit, cannot be swapped unnoticed, unless they are
-- the characters 0 and Z.
pub swap_of_neighbours_caught :
    (s t pre : Text) (a b c : ℕ) (post : Text)
    → clean s ≡ pre ++ (a ∷ b ∷ c ∷ post)
    → clean t ≡ pre ++ (b ∷ a ∷ c ∷ post)
    → a ≢ b
    → ¬ IsBlindPair a b
    → (validate_gstin (some s)).is_valid ≡ true
    → (validate_gstin (some t)).is_valid ≡ false
swap_of_neighbours_caught s t pre a b c post es et ne seen h =
    elim (Bool-cases (validate_gstin (some t)).is_valid) [
      | inl valid ↦
          absurd (elim (swap_caught pre a b c post (valid_of s _ es h) (valid_of t _ et valid)) [
            | inl same ↦ ne same
            | inr blind ↦ seen blind
          ])
      | inr invalid ↦ invalid
    ]
