-- ===== src/Reconciliation/Groups.antt =====
-- Grouping by key loses no item and keeps the keys apart. Items are weighed: with the weight that is
-- 1 at one id and 0 elsewhere, a total weight is a number of occurrences.
use gst_ai_copilot.Base.{
  ℕ, ◌+◌, ◌≡◌, refl, ◌∙◌, inl, inr, ◌↔◌, true, false, none, List, [], ◌∷◌, ◌++◌, arith, text_eq_iff,
  is_empty, All, All-append, Bool-cases,
}
use gst_ai_copilot.Reconciliation.{
  Key, key_eq, Grouped, get_group, append_to, group_step, group_from, group_by_key,
}

pub key_eq_iff : (j k : Key) → (key_eq j k ≡ true) ↔ (j ≡ k)
key_eq_iff (a, b) (c, d) = (
  (λ h. ground (arith, text_eq_iff a c, text_eq_iff b d)),
  (λ h. ground (arith, text_eq_iff a c, text_eq_iff b d)),
)

module _ {A : Type 0} where
  unfoldable pub weigh : (A → ℕ) → List A → ℕ
  weigh w [] = 0
  weigh w (x ∷ xs) = w x + weigh w xs

  pub weigh-append : (w : A → ℕ) (xs ys : List A) → weigh w (xs ++ ys) ≡ weigh w xs + weigh w ys
  unfolding weigh
  weigh-append w [] ys = omega arith
  weigh-append w (x ∷ xs) ys = omega (arith, weigh-append w xs ys)

  unfoldable pub weigh_groups : (A → ℕ) → List (Key × List A) → ℕ
  weigh_groups w [] = 0
  weigh_groups w ((k, xs) ∷ d) = weigh w xs + weigh_groups w d

  weigh_groups-append_to :
      (w : A → ℕ) (k : Key) (x : A) (d : List (Key × List A))
      → weigh_groups w (append_to k x d) ≡ weigh_groups w d + w x
  unfolding weigh_groups append_to weigh
  weigh_groups-append_to w k x [] = omega arith
  weigh_groups-append_to w k x ((j, xs) ∷ d) =
      ground (arith, weigh_groups-append_to w k x d, weigh-append w xs (x ∷ []))

  abbrev weigh_grouped : (A → ℕ) → Grouped A → ℕ
  weigh_grouped w g = weigh_groups w g.by_key + weigh w g.unmatchable

  weigh-group_step :
      (w : A → ℕ) (key_of : A → Key) (x : A) (g : Grouped A)
      → weigh_grouped w (group_step key_of x g) ≡ weigh_grouped w g + w x
  unfolding group_step weigh
  weigh-group_step w key_of x g = elim (Bool-cases (is_empty (key_of x).1)) [
    | inl blank ↦ rw blank (omega (arith, weigh-append w g.unmatchable (x ∷ [])))
    | inr keyed ↦ rw keyed (omega (arith, weigh_groups-append_to w (key_of x) x g.by_key))
  ]

  weigh-group_from :
      (w : A → ℕ) (key_of : A → Key) (g : Grouped A) (xs : List A)
      → weigh_grouped w (group_from key_of g xs) ≡ weigh_grouped w g + weigh w xs
  unfolding group_from weigh
  weigh-group_from w key_of g [] = omega arith
  weigh-group_from w key_of g (x ∷ xs) =
      omega
        (arith, weigh-group_from w key_of (group_step key_of x g) xs, weigh-group_step w key_of x g)

  -- Each item is kept, under a key or as unmatchable.
  pub weigh-group_by_key :
      (w : A → ℕ) (key_of : A → Key) (xs : List A)
      → weigh_grouped w (group_by_key key_of xs) ≡ weigh w xs
  unfolding group_by_key weigh weigh_groups
  weigh-group_by_key w key_of xs =
      omega (arith, weigh-group_from w key_of (record { by_key = []; unmatchable = [] }) xs)

  -- No key stands twice.
  abbrev pub KeysApart : List (Key × List A) → Type 0
  KeysApart [] = Unit
  KeysApart ((k, xs) ∷ d) = (get_group k d ≡ none) × KeysApart d

  get_group-append_to :
      (j k : Key) (x : A) (d : List (Key × List A))
      → key_eq j k ≡ false
      → get_group j (append_to k x d) ≡ get_group j d
  unfolding get_group append_to
  get_group-append_to j k x [] ne = ground arith
  get_group-append_to j k x ((i, xs) ∷ d) ne =
      ground (arith, get_group-append_to j k x d, key_eq_iff k i)

  append_to-KeysApart :
      (k : Key) (x : A) (d : List (Key × List A)) → KeysApart d → KeysApart (append_to k x d)
  unfolding append_to get_group
  append_to-KeysApart k x [] h = (refl, tt)
  append_to-KeysApart k x ((j, xs) ∷ d) h = elim (Bool-cases (key_eq k j)) [
    | inl same ↦ rw same h
    | inr other ↦
        let other' : key_eq j k ≡ false = ground (arith, key_eq_iff k j, key_eq_iff j k) in
        rw other (get_group-append_to j k x d other' ∙ h.0, append_to-KeysApart k x d h.1)
  ]

  group_step-KeysApart :
      (key_of : A → Key) (x : A) (g : Grouped A)
      → KeysApart g.by_key
      → KeysApart (group_step key_of x g).by_key
  unfolding group_step
  group_step-KeysApart key_of x g h = elim (Bool-cases (is_empty (key_of x).1)) [
    | inl blank ↦ rw blank h
    | inr keyed ↦ rw keyed (append_to-KeysApart (key_of x) x g.by_key h)
  ]

  group_from-KeysApart :
      (key_of : A → Key) (g : Grouped A) (xs : List A)
      → KeysApart g.by_key
      → KeysApart (group_from key_of g xs).by_key
  unfolding group_from
  group_from-KeysApart key_of g [] h = h
  group_from-KeysApart key_of g (x ∷ xs) h =
      group_from-KeysApart key_of (group_step key_of x g) xs (group_step-KeysApart key_of x g h)

  pub group_by_key-KeysApart :
      (key_of : A → Key) (xs : List A) → KeysApart (group_by_key key_of xs).by_key
  unfolding group_by_key
  group_by_key-KeysApart key_of xs = group_from-KeysApart key_of _ xs tt

  -- Under each key stand items of the input with that key, whose invoice number is not blank.
  abbrev pub GroupsOf {ℓ} : (A → Type ℓ) → (A → Key) → List (Key × List A) → Type ℓ
  GroupsOf P key_of d =
      All (λ e. All (λ x. (key_of x ≡ e.0) × (is_empty (key_of x).1 ≡ false) × P x) e.1) d

  append_to-GroupsOf {ℓ} :
      (P : A → Type ℓ) (key_of : A → Key) (k : Key) (x : A) (d : List (Key × List A))
      → key_of x ≡ k
      → is_empty (key_of x).1 ≡ false
      → P x
      → GroupsOf P key_of d
      → GroupsOf P key_of (append_to k x d)
  unfolding append_to
  append_to-GroupsOf P key_of k x [] e f p h = (((e, f, p), tt), tt)
  append_to-GroupsOf P key_of k x ((j, xs) ∷ d) e f p h = elim (Bool-cases (key_eq k j)) [
    | inl same ↦ rw same (
      All-append (λ y. (key_of y ≡ j) × (is_empty (key_of y).1 ≡ false) × P y) xs (x ∷ []) h.0
          ((e ∙ (key_eq_iff k j).0 same, f, p), tt),
      h.1,
    )
    | inr other ↦ rw other (h.0, append_to-GroupsOf P key_of k x d e f p h.1)
  ]

  group_step-GroupsOf {ℓ} :
      (P : A → Type ℓ) (key_of : A → Key) (x : A) (g : Grouped A)
      → P x
      → GroupsOf P key_of g.by_key
      → GroupsOf P key_of (group_step key_of x g).by_key
  unfolding group_step
  group_step-GroupsOf P key_of x g p h = elim (Bool-cases (is_empty (key_of x).1)) [
    | inl blank ↦ rw blank h
    | inr keyed ↦ rw keyed (append_to-GroupsOf P key_of (key_of x) x g.by_key refl keyed p h)
  ]

  group_from-GroupsOf {ℓ} :
      (P : A → Type ℓ) (key_of : A → Key) (g : Grouped A) (xs : List A)
      → All P xs
      → GroupsOf P key_of g.by_key
      → GroupsOf P key_of (group_from key_of g xs).by_key
  unfolding group_from
  group_from-GroupsOf P key_of g [] ps h = h
  group_from-GroupsOf P key_of g (x ∷ xs) ps h =
      group_from-GroupsOf P key_of (group_step key_of x g) xs ps.1
        (group_step-GroupsOf P key_of x g ps.0 h)

  pub group_by_key-GroupsOf {ℓ} :
      (P : A → Type ℓ) (key_of : A → Key) (xs : List A)
      → All P xs
      → GroupsOf P key_of (group_by_key key_of xs).by_key
  unfolding group_by_key
  group_by_key-GroupsOf P key_of xs ps = group_from-GroupsOf P key_of _ xs ps tt

  unmatchable_step {ℓ} :
      (P : A → Type ℓ) (key_of : A → Key) (x : A) (g : Grouped A)
      → P x
      → All P g.unmatchable
      → All P (group_step key_of x g).unmatchable
  unfolding group_step
  unmatchable_step P key_of x g p h = elim (Bool-cases (is_empty (key_of x).1)) [
    | inl blank ↦ rw blank (All-append P g.unmatchable (x ∷ []) h (p, tt))
    | inr keyed ↦ rw keyed h
  ]

  unmatchable_from {ℓ} :
      (P : A → Type ℓ) (key_of : A → Key) (g : Grouped A) (xs : List A)
      → All P xs
      → All P g.unmatchable
      → All P (group_from key_of g xs).unmatchable
  unfolding group_from
  unmatchable_from P key_of g [] ps h = h
  unmatchable_from P key_of g (x ∷ xs) ps h =
      unmatchable_from P key_of (group_step key_of x g) xs ps.1
        (unmatchable_step P key_of x g ps.0 h)

  pub unmatchable-All {ℓ} :
      (P : A → Type ℓ) (key_of : A → Key) (xs : List A)
      → All P xs
      → All P (group_by_key key_of xs).unmatchable
  unfolding group_by_key
  unmatchable-All P key_of xs ps = unmatchable_from P key_of _ xs ps tt
