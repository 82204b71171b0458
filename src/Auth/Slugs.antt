-- ===== src/Auth/Slugs.antt =====
-- backend/app/services/auth_service.py: `slugify`, and the loop of `register` that looks for a slug.
use gst_ai_copilot.Base.{
  ℕ, zero, suc, ◌+◌, ◌==◌, ◌<◌, ◌≤◌, ◌≡◌, ◌≢◌, refl, sym, ap, subst, ◌∙◌, inl, inr, Bool, true,
  false, not, Bool-cases, ◌&&◌, ◌||◌, leb, Option, none, some, some-inj, List, [], ◌∷◌, ◌++◌,
  select, any, length, length-append, is_empty, Text, text_eq, text_eq_iff, lower, is_digit,
  decimal_text, decimal_text-inj, arith, true-false, if◌then◌else◌,
}
use mathlib.Core.List.{reverse}

abbrev is_slug_char : ℕ → Bool
is_slug_char c = (leb b'a' c && leb c b'z') || is_digit c

-- `re.sub("[^a-z0-9]+", "-", s)`; the flag says that the run before was replaced already.
unfoldable pub replace_runs : Bool → Text → Text
replace_runs in_run [] = []
replace_runs in_run (c ∷ s) =
    let inside = replace_runs true s in
    let outside = replace_runs false s in
    if is_slug_char c then c ∷ outside else if in_run then inside else b'-' ∷ inside

abbrev drop_dashes : Text → Text
drop_dashes [] = []
drop_dashes (c ∷ s) = if c == b'-' then drop_dashes s else c ∷ s

-- `slugify`; `fallback` is what `uuid.uuid4().hex[:8]` draws.
unfoldable pub slugify : Text → Text → Text
slugify fallback value =
    let slug = reverse (drop_dashes (reverse (drop_dashes (replace_runs false (lower value))))) in
    if is_empty slug then fallback else slug

-- `f"{base_slug}-{suffix}"`
unfoldable pub suffixed : Text → ℕ → Text
suffixed base n = base ++ (b'-' ∷ decimal_text n)

-- The loop, on fuel: `slugs` are those in use, `suffix` the number that was tried last.
unfoldable pub find_slug : ℕ → List Text → Text → ℕ → Text → Option Text
find_slug zero slugs base suffix slug = none
find_slug (suc fuel) slugs base suffix slug =
    let next = find_slug fuel slugs base (suc suffix) (suffixed base (suc suffix)) in
    if any (λ s. text_eq s slug) slugs then next else some slug

-- The slug that is tried with a suffix; the first has none.
abbrev pub candidate : Text → ℕ → Text
candidate base n = if leb n 1 then base else suffixed base n

append-inj : (a s t : Text) → a ++ s ≡ a ++ t → s ≡ t
append-inj [] s t e = e
append-inj (c ∷ a) s t e = append-inj a s t (ap tail e)
  where
    tail : Text → Text
    tail [] = []
    tail (d ∷ u) = u

longer : (a : Text) (c : ℕ) (s : Text) → a ≡ a ++ (c ∷ s) → ⊥
longer a c s e =
    let same : length a ≡ length a + length (c ∷ s) = ap length e ∙ length-append a (c ∷ s) in
    omega arith

suffixed-inj : (base : Text) (m n : ℕ) → suffixed base m ≡ suffixed base n → m ≡ n
unfolding suffixed
suffixed-inj base m n e = decimal_text-inj m n (ap tail (append-inj base _ _ e))
  where
    tail : Text → Text
    tail [] = []
    tail (d ∷ u) = u

after_first : (base : Text) (n : ℕ) → 2 ≤ n → candidate base n ≡ suffixed base n
after_first base n h = let late : leb n 1 ≡ false = ground arith in rw late refl

first_candidate : (base : Text) (n : ℕ) → leb n 1 ≡ true → candidate base n ≡ base
first_candidate base n h = rw h refl

candidate-inj : (base : Text) (m n : ℕ) → 1 ≤ m → m < n → candidate base m ≡ candidate base n → ⊥
unfolding suffixed
candidate-inj base m n one less e = elim (Bool-cases (leb m 1)) [
  | inl t ↦
      longer base b'-' (decimal_text n)
        (sym (first_candidate base m t) ∙ e ∙ after_first base n (omega arith))
  | inr t ↦
      let late : 2 ≤ m = ground arith in
      let same =
        suffixed-inj base m n
          (sym (after_first base m late) ∙ e ∙ after_first base n (omega arith)) in
      omega arith
]

abbrev is_used : List Text → Text → Bool
is_used slugs slug = any (λ s. text_eq s slug) slugs

abbrev without : Text → List Text → List Text
without slug slugs = select (λ s. not (text_eq s slug)) slugs

is_used-without :
    (c d : Text) (slugs : List Text) → c ≢ d → is_used (without d slugs) c ≡ is_used slugs c
is_used-without c d [] ne = refl
is_used-without c d (s ∷ slugs) ne =
    let rest = is_used-without c d slugs ne in
    elim (Bool-cases (text_eq s d)) [
      | inl gone ↦
          let other : text_eq s c ≡ false =
            not_equal (λ e. ne (sym e ∙ (text_eq_iff s d).0 gone)) in
          rw (gone, other) rest
      | inr kept ↦ rw kept (ap (λ b. text_eq s c || b) rest)
    ]
  where
    not_equal : (s ≡ c → ⊥) → text_eq s c ≡ false
    not_equal differ = elim (Bool-cases (text_eq s c)) [
      | inl t ↦ absurd (differ ((text_eq_iff s c).0 t))
      | inr t ↦ t
    ]

length-without_le : (d : Text) (slugs : List Text) → length (without d slugs) ≤ length slugs
length-without_le d [] = omega arith
length-without_le d (s ∷ slugs) =
    let rest = length-without_le d slugs in
    elim (Bool-cases (text_eq s d)) [
      | inl gone ↦ rw gone (omega arith)
      | inr kept ↦ rw kept (omega arith)
    ]

length-without :
    (d : Text) (slugs : List Text)
    → is_used slugs d ≡ true
    → length (without d slugs) < length slugs
length-without d [] h = absurd (true-false (sym h))
length-without d (s ∷ slugs) h = elim (Bool-cases (text_eq s d)) [
  | inl gone ↦ let rest = length-without_le d slugs in rw gone (omega arith)
  | inr kept ↦
      let later : is_used slugs d ≡ true = sym (rw kept refl) ∙ h in
      let rest = length-without d slugs later in rw kept (omega arith)
]

-- The loop goes by which candidates are in use from its suffix on.
find_slug_same :
    (fuel : ℕ) (slugs slugs' : List Text) (base : Text) (n : ℕ) (slug : Text)
    → 1 ≤ n
    → slug ≡ candidate base n
    → ((k : ℕ) → n ≤ k → is_used slugs (candidate base k) ≡ is_used slugs' (candidate base k))
    → find_slug fuel slugs base n slug ≡ find_slug fuel slugs' base n slug
unfolding find_slug
find_slug_same zero slugs slugs' base n slug one e h = refl
find_slug_same (suc fuel) slugs slugs' base n slug one e h =
    let rest =
      find_slug_same fuel slugs slugs' base (suc n) (suffixed base (suc n)) (omega arith)
        (sym (after_first base (suc n) (omega arith))) (λ k le. h k (omega arith)) in
    let now : is_used slugs slug ≡ is_used slugs' slug =
      subst (λ c. is_used slugs c ≡ is_used slugs' c) (sym e) (h n (omega arith)) in
    rw (now, rest) refl

-- With more fuel than slugs the loop ends.
find_slug_ends :
    (fuel : ℕ) (slugs : List Text) (base : Text) (n : ℕ) (slug : Text)
    → 1 ≤ n
    → slug ≡ candidate base n
    → length slugs < fuel
    → (found : Text) × (find_slug fuel slugs base n slug ≡ some found)
unfolding find_slug
find_slug_ends zero slugs base n slug one e h = absurd (ground arith)
find_slug_ends (suc fuel) slugs base n slug one e h = elim (Bool-cases (is_used slugs slug)) [
  | inr free ↦ (slug, rw free refl)
  | inl used ↦
      let shorter = length-without slug slugs used in
      let (found, ended) =
        find_slug_ends fuel (without slug slugs) base (suc n) (suffixed base (suc n)) (omega arith)
          (sym (after_first base (suc n) (omega arith))) (omega arith) in
      let same =
        find_slug_same fuel slugs (without slug slugs) base (suc n) (suffixed base (suc n))
          (omega arith) (sym (after_first base (suc n) (omega arith)))
          (λ k le. sym (
            is_used-without (candidate base k) slug slugs
              (λ q. candidate-inj base n k one (omega arith) (sym e ∙ sym q)))) in
      (found, rw used (same ∙ ended))
]

-- What the loop returns is not in use, and is a candidate.
find_slug_free :
    (fuel : ℕ) (slugs : List Text) (base : Text) (n : ℕ) (slug : Text) {found : Text}
    → slug ≡ candidate base n
    → 1 ≤ n
    → find_slug fuel slugs base n slug ≡ some found
    → (is_used slugs found ≡ false) × ((k : ℕ) × (found ≡ candidate base k))
unfolding find_slug
find_slug_free zero slugs base n slug e one h = cc
find_slug_free (suc fuel) slugs base n slug {found} e one h =
    elim (Bool-cases (is_used slugs slug)) [
      | inr free ↦
          let same : slug ≡ found = some-inj (sym (rw free refl) ∙ h) in
          (subst (λ c. is_used slugs c ≡ false) same free, (n, sym same ∙ e))
      | inl used ↦
          let later : find_slug fuel slugs base (suc n) (suffixed base (suc n)) ≡ some found =
            sym (rw used refl) ∙ h in
          find_slug_free fuel slugs base (suc n) (suffixed base (suc n))
            (sym (after_first base (suc n) (omega arith))) (omega arith) later
    ]

-- The search for a slug ends after one try more than there are organizations: it finds the name's
-- own slug or that with a number behind it, one that no organization has.
pub find_slug_terminates :
    (slugs : List Text) (base : Text)
    → (found : Text) × (find_slug (suc (length slugs)) slugs base 1 base ≡ some found)
      × (any (λ s. text_eq s found) slugs ≡ false)
      × ((k : ℕ) × (found ≡ candidate base k))
find_slug_terminates slugs base =
    let (found, ended) =
      find_slug_ends (suc (length slugs)) slugs base 1 base (omega arith) refl (omega arith) in
    let (free, which) =
      find_slug_free (suc (length slugs)) slugs base 1 base refl (omega arith) ended in
    (found, ended, free, which)
