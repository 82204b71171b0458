-- ===== src/Base/Rows.antt =====
-- Rows of a table: the row that a query selects, and its change.
use mathlib.Core.Path.{◌≡◌, refl, sym, ap, subst, ◌∙◌}
use mathlib.Core.Logic.{◌⊎◌, inl, inr}
use mathlib.Core.Bool.{Bool, true, false, ◌||◌}
use mathlib.Core.Option.{Option, none, some}
use mathlib.Core.List.{List, [], ◌∷◌}
use gst_ai_copilot.Base.Tests.{if◌then◌else◌, Bool-cases, some-inj, true-false}
use gst_ai_copilot.Base.Lists.{All, All-mono, In, any}

-- `scalar_one_or_none()`: the row that the query selects; ids are unique.
unfoldable pub find {ℓ} : {A : Type ℓ} → (A → Bool) → List A → Option A
find p [] = none
find p (x ∷ xs) = if p x then some x else find p xs

-- A row is changed in place: the change takes the row that the query selected.
unfoldable pub change {ℓ} : {A : Type ℓ} → (A → Bool) → (A → A) → List A → List A
change p f [] = []
change p f (x ∷ xs) = if p x then f x ∷ xs else x ∷ change p f xs

-- A row that is there is selected.
pub find-of-any :
    {A : Type 0} (p : A → Bool) (xs : List A) → any p xs ≡ true → (x : A) × (find p xs ≡ some x)
unfolding find
find-of-any p [] h = absurd (true-false (sym h))
find-of-any p (x ∷ xs) h = elim (Bool-cases (p x)) [
  | inl t ↦ (x, rw t refl)
  | inr t ↦
      let (y, e) = find-of-any p xs (sym (rw t refl) ∙ h) in
      (y, subst (λ k. (if k then some x else find p xs) ≡ some y) (sym t) e)
]

or-right : (a : Bool) {b : Bool} → b ≡ true → (a || b) ≡ true
or-right true h = refl
or-right false h = h

module _ {A : Type 0} (p : A → Bool) (f : A → A) where
  find-here : (y : A) (ys : List A) {x : A} → p y ≡ true → find p (y ∷ ys) ≡ some x → y ≡ x
  unfolding find
  find-here y ys t h = some-inj (sym (rw t refl) ∙ h)

  find-later :
      (y : A) (ys : List A) {x : A} → p y ≡ false → find p (y ∷ ys) ≡ some x → find p ys ≡ some x
  unfolding find
  find-later y ys t h = sym (rw t refl) ∙ h

  no_row : {x : A} → find p [] ≡ some x → ⊥
  unfolding find
  no_row h = cc

  pub any-of-find :
      (q : A → Bool) (xs : List A) {x : A} → find p xs ≡ some x → q x ≡ true → any q xs ≡ true
  any-of-find q [] h t = absurd (no_row h)
  any-of-find q (y ∷ ys) {x} h t = elim (Bool-cases (p y)) [
    | inl here ↦ rw (find-here y ys here h, t) refl
    | inr later ↦ or-right (q y) (any-of-find q ys (find-later y ys later h) t)
  ]

  pub find-In : (xs : List A) {x : A} → find p xs ≡ some x → In x xs
  find-In [] h = absurd (no_row h)
  find-In (y ∷ ys) {x} h = elim (Bool-cases (p y)) [
    | inl t ↦ inl (sym (find-here y ys t h))
    | inr t ↦ inr (find-In ys (find-later y ys t h))
  ]

  pub find-change : (xs : List A) {x : A} → find p xs ≡ some x → In (f x) (change p f xs)
  unfolding change
  find-change [] h = absurd (no_row h)
  find-change (y ∷ ys) {x} h = elim (Bool-cases (p y)) [
    | inl t ↦ rw t (inl (ap f (sym (find-here y ys t h))))
    | inr t ↦ rw t (inr (find-change ys (find-later y ys t h)))
  ]

  pub find-true : (xs : List A) {x : A} → find p xs ≡ some x → p x ≡ true
  unfolding find
  find-true [] h = cc
  find-true (y ∷ ys) {x} h = elim (Bool-cases (p y)) [
    | inl t ↦ subst (λ k. p k ≡ true) (find-here y ys t h) t
    | inr t ↦ find-true ys (find-later y ys t h)
  ]

  -- A member is the row that the query selects, or the change leaves it alone.
  pub In-change :
      (xs : List A) {x a : A} → find p xs ≡ some x → In a xs → (a ≡ x) ⊎ In a (change p f xs)
  unfolding find change
  In-change [] h m = absurd m
  In-change (y ∷ ys) {x} {a} h m = elim (Bool-cases (p y)) [
    | inl t ↦ elim m [ inl e ↦ inl (e ∙ find-here y ys t h) | inr k ↦ inr (rw t (inr k)) ]
    | inr t ↦ elim m [
      | inl e ↦ inr (rw t (inl e))
      | inr k ↦ elim (In-change ys (find-later y ys t h) k) [
        | inl e ↦ inl e
        | inr l ↦ inr (rw t (inr l))
      ]
    ]
  ]

  pub All-change {κ μ} :
      (P : A → Type κ) (Q : A → Type μ)
      → ((x : A) → p x ≡ true → P x → Q (f x))
      → ((x : A) → P x → Q x)
      → (xs : List A) → All P xs
      → All Q (change p f xs)
  unfolding change
  All-change P Q hit miss [] h = tt
  All-change P Q hit miss (x ∷ xs) h = elim (Bool-cases (p x)) [
    | inl t ↦ rw t (hit x t h.0, All-mono P Q miss xs h.1)
    | inr t ↦ rw t (miss x h.0, All-change P Q hit miss xs h.1)
  ]

  -- A change that the query still selects is found again.
  pub find-of-change :
      (xs : List A) {x : A}
      → find p xs ≡ some x
      → p (f x) ≡ true
      → find p (change p f xs) ≡ some (f x)
  unfolding find change
  find-of-change [] e t = absurd (no_row e)
  find-of-change (y ∷ ys) {x} e t = elim (Bool-cases (p y)) [
    | inl here ↦
        let same : y ≡ x = find-here y ys here e in
        rw here (rw (ap (λ k. p (f k)) same ∙ t) (ap (λ k. some (f k)) same))
    | inr later ↦ rw later (rw later (find-of-change ys (find-later y ys later e) t))
  ]
