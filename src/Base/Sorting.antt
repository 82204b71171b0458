-- ===== src/Base/Sorting.antt =====
-- `sorted(xs, key=...)`: a stable sort, as insertion from the right. `before x y` says that the key
-- of `x` is smaller than that of `y`. Texts are ordered by their code points.
use mathlib.Core.Path.{◌≡◌, refl, sym}
use mathlib.Core.Bool.{Bool, true, false, ◌&&◌, ◌||◌}
use mathlib.Core.List.{List, [], ◌∷◌, map, Perm}
use mathlib.Core.List.Perm
use gst_ai_copilot.Base.Tests.{ltb, ◌==◌, if◌then◌else◌, Bool-cases}
use gst_ai_copilot.Base.Int.{ℤ, ◌+ℤ◌, sum, sum-cons, int_laws}
use gst_ai_copilot.Base.Strings.{Text}
use gst_ai_copilot.Base.Lists.{All, In}
use mathlib.Core.Logic.{inl, inr}
use native.Mathlib.Omega.{arith}

unfoldable pub text_ltb : Text → Text → Bool
text_ltb [] [] = false
text_ltb [] (b ∷ t) = true
text_ltb (a ∷ s) [] = false
text_ltb (a ∷ s) (b ∷ t) = ltb a b || ((a == b) && text_ltb s t)

-- What comes before another text comes before all that are not before it.
pub text_ltb_trans :
    (s t u : Text) → text_ltb s t ≡ true → text_ltb u t ≡ false → text_ltb u s ≡ false
unfolding text_ltb
text_ltb_trans [] [] u h k = cc
text_ltb_trans [] (b ∷ t) [] h k = refl
text_ltb_trans [] (b ∷ t) (c ∷ u) h k = refl
text_ltb_trans (a ∷ s) [] u h k = cc
text_ltb_trans (a ∷ s) (b ∷ t) [] h k = cc
text_ltb_trans (a ∷ s) (b ∷ t) (c ∷ u) h k = ground (arith, text_ltb_trans s t u)

module _ {ℓ} {A : Type ℓ} (before : A → A → Bool) where
  unfoldable pub insert_sorted : A → List A → List A
  insert_sorted x [] = x ∷ []
  insert_sorted x (y ∷ ys) = if before y x then y ∷ insert_sorted x ys else x ∷ y ∷ ys

  unfoldable pub sorted_by : List A → List A
  unfolding insert_sorted
  sorted_by [] = []
  sorted_by (x ∷ xs) = insert_sorted x (sorted_by xs)

  insert_sorted-perm : (x : A) (ys : List A) → Perm (insert_sorted x ys) (x ∷ ys)
  unfolding insert_sorted
  insert_sorted-perm x [] = Perm.refl _
  insert_sorted-perm x (y ∷ ys) = elim (Bool-cases (before y x)) [
    | inl b ↦ rw b (Perm.trans (Perm.cons y (insert_sorted-perm x ys)) (Perm.swap x y ys))
    | inr b ↦ rw b (Perm.refl _)
  ]

  pub sorted_by-perm : (xs : List A) → Perm (sorted_by xs) xs
  unfolding sorted_by
  sorted_by-perm [] = Perm.refl _
  sorted_by-perm (x ∷ xs) =
      Perm.trans (insert_sorted-perm x (sorted_by xs)) (Perm.cons x (sorted_by-perm xs))

  sum-insert_sorted :
      (f : A → ℤ) (x : A) (ys : List A) → sum (map f (insert_sorted x ys)) ≡ f x +ℤ sum (map f ys)
  unfolding insert_sorted
  sum-insert_sorted f x [] = sum-cons (f x) []
  sum-insert_sorted f x (y ∷ ys) = elim (Bool-cases (before y x)) [
    | inl b ↦ rw b (
        rw
          (
            sum-cons (f y) (map f (insert_sorted x ys)),
            sum-insert_sorted f x ys,
            sum-cons (f y) (map f ys),
          )
          (omega int_laws))
    | inr b ↦ rw b (sum-cons (f x) (map f (y ∷ ys)))
  ]

  -- Sorting does not change a sum over the elements.
  pub sum-sorted_by : (f : A → ℤ) (xs : List A) → sum (map f (sorted_by xs)) ≡ sum (map f xs)
  unfolding sorted_by
  sum-sorted_by f [] = refl
  sum-sorted_by f (x ∷ xs) =
      rw (sum-insert_sorted f x (sorted_by xs), sum-sorted_by f xs)
        (sym (sum-cons (f x) (map f xs)))

  insert_sorted-All {κ} :
      (P : A → Type κ) (x : A) (ys : List A) → P x → All P ys → All P (insert_sorted x ys)
  unfolding insert_sorted
  insert_sorted-All P x [] p h = (p, tt)
  insert_sorted-All P x (y ∷ ys) p h = elim (Bool-cases (before y x)) [
    | inl b ↦ rw b (h.0, insert_sorted-All P x ys p h.1)
    | inr b ↦ rw b (p, h)
  ]

  -- Sorting keeps what holds of every element.
  pub sorted_by-All {κ} : (P : A → Type κ) (xs : List A) → All P xs → All P (sorted_by xs)
  unfolding sorted_by
  sorted_by-All P [] h = tt
  sorted_by-All P (x ∷ xs) h = insert_sorted-All P x (sorted_by xs) h.0 (sorted_by-All P xs h.1)

insert_sorted-In :
    {A : Type 0} (before : A → A → Bool) (a x : A) (ys : List A)
    → In a (x ∷ ys)
    → In a (insert_sorted before x ys)
unfolding insert_sorted
insert_sorted-In before a x [] m = m
insert_sorted-In before a x (y ∷ ys) m = elim (Bool-cases (before y x)) [
  | inr t ↦ rw t m
  | inl t ↦ rw t (moved (insert_sorted-In before a x ys) m)
]
  where
    moved :
        (In a (x ∷ ys) → In a (insert_sorted before x ys))
        → In a (x ∷ y ∷ ys)
        → In a (y ∷ insert_sorted before x ys)
    moved rest (inl e) = inr (rest (inl e))
    moved rest (inr (inl e)) = inl e
    moved rest (inr (inr k)) = inr (rest (inr k))

-- Sorting keeps the members.
pub sorted_by-In :
    {A : Type 0} (before : A → A → Bool) (a : A) (xs : List A)
    → In a xs
    → In a (sorted_by before xs)
unfolding sorted_by
sorted_by-In before a [] m = m
sorted_by-In before a (x ∷ xs) (inl e) = insert_sorted-In before a x _ (inl e)
sorted_by-In before a (x ∷ xs) (inr m) =
    insert_sorted-In before a x _ (inr (sorted_by-In before a xs m))
