-- ===== src/Base/Int.antt =====
-- Signed integers over the native numbers. A decimal of the program is the integer number of
-- ten-thousandths that it holds; sums and orders go through the two parts, which `omega` reads.
use Prim.Native.Nat.{ℕ, suc, ◌+◌, ◌-◌, ◌*◌, ◌≤◌}
use mathlib.Core.Path.{◌≡◌, refl}
use mathlib.Core.Bool.{Bool}
use mathlib.Core.List.{List, [], ◌∷◌, ◌++◌, map}
use native.Mathlib.Omega.{arith}
use gst_ai_copilot.Base.Tests.{ltb, leb, ◌==◌, if◌then◌else◌}

-- `negsuc n` is -(n + 1).
pub data ℤ : Type 0 where
  pos : ℕ → ℤ
  negsuc : ℕ → ℤ

abbrev pub Decimal : Type 0
Decimal = ℤ

abbrev pub pos_part : ℤ → ℕ
pos_part (pos n) = n
pos_part (negsuc n) = 0

abbrev pub neg_part : ℤ → ℕ
neg_part (pos n) = 0
neg_part (negsuc n) = suc n

-- a - b, as an integer.
abbrev pub sub_ℕ : ℕ → ℕ → ℤ
sub_ℕ a b = if leb b a then pos (a - b) else negsuc (b - a - 1)

infixl 65 ◌+ℤ◌ ◌-ℤ◌
infixl 70 ◌*ℤ◌
infix 50 ◌≤ℤ◌
unfoldable pub ◌+ℤ◌ : ℤ → ℤ → ℤ
a +ℤ b = sub_ℕ (pos_part a + pos_part b) (neg_part a + neg_part b)

unfoldable pub ◌-ℤ◌ : ℤ → ℤ → ℤ
a -ℤ b = sub_ℕ (pos_part a + neg_part b) (neg_part a + pos_part b)

unfoldable pub ◌*ℤ◌ : ℤ → ℤ → ℤ
a *ℤ b =
    sub_ℕ (pos_part a * pos_part b + neg_part a * neg_part b)
      (pos_part a * neg_part b + neg_part a * pos_part b)

abbrev pub ◌≤ℤ◌ : ℤ → ℤ → Type 0
a ≤ℤ b = pos_part a + neg_part b ≤ pos_part b + neg_part a

abbrev pub ltb_ℤ : ℤ → ℤ → Bool
ltb_ℤ a b = ltb (pos_part a + neg_part b) (pos_part b + neg_part a)

abbrev pub leb_ℤ : ℤ → ℤ → Bool
leb_ℤ a b = leb (pos_part a + neg_part b) (pos_part b + neg_part a)

abbrev pub eqb_ℤ : ℤ → ℤ → Bool
eqb_ℤ a b = (pos_part a + neg_part b) == (pos_part b + neg_part a)

-- With these the operations can stay shut.
pub +ℤ_parts :
    (a b : ℤ)
    → pos_part (a +ℤ b) + neg_part a + neg_part b ≡ neg_part (a +ℤ b) + pos_part a + pos_part b
unfolding ◌+ℤ◌
+ℤ_parts a b = ground arith

pub -ℤ_parts :
    (a b : ℤ)
    → pos_part (a -ℤ b) + neg_part a + pos_part b ≡ neg_part (a -ℤ b) + pos_part a + neg_part b
unfolding ◌-ℤ◌
-ℤ_parts a b = ground arith

pub eq_of_parts : (a b : ℤ) → pos_part a + neg_part b ≡ pos_part b + neg_part a → a ≡ b
eq_of_parts a b h = ground arith

-- `-x`
abbrev pub negate : ℤ → ℤ
negate a = pos 0 -ℤ a

-- `abs(x)` and `x.copy_abs()`: the size of a number.
abbrev pub abs : ℤ → ℤ
abs a = pos (pos_part a + neg_part a)

pub pos-+ℤ-pos : (a b : ℕ) → pos a +ℤ pos b ≡ pos (a + b)
unfolding ◌+ℤ◌
pos-+ℤ-pos a b = ground arith

-- A difference is small when neither side exceeds the other by much.
pub abs-sub-le : (a b : ℤ) (k : ℕ) → a ≤ℤ b +ℤ pos k → b ≤ℤ a +ℤ pos k → abs (a -ℤ b) ≤ℤ pos k
unfolding ◌+ℤ◌ ◌-ℤ◌
abs-sub-le a b k h g = ground arith

-- `max(a, b)`
abbrev pub max_ℤ : ℤ → ℤ → ℤ
max_ℤ a b = if ltb_ℤ a b then b else a

pub ruleset int_laws = (arith, +ℤ_parts, -ℤ_parts, eq_of_parts)

pub +ℤ_comm : (a b : ℤ) → a +ℤ b ≡ b +ℤ a
+ℤ_comm a b = omega int_laws

pub +ℤ_assoc : (a b c : ℤ) → a +ℤ b +ℤ c ≡ a +ℤ (b +ℤ c)
+ℤ_assoc a b c = omega int_laws

-- `sum(xs, Decimal("0.00"))`, which adds from the left.
abbrev pub sum_from : ℤ → List ℤ → ℤ
sum_from acc [] = acc
sum_from acc (x ∷ xs) = sum_from (acc +ℤ x) xs

unfoldable pub sum : List ℤ → ℤ
sum xs = sum_from (pos 0) xs

sum_from-eq : (acc : ℤ) (xs : List ℤ) → sum_from acc xs ≡ acc +ℤ sum xs
unfolding sum
sum_from-eq acc [] = omega int_laws
sum_from-eq acc (x ∷ xs) =
    rw (sum_from-eq (acc +ℤ x) xs, sum_from-eq (pos 0 +ℤ x) xs) (omega int_laws)

pub sum-nil : sum [] ≡ pos 0
unfolding sum
sum-nil = refl

pub sum-cons : (x : ℤ) (xs : List ℤ) → sum (x ∷ xs) ≡ x +ℤ sum xs
unfolding sum
sum-cons x xs = rw (sum_from-eq (pos 0 +ℤ x) xs) (omega int_laws)

pub sum-append : (xs ys : List ℤ) → sum (xs ++ ys) ≡ sum xs +ℤ sum ys
sum-append [] ys = rw sum-nil (omega int_laws)
sum-append (x ∷ xs) ys =
    rw (sum-cons x (xs ++ ys), sum-cons x xs, sum-append xs ys) (omega int_laws)

pub sum-map-add {ℓ} :
    {A : Type ℓ} (f g : A → ℤ) (xs : List A)
    → sum (map (λ x. f x +ℤ g x) xs) ≡ sum (map f xs) +ℤ sum (map g xs)
sum-map-add f g [] = rw sum-nil (omega int_laws)
sum-map-add f g (x ∷ xs) =
    rw
      (
        sum-cons (f x +ℤ g x) (map (λ y. f y +ℤ g y) xs),
        sum-cons (f x) (map f xs),
        sum-cons (g x) (map g xs),
        sum-map-add f g xs,
      )
      (omega int_laws)

pub sum-map-sub {ℓ} :
    {A : Type ℓ} (f g : A → ℤ) (xs : List A)
    → sum (map (λ x. f x -ℤ g x) xs) ≡ sum (map f xs) -ℤ sum (map g xs)
sum-map-sub f g [] = rw sum-nil (omega int_laws)
sum-map-sub f g (x ∷ xs) =
    rw
      (
        sum-cons (f x -ℤ g x) (map (λ y. f y -ℤ g y) xs),
        sum-cons (f x) (map f xs),
        sum-cons (g x) (map g xs),
        sum-map-sub f g xs,
      )
      (omega int_laws)

pub sum-zeros {ℓ} : {A : Type ℓ} (xs : List A) → sum (map (λ x. pos 0) xs) ≡ pos 0
sum-zeros [] = sum-nil
sum-zeros (x ∷ xs) = rw (sum-cons (pos 0) (map (λ y. pos 0) xs), sum-zeros xs) (omega int_laws)

pub sum-map-cong {ℓ} :
    {A : Type ℓ} (f g : A → ℤ) (xs : List A)
    → ((x : A) → f x ≡ g x)
    → sum (map f xs) ≡ sum (map g xs)
sum-map-cong f g [] h = refl
sum-map-cong f g (x ∷ xs) h =
    rw (sum-cons (f x) (map f xs), sum-cons (g x) (map g xs), h x, sum-map-cong f g xs h) refl

pub abs-add-le : (a b : ℤ) (m n : ℕ) → abs a ≤ℤ pos m → abs b ≤ℤ pos n → abs (a +ℤ b) ≤ℤ pos (m + n)
unfolding ◌+ℤ◌
abs-add-le a b m n h g = ground arith
