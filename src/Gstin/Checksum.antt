-- ===== src/Gstin/Checksum.antt =====
-- The check digit sees every single character: its weights permute the 36 digits.
use gst_ai_copilot.Base.{
  ℕ, ◌+◌, ◌%◌, ◌<◌, ◌≡◌, refl, sym, ap, subst, ◌∙◌, ◌⊎◌, inl, inr, Option, some, [], ◌∷◌, ◌++◌,
  arith, Text, Option-cases,
}
use mathlib.Core.Path.{subst₂}
use native.Mathlib.Decide.{dec_lt}
use gst_ai_copilot.Gstin.{digit_of, char_of, addend, next_factor, checksum_total, check_char}

digit_of_lt : (c : ℕ) {d : ℕ} → digit_of c ≡ some d → d < 36
unfolding digit_of
digit_of_lt c h = ground arith

digit_of-inj : (a b : ℕ) {d : ℕ} → digit_of a ≡ some d → digit_of b ≡ some d → a ≡ b
unfolding digit_of
digit_of-inj a b h k = ground arith

-- A weighted digit determines the digit, for either weight.
addend-inj : (f d e : ℕ) → (f ≡ 1) ⊎ (f ≡ 2) → d < 36 → e < 36 → addend f d ≡ addend f e → d ≡ e
addend-inj f d e (inl one) p q h = omega (arith, subst (λ k. addend k d ≡ addend k e) one h)
addend-inj f d e (inr two) p q h = omega (arith, subst (λ k. addend k d ≡ addend k e) two h)

-- Equal weighted digits modulo 36 are equal, on top of any rest.
addend_mod :
    (f d e : ℕ)
    → (f ≡ 1) ⊎ (f ≡ 2)
    → d < 36
    → e < 36
    → (rest : ℕ) → (rest + addend f d) % 36 ≡ (rest + addend f e) % 36
    → addend f d ≡ addend f e
addend_mod f d e (inl one) p q rest h =
    rw one (omega (arith, subst (λ k. (rest + addend k d) % 36 ≡ (rest + addend k e) % 36) one h))
addend_mod f d e (inr two) p q rest h =
    rw two (omega (arith, subst (λ k. (rest + addend k d) % 36 ≡ (rest + addend k e) % 36) two h))

pub some_eq : {a b : ℕ} → ◌≡◌ {A = Option ℕ} (some a) (some b) → a ≡ b
some_eq e = ground arith

-- One round of the loop that ends well.
total_step :
    (f x c : ℕ) (s : Text) {n : ℕ}
    → checksum_total f x (c ∷ s) ≡ some n
    → (d : ℕ) × (digit_of c ≡ some d) × (checksum_total (next_factor f) (x + addend f d) s ≡ some n)
unfolding checksum_total
total_step f x c s h = elim (Option-cases (digit_of c)) [
  | inl unknown ↦ absurd (ground arith)
  | inr (d, e) ↦ (d, e, ground arith)
]

total_eq_step :
    (f x c d : ℕ) (s : Text)
    → digit_of c ≡ some d
    → checksum_total f x (c ∷ s) ≡ checksum_total (next_factor f) (x + addend f d) s
unfolding checksum_total
total_eq_step f x c d s e = rw (e, checksum_total)

total_nil : (f x : ℕ) → checksum_total f x [] ≡ some x
unfolding checksum_total
total_nil f x = refl

-- What the loop adds does not depend on the running total.
total_shift :
    (s : Text) (f x y : ℕ) {n : ℕ}
    → checksum_total f (x + y) s ≡ some n
    → (r : ℕ) × (checksum_total f y s ≡ some r) × (n ≡ r + x)
total_shift [] f x y {n} h =
    (y, total_nil f y, omega (arith, some_eq (sym (total_nil f (x + y)) ∙ h)))
total_shift (c ∷ s) f x y h =
    let (d, e, h') = total_step f (x + y) c s h in
    let regroup : x + y + addend f d ≡ x + (y + addend f d) = omega arith in
    let (r, k, same) = total_shift s (next_factor f) x (y + addend f d) (rw regroup at h') in
    (r, total_eq_step f y c d s e ∙ k, same)

total_shift_zero :
    (s : Text) (f x : ℕ) {n : ℕ}
    → checksum_total f x s ≡ some n
    → (r : ℕ) × (checksum_total f 0 s ≡ some r) × (n ≡ r + x)
total_shift_zero s f x {n} h =
    let e : x ≡ x + 0 = omega arith in
    total_shift s f x 0 (subst (λ k. checksum_total f k s ≡ some n) e h)

next_factor_cases : (f : ℕ) → (f ≡ 1) ⊎ (f ≡ 2) → (next_factor f ≡ 1) ⊎ (next_factor f ≡ 2)
next_factor_cases f w = ground arith

-- Two texts that differ in one character have different totals, modulo 36.
pub total_sees_change :
    (pre : Text) (f x a b : ℕ) (post : Text) {n m : ℕ}
    → (f ≡ 1) ⊎ (f ≡ 2)
    → checksum_total f x (pre ++ (a ∷ post)) ≡ some n
    → checksum_total f x (pre ++ (b ∷ post)) ≡ some m
    → n % 36 ≡ m % 36
    → a ≡ b
total_sees_change [] f x a b post w h k same =
    let (d, ed, h') = total_step f x a post h in
    let (e, ee, k') = total_step f x b post k in
    let (r, hr, en) = total_shift_zero post (next_factor f) (x + addend f d) h' in
    let (q, hq, em) = total_shift_zero post (next_factor f) (x + addend f e) k' in
    let rq : r ≡ q = some_eq (sym hr ∙ hq) in
    let ld : d < 36 = digit_of_lt a ed in
    let le : e < 36 = digit_of_lt b ee in
    let weights : addend f d ≡ addend f e = addend_mod f d e w ld le (r + x) (omega arith) in
    let de : d ≡ e = addend-inj f d e w ld le weights in digit_of-inj a b ed (ee ∙ ap some (sym de))
total_sees_change (c ∷ pre) f x a b post {m = m} w h k same =
    let (d, ed, h') = total_step f x c (pre ++ (a ∷ post)) h in
    let (e, ee, k') = total_step f x c (pre ++ (b ∷ post)) k in
    let de : d ≡ e = some_eq (sym ed ∙ ee) in
    total_sees_change pre (next_factor f) (x + addend f d) a b post (next_factor_cases f w) h'
      (subst (λ i. checksum_total (next_factor f) (x + addend f i) (pre ++ (b ∷ post)) ≡ some m)
        (sym de) k')
      same

abbrev swapped_total : ℕ → ℕ → ℕ → ℕ → ℕ
swapped_total f rest d e = (rest + addend f d + addend (next_factor f) e) % 36

-- Two digits in a row and the same two the other way round weigh the same only when they are equal
-- or are the first and the last of the alphabet.
swap_digits_at :
    (f d e rest : ℕ)
    → (f ≡ 1) ⊎ (f ≡ 2)
    → d < 36
    → e < 36
    → swapped_total f rest d e ≡ swapped_total f rest e d
    → (d ≡ e) ⊎ (((d ≡ 0) × (e ≡ 35)) ⊎ ((d ≡ 35) × (e ≡ 0)))
swap_digits_at f d e rest (inl one) p q h =
    let h' = subst (λ k. swapped_total k rest d e ≡ swapped_total k rest e d) one h in
    elim (dec_lt d 18) [
      | yes a ↦ elim (dec_lt e 18) [
        | yes b ↦ inl (omega arith)
        | no b ↦ inr (inl (omega arith, omega arith))
      ]
      | no a ↦ elim (dec_lt e 18) [
        | yes b ↦ inr (inr (omega arith, omega arith))
        | no b ↦ inl (omega arith)
      ]
    ]
swap_digits_at f d e rest (inr two) p q h =
    let h' = subst (λ k. swapped_total k rest d e ≡ swapped_total k rest e d) two h in
    elim (dec_lt d 18) [
      | yes a ↦ elim (dec_lt e 18) [
        | yes b ↦ inl (omega arith)
        | no b ↦ inr (inl (omega arith, omega arith))
      ]
      | no a ↦ elim (dec_lt e 18) [
        | yes b ↦ inr (inr (omega arith, omega arith))
        | no b ↦ inl (omega arith)
      ]
    ]

-- The pair that the weights do not tell from its swap.
abbrev pub IsBlindPair : ℕ → ℕ → Type 0
IsBlindPair a b = ((a ≡ b'0') × (b ≡ b'Z')) ⊎ ((a ≡ b'Z') × (b ≡ b'0'))

swap_chars :
    (a b : ℕ) {d e : ℕ}
    → digit_of a ≡ some d
    → digit_of b ≡ some e
    → (d ≡ e) ⊎ (((d ≡ 0) × (e ≡ 35)) ⊎ ((d ≡ 35) × (e ≡ 0)))
    → (a ≡ b) ⊎ IsBlindPair a b
unfolding digit_of
swap_chars a b ed ee (inl same) = inl (digit_of-inj a b ed (ee ∙ ap some (sym same)))
swap_chars a b ed ee (inr (inl ends)) = inr (inl (ground arith))
swap_chars a b ed ee (inr (inr ends)) = inr (inr (ground arith))

-- Swapping two neighbours changes the total modulo 36, but for equal ones and for 0 beside Z.
pub total_sees_swap :
    (pre : Text) (f x a b : ℕ) (post : Text) {n m : ℕ}
    → (f ≡ 1) ⊎ (f ≡ 2)
    → checksum_total f x (pre ++ (a ∷ b ∷ post)) ≡ some n
    → checksum_total f x (pre ++ (b ∷ a ∷ post)) ≡ some m
    → n % 36 ≡ m % 36
    → (a ≡ b) ⊎ IsBlindPair a b
total_sees_swap [] f x a b post w h k same =
    let g = next_factor f in
    let (d, ed, h') = total_step f x a (b ∷ post) h in
    let (e, ee, k') = total_step f x b (a ∷ post) k in
    let (e', ee', h'') = total_step g (x + addend f d) b post h' in
    let (d', ed', k'') = total_step g (x + addend f e) a post k' in
    let (r, hr, en) = total_shift_zero post (next_factor g) _ h'' in
    let (q, hq, em) = total_shift_zero post (next_factor g) _ k'' in
    let rq : r ≡ q = some_eq (sym hr ∙ hq) in
    let see : e' ≡ e = some_eq (sym ee' ∙ ee) in
    let sdd : d' ≡ d = some_eq (sym ed' ∙ ed) in
    let totals : (r + (x + addend f d + addend g e')) % 36
        ≡ (r + (x + addend f e + addend g d')) % 36 =
      rw (← en) (rw rq (rw (← em) same)) in
    let plain =
      subst₂
        (λ u v. (r + (x + addend f d + addend g u)) % 36 ≡ (r + (x + addend f e + addend g v)) % 36)
        see sdd totals in
    swap_chars a b ed ee
      (swap_digits_at f d e (r + x) w (digit_of_lt a ed) (digit_of_lt b ee) (omega arith))
total_sees_swap (c ∷ pre) f x a b post {m = m} w h k same =
    let (d, ed, h') = total_step f x c (pre ++ (a ∷ b ∷ post)) h in
    let (e, ee, k') = total_step f x c (pre ++ (b ∷ a ∷ post)) k in
    let de : d ≡ e = some_eq (sym ed ∙ ee) in
    total_sees_swap pre (next_factor f) (x + addend f d) a b post (next_factor_cases f w) h'
      (subst (λ i. checksum_total (next_factor f) (x + addend f i) (pre ++ (b ∷ a ∷ post)) ≡ some m)
        (sym de) k')
      same

pub check_char-inj : (n m : ℕ) → check_char n ≡ check_char m → n % 36 ≡ m % 36
unfolding char_of
check_char-inj n m h = ground arith
