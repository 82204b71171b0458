-- ===== src/Gstin/Structure.antt =====
-- What backend/app/rules/gstin_validator.py accepts, said without its pattern and its loop.
use gst_ai_copilot.Base.{
  ℕ, ◌+◌, ◌-◌, ◌*◌, ◌/◌, ◌%◌, ◌≤◌, ◌<◌, ◌==◌, ◌≡◌, refl, sym, ap, subst, ◌∙◌, ◌⊎◌, inl, inr, ◌↔◌,
  Bool, true, Bool-cases, ◌&&◌, leb, Option, none, some, some-inj, [], ◌∷◌, Text, All, arith,
  is_digit, is_upper, if◌then◌else◌,
}
use gst_ai_copilot.Gstin.{
  Match, match_gstin, is_state_code, but_last, last_char, digit_of, char_of, checksum_total,
  check_char, validate_gstin, clean, is_alnum, matches_classes,
}
use gst_ai_copilot.Gstin.Laws.{IsChecked, validate_gstin-IsChecked}

abbrev pub IsDigit : ℕ → Type 0
IsDigit c = (b'0' ≤ c) × (c ≤ b'9')

abbrev pub IsCapital : ℕ → Type 0
IsCapital c = (b'A' ≤ c) × (c ≤ b'Z')

abbrev pub IsAlnum : ℕ → Type 0
IsAlnum c = IsDigit c ⊎ IsCapital c

-- The place of a character among the ten digits and the letters.
abbrev pub value : ℕ → ℕ
value c = if leb c b'9' then c - b'0' else c - b'A' + 10

-- The sum of the values, where every second one is doubled and its two digits to the base 36 are
-- added.
abbrev pub weigh : Text → ℕ
weigh [] = 0
weigh (a ∷ []) = value a
weigh (a ∷ b ∷ s) = value a + (2 * value b / 36 + 2 * value b % 36) + weigh s

pub record IsWellFormed (cleaned : Text) : Type 0 where
  pub state : ℕ
  pub from_first : 1 ≤ state
  pub to_last : state ≤ 38
  -- The PAN: five letters, four digits, a letter.
  pub a : ℕ
  pub b : ℕ
  pub c : ℕ
  pub d : ℕ
  pub e : ℕ
  pub n1 : ℕ
  pub n2 : ℕ
  pub n3 : ℕ
  pub n4 : ℕ
  pub f : ℕ
  pub entity : ℕ
  pub check : ℕ
  pub shape :
      cleaned
      ≡ (b'0' + state / 10)
        ∷ (b'0' + state % 10)
        ∷ a
        ∷ b
        ∷ c
        ∷ d
        ∷ e
        ∷ n1
        ∷ n2
        ∷ n3
        ∷ n4
        ∷ f
        ∷ entity
        ∷ b'Z'
        ∷ check
        ∷ []
  pub letters : All IsCapital (a ∷ b ∷ c ∷ d ∷ e ∷ f ∷ [])
  pub digits : All IsDigit (n1 ∷ n2 ∷ n3 ∷ n4 ∷ [])
  pub rest : All IsAlnum (entity ∷ check ∷ [])
  pub checks :
      (weigh (
            (b'0' + state / 10)
            ∷ (b'0' + state % 10)
            ∷ a
            ∷ b
            ∷ c
            ∷ d
            ∷ e
            ∷ n1
            ∷ n2
            ∷ n3
            ∷ n4
            ∷ f
            ∷ entity
            ∷ b'Z'
            ∷ [])
          + value check)
        % 36
      ≡ 0

digit_of-value : (c : ℕ) → IsAlnum c → (digit_of c ≡ some (value c)) × (value c < 36)
unfolding digit_of
digit_of-value c (inl h) = ground arith
digit_of-value c (inr h) = ground arith

checksum_total-weigh :
    (s : Text) (t : ℕ) → All IsAlnum s → checksum_total 1 t s ≡ some (t + weigh s)
unfolding checksum_total
checksum_total-weigh [] t h = ap some (omega arith)
checksum_total-weigh (a ∷ []) t h =
    let (va, low) = digit_of-value a h.0 in rw (checksum_total, va) (ap some (omega arith))
checksum_total-weigh (a ∷ b ∷ s) t h =
    let (va, low) = digit_of-value a h.0 in
    let (vb, low_b) = digit_of-value b h.1.0 in
    rw (checksum_total, va, vb) (checksum_total-weigh s _ h.1.1 ∙ ap some (omega arith))

char_of-value : (m : ℕ) → m < 36 → value (char_of m) ≡ m
unfolding char_of
char_of-value m h = ground arith

value-char_of : (c : ℕ) → IsAlnum c → char_of (value c) ≡ c
unfolding char_of
value-char_of c (inl h) = ground arith
value-char_of c (inr h) = ground arith

checks_of : (n x : ℕ) → x ≡ check_char n → (n + value x) % 36 ≡ 0
checks_of n x e =
    let same = ap value e ∙ char_of-value ((36 - n % 36) % 36) (omega arith) in
    rw same (omega arith)

check_of : (n x : ℕ) → IsAlnum x → (n + value x) % 36 ≡ 0 → x ≡ check_char n
check_of n x h z =
    let low = (digit_of-value x h).1 in
    let same : value x ≡ (36 - n % 36) % 36 = omega arith in
    sym (value-char_of x h) ∙ ap char_of same

is_digit-IsAlnum : (c : ℕ) → is_digit c ≡ true → IsAlnum c
is_digit-IsAlnum c h = inl (ground arith)

is_upper-IsCapital : (c : ℕ) → is_upper c ≡ true → IsCapital c
is_upper-IsCapital c h = ground arith

-- The thirteen characters before the Z and the state's are alphanumeric.
fourteen :
    (s1 s2 a b c d e n1 n2 n3 n4 f k : ℕ)
    → All IsDigit (s1 ∷ s2 ∷ [])
    → All IsCapital (a ∷ b ∷ c ∷ d ∷ e ∷ f ∷ [])
    → All IsDigit (n1 ∷ n2 ∷ n3 ∷ n4 ∷ [])
    → IsAlnum k
    → All IsAlnum (s1 ∷ s2 ∷ a ∷ b ∷ c ∷ d ∷ e ∷ n1 ∷ n2 ∷ n3 ∷ n4 ∷ f ∷ k ∷ b'Z' ∷ [])
fourteen s1 s2 a b c d e n1 n2 n3 n4 f k (h1, (h2, _)) (ha, (hb, (hc, (hd, (he, (hf, _))))))
      (m1, (m2, (m3, (m4, _)))) hk =
    (
      inl h1,
      (
        inl h2,
        (
          inr ha,
          (
            inr hb,
            (
              inr hc,
              (
                inr hd,
                (
                  inr he,
                  (
                    inl m1,
                    (
                      inl m2,
                      (inl m3, (inl m4, (inr hf, (hk, (inr (omega arith, omega arith), tt))))),
                    ),
                  ),
                ),
              ),
            ),
          ),
        ),
      ),
    )

is_alnum-IsAlnum : (c : ℕ) → is_alnum c ≡ true → IsAlnum c
is_alnum-IsAlnum c h = elim (Bool-cases (is_digit c)) [
  | inl t ↦ is_digit-IsAlnum c t
  | inr t ↦ inr (is_upper-IsCapital c (sym (rw (is_alnum, t) refl) ∙ h))
]

alnum_true : (c : ℕ) → IsAlnum c → is_alnum c ≡ true
alnum_true c (inl h) = ground arith
alnum_true c (inr h) = ground arith

-- What the pattern asks of the characters.
record Classes (s1 s2 a b c d e n1 n2 n3 n4 f k z x : ℕ) : Type 0 where
  state_digits : All IsDigit (s1 ∷ s2 ∷ [])
  letters : All IsCapital (a ∷ b ∷ c ∷ d ∷ e ∷ f ∷ [])
  digits : All IsDigit (n1 ∷ n2 ∷ n3 ∷ n4 ∷ [])
  rest : All IsAlnum (k ∷ x ∷ [])
  z_eq : z ≡ b'Z'

matched-Classes :
    (s1 s2 a b c d e n1 n2 n3 n4 f k z x : ℕ)
    → matches_classes s1 s2 a b c d e n1 n2 n3 n4 f k z x ≡ true
    → Classes s1 s2 a b c d e n1 n2 n3 n4 f k z x
matched-Classes s1 s2 a b c d e n1 n2 n3 n4 f k z x h =
    let hk : is_alnum k ≡ true = ground arith in
    let hx : is_alnum x ≡ true = ground arith in
    record {
      state_digits = ground arith;
      letters = ground arith;
      digits = ground arith;
      rest = (is_alnum-IsAlnum k hk, (is_alnum-IsAlnum x hx, tt));
      z_eq = ground arith;
    }

abbrev code_of : Option Match → Text
code_of none = []
code_of (some m) = m.state_code

-- The pattern fits fifteen characters.
matched_parts :
    (s1 s2 a b c d e n1 n2 n3 n4 f k z x : ℕ) {m : Match}
    → match_gstin (s1 ∷ s2 ∷ a ∷ b ∷ c ∷ d ∷ e ∷ n1 ∷ n2 ∷ n3 ∷ n4 ∷ f ∷ k ∷ z ∷ x ∷ []) ≡ some m
    → (matches_classes s1 s2 a b c d e n1 n2 n3 n4 f k z x ≡ true) × (m.state_code ≡ s1 ∷ s2 ∷ [])
unfolding match_gstin
matched_parts s1 s2 a b c d e n1 n2 n3 n4 f k z x h =
    elim (Bool-cases (matches_classes s1 s2 a b c d e n1 n2 n3 n4 f k z x)) [
      | inl t ↦
          let code : code_of
                (match_gstin (s1 ∷ s2 ∷ a ∷ b ∷ c ∷ d ∷ e ∷ n1 ∷ n2 ∷ n3 ∷ n4 ∷ f ∷ k ∷ z ∷ x ∷ []))
              ≡ s1 ∷ s2 ∷ [] =
            rw (match_gstin, t) refl in
          (t, sym (ap code_of h) ∙ code)
      | inr t ↦ absurd (none_there (sym (rw (match_gstin, t) refl) ∙ h))
    ]
  where
    none_there : {m : Match} → ◌≡◌ {A = Option Match} none (some m) → ⊥
    none_there e = cc

-- Two digits are those of a number.
state_of :
    (s1 s2 : ℕ)
    → All IsDigit (s1 ∷ s2 ∷ [])
    → is_state_code (s1 ∷ s2 ∷ []) ≡ true
    → (n : ℕ) × (1 ≤ n) × (n ≤ 38) × (s1 ≡ b'0' + n / 10) × (s2 ≡ b'0' + n % 10)
unfolding is_state_code
state_of s1 s2 (h1, (h2, _)) h =
    ((s1 - b'0') * 10 + (s2 - b'0'), ground arith, ground arith, omega arith, omega arith)

IsChecked-IsWellFormed : (s : Text) → IsChecked s → IsWellFormed s
unfolding match_gstin but_last last_char
IsChecked-IsWellFormed (s1 ∷ s2 ∷ a ∷ b ∷ c ∷ d ∷ e ∷ n1 ∷ n2 ∷ n3 ∷ n4 ∷ f ∷ k ∷ z ∷ x ∷ []) w =
    let (met, code) = matched_parts s1 s2 a b c d e n1 n2 n3 n4 f k z x w.structure in
    let t = matched-Classes s1 s2 a b c d e n1 n2 n3 n4 f k z x met in
    let (n, low, high, e1, e2) =
      state_of s1 s2 t.state_digits (subst (λ q. is_state_code q ≡ true) code w.state) in
    let alnum =
      fourteen s1 s2 a b c d e n1 n2 n3 n4 f k t.state_digits t.letters t.digits t.rest.0 in
    let text = λ (u v y : ℕ). u ∷ v ∷ a ∷ b ∷ c ∷ d ∷ e ∷ n1 ∷ n2 ∷ n3 ∷ n4 ∷ f ∷ k ∷ y ∷ [] in
    let total : w.total ≡ weigh (text s1 s2 b'Z') =
      some-inj (
        sym w.checked
        ∙ ap (λ y. checksum_total 1 0 (text s1 s2 y)) t.z_eq
        ∙ checksum_total-weigh (text s1 s2 b'Z') 0 alnum)
      ∙ omega arith in
    let last = checks_of w.total x (some-inj w.digit) in
    let all : (weigh (text s1 s2 b'Z') + value x) % 36 ≡ 0 =
      subst (λ q. (q + value x) % 36 ≡ 0) total last in
    record {
      state = n;
      from_first = low;
      to_last = high;
      a = a;
      b = b;
      c = c;
      d = d;
      e = e;
      n1 = n1;
      n2 = n2;
      n3 = n3;
      n4 = n4;
      f = f;
      entity = k;
      check = x;
      shape =
          subst
            (λ q.
              s1 ∷ s2 ∷ a ∷ b ∷ c ∷ d ∷ e ∷ n1 ∷ n2 ∷ n3 ∷ n4 ∷ f ∷ k ∷ z ∷ x ∷ []
              ≡ q ∷ (b'0' + n % 10) ∷ a ∷ b ∷ c ∷ d ∷ e ∷ n1 ∷ n2 ∷ n3 ∷ n4 ∷ f ∷ k ∷ b'Z' ∷ x ∷ [])
            e1
            (subst
              (λ q.
                s1 ∷ s2 ∷ a ∷ b ∷ c ∷ d ∷ e ∷ n1 ∷ n2 ∷ n3 ∷ n4 ∷ f ∷ k ∷ z ∷ x ∷ []
                ≡ s1 ∷ q ∷ a ∷ b ∷ c ∷ d ∷ e ∷ n1 ∷ n2 ∷ n3 ∷ n4 ∷ f ∷ k ∷ b'Z' ∷ x ∷ [])
              e2
              (ap (λ y. s1 ∷ s2 ∷ a ∷ b ∷ c ∷ d ∷ e ∷ n1 ∷ n2 ∷ n3 ∷ n4 ∷ f ∷ k ∷ y ∷ x ∷ [])
                t.z_eq));
      letters = t.letters;
      digits = t.digits;
      rest = t.rest;
      checks =
          subst (λ q. (weigh (text q (b'0' + n % 10) b'Z') + value x) % 36 ≡ 0) e1
            (subst (λ q. (weigh (text s1 q b'Z') + value x) % 36 ≡ 0) e2 all);
    }
IsChecked-IsWellFormed s w = absurd (ground (arith, w.structure))

both : {p q : Bool} → p ≡ true → q ≡ true → (p && q) ≡ true
both h k = ground arith

at_least : {a c : ℕ} → a ≤ c → leb a c ≡ true
at_least h = ground arith

at_most : {a c : ℕ} → c ≤ a → leb c a ≡ true
at_most h = ground arith

digit_true : {c : ℕ} → IsDigit c → is_digit c ≡ true
digit_true h = both (at_least h.0) (at_most h.1)

capital_true : {c : ℕ} → IsCapital c → is_upper c ≡ true
capital_true h = both (at_least h.0) (at_most h.1)

state_code_true :
    (n : ℕ) → 1 ≤ n → n ≤ 38 → is_state_code ((b'0' + n / 10) ∷ (b'0' + n % 10) ∷ []) ≡ true
unfolding is_state_code
state_code_true n low high =
    let back : (b'0' + n / 10 - b'0') * 10 + (b'0' + n % 10 - b'0') ≡ n = omega arith in
    let first : IsDigit (b'0' + n / 10) = (omega arith, omega arith) in
    let second : IsDigit (b'0' + n % 10) = (omega arith, omega arith) in
    both
      (both (both (digit_true first) (digit_true second))
        (at_least (subst (λ k. 1 ≤ k) (sym back) low)))
      (at_most (subst (λ k. k ≤ 38) (sym back) high))

matched_of :
    (s1 s2 a b c d e n1 n2 n3 n4 f k x : ℕ)
    → All IsDigit (s1 ∷ s2 ∷ [])
    → s1 ≤ b'3'
    → All IsCapital (a ∷ b ∷ c ∷ d ∷ e ∷ f ∷ [])
    → All IsDigit (n1 ∷ n2 ∷ n3 ∷ n4 ∷ [])
    → All IsAlnum (k ∷ x ∷ [])
    → matches_classes s1 s2 a b c d e n1 n2 n3 n4 f k b'Z' x ≡ true
matched_of s1 s2 a b c d e n1 n2 n3 n4 f k x (h1, (h2, _)) low (ha, (hb, (hc, (hd, (he, (hf, _))))))
      (m1, (m2, (m3, (m4, _)))) (hk, (hx, _)) =
    let q0 = both (at_least h1.0) (at_most low) in
    let q1 = both q0 (digit_true h2) in
    let q2 = both q1 (capital_true ha) in
    let q3 = both q2 (capital_true hb) in
    let q4 = both q3 (capital_true hc) in
    let q5 = both q4 (capital_true hd) in
    let q6 = both q5 (capital_true he) in
    let q7 = both q6 (digit_true m1) in
    let q8 = both q7 (digit_true m2) in
    let q9 = both q8 (digit_true m3) in
    let q10 = both q9 (digit_true m4) in
    let q11 = both q10 (capital_true hf) in
    let q12 = both q11 (alnum_true k hk) in
    let q13 = both {q = b'Z' == b'Z'} q12 refl in both q13 (alnum_true x hx)

IsWellFormed-IsChecked : (s : Text) → IsWellFormed s → IsChecked s
unfolding match_gstin is_state_code but_last last_char
IsWellFormed-IsChecked s w =
    let s1 = b'0' + w.state / 10 in
    let s2 = b'0' + w.state % 10 in
    let below = w.to_last in
    let above = w.from_first in
    let state : All IsDigit (s1 ∷ s2 ∷ []) =
      ((omega arith, omega arith), ((omega arith, omega arith), tt)) in
    let met =
      matched_of s1 s2 w.a w.b w.c w.d w.e w.n1 w.n2 w.n3 w.n4 w.f w.entity w.check state
        (omega arith) w.letters w.digits w.rest in
    let text =
      s1 ∷ s2 ∷ w.a ∷ w.b ∷ w.c ∷ w.d ∷ w.e ∷ w.n1 ∷ w.n2 ∷ w.n3 ∷ w.n4 ∷ w.f ∷ w.entity ∷ b'Z'
      ∷ [] in
    let alnum =
      fourteen s1 s2 w.a w.b w.c w.d w.e w.n1 w.n2 w.n3 w.n4 w.f w.entity state w.letters w.digits
        w.rest.0 in
    subst IsChecked (sym w.shape) (record {
      parts = record {
        state_code = s1 ∷ s2 ∷ [];
        pan = w.a ∷ w.b ∷ w.c ∷ w.d ∷ w.e ∷ w.n1 ∷ w.n2 ∷ w.n3 ∷ w.n4 ∷ w.f ∷ [];
        entity_code = w.entity;
        checksum = w.check;
      };
      structure = rw (match_gstin, met) refl;
      state = state_code_true w.state w.from_first w.to_last;
      total = weigh text;
      checked = checksum_total-weigh text 0 alnum ∙ ap some (omega arith);
      digit = ap some (check_of (weigh text) w.check w.rest.1.0 w.checks);
    })

-- A text is a valid GSTIN exactly when, stripped and in upper case, it is a number from 1 to 38 in
-- two digits, five capital letters, four digits, a capital letter, a letter or digit, a Z, and a
-- last letter or digit. The values of these, where every second one is doubled and its digits to
-- the base 36 are added, sum to a multiple of 36.
pub validate_gstin_iff :
    (c : ℕ) (s : Text)
    → ((validate_gstin (some (c ∷ s))).is_valid ≡ true) ↔ IsWellFormed (clean (c ∷ s))
validate_gstin_iff c s = (
  λ h. IsChecked-IsWellFormed _ ((validate_gstin-IsChecked c s).0 h),
  λ w. (validate_gstin-IsChecked c s).1 (IsWellFormed-IsChecked _ w),
)
