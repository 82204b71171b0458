-- ===== src/Gstin.antt =====
-- backend/app/rules/gstin_validator.py: the structure of a GSTIN and its check digit.
-- A character is its code point; the validator works on the stripped text in upper case.
pub mod Checksum
pub mod Laws
pub mod Structure
mod Tests
use gst_ai_copilot.Base.{
  ℕ, ◌+◌, ◌-◌, ◌*◌, ◌/◌, ◌%◌, Bool, true, false, ◌&&◌, not, Option, none, some, List, [], ◌∷◌, ◌++◌,
  Text, strip, upper, is_digit, is_upper, leb, ltb, ◌==◌, is_empty, length, if◌then◌else◌,
}

-- `_CHECKSUM_ALPHABET.index(char)`: digits, then capital letters; `none` is a `ValueError`.
unfoldable pub digit_of : ℕ → Option ℕ
digit_of c =
    if is_digit c then some (c - b'0') else if is_upper c then some (c - b'A' + 10) else none

-- `_CHECKSUM_ALPHABET[n]`
unfoldable pub char_of : ℕ → ℕ
char_of n = if ltb n 10 then b'0' + n else b'A' + (n - 10)

abbrev pub addend : ℕ → ℕ → ℕ
addend factor digit = factor * digit / 36 + factor * digit % 36

abbrev pub next_factor : ℕ → ℕ
next_factor factor = if factor == 1 then 2 else 1

-- The loop of `_compute_checksum`.
unfoldable pub checksum_total : ℕ → ℕ → Text → Option ℕ
checksum_total factor total [] = some total
checksum_total factor total (c ∷ s) = elim (digit_of c) [
  | none ↦ none
  | some d ↦ checksum_total (next_factor factor) (total + addend factor d) s
]

abbrev pub check_char : ℕ → ℕ
check_char total = char_of ((36 - total % 36) % 36)

-- `_compute_checksum`
unfoldable pub compute_checksum : Text → Option ℕ
compute_checksum s = elim (checksum_total 1 0 s) [ none ↦ none | some n ↦ some (check_char n) ]

pub record Match : Type 0 where
  pub state_code : Text
  pub pan : Text
  pub entity_code : ℕ
  pub checksum : ℕ

abbrev pub is_alnum : ℕ → Bool
is_alnum c = elim (is_digit c) [ true ↦ true | false ↦ is_upper c ]

abbrev pub matches_classes : ℕ → ℕ → ℕ → ℕ → ℕ → ℕ → ℕ → ℕ → ℕ → ℕ → ℕ → ℕ → ℕ → ℕ → ℕ → Bool
matches_classes s1 s2 a b c d e n1 n2 n3 n4 f k z x =
    (leb b'0' s1 && leb s1 b'3')
    && is_digit s2
    && is_upper a
    && is_upper b
    && is_upper c
    && is_upper d
    && is_upper e
    && is_digit n1
    && is_digit n2
    && is_digit n3
    && is_digit n4
    && is_upper f
    && is_alnum k
    && (z == b'Z')
    && is_alnum x

-- `_GSTIN_PATTERN.match(cleaned)`. The text is stripped, so `$` stands at its very end.
unfoldable pub match_gstin : Text → Option Match
match_gstin (s1 ∷ s2 ∷ a ∷ b ∷ c ∷ d ∷ e ∷ n1 ∷ n2 ∷ n3 ∷ n4 ∷ f ∷ k ∷ z ∷ x ∷ []) =
    if matches_classes s1 s2 a b c d e n1 n2 n3 n4 f k z x
    then some (record {
      state_code = s1 ∷ s2 ∷ [];
      pan = a ∷ b ∷ c ∷ d ∷ e ∷ n1 ∷ n2 ∷ n3 ∷ n4 ∷ f ∷ [];
      entity_code = k;
      checksum = x;
    })
    else none
match_gstin _ = none

-- `state_code in _VALID_STATE_CODES`: "01" to "38".
unfoldable pub is_state_code : Text → Bool
is_state_code (a ∷ b ∷ []) =
    is_digit a
    && is_digit b
    && leb 1 ((a - b'0') * 10 + (b - b'0'))
    && leb ((a - b'0') * 10 + (b - b'0')) 38
is_state_code _ = false

-- `cleaned[:-1]`
unfoldable pub but_last : Text → Text
but_last [] = []
but_last (c ∷ []) = []
but_last (c ∷ d ∷ s) = c ∷ but_last (d ∷ s)

-- `cleaned[-1]`
unfoldable pub last_char : Text → Option ℕ
last_char [] = none
last_char (c ∷ []) = some c
last_char (c ∷ d ∷ s) = last_char (d ∷ s)

pub data GstinError : Type 0 where
  missing bad_structure bad_checksum : GstinError
  wrong_length : ℕ → GstinError
  unknown_state : Text → GstinError

pub record GstinValidationResult : Type 0 where
  pub is_valid : Bool
  pub gstin : Text
  pub state_code : Option Text
  pub pan : Option Text
  pub errors : List GstinError

abbrev same_char : Option ℕ → Option ℕ → Bool
same_char (some a) (some b) = a == b
same_char _ _ = false

abbrev pub when : {A : Type 0} → Bool → A → List A
when true x = x ∷ []
when false x = []

abbrev pub clean : Text → Text
clean s = upper (strip s)

-- `validate_gstin` on the cleaned text.
unfoldable pub validate_cleaned : Text → GstinValidationResult
validate_cleaned cleaned =
    let errors = when (not (length cleaned == 15)) (wrong_length (length cleaned)) in
    elim (match_gstin cleaned) [
      | none ↦ record {
        is_valid = false;
        gstin = cleaned;
        state_code = none;
        pan = none;
        errors = errors ++ (bad_structure ∷ []);
      }
      | some m ↦
          let all =
            errors
            ++ (when (not (is_state_code m.state_code)) (unknown_state m.state_code)
                ++ when (not (same_char (compute_checksum (but_last cleaned)) (last_char cleaned)))
                    bad_checksum) in
          record {
            is_valid = is_empty all;
            gstin = cleaned;
            state_code = some m.state_code;
            pan = some m.pan;
            errors = all;
          }
    ]

unfoldable pub validate_gstin : Option Text → GstinValidationResult
validate_gstin none = record {
  is_valid = false;
  gstin = [];
  state_code = none;
  pan = none;
  errors = missing ∷ [];
}
validate_gstin (some []) = record {
  is_valid = false;
  gstin = [];
  state_code = none;
  pan = none;
  errors = missing ∷ [];
}
validate_gstin (some (c ∷ s)) = validate_cleaned (clean (c ∷ s))
