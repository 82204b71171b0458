-- ===== src/Gstin/Tests.antt =====
-- Runs of the validator (see also backend/tests/unit/test_gstin_validator.py) and the theorems there.
use gst_ai_copilot.Base.{
  ◌≡◌, refl, ◌↔◌, true, false, none, some, [], ◌∷◌, arith, Text, codes, strip, upper,
}
use gst_ai_copilot.Gstin.{
  match_gstin, is_state_code, but_last, last_char, compute_checksum, checksum_total,
  validate_cleaned, validate_gstin, digit_of, char_of, clean, missing, bad_checksum, bad_structure,
  wrong_length,
}
use gst_ai_copilot.Gstin.Structure.{IsWellFormed, validate_gstin_iff}
use gst_ai_copilot.Gstin.Laws.{single_change_caught, swap_of_neighbours_caught}

abbrev sample : Text
sample = codes "  27aapfu0939F1zv "

abbrev mistyped : Text
mistyped = codes "27AAPFU0936F1ZV"

abbrev swapped : Text
swapped = codes "27AAPFU0993F1ZV"

sample_valid : (validate_gstin (some sample)).is_valid ≡ true
unfolding validate_gstin validate_cleaned match_gstin is_state_code but_last last_char
    compute_checksum checksum_total digit_of char_of strip upper
sample_valid = refl

mistyped_errors : (validate_gstin (some mistyped)).errors ≡ bad_checksum ∷ []
unfolding validate_gstin validate_cleaned match_gstin is_state_code but_last last_char
    compute_checksum checksum_total digit_of char_of strip upper
mistyped_errors = refl

short_errors :
    (validate_gstin (some (codes "27AAPFU0939F1Z"))).errors ≡ wrong_length 14 ∷ bad_structure ∷ []
unfolding validate_gstin validate_cleaned match_gstin strip upper
short_errors = refl

missing_errors : (validate_gstin none).errors ≡ missing ∷ []
unfolding validate_gstin
missing_errors = refl

validate_gstin_iff_example :
    ((validate_gstin (some sample)).is_valid ≡ true) ↔ IsWellFormed (clean sample)
validate_gstin_iff_example = validate_gstin_iff b' ' (codes " 27aapfu0939F1zv ")

single_change_caught_example : (validate_gstin (some mistyped)).is_valid ≡ false
unfolding strip upper
single_change_caught_example =
    single_change_caught sample mistyped (codes "27AAPFU093") b'9' b'6' (codes "F1ZV") refl refl
      (omega arith) sample_valid

swap_of_neighbours_caught_example : (validate_gstin (some swapped)).is_valid ≡ false
unfolding strip upper
swap_of_neighbours_caught_example =
    swap_of_neighbours_caught sample swapped (codes "27AAPFU09") b'3' b'9' b'F' (codes "1ZV") refl
      refl (omega arith) (λ h. ground arith) sample_valid
