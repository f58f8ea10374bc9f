-- ===== src/Number/Device.antt =====
-- `parse_device_number` and `parse_kb_to_bytes` of src/parser/parse_utils.cpp.
use native.Mathlib.Numerals.{add-one}
use sysal.Prelude.{
  length, take-append, drop_behind, Bytes, Lacks, ℕ, ◌+◌, ◌≤◌, ◌≡◌, refl, none, some, [], ◌∷◌, ◌++◌,
  arith,
}
use sysal.Text.Find.{find_behind}
use sysal.Number.{max_u32, digit_value, DeviceNumber, parse_device_number, to_string}
use sysal.Number.Parse.{IsDigits}
use sysal.Number.Print.{print_digits_lem, parse_uint-to_string}

pub IsDigits-Lacks :
    (base c : ℕ) (s : Bytes) → digit_value base c ≡ none → IsDigits base s → Lacks c s
IsDigits-Lacks base c [] e h = tt
IsDigits-Lacks base c (x ∷ s) e (hx, h) = ((λ k. ground (arith, e)), IsDigits-Lacks base c s e h)

-- The decimal print of a 64-bit number is made of digits.
to_string-IsDigits : (n : ℕ) → IsDigits 10 (to_string n)
unfolding to_string
to_string-IsDigits n =
    (print_digits_lem 10 (omega arith) (omega arith) (n + 1) n [] (omega arith) tt).0

to_string-Lacks : (c n : ℕ) → digit_value 10 c ≡ none → Lacks c (to_string n)
to_string-Lacks c n e = IsDigits-Lacks 10 c (to_string n) e (to_string-IsDigits n)

colon_IsNoDigit : digit_value 10 b':' ≡ none
unfolding digit_value
colon_IsNoDigit = refl

-- A device number with 32-bit fields is read back from its text `major:minor`.
pub parse_device_number_print :
    (d : DeviceNumber)
    → d.major ≤ max_u32
    → d.minor ≤ max_u32
    → parse_device_number (to_string d.major ++ b':' ∷ to_string d.minor) ≡ some d
unfolding parse_device_number
parse_device_number_print d hm hn = ground (
  arith,
  find_behind b':' (to_string d.major) (to_string d.minor)
      (to_string-Lacks b':' d.major colon_IsNoDigit),
  take-append (to_string d.major) (b':' ∷ to_string d.minor),
  drop_behind (to_string d.major) b':' (to_string d.minor),
  add-one (length (to_string d.major)),
  parse_uint-to_string d.major (omega arith),
  parse_uint-to_string d.minor (omega arith),
)

-- Every device number that is read fits in 32 bits, so the casts of its fields lose nothing.
parse_device_number_bounds :
    (s : Bytes) (d : DeviceNumber)
    → parse_device_number s ≡ some d
    → (d.major ≤ max_u32) × (d.minor ≤ max_u32)
unfolding parse_device_number
parse_device_number_bounds s d h = ground arith
