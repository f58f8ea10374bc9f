-- ===== src/Number.antt =====
-- src/parser/parse_utils.cpp: unsigned decimal and hexadecimal numbers, device numbers and sizes,
-- over a model of `std::from_chars` and of `std::to_string`.
pub mod Parse
pub mod Print
pub mod Device
use sysal.Prelude.{
  ltb, leb, ◌==◌, if◌then◌else◌, take, drop, is_nil, Bytes, ◌>>=◌, ℕ, zero, suc, ◌+◌, ◌-◌, ◌*◌, ◌/◌,
  ◌%◌, ◌^◌, Bool, true, false, ◌&&◌, ◌||◌, Option, none, some, [], ◌∷◌,
}
use sysal.Text.{trim, find}

abbrev pub max_u32 : ℕ
max_u32 = 4294967295

abbrev pub u64_mod : ℕ
u64_mod = 2 ^ 64

-- the value of a digit, in bases up to 16
unfoldable pub digit_value : ℕ → ℕ → Option ℕ
digit_value base c =
    let d =
      if leb b'0' c && leb c b'9'
      then c - b'0'
      else if leb b'a' c && leb c b'f'
      then c - 87
      else if leb b'A' c && leb c b'F'
      then c - 55
      else 16 in
    if ltb d base then some d else none

-- the longest prefix of digits, read behind the value `v`, and what follows it
unfoldable pub scan_digits : ℕ → ℕ → Bytes → ℕ × Bytes
scan_digits base v [] = (v, [])
scan_digits base v (c ∷ s) = elim (digit_value base c) [
  | none ↦ (v, c ∷ s)
  | some d ↦ scan_digits base (v * base + d) s
]

pub data FromChars : Type 0 where
  invalid_argument out_of_range : FromChars
  parsed : ℕ → Bytes → FromChars

-- `std::from_chars` into a `std::uint64_t`: no sign, no white space, no base prefix
unfoldable pub from_chars : ℕ → Bytes → FromChars
from_chars base [] = invalid_argument
from_chars base (c ∷ s) = elim (digit_value base c) [
  | none ↦ invalid_argument
  | some d ↦
      let result = scan_digits base d s in
      if ltb result.0 u64_mod then parsed result.0 result.1 else out_of_range
]

-- the common body of `parse_uint` and `parse_hex`, behind `from_chars`
unfoldable pub whole : FromChars → Option ℕ
whole invalid_argument = none
whole out_of_range = none
whole (parsed value []) = some value
whole (parsed value (c ∷ rest)) = none

unfoldable pub parse_uint : Bytes → Option ℕ
parse_uint s =
    let trimmed = trim s in if is_nil trimmed then none else whole (from_chars 10 trimmed)

-- a number that fits in 32 bits
unfoldable pub parse_u32 : Bytes → Option ℕ
parse_u32 s = do n ← parse_uint s; (if ltb max_u32 n then none else some n)

unfoldable pub parse_hex : Bytes → Option ℕ
parse_hex s = let trimmed = trim s in if is_nil trimmed then none else whole (from_chars 16 trimmed)

pub record DeviceNumber : Type 0 where
  pub major : ℕ
  pub minor : ℕ

-- signed numbers
pub data ℤ : Type 0 where
  pos : ℕ → ℤ
  negsuc : ℕ → ℤ

-- `<` of signed numbers; `negsuc n` is `-(n + 1)`
unfoldable pub signed_lt : ℤ → ℤ → Bool
signed_lt (pos a) (pos b) = ltb a b
signed_lt (pos a) (negsuc b) = false
signed_lt (negsuc a) (pos b) = true
signed_lt (negsuc a) (negsuc b) = ltb b a

unfoldable pub negate : ℕ → ℤ
negate zero = pos 0
negate (suc n) = negsuc n

-- `std::from_chars` into a `std::int64_t`, when it reads the whole text
unfoldable pub whole_signed : Bytes → Option ℤ
whole_signed [] = none
whole_signed (c ∷ s) =
    if c == b'-'
    then (whole (from_chars 10 s) >>= λ n. if leb n (2 ^ 63) then some (negate n) else none)
    else (whole (from_chars 10 (c ∷ s)) >>= λ n. if ltb n (2 ^ 63) then some (pos n) else none)

unfoldable pub parse_device_number : Bytes → Option DeviceNumber
parse_device_number s = do
  colon ← find s b':'
  major ← parse_uint (take colon s)
  minor ← parse_uint (drop (colon + 1) s)
  (if ltb max_u32 major || ltb max_u32 minor
      then none
      else some (record { major = major; minor = minor }))

-- bytes; the product is computed in `std::uint64_t`
unfoldable pub parse_kb_to_bytes : Bytes → Option ℕ
parse_kb_to_bytes s = do value ← parse_uint s; some ((value * 1024) % u64_mod)

-- `std::to_string` and `std::hex` output: the digits of `n` in front of `out`, on fuel; `n + 1`
-- rounds are enough, since each divides a positive number by the base
unfoldable pub digit_char : ℕ → ℕ
digit_char d = if ltb d 10 then b'0' + d else 87 + d

unfoldable pub print_digits : ℕ → ℕ → ℕ → Bytes → Bytes
print_digits base zero n out = out
print_digits base (suc fuel) n out = elim (n / base) [
  | zero ↦ digit_char (n % base) ∷ out
  | suc m ↦ print_digits base fuel (suc m) (digit_char (n % base) ∷ out)
]

unfoldable pub to_string : ℕ → Bytes
to_string n = print_digits 10 (n + 1) n []
