-- ===== src/Number/Parse.antt =====
-- What `parse_uint` and `parse_hex` of src/parser/parse_utils.cpp accept, and what they return.
use mathlib.Core.List.{cons-ne-nil}
use sysal.Text.{trim}
use sysal.Prelude.{
  if◌then◌else◌, Option-cases, is_nil, is_some, get_or, All, Bytes, ℕ, ◌+◌, ◌*◌, ◌<◌, ◌≡◌, refl,
  sym, ap, ◌≢◌, ◌↔◌, inl, inr, true, none, some, [], ◌∷◌, arith,
}
use sysal.Number.{
  u64_mod, digit_value, scan_digits, FromChars, parsed, from_chars, whole, parse_uint, parse_hex,
}

-- every byte is a digit of the base
abbrev pub IsDigits : ℕ → Bytes → Type 0
IsDigits base = All (λ c. is_some (digit_value base c) ≡ true)

-- the number that digits spell behind `v`, with no bound
unfoldable pub value_from : ℕ → ℕ → Bytes → ℕ
value_from base v [] = v
value_from base v (c ∷ s) = value_from base (v * base + get_or (digit_value base c) 0) s

scan_sound :
    (base v : ℕ) (s : Bytes)
    → (scan_digits base v s).1 ≡ []
    → IsDigits base s × ((scan_digits base v s).0 ≡ value_from base v s)
unfolding scan_digits value_from
scan_sound base v [] h = (tt, refl)
scan_sound base v (c ∷ s) h = elim (Option-cases (digit_value base c)) [
  | inl e ↦ ground (arith, cons-ne-nil c s)
  | inr (d, e) ↦ ground (arith, scan_sound base (v * base + d) s)
]

scan_complete :
    (base v : ℕ) (s : Bytes) → IsDigits base s → scan_digits base v s ≡ (value_from base v s, [])
unfolding scan_digits value_from
scan_complete base v [] h = refl
scan_complete base v (c ∷ s) (hc, h) = elim (Option-cases (digit_value base c)) [
  | inl e ↦ absurd (ground (arith, e))
  | inr (d, e) ↦ ground (arith, scan_complete base (v * base + d) s h)
]

-- the value of a whole text
abbrev pub value : ℕ → Bytes → ℕ
value base = value_from base 0

whole-eq-some : (r : FromChars) {v : ℕ} → whole r ≡ some v → r ≡ parsed v []
unfolding whole
whole-eq-some (parsed v []) h = ground arith
whole-eq-some (parsed v (c ∷ rest)) h = cc
whole-eq-some _ h = cc

pub value-cons :
    (base c d : ℕ) (s : Bytes)
    → digit_value base c ≡ some d
    → value base (c ∷ s) ≡ value_from base d s
unfolding value_from
value-cons base c d s e = ground arith

from_chars_sound :
    (base : ℕ) (s : Bytes) {v : ℕ}
    → from_chars base s ≡ parsed v []
    → (s ≢ []) × IsDigits base s × (v ≡ value base s) × (v < u64_mod)
unfolding from_chars
from_chars_sound base [] h = cc
from_chars_sound base (c ∷ s) h = elim (Option-cases (digit_value base c)) [
  | inl e ↦ ground arith
  | inr (d, e) ↦ (
    cons-ne-nil c s,
    (ground arith, ground (arith, scan_sound base d s)),
    ground (arith, scan_sound base d s, value-cons base c d s e),
    ground arith,
  )
]

from_chars_complete :
    (base : ℕ) (s : Bytes)
    → s ≢ []
    → IsDigits base s
    → value base s < u64_mod
    → from_chars base s ≡ parsed (value base s) []
unfolding from_chars
from_chars_complete base [] ne h fits = absurd (ne refl)
from_chars_complete base (c ∷ s) ne (hc, h) fits = elim (Option-cases (digit_value base c)) [
  | inl e ↦ absurd (ground (arith, e))
  | inr (d, e) ↦ ground (arith, scan_complete base d s h, value-cons base c d s e)
]

abbrev ReadsAs : ℕ → Bytes → ℕ → Type 0
ReadsAs base s v = (s ≢ []) × IsDigits base s × (v ≡ value base s) × (v < u64_mod)

whole_iff :
    (base : ℕ) (s : Bytes) (v : ℕ)
    → ((if is_nil s then none else whole (from_chars base s)) ≡ some v) ↔ ReadsAs base s v
whole_iff base [] v = (λ h. cc, λ h. absurd (h.0 refl))
whole_iff base (c ∷ s) v = (
  λ h. from_chars_sound base (c ∷ s) (whole-eq-some _ h),
  λ h.
      unfold whole in
      rw (from_chars_complete base (c ∷ s) h.0 h.1 (omega arith)) (ap some (sym h.2)),
)

-- `parse_uint` accepts exactly the texts that are, between white space, one or more decimal digits
-- whose value fits in 64 bits; it returns that value, so nothing ever wraps around.
pub parse_uint_iff :
    (s : Bytes) (v : ℕ)
    → (parse_uint s ≡ some v)
      ↔ ((trim s ≢ []) × IsDigits 10 (trim s) × (v ≡ value 10 (trim s)) × (v < u64_mod))
unfolding parse_uint
parse_uint_iff s v = whole_iff 10 (trim s) v

-- The same for `parse_hex`, with hexadecimal digits of either case.
pub parse_hex_iff :
    (s : Bytes) (v : ℕ)
    → (parse_hex s ≡ some v)
      ↔ ((trim s ≢ []) × IsDigits 16 (trim s) × (v ≡ value 16 (trim s)) × (v < u64_mod))
unfolding parse_hex
parse_hex_iff s v = whole_iff 16 (trim s) v
