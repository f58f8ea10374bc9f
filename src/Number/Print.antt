-- ===== src/Number/Print.antt =====
-- `std::to_string` and hexadecimal output, as src/resolver uses them, against the parsers of
-- src/parser/parse_utils.cpp.
use mathlib.Core.List.{cons-ne-nil}
use native.Mathlib.Nat.{div-add-mod, mod-lt}
use sysal.Prelude.{
  ℕ-cases, all, is_some, All, Bytes, ℕ, zero, suc, ◌+◌, ◌/◌, ◌%◌, ◌≤◌, ◌<◌, ◌≡◌, sym, ap, ◌∙◌, ◌≢◌,
  inl, inr, true, false, some, [], ◌∷◌, arith,
}
use sysal.Text.{is_space, trim}
use sysal.Text.Trim.{trim-NoSpace}
use sysal.Number.{u64_mod, digit_value, parse_uint, digit_char, print_digits, to_string}
use sysal.Number.Parse.{IsDigits, value_from, value, parse_uint_iff}

digit_value-digit_char :
    (base d : ℕ) → base ≤ 16 → d < base → digit_value base (digit_char d) ≡ some d
unfolding digit_value digit_char
digit_value-digit_char base d hb h = ground arith

digit-NoSpace : (base c : ℕ) → is_some (digit_value base c) ≡ true → base ≤ 16 → is_space c ≡ false
unfolding digit_value is_space
digit-NoSpace base c h hb = ground arith

pub IsDigits-NoSpace :
    (base : ℕ) (s : Bytes) → base ≤ 16 → IsDigits base s → All (λ c. is_space c ≡ false) s
IsDigits-NoSpace base [] hb h = tt
IsDigits-NoSpace base (c ∷ s) hb (hc, h) =
    (digit-NoSpace base c hc hb, IsDigits-NoSpace base s hb h)

pub trim-IsDigits : (base : ℕ) (s : Bytes) → base ≤ 16 → IsDigits base s → trim s ≡ s
trim-IsDigits base s hb h = trim-NoSpace s (IsDigits-NoSpace base s hb h)

-- one round: the quotient of a positive number by the base is smaller
div_lt : (base n m : ℕ) → 2 ≤ base → n / base ≡ suc m → suc m < n
div_lt base n m hb e = grind (arith, div-add-mod n base)

IsDigit-digit_char :
    (base d : ℕ) → base ≤ 16 → d < base → is_some (digit_value base (digit_char d)) ≡ true
IsDigit-digit_char base d hb h = rw (digit_value-digit_char base d hb h)

value_from-digit :
    (base v n : ℕ) (out : Bytes)
    → 2 ≤ base
    → base ≤ 16
    → n / base ≡ v
    → value_from base v (digit_char (n % base) ∷ out) ≡ value_from base n out
unfolding value_from
value_from-digit base v n out lo hb e =
    rw (digit_value-digit_char base (n % base) hb (mod-lt n (omega arith)))
      (ap (λ k. value_from base k out) (grind (arith, div-add-mod n base)))

module _ (base : ℕ) (low : 2 ≤ base) (high : base ≤ 16) where
  pub print_digits_lem :
      (fuel n : ℕ) (out : Bytes)
      → n < fuel
      → IsDigits base out
      → IsDigits base (print_digits base fuel n out)
        × (print_digits base fuel n out ≢ [])
        × (value base (print_digits base fuel n out) ≡ value_from base n out)
  unfolding print_digits
  print_digits_lem zero n out h ds = absurd (omega arith)
  print_digits_lem (suc fuel) n out h ds =
      let digit = IsDigit-digit_char base (n % base) high (mod-lt n (omega arith)) in
      elim (ℕ-cases (n / base)) [
        | inl e ↦
            rw (e, print_digits)
              ((digit, ds), cons-ne-nil _ _, value_from-digit base 0 n out low high e)
        | inr (m, e) ↦
            let smaller = div_lt base n m low e in
            let (all, ne, q) =
              print_digits_lem fuel (suc m) (digit_char (n % base) ∷ out) (omega arith)
                (digit, ds) in
            rw (e, print_digits) (all, ne, q ∙ value_from-digit base (suc m) n out low high e)
      ]

-- The decimal print of every `std::uint64_t` is read back.
pub parse_uint-to_string : (n : ℕ) → n < u64_mod → parse_uint (to_string n) ≡ some n
unfolding to_string value_from
parse_uint-to_string n h =
    let (all, ne, q) =
      print_digits_lem 10 (omega arith) (omega arith) (n + 1) n [] (omega arith) tt in
    let clean = trim-IsDigits 10 (print_digits 10 (n + 1) n []) (omega arith) all in
    (parse_uint_iff _ n).1 (rw clean (ne, all, sym q, h))
