-- ===== src/Prelude/Bits.antt =====
-- `&` and `|` of unsigned words at variables, one binary digit at a time.
use Prim.Native.Nat.{
  ℕ, zero, suc, ◌+◌, ◌*◌, ◌/◌, ◌%◌, ◌≤◌, ◌<◌, ◌-◌, ◌^◌, min, max, bit_and, bit_or, digits,
  bit_and-bitwise, bit_or-bitwise,
}
use mathlib.Core.Path.{◌≡◌, refl, sym, ap, ◌∙◌}
use mathlib.Core.Logic.{◌↔◌}
use native.Mathlib.Nat.{pow-suc, one-le-pow}
use native.Mathlib.Omega.{arith}

module _ (base : ℕ → ℕ) (digit : ℕ → ℕ → ℕ) where
  digits-zero : (fuel y : ℕ) → digits base digit fuel 0 y ≡ base y
  digits-zero zero y = refl
  digits-zero (suc fuel) y = refl

  -- more rounds than the left number has digits change nothing
  rounds_agree :
      (x y few many : ℕ)
      → (x ≤ few) × (x ≤ many)
      → digits base digit few x y ≡ digits base digit many x y
  rounds_agree zero y few many h = digits-zero few y ∙ sym (digits-zero many y)
  rounds_agree (suc x) y (suc few) (suc many) (h, k) =
      let rest = rounds_agree (suc x / 2) (y / 2) few many (omega arith, omega arith) in
      ap (λ high. high * 2 + digit (suc x % 2) (y % 2)) rest
  rounds_agree (suc x) y zero many h = absurd (omega (arith, h.0))
  rounds_agree (suc x) y (suc few) zero h = absurd (omega (arith, h.1))

  lowest_digit :
      ((y : ℕ) → base y ≡ base (y / 2) * 2 + digit 0 (y % 2))
      → (x y : ℕ)
      → digits base digit x x y
        ≡ digits base digit (x / 2) (x / 2) (y / 2) * 2 + digit (x % 2) (y % 2)
  lowest_digit low zero y = low y
  lowest_digit low (suc x) y =
      let rest = rounds_agree (suc x / 2) (y / 2) x (suc x / 2) (omega arith, omega arith) in
      ap (λ high. high * 2 + digit (suc x % 2) (y % 2)) rest

-- the lowest digit of `&`, and the rest
pub bit_and_step : (x y : ℕ) → bit_and x y ≡ min (x % 2) (y % 2) + 2 * bit_and (x / 2) (y / 2)
bit_and_step x y =
    let step = lowest_digit (λ t. 0) min (λ t. omega arith) x y in
    omega (arith, step, bit_and-bitwise x y, bit_and-bitwise (x / 2) (y / 2))

-- the same for `|`
pub bit_or_step : (x y : ℕ) → bit_or x y ≡ max (x % 2) (y % 2) + 2 * bit_or (x / 2) (y / 2)
bit_or_step x y =
    let step = lowest_digit (λ t. t) max (λ t. omega arith) x y in
    omega (arith, step, bit_or-bitwise x y, bit_or-bitwise (x / 2) (y / 2))

or_half : (a b : ℕ) → bit_or a b / 2 ≡ bit_or (a / 2) (b / 2)
or_half a b = omega (arith, bit_or_step a b)

or_low : (a b : ℕ) → bit_or a b % 2 ≡ max (a % 2) (b % 2)
or_low a b = omega (arith, bit_or_step a b)

and_or_step :
    (f a b : ℕ)
    → bit_and f (bit_or a b)
      ≡ bit_and (f / 2) (bit_or (a / 2) (b / 2)) * 2 + min (f % 2) (max (a % 2) (b % 2))
and_or_step f a b =
    omega (arith, bit_and_step f (bit_or a b), ap (bit_and (f / 2)) (or_half a b), or_low a b)

-- The bits that `f` shares with a union are those that it shares with a part.
shared_or_fuel :
    (n f a b : ℕ) → f ≤ n → ((bit_and f (bit_or a b) ≡ 0) ↔ ((bit_and f a ≡ 0) × (bit_and f b ≡ 0)))
shared_or_fuel n zero a b h =
    (λ e. (bit_and-bitwise 0 a, bit_and-bitwise 0 b), λ e. bit_and-bitwise 0 (bit_or a b))
shared_or_fuel zero (suc f) a b h = absurd (omega arith)
shared_or_fuel (suc n) (suc f) a b h =
    let ih = shared_or_fuel n (suc f / 2) (a / 2) (b / 2) (omega arith) in
    (
      λ e.
          let (x, y) = ih.0 (omega (arith, and_or_step (suc f) a b)) in
          (
            omega (arith, and_or_step (suc f) a b, bit_and_step (suc f) a),
            omega (arith, and_or_step (suc f) a b, bit_and_step (suc f) b),
          ),
      λ (x, y).
          let z =
            ih.1 (omega (arith, bit_and_step (suc f) a), omega (arith, bit_and_step (suc f) b)) in
          omega (arith, and_or_step (suc f) a b, bit_and_step (suc f) a, bit_and_step (suc f) b),
    )

-- `&` of two words in the other order
bit_and_comm_fuel : (n a b : ℕ) → a ≤ n → b ≤ n → bit_and a b ≡ bit_and b a
bit_and_comm_fuel zero zero zero h k = refl
bit_and_comm_fuel zero (suc a) b h k = absurd (omega arith)
bit_and_comm_fuel zero zero (suc b) h k = absurd (omega arith)
bit_and_comm_fuel (suc n) a b h k = omega (
  arith,
  bit_and_step a b,
  bit_and_step b a,
  bit_and_comm_fuel n (a / 2) (b / 2) (omega arith) (omega arith),
)

pub bit_and_comm : (a b : ℕ) → bit_and a b ≡ bit_and b a
bit_and_comm a b = bit_and_comm_fuel (a + b) a b (omega arith) (omega arith)

pub shared_or :
    (f a b : ℕ) → ((bit_and f (bit_or a b) ≡ 0) ↔ ((bit_and f a ≡ 0) × (bit_and f b ≡ 0)))
shared_or f a b = shared_or_fuel f f a b (omega arith)

-- a mask of `k` low bits keeps a word of `k` bits
pub bit_and_ones : (k a : ℕ) → a < 2 ^ k → bit_and a (2 ^ k - 1) ≡ a
bit_and_ones zero a h = let e : a ≡ 0 = omega arith in rw e refl
bit_and_ones (suc k) a h = omega (
  arith,
  pow-suc 2 k,
  one-le-pow k 2,
  bit_and_step a (2 ^ suc k - 1),
  ap (bit_and (a / 2)) (half_mask k),
  bit_and_ones k (a / 2) (omega (arith, pow-suc 2 k)),
)
  where
    half_mask : (k : ℕ) → (2 ^ suc k - 1) / 2 ≡ 2 ^ k - 1
    half_mask k = omega (arith, pow-suc 2 k, one-le-pow k 2)

pub bit_and_shift : (a b : ℕ) → bit_and a (2 * b) ≡ 2 * bit_and (a / 2) b
bit_and_shift a b = omega (arith, bit_and_step a (2 * b), ap (bit_and (a / 2)) (half b))
  where
    half : (b : ℕ) → 2 * b / 2 ≡ b
    half b = omega arith
