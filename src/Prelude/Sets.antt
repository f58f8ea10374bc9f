-- ===== src/Prelude/Sets.antt =====
-- `std::set` of numbers as an ascending list.
use Prim.Native.Nat.{ℕ, ◌<◌}
use mathlib.Core.Bool.{Bool, ◌||◌}
use mathlib.Core.List.{List, [], ◌∷◌}
use mathlib.Core.Path.{◌≡◌, refl}
use native.Mathlib.Omega.{arith}
use sysal.Prelude.Tests.{ltb, ◌==◌, if◌then◌else◌}
use sysal.Prelude.Lists.{any, All}

-- `insert`
unfoldable pub set_insert : ℕ → List ℕ → List ℕ
set_insert x [] = x ∷ []
set_insert x (y ∷ ys) =
    if ltb x y then x ∷ y ∷ ys else if x == y then y ∷ ys else y ∷ set_insert x ys

-- `contains` and `count`
abbrev pub contains : ℕ → List ℕ → Bool
contains x = any (λ y. y == x)

-- ascending, without repetition
abbrev pub IsAscending : List ℕ → Type 0
IsAscending [] = Unit {0}
IsAscending (x ∷ xs) = All (λ y. x < y) xs × IsAscending xs

pub contains-set_insert :
    (x y : ℕ) (ys : List ℕ) → contains x (set_insert y ys) ≡ (y == x || contains x ys)
unfolding set_insert
contains-set_insert x y [] = refl
contains-set_insert x y (z ∷ ys) = ground (arith, contains-set_insert x y ys)

module _ (P : ℕ → Type 0) where
  pub All-set_insert : (x : ℕ) (ys : List ℕ) → P x → All P ys → All P (set_insert x ys)
  unfolding set_insert
  All-set_insert x [] h hs = (h, tt)
  All-set_insert x (y ∷ ys) h (hy, hs) = ground (arith, All-set_insert x ys h hs)

weaken : (x y : ℕ) (ys : List ℕ) → x < y → All (λ z. y < z) ys → All (λ z. x < z) ys
weaken x y [] h hs = tt
weaken x y (z ∷ ys) h (hz, hs) = (omega arith, weaken x y ys h hs)

pub IsAscending-set_insert : (x : ℕ) (ys : List ℕ) → IsAscending ys → IsAscending (set_insert x ys)
unfolding set_insert
IsAscending-set_insert x [] h = (tt, tt)
IsAscending-set_insert x (y ∷ ys) (above, h) =
    ground (arith, weaken x y ys, IsAscending-set_insert x ys h, All-set_insert (λ z. y < z) x ys)
