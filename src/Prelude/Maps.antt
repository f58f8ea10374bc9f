-- ===== src/Prelude/Maps.antt =====
-- A `std::map` with text keys as an association list that ascends in its keys, and UTF-8 literals.
use Prim.Native.Char.{code}
use Prim.Native.Nat.{ℕ, ◌+◌, ◌/◌, ◌%◌}
use Prim.Native.String.{String}
use mathlib.Core.Bool.{Bool, true, false, ◌&&◌, ◌||◌}
use mathlib.Core.List.{List, [], ◌∷◌, ◌++◌}
use mathlib.Core.Option.{Option, none, some}
use mathlib.Core.Path.{◌≡◌, refl}
use mathlib.Core.Logic.{inl, inr}
use native.Mathlib.Omega.{arith}
use sysal.Prelude.Tests.{ltb, ◌==◌, if◌then◌else◌, Bool-cases}
use sysal.Prelude.Strings.{Bytes, text_eq, text_eq_iff, text_eq_refl}

-- `<` of `std::string`
unfoldable pub text_lt : Bytes → Bytes → Bool
text_lt s [] = false
text_lt [] (y ∷ t) = true
text_lt (x ∷ s) (y ∷ t) = ltb x y || (x == y && text_lt s t)

-- `insert` of a `std::set`
unfoldable pub insert_text : Bytes → List Bytes → List Bytes
insert_text s [] = s ∷ []
insert_text s (t ∷ ts) =
    if text_lt s t then s ∷ t ∷ ts else if text_eq s t then t ∷ ts else t ∷ insert_text s ts

-- the UTF-8 bytes of a code point
abbrev utf8_char : ℕ → Bytes
utf8_char c =
    if ltb c 128
    then c ∷ []
    else if ltb c 2048
    then (192 + c / 64) ∷ (128 + c % 64) ∷ []
    else if ltb c 65536
    then (224 + c / 4096) ∷ (128 + (c / 64) % 64) ∷ (128 + c % 64) ∷ []
    else (240 + c / 262144) ∷ (128 + (c / 4096) % 64) ∷ (128 + (c / 64) % 64) ∷ (128 + c % 64) ∷ []

-- the bytes of a literal of the source, whose encoding is UTF-8
abbrev pub utf8 : String → Bytes
utf8 String.[] = []
utf8 (String.◌∷◌ c s) = utf8_char (code c) ++ utf8 s

module _ {ℓ} {A : Type ℓ} where
  -- `find`
  unfoldable pub lookup_key : Bytes → List (Bytes × A) → Option A
  lookup_key k [] = none
  lookup_key k ((key, a) ∷ m) = if text_eq k key then some a else lookup_key k m

  -- an assignment through `operator[]`: `f` makes the new value from the old one, if there is one
  unfoldable pub update_key : Bytes → (Option A → A) → List (Bytes × A) → List (Bytes × A)
  update_key k f [] = (k, f none) ∷ []
  update_key k f ((key, a) ∷ m) =
      if text_eq k key
      then (key, f (some a)) ∷ m
      else if text_lt k key
      then (k, f none) ∷ (key, a) ∷ m
      else (key, a) ∷ update_key k f m

module _ {ℓ} {A : Type ℓ} where
  -- the same, with numbers as keys
  unfoldable pub lookup_id : ℕ → List (ℕ × A) → Option A
  lookup_id k [] = none
  lookup_id k ((key, a) ∷ m) = if k == key then some a else lookup_id k m

  unfoldable pub update_id : ℕ → (Option A → A) → List (ℕ × A) → List (ℕ × A)
  update_id k f [] = (k, f none) ∷ []
  update_id k f ((key, a) ∷ m) =
      if k == key
      then (key, f (some a)) ∷ m
      else if ltb k key
      then (k, f none) ∷ (key, a) ∷ m
      else (key, a) ∷ update_id k f m

pub text_lt_irrefl : (a : Bytes) → text_lt a a ≡ false
unfolding text_lt
text_lt_irrefl [] = refl
text_lt_irrefl (x ∷ a) = ground (arith, text_lt_irrefl a)

pub text_lt_trans : (a b c : Bytes) → text_lt a b ≡ true → text_lt b c ≡ true → text_lt a c ≡ true
unfolding text_lt
text_lt_trans a b [] h k = k
text_lt_trans a [] (z ∷ c) h k = cc
text_lt_trans [] (y ∷ b) (z ∷ c) h k = refl
text_lt_trans (x ∷ a) (y ∷ b) (z ∷ c) h k = ground (arith, text_lt_trans a b c)

text_lt_total : (a b : Bytes) → text_eq a b ≡ false → text_lt a b ≡ false → text_lt b a ≡ true
unfolding text_lt text_eq
text_lt_total [] [] h k = cc
text_lt_total (x ∷ a) [] h k = refl
text_lt_total [] (y ∷ b) h k = cc
text_lt_total (x ∷ a) (y ∷ b) h k = ground (arith, text_lt_total a b)

module _ {ℓ} {A : Type ℓ} where
  -- every key is above `k`
  abbrev pub IsAbove : Bytes → List (Bytes × A) → Type 0
  IsAbove k [] = Unit
  IsAbove k ((key, a) ∷ m) = (text_lt k key ≡ true) × IsAbove k m

  -- the keys ascend, as in every `std::map`
  abbrev pub IsSorted : List (Bytes × A) → Type 0
  IsSorted [] = Unit
  IsSorted ((key, a) ∷ m) = IsAbove key m × IsSorted m

  IsAbove-trans :
      (j k : Bytes) (m : List (Bytes × A)) → text_lt j k ≡ true → IsAbove k m → IsAbove j m
  IsAbove-trans j k [] h above = tt
  IsAbove-trans j k ((key, a) ∷ m) h (one, above) =
      (text_lt_trans j k key h one, IsAbove-trans j k m h above)

  IsAbove-update_key :
      (j k : Bytes) (f : Option A → A) (m : List (Bytes × A))
      → text_lt j k ≡ true
      → IsAbove j m
      → IsAbove j (update_key k f m)
  unfolding update_key
  IsAbove-update_key j k f [] h above = (h, tt)
  IsAbove-update_key j k f ((key, a) ∷ m) h (one, above) =
      let rest = IsAbove-update_key j k f m h above in
      elim (Bool-cases (text_eq k key)) [
        | inl e ↦ rw e (one, above)
        | inr e ↦ elim (Bool-cases (text_lt k key)) [
          | inl l ↦ rw (e, l) (h, (one, above))
          | inr l ↦ rw (e, l) (one, rest)
        ]
      ]

  pub IsSorted-update_key :
      (k : Bytes) (f : Option A → A) (m : List (Bytes × A))
      → IsSorted m
      → IsSorted (update_key k f m)
  unfolding update_key
  IsSorted-update_key k f [] h = (tt, tt)
  IsSorted-update_key k f ((key, a) ∷ m) (above, sorted) =
      let rest = IsSorted-update_key k f m sorted in
      elim (Bool-cases (text_eq k key)) [
        | inl e ↦ rw e (above, sorted)
        | inr e ↦ elim (Bool-cases (text_lt k key)) [
          | inl l ↦ rw (e, l) ((l, IsAbove-trans k key m l above), (above, sorted))
          | inr l ↦ rw (e, l) (IsAbove-update_key key k f m (text_lt_total k key e l) above, rest)
        ]
      ]

  lookup_key-above : (k : Bytes) (m : List (Bytes × A)) → IsAbove k m → lookup_key k m ≡ none
  unfolding lookup_key
  lookup_key-above k [] above = refl
  lookup_key-above k ((key, a) ∷ m) (one, above) =
      ground (arith, text_eq_iff k key, text_lt_irrefl k, lookup_key-above k m above)

  pub lookup_key-update_key :
      (k : Bytes) (f : Option A → A) (m : List (Bytes × A))
      → IsSorted m
      → lookup_key k (update_key k f m) ≡ some (f (lookup_key k m))
  unfolding lookup_key update_key
  lookup_key-update_key k f [] h = rw (text_eq_refl k) refl
  lookup_key-update_key k f ((key, a) ∷ m) (above, sorted) =
      let rest = lookup_key-update_key k f m sorted in
      elim (Bool-cases (text_eq k key)) [
        | inl e ↦ rw (e, e) refl
        | inr e ↦ elim (Bool-cases (text_lt k key)) [
          | inl l ↦
              let gone = lookup_key-above k m (IsAbove-trans k key m l above) in
              rw (e, l, text_eq_refl k, gone) refl
          | inr l ↦ rw (e, l, e) rest
        ]
      ]

  pub lookup_key-update_other :
      (j k : Bytes) (f : Option A → A) (m : List (Bytes × A))
      → text_eq j k ≡ false
      → lookup_key j (update_key k f m) ≡ lookup_key j m
  unfolding lookup_key update_key
  lookup_key-update_other j k f [] h = rw h refl
  lookup_key-update_other j k f ((key, a) ∷ m) h =
      let rest = lookup_key-update_other j k f m h in
      elim (Bool-cases (text_eq k key)) [
        | inl e ↦ ground (arith, text_eq_iff k key)
        | inr e ↦ ground (arith, rest)
      ]
