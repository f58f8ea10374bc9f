-- ===== src/Accelerator/Selection/Subset.antt =====
-- Lists of positions within others, as src/resolver/accelerator_selection.cpp builds them.
use sysal.Prelude.{
  Bool-cases, keep, All, All-append, ℕ, ◌≡◌, refl, inl, inr, Bool, true, false, ◌||◌, [], ◌∷◌, ◌++◌,
  arith,
}
use sysal.Accelerator.{DeviceIndices, holds_index, append_unique}
use sysal.Accelerator.Selection.{insert_by, sort_by}

-- every position of the list is one of the pool
abbrev pub Within : DeviceIndices → DeviceIndices → Type 0
Within pool = All (λ i. holds_index pool i ≡ true)

-- no position is listed twice
abbrev pub IsUnique : DeviceIndices → Type 0
IsUnique [] = Unit {0}
IsUnique (i ∷ is) = (holds_index is i ≡ false) × IsUnique is

holds_index-append :
    (xs ys : DeviceIndices) (i : ℕ)
    → holds_index (xs ++ ys) i ≡ (holds_index xs i || holds_index ys i)
unfolding holds_index
holds_index-append [] ys i = refl
holds_index-append (x ∷ xs) ys i = ground (arith, holds_index-append xs ys i)

Within-holds :
    (pool xs : DeviceIndices) (i : ℕ)
    → Within pool xs
    → holds_index xs i ≡ true
    → holds_index pool i ≡ true
unfolding holds_index
Within-holds pool [] i h e = cc
Within-holds pool (x ∷ xs) i (hx, h) e = ground (arith, Within-holds pool xs i h)

pub Within-trans : (a b xs : DeviceIndices) → Within a b → Within b xs → Within a xs
Within-trans a b [] h k = tt
Within-trans a b (x ∷ xs) h (kx, k) = (Within-holds a b x h kx, Within-trans a b xs h k)

Within-suc : (pool xs : DeviceIndices) (i : ℕ) → Within pool xs → Within (i ∷ pool) xs
unfolding holds_index
Within-suc pool [] i h = tt
Within-suc pool (x ∷ xs) i (hx, h) = (ground arith, Within-suc pool xs i h)

pub Within-refl : (xs : DeviceIndices) → Within xs xs
unfolding holds_index
Within-refl [] = tt
Within-refl (x ∷ xs) = (ground arith, Within-suc xs xs x (Within-refl xs))

pub Within-append_unique :
    (pool target source : DeviceIndices)
    → Within pool target
    → Within pool source
    → Within pool (append_unique target source)
unfolding append_unique
Within-append_unique pool target [] h k = h
Within-append_unique pool target (x ∷ source) h (kx, k) = elim (Bool-cases (holds_index target x)) [
  | inl e ↦ rw (e, append_unique) (Within-append_unique pool target source h k)
  | inr e ↦
      rw (e, append_unique)
        (Within-append_unique pool (target ++ x ∷ []) source
          (All-append _ target (x ∷ []) h (kx, tt)) k)
]

IsUnique-concat :
    (xs : DeviceIndices) (i : ℕ) → IsUnique xs → holds_index xs i ≡ false → IsUnique (xs ++ i ∷ [])
unfolding holds_index
IsUnique-concat [] i h e = (refl, tt)
IsUnique-concat (x ∷ xs) i (hx, h) e =
    (ground (arith, holds_index-append xs (i ∷ []) x), IsUnique-concat xs i h (ground arith))

pub IsUnique-append_unique :
    (target source : DeviceIndices) → IsUnique target → IsUnique (append_unique target source)
unfolding append_unique
IsUnique-append_unique target [] h = h
IsUnique-append_unique target (x ∷ source) h = elim (Bool-cases (holds_index target x)) [
  | inl e ↦ rw (e, append_unique) (IsUnique-append_unique target source h)
  | inr e ↦
      rw (e, append_unique)
        (IsUnique-append_unique (target ++ x ∷ []) source (IsUnique-concat target x h e))
]

pub Within-keep :
    (p : ℕ → Bool) (pool xs : DeviceIndices) → Within pool xs → Within pool (keep p xs)
Within-keep p pool [] h = tt
Within-keep p pool (x ∷ xs) (hx, h) = ground (arith, Within-keep p pool xs h)

holds_index-keep :
    (p : ℕ → Bool) (xs : DeviceIndices) (i : ℕ)
    → holds_index xs i ≡ false
    → holds_index (keep p xs) i ≡ false
unfolding holds_index
holds_index-keep p [] i h = refl
holds_index-keep p (x ∷ xs) i h = ground (arith, holds_index-keep p xs i)

pub IsUnique-keep : (p : ℕ → Bool) (xs : DeviceIndices) → IsUnique xs → IsUnique (keep p xs)
IsUnique-keep p [] h = tt
IsUnique-keep p (x ∷ xs) (hx, h) = ground (arith, IsUnique-keep p xs h, holds_index-keep p xs x hx)

Within-insert_by :
    (less : ℕ → ℕ → Bool) (pool xs : DeviceIndices) (i : ℕ)
    → holds_index pool i ≡ true
    → Within pool xs
    → Within pool (insert_by less i xs)
unfolding insert_by
Within-insert_by less pool [] i e h = (e, tt)
Within-insert_by less pool (x ∷ xs) i e (hx, h) =
    ground (arith, Within-insert_by less pool xs i e h)

pub Within-sort_by :
    (less : ℕ → ℕ → Bool) (pool xs : DeviceIndices) → Within pool xs → Within pool (sort_by less xs)
unfolding sort_by
Within-sort_by less pool [] h = tt
Within-sort_by less pool (x ∷ xs) (hx, h) =
    Within-insert_by less pool (sort_by less xs) x hx (Within-sort_by less pool xs h)
