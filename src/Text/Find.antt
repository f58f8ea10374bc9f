-- ===== src/Text/Find.antt =====
-- Where a byte stands: `find`, `rfind` and `extract_filename` of src/parser/parse_utils.cpp.
use native.Mathlib.Numerals.{add-one}
use sysal.Prelude.{
  ◌==◌, ==_refl, Bool-cases, length, drop, take-append, drop_behind, Bytes, Lacks, ℕ, suc, ◌≡◌,
  refl, ◌⊎◌, inl, inr, none, some, [], ◌∷◌, ◌++◌, arith,
}
use sysal.Text.{trim, find, rfind, parse_kv, extract_filename}

find-Lacks : (c : ℕ) (s : Bytes) → Lacks c s → find s c ≡ none
unfolding find
find-Lacks c [] h = refl
find-Lacks c (x ∷ s) h = ground (arith, find-Lacks c s h.1)

pub find_behind : (c : ℕ) (p q : Bytes) → Lacks c p → find (p ++ c ∷ q) c ≡ some (length p)
unfolding find
find_behind c [] q h = rw (==_refl c)
find_behind c (x ∷ p) q h = ground (arith, find_behind c p q h.1)

rfind-Lacks : (c : ℕ) (s : Bytes) → Lacks c s → rfind s c ≡ none
unfolding rfind
rfind-Lacks c [] h = refl
rfind-Lacks c (x ∷ s) h = ground (arith, rfind-Lacks c s h.1)

pub rfind_behind : (c : ℕ) (p q : Bytes) → Lacks c q → rfind (p ++ c ∷ q) c ≡ some (length p)
unfolding rfind
rfind_behind c [] q h = ground (arith, rfind-Lacks c q h)
rfind_behind c (x ∷ p) q h = ground (arith, rfind_behind c p q h)

rfind-cases :
    (c : ℕ) (s : Bytes)
    → ((rfind s c ≡ none) × Lacks c s) ⊎ ((i : ℕ) × (rfind s c ≡ some i) × Lacks c (drop (suc i) s))
unfolding rfind
rfind-cases c [] = inl (refl, tt)
rfind-cases c (x ∷ s) = elim (rfind-cases c s) [
  | inr (i, e, h) ↦ inr (suc i, rw e, h)
  | inl (e, h) ↦ elim (Bool-cases (x == c)) [
    | inl k ↦ inr (0, rw (e, k), h)
    | inr k ↦ inl (rw (e, k), (ground arith, h))
  ]
]

-- A key with no separator in it, the separator and a value give the trimmed key and value.
parse_kv_pair :
    (k v : Bytes) (sep : ℕ) → Lacks sep k → parse_kv (k ++ sep ∷ v) sep ≡ (trim k, trim v)
unfolding parse_kv
parse_kv_pair k v sep h =
    rw (find_behind sep k v h, parse_kv)
      (rw (take-append k (sep ∷ v), add-one (length k), drop_behind k sep v))

-- What is found as the name of a path never holds a slash.
extract_filename-Lacks : (path : Bytes) → Lacks b'/' (extract_filename path)
unfolding extract_filename
extract_filename-Lacks path = go (rfind-cases b'/' path)
  where
    go :
        ((rfind path b'/' ≡ none) × Lacks b'/' path)
          ⊎ ((i : ℕ) × (rfind path b'/' ≡ some i) × Lacks b'/' (drop (suc i) path))
        → Lacks b'/' (extract_filename path)
    go (inl (e, h)) = rw (e, extract_filename) h
    go (inr (i, e, h)) = rw (e, extract_filename) (rw (add-one i) h)

-- A name without a slash is found behind any directory and a slash.
extract_filename_behind :
    (dir name : Bytes) → Lacks b'/' name → extract_filename (dir ++ b'/' ∷ name) ≡ name
unfolding extract_filename
extract_filename_behind dir name h =
    rw (rfind_behind b'/' dir name h, extract_filename)
      (rw (add-one (length dir), drop_behind dir b'/' name))
