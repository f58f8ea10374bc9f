-- ===== src/Text/Split.antt =====
-- The parts of a split text: `split` of src/parser/parse_utils.cpp.
use mathlib.Core.List.{cons-ne-nil}
use sysal.Prelude.{
  ◌==◌, if◌then◌else◌, ==_refl, All, Bytes, Lacks, ℕ, ◌≡◌, refl, ap, ◌∙◌, ◌≢◌, List, [], ◌∷◌, ◌++◌,
  append-nil, append_assoc, arith,
}
use sysal.Text.{split_loop, split}

-- the parts with the delimiter between them
unfoldable pub join : List Bytes → ℕ → Bytes
join [] d = []
join (p ∷ []) d = p
join (p ∷ q ∷ ps) d = p ++ d ∷ join (q ∷ ps) d

-- the parts, with no accumulator: first the one in front of the first delimiter, then the others
unfoldable parts : ℕ → Bytes → Bytes × List Bytes
parts d [] = ([], [])
parts d (c ∷ s) =
    let rest = parts d s in if c == d then ([], rest.0 ∷ rest.1) else (c ∷ rest.0, rest.1)

split_loop-parts :
    (d : ℕ) (s : Bytes) (result : List Bytes) (current : Bytes)
    → split_loop d s result current ≡ result ++ (current ++ (parts d s).0) ∷ (parts d s).1
unfolding split_loop parts
split_loop-parts d [] result current = rw append-nil
split_loop-parts d (c ∷ s) result current = ground (
  arith,
  split_loop-parts d s (result ++ current ∷ []) [],
  append-nil current,
  append_assoc result (current ∷ []) ((parts d s).0 ∷ (parts d s).1),
  split_loop-parts d s result (current ++ c ∷ []),
  append_assoc current (c ∷ []) (parts d s).0,
)

split-parts : (s : Bytes) (d : ℕ) → split s d ≡ (parts d s).0 ∷ (parts d s).1
unfolding split
split-parts s d = split_loop-parts d s [] []

parts-Lacks : (d : ℕ) (s : Bytes) → Lacks d (parts d s).0 × All (Lacks d) (parts d s).1
unfolding parts
parts-Lacks d [] = (tt, tt)
parts-Lacks d (c ∷ s) = ground (arith, parts-Lacks d s)

-- No part holds the delimiter.
split-Lacks : (s : Bytes) (d : ℕ) → All (Lacks d) (split s d)
split-Lacks s d = rw split-parts (parts-Lacks d s)

join_cons : (d c : ℕ) (p : Bytes) (ps : List Bytes) → join ((c ∷ p) ∷ ps) d ≡ c ∷ join (p ∷ ps) d
unfolding join
join_cons d c p [] = refl
join_cons d c p (q ∷ ps) = refl

join_nil : (d : ℕ) (p : Bytes) (ps : List Bytes) → join ([] ∷ p ∷ ps) d ≡ d ∷ join (p ∷ ps) d
unfolding join
join_nil d p ps = refl

parts-join : (d : ℕ) (s : Bytes) → join ((parts d s).0 ∷ (parts d s).1) d ≡ s
unfolding join parts
parts-join d [] = refl
parts-join d (c ∷ s) = ground (
  arith,
  parts-join d s,
  join_nil d (parts d s).0 (parts d s).1,
  join_cons d c (parts d s).0 (parts d s).1,
)

-- The parts, joined by the delimiter, are the text.
join-split : (s : Bytes) (d : ℕ) → join (split s d) d ≡ s
join-split s d = rw split-parts (parts-join d s)

parts_first :
    (d : ℕ) (p s : Bytes) → Lacks d p → parts d (p ++ d ∷ s) ≡ (p, (parts d s).0 ∷ (parts d s).1)
unfolding parts
parts_first d [] s h = rw (==_refl d)
parts_first d (c ∷ p) s h = ground (arith, parts_first d p s h.1)

split_first : (d : ℕ) (p s : Bytes) → Lacks d p → split (p ++ d ∷ s) d ≡ p ∷ split s d
split_first d p s h = rw (split-parts (p ++ d ∷ s), split-parts s, parts_first d p s h)

parts_last : (d : ℕ) (p : Bytes) → Lacks d p → parts d p ≡ (p, [])
unfolding parts
parts_last d [] h = refl
parts_last d (c ∷ p) h = ground (arith, parts_last d p h.1)

split_last : (d : ℕ) (p : Bytes) → Lacks d p → split p d ≡ p ∷ []
split_last d p h = rw (split-parts p, parts_last d p h)

pub split-join : (ps : List Bytes) (d : ℕ) → ps ≢ [] → All (Lacks d) ps → split (join ps d) d ≡ ps
unfolding join
split-join [] d ne h = absurd (ne refl)
split-join (p ∷ []) d ne h = split_last d p h.0
split-join (p ∷ q ∷ ps) d ne h =
    split_first d p (join (q ∷ ps) d) h.0
    ∙ ap (◌∷◌ p) (split-join (q ∷ ps) d (cons-ne-nil q ps) h.1)
