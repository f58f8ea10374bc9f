-- ===== src/Inventory/Complete.antt =====
-- When `report` of src/resolver/inventory.cpp calls an inventory complete.
use sysal.Prelude.{
  ◌==◌, Bool-cases, Option-cases, length, all, is_nil, Bytes, text_eq, text_eq_iff, text_eq_refl,
  text_mem, ◌≤◌, ◌≡◌, refl, sym, ap, ◌∙◌, ◌≢◌, ◌↔◌, inl, inr, Bool, true, false, ◌&&◌, Option, none,
  some, List, [], ◌∷◌, arith,
}
use sysal.Types.{is_success}
use sysal.RawStore.{
  InventoryKind, InventoryCompleteness, InventoryEnumeration, RawStore, enumeration,
}
use sysal.Inventory.{distinct, same_set, matches_names, is_reliable, observed, report_of, report}

-- no text is listed twice
abbrev IsDistinct : List Bytes → Type 0
IsDistinct [] = Unit {0}
IsDistinct (x ∷ xs) = (text_mem x xs ≡ false) × IsDistinct xs

text_mem-distinct : (s : Bytes) (xs : List Bytes) → text_mem s (distinct xs) ≡ text_mem s xs
unfolding distinct text_mem
text_mem-distinct s [] = refl
text_mem-distinct s (x ∷ xs) =
    let rest = text_mem-distinct s xs in
    let again = text_mem-distinct x xs in
    elim (Bool-cases (text_mem x (distinct xs))) [
      | inr k ↦ rw (k, rest) refl
      | inl k ↦ elim (Bool-cases (text_eq s x)) [
        | inl e ↦
            let m : text_mem s (distinct xs) ≡ true =
              ap (λ t. text_mem t (distinct xs)) ((text_eq_iff s x).0 e) ∙ k in
            rw (k, e) m
        | inr e ↦ rw (k, e) rest
      ]
    ]

length-distinct : (xs : List Bytes) → length (distinct xs) ≤ length xs
unfolding distinct
length-distinct [] = omega arith
length-distinct (x ∷ xs) = ground (arith, length-distinct xs)

distinct_iff : (xs : List Bytes) → ((length (distinct xs) == length xs) ≡ true) ↔ IsDistinct xs
unfolding distinct
distinct_iff [] = ground arith
distinct_iff (x ∷ xs) = ground (arith, distinct_iff xs, length-distinct xs, text_mem-distinct x xs)

all_iff :
    (p : Bytes → Bool) (xs : List Bytes)
    → (all p xs ≡ true) ↔ ((s : Bytes) → text_mem s xs ≡ true → p s ≡ true)
unfolding text_mem
all_iff p [] = (λ h s m. cc, λ h. refl)
all_iff p (x ∷ xs) = (
  λ h s m. elim (Bool-cases (text_eq s x)) [
    | inl e ↦ let same = (text_eq_iff s x).0 e in ground (arith, same)
    | inr e ↦ (all_iff p xs).0 (ground arith) s (ground arith)
  ],
  λ h.
      let rest = (all_iff p xs).1 (λ s m. h s (ground (arith, m))) in
      let one = h x (rw (text_eq_refl x) refl) in ground arith,
)

same_set_iff :
    (a b : List Bytes)
    → (same_set (distinct a) (distinct b) ≡ true) ↔ ((s : Bytes) → text_mem s a ≡ text_mem s b)
unfolding same_set
same_set_iff a b =
    let forth = all_iff (λ x. text_mem x (distinct b)) (distinct a) in
    let back = all_iff (λ y. text_mem y (distinct a)) (distinct b) in
    (
      λ h s.
          let f = forth.0 (ground arith) s in
          let g = back.0 (ground arith) s in
          ground (arith, f, g, text_mem-distinct s a, text_mem-distinct s b),
      λ h.
          let f =
            forth.1 (λ s m. text_mem-distinct s b ∙ sym (h s) ∙ sym (text_mem-distinct s a) ∙ m) in
          let g = back.1 (λ s m. text_mem-distinct s a ∙ h s ∙ sym (text_mem-distinct s b) ∙ m) in
          ground arith,
    )

-- the enumeration lists each name of the model once, and nothing else
abbrev pub IsExact : InventoryEnumeration → List Bytes → Type 0
IsExact e names =
    IsDistinct e.entries
    × IsDistinct names
    × ((s : Bytes) → text_mem s e.entries ≡ text_mem s names)

matches_names_iff :
    (e : InventoryEnumeration) (names : List Bytes)
    → (matches_names e names ≡ true) ↔ IsExact e names
unfolding matches_names
matches_names_iff e names =
    let a = distinct_iff e.entries in
    let b = distinct_iff names in
    let c = same_set_iff e.entries names in
    (
      λ h. (a.0 (ground arith), b.0 (ground arith), c.0 (ground arith)),
      λ (x, y, z). let p = a.1 x in let q = b.1 y in let r = c.1 z in ground arith,
    )

observed-not_complete :
    (kind : InventoryKind) (empty : Bool) (origin : Bytes)
    → (observed kind empty origin).completeness ≢ InventoryCompleteness.complete
unfolding observed
observed-not_complete kind true origin h = cc
observed-not_complete kind false origin h = cc

is_reliable_iff :
    (e : InventoryEnumeration)
    → (is_reliable e ≡ true) ↔ ((is_success e.status ≡ true) × (e.failure ≡ none))
unfolding is_reliable
is_reliable_iff e = elim (Option-cases e.failure) [
  | inl f ↦ ground (arith, f)
  | inr (r, f) ↦ ground (arith, f)
]

report_of_iff :
    (found : Option InventoryEnumeration) (kind : InventoryKind) (names : List Bytes)
    (origin : Bytes)
    → ((report_of found kind names origin).completeness ≡ InventoryCompleteness.complete) ↔ (
        (e : InventoryEnumeration) × (found ≡ some e)
        × ((is_success e.status ≡ true) × (e.failure ≡ none))
        × IsExact e names)
unfolding report_of
report_of_iff none kind names origin = (
  λ h. absurd (observed-not_complete kind (is_nil names) origin h),
  λ (e, there, good, exact). cc,
)
report_of_iff (some e) kind names origin =
    elim (Bool-cases (is_reliable e && matches_names e names)) [
      | inl k ↦ rw k (
        λ h. (
          e,
          refl,
          (is_reliable_iff e).0 (ground arith),
          (matches_names_iff e names).0 (ground arith),
        ),
        λ h. refl,
      )
      | inr k ↦ rw k (
        λ h. absurd (observed-not_complete kind (is_nil names) e.origin h),
        λ (d, there, good, exact).
            let same : e ≡ d = cc in
            let a = (is_reliable_iff d).1 good in
            let b = (matches_names_iff d names).1 exact in
            absurd (ground (arith, rw same at k, a, b)),
      )
    ]

-- The report that the helper `report` makes of a kind of inventory, for the names that it is given,
-- is `complete` exactly when the store has a single enumeration of that kind, which succeeded without
-- a failure, lists nothing twice, and lists just these names, none of which occurs twice.
pub report_iff :
    (raw : RawStore) (kind : InventoryKind) (names : List Bytes) (origin : Bytes)
    → ((report raw kind names origin).completeness ≡ InventoryCompleteness.complete) ↔ (
        (e : InventoryEnumeration) × (enumeration raw kind ≡ some e)
        × ((is_success e.status ≡ true) × (e.failure ≡ none))
        × IsExact e names)
unfolding report
report_iff raw kind names origin = report_of_iff (enumeration raw kind) kind names origin
