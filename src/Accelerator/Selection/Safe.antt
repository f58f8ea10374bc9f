-- ===== src/Accelerator/Selection/Safe.antt =====
-- The selectors of src/resolver/accelerator_selection.cpp and the pool that they select from.
use sysal.Prelude.{
  ◌==◌, Bool-cases, Option-cases, length, get_elem?, keep, is_nil, Bytes, codes, text_eq, ℕ, zero,
  suc, ◌≡◌, inl, inr, Bool, true, not, ◌&&◌, ◌||◌, Option, none, some, List, [], ◌∷◌, arith,
}
use sysal.Text.{trim, split}
use sysal.Number.{parse_uint}
use sysal.Accelerator.{Accelerators, DeviceIndices, holds_index, append_unique}
use sysal.Accelerator.Csv.{
  OrdinalOrder, candidate, physical_id, is_uuid, match_ordinal, match_token, select_parts,
  select_csv,
}
use sysal.Accelerator.Sycl.{SyclFilter, match_selectors, handles, apply_filters}
use sysal.Accelerator.Selection.Subset.{
  Within, IsUnique, Within-trans, Within-refl, Within-append_unique, IsUnique-append_unique,
  Within-keep, IsUnique-keep,
}

abbrev pub IsSafe : DeviceIndices → DeviceIndices → Type 0
IsSafe pool xs = Within pool xs × IsUnique xs

holds_index-get_elem? :
    (xs : DeviceIndices) (n i : ℕ) → get_elem? xs n ≡ some i → holds_index xs i ≡ true
unfolding holds_index
holds_index-get_elem? [] n i h = cc
holds_index-get_elem? (x ∷ xs) zero i h = ground arith
holds_index-get_elem? (x ∷ xs) (suc n) i h = ground (arith, holds_index-get_elem? xs n i h)

module _ (devices : Accelerators) (pool uuid_pool : DeviceIndices) (variable : Bytes)
    (order : OrdinalOrder) where
  match_ordinal-Within : (number : ℕ) → Within pool (match_ordinal devices pool order number)
  match_ordinal-Within number = go order
    where
      go : (o : OrdinalOrder) → Within pool (match_ordinal devices pool o number)
      go candidate =
          unfold match_ordinal in
          elim (Option-cases (get_elem? pool number)) [
            | inl e ↦ rw (e, match_ordinal) tt
            | inr (i, e) ↦ rw (e, match_ordinal) (holds_index-get_elem? pool number i e, tt)
          ]
      go physical_id = unfold match_ordinal in Within-keep _ pool pool (Within-refl pool)

  match_token-Within :
      (token : Bytes)
      → Within uuid_pool pool
      → Within uuid_pool (match_token devices pool uuid_pool order token)
  unfolding match_token
  match_token-Within token h = elim (Option-cases (parse_uint token)) [
    | inr (n, e) ↦
        rw (e, match_token)
          (Within-trans uuid_pool pool (match_ordinal devices pool order n) h
            (match_ordinal-Within n))
    | inl e ↦
        rw (e, match_token)
          (elim (Bool-cases (is_uuid token)) [
            | inl u ↦ rw u (Within-keep _ uuid_pool uuid_pool (Within-refl uuid_pool))
            | inr u ↦ rw u tt
          ])
  ]

  select_parts-IsSafe :
      (parts : List Bytes) (selected : DeviceIndices) (warnings : List Bytes)
      → Within uuid_pool pool
      → IsSafe uuid_pool selected
      → IsSafe uuid_pool
          (select_parts devices pool uuid_pool variable order parts selected warnings).0
  unfolding select_parts
  select_parts-IsSafe [] selected warnings h s = s
  select_parts-IsSafe (part ∷ parts) selected warnings h s =
      let token = trim part in
      let matches = match_token devices pool uuid_pool order token in
      let next = append_unique selected matches in
      let safe : IsSafe uuid_pool next = (
        Within-append_unique uuid_pool selected matches s.0 (match_token-Within token h),
        IsUnique-append_unique selected matches s.1,
      ) in
      let rest = select_parts-IsSafe parts next warnings h safe in
      elim (Bool-cases (text_eq token (codes "-1") || text_eq token (codes "none"))) [
        | inl e ↦ rw e s
        | inr e ↦
            rw e
              (elim (Bool-cases (is_nil matches || (is_uuid token && not (length matches == 1)))) [
                | inl k ↦ rw k s
                | inr k ↦ rw k rest
              ])
      ]

  pub select_csv-IsSafe :
      (value : Bytes) (warnings : List Bytes)
      → Within uuid_pool pool
      → IsSafe uuid_pool (select_csv devices pool uuid_pool variable order value warnings).0
  unfolding select_csv
  select_csv-IsSafe value warnings h = elim (Bool-cases (is_nil (trim value))) [
    | inl e ↦ rw e (tt, tt)
    | inr e ↦ rw e (select_parts-IsSafe (split value b',') [] warnings h (tt, tt))
  ]

-- what is returned, if anything is
abbrev pub Returned : (DeviceIndices → Type 0) → Option DeviceIndices → Type 0
Returned P none = Unit {0}
Returned P (some r) = P r

module _ (candidates : DeviceIndices) (runtime_known : Bool) where
  match_selectors-Within :
      (backend : Bytes) (selectors : List Bytes) (matches : DeviceIndices)
      → Within candidates matches
      → Returned
          (Within candidates)
          (match_selectors candidates runtime_known backend selectors matches)
  unfolding match_selectors
  match_selectors-Within backend [] matches h = h
  match_selectors-Within backend (s ∷ selectors) matches h =
      let everything =
        match_selectors-Within backend selectors (append_unique matches candidates)
          (Within-append_unique candidates matches candidates h (Within-refl candidates)) in
      let skip = match_selectors-Within backend selectors matches h in
      let one = λ (index : ℕ) (there : holds_index candidates index ≡ true).
        match_selectors-Within backend selectors (append_unique matches (index ∷ []))
          (Within-append_unique candidates matches (index ∷ []) h (there, tt)) in
      elim (Bool-cases (text_eq s (codes "gpu") || text_eq s (codes "*"))) [
        | inl e ↦ rw e everything
        | inr e ↦ elim (Option-cases (parse_uint s)) [
          | inl p ↦ rw (e, p, match_selectors) skip
          | inr (n, p) ↦
              elim (Bool-cases (not (text_eq backend (codes "level_zero")) || not runtime_known)) [
                | inl k ↦ rw (e, p, match_selectors) (rw k tt)
                | inr k ↦ elim (Option-cases (get_elem? candidates n)) [
                  | inl g ↦ rw (e, p, match_selectors) (rw (k, g) skip)
                  | inr (index, g) ↦
                      rw (e, p, match_selectors)
                        (rw (k, g) (one index (holds_index-get_elem? candidates n index g)))
                ]
              ]
        ]
      ]

  pub apply_filters-IsSafe :
      (filters : List SyclFilter) (selected : DeviceIndices)
      → IsSafe candidates selected
      → Returned (IsSafe candidates) (apply_filters candidates runtime_known filters selected)
  unfolding apply_filters
  apply_filters-IsSafe [] selected h = h
  apply_filters-IsSafe (f ∷ filters) selected h =
      let found = match_selectors candidates runtime_known f.backend f.selectors [] in
      let within = match_selectors-Within f.backend f.selectors [] tt in
      let next =
        λ (s : DeviceIndices) (k : IsSafe candidates s). apply_filters-IsSafe filters s k in
      elim (Bool-cases (not (handles f))) [
        | inl e ↦ rw e (next selected h)
        | inr e ↦ elim (Option-cases found) [
          | inl m ↦ rw (e, m, apply_filters) tt
          | inr (matches, m) ↦ elim (Bool-cases f.exclude) [
            | inl x ↦
                rw (e, m, apply_filters)
                  (rw x (
                    next (keep (λ index. not (holds_index matches index)) selected)
                      (Within-keep _ candidates selected h.0, IsUnique-keep _ selected h.1)))
            | inr x ↦
                rw (e, m, apply_filters)
                  (rw x (
                    next (append_unique selected matches) (
                      Within-append_unique candidates selected matches h.0 (rw m at within),
                      IsUnique-append_unique selected matches h.1,
                    )))
          ]
        ]
      ]
