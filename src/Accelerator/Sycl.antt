-- ===== src/Accelerator/Sycl.antt =====
-- ONEAPI_DEVICE_SELECTOR: `parse_sycl` and `select_sycl` of src/resolver/accelerator_selection.cpp.
use sysal.Prelude.{
  if◌then◌else◌, get_elem?, drop, any, all, keep, is_nil, is_some, Bytes, codes, text_eq, text_mem,
  starts_with, ◌>>=◌, ℕ, Bool, false, not, ◌&&◌, ◌||◌, Option, none, some, List, [], ◌∷◌, ◌++◌, map,
}
use sysal.Text.{to_lower, trim, split}
use sysal.Number.{parse_uint}
use sysal.Accelerator.{DeviceIndices, holds_index, append_unique}
use sysal.Accelerator.Csv.{Selected}

pub record SyclFilter : Type 0 where
  pub backend : Bytes
  pub selectors : List Bytes
  pub exclude : Bool

abbrev backends : List Bytes
backends =
    codes "*"
    ∷ codes "level_zero"
    ∷ codes "opencl"
    ∷ codes "cuda"
    ∷ codes "hip"
    ∷ codes "native_cpu"
    ∷ []

unfoldable pub is_selector : Bytes → Bool
is_selector s =
    text_eq s (codes "*")
    || text_eq s (codes "gpu")
    || text_eq s (codes "cpu")
    || is_some (parse_uint s)

unfoldable pub read_parts : List Bytes → Bool → Option SyclFilter
read_parts (backend ∷ selectors ∷ []) exclude =
    let names = map trim (split selectors b',') in
    if not (text_mem (trim backend) backends)
    then none
    else if not (all is_selector names)
    then none
    else some (record { backend = trim backend; selectors = names; exclude = exclude })
read_parts _ exclude = none

-- the loop over the clauses; the flag is `discarding`
unfoldable pub parse_clauses : List Bytes → Bool → Option (List SyclFilter)
parse_clauses [] discarding = some []
parse_clauses (clause ∷ clauses) discarding =
    let text = map to_lower (trim clause) in
    let exclude = starts_with text (b'!' ∷ []) in
    let body = if exclude then drop 1 text else text in
    let rest = parse_clauses clauses (discarding || exclude) in
    if not exclude && discarding
    then none
    else do filter ← read_parts (split body b':') exclude; filters ← rest; some (filter ∷ filters)

unfoldable pub parse_sycl : Bytes → Option (List SyclFilter)
parse_sycl value = parse_clauses (split value b';') false

-- the inner loop; `none` is the early return, for an ordinal that cannot be resolved
unfoldable pub match_selectors :
    DeviceIndices → Bool → Bytes → List Bytes → DeviceIndices → Option DeviceIndices
match_selectors candidates runtime_known backend [] matches = some matches
match_selectors candidates runtime_known backend (s ∷ selectors) matches =
    let everything =
      match_selectors candidates runtime_known backend selectors
        (append_unique matches candidates) in
    let skip = match_selectors candidates runtime_known backend selectors matches in
    let one = λ (index : ℕ).
      match_selectors candidates runtime_known backend selectors
        (append_unique matches (index ∷ [])) in
    if text_eq s (codes "gpu") || text_eq s (codes "*") then everything else elim (parse_uint s) [
      | none ↦ skip
      | some ordinal ↦
          if not (text_eq backend (codes "level_zero")) || not runtime_known
          then none
          else elim (get_elem? candidates ordinal) [ none ↦ skip | some index ↦ one index ]
    ]

unfoldable pub handles : SyclFilter → Bool
handles f =
    text_eq f.backend (codes "*")
    || text_eq f.backend (codes "level_zero")
    || text_eq f.backend (codes "opencl")

-- the loop over the filters; `none` is the early return
unfoldable pub apply_filters :
    DeviceIndices → Bool → List SyclFilter → DeviceIndices → Option DeviceIndices
apply_filters candidates runtime_known [] selected = some selected
apply_filters candidates runtime_known (f ∷ filters) selected =
    let next = λ (s : DeviceIndices). apply_filters candidates runtime_known filters s in
    if not (handles f) then next selected else do
      matches ← match_selectors candidates runtime_known f.backend f.selectors []
      next (
          if f.exclude
          then keep (λ index. not (holds_index matches index)) selected
          else append_unique selected matches)

abbrev unsupported_warning : Bytes
unsupported_warning =
    codes "[visibility] unsupported ONEAPI_DEVICE_SELECTOR; Intel selection left unchanged"

abbrev ordinal_warning : Bytes
ordinal_warning =
    codes "[visibility] SYCL backend ordinal unavailable; Intel selection left unchanged"

unfoldable pub select_sycl : DeviceIndices → Bytes → Bool → List Bytes → Selected
select_sycl candidates value runtime_known warnings =
    if is_nil (trim value) then ([], warnings) else elim (parse_sycl value) [
      | none ↦ (candidates, warnings ++ unsupported_warning ∷ [])
      | some filters ↦
          let has_accept = any (λ f. not f.exclude) filters in
          elim (apply_filters candidates runtime_known filters
            (if has_accept then [] else candidates)) [
              | none ↦ (candidates, warnings ++ ordinal_warning ∷ [])
              | some selected ↦ (selected, warnings)
            ]
    ]
