-- ===== src/Accelerator/Csv.antt =====
-- Comma-separated selectors: `matches_uuid` and `select_csv` of
-- src/resolver/accelerator_selection.cpp.
use sysal.Prelude.{
  ◌==◌, if◌then◌else◌, length, get_elem?, keep, is_nil, Bytes, codes, text_eq, starts_with, ◌>>=◌,
  ℕ, Bool, false, not, ◌&&◌, ◌||◌, Option, none, some, List, [], ◌∷◌, ◌++◌,
}
use sysal.Text.{trim, split}
use sysal.Number.{parse_uint, to_string}
use sysal.Accelerator.{AcceleratorDevice, Accelerators, DeviceIndices, device_is, append_unique}

pub data OrdinalOrder : Type 0 where
  candidate physical_id : OrdinalOrder

-- the name of a MIG instance in the older form; `none` if a part is unknown
unfoldable pub legacy_name : AcceleratorDevice → Option Bytes
legacy_name d = do
  parent ← d.parent_uuid
  gpu_instance ← d.gpu_instance_id
  compute_instance ← d.compute_instance_id
  some
      (codes "MIG-" ++ parent ++ b'/' ∷ to_string gpu_instance ++ b'/' ∷ to_string compute_instance)

unfoldable pub option_is : Option Bytes → (Bytes → Bool) → Bool
option_is none test = false
option_is (some s) test = test s

unfoldable pub matches_uuid : Bytes → AcceleratorDevice → Bool
matches_uuid token d =
    option_is d.uuid (λ u. starts_with u token) || option_is (legacy_name d) (λ n. text_eq n token)

unfoldable pub is_uuid : Bytes → Bool
is_uuid token = starts_with token (codes "GPU-") || starts_with token (codes "MIG-")

-- the devices that an ordinal selects
unfoldable pub match_ordinal : Accelerators → DeviceIndices → OrdinalOrder → ℕ → DeviceIndices
match_ordinal devices pool candidate number = elim (get_elem? pool number) [
  | none ↦ []
  | some index ↦ index ∷ []
]
match_ordinal devices pool physical_id number = keep (device_is devices (λ d. d.id == number)) pool

unfoldable pub match_token :
    Accelerators → DeviceIndices → DeviceIndices → OrdinalOrder → Bytes → DeviceIndices
match_token devices pool uuid_pool order token = elim (parse_uint token) [
  | some number ↦ match_ordinal devices pool order number
  | none ↦ if is_uuid token then keep (device_is devices (matches_uuid token)) uuid_pool else []
]

unfoldable pub selector_warning : Bytes → Bytes → Bytes
selector_warning variable token =
    codes "[visibility] "
    ++ variable
    ++ codes ": invalid or ambiguous selector '"
    ++ token
    ++ codes "'; later entries ignored"

abbrev pub Selected : Type 0
Selected = DeviceIndices × List Bytes

module _ (devices : Accelerators) (pool uuid_pool : DeviceIndices) (variable : Bytes)
    (order : OrdinalOrder) where
  -- the loop over the entries; the results are the selection and the warnings
  unfoldable pub select_parts : List Bytes → DeviceIndices → List Bytes → Selected
  select_parts [] selected warnings = (selected, warnings)
  select_parts (part ∷ parts) selected warnings =
      let token = trim part in
      let matches = match_token devices pool uuid_pool order token in
      let rest = select_parts parts (append_unique selected matches) warnings in
      if text_eq token (codes "-1") || text_eq token (codes "none")
      then (selected, warnings)
      else if is_nil matches || (is_uuid token && not (length matches == 1))
      then (selected, warnings ++ selector_warning variable token ∷ [])
      else rest

  unfoldable pub select_csv : Bytes → List Bytes → Selected
  select_csv value warnings =
      if is_nil (trim value) then ([], warnings) else select_parts (split value b',') [] warnings
