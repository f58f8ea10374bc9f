-- ===== src/Accelerator/Visibility.antt =====
-- Which accelerators the process sees: src/resolver/accelerator_visibility.cpp.
pub mod Result
use sysal.Prelude.{
  ltb, ◌==◌, if◌then◌else◌, get_elem?, any, is_nil, is_some, get_or, Bytes, codes, text_eq,
  text_mem, ℕ, zero, suc, ◌+◌, Bool, true, false, not, ◌&&◌, ◌||◌, Option, none, some, List, [],
  ◌∷◌, ◌++◌,
}
use sysal.Number.{to_string}
use sysal.Execution.{ExecutionContext}
use sysal.Accelerator.{
  AcceleratorDevice, Accelerators, AcceleratorVendor, nvidia, amd, intel, vendor_name, vendor_eq,
  RuntimeVisibility, DeviceIndices, device_is, holds_index,
}
use sysal.Accelerator.Selection.{sort_by, chosen, select_accelerator_environment}

abbrev selection_variables : List Bytes
selection_variables =
    codes "CUDA_VISIBLE_DEVICES"
    ∷ codes "HIP_VISIBLE_DEVICES"
    ∷ codes "ROCR_VISIBLE_DEVICES"
    ∷ codes "ZE_AFFINITY_MASK"
    ∷ codes "ONEAPI_DEVICE_SELECTOR"
    ∷ []

unfoldable pub has_selection_environment : List (Bytes × Bytes) → Bool
has_selection_environment entries = any (λ e. text_mem e.0 selection_variables) entries

-- `operator==` of `std::optional<std::string>`
unfoldable pub option_eq : Option Bytes → Option Bytes → Bool
option_eq none none = true
option_eq (some s) (some t) = text_eq s t
option_eq _ _ = false

unfoldable pub has_children : Accelerators → AcceleratorDevice → Bool
has_children devices parent =
    is_some parent.uuid && any (λ child. option_eq child.parent_uuid parent.uuid) devices

-- the positions, from `index` on, of the devices that pass a test
unfoldable pub positions : (AcceleratorDevice → Bool) → Accelerators → ℕ → DeviceIndices
positions test [] index = []
positions test (d ∷ ds) index =
    let rest = positions test ds (index + 1) in if test d then index ∷ rest else rest

unfoldable pub positions_of_ids : Accelerators → List ℕ → DeviceIndices
positions_of_ids devices [] = []
positions_of_ids devices (id ∷ ids) =
    positions (λ d. d.id == id) devices 0 ++ positions_of_ids devices ids

-- the first observation of the vendor
unfoldable pub runtime_indices :
    Accelerators → AcceleratorVendor → List RuntimeVisibility → Option DeviceIndices
runtime_indices devices vendor [] = none
runtime_indices devices vendor (o ∷ os) =
    if vendor_eq o.vendor vendor
    then some (positions_of_ids devices o.visible_ids)
    else runtime_indices devices vendor os

-- a selected device has the parent's UUID
unfoldable pub via_parent : Accelerators → DeviceIndices → AcceleratorDevice → Bool
via_parent devices selected d =
    is_some d.parent_uuid
    && any (device_is devices (λ parent. option_eq parent.uuid d.parent_uuid)) selected

unfoldable pub selected_visible : Accelerators → DeviceIndices → ℕ → AcceleratorDevice → Bool
selected_visible devices selected index d =
    (holds_index selected index || via_parent devices selected d) && not (has_children devices d)

abbrev pub show_device : AcceleratorDevice → Bool → AcceleratorDevice
show_device d v = record d { visible_to_current_process = v }

-- an assignment to the device at a position
unfoldable pub update_at : (AcceleratorDevice → AcceleratorDevice) → Accelerators → ℕ → Accelerators
update_at f [] index = []
update_at f (d ∷ ds) zero = f d ∷ ds
update_at f (d ∷ ds) (suc index) = d ∷ update_at f ds index

-- the loop over the candidates
unfoldable pub apply_selection : Accelerators → DeviceIndices → DeviceIndices → Accelerators
apply_selection devices [] selected = devices
apply_selection devices (index ∷ candidates) selected =
    apply_selection
      (update_at (λ d. show_device d (selected_visible devices selected index d)) devices index)
      candidates selected

unfoldable pub mismatch_warning : ℕ → Bytes
mismatch_warning id =
    codes "[visibility_mismatch] accelerator_"
    ++ to_string id
    ++ codes ": in_visible_accelerator_ids but accelerator does not exist in model"

-- the listed ids that no device has
unfoldable pub phantom_warnings : Accelerators → List ℕ → List Bytes
phantom_warnings devices [] = []
phantom_warnings devices (id ∷ ids) =
    let rest = phantom_warnings devices ids in
    if any (λ d. d.id == id) devices then rest else mismatch_warning id ∷ rest

unfoldable pub id_before : Accelerators → ℕ → ℕ → Bool
id_before devices left right = elim (get_elem? devices left) [
  | none ↦ false
  | some l ↦ elim (get_elem? devices right) [ none ↦ false | some r ↦ ltb l.id r.id ]
]

-- one round of the loop over the vendors
unfoldable pub select_vendor :
    ExecutionContext
    → List RuntimeVisibility
    → AcceleratorVendor
    → Accelerators × List Bytes
    → Accelerators × List Bytes
select_vendor execution runtime vendor (devices, warnings) =
    let candidates =
      sort_by (id_before devices)
        (positions (λ d. text_eq d.vendor (vendor_name vendor)) devices 0) in
    let observed = runtime_indices devices vendor runtime in
    let (selection, noted) =
      select_accelerator_environment devices (get_or observed candidates) execution.environ.entries
        vendor (is_some observed) warnings in
    (
      elim selection [
        | some chosen ↦ apply_selection devices candidates chosen
        | none ↦ elim observed [
          | some seen ↦ apply_selection devices candidates seen
          | none ↦ devices
        ]
      ],
      noted,
    )

-- the first value of every device's flag
unfoldable pub initial_visibility : Accelerators → Bool → List ℕ → Accelerators → Accelerators
initial_visibility devices has_environment legacy_ids [] = []
initial_visibility devices has_environment legacy_ids (d ∷ ds) =
    show_device d (
      not (has_children devices d)
      && (has_environment || is_nil legacy_ids || holds_index legacy_ids d.id))
    ∷ initial_visibility devices has_environment legacy_ids ds

unfoldable pub visible_ids_of : Accelerators → List ℕ
visible_ids_of [] = []
visible_ids_of (d ∷ ds) =
    let rest = visible_ids_of ds in if d.visible_to_current_process then d.id ∷ rest else rest

pub record Resolved : Type 0 where
  pub devices : Accelerators
  pub execution : ExecutionContext
  pub warnings : List Bytes

unfoldable pub resolve_accelerator_visibility :
    Accelerators → ExecutionContext → List Bytes → List RuntimeVisibility → Resolved
resolve_accelerator_visibility devices execution warnings runtime =
    let legacy_ids = execution.visible_accelerator_ids in
    let has_environment = has_selection_environment execution.environ.entries in
    let noted =
      if has_environment then warnings else warnings ++ phantom_warnings devices legacy_ids in
    let shown = initial_visibility devices has_environment legacy_ids devices in
    let (final, all_warnings) = select_vendor execution runtime intel (
      select_vendor execution runtime amd
        (select_vendor execution runtime nvidia (shown, noted))) in
    record {
      devices = final;
      execution = record execution {
        accelerator_visibility_restricted = has_environment || not (is_nil legacy_ids);
        visible_accelerator_ids = visible_ids_of final;
      };
      warnings = all_warnings;
    }
