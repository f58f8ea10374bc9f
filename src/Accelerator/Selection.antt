-- ===== src/Accelerator/Selection.antt =====
-- `select_accelerator_environment` of src/resolver/accelerator_selection.cpp.
pub mod Subset
pub mod Safe
pub mod Narrow
use sysal.Prelude.{
  ltb, ◌==◌, if◌then◌else◌, get_elem?, keep, is_nil, is_some, Bytes, codes, text_eq, ◌>>=◌, ℕ, Bool,
  true, false, not, ◌&&◌, ◌||◌, Option, none, some, List, [], ◌∷◌, ◌++◌,
}
use sysal.Text.{find}
use sysal.Pci.{PciAddress}
use sysal.Accelerator.{
  AcceleratorDevice, Accelerators, AcceleratorVendor, nvidia, amd, intel, DeviceIndices, device_is,
}
use sysal.Accelerator.Csv.{candidate, physical_id, option_is, select_csv}
use sysal.Accelerator.Sycl.{select_sycl}

-- the first variable of a name
unfoldable pub variable_of : List (Bytes × Bytes) → Bytes → Option Bytes
variable_of [] name = none
variable_of ((key, value) ∷ entries) name =
    if text_eq key name then some value else variable_of entries name

-- `std::sort`; where the order leaves two elements equal, their order is that of the list
unfoldable pub insert_by : (ℕ → ℕ → Bool) → ℕ → List ℕ → List ℕ
insert_by less x [] = x ∷ []
insert_by less x (y ∷ ys) = if less y x then y ∷ insert_by less x ys else x ∷ y ∷ ys

unfoldable pub sort_by : (ℕ → ℕ → Bool) → List ℕ → List ℕ
sort_by less [] = []
sort_by less (x ∷ xs) = insert_by less x (sort_by less xs)

-- `std::tie(…) < std::tie(…)`
unfoldable pub pci_lt : PciAddress → PciAddress → Bool
pci_lt a b =
    ltb a.domain b.domain
    || (a.domain == b.domain
        && (ltb a.bus b.bus
            || (a.bus == b.bus
                && (ltb a.device b.device || (a.device == b.device && ltb a.function b.function)))))

unfoldable pub address_of : Accelerators → ℕ → Option PciAddress
address_of devices index = do d ← get_elem? devices index; d.pci_address

-- the comparison of two devices by their PCI addresses
unfoldable pub before_in_pci : Accelerators → ℕ → ℕ → Bool
before_in_pci devices left right = elim (address_of devices left) [
  | some a ↦ elim (address_of devices right) [ some b ↦ pci_lt a b | none ↦ true ]
  | none ↦ elim (address_of devices right) [ some b ↦ false | none ↦ ltb left right ]
]

abbrev pub cuda_warning : Bytes
cuda_warning =
    codes
      "[visibility] CUDA runtime unavailable; visibility inferred from inventory and environment"

abbrev pub hip_warning : Bytes
hip_warning = codes "[visibility] HIP runtime unavailable; AMD ordinals use DRM inventory order"

abbrev mask_warning : Bytes
mask_warning =
    codes "[visibility] Level Zero subdevice mask unavailable; Intel selection left unchanged"

-- no filter, or the selection; and the warnings
abbrev Choice : Type 0
Choice = Option DeviceIndices × List Bytes

unfoldable pub is_physical : AcceleratorDevice → Bool
is_physical d = not (is_some d.parent_uuid)

module _ (devices : Accelerators) (candidates : DeviceIndices)
    (entries : List (Bytes × Bytes)) where
  unfoldable pub select_nvidia : Bool → List Bytes → Choice
  select_nvidia runtime_known warnings = elim (variable_of entries (codes "CUDA_VISIBLE_DEVICES")) [
    | none ↦ (none, warnings)
    | some value ↦
        if runtime_known
        then (none, warnings)
        else let physical = keep (device_is devices is_physical) candidates in
          let pci_order =
            option_is (variable_of entries (codes "CUDA_DEVICE_ORDER"))
              (λ v. text_eq v (codes "PCI_BUS_ID")) in
          let ordered = if pci_order then sort_by (before_in_pci devices) physical else physical in
          let warned = if is_nil candidates then warnings else warnings ++ cuda_warning ∷ [] in
          let (selected, noted) =
            select_csv devices ordered candidates (codes "CUDA_VISIBLE_DEVICES")
              (if pci_order then candidate else physical_id) value warned in
          (some selected, noted)
  ]

  -- the lambda `apply`: a variable narrows what is selected; the flag says whether one has
  unfoldable pub apply_variable :
      Bytes → DeviceIndices × Bool × List Bytes → DeviceIndices × Bool × List Bytes
  apply_variable name (selected, filtered, warnings) = elim (variable_of entries name) [
    | none ↦ (selected, filtered, warnings)
    | some value ↦
        let (s, w) = select_csv devices selected selected name candidate value warnings in
        (s, true, w)
  ]

  unfoldable pub chosen : DeviceIndices × Bool × List Bytes → Choice
  chosen (selected, filtered, warnings) = (if filtered then some selected else none, warnings)

  unfoldable pub select_amd : Bool → List Bytes → Choice
  select_amd true warnings = (none, warnings)
  select_amd false warnings =
      let (selected, filtered, noted) =
        apply_variable (codes "HIP_VISIBLE_DEVICES")
          (apply_variable (codes "ROCR_VISIBLE_DEVICES") (candidates, false, warnings)) in
      chosen (selected, filtered, if filtered then noted ++ hip_warning ∷ [] else noted)

  -- a mask with a dot names subdevices
  unfoldable pub apply_mask :
      Bool → DeviceIndices × Bool × List Bytes → DeviceIndices × Bool × List Bytes
  apply_mask true s = s
  apply_mask false (selected, filtered, warnings) =
      if option_is (variable_of entries (codes "ZE_AFFINITY_MASK")) (λ m. is_some (find m b'.'))
      then (selected, filtered, warnings ++ mask_warning ∷ [])
      else apply_variable (codes "ZE_AFFINITY_MASK") (selected, filtered, warnings)

  unfoldable pub apply_selector :
      Bool → DeviceIndices × Bool × List Bytes → DeviceIndices × Bool × List Bytes
  apply_selector runtime_known (selected, filtered, warnings) =
      elim (variable_of entries (codes "ONEAPI_DEVICE_SELECTOR")) [
        | none ↦ (selected, filtered, warnings)
        | some value ↦
            let (s, w) = select_sycl selected value runtime_known warnings in (s, true, w)
      ]

  unfoldable pub select_intel : Bool → List Bytes → Choice
  select_intel runtime_known warnings =
      chosen (apply_selector runtime_known (apply_mask runtime_known (candidates, false, warnings)))

  unfoldable pub select_accelerator_environment : AcceleratorVendor → Bool → List Bytes → Choice
  select_accelerator_environment nvidia = select_nvidia
  select_accelerator_environment amd = select_amd
  select_accelerator_environment intel = select_intel
