-- ===== src/Accelerator.antt =====
-- Accelerators and their queries: include/sysal/model/accelerator.hpp, src/model/resource.cpp and
-- src/parser/accelerator_evidence.hpp. A pointer into a list is the element.
pub mod Csv
pub mod Sycl
pub mod Selection
pub mod Visibility
use sysal.Prelude.{
  ◌==◌, if◌then◌else◌, get_elem?, keep, first, Bytes, codes, text_eq, ℕ, Bool, true, false, ◌||◌,
  Option, none, some, List, [], ◌∷◌, ◌++◌,
}
use sysal.Types.{AcceleratorKind}
use sysal.Pci.{PciAddress}

pub record AcceleratorDevice : Type 0 where
  pub id : ℕ
  pub kind : AcceleratorKind
  pub vendor : Bytes
  pub name : Bytes
  pub pci_address : Option PciAddress
  pub nearest_numa_node : Option ℕ
  pub memory_size : Option ℕ
  pub driver : Option ℕ
  pub visible_to_current_process : Bool
  pub uuid : Option Bytes
  pub parent_uuid : Option Bytes
  pub gpu_instance_id : Option ℕ
  pub compute_instance_id : Option ℕ

abbrev pub Accelerators : Type 0
Accelerators = List AcceleratorDevice

unfoldable kind_code : AcceleratorKind → ℕ
kind_code AcceleratorKind.gpu = 0
kind_code AcceleratorKind.npu = 1
kind_code AcceleratorKind.fpga = 2
kind_code AcceleratorKind.other = 3

unfoldable by_kind : Accelerators → AcceleratorKind → Accelerators
by_kind devices kind = keep (λ d. kind_code d.kind == kind_code kind) devices

unfoldable pub visible : Accelerators → Accelerators
visible devices = keep (λ d. d.visible_to_current_process) devices

unfoldable find_device : Accelerators → ℕ → Option AcceleratorDevice
find_device devices id = first (λ d. d.id == id) devices

pub data AcceleratorVendor : Type 0 where
  nvidia amd intel : AcceleratorVendor

unfoldable pub vendor_name : AcceleratorVendor → Bytes
vendor_name nvidia = codes "NVIDIA"
vendor_name amd = codes "AMD"
vendor_name intel = codes "Intel"

unfoldable accelerator_vendor : Bytes → Option AcceleratorVendor
accelerator_vendor name =
    if text_eq name (codes "NVIDIA")
    then some nvidia
    else if text_eq name (codes "AMD")
    then some amd
    else if text_eq name (codes "Intel")
    then some intel
    else none

unfoldable pub vendor_eq : AcceleratorVendor → AcceleratorVendor → Bool
vendor_eq nvidia nvidia = true
vendor_eq amd amd = true
vendor_eq intel intel = true
vendor_eq _ _ = false

pub record RuntimeVisibility : Type 0 where
  pub vendor : AcceleratorVendor
  pub visible_ids : List ℕ

-- positions in the list of devices
abbrev pub DeviceIndices : Type 0
DeviceIndices = List ℕ

-- a test of the device at a position; positions always lie in the list
unfoldable pub device_is : Accelerators → (AcceleratorDevice → Bool) → ℕ → Bool
device_is devices test index = elim (get_elem? devices index) [ none ↦ false | some d ↦ test d ]

unfoldable pub holds_index : DeviceIndices → ℕ → Bool
holds_index [] index = false
holds_index (i ∷ is) index = i == index || holds_index is index

-- `append_unique` of src/resolver/accelerator_selection.cpp
unfoldable pub append_unique : DeviceIndices → DeviceIndices → DeviceIndices
append_unique target [] = target
append_unique target (index ∷ source) =
    append_unique (if holds_index target index then target else target ++ index ∷ []) source
