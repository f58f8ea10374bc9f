-- ===== src/PciDevices.antt =====
-- PCI devices: include/sysal/model/pci.hpp, the fields of src/parser/pci.cpp that come from sysfs,
-- and `Pci::find` of src/model/resource.cpp. The warnings are passed along.
pub mod Lspci
pub mod Merge
pub mod Table
pub mod Refines
pub mod Addresses
use sysal.Prelude.{
  ltb, ◌==◌, if◌then◌else◌, length, take, drop, first, get_or, Bytes, codes, text_eq, starts_with,
  ℕ, Bool, false, not, ◌&&◌, Option, none, some, List, [], ◌∷◌, ◌++◌,
}
use sysal.Prelude.Maps.{utf8, update_key}
use sysal.Types.{is_success}
use sysal.Text.{trim, split, find, extract_filename, hardware_text}
use sysal.Number.{parse_u32}
use sysal.Pci.{PciAddress, pci_eq, parse_pci_address}
use sysal.CpuList.{parse_cpu_id_list}
use sysal.RawStore.{RawRecord}

pub record PciDevice : Type 0 where
  pub address : PciAddress
  pub vendor : Bytes
  pub device_name : Bytes
  pub device_class : Bytes
  pub numa_node : Option ℕ
  pub physical_slot : Bytes
  pub firmware_label : Bytes
  pub current_link_speed : Bytes
  pub max_link_speed : Bytes
  pub current_link_width : Option ℕ
  pub max_link_width : Option ℕ
  pub upstream_address : Option PciAddress
  pub physical_function : Option PciAddress
  pub driver_name : Bytes
  pub local_cpus : List ℕ
  pub maximum_virtual_functions : Option ℕ
  pub enabled_virtual_functions : Option ℕ

-- the other fields have their default values
abbrev pub new_device : PciAddress → PciDevice
new_device address = record {
  address = address;
  vendor = [];
  device_name = [];
  device_class = [];
  numa_node = none;
  physical_slot = [];
  firmware_label = [];
  current_link_speed = [];
  max_link_speed = [];
  current_link_width = none;
  max_link_width = none;
  upstream_address = none;
  physical_function = none;
  driver_name = [];
  local_cpus = [];
  maximum_virtual_functions = none;
  enabled_virtual_functions = none;
}

-- `Pci::find`
unfoldable pub find_device : List PciDevice → PciAddress → Option PciDevice
find_device devices address = first (λ d. pci_eq d.address address) devices

abbrev device_prefix : Bytes
device_prefix = codes "/sys/bus/pci/devices/"

unfoldable pub extract_pci_address_from_path : Bytes → Bytes
extract_pci_address_from_path path =
    let behind = drop (length device_prefix) path in
    if starts_with path device_prefix
    then elim (find behind b'/') [ none ↦ behind | some end ↦ take end behind ]
    else []

-- the last two components of a path
unfoldable pub last_two : List Bytes → Option (Bytes × Bytes)
last_two [] = none
last_two (parent ∷ []) = none
last_two (parent ∷ child ∷ []) = some (parent, child)
last_two (a ∷ b ∷ c ∷ rest) = last_two (b ∷ c ∷ rest)

-- `parse_pci_address(child) == address`
unfoldable pub is_address : Option PciAddress → PciAddress → Bool
is_address none address = false
is_address (some found) address = pci_eq found address

unfoldable pub set_upstream : Option (Bytes × Bytes) → PciDevice → PciDevice
set_upstream none dev = dev
set_upstream (some (parent, child)) dev =
    if is_address (parse_pci_address child) dev.address
    then record dev { upstream_address = parse_pci_address parent }
    else dev

-- a count of virtual functions; a number that does not fit leaves the field as it is
unfoldable pub read_count : Bytes → Option ℕ → Option ℕ
read_count payload old = elim (parse_u32 (trim payload)) [ none ↦ old | some number ↦ some number ]

-- the width of a link; 0 and 255 say that it is unknown
unfoldable pub read_width : Bytes → Option ℕ → Option ℕ
read_width payload old = elim (parse_u32 (trim payload)) [
  | none ↦ old
  | some number ↦ if ltb 0 number && not (number == 255) then some number else old
]

-- the branches of the loop over the records of one device, but for `numa_node`
unfoldable pub set_field : Bytes → Bytes → PciDevice → PciDevice
set_field filename payload dev =
    if text_eq filename (codes "vendor")
    then record dev { vendor = trim payload }
    else if text_eq filename (codes "device")
    then record dev { device_name = trim payload }
    else if text_eq filename (codes "class")
    then record dev { device_class = trim payload }
    else if text_eq filename (codes "physical_slot")
    then record dev { physical_slot = hardware_text payload }
    else if text_eq filename (codes "label")
    then record dev { firmware_label = hardware_text payload }
    else if text_eq filename (codes "sysfs_path")
    then set_upstream (last_two (split (trim payload) b'/')) dev
    else if text_eq filename (codes "physfn")
    then record dev { physical_function = parse_pci_address (extract_filename (trim payload)) }
    else if text_eq filename (codes "driver")
    then record dev { driver_name = extract_filename (trim payload) }
    else if text_eq filename (codes "local_cpulist")
    then record dev { local_cpus = get_or (parse_cpu_id_list payload) dev.local_cpus }
    else if text_eq filename (codes "sriov_totalvfs")
    then record dev { maximum_virtual_functions = read_count payload dev.maximum_virtual_functions }
    else if text_eq filename (codes "sriov_numvfs")
    then record dev { enabled_virtual_functions = read_count payload dev.enabled_virtual_functions }
    else if text_eq filename (codes "current_link_speed")
    then record dev { current_link_speed = hardware_text payload }
    else if text_eq filename (codes "max_link_speed")
    then record dev { max_link_speed = hardware_text payload }
    else if text_eq filename (codes "current_link_width")
    then record dev { current_link_width = read_width payload dev.current_link_width }
    else if text_eq filename (codes "max_link_width")
    then record dev { max_link_width = read_width payload dev.max_link_width }
    else dev

abbrev numa_warning : Bytes → Bytes
numa_warning text = utf8 "parse_pci: numa_node 值解析失败: " ++ text

-- the NUMA node of a device, or the warning; `none` keeps the field
unfoldable pub read_numa : Bytes → Option ℕ → Option ℕ × List Bytes
read_numa trimmed old = elim (parse_u32 trimmed) [
  | some node ↦ (some node, [])
  | none ↦ if text_eq trimmed (codes "-1") then (none, []) else (old, numa_warning trimmed ∷ [])
]

unfoldable pub add_record : RawRecord → PciDevice × List Bytes → PciDevice × List Bytes
unfolding read_numa set_field
add_record rec (dev, warnings) =
    let filename = extract_filename rec.path_or_command in
    if text_eq filename (codes "numa_node")
    then (let numa = read_numa (trim rec.payload) dev.numa_node in
        (record dev { numa_node = numa.0 }, warnings ++ numa.1))
    else (set_field filename rec.payload dev, warnings)

unfoldable pub add_records : List RawRecord → PciDevice × List Bytes → PciDevice × List Bytes
unfolding add_record
add_records [] state = state
add_records (rec ∷ records) state = add_records records (add_record rec state)

-- the records that succeeded, grouped by the address text of their paths
unfoldable pub group_records :
    List RawRecord → List (Bytes × List RawRecord) → List (Bytes × List RawRecord)
group_records [] groups = groups
group_records (rec ∷ records) groups = group_records records (
    if is_success rec.status
    then update_key (extract_pci_address_from_path rec.path_or_command)
        (λ old. get_or old [] ++ rec ∷ []) groups
    else groups)
