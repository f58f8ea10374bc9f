-- ===== src/PciDevices/Merge.antt =====
-- `parse_pci` of src/parser/pci.cpp: the devices of sysfs, and the names of lspci merged into them
-- over an index from the address texts to the positions of the devices.
use sysal.Prelude.{
  if◌then◌else◌, length, is_nil, is_some, Bytes, ℕ, zero, suc, Bool, not, ◌&&◌, Option, none, some,
  List, [], ◌∷◌, ◌++◌,
}
use sysal.Prelude.Maps.{utf8, lookup_key, update_key}
use sysal.Types.{RawSource, is_success}
use sysal.Text.{split}
use sysal.Pci.{PciAddress, parse_pci_address}
use sysal.RawStore.{InventoryKind, RawRecord, RawStore, enumeration, get_all}
use sysal.PciDevices.{PciDevice, new_device, add_records, group_records}
use sysal.PciDevices.Lspci.{parse_lspci_line}

pub record PciState : Type 0 where
  pub devices : List PciDevice
  pub addr_index : List (Bytes × ℕ)
  pub warnings : List Bytes

abbrev address_warning : Bytes → Bytes
address_warning addr_str = utf8 "parse_pci: 无法解析 PCI 地址: " ++ addr_str

abbrev pub lspci_only_warning : Bytes → Bytes
lspci_only_warning addr_str = utf8 "parse_pci: lspci 独有设备 " ++ addr_str ++ utf8 "，sysfs 数据缺失"

-- a device goes to the end, and its position into the index
unfoldable pub push_device : Bytes → PciDevice → List Bytes → PciState → PciState
push_device addr_str dev warnings st = record {
  devices = st.devices ++ dev ∷ [];
  addr_index = update_key addr_str (λ old. length st.devices) st.addr_index;
  warnings = warnings;
}

unfoldable pub add_group : Bytes → List RawRecord → PciState → PciState
unfolding push_device
add_group addr_str records st = elim (parse_pci_address addr_str) [
  | none ↦ record st { warnings = st.warnings ++ address_warning addr_str ∷ [] }
  | some address ↦
      let built = add_records records (new_device address, st.warnings) in
      push_device addr_str built.0 built.1 st
]

unfoldable pub add_groups : List (Bytes × List RawRecord) → PciState → PciState
unfolding add_group
add_groups [] st = st
add_groups ((addr_str, records) ∷ groups) st = add_groups groups (add_group addr_str records st)

-- `devices[i].device_name = name`
unfoldable pub name_device : List PciDevice → ℕ → Bytes → List PciDevice
name_device [] i name = []
name_device (d ∷ ds) zero name = record d { device_name = name } ∷ ds
name_device (d ∷ ds) (suc i) name = d ∷ name_device ds i name

abbrev pub named_device : PciAddress → Bytes → PciDevice
named_device address name = record (new_device address) { device_name = name }

-- one line that parsed
unfoldable pub merge_name : Bytes → Bytes → PciState → PciState
unfolding push_device
merge_name addr_str name st = elim (lookup_key addr_str st.addr_index) [
  | some i ↦ record st { devices = name_device st.devices i name }
  | none ↦ elim (parse_pci_address addr_str) [
    | none ↦ st
    | some address ↦
        push_device addr_str (named_device address name)
          (st.warnings ++ lspci_only_warning addr_str ∷ []) st
  ]
]

unfoldable pub merge_lines : List Bytes → PciState → PciState
unfolding merge_name
merge_lines [] st = st
merge_lines (line ∷ lines) st = merge_lines lines (elim (parse_lspci_line line) [
  | none ↦ st
  | some (addr_str, name) ↦ merge_name addr_str name st
])

unfoldable pub merge_records : List RawRecord → PciState → PciState
unfolding merge_lines
merge_records [] st = st
merge_records (rec ∷ records) st =
    merge_records records
      (if is_success rec.status then merge_lines (split rec.payload b'\n') st else st)

abbrev missing_warning : Bytes
missing_warning = utf8 "parse_pci: 缺少 SysfsPci 数据"

-- neither a record nor an enumeration of the devices
unfoldable pub pci_missing : RawStore → Bool
pci_missing raw =
    is_nil (get_all raw RawSource.sysfs_pci)
    && not (is_some (enumeration raw InventoryKind.pci_devices))

abbrev pub empty_state : List Bytes → PciState
empty_state warnings = record { devices = []; addr_index = []; warnings = warnings }

unfoldable pub pci_state : RawStore → List Bytes → PciState
unfolding add_groups merge_records
pci_state raw warnings =
    merge_records (get_all raw RawSource.lspci)
      (add_groups (group_records (get_all raw RawSource.sysfs_pci) []) (empty_state warnings))

-- the devices, if there is evidence of them, and the warnings
unfoldable pub parse_pci : RawStore → List Bytes → Option (List PciDevice) × List Bytes
unfolding pci_missing pci_state
parse_pci raw warnings =
    let st = pci_state raw warnings in
    if pci_missing raw
    then (none, warnings ++ missing_warning ∷ [])
    else (some st.devices, st.warnings)
