-- ===== src/Inventory.antt =====
-- Which inventories of the snapshot are complete: src/resolver/inventory.cpp. A `std::set` of
-- texts is the list of the distinct ones.
pub mod Complete
use sysal.Prelude.{
  leb, ◌==◌, if◌then◌else◌, length, all, is_nil, is_some, Bytes, codes, text_mem, ℕ, Bool, false,
  not, ◌&&◌, Option, none, some, List, [], ◌∷◌, ◌++◌, map,
}
use sysal.Types.{RawSource, is_success}
use sysal.Text.{trim}
use sysal.Number.{max_u32, parse_uint, to_string}
use sysal.Pci.{PciAddress, pci_name}
use sysal.Collect.{Collect, cpu_flag, accelerator_flag, network_flag, storage_flag, pci_flag, has}
use sysal.RawStore.{
  InventoryKind, InventoryCompleteness, InventoryEnumeration, InventoryReport, RawRecord, RawStore,
  enumeration, get,
}

unfoldable pub distinct : List Bytes → List Bytes
distinct [] = []
distinct (x ∷ xs) = let rest = distinct xs in if text_mem x rest then rest else x ∷ rest

unfoldable pub same_set : List Bytes → List Bytes → Bool
same_set a b = all (λ x. text_mem x b) a && all (λ y. text_mem y a) b

-- the tests on an enumeration
unfoldable pub matches_names : InventoryEnumeration → List Bytes → Bool
matches_names e names =
    length (distinct e.entries) == length e.entries
    && length (distinct names) == length names
    && same_set (distinct e.entries) (distinct names)

unfoldable pub is_reliable : InventoryEnumeration → Bool
is_reliable e = is_success e.status && not (is_some e.failure)

unfoldable pub observed : InventoryKind → Bool → Bytes → InventoryReport
observed kind empty origin = record {
  inventory = kind;
  completeness = if empty then InventoryCompleteness.unknown else InventoryCompleteness.partial;
  origin = origin;
}

-- what is reported with the enumeration that was found, if one was
unfoldable pub report_of :
    Option InventoryEnumeration → InventoryKind → List Bytes → Bytes → InventoryReport
report_of none kind names origin = observed kind (is_nil names) origin
report_of (some e) kind names origin =
    let found = observed kind (is_nil names) e.origin in
    if is_reliable e && matches_names e names
    then record found { completeness = InventoryCompleteness.complete }
    else found

-- `names` are the names of the entries
unfoldable pub report : RawStore → InventoryKind → List Bytes → Bytes → InventoryReport
report raw kind = report_of (enumeration raw kind) kind

abbrev topology_path : ℕ → Bytes → Bytes
topology_path id field =
    codes "/sys/devices/system/cpu/cpu" ++ to_string id ++ codes "/topology/" ++ field

-- the only record of a file is one of success, and holds a number within 32 bits
unfoldable is_known : List RawRecord → Bool
is_known (r ∷ []) =
    is_success r.status
    && elim (parse_uint (trim r.payload)) [ none ↦ false | some n ↦ leb n max_u32 ]
is_known _ = false

-- `cpus` are the ids of the logical CPUs
unfoldable topology_known : List ℕ → RawStore → Bool
topology_known cpus raw =
    not (is_nil cpus)
    && all
        (λ id.
          all (λ field. is_known (get raw RawSource.sysfs_cpu (topology_path id field)))
            (codes "physical_package_id" ∷ codes "core_id" ∷ []))
        cpus

-- what the reports read of a `SystemInfo`
pub record Entries : Type 0 where
  pub logical_cpus : List ℕ
  pub packages_empty : Bool
  pub cores_empty : Bool
  pub numa_nodes : List ℕ
  pub caches_empty : Bool
  pub interfaces : List Bytes
  pub block_devices : List Bytes
  pub pci_addresses : List PciAddress
  pub accelerators_empty : Bool

-- `packages.completeness = cores.completeness = logical.completeness`
unfoldable adopt : Bool → InventoryReport → InventoryReport → InventoryReport
adopt known logical r = if known then record r { completeness = logical.completeness } else r

unfoldable cpu_reports : Entries → RawStore → List InventoryReport
cpu_reports info raw =
    let logical =
      report raw InventoryKind.logical_cpus
        (map (λ id. codes "cpu" ++ to_string id) info.logical_cpus)
        (codes "/sys/devices/system/cpu") in
    let known = topology_known info.logical_cpus raw in
    logical
    ∷ adopt known logical (observed InventoryKind.cpu_packages info.packages_empty logical.origin)
    ∷ adopt known logical (observed InventoryKind.cpu_cores info.cores_empty logical.origin)
    ∷ report raw InventoryKind.numa_nodes (map (λ id. codes "node" ++ to_string id) info.numa_nodes)
        (codes "/sys/devices/system/node")
    ∷ observed InventoryKind.cpu_caches info.caches_empty (codes "observed CPU caches")
    ∷ []

unfoldable inventory_reports : Entries → RawStore → Collect → List InventoryReport
inventory_reports info raw flags =
    (if has flags cpu_flag then cpu_reports info raw else [])
    ++ (if has flags network_flag
        then report raw InventoryKind.network_interfaces info.interfaces (codes "/sys/class/net")
          ∷ []
        else [])
    ++ (if has flags storage_flag
        then report raw InventoryKind.block_devices info.block_devices (codes "/sys/class/block")
          ∷ []
        else [])
    ++ (if has flags pci_flag
        then report raw InventoryKind.pci_devices (map pci_name info.pci_addresses)
            (codes "/sys/bus/pci/devices")
          ∷ []
        else [])
    ++ (if has flags accelerator_flag
        then observed InventoryKind.accelerator_devices info.accelerators_empty
            (codes "observed accelerator backends")
          ∷ []
        else [])
