-- ===== src/Storage/Connections.antt =====
-- Storage controllers of the PCI devices: src/resolver/storage_connections.cpp.
use sysal.Prelude.{
  ltb, ◌==◌, if◌then◌else◌, drop, Bytes, codes, starts_with, ◌>>=◌, ℕ, ◌/◌, not, ◌||◌, Option, none,
  some, List, [], ◌∷◌, ◌++◌, map,
}
use sysal.Number.{parse_hex}
use sysal.Pci.{PciAddress}
use sysal.PciDevices.{PciDevice, find_device}
use sysal.Storage.{StorageController, NvmeController, ScsiHost, Storage}

-- the class without its prefix
unfoldable class_digits : Bytes → Bytes
class_digits report =
    if starts_with report (codes "0x") || starts_with report (codes "0X")
    then drop 2 report
    else report

-- the code of a mass-storage function: 24 bits, whose upper eight are 1
unfoldable storage_class : PciDevice → Option ℕ
unfolding class_digits
storage_class device = do
  code ← parse_hex (class_digits device.device_class)
  (if ltb 16777215 code || not (code / 65536 == 1) then none else some code)

unfoldable controller_of : PciDevice → ℕ → StorageController
controller_of device code = record {
  pci_address = device.address;
  class_code = code;
  vendor = device.vendor;
  model = device.device_name;
  driver = device.driver_name;
  numa_node = device.numa_node;
}

-- the first loop, over the controllers
unfoldable push_controllers : List PciDevice → List StorageController → List StorageController
unfolding storage_class controller_of
push_controllers [] controllers = controllers
push_controllers (device ∷ devices) controllers =
    push_controllers devices (elim (storage_class device) [
      | none ↦ controllers
      | some code ↦ controllers ++ controller_of device code ∷ []
    ])

-- the device at an address that may be missing
unfoldable pub device_at : List PciDevice → Option PciAddress → Option PciDevice
device_at devices none = none
device_at devices (some address) = find_device devices address

unfoldable node_of : Option PciDevice → Option ℕ → Option ℕ
node_of none old = old
node_of (some device) old = device.numa_node

unfoldable link_controller : List PciDevice → NvmeController → NvmeController
unfolding device_at node_of
link_controller pci c = record c { numa_node = node_of (device_at pci c.pci_address) c.numa_node }

unfoldable link_host : List PciDevice → ScsiHost → ScsiHost
unfolding device_at node_of
link_host pci h = record h { numa_node = node_of (device_at pci h.pci_address) h.numa_node }

unfoldable pub resolve_storage_connections : Storage → List PciDevice → Storage
unfolding push_controllers link_controller link_host
resolve_storage_connections storage pci = record storage {
  controllers = push_controllers pci storage.controllers;
  nvme_controllers = map (link_controller pci) storage.nvme_controllers;
  scsi_hosts = map (link_host pci) storage.scsi_hosts;
}
