-- ===== src/Resolve/Links.antt =====
-- Hardware identities joined by PCI address and by controller index: the merges of `resolve` of
-- src/resolver/resolve.cpp.
use sysal.Prelude.{◌==◌, if◌then◌else◌, is_nil, ℕ, true, Option, none, some, List, [], ◌∷◌, map}
use sysal.PciDevices.{PciDevice}
use sysal.Memory.{EdacMemoryDevice, MemoryController, DimmInfo, Memory}
use sysal.Network.{NetworkInterface, RdmaDevice, Network}
use sysal.Storage.{StorageDevice, Storage}
use sysal.Storage.Connections.{device_at, resolve_storage_connections}

-- a node that is known stays
unfoldable pub node_or : Option ℕ → Option PciDevice → Option ℕ
node_or (some node) device = some node
node_or none none = none
node_or none (some device) = device.numa_node

unfoldable pub link_memory_controller : List PciDevice → MemoryController → MemoryController
unfolding node_or
link_memory_controller pci c = record c {
  numa_node = node_or c.numa_node (device_at pci c.pci_address);
}

-- the loop over the controllers assigns for every match, so the last one decides
unfoldable pub last_node : List MemoryController → ℕ → Option ℕ → Option ℕ
last_node [] index node = node
last_node (c ∷ cs) index node = last_node cs index (if c.index == index then c.numa_node else node)

unfoldable pub link_dimm : List MemoryController → DimmInfo → DimmInfo
unfolding last_node
link_dimm controllers d = elim d.numa_node [
  | some node ↦ d
  | none ↦ elim d.controller_index [
    | none ↦ d
    | some index ↦ record d { numa_node = last_node controllers index none }
  ]
]

unfoldable pub link_edac_device : List MemoryController → EdacMemoryDevice → EdacMemoryDevice
unfolding last_node
link_edac_device controllers d = elim d.numa_node [
  | some node ↦ d
  | none ↦ record d { numa_node = last_node controllers d.controller_index none }
]

unfoldable pub link_memory : List PciDevice → Memory → Memory
unfolding link_memory_controller link_dimm link_edac_device
link_memory pci memory =
    let controllers = map (link_memory_controller pci) memory.controllers in
    record memory {
      controllers = controllers;
      dimms = map (link_dimm controllers) memory.dimms;
      edac_devices = map (link_edac_device controllers) memory.edac_devices;
    }

unfoldable link_rdma : List PciDevice → RdmaDevice → RdmaDevice
link_rdma pci r = elim (device_at pci r.pci_address) [
  | none ↦ r
  | some device ↦ record r {
    vendor = device.vendor;
    device_name = device.device_name;
    numa_node = device.numa_node;
    driver = if is_nil r.driver then device.driver_name else r.driver;
  }
]

unfoldable link_interface : List PciDevice → NetworkInterface → NetworkInterface
unfolding node_or
link_interface pci i = elim (device_at pci i.pci_address) [
  | none ↦ i
  | some device ↦ record i {
    vendor = device.vendor;
    device_name = device.device_name;
    numa_node = node_or i.numa_node (some device);
  }
]

unfoldable link_network : List PciDevice → Network → Network
unfolding link_rdma link_interface
link_network pci network = record network {
  rdma = map (link_rdma pci) network.rdma;
  interfaces = map (link_interface pci) network.interfaces;
}

unfoldable link_block_device : List PciDevice → StorageDevice → StorageDevice
unfolding node_or
link_block_device pci s = elim (device_at pci s.pci_address) [
  | none ↦ s
  | some device ↦ record s {
    controller_name = device.device_name;
    numa_node = node_or s.numa_node (some device);
  }
]

-- the controllers are only added if storage was collected
unfoldable link_storage : List PciDevice → Option Storage → Option Storage
unfolding link_block_device
link_storage pci none = none
link_storage pci (some storage) =
    let connected = resolve_storage_connections storage pci in
    some (record connected { devices = map (link_block_device pci) connected.devices })

unfoldable show_interface : NetworkInterface → NetworkInterface
show_interface i = record i { visible_to_current_process = true }

-- all interfaces are visible
unfoldable compute_network_visibility : Network → Network
unfolding show_interface
compute_network_visibility network = record network {
  interfaces = map show_interface network.interfaces;
}
