-- ===== src/Resolve/Nodes.antt =====
-- Where the memory's parts get their NUMA nodes from, for src/resolver/resolve.cpp.
use sysal.Prelude.{
  ◌==◌, Option-cases, get_elem?, drop, any, get_elem?-map, ℕ, zero, suc, ◌≡◌, refl, ap, ◌∙◌, inl,
  inr, false, Option, none, some, List, [], ◌∷◌, map, arith,
}
use sysal.Pci.{PciAddress}
use sysal.PciDevices.{PciDevice, find_device}
use sysal.Memory.{EdacMemoryDevice, MemoryController, DimmInfo, Memory}
use sysal.Storage.Connections.{device_at}
use sysal.Resolve.Links.{
  node_or, link_memory_controller, last_node, link_dimm, link_edac_device, link_memory,
}

-- the first of two nodes that is known
abbrev pub known_first : Option ℕ → Option ℕ → Option ℕ
known_first (some node) other = some node
known_first none other = other

abbrev device_node : Option PciDevice → Option ℕ
device_node none = none
device_node (some device) = device.numa_node

abbrev address_node : List PciDevice → Option PciAddress → Option ℕ
address_node pci none = none
address_node pci (some address) = device_node (find_device pci address)

-- the node of a controller, or else of the PCI device at its address
abbrev pub controller_node : List PciDevice → MemoryController → Option ℕ
controller_node pci c = known_first c.numa_node (address_node pci c.pci_address)

-- the node of a part, if there is the part
abbrev pub dimm_node : Option DimmInfo → Option ℕ
dimm_node none = none
dimm_node (some d) = d.numa_node

abbrev pub edac_node : Option EdacMemoryDevice → Option ℕ
edac_node none = none
edac_node (some d) = d.numa_node

node_or-address :
    (pci : List PciDevice) (node : Option ℕ) (address : Option PciAddress)
    → node_or node (device_at pci address) ≡ known_first node (address_node pci address)
unfolding node_or device_at
node_or-address pci (some n) address = refl
node_or-address pci none none = refl
node_or-address pci none (some address) = elim (Option-cases (find_device pci address)) [
  | inl e ↦ rw e refl
  | inr (device, e) ↦ rw e refl
]

module _ (pci : List PciDevice) where
  -- controllers with other indices do not matter
  last_node-other :
      (cs : List MemoryController) (index : ℕ) (held : Option ℕ)
      → any (λ e. e.index == index) cs ≡ false
      → last_node (map (link_memory_controller pci) cs) index held ≡ held
  unfolding last_node link_memory_controller
  last_node-other [] index held h = refl
  last_node-other (e ∷ cs) index held h = ground (arith, last_node-other cs index held)

  last_node-controller :
      (cs : List MemoryController) (j : ℕ) (c : MemoryController) (held : Option ℕ)
      → get_elem? cs j ≡ some c
      → any (λ e. e.index == c.index) (drop (suc j) cs) ≡ false
      → last_node (map (link_memory_controller pci) cs) c.index held ≡ controller_node pci c
  unfolding last_node
  last_node-controller [] j c held at later = cc
  last_node-controller (e ∷ cs) zero c held at later =
      let same : e ≡ c = ground arith in
      last_node-other cs c.index _ later
      ∙ rw same (
          unfold link_memory_controller in
          ground (arith, node_or-address pci c.numa_node c.pci_address))
  last_node-controller (e ∷ cs) (suc j) c held at later = last_node-controller cs j c _ at later

  link_dimm-node :
      (controllers : List MemoryController) (d : DimmInfo) (index : ℕ)
      → d.controller_index ≡ some index
      → (link_dimm controllers d).numa_node
        ≡ known_first d.numa_node (last_node controllers index none)
  unfolding link_dimm
  link_dimm-node controllers d index h = ground arith

  link_edac_device-node :
      (controllers : List MemoryController) (d : EdacMemoryDevice)
      → (link_edac_device controllers d).numa_node
        ≡ known_first d.numa_node (last_node controllers d.controller_index none)
  unfolding link_edac_device
  link_edac_device-node controllers d = ground arith

  -- Where a controller is the last one with its index, a DIMM and an EDAC device with that controller
  -- index have, after joining, the node that each had, or else that of the controller, or else that
  -- of the PCI device at the controller's address.
  pub link_memory-nodes :
      (memory : Memory) (j : ℕ) (c : MemoryController) (i k : ℕ) (d : DimmInfo)
      (e : EdacMemoryDevice)
      → get_elem? memory.controllers j ≡ some c
      → any (λ x. x.index == c.index) (drop (suc j) memory.controllers) ≡ false
      → get_elem? memory.dimms i ≡ some d
      → d.controller_index ≡ some c.index
      → get_elem? memory.edac_devices k ≡ some e
      → e.controller_index ≡ c.index
      → (dimm_node (get_elem? (link_memory pci memory).dimms i)
          ≡ known_first d.numa_node (controller_node pci c))
        × (edac_node (get_elem? (link_memory pci memory).edac_devices k)
            ≡ known_first e.numa_node (controller_node pci c))
  unfolding link_memory
  link_memory-nodes memory j c i k d e at later there named device joined =
      let node = last_node-controller memory.controllers j c none at later in
      let controllers = map (link_memory_controller pci) memory.controllers in
      (
        rw (get_elem?-map (link_dimm controllers) memory.dimms i d there)
            (link_dimm-node controllers d c.index named ∙ ap (known_first d.numa_node) node),
        rw (get_elem?-map (link_edac_device controllers) memory.edac_devices k e device)
            (link_edac_device-node controllers e ∙ rw joined (ap (known_first e.numa_node) node)),
      )
