-- ===== src/Memory/Topology.antt =====
-- `apply_memory_topology` of src/parser/memory_topology.cpp.
use sysal.Prelude.{
  ltb, ◌==◌, if◌then◌else◌, length, first, Bytes, codes, text_eq, ℕ, ◌||◌, Option, none, some, List,
  [], ◌∷◌, ◌++◌, map,
}
use sysal.Types.{RawSource, is_success}
use sysal.Text.{trim, split, holds, parse_kv, extract_filename, hardware_text}
use sysal.Number.{parse_uint, parse_u32}
use sysal.RawStore.{RawRecord, RawStore, get_all, count}
use sysal.Memory.{EdacMemoryDevice, MemoryController, DimmInfo, Memory, empty_location}
use sysal.Memory.Locations.{edac_controller_index, parse_edac_location}
use sysal.Memory.Devices.{mib_to_bytes}
use sysal.Sensors.{value, path_address}

abbrev new_controller : ℕ → MemoryController
new_controller index = record {
  index = index;
  name = [];
  capacity = none;
  corrected_errors = none;
  uncorrected_errors = none;
  numa_node = none;
  pci_address = none;
  max_location = empty_location;
}

unfoldable set_controller_field : Bytes → Bytes → MemoryController → MemoryController
set_controller_field name value controller =
    let number = parse_uint value in
    if text_eq name (codes "max_location")
    then record controller { max_location = parse_edac_location value }
    else if text_eq name (codes "mc_name")
    then record controller { name = hardware_text value }
    else if text_eq name (codes "size_mb")
    then record controller { capacity = mib_to_bytes number controller.capacity }
    else if text_eq name (codes "ce_count")
    then record controller { corrected_errors = number }
    else if text_eq name (codes "ue_count")
    then record controller { uncorrected_errors = number }
    else if text_eq name (codes "numa_node")
    then record controller {
      numa_node = elim (parse_u32 value) [ none ↦ controller.numa_node | some n ↦ some n ];
    }
    else if text_eq name (codes "device")
    then record controller { pci_address = path_address (split value b'/') controller.pci_address }
    else controller

-- `controllers[index]` with a change; the map ascends in the indices
unfoldable update_controller :
    ℕ → (MemoryController → MemoryController) → List MemoryController → List MemoryController
update_controller index f [] = f (new_controller index) ∷ []
update_controller index f (c ∷ cs) =
    let rest = update_controller index f cs in
    if index == c.index
    then f c ∷ cs
    else if ltb index c.index
    then f (new_controller index) ∷ c ∷ cs
    else c ∷ rest

unfoldable add_controller_record : Bytes → Bytes → List MemoryController → List MemoryController
unfolding set_controller_field update_controller
add_controller_record path payload controllers =
    if holds path (codes "/dimm") || holds path (codes "/rank")
    then controllers
    else elim (edac_controller_index path) [
      | none ↦ controllers
      | some index ↦
          update_controller index (set_controller_field (extract_filename path) (trim payload))
            controllers
    ]

unfoldable group_controllers : List RawRecord → List MemoryController → List MemoryController
unfolding add_controller_record
group_controllers [] controllers = controllers
group_controllers (rec ∷ records) controllers = group_controllers records (
    if is_success rec.status
    then add_controller_record rec.path_or_command rec.payload controllers
    else controllers)

unfoldable find_controller : List MemoryController → ℕ → Option MemoryController
find_controller controllers index = first (λ c. c.index == index) controllers

-- the node of the controller, if there is one
unfoldable controller_node : Option MemoryController → Option ℕ → Option ℕ
controller_node none old = old
controller_node (some controller) old = controller.numa_node

unfoldable place_dimm : List MemoryController → DimmInfo → DimmInfo
unfolding find_controller controller_node
place_dimm controllers dimm = elim dimm.controller_index [
  | none ↦ dimm
  | some index ↦ record dimm {
    numa_node = controller_node (find_controller controllers index) dimm.numa_node;
  }
]

unfoldable place_device : List MemoryController → EdacMemoryDevice → EdacMemoryDevice
unfolding find_controller controller_node
place_device controllers device = record device {
  numa_node =
      controller_node (find_controller controllers device.controller_index) device.numa_node;
}

-- a line of udev about the array
unfoldable pub set_array_field : Bytes → Bytes → Memory → Memory
set_array_field key value memory =
    if text_eq key (codes "E: MEMORY_ARRAY_LOCATION")
    then record memory { reported_array_location = hardware_text value }
    else if text_eq key (codes "E: MEMORY_ARRAY_EC_TYPE")
    then record memory { reported_array_error_correction = hardware_text value }
    else if text_eq key (codes "E: MEMORY_ARRAY_MAX_CAPACITY")
    then record memory {
      reported_array_max_capacity = elim (parse_uint value) [
        | none ↦ memory.reported_array_max_capacity
        | some n ↦ some n
      ];
    }
    else if text_eq key (codes "E: MEMORY_ARRAY_NUM_DEVICES")
    then record memory {
      reported_slot_count = elim (parse_u32 value) [
        | none ↦ memory.reported_slot_count
        | some n ↦ some n
      ];
    }
    else memory

unfoldable pub read_array_lines : List Bytes → Memory → Memory
unfolding set_array_field
read_array_lines [] memory = memory
read_array_lines (line ∷ lines) memory =
    let pair = parse_kv line b'=' in read_array_lines lines (set_array_field pair.0 pair.1 memory)

unfoldable pub read_array : List RawRecord → Memory → Memory
unfolding read_array_lines
read_array [] memory = memory
read_array (rec ∷ records) memory =
    read_array records
      (if is_success rec.status then read_array_lines (split rec.payload b'\n') memory else memory)

unfoldable pub check_slots : Memory → Memory
check_slots memory = elim memory.reported_slot_count [
  | none ↦ memory
  | some count ↦
      if text_eq memory.dimm_inventory_source (codes "udev")
      then record memory { reported_slots_complete = some (length memory.dimms == count) }
      else memory
]

-- the controllers found go behind those there, then DIMMs and devices get their nodes
unfoldable pub place_memory : Memory → List MemoryController → Memory
unfolding place_dimm place_device
place_memory memory found =
    let controllers = memory.controllers ++ found in
    record memory {
      controllers = controllers;
      dimms = map (place_dimm controllers) memory.dimms;
      edac_devices = map (place_device controllers) memory.edac_devices;
    }

unfoldable pub apply_memory_topology : Memory → RawStore → Memory
unfolding group_controllers place_memory read_array check_slots
apply_memory_topology memory raw =
    let found = group_controllers (get_all raw RawSource.sysfs_edac) [] in
    check_slots (read_array (get_all raw RawSource.udevadm) (place_memory memory found))
