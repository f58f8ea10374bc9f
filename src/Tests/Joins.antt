-- ===== src/Tests/Joins.antt =====
-- Runs and instances for EDAC devices and NUMA nodes: src/parser/memory_edac.cpp and
-- src/resolver/resolve.cpp.
use sysal.Prelude.{
  get_elem?, Bytes, codes, text_eq, text_mem, starts_with, ◌≡◌, refl, true, none, some, [], ◌∷◌,
  map,
}
use sysal.Types.{RawSource, source_eq, is_success}
use sysal.Number.{
  digit_value, scan_digits, from_chars, whole, parse_uint, parse_u32, digit_char, print_digits,
  to_string,
}
use sysal.RawStore.{kind_eq, RawRecord, RawStore, enumeration_loop, enumeration, get_all}
use sysal.PciDevices.{PciDevice, new_device, find_device}
use sysal.Memory.{
  EdacMemoryDeviceKind, EdacMemoryDevice, MemoryController, DimmInfo, Memory, empty_location,
  empty_dimm,
}
use sysal.Memory.Devices.{
  mib_to_bytes, set_edac_field, add_edac_record, group_edac, edac_lt, insert_edac, sort_edac,
  inventory_dimm, merge_type, add_fallback, matches_dimm, same_size, matches_edac, associate_dimm,
  change_first, match_device, match_devices, apply_edac_inventory,
}
use sysal.Sensors.{value}
use sysal.Resolve.Links.{
  node_or, link_memory_controller, last_node, link_dimm, link_edac_device, link_memory,
}
use sysal.Resolve.Nodes.{known_first, controller_node, dimm_node, edac_node, link_memory-nodes}
use sysal.Text.{
  is_space, to_lower, trim_begin, trim_end, trim, find, rfind, find_text, extract_filename,
  hardware_text,
}
use sysal.Inventory.{distinct, same_set, matches_names, is_reliable, observed, report_of, report}
use sysal.CpuList.Members.{names}
use sysal.CpuList.{token_range}
use sysal.Prelude.Maps.{text_lt, lookup_key, update_key}
use sysal.Text.Words.{words_loop, words}
use sysal.Memory.Locations.{
  edac_controller_index, location_layer, layer_code, has_layer, coordinate, read_coordinates,
  parse_edac_location, device_kind, kind_code, parent_of, device_identity,
}
use sysal.Storage.Connections.{device_at}
use sysal.Pci.{pci_eq}
use sysal.Tests.Drives.{mounts_file}

abbrev labelled : DimmInfo
labelled = record empty_dimm { locator = codes "A1"; size = 1048576; present = true }

abbrev memory_of : Memory
memory_of = record {
  total_memory = 0;
  available_memory = none;
  memory_type = [];
  configured_speed_mts = none;
  numa_memory = [];
  dimms = labelled ∷ [];
  dimm_count = none;
  populated_dimms = none;
  controllers =
      record {
        index = 0;
        name = [];
        capacity = none;
        corrected_errors = none;
        uncorrected_errors = none;
        numa_node = none;
        pci_address = some (record { domain = 0; bus = 3; device = 0; function = 0 });
        max_location = empty_location;
      }
      ∷ [];
  dimm_inventory_source = codes "udev";
  reported_slot_count = none;
  reported_array_location = [];
  reported_array_error_correction = [];
  reported_array_max_capacity = none;
  reported_slots_complete = none;
  edac_devices = [];
}

abbrev edac_record : Bytes → Bytes → RawRecord
edac_record path payload = record mounts_file {
  source = RawSource.sysfs_edac;
  path_or_command = path;
  payload = payload;
}

abbrev edac_store : RawStore
edac_store = record {
  records =
      edac_record (codes "/sys/devices/system/edac/mc/mc0/dimm0/dimm_label") (codes "A1")
      ∷ edac_record (codes "/sys/devices/system/edac/mc/mc0/dimm0/size") (codes "1")
      ∷ [];
  enumerations = [];
  collection_request = none;
}

dimm_traced :
    map (λ d. d.controller_index) (apply_edac_inventory memory_of edac_store []).0.dimms
    ≡ some 0 ∷ []
unfolding add_edac_record add_fallback apply_edac_inventory associate_dimm change_first coordinate
    device_identity device_kind digit_char digit_value distinct edac_controller_index edac_lt
    enumeration enumeration_loop extract_filename find find_text from_chars get_all group_edac
    hardware_text has_layer insert_edac inventory_dimm is_reliable is_space is_success kind_code
    kind_eq layer_code location_layer lookup_key match_device match_devices matches_dimm
    matches_edac matches_names merge_type mib_to_bytes names observed parent_of parse_edac_location
    parse_u32 parse_uint print_digits read_coordinates report report_of rfind same_set same_size
    scan_digits set_edac_field sort_edac source_eq starts_with text_eq text_lt text_mem to_lower
    to_string token_range trim trim_begin trim_end update_key value whole words words_loop
dimm_traced = refl

abbrev bridge : PciDevice
bridge = record (new_device (record { domain = 0; bus = 3; device = 0; function = 0 })) {
  numa_node = some 1;
}

abbrev joined_controller : MemoryController
joined_controller = record {
  index = 2;
  name = [];
  capacity = none;
  corrected_errors = none;
  uncorrected_errors = none;
  numa_node = none;
  pci_address = some (record { domain = 0; bus = 3; device = 0; function = 0 });
  max_location = empty_location;
}

abbrev joined_dimm : DimmInfo
joined_dimm = record empty_dimm { controller_index = some 2 }

abbrev joined_device : EdacMemoryDevice
joined_device = record {
  controller_index = 2;
  index = 0;
  kind = EdacMemoryDeviceKind.unknown;
  label = [];
  size = none;
  location = empty_location;
  memory_type = [];
  edac_mode = [];
  device_width = [];
  numa_node = some 7;
}

abbrev joined_memory : Memory
joined_memory = record memory_of {
  controllers = joined_controller ∷ [];
  dimms = joined_dimm ∷ [];
  edac_devices = joined_device ∷ [];
}

-- the DIMM gets the node of the bridge, the EDAC device keeps its own
node_joined : dimm_node (get_elem? (link_memory (bridge ∷ []) joined_memory).dimms 0) ≡ some 1
unfolding device_at find_device last_node link_dimm link_edac_device link_memory
    link_memory_controller node_or pci_eq
node_joined = refl

link_memory-nodes_example :
    (dimm_node (get_elem? (link_memory (bridge ∷ []) joined_memory).dimms 0)
      ≡ known_first none (controller_node (bridge ∷ []) joined_controller))
    × (edac_node (get_elem? (link_memory (bridge ∷ []) joined_memory).edac_devices 0)
        ≡ known_first (some 7) (controller_node (bridge ∷ []) joined_controller))
link_memory-nodes_example =
    link_memory-nodes (bridge ∷ []) joined_memory 0 joined_controller 0 0 joined_dimm joined_device
      refl refl refl refl refl refl
