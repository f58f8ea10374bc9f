-- ===== src/Tests/Memories.antt =====
-- Runs and instances for the memory: src/parser/memory.cpp.
use sysal.Prelude.{
  ◌==◌, first, All, Bytes, codes, text_eq, text_mem, starts_with, ℕ, ◌≡◌, refl, Bool, true, false,
  Option, none, some, [], ◌∷◌, map,
}
use sysal.Types.{RawSource, success, source_eq, is_success}
use sysal.Memory.Sized.{HasMemory, parse_memory-sizes}
use sysal.Memory.{Memory}
use sysal.Memory.Parse.{parse_memory}
use sysal.RawStore.{RawRecord, RawStore, get_all}
use sysal.Memory.Udev.{
  positive_or, parse_millivolts, set_dimm_field, join_type, store_field, warn, udev_field, starts_e,
  udev_line, udev_lines, take_dimms, join_speed, configured_speed, parse_udevadm_dimms,
}
use sysal.Text.{
  is_space, to_lower, trim_begin, trim_end, trim, split_loop, split, find, holds, find_text,
  parse_kv, hardware_text,
}
use sysal.Sensors.{value}
use sysal.Prelude.Maps.{lookup_key, update_id}
use sysal.Number.{
  digit_value, scan_digits, from_chars, whole, parse_uint, parse_u32, parse_kb_to_bytes, digit_char,
  print_digits, to_string,
}
use sysal.Memory.Sizes.{
  read_size, meminfo_line, meminfo_lines, parse_meminfo, numa_line, numa_lines, parse_numa_meminfo,
  meminfo_node, numa_record, numa_records,
}

abbrev memory_record : RawSource → Bytes → Bytes → RawRecord
memory_record source path payload = record {
  source = source;
  path_or_command = path;
  payload = payload;
  status = success;
  collected_at = 0;
  failure = none;
  skip = none;
}

abbrev meminfo_record : RawRecord
meminfo_record =
    memory_record RawSource.proc_mem_info (codes "/proc/meminfo")
      (codes "MemTotal: 16 kB\nMemAvailable: 4 kB")

abbrev memory_store : RawStore
memory_store = record {
  records =
      meminfo_record
      ∷ memory_record RawSource.sysfs_numa (codes "/sys/devices/system/node/node1/meminfo")
          (codes "Node 1 MemTotal: 8 kB\nNode 1 MemFree: 2 kB")
      ∷ memory_record RawSource.sysfs_numa (codes "/sys/devices/system/node/node2/meminfo")
          (codes "Node 2 MemTotal: 0 kB")
      ∷ [];
  enumerations = [];
  collection_request = none;
}

abbrev udev_lines_of : Bytes
udev_lines_of =
    codes
      "E: MEMORY_DEVICE_1_SIZE=4096\nE: MEMORY_DEVICE_1_CONFIGURED_VOLTAGE=1.2\nE: MEMORY_DEVICE_0_SIZE=0"

-- the DIMMs ascend in their numbers, and one without a size is not there
dimms_found :
    map {B = ℕ × Bool × Option ℕ}
      (λ d. (d.size, d.present, d.configured_voltage_mv))
      (parse_udevadm_dimms udev_lines_of [] [] none).dimms
    ≡ (0, false, none) ∷ (4096, true, some 1200) ∷ []
unfolding configured_speed digit_value find from_chars hardware_text is_space join_speed join_type
    lookup_key parse_kv parse_millivolts parse_u32 parse_udevadm_dimms parse_uint positive_or
    scan_digits set_dimm_field split split_loop starts_e starts_with store_field take_dimms text_eq
    text_mem to_lower trim trim_begin trim_end udev_field udev_line udev_lines update_id value warn
    whole
dimms_found = refl

nodes_found :
    map {B = ℕ × ℕ × Option ℕ}
      (λ nm. (nm.node, nm.total, nm.free))
      (numa_records (get_all memory_store RawSource.sysfs_numa) ([], [])).0
    ≡ (1, 8192, some 2048) ∷ []
unfolding digit_char digit_value find find_text from_chars get_all holds is_space is_success
    lookup_key meminfo_node numa_line numa_lines numa_record numa_records parse_kb_to_bytes parse_kv
    parse_numa_meminfo parse_uint print_digits read_size scan_digits source_eq split split_loop
    starts_with text_eq to_string trim trim_begin trim_end value whole
nodes_found = refl

meminfo_first :
    first (λ r. is_success r.status) (get_all memory_store RawSource.proc_mem_info)
    ≡ some meminfo_record
unfolding get_all is_success source_eq
meminfo_first = refl

meminfo_total : ((parse_meminfo meminfo_record.payload []).total == 0) ≡ false
unfolding digit_value find from_chars is_space lookup_key meminfo_line meminfo_lines
    parse_kb_to_bytes parse_kv parse_meminfo parse_uint read_size scan_digits split split_loop
    text_eq trim trim_begin trim_end value whole
meminfo_total = refl

parse_memory-sizes_example :
    (m : Memory) × ((parse_memory memory_store []).0 ≡ some m)
    × (m.total_memory ≡ (parse_meminfo meminfo_record.payload []).total)
    × (m.available_memory ≡ (parse_meminfo meminfo_record.payload []).available)
    × All HasMemory m.numa_memory
parse_memory-sizes_example =
    parse_memory-sizes memory_store [] meminfo_record meminfo_first meminfo_total
