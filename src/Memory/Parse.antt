-- ===== src/Memory/Parse.antt =====
-- `parse_memory` of src/parser/memory.cpp: all parts together.
use sysal.Prelude.{
  ◌==◌, if◌then◌else◌, length, first, is_nil, Bytes, codes, ℕ, ◌+◌, ◌%◌, ◌^◌, true, false, Option,
  none, some, List, [], ◌∷◌, ◌++◌,
}
use sysal.Prelude.Maps.{utf8}
use sysal.Types.{RawSource, is_success}
use sysal.RawStore.{RawRecord, RawStore, get_all}
use sysal.Memory.{DimmInfo, Memory}
use sysal.Memory.Sizes.{MemInfo, parse_meminfo, numa_records}
use sysal.Memory.Udev.{UdevDimms, parse_udevadm_dimms}
use sysal.Memory.Devices.{apply_edac_inventory}
use sysal.Memory.Topology.{apply_memory_topology}

-- the first record with DIMMs ends the loop
unfoldable udev_records : List RawRecord → UdevDimms → UdevDimms
udev_records [] st = st
udev_records (rec ∷ records) st = elim (is_success rec.status) [
  | false ↦ udev_records records st
  | true ↦
      let got = parse_udevadm_dimms rec.payload st.warnings st.memory_type st.speed in
      elim got.dimms [ [] ↦ udev_records records got | dimm ∷ dimms ↦ got ]
]

unfoldable populated_loop : List DimmInfo → ℕ → ℕ
populated_loop [] populated = populated
populated_loop (d ∷ dimms) populated =
    populated_loop dimms (if d.present then (populated + 1) % 2 ^ 32 else populated)

unfoldable pub count_dimms : Memory → Memory
unfolding populated_loop
count_dimms memory = if is_nil memory.dimms then memory else record memory {
  dimm_count = some (length memory.dimms % 2 ^ 32);
  populated_dimms = some (populated_loop memory.dimms 0);
}

abbrev empty_memory : Memory
empty_memory = record {
  total_memory = 0;
  available_memory = none;
  memory_type = [];
  configured_speed_mts = none;
  numa_memory = [];
  dimms = [];
  dimm_count = none;
  populated_dimms = none;
  controllers = [];
  dimm_inventory_source = [];
  reported_slot_count = none;
  reported_array_location = [];
  reported_array_error_correction = [];
  reported_array_max_capacity = none;
  reported_slots_complete = none;
  edac_devices = [];
}

-- the memory with the sizes of /proc/meminfo
abbrev pub sized_memory : MemInfo → Memory
sized_memory info = record empty_memory {
  total_memory = info.total;
  available_memory = info.available;
}

-- the memory behind the sizes: NUMA nodes, DIMMs, EDAC and topology
unfoldable pub fill_memory : RawStore → Memory → List Bytes → Memory × List Bytes
unfolding udev_records count_dimms
fill_memory raw memory warnings =
    let numa = numa_records (get_all raw RawSource.sysfs_numa) ([], warnings) in
    let udev =
      udev_records (get_all raw RawSource.udevadm)
        (record { dimms = []; memory_type = []; speed = none; warnings = numa.1 }) in
    let inventory =
      apply_edac_inventory
        (record memory {
          numa_memory = numa.0;
          dimms = udev.dimms;
          dimm_inventory_source = if is_nil udev.dimms then [] else codes "udev";
        })
        raw udev.memory_type in
    let typed = record (inventory.0) {
      memory_type = inventory.1;
      configured_speed_mts = udev.speed;
    } in
    (apply_memory_topology (count_dimms typed) raw, udev.warnings)

unfoldable pub parse_memory : RawStore → List Bytes → Option Memory × List Bytes
unfolding fill_memory
parse_memory raw warnings =
    elim (first (λ rec. is_success rec.status) (get_all raw RawSource.proc_mem_info)) [
      | none ↦ (none, warnings ++ utf8 "parse_memory: 缺少 /proc/meminfo 数据" ∷ [])
      | some rec ↦
          let info = parse_meminfo rec.payload warnings in
          (if info.total == 0
            then (none, info.warnings ++ utf8 "parse_memory: MemTotal 为 0 或未找到" ∷ [])
            else (let filled = fill_memory raw (sized_memory info) info.warnings in
                (some filled.0, filled.1)))
    ]
