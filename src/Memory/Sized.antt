-- ===== src/Memory/Sized.antt =====
-- The sizes of the memory that `parse_memory` of src/parser/memory.cpp returns.
use mathlib.Core.Path.{subst}
use sysal.Prelude.{
  ltb, ◌==◌, Bool-cases, Option-cases, first, is_nil, All, All-append, Bytes, codes, text_eq, ℕ,
  ◌≡◌, refl, sym, ap, ◌∙◌, inl, inr, true, false, Option, some, List, [], ◌∷◌,
}
use sysal.Types.{RawSource, is_success}
use sysal.Text.{split}
use sysal.RawStore.{RawRecord, RawStore, get_all, count}
use sysal.Memory.{NumaMemory, Memory}
use sysal.Memory.Sizes.{parse_meminfo, parse_numa_meminfo, meminfo_node, numa_record, numa_records}
use sysal.Memory.Devices.{apply_edac_inventory}
use sysal.Memory.Topology.{
  set_array_field, read_array_lines, read_array, check_slots, place_memory, apply_memory_topology,
}
use sysal.Memory.Parse.{count_dimms, sized_memory, fill_memory, parse_memory}

-- what the sizes of a memory are
abbrev sizes : Memory → ℕ × Option ℕ × List NumaMemory
sizes m = (m.total_memory, m.available_memory, m.numa_memory)

set_array_field-sizes :
    (key value : Bytes) (m : Memory) → sizes (set_array_field key value m) ≡ sizes m
unfolding set_array_field
set_array_field-sizes key value m =
    elim (Bool-cases (text_eq key (codes "E: MEMORY_ARRAY_LOCATION"))) [
      | inl a ↦ rw a refl
      | inr a ↦ elim (Bool-cases (text_eq key (codes "E: MEMORY_ARRAY_EC_TYPE"))) [
        | inl b ↦ rw (a, b) refl
        | inr b ↦ elim (Bool-cases (text_eq key (codes "E: MEMORY_ARRAY_MAX_CAPACITY"))) [
          | inl c ↦ rw (a, b, c) refl
          | inr c ↦ elim (Bool-cases (text_eq key (codes "E: MEMORY_ARRAY_NUM_DEVICES"))) [
            | inl d ↦ rw (a, b, c, d) refl
            | inr d ↦ rw (a, b, c, d) refl
          ]
        ]
      ]
    ]

read_array_lines-sizes :
    (lines : List Bytes) (m : Memory) → sizes (read_array_lines lines m) ≡ sizes m
unfolding read_array_lines
read_array_lines-sizes [] m = refl
read_array_lines-sizes (line ∷ lines) m =
    read_array_lines-sizes lines _ ∙ set_array_field-sizes _ _ m

read_array-sizes : (records : List RawRecord) (m : Memory) → sizes (read_array records m) ≡ sizes m
unfolding read_array
read_array-sizes [] m = refl
read_array-sizes (rec ∷ records) m = elim (Bool-cases (is_success rec.status)) [
  | inl e ↦
      rw (e, read_array)
        (read_array-sizes records _ ∙ read_array_lines-sizes (split rec.payload b'\n') m)
  | inr e ↦ rw (e, read_array) (read_array-sizes records m)
]

check_slots-sizes : (m : Memory) → sizes (check_slots m) ≡ sizes m
unfolding check_slots
check_slots-sizes m = elim (Option-cases m.reported_slot_count) [
  | inl e ↦ rw e refl
  | inr (count, e) ↦ elim (Bool-cases (text_eq m.dimm_inventory_source (codes "udev"))) [
    | inl u ↦ rw (e, u) refl
    | inr u ↦ rw (e, u) refl
  ]
]

apply_memory_topology-sizes :
    (m : Memory) (raw : RawStore) → sizes (apply_memory_topology m raw) ≡ sizes m
unfolding apply_memory_topology
apply_memory_topology-sizes m raw =
    check_slots-sizes _
    ∙ (read_array-sizes (get_all raw RawSource.udevadm) _ ∙ unfold place_memory in refl)

apply_edac_inventory-sizes :
    (m : Memory) (raw : RawStore) (memory_type : Bytes)
    → sizes (apply_edac_inventory m raw memory_type).0 ≡ sizes m
unfolding apply_edac_inventory
apply_edac_inventory-sizes m raw memory_type = elim (Bool-cases (is_nil m.dimms)) [
  | inl e ↦ rw e refl
  | inr e ↦ rw e refl
]

count_dimms-sizes : (m : Memory) → sizes (count_dimms m) ≡ sizes m
unfolding count_dimms
count_dimms-sizes m = elim (Bool-cases (is_nil m.dimms)) [ inl e ↦ rw e refl | inr e ↦ rw e refl ]

abbrev pub HasMemory : NumaMemory → Type 0
HasMemory nm = ltb 0 nm.total ≡ true

numa_record-HasMemory :
    (rec : RawRecord) (nodes : List NumaMemory) (warnings : List Bytes)
    → All HasMemory nodes
    → All HasMemory (numa_record rec (nodes, warnings)).0
unfolding numa_record
numa_record-HasMemory rec nodes warnings h = elim (Bool-cases (is_success rec.status)) [
  | inr e ↦ rw e h
  | inl e ↦ elim (Option-cases (meminfo_node rec.path_or_command)) [
    | inl p ↦ rw (e, p) h
    | inr (node_id, p) ↦
        let nm = (parse_numa_meminfo rec.payload node_id warnings).0 in
        elim (Bool-cases (ltb 0 nm.total)) [
          | inl q ↦ rw (e, p, q) (All-append HasMemory nodes (nm ∷ []) h (q, tt))
          | inr q ↦ rw (e, p, q) h
        ]
  ]
]

numa_records-HasMemory :
    (records : List RawRecord) (nodes : List NumaMemory) (warnings : List Bytes)
    → All HasMemory nodes
    → All HasMemory (numa_records records (nodes, warnings)).0
unfolding numa_records
numa_records-HasMemory [] nodes warnings h = h
numa_records-HasMemory (rec ∷ records) nodes warnings h =
    let got = numa_record rec (nodes, warnings) in
    numa_records-HasMemory records got.0 got.1 (numa_record-HasMemory rec nodes warnings h)

-- the memory behind the sizes keeps them, and has the NUMA nodes of the records
fill_memory-sizes :
    (raw : RawStore) (m : Memory) (warnings : List Bytes)
    → sizes (fill_memory raw m warnings).0 ≡ (
      m.total_memory,
      m.available_memory,
      (numa_records (get_all raw RawSource.sysfs_numa) ([], warnings)).0,
    )
unfolding fill_memory
fill_memory-sizes raw m warnings =
    apply_memory_topology-sizes _ raw ∙ (count_dimms-sizes _ ∙ apply_edac_inventory-sizes _ raw _)

-- If the first successful record of /proc/meminfo gives a total that is not 0, then the parser
-- returns a memory that has this total and the record's available memory, and every NUMA node in it
-- has memory.
pub parse_memory-sizes :
    (raw : RawStore) (warnings : List Bytes) (rec : RawRecord)
    → first (λ r. is_success r.status) (get_all raw RawSource.proc_mem_info) ≡ some rec
    → ((parse_meminfo rec.payload warnings).total == 0) ≡ false
    → (m : Memory) × ((parse_memory raw warnings).0 ≡ some m)
      × (m.total_memory ≡ (parse_meminfo rec.payload warnings).total)
      × (m.available_memory ≡ (parse_meminfo rec.payload warnings).available)
      × All HasMemory m.numa_memory
unfolding parse_memory
parse_memory-sizes raw warnings rec e positive =
    let info = parse_meminfo rec.payload warnings in
    let start = sized_memory info in
    let kept = fill_memory-sizes raw start info.warnings in
    (
      (fill_memory raw start info.warnings).0,
      rw (e, parse_memory, positive) refl,
      ap (λ s. s.0) kept,
      ap (λ s. s.1) kept,
      subst (λ nodes. All HasMemory nodes) (sym (ap (λ s. s.2) kept))
          (numa_records-HasMemory (get_all raw RawSource.sysfs_numa) [] info.warnings tt),
    )
