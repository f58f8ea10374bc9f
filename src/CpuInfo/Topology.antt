-- ===== src/CpuInfo/Topology.antt =====
-- CPU numbers in paths, and `apply_sysfs_topology` of src/parser/cpu.cpp.
use sysal.Prelude.{
  ◌==◌, if◌then◌else◌, length, drop, is_nil, get_or, Bytes, codes, ◌>>=◌, ℕ, ◌+◌, ◌%◌, ◌^◌, ◌||◌,
  Option, none, some, List, [], ◌∷◌, ◌++◌,
}
use sysal.Prelude.Maps.{lookup_id, update_id}
use sysal.Types.{RawSource, is_success}
use sysal.Text.{find_text, take_digits, ends_with}
use sysal.Number.{parse_uint, parse_u32}
use sysal.RawStore.{RawRecord, RawStore, get_all}
use sysal.CpuInfo.{CpuInfoEntry, empty_entry}

-- a number behind a text; the cast keeps 32 bits
unfoldable pub number_behind : Bytes → Bytes → Option ℕ
number_behind pattern path = do
  start ← find_text path pattern
  let digits = take_digits (drop (start + length pattern) path)
  number ← (if is_nil digits then none else parse_uint digits)
  some (number % 2 ^ 32)

unfoldable pub extract_cpu_number_from_path : Bytes → Option ℕ
extract_cpu_number_from_path = number_behind (codes "cpu/cpu")

pub record Topology : Type 0 where
  pub package_id : Option ℕ
  pub core : Option ℕ

abbrev empty_topology : Topology
empty_topology = record { package_id = none; core = none }

unfoldable pub set_topology : Bytes → ℕ → Topology → Topology
set_topology path value t =
    if ends_with path (codes "physical_package_id")
    then record t { package_id = some value }
    else record t { core = some value }

unfoldable pub add_topology : Bytes → Bytes → List (ℕ × Topology) → List (ℕ × Topology)
unfolding set_topology
add_topology path payload topology =
    if ends_with path (codes "/topology/physical_package_id")
      || ends_with path (codes "/topology/core_id")
    then elim (extract_cpu_number_from_path path) [
      | none ↦ topology
      | some number ↦ elim (parse_u32 payload) [
        | none ↦ topology
        | some value ↦
            update_id number (λ old. set_topology path value (get_or old empty_topology)) topology
      ]
    ]
    else topology

unfoldable pub read_topology : List RawRecord → List (ℕ × Topology) → List (ℕ × Topology)
unfolding add_topology
read_topology [] topology = topology
read_topology (rec ∷ records) topology = read_topology records (
    if is_success rec.status
    then add_topology rec.path_or_command rec.payload topology
    else topology)

unfoldable pub erase_id : ℕ → List (ℕ × Topology) → List (ℕ × Topology)
erase_id id [] = []
erase_id id ((key, t) ∷ m) = let rest = erase_id id m in if id == key then m else (key, t) ∷ rest

unfoldable pub place_entry : Topology → CpuInfoEntry → CpuInfoEntry
place_entry t e = record e {
  physical_id = get_or t.package_id e.physical_id;
  core_id = get_or t.core e.core_id;
}

-- the loop over the entries, and what is left of the map
unfoldable pub place_entries :
    List CpuInfoEntry → List (ℕ × Topology) → List CpuInfoEntry × List (ℕ × Topology)
unfolding erase_id place_entry
place_entries [] topology = ([], topology)
place_entries (e ∷ es) topology = elim (lookup_id e.processor topology) [
  | none ↦ let rest = place_entries es topology in (e ∷ rest.0, rest.1)
  | some t ↦
      let rest = place_entries es (erase_id e.processor topology) in
      (place_entry t e ∷ rest.0, rest.1)
]

unfoldable pub offline_entry : ℕ → ℕ → ℕ → CpuInfoEntry
offline_entry number package_id core = record empty_entry {
  processor = number;
  physical_id = package_id;
  core_id = core;
}

-- the CPUs that only sysfs knows, if it has both ids
unfoldable pub offline_entries : List (ℕ × Topology) → List CpuInfoEntry
unfolding offline_entry
offline_entries [] = []
offline_entries ((number, t) ∷ m) =
    let rest = offline_entries m in
    elim t.package_id [
      | none ↦ rest
      | some package_id ↦ elim t.core [
        | none ↦ rest
        | some core ↦ offline_entry number package_id core ∷ rest
      ]
    ]

unfoldable pub apply_sysfs_topology : RawStore → List CpuInfoEntry → List CpuInfoEntry
unfolding read_topology place_entries offline_entries
apply_sysfs_topology raw entries =
    let placed = place_entries entries (read_topology (get_all raw RawSource.sysfs_cpu) []) in
    placed.0 ++ offline_entries placed.1
