-- ===== src/CpuInfo/Build.antt =====
-- Packages, cores and logical CPUs: the middle of `parse_cpu` of src/parser/cpu.cpp, and their
-- types of include/sysal/model/cpu.hpp.
use sysal.Prelude.{
  ◌==◌, if◌then◌else◌, length, get_elem?, keep, first, get_or, Bytes, codes, ◌>>=◌, ℕ, suc, ◌+◌,
  ◌%◌, ◌^◌, true, Option, none, some, List, [], ◌∷◌, ◌++◌, map,
}
use sysal.Prelude.Maps.{utf8, lookup_id}
use sysal.Prelude.Sets.{set_insert}
use sysal.Number.{to_string}
use sysal.Cpu.{LogicalCpu}
use sysal.RawStore.{RawStore}
use sysal.CpuInfo.{CpuInfoEntry, empty_entry}
use sysal.CpuInfo.Caches.{pair_lt, pair_eq}
use sysal.CpuInfo.Measures.{read_cpufreq}
use sysal.CpuInfo.Numa.{NumaMap}

pub record CpuPackage : Type 0 where
  pub id : ℕ
  pub vendor : Bytes
  pub model_name : Bytes
  pub physical_cores : ℕ
  pub logical_threads : ℕ
  pub base_frequency : Option ℕ
  pub max_frequency : Option ℕ

pub record CpuCore : Type 0 where
  pub id : ℕ
  pub package_id : ℕ
  pub logical_threads : ℕ
  pub numa_node : Option ℕ

-- `package_ids`
unfoldable pub package_ids : List CpuInfoEntry → List ℕ → List ℕ
package_ids [] ids = ids
package_ids (e ∷ es) ids = package_ids es (set_insert e.physical_id ids)

unfoldable pub insert_pair : ℕ × ℕ → List (ℕ × ℕ) → List (ℕ × ℕ)
insert_pair p [] = p ∷ []
insert_pair p (q ∷ qs) =
    let rest = insert_pair p qs in
    if pair_lt p q then p ∷ q ∷ qs else if pair_eq p q then q ∷ qs else q ∷ rest

-- `core_keys`
unfoldable pub core_keys : List CpuInfoEntry → List (ℕ × ℕ) → List (ℕ × ℕ)
unfolding insert_pair
core_keys [] keys = keys
core_keys (e ∷ es) keys = core_keys es (insert_pair (e.physical_id, e.core_id) keys)

-- `package_id_map`: the place of an id in the set
unfoldable pub find_id : ℕ → List ℕ → Option ℕ
find_id id [] = none
find_id id (x ∷ xs) =
    let rest = find_id id xs in if id == x then some 0 else (rest >>= λ i. some (suc i))

-- `core_key_map`
unfoldable pub find_key : ℕ × ℕ → List (ℕ × ℕ) → Option ℕ
find_key key [] = none
find_key key (k ∷ ks) =
    let rest = find_key key ks in if pair_eq key k then some 0 else (rest >>= λ i. some (suc i))

unfoldable pub first_of_package : List CpuInfoEntry → ℕ → Option CpuInfoEntry
first_of_package entries pid = first (λ e. e.physical_id == pid) entries

-- the package with the number `seq`, named after its first entry
unfoldable pub make_package : List CpuInfoEntry → ℕ → ℕ → CpuPackage
unfolding first_of_package
make_package entries seq pid =
    let e = get_or (first_of_package entries pid) empty_entry in
    record {
      id = seq;
      vendor = e.vendor_id;
      model_name = e.model_name;
      physical_cores = 0;
      logical_threads = 0;
      base_frequency = none;
      max_frequency = none;
    }

unfoldable pub make_packages : List CpuInfoEntry → ℕ → List ℕ → List CpuPackage
unfolding make_package
make_packages entries seq [] = []
make_packages entries seq (pid ∷ pids) =
    make_package entries seq pid ∷ make_packages entries (seq + 1) pids

-- a package that is missing from the map would be 0, as `operator[]` makes it
unfoldable pub make_cores : List ℕ → ℕ → List (ℕ × ℕ) → List CpuCore
make_cores packages seq [] = []
make_cores packages seq ((physical, core) ∷ keys) =
    record {
      id = seq;
      package_id = get_or (find_id physical packages) 0;
      logical_threads = 0;
      numa_node = none;
    }
    ∷ make_cores packages (seq + 1) keys

unfoldable pub make_logical : CpuInfoEntry → ℕ → ℕ → LogicalCpu
make_logical e core package_id = record {
  id = e.processor;
  core_id = core;
  package_id = package_id;
  numa_node = none;
  visible_to_current_process = some true;
  identification = e.identification;
  online = none;
}

abbrev no_core_warning : CpuInfoEntry → Bytes
no_core_warning e =
    utf8 "parse_cpu: 逻辑 CPU "
    ++ to_string e.processor
    ++ utf8 " 的 (physical_id="
    ++ to_string e.physical_id
    ++ codes ", core_id="
    ++ to_string e.core_id
    ++ utf8 ") 未找到匹配核"

abbrev no_package_warning : CpuInfoEntry → Bytes
no_package_warning e =
    utf8 "parse_cpu: 逻辑 CPU "
    ++ to_string e.processor
    ++ utf8 " 的 physical_id="
    ++ to_string e.physical_id
    ++ utf8 " 未找到匹配封装"

-- the loop over the entries, with its two warnings
unfoldable pub make_logicals :
    List (ℕ × ℕ)
    → List ℕ
    → List CpuInfoEntry
    → List LogicalCpu × List Bytes
    → List LogicalCpu × List Bytes
unfolding make_logical
make_logicals keys packages [] state = state
make_logicals keys packages (e ∷ es) (logicals, warnings) =
    make_logicals keys packages es (elim (find_key (e.physical_id, e.core_id) keys) [
      | none ↦ (logicals, warnings ++ no_core_warning e ∷ [])
      | some core ↦ elim (find_id e.physical_id packages) [
        | none ↦ (logicals, warnings ++ no_package_warning e ∷ [])
        | some package_id ↦ (logicals ++ make_logical e core package_id ∷ [], warnings)
      ]
    ])

-- the sums are taken in 32 bits
unfoldable pub count_package : List CpuCore → List LogicalCpu → CpuPackage → CpuPackage
count_package cores logicals p = record p {
  physical_cores = length (keep (λ c. c.package_id == p.id) cores) % 2 ^ 32;
  logical_threads = length (keep (λ l. l.package_id == p.id) logicals) % 2 ^ 32;
}

unfoldable pub count_core : List LogicalCpu → CpuCore → CpuCore
count_core logicals c = record c {
  logical_threads = length (keep (λ l. l.core_id == c.id) logicals) % 2 ^ 32;
}

-- the CPUs of the package whose original id is the one at its place in the set
unfoldable pub package_cpus : List CpuInfoEntry → ℕ → List ℕ
package_cpus entries raw_pkg_id =
    map (λ e. e.processor) (keep (λ e. e.physical_id == raw_pkg_id) entries)

unfoldable pub measure_package : RawStore → List CpuInfoEntry → List ℕ → CpuPackage → CpuPackage
unfolding package_cpus
measure_package raw entries packages p =
    let frequencies =
      read_cpufreq raw (package_cpus entries (get_or (get_elem? packages p.id) 0)) in
    record p { base_frequency = frequencies.0; max_frequency = frequencies.1 }

-- the node of the first logical CPU of a core
unfoldable pub core_node : NumaMap → List LogicalCpu → CpuCore → CpuCore
core_node nodes logicals c = elim (first (λ l. l.core_id == c.id) logicals) [
  | none ↦ c
  | some l ↦ elim (lookup_id l.id nodes) [
    | none ↦ c
    | some node ↦ record c { numa_node = some node }
  ]
]

unfoldable pub logical_node : NumaMap → LogicalCpu → LogicalCpu
logical_node nodes l = elim (lookup_id l.id nodes) [
  | none ↦ l
  | some node ↦ record l { numa_node = some node }
]
