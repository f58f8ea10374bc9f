-- ===== src/CpuInfo/Parse.antt =====
-- `parse_cpu` of src/parser/cpu.cpp: all parts together.
use sysal.Prelude.{
  if◌then◌else◌, first, is_nil, get_or, Bytes, codes, true, ◌||◌, Option, none, some, List, [], ◌∷◌,
  ◌++◌, map,
}
use sysal.Prelude.Maps.{utf8}
use sysal.Types.{Arch, RawSource, is_success}
use sysal.Text.{holds}
use sysal.RawStore.{RawRecord, RawStore, get_all}
use sysal.Cpu.{LogicalCpu}
use sysal.CpuDetails.{CpuDetails}
use sysal.CpuDetails.Merge.{read_cpu_details}
use sysal.CpuInfo.{CpuInfoEntry, parse_cpuinfo}
use sysal.CpuInfo.Topology.{apply_sysfs_topology}
use sysal.CpuInfo.Caches.{CpuCache, read_cpu_caches}
use sysal.CpuInfo.Measures.{
  read_cpu_governor, ThermalZone, read_thermal_zones, IsaExtension, legacy_isa_extensions,
}
use sysal.CpuInfo.Numa.{build_numa_mapping, NumaNode, build_numa_nodes}
use sysal.CpuInfo.Build.{
  CpuPackage, CpuCore, package_ids, core_keys, make_packages, make_cores, make_logicals,
  count_package, count_core, measure_package, core_node, logical_node,
}

-- the fields that `read_cpu_details` reads and writes stand in `details`
pub record CpuModel : Type 0 where
  pub arch : Arch
  pub packages : List CpuPackage
  pub cores : List CpuCore
  pub numa_nodes : List NumaNode
  pub isa_extensions : List IsaExtension
  pub caches : List CpuCache
  pub governor : Bytes
  pub thermal_zones : List ThermalZone
  pub details : CpuDetails

-- the first record that succeeded
unfoldable pub cpuinfo_record : RawStore → Option RawRecord
cpuinfo_record raw = first (λ r. is_success r.status) (get_all raw RawSource.proc_cpu_info)

-- `arch` is value-initialized to the first enumerator
abbrev default_arch : Arch
default_arch = Arch.x86_64

unfoldable pub guess_arch : Bytes → Arch
guess_arch vendor =
    if holds vendor (codes "GenuineIntel") || holds vendor (codes "AuthenticAMD")
    then Arch.x86_64
    else default_arch

abbrev pub initial_details : List LogicalCpu → CpuDetails
initial_details logicals = record {
  logical_cpus = logicals;
  present_cpu_ids = none;
  online_cpu_ids = none;
  smt_control = [];
  smt_supported = none;
  smt_active = none;
  boost_enabled = none;
  frequency_policies = [];
}

-- the model of the entries, of which there is a first one
unfoldable pub build_cpu :
    RawStore → CpuInfoEntry → List CpuInfoEntry → List Bytes → CpuModel × List Bytes
unfolding guess_arch
build_cpu raw head entries warnings =
    let pids = package_ids entries [] in
    let keys = core_keys entries [] in
    let made = make_logicals keys pids entries ([], warnings) in
    let cores = make_cores pids 0 keys in
    let nodes = build_numa_mapping raw in
    let details = read_cpu_details raw (initial_details (map (logical_node nodes) made.0)) made.1 in
    (
      record {
        arch = guess_arch head.vendor_id;
        packages =
            map (measure_package raw entries pids)
              (map (count_package cores made.0) (make_packages entries 0 pids));
        cores = map (core_node nodes made.0) (map (count_core made.0) cores);
        numa_nodes = build_numa_nodes nodes;
        isa_extensions = if is_nil head.flags then [] else legacy_isa_extensions head.flags;
        caches = read_cpu_caches raw;
        governor = read_cpu_governor raw;
        thermal_zones = read_thermal_zones raw;
        details = details.0;
      },
      details.1,
    )

abbrev missing_cpuinfo : Bytes
missing_cpuinfo = utf8 "parse_cpu: 缺少 /proc/cpuinfo 数据"

abbrev no_entries : Bytes
no_entries = utf8 "parse_cpu: /proc/cpuinfo 无有效条目"

unfoldable pub parse_entries :
    RawStore → List CpuInfoEntry × List Bytes → Option CpuModel × List Bytes
unfolding build_cpu
parse_entries raw ([], warnings) = (none, warnings ++ no_entries ∷ [])
parse_entries raw (e ∷ es, warnings) =
    let entries = apply_sysfs_topology raw (e ∷ es) in
    let result = build_cpu raw (get_or (first (λ x. true) entries) e) entries warnings in
    (some result.0, result.1)

unfoldable pub parse_cpu : RawStore → List Bytes → Option CpuModel × List Bytes
unfolding parse_entries cpuinfo_record
parse_cpu raw warnings = elim (cpuinfo_record raw) [
  | none ↦ (none, warnings ++ missing_cpuinfo ∷ [])
  | some rec ↦ parse_entries raw (parse_cpuinfo rec.payload warnings)
]
