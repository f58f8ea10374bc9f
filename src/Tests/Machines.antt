-- ===== src/Tests/Machines.antt =====
-- Runs and instances for devices that are parsed: src/parser/pci.cpp, src/parser/cpu.cpp,
-- src/parser/cpu_details.cpp and src/parser/sensors.cpp.
use sysal.Prelude.{
  All, Bytes, codes, text_eq, text_mem, starts_with, ℕ, ◌+◌, ◌-◌, ◌≡◌, refl, true, false, Option,
  none, some, List, [], ◌∷◌, ◌++◌, map,
}
use sysal.Prelude.Sets.{set_insert}
use sysal.Types.{RawSource, success, source_eq, is_success}
use sysal.Text.{
  is_space, to_lower, trim_begin, trim_end, trim, split_loop, split, find, rfind, holds, find_text,
  rfind_text, is_digit, take_digits, find_from, ends_with, parse_kv, extract_filename,
  hardware_text,
}
use sysal.Number.{
  digit_value, scan_digits, from_chars, whole, parse_uint, parse_u32, parse_hex, negsuc, signed_lt,
  negate, whole_signed, digit_char, print_digits, to_string,
}
use sysal.Pci.{pci_eq, parse_field, parse_pci_address}
use sysal.CpuList.{
  max_cpu_count, normalize, token_range, insert_range, insert_tokens, parse_cpu_id_list,
}
use sysal.CpuList.Rounds.{range_loop, token_range-range_loop}
use sysal.RawStore.{kind_eq, RawRecord, RawStore, enumeration_loop, enumeration, get_all}
use sysal.PciDevices.{
  PciDevice, extract_pci_address_from_path, last_two, is_address, set_upstream, read_count,
  read_width, set_field, read_numa, add_record, add_records, group_records,
}
use sysal.PciDevices.Lspci.{normalize_lspci_address, last_brackets, is_id_pair, parse_lspci_line}
use sysal.PciDevices.Merge.{
  push_device, add_group, add_groups, name_device, merge_name, merge_lines, merge_records,
  pci_missing, pci_state, parse_pci,
}
use sysal.PciDevices.Table.{rows, pci_table, IsDistinct}
use sysal.PciDevices.Refines.{parse_pci-table}
use sysal.PciDevices.Addresses.{address_texts, IsNamed, parse_pci-addresses}
use sysal.CpuDetails.{
  CpuDetails, read_frequency, set_frequency, set_cpus, set_policy_text, read_policy_field,
  update_policy,
}
use sysal.CpuDetails.Merge.{
  ids_eq, ids_mem, select_policies, report_online, list_online, finish_details, has_modern_policies,
  read_cpu_details,
}
use sysal.CpuDetails.Online.{IsListed, read_cpu_details-IsListed}
use sysal.CpuInfo.Numa.{
  assign_cpu, assign_range, last_key, assign_part, assign_parts, node_of_path, assign_records,
  build_numa_mapping, collect_nodes, make_node, build_numa_nodes,
}
use sysal.CpuInfo.Parse.{
  CpuModel, cpuinfo_record, guess_arch, initial_details, build_cpu, parse_entries, parse_cpu,
}
use sysal.CpuInfo.Sound.{IsConsistent, Always, parse_cpu-IsConsistent}
use sysal.Sensors.{Attributes, value, measurement, flag}
use sysal.Sensors.Groups.{lower_limit, is_critical_trip, trip_limit, critical_trips}
use sysal.Sensors.Limits.{IsCovered, critical_trips-IsCovered}
use sysal.CpuInfo.{
  empty_identification, complete_entry, finish_entry, feature_words, parse_id_number, set_id_number,
  set_processor, set_key, read_key, read_info_line, read_info_lines, parse_cpuinfo,
}
use sysal.Prelude.Maps.{text_lt, insert_text, lookup_key, update_key, lookup_id, update_id}
use sysal.CpuInfo.Topology.{
  number_behind, extract_cpu_number_from_path, set_topology, add_topology, read_topology, erase_id,
  place_entry, place_entries, offline_entry, offline_entries, apply_sysfs_topology,
}
use sysal.CpuInfo.Caches.{
  type_code, last_byte, suffix_multiplier, parse_cache_size, parse_cache_type, extract_cache_key,
  set_cache_number, or_old, set_cache_field, pair_lt, pair_eq, update_cache, read_caches, option_eq,
  same_cache, push_caches, read_cpu_caches,
}
use sysal.CpuInfo.Build.{
  package_ids, insert_pair, core_keys, find_id, find_key, first_of_package, make_package,
  make_packages, make_cores, make_logical, make_logicals, count_package, count_core, package_cpus,
  measure_package, core_node, logical_node,
}
use sysal.CpuInfo.Measures.{
  add_frequency, is_cpu_of, read_frequencies, only_one, read_cpufreq, read_governors, one_governor,
  read_cpu_governor, set_zone, zone_name, read_zones, measured_zones, read_thermal_zones,
  present_extensions, legacy_isa_extensions,
}
use sysal.CpuDetails.Records.{
  read_bit, read_present, smt_support, read_control, read_switch, before_slash, read_online,
  policy_index, read_policy, read_detail, read_details,
}
use sysal.Cpu.Features.{insert_texts}

abbrev read_record_of : RawSource → Bytes → Bytes → RawRecord
read_record_of source path payload = record {
  source = source;
  path_or_command = path;
  payload = payload;
  status = success;
  collected_at = 0;
  failure = none;
  skip = none;
}

abbrev store_of : List RawRecord → RawStore
store_of records = record { records = records; enumerations = []; collection_request = none }

-- a device of sysfs that lspci names, and one that only lspci knows
abbrev pci_store : RawStore
pci_store = store_of (
    read_record_of RawSource.sysfs_pci (codes "/sys/bus/pci/devices/0000:41:00.0/vendor")
      (codes "0x10de")
    ∷ read_record_of RawSource.sysfs_pci (codes "/sys/bus/pci/devices/0000:41:00.0/numa_node")
        (codes "1")
    ∷ read_record_of RawSource.lspci (codes "lspci -nn") (
        codes "41:00.0 VGA [0300]: NVIDIA GTX [Ti] [10de:1b06] (rev a1)"
        ++ b'\n' ∷ codes "42:00.0 Audio [0403]: NVIDIA HDA [10de:10ef]")
    ∷ [])

names_of : RawStore → List (Bytes × Option ℕ)
names_of raw = map (λ d. (d.device_name, d.numa_node)) (pci_state raw []).devices

pci_names : names_of pci_store ≡ (codes "NVIDIA GTX [Ti]", some 1) ∷ (codes "NVIDIA HDA", none) ∷ []
unfolding names_of add_group add_groups add_record add_records digit_value extract_filename
    extract_pci_address_from_path find find_from find_text from_chars get_all group_records
    hardware_text insert_range insert_tokens is_address is_id_pair is_space is_success last_brackets
    last_two lookup_key merge_lines merge_name merge_records name_device normalize
    normalize_lspci_address parse_cpu_id_list parse_field parse_hex parse_lspci_line
    parse_pci_address parse_u32 parse_uint pci_eq pci_state push_device read_count read_numa
    read_width rfind scan_digits set_field set_insert set_upstream source_eq split split_loop
    starts_with text_eq text_lt text_mem to_lower token_range trim trim_begin trim_end update_key
    value whole
pci_names = refl

pci_present : pci_missing pci_store ≡ false
unfolding enumeration enumeration_loop get_all kind_eq pci_missing source_eq
pci_present = refl

parse_pci-table_example :
    ((parse_pci pci_store []).0 ≡ some (rows (pci_table pci_store)))
    × IsDistinct (pci_table pci_store)
parse_pci-table_example = parse_pci-table pci_store [] pci_present

parse_pci-addresses_example :
    (devices : List PciDevice) × ((parse_pci pci_store []).0 ≡ some devices)
    × All (IsNamed (address_texts pci_store)) devices
parse_pci-addresses_example = parse_pci-addresses pci_store [] pci_present

-- two CPUs on one core, and one on a second package
abbrev cpu_store : RawStore
cpu_store = store_of (
    read_record_of RawSource.proc_cpu_info (codes "/proc/cpuinfo") (
      codes "processor : 0"
      ++ b'\n' ∷ codes "physical id : 3"
      ++ b'\n' ∷ codes "core id : 7"
      ++ b'\n' ∷ b'\n' ∷ codes "processor : 1"
      ++ b'\n' ∷ codes "physical id : 3"
      ++ b'\n' ∷ codes "core id : 7"
      ++ b'\n' ∷ b'\n' ∷ codes "processor : 2"
      ++ b'\n' ∷ codes "physical id : 5"
      ++ b'\n' ∷ codes "core id : 0")
    ∷ read_record_of RawSource.sysfs_numa (codes "/sys/devices/system/node/node1/cpulist")
        (codes "0-1")
    ∷ read_record_of RawSource.sysfs_cpu (codes "/sys/devices/system/cpu/online") (codes "0,2")
    ∷ [])

-- the places of the cores and packages of the CPUs
places_of : Option CpuModel → List (ℕ × ℕ)
places_of none = []
places_of (some m) = map (λ l. (l.core_id, l.package_id)) m.details.logical_cpus

cpu_places : places_of (parse_cpu cpu_store []).0 ≡ (0, 0) ∷ (0, 0) ∷ (1, 1) ∷ []
unfolding places_of add_frequency add_topology apply_sysfs_topology assign_cpu assign_part
    assign_parts assign_range assign_records before_slash build_cpu build_numa_mapping
    build_numa_nodes collect_nodes complete_entry core_keys core_node count_core count_package
    cpuinfo_record digit_char digit_value ends_with erase_id extract_cache_key
    extract_cpu_number_from_path extract_filename feature_words find find_id find_key find_text
    finish_details finish_entry first_of_package flag from_chars get_all guess_arch
    has_modern_policies holds ids_eq ids_mem insert_pair insert_range insert_text insert_texts
    insert_tokens is_cpu_of is_digit is_space is_success last_byte last_key legacy_isa_extensions
    list_online logical_node lookup_id lookup_key make_cores make_logical make_logicals make_node
    make_package make_packages measure_package measured_zones node_of_path normalize number_behind
    offline_entries offline_entry one_governor only_one option_eq or_old package_cpus package_ids
    pair_eq pair_lt parse_cache_size parse_cache_type parse_cpu parse_cpu_id_list parse_cpuinfo
    parse_entries parse_hex parse_id_number parse_kv parse_u32 parse_uint place_entries place_entry
    policy_index present_extensions print_digits push_caches read_bit read_caches read_control
    read_cpu_caches read_cpu_details read_cpu_governor read_cpufreq read_detail read_details
    read_frequencies read_frequency read_governors read_info_line read_info_lines read_key
    read_online read_policy read_policy_field read_present read_switch read_thermal_zones
    read_topology read_zones report_online rfind rfind_text same_cache scan_digits select_policies
    set_cache_field set_cache_number set_cpus set_frequency set_id_number set_insert set_key
    set_policy_text set_processor set_topology set_zone smt_support source_eq split split_loop
    starts_with suffix_multiplier take_digits text_eq text_lt text_mem to_string token_range trim
    trim_begin trim_end type_code update_cache update_id update_key update_policy value whole
    zone_name
cpu_places = refl

parse_cpu-IsConsistent_example : Always IsConsistent (parse_cpu cpu_store []).0
parse_cpu-IsConsistent_example = parse_cpu-IsConsistent cpu_store []

numa_pairs : build_numa_mapping cpu_store ≡ (0, 1) ∷ (1, 1) ∷ []
unfolding assign_cpu assign_part assign_parts assign_range assign_records build_numa_mapping
    digit_value find find_text from_chars get_all holds is_space is_success last_key lookup_key
    node_of_path parse_uint scan_digits source_eq split split_loop starts_with text_eq trim
    trim_begin trim_end update_id value whole
numa_pairs = refl

abbrev two_cpus : CpuDetails
two_cpus = initial_details (
    record {
      id = 0;
      core_id = 0;
      package_id = 0;
      numa_node = none;
      visible_to_current_process = none;
      identification = empty_identification;
      online = none;
    }
    ∷ record {
      id = 1;
      core_id = 0;
      package_id = 0;
      numa_node = none;
      visible_to_current_process = none;
      identification = empty_identification;
      online = none;
    }
    ∷ [])

online_flags :
    map (λ l. l.online) (read_cpu_details cpu_store two_cpus []).0.logical_cpus
    ≡ some true ∷ some false ∷ []
unfolding before_slash digit_value ends_with extract_filename find finish_details from_chars get_all
    has_modern_policies ids_eq ids_mem insert_range insert_tokens is_space is_success list_online
    lookup_id lookup_key normalize parse_cpu_id_list parse_u32 parse_uint policy_index read_bit
    read_control read_cpu_details read_detail read_details read_frequency read_online read_policy
    read_policy_field read_present read_switch report_online rfind scan_digits select_policies
    set_cpus set_frequency set_insert set_policy_text smt_support source_eq split split_loop
    starts_with text_eq text_mem token_range trim trim_begin trim_end update_id update_policy value
    whole
online_flags = refl

read_cpu_details-IsListed_example :
    All
      (IsListed (read_cpu_details cpu_store two_cpus []).0.online_cpu_ids)
      (read_cpu_details cpu_store two_cpus []).0.logical_cpus
read_cpu_details-IsListed_example = read_cpu_details-IsListed cpu_store two_cpus []

token_three : token_range (codes "3-9") ≡ some (3, 9)
unfolding digit_value find from_chars is_space lookup_key parse_uint scan_digits text_eq token_range
    trim trim_begin trim_end value whole
token_three = refl

token_range-range_loop_example :
    range_loop (max_cpu_count + 1) 3 9 (4 ∷ []) ≡ some (insert_range (9 + 1 - 3) 3 (4 ∷ []))
token_range-range_loop_example = token_range-range_loop (codes "3-9") 3 9 (4 ∷ []) token_three

-- a thermal zone with two critical trip points
abbrev zone : Attributes
zone =
    (codes "temp", codes "45000")
    ∷ (codes "trip_point_0_temp", codes "105000")
    ∷ (codes "trip_point_0_type", codes "critical")
    ∷ (codes "trip_point_1_temp", codes "-5000")
    ∷ (codes "trip_point_1_type", codes "critical")
    ∷ []

lowest_trip : critical_trips zone zone none ≡ some (negsuc 4999)
unfolding critical_trips digit_value ends_with from_chars is_critical_trip is_space lookup_key
    lower_limit measurement negate scan_digits signed_lt starts_with text_eq trim trim_begin
    trim_end trip_limit value whole whole_signed
lowest_trip = refl

critical_trips-IsCovered_example : All (IsCovered zone (critical_trips zone zone none)) zone
critical_trips-IsCovered_example = critical_trips-IsCovered zone zone none
