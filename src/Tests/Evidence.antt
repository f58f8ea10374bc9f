-- ===== src/Tests/Evidence.antt =====
-- Runs and instances for the store of evidence, the flags, the limits and the pipeline:
-- src/model/raw_store.cpp, src/api/collect_options.cpp, src/parser/cgroup.cpp,
-- src/parser/execution.cpp, src/resolver/inventory.cpp and src/pipeline/pipeline.cpp.
use sysal.Prelude.{
  ltb, any, keep, is_nil, is_some, All, Bytes, codes, text_eq, text_mem, ℕ, zero, suc, ◌*◌, ◌/◌,
  ◌^◌, ◌<◌, ◌≡◌, refl, ◌↔◌, Bool, true, false, not, ◌&&◌, ◌||◌, Option, none, some, [], ◌∷◌, arith,
}
use sysal.Types.{RawSource, success, source_eq, is_success}
use sysal.RawStore.{
  InventoryKind, kind_eq, InventoryCompleteness, InventoryEnumeration, RawRecord, RawStore,
  enumeration_loop, enumeration, get_all, has_source, has_success,
}
use sysal.RawStore.Laws.{of_kind, enumeration_iff}
use sysal.Collect.{has, default_options, CollectionRequest, validate}
use sysal.Collect.Flags.{IsQuery, IsDevices, validate-none}
use sysal.Execution.{empty_context}
use sysal.Execution.Status.{
  bit_set, named_bits, decode_capabilities, id_part, read_uid, read_gid, read_cpus,
  read_status_line, read_status_lines, set_root, parse_proc_self_status,
}
use sysal.Execution.Facts.{last_id, parse_proc_self_status-is_root}
use sysal.Cgroup.{
  CpuBudget, budget_lt, cpu_reading, note_period, memory_reading, parent_path, append_path,
  value_at, just_two, two_words, is_not_collected, store_limits, limit_warnings, add_cpu,
  add_memory, read_limit_file, read_limit_files, parse_cgroup_limits,
}
use sysal.Cgroup.Summary.{
  adopt_state, unlimited_state, known_state, incomplete_state, adopt_best, take_reading, limits,
  has_unreadable, IsBest,
}
use sysal.Cgroup.Limits.{
  memory_readings, group_of, BudgetAt, parse_cgroup_limits_memory, cpu_readings,
  parse_cgroup_limits_cpu,
}
use sysal.Inventory.{distinct, same_set, matches_names, is_reliable, observed, report_of, report}
use sysal.Inventory.Complete.{IsExact, report_iff}
use sysal.Pipeline.{
  ParseResult, checks, record_collector_status, collect_status, parser_dispatch, dispatched,
}
use sysal.Pipeline.Context.{parse_execution, parse_execution-is_some}
use sysal.Pipeline.Collectors.{
  Collector, every_collector, flag_of, name_of, has_result, record_collector_status-collector,
  is_refused, collect_status-is_refused,
}
use sysal.Cgroup.Readings.{IsLongDouble}
use sysal.Text.{
  is_space, trim_begin, trim_end, trim, split_loop, split, find, rfind, ends_with, parse_kv,
  extract_filename,
}
use sysal.Pipeline.Status.{HoldsDomain, checks-dispatched}
use sysal.Number.{digit_value, scan_digits, from_chars, whole, parse_uint, parse_hex}
use sysal.Sensors.{value}
use sysal.Prelude.Maps.{lookup_key}
use sysal.CpuList.Members.{names}
use sysal.CpuList.{normalize, token_range, insert_range, insert_tokens, parse_cpu_id_list}
use sysal.Text.Words.{words_loop, words}
use sysal.Prelude.Sets.{set_insert}

abbrev file_record : RawSource → Bytes → Bytes → RawRecord
file_record source path payload = record {
  source = source;
  path_or_command = path;
  payload = payload;
  status = success;
  collected_at = 0;
  failure = none;
  skip = none;
}

abbrev nets : InventoryEnumeration
nets = record {
  inventory = InventoryKind.network_interfaces;
  source = RawSource.sysfs_net;
  origin = codes "/sys/class/net";
  entries = codes "lo" ∷ [];
  status = success;
  failure = none;
}

abbrev cpu_max : Bytes
cpu_max = codes "/sys/fs/cgroup/cpu.max"

abbrev store : RawStore
store = record {
  records =
      file_record RawSource.cgroup_file cpu_max (codes "200000 100000")
      ∷ file_record RawSource.cgroup_file (codes "/sys/fs/cgroup/a/cpu.max") (codes "100000 200000")
      ∷ file_record RawSource.cgroup_file (codes "/sys/fs/cgroup/memory.max") (codes "4096")
      ∷ file_record RawSource.environment (codes "/proc/self/environ") (codes "A=b")
      ∷ [];
  enumerations = nets ∷ [];
  collection_request = none;
}

enumeration_iff_example :
    (enumeration store InventoryKind.network_interfaces ≡ some nets)
    ↔ (of_kind InventoryKind.network_interfaces store.enumerations ≡ nets ∷ [])
enumeration_iff_example = enumeration_iff store InventoryKind.network_interfaces nets

report_iff_example :
    ((report store InventoryKind.network_interfaces (codes "lo" ∷ []) []).completeness
      ≡ InventoryCompleteness.complete)
    ↔ ((e : InventoryEnumeration) × (enumeration store InventoryKind.network_interfaces ≡ some e)
        × ((is_success e.status ≡ true) × (e.failure ≡ none))
        × IsExact e (codes "lo" ∷ []))
report_iff_example = report_iff store InventoryKind.network_interfaces (codes "lo" ∷ []) []

abbrev basic_request : CollectionRequest
basic_request = record { flags = 263; options = default_options }

validate-none_example :
    (validate basic_request ≡ none)
    ↔ ((263 < 4096) × IsQuery default_options.filesystems × IsDevices default_options.sensors)
validate-none_example = validate-none basic_request (omega arith)

-- quotients with 64 binary digits behind the point; by 0 there is none
abbrev fixed_quotient : ℕ → ℕ → Option ℕ
fixed_quotient n zero = none
fixed_quotient n (suc d) = some (n * 2 ^ 64 / suc d)

abbrev fixed_below : Option ℕ → Option ℕ → Bool
fixed_below none q = false
fixed_below (some a) none = false
fixed_below (some a) (some b) = ltb a b

abbrev no_quotient : Option ℕ → Bool
no_quotient none = true
no_quotient (some q) = false

fixed_quotient-IsLongDouble : IsLongDouble no_quotient fixed_quotient fixed_below
fixed_quotient-IsLongDouble = record {
  quotient = λ n d h. by_positive n d h;
  irreflexive = λ q _. below_itself q;
  transitive = λ q r s hq hr hs h k. below_chain q r s hr h k;
  asymmetric = λ q r _ _ h. below_once q r h;
}
  where
    by_positive : (n d : ℕ) → 0 < d → no_quotient (fixed_quotient n d) ≡ false
    by_positive n zero h = absurd (omega arith)
    by_positive n (suc d) h = refl

    below_itself : (q : Option ℕ) → fixed_below q q ≡ false
    below_itself none = refl
    below_itself (some a) = ground arith

    below_chain :
        (q r s : Option ℕ)
        → no_quotient r ≡ false
        → fixed_below q r ≡ false
        → fixed_below r s ≡ false
        → fixed_below q s ≡ false
    below_chain none r s n h k = refl
    below_chain (some a) r none n h k = refl
    below_chain (some a) none (some c) n h k = absurd (ground (arith, n))
    below_chain (some a) (some b) (some c) n h k = ground arith

    below_once : (q r : Option ℕ) → fixed_below q r ≡ true → fixed_below r q ≡ false
    below_once none r h = absurd (ground (arith, h))
    below_once (some a) none h = refl
    below_once (some a) (some b) h = ground arith

abbrev fixed_lt : CpuBudget → CpuBudget → Bool
fixed_lt = budget_lt fixed_quotient fixed_below

-- two CPUs in the outer group, half of one in the inner one, though with the greater period
two_budgets : (group_of fixed_lt store empty_context []).cpu_quota_us ≡ some 100000
unfolding add_cpu add_memory adopt_best adopt_state append_path budget_lt cpu_reading digit_value
    distinct ends_with enumeration enumeration_loop extract_filename find from_chars get_all
    incomplete_state is_not_collected is_reliable is_space is_success just_two kind_eq known_state
    limit_warnings lookup_key matches_names memory_reading names note_period observed parent_path
    parse_cgroup_limits parse_uint read_limit_file read_limit_files report report_of rfind same_set
    scan_digits source_eq store_limits take_reading text_eq text_mem token_range trim trim_begin
    trim_end two_words unlimited_state value value_at whole words words_loop
two_budgets = refl

parse_cgroup_limits_memory_example :
    ((group_of fixed_lt store empty_context []).memory_limit_known
      ≡ (not (has_unreadable (memory_readings store)) && not (is_nil (memory_readings store))))
    × IsBest ltb
        (group_of fixed_lt store empty_context []).memory_limit
        (limits (memory_readings store))
parse_cgroup_limits_memory_example = parse_cgroup_limits_memory fixed_lt store empty_context [] refl

parse_cgroup_limits_cpu_example :
    ((group_of fixed_lt store empty_context []).cpu_limit_known
      ≡ (not (has_unreadable (cpu_readings store)) && not (is_nil (cpu_readings store))))
    × ((o : Option CpuBudget) × BudgetAt o (group_of fixed_lt store empty_context [])
        × IsBest
            (λ a b. fixed_below (fixed_quotient a.quota a.period) (fixed_quotient b.quota b.period))
            o
            (limits (cpu_readings store)))
parse_cgroup_limits_cpu_example =
    parse_cgroup_limits_cpu no_quotient fixed_quotient fixed_below fixed_quotient-IsLongDouble store
      empty_context [] refl

abbrev status_text : Bytes
status_text = codes "Name:\tsh\nPid:\t7\n"

-- without a line of ids, the process counts as root
default_root : (parse_proc_self_status status_text (empty_context, [])).0.permission.is_root ≡ true
unfolding bit_set decode_capabilities digit_value find from_chars id_part insert_range insert_tokens
    is_space lookup_key named_bits normalize parse_cpu_id_list parse_hex parse_kv
    parse_proc_self_status parse_uint read_cpus read_gid read_status_line read_status_lines read_uid
    scan_digits set_insert set_root split split_loop text_eq token_range trim trim_begin trim_end
    value whole
default_root = refl

parse_proc_self_status-is_root_example :
    ((parse_proc_self_status status_text (empty_context, [])).0.permission.is_root ≡ true) ↔ (
      (last_id (codes "Uid") empty_context.permission.euid (split status_text b'\n') ≡ 0)
      × (last_id (codes "Gid") empty_context.permission.egid (split status_text b'\n') ≡ 0))
parse_proc_self_status-is_root_example =
    parse_proc_self_status-is_root status_text (empty_context, [])

parse_execution-is_some_example : is_some (parse_execution fixed_lt store []).0 ≡ (
    has_success store RawSource.proc_self_status
    || has_success store RawSource.proc_self_cgroup
    || has_success store RawSource.environment
    || has_source store RawSource.cgroup_file)
parse_execution-is_some_example = parse_execution-is_some fixed_lt store []

-- nothing was parsed
abbrev empty_result : ParseResult
empty_result = record { has_value = λ d. false; storage_health_available = false }

record_collector_status-collector_example :
    (text_mem (name_of Collector.cpu) (record_collector_status empty_result 263 ([], [])).0
      ≡ (has 263 (flag_of Collector.cpu) && has_result empty_result Collector.cpu))
    × (text_mem (name_of Collector.cpu) (record_collector_status empty_result 263 ([], [])).1
        ≡ (has 263 (flag_of Collector.cpu) && not (has_result empty_result Collector.cpu)))
record_collector_status-collector_example =
    record_collector_status-collector empty_result 263 Collector.cpu

collect_status-is_refused_example : is_refused (collect_status empty_result 263) ≡ (
    any (λ c. has 263 (flag_of c)) every_collector
    && not (any (λ c. has 263 (flag_of c) && has_result empty_result c) every_collector))
collect_status-is_refused_example = collect_status-is_refused empty_result 263

checks-dispatched_example :
    All
      (λ c. HoldsDomain c.domain (dispatched 263 parser_dispatch))
      (keep (λ c. has 263 c.flag) (checks empty_result))
checks-dispatched_example = checks-dispatched empty_result 263
