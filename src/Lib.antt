-- ===== src/Lib.antt =====
-- sysal, a library that collects system information on Linux
--
-- The program reads raw evidence from /proc, /sys and tools into a store, parses it domain by domain,
-- and resolves what the domains say of each other. This library models the store, the parsers of
-- texts and numbers that all others stand on, the parsers of CPUs, PCI devices, sensors and memory,
-- the execution context with its limits, the resolution of what the current process may
-- see, and the report on the health of the hardware. Paths are from the repository's root.
--
-- The parts, the files that model them, and the code:
-- - Prelude: Boolean tests, lists, texts as lists of bytes, bits of words, sets of numbers, and maps
--   as association lists that ascend in their keys.
-- - Text (trim, split, parse_kv, extract_filename, hardware_text), Number (parse_uint, parse_hex,
--   parse_device_number, parse_kb_to_bytes) and Pci (parse_pci_address): src/parser/parse_utils.cpp.
--   std::from_chars, std::to_string and the extraction of words from a stream are modelled by what
--   the C++ standard says of them, in the "C" locale.
-- - Types: include/sysal/types/enums.hpp and include/sysal/core/error.hpp.
-- - RawStore: include/sysal/model/raw_store.hpp, src/model/raw_store.cpp. A pointer into a list is the
--   element.
-- - Collect: include/sysal/core/collect.hpp and collect_options.hpp, src/api/collect_options.cpp. Flags
--   are a 32-bit word.
-- - CpuList: parse_cpu_id_list of src/parser/cpu_details.cpp. Its inner loop runs a number of rounds
--   that is the length of the range, so it needs no fuel.
-- - CpuDetails: the rest of src/parser/cpu_details.cpp. Records has one record of the loop, Merge what
--   follows the loop.
-- - CpuInfo: src/parser/cpu.cpp. Topology, Numa, Caches and Measures read sysfs, Build makes packages,
--   cores and logical CPUs of the entries, and Parse puts the parts together.
-- - PciDevices: include/sysal/model/pci.hpp and src/parser/pci.cpp, with Pci::find. Lspci has the lines
--   of lspci, Merge the state with its index, and Table the view without an index.
-- - Sensors: include/sysal/model/sensors.hpp and src/parser/sensors.cpp.
-- - Memory: include/sysal/model/memory.hpp, src/parser/memory_topology.cpp and memory_edac.cpp; and
--   src/parser/memory.cpp, with the sizes in Sizes, the DIMMs of udev in Udev, and the whole in Parse.
--   The order in which std::sort leaves devices of one identity is that of the directories.
-- - Storage: the records of include/sysal/model/storage*.hpp; its children are
--   src/parser/storage_topology.cpp, src/parser/storage_classification.cpp and
--   src/resolver/storage_connections.cpp.
-- - Network: include/sysal/model/network.hpp and rdma.hpp, src/parser/network_details.cpp.
-- - Health: include/sysal/model/hardware_health.hpp, src/resolver/hardware_health.cpp and
--   storage_health.cpp.
-- - Execution: include/sysal/model/execution.hpp and src/parser/execution.cpp; its children have one
--   parser each. Pipeline/Context has parse_execution, which calls them and the limits.
-- - Cgroup: src/parser/cgroup.cpp. CpuBudget::operator< is budget_lt; the division and the comparison
--   in long double that it calls are parameters, of which the theorem on the CPU limit assumes that a
--   quotient by a number above 0 is not NaN and that < is a strict weak order on what is not NaN.
-- - Accelerator: include/sysal/model/accelerator.hpp, part of src/model/resource.cpp and
--   src/parser/accelerator_evidence.hpp; its children Csv, Sycl and Selection are
--   src/resolver/accelerator_selection.cpp, and Visibility is src/resolver/accelerator_visibility.cpp.
-- - Cpu: CPUs of include/sysal/model/cpu.hpp and src/model/cpu_features.cpp.
-- - Mountinfo: src/common/mountinfo.cpp.
-- - Inventory: src/resolver/inventory.cpp. Entries has what the reports read of a SystemInfo.
-- - Resolve: src/resolver/resolve.cpp. Links has the merges by PCI address and controller index; the
--   rest is visibility and the cross checks.
-- - Pipeline: the status of collectors, the exception when all failed, the dispatch of parsers and the
--   observations of src/pipeline/pipeline.cpp. A ParseResult counts for which domains have a value.
-- - Tests: runs of the definitions, and the theorems at concrete inputs.
--
-- How they interact: the parsers read the store by its queries; parse_execution gathers the context,
-- whose environment and CPU set the resolver reads; the resolver narrows the accelerators by the
-- environment and by what runtimes observed, and then checks the context against the model.
--
-- State is passed explicitly: a parser that fills a context takes and returns it, with the warnings.
-- An early return of nothing is none; an exception of the validation is the error. All loops are
-- recursions on lists, or on the number of rounds that are left; printing a number in digits has fuel
-- above the number, so it never runs out. Counters of 32 bits wrap around where the code adds to them.
--
-- Not modelled: the parsers of network interfaces, RDMA ports, block devices, filesystems, accelerators, platform and software; run_replay and run_pipeline; nor the readers,
-- which only take input, and the serialization, over a JSON library.
pub mod Accelerator
pub mod Cgroup
pub mod Collect
pub mod Cpu
pub mod CpuDetails
pub mod CpuInfo
pub mod CpuList
pub mod Execution
pub mod Health
pub mod Inventory
pub mod Memory
pub mod Mountinfo
pub mod Network
pub mod Number
pub mod Pci
pub mod PciDevices
pub mod Pipeline
pub mod Prelude
pub mod RawStore
pub mod Resolve
pub mod Sensors
pub mod Storage
pub mod Tests
pub mod Text
pub mod Types
