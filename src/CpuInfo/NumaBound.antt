-- ===== src/CpuInfo/NumaBound.antt =====
-- The size of the map from CPUs to NUMA nodes, for src/parser/cpu.cpp.
use sysal.RawStore.{RawStore}
