-- ===== src/Cpu.antt =====
-- Logical CPUs: include/sysal/model/cpu.hpp.
pub mod Features
pub mod Partition
pub mod Agreement
use sysal.Prelude.{Bytes, ℕ, Bool, Option, List}

pub record CpuIdentification : Type 0 where
  pub family : Option ℕ
  pub model : Option ℕ
  pub stepping : Option ℕ
  pub implementer : Option ℕ
  pub part : Option ℕ
  pub variant : Option ℕ
  pub revision : Bytes
  pub architecture : Bytes
  pub microcode : Bytes
  pub features : List Bytes
  pub features_reported : Bool

pub record LogicalCpu : Type 0 where
  pub id : ℕ
  pub core_id : ℕ
  pub package_id : ℕ
  pub numa_node : Option ℕ
  pub visible_to_current_process : Option Bool
  pub identification : CpuIdentification
  pub online : Option Bool
