-- ===== src/Execution.antt =====
-- The execution context: include/sysal/model/execution.hpp. Its parsers are in the children.
pub mod Status
pub mod Groups
pub mod Environ
pub mod Facts
use sysal.Prelude.{Bytes, ℕ, Bool, false, Option, none, List, []}
use sysal.Types.{CgroupVersion, ContainerKind}

-- `pid` and `ppid` are the bit patterns of a `std::int32_t`
pub record Process : Type 0 where
  pub pid : ℕ
  pub ppid : ℕ
  pub uid : ℕ
  pub gid : ℕ
  pub comm : Bytes
  pub exe : Bytes
  pub cwd : Bytes

pub record Environment : Type 0 where
  pub entries : List (Bytes × Bytes)

pub record Cgroup : Type 0 where
  pub version : CgroupVersion
  pub path : Bytes
  pub controllers : List Bytes
  pub cpu_quota_us : Option ℕ
  pub cpu_period_us : Option ℕ
  pub memory_limit : Option ℕ
  pub memory_current : Option ℕ
  pub cpu_limit_known : Bool
  pub memory_limit_known : Bool

pub record Cpuset : Type 0 where
  pub cpus : Bytes
  pub mems : Bytes
  pub cpus_effective : Bytes
  pub mems_effective : Bytes

pub record Permission : Type 0 where
  pub euid : ℕ
  pub egid : ℕ
  pub capabilities : List Bytes
  pub is_root : Bool

pub record Container : Type 0 where
  pub kind : ContainerKind
  pub id : Bytes
  pub runtime : Bytes

pub record ExecutionContext : Type 0 where
  pub process : Process
  pub environ : Environment
  pub cgroup : Cgroup
  pub cpuset : Cpuset
  pub permission : Permission
  pub container : Option Container
  pub visible_logical_cpu_ids : List ℕ
  pub visible_accelerator_ids : List ℕ
  pub visible_network_interface_names : List Bytes
  pub cpu_visibility_known : Bool
  pub accelerator_visibility_restricted : Bool

abbrev empty_cgroup : Cgroup
empty_cgroup = record {
  version = CgroupVersion.v1;
  path = [];
  controllers = [];
  cpu_quota_us = none;
  cpu_period_us = none;
  memory_limit = none;
  memory_current = none;
  cpu_limit_known = false;
  memory_limit_known = false;
}

-- `ExecutionContext{}`
abbrev pub empty_context : ExecutionContext
empty_context = record {
  process = record { pid = 0; ppid = 0; uid = 0; gid = 0; comm = []; exe = []; cwd = [] };
  environ = record { entries = [] };
  cgroup = empty_cgroup;
  cpuset = record { cpus = []; mems = []; cpus_effective = []; mems_effective = [] };
  permission = record { euid = 0; egid = 0; capabilities = []; is_root = false };
  container = none;
  visible_logical_cpu_ids = [];
  visible_accelerator_ids = [];
  visible_network_interface_names = [];
  cpu_visibility_known = false;
  accelerator_visibility_restricted = false;
}
