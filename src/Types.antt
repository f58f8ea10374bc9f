-- ===== src/Types.antt =====
-- The enumerations of include/sysal/types/enums.hpp and include/sysal/core/error.hpp.
use sysal.Prelude.{◌≡◌, refl, ◌↔◌, Bool, true, false}

pub data Arch : Type 0 where
  x86_64 aarch64 riscv64 other : Arch

pub data AcceleratorKind : Type 0 where
  gpu npu fpga other : AcceleratorKind

pub data RawSource : Type 0 where
  proc_cpu_info proc_mem_info proc_version proc_self_cgroup proc_self_status : RawSource
  proc_one_cgroup sysfs_cpu sysfs_numa sysfs_net sysfs_pci sysfs_block sysfs_dmi : RawSource
  etc_os_release root_dockerenv uname lspci nvidia_smi nvcc lsblk environment nvml : RawSource
  ibverbs hwinfo_output proc_hostname if_addrs df_th udevadm sysfs_edac sys_hypervisor : RawSource
  compiler_version compiler_path compiler_target mpi_version mpi_path ibverbs_version : RawSource
  ibverbs_libdir ucx_version nvcc_path cuda_home sysfs_thermal cgroup_mount_info : RawSource
  cgroup_file sysfs_drm nvidia_mig_list rocm_version package_library accelerator_runtime : RawSource
  storage_mount_info ethtool proc_net_vlan sysfs_hwmon storage_health_sysfs smartctl : RawSource
  nvme_smart_log sysfs_rdma sysfs_storage_connections filesystem_usage : RawSource

pub data CollectStatus : Type 0 where
  success partial failed not_collected : CollectStatus

pub data ReadFailure : Type 0 where
  not_present permission_denied unsupported io_error tool_unavailable timed_out : ReadFailure
  not_provided low_power : ReadFailure

pub data SkipReason : Type 0 where
  unknown not_requested policy_excluded budget_exhausted not_applicable : SkipReason

pub data CgroupVersion : Type 0 where
  v1 v2 : CgroupVersion

pub data ContainerKind : Type 0 where
  docker podman lxc kubernetes other : ContainerKind

pub data ErrorKind : Type 0 where
  collection_failed parse_error io_error file_not_found permission_denied : ErrorKind
  backend_unavailable backend_error serialization_error deserialization_error unknown : ErrorKind

-- `operator==` of an enumeration
RawSource-discrete : Discrete RawSource
RawSource-discrete = hlevel

unfoldable pub source_eq : RawSource → RawSource → Bool
unfolding RawSource-discrete
source_eq a b = elim (RawSource-discrete a b) [ yes e ↦ true | no n ↦ false ]

pub source_eq_iff : (a b : RawSource) → (source_eq a b ≡ true) ↔ (a ≡ b)
unfolding source_eq
source_eq_iff a b =
    elim (RawSource-discrete a b)
      as (λ d. ((elim d [ yes e ↦ true | no n ↦ false ]) ≡ true) ↔ (a ≡ b)) [
        | yes e ↦ (λ h. e, λ h. refl)
        | no n ↦ (λ h. cc, λ h. absurd (n h))
      ]

unfoldable pub is_success : CollectStatus → Bool
is_success success = true
is_success _ = false
