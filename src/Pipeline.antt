-- ===== src/Pipeline.antt =====
-- The replay pipeline: src/pipeline/pipeline.cpp. `ParseResult` counts here only for which of its
-- domains have a value.
pub mod Context
pub mod Status
pub mod Collectors
use sysal.Prelude.{
  if◌then◌else◌, length, is_nil, Bytes, codes, Bool, not, ◌&&◌, Option, some, List, [], ◌∷◌, ◌++◌,
}
use sysal.Types.{
  RawSource, CollectStatus, ReadFailure, SkipReason, ErrorKind, source_eq, is_success,
}
use sysal.Text.{hardware_text}
use sysal.Collect.{
  Collect, platform_flag, cpu_flag, memory_flag, accelerator_flag, network_flag, storage_flag,
  pci_flag, software_flag, execution_flag, sensors_flag, storage_health_flag, ◌∪◌, has,
}
use sysal.Number.{to_string}
use sysal.RawStore.{RawRecord}

-- the domains of a `ParseResult`, each with a parser of its own
pub data Domain : Type 0 where
  sensors platform cpu memory pci network accelerators storage software execution : Domain

-- the domain that an observation of a source is filed under; empty for the others
unfoldable observation_domain : RawSource → Bytes
observation_domain RawSource.sysfs_hwmon = codes "sensors"
observation_domain RawSource.sysfs_thermal = codes "sensors"
observation_domain RawSource.sysfs_dmi = codes "system"
observation_domain RawSource.proc_cpu_info = codes "cpu"
observation_domain RawSource.sysfs_cpu = codes "cpu"
observation_domain RawSource.proc_mem_info = codes "memory"
observation_domain RawSource.sysfs_numa = codes "memory"
observation_domain RawSource.sysfs_edac = codes "memory"
observation_domain RawSource.udevadm = codes "memory"
observation_domain RawSource.sysfs_net = codes "network"
observation_domain RawSource.if_addrs = codes "network"
observation_domain RawSource.ethtool = codes "network"
observation_domain RawSource.proc_net_vlan = codes "network"
observation_domain RawSource.sysfs_rdma = codes "network"
observation_domain RawSource.storage_health_sysfs = codes "storage_health"
observation_domain RawSource.smartctl = codes "storage_health"
observation_domain RawSource.nvme_smart_log = codes "storage_health"
observation_domain RawSource.sysfs_storage_connections = codes "storage"
observation_domain RawSource.sysfs_block = codes "storage"
observation_domain RawSource.storage_mount_info = codes "storage"
observation_domain RawSource.filesystem_usage = codes "storage"
observation_domain RawSource.sysfs_pci = codes "pci"
observation_domain RawSource.lspci = codes "pci"
observation_domain _ = []

-- `result.<domain>.has_value()`, and whether some storage health report succeeded, wholly or partly
pub record ParseResult : Type 0 where
  pub has_value : Domain → Bool
  pub storage_health_available : Bool

-- a call of `check`, when the flags ask for it
pub record Check : Type 0 where
  pub flag : Collect
  pub name : Bytes
  pub domain : Domain
  pub available : Bool

abbrev check_domain : ParseResult → Collect → Bytes → Domain → Check
check_domain r flag name domain = record {
  flag = flag;
  name = name;
  domain = domain;
  available = r.has_value domain;
}

-- the calls of `record_collector_status` as data, in their order
unfoldable pub checks : ParseResult → List Check
checks r =
    check_domain r sensors_flag (codes "sensors") sensors
    ∷ check_domain r platform_flag (codes "platform") platform
    ∷ check_domain r cpu_flag (codes "cpu") cpu
    ∷ check_domain r memory_flag (codes "memory") memory
    ∷ check_domain r pci_flag (codes "pci") pci
    ∷ check_domain r network_flag (codes "network") network
    ∷ check_domain r accelerator_flag (codes "accelerator") accelerators
    ∷ check_domain r storage_flag (codes "storage") storage
    ∷ record {
      flag = storage_health_flag;
      name = codes "storage_health";
      domain = storage;
      available = r.has_value storage && r.storage_health_available;
    }
    ∷ check_domain r software_flag (codes "software") software
    ∷ check_domain r execution_flag (codes "execution") execution
    ∷ []

-- `succeeded` and `failed`
abbrev pub Collectors : Type 0
Collectors = List Bytes × List Bytes

-- the lambda `check`
unfoldable pub check : Bytes → Bool → Collectors → Collectors
check name available s = if available then (s.0 ++ name ∷ [], s.1) else (s.0, s.1 ++ name ∷ [])

unfoldable pub record_collector_status : ParseResult → Collect → Collectors → Collectors
unfolding check
record_collector_status r flags s0 =
    let s1 =
      if has flags sensors_flag then check (codes "sensors") (r.has_value sensors) s0 else s0 in
    let s2 =
      if has flags platform_flag then check (codes "platform") (r.has_value platform) s1 else s1 in
    let s3 = if has flags cpu_flag then check (codes "cpu") (r.has_value cpu) s2 else s2 in
    let s4 = if has flags memory_flag then check (codes "memory") (r.has_value memory) s3 else s3 in
    let s5 = if has flags pci_flag then check (codes "pci") (r.has_value pci) s4 else s4 in
    let s6 =
      if has flags network_flag then check (codes "network") (r.has_value network) s5 else s5 in
    let s7 =
      if has flags accelerator_flag
      then check (codes "accelerator") (r.has_value accelerators) s6
      else s6 in
    let s8 =
      if has flags storage_flag then check (codes "storage") (r.has_value storage) s7 else s7 in
    let available = r.has_value storage && r.storage_health_available in
    let s9 =
      if has flags storage_health_flag then check (codes "storage_health") available s8 else s8 in
    let s10 =
      if has flags software_flag then check (codes "software") (r.has_value software) s9 else s9 in
    if has flags execution_flag then check (codes "execution") (r.has_value execution) s10 else s10

-- one of the calls that `checks` lists, and all of them
unfoldable pub run_check : Collect → Check → Collectors → Collectors
unfolding check
run_check flags c s = if has flags c.flag then check c.name c.available s else s

unfoldable pub run_checks : Collect → List Check → Collectors → Collectors
unfolding run_check
run_checks flags [] s = s
run_checks flags (c ∷ cs) s = run_checks flags cs (run_check flags c s)

-- the guard of `run_replay` in front of `SysalError(CollectionFailed)`
unfoldable pub all_failed : Collectors → Bool
all_failed (succeeded, failed) = is_nil succeeded && not (is_nil failed)

-- `run_replay` behind its loop: the collectors that succeeded and failed, or the exception
pub data Replay : Type 0 where
  throw : ErrorKind → Bytes → Replay
  collected : Collectors → Replay

unfoldable pub collect_status : ParseResult → Collect → Replay
unfolding record_collector_status all_failed
collect_status r flags =
    let s = record_collector_status r flags ([], []) in
    if all_failed s
    then throw ErrorKind.collection_failed
        (codes "all requested collectors failed: " ++ to_string (length s.1) ++ codes " collectors")
    else collected s

-- the table `parser_dispatch`: what is asked for, and the domain that is parsed then
abbrev pub parser_dispatch : List (Collect × Domain)
parser_dispatch =
    (sensors_flag, sensors)
    ∷ (platform_flag, platform)
    ∷ (cpu_flag, cpu)
    ∷ (memory_flag, memory)
    ∷ (pci_flag ∪ network_flag ∪ storage_flag ∪ storage_health_flag, pci)
    ∷ (network_flag, network)
    ∷ (accelerator_flag, accelerators)
    ∷ (storage_flag ∪ storage_health_flag, storage)
    ∷ (software_flag, software)
    ∷ (execution_flag, execution)
    ∷ []

-- the domains that the loop of `run_replay` parses
unfoldable pub dispatched : Collect → List (Collect × Domain) → List Domain
dispatched flags [] = []
dispatched flags ((flag, domain) ∷ table) =
    let rest = dispatched flags table in if has flags flag then domain ∷ rest else rest

pub record CollectionObservation : Type 0 where
  pub domain : Bytes
  pub source : RawSource
  pub path_or_command : Bytes
  pub status : CollectStatus
  pub failure : Option ReadFailure
  pub skip : Option SkipReason

-- a DMI field that was read but says nothing is only partly there
unfoldable is_blank_dmi : RawRecord → Bool
is_blank_dmi r =
    source_eq r.source RawSource.sysfs_dmi
    && is_success r.status
    && is_nil (hardware_text r.payload)

unfoldable observe : RawRecord → CollectionObservation
observe r = record {
  domain = observation_domain r.source;
  source = r.source;
  path_or_command = r.path_or_command;
  status = if is_blank_dmi r then CollectStatus.partial else r.status;
  failure = if is_blank_dmi r then some ReadFailure.not_provided else r.failure;
  skip = r.skip;
}

-- the loop that fills `meta.observations`
unfoldable observations : List RawRecord → List CollectionObservation
observations [] = []
observations (r ∷ rs) =
    let rest = observations rs in
    if is_nil (observation_domain r.source) then rest else observe r ∷ rest
