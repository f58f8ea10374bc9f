-- ===== src/Storage.antt =====
-- Storage: include/sysal/model/storage.hpp, storage_connections.hpp, storage_classification.hpp and
-- storage_health.hpp. The filesystem reports of `Storage` are left out.
pub mod Classification
pub mod Mounts
pub mod Connections
pub mod Preferred
use sysal.Prelude.{Bytes, ℕ, Bool, Option, List}
use sysal.Types.{RawSource, CollectStatus, ReadFailure}
use sysal.Number.{DeviceNumber, ℤ}
use sysal.Pci.{PciAddress}
use sysal.Mountinfo.{StorageMount}

pub data StorageProtocol : Type 0 where
  unknown nvme ata scsi : StorageProtocol

pub data BlockDeviceLayer : Type 0 where
  unknown device partition device_mapper raid loop virtual : BlockDeviceLayer

pub data StoragePurpose : Type 0 where
  unknown disk optical other : StoragePurpose

pub data StorageTransport : Type 0 where
  unknown pcie sata sas usb tcp rdma fibre_channel iscsi parallel_scsi : StorageTransport

pub record StorageClassification : Type 0 where
  pub layer : BlockDeviceLayer
  pub purpose : StoragePurpose
  pub protocol : StorageProtocol
  pub transports : List StorageTransport

pub record StorageController : Type 0 where
  pub pci_address : PciAddress
  pub class_code : ℕ
  pub vendor : Bytes
  pub model : Bytes
  pub driver : Bytes
  pub numa_node : Option ℕ

pub record NvmeController : Type 0 where
  pub name : Bytes
  pub transport : Bytes
  pub address : Bytes
  pub model : Bytes
  pub serial : Bytes
  pub firmware_revision : Bytes
  pub state : Bytes
  pub controller_id : Option ℕ
  pub subsystem_nqn : Bytes
  pub pci_address : Option PciAddress
  pub numa_node : Option ℕ

pub record ScsiHost : Type 0 where
  pub number : ℕ
  pub proc_name : Bytes
  pub state : Bytes
  pub supported_mode : Bytes
  pub active_mode : Bytes
  pub pci_address : Option PciAddress
  pub numa_node : Option ℕ
  pub ata_port : Option ℕ

pub record ScsiAddress : Type 0 where
  pub host : ℕ
  pub channel : ℕ
  pub target : ℕ
  pub lun : ℕ

pub record ScsiDeviceInfo : Type 0 where
  pub address : ScsiAddress
  pub peripheral_type : Option ℕ
  pub state : Bytes

pub record NvmeNamespaceInfo : Type 0 where
  pub id : ℕ
  pub nguid : Bytes
  pub eui : Bytes
  pub controllers : List Bytes

-- `kind` is the number of the legacy enumeration
pub record StorageDevice : Type 0 where
  pub id : ℕ
  pub name : Bytes
  pub capacity : Option ℕ
  pub pci_address : Option PciAddress
  pub kind : ℕ
  pub mount_point : Option Bytes
  pub fs_type : Option Bytes
  pub model : Bytes
  pub vendor : Bytes
  pub serial : Bytes
  pub firmware_revision : Bytes
  pub wwid : Bytes
  pub logical_block_size : Option ℕ
  pub physical_block_size : Option ℕ
  pub minimum_io_size : Option ℕ
  pub optimal_io_size : Option ℕ
  pub rotational : Option Bool
  pub read_only : Option Bool
  pub removable : Option Bool
  pub numa_node : Option ℕ
  pub transport : Bytes
  pub controller_name : Bytes
  pub scheduler : Bytes
  pub device_number : Option DeviceNumber
  pub partition_number : Option ℕ
  pub parent : Option Bytes
  pub slaves : List Bytes
  pub layer : Bytes
  pub mapper_name : Bytes
  pub mapper_uuid : Bytes
  pub raid_level : Bytes
  pub raid_state : Bytes
  pub raid_disks : Option ℕ
  pub raid_degraded : Option ℕ
  pub nvme_namespace : Option NvmeNamespaceInfo
  pub scsi_device : Option ScsiDeviceInfo
  pub driver : Bytes
  pub classification : StorageClassification

-- a `StorageCounter` is its decimal text
pub record NvmeHealth : Type 0 where
  pub critical_warning : Option ℕ
  pub available_spare : Option ℕ
  pub spare_threshold : Option ℕ
  pub percentage_used : Option ℕ
  pub temperature : Option ℤ
  pub power_on_hours : Option Bytes
  pub power_cycles : Option Bytes
  pub unsafe_shutdowns : Option Bytes
  pub media_errors : Option Bytes
  pub error_log_entries : Option Bytes
  pub data_units_read : Option Bytes
  pub data_units_written : Option Bytes

pub record AtaHealthAttribute : Type 0 where
  pub id : ℕ
  pub name : Bytes
  pub value : Option ℕ
  pub worst : Option ℕ
  pub threshold : Option ℕ
  pub raw : Bytes
  pub when_failed : Bytes

pub record ScsiHealth : Type 0 where
  pub read_uncorrected : Option Bytes
  pub write_uncorrected : Option Bytes
  pub verify_uncorrected : Option Bytes

pub record StorageHealthReport : Type 0 where
  pub target : Bytes
  pub devices : List Bytes
  pub protocol : StorageProtocol
  pub source : RawSource
  pub origin : Bytes
  pub status : CollectStatus
  pub failure : Option ReadFailure
  pub smart_available : Option Bool
  pub smart_enabled : Option Bool
  pub passed : Option Bool
  pub nvme : Option NvmeHealth
  pub ata_attributes : List AtaHealthAttribute
  pub scsi : Option ScsiHealth

pub record Storage : Type 0 where
  pub devices : List StorageDevice
  pub mounts : List StorageMount
  pub health : List StorageHealthReport
  pub controllers : List StorageController
  pub nvme_controllers : List NvmeController
  pub scsi_hosts : List ScsiHost
