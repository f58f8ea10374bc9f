-- ===== src/Memory.antt =====
-- Memory: include/sysal/model/memory.hpp.
pub mod Sizes
pub mod Udev
pub mod Parse
pub mod Sized
pub mod Locations
pub mod Devices
pub mod Topology
pub mod Associations
use sysal.Prelude.{Bytes, ℕ, Bool, false, Option, none, List, []}
use sysal.Pci.{PciAddress}

pub record NumaMemory : Type 0 where
  pub node : ℕ
  pub total : ℕ
  pub available : Option ℕ
  pub free : Option ℕ

pub data EdacLocationLayer : Type 0 where
  unknown branch channel slot chip_select all_memory : EdacLocationLayer

pub record EdacLocationCoordinate : Type 0 where
  pub layer : EdacLocationLayer
  pub index : ℕ

pub record EdacLocation : Type 0 where
  pub report : Bytes
  pub coordinates : List EdacLocationCoordinate

pub data EdacMemoryDeviceKind : Type 0 where
  unknown dimm rank : EdacMemoryDeviceKind

pub record EdacMemoryDevice : Type 0 where
  pub controller_index : ℕ
  pub index : ℕ
  pub kind : EdacMemoryDeviceKind
  pub label : Bytes
  pub size : Option ℕ
  pub location : EdacLocation
  pub memory_type : Bytes
  pub edac_mode : Bytes
  pub device_width : Bytes
  pub numa_node : Option ℕ

pub data DimmEdacAssociation : Type 0 where
  unknown edac_inventory label_and_capacity : DimmEdacAssociation

pub record MemoryController : Type 0 where
  pub index : ℕ
  pub name : Bytes
  pub capacity : Option ℕ
  pub corrected_errors : Option ℕ
  pub uncorrected_errors : Option ℕ
  pub numa_node : Option ℕ
  pub pci_address : Option PciAddress
  pub max_location : EdacLocation

pub record DimmInfo : Type 0 where
  pub locator : Bytes
  pub bank_locator : Bytes
  pub size : ℕ
  pub speed_mts : Option ℕ
  pub manufacturer : Option Bytes
  pub part_number : Option Bytes
  pub rank_count : Option ℕ
  pub total_width : Option ℕ
  pub data_width : Option ℕ
  pub form_factor : Option Bytes
  pub present : Bool
  pub memory_type : Bytes
  pub configured_speed_mts : Option ℕ
  pub serial : Bytes
  pub asset_tag : Bytes
  pub type_detail : Bytes
  pub configured_voltage_mv : Option ℕ
  pub edac_mode : Bytes
  pub device_width : Bytes
  pub controller_index : Option ℕ
  pub numa_node : Option ℕ
  pub edac_device_index : Option ℕ
  pub edac_association : DimmEdacAssociation

pub record Memory : Type 0 where
  pub total_memory : ℕ
  pub available_memory : Option ℕ
  pub memory_type : Bytes
  pub configured_speed_mts : Option ℕ
  pub numa_memory : List NumaMemory
  pub dimms : List DimmInfo
  pub dimm_count : Option ℕ
  pub populated_dimms : Option ℕ
  pub controllers : List MemoryController
  pub dimm_inventory_source : Bytes
  pub reported_slot_count : Option ℕ
  pub reported_array_location : Bytes
  pub reported_array_error_correction : Bytes
  pub reported_array_max_capacity : Option ℕ
  pub reported_slots_complete : Option Bool
  pub edac_devices : List EdacMemoryDevice

abbrev pub empty_location : EdacLocation
empty_location = record { report = []; coordinates = [] }

abbrev pub empty_dimm : DimmInfo
empty_dimm = record {
  locator = [];
  bank_locator = [];
  size = 0;
  speed_mts = none;
  manufacturer = none;
  part_number = none;
  rank_count = none;
  total_width = none;
  data_width = none;
  form_factor = none;
  present = false;
  memory_type = [];
  configured_speed_mts = none;
  serial = [];
  asset_tag = [];
  type_detail = [];
  configured_voltage_mv = none;
  edac_mode = [];
  device_width = [];
  controller_index = none;
  numa_node = none;
  edac_device_index = none;
  edac_association = DimmEdacAssociation.unknown;
}
