-- ===== src/Collect.antt =====
-- The collection flags and options: include/sysal/core/collect.hpp, collect_options.hpp and
-- src/api/collect_options.cpp.
pub mod Flags
use Prim.Native.Nat.{bit_and, bit_or}
use sysal.Prelude.{◌==◌, if◌then◌else◌, ℕ, ◌-◌, ◌^◌, Bool, not, Option, none, some}

-- `enum class Collect : std::uint32_t`: a word, and its named bits
abbrev pub Collect : Type 0
Collect = ℕ

abbrev pub platform_flag : Collect
platform_flag = 1

abbrev pub cpu_flag : Collect
cpu_flag = 2

abbrev pub memory_flag : Collect
memory_flag = 4

abbrev pub accelerator_flag : Collect
accelerator_flag = 8

abbrev pub network_flag : Collect
network_flag = 16

abbrev pub storage_flag : Collect
storage_flag = 32

abbrev pub pci_flag : Collect
pci_flag = 64

abbrev pub software_flag : Collect
software_flag = 128

abbrev pub execution_flag : Collect
execution_flag = 256

abbrev raw_flag : Collect
raw_flag = 512

abbrev pub sensors_flag : Collect
sensors_flag = 1024

abbrev pub storage_health_flag : Collect
storage_health_flag = 2048

infixl 60 ◌∪◌
abbrev pub ◌∪◌ : Collect → Collect → Collect
a ∪ b = bit_or a b

unfoldable pub has : Collect → Collect → Bool
has flags test = not (bit_and flags test == 0)

abbrev basic : Collect
basic = platform_flag ∪ cpu_flag ∪ memory_flag ∪ execution_flag

abbrev full : Collect
full =
    platform_flag ∪ cpu_flag ∪ memory_flag ∪ accelerator_flag ∪ network_flag ∪ storage_flag
    ∪ pci_flag ∪ software_flag ∪ execution_flag ∪ raw_flag ∪ sensors_flag ∪ storage_health_flag

-- An enum's value may lie outside its enumerators; `other_query` and `other_devices` are such values.
pub data FilesystemQuery : Type 0 where
  no_query local_query all_mounted : FilesystemQuery
  other_query : ℕ → FilesystemQuery

pub data SensorDevices : Type 0 where
  all_sensors exclude_display : SensorDevices
  other_devices : ℕ → SensorDevices

pub record CollectOptions : Type 0 where
  pub filesystems : FilesystemQuery
  pub sensors : SensorDevices

abbrev pub default_options : CollectOptions
default_options = record { filesystems = local_query; sensors = all_sensors }

pub record CollectionRequest : Type 0 where
  pub flags : Collect
  pub options : CollectOptions

-- the `std::invalid_argument` exceptions
pub data InvalidArgument : Type 0 where
  invalid_filesystem_query invalid_sensor_device unknown_flags unknown_request : InvalidArgument

-- `none` is a return, and `some` an exception
unfoldable pub validate_filesystems : FilesystemQuery → Option InvalidArgument
validate_filesystems (other_query n) = some invalid_filesystem_query
validate_filesystems _ = none

unfoldable pub validate_sensors : SensorDevices → Option InvalidArgument
validate_sensors (other_devices n) = some invalid_sensor_device
validate_sensors _ = none

unfoldable pub validate_options : CollectOptions → Option InvalidArgument
validate_options o = elim (validate_filesystems o.filesystems) [
  | some e ↦ some e
  | none ↦ validate_sensors o.sensors
]

-- `~full`, as a `std::uint32_t`
abbrev pub not_full : Collect
not_full = 2 ^ 32 - 1 - full

unfoldable pub validate : CollectionRequest → Option InvalidArgument
validate r =
    if not (bit_and r.flags not_full == 0) then some unknown_flags else validate_options r.options
