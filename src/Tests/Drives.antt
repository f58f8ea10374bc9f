-- ===== src/Tests/Drives.antt =====
-- Runs and instances for health and storage: src/resolver/hardware_health.cpp,
-- src/resolver/storage_health.cpp and src/parser/storage_topology.cpp.
use sysal.Prelude.{
  ltb, length, get_elem?, keep, get_or, codes, text_eq, text_mem, ℕ, ◌≡◌, refl, true, false, not,
  ◌&&◌, ◌||◌, none, some, [], ◌∷◌, ◌++◌,
}
use sysal.Types.{RawSource, success, source_eq, is_success}
use sysal.Number.{
  digit_value, scan_digits, from_chars, whole, parse_uint, parse_u32, DeviceNumber,
  parse_device_number,
}
use sysal.RawStore.{kind_eq, RawRecord, RawStore, enumeration_loop, enumeration, get_all}
use sysal.Mountinfo.{
  is_octal, unescape_mount, behind_dash, read_record, read_words, add_line, read_lines,
  parse_mountinfo,
}
use sysal.Storage.{
  StorageProtocol, BlockDeviceLayer, StoragePurpose, StorageDevice, StorageHealthReport, Storage,
}
use sysal.Storage.Mounts.{
  number_eq, find_number, reset_mount, mount_device, update_at, name_at, apply_mounts, mount_record,
  apply_storage_mounts,
}
use sysal.Storage.Preferred.{preferred, point_of, is_mount_of, apply_storage_mounts-preferred}
use sysal.Sensors.{SensorReading, value}
use sysal.Health.{
  one_if, is_urgent, find_alarm, directory_of, both_lt, reaches, limit_alert, sensor_alert,
}
use sysal.Health.Drives.{
  positive, make_finding, finding_if, warning_bits, smart_findings, is_smartctl, nvme_prefix,
  is_below, nvme_findings, ata_findings, scsi_counter, scsi_findings, report_findings,
}
use sysal.Health.Alerts.{
  is_critical, alerts_critically, urgent, active_any, at_critical_limit, sensor_alert-critical,
}
use sysal.Health.Findings.{criticals, report_findings-criticals}
use sysal.Text.{is_space, trim_begin, trim_end, trim, split_loop, split, find, rfind, ends_with}
use sysal.Inventory.{distinct, same_set, matches_names, is_reliable, observed, report_of, report}
use sysal.CpuList.Members.{names}
use sysal.CpuList.{token_range}
use sysal.Prelude.Maps.{lookup_key}
use sysal.Text.Words.{words_loop, words}

-- a fan that reached its critical limit
abbrev fan : SensorReading ℕ
fan = record {
  identity = record {
    id = codes "hwmon0/fan1";
    chip = codes "nct6775";
    driver = [];
    channel = codes "fan1";
    label = [];
    source = RawSource.sysfs_hwmon;
    origin = codes "hwmon0/fan1_input";
    device_path = [];
    pci_address = none;
  };
  input = some 900;
  average = none;
  minimum = some 100;
  maximum = some 800;
  critical = some 900;
  enabled = none;
  fault = some false;
  alarms = record { attribute = codes "fan1_alarm"; active = false } ∷ [];
  unit_supported = true;
}

fan_critical : alerts_critically (sensor_alert ltb fan) ≡ true
unfolding alerts_critically both_lt directory_of ends_with find_alarm is_critical is_urgent
    limit_alert reaches rfind sensor_alert text_eq
fan_critical = refl

sensor_alert-critical_example : alerts_critically (sensor_alert ltb fan) ≡ (
    not (get_or fan.fault false)
    && (urgent fan.alarms || (not (active_any fan.alarms) && at_critical_limit ltb fan)))
sensor_alert-critical_example = sensor_alert-critical ltb fan

-- an NVMe drive that failed, with a warning byte
abbrev failed_drive : StorageHealthReport
failed_drive = record {
  target = codes "nvme0";
  devices = [];
  protocol = StorageProtocol.nvme;
  source = RawSource.smartctl;
  origin = codes "smartctl";
  status = success;
  failure = none;
  smart_available = some true;
  smart_enabled = some true;
  passed = some false;
  nvme = some (record {
    critical_warning = some 4;
    available_spare = some 3;
    spare_threshold = some 10;
    percentage_used = some 120;
    temperature = none;
    power_on_hours = none;
    power_cycles = none;
    unsafe_shutdowns = none;
    media_errors = some (codes "2");
    error_log_entries = none;
    data_units_read = none;
    data_units_written = none;
  });
  ata_attributes = [];
  scsi = none;
}

four_findings : length (report_findings failed_drive) ≡ 4
unfolding ata_findings digit_value distinct enumeration enumeration_loop find finding_if from_chars
    is_below is_reliable is_smartctl is_space is_success kind_eq lookup_key make_finding
    matches_names names nvme_findings nvme_prefix observed parse_uint positive report
    report_findings report_of same_set scan_digits scsi_counter scsi_findings smart_findings
    source_eq text_eq text_mem token_range trim trim_begin trim_end value warning_bits whole
four_findings = refl

report_findings-criticals_example :
    criticals (report_findings failed_drive)
    ≡ one_if (not (get_or failed_drive.passed true) || ltb 0 (warning_bits failed_drive.nvme))
report_findings-criticals_example = report_findings-criticals failed_drive

abbrev disk_number : DeviceNumber
disk_number = record { major = 8; minor = 0 }

abbrev disk : StorageDevice
disk = record {
  id = 0;
  name = codes "sda";
  capacity = none;
  pci_address = none;
  kind = 2;
  mount_point = some (codes "/old");
  fs_type = none;
  model = [];
  vendor = [];
  serial = [];
  firmware_revision = [];
  wwid = [];
  logical_block_size = none;
  physical_block_size = none;
  minimum_io_size = none;
  optimal_io_size = none;
  rotational = none;
  read_only = none;
  removable = none;
  numa_node = none;
  transport = [];
  controller_name = [];
  scheduler = [];
  device_number = some disk_number;
  partition_number = none;
  parent = none;
  slaves = [];
  layer = [];
  mapper_name = [];
  mapper_uuid = [];
  raid_level = [];
  raid_state = [];
  raid_disks = none;
  raid_degraded = none;
  nvme_namespace = none;
  scsi_device = none;
  driver = [];
  classification = record {
    layer = BlockDeviceLayer.device;
    purpose = StoragePurpose.unknown;
    protocol = StorageProtocol.unknown;
    transports = [];
  };
}

abbrev storage_of : Storage
storage_of = record {
  devices = disk ∷ [];
  mounts = [];
  health = [];
  controllers = [];
  nvme_controllers = [];
  scsi_hosts = [];
}

abbrev pub mounts_file : RawRecord
mounts_file = record {
  source = RawSource.storage_mount_info;
  path_or_command = codes "/proc/self/mountinfo";
  payload =
      codes "20 1 8:0 /home /home rw - ext4 /dev/sda rw"
      ++ b'\n' ∷ codes "21 1 8:0 / / rw - ext4 /dev/sda rw";
  status = success;
  collected_at = 0;
  failure = none;
  skip = none;
}

abbrev mounts_store : RawStore
mounts_store = record { records = mounts_file ∷ []; enumerations = []; collection_request = none }

mounts_found : mount_record mounts_store ≡ some mounts_file
unfolding get_all is_success mount_record source_eq
mounts_found = refl

root_shown :
    point_of (get_elem? (apply_storage_mounts storage_of mounts_store []).0.devices 0)
    ≡ some (codes "/")
unfolding add_line apply_mounts apply_storage_mounts behind_dash digit_value find find_number
    from_chars get_all is_octal is_space is_success lookup_key mount_device mount_record name_at
    number_eq parse_device_number parse_mountinfo parse_u32 parse_uint point_of read_lines
    read_record read_words reset_mount scan_digits source_eq split split_loop text_eq trim
    trim_begin trim_end unescape_mount update_at value whole words words_loop
root_shown = refl

apply_storage_mounts-preferred_example :
    point_of (get_elem? (apply_storage_mounts storage_of mounts_store []).0.devices 0)
    ≡ preferred none (keep (is_mount_of disk_number) (parse_mountinfo mounts_file.payload []).0)
apply_storage_mounts-preferred_example =
    apply_storage_mounts-preferred storage_of mounts_store [] mounts_file 0 disk disk_number
      mounts_found refl refl refl
