-- ===== src/Health/Report.antt =====
-- The report on sensors, md arrays, memory and drives: `hardware_health` of
-- src/resolver/hardware_health.cpp.
use sysal.Prelude.{
  ltb, if◌then◌else◌, any, is_some, get_or, Bytes, codes, text_eq, ℕ, Bool, true, false, not, ◌&&◌,
  ◌||◌, none, some, List, [], ◌∷◌, ◌++◌,
}
use sysal.Types.{RawSource, CollectStatus, source_eq}
use sysal.Number.{signed_lt, to_string}
use sysal.RawStore.{RawStore}
use sysal.Collect.{Collect, memory_flag, storage_flag, sensors_flag, has}
use sysal.Sensors.{Sensors}
use sysal.Memory.{MemoryController}
use sysal.Storage.{StorageDevice, StorageHealthReport}
use sysal.Health.{
  HealthSeverity, SensorAlert, StorageAlert, MemoryErrorEvent, HealthCoverage, HardwareHealth,
  add_u32, one_if, sensor_alerts,
}
use sysal.Health.Drives.{status_of, new_coverage, storage_findings}

-- the sensors of all kinds, if they are asked for
unfoldable sensor_domain : Bool → Sensors → List SensorAlert × HealthCoverage
unfolding sensor_alerts
sensor_domain requested sensors =
    let empty : List SensorAlert × HealthCoverage = ([], new_coverage (codes "sensors")) in
    if requested
    then sensor_alerts ltb sensors.powers
        (sensor_alerts ltb sensors.fans (sensor_alerts signed_lt sensors.temperatures empty))
    else empty

unfoldable is_failed : CollectStatus → Bool
is_failed CollectStatus.failed = true
is_failed _ = false

unfoldable sensor_failure : RawStore → Bool
sensor_failure raw =
    any
      (λ r.
        (source_eq r.source RawSource.sysfs_hwmon || source_eq r.source RawSource.sysfs_thermal)
        && is_failed r.status)
      raw.records

unfoldable storage_alert : Bytes → ℕ → StorageAlert
storage_alert name degraded = record {
  device = name;
  degraded_members = degraded;
  severity = HealthSeverity.warning;
  origin = codes "/sys/class/block/" ++ name ++ codes "/md/degraded";
}

-- the loop over the block devices: whether one is incomplete, the alerts and the readings
unfoldable md_devices :
    List StorageDevice → Bool × List StorageAlert × ℕ → Bool × List StorageAlert × ℕ
unfolding storage_alert
md_devices [] state = state
md_devices (d ∷ devices) (incomplete, alerts, readings) = md_devices devices (elim d.raid_degraded [
  | none ↦ (incomplete || text_eq d.layer (codes "md"), alerts, readings)
  | some degraded ↦ (
    incomplete,
    if ltb 0 degraded then alerts ++ storage_alert d.name degraded ∷ [] else alerts,
    add_u32 readings 1,
  )
])

unfoldable has_errors : MemoryController → Bool
has_errors c = ltb 0 (get_or c.corrected_errors 0) || ltb 0 (get_or c.uncorrected_errors 0)

unfoldable memory_event : MemoryController → MemoryErrorEvent
memory_event c = record {
  controller_index = c.index;
  corrected = c.corrected_errors;
  uncorrected = c.uncorrected_errors;
  severity =
      if ltb 0 (get_or c.uncorrected_errors 0)
      then HealthSeverity.warning
      else HealthSeverity.information;
  origin = codes "/sys/devices/system/edac/mc/mc" ++ to_string c.index;
}

-- the loop over the memory controllers
unfoldable edac_controllers :
    List MemoryController → Bool × List MemoryErrorEvent × ℕ → Bool × List MemoryErrorEvent × ℕ
unfolding has_errors memory_event
edac_controllers [] state = state
edac_controllers (c ∷ controllers) (incomplete, events, readings) = edac_controllers controllers (
  incomplete || not (is_some c.corrected_errors) || not (is_some c.uncorrected_errors),
  if has_errors c then events ++ memory_event c ∷ [] else events,
  add_u32 readings (one_if (is_some c.corrected_errors || is_some c.uncorrected_errors)),
)

unfoldable hardware_health :
    Sensors
    → List StorageDevice
    → List StorageHealthReport
    → List MemoryController
    → Collect
    → RawStore
    → HardwareHealth
unfolding sensor_domain sensor_failure md_devices edac_controllers
hardware_health sensors devices reports controllers flags raw =
    let (alerts, coverage) = sensor_domain (has flags sensors_flag) sensors in
    let md = md_devices devices (false, [], 0) in
    let edac = edac_controllers controllers (false, [], 0) in
    storage_findings
      (record {
        sensor_alerts = alerts;
        storage_alerts = md.1;
        memory_events = edac.1;
        coverage =
            record coverage {
              status =
                  status_of (has flags sensors_flag)
                    (add_u32 coverage.usable_readings coverage.alarm_reports) (sensor_failure raw);
            }
            ∷ record (new_coverage (codes "md")) {
              usable_readings = md.2;
              status = status_of (has flags storage_flag) md.2 md.0;
            }
            ∷ record (new_coverage (codes "edac")) {
              usable_readings = edac.2;
              status = status_of (has flags memory_flag) edac.2 edac.0;
            }
            ∷ [];
        drive_findings = [];
      })
      reports flags raw
