-- ===== src/Health.antt =====
-- Hardware health: include/sysal/model/hardware_health.hpp, and the alerts of sensors of
-- src/resolver/hardware_health.cpp.
pub mod Drives
pub mod Report
pub mod Alerts
pub mod Findings
use sysal.Prelude.{
  if◌then◌else◌, length, take, first, is_some, get_or, Bytes, codes, ℕ, ◌+◌, ◌%◌, ◌^◌, Bool, true,
  false, not, ◌&&◌, ◌||◌, Option, none, some, List, [], ◌∷◌, ◌++◌,
}
use sysal.Text.{rfind, ends_with}
use sysal.Sensors.{SensorAlarm, SensorReading}

pub data HealthSeverity : Type 0 where
  information warning critical : HealthSeverity

pub data SensorAlertKind : Type 0 where
  driver_alarm fault critical_limit below_minimum above_maximum : SensorAlertKind

pub data HealthCoverageStatus : Type 0 where
  not_requested unavailable partial available : HealthCoverageStatus

pub record SensorAlert : Type 0 where
  pub sensor : Bytes
  pub kind : SensorAlertKind
  pub severity : HealthSeverity
  pub origin : Bytes

pub record StorageAlert : Type 0 where
  pub device : Bytes
  pub degraded_members : ℕ
  pub severity : HealthSeverity
  pub origin : Bytes

pub record MemoryErrorEvent : Type 0 where
  pub controller_index : ℕ
  pub corrected : Option ℕ
  pub uncorrected : Option ℕ
  pub severity : HealthSeverity
  pub origin : Bytes

pub record HealthCoverage : Type 0 where
  pub domain : Bytes
  pub status : HealthCoverageStatus
  pub usable_readings : ℕ
  pub alarm_reports : ℕ

pub data DriveFindingKind : Type 0 where
  smart_failed nvme_warning spare_low endurance_estimate ata_current : DriveFindingKind
  ata_historical nvme_media_history scsi_history : DriveFindingKind

pub record DriveFinding : Type 0 where
  pub target : Bytes
  pub kind : DriveFindingKind
  pub severity : HealthSeverity
  pub origin : Bytes
  pub attribute_id : Option ℕ

pub record HardwareHealth : Type 0 where
  pub sensor_alerts : List SensorAlert
  pub storage_alerts : List StorageAlert
  pub memory_events : List MemoryErrorEvent
  pub coverage : List HealthCoverage
  pub drive_findings : List DriveFinding

abbrev pub add_u32 : ℕ → ℕ → ℕ
add_u32 a b = (a + b) % 2 ^ 32

abbrev pub one_if : Bool → ℕ
one_if b = if b then 1 else 0

unfoldable pub is_urgent : Bytes → Bool
is_urgent attribute =
    ends_with attribute (codes "crit_alarm") || ends_with attribute (codes "emergency_alarm")

-- the first active urgent alarm, or else the first active one
unfoldable pub find_alarm : List SensorAlarm → Option SensorAlarm
unfolding is_urgent
find_alarm alarms = elim (first (λ a. a.active && is_urgent a.attribute) alarms) [
  | some alarm ↦ some alarm
  | none ↦ first (λ a. a.active) alarms
]

-- `origin.substr(0, slash + 1)`; without a slash, `npos + 1` is 0
unfoldable pub directory_of : Bytes → Bytes
directory_of origin = elim (rfind origin b'/') [ none ↦ [] | some slash ↦ take (slash + 1) origin ]

module _ {U : Type 0} (lt : U → U → Bool) where
  -- a comparison of two values that may be missing; one that is missing makes it false
  unfoldable pub both_lt : Option U → Option U → Bool
  both_lt (some a) (some b) = lt a b
  both_lt none b = false
  both_lt (some a) none = false

  -- `input >= critical`, for a critical limit that exists
  unfoldable pub reaches : Option U → Option U → Bool
  reaches (some input) (some limit) = not (lt input limit)
  reaches none limit = false
  reaches (some input) none = false

  unfoldable pub limit_alert : SensorReading U → Option (SensorAlertKind × HealthSeverity)
  unfolding both_lt reaches
  limit_alert sensor =
      if not (get_or sensor.enabled true)
        || not (is_some sensor.input)
        || not sensor.unit_supported
        || both_lt sensor.maximum sensor.minimum
      then none
      else if reaches sensor.input sensor.critical
      then some (SensorAlertKind.critical_limit, HealthSeverity.critical)
      else if both_lt sensor.maximum sensor.input
      then some (SensorAlertKind.above_maximum, HealthSeverity.warning)
      else if both_lt sensor.input sensor.minimum
      then some (SensorAlertKind.below_minimum, HealthSeverity.warning)
      else none

  -- the alert of one sensor
  unfoldable pub sensor_alert : SensorReading U → Option SensorAlert
  unfolding find_alarm directory_of limit_alert
  sensor_alert sensor =
      let identity = sensor.identity in
      if get_or sensor.fault false
      then some (record {
        sensor = identity.id;
        kind = SensorAlertKind.fault;
        severity = HealthSeverity.warning;
        origin = identity.id ++ codes "_fault";
      })
      else elim (find_alarm sensor.alarms) [
        | some alarm ↦ some (record {
          sensor = identity.id;
          kind = SensorAlertKind.driver_alarm;
          severity =
              if is_urgent alarm.attribute then HealthSeverity.critical else HealthSeverity.warning;
          origin = directory_of identity.origin ++ alarm.attribute;
        })
        | none ↦ elim (limit_alert sensor) [
          | none ↦ none
          | some (kind, severity) ↦ some (record {
            sensor = identity.id;
            kind = kind;
            severity = severity;
            origin = identity.origin;
          })
        ]
      ]

  -- `coverage`, with the readings and reports of one sensor
  unfoldable pub cover_sensor : SensorReading U → HealthCoverage → HealthCoverage
  cover_sensor sensor coverage = record coverage {
    usable_readings = add_u32 coverage.usable_readings (
        one_if (
          (is_some sensor.input || is_some sensor.average)
          && get_or sensor.enabled true
          && not (get_or sensor.fault false)));
    alarm_reports =
        add_u32 coverage.alarm_reports
          (add_u32 (length sensor.alarms) (one_if (is_some sensor.fault)));
  }

  -- the loop over the sensors of one kind
  unfoldable pub sensor_alerts :
      List (SensorReading U) → List SensorAlert × HealthCoverage → List SensorAlert × HealthCoverage
  unfolding sensor_alert cover_sensor
  sensor_alerts [] state = state
  sensor_alerts (sensor ∷ sensors) (alerts, coverage) = sensor_alerts sensors (
    alerts ++ elim (sensor_alert sensor) [ none ↦ [] | some alert ↦ alert ∷ [] ],
    cover_sensor sensor coverage,
  )
