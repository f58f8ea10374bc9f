-- ===== src/Sensors/Groups.antt =====
-- `parse_sensors` of src/parser/sensors.cpp.
use sysal.Prelude.{
  ltb, ◌==◌, if◌then◌else◌, length, take, drop, all, get_or, Bytes, codes, text_eq, starts_with, ℕ,
  ◌+◌, ◌-◌, Bool, not, ◌&&◌, Option, none, some, List, [], ◌∷◌, ◌++◌,
}
use sysal.Prelude.Maps.{insert_text, update_key}
use sysal.Types.{RawSource, source_eq, is_success}
use sysal.Text.{trim, find, rfind, is_digit, ends_with}
use sysal.Number.{ℤ, signed_lt, whole_signed}
use sysal.RawStore.{RawRecord, RawStore}
use sysal.Sensors.{
  SensorReading, Sensors, Attributes, value, contains_key, measurement, temperature_channel,
  scalar_channel,
}

abbrev Groups : Type 0
Groups = List (Bytes × Attributes)

-- the records of one source that succeeded, by the directories of their paths
unfoldable group_attributes : RawSource → List RawRecord → Groups → Groups
group_attributes source [] groups = groups
group_attributes source (rec ∷ records) groups = group_attributes source records (
    if source_eq rec.source source && is_success rec.status
    then elim (rfind rec.path_or_command b'/') [
      | none ↦ groups
      | some slash ↦
          update_key (take slash rec.path_or_command)
            (λ old.
              update_key (drop (slash + 1) rec.path_or_command) (λ last. rec.payload)
                (get_or old []))
            groups
    ]
    else groups)

-- a limit replaces a higher one
unfoldable pub lower_limit : Option ℤ → Option ℤ → Option ℤ
lower_limit critical none = critical
lower_limit none (some limit) = some limit
lower_limit (some critical) (some limit) =
    if signed_lt limit critical then some limit else some critical

-- whether an attribute is the type of a trip point, and that type is `critical`
unfoldable pub is_critical_trip : Bytes → Bytes → Bool
is_critical_trip field trip_type =
    starts_with field (codes "trip_point_")
    && ends_with field (codes "_type")
    && text_eq (trim trip_type) (codes "critical")

-- the temperature that belongs to the type of a trip point
unfoldable pub trip_limit : Attributes → Bytes → Option ℤ
trip_limit attributes field =
    measurement whole_signed attributes (take (length field - 4) field ++ codes "temp")

unfoldable pub critical_trips : Attributes → Attributes → Option ℤ → Option ℤ
unfolding lower_limit is_critical_trip trip_limit
critical_trips all_attributes [] critical = critical
critical_trips all_attributes ((field, trip_type) ∷ attributes) critical =
    critical_trips all_attributes attributes (
      if is_critical_trip field trip_type
      then lower_limit critical (trip_limit all_attributes field)
      else critical)

-- a thermal zone as a sensor with one channel
unfoldable thermal_sensor : Attributes → Bytes → SensorReading ℤ
unfolding critical_trips
thermal_sensor attributes path =
    let translated =
      update_key (codes "temp1_label") (λ old. value attributes (codes "type"))
        (update_key (codes "temp1_input") (λ old. value attributes (codes "temp")) attributes) in
    let sensor = temperature_channel translated path (codes "temp1") RawSource.sysfs_thermal in
    record sensor {
      identity = record sensor.identity {
        origin = path ++ codes "/temp";
        chip = value attributes (codes "type");
      };
      critical = critical_trips attributes attributes sensor.critical;
    }

unfoldable thermal_groups : Groups → Sensors → Sensors
unfolding thermal_sensor
thermal_groups [] sensors = sensors
thermal_groups ((path, attributes) ∷ groups) sensors = thermal_groups groups (
    if contains_key attributes (codes "temp")
    then record sensors {
      temperatures = sensors.temperatures ++ thermal_sensor attributes path ∷ [];
    }
    else sensors)

-- the length of the kind's word, or 0
unfoldable kind_start : Bytes → ℕ
kind_start name =
    if starts_with name (codes "temp")
    then 4
    else if starts_with name (codes "fan")
    then 3
    else if starts_with name (codes "power")
    then 5
    else 0

-- a kind with a number
unfoldable is_channel : Bytes → Bool
unfolding kind_start
is_channel name =
    let start = kind_start name in
    not (start == 0) && ltb start (length name) && all is_digit (drop start name)

-- the channels that the attributes name
unfoldable channel_names : Attributes → List Bytes → List Bytes
unfolding is_channel
channel_names [] channels = channels
channel_names ((field, ignored) ∷ attributes) channels =
    channel_names attributes (elim (find field b'_') [
      | none ↦ channels
      | some separator ↦
          let name = take separator field in
          if is_channel name then insert_text name channels else channels
    ])

unfoldable add_channel : Attributes → Bytes → Bytes → Sensors → Sensors
add_channel attributes path name sensors =
    if starts_with name (codes "temp")
    then record sensors {
      temperatures =
          sensors.temperatures
          ++ temperature_channel attributes path name RawSource.sysfs_hwmon ∷ [];
    }
    else if starts_with name (codes "fan")
    then record sensors {
      fans = sensors.fans ++ scalar_channel attributes path name RawSource.sysfs_hwmon ∷ [];
    }
    else record sensors {
      powers = sensors.powers ++ scalar_channel attributes path name RawSource.sysfs_hwmon ∷ [];
    }

unfoldable add_channels : Attributes → Bytes → List Bytes → Sensors → Sensors
unfolding add_channel
add_channels attributes path [] sensors = sensors
add_channels attributes path (name ∷ names) sensors =
    add_channels attributes path names (add_channel attributes path name sensors)

unfoldable hwmon_groups : Groups → Sensors → Sensors
unfolding add_channels channel_names
hwmon_groups [] sensors = sensors
hwmon_groups ((path, attributes) ∷ groups) sensors =
    hwmon_groups groups (add_channels attributes path (channel_names attributes []) sensors)

-- the keys of the map begin with the source, and the thermal zones' source is the smaller one
unfoldable parse_sensors : RawStore → Sensors
unfolding thermal_groups hwmon_groups group_attributes
parse_sensors raw = hwmon_groups (group_attributes RawSource.sysfs_hwmon raw.records []) (
    thermal_groups (group_attributes RawSource.sysfs_thermal raw.records [])
      (record { temperatures = []; fans = []; powers = [] }))
