-- ===== src/Sensors.antt =====
-- Sensor readings: include/sysal/model/sensors.hpp, and the channels of src/parser/sensors.cpp. The
-- attributes of a directory are a map from file names to contents.
pub mod Groups
pub mod Limits
use sysal.Prelude.{
  if◌then◌else◌, is_some, Bytes, codes, text_eq, starts_with, ℕ, Bool, true, false, not, ◌&&◌, ◌||◌,
  Option, none, some, List, [], ◌∷◌, ◌++◌,
}
use sysal.Prelude.Maps.{lookup_key}
use sysal.Types.{RawSource}
use sysal.Text.{trim, split, ends_with}
use sysal.Number.{from_chars, whole, ℤ, whole_signed}
use sysal.Pci.{PciAddress, parse_pci_address}

pub record SensorIdentity : Type 0 where
  pub id : Bytes
  pub chip : Bytes
  pub driver : Bytes
  pub channel : Bytes
  pub label : Bytes
  pub source : RawSource
  pub origin : Bytes
  pub device_path : Bytes
  pub pci_address : Option PciAddress

pub record SensorAlarm : Type 0 where
  pub attribute : Bytes
  pub active : Bool

-- the values of a reading are signed for temperatures, and unsigned for fans and powers
pub record SensorReading (U : Type 0) : Type 0 where
  pub identity : SensorIdentity
  pub input : Option U
  pub average : Option U
  pub minimum : Option U
  pub maximum : Option U
  pub critical : Option U
  pub enabled : Option Bool
  pub fault : Option Bool
  pub alarms : List SensorAlarm
  pub unit_supported : Bool

pub record Sensors : Type 0 where
  pub temperatures : List (SensorReading ℤ)
  pub fans : List (SensorReading ℕ)
  pub powers : List (SensorReading ℕ)

abbrev pub Attributes : Type 0
Attributes = List (Bytes × Bytes)

unfoldable pub value : Attributes → Bytes → Bytes
value attributes key = elim (lookup_key key attributes) [ none ↦ [] | some text ↦ trim text ]

unfoldable pub contains_key : Attributes → Bytes → Bool
contains_key attributes key = is_some (lookup_key key attributes)

-- `measurement<Unit>`: `read` is `std::from_chars` into the unit's type
unfoldable pub measurement {ℓ} : {U : Type ℓ} → (Bytes → Option U) → Attributes → Bytes → Option U
unfolding value
measurement read attributes key = read (value attributes key)

unfoldable pub flag : Attributes → Bytes → Option Bool
unfolding value
flag attributes key =
    let text = value attributes key in
    if text_eq text (codes "0")
    then some false
    else if text_eq text (codes "1")
    then some true
    else none

-- the last component of a path that is a PCI address
unfoldable pub path_address : List Bytes → Option PciAddress → Option PciAddress
path_address [] address = address
path_address (part ∷ parts) address =
    path_address parts (elim (parse_pci_address part) [ none ↦ address | some found ↦ some found ])

-- the alarms of a channel, over all attributes
unfoldable channel_alarms : Bytes → Attributes → Attributes → List SensorAlarm
unfolding flag
channel_alarms name all_attributes [] = []
channel_alarms name all_attributes ((key, ignored) ∷ attributes) =
    let rest = channel_alarms name all_attributes attributes in
    if starts_with key (name ++ codes "_") && ends_with key (codes "_alarm")
    then elim (flag all_attributes key) [
      | none ↦ rest
      | some active ↦ record { attribute = key; active = active } ∷ rest
    ]
    else rest

unfoldable input_suffix : Attributes → Bytes → Bytes
unfolding contains_key
input_suffix attributes name =
    if contains_key attributes (name ++ codes "_input")
    then codes "_input"
    else if contains_key attributes (name ++ codes "_average")
    then codes "_average"
    else codes "_input"

-- the type 4 of a temperature has a unit only with drivers that convert it
unfoldable unit_known : Bool → Attributes → Bytes → Bool
unfolding value
unit_known is_temperature attributes name =
    let driver = value attributes (codes "driver") in
    not is_temperature
    || not (text_eq (value attributes (name ++ codes "_type")) (codes "4"))
    || text_eq driver (codes "it87")
    || text_eq driver (codes "ntc-thermistor")
    || text_eq driver (codes "ntc_thermistor")

unfoldable channel_identity : Attributes → Bytes → Bytes → RawSource → SensorIdentity
unfolding value path_address input_suffix
channel_identity attributes path name source =
    let device_path = value attributes (codes "device_path") in
    record {
      id = path ++ codes "/" ++ name;
      chip = value attributes (codes "name");
      driver = value attributes (codes "driver");
      channel = name;
      label = value attributes (name ++ codes "_label");
      source = source;
      origin = path ++ codes "/" ++ name ++ input_suffix attributes name;
      device_path = device_path;
      pci_address = path_address (split device_path b'/') none;
    }

-- `channel<Unit>`
unfoldable pub read_channel :
    {U : Type 0}
    → Bool
    → (Bytes → Option U)
    → Attributes
    → Bytes
    → Bytes
    → RawSource
    → SensorReading U
unfolding flag channel_alarms unit_known channel_identity measurement
read_channel is_temperature read attributes path name source =
    let supported = unit_known is_temperature attributes name in
    let measure = λ (suffix : Bytes).
      if supported then measurement read attributes (name ++ suffix) else none in
    record {
      identity = channel_identity attributes path name source;
      input = measure (codes "_input");
      average = measure (codes "_average");
      minimum = measure (codes "_min");
      maximum = measure (codes "_max");
      critical = measure (codes "_crit");
      enabled = flag attributes (name ++ codes "_enable");
      fault = flag attributes (name ++ codes "_fault");
      alarms = channel_alarms name attributes attributes;
      unit_supported = supported;
    }

abbrev pub temperature_channel : Attributes → Bytes → Bytes → RawSource → SensorReading ℤ
temperature_channel = read_channel true whole_signed

abbrev pub scalar_channel : Attributes → Bytes → Bytes → RawSource → SensorReading ℕ
scalar_channel = read_channel false (λ text. whole (from_chars 10 text))
