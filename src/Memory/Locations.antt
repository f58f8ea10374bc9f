-- ===== src/Memory/Locations.antt =====
-- Names of EDAC directories and locations: `edac_controller_index` of src/parser/memory_topology.cpp,
-- `parse_edac_location` and `device_identity` of src/parser/memory_edac.cpp.
use sysal.Prelude.{
  ◌==◌, if◌then◌else◌, take, drop, any, Bytes, codes, text_eq, starts_with, ◌>>=◌, ℕ, ◌+◌, Bool,
  ◌||◌, Option, none, some, List, [], ◌∷◌, ◌++◌,
}
use sysal.Text.{trim, find, rfind, find_text, extract_filename}
use sysal.Text.Words.{words}
use sysal.Number.{parse_u32, to_string}
use sysal.Memory.{
  EdacLocationLayer, EdacLocationCoordinate, EdacLocation, EdacMemoryDeviceKind, EdacMemoryDevice,
  empty_location,
}

-- the number of the first component that begins with `mc` under `mc`
unfoldable pub edac_controller_index : Bytes → Option ℕ
edac_controller_index path = do
  start ← find_text path (codes "/mc/mc")
  let behind = drop (start + 6) path
  elim (find behind b'/') [ none ↦ parse_u32 behind | some end ↦ parse_u32 (take end behind) ]

unfoldable pub location_layer : Bytes → EdacLocationLayer
location_layer name =
    if text_eq name (codes "branch")
    then EdacLocationLayer.branch
    else if text_eq name (codes "channel")
    then EdacLocationLayer.channel
    else if text_eq name (codes "slot")
    then EdacLocationLayer.slot
    else if text_eq name (codes "csrow")
    then EdacLocationLayer.chip_select
    else if text_eq name (codes "memory")
    then EdacLocationLayer.all_memory
    else EdacLocationLayer.unknown

-- the number of an enumerator
unfoldable pub layer_code : EdacLocationLayer → ℕ
layer_code EdacLocationLayer.unknown = 0
layer_code EdacLocationLayer.branch = 1
layer_code EdacLocationLayer.channel = 2
layer_code EdacLocationLayer.slot = 3
layer_code EdacLocationLayer.chip_select = 4
layer_code EdacLocationLayer.all_memory = 5

unfoldable pub has_layer : EdacLocationLayer → List EdacLocationCoordinate → Bool
unfolding layer_code
has_layer layer coordinates = any (λ c. layer_code c.layer == layer_code layer) coordinates

-- one coordinate; `none` ends the loop without coordinates
unfoldable pub coordinate :
    Bytes → Bytes → List EdacLocationCoordinate → Option EdacLocationCoordinate
unfolding location_layer has_layer
coordinate name value found = do
  index ← parse_u32 value
  let layer = location_layer name
  (if layer_code layer == 0 || has_layer layer found
      then none
      else some (record { layer = layer; index = index }))

-- the loop over the words, two at a time
unfoldable pub read_coordinates :
    List Bytes → List EdacLocationCoordinate → List EdacLocationCoordinate
unfolding coordinate
read_coordinates [] found = found
read_coordinates (name ∷ []) found = []
read_coordinates (name ∷ value ∷ rest) found = elim (coordinate name value found) [
  | none ↦ []
  | some c ↦ read_coordinates rest (found ++ c ∷ [])
]

unfoldable pub parse_edac_location : Bytes → EdacLocation
unfolding read_coordinates
parse_edac_location report =
    let text = trim report in
    record { report = text; coordinates = read_coordinates (words text) [] }

unfoldable pub device_kind : Bytes → EdacMemoryDeviceKind
device_kind name =
    if starts_with name (codes "dimm")
    then EdacMemoryDeviceKind.dimm
    else if starts_with name (codes "rank")
    then EdacMemoryDeviceKind.rank
    else EdacMemoryDeviceKind.unknown

unfoldable pub kind_code : EdacMemoryDeviceKind → ℕ
kind_code EdacMemoryDeviceKind.unknown = 0
kind_code EdacMemoryDeviceKind.dimm = 1
kind_code EdacMemoryDeviceKind.rank = 2

abbrev new_edac_device : ℕ → ℕ → EdacMemoryDeviceKind → EdacMemoryDevice
new_edac_device controller index kind = record {
  controller_index = controller;
  index = index;
  kind = kind;
  label = [];
  size = none;
  location = empty_location;
  memory_type = [];
  edac_mode = [];
  device_width = [];
  numa_node = none;
}

-- the directory above; without a slash, `substr(0, npos)` is the whole text
unfoldable pub parent_of : Bytes → Bytes
parent_of directory = elim (rfind directory b'/') [
  | none ↦ directory
  | some slash ↦ take slash directory
]

-- a direct child of a controller, whose name is a kind with a number
unfoldable pub device_identity : Bytes → Option EdacMemoryDevice
unfolding edac_controller_index device_kind parent_of
device_identity directory = do
  controller ← edac_controller_index directory
  let name = extract_filename directory
  let kind = device_kind name
  index ← (if kind_code kind == 0 then none else parse_u32 (drop 4 name))
  (if text_eq (extract_filename (parent_of directory)) (codes "mc" ++ to_string controller)
      then some (new_edac_device controller index kind)
      else none)
