-- ===== src/Memory/Devices.antt =====
-- `apply_edac_inventory` of src/parser/memory_edac.cpp. Devices that tie in the order are devices
-- of one identity in two directories; `std::sort` leaves their order open, here it is kept.
use sysal.Prelude.{
  ltb, leb, ◌==◌, if◌then◌else◌, length, take, drop, keep, is_nil, get_or, Bytes, codes, text_eq, ℕ,
  ◌+◌, ◌*◌, Bool, false, not, ◌&&◌, ◌||◌, Option, none, some, List, [], ◌∷◌, ◌++◌, map,
}
use sysal.Prelude.Maps.{update_key}
use sysal.Types.{RawSource, is_success}
use sysal.Text.{trim, rfind, hardware_text}
use sysal.Number.{parse_uint}
use sysal.RawStore.{RawRecord, RawStore, get_all}
use sysal.Memory.{EdacMemoryDevice, DimmEdacAssociation, DimmInfo, Memory, empty_dimm}
use sysal.Memory.Locations.{parse_edac_location, kind_code, device_identity}

-- a size in MiB as bytes, if they fit in 64 bits
unfoldable pub mib_to_bytes : Option ℕ → Option ℕ → Option ℕ
mib_to_bytes none old = old
mib_to_bytes (some size) old = if leb size 17592186044415 then some (size * 1024 * 1024) else old

unfoldable pub set_edac_field : Bytes → Bytes → EdacMemoryDevice → EdacMemoryDevice
unfolding mib_to_bytes
set_edac_field field payload device =
    let value = hardware_text payload in
    if text_eq field (codes "dimm_label")
    then record device { label = value }
    else if text_eq field (codes "dimm_location")
    then record device { location = parse_edac_location payload }
    else if text_eq field (codes "dimm_mem_type")
    then record device { memory_type = value }
    else if text_eq field (codes "dimm_edac_mode")
    then record device { edac_mode = value }
    else if text_eq field (codes "dimm_dev_type")
    then record device { device_width = value }
    else if text_eq field (codes "size")
    then record device { size = mib_to_bytes (parse_uint (trim payload)) device.size }
    else device

abbrev EdacGroups : Type 0
EdacGroups = List (Bytes × EdacMemoryDevice)

unfoldable pub add_edac_record : Bytes → Bytes → EdacGroups → EdacGroups
unfolding set_edac_field
add_edac_record path payload groups = elim (rfind path b'/') [
  | none ↦ groups
  | some slash ↦
      let directory = take slash path in
      elim (device_identity directory) [
        | none ↦ groups
        | some identity ↦
            update_key directory
              (λ old. set_edac_field (drop (slash + 1) path) payload (get_or old identity)) groups
      ]
]

-- the first loop, over the records
unfoldable pub group_edac : List RawRecord → EdacGroups → EdacGroups
unfolding add_edac_record
group_edac [] groups = groups
group_edac (rec ∷ records) groups = group_edac records (
    if is_success rec.status
    then add_edac_record rec.path_or_command rec.payload groups
    else groups)

-- by controller, kind and index
unfoldable pub edac_lt : EdacMemoryDevice → EdacMemoryDevice → Bool
edac_lt a b =
    if not (a.controller_index == b.controller_index)
    then ltb a.controller_index b.controller_index
    else if not (kind_code a.kind == kind_code b.kind)
    then ltb (kind_code a.kind) (kind_code b.kind)
    else ltb a.index b.index

unfoldable pub insert_edac : EdacMemoryDevice → List EdacMemoryDevice → List EdacMemoryDevice
unfolding edac_lt
insert_edac d [] = d ∷ []
insert_edac d (e ∷ es) = let rest = insert_edac d es in if edac_lt e d then e ∷ rest else d ∷ e ∷ es

unfoldable pub sort_edac : List EdacMemoryDevice → List EdacMemoryDevice
unfolding insert_edac
sort_edac [] = []
sort_edac (d ∷ ds) = insert_edac d (sort_edac ds)

unfoldable pub inventory_dimm : EdacMemoryDevice → ℕ → DimmInfo
inventory_dimm device size = record empty_dimm {
  locator = device.label;
  bank_locator = device.location.report;
  size = size;
  present = ltb 0 size;
  memory_type = device.memory_type;
  edac_mode = device.edac_mode;
  device_width = device.device_width;
  controller_index = some device.controller_index;
  edac_device_index = some device.index;
  edac_association = DimmEdacAssociation.edac_inventory;
}

unfoldable pub merge_type : Bytes → Bytes → Bytes
merge_type memory_type reported =
    if is_nil memory_type
    then reported
    else if text_eq memory_type reported
    then memory_type
    else codes "mixed"

-- without DIMMs of the firmware, the devices of EDAC are the inventory
unfoldable pub add_fallback : List EdacMemoryDevice → List DimmInfo × Bytes → List DimmInfo × Bytes
unfolding inventory_dimm merge_type
add_fallback [] state = state
add_fallback (device ∷ devices) (dimms, memory_type) =
    let rest = add_fallback devices in
    if not (kind_code device.kind == 1) then rest (dimms, memory_type) else elim device.size [
      | none ↦ rest (dimms, memory_type)
      | some size ↦ rest (
        dimms ++ inventory_dimm device size ∷ [],
        if ltb 0 size && not (is_nil device.memory_type)
            then merge_type memory_type device.memory_type
            else memory_type,
      )
    ]

-- `matches_dimm` and `matches_edac`
unfoldable pub matches_dimm : EdacMemoryDevice → ℕ → DimmInfo → Bool
matches_dimm device size dimm =
    dimm.present && text_eq dimm.locator device.label && dimm.size == size

unfoldable pub same_size : Option ℕ → ℕ → Bool
same_size none size = false
same_size (some other) size = other == size

unfoldable pub matches_edac : EdacMemoryDevice → ℕ → EdacMemoryDevice → Bool
unfolding same_size
matches_edac device size other =
    kind_code other.kind == 1 && text_eq other.label device.label && same_size other.size size

unfoldable pub associate_dimm : EdacMemoryDevice → DimmInfo → DimmInfo
associate_dimm device dimm = record dimm {
  edac_mode = device.edac_mode;
  device_width = device.device_width;
  controller_index = some device.controller_index;
  edac_device_index = some device.index;
  edac_association = DimmEdacAssociation.label_and_capacity;
}

-- the first element that passes a test is changed
unfoldable pub change_first :
    (DimmInfo → Bool) → (DimmInfo → DimmInfo) → List DimmInfo → List DimmInfo
change_first p f [] = []
change_first p f (x ∷ xs) = let rest = change_first p f xs in if p x then f x ∷ xs else x ∷ rest

-- one device against the DIMMs of the firmware: both sides of the match are unique
unfoldable pub match_device :
    List EdacMemoryDevice → EdacMemoryDevice → List DimmInfo → List DimmInfo
unfolding matches_dimm matches_edac associate_dimm change_first
match_device devices device dimms = elim device.size [
  | none ↦ dimms
  | some size ↦
      if not (kind_code device.kind == 1)
        || is_nil device.label
        || size == 0
        || not (length (keep (matches_dimm device size) dimms) == 1)
        || not (length (keep (matches_edac device size) devices) == 1)
      then dimms
      else change_first (matches_dimm device size) (associate_dimm device) dimms
]

unfoldable pub match_devices :
    List EdacMemoryDevice → List EdacMemoryDevice → List DimmInfo → List DimmInfo
unfolding match_device
match_devices all_devices [] dimms = dimms
match_devices all_devices (device ∷ devices) dimms =
    match_devices all_devices devices (match_device all_devices device dimms)

-- the memory and the type that the caller collects
unfoldable pub apply_edac_inventory : Memory → RawStore → Bytes → Memory × Bytes
unfolding group_edac sort_edac add_fallback match_devices
apply_edac_inventory memory raw memory_type =
    let grouped = map (λ p. p.1) (group_edac (get_all raw RawSource.sysfs_edac) []) in
    let devices = sort_edac (memory.edac_devices ++ grouped) in
    if is_nil memory.dimms
    then (let fallback = add_fallback devices ([], memory_type) in
        (
          record memory {
            edac_devices = devices;
            dimms = fallback.0;
            dimm_inventory_source =
                if is_nil fallback.0 then memory.dimm_inventory_source else codes "edac";
          },
          fallback.1,
        ))
    else (
      record memory { edac_devices = devices; dimms = match_devices devices devices memory.dimms },
      memory_type,
    )
