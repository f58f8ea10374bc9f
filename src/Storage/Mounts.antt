-- ===== src/Storage/Mounts.antt =====
-- Mounts of block devices: src/parser/storage_topology.cpp.
use sysal.Prelude.{
  ◌==◌, if◌then◌else◌, get_elem?, first, is_some, Bytes, codes, text_eq, ℕ, zero, suc, ◌+◌, Bool,
  not, ◌&&◌, ◌||◌, Option, none, some, List, [], ◌∷◌, map,
}
use sysal.Types.{RawSource, is_success}
use sysal.Number.{DeviceNumber}
use sysal.RawStore.{RawRecord, RawStore, get_all}
use sysal.Mountinfo.{StorageMount, parse_mountinfo}
use sysal.Storage.{StorageDevice, Storage}

unfoldable pub number_eq : DeviceNumber → DeviceNumber → Bool
number_eq a b = a.major == b.major && a.minor == b.minor

-- `numbers`: the last device with a number; positions count from `i`
unfoldable pub find_number : List StorageDevice → ℕ → DeviceNumber → Option ℕ
unfolding number_eq
find_number [] i number = none
find_number (d ∷ ds) i number = elim (find_number ds (i + 1) number) [
  | some later ↦ some later
  | none ↦ elim d.device_number [
    | none ↦ none
    | some own ↦ if number_eq own number then some i else none
  ]
]

-- the first loop forgets what df said
unfoldable pub reset_mount : StorageDevice → StorageDevice
reset_mount d = record d { mount_point = none; fs_type = none }

-- a device takes the first mount, and `/` before all others
unfoldable pub mount_device : StorageMount → StorageDevice → StorageDevice
mount_device mount block =
    if not (is_some block.mount_point) || text_eq mount.path (codes "/")
    then record block { mount_point = some mount.path; fs_type = some mount.filesystem }
    else block

unfoldable pub update_at :
    ℕ → (StorageDevice → StorageDevice) → List StorageDevice → List StorageDevice
update_at i f [] = []
update_at zero f (d ∷ ds) = f d ∷ ds
update_at (suc i) f (d ∷ ds) = d ∷ update_at i f ds

unfoldable pub name_at : List StorageDevice → ℕ → Option Bytes
name_at devices i = elim (get_elem? devices i) [ none ↦ none | some d ↦ some d.name ]

-- the second loop, over the devices; `numbers` is the index from before it
unfoldable pub apply_mounts :
    (DeviceNumber → Option ℕ)
    → List StorageMount
    → List StorageDevice
    → List StorageMount × List StorageDevice
unfolding mount_device update_at name_at
apply_mounts numbers [] devices = ([], devices)
apply_mounts numbers (mount ∷ mounts) devices = elim (numbers mount.device_number) [
  | none ↦ let rest = apply_mounts numbers mounts devices in (mount ∷ rest.0, rest.1)
  | some i ↦
      let rest = apply_mounts numbers mounts (update_at i (mount_device mount) devices) in
      (record mount { block_device = name_at devices i } ∷ rest.0, rest.1)
]

-- the first record of the mount information that succeeded
unfoldable pub mount_record : RawStore → Option RawRecord
mount_record raw = first (λ r. is_success r.status) (get_all raw RawSource.storage_mount_info)

unfoldable pub apply_storage_mounts : Storage → RawStore → List Bytes → Storage × List Bytes
unfolding mount_record reset_mount apply_mounts find_number
apply_storage_mounts storage raw warnings = elim (mount_record raw) [
  | none ↦ (storage, warnings)
  | some rec ↦
      let read = parse_mountinfo rec.payload warnings in
      let applied =
        apply_mounts (find_number storage.devices 0) read.0 (map reset_mount storage.devices) in
      (record storage { mounts = applied.0; devices = applied.1 }, read.1)
]
