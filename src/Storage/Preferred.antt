-- ===== src/Storage/Preferred.antt =====
-- Which mount a block device shows, for src/parser/storage_topology.cpp.
use sysal.Prelude.{
  ◌==◌, if◌then◌else◌, Bool-cases, Option-cases, get_elem?, drop, any, keep, get_elem?-map, Bytes,
  codes, text_eq, text_eq_iff, ℕ, zero, suc, ◌+◌, ◌≤◌, ◌≡◌, refl, ap, ◌∙◌, inl, inr, Bool, false,
  ◌&&◌, Option, none, some, List, [], ◌∷◌, map, arith,
}
use sysal.Number.{DeviceNumber}
use sysal.RawStore.{RawRecord, RawStore}
use sysal.Mountinfo.{StorageMount, parse_mountinfo}
use sysal.Storage.{StorageDevice, Storage}
use sysal.Storage.Mounts.{
  number_eq, find_number, reset_mount, mount_device, update_at, apply_mounts, mount_record,
  apply_storage_mounts,
}

abbrev is_root_path : Bytes → Bool
is_root_path path = text_eq path (codes "/")

abbrev first_path : List StorageMount → Option Bytes
first_path [] = none
first_path (m ∷ ms) = some m.path

abbrev prefer_old : Option Bytes → Option Bytes → Option Bytes
prefer_old none new = new
prefer_old (some p) new = some p

-- `/` if one of the mounts has it, or else the path from before, or else the first one
unfoldable pub preferred : Option Bytes → List StorageMount → Option Bytes
preferred old ms =
    if any (λ m. is_root_path m.path) ms then some (codes "/") else prefer_old old (first_path ms)

-- the mounts of the device at a position
unfoldable is_at : Option ℕ → ℕ → Bool
is_at none i = false
is_at (some j) i = i == j

abbrev mounts_at : (DeviceNumber → Option ℕ) → ℕ → List StorageMount → List StorageMount
mounts_at numbers i = keep (λ m. is_at (numbers m.device_number) i)

unfoldable pub point_of : Option StorageDevice → Option Bytes
point_of none = none
point_of (some d) = d.mount_point

get-update :
    (i j : ℕ) (f : StorageDevice → StorageDevice) (ds : List StorageDevice) (d : StorageDevice)
    → get_elem? ds i ≡ some d
    → get_elem? (update_at j f ds) i ≡ some (if i == j then f d else d)
unfolding update_at
get-update i j f [] d h = cc
get-update zero zero f (x ∷ ds) d h = ground arith
get-update zero (suc j) f (x ∷ ds) d h = ground arith
get-update (suc i) zero f (x ∷ ds) d h = ground arith
get-update (suc i) (suc j) f (x ∷ ds) d h = ground (arith, get-update i j f ds d h)

preferred-mount :
    (m : StorageMount) (ms : List StorageMount) (d : StorageDevice)
    → preferred (mount_device m d).mount_point ms ≡ preferred d.mount_point (m ∷ ms)
unfolding preferred mount_device
preferred-mount m ms d = elim (Bool-cases (is_root_path m.path)) [
  | inl e ↦ elim (Option-cases d.mount_point) [
    | inl o ↦ ground (arith, text_eq_iff m.path (codes "/"))
    | inr (p, o) ↦ ground (arith, text_eq_iff m.path (codes "/"))
  ]
  | inr e ↦ elim (Option-cases d.mount_point) [ inl o ↦ ground arith | inr (p, o) ↦ ground arith ]
]

-- a device sees the mounts with its number, and shows the preferred one
apply_mounts-preferred :
    (numbers : DeviceNumber → Option ℕ) (ms : List StorageMount) (ds : List StorageDevice) (i : ℕ)
    (d : StorageDevice)
    → get_elem? ds i ≡ some d
    → point_of (get_elem? (apply_mounts numbers ms ds).1 i)
      ≡ preferred d.mount_point (mounts_at numbers i ms)
unfolding apply_mounts is_at
apply_mounts-preferred numbers [] ds i d h =
    unfold preferred point_of in
    rw h (elim (Option-cases d.mount_point) [ inl e ↦ rw e refl | inr (p, e) ↦ rw e refl ])
apply_mounts-preferred numbers (m ∷ ms) ds i d h = elim (Option-cases (numbers m.device_number)) [
  | inl e ↦ rw (e, apply_mounts) (apply_mounts-preferred numbers ms ds i d h)
  | inr (j, e) ↦
      let there = get-update i j (mount_device m) ds d h in
      elim (Bool-cases (i == j)) [
        | inl q ↦
            rw (e, apply_mounts, q)
              (apply_mounts-preferred numbers ms _ i (mount_device m d) (ground arith)
                ∙ preferred-mount m (mounts_at numbers i ms) d)
        | inr q ↦ rw (e, apply_mounts, q) (apply_mounts-preferred numbers ms _ i d (ground arith))
      ]
]

-- the device, or the mount, has this major and this minor number
abbrev owns : DeviceNumber → StorageDevice → Bool
owns number d = elim d.device_number [
  | none ↦ false
  | some own ↦ own.major == number.major && own.minor == number.minor
]

abbrev pub is_mount_of : DeviceNumber → StorageMount → Bool
is_mount_of number m =
    m.device_number.major == number.major && m.device_number.minor == number.minor

-- positions count from `i` on
find_number_bound :
    (ds : List StorageDevice) (i j : ℕ) (x : DeviceNumber) → find_number ds i x ≡ some j → i ≤ j
unfolding find_number
find_number_bound [] i j x h = cc
find_number_bound (d ∷ ds) i j x h = elim (Option-cases (find_number ds (i + 1) x)) [
  | inl e ↦ ground arith
  | inr (later, e) ↦ let above = find_number_bound ds (i + 1) later x e in ground arith
]

find_number-absent :
    (ds : List StorageDevice) (i : ℕ) (x : DeviceNumber)
    → any (owns x) ds ≡ false
    → find_number ds i x ≡ none
unfolding find_number number_eq
find_number-absent [] i x h = refl
find_number-absent (d ∷ ds) i x h = ground (arith, find_number-absent ds (i + 1) x)

-- the last device with a number is found under it, and under no other
find_number-last :
    (ds : List StorageDevice) (k i : ℕ) (d : StorageDevice) (n x : DeviceNumber)
    → get_elem? ds i ≡ some d
    → d.device_number ≡ some n
    → any (owns n) (drop (suc i) ds) ≡ false
    → is_at (find_number ds k x) (k + i) ≡ (x.major == n.major && x.minor == n.minor)
unfolding find_number is_at
find_number-last [] k i d n x h e later = cc
find_number-last (y ∷ ds) k (suc i) d n x h e later =
    let rest = find_number-last ds (k + 1) i d n x h e later in
    elim (Option-cases (find_number ds (k + 1) x)) [
      | inl p ↦ elim (Option-cases y.device_number) [
        | inl q ↦ ground (arith, rest)
        | inr (own, q) ↦ ground (arith, rest)
      ]
      | inr (j, p) ↦ ground (arith, rest)
    ]
find_number-last (y ∷ ds) k zero d n x h e later =
    let same : y ≡ d = ground arith in
    elim (Option-cases (find_number ds (k + 1) x)) [
      | inl p ↦ ground (arith, same, ap (λ z. z.device_number) same)
      | inr (j, p) ↦
          let above = find_number_bound ds (k + 1) j x p in
          ground (arith, above, find_number-absent ds (k + 1) x)
    ]

keep-same :
    {A : Type 0} (p q : A → Bool) → ((x : A) → p x ≡ q x) → (xs : List A) → keep p xs ≡ keep q xs
keep-same p q h [] = refl
keep-same p q h (x ∷ xs) = rw (h x, keep-same p q h xs) refl

-- Where a record of the mount information succeeded, a block device with a device number that no
-- later device has shows the mount point `/` if one of the mounts with the same major and minor
-- number has that path, or else the path of the first of these mounts, or none: what the device
-- showed before does not matter.
pub apply_storage_mounts-preferred :
    (storage : Storage) (raw : RawStore) (warnings : List Bytes) (rec : RawRecord) (i : ℕ)
    (d : StorageDevice) (number : DeviceNumber)
    → mount_record raw ≡ some rec
    → get_elem? storage.devices i ≡ some d
    → d.device_number ≡ some number
    → any (owns number) (drop (suc i) storage.devices) ≡ false
    → point_of (get_elem? (apply_storage_mounts storage raw warnings).0.devices i)
      ≡ preferred none (keep (is_mount_of number) (parse_mountinfo rec.payload warnings).0)
unfolding apply_storage_mounts
apply_storage_mounts-preferred storage raw warnings rec i d number r h e later =
    let numbers = find_number storage.devices 0 in
    let mounts = (parse_mountinfo rec.payload warnings).0 in
    let plain : 0 + i ≡ i = omega arith in
    rw (r, apply_storage_mounts)
      (apply_mounts-preferred numbers mounts (map reset_mount storage.devices) i (reset_mount d)
          (get_elem?-map reset_mount storage.devices i d h)
        ∙ (unfold reset_mount in
            ap (preferred none) (
              keep-same (λ m. is_at (numbers m.device_number) i) (is_mount_of number)
                (λ m.
                  let found =
                    find_number-last storage.devices 0 i d number m.device_number h e later in
                  rw plain at found)
                mounts)))
