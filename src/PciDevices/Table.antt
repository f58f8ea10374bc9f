-- ===== src/PciDevices/Table.antt =====
-- The list of PCI devices as a table keyed by the address texts, without an index.
use sysal.Prelude.{
  if◌then◌else◌, Bool-cases, Option-cases, length, Bytes, text_eq, text_eq_iff, ◌>>=◌, ℕ, zero, suc,
  ◌≡◌, refl, ap, ◌∙◌, inl, inr, false, Option, none, some, List, [], ◌∷◌, ◌++◌, arith,
}
use sysal.Types.{RawSource, is_success}
use sysal.Text.{split}
use sysal.Pci.{parse_pci_address}
use sysal.RawStore.{RawRecord, RawStore, get_all}
use sysal.PciDevices.{PciDevice, new_device, add_records, group_records}
use sysal.PciDevices.Lspci.{parse_lspci_line}
use sysal.PciDevices.Merge.{name_device, named_device}

abbrev pub PciTable : Type 0
PciTable = List (Bytes × PciDevice)

-- the devices of a table
unfoldable pub rows : PciTable → List PciDevice
rows [] = []
rows ((key, d) ∷ t) = d ∷ rows t

unfoldable pub position : Bytes → PciTable → Option ℕ
position k [] = none
position k ((key, d) ∷ t) =
    let rest = position k t in if text_eq k key then some 0 else (rest >>= λ i. some (suc i))

-- every entry of an address gets the name
unfoldable pub rename : Bytes → Bytes → PciTable → PciTable
rename k name [] = []
rename k name ((key, d) ∷ t) =
    (key, if text_eq k key then record d { device_name = name } else d) ∷ rename k name t

-- a name goes to the entry of its address, or makes a new entry
unfoldable pub table_name : Bytes → Bytes → PciTable → PciTable
unfolding position rename
table_name k name t = elim (position k t) [
  | some i ↦ rename k name t
  | none ↦ elim (parse_pci_address k) [
    | none ↦ t
    | some address ↦ t ++ (k, named_device address name) ∷ []
  ]
]

unfoldable pub table_names : List (Bytes × Bytes) → PciTable → PciTable
unfolding table_name
table_names [] t = t
table_names ((k, name) ∷ names) t = table_names names (table_name k name t)

-- a group whose address parses makes an entry
unfoldable pub table_groups : List (Bytes × List RawRecord) → PciTable → PciTable
table_groups [] t = t
table_groups ((k, records) ∷ groups) t = table_groups groups (elim (parse_pci_address k) [
  | none ↦ t
  | some address ↦ t ++ (k, (add_records records (new_device address, [])).0) ∷ []
])

-- the addresses and names of all lines that parse
unfoldable pub line_names : List Bytes → List (Bytes × Bytes)
line_names [] = []
line_names (line ∷ lines) =
    let rest = line_names lines in
    elim (parse_lspci_line line) [ none ↦ rest | some pair ↦ pair ∷ rest ]

unfoldable pub lspci_names : List RawRecord → List (Bytes × Bytes)
unfolding line_names
lspci_names [] = []
lspci_names (rec ∷ records) =
    let rest = lspci_names records in
    if is_success rec.status then line_names (split rec.payload b'\n') ++ rest else rest

unfoldable pub pci_table : RawStore → PciTable
unfolding table_groups table_names lspci_names
pci_table raw =
    table_names (lspci_names (get_all raw RawSource.lspci))
      (table_groups (group_records (get_all raw RawSource.sysfs_pci) []) [])

-- no address text has two entries
abbrev pub IsDistinct : PciTable → Type 0
IsDistinct [] = Unit
IsDistinct ((key, d) ∷ t) = (position key t ≡ none) × IsDistinct t

length-rows : (t : PciTable) → length (rows t) ≡ length t
unfolding rows
length-rows [] = refl
length-rows ((key, d) ∷ t) = ap suc (length-rows t)

pub rows-append : (t u : PciTable) → rows (t ++ u) ≡ rows t ++ rows u
unfolding rows
rows-append [] u = refl
rows-append ((key, d) ∷ t) u = ap (◌∷◌ d) (rows-append t u)

-- an entry at the end of a table
abbrev position_end : Bytes → Bytes → PciTable → Option ℕ → Option ℕ
position_end j k t (some i) = some i
position_end j k t none = if text_eq j k then some (length (rows t)) else none

pub position-append :
    (j k : Bytes) (d : PciDevice) (t : PciTable)
    → position j (t ++ (k, d) ∷ []) ≡ position_end j k t (position j t)
unfolding position rows
position-append j k d [] = ground arith
position-append j k d ((key, e) ∷ t) = elim (Bool-cases (text_eq j key)) [
  | inl h ↦ rw h refl
  | inr h ↦ elim (Option-cases (position j t)) [
    | inl p ↦ ground (arith, position-append j k d t)
    | inr (i, p) ↦ ground (arith, position-append j k d t)
  ]
]

pub IsDistinct-append :
    (k : Bytes) (d : PciDevice) (t : PciTable)
    → position k t ≡ none
    → IsDistinct t
    → IsDistinct (t ++ (k, d) ∷ [])
unfolding position
IsDistinct-append k d [] h distinct = (refl, tt)
IsDistinct-append k d ((key, e) ∷ t) h (one, distinct) = elim (Bool-cases (text_eq k key)) [
  | inl q ↦ ground arith
  | inr q ↦ (go q, IsDistinct-append k d t (ground arith) distinct)
]
  where
    go : text_eq k key ≡ false → position key (t ++ (k, d) ∷ []) ≡ none
    go q = ground (arith, position-append key k d t, text_eq_iff key k, text_eq_iff k key)

pub position-rename :
    (j k name : Bytes) (t : PciTable) → position j (rename k name t) ≡ position j t
unfolding position rename
position-rename j k name [] = refl
position-rename j k name ((key, d) ∷ t) = rw (position-rename j k name t) refl

pub IsDistinct-rename :
    (k name : Bytes) (t : PciTable) → IsDistinct t → IsDistinct (rename k name t)
unfolding rename
IsDistinct-rename k name [] distinct = tt
IsDistinct-rename k name ((key, d) ∷ t) (one, distinct) =
    (position-rename key k name t ∙ one, IsDistinct-rename k name t distinct)

-- where the address has no entry, nothing changes
rename-absent :
    (k name : Bytes) (t : PciTable) → position k t ≡ none → rows (rename k name t) ≡ rows t
unfolding position rename rows
rename-absent k name [] h = refl
rename-absent k name ((key, d) ∷ t) h = elim (Bool-cases (text_eq k key)) [
  | inl q ↦ ground arith
  | inr q ↦ rw (q, rename-absent k name t (ground arith)) refl
]

-- the entry of an address is changed at its position
pub rows-rename :
    (k name : Bytes) (t : PciTable) (i : ℕ)
    → IsDistinct t
    → position k t ≡ some i
    → rows (rename k name t) ≡ name_device (rows t) i name
unfolding position rename rows name_device
rows-rename k name [] i distinct h = cc
rows-rename k name ((key, d) ∷ t) zero (one, distinct) h = elim (Bool-cases (text_eq k key)) [
  | inl q ↦ ground (arith, rename-absent k name t, text_eq_iff k key)
  | inr q ↦ ground arith
]
rows-rename k name ((key, d) ∷ t) (suc i) (one, distinct) h = elim (Bool-cases (text_eq k key)) [
  | inl q ↦ ground arith
  | inr q ↦ ground (arith, rows-rename k name t i distinct)
]
