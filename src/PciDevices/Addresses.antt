-- ===== src/PciDevices/Addresses.antt =====
-- The address of each PCI device, for `parse_pci` of src/parser/pci.cpp.
use sysal.Prelude.{
  if◌then◌else◌, Bool-cases, Option-cases, All, All-append, Bytes, codes, text_eq, text_eq_refl,
  text_mem, ◌≡◌, refl, sym, ap, ◌∙◌, inl, inr, Bool, true, false, ◌||◌, Option, none, some, List,
  [], ◌∷◌, ◌++◌, arith,
}
use sysal.Types.{RawSource}
use sysal.Text.{trim, split, extract_filename}
use sysal.Pci.{PciAddress, parse_pci_address}
use sysal.RawStore.{RawRecord, RawStore, get_all}
use sysal.PciDevices.{
  PciDevice, new_device, last_two, set_upstream, set_field, add_record, add_records, group_records,
}
use sysal.PciDevices.Merge.{named_device, pci_missing, parse_pci}
use sysal.PciDevices.Refines.{parse_pci-table}
use sysal.PciDevices.Table.{
  PciTable, rows, position, rename, table_name, table_names, table_groups, lspci_names, pci_table,
}

module _ (a : PciAddress) where
  keeps :
      (b : Bool) (x y : PciDevice)
      → x.address ≡ a
      → y.address ≡ a
      → (if b then x else y).address ≡ a
  keeps true x y h k = h
  keeps false x y h k = k

set_upstream-address :
    (names : Option (Bytes × Bytes)) (dev : PciDevice)
    → (set_upstream names dev).address ≡ dev.address
unfolding set_upstream
set_upstream-address none dev = refl
set_upstream-address (some (parent, child)) dev = keeps dev.address _ _ dev refl refl

set_field-address :
    (filename payload : Bytes) (dev : PciDevice)
    → (set_field filename payload dev).address ≡ dev.address
unfolding set_field
set_field-address filename payload dev =
    ground (arith, set_upstream-address (last_two (split (trim payload) b'/')) dev)

add_records-address :
    (records : List RawRecord) (state : PciDevice × List Bytes)
    → (add_records records state).0.address ≡ state.0.address
unfolding add_records
add_records-address [] state = refl
add_records-address (rec ∷ records) (dev, ws) =
    add_records-address records (add_record rec (dev, ws)) ∙ one
  where
    one : (add_record rec (dev, ws)).0.address ≡ dev.address
    one =
        unfold add_record in
        elim (Bool-cases (text_eq (extract_filename rec.path_or_command) (codes "numa_node"))) [
          | inl e ↦ rw e refl
          | inr e ↦ rw e (set_field-address (extract_filename rec.path_or_command) rec.payload dev)
        ]

module _ (known : List Bytes) where
  -- the text of an entry is an address, that of its device, and stands in `known`
  abbrev IsEntry : Bytes × PciDevice → Type 0
  IsEntry (k, d) = (parse_pci_address k ≡ some d.address) × (text_mem k known ≡ true)

  -- the text of a pair stands in `known`
  abbrev IsKnown {ℓ} : {A : Type ℓ} → Bytes × A → Type 0
  IsKnown p = text_mem p.0 known ≡ true

  rename-IsEntry : (k name : Bytes) (t : PciTable) → All IsEntry t → All IsEntry (rename k name t)
  unfolding rename
  rename-IsEntry k name [] h = tt
  rename-IsEntry k name ((key, d) ∷ t) ((one, there), h) = (
    (rw (keeps d.address (text_eq k key) (record d { device_name = name }) d refl refl) one, there),
    rename-IsEntry k name t h,
  )

  table_name-IsEntry :
      (k name : Bytes) (t : PciTable)
      → text_mem k known ≡ true
      → All IsEntry t
      → All IsEntry (table_name k name t)
  unfolding table_name
  table_name-IsEntry k name t there h = elim (Option-cases (position k t)) [
    | inr (i, p) ↦ rw (p, table_name) (rename-IsEntry k name t h)
    | inl p ↦ elim (Option-cases (parse_pci_address k)) [
      | inl a ↦ rw (p, a, table_name) h
      | inr (address, a) ↦
          rw (p, a, table_name)
            (All-append IsEntry t ((k, named_device address name) ∷ []) h ((a, there), tt))
    ]
  ]

  table_names-IsEntry :
      (names : List (Bytes × Bytes)) (t : PciTable)
      → All IsKnown names
      → All IsEntry t
      → All IsEntry (table_names names t)
  unfolding table_names
  table_names-IsEntry [] t k h = h
  table_names-IsEntry ((k, name) ∷ names) t (there, ks) h =
      table_names-IsEntry names _ ks (table_name-IsEntry k name t there h)

  table_groups-IsEntry :
      (groups : List (Bytes × List RawRecord)) (t : PciTable)
      → All IsKnown groups
      → All IsEntry t
      → All IsEntry (table_groups groups t)
  unfolding table_groups
  table_groups-IsEntry [] t k h = h
  table_groups-IsEntry ((k, records) ∷ groups) t (there, ks) h =
      elim (Option-cases (parse_pci_address k)) [
        | inl a ↦ rw a (table_groups-IsEntry groups t ks h)
        | inr (address, a) ↦ rw a (
            table_groups-IsEntry groups _ ks (
              All-append IsEntry t _ h (
                (a ∙ ap some (sym (add_records-address records (new_device address, []))), there),
                tt,
              )))
      ]

-- the first parts of pairs
abbrev pub keys {ℓ} : {A : Type ℓ} → List (Bytes × A) → List Bytes
keys [] = []
keys (p ∷ ps) = p.0 ∷ keys ps

keys-IsKnown {ℓ} :
    {A : Type ℓ} (known : List Bytes) (ps : List (Bytes × A))
    → ((k : Bytes) → text_mem k (keys ps) ≡ true → text_mem k known ≡ true)
    → All (IsKnown known) ps
unfolding text_mem
keys-IsKnown known [] h = tt
keys-IsKnown known (p ∷ ps) h = (
  h p.0 (ground (arith, text_eq_refl p.0)),
  keys-IsKnown known ps (λ k there. h k (ground (arith, there))),
)

text_mem-append :
    (k : Bytes) (xs ys : List Bytes) → text_mem k (xs ++ ys) ≡ (text_mem k xs || text_mem k ys)
unfolding text_mem
text_mem-append k [] ys = refl
text_mem-append k (x ∷ xs) ys = ground (arith, text_mem-append k xs ys)

-- the address texts of the directories of sysfs and of the lines of lspci
abbrev pub address_texts : RawStore → List Bytes
address_texts raw =
    keys (group_records (get_all raw RawSource.sysfs_pci) [])
    ++ keys (lspci_names (get_all raw RawSource.lspci))

-- the address of a device is what one of the texts says
abbrev pub IsNamed : List Bytes → PciDevice → Type 0
IsNamed texts d = (k : Bytes) × ((parse_pci_address k ≡ some d.address) × (text_mem k texts ≡ true))

rows-IsNamed :
    (texts : List Bytes) (t : PciTable) → All (IsEntry texts) t → All (IsNamed texts) (rows t)
unfolding rows
rows-IsNamed texts [] h = tt
rows-IsNamed texts ((k, d) ∷ t) (one, h) = ((k, one), rows-IsNamed texts t h)

-- Where there is evidence of PCI devices, the parser returns a list in which the address of every
-- device is what the address text of a sysfs directory, or that of a line of lspci, parses to.
pub parse_pci-addresses :
    (raw : RawStore) (warnings : List Bytes)
    → pci_missing raw ≡ false
    → (devices : List PciDevice) × ((parse_pci raw warnings).0 ≡ some devices)
      × All (IsNamed (address_texts raw)) devices
unfolding pci_table
parse_pci-addresses raw warnings h =
    let texts = address_texts raw in
    let groups = group_records (get_all raw RawSource.sysfs_pci) [] in
    let names = lspci_names (get_all raw RawSource.lspci) in
    let grouped =
      keys-IsKnown texts groups
        (λ k there. ground (arith, text_mem-append k (keys groups) (keys names), there)) in
    let named =
      keys-IsKnown texts names
        (λ k there. ground (arith, text_mem-append k (keys groups) (keys names), there)) in
    (
      rows (pci_table raw),
      (parse_pci-table raw warnings h).0,
      rows-IsNamed texts (pci_table raw) (
          table_names-IsEntry texts names (table_groups groups []) named
            (table_groups-IsEntry texts groups [] grouped tt)),
    )
