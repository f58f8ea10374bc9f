-- ===== src/PciDevices/Refines.antt =====
-- The indexed list of PCI devices of src/parser/pci.cpp and the table of Table.antt.
use mathlib.Core.Path.{subst}
use sysal.Prelude.{
  Bool-cases, Option-cases, length, All, Bytes, codes, text_eq, text_eq_iff, text_eq_refl, ◌≡◌,
  refl, sym, ◌∙◌, inl, inr, false, none, some, List, [], ◌∷◌, ◌++◌, arith,
}
use sysal.Prelude.Maps.{
  lookup_key, update_key, text_lt_irrefl, IsAbove, IsSorted, IsSorted-update_key,
  lookup_key-update_key, lookup_key-update_other,
}
use sysal.Types.{RawSource, is_success}
use sysal.Text.{split, extract_filename}
use sysal.Pci.{parse_pci_address}
use sysal.RawStore.{RawRecord, RawStore, get_all}
use sysal.PciDevices.{PciDevice, new_device, add_record, add_records, group_records}
use sysal.PciDevices.Lspci.{parse_lspci_line}
use sysal.PciDevices.Merge.{
  PciState, lspci_only_warning, push_device, add_group, add_groups, named_device, merge_name,
  merge_lines, merge_records, pci_missing, empty_state, pci_state, parse_pci,
}
use sysal.PciDevices.Table.{
  PciTable, rows, position, table_name, table_names, table_groups, line_names, lspci_names,
  pci_table, IsDistinct, rows-append, position-append, IsDistinct-append, position-rename,
  IsDistinct-rename, rows-rename,
}

-- the state holds the rows of the table, and the index knows their positions
pub record Represents (st : PciState) (t : PciTable) : Type 0 where
  pub same_rows : st.devices ≡ rows t
  pub sorted : IsSorted st.addr_index
  pub same_index : (k : Bytes) → lookup_key k st.addr_index ≡ position k t
  pub distinct : IsDistinct t

empty-Represents : (warnings : List Bytes) → Represents (empty_state warnings) []
unfolding rows lookup_key position
empty-Represents warnings = record {
  same_rows = refl;
  sorted = tt;
  same_index = λ k. refl;
  distinct = tt;
}

-- a device whose address has no entry
push_device-Represents :
    (k : Bytes) (d : PciDevice) (warnings : List Bytes) (st : PciState) (t : PciTable)
    → position k t ≡ none
    → Represents st t
    → Represents (push_device k d warnings st) (t ++ (k, d) ∷ [])
unfolding push_device
push_device-Represents k d warnings st t fresh r = record {
  same_rows = same;
  sorted = IsSorted-update_key k (λ old. length st.devices) st.addr_index r.sorted;
  same_index = at;
  distinct = IsDistinct-append k d t fresh r.distinct;
}
  where
    same : st.devices ++ d ∷ [] ≡ rows (t ++ (k, d) ∷ [])
    same = unfold rows in ground (arith, rows-append t ((k, d) ∷ []), r.same_rows)

    at :
        (j : Bytes)
        → lookup_key j (update_key k (λ old. length st.devices) st.addr_index)
          ≡ position j (t ++ (k, d) ∷ [])
    at j = elim (Bool-cases (text_eq j k)) [
      | inl e ↦
          let q : j ≡ k = (text_eq_iff j k).0 e in
          subst
            (λ i.
              lookup_key i (update_key k (λ old. length st.devices) st.addr_index)
              ≡ position i (t ++ (k, d) ∷ []))
            (sym q)
            (ground (
              arith,
              lookup_key-update_key k (λ old. length st.devices) st.addr_index r.sorted,
              position-append k k d t,
              text_eq_refl k,
              r.same_rows,
            ))
      | inr e ↦ elim (Option-cases (position j t)) [
        | inl p ↦ ground (
          arith,
          lookup_key-update_other j k (λ old. length st.devices) st.addr_index e,
          position-append j k d t,
          r.same_index j,
        )
        | inr (i, p) ↦ ground (
          arith,
          lookup_key-update_other j k (λ old. length st.devices) st.addr_index e,
          position-append j k d t,
          r.same_index j,
        )
      ]
    ]

merge_name-Represents :
    (k name : Bytes) (st : PciState) (t : PciTable)
    → Represents st t
    → Represents (merge_name k name st) (table_name k name t)
unfolding merge_name table_name
merge_name-Represents k name st t r = elim (Option-cases (position k t)) [
  | inr (i, p) ↦
      rw (r.same_index k, p, merge_name, table_name)
        (record {
          same_rows = rw r.same_rows (sym (rows-rename k name t i r.distinct p));
          sorted = r.sorted;
          same_index = λ j. r.same_index j ∙ sym (position-rename j k name t);
          distinct = IsDistinct-rename k name t r.distinct;
        })
  | inl p ↦ elim (Option-cases (parse_pci_address k)) [
    | inl a ↦ rw (r.same_index k, p, a, merge_name, table_name) r
    | inr (address, a) ↦
        rw (r.same_index k, p, a, merge_name, table_name)
          (push_device-Represents k (named_device address name)
            (st.warnings ++ lspci_only_warning k ∷ []) st t p r)
  ]
]

-- the warnings do not decide what a device is
add_record-device :
    (rec : RawRecord) (d e : PciDevice) (ws vs : List Bytes)
    → d ≡ e
    → (add_record rec (d, ws)).0 ≡ (add_record rec (e, vs)).0
unfolding add_record
add_record-device rec d e ws vs h =
    elim (Bool-cases (text_eq (extract_filename rec.path_or_command) (codes "numa_node"))) [
      | inl q ↦ rw (q, h) refl
      | inr q ↦ rw (q, h) refl
    ]

add_records-device :
    (records : List RawRecord) (s t : PciDevice × List Bytes)
    → s.0 ≡ t.0
    → (add_records records s).0 ≡ (add_records records t).0
unfolding add_records
add_records-device [] s t h = h
add_records-device (rec ∷ records) (d, ws) (e, vs) h =
    add_records-device records (add_record rec (d, ws)) (add_record rec (e, vs))
      (add_record-device rec d e ws vs h)

-- no group has an entry yet
abbrev IsFresh : PciTable → List (Bytes × List RawRecord) → Type 0
IsFresh t = All (λ g. position g.0 t ≡ none)

IsFresh-append :
    (k : Bytes) (d : PciDevice) (t : PciTable) (groups : List (Bytes × List RawRecord))
    → IsAbove k groups
    → IsFresh t groups
    → IsFresh (t ++ (k, d) ∷ []) groups
IsFresh-append k d t [] above fresh = tt
IsFresh-append k d t ((key, rs) ∷ groups) (one, above) (f, fresh) = (
  ground (arith, position-append key k d t, text_eq_iff key k, text_lt_irrefl k),
  IsFresh-append k d t groups above fresh,
)

add_groups-Represents :
    (groups : List (Bytes × List RawRecord)) (st : PciState) (t : PciTable)
    → IsSorted groups
    → IsFresh t groups
    → Represents st t
    → Represents (add_groups groups st) (table_groups groups t)
unfolding add_groups table_groups
add_groups-Represents [] st t sorted fresh r = r
add_groups-Represents ((k, records) ∷ groups) st t (above, sorted) (f, fresh) r =
    elim (Option-cases (parse_pci_address k)) [
      | inl a ↦
          rw (a, add_group)
            (add_groups-Represents groups _ t sorted fresh (record {
              same_rows = r.same_rows;
              sorted = r.sorted;
              same_index = r.same_index;
              distinct = r.distinct;
            }))
      | inr (address, a) ↦
          rw
            (
              a,
              add_group,
              add_records-device records (new_device address, []) (new_device address, st.warnings)
                  refl,
            )
            (add_groups-Represents groups _ _ sorted (IsFresh-append k _ t groups above fresh)
              (push_device-Represents k _ _ st t f r))
    ]

IsSorted-group_records :
    (records : List RawRecord) (groups : List (Bytes × List RawRecord))
    → IsSorted groups
    → IsSorted (group_records records groups)
unfolding group_records
IsSorted-group_records [] groups h = h
IsSorted-group_records (rec ∷ records) groups h = elim (Bool-cases (is_success rec.status)) [
  | inl e ↦ rw e (IsSorted-group_records records _ (IsSorted-update_key _ _ groups h))
  | inr e ↦ rw e (IsSorted-group_records records groups h)
]

merge_lines-Represents :
    (lines : List Bytes) (st : PciState) (t : PciTable)
    → Represents st t
    → Represents (merge_lines lines st) (table_names (line_names lines) t)
unfolding merge_lines line_names table_names
merge_lines-Represents [] st t r = r
merge_lines-Represents (line ∷ lines) st t r = elim (Option-cases (parse_lspci_line line)) [
  | inl e ↦ rw (e, line_names) (merge_lines-Represents lines st t r)
  | inr ((k, name), e) ↦
      rw (e, line_names) (merge_lines-Represents lines _ _ (merge_name-Represents k name st t r))
]

table_names-append :
    (ps qs : List (Bytes × Bytes)) (t : PciTable)
    → table_names (ps ++ qs) t ≡ table_names qs (table_names ps t)
unfolding table_names
table_names-append [] qs t = refl
table_names-append ((k, name) ∷ ps) qs t = table_names-append ps qs (table_name k name t)

merge_records-Represents :
    (records : List RawRecord) (st : PciState) (t : PciTable)
    → Represents st t
    → Represents (merge_records records st) (table_names (lspci_names records) t)
unfolding merge_records lspci_names
merge_records-Represents [] st t r = unfold table_names in r
merge_records-Represents (rec ∷ records) st t r = elim (Bool-cases (is_success rec.status)) [
  | inl e ↦
      rw (e, table_names-append (line_names (split rec.payload b'\n')) (lspci_names records) t)
        (merge_records-Represents records _ _
          (merge_lines-Represents (split rec.payload b'\n') st t r))
  | inr e ↦ rw e (merge_records-Represents records st t r)
]

IsFresh-nil : (groups : List (Bytes × List RawRecord)) → IsFresh [] groups
unfolding position
IsFresh-nil [] = tt
IsFresh-nil (g ∷ groups) = (refl, IsFresh-nil groups)

pci_state-Represents :
    (raw : RawStore) (warnings : List Bytes) → Represents (pci_state raw warnings) (pci_table raw)
unfolding pci_state pci_table
pci_state-Represents raw warnings =
    let groups = group_records (get_all raw RawSource.sysfs_pci) [] in
    merge_records-Represents (get_all raw RawSource.lspci)
      (add_groups groups (empty_state warnings)) (table_groups groups [])
      (add_groups-Represents groups (empty_state warnings) []
        (IsSorted-group_records (get_all raw RawSource.sysfs_pci) [] tt) (IsFresh-nil groups)
        (empty-Represents warnings))

-- Where there is evidence of PCI devices, the list that the parser builds over its index is the
-- rows of the table that is keyed by address text, and no address text has two entries there.
pub parse_pci-table :
    (raw : RawStore) (warnings : List Bytes)
    → pci_missing raw ≡ false
    → ((parse_pci raw warnings).0 ≡ some (rows (pci_table raw))) × IsDistinct (pci_table raw)
unfolding parse_pci
parse_pci-table raw warnings h =
    let r = pci_state-Represents raw warnings in (rw (h, r.same_rows) refl, r.distinct)
