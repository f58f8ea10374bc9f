-- ===== src/PciDevices/Lspci.antt =====
-- Lines of `lspci -nn`: `normalize_lspci_address` and `parse_lspci_line` of src/parser/pci.cpp.
use sysal.Prelude.{
  if◌then◌else◌, take, drop, is_nil, is_some, Bytes, codes, ◌>>=◌, ◌+◌, ◌-◌, Bool, false, not, ◌&&◌,
  ◌||◌, Option, none, some, ◌++◌,
}
use sysal.Text.{trim, find, rfind, find_text, find_from}
use sysal.Number.{parse_hex}
use sysal.Pci.{parse_pci_address}

-- `BB:DD.F` gets the domain 0
unfoldable pub normalize_lspci_address : Bytes → Bytes
normalize_lspci_address addr_raw =
    elim (find addr_raw b':' >>= λ first_colon. find_from addr_raw b':' (first_colon + 1)) [
      | none ↦ codes "0000:" ++ addr_raw
      | some second_colon ↦ addr_raw
    ]

-- the text between the last `[` and the `]` behind it, and what is in front of it
unfoldable pub last_brackets : Bytes → Option (Bytes × Bytes)
last_brackets tail = do
  last_bracket ← rfind tail b'['
  close_bracket ← find_from tail b']' last_bracket
  some (
    take last_bracket tail,
    take (close_bracket - last_bracket - 1) (drop (last_bracket + 1) tail),
  )

-- whether a text is two hexadecimal numbers with a colon between them
unfoldable pub is_id_pair : Bytes → Bool
is_id_pair inner = elim (find inner b':') [
  | none ↦ false
  | some colon ↦
      is_some (parse_hex (take colon inner)) && is_some (parse_hex (drop (colon + 1) inner))
]

-- the normalized address and the name
unfoldable pub parse_lspci_line : Bytes → Option (Bytes × Bytes)
parse_lspci_line line =
    let trimmed = trim line in
    if is_nil trimmed then none else do
      space_pos ← find trimmed b' '
      let addr_str = normalize_lspci_address (take space_pos trimmed)
      addr ← parse_pci_address addr_str
      let rest = drop (space_pos + 1) trimmed
      sep ← find_text rest (codes "]: ")
      (front, inner) ← last_brackets (drop (sep + 3) rest)
      let name = trim front
      (if not (is_id_pair inner) || is_nil name then none else some (addr_str, name))
