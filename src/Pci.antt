-- ===== src/Pci.antt =====
-- PCI addresses: include/sysal/types/value_types.hpp, `parse_pci_address` of
-- src/parser/parse_utils.cpp, and the printed name of src/resolver/inventory.cpp.
pub mod Bounds
pub mod RoundTrip
use sysal.Prelude.{
  ltb, ◌==◌, if◌then◌else◌, length, take, drop, is_nil, Bytes, ◌>>=◌, ℕ, zero, suc, ◌+◌, ◌-◌, Bool,
  ◌&&◌, Option, none, some, [], ◌∷◌, ◌++◌,
}
use sysal.Text.{trim, find, rfind}
use sysal.Number.{parse_hex, print_digits}

pub record PciAddress : Type 0 where
  pub domain : ℕ
  pub bus : ℕ
  pub device : ℕ
  pub function : ℕ

unfoldable pub pci_eq : PciAddress → PciAddress → Bool
pci_eq a b =
    a.domain == b.domain && a.bus == b.bus && a.device == b.device && a.function == b.function

-- a hexadecimal field with its limit
unfoldable pub parse_field : Bytes → ℕ → Option ℕ
parse_field s limit = do value ← parse_hex s; (if ltb limit value then none else some value)

unfoldable pub parse_pci_address : Bytes → Option PciAddress
unfolding parse_field
parse_pci_address s =
    let trimmed = trim s in
    if is_nil trimmed then none else do
      dot_pos ← find trimmed b'.'
      func ← parse_field (drop (dot_pos + 1) trimmed) 255
      let before_dot = take dot_pos trimmed
      last_colon ← rfind before_dot b':'
      dev ← parse_field (drop (last_colon + 1) before_dot) 255
      let before_device = take last_colon before_dot
      second_colon ← rfind before_device b':'
      bus ← parse_field (drop (second_colon + 1) before_device) 255
      domain ← parse_field (take second_colon before_device) 65535
      some (record { domain = domain; bus = bus; device = dev; function = func })

unfoldable pub fill_zeros : ℕ → Bytes → Bytes
fill_zeros zero s = s
fill_zeros (suc n) s = b'0' ∷ fill_zeros n s

-- `std::setw(w)` with `std::setfill('0')`
unfoldable pub set_width : ℕ → Bytes → Bytes
set_width w s = fill_zeros (w - length s) s

unfoldable pub to_hex : ℕ → Bytes
to_hex n = print_digits 16 (n + 1) n []

-- the entry under /sys/bus/pci/devices, as `DDDD:BB:DD.F`
unfoldable pub pci_name : PciAddress → Bytes
pci_name a =
    ((set_width 4 (to_hex a.domain) ++ b':' ∷ set_width 2 (to_hex a.bus))
      ++ b':' ∷ set_width 2 (to_hex a.device))
    ++ b'.' ∷ to_hex a.function
