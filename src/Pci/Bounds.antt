-- ===== src/Pci/Bounds.antt =====
-- What `parse_pci_address` of src/parser/parse_utils.cpp may return.
use sysal.Prelude.{Bytes, ◌<◌, ◌≡◌, some, arith}
use sysal.Pci.{PciAddress, parse_pci_address}

-- the address fits the widths of its fields
pub record IsPciAddress (a : PciAddress) : Type 0 where
  pub domain_fits : a.domain < 65536
  pub bus_fits : a.bus < 256
  pub device_fits : a.device < 256
  pub function_fits : a.function < 256

-- Every address that is read fits the widths of its fields, so the casts lose nothing.
pub parse_pci_address-IsPciAddress :
    (s : Bytes) (a : PciAddress) → parse_pci_address s ≡ some a → IsPciAddress a
unfolding parse_pci_address
parse_pci_address-IsPciAddress s a h = ground arith
