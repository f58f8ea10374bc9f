-- ===== src/Pci/RoundTrip.antt =====
-- The printed name of a PCI address (src/resolver/inventory.cpp) and `parse_pci_address`
-- (src/parser/parse_utils.cpp).
use mathlib.Core.List.{cons-ne-nil}
use native.Mathlib.Numerals.{add-one}
use sysal.Prelude.{
  length, All, All-append, take-append, drop_behind, append-is_nil, Bytes, Lacks, ℕ, zero, suc, ◌+◌,
  ◌≤◌, ◌<◌, ◌≡◌, refl, sym, ◌∙◌, ◌≢◌, false, none, some, [], ◌∷◌, ◌++◌, arith,
}
use sysal.Text.{is_space}
use sysal.Text.Trim.{trim-NoSpace}
use sysal.Text.Find.{find_behind, rfind_behind}
use sysal.Number.{u64_mod, digit_value}
use sysal.Number.Parse.{IsDigits, value_from, value, value-cons, parse_hex_iff}
use sysal.Number.Print.{IsDigits-NoSpace, trim-IsDigits, print_digits_lem}
use sysal.Number.Device.{IsDigits-Lacks}
use sysal.Pci.{PciAddress, parse_field, parse_pci_address, fill_zeros, set_width, to_hex, pci_name}
use sysal.Pci.Bounds.{IsPciAddress}

-- hexadecimal digits that spell `n`
abbrev Spells : ℕ → Bytes → Type 0
Spells n s = IsDigits 16 s × (s ≢ []) × (value 16 s ≡ n)

zero_digit : digit_value 16 b'0' ≡ some 0
unfolding digit_value
zero_digit = refl

fill_zeros-Spells : (k n : ℕ) (s : Bytes) → Spells n s → Spells n (fill_zeros k s)
unfolding fill_zeros
fill_zeros-Spells zero n s h = h
fill_zeros-Spells (suc k) n s h =
    let (ds, ne, q) = fill_zeros-Spells k n s h in
    ((rw zero_digit, ds), cons-ne-nil _ _, value-cons 16 b'0' 0 (fill_zeros k s) zero_digit ∙ q)

to_hex-Spells : (n : ℕ) → Spells n (to_hex n)
unfolding to_hex value_from
to_hex-Spells n = print_digits_lem 16 (omega arith) (omega arith) (n + 1) n [] (omega arith) tt

set_width-Spells : (w n : ℕ) → Spells n (set_width w (to_hex n))
unfolding set_width
set_width-Spells w n = fill_zeros-Spells _ n (to_hex n) (to_hex-Spells n)

parse_field-Spells :
    (n limit : ℕ) (s : Bytes)
    → Spells n s
    → n ≤ limit
    → limit < u64_mod
    → parse_field s limit ≡ some n
unfolding parse_field
parse_field-Spells n limit s h le fits = ground (
  arith,
  (parse_hex_iff s n).1
      (rw (trim-IsDigits 16 s (omega arith) h.0) (h.1, h.0, sym h.2, omega arith)),
)

separator_IsNoDigit : (digit_value 16 b':' ≡ none) × (digit_value 16 b'.' ≡ none)
unfolding digit_value
separator_IsNoDigit = (refl, refl)

module _ (a : PciAddress) where
  -- the printed fields
  abbrev domain_text : Bytes
  domain_text = set_width 4 (to_hex a.domain)

  abbrev bus_text : Bytes
  bus_text = set_width 2 (to_hex a.bus)

  abbrev device_text : Bytes
  device_text = set_width 2 (to_hex a.device)

  before_device : Bytes
  before_device = domain_text ++ b':' ∷ bus_text

  before_dot : Bytes
  before_dot = before_device ++ b':' ∷ device_text

  field-Lacks : (w c n : ℕ) → digit_value 16 c ≡ none → Lacks c (set_width w (to_hex n))
  field-Lacks w c n e = IsDigits-Lacks 16 c (set_width w (to_hex n)) e (set_width-Spells w n).0

  before_dot-Lacks : Lacks b'.' before_dot
  unfolding before_device before_dot
  before_dot-Lacks =
      All-append _ before_device (b':' ∷ device_text)
        (All-append _ domain_text (b':' ∷ bus_text)
          (field-Lacks 4 b'.' a.domain separator_IsNoDigit.1)
          (omega arith, field-Lacks 2 b'.' a.bus separator_IsNoDigit.1))
        (omega arith, field-Lacks 2 b'.' a.device separator_IsNoDigit.1)

  NoSpace-field : (w n : ℕ) → All (λ c. is_space c ≡ false) (set_width w (to_hex n))
  NoSpace-field w n =
      IsDigits-NoSpace 16 (set_width w (to_hex n)) (omega arith) (set_width-Spells w n).0

  -- the separators are no white space
  separator_NoSpace : (is_space b':' ≡ false) × (is_space b'.' ≡ false)
  unfolding is_space
  separator_NoSpace = (refl, refl)

  pci_name-NoSpace : All (λ c. is_space c ≡ false) (before_dot ++ b'.' ∷ to_hex a.function)
  unfolding before_device before_dot
  pci_name-NoSpace =
      All-append _ before_dot (b'.' ∷ to_hex a.function)
        (All-append _ before_device (b':' ∷ device_text)
          (All-append _ domain_text (b':' ∷ bus_text) (NoSpace-field 4 a.domain)
            (separator_NoSpace.0, NoSpace-field 2 a.bus))
          (separator_NoSpace.0, NoSpace-field 2 a.device))
        (
          separator_NoSpace.1,
          IsDigits-NoSpace 16 (to_hex a.function) (omega arith) (to_hex-Spells a.function).0,
        )

  -- the three places where the name is cut, from the back
  parse_pci_address-parts :
      IsPciAddress a → parse_pci_address (before_dot ++ b'.' ∷ to_hex a.function) ≡ some a
  unfolding parse_pci_address before_device before_dot
  parse_pci_address-parts v = ground (
    arith,
    trim-NoSpace _ pci_name-NoSpace,
    append-is_nil before_dot b'.' (to_hex a.function),
    find_behind b'.' before_dot (to_hex a.function) before_dot-Lacks,
    take-append before_dot (b'.' ∷ to_hex a.function),
    drop_behind before_dot b'.' (to_hex a.function),
    add-one (length before_dot),
    rfind_behind b':' before_device device_text (field-Lacks 2 b':' a.device separator_IsNoDigit.0),
    take-append before_device (b':' ∷ device_text),
    drop_behind before_device b':' device_text,
    add-one (length before_device),
    rfind_behind b':' domain_text bus_text (field-Lacks 2 b':' a.bus separator_IsNoDigit.0),
    take-append domain_text (b':' ∷ bus_text),
    drop_behind domain_text b':' bus_text,
    add-one (length domain_text),
    parse_field-Spells a.function 255 (to_hex a.function) (to_hex-Spells a.function),
    parse_field-Spells a.device 255 device_text (set_width-Spells 2 a.device),
    parse_field-Spells a.bus 255 bus_text (set_width-Spells 2 a.bus),
    parse_field-Spells a.domain 65535 domain_text (set_width-Spells 4 a.domain),
  )

-- Every address that fits its widths is read back from its name under /sys/bus/pci/devices.
pub parse_pci_address-pci_name :
    (a : PciAddress) → IsPciAddress a → parse_pci_address (pci_name a) ≡ some a
unfolding pci_name before_device before_dot
parse_pci_address-pci_name a v = parse_pci_address-parts a v
