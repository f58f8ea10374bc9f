-- ===== src/Tests/Texts.antt =====
-- Runs and instances for texts, numbers and lists of numbers: src/parser/parse_utils.cpp,
-- src/parser/cpu_details.cpp and src/common/mountinfo.cpp.
use sysal.Prelude.{
  ◌==◌, length, any, keep, is_nil, Bytes, codes, text_eq, ℕ, ◌+◌, ◌≤◌, ◌<◌, ◌≡◌, refl, ◌≢◌, ◌↔◌,
  Bool, false, not, ◌||◌, some, List, [], ◌∷◌, ◌++◌, arith,
}
use sysal.Prelude.Sets.{set_insert, contains, IsAscending}
use sysal.Text.{is_space, trim, split, find, rfind}
use sysal.Text.Split.{join}
use sysal.Text.Words.{words, IsWord}
use sysal.Number.{
  u64_mod, digit_value, scan_digits, from_chars, whole, parse_uint, parse_hex, DeviceNumber,
  parse_device_number, digit_char, print_digits, to_string,
}
use sysal.Number.Parse.{IsDigits, value, parse_uint_iff}
use sysal.Number.Print.{parse_uint-to_string}
use sysal.Number.Device.{parse_device_number_print}
use sysal.Pci.{PciAddress, parse_field, parse_pci_address, pci_name}
use sysal.Pci.Bounds.{IsPciAddress, parse_pci_address-IsPciAddress}
use sysal.Pci.RoundTrip.{parse_pci_address-pci_name}
use sysal.CpuList.{
  max_cpu_count, normalize, token_range, insert_range, insert_tokens, parse_cpu_id_list,
}
use sysal.CpuList.Members.{tokens_of, names, parse_cpu_id_list_lem}
use sysal.Mountinfo.{mounted, read_words, parse_mountinfo}
use sysal.Mountinfo.Escape.{escape}
use sysal.Mountinfo.Lines.{parse_mountinfo_accounts}
use sysal.Mountinfo.RoundTrip.{
  MountEntry, mount_line, mount_of, IsMountEntry, read_words-mount_line,
}

abbrev padded : Bytes
padded = codes "  ab c\t"

parse_uint_iff_example : (parse_uint (codes " 42") ≡ some 42) ↔ (
    (trim (codes " 42") ≢ [])
    × IsDigits 10 (trim (codes " 42"))
    × (42 ≡ value 10 (trim (codes " 42")))
    × (42 < u64_mod))
parse_uint_iff_example = parse_uint_iff (codes " 42") 42

parse_uint-to_string_example : parse_uint (to_string 907) ≡ some 907
parse_uint-to_string_example = parse_uint-to_string 907 (omega arith)

abbrev disk_number : DeviceNumber
disk_number = record { major = 259; minor = 3 }

parse_device_number_print_example :
    parse_device_number (to_string 259 ++ b':' ∷ to_string 3) ≡ some disk_number
parse_device_number_print_example =
    parse_device_number_print disk_number (omega arith) (omega arith)

parse_device_number_run : parse_device_number (codes "259:3") ≡ some disk_number
unfolding parse_device_number parse_uint trim from_chars scan_digits digit_value whole find is_space
parse_device_number_run = refl

abbrev nic : PciAddress
nic = record { domain = 0; bus = 193; device = 0; function = 1 }

nic-IsPciAddress : IsPciAddress nic
nic-IsPciAddress = record {
  domain_fits = omega arith;
  bus_fits = omega arith;
  device_fits = omega arith;
  function_fits = omega arith;
}

parse_pci_address-pci_name_example : parse_pci_address (pci_name nic) ≡ some nic
parse_pci_address-pci_name_example = parse_pci_address-pci_name nic nic-IsPciAddress

parse_pci_address_run : parse_pci_address (codes "0000:c1:00.1") ≡ some nic
unfolding parse_pci_address parse_field parse_hex trim from_chars scan_digits digit_value whole find
    rfind is_space
parse_pci_address_run = refl

parse_pci_address-IsPciAddress_example : IsPciAddress nic
parse_pci_address-IsPciAddress_example =
    parse_pci_address-IsPciAddress (codes "0000:c1:00.1") nic parse_pci_address_run

abbrev four_cpus : List ℕ
four_cpus = 0 ∷ 1 ∷ 2 ∷ 4 ∷ []

parse_cpu_id_list_run : parse_cpu_id_list (codes "4,0-2 1") ≡ some four_cpus
unfolding parse_cpu_id_list insert_tokens insert_range token_range normalize set_insert split
    parse_uint trim from_chars scan_digits digit_value whole find is_space
parse_cpu_id_list_run = refl

parse_cpu_id_list_lem_example :
    ((x : ℕ) → contains x four_cpus ≡ any (names x) (tokens_of (codes "4,0-2 1")))
    × IsAscending four_cpus
    × (length four_cpus ≤ max_cpu_count)
parse_cpu_id_list_lem_example =
    parse_cpu_id_list_lem (codes "4,0-2 1") four_cpus parse_cpu_id_list_run

abbrev is_escaped : ℕ → Bool
is_escaped c = c == b' ' || c == b'\\'

parse_mountinfo_accounts_example :
    length (parse_mountinfo (codes "bad\n") []).0 + length (parse_mountinfo (codes "bad\n") []).1
    ≡ length {A = Bytes} [] + length (keep (λ l. not (is_nil l)) (split (codes "bad\n") b'\n'))
parse_mountinfo_accounts_example = parse_mountinfo_accounts (codes "bad\n") []

abbrev root_entry : MountEntry
root_entry = record {
  id = 1;
  parent = 0;
  device = record { major = 8; minor = 1 };
  root = codes "/";
  path = codes "/";
  options = codes "r" ∷ [];
  tags = [];
  filesystem = codes "x";
  source = codes "d";
  super_options = codes "r";
}

one_letter-IsWord : (c : ℕ) → is_space c ≡ false → IsWord (c ∷ [])
one_letter-IsWord c h = ((λ e. ground arith), (h, tt))

root_entry-IsMountEntry : IsMountEntry is_escaped root_entry
unfolding to_string print_digits digit_char escape join is_space text_eq
root_entry-IsMountEntry = (
  omega arith,
  omega arith,
  omega arith,
  omega arith,
  (omega arith, tt),
  (omega arith, tt),
  (omega arith, tt),
  (λ e. ground arith),
  (((λ e. ground arith), tt), tt),
  tt,
  (
    one_letter-IsWord b'1' refl,
    (
      one_letter-IsWord b'0' refl,
      (
        ((λ e. ground arith), (refl, (refl, (refl, tt)))),
        (
          one_letter-IsWord b'/' refl,
          (
            one_letter-IsWord b'/' refl,
            (
              one_letter-IsWord b'r' refl,
              (
                one_letter-IsWord b'-' refl,
                (
                  one_letter-IsWord b'x' refl,
                  (one_letter-IsWord b'd' refl, (one_letter-IsWord b'r' refl, tt)),
                ),
              ),
            ),
          ),
        ),
      ),
    ),
  ),
)

read_words-mount_line_example :
    read_words (words (mount_line is_escaped root_entry)) ≡ mounted (mount_of root_entry)
read_words-mount_line_example =
    read_words-mount_line is_escaped root_entry refl root_entry-IsMountEntry
