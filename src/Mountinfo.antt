-- ===== src/Mountinfo.antt =====
-- /proc/self/mountinfo: src/common/mountinfo.cpp, and `StorageMount` of
-- include/sysal/model/storage.hpp. The warnings are passed along.
pub mod Escape
pub mod Lines
pub mod RoundTrip
use sysal.Prelude.{
  leb, ◌==◌, if◌then◌else◌, any, is_nil, Bytes, codes, text_eq, ◌>>=◌, ℕ, ◌+◌, ◌-◌, ◌*◌, ◌%◌, Bool,
  true, false, ◌&&◌, Option, none, some, List, [], ◌∷◌, ◌++◌,
}
use sysal.Text.{split}
use sysal.Text.Words.{words}
use sysal.Number.{parse_u32, DeviceNumber, parse_device_number}

pub record StorageMount : Type 0 where
  pub mount_id : ℕ
  pub parent_mount_id : ℕ
  pub device_number : DeviceNumber
  pub root : Bytes
  pub path : Bytes
  pub filesystem : Bytes
  pub source : Bytes
  pub options : List Bytes
  pub block_device : Option Bytes
  pub read_only : Bool

unfoldable pub is_octal : ℕ → Bool
is_octal c = leb b'0' c && leb c b'7'

-- the loop of `unescape_mount`; the cast to `char` keeps eight bits
unfoldable pub unescape_mount : Bytes → Bytes
unescape_mount [] = []
unescape_mount (c ∷ []) = c ∷ []
unescape_mount (c ∷ x ∷ []) = c ∷ x ∷ []
unescape_mount (c ∷ x ∷ y ∷ []) = c ∷ x ∷ y ∷ []
unescape_mount (c ∷ x ∷ y ∷ z ∷ s) = elim (c == b'\\' && is_octal x && is_octal y && is_octal z) [
  | true ↦ ((x - b'0') * 64 + (y - b'0') * 8 + (z - b'0')) % 256 ∷ unescape_mount s
  | false ↦ c ∷ unescape_mount (x ∷ y ∷ z ∷ s)
]

-- the words behind the first `-`
unfoldable pub behind_dash : List Bytes → Option (List Bytes)
behind_dash [] = none
behind_dash (token ∷ tokens) =
    let rest = behind_dash tokens in if text_eq token (codes "-") then some tokens else rest

pub data MountLine : Type 0 where
  bad_header bad_record : MountLine
  mounted : StorageMount → MountLine

-- the checks behind the header, and the record
unfoldable pub read_record :
    Bytes → Bytes → Bytes → Bytes → Bytes → Bytes → List Bytes → Option StorageMount
read_record id parent number root path options (filesystem ∷ source ∷ super_options ∷ more) = do
  mount_id ← parse_u32 id
  parent_id ← parse_u32 parent
  device_number ← parse_device_number number
  some (record {
    mount_id = mount_id;
    parent_mount_id = parent_id;
    device_number = device_number;
    root = unescape_mount root;
    path = unescape_mount path;
    filesystem = filesystem;
    source = unescape_mount source;
    options = split options b',';
    block_device = none;
    read_only = any (λ o. text_eq o (codes "ro")) (split options b',');
  })
read_record id parent number root path options _ = none

unfoldable pub read_words : List Bytes → MountLine
read_words (id ∷ parent ∷ number ∷ root ∷ path ∷ options ∷ tokens) =
    elim (behind_dash tokens >>= read_record id parent number root path options) [
      | none ↦ bad_record
      | some mount ↦ mounted mount
    ]
read_words _ = bad_header

abbrev pub header_warning : Bytes
header_warning = codes "parse_storage: malformed mountinfo header"

abbrev pub record_warning : Bytes
record_warning = codes "parse_storage: malformed mountinfo record"

-- one line of the loop, over the mounts and the warnings
unfoldable pub add_line :
    MountLine → List StorageMount × List Bytes → List StorageMount × List Bytes
add_line bad_header (mounts, warnings) = (mounts, warnings ++ header_warning ∷ [])
add_line bad_record (mounts, warnings) = (mounts, warnings ++ record_warning ∷ [])
add_line (mounted mount) (mounts, warnings) = (mounts ++ mount ∷ [], warnings)

unfoldable pub read_lines :
    List Bytes → List StorageMount × List Bytes → List StorageMount × List Bytes
read_lines [] s = s
read_lines (line ∷ lines) s =
    read_lines lines (if is_nil line then s else add_line (read_words (words line)) s)

unfoldable pub parse_mountinfo : Bytes → List Bytes → List StorageMount × List Bytes
parse_mountinfo payload warnings = read_lines (split payload b'\n') ([], warnings)
