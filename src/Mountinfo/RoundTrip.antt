-- ===== src/Mountinfo/RoundTrip.antt =====
-- A line of mountinfo as the kernel writes it, for `parse_mountinfo` of src/common/mountinfo.cpp.
use sysal.Prelude.{
  any, All, Bytes, codes, text_eq, Lacks, IsBytes, ℕ, ◌≤◌, ◌≡◌, refl, ◌≢◌, Bool, true, false, none,
  some, List, [], ◌∷◌, ◌++◌, arith,
}
use sysal.Text.Split.{join, split-join}
use sysal.Text.Words.{words, IsWord, words-join}
use sysal.Number.{max_u32, parse_u32, DeviceNumber, to_string}
use sysal.Number.Print.{parse_uint-to_string}
use sysal.Number.Device.{parse_device_number_print}
use sysal.Mountinfo.{StorageMount, behind_dash, mounted, read_record, read_words}
use sysal.Mountinfo.Escape.{escape, unescape_mount-escape}

-- what a line says, the paths not yet escaped
pub record MountEntry : Type 0 where
  pub id : ℕ
  pub parent : ℕ
  pub device : DeviceNumber
  pub root : Bytes
  pub path : Bytes
  pub options : List Bytes
  pub tags : List Bytes
  pub filesystem : Bytes
  pub source : Bytes
  pub super_options : Bytes

module _ (escaped : ℕ → Bool) where
  -- the fields of the line: see proc_pid_mountinfo(5)
  abbrev pub mount_tokens : MountEntry → List Bytes
  mount_tokens e =
      to_string e.id
        ∷ to_string e.parent
        ∷ (to_string e.device.major ++ b':' ∷ to_string e.device.minor)
        ∷ escape escaped e.root
        ∷ escape escaped e.path
        ∷ join e.options b','
        ∷ e.tags
      ++ codes "-" ∷ e.filesystem ∷ escape escaped e.source ∷ e.super_options ∷ []

  abbrev pub mount_line : MountEntry → Bytes
  mount_line e = join (mount_tokens e) b' '

-- the mount that the line describes
abbrev pub mount_of : MountEntry → StorageMount
mount_of e = record {
  mount_id = e.id;
  parent_mount_id = e.parent;
  device_number = e.device;
  root = e.root;
  path = e.path;
  filesystem = e.filesystem;
  source = e.source;
  options = e.options;
  block_device = none;
  read_only = any (λ o. text_eq o (codes "ro")) e.options;
}

behind_dash-tags :
    (tags rest : List Bytes)
    → All (λ t. text_eq t (codes "-") ≡ false) tags
    → behind_dash (tags ++ codes "-" ∷ rest) ≡ some rest
unfolding behind_dash text_eq
behind_dash-tags [] rest h = refl
behind_dash-tags (t ∷ tags) rest (ht, h) = rw ht (behind_dash-tags tags rest h)

parse_u32-to_string : (n : ℕ) → n ≤ max_u32 → parse_u32 (to_string n) ≡ some n
unfolding parse_u32
parse_u32-to_string n h = ground (arith, parse_uint-to_string n (omega arith))

-- what the kernel keeps to
abbrev pub IsMountEntry : (ℕ → Bool) → MountEntry → Type 0
IsMountEntry escaped e =
    (e.id ≤ max_u32)
    × (e.parent ≤ max_u32)
    × (e.device.major ≤ max_u32)
    × (e.device.minor ≤ max_u32)
    × IsBytes e.root
    × IsBytes e.path
    × IsBytes e.source
    × (e.options ≢ [])
    × All (Lacks b',') e.options
    × All (λ t. text_eq t (codes "-") ≡ false) e.tags
    × All IsWord (mount_tokens escaped e)

-- A line of mountinfo that prints an entry, with decimal numbers within 32 bits, any set of bytes
-- escaped in the paths that has the backslash, options without commas, optional tags none of which
-- is a single dash, and no token that is empty or has white space, is read as exactly that mount.
pub read_words-mount_line :
    (escaped : ℕ → Bool) (e : MountEntry)
    → escaped b'\\' ≡ true
    → IsMountEntry escaped e
    → read_words (words (mount_line escaped e)) ≡ mounted (mount_of e)
unfolding read_words read_record
read_words-mount_line escaped e k
      (id, parent, major, minor, root, path, source, ne, options, tags, all_words) =
    let tokens = words-join (mount_tokens escaped e) all_words in
    let tail = e.filesystem ∷ escape escaped e.source ∷ e.super_options ∷ [] in
    rw (tokens, read_words, behind_dash-tags e.tags tail tags)
      (rw
        (
          read_record,
          parse_u32-to_string e.id id,
          parse_u32-to_string e.parent parent,
          parse_device_number_print e.device major minor,
          unescape_mount-escape escaped e.root k root,
          unescape_mount-escape escaped e.path k path,
          unescape_mount-escape escaped e.source k source,
          split-join e.options b',' ne options,
        )
        refl)
