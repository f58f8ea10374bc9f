-- ===== src/Text.antt =====
-- src/parser/parse_utils.cpp: white space, splitting, searching and the other text helpers that
-- every parser shares.
pub mod Trim
pub mod Split
pub mod Find
pub mod Words
use sysal.Prelude.{
  leb, ◌==◌, if◌then◌else◌, take, drop, is_nil, Bytes, codes, text_eq, text_mem, starts_with, ◌>>=◌,
  ℕ, suc, ◌+◌, Bool, true, false, ◌&&◌, ◌||◌, Option, none, some, List, [], ◌∷◌, ◌++◌, map,
}

-- `std::isspace` in the "C" locale
unfoldable pub is_space : ℕ → Bool
is_space c = c == b' ' || (leb 9 c && leb c 13)

-- `std::tolower` in the "C" locale
unfoldable pub to_lower : ℕ → ℕ
to_lower c = if leb b'A' c && leb c b'Z' then c + 32 else c

-- the first loop of `trim`: `begin` moves over white space
unfoldable pub trim_begin : Bytes → Bytes
unfolding is_space
trim_begin [] = []
trim_begin (c ∷ s) = if is_space c then trim_begin s else c ∷ s

-- the second loop: `end` moves back over white space; a byte goes if it and all behind it are space
unfoldable pub trim_end : Bytes → Bytes
unfolding is_space
trim_end [] = []
trim_end (c ∷ s) = let rest = trim_end s in if is_space c && is_nil rest then [] else c ∷ rest

unfoldable pub trim : Bytes → Bytes
unfolding trim_begin trim_end
trim s = trim_end (trim_begin s)

-- the loop of `split`, over `result` and `current`
unfoldable pub split_loop : ℕ → Bytes → List Bytes → Bytes → List Bytes
split_loop delimiter [] result current = result ++ current ∷ []
split_loop delimiter (ch ∷ s) result current = elim (ch == delimiter) [
  | true ↦ split_loop delimiter s (result ++ current ∷ []) []
  | false ↦ split_loop delimiter s result (current ++ ch ∷ [])
]

unfoldable pub split : Bytes → ℕ → List Bytes
unfolding split_loop
split s delimiter = split_loop delimiter s [] []

-- `std::string_view::find` of one byte; `none` is `npos`
unfoldable pub find : Bytes → ℕ → Option ℕ
find [] c = none
find (x ∷ s) c = let rest = find s c in if x == c then some 0 else (rest >>= λ i. some (suc i))

-- `rfind` of one byte
unfoldable pub rfind : Bytes → ℕ → Option ℕ
rfind [] c = none
rfind (x ∷ s) c = elim (rfind s c) [
  | some i ↦ some (suc i)
  | none ↦ if x == c then some 0 else none
]

-- `find` of a text, as `content.find("docker") != npos`
unfoldable pub holds : Bytes → Bytes → Bool
unfolding starts_with
holds [] p = starts_with [] p
holds (c ∷ s) p = starts_with (c ∷ s) p || holds s p

-- the position of the first occurrence of a text
unfoldable pub find_text : Bytes → Bytes → Option ℕ
unfolding starts_with
find_text [] p = if starts_with [] p then some 0 else none
find_text (c ∷ s) p =
    let rest = find_text s p in
    if starts_with (c ∷ s) p then some 0 else (rest >>= λ i. some (suc i))

-- the position of the last occurrence of a text
unfoldable pub rfind_text : Bytes → Bytes → Option ℕ
unfolding starts_with
rfind_text [] p = if starts_with [] p then some 0 else none
rfind_text (c ∷ s) p = elim (rfind_text s p) [
  | some i ↦ some (suc i)
  | none ↦ if starts_with (c ∷ s) p then some 0 else none
]

unfoldable pub is_digit : ℕ → Bool
is_digit c = leb b'0' c && leb c b'9'

-- the digits that a text begins with
unfoldable pub take_digits : Bytes → Bytes
take_digits [] = []
take_digits (c ∷ s) = let rest = take_digits s in if is_digit c then c ∷ rest else []

-- `find` of one byte from a position on
unfoldable pub find_from : Bytes → ℕ → ℕ → Option ℕ
unfolding find
find_from s c pos = do i ← find (drop pos s) c; some (pos + i)

unfoldable pub ends_with : Bytes → Bytes → Bool
unfolding text_eq
ends_with [] p = text_eq [] p
ends_with (c ∷ s) p = text_eq (c ∷ s) p || ends_with s p

unfoldable pub parse_kv : Bytes → ℕ → Bytes × Bytes
unfolding trim find
parse_kv line separator = elim (find line separator) [
  | none ↦ (trim line, [])
  | some pos ↦ (trim (take pos line), trim (drop (pos + 1) line))
]

unfoldable pub extract_filename : Bytes → Bytes
unfolding rfind
extract_filename path = elim (rfind path b'/') [
  | none ↦ path
  | some last_slash ↦ drop (last_slash + 1) path
]

abbrev pub placeholders : List Bytes
placeholders =
    codes "no dimm"
    ∷ codes "unspecified"
    ∷ codes "not provided"
    ∷ codes "unknown"
    ∷ codes "not specified"
    ∷ codes "not applicable"
    ∷ codes "none"
    ∷ codes "n/a"
    ∷ codes "default string"
    ∷ codes "system manufacturer"
    ∷ codes "system product name"
    ∷ codes "system version"
    ∷ codes "base board product name"
    ∷ codes "base board version"
    ∷ codes "chassis version"
    ∷ codes "to be filled by o.e.m."
    ∷ codes "to be filled by oem"
    ∷ codes "system serial number"
    ∷ codes "00000000-0000-0000-0000-000000000000"
    ∷ codes "ffffffff-ffff-ffff-ffff-ffffffffffff"
    ∷ []

unfoldable pub hardware_text : Bytes → Bytes
unfolding trim to_lower text_mem
hardware_text s =
    let value = trim s in
    let lower = map to_lower value in if text_mem lower placeholders then [] else value
