-- ===== src/Memory/Sizes.antt =====
-- Sizes of the memory: `parse_meminfo` and `parse_numa_meminfo` of src/parser/memory.cpp.
use sysal.Prelude.{
  ltb, if◌then◌else◌, take, drop, Bytes, codes, text_eq, ◌>>=◌, ℕ, ◌+◌, ◌%◌, ◌^◌, Option, none,
  some, List, [], ◌∷◌, ◌++◌,
}
use sysal.Prelude.Maps.{utf8}
use sysal.Types.{is_success}
use sysal.Text.{trim, split, find, holds, find_text, parse_kv}
use sysal.Number.{parse_uint, parse_kb_to_bytes, to_string}
use sysal.RawStore.{RawRecord}
use sysal.Memory.{NumaMemory}

pub record MemInfo : Type 0 where
  pub total : ℕ
  pub available : Option ℕ
  pub warnings : List Bytes

-- a value such as `395617072 kB`; `store` takes the bytes
unfoldable pub read_size {ℓ} :
    {A : Type ℓ} → (ℕ → A) → A → Bytes → Bytes → List Bytes → A × List Bytes
read_size store old message value warnings = elim (split value b' ') [
  | [] ↦ (old, warnings)
  | part ∷ parts ↦ elim (parse_kb_to_bytes (trim part)) [
    | none ↦ (old, warnings ++ (message ++ value) ∷ [])
    | some kb ↦ (store kb, warnings)
  ]
]

unfoldable pub meminfo_line : Bytes → MemInfo → MemInfo
unfolding read_size
meminfo_line line info =
    let pair = parse_kv line b':' in
    if text_eq pair.0 (codes "MemTotal")
    then (let got =
          read_size (λ kb. kb) info.total (utf8 "parse_memory: MemTotal 值解析失败: ") pair.1
            info.warnings in
        record info { total = got.0; warnings = got.1 })
    else if text_eq pair.0 (codes "MemAvailable")
    then (let got =
          read_size some info.available (utf8 "parse_memory: MemAvailable 值解析失败: ") pair.1
            info.warnings in
        record info { available = got.0; warnings = got.1 })
    else info

unfoldable pub meminfo_lines : List Bytes → MemInfo → MemInfo
unfolding meminfo_line
meminfo_lines [] info = info
meminfo_lines (line ∷ lines) info = meminfo_lines lines (meminfo_line line info)

unfoldable pub parse_meminfo : Bytes → List Bytes → MemInfo
unfolding meminfo_lines
parse_meminfo payload warnings =
    meminfo_lines (split payload b'\n')
      (record { total = 0; available = none; warnings = warnings })

abbrev node_prefix : ℕ → Bytes
node_prefix node_id = codes "Node " ++ to_string node_id

abbrev numa_message : ℕ → Bytes → Bytes
numa_message node_id what = codes "parse_numa_meminfo: node " ++ to_string node_id ++ what

unfoldable pub numa_line : ℕ → Bytes → NumaMemory × List Bytes → NumaMemory × List Bytes
unfolding read_size
numa_line node_id line (nm, warnings) =
    let pair = parse_kv line b':' in
    let trimmed_key = trim pair.0 in
    if text_eq trimmed_key (node_prefix node_id ++ codes " MemTotal")
    then read_size (λ kb. record nm { total = kb }) nm
        (numa_message node_id (utf8 " Total 值解析失败: ")) pair.1 warnings
    else if text_eq trimmed_key (node_prefix node_id ++ codes " MemFree")
    then read_size (λ kb. record nm { free = some kb }) nm
        (numa_message node_id (utf8 " Free 值解析失败: ")) pair.1 warnings
    else (nm, warnings)

unfoldable pub numa_lines : ℕ → List Bytes → NumaMemory × List Bytes → NumaMemory × List Bytes
unfolding numa_line
numa_lines node_id [] state = state
numa_lines node_id (line ∷ lines) state = numa_lines node_id lines (numa_line node_id line state)

unfoldable pub parse_numa_meminfo : Bytes → ℕ → List Bytes → NumaMemory × List Bytes
unfolding numa_lines
parse_numa_meminfo payload node_id warnings =
    numa_lines node_id (split payload b'\n')
      (record { node = node_id; total = 0; available = none; free = none }, warnings)

-- the number behind `node/node` in the path of a NUMA node's meminfo, in 32 bits
unfoldable pub meminfo_node : Bytes → Option ℕ
meminfo_node path =
    if holds path (codes "meminfo")
    then (do
      node_node_pos ← find_text path (codes "node/node")
      let after_node_node = drop (node_node_pos + 9) path
      slash_pos ← find after_node_node b'/'
      node_id ← parse_uint (take slash_pos after_node_node)
      some (node_id % 2 ^ 32))
    else none

unfoldable pub numa_record : RawRecord → List NumaMemory × List Bytes → List NumaMemory × List Bytes
unfolding parse_numa_meminfo meminfo_node
numa_record rec (nodes, warnings) =
    if is_success rec.status
    then elim (meminfo_node rec.path_or_command) [
      | none ↦ (nodes, warnings)
      | some node_id ↦
          let got = parse_numa_meminfo rec.payload node_id warnings in
          let nm = got.0 in (if ltb 0 nm.total then (nodes ++ nm ∷ [], got.1) else (nodes, got.1))
    ]
    else (nodes, warnings)

unfoldable pub numa_records :
    List RawRecord → List NumaMemory × List Bytes → List NumaMemory × List Bytes
unfolding numa_record
numa_records [] state = state
numa_records (rec ∷ records) state = numa_records records (numa_record rec state)
