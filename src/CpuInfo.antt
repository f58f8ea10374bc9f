-- ===== src/CpuInfo.antt =====
-- /proc/cpuinfo: `parse_cpuinfo` of src/parser/cpu.cpp, as a state of entries, the entry that is
-- being read, and warnings.
pub mod Topology
pub mod Numa
pub mod NumaBound
pub mod Caches
pub mod Measures
pub mod Build
pub mod Parse
pub mod Keys
pub mod Placed
pub mod Sound
use sysal.Prelude.{
  ltb, if◌then◌else◌, drop, keep, is_nil, get_or, Bytes, codes, text_eq, text_mem, starts_with,
  ◌>>=◌, ℕ, Bool, true, false, not, ◌&&◌, ◌||◌, Option, none, some, List, [], ◌∷◌, ◌++◌,
}
use sysal.Text.{trim, split, parse_kv}
use sysal.Number.{max_u32, parse_uint, parse_u32, parse_hex}
use sysal.Cpu.{CpuIdentification}
use sysal.Cpu.Features.{insert_texts}
use sysal.Prelude.Maps.{utf8}

pub record CpuInfoEntry : Type 0 where
  pub processor_set : Bool
  pub processor : ℕ
  pub physical_id : ℕ
  pub core_id : ℕ
  pub model_name : Bytes
  pub vendor_id : Bytes
  pub flags : Bytes
  pub core_id_set : Bool
  pub identification : CpuIdentification

abbrev pub empty_identification : CpuIdentification
empty_identification = record {
  family = none;
  model = none;
  stepping = none;
  implementer = none;
  part = none;
  variant = none;
  revision = [];
  architecture = [];
  microcode = [];
  features = [];
  features_reported = false;
}

abbrev pub empty_entry : CpuInfoEntry
empty_entry = record {
  processor_set = false;
  processor = 0;
  physical_id = 0;
  core_id = 0;
  model_name = [];
  vendor_id = [];
  flags = [];
  core_id_set = false;
  identification = empty_identification;
}

pub record InfoState : Type 0 where
  pub entries : List CpuInfoEntry
  pub current : CpuInfoEntry
  pub has_entry : Bool
  pub warnings : List Bytes

-- without a core id, the processor is its own core
unfoldable pub complete_entry : CpuInfoEntry → CpuInfoEntry
complete_entry e = if e.core_id_set then e else record e { core_id = e.processor }

unfoldable pub finish_entry : InfoState → InfoState
unfolding complete_entry
finish_entry st = record st {
  entries =
      if st.has_entry && st.current.processor_set
      then st.entries ++ complete_entry st.current ∷ []
      else st.entries;
  current = empty_entry;
  has_entry = false;
}

abbrev processor_warning : Bytes → Bytes
processor_warning value = utf8 "parse_cpu: /proc/cpuinfo processor 解析失败: " ++ value

-- the features: the words between blanks, sorted, each one once
unfoldable pub feature_words : Bytes → List Bytes
feature_words value = insert_texts (keep (λ f. not (is_nil f)) (split value b' ')) []

unfoldable pub parse_id_number : Bytes → Option ℕ
parse_id_number value = do
  number ← (if starts_with value (codes "0x") then parse_hex (drop 2 value) else parse_uint value)
  (if ltb max_u32 number then none else some number)

abbrev number_keys : List Bytes
number_keys =
    codes "cpu family"
    ∷ codes "model"
    ∷ codes "stepping"
    ∷ codes "CPU implementer"
    ∷ codes "CPU part"
    ∷ codes "CPU variant"
    ∷ []

unfoldable pub set_id_number : Bytes → ℕ → CpuIdentification → CpuIdentification
set_id_number key number i =
    if text_eq key (codes "cpu family")
    then record i { family = some number }
    else if text_eq key (codes "model")
    then record i { model = some number }
    else if text_eq key (codes "stepping")
    then record i { stepping = some number }
    else if text_eq key (codes "CPU implementer")
    then record i { implementer = some number }
    else if text_eq key (codes "CPU part")
    then record i { part = some number }
    else record i { variant = some number }

unfoldable pub set_processor : Bytes → CpuInfoEntry → CpuInfoEntry × List Bytes
set_processor value e = elim (parse_u32 value) [
  | some n ↦ (record e { processor_set = true; processor = n }, [])
  | none ↦ (record e { processor_set = false }, processor_warning value ∷ [])
]

-- the other keys
unfoldable pub set_key : Bytes → Bytes → CpuInfoEntry → CpuInfoEntry
unfolding feature_words parse_id_number set_id_number
set_key key value e =
    let i = e.identification in
    if text_eq key (codes "physical id")
    then record e { physical_id = get_or (parse_u32 value) e.physical_id }
    else if text_eq key (codes "core id")
    then elim (parse_u32 value) [ none ↦ e | some n ↦ record e { core_id = n; core_id_set = true } ]
    else if text_eq key (codes "model name")
    then record e { model_name = value }
    else if text_eq key (codes "vendor_id")
    then record e { vendor_id = value }
    else if text_eq key (codes "flags") || text_eq key (codes "Features")
    then record e {
      flags = value;
      identification = record i { features_reported = true; features = feature_words value };
    }
    else if text_eq key (codes "microcode")
    then record e { identification = record i { microcode = value } }
    else if text_eq key (codes "CPU architecture")
    then record e { identification = record i { architecture = value } }
    else if text_eq key (codes "CPU revision")
    then record e { identification = record i { revision = value } }
    else if text_mem key number_keys
    then elim (parse_id_number value) [
      | none ↦ e
      | some n ↦ record e { identification = set_id_number key n i }
    ]
    else e

unfoldable pub read_key : Bytes → Bytes → InfoState → InfoState
unfolding set_processor set_key
read_key key value st =
    if text_eq key (codes "processor")
    then (let result = set_processor value st.current in
        record st { current = result.0; has_entry = true; warnings = st.warnings ++ result.1 })
    else record st { current = set_key key value st.current; has_entry = true }

unfoldable pub read_info_line : Bytes → InfoState → InfoState
unfolding finish_entry read_key
read_info_line line st =
    let trimmed = trim line in
    if is_nil trimmed
    then finish_entry st
    else (let pair = parse_kv trimmed b':' in read_key pair.0 pair.1 st)

unfoldable pub read_info_lines : List Bytes → InfoState → InfoState
unfolding read_info_line
read_info_lines [] st = st
read_info_lines (line ∷ lines) st = read_info_lines lines (read_info_line line st)

unfoldable pub parse_cpuinfo : Bytes → List Bytes → List CpuInfoEntry × List Bytes
unfolding read_info_lines finish_entry
parse_cpuinfo payload warnings =
    let st = finish_entry (
      read_info_lines (split payload b'\n')
        (record { entries = []; current = empty_entry; has_entry = false; warnings = warnings })) in
    (st.entries, st.warnings)
