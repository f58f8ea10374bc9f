-- ===== src/Memory/Udev.antt =====
-- DIMMs of `udevadm info -e`: `parse_udevadm_dimms` of src/parser/memory.cpp. A `std::map` with
-- numbers as keys is a list that ascends in them, the set `present_seen` a list.
use sysal.Prelude.{
  ltb, leb, ◌==◌, if◌then◌else◌, length, take, drop, any, first, is_nil, get_or, Bytes, codes,
  text_eq, starts_with, ◌>>=◌, ℕ, ◌+◌, ◌-◌, ◌*◌, Bool, true, false, not, ◌&&◌, ◌||◌, Option, none,
  some, List, [], ◌∷◌, ◌++◌,
}
use sysal.Prelude.Maps.{utf8, update_id}
use sysal.Text.{trim, split, find, parse_kv, hardware_text}
use sysal.Number.{parse_uint, parse_u32}
use sysal.Memory.{DimmInfo, empty_dimm}

-- the fields of a DIMM that a number sets, if it is there and positive
unfoldable pub positive_or : Option ℕ → Option ℕ → Option ℕ
positive_or none old = old
positive_or (some v) old = if ltb 0 v then some v else old

-- millivolts of a decimal number of volts
unfoldable pub parse_millivolts : List Bytes → Option ℕ
parse_millivolts [] = none
parse_millivolts (front ∷ parts) =
    let fraction = get_or (first (λ part. true) parts) [] in
    if leb (length parts) 1 && leb (length fraction) 3
    then (do
      whole_volts ← parse_uint front
      decimal ← parse_uint (fraction ++ take (3 - length fraction) (codes "000"))
      (if leb whole_volts 100 && ltb decimal 1000
          then some (whole_volts * 1000 + decimal)
          else none))
    else none

unfoldable pub set_dimm_field : Bytes → Bytes → DimmInfo → DimmInfo
unfolding positive_or
set_dimm_field field value dimm =
    let v = parse_uint value in
    let v32 = parse_u32 value in
    if text_eq field (codes "TYPE")
    then record dimm { memory_type = value }
    else if text_eq field (codes "SPEED_MTS")
    then record dimm { speed_mts = positive_or v dimm.speed_mts }
    else if text_eq field (codes "CONFIGURED_SPEED_MTS")
    then record dimm { configured_speed_mts = positive_or v dimm.configured_speed_mts }
    else if text_eq field (codes "SIZE")
    then record dimm { size = get_or v dimm.size }
    else if text_eq field (codes "MANUFACTURER")
    then record dimm { manufacturer = some value }
    else if text_eq field (codes "PART_NUMBER")
    then record dimm { part_number = some value }
    else if text_eq field (codes "LOCATOR")
    then record dimm { locator = value }
    else if text_eq field (codes "BANK_LOCATOR")
    then record dimm { bank_locator = value }
    else if text_eq field (codes "RANK")
    then record dimm { rank_count = positive_or v32 dimm.rank_count }
    else if text_eq field (codes "TOTAL_WIDTH")
    then record dimm { total_width = positive_or v32 dimm.total_width }
    else if text_eq field (codes "DATA_WIDTH")
    then record dimm { data_width = positive_or v32 dimm.data_width }
    else if text_eq field (codes "FORM_FACTOR")
    then record dimm { form_factor = some value }
    else if text_eq field (codes "SERIAL_NUMBER")
    then record dimm { serial = value }
    else if text_eq field (codes "ASSET_TAG")
    then record dimm { asset_tag = value }
    else if text_eq field (codes "TYPE_DETAIL")
    then record dimm { type_detail = value }
    else if text_eq field (codes "CONFIGURED_VOLTAGE")
    then record dimm {
      configured_voltage_mv = elim (parse_millivolts (split value b'.')) [
        | none ↦ dimm.configured_voltage_mv
        | some mv ↦ some mv
      ];
    }
    else if text_eq field (codes "PRESENT")
    then record dimm { present = text_eq value (codes "1") }
    else dimm

pub record UdevState : Type 0 where
  pub dimm_map : List (ℕ × DimmInfo)
  pub present_seen : List ℕ
  pub memory_type : Bytes
  pub warnings : List Bytes

-- the type of all DIMMs, or `mixed`
unfoldable pub join_type : Bytes → Bytes → Bytes
join_type value out = if is_nil out then value else if text_eq out value then out else codes "mixed"

-- `dimm_map[idx32]` with the field set
unfoldable pub store_field : ℕ → Bytes → Bytes → UdevState → UdevState
unfolding set_dimm_field join_type
store_field idx field value st = record st {
  dimm_map = update_id idx (λ old. set_dimm_field field value (get_or old empty_dimm)) st.dimm_map;
  present_seen = if text_eq field (codes "PRESENT") then idx ∷ st.present_seen else st.present_seen;
  memory_type =
      if text_eq field (codes "TYPE") then join_type value st.memory_type else st.memory_type;
}

unfoldable pub warn : Bytes → Bytes → UdevState → UdevState
warn message text st = record st { warnings = st.warnings ++ (message ++ text) ∷ [] }

-- a key and a value that is not empty
unfoldable pub udev_field : Bytes → Bytes → UdevState → UdevState
unfolding store_field warn
udev_field key value st =
    let prefix = codes "MEMORY_DEVICE_" in
    if leb (length key) (length prefix) || not (starts_with key prefix)
    then st
    else (let after_prefix = drop (length prefix) key in
        elim (find after_prefix b'_') [
          | none ↦ warn (utf8 "parse_udevadm_dimms: key 前缀后无下划线: ") key st
          | some us_pos ↦
              let field = drop (us_pos + 1) after_prefix in
              (if is_nil field
                then warn (utf8 "parse_udevadm_dimms: key 下划线后无字段: ") key st
                else elim (parse_u32 (take us_pos after_prefix)) [
                  | none ↦ warn (utf8 "parse_udevadm_dimms: 索引解析失败: ") key st
                  | some idx ↦ store_field idx field value st
                ])
        ])

unfoldable pub starts_e : Bytes → Bool
starts_e [] = false
starts_e (c ∷ s) = c == b'E'

unfoldable pub udev_line : Bytes → UdevState → UdevState
unfolding udev_field warn starts_e
udev_line line st =
    let trimmed = trim line in
    let pair = parse_kv trimmed b':' in
    if not (starts_e trimmed)
    then st
    else if not (text_eq pair.0 (codes "E"))
    then warn (utf8 "parse_udevadm_dimms: 非 E 标签: ") trimmed st
    else if is_nil pair.1
    then warn (utf8 "parse_udevadm_dimms: E: 值为空: ") trimmed st
    else elim (find pair.1 b'=') [
      | none ↦ st
      | some eq_pos ↦
          let value = hardware_text (drop (eq_pos + 1) pair.1) in
          (if is_nil value then st else udev_field (trim (take eq_pos pair.1)) value st)
    ]

unfoldable pub udev_lines : List Bytes → UdevState → UdevState
unfolding udev_line
udev_lines [] st = st
udev_lines (line ∷ lines) st = udev_lines lines (udev_line line st)

-- a DIMM whose presence was not said is there if it has a size
unfoldable pub take_dimms : List ℕ → List (ℕ × DimmInfo) → List DimmInfo
take_dimms seen [] = []
take_dimms seen ((idx, dimm) ∷ dimm_map) =
    (if any (λ i. i == idx) seen then dimm else record dimm { present = ltb 0 dimm.size })
    ∷ take_dimms seen dimm_map

-- `complete_speed` and `out_configured_speed` behind the loop
unfoldable pub join_speed : List DimmInfo → Bool × Option ℕ → Bool × Option ℕ
join_speed [] state = state
join_speed (dimm ∷ dimms) (complete, out) = join_speed dimms (
    if dimm.present
    then elim dimm.configured_speed_mts [
      | none ↦ (false, out)
      | some v ↦ elim out [ none ↦ (complete, some v) | some o ↦ (complete && o == v, some o) ]
    ]
    else (complete, out))

unfoldable pub configured_speed : List DimmInfo → Option ℕ → Option ℕ
unfolding join_speed
configured_speed dimms out =
    let state = join_speed dimms (true, out) in if state.0 then state.1 else none

pub record UdevDimms : Type 0 where
  pub dimms : List DimmInfo
  pub memory_type : Bytes
  pub speed : Option ℕ
  pub warnings : List Bytes

unfoldable pub parse_udevadm_dimms : Bytes → List Bytes → Bytes → Option ℕ → UdevDimms
unfolding udev_lines take_dimms configured_speed
parse_udevadm_dimms payload warnings memory_type speed =
    let st = udev_lines (split payload b'\n') (record {
      dimm_map = [];
      present_seen = [];
      memory_type = memory_type;
      warnings = warnings;
    }) in
    let dimms = take_dimms st.present_seen st.dimm_map in
    record {
      dimms = dimms;
      memory_type = st.memory_type;
      speed = configured_speed dimms speed;
      warnings = st.warnings;
    }
